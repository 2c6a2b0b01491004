-- ===== src/Reply/Examples.antt =====
-- Replies on a site of one space, and the theorems of reply.rs applied to them.
use notespace.Base.{codes, [], ◌∷◌, none, some, ok, ◌≡◌, refl}
use notespace.Model.{PostState}
use notespace.Float.{centi}
use notespace.Heuristics.Examples.{ascii}
use notespace.Pipeline.Site.{site, services}
use notespace.Store.{World}
use notespace.Base.{text_eq, wrap_i64}
use notespace.Strings.{trim, trim_end, trim_start, is_whitespace}
use notespace.TreePath.{starts_with, root, encode_segment, encode_digits, digit_char}
use notespace.Decimal.{show_i64, show_digits}
use notespace.RateLimit.{check, in_window}
use notespace.Moderation.Policy.{duplicate_window_ms, from_config, clamped, new_account_ms}
use notespace.Heuristics.{
  triage as free_triage, reasons_for, is_new, blocked_term, contains_text, count_links, fold,
  is_shouting, manipulates, split_whitespace,
}
use notespace.Allocation.{allocate, search_bounds}
use notespace.Store.{bind, transaction, handle}
use notespace.Store.Moderation.{find}
use notespace.Store.Writing.{
  login_attempts, attempts_of, write_context, joined_context, author_posted_recently, insert_at,
  insert_post, last_path_in_range, planned, record_login_attempt,
}
use notespace.Reply.{
  Environment, ReplyConfig, Reply, Rejected, post, posted, rejected, check_body, limited, triage,
  checked_body, in_context, triaged, attempt_ids, inserted, after_insert,
}
use notespace.Reply.Posting.{Posts, post-Posts}

abbrev pub env : Environment centi
env = record { services = services; unicode = ascii; show_path_error = λ e. codes "path" }

abbrev config : ReplyConfig
config = record {
  per_author = record { max = 3; window_ms = 60000 };
  per_client = record { max = 9; window_ms = 60000 };
}

abbrev reply : Reply
reply = record {
  thread = codes "t1";
  parent = some (codes "p1");
  author = 4;
  body_md = codes "an answer";
  client = codes "10.0.0.1";
  ids = codes "n1" ∷ codes "n2" ∷ [];
  now = 1000000000000;
}

abbrev start : World centi
start = site PostState.visible [] [] []

abbrev opening : Reply
opening = record reply { parent = none }

abbrev empty_site : World centi
empty_site = record start { posts = [] }

first_post_visible :
    (post env config opening empty_site).0
    ≡ ok (
        posted (record {
          id = 1;
          public_id = codes "n1";
          thread_id = 3;
          parent_id = none;
          path = record { text = codes "0000" };
          state = PostState.visible;
        }))
unfolding post check_body limited triage trim bind login_attempts transaction check attempts_of
    text_eq handle write_context joined_context checked_body in_context triaged attempt_ids inserted
    after_insert duplicate_window_ms wrap_i64 from_config author_posted_recently free_triage
    reasons_for is_new allocate search_bounds show_digits show_i64 blocked_term contains_text
    count_links fold is_shouting manipulates split_whitespace clamped new_account_ms find insert_at
    insert_post last_path_in_range planned record_login_attempt is_whitespace trim_end trim_start
    starts_with in_window root encode_segment encode_digits digit_char
first_post_visible = refl

unknown_thread :
    post env config reply (record start { threads = [] })
    ≡ (ok (rejected Rejected.not_found), record start { threads = [] })
unfolding post check_body limited triage trim bind login_attempts transaction check attempts_of
    text_eq handle write_context joined_context
unknown_thread = refl

post-Posts_example : Posts env config reply start (post env config reply start)
post-Posts_example = post-Posts env config reply start
