-- ===== src/Compose/Examples.antt =====
-- Drafts on a site of one space, and the theorem of compose.rs applied to one.
use notespace.Base.{codes, [], ◌∷◌, some, ok, err, ◌≡◌, refl}
use notespace.Model.{PostState}
use notespace.Float.{centi}
use notespace.Strings.{trim, trim_start, trim_end, is_whitespace}
use notespace.TreePath.{starts_with}
use notespace.Pipeline.Site.{site}
use notespace.Store.{World}
use notespace.Reply.{check_body}
use notespace.Reply.Examples.{env}
use notespace.Compose.{ComposeConfig, Draft, Rejected, check_draft, create}
use notespace.Compose.Creating.{Creates, create-Creates}

link_accepted :
    check_draft (codes " padded ") (codes "https://example.com/x") (codes "a body")
    ≡ ok (codes "padded", some (codes "https://example.com/x"))
unfolding check_draft check_body trim trim_start trim_end is_whitespace starts_with
link_accepted = refl

two_lines_refused : check_draft (codes "two\nlines") [] (codes "a body") ≡ err Rejected.bad_title
unfolding check_draft check_body trim trim_start trim_end is_whitespace starts_with
two_lines_refused = refl

script_refused :
    check_draft (codes "title") (codes "javascript:alert(1)") (codes "a body")
    ≡ err Rejected.bad_url
unfolding check_draft check_body trim trim_start trim_end is_whitespace starts_with
script_refused = refl

abbrev config : ComposeConfig
config = record {
  per_author = record { max = 3; window_ms = 60000 };
  per_client = record { max = 9; window_ms = 60000 };
}

abbrev draft : Draft
draft = record {
  space = record { stored = codes "space/" };
  author = 4;
  title = codes "a new topic";
  url = [];
  body_md = codes "an opening";
  client = codes "10.0.0.1";
  thread_id = codes "t9";
  post_ids = codes "n1" ∷ codes "n2" ∷ [];
  now = 1000000000000;
}

abbrev start : World centi
start = site PostState.visible [] [] []

create-Creates_example : Creates env draft config start (create env draft config start)
create-Creates_example = create-Creates env draft config start
