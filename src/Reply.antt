-- ===== src/Reply.antt =====
-- crates/core/src/reply.rs: posting a reply, over a store whose calls may fail.
pub mod Adding
pub mod Bodies
pub mod Calls
pub mod Posting
pub mod Examples
use notespace.Base.{
  ℕ, ◌+◌, ◌-◌, Bool, true, false, not, ◌||◌, Text, List, [], ◌∷◌, Option, none, some, length, take,
  max, Result, ok, err, if◌then◌else◌, ltb, ℤ, pos, negsuc, is_pos,
}
use notespace.Model.{PublicId, Timestamp, PostState, ThreadState, post_state_eq}
use notespace.Float.{Float}
use notespace.Strings.{trim, is_empty}
use notespace.Decimal.{show_i64}
use notespace.RateLimit.{Limit, Decision, check, allowed, next, retry_after_secs, Attempts}
use notespace.Moderation.{Reason}
use notespace.Moderation.Policy.{from_config, duplicate_window_ms}
use notespace.Heuristics as Heuristics
use notespace.Heuristics.{Unicode, Signals, Triage, Refusal, refuse}
use notespace.TreePath.{PathError}
use notespace.Store.{StoreError, M, return, throw, handle, ◌>>=◌, ◌>>◌}
use notespace.Store.Writing.{
  WriteContext, NewPost, Post, AttemptKeys, attempt_keys, write_context, author_posted_recently,
  insert_post, login_attempts, record_login_attempt,
}
use notespace.Pipeline.{Services, hold}

abbrev pub min_body_chars : ℕ
min_body_chars = 2

abbrev pub max_body_chars : ℕ
max_body_chars = 32768

abbrev pub max_path_retries : ℕ
max_path_retries = 3

pub record ReplyConfig : Type 0 where
  pub per_author : Limit
  pub per_client : Limit

pub record Reply : Type 0 where
  pub thread : PublicId
  pub parent : Option PublicId
  pub author : ℕ
  pub body_md : Text
  pub client : Text
  pub ids : List PublicId
  pub now : Timestamp

pub data Rejected : Type 0 where
  empty not_found contended locked duplicate : Rejected
  too_long : ℕ → ℕ → Rejected
  too_deep : ℕ → Rejected

pub data Outcome : Type 0 where
  posted held : Post → Outcome
  rejected : Rejected → Outcome
  rate_limited : ℕ → Outcome

unfoldable pub check_body : Text → Result Rejected (Unit {0})
check_body body =
    let chars = length (trim body) in
    if ltb chars min_body_chars
    then err Rejected.empty
    else if ltb max_body_chars chars
    then err (Rejected.too_long chars max_body_chars)
    else ok tt

-- `into_iter().chain(..).max().unwrap_or(1)`.
abbrev pub longest_wait : Option ℕ → Option ℕ → ℕ
longest_wait (some a) (some b) = max a b
longest_wait (some a) none = a
longest_wait none (some b) = b
longest_wait none none = 1

abbrev pub takes_replies : ThreadState → Bool
takes_replies ThreadState.visible = true
takes_replies ThreadState.pinned = true
takes_replies _ = false

abbrev pub state_for : List Reason → PostState
state_for reasons = if is_empty reasons then PostState.visible else PostState.pending

-- The code that the write path is given: the pipeline's, the tables of Unicode, and the texts of
-- the error library.
pub record Environment (F : Float) : Type 0 where
  pub services : Services F
  pub unicode : Unicode
  pub show_path_error : PathError → Text

module _ {F : Float} (env : Environment F) where
  -- `Ok(reasons)` and `Err(refusal)`; a refusal is a duplicate.
  abbrev pub to_reasons : Triage → Result Refusal (List Reason)
  to_reasons (refuse why) = err why
  to_reasons Triage.publish = ok []
  to_reasons (Triage.hold reasons) = ok reasons

  abbrev pub signals_of : WriteContext → Text → Bool → Timestamp → Signals
  signals_of ctx scanned is_duplicate now = record {
    body_md = scanned;
    author_created_at = ctx.author_created_at;
    author_role = ctx.author_role;
    is_duplicate = is_duplicate;
    now = now;
  }

  -- The window starts at 0 where it would start before 1970, which no post is older than.
  abbrev pub asked : ℕ → Text → Timestamp → ℤ → M F Bool
  asked author body now (pos window) = author_posted_recently author body (now - window)
  asked author body now (negsuc n) = return false

  abbrev pub duplicate_asked : ℕ → Option Text → Timestamp → ℤ → M F Bool
  duplicate_asked author none now window = return false
  duplicate_asked author (some body) now window =
      if is_pos window then asked author body now window else return false

  unfoldable pub triage :
      WriteContext → ℕ → Text → Option Text → Timestamp → M F (Result Refusal (List Reason))
  triage ctx author scanned body now = do
    let policy = from_config F env.services.parse_policy ctx.space_config
    is_duplicate ← duplicate_asked author body now (duplicate_window_ms F policy)
    return (
        to_reasons
          (Heuristics.triage env.unicode F policy (signals_of ctx scanned is_duplicate now)))

  abbrev pub new_post : Reply → PostState → PublicId → NewPost
  new_post r state id = record {
    public_id = id;
    thread = r.thread;
    parent = r.parent;
    author_id = r.author;
    body_md = r.body_md;
    created_at = r.now;
    state = state;
  }

  abbrev pub record_next : Text → Option Attempts → M F (Unit {0})
  record_next key none = return tt
  record_next key (some a) = record_login_attempt key a

  pub after_insert : Reply → AttemptKeys → Decision → Decision → List Reason → Post → M F Outcome
  after_insert r keys author client reasons post = do
    record_next keys.identity (next author)
    record_next keys.client (next client)
    if post_state_eq (state_for reasons) PostState.pending
        then (do hold env.services post.id post.public_id reasons r.now; return (held post))
        else return (posted post)

  -- The arms of `match store.insert_post(&new).await`, with the rest of the loop.
  inserted :
      Reply
      → AttemptKeys
      → Decision
      → Decision
      → List Reason
      → M F Outcome
      → Result StoreError Post
      → M F Outcome
  inserted r keys author client reasons again (ok post) =
      after_insert r keys author client reasons post
  inserted r keys author client reasons again (err StoreError.conflict) = again
  inserted r keys author client reasons again (err (StoreError.too_deep cap)) =
      return (rejected (Rejected.too_deep cap))
  inserted r keys author client reasons again (err StoreError.not_found) =
      return (rejected Rejected.not_found)
  inserted r keys author client reasons again (err e) = throw e

  -- The loop over the ids.
  pub attempt_ids :
      Reply → AttemptKeys → Decision → Decision → List Reason → List PublicId → M F Outcome
  unfolding inserted after_insert
  attempt_ids r keys author client reasons [] = return (rejected Rejected.contended)
  attempt_ids r keys author client reasons (id ∷ ids) =
      handle (insert_post env.show_path_error (new_post r (state_for reasons) id))
        (inserted r keys author client reasons (attempt_ids r keys author client reasons ids))

  triaged : Reply → AttemptKeys → Decision → Decision → Result Refusal (List Reason) → M F Outcome
  triaged r keys author client (err why) = return (rejected Rejected.duplicate)
  triaged r keys author client (ok reasons) =
      attempt_ids r keys author client reasons (take (max_path_retries + 1) r.ids)

  in_context :
      Reply → AttemptKeys → Decision → Decision → Result StoreError WriteContext → M F Outcome
  in_context r keys author client (err StoreError.not_found) = return (rejected Rejected.not_found)
  in_context r keys author client (err e) = throw e
  in_context r keys author client (ok ctx) =
      if not (takes_replies ctx.thread_state) then return (rejected Rejected.locked) else do
        reasons ← triage ctx r.author r.body_md (some r.body_md) r.now
        triaged r keys author client reasons

  unfoldable pub limited : Reply → AttemptKeys → Decision → Decision → M F Outcome
  unfolding in_context triaged attempt_ids
  limited r keys author client =
      if not (allowed author) || not (allowed client)
      then return (rate_limited (longest_wait (retry_after_secs author) (retry_after_secs client)))
      else handle (write_context r.thread r.author) (in_context r keys author client)

  abbrev pub keys_of : Reply → AttemptKeys
  keys_of r = attempt_keys env.unicode.to_lowercase (show_i64 (pos r.author)) r.client

  checked_body : ReplyConfig → Reply → Result Rejected (Unit {0}) → M F Outcome
  checked_body cfg r (err why) = return (rejected why)
  checked_body cfg r (ok _) = do
    (author_state, client_state) ← login_attempts (keys_of r)
    limited r (keys_of r) (check cfg.per_author author_state r.now)
        (check cfg.per_client client_state r.now)

  unfoldable pub post : ReplyConfig → Reply → M F Outcome
  unfolding checked_body
  post cfg r = checked_body cfg r (check_body r.body_md)
