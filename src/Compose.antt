-- ===== src/Compose.antt =====
-- crates/core/src/compose.rs: starting a thread with its first post, over a store whose calls may
-- fail.
pub mod Adding
pub mod Creating
pub mod Drafts
pub mod Examples
use notespace.Base.{
  ℕ, ◌+◌, Bool, not, ◌&&◌, ◌||◌, Text, codes, List, [], ◌∷◌, ◌++◌, Option, none, some, length, take,
  any, Result, ok, err, if◌then◌else◌, ltb, leb, ◌==◌, pos,
}
use notespace.Model.{PublicId, Timestamp, PostState, ThreadKind, post_state_eq}
use notespace.Float.{Float}
use notespace.Strings.{trim, is_empty, is_whitespace}
use notespace.Decimal.{show_i64}
use notespace.RateLimit.{Limit, Decision, check, allowed, next, retry_after_secs}
use notespace.Moderation.{Reason}
use notespace.Heuristics.{Refusal}
use notespace.SpaceKey.{SpacePath}
use notespace.TreePath.{starts_with}
use notespace.Store.{StoreError, SpaceRow, ThreadRow, M, return, throw, handle, ◌>>=◌, ◌>>◌}
use notespace.Store.Writing.{
  WriteContext, NewPost, Post, AttemptKeys, attempt_keys, insert_post, login_attempts,
}
use notespace.Store.Threads.{NewThread, space_by_path, space_context, create_thread}
use notespace.Pipeline.{hold}
use notespace.Reply as Reply
use notespace.Reply.{
  Environment, check_body, longest_wait, state_for, triage, record_next, max_path_retries,
}

abbrev pub min_title_chars : ℕ
min_title_chars = 3

abbrev pub max_title_chars : ℕ
max_title_chars = 200

abbrev pub max_url_chars : ℕ
max_url_chars = 2000

pub record ComposeConfig : Type 0 where
  pub per_author : Limit
  pub per_client : Limit

pub record Draft : Type 0 where
  pub space : SpacePath
  pub author : ℕ
  pub title : Text
  pub url : Text
  pub body_md : Text
  pub client : Text
  pub thread_id : PublicId
  pub post_ids : List PublicId
  pub now : Timestamp

pub data Rejected : Type 0 where
  bad_title bad_url no_such_space duplicate contended : Rejected
  body : Reply.Rejected → Rejected

pub data Outcome : Type 0 where
  posted held : ThreadRow → Post → Outcome
  rejected : Rejected → Outcome
  rate_limited : ℕ → Outcome

abbrev pub is_title : Text → Bool
is_title title =
    leb min_title_chars (length title)
    && leb (length title) max_title_chars
    && not (any (λ c. c == 13 || c == 10) title)

-- `char::is_control`, the class Cc of Unicode.
abbrev pub is_control : ℕ → Bool
is_control c = ltb c 32 || (leb 127 c && leb c 159)

abbrev pub is_url : Text → Bool
is_url url =
    (starts_with url (codes "https://") || starts_with url (codes "http://"))
    && leb (length url) max_url_chars
    && not (any (λ c. is_whitespace c || is_control c) url)

abbrev checked_body :
    Text → Option Text → Result Reply.Rejected (Unit {0}) → Result Rejected (Text × Option Text)
checked_body title url (err why) = err (Rejected.body why)
checked_body title url (ok _) = ok (title, url)

unfoldable pub check_draft : Text → Text → Text → Result Rejected (Text × Option Text)
check_draft title url body_md =
    let title = trim title in
    let url = trim url in
    if not (is_title title)
    then err Rejected.bad_title
    else if is_empty url
    then checked_body title none (check_body body_md)
    else if not (is_url url)
    then err Rejected.bad_url
    else checked_body title (some url) (check_body body_md)

abbrev pub kind_of : Option Text → ThreadKind
kind_of none = ThreadKind.discussion
kind_of (some url) = ThreadKind.link

abbrev pub scanned : Text → Text → Text
scanned title body_md = title ++ 10 ∷ 10 ∷ body_md

abbrev pub new_thread : Draft → Text → Option Text → SpaceRow → NewThread
new_thread d title url space = record {
  public_id = d.thread_id;
  space_id = space.id;
  space_path = space.path;
  kind = kind_of url;
  title = title;
  url = url;
  author_id = d.author;
  created_at = d.now;
}

abbrev pub first_post : Draft → PublicId → PostState → PublicId → NewPost
first_post d thread state id = record {
  public_id = id;
  thread = thread;
  parent = none;
  author_id = d.author;
  body_md = d.body_md;
  created_at = d.now;
  state = state;
}

module _ {F : Float} (env : Environment F) (d : Draft) where
  after_insert : ThreadRow → List Reason → Post → M F Outcome
  after_insert thread reasons post =
      if post_state_eq (state_for reasons) PostState.pending
      then (do hold env.services post.id post.public_id reasons d.now; return (held thread post))
      else return (posted thread post)

  inserted : ThreadRow → List Reason → M F Outcome → Result StoreError Post → M F Outcome
  inserted thread reasons again (ok post) = after_insert thread reasons post
  inserted thread reasons again (err StoreError.conflict) = again
  inserted thread reasons again (err e) = throw e

  -- The loop over the ids.
  pub attempt_ids : ThreadRow → List Reason → List PublicId → M F Outcome
  attempt_ids thread reasons [] = return (rejected Rejected.contended)
  attempt_ids thread reasons (id ∷ ids) =
      handle
        (insert_post env.show_path_error (first_post d thread.public_id (state_for reasons) id))
        (inserted thread reasons (attempt_ids thread reasons ids))

  triaged :
      AttemptKeys
      → Decision
      → Decision
      → Text
      → Option Text
      → SpaceRow
      → Result Refusal (List Reason)
      → M F Outcome
  triaged keys author client title url space (err why) = return (rejected Rejected.duplicate)
  triaged keys author client title url space (ok reasons) = do
    thread ← create_thread (new_thread d title url space)
    record_next env keys.identity (next author)
    record_next env keys.client (next client)
    attempt_ids thread reasons (take (max_path_retries + 1) d.post_ids)

  in_context :
      AttemptKeys
      → Decision
      → Decision
      → Text
      → Option Text
      → SpaceRow
      → Result StoreError WriteContext
      → M F Outcome
  in_context keys author client title url space (err StoreError.not_found) =
      return (rejected Rejected.no_such_space)
  in_context keys author client title url space (err e) = throw e
  in_context keys author client title url space (ok ctx) = do
    reasons ← triage env ctx d.author (scanned title d.body_md) (some d.body_md) d.now
    triaged keys author client title url space reasons

  in_space : AttemptKeys → Decision → Decision → Text → Option Text → Option SpaceRow → M F Outcome
  in_space keys author client title url none = return (rejected Rejected.no_such_space)
  in_space keys author client title url (some space) =
      handle (space_context space.id d.author) (in_context keys author client title url space)

  limited : AttemptKeys → Decision → Decision → Text → Option Text → M F Outcome
  limited keys author client title url =
      if not (allowed author) || not (allowed client)
      then return (rate_limited (longest_wait (retry_after_secs author) (retry_after_secs client)))
      else do space ← space_by_path d.space; in_space keys author client title url space

  abbrev pub keys_of : AttemptKeys
  keys_of =
      attempt_keys env.unicode.to_lowercase (codes "thread:" ++ show_i64 (pos d.author)) d.client

  checked : ComposeConfig → Result Rejected (Text × Option Text) → M F Outcome
  checked cfg (err why) = return (rejected why)
  checked cfg (ok (title, url)) = do
    (author_state, client_state) ← login_attempts keys_of
    limited keys_of (check cfg.per_author author_state d.now)
        (check cfg.per_client client_state d.now) title url

  pub create : ComposeConfig → M F Outcome
  create cfg = checked cfg (check_draft d.title d.url d.body_md)
