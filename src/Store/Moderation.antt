-- ===== src/Store/Moderation.antt =====
-- The moderation calls of crates/store-sqlite/src/lib.rs, with the SQL of crates/core/src/sql.rs.
pub mod Footprint
pub mod Closed
pub mod Runs
use notespace.Base.{
  ℕ, suc, ◌+◌, Bool, true, false, not, ◌&&◌, Text, List, [], ◌∷◌, map, Option, none, some, ok, err,
  if◌then◌else◌, ◌==◌, length, any, text_eq,
}
use notespace.Model.{PublicId, Timestamp, PostState}
use notespace.Float.{Float}
use notespace.Moderation.{Category, Call, Verdict, ReviewReason, Resolution}
use notespace.Store.{
  not_found, PostRow, ThreadRow, ReviewRow, SignalRow, NewAction, World, M, return, throw,
  transaction,
}

-- `SELECT … WHERE test LIMIT 1`.
unfoldable pub find {ℓ} : {A : Type ℓ} → (A → Bool) → List A → Option A
find test [] = none
find test (x ∷ xs) = if test x then some x else find test xs

infixl 5 ◌>>=◌
abbrev ◌>>=◌ {ℓ κ} : {S : Type ℓ} {T : Type κ} (row : Option S) (next : S → Option T) → Option T
none >>= next = none
some row >>= next = next row

abbrev pub or_not_found : {F : Float} {A : Type 0} → Option A → M F A
or_not_found none = throw not_found
or_not_found (some a) = return a

pub record ReviewPost : Type 0 where
  pub id : ℕ
  pub public_id : PublicId
  pub thread_public_id : PublicId
  pub thread_title : Text
  pub space_id : ℕ
  pub space_name : Text
  pub space_config : Text
  pub author_id : ℕ
  pub author_name : Text
  pub author_created_at : Timestamp
  pub body_md : Text
  pub created_at : Timestamp
  pub state : PostState

pub record NewReview (F : Float) : Type 0 where
  pub post_id : ℕ
  pub space_id : ℕ
  pub reason : ReviewReason
  pub verdict : Option (Verdict F)
  pub appeal_text : Option Text
  pub opened_at : Timestamp

-- The columns of a `ReviewItem` that deciding it needs.
pub record ReviewItem (F : Float) : Type 0 where
  pub post_id : ℕ
  pub post_public_id : PublicId
  pub reason : ReviewReason
  pub model_verdict : Option Call
  pub resolved : Bool

pub record ReportTally : Type 0 where
  pub added : Bool
  pub count : ℕ

abbrev pub is_post : PublicId → PostRow → Bool
is_post post p = text_eq p.public_id post

unfoldable pub find_post : List PostRow → PublicId → Option PostRow
unfolding find
find_post posts post = find (is_post post) posts

abbrev update_state : PublicId → PostState → PostRow → PostRow
update_state post state p = if is_post post p then record p { state = state } else p

unfoldable pub update_posts : List PostRow → PublicId → PostState → List PostRow
update_posts posts post state = map (update_state post state) posts

-- `cache_version + 1` where the post's thread is.
abbrev bump : ℕ → ThreadRow → ThreadRow
bump id t = if t.id == id then record t { cache_version = t.cache_version + 1 } else t

unfoldable pub bump_thread_for_post : List ThreadRow → Option PostRow → List ThreadRow
bump_thread_for_post threads none = threads
bump_thread_for_post threads (some p) = map (bump p.thread_id) threads

-- `COALESCE(excluded.x, review_item.x)`.
abbrev coalesce : {A : Type 0} → Option A → Option A → Option A
coalesce none old = old
coalesce (some a) old = some a

-- `INSERT OR IGNORE` under the unique index on post and user.
abbrev pub same_signal : ℕ → ℕ → SignalRow → Bool
same_signal post user s = s.post_id == post && s.user_id == user

unfoldable pub count_signals : ℕ → List SignalRow → ℕ
count_signals post [] = 0
count_signals post (s ∷ rows) =
    if s.post_id == post then suc (count_signals post rows) else count_signals post rows

module _ {F : Float} where
  unfoldable pub joined : World F → PublicId → Option ReviewPost
  unfolding find
  joined w post = do
    p ← find_post w.posts post
    t ← find (λ t. t.id == p.thread_id) w.threads
    s ← find (λ s. s.id == t.space_id) w.spaces
    u ← find (λ u. u.id == p.author_id) w.users
    some (record {
      id = p.id;
      public_id = p.public_id;
      thread_public_id = t.public_id;
      thread_title = t.title;
      space_id = s.id;
      space_name = s.name;
      space_config = s.config;
      author_id = p.author_id;
      author_name = u.name;
      author_created_at = u.created_at;
      body_md = p.body_md;
      created_at = p.created_at;
      state = p.state;
    })

  unfoldable pub post_for_review : PublicId → M F ReviewPost
  unfolding joined
  post_for_review post = transaction (λ w. or_not_found (joined w post) w)

  set_state : PublicId → PostState → Option PostRow → M F (Unit {0})
  set_state post state none w = (err not_found, w)
  set_state post state (some p) w = (
    ok tt,
    record w {
      posts = update_posts w.posts post state;
      threads = bump_thread_for_post w.threads (some p);
    },
  )

  unfoldable pub set_post_state : PublicId → PostState → M F (Unit {0})
  unfolding set_state
  set_post_state post state = transaction (λ w. set_state post state (find_post w.posts post) w)

  unfoldable pub log_action : NewAction F → M F ℕ
  log_action a = transaction (λ w. (ok (length w.log + 1), record w { log = a ∷ w.log }))

  abbrev verdict_call : Option (Verdict F) → Option Call
  verdict_call none = none
  verdict_call (some v) = some v.call

  abbrev verdict_confidence : Option (Verdict F) → Option F.Value
  verdict_confidence none = none
  verdict_confidence (some v) = some v.confidence

  abbrev verdict_categories : Option (Verdict F) → Option (List Category)
  verdict_categories none = none
  verdict_categories (some v) = some v.categories

  new_row : ℕ → NewReview F → ReviewRow F
  new_row id r = record {
    id = id;
    post_id = r.post_id;
    space_id = r.space_id;
    reason = r.reason;
    model_verdict = verdict_call r.verdict;
    model_confidence = verdict_confidence r.verdict;
    model_categories = verdict_categories r.verdict;
    appeal_text = r.appeal_text;
    opened_at = r.opened_at;
    is_open = true;
    resolution = none;
    resolved_by = none;
    resolved_at = none;
  }

  reopened : NewReview F → ReviewRow F → ReviewRow F
  reopened r old = record old {
    reason = r.reason;
    model_verdict = coalesce (verdict_call r.verdict) old.model_verdict;
    model_confidence = coalesce (verdict_confidence r.verdict) old.model_confidence;
    model_categories = coalesce (verdict_categories r.verdict) old.model_categories;
    appeal_text = coalesce r.appeal_text old.appeal_text;
    opened_at = r.opened_at;
    is_open = true;
    resolution = none;
    resolved_by = none;
    resolved_at = none;
  }

  -- Rows of the table are never deleted, so the next id is one above their number.
  unfoldable pub upsert : ℕ → NewReview F → List (ReviewRow F) → List (ReviewRow F)
  unfolding new_row reopened
  upsert next r [] = new_row next r ∷ []
  upsert next r (old ∷ rows) =
      let rest = upsert next r rows in
      if old.post_id == r.post_id then reopened r old ∷ rows else old ∷ rest

  unfoldable pub open_review : NewReview F → M F (Unit {0})
  unfolding upsert
  open_review r =
      transaction (λ w. (ok tt, record w { reviews = upsert (length w.reviews + 1) r w.reviews }))

  unfoldable pub review_by_id : World F → ℕ → Option (ReviewItem F)
  unfolding find
  review_by_id w id = do
    r ← find (λ r. r.id == id) w.reviews
    p ← find (λ p. p.id == r.post_id) w.posts
    t ← find (λ t. t.id == p.thread_id) w.threads
    s ← find (λ s. s.id == r.space_id) w.spaces
    u ← find (λ u. u.id == p.author_id) w.users
    some (record {
      post_id = r.post_id;
      post_public_id = p.public_id;
      reason = r.reason;
      model_verdict = r.model_verdict;
      resolved = not r.is_open;
    })

  pub resolved_row : ℕ → Resolution → ℕ → Timestamp → ReviewRow F → ReviewRow F
  resolved_row id resolution by now r =
      if r.id == id && r.is_open
      then record r {
        is_open = false;
        resolution = some resolution;
        resolved_by = some by;
        resolved_at = some now;
      }
      else r

  resolve : ℕ → Resolution → ℕ → Timestamp → Option (ReviewItem F) → M F (Option (ReviewItem F))
  resolve id resolution by now none w = (ok none, w)
  resolve id resolution by now (some item) w = if item.resolved then (ok none, w) else (
    ok (some item),
    record w { reviews = map (resolved_row id resolution by now) w.reviews },
  )

  -- The update changes the open row that was just read, so `changed > 0`.
  unfoldable pub resolve_review : ℕ → Resolution → ℕ → Timestamp → M F (Option (ReviewItem F))
  unfolding resolve resolved_row review_by_id
  resolve_review id resolution by now =
      transaction (λ w. resolve id resolution by now (review_by_id w id) w)

  insert_signal : SignalRow → Bool → World F → World F
  insert_signal s true w = w
  insert_signal s false w = record w { signals = s ∷ w.signals }

  unfoldable pub add_report : SignalRow → M F ReportTally
  unfolding insert_signal count_signals
  add_report s = transaction (λ w.
      let known = any (same_signal s.post_id s.user_id) w.signals in
      let w' = insert_signal s known w in
      (ok (record { added = not known; count = count_signals s.post_id w'.signals }), w'))
