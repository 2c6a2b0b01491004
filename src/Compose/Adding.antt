-- ===== src/Compose/Adding.antt =====
-- The first post of a thread that `create` of crates/core/src/compose.rs has started: its row, and
-- the answer.
use notespace.Base.{
  any, ℕ, true, false, ◌+◌, Text, List, [], ◌∷◌, map, Option, none, some, Result, ok, err, text_eq,
  text_eq_refl, ◌==◌, ==_refl, All, ◌≡◌, ◌⊎◌, inl, inr, refl, sym, ap, ◌∙◌, subst,
}
use mathlib.Core.Option.{some-injective}
use notespace.Model.{PublicId, PostState, ThreadState, ThreadKind, Timestamp}
use notespace.Float.{Float}
use notespace.Moderation.{Reason}
use notespace.Store.{World, M, StoreError, PostRow, ThreadRow, SpaceRow, spend}
use notespace.Store.Moderation.{find}
use notespace.Store.Writing.{NewPost, Post, new_post_row, bumped}
use notespace.Store.Writing.Runs.{insert_post-cases}
use notespace.Store.Writing.Fresh.{planned-steps}
use notespace.Store.Writing.Placing.{Inserted, planned-Inserted}
use notespace.Reply.{Environment, state_for}
use notespace.Reply.Calls.{hold-cases}
use notespace.Reply.Adding.{wanted_state}
use notespace.Compose.{
  Draft, Rejected, Outcome, posted, held, rejected, rate_limited, first_post, after_insert,
  inserted, attempt_ids,
}

abbrev pub wanted_answer : List Reason → ThreadRow → Post → Outcome
wanted_answer [] = posted
wanted_answer (r ∷ rs) = held

abbrev pub wanted_post : Draft → ThreadRow → List Reason → PublicId → NewPost
wanted_post d thread reasons id = record {
  public_id = id;
  thread = thread.public_id;
  parent = none;
  author_id = d.author;
  body_md = d.body_md;
  created_at = d.now;
  state = wanted_state reasons;
}

abbrev pub wanted_kind : Option Text → ThreadKind
wanted_kind none = ThreadKind.discussion
wanted_kind (some url) = ThreadKind.link

-- The thread of a draft: what its row says, and that no other thread has its row id or public id.
pub record Started (threads : List ThreadRow) (d : Draft) (title : Text) (url : Option Text)
    (space : SpaceRow) (thread : ThreadRow) : Type 0 where
  pub named : thread.public_id ≡ d.thread_id
  pub in_space : thread.space_id ≡ space.id
  pub in_path : thread.space_path ≡ space.path
  pub of_kind : thread.kind ≡ wanted_kind url
  pub titled : thread.title ≡ title
  pub linked : thread.url ≡ url
  pub by_author : thread.author_id ≡ d.author
  pub at_time : thread.created_at ≡ d.now
  pub in_state : thread.state ≡ ThreadState.visible
  pub without_posts : thread.post_count ≡ 0
  pub fresh : All (λ t. (t.id == thread.id) ≡ false) threads
  pub unnamed : any (λ t. text_eq t.public_id d.thread_id) threads ≡ false

-- The thread with one post more.
abbrev pub counted : Timestamp → ThreadRow → ThreadRow
counted now t = record t {
  post_count = t.post_count + 1;
  bumped_at = now;
  cache_version = t.cache_version + 1;
}

abbrev Failed : Result StoreError Outcome → Type 0
Failed result = (e : StoreError) × (result ≡ err e)

-- The answer says that nothing was started.
abbrev pub Declines : Result StoreError Outcome → Type 0
Declines result =
    ((why : Rejected) × (result ≡ ok (rejected why)))
    ⊎ ((secs : ℕ) × (result ≡ ok (rate_limited secs)))
    ⊎ Failed result

-- The answer names the thread and the row, and says whether the post is held.
abbrev pub Answers : List Reason → ThreadRow → PostRow → Result StoreError Outcome → Type 0
Answers reasons thread row result =
    ((p : Post) × (p.id ≡ row.id)
      × (p.state ≡ row.state)
      × (result ≡ ok (wanted_answer reasons thread p)))
    ⊎ Failed result

module _ {F : Float} where
  -- After the thread is started: no post, and the answer says so; or one, the draft's, in the new
  -- thread, which counts it.
  abbrev pub Adds :
      Draft
      → ThreadRow
      → List Reason
      → List ThreadRow
      → List PostRow
      → Result StoreError Outcome × World F
      → Type 0
  Adds d thread reasons threads posts t =
      ((t.1.posts ≡ posts)
        × (t.1.threads ≡ thread ∷ threads)
        × ((t.0 ≡ ok (rejected Rejected.contended)) ⊎ Failed t.0))
      ⊎ ((id : PublicId) × (row : PostRow) × Inserted (thread ∷ threads) posts
            (wanted_post d thread reasons id) row
          × (row.thread_id ≡ thread.id)
          × (t.1.posts ≡ row ∷ posts)
          × (t.1.threads ≡ counted d.now thread ∷ threads)
          × Answers reasons thread row t.0)

bumped_others :
    (id : ℕ) (now : Timestamp) (threads : List ThreadRow)
    → All (λ t. (t.id == id) ≡ false) threads
    → map (bumped id now) threads ≡ threads
bumped_others id now [] h = refl
bumped_others id now (t ∷ threads) (h, hs) =
    let one : bumped id now t ≡ t = rw h refl in λ i. one i ∷ bumped_others id now threads hs i

bumped_first :
    (id : ℕ) (now : Timestamp) (thread : ThreadRow) (threads : List ThreadRow)
    → id ≡ thread.id
    → All (λ t. (t.id == thread.id) ≡ false) threads
    → map (bumped id now) (thread ∷ threads) ≡ counted now thread ∷ threads
bumped_first id now thread threads e h =
    let one : bumped thread.id now thread ≡ counted now thread = rw (==_refl thread.id) refl in
    ap (λ n. map (bumped n now) (thread ∷ threads)) e
    ∙ (λ i. one i ∷ bumped_others thread.id now threads h i)

found_first :
    (id : PublicId) (thread : ThreadRow) (threads : List ThreadRow) {found : ThreadRow}
    → thread.public_id ≡ id
    → find (λ t. text_eq t.public_id id) (thread ∷ threads) ≡ some found
    → found ≡ thread
unfolding find
found_first id thread threads {found} e h =
    let hit : text_eq thread.public_id id ≡ true =
      ap (text_eq thread.public_id) (sym e) ∙ text_eq_refl thread.public_id in
    let first : find (λ t. text_eq t.public_id id) (thread ∷ threads) ≡ some thread = rw hit refl in
    some-injective _ _ (sym h ∙ first)

module _ {F : Float} (env : Environment F) (d : Draft) where
  after_insert-Answers :
      (thread : ThreadRow) (reasons : List Reason) (p : Post) (row : PostRow) (v : World F)
      → p.id ≡ row.id
      → p.state ≡ row.state
      → let t = after_insert env d thread reasons p v in
        (t.1.posts ≡ v.posts) × (t.1.threads ≡ v.threads) × Answers reasons thread row t.0
  unfolding after_insert
  after_insert-Answers thread [] p row v i s = (refl, refl, inl (p, i, s, refl))
  after_insert-Answers thread (x ∷ xs) p row v i s =
      let P = λ (t : Result StoreError Outcome × World F).
        (t.1.posts ≡ v.posts) × (t.1.threads ≡ v.threads) × Answers (x ∷ xs) thread row t.0 in
      hold-cases env P p.id p.public_id (x ∷ xs) d.now _ v (refl, refl, inr (_, refl))
        (λ told u posts threads. (posts, threads, inl (p, i, s, refl)))

  inserted-Adds :
      (thread : ThreadRow) (reasons : List Reason) (again : M F Outcome) (e : StoreError)
      (threads : List ThreadRow) (v : World F)
      → v.threads ≡ thread ∷ threads
      → Adds d thread reasons threads v.posts (again v)
      → Adds d thread reasons threads v.posts (inserted env d thread reasons again (err e) v)
  unfolding inserted
  inserted-Adds thread reasons again StoreError.not_found threads v t h =
      inl (refl, t, inr (_, refl))
  inserted-Adds thread reasons again (StoreError.corrupt _) threads v t h =
      inl (refl, t, inr (_, refl))
  inserted-Adds thread reasons again (StoreError.backend _) threads v t h =
      inl (refl, t, inr (_, refl))
  inserted-Adds thread reasons again StoreError.conflict threads v t h = h
  inserted-Adds thread reasons again (StoreError.too_deep _) threads v t h =
      inl (refl, t, inr (_, refl))

  state_for-wanted : (reasons : List Reason) → state_for reasons ≡ wanted_state reasons
  state_for-wanted [] = refl
  state_for-wanted (x ∷ xs) = refl

  pub attempt_ids-Adds :
      (thread : ThreadRow) (reasons : List Reason) (ids : List PublicId) (threads : List ThreadRow)
      (v : World F)
      → All (λ t. (t.id == thread.id) ≡ false) threads
      → let w = record v { threads = thread ∷ threads } in
        Adds d thread reasons threads v.posts (attempt_ids env d thread reasons ids w)
  unfolding attempt_ids inserted
  attempt_ids-Adds thread reasons [] threads v h = inl (refl, refl, inl refl)
  attempt_ids-Adds thread reasons (id ∷ ids) threads v h =
      let w = record v { threads = thread ∷ threads } in
      let new = first_post d thread.public_id (state_for reasons) id in
      let P =
        λ (t : Result StoreError Outcome × World F). Adds d thread reasons threads v.posts t in
      insert_post-cases P env.show_path_error new _ w
        (λ e.
          inserted-Adds thread reasons (attempt_ids env d thread reasons ids) e threads (spend w)
            refl (attempt_ids-Adds thread reasons ids threads (spend v) h))
        (λ number place plan free.
          let row = new_post_row number new place in
          let (found, _, _) = planned-steps env.show_path_error (spend w) new plan in
          let home : place.thread.id ≡ thread.id =
            ap (λ t. t.id) (found_first thread.public_id thread threads refl found) in
          let (posts, after, answer) = after_insert-Answers thread reasons _ row _ refl refl in
          inr (
            id,
            row,
            subst
                (λ (s : PostState).
                  Inserted (thread ∷ threads) v.posts (first_post d thread.public_id s id) row)
                (state_for-wanted reasons)
                (planned-Inserted env.show_path_error (spend w) new number plan free),
            home,
            posts,
            after ∙ bumped_first place.thread.id d.now thread threads home h,
            answer,
          ))
