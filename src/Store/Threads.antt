-- ===== src/Store/Threads.antt =====
-- The calls of crates/store-sqlite/src/lib.rs that a new thread needs, with their SQL.
use notespace.Base.{
  All, arith, ◌≤◌, ℕ, ◌+◌, ◌≡◌, refl, Bool, true, false, Text, Option, none, some, List, [], ◌∷◌,
  Result, ok, err, if◌then◌else◌, ◌==◌, any, text_eq, max, ◌&&◌,
}
use notespace.Model.{PublicId, Timestamp, ThreadState, ThreadKind}
use notespace.Float.{Float}
use notespace.SpaceKey.{SpacePath}
use notespace.Store.{
  StoreError, conflict, outage, ThreadRow, SpaceRow, UserRow, World, M, transaction, bind, handle,
  resume, spend,
}
use notespace.Store.Runs.{bind-cases, handle-cases}
use notespace.Store.Moderation.{find, or_not_found}
use notespace.Store.Writing.{WriteContext}

pub record NewThread : Type 0 where
  pub public_id : PublicId
  pub space_id : ℕ
  pub space_path : Text
  pub kind : ThreadKind
  pub title : Text
  pub url : Option Text
  pub author_id : ℕ
  pub created_at : Timestamp

abbrev pub new_thread_row : ℕ → NewThread → ThreadRow
new_thread_row id t = record {
  id = id;
  public_id = t.public_id;
  space_id = t.space_id;
  space_path = t.space_path;
  kind = t.kind;
  title = t.title;
  url = t.url;
  author_id = t.author_id;
  created_at = t.created_at;
  state = ThreadState.visible;
  cache_version = 0;
  post_count = 0;
  bumped_at = t.created_at;
}

-- The row id after the largest.
next_thread_id : List ThreadRow → ℕ
next_thread_id [] = 1
next_thread_id (t ∷ threads) = max (t.id + 1) (next_thread_id threads)

-- The join of one space and one author; a thread that is to come is visible.
abbrev space_author : Option SpaceRow → Option UserRow → Option WriteContext
space_author (some s) (some u) = some (record {
  space_id = s.id;
  space_config = s.config;
  thread_state = ThreadState.visible;
  author_created_at = u.created_at;
  author_role = u.role;
})
space_author _ _ = none

module _ {F : Float} where
  unfoldable pub space_by_path : SpacePath → M F (Option SpaceRow)
  space_by_path path = transaction (λ w. (ok (find (λ s. text_eq s.path path.stored) w.spaces), w))

  unfoldable pub space_joined : World F → ℕ → ℕ → Option WriteContext
  space_joined w space author =
      space_author (find (λ s. s.id == space) w.spaces) (find (λ u. u.id == author) w.users)

  unfoldable pub space_context : ℕ → ℕ → M F WriteContext
  space_context space author = transaction (λ w. or_not_found (space_joined w space author) w)

  -- The unique index on the public id, and the references to the space and the author.
  unfoldable pub create_thread : NewThread → M F ThreadRow
  unfolding next_thread_id
  create_thread t = transaction (λ w.
      let row = new_thread_row (next_thread_id w.threads) t in
      if any (λ r. text_eq r.public_id t.public_id) w.threads
      then (err conflict, w)
      else if any (λ s. s.id == t.space_id) w.spaces && any (λ u. u.id == t.author_id) w.users
      then (ok row, record w { threads = row ∷ w.threads })
      else (err outage, w))

next_thread_id_above :
    (threads : List ThreadRow) (n : ℕ)
    → next_thread_id threads ≤ n
    → All (λ t. (t.id == n) ≡ false) threads
unfolding next_thread_id
next_thread_id_above [] n h = tt
next_thread_id_above (t ∷ threads) n h =
    (ground arith, next_thread_id_above threads n (omega arith))

module _ {F : Float} {B : Type 0} (P : Result StoreError B × World F → Type 0) where
  pub space_by_path-cases :
      (path : SpacePath) (k : Option SpaceRow → M F B) (w : World F)
      → P (err outage, spend w)
      → P (k (find (λ s. text_eq s.path path.stored) w.spaces) (spend w))
      → P (bind (space_by_path path) k w)
  unfolding space_by_path resume
  space_by_path-cases path k w p q = bind-cases P _ k w p q

  handled-cases :
      (k : Result StoreError WriteContext → M F B) (o : Option WriteContext) (w : World F)
      → P (k (err StoreError.not_found) w)
      → ((a : WriteContext) → o ≡ some a → P (k (ok a) w))
      → let r = or_not_found o w in P (k r.0 r.1)
  handled-cases k none w p q = p
  handled-cases k (some a) w p q = q a refl

  pub space_context-cases :
      (space author : ℕ) (k : Result StoreError WriteContext → M F B) (w : World F)
      → P (k (err outage) (spend w))
      → P (k (err StoreError.not_found) (spend w))
      → ((ctx : WriteContext)
          → space_joined (spend w) space author ≡ some ctx
          → P (k (ok ctx) (spend w)))
      → P (handle (space_context space author) k w)
  unfolding space_context
  space_context-cases space author k w p q r =
      handle-cases P _ k w p (handled-cases k (space_joined (spend w) space author) (spend w) q r)

  choice-cases :
      (k : ThreadRow → M F B) (b c : Bool) (row : ThreadRow) (v w : World F)
      → ((e : StoreError) → P (err e, w))
      → (b ≡ false → P (k row v))
      → P (resume k (if b then (err conflict, w) else (if c then (ok row, v) else (err outage, w))))
  unfolding resume
  choice-cases k true c row v w p q = p conflict
  choice-cases k false true row v w p q = q refl
  choice-cases k false false row v w p q = p outage

  pub create_thread-cases :
      (t : NewThread) (k : ThreadRow → M F B) (w : World F)
      → ((e : StoreError) → P (err e, spend w))
      → ((id : ℕ)
          → All (λ t. (t.id == id) ≡ false) w.threads
          → any (λ r. text_eq r.public_id t.public_id) w.threads ≡ false
          → P (
              k
                (new_thread_row id t)
                (record (spend w) { threads = new_thread_row id t ∷ w.threads })))
      → P (bind (create_thread t) k w)
  unfolding create_thread
  create_thread-cases t k w p q = bind-cases P _ k w (p outage) (
      choice-cases k _ _ _ _ (spend w) p
        (q _ (next_thread_id_above w.threads (next_thread_id w.threads) (omega arith))))
