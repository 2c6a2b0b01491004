-- ===== src/Store/Writing/Runs.antt =====
-- The ends of the calls of the write path, as cases of a run.
use notespace.Base.{
  any, any, ◌==◌, ◌&&◌, leb, text_eq, ℕ, Bool, true, false, Text, List, ◌∷◌, Option, none, some,
  map, Result, ok, err, if◌then◌else◌, ◌≡◌, refl,
}
use notespace.Model.{PublicId, Timestamp}
use notespace.Float.{Float}
use notespace.RateLimit.{Attempts}
use notespace.TreePath.{PathError}
use notespace.Store.{
  World, M, StoreError, not_found, conflict, outage, resume, bind, handle, spend, ThreadRow,
  PostRow,
}
use notespace.Store.Runs.{bind-cases, handle-cases}
use notespace.Store.Moderation.{or_not_found, find_post}
use notespace.Store.Writing.{
  clashes, WriteContext, NewPost, Post, Place, AttemptKeys, joined_context, write_context,
  author_posted_recently, login_attempts, attempts_of, client_attempts, planned, insert_at,
  insert_post, new_post_row, returned, bumped, rewritten, update_body, update_post_body,
}

module _ {F : Float} {B : Type 0} (P : Result StoreError B × World F → Type 0) where
  handled-cases :
      {A : Type 0} (k : Result StoreError A → M F B) (o : Option A) (w : World F)
      → P (k (err not_found) w)
      → ((a : A) → o ≡ some a → P (k (ok a) w))
      → let r = or_not_found o w in P (k r.0 r.1)
  handled-cases k none w p q = p
  handled-cases k (some a) w p q = q a refl

  pub write_context-cases :
      (thread : PublicId) (author : ℕ) (k : Result StoreError WriteContext → M F B) (w : World F)
      → P (k (err outage) (spend w))
      → P (k (err not_found) (spend w))
      → ((ctx : WriteContext)
          → joined_context (spend w) thread author ≡ some ctx
          → P (k (ok ctx) (spend w)))
      → P (handle (write_context thread author) k w)
  unfolding write_context
  write_context-cases thread author k w p q r =
      handle-cases P _ k w p
        (handled-cases k (joined_context (spend w) thread author) (spend w) q r)

  pub author_posted_recently-cases :
      (author : ℕ) (body : Text) (since : Timestamp) (k : Bool → M F B) (w : World F)
      → P (err outage, spend w)
      → P (
          k
            (any
              (λ p. p.author_id == author && leb since p.created_at && text_eq p.body_md body)
              w.posts)
            (spend w))
      → P (bind (author_posted_recently author body since) k w)
  unfolding author_posted_recently resume
  author_posted_recently-cases author body since k w p q = bind-cases P _ k w p q

  pub login_attempts-cases :
      (keys : AttemptKeys) (k : Option Attempts × Option Attempts → M F B) (w : World F)
      → P (err outage, spend w)
      → P (k (attempts_of keys.identity w.attempts, client_attempts keys w.attempts) (spend w))
      → P (bind (login_attempts keys) k w)
  unfolding login_attempts resume
  login_attempts-cases keys k w p q = bind-cases P _ k w p q

  choice-cases :
      (k : Result StoreError Post → M F B) (b c : Bool) (x y z : Result StoreError Post × World F)
      → P (k x.0 x.1)
      → (b ≡ false → P (k y.0 y.1))
      → P (k z.0 z.1)
      → let t = if b then x else if c then y else z in P (k t.0 t.1)
  choice-cases k true c x y z p q r = p
  choice-cases k false true x y z p q r = q refl
  choice-cases k false false x y z p q r = r

  -- An insert that succeeds puts its row in front; any other leaves the tables alone.
  insert_at-cases :
      (new : NewPost) (k : Result StoreError Post → M F B) (plan : Result StoreError Place)
      (w : World F)
      → ((e : StoreError) → P (k (err e) w))
      → ((id : ℕ) (place : Place)
          → plan ≡ ok place
          → any (clashes new.public_id place.thread.id place.path.text) w.posts ≡ false
          → P (
              k (ok (returned id new place)) (record w {
                posts = new_post_row id new place ∷ w.posts;
                threads = map (bumped place.thread.id new.created_at) w.threads;
              })))
      → let t = insert_at new plan w in P (k t.0 t.1)
  unfolding insert_at
  insert_at-cases new k (err e) w p q = p e
  insert_at-cases new k (ok place) w p q =
      choice-cases k _ _ _ _ _ (p conflict) (q _ place refl) (p outage)

  pub insert_post-cases :
      (show : PathError → Text) (new : NewPost) (k : Result StoreError Post → M F B) (w : World F)
      → ((e : StoreError) → P (k (err e) (spend w)))
      → ((id : ℕ) (place : Place)
          → planned show (spend w) new ≡ ok place
          → any (clashes new.public_id place.thread.id place.path.text) w.posts ≡ false
          → P (
              k (ok (returned id new place)) (record w {
                posts = new_post_row id new place ∷ w.posts;
                threads = map (bumped place.thread.id new.created_at) w.threads;
                faults = (spend w).faults;
              })))
      → P (handle (insert_post show new) k w)
  unfolding insert_post
  insert_post-cases show new k w p q =
      handle-cases P _ k w (p outage)
        (insert_at-cases new k (planned show (spend w) new) (spend w) p q)

  found-cases :
      {A : Type 0} (k : A → M F B) (o : Option A) (w : World F)
      → P (err not_found, w)
      → ((a : A) → o ≡ some a → P (k a w))
      → P (resume k (or_not_found o w))
  unfolding resume
  found-cases k none w p q = p
  found-cases k (some a) w p q = q a refl

  pub write_context-bound :
      (thread : PublicId) (author : ℕ) (k : WriteContext → M F B) (w : World F)
      → P (err outage, spend w)
      → P (err not_found, spend w)
      → ((ctx : WriteContext)
          → joined_context (spend w) thread author ≡ some ctx
          → P (k ctx (spend w)))
      → P (bind (write_context thread author) k w)
  unfolding write_context
  write_context-bound thread author k w p q r =
      bind-cases P _ k w p (found-cases k (joined_context (spend w) thread author) (spend w) q r)

  update_body-cases :
      (post : PublicId) (body : Text) (at : Timestamp) (k : Unit {0} → M F B) (row : Option PostRow)
      (w : World F)
      → P (err not_found, w)
      → ((threads : List ThreadRow)
          → P (k tt (record w { posts = map (rewritten post body at) w.posts; threads = threads })))
      → P (resume k (update_body post body at row w))
  unfolding resume update_body
  update_body-cases post body at k none w p q = p
  update_body-cases post body at k (some row) w p q = q _

  pub update_post_body-cases :
      (post : PublicId) (body : Text) (at : Timestamp) (k : Unit {0} → M F B) (w : World F)
      → P (err outage, spend w)
      → P (err not_found, spend w)
      → ((threads : List ThreadRow)
          → P (
              k tt (record (spend w) {
                posts = map (rewritten post body at) w.posts;
                threads = threads;
              })))
      → P (bind (update_post_body post body at) k w)
  unfolding update_post_body
  update_post_body-cases post body at k w p q r =
      bind-cases P _ k w p (update_body-cases post body at k (find_post w.posts post) (spend w) q r)
