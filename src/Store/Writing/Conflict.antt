-- ===== src/Store/Writing/Conflict.antt =====
-- Why an insert of crates/store-sqlite/src/lib.rs can meet a row that is there already.
use notespace.Base.{
  ℕ, Bool, true, false, ◌&&◌, Text, codes, List, [], ◌∷◌, Option, none, some, All, any, ◌==◌,
  text_eq, Result, ok, err, ◌≡◌, inl, inr, refl, sym, ap, ◌∙◌, arith, Bool-cases, Result-cases,
}
use notespace.Float.{Float}
use notespace.Model.{PublicId}
use notespace.TreePath.{TreePath, PathError, parse}
use notespace.Allocation.{allocate, as_backend}
use notespace.Store.{StoreError, conflict, World, PostRow, spend, struck, transaction}
use notespace.Store.Moderation.{find, is_post}
use notespace.Store.Writing.{
  NewPost, Place, planned, insert_at, insert_post, stored_path, clashes, then_ok, found_or,
  optional, parent_row,
}
use notespace.Store.Writing.Fresh.{
  planned-fresh, after_thread, after_parent, after_last, found_last, row_of,
}

clashing : StoreError → Bool
clashing e = elim e [ conflict ↦ true | _ ↦ false ]

abbrev meets_row : {A : Type 0} → Result StoreError A → Bool
meets_row (ok a) = false
meets_row (err e) = clashing e

meets_row-then_ok :
    {A B : Type 0} (r : Result StoreError A) (k : A → Result StoreError B)
    → meets_row r ≡ false
    → ((a : A) → meets_row (k a) ≡ false)
    → meets_row (then_ok r k) ≡ false
meets_row-then_ok (ok a) k h g = g a
meets_row-then_ok (err e) k h g = h

meets_row-found_or : {A : Type 0} (o : Option A) → meets_row (found_or o) ≡ false
unfolding clashing
meets_row-found_or none = refl
meets_row-found_or (some a) = refl

meets_row-optional :
    {A B : Type 0} (f : A → Result StoreError B) (o : Option A)
    → ((a : A) → meets_row (f a) ≡ false)
    → meets_row (optional f o) ≡ false
meets_row-optional f none h = refl
meets_row-optional f (some a) h = meets_row-then_ok (f a) (λ b. ok (some b)) (h a) (λ b. refl)

meets_row-stored_path :
    (show : PathError → Text) (what s : Text) → meets_row (stored_path show what s) ≡ false
unfolding clashing
meets_row-stored_path show what s = elim (Result-cases (parse s)) [
  | inl (p, e) ↦ rw (stored_path, e) refl
  | inr (d, e) ↦ rw (stored_path, e) refl
]

meets_row-as_backend :
    (show : PathError → Text) (r : Result PathError TreePath)
    → meets_row (as_backend show r) ≡ false
unfolding clashing
meets_row-as_backend show (ok q) = refl
meets_row-as_backend show (err d) = refl

meets_row-allocate :
    (show : PathError → Text) (p l : Option TreePath) → meets_row (allocate show p l) ≡ false
unfolding allocate
meets_row-allocate show p l = meets_row-as_backend show _

any_public :
    (public_id : PublicId) (thread : ℕ) (path : Text) (posts : List PostRow)
    → All (λ p. (p.thread_id == thread && text_eq p.path path) ≡ false) posts
    → any (clashes public_id thread path) posts ≡ any (λ p. text_eq p.public_id public_id) posts
any_public public_id thread path [] h = refl
any_public public_id thread path (p ∷ posts) (h, hs) =
    let rest = any_public public_id thread path posts hs in ground arith

module _ {F : Float} (show : PathError → Text) (w : World F) (new : NewPost) where
  meets_row-planned : meets_row (planned show w new) ≡ false
  unfolding planned
  meets_row-planned =
      meets_row-then_ok (found_or (find (λ t. text_eq t.public_id new.thread) w.threads))
        (after_thread show w new) (meets_row-found_or _)
        (λ t.
          meets_row-then_ok (optional (parent_row show w t) new.parent) (after_parent show w new t)
            (meets_row-optional (parent_row show w t) new.parent (λ pid.
              meets_row-then_ok
                (found_or (find (λ p. is_post pid p && p.thread_id == t.id) w.posts)) (row_of show)
                (meets_row-found_or _)
                (λ p.
                  meets_row-then_ok (stored_path show (codes "parent path: ") p.path)
                    (λ path. ok (p.id, path))
                    (meets_row-stored_path show (codes "parent path: ") p.path) (λ q. refl))))
            (λ above.
              meets_row-then_ok
                (optional (stored_path show (codes "sibling path: "))
                  (found_last show w new t above))
                (after_last show w new t above)
                (meets_row-optional _ (found_last show w new t above)
                  (meets_row-stored_path show (codes "sibling path: ")))
                (λ last.
                  meets_row-then_ok (allocate show _ last) _ (meets_row-allocate show _ last)
                    (λ q. refl))))

  insert_at-conflict :
      (plan : Result StoreError Place)
      → planned show w new ≡ plan
      → (insert_at new plan w).0 ≡ err conflict
      → any (λ p. text_eq p.public_id new.public_id) w.posts ≡ true
  unfolding insert_at clashing
  insert_at-conflict (err d) is_plan e =
      let never = sym meets_row-planned ∙ ap meets_row is_plan ∙ ap meets_row e in absurd cc
  insert_at-conflict (ok place) is_plan e =
      let same =
        any_public new.public_id place.thread.id place.path.text w.posts
          (planned-fresh show w new is_plan) in
      elim (Bool-cases (any (clashes new.public_id place.thread.id place.path.text) w.posts)) [
        | inl taken ↦ sym same ∙ taken
        | inr clear ↦ elim (Bool-cases (any (λ u. u.id == new.author_id) w.users)) [
          | inl known ↦
              let never : meets_row ((insert_at new (ok place) w).0) ≡ false =
                rw (clear, known) refl in
              let met : meets_row ((insert_at new (ok place) w).0) ≡ true = ap meets_row e in
              absurd cc
          | inr unknown ↦
              let never : meets_row ((insert_at new (ok place) w).0) ≡ false =
                rw (clear, unknown) refl in
              let met : meets_row ((insert_at new (ok place) w).0) ≡ true = ap meets_row e in
              absurd cc
        ]
      ]

module _ {F : Float} (show : PathError → Text) (w : World F) (new : NewPost) where
  -- An insert that fails with `conflict` met a post with the public id it was given: a path that it
  -- allocates is never taken.
  pub insert_post-conflict :
      (insert_post show new w).0 ≡ err conflict
      → any (λ p. text_eq p.public_id new.public_id) w.posts ≡ true
  unfolding insert_post clashing transaction
  insert_post-conflict e = elim (Bool-cases (struck w.faults)) [
    | inl down ↦
        let never : meets_row ((insert_post show new w).0) ≡ false = rw down refl in
        let met : meets_row ((insert_post show new w).0) ≡ true = ap meets_row e in absurd cc
    | inr up ↦ insert_at-conflict show (spend w) new _ refl (sym (rw up refl) ∙ e)
  ]
