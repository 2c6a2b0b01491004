-- ===== src/Store/Writing/Fresh.antt =====
-- The path of a new post: no row of the thread has it, so only the public id can clash.
pub mod Last
pub mod Range
pub mod Top
use notespace.Base.{
  ℕ, true, false, ◌&&◌, Text, List, [], ◌∷◌, ◌++◌, Option, none, some, All, ◌==◌, text_eq,
  text_eq→eq, compare_list, is_lt, Result, ok, err, ok_inj, ok_not_err, ◌≡◌, ◌⊎◌, inl, inr, refl,
  sym, ap, subst, ◌∙◌, Bool-cases, Result-cases, codes,
}
use mathlib.Core.Option.{some-injective}
use notespace.Float.{Float}
use notespace.Model.{PublicId}
use notespace.TreePath.{TreePath, PathError, parse, subtree_end}
use notespace.TreePath.Position.{Denotes}
use notespace.TreePath.Parsing.{parse_sound}
use notespace.Allocation.{allocate, search_bounds}
use notespace.Store.{StoreError, corrupt, World, PostRow, ThreadRow}
use notespace.Store.Moderation.{find, is_post}
use notespace.Store.Writing.{
  between, last_path_in_range, NewPost, Place, planned, path_above, stored_path, then_ok, found_or,
  optional, parent_row,
}
use notespace.Store.Writing.Fresh.Last.{and_both, Covered, last-Covered, last-between}
use notespace.Store.Writing.Fresh.Range.{replied, first_reply}
use notespace.Store.Writing.Fresh.Top.{first_top, next_top}

stored_path_of :
    (show : PathError → Text) (what s : Text) {q : TreePath}
    → parse s ≡ ok q
    → stored_path show what s ≡ ok q
stored_path_of show what s e = rw (stored_path, e) refl

pub stored_sound :
    (show : PathError → Text) (what s : Text) {p : TreePath}
    → stored_path show what s ≡ ok p
    → parse s ≡ ok p
stored_sound show what s e = elim (Result-cases (parse s)) [
  | inl (q, parsed) ↦ parsed ∙ ap ok (ok_inj (sym (stored_path_of show what s parsed) ∙ e))
  | inr (d, failed) ↦
      absurd (ok_not_err {e = corrupt (what ++ show d)} (sym e ∙ rw (stored_path, failed) refl))
]

-- In the range that is searched, and after what was found.
abbrev pub After : Option TreePath → Option Text → Text → Type 0
After parent last q =
    (between (search_bounds parent).0 (search_bounds parent).1 q ≡ true)
    × ((l : Text) → last ≡ some l → is_lt (compare_list l q) ≡ true)

free :
    (thread : ℕ) (parent : Option TreePath) (last : Option Text) (q : Text) (p : PostRow)
    → After parent last q
    → Covered thread (search_bounds parent).0 (search_bounds parent).1 last p
    → (p.thread_id == thread && text_eq p.path q) ≡ false
unfolding Covered
free thread parent last q p (within, after) covered =
    elim (Bool-cases (p.thread_id == thread && text_eq p.path q)) [
      | inr apart ↦ apart
      | inl clash ↦
          let (thread_same, path_same) = and_both (p.thread_id == thread) clash in
          let is_q : p.path ≡ q = text_eq→eq p.path q path_same in
          elim covered [
            | inl out ↦
                let inside : between (search_bounds parent).0 (search_bounds parent).1 p.path
                    ≡ true =
                  ap (between (search_bounds parent).0 (search_bounds parent).1) is_q ∙ within in
                let never : (p.thread_id == thread
                      && between (search_bounds parent).0 (search_bounds parent).1 p.path)
                    ≡ true =
                  rw (thread_same, inside) refl in
                absurd cc
            | inr (l, e, above) ↦
                let under : is_lt (compare_list l p.path) ≡ true =
                  ap (λ r. is_lt (compare_list l r)) is_q ∙ after l e in
                absurd cc
          ]
    ]

free-All :
    (thread : ℕ) (parent : Option TreePath) (last : Option Text) (q : Text) (posts : List PostRow)
    → After parent last q
    → All (Covered thread (search_bounds parent).0 (search_bounds parent).1 last) posts
    → All (λ p. (p.thread_id == thread && text_eq p.path q) ≡ false) posts
free-All thread parent last q [] a h = tt
free-All thread parent last q (p ∷ posts) a (h, hs) =
    (free thread parent last q p a h, free-All thread parent last q posts a hs)

pub found_or_inv : {A : Type 0} (o : Option A) {a : A} → found_or o ≡ ok a → o ≡ some a
found_or_inv none e = cc
found_or_inv (some b) e = ap some (ok_inj e)

pub then_ok_inv :
    {A B : Type 0} (r : Result StoreError A) (k : A → Result StoreError B) {b : B}
    → then_ok r k ≡ ok b
    → (a : A) × (r ≡ ok a) × (k a ≡ ok b)
then_ok_inv (ok a) k e = (a, refl, e)
then_ok_inv (err d) k e = cc

module _ (show : PathError → Text) where
  stored_last :
      (last : Option Text) {l : Option TreePath}
      → optional (stored_path show (codes "sibling path: ")) last ≡ ok l
      → ((last ≡ none) × (l ≡ none))
        ⊎ ((s : Text) × (x : TreePath) × (last ≡ some s) × (l ≡ some x) × (parse s ≡ ok x))
  stored_last none e = inl (refl, sym (ok_inj e))
  stored_last (some s) e =
      let (x, read, done) =
        then_ok_inv (stored_path show (codes "sibling path: ") s) (λ b. ok (some b)) e in
      inr (s, x, refl, sym (ok_inj done), stored_sound show (codes "sibling path: ") s read)

  -- Where nothing was found, any path is after it.
  after_none :
      (last : Option Text) (q : Text)
      → last ≡ none
      → (l : Text) → last ≡ some l
      → is_lt (compare_list l q) ≡ true
  after_none last q e l f = cc

  after_some :
      (last : Option Text) (q : TreePath) {s : Text} {x : TreePath}
      → last ≡ some s
      → x.text ≡ s
      → is_lt (compare_list x.text q.text) ≡ true
      → (l : Text) → last ≡ some l
      → is_lt (compare_list l q.text) ≡ true
  after_some last q {s} {x} e same h l f =
      let is_l : s ≡ l = some-injective s l (sym e ∙ f) in
      subst (λ t. is_lt (compare_list t q.text) ≡ true) (same ∙ is_l) h

  -- What the stored path of a parent stands for.
  Rooted : Option TreePath → Type 0
  Rooted none = Unit
  Rooted (some p) = (n : ℕ) × (ns : List ℕ) × Denotes p n ns

  allocated-After :
      (parent : Option TreePath) (last : Option Text) (l : Option TreePath) (q : TreePath)
      → Rooted parent
      → ((s : Text)
          → last ≡ some s
          → between (search_bounds parent).0 (search_bounds parent).1 s ≡ true)
      → ((last ≡ none) × (l ≡ none))
        ⊎ ((s : Text) × (x : TreePath) × (last ≡ some s) × (l ≡ some x) × (parse s ≡ ok x))
      → allocate show parent l ≡ ok q
      → After parent last q.text
  unfolding Rooted search_bounds
  allocated-After none last l q r within (inl (e, f)) a =
      (first_top show (sym (ap (allocate show none) f) ∙ a), after_none last q.text e)
  allocated-After none last l q r within (inr (s, x, e, f, read)) a =
      let (m, ms, dx, same) = parse_sound s read in
      let (inside, above) = next_top show dx (sym (ap (allocate show none) f) ∙ a) in
      (inside, after_some last q e same above)
  allocated-After (some p) last l q (n, ns, dp) within (inl (e, f)) a =
      (first_reply show dp (sym (ap (allocate show (some p)) f) ∙ a), after_none last q.text e)
  allocated-After (some p) last l q (n, ns, dp) within (inr (s, x, e, f, read)) a =
      let (m, ms, dx, same) = parse_sound s read in
      let in_it : between p.text (subtree_end p) x.text ≡ true =
        ap (between p.text (subtree_end p)) same ∙ within s e in
      let (inside, above) = replied show dp dx in_it (sym (ap (allocate show (some p)) f) ∙ a) in
      (inside, after_some last q e same above)

  abbrev pub row_of : PostRow → Result StoreError (ℕ × TreePath)
  row_of p = then_ok (stored_path show (codes "parent path: ") p.path) (λ path. ok (p.id, path))

  parent_row-Rooted :
      {F : Float} (w : World F) (t : ThreadRow) (parent : Option PublicId)
      {above : Option (ℕ × TreePath)}
      → optional (parent_row show w t) parent ≡ ok above
      → Rooted (path_above above)
  unfolding Rooted
  parent_row-Rooted w t none {above} e = subst (λ a. Rooted (path_above a)) (ok_inj e) tt
  parent_row-Rooted w t (some pid) {above} e =
      let (row, found, done) = then_ok_inv (parent_row show w t pid) (λ b. ok (some b)) e in
      let (p, is_p, e2) =
        then_ok_inv (found_or (find (λ p. is_post pid p && p.thread_id == t.id) w.posts)) row_of
          found in
      let (path, read, e3) =
        then_ok_inv (stored_path show (codes "parent path: ") p.path) (λ path. ok (p.id, path))
          e2 in
      let (n, ns, d, _) =
        parse_sound p.path (stored_sound show (codes "parent path: ") p.path read) in
      let is_above : some (p.id, path) ≡ above = ap some (ok_inj e3) ∙ ok_inj done in
      subst (λ a. Rooted (path_above a)) is_above (n, ns, d)

module _ {F : Float} (show : PathError → Text) (w : World F) (new : NewPost) where
  -- The statements of `insert_post` that follow the lookup of the thread, of the parent and of the
  -- last path.
  abbrev pub after_last :
      ThreadRow → Option (ℕ × TreePath) → Option TreePath → Result StoreError Place
  after_last t above last =
      then_ok (allocate show (path_above above) last)
        (λ path. ok (record { thread = t; above = above; path = path }))

  abbrev pub found_last : ThreadRow → Option (ℕ × TreePath) → Option Text
  found_last t above =
      let bounds = search_bounds (path_above above) in
      last_path_in_range w.posts t.id bounds.0 bounds.1

  abbrev pub after_parent : ThreadRow → Option (ℕ × TreePath) → Result StoreError Place
  after_parent t above =
      then_ok (optional (stored_path show (codes "sibling path: ")) (found_last t above))
        (after_last t above)

  abbrev pub after_thread : ThreadRow → Result StoreError Place
  after_thread t = then_ok (optional (parent_row show w t) new.parent) (after_parent t)

  -- What the statements before the insert make of the thread, of the parent and of the last path.
  pub planned-steps :
      {place : Place}
      → planned show w new ≡ ok place
      → (find (λ t. text_eq t.public_id new.thread) w.threads ≡ some place.thread)
        × (optional (parent_row show w place.thread) new.parent ≡ ok place.above)
        × After (path_above place.above) (found_last place.thread place.above) place.path.text
  unfolding planned
  planned-steps {place} e =
      let (t, is_t, e1) =
        then_ok_inv (found_or (find (λ t. text_eq t.public_id new.thread) w.threads)) after_thread
          e in
      let (above, is_above, e2) =
        then_ok_inv (optional (parent_row show w t) new.parent) (after_parent t) e1 in
      let (last, is_last, e3) =
        then_ok_inv (optional (stored_path show (codes "sibling path: ")) (found_last t above))
          (after_last t above) e2 in
      let (q, is_q, e4) =
        then_ok_inv (allocate show (path_above above) last)
          (λ path. ok (record { thread = t; above = above; path = path })) e3 in
      let lo = (search_bounds (path_above above)).0 in
      let hi = (search_bounds (path_above above)).1 in
      subst
        (λ (p : Place).
          (find (λ t. text_eq t.public_id new.thread) w.threads ≡ some p.thread)
          × (optional (parent_row show w p.thread) new.parent ≡ ok p.above)
          × After (path_above p.above) (found_last p.thread p.above) p.path.text)
        (ok_inj e4)
        (
          found_or_inv _ is_t,
          is_above,
          allocated-After show (path_above above) (found_last t above) last q
              (parent_row-Rooted show w t new.parent is_above) (last-between t.id lo hi w.posts)
              (stored_last show (found_last t above) is_last) is_q,
        )

  -- No row of the thread has the path that is planned.
  pub planned-fresh :
      {place : Place}
      → planned show w new ≡ ok place
      → All
          (λ p. (p.thread_id == place.thread.id && text_eq p.path place.path.text) ≡ false)
          w.posts
  planned-fresh {place} e =
      let (is_t, is_above, after) = planned-steps e in
      let bounds = search_bounds (path_above place.above) in
      free-All place.thread.id (path_above place.above) (found_last place.thread place.above)
        place.path.text w.posts after (last-Covered place.thread.id bounds.0 bounds.1 w.posts)
