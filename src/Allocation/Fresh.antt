-- ===== src/Allocation/Fresh.antt =====
-- The path that crates/core/src/store.rs allocates is a new one under its parent.
use notespace.Base.{
  ℕ, zero, suc, ◌+◌, ◌*◌, ◌-◌, ◌/◌, ◌≤◌, ◌<◌, Text, List, [], ◌∷◌, ◌++◌, All, All-append, length,
  length-append, take, none, some, Result, ok, err, ◌≡◌, refl, sym, ap, ◌⊎◌, ◌∙◌, arith,
  if◌then◌else◌, ltb, le→ltb-false, max, Ordering, compare_list, inl, inr,
}
use native.Mathlib.Nat.{suc-add, suc-mul, div-mul-le_self, lt-div-mul-add}
use notespace.TreePath.{
  TreePath, PathError, parent, ordinal, depth, child, max_ordinal, max_depth, ordinal_too_large,
}
use notespace.TreePath.Position.{IsOrdinal, Denotes, compare-Denotes}
use notespace.TreePath.Walk.{
  at, Denotes-eq, depth-at, ancestor_at_depth-at, ordinal-at_snoc, parent-at_snoc,
  next_sibling-at_snoc, child-parent,
}
use notespace.TreePath.Subtree.{compare_self}
use notespace.Allocation.{as_backend, allocate, page_cursor_offset}

split_ordinals :
    (ns : List ℕ) (k : ℕ) (more : List ℕ)
    → All IsOrdinal (ns ++ k ∷ more)
    → All IsOrdinal ns × IsOrdinal k
split_ordinals [] k more h = (tt, h.0)
split_ordinals (n ∷ ns) k more (h, hs) =
    let (front, last) = split_ordinals ns k more hs in ((h, front), last)

take-siblings :
    (ns : List ℕ) (k : ℕ) (more : List ℕ) → take (length ns + 1) (ns ++ k ∷ more) ≡ ns ++ k ∷ []
take-siblings [] k more = refl
take-siblings (n ∷ ns) k more = rw suc-add (ap (◌∷◌ n) (take-siblings ns k more))

allocate-at :
    (show : PathError → Text) (n : ℕ) (ns : List ℕ) (k : ℕ) (more : List ℕ)
    → IsOrdinal k
    → length ns + 1 < max_depth
    → allocate show (some (at n ns)) (some (at n (ns ++ k ∷ more)))
      ≡ as_backend show (
          if ltb max_ordinal (k + 1)
          then err (ordinal_too_large (k + 1))
          else ok (at n (ns ++ (k + 1) ∷ [])))
unfolding allocate
allocate-at show n ns k more h room =
    rw
      (
        depth-at n ns,
        ancestor_at_depth-at n (ns ++ k ∷ more) (length ns + 1),
        le→ltb-false (length (ns ++ k ∷ more)) (length ns + 1)
            (omega (arith, length-append ns (k ∷ more))),
        take-siblings ns k more,
        next_sibling-at_snoc n ns k h room,
      )
      refl

allocated-at :
    (show : PathError → Text) (n : ℕ) (ns : List ℕ) (k : ℕ) (more : List ℕ) {q : TreePath}
    → IsOrdinal k
    → length ns + 1 < max_depth
    → allocate show (some (at n ns)) (some (at n (ns ++ k ∷ more))) ≡ ok q
    → (q ≡ at n (ns ++ (k + 1) ∷ [])) × (k < max_ordinal)
allocated-at show n ns k more {q} h room e =
    let d = sym (allocate-at show n ns k more h room) ∙ e in ground arith

compare_after :
    (ns : List ℕ) (k : ℕ) (more : List ℕ)
    → compare_list (ns ++ k ∷ more) (ns ++ (k + 1) ∷ []) ≡ Ordering.lt
compare_after ns k more = rw (compare_self ns (k ∷ more) ((k + 1) ∷ [])) (ground arith)

compare_same : (n : ℕ) (s t : List ℕ) → compare_list (n ∷ s) (n ∷ t) ≡ compare_list s t
compare_same n s t = compare_self (n ∷ []) s t

pub unwrap :
    (show : PathError → Text) (r : Result PathError TreePath) {q : TreePath}
    → as_backend show r ≡ ok q
    → r ≡ ok q
unwrap show (ok p) e = cc
unwrap show (err d) e = cc

-- The path that is allocated below a parent with replies.
pub allocate-Denotes :
    (show : PathError → Text) {p l q : TreePath} {n : ℕ} {ns : List ℕ} (k : ℕ) (more : List ℕ)
    → Denotes p n ns
    → Denotes l n (ns ++ k ∷ more)
    → allocate show (some p) (some l) ≡ ok q
    → (q ≡ at n (ns ++ (k + 1) ∷ [])) × (k < max_ordinal) × Denotes q n (ns ++ (k + 1) ∷ [])
allocate-Denotes show {p} {l} {q} {n} {ns} k more dp dl e =
    let (front, small) = split_ordinals ns k more dl.ordinals.1 in
    let room : length ns + 1 < max_depth = omega (arith, dl.shallow, length-append ns (k ∷ more)) in
    let at_p = Denotes-eq dp in
    let at_l = Denotes-eq dl in
    let same : allocate show (some p) (some l)
        ≡ allocate show (some (at n ns)) (some (at n (ns ++ k ∷ more))) =
      λ i. allocate show (some (at_p i)) (some (at_l i)) in
    let (is_q, next_small) = allocated-at show n ns k more small room (sym same ∙ e) in
    (
      is_q,
      next_small,
      record {
        ordinals = (dl.ordinals.0, All-append IsOrdinal ns ((k + 1) ∷ []) front (omega arith, tt));
        shallow = omega (arith, length-append ns ((k + 1) ∷ []));
        written = ap (λ r. r.text) is_q;
      },
    )

-- The new reply, where some path below its parent is taken already: it is a child of the parent,
-- and it sorts after the path that was found, hence after every path below the parent, since the
-- path found is the last of them.
pub allocate-fresh :
    (show : PathError → Text) {p l q : TreePath} {n : ℕ} {ns : List ℕ} (k : ℕ) (more : List ℕ)
    → Denotes p n ns
    → Denotes l n (ns ++ k ∷ more)
    → allocate show (some p) (some l) ≡ ok q
    → (parent q ≡ some p) × (ordinal q ≡ k + 1) × (compare_list l.text q.text ≡ Ordering.lt)
allocate-fresh show {p} {l} {q} {n} {ns} k more dp dl e =
    let (is_q, next_small, dq) = allocate-Denotes show k more dp dl e in
    (
      ap parent is_q ∙ parent-at_snoc n ns (k + 1) ∙ ap some (sym (Denotes-eq dp)),
      ap ordinal is_q ∙ ordinal-at_snoc n ns (k + 1) (omega arith),
      compare-Denotes dl dq
          ∙ compare_same n (ns ++ k ∷ more) (ns ++ (k + 1) ∷ [])
          ∙ compare_after ns k more,
    )

-- The first reply to a post is its child with ordinal 0.
pub allocate-first :
    (show : PathError → Text) {p q : TreePath} {n : ℕ} {ns : List ℕ}
    → Denotes p n ns
    → allocate show (some p) none ≡ ok q
    → (parent q ≡ some p) × (ordinal q ≡ 0) × (depth q ≡ depth p + 1)
unfolding allocate
allocate-first show {p} {q} dp e =
    let (above, place, deeper, _) = child-parent 0 dp (unwrap show (child p 0) e) in
    (above, place, deeper)

cursor_cases :
    (rank size page start : ℕ)
    → 1 ≤ size
    → start ≡ page * size
    → start ≤ rank
    → rank < start + size
    → let cursor = if ltb 0 page then some (start - 1) else none in
      ((cursor ≡ none) × (rank < size))
      ⊎ ((o : ℕ) × (cursor ≡ some o) × (o < rank) × (rank ≤ o + size) × (o + 1 ≡ start))
cursor_cases rank size zero start h e lo hi = inl (refl, omega arith)
cursor_cases rank size (suc page) start h e lo hi =
    let full : size ≤ start = omega (arith, suc-mul page size) in
    inr (start - 1, ground arith, omega arith, omega arith, omega arith)

-- The cursor of a page stands before the post, and the post is on the page after it, which starts
-- at a multiple of the page's size; there is no cursor exactly on the first page.
pub page_cursor_offset_lem :
    (rank page_size : ℕ)
    → let size = max page_size 1 in
      ((page_cursor_offset rank page_size ≡ none) × (rank < size))
      ⊎ ((o : ℕ) × (page_cursor_offset rank page_size ≡ some o)
          × (o < rank)
          × (rank ≤ o + size)
          × (o + 1 ≡ rank / size * size))
unfolding page_cursor_offset
page_cursor_offset_lem rank page_size =
    let size = max page_size 1 in
    cursor_cases rank size (rank / size) (rank / size * size) (omega arith) refl
      (div-mul-le_self rank size) (lt-div-mul-add (omega arith))
