-- ===== src/TreePath/Sibling.antt =====
-- `next_sibling` of crates/core/src/path.rs.
use notespace.Base.{
  ℕ, ◌+◌, ◌<◌, ◌≡◌, ap, ◌∙◌, sym, subst, arith, Text, List, [], ◌∷◌, ◌++◌, All, length,
  length-append, ok, err, ltb, snoc_view, ◌⊎◌, inl, inr, Bool-cases, ltb→lt, ltb-false→le,
  le→ltb-false, Ordering, compare_list, append_assoc, append-nil,
}
use notespace.TreePath.{
  TreePath, ordinal_too_large, separator, max_ordinal, max_depth, parent, ordinal, next_sibling,
  subtree_end,
}
use notespace.TreePath.Segment.{segment, compare-segment}
use notespace.TreePath.Position.{IsOrdinal, render, Denotes, render-snoc}
use notespace.TreePath.Walk.{
  at, Denotes-eq, parent-at_nil, parent-at_snoc, ordinal-at_nil, ordinal-at_snoc,
  next_sibling-at_nil, next_sibling-at_snoc,
}
use notespace.TreePath.Subtree.{compare_self}

-- What a path and its next sibling have to do with one another.
pub record IsNext (p q : TreePath) : Type 0 where
  pub same_parent : parent q ≡ parent p
  pub next_ordinal : ordinal q ≡ ordinal p + 1
  pub beyond : compare_list (subtree_end p) q.text ≡ Ordering.lt

beyond_segment :
    (s : Text) (k : ℕ)
    → k < max_ordinal
    → compare_list ((s ++ segment k) ++ b'/' ∷ []) (s ++ segment (k + 1)) ≡ Ordering.lt
beyond_segment s k h =
    rw
      (
        append_assoc s (segment k) (b'/' ∷ []),
        compare_self s (segment k ++ b'/' ∷ []) (segment (k + 1)),
      )
      (rw (← append-nil (segment (k + 1)))
        (ground (arith, compare-segment k (k + 1) (b'/' ∷ []) [] (omega arith) (omega arith))))

IsNext-nil : (n : ℕ) → n < max_ordinal → IsNext (at n []) (at (n + 1) [])
unfolding subtree_end render
IsNext-nil n h = record {
  same_parent = parent-at_nil (n + 1) ∙ sym (parent-at_nil n);
  next_ordinal =
      omega (arith, ordinal-at_nil n (omega arith), ordinal-at_nil (n + 1) (omega arith));
  beyond = beyond_segment [] n h;
}

snoc_text :
    (n : ℕ) (ns : List ℕ) (k : ℕ)
    → render n (ns ++ k ∷ []) ≡ (render n ns ++ separator ∷ []) ++ segment k
snoc_text n ns k =
    render-snoc n ns k ∙ sym (append_assoc (render n ns) (separator ∷ []) (segment k))

IsNext-snoc :
    (n : ℕ) (ns : List ℕ) (k : ℕ)
    → k < max_ordinal
    → IsNext (at n (ns ++ k ∷ [])) (at n (ns ++ (k + 1) ∷ []))
unfolding subtree_end
IsNext-snoc n ns k h = record {
  same_parent = parent-at_snoc n ns (k + 1) ∙ sym (parent-at_snoc n ns k);
  next_ordinal =
      omega
        (arith, ordinal-at_snoc n ns k (omega arith), ordinal-at_snoc n ns (k + 1) (omega arith));
  beyond =
      rw (snoc_text n ns k, snoc_text n ns (k + 1))
        (beyond_segment (render n ns ++ separator ∷ []) k h);
}

last-IsOrdinal : (ns : List ℕ) (k : ℕ) → All IsOrdinal (ns ++ k ∷ []) → IsOrdinal k
last-IsOrdinal [] k h = h.0
last-IsOrdinal (n ∷ ns) k h = last-IsOrdinal ns k h.1

abbrev Outcomes : TreePath → Type 0
Outcomes p =
    ((ordinal p ≡ max_ordinal) × (next_sibling p ≡ err (ordinal_too_large (max_ordinal + 1))))
    ⊎ ((q : TreePath) × (next_sibling p ≡ ok q) × IsNext p q)

next_sibling-nil : (n : ℕ) → IsOrdinal n → Outcomes (at n [])
next_sibling-nil n h = elim (Bool-cases (ltb n max_ordinal)) [
  | inl room ↦
      let low = ltb→lt n max_ordinal room in
      inr (
        at (n + 1) [],
        rw (next_sibling-at_nil n h, le→ltb-false max_ordinal (n + 1) (omega arith)),
        IsNext-nil n low,
      )
  | inr full ↦
      let top : n ≡ max_ordinal = omega (arith, ltb-false→le n max_ordinal full) in
      inl (ordinal-at_nil n h ∙ top, next_sibling-at_nil n h ∙ ground arith)
]

next_sibling-snoc :
    (n : ℕ) (ns : List ℕ) (k : ℕ)
    → IsOrdinal k
    → length ns + 1 < max_depth
    → Outcomes (at n (ns ++ k ∷ []))
next_sibling-snoc n ns k h d = elim (Bool-cases (ltb k max_ordinal)) [
  | inl room ↦
      let low = ltb→lt k max_ordinal room in
      inr (
        at n (ns ++ (k + 1) ∷ []),
        rw (next_sibling-at_snoc n ns k h d, le→ltb-false max_ordinal (k + 1) (omega arith)),
        IsNext-snoc n ns k low,
      )
  | inr full ↦
      let top : k ≡ max_ordinal = omega (arith, ltb-false→le k max_ordinal full) in
      inl (ordinal-at_snoc n ns k h ∙ top, next_sibling-at_snoc n ns k h d ∙ ground arith)
]

-- On a path that stands for a position, `next_sibling` fails exactly at the last ordinal of a
-- level, and otherwise returns the path with the same parent and the next ordinal, which sorts
-- after the end of the whole subtree of the first.
pub next_sibling_lem :
    {p : TreePath} {n : ℕ} {ns : List ℕ}
    → Denotes p n ns
    → ((ordinal p ≡ max_ordinal) × (next_sibling p ≡ err (ordinal_too_large (max_ordinal + 1))))
      ⊎ ((q : TreePath) × (next_sibling p ≡ ok q) × IsNext p q)
next_sibling_lem {n} {ns = []} d =
    subst Outcomes (sym (Denotes-eq d)) (next_sibling-nil n d.ordinals.0)
next_sibling_lem {n} {ns = m ∷ ms} d =
    let (ys, k, e) = snoc_view m ms in
    let len = ap length e ∙ length-append ys (k ∷ []) in
    subst Outcomes (sym (Denotes-eq d ∙ ap (at n) e)) (
      next_sibling-snoc n ys k (last-IsOrdinal ys k (subst (All IsOrdinal) e d.ordinals.1))
        (omega (arith, d.shallow)))
