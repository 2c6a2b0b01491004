-- ===== src/Store/Writing/Fresh/Top.antt =====
-- A new opening post: it follows the last path of its thread and is in the range of opening posts.
use notespace.Base.{
  ℕ, ◌+◌, ◌/◌, ◌%◌, ◌<◌, true, Text, List, [], ◌∷◌, none, some, if◌then◌else◌, ltb, compare_list,
  is_lt, Ordering, ok, err, ok_inj, le→ltb-false, length, ◌≡◌, refl, sym, ap, ◌∙◌, arith,
}
use notespace.TreePath.{TreePath, PathError, root, max_ordinal, ordinal_too_large}
use notespace.TreePath.Segment.{segment, segment_lem, digit_char_under}
use notespace.TreePath.Position.{IsOrdinal, Denotes, compare-Denotes, render}
use notespace.TreePath.Walk.{at, Denotes-eq, ancestor_at_depth-at, next_sibling-at_nil, root-at}
use notespace.Allocation.{allocate, as_backend}
use notespace.Allocation.Fresh.{unwrap}
use notespace.Store.Writing.{between}

segment_below : (n : ℕ) → between [] (127 ∷ []) (segment n) ≡ true
segment_below n =
    rw segment_lem (ground (arith, digit_char_under (n / 32 / 32 / 32 % 32) (omega arith)))

top-at : (n : ℕ) {q : TreePath} → q ≡ at n [] → between [] (127 ∷ []) q.text ≡ true
unfolding render
top-at n e = ap (λ r. between [] (127 ∷ []) r.text) e ∙ segment_below n

pub first_top :
    (show : PathError → Text) {q : TreePath}
    → allocate show none none ≡ ok q
    → between [] (127 ∷ []) q.text ≡ true
unfolding allocate
first_top show {q} e =
    let d : (if ltb max_ordinal 0 then err (ordinal_too_large 0) else ok (at 0 [])) ≡ ok q =
      sym (root-at 0) ∙ unwrap show (root 0) e in
    top-at 0 (sym (ok_inj d))

allocate-top :
    (show : PathError → Text) (m : ℕ) (ms : List ℕ)
    → IsOrdinal m
    → allocate show none (some (at m ms))
      ≡ as_backend show
          (if ltb max_ordinal (m + 1) then err (ordinal_too_large (m + 1)) else ok (at (m + 1) []))
unfolding allocate
allocate-top show m ms h =
    rw
      (
        ancestor_at_depth-at m ms 0,
        le→ltb-false (length ms) 0 (omega arith),
        next_sibling-at_nil m h,
      )
      refl

pub next_top :
    (show : PathError → Text) {l q : TreePath} {m : ℕ} {ms : List ℕ}
    → Denotes l m ms
    → allocate show none (some l) ≡ ok q
    → (between [] (127 ∷ []) q.text ≡ true) × (is_lt (compare_list l.text q.text) ≡ true)
unfolding allocate
next_top show {l} {q} {m} {ms} dl e =
    let at_l = Denotes-eq dl in
    let small = dl.ordinals.0 in
    let same : allocate show none (some l) ≡ allocate show none (some (at m ms)) =
      λ i. allocate show none (some (at_l i)) in
    let d : as_backend show
          (if ltb max_ordinal (m + 1) then err (ordinal_too_large (m + 1)) else ok (at (m + 1) []))
        ≡ ok q =
      sym (allocate-top show m ms small) ∙ sym same ∙ e in
    let is_q : q ≡ at (m + 1) [] = ground arith in
    let fits : m < max_ordinal = ground arith in
    let dq : Denotes q (m + 1) [] = record {
      ordinals = (omega arith, tt);
      shallow = omega arith;
      written = ap (λ r. r.text) is_q;
    } in
    let after : compare_list l.text q.text ≡ Ordering.lt = compare-Denotes dl dq ∙ ground arith in
    (top-at (m + 1) is_q, ap is_lt after)
