-- ===== src/TreePath/Walk.antt =====
-- The operations of crates/core/src/path.rs that move in the tree, on the ordinals they stand for.
use notespace.Base.{
  ℕ, zero, suc, ◌+◌, ◌≤◌, ◌<◌, ◌≡◌, ap, ◌∙◌, sym, arith, Text, List, [], ◌∷◌, ◌++◌, All, All-append,
  length, length-append, none, some, ok, err, if◌then◌else◌, ltb, leb, snoc_view, take, take-append,
  take-append_le, take_all, subst, drop-append_suc, ltb→lt, le→ltb-false, ltb-false→le, Bool-cases,
  inl, inr,
}
use native.Mathlib.Nat.{le_refl}
use notespace.TreePath.{
  TreePath, ordinal_too_large, too_deep, separator, max_ordinal, max_depth, depth, root, child,
  parent, ordinal, next_sibling, segments, ancestor_at_depth, climb, last_segment, under,
}
use notespace.TreePath.Segment.{segment, encode_segment_lem, encode_segment_err, decode-segment}
use notespace.TreePath.Split.{rfind-Free, rfind-append}
use notespace.TreePath.Position.{
  IsOrdinal, render, Denotes, segment-Free, render-snoc, count-render, segments-render,
}

abbrev pub at : ℕ → List ℕ → TreePath
at n ns = record { text = render n ns }

pub Denotes-eq : {p : TreePath} {n : ℕ} {ns : List ℕ} → Denotes p n ns → p ≡ at n ns
Denotes-eq d = λ i. record { text = d.written i }

pub segments-at : (n : ℕ) (ns : List ℕ) → All IsOrdinal (n ∷ ns) → segments (at n ns) ≡ n ∷ ns
unfolding segments
segments-at n ns h = segments-render n ns h

pub depth-at : (n : ℕ) (ns : List ℕ) → depth (at n ns) ≡ length ns
unfolding depth
depth-at n ns = count-render n ns

pub parent-at_nil : (n : ℕ) → parent (at n []) ≡ none
unfolding parent render
parent-at_nil n = rw (rfind-Free separator (segment n) (segment-Free n), parent)

parent-join :
    (s : Text) (m : ℕ)
    → parent (record { text = s ++ separator ∷ segment m }) ≡ some (record { text = s })
unfolding parent
parent-join s m =
    rw (rfind-append separator s (segment m) (segment-Free m), parent)
      (ap (λ t. some (record { text = t })) (take-append s (separator ∷ segment m)))

pub parent-at_snoc : (n : ℕ) (ns : List ℕ) (m : ℕ) → parent (at n (ns ++ m ∷ [])) ≡ some (at n ns)
parent-at_snoc n ns m =
    ap (λ t. parent (record { text = t })) (render-snoc n ns m) ∙ parent-join (render n ns) m

pub ordinal-at_nil : (n : ℕ) → IsOrdinal n → ordinal (at n []) ≡ n
unfolding ordinal render
ordinal-at_nil n h = rw (rfind-Free separator (segment n) (segment-Free n)) (decode-segment n h)

ordinal-join :
    (s : Text) (m : ℕ) → IsOrdinal m → ordinal (record { text = s ++ separator ∷ segment m }) ≡ m
unfolding ordinal
ordinal-join s m h =
    rw (rfind-append separator s (segment m) (segment-Free m), last_segment)
      (rw (drop-append_suc s separator (segment m)) (decode-segment m h))

pub ordinal-at_snoc :
    (n : ℕ) (ns : List ℕ) (m : ℕ) → IsOrdinal m → ordinal (at n (ns ++ m ∷ [])) ≡ m
ordinal-at_snoc n ns m h =
    ap (λ t. ordinal (record { text = t })) (render-snoc n ns m) ∙ ordinal-join (render n ns) m h

pub root-at :
    (n : ℕ) → root n ≡ (if ltb max_ordinal n then err (ordinal_too_large n) else ok (at n []))
unfolding root render
root-at n = ground (arith, encode_segment_lem n, encode_segment_err n)

pub child-at :
    (n : ℕ) (ns : List ℕ) (k : ℕ)
    → child (at n ns) k ≡ (
        if leb max_depth (length ns + 1)
        then err (too_deep (length ns + 1))
        else if ltb max_ordinal k
        then err (ordinal_too_large k)
        else ok (at n (ns ++ k ∷ [])))
unfolding child
child-at n ns k =
    rw (depth-at n ns, render-snoc n ns k)
      (ground (arith, encode_segment_lem k, encode_segment_err k))

climb-snoc :
    (fuel d n : ℕ) (ys : List ℕ) (y : ℕ)
    → d ≤ length ys + 1
    → (d ≤ length ys → climb fuel d (at n ys) ≡ some (at n (take d ys)))
    → climb (suc fuel) d (at n (ys ++ y ∷ [])) ≡ some (at n (take d (ys ++ y ∷ [])))
unfolding climb
climb-snoc fuel d n ys y h ih =
    rw (depth-at n (ys ++ y ∷ []), parent-at_snoc n ys y)
      (elim (Bool-cases (ltb d (length ys + 1))) [
        | inl low ↦ rw (length-append ys (y ∷ [])) (
            ground
              (arith, take-append_le d ys (y ∷ []), ih (omega (arith, ltb→lt d (length ys + 1)))))
        | inr top ↦
            let e : d ≡ length (ys ++ y ∷ []) =
              omega (arith, ltb-false→le d (length ys + 1) top, length-append ys (y ∷ [])) in
            rw (e, take_all (ys ++ y ∷ []), le→ltb-false _ _ (le_refl (length (ys ++ y ∷ []))))
      ])

-- The loop stops at the ancestor, before its fuel is spent.
climb-at :
    (fuel d n : ℕ) (ns : List ℕ)
    → length ns ≤ fuel
    → d ≤ length ns
    → climb fuel d (at n ns) ≡ some (at n (take d ns))
unfolding climb
climb-at zero zero n [] h k = ground (arith, depth-at n [])
climb-at zero (suc d) n [] h k = absurd (omega arith)
climb-at zero d n (m ∷ ms) h k = absurd (omega arith)
climb-at (suc fuel) zero n [] h k = ground (arith, depth-at n [])
climb-at (suc fuel) (suc d) n [] h k = absurd (omega arith)
climb-at (suc fuel) d n (m ∷ ms) h k =
    let (ys, y, e) = snoc_view m ms in
    let len : length ys + 1 ≡ length (m ∷ ms) = sym (ap length e ∙ length-append ys (y ∷ [])) in
    subst (λ l. climb (suc fuel) d (at n l) ≡ some (at n (take d l))) (sym e)
      (climb-snoc fuel d n ys y (omega arith) (λ low. climb-at fuel d n ys (omega arith) low))

-- Truncation to a depth keeps the first ordinals, and fails exactly below the path's own depth.
pub ancestor_at_depth-at :
    (n : ℕ) (ns : List ℕ) (d : ℕ)
    → ancestor_at_depth (at n ns) d ≡ (if ltb (length ns) d then none else some (at n (take d ns)))
unfolding ancestor_at_depth
ancestor_at_depth-at n ns d =
    ground (arith, depth-at n ns, climb-at (length ns) d n ns (omega arith))

-- Every branch of `child`, on a path that stands for a position: too deep, an ordinal that does
-- not fit, or the position with one more ordinal.
pub child_lem :
    {p : TreePath} {n : ℕ} {ns : List ℕ} (k : ℕ)
    → Denotes p n ns
    → child p k ≡ (
        if leb max_depth (length ns + 1)
        then err (too_deep (length ns + 1))
        else if ltb max_ordinal k
        then err (ordinal_too_large k)
        else ok (at n (ns ++ k ∷ [])))
child_lem {n} {ns} k d = rw (Denotes-eq d) (child-at n ns k)

child_inv :
    {p q : TreePath} {n : ℕ} {ns : List ℕ} (k : ℕ)
    → Denotes p n ns
    → child p k ≡ ok q
    → (q ≡ at n (ns ++ k ∷ [])) × IsOrdinal k × (length ns + 1 < max_depth)
child_inv k d e = ground (arith, child_lem k d)

pub child-Denotes :
    {p q : TreePath} {n : ℕ} {ns : List ℕ} (k : ℕ)
    → Denotes p n ns
    → child p k ≡ ok q
    → Denotes q n (ns ++ k ∷ [])
child-Denotes {n} {ns} k d e =
    let (same, small, room) = child_inv k d e in
    record {
      ordinals = (d.ordinals.0, All-append IsOrdinal ns (k ∷ []) d.ordinals.1 (small, tt));
      shallow = omega (arith, length-append ns (k ∷ []));
      written = ap (λ r. r.text) same;
    }

-- A child knows its parent, its own ordinal, its depth and the ordinals above it.
pub child-parent :
    {p q : TreePath} {n : ℕ} {ns : List ℕ} (k : ℕ)
    → Denotes p n ns
    → child p k ≡ ok q
    → (parent q ≡ some p)
      × (ordinal q ≡ k)
      × (depth q ≡ depth p + 1)
      × (segments q ≡ segments p ++ k ∷ [])
child-parent {n} {ns} k d e =
    let (same, small, room) = child_inv k d e in
    let above = Denotes-eq d in
    let below = child-Denotes k d e in
    (
      rw (same, above) (parent-at_snoc n ns k),
      rw same (ordinal-at_snoc n ns k small),
      rw (same, above)
          (omega (arith, depth-at n ns, depth-at n (ns ++ k ∷ []), length-append ns (k ∷ []))),
      rw (same, above)
          (segments-at n (ns ++ k ∷ []) below.ordinals
            ∙ ap (λ l. l ++ k ∷ []) (sym (segments-at n ns d.ordinals))),
    )

-- The next sibling has the same parent and the next ordinal; there is none after the last one.
pub next_sibling-at_snoc :
    (n : ℕ) (ns : List ℕ) (k : ℕ)
    → IsOrdinal k
    → length ns + 1 < max_depth
    → next_sibling (at n (ns ++ k ∷ [])) ≡ (
        if ltb max_ordinal (k + 1)
        then err (ordinal_too_large (k + 1))
        else ok (at n (ns ++ (k + 1) ∷ [])))
unfolding next_sibling
next_sibling-at_snoc n ns k h d =
    rw (ordinal-at_snoc n ns k h, parent-at_snoc n ns k, under)
      (ground (arith, child-at n ns (k + 1)))

pub next_sibling-at_nil :
    (n : ℕ)
    → IsOrdinal n
    → next_sibling (at n [])
      ≡ (if ltb max_ordinal (n + 1) then err (ordinal_too_large (n + 1)) else ok (at (n + 1) []))
unfolding next_sibling
next_sibling-at_nil n h =
    rw (ordinal-at_nil n h, parent-at_nil n, under) (ground (arith, root-at (n + 1)))

-- `ancestor_at_depth` fails exactly below the path's own depth, and otherwise returns the path of
-- the first ordinals, one more than the depth asked for.
pub ancestor_at_depth_lem :
    {p : TreePath} {n : ℕ} {ns : List ℕ} (d : ℕ)
    → Denotes p n ns
    → ancestor_at_depth p d ≡ (if ltb (depth p) d then none else some (at n (take d ns)))
ancestor_at_depth_lem {n} {ns} d e = rw (Denotes-eq e, depth-at n ns) (ancestor_at_depth-at n ns d)
