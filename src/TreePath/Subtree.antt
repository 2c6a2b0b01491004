-- ===== src/TreePath/Subtree.antt =====
-- Subtrees of crates/core/src/path.rs: `is_descendant_of` and the range that selects a subtree.
use notespace.Base.{
  ℕ, ◌≡◌, ◌≢◌, refl, sym, arith, Bool, true, false, ◌&&◌, ◌||◌, not, Text, List, [], ◌∷◌, ◌++◌, All,
  length, length-append, get_or, compare, Ordering, compare_list, append_assoc, append-nil, is_lt,
  text_eq, ltb, if◌then◌else◌, Bool-cases, inl, inr, ne→==-false, ◌==◌, ==_refl,
}
use native.Mathlib.Decide.{ℕ_discrete}
use notespace.TreePath.{TreePath, separator, starts_with, is_descendant_of, subtree_end}
use notespace.TreePath.Segment.{segment, compare-segment}
use notespace.TreePath.Position.{IsOrdinal, render, Denotes}

-- The test of `is_descendant_of`, and membership of the half-open range from `t` to its end.
descends : Text → Text → Bool
descends s t =
    text_eq s t
    || (ltb (length t) (length s) && get_or s (length t) 0 == separator && starts_with s t)

-- `text >= lo AND text < hi`, as the query compares.
unfoldable pub in_range : Text → Text → Text → Bool
in_range s lo hi = not (is_lt (compare_list s lo)) && is_lt (compare_list s hi)

pub compare_self : (s t u : Text) → compare_list (s ++ t) (s ++ u) ≡ compare_list t u
compare_self [] t u = refl
compare_self (c ∷ s) t u = ground (arith, compare_self s t u)

starts_with_self : (s t u : Text) → starts_with (s ++ t) (s ++ u) ≡ starts_with t u
unfolding starts_with
starts_with_self [] t u = refl
starts_with_self (c ∷ s) t u = rw (==_refl c) (starts_with_self s t u)

get_or_self : (s t u : Text) → get_or (s ++ t) (length (s ++ u)) 0 ≡ get_or t (length u) 0
get_or_self [] t u = refl
get_or_self (c ∷ s) t u = get_or_self s t u

text_eq_self : (s t u : Text) → text_eq (s ++ t) (s ++ u) ≡ text_eq t u
unfolding text_eq
text_eq_self s t u = rw (compare_self s t u, text_eq)

-- A common beginning does not matter.
descends_self : (s t u : Text) → descends (s ++ t) (s ++ u) ≡ descends t u
unfolding descends
descends_self s t u =
    rw (text_eq_self s t u, get_or_self s t u, starts_with_self s t u)
      (ground (arith, length-append s t, length-append s u))

in_range_self : (s t u v : Text) → in_range (s ++ t) (s ++ u) (s ++ v) ≡ in_range t u v
unfolding in_range
in_range_self s t u v = rw (compare_self s t u, compare_self s t v)

compare_refl : (s : Text) → compare_list s s ≡ Ordering.eq
compare_refl [] = refl
compare_refl (c ∷ s) = ground (arith, compare_refl s)

starts_with-eq : (s t : Text) → starts_with s t ≡ true → (u : Text) × (s ≡ t ++ u)
unfolding starts_with
starts_with-eq s [] h = (s, refl)
starts_with-eq [] (c ∷ t) h = cc
starts_with-eq (d ∷ s) (c ∷ t) h =
    let (u, e) = starts_with-eq s t (ground arith) in (u, ground arith)

-- Different segments end every comparison.
module _ (n m : ℕ) (h : IsOrdinal n) (k : IsOrdinal m) (ne : n ≢ m) where
  compare_differ : (s t : Text) → compare_list (segment n ++ s) (segment m ++ t) ≡ compare n m
  compare_differ s t = ground (arith, compare-segment n m s t h k)

  starts_with_differ : (s t : Text) → starts_with (segment n ++ s) (segment m ++ t) ≡ false
  starts_with_differ s t = elim (Bool-cases (starts_with (segment n ++ s) (segment m ++ t))) [
    | inr no_prefix ↦ no_prefix
    | inl prefix ↦ absurd (apart (starts_with-eq _ _ prefix))
  ]
    where
      apart : (u : Text) × (segment n ++ s ≡ (segment m ++ t) ++ u) → ⊥
      apart (u, e) =
          let same : compare_list (segment n ++ s) (segment m ++ (t ++ u)) ≡ Ordering.eq =
            rw (e, append_assoc (segment m) t u) (compare_refl (segment m ++ (t ++ u))) in
          ground (arith, compare_differ s (t ++ u))

  descends_differ : (s t : Text) → descends (segment n ++ s) (segment m ++ t) ≡ false
  unfolding descends text_eq
  descends_differ s t = ground (arith, compare_differ s t, starts_with_differ s t)

  in_range_differ :
      (s t u : Text) → in_range (segment n ++ s) (segment m ++ t) (segment m ++ u) ≡ false
  unfolding in_range
  in_range_differ s t u = ground (arith, compare_differ s t, compare_differ s u)

-- The end of the subtree of a position: its text, and the byte above the separator.
abbrev end_of : Text → Text
end_of t = t ++ b'/' ∷ []

descends_tails :
    (n m : ℕ) (s t : Text)
    → IsOrdinal n
    → IsOrdinal m
    → descends (segment n ++ s) (segment m ++ t) ≡ (if n == m then descends s t else false)
descends_tails n m s t h k = elim (ℕ_discrete n m) [
  | yes e ↦ rw (e, ==_refl m) (descends_self (segment m) s t)
  | no ne ↦ rw (ne→==-false n m ne) (descends_differ n m h k ne s t)
]

in_range_tails :
    (n m : ℕ) (s t : Text)
    → IsOrdinal n
    → IsOrdinal m
    → in_range (segment n ++ s) (segment m ++ t) (end_of (segment m ++ t))
      ≡ (if n == m then in_range s t (end_of t) else false)
in_range_tails n m s t h k = rw (append_assoc (segment m) t (b'/' ∷ [])) (elim (ℕ_discrete n m) [
  | yes e ↦ rw (e, ==_refl m) (in_range_self (segment m) s t (end_of t))
  | no ne ↦ rw (ne→==-false n m ne) (in_range_differ n m h k ne s t (end_of t))
])

-- What the text of a position has after its first segment.
abbrev after : List ℕ → Text
after [] = []
after (m ∷ ms) = separator ∷ render m ms

render-after : (n : ℕ) (ns : List ℕ) → render n ns ≡ segment n ++ after ns
unfolding render
render-after n [] = sym (append-nil (segment n))
render-after n (m ∷ ms) = refl

-- A test on texts that comes down to segments and separators.
record TestsPrefix (test : Text → Text → Bool) : Type 0 where
  at_segment :
      (n m : ℕ) (s t : Text)
      → IsOrdinal n
      → IsOrdinal m
      → test (segment n ++ s) (segment m ++ t) ≡ (if n == m then test s t else false)
  at_end : test [] [] ≡ true
  above : (t : Text) → test [] (separator ∷ t) ≡ false
  below : (s : Text) → test (separator ∷ s) [] ≡ true
  at_separator : (s t : Text) → test (separator ∷ s) (separator ∷ t) ≡ test s t

module _ (test : Text → Text → Bool) (laws : TestsPrefix test) where
  test-after :
      (ns ms : List ℕ)
      → All IsOrdinal ns
      → All IsOrdinal ms
      → test (after ns) (after ms) ≡ starts_with ns ms
  unfolding starts_with
  test-after [] [] h k = laws.at_end
  test-after [] (m ∷ ms) h k = laws.above (render m ms)
  test-after (n ∷ ns) [] h k = laws.below (render n ns)
  test-after (n ∷ ns) (m ∷ ms) (h, hs) (k, ks) =
      rw (laws.at_separator, render-after n ns, render-after m ms)
        (ground (arith, laws.at_segment n m (after ns) (after ms) h k, test-after ns ms hs ks))

  test-render :
      (n : ℕ) (ns : List ℕ) (m : ℕ) (ms : List ℕ)
      → All IsOrdinal (n ∷ ns)
      → All IsOrdinal (m ∷ ms)
      → test (render n ns) (render m ms) ≡ starts_with (n ∷ ns) (m ∷ ms)
  test-render n ns m ms h k =
      rw (← laws.at_separator (render n ns) (render m ms)) (test-after (n ∷ ns) (m ∷ ms) h k)

descends_laws : TestsPrefix descends
unfolding descends text_eq starts_with
descends_laws = record {
  at_segment = descends_tails;
  at_end = refl;
  above = λ t. ground arith;
  below = λ s. ground arith;
  at_separator = λ s t. descends_self (separator ∷ []) s t;
}

selects : Text → Text → Bool
selects s t = in_range s t (end_of t)

selects_laws : TestsPrefix selects
unfolding selects in_range
selects_laws = record {
  at_segment = in_range_tails;
  at_end = refl;
  above = λ t. refl;
  below = λ s. ground arith;
  at_separator = λ s t. in_range_self (separator ∷ []) s t (end_of t);
}

-- One path lies beneath another exactly when its ordinals begin with the other's.
pub is_descendant_of_lem :
    {p q : TreePath} {n : ℕ} {ns : List ℕ} {m : ℕ} {ms : List ℕ}
    → Denotes p n ns
    → Denotes q m ms
    → is_descendant_of p q ≡ starts_with (n ∷ ns) (m ∷ ms)
unfolding is_descendant_of descends
is_descendant_of_lem {n} {ns} {m} {ms} d e =
    rw (d.written, e.written) (test-render descends descends_laws n ns m ms d.ordinals e.ordinals)

-- The range scan `text >= q AND text < subtree_end q` selects exactly the subtree of `q`.
pub subtree_end_lem :
    {p q : TreePath} {n : ℕ} {ns : List ℕ} {m : ℕ} {ms : List ℕ}
    → Denotes p n ns
    → Denotes q m ms
    → in_range p.text q.text (subtree_end q) ≡ is_descendant_of p q
unfolding subtree_end selects
subtree_end_lem {n} {ns} {m} {ms} d e =
    rw (is_descendant_of_lem d e, d.written, e.written)
      (test-render selects selects_laws n ns m ms d.ordinals e.ordinals)
