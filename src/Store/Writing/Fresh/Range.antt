-- ===== src/Store/Writing/Fresh/Range.antt =====
-- The allocated path lies in the range that was searched, after the path that was found there.
use notespace.Base.{
  ℕ, ◌+◌, Bool, true, ◌&&◌, Text, List, [], ◌∷◌, ◌++◌, none, some, compare_list, is_lt, Ordering,
  ok, ◌≡◌, refl, sym, ap, ◌∙◌, arith, subst, append-nil,
}
use notespace.TreePath.{TreePath, PathError, starts_with, subtree_end, child}
use notespace.TreePath.Position.{Denotes, compare-Denotes}
use notespace.TreePath.Walk.{child-Denotes}
use notespace.TreePath.Subtree.{in_range, is_descendant_of_lem, subtree_end_lem}
use notespace.Allocation.{allocate}
use notespace.Allocation.Fresh.{allocate-fresh, allocate-Denotes, unwrap}
use notespace.Store.Writing.{between}
use notespace.Store.Writing.Fresh.Last.{and_both, lt_asym, lt_irrefl}

starts_with-append : (s t : List ℕ) → starts_with (s ++ t) s ≡ true
unfolding starts_with
starts_with-append [] [] = refl
starts_with-append [] (x ∷ t) = refl
starts_with-append (x ∷ s) t = ground (arith, starts_with-append s t)

starts_with_split : (s t : List ℕ) → starts_with s t ≡ true → (r : List ℕ) × (s ≡ t ++ r)
unfolding starts_with
starts_with_split s [] h = (s, refl)
starts_with_split [] (y ∷ t) h = cc
starts_with_split (x ∷ s) (y ∷ t) h =
    let (r, e) = starts_with_split s t (ground (arith, h)) in
    let same : x ≡ y = ground (arith, h) in (r, λ i. same i ∷ e i)

compare_longer : (s : List ℕ) (k : ℕ) → compare_list s (s ++ k ∷ []) ≡ Ordering.lt
compare_longer [] k = refl
compare_longer (x ∷ s) k = ground (arith, compare_longer s k)

and_intro : {a b : Bool} → a ≡ true → b ≡ true → a && b ≡ true
and_intro h k = rw (h, k) refl

-- A position given as one list.
abbrev Stands : TreePath → List ℕ → Type 0
Stands p [] = Unit
Stands p (n ∷ ns) = Denotes p n ns

between-child :
    {p q : TreePath} {n : ℕ} {ns : List ℕ} (k : ℕ)
    → Denotes p n ns
    → Denotes q n (ns ++ k ∷ [])
    → between p.text (subtree_end p) q.text ≡ true
unfolding in_range
between-child {p} {q} {n} {ns} k dp dq =
    let lower : compare_list p.text q.text ≡ Ordering.lt =
      compare-Denotes dp dq ∙ compare_longer (n ∷ ns) k in
    let within : in_range q.text p.text (subtree_end p) ≡ true =
      subtree_end_lem dq dp ∙ is_descendant_of_lem dq dp ∙ starts_with-append (n ∷ ns) (k ∷ []) in
    and_intro (ap is_lt lower) (and_both _ within).1

deeper :
    {p l : TreePath} {n : ℕ} {ns : List ℕ} {m : ℕ} {ms : List ℕ}
    → Denotes p n ns
    → Denotes l m ms
    → is_lt (compare_list p.text l.text) ≡ true
    → (r : List ℕ) → m ∷ ms ≡ (n ∷ ns) ++ r
    → (k : ℕ) × (more : List ℕ) × Denotes l n (ns ++ k ∷ more)
deeper {p} {l} {n} {ns} {m} {ms} dp dl above [] e =
    let same = compare-Denotes dp dl ∙ ap (compare_list (n ∷ ns)) (e ∙ append-nil (n ∷ ns)) in
    let never = sym (ap is_lt same) ∙ above in let irrefl = lt_irrefl (n ∷ ns) in absurd cc
deeper {p} {l} {n} {ns} {m} {ms} dp dl above (k ∷ more) e = (k, more, subst (Stands l) e dl)

below-parent :
    {p l : TreePath} {n : ℕ} {ns : List ℕ} {m : ℕ} {ms : List ℕ}
    → Denotes p n ns
    → Denotes l m ms
    → between p.text (subtree_end p) l.text ≡ true
    → (k : ℕ) × (more : List ℕ) × Denotes l n (ns ++ k ∷ more)
unfolding in_range
below-parent {p} {l} {n} {ns} {m} {ms} dp dl h =
    let (above, under) = and_both (is_lt (compare_list p.text l.text)) h in
    let within : in_range l.text p.text (subtree_end p) ≡ true =
      rw (lt_asym p.text l.text above) under in
    let (r, e) =
      starts_with_split (m ∷ ms) (n ∷ ns)
        (sym (is_descendant_of_lem dl dp) ∙ sym (subtree_end_lem dl dp) ∙ within) in
    deeper dp dl above r e

-- A reply below a parent.
pub replied :
    (show : PathError → Text) {p l q : TreePath} {n : ℕ} {ns : List ℕ} {m : ℕ} {ms : List ℕ}
    → Denotes p n ns
    → Denotes l m ms
    → between p.text (subtree_end p) l.text ≡ true
    → allocate show (some p) (some l) ≡ ok q
    → (between p.text (subtree_end p) q.text ≡ true) × (is_lt (compare_list l.text q.text) ≡ true)
replied show {p} {l} {q} {n} {ns} dp dl h e =
    let (k, more, dl') = below-parent dp dl h in
    let (above, next, after) = allocate-fresh show k more dp dl' e in
    let (is_q, small, dq) = allocate-Denotes show k more dp dl' e in
    (between-child (k + 1) dp dq, ap is_lt after)

pub first_reply :
    (show : PathError → Text) {p q : TreePath} {n : ℕ} {ns : List ℕ}
    → Denotes p n ns
    → allocate show (some p) none ≡ ok q
    → between p.text (subtree_end p) q.text ≡ true
unfolding allocate
first_reply show {p} {q} dp e = between-child 0 dp (child-Denotes 0 dp (unwrap show (child p 0) e))
