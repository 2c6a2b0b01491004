-- ===== src/SpaceKey/Range.antt =====
-- How deep the paths of crates/core/src/space_key.rs are, and what their range selects.
use notespace.Base.{ℕ, ◌+◌, Text, [], ◌∷◌, ◌++◌, ◌≡◌, refl, ap, arith}
use notespace.TreePath.{starts_with}
use notespace.TreePath.Subtree.{in_range}
use notespace.SpaceKey.{SpacePath, path_sep, pop, subtree_range}

range_prefix :
    (s t : Text)
    → in_range t (s ++ path_sep ∷ []) (s ++ (path_sep + 1) ∷ [])
      ≡ starts_with t (s ++ path_sep ∷ [])
unfolding in_range starts_with
range_prefix [] [] = refl
range_prefix [] (d ∷ []) = ground arith
range_prefix [] (d ∷ e ∷ t) = ground arith
range_prefix (c ∷ s) [] = refl
range_prefix (c ∷ s) (d ∷ t) = ground (arith, range_prefix s t)

pop_last : (s : Text) (c : ℕ) → pop (s ++ c ∷ []) ≡ s
unfolding pop
pop_last [] c = refl
pop_last (d ∷ []) c = refl
pop_last (d ∷ e ∷ s) c = ap (◌∷◌ d) (pop_last (e ∷ s) c)

-- The range of a path that ends in the separator selects exactly the stored paths that begin with
-- it: the space and every space beneath it, and no space whose name only begins like it.
pub subtree_range_lem :
    (p : SpacePath) (s t : Text)
    → p.stored ≡ s ++ path_sep ∷ []
    → let (lo, hi) = subtree_range p in in_range t lo hi ≡ starts_with t p.stored
unfolding subtree_range
subtree_range_lem p s t e = rw (e, pop_last s path_sep) (range_prefix s t)
