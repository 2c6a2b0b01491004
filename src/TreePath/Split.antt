-- ===== src/TreePath/Split.antt =====
-- The string operations that crates/core/src/path.rs calls: `split`, `rfind`, a count of a byte.
use notespace.Base.{
  ℕ, ◌≡◌, ◌≢◌, refl, ap, ◌∙◌, false, arith, ◌==◌, ==→eq, ==_refl, ne→==-false, Text, List, [], ◌∷◌,
  ◌++◌, none, some, All, length, Bool-cases, inl, inr,
}
use notespace.TreePath.{split, push_head, rfind, found_at, count}

-- A text that the separator does not occur in.
abbrev pub Free : ℕ → Text → Type 0
Free sep s = All (λ c. c ≢ sep) s

module _ (sep : ℕ) where
  pub count-Free : (s t : Text) → Free sep s → count sep (s ++ t) ≡ count sep t
  unfolding count
  count-Free [] t h = refl
  count-Free (c ∷ s) t (p, h) = rw (ne→==-false c sep p) (count-Free s t h)

  pub split-Free : (s : Text) → Free sep s → split sep s ≡ s ∷ []
  unfolding split push_head
  split-Free [] h = refl
  split-Free (c ∷ s) (p, h) = rw (ne→==-false c sep p, split-Free s h)

  pub split-append : (s t : Text) → Free sep s → split sep (s ++ sep ∷ t) ≡ s ∷ split sep t
  unfolding split push_head
  split-append [] t h = rw (==_refl sep)
  split-append (c ∷ s) t (p, h) = rw (ne→==-false c sep p, split-append s t h)

  pub rfind-Free : (s : Text) → Free sep s → rfind sep s ≡ none
  unfolding rfind found_at
  rfind-Free [] h = refl
  rfind-Free (c ∷ s) (p, h) = rw (rfind-Free s h, ne→==-false c sep p)

  -- The last separator is the one that a separator-free text follows.
  pub rfind-append : (s t : Text) → Free sep t → rfind sep (s ++ sep ∷ t) ≡ some (length s)
  unfolding rfind found_at
  rfind-append [] t h = rw (rfind-Free t h, ==_refl sep)
  rfind-append (c ∷ s) t h = rw (rfind-append s t h)

  -- The pieces, joined again.
  abbrev pub join_from : Text → List Text → Text
  join_from s [] = s
  join_from s (t ∷ ts) = s ++ sep ∷ join_from t ts

  join_cons : (c : ℕ) (t : Text) (ts : List Text) → c ∷ join_from t ts ≡ join_from (c ∷ t) ts
  join_cons c t [] = refl
  join_cons c t (u ∷ us) = refl

  differ : (c : ℕ) → (c == sep) ≡ false → c ≢ sep
  differ c h e = ground arith

  -- A text is its pieces with the separator between them, and no piece has the separator.
  pub split_join :
      (s : Text)
      → (t : Text) × (ts : List Text) × (split sep s ≡ t ∷ ts)
        × (s ≡ join_from t ts)
        × All (Free sep) (t ∷ ts)
  unfolding split push_head
  split_join [] = ([], [], refl, refl, (tt, tt))
  split_join (c ∷ s) =
      let (t, ts, e, j, free) = split_join s in
      elim (Bool-cases (c == sep)) [
        | inl same ↦
            ([], t ∷ ts, rw (same, e), rw (← j) (ap (λ d. d ∷ s) (==→eq c sep same)), (tt, free))
        | inr other ↦ (
          c ∷ t,
          ts,
          rw (other, e),
          ap (◌∷◌ c) j ∙ join_cons c t ts,
          ((λ q. differ c other q, free.0), free.1),
        )
      ]
