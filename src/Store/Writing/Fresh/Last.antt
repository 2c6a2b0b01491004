-- ===== src/Store/Writing/Fresh/Last.antt =====
-- `LAST_PATH_IN_RANGE`: no path of the thread in the range sorts after the one that is found.
use notespace.Base.{
  inl, inr, ℕ, Bool, true, false, ◌&&◌, Text, List, [], ◌∷◌, Option, none, some, All, if◌then◌else◌,
  ◌==◌, compare_list, is_lt, ◌≡◌, ◌⊎◌, refl, sym, ap, subst, ◌∙◌, arith, Bool-cases,
}
use mathlib.Core.Option.{some-injective}
use notespace.Store.{PostRow}
use notespace.Store.Writing.{between, later, last_path_in_range}

pub lt_trans :
    (a b c : Text)
    → is_lt (compare_list a b) ≡ true
    → is_lt (compare_list b c) ≡ true
    → is_lt (compare_list a c) ≡ true
lt_trans [] [] [] h k = cc
lt_trans [] (y ∷ b) [] h k = cc
lt_trans [] b (z ∷ c) h k = refl
lt_trans (x ∷ a) [] c h k = cc
lt_trans (x ∷ a) (y ∷ b) [] h k = cc
lt_trans (x ∷ a) (y ∷ b) (z ∷ c) h k = ground (arith, lt_trans a b c)

pub lt_irrefl : (a : Text) → is_lt (compare_list a a) ≡ false
lt_irrefl [] = refl
lt_irrefl (x ∷ a) = ground (arith, lt_irrefl a)

pub lt_asym : (a b : Text) → is_lt (compare_list a b) ≡ true → is_lt (compare_list b a) ≡ false
lt_asym a b h = elim (Bool-cases (is_lt (compare_list b a))) [
  | inr larger ↦ larger
  | inl smaller ↦ let itself = lt_trans a b a h smaller in let never = lt_irrefl a in cc
]

-- What the smaller of two is not below, the larger is not below either.
below :
    (a b c : Text)
    → is_lt (compare_list a b) ≡ true
    → is_lt (compare_list a c) ≡ false
    → is_lt (compare_list b c) ≡ false
below a b c h k = elim (Bool-cases (is_lt (compare_list b c))) [
  | inr larger ↦ larger
  | inl smaller ↦ let less = lt_trans a b c h smaller in cc
]

-- A row outside the range, or not after the best path.
unfoldable pub Covered : ℕ → Text → Text → Option Text → PostRow → Type 0
Covered thread lo hi best p =
    ((p.thread_id == thread && between lo hi p.path) ≡ false)
    ⊎ ((l : Text) × (best ≡ some l) × (is_lt (compare_list l p.path) ≡ false))

pub and_both : (a : Bool) {b : Bool} → a && b ≡ true → (a ≡ true) × (b ≡ true)
and_both true h = (refl, h)
and_both false h = cc

module _ (thread : ℕ) (lo hi : Text) where
  raised :
      (path : Text) (best : Option Text) (x : PostRow)
      → Covered thread lo hi best x
      → Covered thread lo hi (some (later path best)) x
  unfolding Covered
  raised path best x (inl out) = inl out
  raised path none x (inr (l, e, h)) = cc
  raised path (some b) x (inr (l, e, h)) =
      let kept : is_lt (compare_list b x.path) ≡ false =
        ap (λ y. is_lt (compare_list y x.path)) (some-injective b l e) ∙ h in
      elim (Bool-cases (is_lt (compare_list b path))) [
        | inr larger ↦ rw larger (inr (b, refl, kept))
        | inl smaller ↦ rw smaller (inr (path, refl, below b path x.path smaller kept))
      ]

  raised-All :
      (path : Text) (best : Option Text) (xs : List PostRow)
      → All (Covered thread lo hi best) xs
      → All (Covered thread lo hi (some (later path best))) xs
  raised-All path best [] h = tt
  raised-All path best (x ∷ xs) (h, hs) = (raised path best x h, raised-All path best xs hs)

  itself : (p : PostRow) (best : Option Text) → Covered thread lo hi (some (later p.path best)) p
  unfolding Covered
  itself p none = inr (p.path, refl, lt_irrefl p.path)
  itself p (some b) = elim (Bool-cases (is_lt (compare_list b p.path))) [
    | inr larger ↦ rw larger (inr (b, refl, larger))
    | inl smaller ↦ rw smaller (inr (p.path, refl, lt_irrefl p.path))
  ]

  outside :
      (p : PostRow) (best : Option Text)
      → (p.thread_id == thread && between lo hi p.path) ≡ false
      → Covered thread lo hi best p
  unfolding Covered
  outside p best out = inl out

  found_in :
      (p : PostRow) (posts : List PostRow)
      → let best = last_path_in_range posts thread lo hi in
        last_path_in_range (p ∷ posts) thread lo hi
        ≡ (if p.thread_id == thread && between lo hi p.path then some (later p.path best) else best)
  unfolding last_path_in_range
  found_in p posts = refl

  pub last-Covered :
      (posts : List PostRow)
      → All (Covered thread lo hi (last_path_in_range posts thread lo hi)) posts
  last-Covered [] = tt
  last-Covered (p ∷ posts) =
      let best = last_path_in_range posts thread lo hi in
      let rest = last-Covered posts in
      let C = λ (o : Option Text). All (Covered thread lo hi o) (p ∷ posts) in
      elim (Bool-cases (p.thread_id == thread && between lo hi p.path)) [
        | inl within ↦
            subst C (sym (found_in p posts ∙ rw within refl))
              (itself p best, raised-All p.path best posts rest)
        | inr out ↦ subst C (sym (found_in p posts ∙ rw out refl)) (outside p best out, rest)
      ]

  later-between :
      (path : Text) (best : Option Text) (s : Text)
      → between lo hi path ≡ true
      → ((b : Text) → best ≡ some b → between lo hi b ≡ true)
      → some (later path best) ≡ some s
      → between lo hi s ≡ true
  later-between path none s h k e = ap (between lo hi) (sym (some-injective path s e)) ∙ h
  later-between path (some b) s h k e = elim (Bool-cases (is_lt (compare_list b path))) [
    | inl smaller ↦ ap (between lo hi) (sym (some-injective path s (sym (rw smaller refl) ∙ e))) ∙ h
    | inr larger ↦
        ap (between lo hi) (sym (some-injective b s (sym (rw larger refl) ∙ e))) ∙ k b refl
  ]

  pub last-between :
      (posts : List PostRow) (s : Text)
      → last_path_in_range posts thread lo hi ≡ some s
      → between lo hi s ≡ true
  unfolding last_path_in_range
  last-between [] s e = cc
  last-between (p ∷ posts) s e =
      let best = last_path_in_range posts thread lo hi in
      elim (Bool-cases (p.thread_id == thread && between lo hi p.path)) [
        | inl within ↦
            later-between p.path best s (and_both (p.thread_id == thread) within).1
              (last-between posts) (sym (rw within refl) ∙ e)
        | inr out ↦ last-between posts s (sym (rw out refl) ∙ e)
      ]
