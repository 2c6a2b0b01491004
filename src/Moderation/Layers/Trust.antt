-- ===== src/Moderation/Layers/Trust.antt =====
-- What the two layers of crates/core/src/moderation/layers.rs can do to a post together.
use notespace.Base.{
  true, false, ◌||◌, Text, List, [], ◌∷◌, ◌++◌, all, Result, ok, err, ◌≡◌, ◌≢◌, ◌↔◌, ◌⊎◌, inl, inr,
  refl, arith, ◌==◌, Bool-cases, Option, some, none,
}
use notespace.Float.{Float, FloatLaws, clamp}
use notespace.Moderation.{Category, Call, Verdict, ClassifyError, category_index}
use notespace.Moderation.Policy.{ModerationPolicy, hold_for_review, decide}
use notespace.Moderation.Layers.{merge, combine, guard_visible, contains, add_missing, is_empty}

contains-snoc :
    (out : List Category) (d c : Category)
    → contains (out ++ d ∷ []) c ≡ (contains out c || (category_index d == category_index c))
contains-snoc [] d c = ground arith
contains-snoc (x ∷ out) d c = ground (arith, contains-snoc out d c)

contains_same :
    (out : List Category) (d c : Category)
    → (category_index d == category_index c) ≡ true
    → contains out d ≡ contains out c
contains_same [] d c h = refl
contains_same (x ∷ out) d c h = ground (arith, contains_same out d c h)

-- The categories of two flags are the union of the two lists.
add_missing-contains :
    (c : Category) (out cs : List Category)
    → (contains (add_missing out cs) c ≡ true) ↔ ((contains out c ≡ true) ⊎ (contains cs c ≡ true))
unfolding add_missing
add_missing-contains c out [] = ground arith
add_missing-contains c out (d ∷ cs) = elim (Bool-cases (contains out d)) [
  | inl there ↦ rw there (ground (arith, add_missing-contains c out cs, contains_same out d c))
  | inr new ↦
      rw new (ground (arith, add_missing-contains c (out ++ d ∷ []) cs, contains-snoc out d c))
]

-- What a layer answered.
abbrev pub call_of : {F : Float} → Result ClassifyError (Verdict F) → Option Call
call_of (ok v) = some v.call
call_of (err e) = none

module _ (F : Float) where
  -- Only the second layer publishes: a clean verdict of the two is the second layer's own clean
  -- verdict, with its confidence and its categories, and the first layer did not flag.
  pub combine-clean :
      (front back : Result ClassifyError (Verdict F)) (name : Text) {v : Verdict F}
      → combine F front back name ≡ ok v
      → v.call ≡ Call.clean
      → (b : Verdict F) × (back ≡ ok b)
        × (b.call ≡ Call.clean)
        × (v.confidence ≡ b.confidence)
        × (v.categories ≡ b.categories)
        × (call_of front ≢ some Call.flag)
  unfolding combine
  combine-clean (ok f) (ok b) name h c =
      (b, refl, ground arith, ground arith, ground arith, ground arith)
  combine-clean (ok f) (err e) name h c = absurd (ground arith)
  combine-clean (err e) (ok b) name h c =
      (b, refl, ground arith, ground arith, ground arith, λ q. cc)
  combine-clean (err e) (err e') name h c = cc

-- One layer flags and the other contradicts it.
abbrev pub Contradicted : {F : Float} → Verdict F → Verdict F → Type 0
Contradicted f b =
    ((f.call ≡ Call.flag) × (b.call ≢ Call.flag))
    ⊎ ((f.call ≡ Call.clean)
        × (b.call ≡ Call.flag)
        × (is_empty b.categories ≡ false)
        × (all guard_visible b.categories ≡ true))

module _ (F : Float) (laws : FloatLaws F) where
  scaled_at_most :
      (x : F.Value)
      → F.le x (F.hundredths 80) ≡ true
      → F.le (clamp F x (F.hundredths 0) (F.hundredths 100)) (F.hundredths 80) ≡ true
  scaled_at_most x h = ground (
    arith,
    laws.hundredths_le 0 80 (omega arith) (omega arith),
    laws.hundredths_lt 80 100 (omega arith) (omega arith),
    laws.lt→le (F.hundredths 100) x,
    laws.le_lt x (F.hundredths 80) (F.hundredths 100) h,
  )

  Contradicted-confidence :
      (f b : Verdict F) (name : Text)
      → Contradicted f b
      → F.le f.confidence (F.hundredths 100) ≡ true
      → F.le b.confidence (F.hundredths 100) ≡ true
      → (F.le (merge F f b name).confidence (F.hundredths 80) ≡ true)
        × ((merge F f b name).call ≡ Call.flag)
  unfolding merge
  Contradicted-confidence f b name (inl (ff, fb)) hf hb = ground (
    arith,
    scaled_at_most (F.mul f.confidence (F.hundredths 80))
        (laws.mul_le f.confidence 80 (omega arith) (omega arith) hf),
  )
  Contradicted-confidence f b name (inr (fc, bf, some_named, seen)) hf hb = ground (
    arith,
    scaled_at_most (F.mul b.confidence (F.hundredths 80))
        (laws.mul_le b.confidence 80 (omega arith) (omega arith) hb),
  )

  -- A flag that one layer raised and the other contradicted waits for a human: with confidences
  -- of at most one and a hide threshold above 0.8, it neither hides nor publishes.
  pub Contradicted-holds :
      (p : ModerationPolicy F) (f b : Verdict F) (name : Text)
      → F.lt (F.hundredths 80) p.hide_confidence ≡ true
      → F.le f.confidence (F.hundredths 100) ≡ true
      → F.le b.confidence (F.hundredths 100) ≡ true
      → Contradicted f b
      → decide F p (merge F f b name) ≡ hold_for_review
  unfolding decide
  Contradicted-holds p f b name above hf hb c =
      let (low, flagged) = Contradicted-confidence f b name c hf hb in
      ground (
        arith,
        laws.le_lt (merge F f b name).confidence (F.hundredths 80) p.hide_confidence low above,
      )
