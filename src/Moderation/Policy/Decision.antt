-- ===== src/Moderation/Policy/Decision.antt =====
-- When `decide` of crates/core/src/moderation/policy.rs publishes, hides, or leaves it to a human.
use notespace.Base.{true, List, [], ◌∷◌, any, ◌≡◌, ◌↔◌, ◌⊎◌, arith}
use notespace.Float.{Float}
use notespace.Moderation.{Category, Call, Verdict, is_severe}
use notespace.Moderation.Policy.{
  ModerationPolicy, publish, hide_for_review, is_manipulation, decide,
}

-- Some element of the list is `c`.
abbrev pub Names : List Category → Category → Type 0
Names [] c = ⊥
Names (d ∷ ds) c = (d ≡ c) ⊎ Names ds c

-- Some element of the list is severe.
abbrev pub NamesSevere : List Category → Type 0
NamesSevere [] = ⊥
NamesSevere (d ∷ ds) = (is_severe d ≡ true) ⊎ NamesSevere ds

is_manipulation_iff : (c : Category) → (is_manipulation c ≡ true) ↔ (c ≡ Category.manipulation)
is_manipulation_iff c = ground arith

any-manipulation :
    (cs : List Category) → (any is_manipulation cs ≡ true) ↔ Names cs Category.manipulation
any-manipulation [] = ground arith
any-manipulation (c ∷ cs) = ground (arith, is_manipulation_iff c, any-manipulation cs)

any-severe : (cs : List Category) → (any is_severe cs ≡ true) ↔ NamesSevere cs
any-severe [] = ground arith
any-severe (c ∷ cs) = ground (arith, any-severe cs)

module _ (F : Float) (p : ModerationPolicy F) where
  -- A post is published exactly on a clean call that does not name manipulation and whose
  -- confidence reaches the threshold.
  pub decide-publish_iff :
      (v : Verdict F)
      → (decide F p v ≡ publish) ↔ (
          (v.call ≡ Call.clean)
          × (Names v.categories Category.manipulation → ⊥)
          × (F.le p.publish_confidence v.confidence ≡ true))
  unfolding decide
  decide-publish_iff v = ground (arith, any-manipulation v.categories)

  -- A post is hidden exactly on a flag that names a severe category and whose confidence reaches
  -- the threshold.
  pub decide-hide_iff :
      (v : Verdict F)
      → (decide F p v ≡ hide_for_review) ↔ (
          (v.call ≡ Call.flag)
          × NamesSevere v.categories
          × (F.le p.hide_confidence v.confidence ≡ true))
  unfolding decide
  decide-hide_iff v = ground (arith, any-severe v.categories)
