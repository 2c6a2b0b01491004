-- ===== src/Moderation.antt =====
-- crates/core/src/moderation/mod.rs and the verdict of classify.rs: what the pipeline passes on.
pub mod Policy
pub mod Layers
use notespace.Base.{
  ℕ, ◌+◌, ◌%◌, Bool, true, false, Text, List, Option, none, some, if◌then◌else◌, ltb,
}
use notespace.Model.{Timestamp}
use notespace.Float.{Float}

pub data Category : Type 0 where
  spam harassment hate violence sexual_content self_harm illegal doxxing off_topic manipulation
        other :
      Category

-- `is_severe`: a flag for this alone may hide a post.
abbrev pub is_severe : Category → Bool
is_severe Category.off_topic = false
is_severe Category.other = false
is_severe Category.manipulation = false
is_severe _ = true

-- The place of a category in the declaration; `==` compares places.
abbrev pub category_index : Category → ℕ
category_index Category.spam = 0
category_index Category.harassment = 1
category_index Category.hate = 2
category_index Category.violence = 3
category_index Category.sexual_content = 4
category_index Category.self_harm = 5
category_index Category.illegal = 6
category_index Category.doxxing = 7
category_index Category.off_topic = 8
category_index Category.manipulation = 9
category_index Category.other = 10

pub data Call : Type 0 where
  clean flag unsure : Call

pub record Verdict (F : Float) : Type 0 where
  pub call : Call
  pub confidence : F.Value
  pub categories : List Category
  pub rationale : Text
  pub model : Text

pub data ActorKind : Type 0 where
  user model rule system : ActorKind

pub data ReviewReason : Type 0 where
  classifier reports rule appeal error : ReviewReason

pub data Resolution : Type 0 where
  approve reject : Resolution

pub data ClassifyError : Type 0 where
  unavailable malformed budget : Text → ClassifyError

-- Why Tier 0 held a post (heuristics.rs).
pub data Reason : Type 0 where
  new_account : ℕ → Reason
  too_many_links : ℕ → ℕ → Reason
  blocklist : Text → Reason
  manipulation : Reason
  shouting : Reason

pub record AgreementStats : Type 0 where
  pub agreed : ℕ
  pub disagreed : ℕ

-- A sum of two `u32`, which wraps in a release build.
unfoldable pub sample : AgreementStats → ℕ
sample s = (s.agreed + s.disagreed) % 4294967296

unfoldable pub disagreement_rate : (F : Float) → AgreementStats → Option F.Value
unfolding sample
disagreement_rate F s =
    if ltb 0 (sample s) then some (F.div (F.of_u32 s.disagreed) (F.of_u32 (sample s))) else none

-- What a classifier is shown (classify.rs).
pub record ClassifyInput : Type 0 where
  pub body_md : Text
  pub space_name : Text
  pub space_rules : Option Text
  pub thread_title : Text
  pub author_created_at : Timestamp
  pub now : Timestamp
  pub held_for : List Reason
