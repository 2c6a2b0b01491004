-- ===== src/Moderation/Policy.antt =====
-- crates/core/src/moderation/policy.rs: what holds a post, and how far the model is trusted.
pub mod Decision
pub mod Agreement
use notespace.Base.{
  ℕ, ◌*◌, Bool, true, not, ◌&&◌, Text, List, [], Option, none, some, any, if◌then◌else◌, leb, ◌==◌,
  ℤ, pos, pos_part, wrap_i64,
}
use notespace.Float.{Float, clamp}
use notespace.Moderation.{
  Category, Call, Verdict, AgreementStats, category_index, is_severe, sample, disagreement_rate,
}

pub record ModerationPolicy (F : Float) : Type 0 where
  pub enabled : Bool
  pub new_account_hours : ℤ
  pub max_links : ℕ
  pub max_links_new : ℕ
  pub blocklist : List Text
  pub report_threshold : ℕ
  pub publish_confidence : F.Value
  pub hide_confidence : F.Value
  pub duplicate_window_hours : ℤ
  pub public_modlog : Bool
  pub rules : Option Text

pub data Disposition : Type 0 where
  publish hide_for_review hold_for_review : Disposition

abbrev pub hour_ms : ℕ
hour_ms = 3600000

abbrev pub is_manipulation : Category → Bool
is_manipulation c = category_index c == category_index Category.manipulation

module _ (F : Float) where
  abbrev pub default_policy : ModerationPolicy F
  default_policy = record {
    enabled = true;
    new_account_hours = pos 72;
    max_links = 5;
    max_links_new = 1;
    blocklist = [];
    report_threshold = 3;
    publish_confidence = F.hundredths 75;
    hide_confidence = F.hundredths 90;
    duplicate_window_hours = pos 24;
    public_modlog = true;
    rules = none;
  }

  unfoldable pub clamped : ModerationPolicy F → ModerationPolicy F
  clamped p = record p {
    publish_confidence = clamp F p.publish_confidence (F.hundredths 0) (F.hundredths 100);
    hide_confidence = clamp F p.hide_confidence (F.hundredths 0) (F.hundredths 100);
  }

  -- What the JSON library makes of a space's configuration, and the default where it makes nothing.
  or_default : Option (ModerationPolicy F) → ModerationPolicy F
  or_default none = default_policy
  or_default (some p) = p

  unfoldable pub from_config : (Text → Option (ModerationPolicy F)) → Text → ModerationPolicy F
  unfolding clamped or_default
  from_config parse_json config = clamped (or_default (parse_json config))

  unfoldable pub new_account_ms : ModerationPolicy F → ℤ
  new_account_ms p = wrap_i64 (pos_part p.new_account_hours * hour_ms)

  unfoldable pub duplicate_window_ms : ModerationPolicy F → ℤ
  duplicate_window_ms p = wrap_i64 (pos_part p.duplicate_window_hours * hour_ms)

  abbrev pub tighten_sample : ℕ
  tighten_sample = 10

  abbrev pub loosen_sample : ℕ
  loosen_sample = 30

  tighten : ModerationPolicy F → ModerationPolicy F
  tighten p = record p {
    publish_confidence = F.min_of (F.add p.publish_confidence (F.hundredths 15)) (F.hundredths 100);
    hide_confidence = F.min_of (F.add p.hide_confidence (F.hundredths 5)) (F.hundredths 100);
  }

  loosen : ModerationPolicy F → ModerationPolicy F
  loosen p = record p {
    publish_confidence = F.max_of (F.sub p.publish_confidence (F.hundredths 5)) (F.hundredths 50);
  }

  -- `effective`, from the rate on.
  adjust : ModerationPolicy F → ℕ → Option F.Value → ModerationPolicy F
  adjust p n none = p
  adjust p n (some rate) =
      if leb tighten_sample n && F.lt (F.hundredths 30) rate
      then tighten p
      else if leb loosen_sample n && F.lt rate (F.hundredths 5)
      then loosen p
      else p

  unfoldable pub effective : ModerationPolicy F → AgreementStats → ModerationPolicy F
  unfolding adjust tighten loosen
  effective p agreement = adjust p (sample agreement) (disagreement_rate F agreement)

  -- `decide`, with the two facts about the categories computed before it.
  decide_call : ModerationPolicy F → Call → F.Value → Bool → Bool → Disposition
  decide_call p Call.clean confidence manipulated severe =
      if not manipulated && F.le p.publish_confidence confidence then publish else hold_for_review
  decide_call p Call.flag confidence manipulated severe =
      if severe && F.le p.hide_confidence confidence then hide_for_review else hold_for_review
  decide_call p Call.unsure confidence manipulated severe = hold_for_review

  unfoldable pub decide : ModerationPolicy F → Verdict F → Disposition
  unfolding decide_call
  decide p v =
      decide_call p v.call v.confidence (any is_manipulation v.categories)
        (any is_severe v.categories)
