-- ===== src/Moderation/Policy/Agreement.antt =====
-- `effective` of crates/core/src/moderation/policy.rs: how human rulings move the thresholds.
use notespace.Base.{◌≤◌, ◌<◌, true, false, some, ◌≡◌, ◌≢◌, arith}
use notespace.Float.{Float, FloatLaws}
use notespace.Moderation.{Verdict, AgreementStats, sample, disagreement_rate}
use notespace.Moderation.Policy.{ModerationPolicy, hold_for_review, decide, effective}

module _ (F : Float) (laws : FloatLaws F) (p : ModerationPolicy F) where
  -- Humans who overrule the model often enough only take decisions from it: with the thresholds
  -- at most one, what it still publishes or hides it did so before.
  pub effective_tightened :
      (agreement : AgreementStats) (v : Verdict F) {rate : F.Value}
      → F.le p.publish_confidence (F.hundredths 100) ≡ true
      → F.le p.hide_confidence (F.hundredths 100) ≡ true
      → disagreement_rate F agreement ≡ some rate
      → 10 ≤ sample agreement
      → F.lt (F.hundredths 30) rate ≡ true
      → (decide F (effective F p agreement) v ≢ hold_for_review)
      → decide F p v ≡ decide F (effective F p agreement) v
  unfolding effective decide
  effective_tightened agreement v {rate} hp hh hr n above decided = ground (
    arith,
    laws.le_raised p.publish_confidence 15 (omega arith) hp,
    laws.le_raised p.hide_confidence 5 (omega arith) hh,
    laws.le_trans p.publish_confidence
        (F.min_of (F.add p.publish_confidence (F.hundredths 15)) (F.hundredths 100)) v.confidence,
    laws.le_trans p.hide_confidence
        (F.min_of (F.add p.hide_confidence (F.hundredths 5)) (F.hundredths 100)) v.confidence,
  )

  -- Humans who overrule the model in at most 0.3 of the reviews take no decisions from it: with a
  -- publish threshold of at least one half, what it published or hid before it still does.
  pub effective_loosened :
      (agreement : AgreementStats) (v : Verdict F) {rate : F.Value}
      → F.le (F.hundredths 50) p.publish_confidence ≡ true
      → disagreement_rate F agreement ≡ some rate
      → F.lt (F.hundredths 30) rate ≡ false
      → (decide F p v ≢ hold_for_review)
      → decide F (effective F p agreement) v ≡ decide F p v
  unfolding effective decide
  effective_loosened agreement v {rate} half hr below decided = ground (
    arith,
    laws.lowered_le p.publish_confidence 5 50 (omega arith) (omega arith) half,
    laws.le_trans (F.max_of (F.sub p.publish_confidence (F.hundredths 5)) (F.hundredths 50))
        p.publish_confidence v.confidence,
  )

  -- Below ten resolved reviews nothing moves.
  pub effective_small :
      (agreement : AgreementStats) → sample agreement < 10 → effective F p agreement ≡ p
  unfolding effective
  effective_small agreement n = ground arith
