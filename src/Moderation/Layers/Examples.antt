-- ===== src/Moderation/Layers/Examples.antt =====
-- Verdicts of two layers, and the theorems of crates/core/src/moderation at them.
use notespace.Base.{ℕ, codes, List, [], ◌∷◌, some, Result, ok, err, ◌≡◌, ◌≢◌, ◌≤◌, refl, inl, arith}
use notespace.Float.{centi, centi-FloatLaws}
use notespace.Moderation.{
  Category, Call, Verdict, ClassifyError, unavailable, AgreementStats, disagreement_rate, sample,
}
use notespace.Moderation.Policy.{
  ModerationPolicy, hide_for_review, hold_for_review, default_policy, decide, effective,
}
use notespace.Moderation.Policy.Agreement.{effective_tightened, effective_loosened}
use notespace.Moderation.Layers.{merge, combine}
use notespace.Moderation.Layers.Trust.{combine-clean, Contradicted-holds}

abbrev verdict : Call → ℕ → List Category → Verdict centi
verdict c n cs = record {
  call = c;
  confidence = n;
  categories = cs;
  rationale = codes "r";
  model = codes "m";
}

abbrev usual : ModerationPolicy centi
usual = default_policy centi

abbrev guard_flag : Verdict centi
guard_flag = verdict Call.flag 95 (Category.hate ∷ [])

abbrev clean_call : Verdict centi
clean_call = verdict Call.clean 90 []

-- Two flags corroborate one another.
both_hide :
    decide centi usual
      (merge centi guard_flag (verdict Call.flag 80 (Category.spam ∷ [])) (codes "a+b"))
    ≡ hide_for_review
unfolding decide merge
both_hide = refl

manipulated :
    decide centi usual (verdict Call.clean 100 (Category.manipulation ∷ [])) ≡ hold_for_review
unfolding decide
manipulated = refl

lone_front :
    combine centi (ok clean_call) (err (unavailable (codes "down"))) (codes "a+b")
    ≡ ok (record {
      call = Call.unsure;
      confidence = 0;
      categories = [];
      rationale = codes "r (second layer failed: classifier unavailable: down)";
      model = codes "a+b";
    })
unfolding combine
lone_front = refl

abbrev overruled : AgreementStats
overruled = record { agreed = 5; disagreed = 5 }

abbrev trusted : AgreementStats
trusted = record { agreed = 40; disagreed = 0 }

still_published : decide centi (effective centi usual overruled) clean_call ≢ hold_for_review
unfolding decide effective disagreement_rate sample
still_published e = ground arith

overruled_rate : disagreement_rate centi overruled ≡ some 50
unfolding disagreement_rate
overruled_rate = refl

overruled-sample : 10 ≤ sample overruled
unfolding sample
overruled-sample = omega arith

trusted_rate : disagreement_rate centi trusted ≡ some 0
unfolding disagreement_rate
trusted_rate = refl

-- A space that is configured below one half is made stricter by agreement.
abbrev lenient : ModerationPolicy centi
lenient = record usual { publish_confidence = 40 }

raised_by_agreement : (effective centi lenient trusted).publish_confidence ≡ 50
unfolding effective disagreement_rate sample
raised_by_agreement = refl

published_before : decide centi usual clean_call ≢ hold_for_review
unfolding decide
published_before e = cc

effective_tightened_example :
    decide centi usual clean_call ≡ decide centi (effective centi usual overruled) clean_call
effective_tightened_example =
    effective_tightened centi centi-FloatLaws usual overruled clean_call refl refl overruled_rate
      overruled-sample refl still_published

effective_loosened_example :
    decide centi (effective centi usual trusted) clean_call ≡ decide centi usual clean_call
effective_loosened_example =
    effective_loosened centi centi-FloatLaws usual trusted clean_call refl trusted_rate refl
      published_before

abbrev clean_answer : Result ClassifyError (Verdict centi)
clean_answer = ok clean_call

combine-clean_example :
    (b : Verdict centi) × (clean_answer ≡ ok b)
    × (b.call ≡ Call.clean)
    × ((record clean_call { model = codes "a+b" }).confidence ≡ b.confidence)
    × ((record clean_call { model = codes "a+b" }).categories ≡ b.categories)
    × (some Call.clean ≢ some Call.flag)
unfolding combine
combine-clean_example =
    combine-clean centi clean_answer clean_answer (codes "a+b")
      {v = record clean_call { model = codes "a+b" }} refl refl

Contradicted-holds_example :
    decide centi usual (merge centi guard_flag clean_call (codes "a+b")) ≡ hold_for_review
Contradicted-holds_example =
    Contradicted-holds centi centi-FloatLaws usual guard_flag clean_call (codes "a+b") refl refl
      refl (inl (refl, λ e. cc))
