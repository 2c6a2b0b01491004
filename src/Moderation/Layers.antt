-- ===== src/Moderation/Layers.antt =====
-- crates/core/src/moderation/layers.rs: two classifiers whose verdicts become one.
pub mod Trust
mod Examples
use notespace.Base.{
  Bool, true, false, not, ◌&&◌, Text, codes, List, [], ◌∷◌, ◌++◌, any, all, Result, ok, err,
  if◌then◌else◌, ◌==◌,
}
use notespace.Float.{Float, clamp}
use notespace.Moderation.{
  Category, Call, Verdict, ClassifyError, unavailable, malformed, budget, category_index,
}

-- `Display` of the error, and the texts of the calls (classify.rs).
error_text : ClassifyError → Text
error_text (unavailable why) = codes "classifier unavailable: " ++ why
error_text (malformed why) = codes "classifier returned something that is not a verdict: " ++ why
error_text (budget why) = codes "classifier over budget: " ++ why

call_text : Call → Text
call_text Call.clean = codes "clean"
call_text Call.flag = codes "flag"
call_text Call.unsure = codes "unsure"

-- What a safety classifier is trained on.
abbrev pub guard_visible : Category → Bool
guard_visible Category.hate = true
guard_visible Category.violence = true
guard_visible Category.sexual_content = true
guard_visible Category.self_harm = true
guard_visible Category.illegal = true
guard_visible Category.doxxing = true
guard_visible _ = false

abbrev pub contains : List Category → Category → Bool
contains cs c = any (λ d. category_index d == category_index c) cs

-- The loop that adds the second list to the first.
pub add_missing : List Category → List Category → List Category
add_missing out [] = out
add_missing out (c ∷ cs) = add_missing (if contains out c then out else out ++ c ∷ []) cs

abbrev pub is_empty {ℓ} : {A : Type ℓ} → List A → Bool
is_empty [] = true
is_empty _ = false

module _ (F : Float) where
  abbrev pub uncorroborated : F.Value
  uncorroborated = F.hundredths 80

  abbrev one : F.Value
  one = F.hundredths 100

  abbrev unit_clamp : F.Value → F.Value
  unit_clamp x = clamp F x (F.hundredths 0) (F.hundredths 100)

  both_flag : Verdict F → Verdict F → Text → Verdict F
  unfolding add_missing
  both_flag f b model_name = record {
    call = Call.flag;
    confidence = unit_clamp (F.sub one (F.mul (F.sub one f.confidence) (F.sub one b.confidence)));
    categories = add_missing f.categories b.categories;
    rationale = f.rationale ++ (codes " | " ++ b.rationale);
    model = model_name;
  }

  front_flags : Verdict F → Verdict F → Text → Verdict F
  unfolding call_text
  front_flags f b model_name = record {
    call = Call.flag;
    confidence = unit_clamp (F.mul f.confidence uncorroborated);
    categories = f.categories;
    rationale =
        f.rationale
        ++ (codes " | second layer said " ++ (call_text b.call ++ (codes ": " ++ b.rationale)));
    model = model_name;
  }

  vetoed : Verdict F → Text → Verdict F
  vetoed b model_name = record b {
    confidence = unit_clamp (F.mul b.confidence uncorroborated);
    rationale = b.rationale ++ codes " | safety layer said safe";
    model = model_name;
  }

  -- The match of `merge` on the two calls.
  merge_calls : Call → Call → Verdict F → Verdict F → Text → Verdict F
  merge_calls Call.flag Call.flag f b model_name = both_flag f b model_name
  merge_calls Call.flag _ f b model_name = front_flags f b model_name
  merge_calls Call.clean Call.flag f b model_name =
      if not (is_empty b.categories) && all guard_visible b.categories
      then vetoed b model_name
      else record b { model = model_name }
  merge_calls _ _ f b model_name = record b { model = model_name }

  unfoldable pub merge : Verdict F → Verdict F → Text → Verdict F
  unfolding merge_calls both_flag front_flags vetoed
  merge f b model_name = merge_calls f.call b.call f b model_name

  -- A front verdict alone never publishes.
  downgrade : Call → Verdict F → Verdict F
  downgrade Call.clean f = record f { call = Call.unsure; confidence = F.hundredths 0 }
  downgrade _ f = f

  unfoldable pub combine :
      Result ClassifyError (Verdict F)
      → Result ClassifyError (Verdict F)
      → Text
      → Result ClassifyError (Verdict F)
  unfolding merge downgrade error_text
  combine (ok f) (ok b) model_name = ok (merge f b model_name)
  combine (ok f) (err e) model_name =
      let f' = downgrade f.call f in
      ok (record f' {
        rationale =
            f'.rationale ++ (codes " (second layer failed: " ++ (error_text e ++ codes ")"));
        model = model_name;
      })
  combine (err e) (ok b) model_name = ok (record b {
    rationale = b.rationale ++ (codes " (safety layer failed: " ++ (error_text e ++ codes ")"));
    model = model_name;
  })
  combine (err _) (err e) model_name = err e
