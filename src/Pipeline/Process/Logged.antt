-- ===== src/Pipeline/Process/Logged.antt =====
-- A model's output is in the log before it has any effect: `process_post` of
-- crates/core/src/moderation/pipeline.rs.
use notespace.Base.{
  true, false, not, List, ◌∷◌, ◌++◌, some, Result, ok, err, ◌≡◌, refl, ◌⊎◌, inl, inr,
}
use notespace.Model.{PublicId, Timestamp, PostState, post_state_eq}
use notespace.Float.{Float}
use notespace.Moderation.{Verdict, Reason, ClassifyError}
use notespace.Moderation.Policy.{ModerationPolicy, from_config}
use notespace.Store.{StoreError, Action, NewAction, World, spend}
use notespace.Store.Runs.{if-cases}
use notespace.Store.Footprint.{bind-Keeps}
use notespace.Store.Moderation.{ReviewPost, joined}
use notespace.Store.Moderation.Footprint.{agreement-Keeps}
use notespace.Store.Moderation.Runs.{post_for_review-found, log_action-cases, open_review-cases}
use notespace.Pipeline.{Services, Processed, model_action}
use notespace.Pipeline.Process.{judge, input_of, process_post}
use notespace.Pipeline.Process.Footprint.{act-Keeps}

module _ {F : Float} (services : Services F) (post : PublicId) (now : Timestamp) where
  -- The step to `w'` leaves every post alone, or what was classified came out as a verdict that is
  -- in the log, under all rows that came after it.
  abbrev pub LogsFirst : ReviewPost → Result ClassifyError (Verdict F) → World F → World F → Type 0
  LogsFirst rp classified w w' =
      (w'.posts ≡ w.posts)
      ⊎ ((v : Verdict F) × (classified ≡ ok v)
          × (rows : List (NewAction F)) × (w'.log
              ≡ rows ++ (model_action v rp.id Action.classify false now ∷ w.log)))

  judge-LogsFirst :
      (rp : ReviewPost) (policy : ModerationPolicy F) (c : Result ClassifyError (Verdict F))
      (w : World F)
      → LogsFirst rp c w (judge services post rp policy now c w).1
  unfolding judge
  judge-LogsFirst rp policy (err e) w =
      let P = λ (r : Result StoreError Processed × World F). LogsFirst rp (err e) w r.1 in
      log_action-cases P _ _ w (inl refl)
        (λ n. open_review-cases P _ _ _ (inl refl) (λ m. inl refl))
  judge-LogsFirst rp policy (ok v) w =
      log_action-cases (λ (r : Result StoreError Processed × World F). LogsFirst rp (ok v) w r.1) _
        _ w (inl refl)
        (λ n.
          let f =
            bind-Keeps post _ _ (agreement-Keeps post _)
              (λ stats. act-Keeps services post rp v now _) _ in
          let (rows, e) = f.log_grows in inr (v, refl, rows, e))

  -- In a space with moderation enabled, `process_post` leaves every post alone unless the
  -- classifier returned a verdict on this post's text, and then the verdict's row is in the log:
  -- whichever calls of the store fail, no state is set by a verdict that was not logged.
  pub process_post-LogsFirst :
      (held_for : List Reason) (w : World F) (rp : ReviewPost)
      → joined w post ≡ some rp
      → (from_config F services.parse_policy rp.space_config).enabled ≡ true
      → LogsFirst rp
          (services.classify (
            input_of services rp
              (from_config F services.parse_policy rp.space_config)
              held_for
              now))
          w
          (process_post services post held_for now w).1
  unfolding process_post
  process_post-LogsFirst held_for w rp found enabled =
      let policy = from_config F services.parse_policy rp.space_config in
      let c = services.classify (input_of services rp policy held_for now) in
      let P = λ (r : Result StoreError Processed × World F). LogsFirst rp c w r.1 in
      post_for_review-found P post _ w rp found (inl refl) (
        if-cases P (not (post_state_eq rp.state PostState.pending)) _ _ (spend w) (λ e. inl refl)
          (λ e.
            if-cases P (not policy.enabled) _ _ (spend w) (λ off. cc)
              (λ on. judge-LogsFirst rp policy c (spend w))))
