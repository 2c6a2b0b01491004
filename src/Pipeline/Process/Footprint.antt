-- ===== src/Pipeline/Process/Footprint.antt =====
-- What the steps of crates/core/src/moderation/pipeline.rs leave alone, whichever calls of the
-- store fail.
use notespace.Base.{List, Result, ok, err, refl}
use notespace.Model.{PublicId, Timestamp}
use notespace.Float.{Float}
use notespace.Moderation.{Verdict, Reason, ClassifyError}
use notespace.Moderation.Policy.{ModerationPolicy, Disposition}
use notespace.Store.Footprint.{Footprint-refl, Keeps, if-Keeps, bind-Keeps}
use notespace.Store.Moderation.{ReviewPost}
use notespace.Store.Moderation.Footprint.{
  post_for_review-Keeps, set_post_state-Keeps, log_action-Keeps, open_review-Keeps, agreement-Keeps,
  untouched,
}
use notespace.Pipeline.{Services, tell}
use notespace.Pipeline.Process.{act, judge, release, process_post}

module _ {F : Float} (services : Services F) (post : PublicId) where
  pub tell-Keeps : (q : PublicId) (reasons : List Reason) → Keeps post (tell services q reasons)
  unfolding tell
  tell-Keeps q reasons w = untouched post refl refl refl refl

  pub act-Keeps :
      (rp : ReviewPost) (v : Verdict F) (now : Timestamp) (d : Disposition)
      → Keeps post (act services post rp v now d)
  unfolding act
  act-Keeps rp v now Disposition.publish =
      bind-Keeps post _ _ (set_post_state-Keeps post _)
        (λ u. bind-Keeps post _ _ (log_action-Keeps post _) (λ n. Footprint-refl post))
  act-Keeps rp v now Disposition.hide_for_review =
      bind-Keeps post _ _ (set_post_state-Keeps post _) (λ u.
        bind-Keeps post _ _ (log_action-Keeps post _)
          (λ n. bind-Keeps post _ _ (open_review-Keeps post _) (λ o. Footprint-refl post)))
  act-Keeps rp v now Disposition.hold_for_review =
      bind-Keeps post _ _ (open_review-Keeps post _) (λ o. Footprint-refl post)

  judge-Keeps :
      (rp : ReviewPost) (policy : ModerationPolicy F) (now : Timestamp)
      (r : Result ClassifyError (Verdict F))
      → Keeps post (judge services post rp policy now r)
  unfolding judge
  judge-Keeps rp policy now (err e) =
      bind-Keeps post _ _ (log_action-Keeps post _)
        (λ n. bind-Keeps post _ _ (open_review-Keeps post _) (λ o. Footprint-refl post))
  judge-Keeps rp policy now (ok v) =
      bind-Keeps post _ _ (log_action-Keeps post _)
        (λ n. bind-Keeps post _ _ (agreement-Keeps post _) (λ stats. act-Keeps rp v now _))

  release-Keeps : (rp : ReviewPost) (now : Timestamp) → Keeps post (release services post rp now)
  unfolding release
  release-Keeps rp now =
      bind-Keeps post _ _ (set_post_state-Keeps post _)
        (λ u. bind-Keeps post _ _ (log_action-Keeps post _) (λ n. Footprint-refl post))

  -- Processing a post changes no other post and nothing of this one but its state; the log only
  -- grows. Both hold whichever calls of the store fail.
  pub process_post-Keeps :
      (held_for : List Reason) (now : Timestamp)
      → Keeps post (process_post services post held_for now)
  unfolding process_post
  process_post-Keeps held_for now =
      bind-Keeps post _ _ (post_for_review-Keeps post post)
        (λ rp. search (if-Keeps, Footprint-refl, release-Keeps, judge-Keeps))
