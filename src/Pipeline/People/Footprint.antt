-- ===== src/Pipeline/People/Footprint.antt =====
-- What `report` and `appeal` of crates/core/src/moderation/pipeline.rs leave alone.
use notespace.Base.{ℕ, Text, [], Option}
use notespace.Model.{PublicId, Timestamp, User}
use notespace.Float.{Float}
use notespace.Store.Footprint.{Footprint-refl, Keeps, if-Keeps, bind-Keeps}
use notespace.Store.Moderation.{ReviewPost, ReportTally}
use notespace.Store.Moderation.Footprint.{
  post_for_review-Keeps, set_post_state-Keeps, log_action-Keeps, open_review-Keeps,
  add_report-Keeps,
}
use notespace.Pipeline.{Services}
use notespace.Pipeline.Process.Footprint.{tell-Keeps}
use notespace.Pipeline.People.{hold_reported, count_report, report}

module _ {F : Float} (services : Services F) (post : PublicId) where
  hold_reported-Keeps :
      (rp : ReviewPost) (count : ℕ) (now : Timestamp)
      → Keeps post (hold_reported services post rp count now)
  unfolding hold_reported
  hold_reported-Keeps rp count now = bind-Keeps post _ _ (set_post_state-Keeps post _) (λ u.
      bind-Keeps post _ _ (log_action-Keeps post _) (λ n.
        bind-Keeps post _ _ (open_review-Keeps post _)
          (λ o. bind-Keeps post _ _ (tell-Keeps services post post []) (λ t. Footprint-refl post))))

  count_report-Keeps :
      (who : User) (now : Timestamp) (rp : ReviewPost) (tally : ReportTally)
      → Keeps post (count_report services post who now rp tally)
  unfolding count_report
  count_report-Keeps who now rp tally =
      search (if-Keeps, bind-Keeps, Footprint-refl, log_action-Keeps, hold_reported-Keeps)

  -- A report changes no other post and nothing of the reported one but its state; the log only
  -- grows. Both hold whichever calls of the store fail.
  pub report-Keeps :
      (who : User) (reason : Option Text) (now : Timestamp)
      → Keeps post (report services post who reason now)
  unfolding report
  report-Keeps who reason now =
      bind-Keeps post _ _ (post_for_review-Keeps post post)
        (λ rp. search (if-Keeps, bind-Keeps, Footprint-refl, add_report-Keeps, count_report-Keeps))
