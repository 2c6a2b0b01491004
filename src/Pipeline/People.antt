-- ===== src/Pipeline/People.antt =====
-- `report`, `review` and `appeal` of crates/core/src/moderation/pipeline.rs.
pub mod Footprint
pub mod Reports
pub mod Appeals
pub mod Rulings
use notespace.Base.{
  ℕ, Bool, true, false, not, ◌&&◌, Text, [], Option, none, some, Result, ok, err, if◌then◌else◌,
  ltb, leb, ◌==◌, length, max, take,
}
use notespace.Strings.{is_empty, trim}
use notespace.Model.{PublicId, Timestamp, PostState, User, can_moderate, post_state_eq}
use notespace.Float.{Float}
use notespace.Moderation.{Call, ReviewReason, Resolution}
use notespace.Moderation.Policy.{from_config}
use notespace.Store.{StoreError, not_found, Action, Detail, M, return, throw, handle, ◌>>=◌, ◌>>◌}
use notespace.Store.Moderation.{
  ReviewPost, ReviewItem, ReportTally, post_for_review, set_post_state, log_action, open_review,
  resolve_review, add_report,
}
use notespace.Pipeline.{
  Services, max_appeal_chars, max_report_chars, ReportOutcome, recorded, already_reported, held,
  own_post, gone, ReviewOutcome, resolved, forbidden, AppealOutcome, filed, not_yours, not_hidden,
  empty, too_long, action_by_rule, user_action, review_of, tell,
}

abbrev ruled_state : Resolution → PostState
ruled_state Resolution.approve = PostState.visible
ruled_state Resolution.reject = PostState.hidden

abbrev ruled_action : Resolution → Action
ruled_action Resolution.approve = Action.approve
ruled_action Resolution.reject = Action.reject

-- Whether the human agreed with the model.
abbrev agreed : Option Call → Resolution → Option Bool
agreed (some Call.clean) Resolution.approve = some true
agreed (some Call.flag) Resolution.reject = some true
agreed (some Call.clean) Resolution.reject = some false
agreed (some Call.flag) Resolution.approve = some false
agreed _ _ = none

module _ {F : Float} (services : Services F) where
  -- `trim`, drop an empty reason, and cut a long one.
  abbrev kept_reason : Option Text → Option Text
  kept_reason none = none
  kept_reason (some r) = if is_empty (trim r) then none else some (take max_report_chars (trim r))

  hold_reported : PublicId → ReviewPost → ℕ → Timestamp → M F ReportOutcome
  hold_reported post rp count now = do
    set_post_state post PostState.pending
    log_action (action_by_rule rp.id (Detail.report_count count) now)
    open_review (review_of rp ReviewReason.reports none none now)
    tell services post []
    return (held count)

  count_report : PublicId → User → Timestamp → ReviewPost → ReportTally → M F ReportOutcome
  count_report post reporter now rp tally =
      if not tally.added then return (already_reported tally.count) else do
        log_action
            (user_action reporter rp.id Action.report (Detail.report_count tally.count) false now)
        let policy = from_config F services.parse_policy rp.space_config
        if post_state_eq rp.state PostState.visible
              && leb (max policy.report_threshold 1) tally.count
            then hold_reported post rp tally.count now
            else return (recorded tally.count)

  unfoldable pub report : PublicId → User → Option Text → Timestamp → M F ReportOutcome
  unfolding count_report hold_reported
  report post reporter reason now = do
    rp ← post_for_review post
    if rp.author_id == reporter.id
        then return own_post
        else if post_state_eq rp.state PostState.deleted
        then return gone
        else do
          tally ← add_report (record {
            post_id = rp.id;
            user_id = reporter.id;
            reason = kept_reason reason;
            created_at = now;
          })
          count_report post reporter now rp tally

module _ {F : Float} where
  rule_on : ℕ → User → Resolution → Timestamp → Option (ReviewItem F) → M F ReviewOutcome
  rule_on id reviewer resolution now none = return gone
  rule_on id reviewer resolution now (some item) = do
    set_post_state item.post_public_id (ruled_state resolution)
    log_action (
        user_action reviewer item.post_id (ruled_action resolution)
          (Detail.ruling id item.reason item.model_verdict (agreed item.model_verdict resolution))
          true now)
    return (
        resolved item.post_public_id (ruled_state resolution)
          (agreed item.model_verdict resolution))

  unfoldable pub review : ℕ → User → Resolution → Timestamp → M F ReviewOutcome
  unfolding rule_on
  review id reviewer resolution now =
      if not (can_moderate reviewer.role) then return forbidden else do
        item ← resolve_review id resolution reviewer.id now
        rule_on id reviewer resolution now item

  file_appeal : User → Text → Timestamp → ReviewPost → M F AppealOutcome
  file_appeal author text now rp =
      if not (rp.author_id == author.id)
      then return not_yours
      else if not (post_state_eq rp.state PostState.hidden)
      then return not_hidden
      else do
        open_review (review_of rp ReviewReason.appeal none (some text) now)
        log_action (user_action author rp.id Action.appeal Detail.nothing true now)
        return filed

  appeal_found : User → Text → Timestamp → Result StoreError ReviewPost → M F AppealOutcome
  appeal_found author text now (ok rp) = file_appeal author text now rp
  appeal_found author text now (err not_found) = return not_yours
  appeal_found author text now (err e) = throw e

  unfoldable pub appeal : PublicId → User → Text → Timestamp → M F AppealOutcome
  unfolding appeal_found file_appeal
  appeal post author text now =
      if is_empty (trim text)
      then return empty
      else if ltb max_appeal_chars (length (trim text))
      then return (too_long max_appeal_chars)
      else handle (post_for_review post) (appeal_found author (trim text) now)
