-- ===== src/Pipeline/Process.antt =====
-- `process_post` and `drain` of crates/core/src/moderation/pipeline.rs.
pub mod Footprint
pub mod Logged
pub mod Settled
pub mod Drain
use notespace.Base.{
  ℕ, ◌-◌, true, false, not, codes, List, [], ◌∷◌, none, some, Result, ok, err, if◌then◌else◌,
}
use notespace.Model.{PublicId, Timestamp, PostState, post_state_eq}
use notespace.Float.{Float}
use notespace.Moderation.{Verdict, ReviewReason, Reason, ClassifyError, ClassifyInput}
use notespace.Moderation.Policy.{ModerationPolicy, Disposition, from_config, effective, decide}
use notespace.Store.{StoreError, Action, Detail, M, return, handle, ◌>>=◌, ◌>>◌}
use notespace.Store.Moderation.{
  ReviewPost, post_for_review, set_post_state, log_action, open_review,
}
use notespace.Store.Queries.{agreement, pending_posts}
use notespace.Pipeline.{
  Services, sweep_grace_ms, Processed, skipped, published, hidden, queued, classifier_failed,
  model_action, system_action, review_of,
}

module _ {F : Float} (services : Services F) where
  -- The arms of `match effective.decide(&verdict)`.
  pub act : PublicId → ReviewPost → Verdict F → Timestamp → Disposition → M F Processed
  act post rp verdict now Disposition.publish = do
    set_post_state post PostState.visible
    log_action (model_action verdict rp.id Action.publish true now)
    return published
  act post rp verdict now Disposition.hide_for_review = do
    set_post_state post PostState.hidden
    log_action (model_action verdict rp.id Action.hide true now)
    open_review (review_of rp ReviewReason.classifier (some verdict) none now)
    return hidden
  act post rp verdict now Disposition.hold_for_review = do
    open_review (review_of rp ReviewReason.classifier (some verdict) none now)
    return queued

  judge :
      PublicId
      → ReviewPost
      → ModerationPolicy F
      → Timestamp
      → Result ClassifyError (Verdict F)
      → M F Processed
  judge post rp policy now (err e) = do
    log_action
        (system_action rp.id Action.classify_failed (Detail.failure services.model e) false now)
    open_review (review_of rp ReviewReason.error none none now)
    return (classifier_failed e)
  judge post rp policy now (ok verdict) = do
    log_action (model_action verdict rp.id Action.classify false now)
    stats ← agreement rp.space_id
    act post rp verdict now (decide F (effective F policy stats) verdict)

  abbrev pub input_of : ReviewPost → ModerationPolicy F → List Reason → Timestamp → ClassifyInput
  input_of rp policy held_for now = record {
    body_md = rp.body_md;
    space_name = rp.space_name;
    space_rules = policy.rules;
    thread_title = rp.thread_title;
    author_created_at = rp.author_created_at;
    now = now;
    held_for = held_for;
  }

  release : PublicId → ReviewPost → Timestamp → M F Processed
  release post rp now = do
    set_post_state post PostState.visible
    log_action
        (system_action rp.id Action.publish (Detail.why (codes "moderation disabled")) true now)
    return published

  -- What happens to a post that is pending.
  process_pending : PublicId → List Reason → Timestamp → ReviewPost → M F Processed
  process_pending post held_for now rp =
      let policy = from_config F services.parse_policy rp.space_config in
      if not policy.enabled
      then release post rp now
      else judge post rp policy now (services.classify (input_of rp policy held_for now))

  unfoldable pub process_post : PublicId → List Reason → Timestamp → M F Processed
  unfolding process_pending release judge act
  process_post post held_for now = do
    rp ← post_for_review post
    if not (post_state_eq rp.state PostState.pending)
        then return skipped
        else process_pending post held_for now rp

  -- The loop of `drain`: a store's error on one post is its result, and the loop goes on.
  process_all : Timestamp → List PublicId → M F (List (PublicId × Result StoreError Processed))
  process_all now [] = return []
  process_all now (id ∷ ids) =
      handle (process_post id [] now) (λ r. do rest ← process_all now ids; return ((id, r) ∷ rest))

  unfoldable pub drain : Timestamp → ℕ → M F (List (PublicId × Result StoreError Processed))
  unfolding process_all
  drain now limit = do pending ← pending_posts (now - sweep_grace_ms) limit; process_all now pending
