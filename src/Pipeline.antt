-- ===== src/Pipeline.antt =====
-- crates/core/src/moderation/pipeline.rs: the steps of moderation, each over a store.
pub mod Process
pub mod People
pub mod Site
pub mod Examples
use notespace.Base.{ℕ, Bool, true, Text, codes, List, ◌∷◌, Option, none, some, Result, ok}
use notespace.Model.{PublicId, Timestamp, PostState, User}
use notespace.Float.{Float}
use notespace.Moderation.{Verdict, ActorKind, ReviewReason, Reason, ClassifyError, ClassifyInput}
use notespace.Moderation.Policy.{ModerationPolicy}
use notespace.Store.{TargetKind, Action, Detail, NewAction, M, ◌>>=◌, ◌>>◌}
use notespace.Store.Moderation.{ReviewPost, NewReview, log_action}

-- The code that the pipeline is given: the JSON library on a space's configuration, the
-- classifier, and the queue.
pub record Services (F : Float) : Type 0 where
  pub parse_policy : Text → Option (ModerationPolicy F)
  pub model : Text
  pub classify : ClassifyInput → Result ClassifyError (Verdict F)
  pub enqueue : PublicId → List Reason → Result Text (Unit {0})

abbrev pub rule_actor : Text
rule_actor = codes "tier0"

abbrev pub system_actor : Text
system_actor = codes "notespace"

abbrev pub max_appeal_chars : ℕ
max_appeal_chars = 2000

abbrev pub max_report_chars : ℕ
max_report_chars = 500

abbrev pub sweep_grace_ms : ℕ
sweep_grace_ms = 60000

pub data Processed : Type 0 where
  skipped published hidden queued : Processed
  classifier_failed : ClassifyError → Processed

pub data ReportOutcome : Type 0 where
  recorded already_reported held : ℕ → ReportOutcome
  own_post gone : ReportOutcome

pub data ReviewOutcome : Type 0 where
  resolved : PublicId → PostState → Option Bool → ReviewOutcome
  gone forbidden : ReviewOutcome

pub data AppealOutcome : Type 0 where
  filed not_yours not_hidden empty : AppealOutcome
  too_long : ℕ → AppealOutcome

module _ {F : Float} where
  abbrev pub action_by_rule : ℕ → Detail F → Timestamp → NewAction F
  action_by_rule post_id detail now = record {
    actor_kind = ActorKind.rule;
    actor_id = none;
    actor_name = rule_actor;
    target_kind = TargetKind.post;
    target_id = post_id;
    action = Action.hold;
    detail = detail;
    is_public = true;
    created_at = now;
  }

  abbrev pub model_action : Verdict F → ℕ → Action → Bool → Timestamp → NewAction F
  model_action v post_id action is_public now = record {
    actor_kind = ActorKind.model;
    actor_id = none;
    actor_name = v.model;
    target_kind = TargetKind.post;
    target_id = post_id;
    action = action;
    detail = Detail.verdict v;
    is_public = is_public;
    created_at = now;
  }

  abbrev pub system_action : ℕ → Action → Detail F → Bool → Timestamp → NewAction F
  system_action post_id action detail is_public now = record {
    actor_kind = ActorKind.system;
    actor_id = none;
    actor_name = system_actor;
    target_kind = TargetKind.post;
    target_id = post_id;
    action = action;
    detail = detail;
    is_public = is_public;
    created_at = now;
  }

  abbrev pub user_action : User → ℕ → Action → Detail F → Bool → Timestamp → NewAction F
  user_action who post_id action detail is_public now = record {
    actor_kind = ActorKind.user;
    actor_id = some who.id;
    actor_name = who.name;
    target_kind = TargetKind.post;
    target_id = post_id;
    action = action;
    detail = detail;
    is_public = is_public;
    created_at = now;
  }

  abbrev pub review_of :
      ReviewPost → ReviewReason → Option (Verdict F) → Option Text → Timestamp → NewReview F
  review_of rp reason verdict appeal_text now = record {
    post_id = rp.id;
    space_id = rp.space_id;
    reason = reason;
    verdict = verdict;
    appeal_text = appeal_text;
    opened_at = now;
  }

module _ {F : Float} (services : Services F) where
  unfoldable pub tell : PublicId → List Reason → M F (Result Text (Unit {0}))
  tell post reasons w =
      (ok (services.enqueue post reasons), record w { sent = (post, reasons) ∷ w.sent })

  unfoldable pub hold : ℕ → PublicId → List Reason → Timestamp → M F (Result Text (Unit {0}))
  hold post_id public_id reasons now = do
    log_action (action_by_rule post_id (Detail.reasons reasons) now)
    tell public_id reasons
