-- ===== src/Edit/Rewriting.antt =====
-- `edit` of crates/core/src/edit.rs: a new body, which goes through the free checks again.
pub mod Edits
pub mod Examples
use notespace.Base.{
  Bool, true, false, not, ◌||◌, Text, List, [], none, Result, ok, err, if◌then◌else◌,
}
use notespace.Model.{PublicId, Timestamp, PostState, User, post_state_eq}
use notespace.Float.{Float}
use notespace.Strings.{is_empty}
use notespace.Moderation.{Reason}
use notespace.Heuristics.{Refusal}
use notespace.Store.{StoreError, Action, Detail, M, return, throw, handle, ◌>>=◌, ◌>>◌}
use notespace.Store.Moderation.{ReviewPost, post_for_review, set_post_state, log_action}
use notespace.Store.Writing.{WriteContext, write_context, update_post_body}
use notespace.Pipeline.{user_action, hold}
use notespace.Reply as Reply
use notespace.Reply.{Environment, check_body, takes_replies, triage}
use notespace.Edit.{Rejected, may_edit}

pub data EditOutcome : Type 0 where
  edited : EditOutcome
  held : PublicId → EditOutcome
  rejected : Rejected → EditOutcome

abbrev pub editable : PostState → Bool
editable PostState.visible = true
editable PostState.pending = true
editable _ = false

-- `unwrap_or_default`.
abbrev pub found_reasons : Result Refusal (List Reason) → List Reason
found_reasons (ok reasons) = reasons
found_reasons (err why) = []

abbrev pub stays : List Reason → PostState → Bool
stays reasons state = is_empty reasons || post_state_eq state PostState.pending

module _ {F : Float} (env : Environment F) (post : PublicId) (user : User) (body : Text)
    (now : Timestamp) where
  rewrite : ReviewPost → List Reason → M F EditOutcome
  rewrite rp reasons = do
    update_post_body post body now
    log_action (user_action user rp.id Action.edit Detail.nothing false now)
    if stays reasons rp.state then return edited else do
      set_post_state post PostState.pending
      hold env.services rp.id rp.public_id reasons now
      return (held rp.thread_public_id)

  in_thread : ReviewPost → WriteContext → M F EditOutcome
  in_thread rp ctx =
      if not (takes_replies ctx.thread_state)
      then return (rejected Rejected.locked)
      else do found ← triage env ctx user.id body none now; rewrite rp (found_reasons found)

  edit_found : ReviewPost → M F EditOutcome
  edit_found rp =
      if not (may_edit user rp.author_id)
      then return (rejected Rejected.not_yours)
      else if not (editable rp.state)
      then return (rejected Rejected.not_editable)
      else do ctx ← write_context rp.thread_public_id user.id; in_thread rp ctx

  edit_looked_up : Result StoreError ReviewPost → M F EditOutcome
  edit_looked_up (ok rp) = edit_found rp
  edit_looked_up (err StoreError.not_found) = return (rejected Rejected.not_found)
  edit_looked_up (err e) = throw e

  edit_checked : Result Reply.Rejected (Unit {0}) → M F EditOutcome
  edit_checked (err why) = return (rejected (Rejected.body why))
  edit_checked (ok _) = handle (post_for_review post) edit_looked_up

  pub edit : M F EditOutcome
  edit = edit_checked (check_body body)
