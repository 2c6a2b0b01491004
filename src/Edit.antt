-- ===== src/Edit.antt =====
-- crates/core/src/edit.rs: `delete`, which leaves a tombstone, and in Edit/Rewriting `edit`.
pub mod Deletion
pub mod Rewriting
pub mod Examples
use notespace.Base.{ℕ, Bool, not, ◌||◌, Result, ok, err, if◌then◌else◌, ◌==◌}
use notespace.Model.{PublicId, Timestamp, PostState, User, can_moderate, post_state_eq}
use notespace.Float.{Float}
use notespace.Store.{StoreError, Action, Detail, M, return, throw, handle, ◌>>◌}
use notespace.Store.Moderation.{ReviewPost, post_for_review, set_post_state, log_action}
use notespace.Reply as Reply
use notespace.Pipeline.{user_action}

pub data Rejected : Type 0 where
  not_found not_yours not_editable locked : Rejected
  body : Reply.Rejected → Rejected

pub data DeleteOutcome : Type 0 where
  deleted : DeleteOutcome
  rejected : Rejected → DeleteOutcome

abbrev pub may_edit : User → ℕ → Bool
may_edit user author_id = user.id == author_id

abbrev pub may_delete : User → ℕ → Bool
may_delete user author_id = user.id == author_id || can_moderate user.role

module _ {F : Float} where
  delete_found : PublicId → User → Timestamp → ReviewPost → M F DeleteOutcome
  delete_found post user now rp =
      if not (may_delete user rp.author_id)
      then return (rejected Rejected.not_yours)
      else if post_state_eq rp.state PostState.deleted
      then return deleted
      else do
        set_post_state post PostState.deleted
        log_action (
            user_action user rp.id Action.delete (Detail.was rp.state)
              (not (user.id == rp.author_id)) now)
        return deleted

  delete_looked_up : PublicId → User → Timestamp → Result StoreError ReviewPost → M F DeleteOutcome
  delete_looked_up post user now (ok rp) = delete_found post user now rp
  delete_looked_up post user now (err StoreError.not_found) = return (rejected Rejected.not_found)
  delete_looked_up post user now (err e) = throw e

  unfoldable pub delete : PublicId → User → Timestamp → M F DeleteOutcome
  unfolding delete_looked_up delete_found
  delete post user now = handle (post_for_review post) (delete_looked_up post user now)
