-- ===== src/Model.antt =====
-- crates/core/src/model.rs: the states, roles and accounts that the other components share.
-- Row ids and times are natural numbers: both are never negative in the program.
pub mod Names
use notespace.Base.{ℕ, Bool, true, false, Text}

abbrev pub PublicId : Type 0
PublicId = Text

abbrev pub Timestamp : Type 0
Timestamp = ℕ

pub data Ranking : Type 0 where
  bump gravity best score_threshold : Ranking

pub data ThreadKind : Type 0 where
  discussion link question poll announcement : ThreadKind

pub data ThreadState : Type 0 where
  visible locked pinned hidden deleted : ThreadState

pub data PostState : Type 0 where
  visible pending hidden deleted : PostState

pub data UserState : Type 0 where
  active deleted banned : UserState

pub data Role : Type 0 where
  member moderator admin : Role

pub record User : Type 0 where
  pub id : ℕ
  pub name : Text
  pub state : UserState
  pub role : Role

abbrev pub can_moderate : Role → Bool
can_moderate Role.member = false
can_moderate _ = true

abbrev pub is_admin : Role → Bool
is_admin Role.admin = true
is_admin _ = false

abbrev pub can_act : UserState → Bool
can_act UserState.active = true
can_act _ = false

-- `==` and `matches!` on the states.
abbrev pub post_state_eq : PostState → PostState → Bool
post_state_eq PostState.visible PostState.visible = true
post_state_eq PostState.pending PostState.pending = true
post_state_eq PostState.hidden PostState.hidden = true
post_state_eq PostState.deleted PostState.deleted = true
post_state_eq _ _ = false

-- `matches!(state, ThreadState::Visible | ThreadState::Pinned)`.
abbrev pub takes_posts : ThreadState → Bool
takes_posts ThreadState.visible = true
takes_posts ThreadState.pinned = true
takes_posts _ = false
