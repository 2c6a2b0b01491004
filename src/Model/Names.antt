-- ===== src/Model/Names.antt =====
-- crates/core/src/model.rs: the text forms in which states and roles cross the database boundary.
-- `parse` is strict; `from_str` falls back to the type's default.
pub mod RoundTrip
mod Examples
use notespace.Base.{
  Text, codes, Option, none, some, if◌then◌else◌, text_eq, text_eq→eq, ◌≡◌, List, [], ◌∷◌, All,
  Bool-cases, inl, inr, arith,
}
use notespace.Model.{Ranking, ThreadKind, ThreadState, UserState, PostState, Role}

-- The match of a text against string literals, first one first.
pub match_text {ℓ} : {A : Type ℓ} → Text → List (Text × A) → Option A
match_text s [] = none
match_text s ((t, a) ∷ arms) = if text_eq s t then some a else match_text s arms

pub or_default {ℓ} : {A : Type ℓ} → Option A → A → A
or_default none d = d
or_default (some a) d = a

pub ranking_text : Ranking → Text
ranking_text Ranking.bump = codes "bump"
ranking_text Ranking.gravity = codes "gravity"
ranking_text Ranking.best = codes "best"
ranking_text Ranking.score_threshold = codes "score_threshold"

pub thread_kind_text : ThreadKind → Text
thread_kind_text ThreadKind.discussion = codes "discussion"
thread_kind_text ThreadKind.link = codes "link"
thread_kind_text ThreadKind.question = codes "question"
thread_kind_text ThreadKind.poll = codes "poll"
thread_kind_text ThreadKind.announcement = codes "announcement"

pub thread_state_text : ThreadState → Text
thread_state_text ThreadState.visible = codes "visible"
thread_state_text ThreadState.locked = codes "locked"
thread_state_text ThreadState.pinned = codes "pinned"
thread_state_text ThreadState.hidden = codes "hidden"
thread_state_text ThreadState.deleted = codes "deleted"

pub user_state_text : UserState → Text
user_state_text UserState.active = codes "active"
user_state_text UserState.deleted = codes "deleted"
user_state_text UserState.banned = codes "banned"

pub post_state_text : PostState → Text
post_state_text PostState.visible = codes "visible"
post_state_text PostState.pending = codes "pending"
post_state_text PostState.hidden = codes "hidden"
post_state_text PostState.deleted = codes "deleted"

pub role_text : Role → Text
role_text Role.member = codes "member"
role_text Role.moderator = codes "moderator"
role_text Role.admin = codes "admin"

abbrev pub ranking_arms : List (Text × Ranking)
ranking_arms =
    (codes "bump", Ranking.bump)
    ∷ (codes "gravity", Ranking.gravity)
    ∷ (codes "best", Ranking.best)
    ∷ (codes "score_threshold", Ranking.score_threshold)
    ∷ []

pub parse_ranking : Text → Option Ranking
unfolding match_text text_eq
parse_ranking s = match_text s ranking_arms

pub ranking_from_str : Text → Ranking
unfolding match_text text_eq or_default
ranking_from_str s = or_default (match_text s ranking_arms) Ranking.bump

abbrev pub thread_kind_arms : List (Text × ThreadKind)
thread_kind_arms =
    (codes "discussion", ThreadKind.discussion)
    ∷ (codes "link", ThreadKind.link)
    ∷ (codes "question", ThreadKind.question)
    ∷ (codes "poll", ThreadKind.poll)
    ∷ (codes "announcement", ThreadKind.announcement)
    ∷ []

pub thread_kind_from_str : Text → ThreadKind
unfolding match_text text_eq or_default
thread_kind_from_str s = or_default (match_text s thread_kind_arms) ThreadKind.discussion

abbrev pub thread_state_arms : List (Text × ThreadState)
thread_state_arms =
    (codes "visible", ThreadState.visible)
    ∷ (codes "locked", ThreadState.locked)
    ∷ (codes "pinned", ThreadState.pinned)
    ∷ (codes "hidden", ThreadState.hidden)
    ∷ (codes "deleted", ThreadState.deleted)
    ∷ []

pub parse_thread_state : Text → Option ThreadState
unfolding match_text text_eq
parse_thread_state s = match_text s thread_state_arms

pub thread_state_from_str : Text → ThreadState
unfolding match_text text_eq or_default
thread_state_from_str s = or_default (match_text s thread_state_arms) ThreadState.visible

abbrev pub user_state_arms : List (Text × UserState)
user_state_arms =
    (codes "active", UserState.active)
    ∷ (codes "deleted", UserState.deleted)
    ∷ (codes "banned", UserState.banned)
    ∷ []

pub parse_user_state : Text → Option UserState
unfolding match_text text_eq
parse_user_state s = match_text s user_state_arms

pub user_state_from_str : Text → UserState
unfolding match_text text_eq or_default
user_state_from_str s = or_default (match_text s user_state_arms) UserState.active

abbrev pub post_state_arms : List (Text × PostState)
post_state_arms =
    (codes "visible", PostState.visible)
    ∷ (codes "pending", PostState.pending)
    ∷ (codes "hidden", PostState.hidden)
    ∷ (codes "deleted", PostState.deleted)
    ∷ []

pub parse_post_state : Text → Option PostState
unfolding match_text text_eq
parse_post_state s = match_text s post_state_arms

pub post_state_from_str : Text → PostState
unfolding match_text text_eq or_default
post_state_from_str s = or_default (match_text s post_state_arms) PostState.visible

abbrev pub role_arms : List (Text × Role)
role_arms =
    (codes "member", Role.member)
    ∷ (codes "moderator", Role.moderator)
    ∷ (codes "admin", Role.admin)
    ∷ []

pub parse_role : Text → Option Role
unfolding match_text text_eq
parse_role s = match_text s role_arms

pub role_from_str : Text → Role
unfolding match_text text_eq or_default
role_from_str s = or_default (match_text s role_arms) Role.member

module _ {ℓ} {A : Type ℓ} (to_text : A → Text) where
  -- What is read from the arms is the value that the text spells.
  pub match_text_sound :
      (s : Text) (arms : List (Text × A)) {a : A}
      → All (λ arm. to_text arm.1 ≡ arm.0) arms
      → match_text s arms ≡ some a
      → to_text a ≡ s
  unfolding match_text
  match_text_sound s [] h e = cc
  match_text_sound s ((t, b) ∷ arms) (p, h) e = elim (Bool-cases (text_eq s t)) [
    | inl same ↦ ground (arith, text_eq→eq s t)
    | inr other ↦ match_text_sound s arms h (ground arith)
  ]
