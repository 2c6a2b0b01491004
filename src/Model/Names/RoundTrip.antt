-- ===== src/Model/Names/RoundTrip.antt =====
-- The text forms of crates/core/src/model.rs are read back as the values that they stand for.
use notespace.Base.{Text, some, ◌≡◌, ◌↔◌, refl, sym, ap, ◌∙◌}
use notespace.Model.{Ranking, ThreadKind, ThreadState, UserState, PostState, Role}
use notespace.Model.Names.{
  match_text_sound, ranking_text, parse_ranking, ranking_from_str, ranking_arms, thread_kind_text,
  thread_kind_from_str, thread_state_text, parse_thread_state, thread_state_from_str,
  thread_state_arms, user_state_text, parse_user_state, user_state_from_str, user_state_arms,
  post_state_text, parse_post_state, post_state_from_str, post_state_arms, role_text, parse_role,
  role_from_str, role_arms,
}

read_ranking : (k : Ranking) → parse_ranking (ranking_text k) ≡ some k
unfolding parse_ranking ranking_text
read_ranking Ranking.bump = refl
read_ranking Ranking.gravity = refl
read_ranking Ranking.best = refl
read_ranking Ranking.score_threshold = refl

pub parse_ranking_iff : (s : Text) (k : Ranking) → (parse_ranking s ≡ some k) ↔ (ranking_text k ≡ s)
unfolding parse_ranking ranking_text
parse_ranking_iff s k = (
  match_text_sound ranking_text s ranking_arms (refl, (refl, (refl, (refl, (tt))))),
  λ e. ap parse_ranking (sym e) ∙ read_ranking k,
)

read_thread_state : (t : ThreadState) → parse_thread_state (thread_state_text t) ≡ some t
unfolding parse_thread_state thread_state_text
read_thread_state ThreadState.visible = refl
read_thread_state ThreadState.locked = refl
read_thread_state ThreadState.pinned = refl
read_thread_state ThreadState.hidden = refl
read_thread_state ThreadState.deleted = refl

pub parse_thread_state_iff :
    (s : Text) (t : ThreadState) → (parse_thread_state s ≡ some t) ↔ (thread_state_text t ≡ s)
unfolding parse_thread_state thread_state_text
parse_thread_state_iff s t = (
  match_text_sound thread_state_text s thread_state_arms
      (refl, (refl, (refl, (refl, (refl, (tt)))))),
  λ e. ap parse_thread_state (sym e) ∙ read_thread_state t,
)

read_user_state : (u : UserState) → parse_user_state (user_state_text u) ≡ some u
unfolding parse_user_state user_state_text
read_user_state UserState.active = refl
read_user_state UserState.deleted = refl
read_user_state UserState.banned = refl

pub parse_user_state_iff :
    (s : Text) (u : UserState) → (parse_user_state s ≡ some u) ↔ (user_state_text u ≡ s)
unfolding parse_user_state user_state_text
parse_user_state_iff s u = (
  match_text_sound user_state_text s user_state_arms (refl, (refl, (refl, (tt)))),
  λ e. ap parse_user_state (sym e) ∙ read_user_state u,
)

read_post_state : (p : PostState) → parse_post_state (post_state_text p) ≡ some p
unfolding parse_post_state post_state_text
read_post_state PostState.visible = refl
read_post_state PostState.pending = refl
read_post_state PostState.hidden = refl
read_post_state PostState.deleted = refl

pub parse_post_state_iff :
    (s : Text) (p : PostState) → (parse_post_state s ≡ some p) ↔ (post_state_text p ≡ s)
unfolding parse_post_state post_state_text
parse_post_state_iff s p = (
  match_text_sound post_state_text s post_state_arms (refl, (refl, (refl, (refl, (tt))))),
  λ e. ap parse_post_state (sym e) ∙ read_post_state p,
)

read_role : (r : Role) → parse_role (role_text r) ≡ some r
unfolding parse_role role_text
read_role Role.member = refl
read_role Role.moderator = refl
read_role Role.admin = refl

pub parse_role_iff : (s : Text) (r : Role) → (parse_role s ≡ some r) ↔ (role_text r ≡ s)
unfolding parse_role role_text
parse_role_iff s r = (
  match_text_sound role_text s role_arms (refl, (refl, (refl, (tt)))),
  λ e. ap parse_role (sym e) ∙ read_role r,
)

back_ranking : (k : Ranking) → ranking_from_str (ranking_text k) ≡ k
unfolding ranking_from_str ranking_text
back_ranking Ranking.bump = refl
back_ranking Ranking.gravity = refl
back_ranking Ranking.best = refl
back_ranking Ranking.score_threshold = refl

back_thread_kind : (d : ThreadKind) → thread_kind_from_str (thread_kind_text d) ≡ d
unfolding thread_kind_from_str thread_kind_text
back_thread_kind ThreadKind.discussion = refl
back_thread_kind ThreadKind.link = refl
back_thread_kind ThreadKind.question = refl
back_thread_kind ThreadKind.poll = refl
back_thread_kind ThreadKind.announcement = refl

back_thread_state : (t : ThreadState) → thread_state_from_str (thread_state_text t) ≡ t
unfolding thread_state_from_str thread_state_text
back_thread_state ThreadState.visible = refl
back_thread_state ThreadState.locked = refl
back_thread_state ThreadState.pinned = refl
back_thread_state ThreadState.hidden = refl
back_thread_state ThreadState.deleted = refl

back_user_state : (u : UserState) → user_state_from_str (user_state_text u) ≡ u
unfolding user_state_from_str user_state_text
back_user_state UserState.active = refl
back_user_state UserState.deleted = refl
back_user_state UserState.banned = refl

back_post_state : (p : PostState) → post_state_from_str (post_state_text p) ≡ p
unfolding post_state_from_str post_state_text
back_post_state PostState.visible = refl
back_post_state PostState.pending = refl
back_post_state PostState.hidden = refl
back_post_state PostState.deleted = refl

back_role : (r : Role) → role_from_str (role_text r) ≡ r
unfolding role_from_str role_text
back_role Role.member = refl
back_role Role.moderator = refl
back_role Role.admin = refl

-- Each strict parser of the states and roles accepts exactly the text of the value it returns.
pub parse_iff :
    (s : Text) (k : Ranking) (t : ThreadState) (u : UserState) (p : PostState) (r : Role)
    → ((parse_ranking s ≡ some k) ↔ (ranking_text k ≡ s))
      × ((parse_thread_state s ≡ some t) ↔ (thread_state_text t ≡ s))
      × ((parse_user_state s ≡ some u) ↔ (user_state_text u ≡ s))
      × ((parse_post_state s ≡ some p) ↔ (post_state_text p ≡ s))
      × ((parse_role s ≡ some r) ↔ (role_text r ≡ s))
parse_iff s k t u p r = (
  parse_ranking_iff s k,
  parse_thread_state_iff s t,
  parse_user_state_iff s u,
  parse_post_state_iff s p,
  parse_role_iff s r,
)

-- The lenient reader of a column gives back every value that was written to it.
pub from_str-text :
    (k : Ranking) (d : ThreadKind) (t : ThreadState) (u : UserState) (p : PostState) (r : Role)
    → (ranking_from_str (ranking_text k) ≡ k)
      × (thread_kind_from_str (thread_kind_text d) ≡ d)
      × (thread_state_from_str (thread_state_text t) ≡ t)
      × (user_state_from_str (user_state_text u) ≡ u)
      × (post_state_from_str (post_state_text p) ≡ p)
      × (role_from_str (role_text r) ≡ r)
from_str-text k d t u p r = (
  back_ranking k,
  back_thread_kind d,
  back_thread_state t,
  back_user_state u,
  back_post_state p,
  back_role r,
)
