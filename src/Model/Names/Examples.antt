-- ===== src/Model/Names/Examples.antt =====
-- Texts of crates/core/src/model.rs, and the theorems at them.
use notespace.Base.{codes, some, none, ◌≡◌, ◌↔◌, refl}
use notespace.Model.{Ranking, ThreadState, UserState, PostState, Role}
use notespace.Model.Names.{
  ranking_text, parse_ranking, thread_state_text, parse_thread_state, user_state_text,
  parse_user_state, post_state_text, parse_post_state, post_state_from_str, role_text, parse_role,
}
use notespace.Model.Names.RoundTrip.{parse_iff}

unknown_role : parse_role (codes "owner") ≡ none
unfolding parse_role
unknown_role = refl

-- A state that this build does not know is read as visible.
unknown_state : post_state_from_str (codes "quarantined") ≡ PostState.visible
unfolding post_state_from_str
unknown_state = refl

parse_iff_example :
    ((parse_ranking (codes "hidden") ≡ some Ranking.best)
      ↔ (ranking_text Ranking.best ≡ codes "hidden"))
    × ((parse_thread_state (codes "hidden") ≡ some ThreadState.hidden)
        ↔ (thread_state_text ThreadState.hidden ≡ codes "hidden"))
    × ((parse_user_state (codes "hidden") ≡ some UserState.banned)
        ↔ (user_state_text UserState.banned ≡ codes "hidden"))
    × ((parse_post_state (codes "hidden") ≡ some PostState.hidden)
        ↔ (post_state_text PostState.hidden ≡ codes "hidden"))
    × ((parse_role (codes "hidden") ≡ some Role.admin) ↔ (role_text Role.admin ≡ codes "hidden"))
parse_iff_example =
    parse_iff (codes "hidden") Ranking.best ThreadState.hidden UserState.banned PostState.hidden
      Role.admin
