-- ===== src/Naming/Examples.antt =====
-- Names of the tests of crates/core/src/username.rs, and the theorems of Naming/Normal at them.
use notespace.Base.{
  Bool, true, ◌&&◌, Text, codes, List, [], ◌∷◌, ok, err, ◌≡◌, ◌↔◌, refl, compare_list, is_lt,
}
use notespace.Naming.{edge_separator, reserved, to_lower, is_reserved, validate}
use notespace.Naming.Normal.{lowered, IsName, validate_iff}
use notespace.Username.{username_rules, reserved_names}

-- `binary_search` wants the list sorted.
ascending : List Text → Bool
ascending [] = true
ascending (s ∷ []) = true
ascending (s ∷ t ∷ rest) = is_lt (compare_list s t) && ascending (t ∷ rest)

reserved_names-ascending : ascending reserved_names ≡ true
unfolding ascending
reserved_names-ascending = refl

accepted : validate (codes "Test-User") username_rules ≡ ok (codes "test-user")
unfolding validate to_lower is_reserved
accepted = refl

looks_reserved : validate (codes "4dm1n") username_rules ≡ err (reserved (codes "4dm1n"))
unfolding validate to_lower is_reserved
looks_reserved = refl

edge : validate (codes "-ab") username_rules ≡ err (edge_separator b'-' (codes "username"))
unfolding validate to_lower is_reserved
edge = refl

validate_iff_example : (validate (codes "Test-User") username_rules ≡ ok (codes "test-user")) ↔ (
    (codes "test-user" ≡ lowered (codes "Test-User")) × IsName username_rules (codes "test-user"))
validate_iff_example = validate_iff (codes "Test-User") (codes "test-user") username_rules
