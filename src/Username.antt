-- ===== src/Username.antt =====
-- crates/core/src/username.rs: the names of accounts.
use notespace.Base.{ℕ, Text, codes, List, [], ◌∷◌, ◌++◌, Result, ok, err}
use notespace.Naming.{Rules, NameError, validate}

abbrev pub min_chars : ℕ
min_chars = 2

abbrev pub max_chars : ℕ
max_chars = 24

abbrev pub reserved_names : List Text
reserved_names =
    codes "about"
    ∷ codes "admin"
    ∷ codes "administrator"
    ∷ codes "anonymous"
    ∷ codes "api"
    ∷ codes "deleted"
    ∷ codes "everyone"
    ∷ codes "ghost"
    ∷ codes "guest"
    ∷ codes "help"
    ∷ codes "me"
    ∷ codes "mod"
    ∷ codes "moderator"
    ∷ codes "notespace"
    ∷ codes "null"
    ∷ codes "official"
    ∷ codes "root"
    ∷ codes "security"
    ∷ codes "settings"
    ∷ codes "staff"
    ∷ codes "support"
    ∷ codes "system"
    ∷ codes "undefined"
    ∷ codes "unknown"
    ∷ []

abbrev pub username_rules : Rules
username_rules = record {
  kind = codes "username";
  min = min_chars;
  max = max_chars;
  reserved = reserved_names;
}

pub record Username : Type 0 where
  pub name : Text

named : Result NameError Text → Result NameError Username
named (ok t) = ok (record { name = t })
named (err e) = err e

unfoldable pub parse_username : Text → Result NameError Username
unfolding named
parse_username input = named (validate input username_rules)

abbrev pub url : Username → Text
url u = codes "/u/" ++ u.name
