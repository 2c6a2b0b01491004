-- ===== src/SpaceKey.antt =====
-- crates/core/src/space_key.rs: the names of spaces, and the paths of nested spaces.
pub mod Range
pub mod Examples
use notespace.Base.{
  ℕ, ◌+◌, Text, codes, List, [], ◌∷◌, ◌++◌, length, Option, none, some, Result, ok, err,
  if◌then◌else◌, ltb, ◌>>=◌,
}
use notespace.Naming.{Rules, NameError, validate}
use notespace.TreePath.{split}

abbrev pub min_chars : ℕ
min_chars = 2

abbrev pub max_chars : ℕ
max_chars = 32

abbrev pub path_sep : ℕ
path_sep = b'/'

abbrev pub max_nesting : ℕ
max_nesting = 3

abbrev pub reserved_keys : List Text
reserved_keys =
    codes "about"
    ∷ codes "admin"
    ∷ codes "all"
    ∷ codes "api"
    ∷ codes "edit"
    ∷ codes "feed"
    ∷ codes "help"
    ∷ codes "new"
    ∷ codes "notespace"
    ∷ codes "null"
    ∷ codes "rss"
    ∷ codes "search"
    ∷ codes "settings"
    ∷ codes "undefined"
    ∷ []

abbrev pub space_rules : Rules
space_rules = record {
  kind = codes "space name";
  min = min_chars;
  max = max_chars;
  reserved = reserved_keys;
}

pub record SpaceKey : Type 0 where
  pub name : Text

pub record SpacePath : Type 0 where
  pub stored : Text

pub data SpacePathError : Type 0 where
  segment : NameError → SpacePathError
  too_nested : ℕ → SpacePathError
  no_segment : SpacePathError

-- `split` and the filter of empty parts.
nonempty : List Text → List Text
nonempty [] = []
nonempty ([] ∷ rest) = nonempty rest
nonempty ((c ∷ s) ∷ rest) = (c ∷ s) ∷ nonempty rest

unfoldable pub path_segments : SpacePath → List Text
unfolding nonempty
path_segments p = nonempty (split path_sep p.stored)

unfoldable pub nesting : SpacePath → ℕ
unfolding path_segments
nesting p = length (path_segments p)

unfoldable pub root_space : SpaceKey → SpacePath
root_space key = record { stored = key.name ++ path_sep ∷ [] }

unfoldable pub child_space : SpacePath → SpaceKey → Result SpacePathError SpacePath
unfolding nesting
child_space p key =
    let depth = nesting p + 1 in
    if ltb max_nesting depth
    then err (too_nested depth)
    else ok (record { stored = p.stored ++ (key.name ++ path_sep ∷ []) })

as_key : Result NameError Text → Result SpacePathError SpaceKey
as_key (ok t) = ok (record { name = t })
as_key (err e) = err (segment e)

enter : Option SpacePath → SpaceKey → Result SpacePathError SpacePath
unfolding root_space child_space
enter none key = ok (root_space key)
enter (some p) key = child_space p key

-- The loop of `parse`.
parse_segments : Option SpacePath → List Text → Result SpacePathError (Option SpacePath)
unfolding as_key enter
parse_segments path [] = ok path
parse_segments path (seg ∷ rest) = do
  key ← as_key (validate seg space_rules)
  p ← enter path key
  parse_segments (some p) rest

present : Option SpacePath → Result SpacePathError SpacePath
present none = err no_segment
present (some p) = ok p

unfoldable pub parse_space_path : Text → Result SpacePathError SpacePath
unfolding parse_segments present nonempty
parse_space_path url_path = parse_segments none (nonempty (split path_sep url_path)) >>= present

-- `String::pop`, the result without its last character.
unfoldable pub pop : Text → Text
pop [] = []
pop (c ∷ []) = []
pop (c ∷ d ∷ s) = c ∷ pop (d ∷ s)

unfoldable pub subtree_range : SpacePath → Text × Text
unfolding pop
subtree_range p = (p.stored, pop p.stored ++ (path_sep + 1) ∷ [])
