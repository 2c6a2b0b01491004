-- ===== src/SpaceKey/Examples.antt =====
-- Spaces of the tests of crates/core/src/space_key.rs.
use notespace.Base.{codes, ok, err, ◌≡◌, refl}
use notespace.Naming.{to_lower, is_reserved, validate}
use notespace.TreePath.{starts_with, split}
use notespace.TreePath.Subtree.{in_range}
use notespace.SpaceKey.{SpacePath, too_nested, no_segment, subtree_range, parse_space_path}
use notespace.SpaceKey.Range.{subtree_range_lem}

abbrev sports : SpacePath
sports = record { stored = codes "sports/" }

parse_test :
    parse_space_path (codes "Sports//hockey") ≡ ok (record { stored = codes "sports/hockey/" })
unfolding parse_space_path validate to_lower is_reserved split
parse_test = refl

parse_deep : parse_space_path (codes "aa/bb/cc/dd") ≡ err (too_nested 4)
unfolding parse_space_path validate to_lower is_reserved split
parse_deep = refl

parse_nothing : parse_space_path (codes "//") ≡ err no_segment
unfolding parse_space_path split
parse_nothing = refl

subtree_range_lem_example :
    let (lo, hi) = subtree_range sports in
    in_range (codes "sports-betting/") lo hi ≡ starts_with (codes "sports-betting/") sports.stored
subtree_range_lem_example = subtree_range_lem sports (codes "sports") (codes "sports-betting/") refl
