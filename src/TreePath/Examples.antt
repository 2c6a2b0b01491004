-- ===== src/TreePath/Examples.antt =====
-- Paths of the tests of crates/core/src/path.rs, and the theorems at them.
use notespace.Base.{
  ℕ, ◌+◌, ◌≡◌, refl, arith, true, false, codes, List, [], ◌∷◌, some, ok, err, if◌then◌else◌, ltb,
  leb, ◌⊎◌, compare_list,
}
use notespace.TreePath.{
  TreePath, ordinal_too_large, too_deep, malformed, empty, max_ordinal, max_depth, digit_char,
  encode_digits, digit_value, root, child, ordinal, next_sibling, parse, segments,
  ancestor_at_depth, is_descendant_of, subtree_end,
}
use notespace.TreePath.Segment.{segment}
use notespace.TreePath.Position.{render, Denotes, compare-Denotes}
use notespace.TreePath.Walk.{at, child_lem}
use notespace.TreePath.Subtree.{in_range, subtree_end_lem}
use notespace.TreePath.Parsing.{parse-Denotes, parse_sound}
use notespace.TreePath.Sibling.{IsNext, next_sibling_lem}

abbrev reply : TreePath
reply = record { text = codes "000C.0004" }

abbrev nested : TreePath
nested = record { text = codes "000C.0004.0001" }

reply-Denotes : Denotes reply 12 (4 ∷ [])
unfolding render segment encode_digits digit_char
reply-Denotes = record { ordinals = omega arith; shallow = omega arith; written = refl }

nested-Denotes : Denotes nested 12 (4 ∷ 1 ∷ [])
unfolding render segment encode_digits digit_char
nested-Denotes = record { ordinals = omega arith; shallow = omega arith; written = refl }

child_test : child reply 1 ≡ ok nested
unfolding child
child_test = refl

parse_test : parse (codes "000C.0004.0001") ≡ ok nested
unfolding parse
parse_test = refl

parse_lowercase : parse (codes "000c") ≡ err (malformed (codes "000c") (codes "000c"))
unfolding parse
parse_lowercase = refl

parse_empty : parse (codes "") ≡ err empty
unfolding parse
parse_empty = refl

segments_test : segments nested ≡ 12 ∷ 4 ∷ 1 ∷ []
unfolding segments digit_value
segments_test = refl

ancestor_test : ancestor_at_depth nested 1 ≡ some reply
unfolding ancestor_at_depth
ancestor_test = refl

descendant_test : (is_descendant_of nested reply ≡ true) × (is_descendant_of reply nested ≡ false)
unfolding is_descendant_of
descendant_test = (refl, refl)

last_ordinal : root max_ordinal ≡ ok (record { text = codes "ZZZZ" })
unfolding root
last_ordinal = refl

compare-Denotes_example :
    compare_list reply.text nested.text ≡ compare_list (12 ∷ 4 ∷ []) (12 ∷ 4 ∷ 1 ∷ [])
compare-Denotes_example = compare-Denotes reply-Denotes nested-Denotes

subtree_end_lem_example :
    in_range nested.text reply.text (subtree_end reply) ≡ is_descendant_of nested reply
subtree_end_lem_example = subtree_end_lem nested-Denotes reply-Denotes

child_lem_example : child reply 1 ≡ (
    if leb max_depth 2
    then err (too_deep 2)
    else if ltb max_ordinal 1
    then err (ordinal_too_large 1)
    else ok (at 12 (4 ∷ 1 ∷ [])))
child_lem_example = child_lem 1 reply-Denotes

parse-Denotes_example : parse (codes "000C.0004") ≡ ok reply
parse-Denotes_example = parse-Denotes reply-Denotes

parse_sound_example :
    (n : ℕ) × (ns : List ℕ) × Denotes nested n ns × (nested.text ≡ codes "000C.0004.0001")
parse_sound_example = parse_sound (codes "000C.0004.0001") parse_test

next_sibling_lem_example :
    ((ordinal nested ≡ max_ordinal)
      × (next_sibling nested ≡ err (ordinal_too_large (max_ordinal + 1))))
    ⊎ ((q : TreePath) × (next_sibling nested ≡ ok q) × IsNext nested q)
next_sibling_lem_example = next_sibling_lem nested-Denotes
