-- ===== src/Allocation/Examples.antt =====
-- Replies to one post, and a permalink to the 451st post of a thread.
use notespace.Base.{
  ◌+◌, Text, codes, [], ◌∷◌, none, some, ok, ◌≡◌, refl, arith, Ordering, compare_list,
}
use notespace.TreePath.{
  TreePath, PathError, digit_value, parent, ordinal, depth, digit_char, encode_digits, child,
  next_sibling, ancestor_at_depth,
}
use notespace.TreePath.Segment.{segment}
use notespace.TreePath.Position.{Denotes, render}
use notespace.Allocation.{allocate}
use notespace.Allocation.Fresh.{allocate-fresh}

abbrev show : PathError → Text
show e = codes "path error"

abbrev post : TreePath
post = record { text = codes "000C" }

abbrev last_reply : TreePath
last_reply = record { text = codes "000C.0004.0001" }

abbrev new_reply : TreePath
new_reply = record { text = codes "000C.0005" }

abbrev first_reply : TreePath
first_reply = record { text = codes "000C.0000" }

post-Denotes : Denotes post 12 []
unfolding render segment encode_digits digit_char
post-Denotes = record { ordinals = (omega arith, tt); shallow = omega arith; written = refl }

last_reply-Denotes : Denotes last_reply 12 (4 ∷ 1 ∷ [])
unfolding render segment encode_digits digit_char
last_reply-Denotes = record {
  ordinals = (omega arith, (omega arith, (omega arith, tt)));
  shallow = omega arith;
  written = refl;
}

allocate_test : allocate show (some post) (some last_reply) ≡ ok new_reply
unfolding allocate ancestor_at_depth next_sibling depth child digit_value
allocate_test = refl

allocate-fresh_example :
    (parent new_reply ≡ some post)
    × (ordinal new_reply ≡ 4 + 1)
    × (compare_list last_reply.text new_reply.text ≡ Ordering.lt)
allocate-fresh_example =
    allocate-fresh show 4 (1 ∷ []) post-Denotes last_reply-Denotes allocate_test

allocate-first_test : allocate show (some post) none ≡ ok first_reply
unfolding allocate ancestor_at_depth next_sibling depth child digit_value
allocate-first_test = refl
