-- ===== src/Store/Writing/Examples.antt =====
-- An insert beside two posts of another thread, and the theorems of the write path applied to them.
use notespace.Base.{true, codes, [], ◌∷◌, none, any, err, text_eq, ◌≡◌, refl}
use notespace.Model.{PostState, ThreadState, ThreadKind}
use notespace.Float.{centi}
use notespace.Pipeline.Site.{site}
use notespace.Store.{World, conflict, transaction}
use notespace.Store.Moderation.{find}
use notespace.Store.Writing.{NewPost, insert_post, insert_at, last_path_in_range, planned}
use notespace.TreePath.{root, encode_segment, encode_digits, digit_char}
use notespace.Allocation.{allocate, search_bounds}
use notespace.Store.Writing.Conflict.{insert_post-conflict}

abbrev start : World centi
start = record (site PostState.visible [] [] []) {
  threads =
      record {
        id = 4;
        public_id = codes "t2";
        space_id = 1;
        space_path = codes "space/";
        kind = ThreadKind.discussion;
        url = none;
        author_id = 2;
        created_at = 90;
        title = codes "next";
        state = ThreadState.visible;
        cache_version = 1;
        post_count = 0;
        bumped_at = 200;
      }
      ∷ [];
}

-- The opening post of a new thread, with the public id of another post.
abbrev taken : NewPost
taken = record {
  public_id = codes "p2";
  thread = codes "t2";
  parent = none;
  author_id = 4;
  body_md = codes "again";
  created_at = 500;
  state = PostState.visible;
}

refused : (insert_post (λ e. codes "path") taken start).0 ≡ err conflict
unfolding insert_post transaction planned find insert_at text_eq search_bounds allocate
    last_path_in_range root encode_segment encode_digits digit_char
refused = refl

insert_post-conflict_example : any (λ p. text_eq p.public_id taken.public_id) start.posts ≡ true
insert_post-conflict_example = insert_post-conflict (λ e. codes "path") start taken refused
