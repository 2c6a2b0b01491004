-- ===== src/Store/Writing/Placing.antt =====
-- What an insert of crates/store-sqlite/src/lib.rs puts into the table.
use notespace.Base.{
  ◌∷◌, [], any, arith, ℕ, true, false, ◌&&◌, Text, codes, List, Option, none, some, All, ok, ok_inj,
  ◌==◌, text_eq, ◌≡◌, refl, sym, ap, subst, ◌∙◌,
}
use notespace.Float.{Float}
use notespace.Model.{PublicId}
use notespace.TreePath.{TreePath, PathError, subtree_end}
use notespace.TreePath.Parsing.{parse_sound}
use notespace.Allocation.{search_bounds}
use notespace.Store.{World, PostRow, ThreadRow}
use notespace.Store.Moderation.{find, is_post}
use notespace.Store.Writing.{
  clashes, between, NewPost, Place, planned, optional, parent_row, new_post_row, path_above,
  id_above, stored_path, found_or,
}
use notespace.Store.Writing.Fresh.{
  planned-steps, planned-fresh, found_or_inv, then_ok_inv, stored_sound, row_of,
}

-- Whether the row is below the post that was named as its parent, which is one of the thread.
abbrev pub Below : List PostRow → ℕ → Option PublicId → PostRow → Type 0
Below posts thread none row = row.parent_id ≡ none
Below posts thread (some pid) row =
    (p : PostRow) × (find (λ p. text_eq p.public_id pid && p.thread_id == thread) posts ≡ some p)
    × (row.parent_id ≡ some p.id)
    × (between p.path (subtree_end (record { text = p.path })) row.path ≡ true)

-- The row is the post, in its thread, below its parent; no post has its public id, and none of the
-- thread its path.
pub record Inserted (threads : List ThreadRow) (posts : List PostRow) (new : NewPost)
    (row : PostRow) : Type 0 where
  pub thread : ThreadRow
  pub in_thread : find (λ t. text_eq t.public_id new.thread) threads ≡ some thread
  pub of_thread : row.thread_id ≡ thread.id
  pub below_parent : Below posts thread.id new.parent row
  pub fresh : All (λ p. (p.thread_id == thread.id && text_eq p.path row.path) ≡ false) posts
  pub named : row.public_id ≡ new.public_id
  pub unnamed : any (λ p. text_eq p.public_id new.public_id) posts ≡ false
  pub by_author : row.author_id ≡ new.author_id
  pub with_body : row.body_md ≡ new.body_md
  pub at_time : row.created_at ≡ new.created_at
  pub in_state : row.state ≡ new.state
  pub unedited : row.edited_at ≡ none

unclashed :
    (id : PublicId) (thread : ℕ) (path : Text) (posts : List PostRow)
    → any (clashes id thread path) posts ≡ false
    → any (λ p. text_eq p.public_id id) posts ≡ false
unclashed id thread path [] h = refl
unclashed id thread path (p ∷ posts) h =
    let rest = unclashed id thread path posts in ground (arith, rest)

module _ {F : Float} (show : PathError → Text) (w : World F) (new : NewPost) where
  placed-Below :
      (parent : Option PublicId) (id : ℕ) (place : Place)
      → optional (parent_row show w place.thread) parent ≡ ok place.above
      → ((p : TreePath)
          → path_above place.above ≡ some p
          → between p.text (subtree_end p) place.path.text ≡ true)
      → Below w.posts place.thread.id parent (new_post_row id new place)
  placed-Below none id place e within = ap id_above (sym (ok_inj e))
  placed-Below (some pid) id place e within =
      let (row, found, done) =
        then_ok_inv (parent_row show w place.thread pid) (λ b. ok (some b)) e in
      let (p, is_p, e2) =
        then_ok_inv (found_or (find (λ p. is_post pid p && p.thread_id == place.thread.id) w.posts))
          (row_of show) found in
      let (path, read, e3) =
        then_ok_inv (stored_path show (codes "parent path: ") p.path) (λ path. ok (p.id, path))
          e2 in
      let (n, ns, d, same) =
        parse_sound p.path (stored_sound show (codes "parent path: ") p.path read) in
      let is_above : some (p.id, path) ≡ place.above = ap some (ok_inj e3) ∙ ok_inj done in
      let inside : between path.text (subtree_end path) place.path.text ≡ true =
        within path (ap path_above (sym is_above)) in
      (
        p,
        found_or_inv _ is_p,
        ap id_above (sym is_above),
        subst (λ t. between t (subtree_end (record { text = t })) place.path.text ≡ true) same
            inside,
      )

  pub planned-Inserted :
      {place : Place} (id : ℕ)
      → planned show w new ≡ ok place
      → any (clashes new.public_id place.thread.id place.path.text) w.posts ≡ false
      → Inserted w.threads w.posts new (new_post_row id new place)
  unfolding search_bounds
  planned-Inserted {place} id e free =
      let (is_t, is_above, after) = planned-steps show w new e in
      record {
        thread = place.thread;
        in_thread = is_t;
        of_thread = refl;
        below_parent = placed-Below new.parent id place is_above (λ p q.
            subst (λ o. between (search_bounds o).0 (search_bounds o).1 place.path.text ≡ true) q
              after.0);
        fresh = planned-fresh show w new e;
        named = refl;
        unnamed = unclashed new.public_id place.thread.id place.path.text w.posts free;
        by_author = refl;
        with_body = refl;
        at_time = refl;
        in_state = refl;
        unedited = refl;
      }
