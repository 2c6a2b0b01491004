-- ===== src/Allocation.antt =====
-- `NextPath` and `page_cursor_offset` of crates/core/src/store.rs: where the next post goes, and
-- where a page of posts starts.
pub mod Fresh
pub mod Examples
use notespace.Base.{
  ℕ, ◌+◌, ◌*◌, ◌-◌, ◌/◌, Text, codes, [], ◌∷◌, ◌++◌, Option, none, some, Result, ok, err,
  if◌then◌else◌, ltb, max,
}
use notespace.TreePath.{
  TreePath, PathError, root, child, depth, next_sibling, ancestor_at_depth, subtree_end,
}
use notespace.Store.{StoreError, backend}

unfoldable pub search_bounds : Option TreePath → Text × Text
search_bounds (some p) = (p.text, subtree_end p)
search_bounds none = ([], 127 ∷ [])

abbrev below : Option TreePath → ℕ
below none = 0
below (some p) = depth p + 1

abbrev level : Option TreePath → ℕ → Option TreePath
level none d = none
level (some l) d = ancestor_at_depth l d

-- The arms of `match (last_sibling, parent)`.
next_of : Option TreePath → Option TreePath → Result PathError TreePath
next_of (some sibling) parent = next_sibling sibling
next_of none (some p) = child p 0
next_of none none = root 0

-- `map_err`, with the text that the error library derives for a `PathError`.
abbrev pub as_backend : (PathError → Text) → Result PathError TreePath → Result StoreError TreePath
as_backend show (ok p) = ok p
as_backend show (err e) = err (backend (codes "path allocation: " ++ show e))

unfoldable pub allocate :
    (PathError → Text) → Option TreePath → Option TreePath → Result StoreError TreePath
unfolding next_of
allocate show parent last = as_backend show (next_of (level last (below parent)) parent)

unfoldable pub page_cursor_offset : ℕ → ℕ → Option ℕ
page_cursor_offset rank page_size =
    let size = max page_size 1 in
    let page = rank / size in if ltb 0 page then some (page * size - 1) else none
