-- ===== src/Store/Writing.antt =====
-- The calls of crates/store-sqlite/src/lib.rs that the write path makes, with their SQL.
pub mod Fresh
pub mod Placing
pub mod Conflict
pub mod Examples
pub mod Runs
use notespace.Base.{
  ℕ, ◌+◌, Bool, ◌&&◌, ◌||◌, Text, codes, List, [], ◌∷◌, ◌++◌, map, Option, none, some, Result, ok,
  err, if◌then◌else◌, ◌==◌, leb, any, text_eq, max, compare_list, is_lt,
}
use notespace.Model.{PublicId, Timestamp, PostState, ThreadState, Role}
use notespace.Float.{Float}
use notespace.RateLimit.{Attempts}
use notespace.TreePath.{TreePath, PathError, parse}
use notespace.Allocation.{search_bounds, allocate}
use notespace.Store.{
  StoreError, not_found, corrupt, conflict, outage, PostRow, ThreadRow, World, M, transaction,
}
use notespace.Store.Moderation.{find, find_post, is_post, or_not_found, bump_thread_for_post}

pub record WriteContext : Type 0 where
  pub space_id : ℕ
  pub space_config : Text
  pub thread_state : ThreadState
  pub author_created_at : Timestamp
  pub author_role : Role

-- The rendered HTML is a function of the markdown and of no interest here.
pub record NewPost : Type 0 where
  pub public_id : PublicId
  pub thread : PublicId
  pub parent : Option PublicId
  pub author_id : ℕ
  pub body_md : Text
  pub created_at : Timestamp
  pub state : PostState

-- The columns of a `Post` that its callers read.
pub record Post : Type 0 where
  pub id : ℕ
  pub public_id : PublicId
  pub thread_id : ℕ
  pub parent_id : Option ℕ
  pub path : TreePath
  pub state : PostState

pub record AttemptKeys : Type 0 where
  pub identity : Text
  pub client : Text

-- `identity` is in lower case, by the tables of Unicode.
abbrev pub attempt_keys : (Text → Text) → Text → Text → AttemptKeys
attempt_keys to_lowercase identity client = record {
  identity = codes "id:" ++ to_lowercase identity;
  client = codes "ip:" ++ client;
}

infixl 5 ◌>>=◌
abbrev ◌>>=◌ {ℓ κ} : {S : Type ℓ} {T : Type κ} (row : Option S) (next : S → Option T) → Option T
none >>= next = none
some row >>= next = next row

-- `ORDER BY path DESC LIMIT 1` over the paths strictly between two bounds.
abbrev pub between : Text → Text → Text → Bool
between lo hi path = is_lt (compare_list lo path) && is_lt (compare_list path hi)

abbrev later : Text → Option Text → Text
later path none = path
later path (some best) = if is_lt (compare_list best path) then path else best

unfoldable pub last_path_in_range : List PostRow → ℕ → Text → Text → Option Text
last_path_in_range [] thread lo hi = none
last_path_in_range (p ∷ posts) thread lo hi =
    let best = last_path_in_range posts thread lo hi in
    if p.thread_id == thread && between lo hi p.path then some (later p.path best) else best

-- The row id after the largest.
next_id : List PostRow → ℕ
next_id [] = 1
next_id (p ∷ posts) = max (p.id + 1) (next_id posts)

-- The unique indexes of the table.
abbrev pub clashes : PublicId → ℕ → Text → PostRow → Bool
clashes public_id thread path p =
    text_eq p.public_id public_id || (p.thread_id == thread && text_eq p.path path)

-- `Path::parse` of a stored path, with the text that the error library derives.
abbrev pub stored_path : (PathError → Text) → Text → Text → Result StoreError TreePath
stored_path show what path = elim (parse path) [
  | ok p ↦ ok p
  | err e ↦ err (corrupt (what ++ show e))
]

abbrev pub then_ok {ℓ κ} :
    {A : Type ℓ} {B : Type κ}
    → Result StoreError A
    → (A → Result StoreError B)
    → Result StoreError B
then_ok (ok a) k = k a
then_ok (err e) k = err e

abbrev pub found_or : {A : Type 0} → Option A → Result StoreError A
found_or none = err not_found
found_or (some a) = ok a

-- `Option::map` and `transpose`.
abbrev pub optional :
    {A B : Type 0} → (A → Result StoreError B) → Option A → Result StoreError (Option B)
optional f none = ok none
optional f (some a) = then_ok (f a) (λ b. ok (some b))

abbrev pub bumped : ℕ → Timestamp → ThreadRow → ThreadRow
bumped id now t =
    if t.id == id
    then record t {
      post_count = t.post_count + 1;
      bumped_at = now;
      cache_version = t.cache_version + 1;
    }
    else t

-- Where a post goes: its thread, its parent's row id and path, and its path.
pub record Place : Type 0 where
  pub thread : ThreadRow
  pub above : Option (ℕ × TreePath)
  pub path : TreePath

abbrev pub path_above : Option (ℕ × TreePath) → Option TreePath
path_above none = none
path_above (some (id, path)) = some path

abbrev pub id_above : Option (ℕ × TreePath) → Option ℕ
id_above none = none
id_above (some (id, path)) = some id

abbrev pub new_post_row : ℕ → NewPost → Place → PostRow
new_post_row id new place = record {
  id = id;
  public_id = new.public_id;
  thread_id = place.thread.id;
  author_id = new.author_id;
  body_md = new.body_md;
  created_at = new.created_at;
  state = new.state;
  parent_id = id_above place.above;
  path = place.path.text;
  edited_at = none;
}

abbrev pub returned : ℕ → NewPost → Place → Post
returned id new place = record {
  id = id;
  public_id = new.public_id;
  thread_id = place.thread.id;
  parent_id = id_above place.above;
  path = place.path;
  state = new.state;
}

unfoldable pub rewritten : PublicId → Text → Timestamp → PostRow → PostRow
rewritten post body at p =
    if is_post post p then record p { body_md = body; edited_at = some at } else p

-- The rows of one key; a key has one row at most.
unfoldable pub attempts_of : Text → List (Text × Attempts) → Option Attempts
attempts_of key [] = none
attempts_of key ((k, a) ∷ rows) =
    let rest = attempts_of key rows in if text_eq k key then some a else rest

-- A row is the identity's before it is the client's.
abbrev pub client_attempts : AttemptKeys → List (Text × Attempts) → Option Attempts
client_attempts keys rows =
    if text_eq keys.client keys.identity then none else attempts_of keys.client rows

without : Text → List (Text × Attempts) → List (Text × Attempts)
without key [] = []
without key ((k, a) ∷ rows) =
    let rest = without key rows in if text_eq k key then rest else (k, a) ∷ rest

module _ {F : Float} where
  unfoldable pub joined_context : World F → PublicId → ℕ → Option WriteContext
  unfolding find
  joined_context w thread author = do
    t ← find (λ t. text_eq t.public_id thread) w.threads
    s ← find (λ s. s.id == t.space_id) w.spaces
    u ← find (λ u. u.id == author) w.users
    some (record {
      space_id = s.id;
      space_config = s.config;
      thread_state = t.state;
      author_created_at = u.created_at;
      author_role = u.role;
    })

  unfoldable pub write_context : PublicId → ℕ → M F WriteContext
  write_context thread author = transaction (λ w. or_not_found (joined_context w thread author) w)

  unfoldable pub author_posted_recently : ℕ → Text → Timestamp → M F Bool
  author_posted_recently author body since = transaction (λ w. (
    ok (
        any (λ p. p.author_id == author && leb since p.created_at && text_eq p.body_md body)
          w.posts),
    w,
  ))

  abbrev pub parent_row :
      (PathError → Text) → World F → ThreadRow → PublicId → Result StoreError (ℕ × TreePath)
  parent_row show w t pid =
      then_ok (found_or (find (λ p. is_post pid p && p.thread_id == t.id) w.posts))
        (λ p. then_ok (stored_path show (codes "parent path: ") p.path) (λ path. ok (p.id, path)))

  -- The statements before the insert.
  unfoldable pub planned : (PathError → Text) → World F → NewPost → Result StoreError Place
  unfolding find
  planned show w new =
      then_ok (found_or (find (λ t. text_eq t.public_id new.thread) w.threads)) (λ t.
        then_ok (optional (parent_row show w t) new.parent) (λ above.
          let bounds = search_bounds (path_above above) in
          then_ok
            (optional (stored_path show (codes "sibling path: "))
              (last_path_in_range w.posts t.id bounds.0 bounds.1))
            (λ last.
              then_ok (allocate show (path_above above) last)
                (λ path. ok (record { thread = t; above = above; path = path })))))

  -- The insert with its unique indexes and the reference to the author, and the thread's counters.
  unfoldable pub insert_at : NewPost → Result StoreError Place → M F Post
  unfolding next_id
  insert_at new (err e) w = (err e, w)
  insert_at new (ok place) w =
      let id = next_id w.posts in
      if any (clashes new.public_id place.thread.id place.path.text) w.posts
      then (err conflict, w)
      else if any (λ u. u.id == new.author_id) w.users
      then (
        ok (returned id new place),
        record w {
          posts = new_post_row id new place ∷ w.posts;
          threads = map (bumped place.thread.id new.created_at) w.threads;
        },
      )
      else (err outage, w)

  unfoldable pub insert_post : (PathError → Text) → NewPost → M F Post
  insert_post show new = transaction (λ w. insert_at new (planned show w new) w)

  update_body : PublicId → Text → Timestamp → Option PostRow → M F (Unit {0})
  update_body post body at none w = (err not_found, w)
  update_body post body at (some p) w = (
    ok tt,
    record w {
      posts = map (rewritten post body at) w.posts;
      threads = bump_thread_for_post w.threads (some p);
    },
  )

  unfoldable pub update_post_body : PublicId → Text → Timestamp → M F (Unit {0})
  unfolding update_body
  update_post_body post body at =
      transaction (λ w. update_body post body at (find_post w.posts post) w)

  unfoldable pub login_attempts : AttemptKeys → M F (Option Attempts × Option Attempts)
  login_attempts keys =
      transaction
        (λ w. (ok (attempts_of keys.identity w.attempts, client_attempts keys w.attempts), w))

  -- `INSERT … ON CONFLICT(key) DO UPDATE`.
  unfoldable pub record_login_attempt : Text → Attempts → M F (Unit {0})
  unfolding without
  record_login_attempt key a =
      transaction (λ w. (ok tt, record w { attempts = (key, a) ∷ without key w.attempts }))

  unfoldable pub clear_login_attempts : Text → M F (Unit {0})
  unfolding without
  clear_login_attempts key =
      transaction (λ w. (ok tt, record w { attempts = without key w.attempts }))
