-- ===== src/Lib.antt =====
-- The trust core of notespace: where a post stands in its thread, and who decides whether it is
-- seen.
--
-- notespace is a forum in Rust. `crates/core` holds its logic and is generic over a `Store`;
-- `crates/store-sqlite` and `crates/worker` implement the store on SQLite and D1 with the
-- statements of `crates/core/src/sql.rs`; `crates/app`, `crates/server` and `crates/worker` route
-- requests to the core, and `crates/render` writes pages. The development models these parts:
--
--   Base        shared helpers: tests on numbers, lists, results, byte order, `i64`.
--   TreePath    crates/core/src/path.rs: materialized paths, four base-32 digits per level joined
--               by full stops. A `TreePath` is its text, a list of byte values; `root`, `child`,
--               `next_sibling`, `parse`, `depth`, `ordinal`, `parent`, `ancestor_at_depth`,
--               `segments`, `is_descendant_of` and `subtree_end` are the methods of `Path`.
--               TreePath/Position has the specification: the list of ordinals that a path denotes.
--   Model       crates/core/src/model.rs: states, roles, users, and (Model/Names) their two
--               readers, the strict `parse` and the lenient `from_str`.
--   Float       the 64-bit floats, a record of operations that the definitions take, and some laws
--               of IEEE 754 that three theorems ask for; `centi`, of hundredths, meets them too.
--   Moderation  crates/core/src/moderation/mod.rs and the data of classify.rs; Moderation/Policy
--               is policy.rs (thresholds, `effective`, `decide`), Moderation/Layers is layers.rs
--               (`combine`, `merge`).
--   Strings     `str::trim` of the standard library, on the code points.
--   Store       the tables and a monad for the calls of crates/core/src/store.rs. A call is one
--               transaction of the one connection. `faults` in the world says which calls the
--               environment makes fail, so a theorem about every world is about every pattern of
--               failing calls. Store/Moderation and Store/Queries are the moderation calls of
--               crates/store-sqlite/src/lib.rs with the meaning of their statements in
--               crates/core/src/sql.rs; Store/Runs and Store/Moderation/Runs split a run into the
--               ends of its calls, Store/Footprint says what a run leaves alone.
--   Pipeline    crates/core/src/moderation/pipeline.rs: `hold`; Pipeline/Process has
--               `process_post` and `drain`, Pipeline/People has `report`, `review` and `appeal`.
--   RateLimit   crates/core/src/ratelimit.rs: `Limit::check` and its decisions.
--   Allocation  `NextPath` and `page_cursor_offset` of crates/core/src/store.rs, over TreePath.
--   Naming      crates/core/src/naming.rs: `validate` and `is_reserved`, with Username
--               (crates/core/src/username.rs) and SpaceKey (crates/core/src/space_key.rs).
--   Encoding    crates/core/src/encoding.rs: base64 in its two alphabets. Encoding/Chunks takes three
--               bytes at a time, as the code does.
--   Ids         crates/core/src/id.rs: public ids, 16 to 26 digits of 5 bits over a timestamp and
--               random bits; `with_width`, `from_u128`, `parse_id`, `timestamp_ms`.
--   Decimal     `i64` to text and back, and `str::split_once`, as the tokens use them.
--   Session     crates/core/src/session.rs: tokens in hexadecimal, expiry and refresh.
--   Csrf        crates/core/src/csrf.rs: `mint`, `verify`, `seal`, and `open` as `unseal`.
--   Cookie      crates/core/src/cookie.rs: cookies and `safe_next`.
--   Heuristics  crates/core/src/moderation/heuristics.rs: `triage` of a new post.
--   Reply       crates/core/src/reply.rs: `check_body`, `triage`, `post`. It runs over Store/Writing,
--               which has `insert_post`, `write_context` and the login attempts of
--               crates/store-sqlite/src/lib.rs. Reply/Calls splits a run of post or create into the
--               ends of its calls, and Store/Writing/Placing says what row an insert adds.
--   Compose     crates/core/src/compose.rs: `check` as `check_draft`, and `create`, over Store/Threads.
--   Edit        crates/core/src/edit.rs: `delete`, and in Edit/Rewriting `edit`.
--
-- The pipeline calls the policy (`from_config`, `effective`, `decide`) and the store. It is given
-- three services that the source does not implement: the JSON reader of a space's configuration,
-- the classifier, and the queue. They are the fields of `Services`. The write path calls the rate
-- limiter, the heuristics, the store and `hold`; it is given the tables of Unicode besides. SHA-256,
-- HMAC-SHA256 and the text of a path error, which libraries implement, are arguments.
--
-- Numbers are natural numbers: row ids, times in milliseconds and counts are never negative in the
-- program, and `now - SWEEP_GRACE_MS` stops at 0, before any time that is stored, as the window for
-- duplicates does. Only the hours of a policy and the expiry that a token states may be negative; the
-- product of the hours with the milliseconds of an hour wraps at 64 bits. The loops recurse on lists,
-- on the depth of a path or on a number of digits that suffices (20 in Decimal, for an `i64`).
-- Texts are lists of code points; the bytes of a path are its code points, since it is ASCII.
-- The `detail` column of the log is a data type with the shapes that the code writes as JSON. The
-- query counters, the log output on a failed announcement and the cache versions of rendered pages
-- beyond their increment are not modelled.
--
-- Not modelled: logins, registration and administration (crates/core/src/login.rs, register.rs,
-- admin.rs, account.rs), cache keys, passwords, mail and OpenID, the classifier's prompt
-- and parser, the ULID and UUID forms of ids, rendering, routing, and the second store on D1. The rendered HTML of a post is a function of its text and is left out.
pub mod Base
pub mod TreePath
pub mod Model
pub mod Float
pub mod Moderation
pub mod Store
pub mod Strings
pub mod Pipeline
pub mod RateLimit
pub mod Edit
pub mod Allocation
pub mod Encoding
pub mod Decimal
pub mod Session
pub mod Reply
pub mod Compose
pub mod Cookie
pub mod Heuristics
pub mod Csrf
pub mod Ids
pub mod Naming
pub mod Username
pub mod SpaceKey
