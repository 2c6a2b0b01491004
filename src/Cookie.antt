-- ===== src/Cookie.antt =====
-- crates/core/src/cookie.rs: reading and writing cookies, and the check of a redirect's target.
pub mod Examples
use notespace.Base.{
  not, ◌&&◌, ◌||◌, Text, codes, List, [], ◌∷◌, ◌++◌, Option, none, some, any, text_eq,
  if◌then◌else◌, ◌==◌, ℤ,
}
use notespace.Strings.{trim}
use notespace.TreePath.{split, starts_with}
use notespace.Decimal.{show_i64, split_once}

abbrev pub session_cookie : Text
session_cookie = codes "__Host-ns_session"

abbrev pub signed_in : Text
signed_in = codes "ns_in"

abbrev pub anon_cookie : Text
anon_cookie = codes "__Host-ns_anon"

abbrev pub oauth_cookie : Text
oauth_cookie = codes "__Host-ns_oauth"

abbrev pub pending_cookie : Text
pending_cookie = codes "__Host-ns_pending"

-- `find` over the pairs that `filter_map` keeps, and the `map` after it.
abbrev value_or : Text → Option (Text × Text) → Option Text → Option Text
value_or name none rest = rest
value_or name (some (k, v)) rest = if text_eq k name then some (trim v) else rest

find_pair : Text → List Text → Option Text
find_pair name [] = none
find_pair name (kv ∷ pairs) = value_or name (split_once b'=' (trim kv)) (find_pair name pairs)

unfoldable pub get_cookie : Option Text → Text → Option Text
unfolding find_pair
get_cookie none name = none
get_cookie (some header) name = find_pair name (split b';' header)

unfoldable pub set_cookie : Text → Text → ℤ → Text
set_cookie name value max_age_secs =
    name
    ++ b'='
      ∷ (value
          ++ codes "; Path=/; HttpOnly; Secure; SameSite=Lax; Max-Age="
          ++ show_i64 max_age_secs)

unfoldable pub clear_cookie : Text → Text
clear_cookie name = name ++ codes "=; Path=/; HttpOnly; Secure; SameSite=Lax; Max-Age=0"

unfoldable pub set_session : Text → ℤ → Text × Text
set_session value max_age_secs = (
  set_cookie session_cookie value max_age_secs,
  signed_in ++ codes "=1; Path=/; Secure; SameSite=Lax; Max-Age=" ++ show_i64 max_age_secs,
)

unfoldable pub clear_session : Text × Text
clear_session =
    (clear_cookie session_cookie, signed_in ++ codes "=; Path=/; Secure; SameSite=Lax; Max-Age=0")

unfoldable pub safe_next : Text → Option Text
safe_next next =
    if starts_with next (codes "/")
      && not (starts_with next (codes "//"))
      && not (starts_with next (codes "/\\"))
      && not (any (λ c. c == 13 || c == 10) next)
    then some next
    else none
