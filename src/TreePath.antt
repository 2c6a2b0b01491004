-- ===== src/TreePath.antt =====
-- crates/core/src/path.rs: materialized tree paths. A text is the list of its bytes.
pub mod Segment
pub mod Position
pub mod Walk
pub mod Subtree
pub mod Parsing
pub mod Sibling
mod Examples
mod Split
use notespace.Base.{
  ℕ, zero, suc, ◌+◌, ◌-◌, ◌*◌, ◌/◌, ◌%◌, Bool, true, false, ◌&&◌, ◌||◌, not, Option, none, some,
  List, [], ◌∷◌, ◌++◌, map, Text, codes, length, get_or, set, take, drop, replicate, all, Result,
  ok, err, ◌>>=◌, if◌then◌else◌, ◌==◌, ltb, leb, text_eq,
}
use mathlib.Core.List.{foldl}

abbrev pub alphabet : Text
alphabet = codes "0123456789ABCDEFGHJKMNPQRSTVWXYZ"

abbrev pub segment_width : ℕ
segment_width = 4

abbrev pub max_ordinal : ℕ
max_ordinal = 1048575

abbrev pub max_depth : ℕ
max_depth = 32

abbrev pub separator : ℕ
separator = b'.'

abbrev pub invalid : ℕ
invalid = 0xFF

-- The loop that fills the reverse table.
fill : ℕ → Text → List ℕ → List ℕ
fill i [] table = table
fill i (c ∷ cs) table = fill (i + 1) cs (set table c i)

decode : List ℕ
unfolding fill
decode = fill 0 alphabet (replicate 256 invalid)

-- `DECODE[b]`; a byte is below 256, so the default stands for no value of the source.
unfoldable pub digit_value : ℕ → ℕ
unfolding decode
digit_value b = get_or decode b invalid

unfoldable pub digit_char : ℕ → ℕ
digit_char d = get_or alphabet d 0

pub data PathError : Type 0 where
  ordinal_too_large : ℕ → PathError
  too_deep : ℕ → PathError
  malformed : Text → Text → PathError
  empty : PathError

pub record TreePath : Type 0 where
  pub text : Text

-- The loop over the four slots, last one first.
unfoldable pub encode_digits : ℕ → ℕ → Text → Text
unfolding digit_char
encode_digits zero n out = out
encode_digits (suc slots) n out = encode_digits slots (n / 32) (digit_char (n % 32) ∷ out)

unfoldable pub encode_segment : ℕ → Result PathError Text
unfolding encode_digits
encode_segment ordinal =
    if ltb max_ordinal ordinal
    then err (ordinal_too_large ordinal)
    else ok (encode_digits segment_width ordinal [])

abbrev pub u32_mod : ℕ
u32_mod = 4294967296

-- One round of the fold, in `u32`.
pub decode_step : ℕ → ℕ → ℕ
decode_step acc b =
    let digit = digit_value b in (acc * 32 + (if digit == invalid then 0 else digit)) % u32_mod

pub decode_segment : Text → ℕ
unfolding decode_step
decode_segment s = foldl decode_step 0 s

-- `str::split`, `str::rfind` and the count of a byte.
push_head : ℕ → List Text → List Text
push_head c [] = (c ∷ []) ∷ []
push_head c (s ∷ ss) = (c ∷ s) ∷ ss

unfoldable pub split : ℕ → Text → List Text
unfolding push_head
split sep [] = [] ∷ []
split sep (c ∷ s) = let rest = split sep s in if c == sep then [] ∷ rest else push_head c rest

found_at : ℕ → ℕ → Option ℕ → Option ℕ
found_at sep c (some i) = some (suc i)
found_at sep c none = if c == sep then some 0 else none

unfoldable pub rfind : ℕ → Text → Option ℕ
unfolding found_at
rfind sep [] = none
rfind sep (c ∷ s) = found_at sep c (rfind sep s)

pub count : ℕ → Text → ℕ
count sep [] = 0
count sep (c ∷ s) = if c == sep then suc (count sep s) else count sep s

unfoldable pub depth : TreePath → ℕ
unfolding count
depth p = count separator p.text

unfoldable pub root : ℕ → Result PathError TreePath
unfolding encode_segment
root ordinal = do segment ← encode_segment ordinal; ok (record { text = segment })

unfoldable pub child : TreePath → ℕ → Result PathError TreePath
unfolding depth encode_segment
child p ordinal =
    let below = depth p + 1 in
    if leb max_depth below
    then err (too_deep below)
    else do segment ← encode_segment ordinal; ok (record { text = p.text ++ separator ∷ segment })

pub parent : TreePath → Option TreePath
unfolding rfind
parent p = elim (rfind separator p.text) [
  | none ↦ none
  | some i ↦ some (record { text = take i p.text })
]

last_segment : Text → Option ℕ → Text
last_segment s none = s
last_segment s (some i) = drop (suc i) s

pub ordinal : TreePath → ℕ
unfolding last_segment rfind decode_segment
ordinal p = decode_segment (last_segment p.text (rfind separator p.text))

under : Option TreePath → ℕ → Result PathError TreePath
unfolding child root
under (some above) next = child above next
under none next = root next

-- `checked_add` on a `u32`, then the same place under the parent.
unfoldable pub next_sibling : TreePath → Result PathError TreePath
unfolding ordinal parent under
next_sibling p =
    let next = ordinal p + 1 in
    if leb u32_mod next then err (ordinal_too_large (u32_mod - 1)) else under (parent p) next

pub is_segment : Text → Bool
is_segment s = length s == segment_width && all (λ b. not (digit_value b == invalid)) s

-- The loop of `parse` over the segments, with the depth counted so far.
pub parse_loop : Text → ℕ → List Text → Result PathError TreePath
unfolding is_segment
parse_loop s level [] = ok (record { text = s })
parse_loop s level (segment ∷ segments) =
    let rest = parse_loop s (level + 1) segments in
    if ltb max_depth (level + 1)
    then err (too_deep (level + 1))
    else if is_segment segment
    then rest
    else err (malformed s segment)

pub parse : Text → Result PathError TreePath
unfolding parse_loop split digit_value
parse [] = err empty
parse (c ∷ s) = parse_loop (c ∷ s) 0 (split separator (c ∷ s))

pub segments : TreePath → List ℕ
unfolding split decode_segment
segments p = map decode_segment (split separator p.text)

-- The loop of `ancestor_at_depth`; `none` where a parent is missing or the fuel is spent.
pub climb : ℕ → ℕ → TreePath → Option TreePath
climb zero target p = if ltb target (depth p) then none else some p
climb (suc fuel) target p =
    let up : Option TreePath = elim (parent p) [
      | none ↦ none
      | some above ↦ climb fuel target above
    ] in
    if ltb target (depth p) then up else some p

-- Each round lowers the depth, so the depth is fuel enough.
unfoldable pub ancestor_at_depth : TreePath → ℕ → Option TreePath
unfolding climb depth parent
ancestor_at_depth p target = if ltb (depth p) target then none else climb (depth p) target p

unfoldable pub starts_with : Text → Text → Bool
starts_with s [] = true
starts_with [] (c ∷ prefix) = false
starts_with (d ∷ s) (c ∷ prefix) = d == c && starts_with s prefix

-- The byte at `length other` is read only where it exists; `&&` of the source does not go on
-- otherwise, and the default is no separator.
pub is_descendant_of : TreePath → TreePath → Bool
unfolding text_eq starts_with
is_descendant_of p other =
    text_eq p.text other.text
    || (ltb (length other.text) (length p.text)
        && get_or p.text (length other.text) 0 == separator
        && starts_with p.text other.text)

pub subtree_end : TreePath → Text
subtree_end p = p.text ++ b'/' ∷ []
