-- ===== src/Ids/Examples.antt =====
-- Concrete ids, and the witnesses of their properties.
use notespace.Base.{◌+◌, ◌-◌, ◌<◌, ◌%◌, ◌^◌, ◌≡◌, refl, arith, codes, ◌↔◌, ok, err, compare_list}
use Prim.Native.Nat.{Ordering}
use notespace.Ids.{
  PublicId, new_id, with_width, from_u128, parse_id, render, render_from, shifted, random_bits,
  payload_bits, to_u128, timestamp_ms, random, width, encode_grouped, read_chars, check_read,
  id_value, id_char, head_value, last_value, read_digit, reserved_bits_set,
}
use notespace.Ids.Parsing.{ParsesTo, parse_id_iff}
use notespace.Ids.Made.{by_width, with_width-fields, parse_id-Made}
use notespace.Ids.Ordering.{compare-timestamp}

-- The first second of 2025, with two choices of random bits.
abbrev first_id : PublicId
first_id = record { written = codes "06a1yabw0000000z" }

abbrev later_id : PublicId
later_id = record { written = codes "06a1yabw04000000000000" }

first_made : new_id 1735689600000 31 ≡ ok first_id
unfolding new_id with_width random_bits render render_from shifted id_char
first_made = refl

first_made_wide : with_width 1735689600000 31 16 ≡ ok first_id
unfolding with_width random_bits render render_from shifted id_char
first_made_wide = refl

abbrev counted_id : PublicId
counted_id = record { written = codes "000000000000000000000003x0" }

counted_made : from_u128 1000 26 ≡ ok counted_id
unfolding from_u128 random_bits render render_from shifted id_char
counted_made = refl

earlier : timestamp_ms first_id < timestamp_ms later_id
unfolding timestamp_ms to_u128 head_value last_value read_digit id_value
earlier = omega arith

later_made : with_width 1735689600001 0 22 ≡ ok later_id
unfolding with_width random_bits render render_from shifted id_char
later_made = refl

first_fields : (timestamp_ms first_id ≡ 1735689600000) × (random first_id ≡ 31)
unfolding timestamp_ms random to_u128 head_value last_value read_digit id_value
first_fields = (refl, refl)

parse_careless : parse_id (codes "O6AL-YABW-OO00-000Z") ≡ ok first_id
unfolding parse_id read_chars check_read id_value id_char last_value
parse_careless = refl

parse_spare : parse_id (codes "0123456789abcdefghjkmnpqr1") ≡ err reserved_bits_set
unfolding parse_id read_chars check_read id_value id_char last_value
parse_spare = refl

with_width-fields_example :
    (id : PublicId) × (with_width 1735689600000 (2 ^ 40 + 7) 16 ≡ ok id)
    × (timestamp_ms id ≡ 1735689600000)
    × (random id ≡ (2 ^ 40 + 7) % 2 ^ (payload_bits 16 - 48))
    × (width id ≡ 16)
with_width-fields_example =
    with_width-fields 1735689600000 (2 ^ 40 + 7) 16 (omega arith) (omega arith) (omega arith)

parse_id-Made_example :
    (parse_id first_id.written ≡ ok first_id) × (parse_id (encode_grouped first_id) ≡ ok first_id)
parse_id-Made_example = parse_id-Made first_id (by_width 1735689600000 31 16 first_made_wide)

parse_id_iff_example :
    (parse_id (codes "O6AL-YABW-OO00-000Z") ≡ ok first_id)
    ↔ ParsesTo (codes "O6AL-YABW-OO00-000Z") first_id
parse_id_iff_example = parse_id_iff (codes "O6AL-YABW-OO00-000Z") first_id

compare-timestamp_example : compare_list first_id.written later_id.written ≡ Ordering.lt
compare-timestamp_example =
    compare-timestamp first_id later_id (by_width 1735689600000 31 16 first_made_wide)
      (by_width 1735689600001 0 22 later_made) earlier
