-- ===== src/Merge/Formats/Tests.antt =====
-- Runs of the formats, and the theorem of UUIDs at a concrete one.
use morphic.Base.{
  ℕ, ◌<◌, Bool, true, false, Bytes, codes, length, get_or, ◌≡◌, ◌↔◌, refl, same_text,
}
use morphic.Merge.Formats.{
  uuid_byte, uuid_loop, is_uuid, two_digits, offset_shape, is_offset, past_digits, past_fraction,
  clock_shape,
}
use morphic.Merge.Formats.Uri.{
  uri_bytes_valid, behind_scheme, past_scheme, uri_tail_valid, authority_end, tail_loop,
  ip_literal_placed, bracketed, behind_at, count_byte, index_any, one_of,
}
use morphic.Merge.Formats.Duration.{
  is_duration, parts_valid, cut_last, cut_byte, consecutive_designators, designators, index_byte,
  is_digit_run, all_digits,
}
use morphic.Merge.Formats.Uuid.{InPlace, is_uuid_iff}

-- Its line opens all that `clock_shape` and `is_uuid` call.
run_clock : Bytes → Bool
unfolding clock_shape past_fraction past_digits is_offset offset_shape two_digits same_text is_uuid
    uuid_loop uuid_byte
run_clock s = clock_shape s true

clock_offset : clock_shape (codes "10:20:30.25+05:30") true ≡ true
unfolding run_clock
clock_offset = refl

clock_no_fraction : clock_shape (codes "10:20:30.Z") true ≡ false
unfolding run_clock
clock_no_fraction = refl

clock_wide_offset : clock_shape (codes "10:20:30-24:00") true ≡ false
unfolding run_clock
clock_wide_offset = refl

local_clock : clock_shape (codes "10:20:30") false ≡ true
unfolding run_clock
local_clock = refl

abbrev some_uuid : Bytes
some_uuid = codes "123e4567-e89b-12d3-a456-426614174000"

uuid_read : is_uuid some_uuid ≡ true
unfolding run_clock
uuid_read = refl

is_uuid_iff_example : (is_uuid some_uuid ≡ true) ↔ (
    (length some_uuid ≡ 36) × ((j : ℕ) → j < length some_uuid → InPlace j (get_or some_uuid j 0)))
is_uuid_iff_example = is_uuid_iff some_uuid

-- Its line opens all that `uri_bytes_valid` calls.
run_uri : Bytes → Bool
unfolding uri_bytes_valid behind_scheme past_scheme uri_tail_valid authority_end tail_loop
    ip_literal_placed bracketed behind_at count_byte index_any one_of
run_uri s = uri_bytes_valid s

uri_address : uri_bytes_valid (codes "http://user@[::1]:80/a%20b?c#d") ≡ true
unfolding run_uri
uri_address = refl

uri_no_scheme : uri_bytes_valid (codes "//host/a") ≡ false
unfolding run_uri
uri_no_scheme = refl

uri_half_escape : uri_bytes_valid (codes "urn:a%2") ≡ false
unfolding run_uri
uri_half_escape = refl

uri_two_fragments : uri_bytes_valid (codes "urn:a#b#c") ≡ false
unfolding run_uri
uri_two_fragments = refl

uri_late_bracket : uri_bytes_valid (codes "urn:a[b]") ≡ false
unfolding run_uri
uri_late_bracket = refl

-- Its line opens all that `is_duration` calls.
run_duration : Bytes → Bool
unfolding is_duration parts_valid cut_last cut_byte consecutive_designators designators index_byte
    is_digit_run all_digits
run_duration s = is_duration s

duration_parts : is_duration (codes "P1Y2M3DT4H5M6S") ≡ true
unfolding run_duration
duration_parts = refl

duration_weeks : is_duration (codes "P12W") ≡ true
unfolding run_duration
duration_weeks = refl

duration_gap : is_duration (codes "P1Y3D") ≡ false
unfolding run_duration
duration_gap = refl

duration_no_time : is_duration (codes "P1YT") ≡ false
unfolding run_duration
duration_no_time = refl
