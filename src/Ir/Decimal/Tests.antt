-- ===== src/Ir/Decimal/Tests.antt =====
-- Runs of ir/decimal.go on literals, and its theorems at concrete inputs.
use morphic.Base.{
  ℕ, ◌^◌, ◌<◌, codes, [], ◌++◌, Bytes, Result, ok, err, some, refl, ◌≡◌, inr, true, false, arith,
}
use morphic.Base.Int.{pos, negsuc, neg_ℤ, ◌+ℤ◌, int64, compare_ℤ}
use morphic.Ir.Decimal.{
  parse_decimal, not_decimal, exponent_range, zero_decimal, Decimal, DecimalError, read_decimal,
  scan_decimal, scan_sign, scan_digits, scan_fraction, scan_exponent, scan_tail, scan_exponent_sign,
  scan_exponent_body, finish_literal, lead_exponent, leading_zeros, exponent_value, accumulate,
  trim_left, trim_right, keep_digit, of_lead, decimal, DecimalLiteral, cmp,
}
use morphic.Ir.Decimal.Grammar.{IsLiteral, Sign, unsigned_text, scan_decimal_sound}
use morphic.Ir.Decimal.Complete.{scan_decimal_complete}
use morphic.Ir.Decimal.Canonical.{IsCanonical, parse_decimal-IsCanonical}
use morphic.Ir.Decimal.Order.{value}
use morphic.Ir.Decimal.Cmp.{AtScale, units, signed, cmp-units}
use morphic.Ir.Decimal.Exponent.{lead_exponent_unbounded, lead_exponent_exact}
use morphic.Ir.Decimal.Value.{last_place, parse_decimal-value}

abbrev fifteen_hundred : Decimal
fifteen_hundred = record { neg = false; digits = codes "15"; exp = pos 3 }

-- Its line opens all that `parse_decimal` calls.
run_parse : Bytes → Result DecimalError Decimal
unfolding parse_decimal read_decimal scan_decimal scan_sign scan_digits scan_fraction scan_exponent
    scan_tail scan_exponent_sign scan_exponent_body finish_literal lead_exponent leading_zeros
    exponent_value accumulate neg_ℤ ◌+ℤ◌ int64 trim_left trim_right keep_digit of_lead decimal
run_parse s = parse_decimal s

parse_1500 : parse_decimal (codes "1500") ≡ ok fifteen_hundred
unfolding run_parse
parse_1500 = refl

parse_spellings : parse_decimal (codes "+0015.00e2") ≡ ok fifteen_hundred
unfolding run_parse
parse_spellings = refl

parse_small :
    parse_decimal (codes "-0.05") ≡ ok (record { neg = true; digits = codes "5"; exp = negsuc 1 })
unfolding run_parse
parse_small = refl

parse_zero : parse_decimal (codes "-0.0e99999999999999999999") ≡ ok zero_decimal
unfolding run_parse
parse_zero = refl

parse_binary : parse_decimal (codes "1p4") ≡ err not_decimal
unfolding run_parse
parse_binary = refl

parse_wide : parse_decimal (codes "-1e-99999999999999999999") ≡ err (exponent_range true true)
unfolding run_parse
parse_wide = refl

parse_last :
    parse_decimal (codes "1e-999999999999999999")
    ≡ ok (record { neg = false; digits = codes "1"; exp = negsuc 999_999_999_999_999_998 })
unfolding run_parse
parse_last = refl

abbrev minus_small : Decimal
minus_small = record { neg = true; digits = codes "5"; exp = negsuc 1 }

abbrev small_literal : DecimalLiteral
small_literal = record {
  int_part = codes "0";
  frac = codes "05";
  exponent = [];
  neg = true;
  point = true;
}

scan_small : scan_decimal (codes "-0.05") ≡ some small_literal
unfolding run_parse
scan_small = refl

small_size : 3 < 2 ^ 60
small_size = omega arith

short_text : 5 < 2 ^ 60
short_text = omega arith

fifteen_hundred-AtScale : AtScale (negsuc 1) fifteen_hundred 4
unfolding ◌+ℤ◌
fifteen_hundred-AtScale = inr refl

minus_small-AtScale : AtScale (negsuc 1) minus_small 0
unfolding ◌+ℤ◌
minus_small-AtScale = inr refl

fifteen_hundred-IsCanonical : IsCanonical fifteen_hundred
fifteen_hundred-IsCanonical = parse_decimal-IsCanonical (codes "1500") parse_1500

minus_small-IsCanonical : IsCanonical minus_small
minus_small-IsCanonical = parse_decimal-IsCanonical (codes "-0.05") parse_small

cmp-units_example :
    cmp fifteen_hundred minus_small ≡ compare_ℤ (units fifteen_hundred 4) (units minus_small 0)
cmp-units_example =
    cmp-units fifteen_hundred minus_small (negsuc 1) 4 0 fifteen_hundred-IsCanonical
      minus_small-IsCanonical fifteen_hundred-AtScale minus_small-AtScale

parse_decimal-value_example :
    (l : DecimalLiteral) × (k : ℕ) × (scan_decimal (codes "-0.05") ≡ some l)
    × AtScale (last_place l) minus_small k
    × (units minus_small k ≡ signed l.neg (value (l.int_part ++ l.frac)))
parse_decimal-value_example = parse_decimal-value (codes "-0.05") short_text parse_small

scan_decimal_sound_example :
    IsLiteral small_literal
    × ((sgn : Bytes) × Sign true sgn × (codes "-0.05" ≡ sgn ++ unsigned_text small_literal))
scan_decimal_sound_example = scan_decimal_sound (codes "-0.05") small_literal scan_small

scan_decimal_complete_example :
    scan_decimal (codes "-" ++ unsigned_text small_literal) ≡ some small_literal
scan_decimal_complete_example =
    scan_decimal_complete small_literal (codes "-")
      (scan_decimal_sound (codes "-0.05") small_literal scan_small).0 Sign.minus

lead_exponent_exact_example : lead_exponent small_literal ≡ lead_exponent_unbounded small_literal
lead_exponent_exact_example =
    lead_exponent_exact small_literal
      (scan_decimal_sound (codes "-0.05") small_literal scan_small).0 small_size

parse_decimal-IsCanonical_example : IsCanonical fifteen_hundred
parse_decimal-IsCanonical_example = parse_decimal-IsCanonical (codes "+0015.00e2") parse_spellings
