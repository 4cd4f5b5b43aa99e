-- ===== src/Merge/Numbers.antt =====
-- The numbers of compilers/openapi/internal/merge/constraints.go and multiple.go: comparison of
-- literals, multiples and the common multiple of two steps.
-- A `big.Int` is a natural number: the coefficients are not negative.
use morphic.Base.{
  ℕ, ◌+◌, ◌*◌, ◌/◌, ◌%◌, ◌^◌, Bool, true, false, [], ◌∷◌, ◌++◌, Option, none, some, Result, ok, err,
  Bytes, Ordering, min, length, ltb, ◌==◌, ◌||◌, ◌&&◌, if◌then◌else◌, same_text,
}
use morphic.Base.Format.{format_nat, format_int, gcd}
use morphic.Base.Int.{ℤ, pos, ◌+ℤ◌, ◌-ℤ◌, sub_ℕ, int64, ltb_ℤ, pos_part}
use morphic.Ir.BigVal.{BigVal, decimal_of, new_big_val}
use morphic.Ir.Decimal.{Decimal, DecimalError, cmp, sign}
use morphic.Ir.Decimal.Order.{value}

-- Both texts as decimals, where both are.
unfoldable pub both_decimals :
    Result DecimalError Decimal → Result DecimalError Decimal → Option (Decimal × Decimal)
both_decimals (ok a) (ok b) = some (a, b)
both_decimals (ok a) (err e) = none
both_decimals (err e) b = none

-- `none` is the answer of no order.
unfoldable pub compare_numbers : BigVal → BigVal → Option Ordering
compare_numbers a b =
    if same_text a b then some Ordering.eq else elim (both_decimals (decimal_of a) (decimal_of b)) [
      | none ↦ none
      | some p ↦ some (cmp p.0 p.1)
    ]

unfoldable pub same_number : BigVal → BigVal → Bool
same_number a b = elim (compare_numbers a b) [
  | none ↦ false
  | some o ↦ elim o [ Ordering.eq ↦ true | _ ↦ false ]
]

unfoldable pub larger_number : BigVal → BigVal → Option BigVal
larger_number x y = elim (compare_numbers x y) [
  | none ↦ none
  | some o ↦ elim o [ Ordering.lt ↦ some y | _ ↦ some x ]
]

unfoldable pub smaller_number : BigVal → BigVal → Option BigVal
smaller_number x y = elim (compare_numbers x y) [
  | none ↦ none
  | some o ↦ elim o [ Ordering.gt ↦ some y | _ ↦ some x ]
]

abbrev pub step_factors_per_digit : ℕ
step_factors_per_digit = 4

abbrev pub max_step_digits : ℕ
max_step_digits = 1024

-- The integer that the digits spell.
unfoldable pub coefficient : Decimal → ℕ
coefficient d = value d.digits

unfoldable pub scaled : Decimal → ℕ → ℕ
scaled d k = coefficient d * 10 ^ k

unfoldable pub lowest_exponent : Decimal → ℤ
lowest_exponent d = int64 (d.exp +ℤ sub_ℕ 1 (length d.digits))

-- The powers of ten that are multiplied out: `shift` is not negative here.
abbrev pub shifted : ℤ → Decimal → ℕ
shifted shift m = min (pos_part shift) (step_factors_per_digit * length m.digits)

-- Whether `v` is a multiple of `m`; `none` where `m` is zero.
unfoldable pub is_multiple_of : Decimal → Decimal → Option Bool
is_multiple_of v m =
    let shift = int64 (lowest_exponent v -ℤ lowest_exponent m) in
    let divides = scaled v (shifted shift m) % coefficient m == 0 in
    elim (sign m) [
      | Ordering.eq ↦ none
      | _ ↦ elim (sign v) [
        | Ordering.eq ↦ some true
        | _ ↦ some (if ltb_ℤ shift (pos 0) then false else divides)
      ]
    ]

-- The common multiple of two positive numbers, `a`'s last digit standing no lower than `b`'s.
pub common_multiple : Decimal → Decimal → Bytes
common_multiple a b =
    let shift = int64 (lowest_exponent a -ℤ lowest_exponent b) in
    let k = shifted shift b in
    let x = scaled a k in
    let y = coefficient b in
    let exp = int64 (lowest_exponent a -ℤ pos k) in
    format_nat (x / gcd x y * y)
    ++ (if ltb_ℤ exp (pos 0) || ltb_ℤ (pos 0) exp then b'e' ∷ format_int exp else [])

unfoldable pub least_common_multiple : Decimal → Decimal → Bytes
least_common_multiple a b =
    if ltb_ℤ (lowest_exponent a) (lowest_exponent b)
    then common_multiple b a
    else common_multiple a b

abbrev pub is_positive : Ordering → Bool
is_positive Ordering.gt = true
is_positive Ordering.eq = false
is_positive Ordering.lt = false

abbrev pub says_multiple : Option Bool → Bool
says_multiple (some true) = true
says_multiple (some false) = false
says_multiple none = false

-- `commonStep` on two decimals that differ as texts.
pub common_step_of : BigVal → BigVal → Decimal → Decimal → Option BigVal
common_step_of x y a b =
    if ltb max_step_digits (length a.digits + length b.digits)
    then none
    else if says_multiple (is_multiple_of a b)
    then some x
    else if says_multiple (is_multiple_of b a)
    then some y
    else elim (new_big_val (least_common_multiple a b)) [ ok v ↦ some v | err e ↦ none ]

unfoldable pub common_step : BigVal → BigVal → Option BigVal
common_step x y =
    if same_text x y then some x else elim (both_decimals (decimal_of x) (decimal_of y)) [
      | none ↦ none
      | some p ↦
          let step = common_step_of x y p.0 p.1 in
          if is_positive (sign p.0) && is_positive (sign p.1) then step else none
    ]
