-- ===== src/Ir/Decimal.antt =====
-- ir/decimal.go: the decimal numbers of constraints and values.
-- A string is the list of its bytes, and an index into it is the text from that index on. An int64
-- is an integer of `ℤ` reduced by `int64` after a sum. The `%q` wrapping of an error is left out:
-- only which error it is remains.
pub mod Grammar
pub mod Complete
pub mod Canonical
pub mod Order
pub mod Cmp
pub mod Equality
pub mod Exponent
pub mod Value
pub mod Total
mod Tests
use morphic.Base.{
  ℕ, zero, suc, ◌+◌, ◌-◌, ◌*◌, ◌/◌, ◌%◌, ◌^◌, ◌<◌, Bool, true, false, not, ◌&&◌, ◌||◌, List, [],
  ◌∷◌, ◌++◌, Result, ok, err, Option, some, none, ◌>>=◌, Bytes, compare_text, length, ltb, leb,
  ◌==◌, if◌then◌else◌, compare, Ordering,
}
use morphic.Base.Int.{ℤ, pos, negsuc, ◌+ℤ◌, ltb_ℤ, compare_ℤ, neg_ℤ, sub_ℕ, int64}

abbrev pub max_decimal_exp : ℕ
max_decimal_exp = 999_999_999_999_999_999

abbrev pub exp_saturation : ℕ
exp_saturation = 4_000_000_000_000_000_000

-- The refusals of `ParseDecimal`; `exponent_range` carries the fields of `ExponentRangeError`.
pub data DecimalError : Type 0 where
  not_decimal : DecimalError
  exponent_range : (neg small : Bool) → DecimalError

pub record Decimal : Type 0 where
  pub neg : Bool
  pub digits : Bytes
  pub exp : ℤ

pub record DecimalLiteral : Type 0 where
  pub int_part : Bytes
  pub frac : Bytes
  pub exponent : Bytes
  pub neg : Bool
  pub point : Bool

-- `Decimal{}`, which reads as the number zero.
abbrev pub zero_decimal : Decimal
zero_decimal = record { neg = false; digits = []; exp = pos 0 }

abbrev pub is_ascii_digit : ℕ → Bool
is_ascii_digit b = leb b'0' b && leb b b'9'

-- The run of digits that a text opens with, and the text past it.
unfoldable pub scan_digits : Bytes → Bytes × Bytes
scan_digits [] = ([], [])
scan_digits (c ∷ s) =
    let rest = scan_digits s in if is_ascii_digit c then (c ∷ rest.0, rest.1) else ([], c ∷ s)

-- The optional sign: whether it is a minus, and the text past it.
unfoldable pub scan_sign : Bytes → Bool × Bytes
scan_sign [] = (false, [])
scan_sign (c ∷ s) = if c == b'+' || c == b'-' then (c == b'-', s) else (false, c ∷ s)

-- The point and the digits after it: those digits, whether there is a point, and the text past them.
unfoldable pub scan_fraction : Bytes → Bytes × Bool × Bytes
scan_fraction [] = ([], false, [])
scan_fraction (c ∷ s) =
    let run = scan_digits s in if c == b'.' then (run.0, true, run.1) else ([], false, c ∷ s)

-- The bytes of an exponent's sign, and the text past it.
unfoldable pub scan_exponent_sign : Bytes → Bytes × Bytes
scan_exponent_sign [] = ([], [])
scan_exponent_sign (c ∷ s) = if c == b'+' || c == b'-' then (c ∷ [], s) else ([], c ∷ s)

-- The exponent behind an `e`: the digits are at least one.
unfoldable pub scan_exponent_body : ℕ → Bytes → Option (Bytes × Bytes)
scan_exponent_body e s =
    let (sign, t) = scan_exponent_sign s in
    let (run, rest) = scan_digits t in
    elim run [ [] ↦ none | d ∷ ds ↦ some (e ∷ (sign ++ d ∷ ds), rest) ]

unfoldable pub scan_exponent : Bytes → Option (Bytes × Bytes)
scan_exponent [] = some ([], [])
scan_exponent (c ∷ s) = if c == b'e' || c == b'E' then scan_exponent_body c s else some ([], c ∷ s)

-- What is left when the exponent is read must be nothing.
unfoldable pub finish_literal : Bool → Bytes → Bytes → Bool → Bytes × Bytes → Option DecimalLiteral
finish_literal neg int_part frac point (exponent, []) =
    some
      (record { int_part = int_part; frac = frac; exponent = exponent; neg = neg; point = point })
finish_literal neg int_part frac point (exponent, c ∷ s) = none

-- Some digit must stand before or behind the point.
unfoldable pub scan_tail : Bool → Bytes → Bytes → Bool → Bytes → Option DecimalLiteral
scan_tail neg [] [] point s = none
scan_tail neg [] (d ∷ frac) point s = elim (scan_exponent s) [
  | none ↦ none
  | some p ↦ finish_literal neg [] (d ∷ frac) point p
]
scan_tail neg (d ∷ int_part) frac point s = elim (scan_exponent s) [
  | none ↦ none
  | some p ↦ finish_literal neg (d ∷ int_part) frac point p
]

unfoldable pub scan_decimal : Bytes → Option DecimalLiteral
scan_decimal s =
    let (neg, unsigned) = scan_sign s in
    let (int_part, behind) = scan_digits unsigned in
    let (frac, point, rest) = scan_fraction behind in scan_tail neg int_part frac point rest

-- `body[i]-'0'` is a subtraction of bytes.
abbrev pub digit_of : ℕ → ℕ
digit_of c = (c + 256 - b'0') % 256

-- The loop of `exponentValue`; it holds a number that is not negative, so an int64 is a word here.
unfoldable pub accumulate : ℕ → Bytes → ℕ
accumulate e [] = e
accumulate e (c ∷ s) =
    let rest = accumulate ((e * 10 + digit_of c) % 2 ^ 64) s in
    if leb (exp_saturation / 10) e then exp_saturation else rest

-- A text of the mark alone is one `scan_decimal` never makes.
unfoldable pub exponent_value : Bytes → ℤ
exponent_value [] = pos 0
exponent_value (mark ∷ []) = pos 0
exponent_value (mark ∷ c ∷ body) =
    if c == b'-'
    then neg_ℤ (pos (accumulate 0 body))
    else pos (accumulate 0 (if c == b'+' then body else c ∷ body))

-- `strings.TrimLeft(s, "0")` and `strings.TrimRight(s, "0")`.
unfoldable pub trim_left : Bytes → Bytes
trim_left [] = []
trim_left (c ∷ s) = let rest = trim_left s in if c == b'0' then rest else c ∷ s

-- `keep_digit` puts a byte before what the trim leaves of the bytes behind it.
unfoldable pub keep_digit : ℕ → Bytes → Bytes
keep_digit c [] = if c == b'0' then [] else c ∷ []
keep_digit c (d ∷ t) = c ∷ d ∷ t

unfoldable pub trim_right : Bytes → Bytes
trim_right [] = []
trim_right (c ∷ s) = keep_digit c (trim_right s)

unfoldable pub leading_zeros : DecimalLiteral → ℕ
leading_zeros l =
    let zeros = length l.int_part - length (trim_left l.int_part) in
    if zeros == length l.int_part
    then zeros + (length l.frac - length (trim_left l.frac))
    else zeros

unfoldable pub lead_exponent : DecimalLiteral → Result DecimalError ℤ
lead_exponent l =
    let zeros = leading_zeros l in
    let exp = int64 (exponent_value l.exponent +ℤ sub_ℕ (length l.int_part) (zeros + 1)) in
    if zeros == length l.int_part + length l.frac
    then ok (pos 0)
    else if ltb_ℤ (pos max_decimal_exp) exp || ltb_ℤ exp (negsuc (max_decimal_exp - 1))
    then err (exponent_range l.neg (ltb_ℤ exp (pos 0)))
    else ok exp

-- The decimal of a sign, an exponent and the digits from the leading one on.
unfoldable pub of_lead : Bool → ℤ → Bytes → Decimal
of_lead neg exp [] = zero_decimal
of_lead neg exp (c ∷ s) = record { neg = neg; digits = trim_right (c ∷ s); exp = exp }

unfoldable pub decimal : DecimalLiteral → ℤ → Decimal
decimal l exp = of_lead l.neg exp (trim_left (l.int_part ++ l.frac))

-- `readDecimal`: the split, and the power of ten of its leading digit.
unfoldable pub read_decimal : Bytes → Result DecimalError (DecimalLiteral × ℤ)
read_decimal s = elim (scan_decimal s) [
  | none ↦ err not_decimal
  | some l ↦ lead_exponent l >>= λ exp. ok (l, exp)
]

unfoldable pub parse_decimal : Bytes → Result DecimalError Decimal
parse_decimal s = read_decimal s >>= λ r. ok (decimal r.0 r.1)

-- -1, 0 or +1, as the number is negative, zero or positive: `lt`, `eq` or `gt`.
unfoldable pub sign : Decimal → Ordering
sign d = elim d.digits [ [] ↦ Ordering.eq | c ∷ s ↦ if d.neg then Ordering.lt else Ordering.gt ]

abbrev pub rank : Ordering → ℕ
rank Ordering.lt = 0
rank Ordering.eq = 1
rank Ordering.gt = 2

-- `-order`.
abbrev pub opposite : Ordering → Ordering
opposite Ordering.lt = Ordering.gt
opposite Ordering.eq = Ordering.eq
opposite Ordering.gt = Ordering.lt

-- `order`, or what `next` says where it is 0.
abbrev pub or_else : Ordering → Ordering → Ordering
or_else Ordering.lt next = Ordering.lt
or_else Ordering.eq next = next
or_else Ordering.gt next = Ordering.gt

-- The comparison of two numbers that have one sign and digits: exponents first, then digits.
unfoldable pub cmp_magnitude : Decimal → Decimal → Ordering
cmp_magnitude d e = or_else (compare_ℤ d.exp e.exp) (compare_text d.digits e.digits)

unfoldable pub cmp : Decimal → Decimal → Ordering
cmp d e = or_else (compare (rank (sign d)) (rank (sign e))) (elim d.digits [
  | [] ↦ Ordering.eq
  | c ∷ s ↦ if d.neg then opposite (cmp_magnitude d e) else cmp_magnitude d e
])

unfoldable pub is_int : Decimal → Bool
is_int d = elim d.digits [ [] ↦ true | c ∷ s ↦ not (ltb_ℤ d.exp (pos (length s))) ]

-- The sign and the integrality of a value that `exponent_range` refuses.
unfoldable pub range_sign : (neg small : Bool) → Ordering
range_sign neg small = if neg then Ordering.lt else Ordering.gt

unfoldable pub range_is_int : (neg small : Bool) → Bool
range_is_int neg small = not small
