-- ===== src/Ir/BigVal.antt =====
-- ir/bigval.go: numeric literals kept as text, in the form that JSON writes.
use morphic.Base.{
  ℕ, ◌||◌, Bool, true, false, [], ◌∷◌, ◌++◌, Result, ok, ◌>>=◌, Bytes, ◌&&◌, not, if◌then◌else◌,
  same_text, codes, ◌==◌,
}
use morphic.Ir.Decimal.{
  Decimal, DecimalLiteral, DecimalError, read_decimal, parse_decimal, trim_left,
}

-- A `BigVal` is its text.
abbrev pub BigVal : Type 0
BigVal = Bytes

abbrev pub is_nil : Bytes → Bool
is_nil [] = true
is_nil (c ∷ s) = false

abbrev pub starts_with : Bytes → (c : ℕ) → Bool
starts_with [] c = false
starts_with (d ∷ s) c = d == c

-- Two flags are one.
abbrev same_flag : Bool → Bool → Bool
same_flag true b = b
same_flag false b = not b

unfoldable pub spelled_for_json : DecimalLiteral → Bytes → Bool
spelled_for_json l s =
    let whole =
      same_text l.int_part (codes "0")
      || not (is_nil l.int_part) && not (starts_with l.int_part b'0') in
    whole && not (starts_with s b'+') && same_flag l.point (not (is_nil l.frac))

-- The integer part's digits, with the one leading digit that JSON wants.
pub json_whole : Bytes → Bytes
json_whole [] = b'0' ∷ []
json_whole (c ∷ s) = c ∷ s

pub json_fraction : Bytes → Bytes
json_fraction [] = []
json_fraction (c ∷ s) = b'.' ∷ c ∷ s

unfoldable pub json_spelling : DecimalLiteral → Bytes
json_spelling l =
    (if l.neg then b'-' ∷ [] else [])
    ++ (json_whole (trim_left l.int_part) ++ (json_fraction l.frac ++ l.exponent))

unfoldable pub new_big_val : Bytes → Result DecimalError BigVal
new_big_val s = read_decimal s >>= λ r. ok (if spelled_for_json r.0 s then s else json_spelling r.0)

abbrev pub decimal_of : BigVal → Result DecimalError Decimal
decimal_of v = parse_decimal v
