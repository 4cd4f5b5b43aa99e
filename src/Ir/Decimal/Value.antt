-- ===== src/Ir/Decimal/Value.antt =====
-- `ParseDecimal` keeps the number: what it returns is the number that the text spells.
use native.Mathlib.Nat.{pow-zero}
use mathlib.Core.List.{cons-ne-nil}
use morphic.Base.{
  ℕ, suc, ◌+◌, ◌-◌, ◌*◌, ◌^◌, ◌≤◌, ◌<◌, Bool, true, false, [], ◌∷◌, ◌++◌, ◌≡◌, ◌≢◌, inl, inr, refl,
  ap, sym, ◌∙◌, arith, Bytes, All, length, length_pos, length-append, ◌==◌, if◌then◌else◌,
  Bool-cases, All-append, some, ok,
}
use morphic.Base.Int.{
  ℤ, pos, neg_ℤ, sub_ℕ, sub_ℕ_parts, ◌+ℤ◌, +ℤ_parts, eq_of_parts, pos_part, neg_part,
}
use morphic.Base.Numbers.{pow_add}
use morphic.Ir.Decimal.{
  Decimal, DecimalLiteral, keep_digit, trim_left, trim_right, of_lead, decimal, leading_zeros,
  scan_decimal, parse_decimal,
}
use morphic.Ir.Decimal.Canonical.{parse_decimal_ok, trim_left-All}
use morphic.Ir.Decimal.Cmp.{AtScale, units, signed}
use morphic.Ir.Decimal.Exponent.{exponent_number, lead_exponent_unbounded, lead_exponent_exact}
use morphic.Ir.Decimal.Grammar.{IsDigit, point_text, scan_decimal_sound}
use morphic.Ir.Decimal.Order.{value}

trim_left-le : (s : Bytes) → length (trim_left s) ≤ length s
unfolding trim_left
trim_left-le [] = omega arith
trim_left-le (c ∷ s) = ground (arith, trim_left-le s)

trim_left-value : (s : Bytes) → value (trim_left s) ≡ value s
unfolding trim_left
trim_left-value [] = refl
trim_left-value (c ∷ s) = elim (Bool-cases (c == b'0')) [
  | inl e ↦ let p : c ≡ b'0' = ground arith in rw p (omega (arith, trim_left-value s))
  | inr e ↦ rw e
]

-- The zeros of the second run count only where the first holds nothing else.
trim_left-append :
    (s t : Bytes)
    → length (trim_left (s ++ t)) ≡ (
        if length (trim_left s) == 0 then length (trim_left t) else length (trim_left s) + length t)
unfolding trim_left
trim_left-append [] t = refl
trim_left-append (c ∷ s) t = ground (arith, trim_left-append s t, length-append s t)

keep_digit-le : (c : ℕ) (t : Bytes) → length (keep_digit c t) ≤ suc (length t)
unfolding keep_digit
keep_digit-le c [] = ground arith
keep_digit-le c (d ∷ t) = omega arith

trim_right-le : (s : Bytes) → length (trim_right s) ≤ length s
unfolding trim_right
trim_right-le [] = omega arith
trim_right-le (c ∷ s) = omega (arith, keep_digit-le c (trim_right s), trim_right-le s)

-- A digit before the rest of a number whose trailing zeros are cut.
keep_digit-value :
    (c : ℕ) (t : Bytes) (n v : ℕ)
    → b'0' ≤ c
    → length t ≤ n
    → value t * 10 ^ (n - length t) ≡ v
    → value (keep_digit c t) * 10 ^ (suc n - length (keep_digit c t)) ≡ (c - b'0') * 10 ^ n + v
unfolding keep_digit
keep_digit-value c [] n v hc le e = elim (Bool-cases (c == b'0')) [
  | inl z ↦ let p : c ≡ b'0' = ground arith in rw p (omega arith)
  | inr z ↦ let p : suc n - 1 ≡ n = omega arith in rw (z, p) (omega (arith, pow-zero 10))
]
keep_digit-value c (d ∷ t) n v hc le e =
    let p : suc n - suc (length (d ∷ t)) ≡ n - length (d ∷ t) = omega arith in
    let q : n ≡ length (d ∷ t) + (n - length (d ∷ t)) = omega arith in
    let split : 10 ^ n ≡ 10 ^ length (d ∷ t) * 10 ^ (n - length (d ∷ t)) =
      ap (λ m. 10 ^ m) q ∙ pow_add 10 (length (d ∷ t)) (n - length (d ∷ t)) in
    rw (p, split) (omega arith)

-- The zeros cut from the end are the power of ten between the two numbers.
trim_right-value :
    (s : Bytes)
    → All IsDigit s
    → value (trim_right s) * 10 ^ (length s - length (trim_right s)) ≡ value s
unfolding trim_right
trim_right-value [] h = omega arith
trim_right-value (c ∷ s) (hc, hs) =
    keep_digit-value c (trim_right s) (length s) (value s) hc.0 (trim_right-le s)
      (trim_right-value s hs)

leading_zeros_lem :
    (l : DecimalLiteral)
    → leading_zeros l + length (trim_left (l.int_part ++ l.frac))
      ≡ length l.int_part + length l.frac
unfolding leading_zeros
leading_zeros_lem l =
    ground (arith, trim_left-append l.int_part l.frac, trim_left-le l.int_part, trim_left-le l.frac)

of_lead-value :
    (neg : Bool) (e low : ℤ) (t : Bytes)
    → All IsDigit t
    → (t ≢ [] → e +ℤ pos 1 ≡ low +ℤ pos (length t))
    → AtScale low (of_lead neg e t) (length t - length (trim_right t))
      × (units (of_lead neg e t) (length t - length (trim_right t)) ≡ signed neg (value t))
unfolding of_lead
of_lead-value neg e low [] h place = (inl refl, unfold neg_ℤ in ground arith)
of_lead-value neg e low (c ∷ s) h place =
    let t = c ∷ s in
    let whole : length (trim_right t) + (length t - length (trim_right t)) ≡ length t =
      omega (arith, trim_right-le t) in
    (
      inr (place (cons-ne-nil c s) ∙ ap (λ n. low +ℤ pos n) (sym whole)),
      ap (signed neg) (trim_right-value t h),
    )

-- The power of ten of a literal's last digit.
abbrev pub last_place : DecimalLiteral → ℤ
last_place l = exponent_number l.exponent +ℤ sub_ℕ 0 (length l.frac)

unbounded_ok :
    (l : DecimalLiteral) {e : ℤ}
    → lead_exponent_unbounded l ≡ ok e
    → leading_zeros l ≢ length l.int_part + length l.frac
    → exponent_number l.exponent +ℤ sub_ℕ (length l.int_part) (leading_zeros l + 1) ≡ e
unfolding lead_exponent_unbounded
unbounded_ok l h ne = ground arith

lead_place :
    (l : DecimalLiteral) {e : ℤ}
    → lead_exponent_unbounded l ≡ ok e
    → trim_left (l.int_part ++ l.frac) ≢ []
    → e +ℤ pos 1 ≡ last_place l +ℤ pos (length (trim_left (l.int_part ++ l.frac)))
lead_place l {e} h ne =
    let number = exponent_number l.exponent in
    let i = length l.int_part in
    let z = leading_zeros l in
    let left = length_pos (trim_left (l.int_part ++ l.frac)) ne in
    let led = unbounded_ok l h (λ all. absurd (omega (arith, leading_zeros_lem l))) in
    eq_of_parts _ _ (
      omega (
        arith,
        ap pos_part led,
        ap neg_part led,
        leading_zeros_lem l,
        +ℤ_parts e (pos 1),
        +ℤ_parts number (sub_ℕ i (z + 1)),
        sub_ℕ_parts i (z + 1),
        +ℤ_parts number (sub_ℕ 0 (length l.frac)),
        sub_ℕ_parts 0 (length l.frac),
        +ℤ_parts (last_place l) (pos (length (trim_left (l.int_part ++ l.frac)))),
      ))

frac-le :
    (point : Bool) (frac : Bytes)
    → (point ≡ false → frac ≡ [])
    → length frac ≤ length (point_text point frac)
frac-le true frac h = omega arith
frac-le false frac h = rw (h refl) (omega arith)

spelled_size :
    (s : Bytes) (l : DecimalLiteral)
    → scan_decimal s ≡ some l
    → length l.int_part + length l.frac ≤ length s
spelled_size s l h =
    let (form, found) = scan_decimal_sound s l h in
    let (sgn, sign, spelled) = found in
    let behind = point_text l.point l.frac ++ l.exponent in
    rw spelled (
      omega (
        arith,
        length-append sgn (l.int_part ++ behind),
        length-append l.int_part behind,
        length-append (point_text l.point l.frac) l.exponent,
        frac-le l.point l.frac form.no_point,
      ))

-- What `ParseDecimal` returns for a text is the number that the text spells: the split it scanned
-- gives an integer and the power of ten of its last digit, and the result is that integer, with the
-- literal's sign, in units of that power.
pub parse_decimal-value :
    (s : Bytes) {d : Decimal}
    → length s < 2 ^ 60
    → parse_decimal s ≡ ok d
    → (l : DecimalLiteral) × (k : ℕ) × (scan_decimal s ≡ some l)
      × AtScale (last_place l) d k
      × (units d k ≡ signed l.neg (value (l.int_part ++ l.frac)))
parse_decimal-value s {d} size h =
    let (l, e, scanned, led, made) = parse_decimal_ok s h in
    let form = (scan_decimal_sound s l scanned).0 in
    let exact = lead_exponent_exact l form (omega (arith, spelled_size s l scanned)) in
    let t = trim_left (l.int_part ++ l.frac) in
    let digits =
      trim_left-All (l.int_part ++ l.frac)
        (All-append IsDigit l.int_part l.frac form.ints form.fracs) in
    let (scale, number) =
      of_lead-value l.neg e (last_place l) t digits (lead_place l (sym exact ∙ led)) in
    (
      l,
      length t - length (trim_right t),
      scanned,
      rw (← made) (unfold decimal in scale),
      rw (← made)
          (unfold decimal in number ∙ ap (signed l.neg) (trim_left-value (l.int_part ++ l.frac))),
    )
