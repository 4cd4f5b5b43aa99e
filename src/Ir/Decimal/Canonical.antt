-- ===== src/Ir/Decimal/Canonical.antt =====
-- The invariant of `Decimal` that its comment states, and that `ParseDecimal` establishes it.
use morphic.Base.{
  ℕ, ◌≤◌, Bool, [], ◌∷◌, ◌++◌, some, ok, ◌≡◌, ◌≢◌, refl, arith, Bytes, All, ◌==◌, Bool-cases,
  Option-cases, Result-cases, All-append, inl, inr,
}
use morphic.Base.Int.{ℤ, pos_part, neg_part}
use morphic.Ir.Decimal.{
  Decimal, DecimalLiteral, trim_left, trim_right, keep_digit, decimal, of_lead, lead_exponent,
  read_decimal, parse_decimal, max_decimal_exp, scan_decimal, zero_decimal,
}
use morphic.Ir.Decimal.Grammar.{IsDigit, scan_decimal_sound}

abbrev pub NoLeadingZero : Bytes → Type 0
NoLeadingZero [] = Unit
NoLeadingZero (c ∷ s) = c ≢ b'0'

abbrev pub NoTrailingZero : Bytes → Type 0
NoTrailingZero [] = Unit
NoTrailingZero (c ∷ []) = c ≢ b'0'
NoTrailingZero (c ∷ d ∷ s) = NoTrailingZero (d ∷ s)

-- Digits with no zero at either end; no digits is the one zero; the exponent is in range.
pub record IsCanonical (d : Decimal) : Type 0 where
  pub ascii : All IsDigit d.digits
  pub leads : NoLeadingZero d.digits
  pub trails : NoTrailingZero d.digits
  pub one_zero : d.digits ≡ [] → d ≡ zero_decimal
  pub high : pos_part d.exp ≤ max_decimal_exp
  pub low : neg_part d.exp ≤ max_decimal_exp

pub trim_left-NoLeadingZero : (s : Bytes) → NoLeadingZero (trim_left s)
unfolding trim_left
trim_left-NoLeadingZero [] = tt
trim_left-NoLeadingZero (c ∷ s) = elim (Bool-cases (c == b'0')) [
  | inl e ↦ rw e (trim_left-NoLeadingZero s)
  | inr e ↦ rw e (ground arith)
]

pub trim_left-All : (s : Bytes) → All IsDigit s → All IsDigit (trim_left s)
unfolding trim_left
trim_left-All [] h = tt
trim_left-All (c ∷ s) (hc, hs) = elim (Bool-cases (c == b'0')) [
  | inl e ↦ rw e (trim_left-All s hs)
  | inr e ↦ rw e (hc, hs)
]

keep_digit-cons : (c : ℕ) (t : Bytes) → c ≢ b'0' → keep_digit c t ≡ c ∷ t
unfolding keep_digit
keep_digit-cons c [] h = ground arith
keep_digit-cons c (d ∷ t) h = refl

-- A leading digit that is no zero is kept by the trim at the other end.
pub trim_right-cons : (c : ℕ) (s : Bytes) → c ≢ b'0' → trim_right (c ∷ s) ≡ c ∷ trim_right s
trim_right-cons c s h = unfold trim_right in keep_digit-cons c (trim_right s) h

keep_digit-All : (c : ℕ) (t : Bytes) → IsDigit c → All IsDigit t → All IsDigit (keep_digit c t)
unfolding keep_digit
keep_digit-All c [] hc ht = ground arith
keep_digit-All c (d ∷ t) hc ht = (hc, ht)

pub trim_right-All : (s : Bytes) → All IsDigit s → All IsDigit (trim_right s)
unfolding trim_right
trim_right-All [] h = tt
trim_right-All (c ∷ s) (hc, hs) = keep_digit-All c (trim_right s) hc (trim_right-All s hs)

keep_digit-NoTrailingZero : (c : ℕ) (t : Bytes) → NoTrailingZero t → NoTrailingZero (keep_digit c t)
unfolding keep_digit
keep_digit-NoTrailingZero c [] h = elim (Bool-cases (c == b'0')) [
  | inl e ↦ rw e tt
  | inr e ↦ rw e (ground arith)
]
keep_digit-NoTrailingZero c (d ∷ t) h = h

pub trim_right-NoTrailingZero : (s : Bytes) → NoTrailingZero (trim_right s)
unfolding trim_right
trim_right-NoTrailingZero [] = tt
trim_right-NoTrailingZero (c ∷ s) =
    keep_digit-NoTrailingZero c (trim_right s) (trim_right-NoTrailingZero s)

-- An exponent that `leadExponent` returns is in range.
lead_exponent_range :
    (l : DecimalLiteral) {e : ℤ}
    → lead_exponent l ≡ ok e
    → (pos_part e ≤ max_decimal_exp) × (neg_part e ≤ max_decimal_exp)
unfolding lead_exponent
lead_exponent_range l {e} h = ground arith

of_lead-IsCanonical :
    (neg : Bool) (e : ℤ) (t : Bytes)
    → All IsDigit t
    → NoLeadingZero t
    → pos_part e ≤ max_decimal_exp
    → neg_part e ≤ max_decimal_exp
    → IsCanonical (of_lead neg e t)
unfolding of_lead
of_lead-IsCanonical neg e [] ht lead high low = record {
  ascii = tt;
  leads = tt;
  trails = tt;
  one_zero = λ _. refl;
  high = omega arith;
  low = omega arith;
}
of_lead-IsCanonical neg e (c ∷ s) ht lead high low =
    let kept = trim_right-cons c s lead in
    record {
      ascii = trim_right-All (c ∷ s) ht;
      leads = rw kept lead;
      trails = trim_right-NoTrailingZero (c ∷ s);
      one_zero = λ empty. absurd (cc kept);
      high = high;
      low = low;
    }

-- An accepted text has a split and an exponent in range, and the result is read from these.
pub parse_decimal_ok :
    (s : Bytes) {d : Decimal}
    → parse_decimal s ≡ ok d
    → (l : DecimalLiteral) × (e : ℤ) × (scan_decimal s ≡ some l)
      × (lead_exponent l ≡ ok e)
      × (decimal l e ≡ d)
unfolding parse_decimal read_decimal
parse_decimal_ok s {d} h = elim (Option-cases (scan_decimal s)) [
  | inl e ↦ absurd (ground (arith, e))
  | inr (l, e) ↦ elim (Result-cases (lead_exponent l)) [
    | inl (x, f) ↦ (l, x, e, f, ground (arith, e, f))
    | inr (x, f) ↦ absurd (ground (arith, e, f))
  ]
]

-- What `ParseDecimal` accepts is in the form that its type promises: digits with no zero at either
-- end, one form of zero, and the exponent within the bound.
pub parse_decimal-IsCanonical : (s : Bytes) {d : Decimal} → parse_decimal s ≡ ok d → IsCanonical d
parse_decimal-IsCanonical s {d} h =
    let (l, e, scanned, led, made) = parse_decimal_ok s h in
    let form = (scan_decimal_sound s l scanned).0 in
    let (high, low) = lead_exponent_range l led in
    let t = l.int_part ++ l.frac in
    rw (← made) (
      unfold decimal in
      of_lead-IsCanonical l.neg e (trim_left t)
        (trim_left-All t (All-append IsDigit l.int_part l.frac form.ints form.fracs))
        (trim_left-NoLeadingZero t) high low)
