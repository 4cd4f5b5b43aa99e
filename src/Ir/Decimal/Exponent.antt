-- ===== src/Ir/Decimal/Exponent.antt =====
-- `exponentValue` and `leadExponent` against their meaning over unbounded integers.
use native.Mathlib.Nat.{pow-suc, mul-le-mul_right}
use morphic.Base.{
  ℕ, suc, ◌+◌, ◌-◌, ◌*◌, ◌/◌, ◌%◌, ◌^◌, ◌≤◌, ◌<◌, Bool, true, false, [], ◌∷◌, ◌≡◌, ◌⊎◌, inl, inr,
  refl, ap, sym, ◌∙◌, arith, Bytes, All, length, leb, ◌==◌, ◌||◌, if◌then◌else◌, Bool-cases, Result,
  ok, err,
}
use morphic.Base.Int.{
  ℤ, pos, negsuc, neg_ℤ, sub_ℕ, ◌+ℤ◌, +ℤ_parts, one_part, +ℤ_bounds, sub_ℕ_bounds, pos_part,
  neg_part, ltb_ℤ, int64, int64_small,
}
use morphic.Base.Numbers.{pow_pos}
use morphic.Ir.Decimal.{
  DecimalLiteral, DecimalError, exponent_range, accumulate, exponent_value, exp_saturation,
  max_decimal_exp, digit_of, leading_zeros, lead_exponent,
}
use morphic.Ir.Decimal.Grammar.{
  IsDigit, IsLiteral, Exponent, unsigned, plus, minus, absent, present,
}
use morphic.Ir.Decimal.Order.{value}

-- What reading on from `e` gives: the number itself, or the cap where the number is past it.
abbrev Reads : ℕ → ℕ → Type 0
Reads number got = (got ≡ number) ⊎ ((got ≡ exp_saturation) × (exp_saturation ≤ number))

accumulate-Reads :
    (e : ℕ) (s : Bytes)
    → All IsDigit s
    → e ≤ exp_saturation
    → Reads (e * 10 ^ length s + value s) (accumulate e s)
unfolding accumulate
accumulate-Reads e [] h small = inl (omega arith)
accumulate-Reads e (c ∷ s) (hc, hs) small = elim (Bool-cases (leb (exp_saturation / 10) e)) [
  | inl full ↦
      let large : exp_saturation / 10 ≤ e = ground arith in
      rw full (
        inr (
          refl,
          omega (
            arith,
            mul-le-mul_right (10 ^ suc (length s)) large,
            pow-suc 10 (length s),
            pow_pos (length s),
          ),
        ))
  | inr room ↦
      let below : e < exp_saturation / 10 = ground arith in
      let next : (e * 10 + digit_of c) % 2 ^ 64 ≡ e * 10 + (c - b'0') = omega arith in
      let same : e * 10 ^ suc (length s) + ((c - b'0') * 10 ^ length s + value s)
          ≡ (e * 10 + (c - b'0')) * 10 ^ length s + value s =
        rw (pow-suc 10 (length s)) (omega arith) in
      rw (room, next, same) (accumulate-Reads (e * 10 + (c - b'0')) s hs (omega arith))
]

accumulate-le :
    (e : ℕ) (s : Bytes) → All IsDigit s → e ≤ exp_saturation → accumulate e s ≤ exp_saturation
unfolding accumulate
accumulate-le e [] h small = small
accumulate-le e (c ∷ s) (hc, hs) small =
    ground (arith, accumulate-le ((e * 10 + digit_of c) % 2 ^ 64) s hs)

-- The integer that an exponent's text spells, of any size.
unfoldable pub exponent_number : Bytes → ℤ
exponent_number [] = pos 0
exponent_number (mark ∷ []) = pos 0
exponent_number (mark ∷ c ∷ body) =
    if c == b'-'
    then neg_ℤ (pos (value body))
    else pos (value (if c == b'+' then body else c ∷ body))

-- What `exponentValue` returns for an integer: the integer, or one past every bound on its side.
pub data Saturates (number : ℤ) : ℤ → Type 0 where
  exact : {got : ℤ} → got ≡ number → Saturates number got
  above :
      {got : ℤ} → got ≡ pos exp_saturation → exp_saturation ≤ pos_part number → Saturates number got
  below :
      {got : ℤ}
      → got ≡ negsuc (exp_saturation - 1)
      → exp_saturation ≤ neg_part number
      → Saturates number got

Reads-start : (s : Bytes) → All IsDigit s → Reads (value s) (accumulate 0 s)
Reads-start s h =
    let e : value s ≡ 0 * 10 ^ length s + value s = omega arith in
    rw e (accumulate-Reads 0 s h (omega arith))

saturate_pos : (n m : ℕ) → Reads n m → Saturates (pos n) (pos m)
saturate_pos n m (inl e) = exact (rw e)
saturate_pos n m (inr (e, h)) = above (rw e) h

saturate_neg : (n m : ℕ) → Reads n m → Saturates (neg_ℤ (pos n)) (neg_ℤ (pos m))
saturate_neg n m (inl e) = exact (rw e)
saturate_neg n m (inr (e, h)) = below (rw e (unfold neg_ℤ in refl)) (unfold neg_ℤ in ground arith)

pub exponent_value-Saturates :
    (e : Bytes) → Exponent e → Saturates (exponent_number e) (exponent_value e)
unfolding exponent_value exponent_number
exponent_value-Saturates e absent = exact refl
exponent_value-Saturates e (present mark neg sgn d ds m unsigned hd hds) =
    let no_minus : (d == b'-') ≡ false = ground arith in
    let no_plus : (d == b'+') ≡ false = ground arith in
    rw (no_minus, no_plus) (saturate_pos _ _ (Reads-start (d ∷ ds) (hd, hds)))
exponent_value-Saturates e (present mark neg sgn d ds m plus hd hds) =
    saturate_pos _ _ (Reads-start (d ∷ ds) (hd, hds))
exponent_value-Saturates e (present mark neg sgn d ds m minus hd hds) =
    saturate_neg _ _ (Reads-start (d ∷ ds) (hd, hds))

-- `leadExponent` over unbounded integers.
unfoldable pub lead_exponent_unbounded : DecimalLiteral → Result DecimalError ℤ
lead_exponent_unbounded l =
    let zeros = leading_zeros l in
    let exp = exponent_number l.exponent +ℤ sub_ℕ (length l.int_part) (zeros + 1) in
    if zeros == length l.int_part + length l.frac
    then ok (pos 0)
    else if ltb_ℤ (pos max_decimal_exp) exp || ltb_ℤ exp (negsuc (max_decimal_exp - 1))
    then err (exponent_range l.neg (ltb_ℤ exp (pos 0)))
    else ok exp

leading_zeros-le : (l : DecimalLiteral) → leading_zeros l ≤ length l.int_part + length l.frac
unfolding leading_zeros
leading_zeros-le l = ground arith

-- The verdict depends on the two exponents only through their range.
verdict_of : Bool → ℤ → Result DecimalError ℤ
verdict_of neg exp =
    if ltb_ℤ (pos max_decimal_exp) exp || ltb_ℤ exp (negsuc (max_decimal_exp - 1))
    then err (exponent_range neg (ltb_ℤ exp (pos 0)))
    else ok exp

verdict_high :
    (neg : Bool) (x : ℤ)
    → max_decimal_exp + neg_part x < pos_part x
    → verdict_of neg x ≡ err (exponent_range neg false)
unfolding verdict_of
verdict_high neg x h = ground arith

verdict_low :
    (neg : Bool) (x : ℤ)
    → max_decimal_exp + pos_part x < neg_part x
    → verdict_of neg x ≡ err (exponent_range neg true)
unfolding verdict_of
verdict_low neg x h = ground arith

-- A sum with a digit count never wraps, and a saturated exponent is refused as its own would be.
verdict_exact :
    (neg : Bool) (number got w : ℤ)
    → Saturates number got
    → pos_part got ≤ exp_saturation
    → neg_part got ≤ exp_saturation
    → pos_part w ≤ 2 ^ 60
    → neg_part w ≤ 2 ^ 60
    → verdict_of neg (int64 (got +ℤ w)) ≡ verdict_of neg (number +ℤ w)
verdict_exact neg number got w s gp gn wp wn =
    let kept : int64 (got +ℤ w) ≡ got +ℤ w =
      int64_small (got +ℤ w) (omega (arith, +ℤ_bounds got w)) (omega (arith, +ℤ_bounds got w)) in
    rw kept (of_case s)
  where
    of_case : Saturates number got → verdict_of neg (got +ℤ w) ≡ verdict_of neg (number +ℤ w)
    of_case (exact e) = rw e
    of_case (above e h) =
        verdict_high neg (got +ℤ w) (omega (arith, ap pos_part e, ap neg_part e, +ℤ_parts got w))
        ∙ sym (verdict_high neg (number +ℤ w) (omega (arith, +ℤ_parts number w, one_part number)))
    of_case (below e h) =
        verdict_low neg (got +ℤ w) (omega (arith, ap pos_part e, ap neg_part e, +ℤ_parts got w))
        ∙ sym (verdict_low neg (number +ℤ w) (omega (arith, +ℤ_parts number w, one_part number)))

exponent_value_bounds :
    (e : Bytes)
    → Exponent e
    → (pos_part (exponent_value e) ≤ exp_saturation)
      × (neg_part (exponent_value e) ≤ exp_saturation)
unfolding exponent_value neg_ℤ
exponent_value_bounds e absent = (omega arith, omega arith)
exponent_value_bounds e (present mark neg sgn d ds m unsigned hd hds) =
    let no_minus : (d == b'-') ≡ false = ground arith in
    let no_plus : (d == b'+') ≡ false = ground arith in
    let bound = accumulate-le 0 (d ∷ ds) (hd, hds) (omega arith) in
    rw (no_minus, no_plus) (bound, omega arith)
exponent_value_bounds e (present mark neg sgn d ds m plus hd hds) =
    (accumulate-le 0 (d ∷ ds) (hd, hds) (omega arith), omega arith)
exponent_value_bounds e (present mark neg sgn d ds m minus hd hds) =
    let bound = accumulate-le 0 (d ∷ ds) (hd, hds) (omega arith) in (ground arith, ground arith)

-- On a literal of fewer than 2 ^ 60 digits, far more than memory holds, `leadExponent` returns what
-- the same computation over unbounded integers returns: no int64 wraps, and reading a longer
-- exponent as the cap changes no verdict.
pub lead_exponent_exact :
    (l : DecimalLiteral)
    → IsLiteral l
    → length l.int_part + length l.frac < 2 ^ 60
    → lead_exponent l ≡ lead_exponent_unbounded l
lead_exponent_exact l h size =
    let (gp, gn) = exponent_value_bounds l.exponent h.exponents in
    let w = sub_ℕ (length l.int_part) (leading_zeros l + 1) in
    let (wp, wn) = sub_ℕ_bounds (length l.int_part) (leading_zeros l + 1) in
    let exact =
      verdict_exact l.neg (exponent_number l.exponent) (exponent_value l.exponent) w
        (exponent_value-Saturates l.exponent h.exponents) gp gn (omega arith)
        (omega (arith, leading_zeros-le l)) in
    unfold lead_exponent lead_exponent_unbounded in
    ap (λ r. if leading_zeros l == length l.int_part + length l.frac then ok (pos 0) else r)
      (unfold verdict_of in exact)
