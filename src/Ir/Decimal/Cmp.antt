-- ===== src/Ir/Decimal/Cmp.antt =====
-- `Decimal.Cmp` as a comparison of numbers.
use mathlib.Core.List.{cons-ne-nil}
use mathlib.Core.Logic.{⊎_elim}
use native.Mathlib.Nat.{mul-lt-mul_of_pos_right, mul-le-mul_right, pow-le-pow_right}
use morphic.Base.{
  ℕ, ◌+◌, ◌-◌, ◌*◌, ◌^◌, ◌≤◌, ◌<◌, Bool, false, [], ◌∷◌, ◌≡◌, ◌≢◌, ◌⊎◌, refl, ap, arith,
  if◌then◌else◌, Bytes, All, length, compare, compare_text,
}
use morphic.Base.Int.{ℤ, pos, neg_ℤ, pos_part, neg_part, ◌+ℤ◌, +ℤ_parts, compare_ℤ}
use morphic.Base.Numbers.{compare_shift, pow_pos}
use morphic.Ir.Decimal.{Decimal, cmp, cmp_magnitude, sign, or_else}
use morphic.Ir.Decimal.Grammar.{IsDigit}
use morphic.Ir.Decimal.Canonical.{IsCanonical, NoTrailingZero, NoLeadingZero}
use morphic.Ir.Decimal.Order.{value, value_pos, value_scaled, value_scaled-lt, compare_text-value}

value_scaled-ge :
    (c : ℕ) (s : Bytes) (k : ℕ)
    → IsDigit c
    → c ≢ b'0'
    → 10 ^ (length s + k) ≤ value (c ∷ s) * 10 ^ k
value_scaled-ge c s k h lead =
    let digit : 1 ≤ c - b'0' = omega arith in
    omega (arith, mul-le-mul_right (10 ^ (length s + k)) digit, value_scaled c s k)

-- The number whose first digit stands higher is the larger one.
value_scaled-lt_of_place :
    (xs : Bytes) (c : ℕ) (ys : Bytes) (k j : ℕ)
    → All IsDigit xs
    → IsDigit c
    → c ≢ b'0'
    → length xs + k < length (c ∷ ys) + j
    → value xs * 10 ^ k < value (c ∷ ys) * 10 ^ j
value_scaled-lt_of_place xs c ys k j hx hc lead h =
    let place : length xs + k ≤ length ys + j = omega arith in
    let ten : 0 < 10 = omega arith in
    omega
      (arith, value_scaled-lt xs k hx, value_scaled-ge c ys j hc lead, pow-le-pow_right ten place)

-- Two digit strings that no zero opens or ends compare by the place of the first digit, and at one
-- place as texts.
compare_places :
    (c : ℕ) (s : Bytes) (d : ℕ) (t : Bytes) (k j : ℕ)
    → All IsDigit (c ∷ s)
    → All IsDigit (d ∷ t)
    → c ≢ b'0'
    → d ≢ b'0'
    → NoTrailingZero (c ∷ s)
    → NoTrailingZero (d ∷ t)
    → or_else (compare (length (c ∷ s) + k) (length (d ∷ t) + j)) (compare_text (c ∷ s) (d ∷ t))
      ≡ compare (value (c ∷ s) * 10 ^ k) (value (d ∷ t) * 10 ^ j)
compare_places c s d t k j hc hd lc ld tc td = ground (
  arith,
  value_scaled-lt_of_place (c ∷ s) d t k j,
  value_scaled-lt_of_place (d ∷ t) c s j k,
  compare_text-value (c ∷ s) (d ∷ t) k j hc hd tc td,
)

-- `d` is its digits, read as a number, times ten to the power `low + k`.
abbrev pub AtScale : ℤ → Decimal → ℕ → Type 0
AtScale low d k = (d.digits ≡ []) ⊎ (d.exp +ℤ pos 1 ≡ low +ℤ pos (length d.digits + k))

-- The number `d` in units of ten to the power `low`.
abbrev pub signed : Bool → ℕ → ℤ
signed neg m = if neg then neg_ℤ (pos m) else pos m

abbrev pub units : Decimal → ℕ → ℤ
units d k = signed d.neg (value d.digits * 10 ^ k)

compare_exponents :
    (low x y : ℤ) (m n : ℕ)
    → x +ℤ pos 1 ≡ low +ℤ pos m
    → y +ℤ pos 1 ≡ low +ℤ pos n
    → compare_ℤ x y ≡ compare m n
compare_exponents low x y m n hx hy = compare_shift _ _ m n (
    omega (
      arith,
      ap pos_part hx,
      ap neg_part hx,
      ap pos_part hy,
      ap neg_part hy,
      +ℤ_parts x (pos 1),
      +ℤ_parts low (pos m),
      +ℤ_parts y (pos 1),
      +ℤ_parts low (pos n),
    ))

cmp_magnitude-value :
    (d e : Decimal) (low : ℤ) (k j : ℕ)
    → IsCanonical d
    → IsCanonical e
    → d.digits ≢ []
    → e.digits ≢ []
    → d.exp +ℤ pos 1 ≡ low +ℤ pos (length d.digits + k)
    → e.exp +ℤ pos 1 ≡ low +ℤ pos (length e.digits + j)
    → cmp_magnitude d e ≡ compare (value d.digits * 10 ^ k) (value e.digits * 10 ^ j)
unfolding cmp_magnitude
cmp_magnitude-value d e low k j hd he nd ne sd se =
    of_digits d.digits e.digits nd ne hd.ascii he.ascii hd.leads he.leads hd.trails he.trails
      (compare_exponents low d.exp e.exp _ _ sd se)
  where
    of_digits :
        (xs ys : Bytes)
        → xs ≢ []
        → ys ≢ []
        → All IsDigit xs
        → All IsDigit ys
        → NoLeadingZero xs
        → NoLeadingZero ys
        → NoTrailingZero xs
        → NoTrailingZero ys
        → compare_ℤ d.exp e.exp ≡ compare (length xs + k) (length ys + j)
        → or_else (compare_ℤ d.exp e.exp) (compare_text xs ys)
          ≡ compare (value xs * 10 ^ k) (value ys * 10 ^ j)
    of_digits [] ys nx ny _ _ _ _ _ _ _ = absurd (nx refl)
    of_digits (c ∷ s) [] nx ny _ _ _ _ _ _ _ = absurd (ny refl)
    of_digits (c ∷ s) (d ∷ t) nx ny hx hy lx ly tx ty e =
        rw e (compare_places c s d t k j hx hy lx ly tx ty)

-- The signs, and the comparison of the magnitudes where they are one, order the signed numbers.
cmp_signed :
    (dn en : Bool) (xs ys : Bytes) (x y : ℤ) (m n : ℕ)
    → (xs ≡ [] → (m ≡ 0) × (dn ≡ false))
    → (ys ≡ [] → (n ≡ 0) × (en ≡ false))
    → (xs ≢ [] → 0 < m)
    → (ys ≢ [] → 0 < n)
    → (xs ≢ []
        → ys ≢ []
        → cmp_magnitude
            (record { neg = dn; digits = xs; exp = x })
            (record { neg = en; digits = ys; exp = y })
          ≡ compare m n)
    → cmp (record { neg = dn; digits = xs; exp = x }) (record { neg = en; digits = ys; exp = y })
      ≡ compare_ℤ (signed dn m) (signed en n)
unfolding cmp sign neg_ℤ
cmp_signed dn en [] [] x y m n zx zy px py mag = ground (arith, zx refl, zy refl)
cmp_signed dn en [] (d ∷ t) x y m n zx zy px py mag = ground (arith, zx refl, py (cons-ne-nil d t))
cmp_signed dn en (c ∷ s) [] x y m n zx zy px py mag = ground (arith, px (cons-ne-nil c s), zy refl)
cmp_signed dn en (c ∷ s) (d ∷ t) x y m n zx zy px py mag =
    ground
      (arith, px (cons-ne-nil c s), py (cons-ne-nil d t), mag (cons-ne-nil c s) (cons-ne-nil d t))

units_pos : (s : Bytes) (k : ℕ) → All IsDigit s → NoTrailingZero s → s ≢ [] → 0 < value s * 10 ^ k
units_pos [] k h t ne = absurd (ne refl)
units_pos (c ∷ s) k h t ne = omega (arith, mul-lt-mul_of_pos_right (value_pos c s h t) (pow_pos k))

no_units :
    (d : Decimal) (k : ℕ)
    → IsCanonical d
    → d.digits ≡ []
    → (value d.digits * 10 ^ k ≡ 0) × (d.neg ≡ false)
no_units d k h e = (rw e (omega arith), cc (h.one_zero e))

-- `Cmp` is exact: at any power of ten that both numbers are whole multiples of, it is the comparison
-- of the two integers, signs and zero included, however far apart their exponents are.
pub cmp-units :
    (d e : Decimal) (low : ℤ) (k j : ℕ)
    → IsCanonical d
    → IsCanonical e
    → AtScale low d k
    → AtScale low e j
    → cmp d e ≡ compare_ℤ (units d k) (units e j)
cmp-units d e low k j hd he sd se =
    cmp_signed d.neg e.neg d.digits e.digits d.exp e.exp _ _ (no_units d k hd) (no_units e j he)
      (units_pos d.digits k hd.ascii hd.trails) (units_pos e.digits j he.ascii he.trails)
      (λ nd ne.
        cmp_magnitude-value d e low k j hd he nd ne (⊎_elim (λ z. absurd (nd z)) (λ p. p) sd)
          (⊎_elim (λ z. absurd (ne z)) (λ p. p) se))
