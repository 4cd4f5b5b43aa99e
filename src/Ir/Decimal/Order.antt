-- ===== src/Ir/Decimal/Order.antt =====
-- `Decimal.Cmp` compares the numbers: digits at one scale are natural numbers, and the comparison
-- of exponents and of digit strings agrees with theirs.
use native.Mathlib.Nat.{pow-suc, mul-le-mul_right, mul-lt-mul_of_pos_right}
use morphic.Base.{
  ℕ, ◌+◌, ◌-◌, ◌*◌, ◌^◌, ◌≤◌, ◌<◌, [], ◌∷◌, ◌≡◌, sym, arith, Bytes, All, length, compare, Ordering,
  compare_text,
}
use morphic.Base.Numbers.{pow_add, pow_pos, lead_lt, compare_lt, compare_gt, compare_add}
use morphic.Ir.Decimal.Grammar.{IsDigit}
use morphic.Ir.Decimal.Canonical.{NoTrailingZero}

-- The number that digits spell.
abbrev pub value : Bytes → ℕ
value [] = 0
value (c ∷ s) = (c - b'0') * 10 ^ length s + value s

pub value-lt : (s : Bytes) → All IsDigit s → value s < 10 ^ length s
value-lt [] h = omega arith
value-lt (c ∷ s) (hc, hs) =
    let digit : c - b'0' ≤ 9 = omega arith in
    omega (arith, pow-suc 10 (length s), value-lt s hs, mul-le-mul_right (10 ^ length s) digit)

-- At scale `k` the first digit stands alone above what the others can reach.
pub value_scaled :
    (c : ℕ) (s : Bytes) (k : ℕ)
    → value (c ∷ s) * 10 ^ k ≡ (c - b'0') * 10 ^ (length s + k) + value s * 10 ^ k
value_scaled c s k = rw (pow_add 10 (length s) k) (omega arith)

pub value_scaled-lt : (s : Bytes) (k : ℕ) → All IsDigit s → value s * 10 ^ k < 10 ^ (length s + k)
value_scaled-lt s k h =
    rw (pow_add 10 (length s) k) (mul-lt-mul_of_pos_right (value-lt s h) (pow_pos k))

pub value_pos :
    (c : ℕ) (s : Bytes) → All IsDigit (c ∷ s) → NoTrailingZero (c ∷ s) → 0 < value (c ∷ s)
value_pos c [] h t = omega arith
value_pos c (d ∷ s) (hc, hs) t = omega (arith, value_pos d s hs t)

NoTrailingZero-tail : (c : ℕ) (s : Bytes) → NoTrailingZero (c ∷ s) → NoTrailingZero s
NoTrailingZero-tail c [] h = tt
NoTrailingZero-tail c (d ∷ s) h = h

-- One digit of the comparison, over the values that stand behind it.
compare_digit :
    (x y p a b m n : ℕ) (o : Ordering)
    → b'0' ≤ x
    → b'0' ≤ y
    → a < p
    → b < p
    → m ≡ (x - b'0') * p + a
    → n ≡ (y - b'0') * p + b
    → o ≡ compare a b
    → elim (compare x y) [ Ordering.lt ↦ Ordering.lt | Ordering.eq ↦ o | Ordering.gt ↦ Ordering.gt ]
      ≡ compare m n
compare_digit x y p a b m n o hx hy ha hb hm hn ho = ground (
  arith,
  lead_lt (x - b'0') (y - b'0') p a b,
  lead_lt (y - b'0') (x - b'0') p b a,
  compare_add ((x - b'0') * p) a b,
)

-- Two digit strings whose last digits end at one place compare as the numbers they spell.
pub compare_text-value :
    (xs ys : Bytes) (k j : ℕ)
    → All IsDigit xs
    → All IsDigit ys
    → NoTrailingZero xs
    → NoTrailingZero ys
    → length xs + k ≡ length ys + j
    → compare_text xs ys ≡ compare (value xs * 10 ^ k) (value ys * 10 ^ j)
unfolding compare_text
compare_text-value [] [] k j hx hy tx ty e = ground arith
compare_text-value [] (y ∷ ys) k j hx hy tx ty e =
    sym (compare_lt _ _ (omega (arith, mul-lt-mul_of_pos_right (value_pos y ys hy ty) (pow_pos j))))
compare_text-value (x ∷ xs) [] k j hx hy tx ty e =
    sym (compare_gt _ _ (omega (arith, mul-lt-mul_of_pos_right (value_pos x xs hx tx) (pow_pos k))))
compare_text-value (x ∷ xs) (y ∷ ys) k j (hx, hxs) (hy, hys) tx ty e =
    let at_one_place : length ys + j ≡ length xs + k = omega arith in
    compare_digit x y (10 ^ (length xs + k)) (value xs * 10 ^ k) (value ys * 10 ^ j) _ _ _ hx.0 hy.0
      (value_scaled-lt xs k hxs) (rw (← at_one_place) (value_scaled-lt ys j hys))
      (value_scaled x xs k) (rw (← at_one_place) (value_scaled y ys j))
      (compare_text-value xs ys k j hxs hys (NoTrailingZero-tail x xs tx)
        (NoTrailingZero-tail y ys ty) (omega arith))
