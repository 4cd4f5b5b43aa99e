-- ===== src/Base/Numbers.antt =====
-- Powers and products of native numbers.
use Prim.Native.Nat.{compare, Ordering}
use native.Mathlib.Nat.{pow-suc, pow-zero, mul-le-mul_right}
use morphic.Base.{ℕ, zero, suc, ◌+◌, ◌*◌, ◌^◌, ◌<◌, ◌≡◌, arith}

pub pow_add : (b m n : ℕ) → b ^ (m + n) ≡ b ^ m * b ^ n
pow_add b zero n = ground (arith, pow-zero b)
pow_add b (suc m) n =
    let e : suc m + n ≡ suc (m + n) = omega arith in
    rw (e, pow-suc b (m + n), pow_add b m n, pow-suc b m) (omega arith)

pub pow_pos : (n : ℕ) → 0 < 10 ^ n
pow_pos zero = omega arith
pow_pos (suc n) = omega (arith, pow_pos n, pow-suc 10 n)

-- A leading digit outweighs all that stands behind it.
pub lead_lt : (a b p x y : ℕ) → a < b → x < p → a * p + x < b * p + y
lead_lt a b p x y h k = omega (arith, mul-le-mul_right p h)

pub compare_lt : (m n : ℕ) → m < n → compare m n ≡ Ordering.lt
compare_lt m n h = ground arith

pub compare_gt : (m n : ℕ) → n < m → compare m n ≡ Ordering.gt
compare_gt m n h = ground arith

pub compare_add : (c m n : ℕ) → compare (c + m) (c + n) ≡ compare m n
compare_add c m n = ground arith

-- Two comparisons of one difference.
pub compare_shift : (a b m n : ℕ) → a + n ≡ b + m → compare a b ≡ compare m n
compare_shift a b m n h = ground arith
