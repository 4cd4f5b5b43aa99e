-- ===== src/Ir/Decimal/Total.antt =====
-- Three decimals at one scale: `Decimal.Cmp` orders them as integers are ordered.
use morphic.Base.{ℕ, ◌+◌, ◌-◌, ◌≤◌, ◌≡◌, inr, arith, length}
use morphic.Base.Int.{
  ℤ, pos, sub_ℕ, sub_ℕ_parts, +ℤ_parts, eq_of_parts, pos_part, neg_part, compare_ℤ,
}
use morphic.Ir.Decimal.{Decimal, cmp}
use morphic.Ir.Decimal.Canonical.{IsCanonical}
use morphic.Ir.Decimal.Cmp.{AtScale, units, cmp-units}

-- The place of the last digit above `m` places below the point.
abbrev place : ℕ → Decimal → ℕ
place m d = pos_part d.exp + 1 + m - length d.digits - neg_part d.exp

at_scale :
    (m : ℕ) (d : Decimal) → length d.digits + neg_part d.exp ≤ m → AtScale (sub_ℕ 0 m) d (place m d)
at_scale m d h = inr (
    eq_of_parts _ _ (
      omega (
        arith,
        +ℤ_parts d.exp (pos 1),
        +ℤ_parts (sub_ℕ 0 m) (pos (length d.digits + place m d)),
        sub_ℕ_parts 0 m,
      )))

-- `a`, `b` and `c` stand for integers that compare as they do.
pub record Ordered (a b c : Decimal) : Type 0 where
  pub x : ℤ
  pub y : ℤ
  pub z : ℤ
  pub first : cmp a b ≡ compare_ℤ x y
  pub second : cmp b c ≡ compare_ℤ y z
  pub outer : cmp a c ≡ compare_ℤ x z

abbrev depth : Decimal → ℕ
depth d = length d.digits + neg_part d.exp

pub cmp-Ordered : (a b c : Decimal) → IsCanonical a → IsCanonical b → IsCanonical c → Ordered a b c
cmp-Ordered a b c ha hb hc =
    let m = depth a + depth b + depth c in
    let low = sub_ℕ 0 m in
    let sa = at_scale m a (omega arith) in
    let sb = at_scale m b (omega arith) in
    let sc = at_scale m c (omega arith) in
    record {
      x = units a (place m a);
      y = units b (place m b);
      z = units c (place m c);
      first = cmp-units a b low _ _ ha hb sa sb;
      second = cmp-units b c low _ _ hb hc sb sc;
      outer = cmp-units a c low _ _ ha hc sa sc;
    }
