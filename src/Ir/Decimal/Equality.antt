-- ===== src/Ir/Decimal/Equality.antt =====
-- `Decimal.Cmp` and Go's `==` on decimals.
use morphic.Base.{Bool, [], ◌∷◌, ◌≡◌, ◌↔◌, refl, arith, Bytes, Ordering, compare_text}
use morphic.Base.Int.{ℤ, eq_of_parts}
use morphic.Ir.Decimal.{Decimal, zero_decimal, cmp, cmp_magnitude, sign, opposite}
use morphic.Ir.Decimal.Canonical.{IsCanonical}

compare_text_refl : (s : Bytes) → compare_text s s ≡ Ordering.eq
unfolding compare_text
compare_text_refl [] = refl
compare_text_refl (c ∷ s) = ground (arith, compare_text_refl s)

pub compare_text-eq : (s t : Bytes) → compare_text s t ≡ Ordering.eq → s ≡ t
unfolding compare_text
compare_text-eq [] [] h = refl
compare_text-eq [] (y ∷ t) h = cc
compare_text-eq (x ∷ s) [] h = cc
compare_text-eq (x ∷ s) (y ∷ t) h = ground (arith, compare_text-eq s t)

pub compare_text_swap : (s t : Bytes) → compare_text t s ≡ opposite (compare_text s t)
unfolding compare_text
compare_text_swap [] [] = refl
compare_text_swap [] (y ∷ t) = refl
compare_text_swap (x ∷ s) [] = refl
compare_text_swap (x ∷ s) (y ∷ t) = ground (arith, compare_text_swap s t)

cmp_refl : (d : Decimal) → cmp d d ≡ Ordering.eq
unfolding cmp sign cmp_magnitude
cmp_refl d = ground (arith, compare_text_refl d.digits)

cmp-eq :
    (dn en : Bool) (xs ys : Bytes) (x y : ℤ)
    → (xs ≡ [] → record { neg = dn; digits = xs; exp = x } ≡ zero_decimal)
    → (ys ≡ [] → record { neg = en; digits = ys; exp = y } ≡ zero_decimal)
    → cmp (record { neg = dn; digits = xs; exp = x }) (record { neg = en; digits = ys; exp = y })
      ≡ Ordering.eq
    → ◌≡◌ {A = Decimal}
        (record { neg = dn; digits = xs; exp = x })
        (record { neg = en; digits = ys; exp = y })
unfolding cmp sign cmp_magnitude
cmp-eq dn en [] [] x y zx zy h = cc (zx refl, zy refl)
cmp-eq dn en [] (d ∷ t) x y zx zy h = absurd (ground arith)
cmp-eq dn en (c ∷ s) [] x y zx zy h = absurd (ground arith)
cmp-eq dn en (c ∷ s) (d ∷ t) x y zx zy h =
    ground (arith, compare_text-eq (c ∷ s) (d ∷ t), eq_of_parts x y)

-- Swapping the two numbers reverses the answer.
pub cmp_swap : (d e : Decimal) → cmp e d ≡ opposite (cmp d e)
unfolding cmp sign cmp_magnitude
cmp_swap d e = ground (arith, compare_text_swap d.digits e.digits)

-- On what `ParseDecimal` makes, `==` is equality of values: `Cmp` answers 0 exactly for equal ones.
pub cmp-eq_iff : (d e : Decimal) → IsCanonical d → IsCanonical e → (cmp d e ≡ Ordering.eq) ↔ (d ≡ e)
cmp-eq_iff d e hd he = (
  cmp-eq d.neg e.neg d.digits e.digits d.exp e.exp hd.one_zero he.one_zero,
  λ p. rw p (cmp_refl e),
)
