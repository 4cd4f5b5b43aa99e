-- ===== src/Merge/Admits.antt =====
-- compilers/openapi/internal/merge/admitsconstraints.go: whether a value meets a set of constraints.
pub mod Bounds
pub mod Fold
use morphic.Base.{
  ℕ, Bool, true, false, not, ◌&&◌, ◌||◌, [], ◌∷◌, List, Option, none, some, Result, ok, err,
  Ordering, if◌then◌else◌,
}
use morphic.Base.Int.{ℤ, ltb_ℤ}
use morphic.Ir.BigVal.{BigVal, decimal_of}
use morphic.Ir.Decimal.{Decimal, DecimalError, cmp}
use morphic.Merge.Constraints.{Constraints, is_set}
use morphic.Merge.Numbers.{is_multiple_of, says_multiple}

abbrev pub at_least : Ordering → Bool
at_least Ordering.lt = false
at_least Ordering.eq = true
at_least Ordering.gt = true

abbrev pub above : Ordering → Bool
above Ordering.lt = false
above Ordering.eq = false
above Ordering.gt = true

abbrev pub at_most : Ordering → Bool
at_most Ordering.lt = true
at_most Ordering.eq = true
at_most Ordering.gt = false

abbrev pub below : Ordering → Bool
below Ordering.lt = true
below Ordering.eq = false
below Ordering.gt = false

-- One entry of the table of bounds: an absent bound holds, and an unreadable one does not.
unfoldable pub bound_holds : (Ordering → Bool) → Decimal → Option BigVal → Bool
bound_holds holds d none = true
bound_holds holds d (some bound) = elim (decimal_of bound) [
  | ok b ↦ holds (cmp d b)
  | err e ↦ false
]

unfoldable pub step_holds : Decimal → Option BigVal → Bool
step_holds d none = true
step_holds d (some step) = elim (decimal_of step) [
  | ok s ↦ says_multiple (is_multiple_of d s)
  | err e ↦ false
]

unfoldable pub admits_decimal : Constraints → Decimal → Bool
admits_decimal c d =
    bound_holds at_least d c.min
    && (bound_holds above d c.exclusive_min
        && (bound_holds at_most d c.max
            && (bound_holds below d c.exclusive_max && step_holds d c.multiple_of)))

unfoldable pub admits_number : Constraints → BigVal → Bool
admits_number c n =
    if is_set c.precision || is_set c.scale
    then false
    else elim (decimal_of n) [ err e ↦ false | ok d ↦ admits_decimal c d ]

unfoldable pub within : ℤ → Option ℤ → Option ℤ → Bool
within n lo hi =
    elim lo [ none ↦ true | some l ↦ not (ltb_ℤ n l) ]
    && elim hi [ none ↦ true | some h ↦ not (ltb_ℤ h n) ]
