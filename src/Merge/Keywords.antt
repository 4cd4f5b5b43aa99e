-- ===== src/Merge/Keywords.antt =====
-- The keywords of compilers/openapi/internal/merge/constraints.go in their order, and the fold over
-- them.
pub mod Counts
pub mod Meets
use morphic.Base.{
  ℕ, suc, Bool, true, false, not, ◌&&◌, ◌||◌, List, [], ◌∷◌, Option, none, some, Bytes, codes,
  if◌then◌else◌, same_text,
}
use morphic.Base.Int.{ℤ, ltb_ℤ}
use morphic.Ir.BigVal.{BigVal, is_nil}
use morphic.Ir.Diagnostic.{is_yes, ℤ-discrete}
use morphic.Merge.Constraints.{
  Constraints, ConstraintKeyword, Conflict, Shown, number, count, text, Slot, slot_keyword,
}
use morphic.Merge.Numbers.{same_number, larger_number, smaller_number, common_step}

unfoldable pub larger_count : ℤ → ℤ → Option ℤ
larger_count x y = some (if ltb_ℤ x y then y else x)

unfoldable pub smaller_count : ℤ → ℤ → Option ℤ
smaller_count x y = some (if ltb_ℤ y x then y else x)

unfoldable pub only_equal : ℤ → ℤ → Option ℤ
only_equal x y = if is_yes (ℤ-discrete x y) then some x else none

unfoldable pub number_keyword :
    Bytes → Slot (Option BigVal) → (BigVal → BigVal → Option BigVal) → ConstraintKeyword
number_keyword name slot meet = slot_keyword name number slot same_number meet

unfoldable pub int_keyword : Bytes → Slot (Option ℤ) → (ℤ → ℤ → Option ℤ) → ConstraintKeyword
int_keyword name slot meet = slot_keyword name count slot (λ x y. is_yes (ℤ-discrete x y)) meet

-- The value of a string keyword, and the two that conflict.
unfoldable pub first_text : Bytes → Bytes → Bytes
first_text [] y = y
first_text (c ∷ x) y = c ∷ x

unfoldable pub differ_text : Bytes → Bytes → Bytes → Option Conflict
differ_text name x y =
    if is_nil x || is_nil y || same_text x y
    then none
    else some (record { keyword = name; left = text x; right = text y })

unfoldable pub str_keyword : Bytes → Slot Bytes → ConstraintKeyword
str_keyword name slot = record {
  set = λ c. not (is_nil (slot.read c));
  same = λ a b. same_text (slot.read a) (slot.read b);
  meet = λ dst src. slot.write dst (first_text (slot.read dst) (slot.read src));
  differ = λ a b. differ_text name (slot.read a) (slot.read b);
  clear = λ c. slot.write c [];
}

unfoldable pub constraint_keywords : List ConstraintKeyword
constraint_keywords =
    number_keyword (codes "minimum")
      (record { read = λ c. c.min; write = λ c v. record c { min = v } }) larger_number
    ∷ number_keyword (codes "exclusiveMinimum")
        (record { read = λ c. c.exclusive_min; write = λ c v. record c { exclusive_min = v } })
        larger_number
    ∷ number_keyword (codes "maximum")
        (record { read = λ c. c.max; write = λ c v. record c { max = v } }) smaller_number
    ∷ number_keyword (codes "exclusiveMaximum")
        (record { read = λ c. c.exclusive_max; write = λ c v. record c { exclusive_max = v } })
        smaller_number
    ∷ number_keyword (codes "multipleOf")
        (record { read = λ c. c.multiple_of; write = λ c v. record c { multiple_of = v } })
        common_step
    ∷ int_keyword (codes "precision")
        (record { read = λ c. c.precision; write = λ c v. record c { precision = v } }) only_equal
    ∷ int_keyword (codes "scale")
        (record { read = λ c. c.scale; write = λ c v. record c { scale = v } }) only_equal
    ∷ int_keyword (codes "minLength")
        (record { read = λ c. c.min_length; write = λ c v. record c { min_length = v } })
        larger_count
    ∷ int_keyword (codes "maxLength")
        (record { read = λ c. c.max_length; write = λ c v. record c { max_length = v } })
        smaller_count
    ∷ int_keyword (codes "minItems")
        (record { read = λ c. c.min_items; write = λ c v. record c { min_items = v } }) larger_count
    ∷ int_keyword (codes "maxItems")
        (record { read = λ c. c.max_items; write = λ c v. record c { max_items = v } })
        smaller_count
    ∷ int_keyword (codes "minProps")
        (record { read = λ c. c.min_props; write = λ c v. record c { min_props = v } }) larger_count
    ∷ int_keyword (codes "maxProps")
        (record { read = λ c. c.max_props; write = λ c v. record c { max_props = v } })
        smaller_count
    ∷ str_keyword (codes "pattern")
        (record { read = λ c. c.pattern_text; write = λ c v. record c { pattern_text = v } })
    ∷ str_keyword (codes "patternMessage")
        (record { read = λ c. c.pattern_message; write = λ c v. record c { pattern_message = v } })
    ∷ []

-- The loop of `Constraints` over the keywords, each writing to the set that the last one left.
unfoldable pub meet_all : List ConstraintKeyword → Constraints → Constraints → Constraints
meet_all [] dst src = dst
meet_all (kw ∷ kws) dst src = meet_all kws (kw.meet dst src) src

unfoldable pub fold_constraints : Constraints → Constraints → Constraints
fold_constraints dst src =
    let met = meet_all constraint_keywords dst src in
    record met { unique_items = met.unique_items || src.unique_items }

-- `Constraints`, where either set may be nil.
unfoldable pub merge_constraints : Option Constraints → Option Constraints → Option Constraints
merge_constraints none src = src
merge_constraints (some dst) none = some dst
merge_constraints (some dst) (some src) = some (fold_constraints dst src)

-- The index of the first keyword whose two values no one value states, and the two values.
unfoldable pub first_conflict :
    ℕ → List ConstraintKeyword → Constraints → Constraints → Option (ℕ × Conflict)
first_conflict i [] a b = none
first_conflict i (kw ∷ kws) a b =
    let rest = first_conflict (suc i) kws a b in
    elim (kw.differ a b) [ some detail ↦ some (i, detail) | none ↦ rest ]

unfoldable pub constraints_conflict :
    Option Constraints → Option Constraints → Option (ℕ × Conflict)
constraints_conflict none b = none
constraints_conflict (some a) none = none
constraints_conflict (some a) (some b) = first_conflict 0 constraint_keywords a b

unfoldable pub meets : Option Constraints → Option Constraints → Bool
meets a b = elim (constraints_conflict a b) [ none ↦ true | some c ↦ false ]
