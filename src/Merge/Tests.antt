-- ===== src/Merge/Tests.antt =====
-- Runs of the merge, and its theorems at concrete sets of keywords.
use morphic.Base.{
  Option, none, List, Bool, true, false, ◌&&◌, ◌||◌, [], ◌∷◌, some, codes, refl, ◌≡◌, same_text,
  compare_text,
}
use morphic.Base.Int.{pos, ◌+ℤ◌, neg_ℤ, int64}
use morphic.Ir.Diagnostic.{ℤ-discrete}
use morphic.Ir.Decimal.{
  cmp, cmp_magnitude, sign, parse_decimal, read_decimal, scan_decimal, scan_sign, scan_digits,
  scan_fraction, scan_exponent, scan_tail, scan_exponent_sign, scan_exponent_body, finish_literal,
  lead_exponent, leading_zeros, exponent_value, accumulate, trim_left, trim_right, keep_digit,
  of_lead, decimal,
}
use morphic.Merge.Numbers.{compare_numbers, both_decimals, larger_number, smaller_number}
use morphic.Merge.Constraints.{
  Constraints, no_constraints, is_set, meet_slot, differ_slot, slot_keyword,
}
use morphic.Merge.Keywords.{
  constraint_keywords, meet_all, fold_constraints, first_conflict, constraints_conflict, meets,
  number_keyword, int_keyword, str_keyword, larger_count, smaller_count, differ_text, only_equal,
}
use morphic.Merge.Keywords.Counts.{fold-within}
use morphic.Merge.Admits.{admits_number, admits_decimal, bound_holds, step_holds, within}
use morphic.Merge.Admits.Fold.{fold-admits_number}
use morphic.Merge.Visibility.{
  Visibility, merge_visibility, visible, merge_visibility-visible, no_lifecycles, listed,
  intersect_lifecycles, compare_lifecycles, keep_listed,
}
use morphic.Merge.Numbers.{same_number}
use morphic.Merge.Constraints.{same_slot}
use morphic.Merge.Keywords.{merge_constraints, first_text}
use morphic.Merge.Bounds.{
  Relation, a_narrower, bounds_relation, same_bounds, same_sets, all_same, meet_constraints,
  meet_loop, disagreement, mark_set,
}
use morphic.Merge.Bounds.Same.{Told, bounds_relation-admits_number}
use morphic.Merge.Nullability.{TypeRef, intersect_null, rests_on, intersect_null-rests_on}

abbrev from_one : Constraints
from_one = record no_constraints {
  min = some (codes "1");
  max = some (codes "10.5");
  min_length = some (pos 2);
}

abbrev from_two : Constraints
from_two = record no_constraints {
  min = some (codes "2e0");
  exclusive_max = some (codes "100");
  max_length = some (pos 9);
}

-- Its line opens all that `meets` calls.
run_meets : Constraints → Constraints → Bool
unfolding meets constraints_conflict first_conflict constraint_keywords number_keyword int_keyword
    str_keyword slot_keyword differ_slot differ_text larger_number smaller_number compare_numbers
    both_decimals only_equal larger_count smaller_count same_text compare_text cmp cmp_magnitude
    sign parse_decimal read_decimal scan_decimal scan_sign scan_digits scan_fraction scan_exponent
    scan_tail scan_exponent_sign scan_exponent_body finish_literal lead_exponent leading_zeros
    exponent_value accumulate neg_ℤ ◌+ℤ◌ int64 trim_left trim_right keep_digit of_lead decimal
    is_set meet_slot meet_all fold_constraints admits_number admits_decimal bound_holds step_holds
    ℤ-discrete
run_meets a b = meets (some a) (some b)

sets_meet : meets (some from_one) (some from_two) ≡ true
unfolding run_meets
sets_meet = refl

one_step : (is_set from_one.multiple_of && is_set from_two.multiple_of) ≡ false
unfolding run_meets
one_step = refl

fold_keeps_larger : (fold_constraints from_one from_two).min ≡ some (codes "2e0")
unfolding run_meets
fold_keeps_larger = refl

fold_refuses : admits_number (fold_constraints from_one from_two) (codes "1.5") ≡ false
unfolding run_meets
fold_refuses = refl

fold_admits : admits_number (fold_constraints from_one from_two) (codes "10.50") ≡ true
unfolding run_meets
fold_admits = refl

fold-admits_number_example :
    admits_number (fold_constraints from_one from_two) (codes "10.50")
    ≡ (admits_number from_one (codes "10.50") && admits_number from_two (codes "10.50"))
fold-admits_number_example = fold-admits_number from_one from_two (codes "10.50") sets_meet one_step

fold-within_example :
    let f = fold_constraints from_one from_two in
    (within (pos 5) f.min_length f.max_length ≡ (
      within (pos 5) from_one.min_length from_one.max_length
      && within (pos 5) from_two.min_length from_two.max_length))
    × (within (pos 5) f.min_items f.max_items ≡ (
        within (pos 5) from_one.min_items from_one.max_items
        && within (pos 5) from_two.min_items from_two.max_items))
    × (within (pos 5) f.min_props f.max_props ≡ (
        within (pos 5) from_one.min_props from_one.max_props
        && within (pos 5) from_two.min_props from_two.max_props))
fold-within_example = fold-within from_one from_two (pos 5)

abbrev narrow : Constraints
narrow = record no_constraints { min = some (codes "3"); max = some (codes "4") }

abbrev wide : Constraints
wide = record no_constraints { min = some (codes "0.5"); max = some (codes "4.0") }

abbrev respelled : Constraints
respelled = record no_constraints { min = some (codes "5e-1"); max = some (codes "4") }

abbrev reals : List (Option Constraints)
reals = some wide ∷ none ∷ some narrow ∷ []

-- Its line opens all that `bounds_relation` calls.
run_relation : Constraints → Constraints → Relation
unfolding run_meets bounds_relation same_bounds same_sets all_same merge_constraints same_slot
    same_number meet_constraints meet_loop disagreement mark_set first_text larger_count
run_relation a b = bounds_relation (some a) (some b)

narrow_narrower : bounds_relation (some narrow) (some wide) ≡ a_narrower
unfolding run_meets run_relation
narrow_narrower = refl

respelled_same : same_sets wide respelled ≡ true
unfolding run_meets run_relation
respelled_same = refl

no_steps : (is_set narrow.multiple_of && is_set wide.multiple_of) ≡ false
unfolding run_meets
no_steps = refl

narrow_admits : admits_number narrow (codes "3.5") ≡ true
unfolding run_meets
narrow_admits = refl

meet_of_two :
    meet_constraints reals
    ≡ (some (record no_constraints { min = some (codes "3"); max = some (codes "4.0") }), [])
unfolding run_meets run_relation
meet_of_two = refl

bounds_relation-admits_number_example :
    Told narrow wide (codes "3.5") (bounds_relation (some narrow) (some wide))
bounds_relation-admits_number_example =
    bounds_relation-admits_number narrow wide (codes "3.5") no_steps

abbrev reading : Visibility
reading = record { only = codes "read" ∷ codes "update" ∷ []; is_none = false }

abbrev writing : Visibility
writing = record { only = codes "create" ∷ codes "update" ∷ []; is_none = false }

merge_update :
    merge_visibility reading writing ≡ record { only = codes "update" ∷ []; is_none = false }
unfolding merge_visibility no_lifecycles intersect_lifecycles compare_lifecycles compare_text
    keep_listed listed same_text
merge_update = refl

merge_visibility-visible_example :
    visible (merge_visibility reading writing) (codes "read")
    ≡ (visible reading (codes "read") && visible writing (codes "read"))
merge_visibility-visible_example = merge_visibility-visible reading writing (codes "read")

abbrev guessed : TypeRef
guessed = record { target = codes "type/spec/a"; nullable = true; inferred = codes "enum" }

abbrev declared : TypeRef
declared = record { target = codes "type/spec/a"; nullable = true; inferred = [] }

intersect_null-rests_on_example :
    ((intersect_null declared guessed).nullable ≡ (declared.nullable && guessed.nullable))
    × (rests_on (intersect_null declared guessed) (codes "enum") ≡ (
        (declared.nullable && guessed.nullable)
        && (rests_on declared (codes "enum") || rests_on guessed (codes "enum"))))
intersect_null-rests_on_example = intersect_null-rests_on declared guessed (codes "enum") refl
