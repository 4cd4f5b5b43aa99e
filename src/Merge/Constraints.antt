-- ===== src/Merge/Constraints.antt =====
-- compilers/openapi/internal/merge/constraints.go: the fold of two sets of constraint keywords.
-- A pointer to a value is the value where it is not nil; the fold returns the set that it writes.
use morphic.Base.{Bool, true, false, [], Option, none, some, Bytes}
use morphic.Base.Int.{ℤ}
use morphic.Ir.BigVal.{BigVal}

pub record Constraints : Type 0 where
  pub min : Option BigVal
  pub max : Option BigVal
  pub exclusive_min : Option BigVal
  pub exclusive_max : Option BigVal
  pub multiple_of : Option BigVal
  pub precision : Option ℤ
  pub scale : Option ℤ
  pub min_length : Option ℤ
  pub max_length : Option ℤ
  pub pattern_text : Bytes
  pub pattern_message : Bytes
  pub min_items : Option ℤ
  pub max_items : Option ℤ
  pub unique_items : Bool
  pub min_props : Option ℤ
  pub max_props : Option ℤ

-- `ir.Constraints{}`.
abbrev pub no_constraints : Constraints
no_constraints = record {
  min = none;
  max = none;
  exclusive_min = none;
  exclusive_max = none;
  multiple_of = none;
  precision = none;
  scale = none;
  min_length = none;
  max_length = none;
  pattern_text = [];
  pattern_message = [];
  min_items = none;
  max_items = none;
  unique_items = false;
  min_props = none;
  max_props = none;
}

-- The two values that `differ` names, as the sentence prints them.
pub data Shown : Type 0 where
  number : BigVal → Shown
  count : ℤ → Shown
  text : Bytes → Shown

pub record Conflict : Type 0 where
  pub keyword : Bytes
  pub left : Shown
  pub right : Shown

pub record ConstraintKeyword : Type 0 where
  pub set : Constraints → Bool
  pub same : Constraints → Constraints → Bool
  pub meet : Constraints → Constraints → Constraints
  pub differ : Constraints → Constraints → Option Conflict
  pub clear : Constraints → Constraints

-- A field of the set: how it is read, and how it is written.
pub record Slot (T : Type 0) : Type 0 where
  pub read : Constraints → T
  pub write : Constraints → T → Constraints

module _ {T : Type 0} where
  unfoldable pub is_set : Option T → Bool
  is_set none = false
  is_set (some x) = true

  unfoldable pub same_slot : (T → T → Bool) → Option T → Option T → Bool
  same_slot same none none = true
  same_slot same none (some y) = false
  same_slot same (some x) none = false
  same_slot same (some x) (some y) = same x y

  unfoldable pub meet_slot : (T → T → Option T) → Option T → Option T → Option T
  meet_slot meet none y = y
  meet_slot meet (some x) none = some x
  meet_slot meet (some x) (some y) = elim (meet x y) [ none ↦ some x | some met ↦ some met ]

  unfoldable pub differ_slot :
      Bytes → (T → Shown) → (T → T → Option T) → Option T → Option T → Option Conflict
  differ_slot name show meet none y = none
  differ_slot name show meet (some x) none = none
  differ_slot name show meet (some x) (some y) = elim (meet x y) [
    | some met ↦ none
    | none ↦ some (record { keyword = name; left = show x; right = show y })
  ]

  unfoldable pub slot_keyword :
      Bytes
      → (T → Shown)
      → Slot (Option T)
      → (T → T → Bool)
      → (T → T → Option T)
      → ConstraintKeyword
  slot_keyword name show slot same meet = record {
    set = λ c. is_set (slot.read c);
    same = λ a b. same_slot same (slot.read a) (slot.read b);
    meet = λ dst src. slot.write dst (meet_slot meet (slot.read dst) (slot.read src));
    differ = λ a b. differ_slot name show meet (slot.read a) (slot.read b);
    clear = λ c. slot.write c none;
  }
