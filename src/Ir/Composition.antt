-- ===== src/Ir/Composition.antt =====
-- ir/composition.go: what a model is a subtype of, read with a budget of steps.
-- A registry is a table from identifiers to nodes, of which the walk reads models and scalars. A budget
-- is a number of steps that are left, none below zero; where one runs out nothing is left, and the
-- answer is `none`.
pub mod Alias
pub mod Supers
pub mod Below
pub mod Budget
mod Tests
use morphic.Base.{
  ℕ, zero, suc, ◌-◌, ◌^◌, Bool, true, false, not, List, [], ◌∷◌, ◌++◌, Option, none, some, Bytes,
  Table, find, has, if◌then◌else◌,
}
use morphic.Ir.BigVal.{is_nil}

-- The parts of a model that composition reads: the identifiers of its properties and of the types that
-- it refers to.
pub record Model : Type 0 where
  pub properties : List Bytes
  pub base : Option Bytes
  pub implements : List Bytes
  pub mixins : List Bytes

-- A typed nil is a node that holds nothing.
pub data TypeDef : Type 0 where
  model : Model → TypeDef
  scalar : Option Bytes → TypeDef
  nil_def other_def : TypeDef

abbrev pub TypeRegistry : Type 0
TypeRegistry = Table TypeDef

abbrev pub base_of : Option TypeDef → Option Bytes
base_of none = none
base_of (some (model m)) = none
base_of (some (scalar base)) = base
base_of (some nil_def) = none
base_of (some other_def) = none

abbrev pub model_of : Option TypeDef → Option Model
model_of none = none
model_of (some (model m)) = some m
model_of (some (scalar base)) = none
model_of (some nil_def) = none
model_of (some other_def) = none

unfoldable pub alias_base : TypeRegistry → Bytes → Option Bytes
alias_base types id = base_of (find types id)

-- The loop of `aliasTarget`, which takes a step for each alias.
unfoldable pub alias_loop : TypeRegistry → List Bytes → Bytes → ℕ → Option (Bytes × ℕ)
alias_loop types seen id zero = elim (alias_base types id) [
  | none ↦ some (id, zero)
  | some base ↦ if has seen id then some (id, zero) else none
]
alias_loop types seen id (suc left) = elim (alias_base types id) [
  | none ↦ some (id, suc left)
  | some base ↦
      let rest = alias_loop types (id ∷ seen) base left in
      if has seen id then some (id, suc left) else rest
]

unfoldable pub alias_target : TypeRegistry → Bytes → ℕ → Option (Bytes × ℕ)
alias_target types id left = alias_loop types [] id left

unfoldable pub append_supertype : List Bytes → TypeRegistry → Bytes → ℕ → Option (List Bytes × ℕ)
append_supertype dst types target left = elim (alias_target types target left) [
  | none ↦ none
  | some (t, rest) ↦ some (if is_nil t then dst else dst ++ t ∷ [], rest)
]

-- The loop over `Implements`.
unfoldable pub append_all : List Bytes → TypeRegistry → List Bytes → ℕ → Option (List Bytes × ℕ)
append_all dst types [] left = some (dst, left)
append_all dst types (r ∷ rs) left = elim (append_supertype dst types r left) [
  | none ↦ none
  | some (next, rest) ↦ append_all next types rs rest
]

unfoldable pub model_supertypes : List Bytes → TypeRegistry → Model → ℕ → Option (List Bytes × ℕ)
model_supertypes dst types m left = elim m.base [
  | none ↦ append_all dst types m.implements left
  | some target ↦ elim (append_supertype dst types target left) [
    | none ↦ none
    | some (next, rest) ↦ append_all next types m.implements rest
  ]
]

-- A document that is nil has no registry.
unfoldable pub supertypes : List Bytes → Option TypeRegistry → Bytes → ℕ → Option (List Bytes × ℕ)
supertypes dst none id left = some (dst, left)
supertypes dst (some types) id left = elim (model_of (find types id)) [
  | none ↦ some (dst, left)
  | some m ↦ model_supertypes dst types m left
]

abbrev pub max_int : ℕ
max_int = 9_223_372_036_854_775_807

-- What a round of `isSubtype` makes of the identifier that it took off the queue.
pub data Round : Type 0 where
  again : (seen queue : List Bytes) → ℕ → Round
  found : ℕ → Round
  spent : Round

-- The queue is taken from at its end, which is the head of the list here.
unfoldable pub push_all : List Bytes → List Bytes → List Bytes
push_all [] queue = queue
push_all (s ∷ supers) queue = push_all supers (s ∷ queue)

unfoldable pub expand : Option TypeRegistry → Bytes → List Bytes → Bytes → List Bytes → ℕ → Round
expand doc base seen id queue left = elim (supertypes [] doc id left) [
  | none ↦ spent
  | some (supers, rest) ↦
      if has supers base then found rest else again (id ∷ seen) (push_all supers queue) rest
]

unfoldable pub round : Option TypeRegistry → Bytes → List Bytes → Bytes → List Bytes → ℕ → Round
round doc base seen id queue zero = spent
round doc base seen id queue (suc left) =
    if has seen id then again seen queue left else expand doc base seen id queue left

-- The loop of `isSubtype`. A round takes a step, so as many rounds as steps are never too few: when no
-- round is left, no step is either.
unfoldable pub sub_loop :
    Option TypeRegistry → Bytes → ℕ → List Bytes → List Bytes → ℕ → Option (Bool × ℕ)
sub_loop doc base rounds seen [] left = some (false, left)
sub_loop doc base zero seen (id ∷ queue) left = none
sub_loop doc base (suc rounds) seen (id ∷ queue) left = elim (round doc base seen id queue left) [
  | spent ↦ none
  | found rest ↦ some (true, rest)
  | again seen' queue' rest ↦ sub_loop doc base rounds seen' queue' rest
]

unfoldable pub is_subtype_loop : Option TypeRegistry → Bytes → Bytes → ℕ → Option (Bool × ℕ)
is_subtype_loop doc target base left = sub_loop doc base left [] (target ∷ []) left

pub record Answer : Type 0 where
  pub sub : Bool
  pub spent : ℕ
  pub ok : Bool

unfoldable pub is_subtype_within : Option TypeRegistry → Bytes → Bytes → ℕ → Answer
is_subtype_within doc target base limit = elim (is_subtype_loop doc target base limit) [
  | none ↦ record { sub = false; spent = limit; ok = false }
  | some (sub, left) ↦ record { sub = sub; spent = limit - left; ok = true }
]

unfoldable pub is_subtype : Option TypeRegistry → Bytes → Bytes → Bool
is_subtype doc target base = (is_subtype_within doc target base max_int).sub
