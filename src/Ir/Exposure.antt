-- ===== src/Ir/Exposure.antt =====
-- ir/composition.go: the properties that a type exposes, its own and those of the types it is made of.
-- The walk hands each property to a visitor, which keeps a state and may stop the walk. The budget is that of
-- Ir/Composition: it is never below zero, and `none` is a walk that ran out of it.
pub mod Parts
pub mod Exposed
mod Tests
use morphic.Base.{
  ℕ, zero, suc, ◌-◌, Bool, true, false, List, [], ◌∷◌, ◌++◌, Option, none, some, Bytes, find, has,
  same_text, if◌then◌else◌,
}
use morphic.Ir.Composition.{
  Model, TypeDef, model, scalar, nil_def, other_def, TypeRegistry, push_all, max_int,
}

-- The loop over the properties of a model: the visitor's state, and whether it stopped.
unfoldable pub visit_props :
    {A : Type 0} → (A → Bytes → A × Bool) → List Bytes → A → ℕ → Option ((A × Bool) × ℕ)
visit_props visit [] a left = some ((a, false), left)
visit_props visit (p ∷ ps) a zero = none
visit_props visit (p ∷ ps) a (suc left) =
    let (after, stop) = visit a p in
    let rest = visit_props visit ps after left in if stop then some ((after, true), left) else rest

abbrev pub named_base : Option Bytes → List Bytes → List Bytes
named_base none ts = ts
named_base (some t) ts = t ∷ ts

-- The nodes that a type's other properties come from.
unfoldable pub part_targets : Option TypeDef → List Bytes
part_targets none = []
part_targets (some (model m)) = named_base m.base (m.implements ++ m.mixins)
part_targets (some (scalar base)) = named_base base []
part_targets (some nil_def) = []
part_targets (some other_def) = []

unfoldable pub properties_of : Option TypeDef → List Bytes
properties_of none = []
properties_of (some (model m)) = m.properties
properties_of (some (scalar base)) = []
properties_of (some nil_def) = []
properties_of (some other_def) = []

-- What a round of `exposedWalk` comes to.
pub data Step (A : Type 0) : Type 0 where
  further : (seen queue : List Bytes) → A → ℕ → Step A
  stopped : A → ℕ → Step A
  spent : Step A

-- `partSources` of a type that was not seen, and what the walk makes of it.
unfoldable pub part_sources :
    {A : Type 0}
    → (A → Bytes → A × Bool)
    → Option TypeDef
    → List Bytes
    → Bytes
    → List Bytes
    → A
    → ℕ
    → Step A
part_sources visit td seen id queue a left = elim (visit_props visit (properties_of td) a left) [
  | none ↦ spent
  | some ((after, stop), rest) ↦
      if stop
      then stopped after rest
      else further (id ∷ seen) (push_all (part_targets td) queue) after rest
]

unfoldable pub walk_step :
    {A : Type 0}
    → (A → Bytes → A × Bool)
    → TypeRegistry
    → List Bytes
    → Bytes
    → List Bytes
    → A
    → ℕ
    → Step A
walk_step visit types seen id queue a zero = spent
walk_step visit types seen id queue a (suc left) =
    if has seen id
    then further seen queue a left
    else part_sources visit (find types id) seen id queue a left

-- The loop of `exposedWalk`; a round takes a step, so as many rounds as steps are never too few.
unfoldable pub walk_loop :
    {A : Type 0}
    → (A → Bytes → A × Bool)
    → TypeRegistry
    → ℕ
    → List Bytes
    → List Bytes
    → A
    → ℕ
    → Option (A × ℕ)
walk_loop visit types rounds seen [] a left = some (a, left)
walk_loop visit types zero seen (id ∷ queue) a left = none
walk_loop visit types (suc rounds) seen (id ∷ queue) a left =
    elim (walk_step visit types seen id queue a left) [
      | spent ↦ none
      | stopped after rest ↦ some (after, rest)
      | further seen' queue' after rest ↦ walk_loop visit types rounds seen' queue' after rest
    ]

unfoldable pub exposed_walk :
    {A : Type 0} → (A → Bytes → A × Bool) → Option TypeRegistry → Bytes → A → ℕ → Option (A × ℕ)
exposed_walk visit none root a left = some (a, left)
exposed_walk visit (some types) root a left = walk_loop visit types left [] (root ∷ []) a left

-- The visitor of `ExposesWithin`.
abbrev pub looks_for : Bytes → Bool → Bytes → Bool × Bool
looks_for prop exposed p = (same_text p prop, same_text p prop)

pub record Exposes : Type 0 where
  pub exposed : Bool
  pub spent : ℕ
  pub ok : Bool

-- Where the budget runs out, no property was the one looked for.
unfoldable pub exposes_within : Option TypeRegistry → Bytes → Bytes → ℕ → Exposes
exposes_within doc root prop limit = elim (exposed_walk (looks_for prop) doc root false limit) [
  | none ↦ record { exposed = false; spent = limit; ok = false }
  | some (exposed, left) ↦ record { exposed = exposed; spent = limit - left; ok = true }
]
