-- ===== src/Ir/Exposure/Parts.antt =====
-- ir/composition.go, exposedWalk: what a type is made of.
use morphic.Base.{
  true, false, List, [], ◌++◌, Option, none, some, Bytes, find, has, has-append, same_text,
  same_text-eq, same_text_refl, ◌≡◌, ◌⊎◌, inl, inr, ap, ◌∙◌, arith, Bool-cases,
}
use morphic.Ir.Composition.{Model, TypeDef, model, scalar, nil_def, other_def, TypeRegistry}
use morphic.Ir.Exposure.{named_base, part_targets, properties_of}

-- What a type is made of: the base, the interfaces and the mixins of a model, and what an alias stands for.
pub data PartOf : TypeDef → Bytes → Type 0 where
  base_part : {m : Model} {y : Bytes} → m.base ≡ some y → PartOf (model m) y
  interface_part : {m : Model} {y : Bytes} → has m.implements y ≡ true → PartOf (model m) y
  mixin_part : {m : Model} {y : Bytes} → has m.mixins y ≡ true → PartOf (model m) y
  alias_part : {base : Option Bytes} {y : Bytes} → base ≡ some y → PartOf (scalar base) y

-- A walk from a type to one of the types that it is made of, itself among them.
pub data Parts (types : TypeRegistry) : Bytes → Bytes → Type 0 where
  whole : {x : Bytes} → Parts types x x
  part :
      {x y z : Bytes} (node : TypeDef)
      → find types x ≡ some node
      → PartOf node y
      → Parts types y z
      → Parts types x z

-- A property of a model's own.
pub data Own (types : TypeRegistry) (x prop : Bytes) : Type 0 where
  own :
      (m : Model) → find types x ≡ some (model m) → has m.properties prop ≡ true → Own types x prop

pub Parts-snoc :
    {types : TypeRegistry} {x y z : Bytes} (node : TypeDef)
    → Parts types x y
    → find types y ≡ some node
    → PartOf node z
    → Parts types x z
Parts-snoc node whole f h = part node f h whole
Parts-snoc node (part n g k p) f h = part n g k (Parts-snoc node p f h)

pub has-named_base :
    (base : Option Bytes) (ts : List Bytes) (y : Bytes)
    → has (named_base base ts) y ≡ true
    → (base ≡ some y) ⊎ (has ts y ≡ true)
unfolding has
has-named_base none ts y h = inr h
has-named_base (some t) ts y h = elim (Bool-cases (same_text t y)) [
  | inl e ↦ inl (ap some (same_text-eq t y e))
  | inr e ↦ inr (ground (arith, h, e))
]

pub named_base-has :
    (base : Option Bytes) (ts : List Bytes) (y : Bytes)
    → has ts y ≡ true
    → has (named_base base ts) y ≡ true
unfolding has
named_base-has none ts y h = h
named_base-has (some t) ts y h = ground (arith, h)

pub base-has :
    (base : Option Bytes) (ts : List Bytes) (y : Bytes)
    → base ≡ some y
    → has (named_base base ts) y ≡ true
unfolding has
base-has none ts y h = absurd cc
base-has (some t) ts y h =
    let same : t ≡ y = cc in
    let one : same_text t y ≡ true = ap (λ x. same_text x y) same ∙ same_text_refl y in
    ground (arith, one)

pub has_either :
    (xs ys : List Bytes) (y : Bytes)
    → has (xs ++ ys) y ≡ true
    → (has xs y ≡ true) ⊎ (has ys y ≡ true)
has_either xs ys y h = elim (Bool-cases (has xs y)) [
  | inl e ↦ inl e
  | inr e ↦ inr (ground (arith, has-append xs ys y, h, e))
]

pub part_targets-PartOf :
    (node : TypeDef) (y : Bytes) → has (part_targets (some node)) y ≡ true → PartOf node y
unfolding part_targets has
part_targets-PartOf (model m) y h = elim (has-named_base m.base (m.implements ++ m.mixins) y h) [
  | inl e ↦ base_part e
  | inr k ↦ elim (has_either m.implements m.mixins y k) [
    | inl i ↦ interface_part i
    | inr x ↦ mixin_part x
  ]
]
part_targets-PartOf (scalar base) y h = elim (has-named_base base [] y h) [
  | inl e ↦ alias_part e
  | inr k ↦ absurd cc
]
part_targets-PartOf nil_def y h = absurd cc
part_targets-PartOf other_def y h = absurd cc

pub PartOf-part_targets :
    (node : TypeDef) (y : Bytes) → PartOf node y → has (part_targets (some node)) y ≡ true
unfolding part_targets has
PartOf-part_targets (model m) y (base_part e) = base-has m.base (m.implements ++ m.mixins) y e
PartOf-part_targets (model m) y (interface_part i) =
    named_base-has m.base (m.implements ++ m.mixins) y
      (ground (arith, has-append m.implements m.mixins y, i))
PartOf-part_targets (model m) y (mixin_part x) =
    named_base-has m.base (m.implements ++ m.mixins) y
      (ground (arith, has-append m.implements m.mixins y, x))
PartOf-part_targets (scalar base) y (alias_part e) = base-has base [] y e
PartOf-part_targets nil_def y h = elim h [ ]
PartOf-part_targets other_def y h = elim h [ ]

pub no_targets : (y : Bytes) → has (part_targets none) y ≡ true → ⊥
unfolding part_targets has
no_targets y h = cc

pub properties_of-Own :
    (types : TypeRegistry) (x prop : Bytes) (td : Option TypeDef)
    → find types x ≡ td
    → has (properties_of td) prop ≡ true
    → Own types x prop
unfolding properties_of has
properties_of-Own types x prop none e h = absurd cc
properties_of-Own types x prop (some (model m)) e h = own m e h
properties_of-Own types x prop (some (scalar base)) e h = absurd cc
properties_of-Own types x prop (some nil_def) e h = absurd cc
properties_of-Own types x prop (some other_def) e h = absurd cc

pub same_Parts : {types : TypeRegistry} (x y : Bytes) → x ≡ y → Parts types x y
same_Parts x y e = rw e whole

pub Own-missing :
    (types : TypeRegistry) (x prop : Bytes)
    → Own types x prop
    → has (properties_of (find types x)) prop ≡ false
    → ⊥
unfolding properties_of
Own-missing types x prop (own m e h) k = cc (rw (e, properties_of) at k, h)

-- A registry of no types bears no properties.
pub nothing : (root prop : Bytes) → ((x : Bytes) × Parts [] root x × Own [] x prop) → ⊥
unfolding has properties_of find
nothing root prop (x, p, own m e h) = cc
