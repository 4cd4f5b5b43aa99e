-- ===== src/Ir/Composition/Tests.antt =====
-- Runs of ir/composition.go, and its theorems at a registry whose supertypes form a cycle.
use morphic.Base.{
  ◌≤◌, true, false, [], ◌∷◌, Option, none, some, codes, ◌≡◌, ◌↔◌, refl, find, has, same_text, arith,
}
use morphic.Ir.Composition.{
  Model, TypeRegistry, model, scalar, Answer, alias_base, alias_loop, alias_target,
  append_supertype, append_all, model_supertypes, supertypes, push_all, expand, round, sub_loop,
  is_subtype_loop, is_subtype_within,
}
use morphic.Ir.Composition.Alias.{total}
use morphic.Ir.Composition.Below.{Below, is_subtype_within-Below}
use morphic.Ir.Composition.Budget.{named, needed, is_subtype_within-ok}

abbrev dog : Model
dog = record {
  properties = [];
  base = some (codes "pet");
  implements = codes "loud" ∷ [];
  mixins = [];
}

abbrev pet : Model
pet = record { properties = []; base = none; implements = codes "animal" ∷ []; mixins = [] }

abbrev animal : Model
animal = record { properties = []; base = some (codes "dog"); implements = []; mixins = [] }

-- A dog is a pet under the name of an alias, and is loud; the supertypes lead back to the dog.
abbrev pets : TypeRegistry
pets =
    (codes "dog", model dog)
    ∷ (codes "pet", scalar (some (codes "cat")))
    ∷ (codes "cat", model pet)
    ∷ (codes "animal", model animal)
    ∷ []

run_within : Option TypeRegistry → Answer
unfolding is_subtype_within is_subtype_loop sub_loop round expand push_all supertypes
    model_supertypes append_all append_supertype alias_target alias_loop alias_base find has
    same_text total named
run_within doc = is_subtype_within doc (codes "dog") (codes "dog") 100

round_about : run_within (some pets) ≡ record { sub = true; spent = 5; ok = true }
unfolding run_within
round_about = refl

budget_short : (is_subtype_within (some pets) (codes "dog") (codes "dog") 4).ok ≡ false
unfolding run_within
budget_short = refl

budget_enough : needed pets ≤ 100
unfolding run_within
budget_enough = omega arith

is_subtype_within-Below_example :
    (is_subtype_within (some pets) (codes "dog") (codes "dog") 100).sub ≡ true
    ↔ Below pets (codes "dog") (codes "dog")
is_subtype_within-Below_example =
    is_subtype_within-Below (some pets) (codes "dog") (codes "dog") 100
      (is_subtype_within-ok (some pets) (codes "dog") (codes "dog") 100 budget_enough)

is_subtype_within-ok_example :
    (is_subtype_within (some pets) (codes "dog") (codes "dog") 100).ok ≡ true
is_subtype_within-ok_example =
    is_subtype_within-ok (some pets) (codes "dog") (codes "dog") 100 budget_enough

pet_cat : alias_target pets (codes "pet") 3 ≡ some (codes "cat", 2)
unfolding run_within
pet_cat = refl
