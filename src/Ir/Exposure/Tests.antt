-- ===== src/Ir/Exposure/Tests.antt =====
-- Runs of ExposesWithin, and its theorem at a mixin behind an alias.
use morphic.Base.{
  true, false, [], ◌∷◌, none, some, Bytes, codes, ◌≡◌, ◌↔◌, refl, find, has, same_text,
}
use morphic.Ir.Composition.{Model, TypeRegistry, model, scalar, push_all}
use morphic.Ir.Exposure.{
  visit_props, part_targets, properties_of, part_sources, walk_step, walk_loop, exposed_walk,
  Exposes, exposes_within,
}
use morphic.Ir.Exposure.Parts.{Parts, Own}
use morphic.Ir.Exposure.Exposed.{exposes_within-Parts}

abbrev dog : Model
dog = record {
  properties = codes "bark" ∷ [];
  base = none;
  implements = [];
  mixins = codes "named" ∷ [];
}

abbrev tag : Model
tag = record {
  properties = codes "name" ∷ [];
  base = some (codes "dog");
  implements = [];
  mixins = [];
}

-- A dog mixes in a name under an alias, and the mixin leads back to the dog.
abbrev pets : TypeRegistry
pets =
    (codes "dog", model dog)
    ∷ (codes "named", scalar (some (codes "tag")))
    ∷ (codes "tag", model tag)
    ∷ []

run_exposes : Bytes → Exposes
unfolding exposes_within exposed_walk walk_loop walk_step part_sources visit_props part_targets
    properties_of push_all find has same_text
run_exposes prop = exposes_within (some pets) (codes "dog") prop 10

name_exposed : run_exposes (codes "name") ≡ record { exposed = true; spent = 5; ok = true }
unfolding run_exposes
name_exposed = refl

size_missing : run_exposes (codes "size") ≡ record { exposed = false; spent = 6; ok = true }
unfolding run_exposes
size_missing = refl

name_in_time : (exposes_within (some pets) (codes "dog") (codes "name") 10).ok ≡ true
unfolding run_exposes
name_in_time = refl

exposes_within-Parts_example :
    (exposes_within (some pets) (codes "dog") (codes "name") 10).exposed ≡ true
    ↔ ((x : Bytes) × Parts pets (codes "dog") x × Own pets x (codes "name"))
exposes_within-Parts_example =
    exposes_within-Parts (some pets) (codes "dog") (codes "name") 10 name_in_time
