-- ===== src/Compile/Types/Tests.antt =====
-- Runs of compilers/compile/types.go, and its theorems at a node that interns another.
use morphic.Base.{ℕ, true, [], ◌∷◌, none, some, codes, ◌≡◌, refl, same_text, find, delete}
use morphic.Compile.Types.{
  Types, new_types, claim, claim_id, claim_space, space_of, refuse, built, intern, lookup, node_at,
  building, register, prim_ref, node,
}
use morphic.Ir.Ids.{segment}
use morphic.Compile.Types.Interned.{
  Making, gives, interns, run_making, build_of, Keeps, intern-Keeps, intern-node_at,
}

-- A node of no other, and one that interns it.
abbrev owner : Making ℕ
owner = gives (some 9)

abbrev pet : Making ℕ
pet = interns (codes "/b") (codes "type/spec/b") owner (λ id. gives (some 7))

abbrev start : Types ℕ
start = new_types

-- Its line opens all that `intern` calls.
run_intern : Types ℕ → Types ℕ
unfolding run_making intern claim claim_id claim_space space_of segment refuse built find delete
    lookup node_at node building register prim_ref same_text
run_intern t = (intern (codes "/a") (codes "type/spec/a") (some (run_making pet)) t).0

both_held : (run_intern start).reg ≡ (codes "type/spec/a", 7) ∷ (codes "type/spec/b", 9) ∷ []
unfolding run_intern
both_held = refl

pet_building :
    building (codes "type/spec/a") (claim (codes "/a") (codes "type/spec/a") start) ≡ true
unfolding run_intern
pet_building = refl

none_known : lookup (codes "/a") start ≡ none
unfolding run_intern
none_known = refl

intern-Keeps_example :
    Keeps start (intern (codes "/a") (codes "type/spec/a") (build_of (some pet)) start).0
intern-Keeps_example = intern-Keeps (codes "/a") (codes "type/spec/a") (some pet) start

abbrev claimed : Types ℕ
claimed = claim (codes "/a") (codes "type/spec/a") start

pet_ran : run_making pet claimed ≡ ((run_making pet claimed).0, some 7)
unfolding run_making
pet_ran = refl

intern-node_at_example :
    let r = (intern (codes "/a") (codes "type/spec/a") (some (run_making pet)) start).0 in
    (intern (codes "/a") (codes "type/spec/c") none claimed ≡ (claimed, codes "type/spec/a"))
    × (lookup (codes "/a") r ≡ some (codes "type/spec/a"))
    × (node_at (codes "/a") r ≡ some 7)
    × (intern (codes "/a") (codes "type/spec/c") none r ≡ (r, codes "type/spec/a"))
intern-node_at_example =
    intern-node_at (codes "/a") (codes "type/spec/a") pet start (run_making pet claimed).0 7
      (codes "type/spec/c") none none_known refl pet_ran
