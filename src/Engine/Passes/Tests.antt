-- ===== src/Engine/Passes/Tests.antt =====
-- Runs of engine/passes.go, and its theorems at concrete passes.
use morphic.Base.{
  ℕ, true, false, List, [], ◌∷◌, Option, some, Result, ok, err, codes, refl, ◌≡◌, ◌⊎◌, Bytes,
  same_text,
}
use morphic.Engine.Passes.{
  NamedPass, GivenPass, PassesError, both_named, unknown_pass, bind_passes, bind_loop, name_of,
  names_of, position, contains, enabled_passes, check_known, delete_named,
}
use morphic.Engine.Passes.Names.{Binds, Distinct, Left, bind_passes_ok, enabled_passes_lem}

abbrev given : Bytes → ℕ → Option (GivenPass ℕ)
given name p = some (record { answer = some name; pass = p })

abbrev named : Bytes → ℕ → NamedPass ℕ
named name p = record { name = name; pass = p }

abbrev given_two : List (Option (GivenPass ℕ))
given_two = given (codes "flatten") 1 ∷ given (codes "prune") 2 ∷ []

abbrev bound_two : List (NamedPass ℕ)
bound_two = named (codes "flatten") 1 ∷ named (codes "prune") 2 ∷ []

-- Its line opens all that `bind_passes` and `enabled_passes` call.
run_bind : List (Option (GivenPass ℕ)) → Result PassesError (List (NamedPass ℕ))
unfolding bind_passes bind_loop name_of position same_text enabled_passes check_known delete_named
    contains
run_bind ps = bind_passes ps

bind_two : bind_passes given_two ≡ ok bound_two
unfolding run_bind
bind_two = refl

bind_twice :
    bind_passes (given (codes "flatten") 1 ∷ given (codes "flatten") 2 ∷ [])
    ≡ err (both_named 0 1 (codes "flatten"))
unfolding run_bind
bind_twice = refl

disable_unknown : enabled_passes bound_two (codes "lint" ∷ []) ≡ err (unknown_pass (codes "lint"))
unfolding run_bind
disable_unknown = refl

prune_bound : contains (names_of bound_two) (codes "prune") ≡ true
unfolding run_bind
prune_bound = refl

bind_passes_ok_example : Binds given_two bound_two × Distinct (names_of bound_two)
bind_passes_ok_example = bind_passes_ok given_two bind_two

enabled_passes_lem_example :
    ((kept : List (NamedPass ℕ)) × (enabled_passes bound_two (codes "prune" ∷ []) ≡ ok kept)
      × Left (codes "prune" ∷ []) bound_two kept
      × ((d : Bytes)
          → contains (codes "prune" ∷ []) d ≡ true
          → contains (names_of bound_two) d ≡ true))
    ⊎ ((d : Bytes) × (enabled_passes bound_two (codes "prune" ∷ []) ≡ err (unknown_pass d))
        × (contains (names_of bound_two) d ≡ false)
        × (contains (codes "prune" ∷ []) d ≡ true))
enabled_passes_lem_example = enabled_passes_lem bound_two (codes "prune" ∷ [])
