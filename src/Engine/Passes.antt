-- ===== src/Engine/Passes.antt =====
-- engine/passes.go: the passes an engine holds, and those a run leaves on.
-- What a pass computes is `P`, a parameter: `bindPasses` and `enabledPasses` read its name alone. A
-- pass handed to the engine is absent where it is nil, and its name is absent where `Name` panics.
pub mod Names
mod Tests
use morphic.Base.{
  ℕ, suc, ◌+◌, Bool, true, false, List, [], ◌∷◌, ◌++◌, Option, none, some, Result, ok, err, Bytes,
  ◌||◌, if◌then◌else◌, same_text, not,
}

pub data PassesError : Type 0 where
  nil_pass : ℕ → PassesError
  name_panicked : ℕ → PassesError
  no_name : ℕ → PassesError
  both_named : (first second : ℕ) → Bytes → PassesError
  unknown_pass : Bytes → PassesError

pub record NamedPass {ℓ} (P : Type ℓ) : Type ℓ where
  pub name : Bytes
  pub pass : P

-- A pass as a caller hands it over: its answer to `Name`, and the rest of it.
pub record GivenPass {ℓ} (P : Type ℓ) : Type ℓ where
  pub answer : Option Bytes
  pub pass : P

-- The map `at`, from the names bound so far to their positions.
pub position : List (Bytes × ℕ) → Bytes → Option ℕ
position [] name = none
position ((n, i) ∷ bound) name = if same_text n name then some i else position bound name

-- `slices.Contains`.
unfoldable pub contains : List Bytes → Bytes → Bool
contains [] name = false
contains (n ∷ names) name = same_text n name || contains names name

-- The first name of the list that no pass carries.
unfoldable pub check_known : List Bytes → List Bytes → Option Bytes
check_known names [] = none
check_known names (d ∷ disabled) = if contains names d then check_known names disabled else some d

module _ {ℓ} {P : Type ℓ} where
  abbrev pub names_of : List (NamedPass P) → List Bytes
  names_of [] = []
  names_of (p ∷ ps) = p.name ∷ names_of ps

  -- What one round of `bindPasses` refuses a pass for, or the name it has.
  pub name_of : ℕ → List (Bytes × ℕ) → Option (GivenPass P) → Result PassesError (NamedPass P)
  name_of i at none = err (nil_pass i)
  name_of i at (some given) = elim given.answer [
    | none ↦ err (name_panicked i)
    | some [] ↦ err (no_name i)
    | some (c ∷ name) ↦ elim (position at (c ∷ name)) [
      | none ↦ ok (record { name = c ∷ name; pass = given.pass })
      | some first ↦ err (both_named first i (c ∷ name))
    ]
  ]

  pub bind_loop :
      ℕ
      → List (Bytes × ℕ)
      → List (NamedPass P)
      → List (Option (GivenPass P))
      → Result PassesError (List (NamedPass P))
  bind_loop i at bound [] = ok bound
  bind_loop i at bound (p ∷ ps) = elim (name_of i at p) [
    | err e ↦ err e
    | ok named ↦ bind_loop (i + 1) ((named.name, i) ∷ at) (bound ++ named ∷ []) ps
  ]

  unfoldable pub bind_passes : List (Option (GivenPass P)) → Result PassesError (List (NamedPass P))
  bind_passes ps = bind_loop 0 [] [] ps

  -- `slices.DeleteFunc` by the names disabled.
  unfoldable pub delete_named : List Bytes → List (NamedPass P) → List (NamedPass P)
  delete_named disabled [] = []
  delete_named disabled (p ∷ ps) =
      let rest = delete_named disabled ps in if contains disabled p.name then rest else p ∷ rest

  unfoldable pub enabled_passes :
      List (NamedPass P) → List Bytes → Result PassesError (List (NamedPass P))
  enabled_passes passes disabled = elim (check_known (names_of passes) disabled) [
    | some name ↦ err (unknown_pass name)
    | none ↦ ok (delete_named disabled passes)
  ]
