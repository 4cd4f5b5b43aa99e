-- ===== src/Base/Tables.antt =====
-- Go maps and sets of texts as lists: the first pair of a key is its entry.
use mathlib.Core.Path.{◌≡◌, refl, ap, ◌∙◌}
use mathlib.Core.Logic.{inl, inr}
use mathlib.Core.Bool.{Bool, false, ◌||◌}
use mathlib.Core.List.{List, [], ◌∷◌, ◌++◌}
use mathlib.Core.Option.{Option, none, some}
use native.Mathlib.Omega.{arith}
use morphic.Base.Tests.{if◌then◌else◌, Bool-cases}
use morphic.Base.Text.{Bytes, same_text, same_text-eq}

abbrev pub Table : Type 0 → Type 0
Table A = List (Bytes × A)

module _ {A : Type 0} where
  -- `m[key]`.
  unfoldable pub find : Table A → Bytes → Option A
  find [] key = none
  find ((k, a) ∷ table) key = if same_text k key then some a else find table key

  -- `delete(m, key)`.
  unfoldable pub delete : Table A → Bytes → Table A
  delete [] key = []
  delete ((k, a) ∷ table) key =
      let rest = delete table key in if same_text k key then rest else (k, a) ∷ rest

-- Whether a set, or a slice, has a text.
unfoldable pub has : List Bytes → Bytes → Bool
has [] n = false
has (x ∷ xs) n = same_text x n || has xs n

pub has-append : (xs ys : List Bytes) (n : Bytes) → has (xs ++ ys) n ≡ (has xs n || has ys n)
unfolding has
has-append [] ys n = refl
has-append (x ∷ xs) ys n = ground (arith, has-append xs ys n)

pub find-delete :
    {A : Type 0} (table : Table A) (key other : Bytes)
    → same_text other key ≡ false
    → find (delete table other) key ≡ find table key
unfolding find delete
find-delete [] key other h = refl
find-delete ((k, a) ∷ table) key other h = elim (Bool-cases (same_text k other)) [
  | inl e ↦
      let same : k ≡ other = same_text-eq k other e in
      let ne : same_text k key ≡ false = ap (λ x. same_text x key) same ∙ h in
      rw (e, delete, ne, find) (find-delete table key other h)
  | inr e ↦ ground (arith, e, find-delete table key other h)
]
