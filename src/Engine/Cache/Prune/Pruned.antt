-- ===== src/Engine/Cache/Prune/Pruned.antt =====
-- engine/cache/prune.go: what a prune leaves.
use morphic.Base.{
  ℕ, ◌≤◌, ◌<◌, ◌+◌, List, [], ◌∷◌, ◌++◌, Option, none, some, Bytes, ◌≡◌, ◌⊎◌, ◌↔◌, ◌≢◌, map,
}
use morphic.Engine.Cache.Prune.{DirEntry, Held}
use morphic.Engine.Cache.Prune.Sorted.{OldestFirst, Holds, Listed}

-- The bytes of some files, without a bound.
unfoldable pub total_size : List Held → ℕ
total_size [] = 0
total_size (f ∷ files) = f.size + total_size files

abbrev held_names : List Held → List Bytes
held_names files = map (λ f. f.name) files

-- The last of the files that are removed was in the way: with it, those kept were too many.
abbrev Needed : ℕ → List Held → List Held → Type 0
Needed limit gone kept =
    (gone ≡ [])
    ⊎ ((early : List Held) × (x : Held) × (gone ≡ early ++ x ∷ [])
        × (limit < x.size + total_size kept))

-- Some files, of which the first were removed.
pub record Cut (limit : ℕ) (files : List Held) (names : List Bytes) : Type 0 where
  pub gone : List Held
  pub kept : List Held
  pub parts : files ≡ gone ++ kept
  pub asked_for : names ≡ held_names gone
  pub fits : total_size kept ≤ limit
  pub needed : Needed limit gone kept

-- A prune without an error: what was held of the directory, the oldest file first, and where it was cut.
pub record Pruned (limit now : ℕ) (listed : List DirEntry) (names : List Bytes) : Type 0 where
  pub files : List Held
  pub oldest : OldestFirst files
  pub held : (h : Held) → Holds files h ↔ Listed now listed h
  pub cut : Cut limit files names
  pub newest :
      (early : List Held) (x : Held) → files ≡ early ++ x ∷ [] → x.size ≤ limit → cut.kept ≢ []

last_of : List Held → Option Held
last_of [] = none
last_of (x ∷ []) = some x
last_of (x ∷ y ∷ xs) = last_of (y ∷ xs)
