-- ===== src/Barrier/Text/Tests.antt =====
-- A run of barrier/text.go, and its theorem at a concrete text.
use morphic.Base.{ℕ, ◌≤◌, ◌<◌, true, false, [], ◌∷◌, ◌++◌, Bytes, length, get_or, ◌≡◌, ◌⊎◌, refl}
use morphic.Barrier.Text.{rune_start, cut_at, clip}
use morphic.Barrier.Text.Bounded.{clip_lem}

-- Two letters about a rune of two bytes.
abbrev accented : Bytes
accented = 97 ∷ 195 ∷ 169 ∷ 98 ∷ []

clip_inside : clip accented 2 ≡ (97 ∷ [], true)
unfolding clip cut_at
clip_inside = refl

clip_lem_example :
    let r = clip accented 2 in
    (length r.0 ≤ 2)
    × ((rest : Bytes) × (accented ≡ r.0 ++ rest))
    × ((length accented ≤ 2) × (r ≡ (accented, false))
        ⊎ (2 < length accented)
          × (r.1 ≡ true)
          × ((length r.0 ≡ 0) ⊎ (rune_start (get_or accented (length r.0) 0) ≡ true))
          × ((i : ℕ) → length r.0 < i → i ≤ 2 → rune_start (get_or accented i 0) ≡ false))
clip_lem_example = clip_lem accented 2
