-- ===== src/Barrier/Text.antt =====
-- barrier/text.go: the cut of a text on a rune boundary, by which a text is made to fit a message.
-- A text is the list of its bytes.
pub mod Bounded
mod Tests
use morphic.Base.{
  ℕ, zero, suc, ◌*◌, Bool, true, false, not, ◌&&◌, ◌||◌, [], ◌∷◌, ◌++◌, Bytes, codes, length, take,
  get_or, leb, if◌then◌else◌,
}

-- `utf8.RuneStart`: a byte other than those from 128 to 191.
abbrev pub rune_start : ℕ → Bool
rune_start b = not (leb 128 b && leb b 191)

-- The loop of `clip`.
unfoldable pub cut_at : Bytes → ℕ → ℕ
cut_at s zero = zero
cut_at s (suc n) = let rest = cut_at s n in if rune_start (get_or s (suc n) 0) then suc n else rest

unfoldable pub clip : Bytes → ℕ → Bytes × Bool
clip s n = if leb (length s) n then (s, false) else (take (cut_at s n) s, true)
