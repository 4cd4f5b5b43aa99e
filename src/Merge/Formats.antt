-- ===== src/Merge/Formats.antt =====
-- The formats of compilers/openapi/internal/merge/formats.go that are read byte by byte: UUIDs, the
-- shape of a clock time and its offset.
pub mod Uuid
pub mod Uri
pub mod Duration
mod Tests
use morphic.Base.{
  ℕ, zero, suc, ◌+◌, ◌*◌, ◌%◌, Bool, true, false, not, ◌&&◌, ◌||◌, List, [], ◌∷◌, Option, none,
  some, Bytes, codes, length, leb, ◌==◌, if◌then◌else◌, same_text,
}
use morphic.Ir.BigVal.{is_nil}
use morphic.Ir.Decimal.{digit_of}

abbrev pub is_digit : ℕ → Bool
is_digit c = leb b'0' c && leb c b'9'

abbrev pub is_hex : ℕ → Bool
is_hex c = is_digit c || (leb b'a' c && leb c b'f' || leb b'A' c && leb c b'F')

abbrev pub uuid_length : ℕ
uuid_length = 36

-- One round of the loop of `isUUID`.
unfoldable pub uuid_byte : ℕ → ℕ → Bool
uuid_byte i c = if i == 8 || (i == 13 || (i == 18 || i == 23)) then c == b'-' else is_hex c

unfoldable pub uuid_loop : ℕ → Bytes → Bool
uuid_loop i [] = true
uuid_loop i (c ∷ s) = uuid_byte i c && uuid_loop (suc i) s

unfoldable pub is_uuid : Bytes → Bool
is_uuid s = length s == uuid_length && uuid_loop 0 s

-- The value of two digits.
unfoldable pub two_digits : ℕ → ℕ → Option ℕ
two_digits a b = if is_digit a && is_digit b then some (digit_of a * 10 + digit_of b) else none

abbrev pub up_to : ℕ → Option ℕ → Bool
up_to n none = false
up_to n (some k) = leb k n

unfoldable pub offset_shape : Bytes → Bool
offset_shape (g ∷ h ∷ i ∷ c ∷ m ∷ n ∷ []) =
    (g == b'+' || g == b'-')
    && (c == b':' && (up_to 23 (two_digits h i) && up_to 59 (two_digits m n)))
offset_shape s = false

unfoldable pub is_offset : Bytes → Bool
is_offset s = if same_text s (codes "Z") || same_text s (codes "z") then true else offset_shape s

-- The run of digits that a text opens with is dropped.
unfoldable pub past_digits : Bytes → Bytes
past_digits [] = []
past_digits (c ∷ s) = let rest = past_digits s in if is_digit c then rest else c ∷ s

-- The fraction behind the seconds, which has a digit where it has a point.
unfoldable pub past_fraction : Bytes → Option Bytes
past_fraction [] = some []
past_fraction (c ∷ []) = if c == b'.' then none else some (c ∷ [])
past_fraction (c ∷ d ∷ s) =
    if c == b'.' then (if is_digit d then some (past_digits s) else none) else some (c ∷ d ∷ s)

-- The eight bytes of the clock: the test of the separators comes first, and then that of the digits.
unfoldable pub clock_shape : Bytes → Bool → Bool
clock_shape (a ∷ b ∷ c ∷ d ∷ e ∷ f ∷ g ∷ h ∷ s) offset =
    (c == b':' && f == b':')
    && ((is_digit a && (is_digit b && (is_digit d && (is_digit e && (is_digit g && is_digit h)))))
        && elim (past_fraction s) [
          | none ↦ false
          | some rest ↦ if offset then is_offset rest else is_nil rest
        ])
clock_shape s offset = false
