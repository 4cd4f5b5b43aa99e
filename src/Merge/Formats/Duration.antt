-- ===== src/Merge/Formats/Duration.antt =====
-- ISO 8601 durations, of compilers/openapi/internal/merge/formats.go.
use morphic.Base.{
  ℕ, suc, Bool, true, false, not, ◌&&◌, [], ◌∷◌, Option, none, some, Bytes, codes, drop, ◌==◌,
  if◌then◌else◌,
}
use morphic.Ir.BigVal.{is_nil}
use morphic.Merge.Formats.{is_digit}

unfoldable pub all_digits : Bytes → Bool
all_digits [] = true
all_digits (c ∷ s) = is_digit c && all_digits s

unfoldable pub is_digit_run : Bytes → Bool
is_digit_run s = not (is_nil s) && all_digits s

-- `strings.IndexByte`, with `none` for -1.
unfoldable pub index_byte : Bytes → ℕ → Option ℕ
index_byte [] c = none
index_byte (x ∷ s) c =
    if x == c then some 0 else elim (index_byte s c) [ none ↦ none | some i ↦ some (suc i) ]

-- The loop of `consecutiveDesignators`: whether a designator was read, whether digits stand before
-- the byte read, and the designators that may follow.
unfoldable pub designators : Bool → Bool → Bytes → Bytes → Bool
designators started digits order [] = not digits
designators started digits order (c ∷ s) = elim (is_digit c) [
  | true ↦ designators started true order s
  | false ↦ elim (index_byte order c) [
    | none ↦ false
    | some at ↦
        let rest = designators true false (drop (suc at) order) s in
        digits && (not (started && not (at == 0)) && rest)
  ]
]

unfoldable pub consecutive_designators : Bytes → Bytes → Bool
consecutive_designators s order = designators false false order s

-- `strings.Cut` at the byte `b`: what stands before it, and what behind it where it is there.
unfoldable pub cut_byte : ℕ → Bytes → Bytes × Option Bytes
cut_byte b [] = ([], none)
cut_byte b (c ∷ s) =
    let rest = cut_byte b s in if c == b then ([], some s) else (c ∷ rest.0, rest.1)

-- `strings.CutSuffix` of one byte.
unfoldable pub cut_last : ℕ → Bytes → Option Bytes
cut_last b [] = none
cut_last b (c ∷ []) = if c == b then some [] else none
cut_last b (c ∷ d ∷ s) = elim (cut_last b (d ∷ s)) [ none ↦ none | some t ↦ some (c ∷ t) ]

-- The date and the time behind the `P`, where there is a part of each kind that the text has.
unfoldable pub parts_valid : Bytes × Option Bytes → Bool
parts_valid (date, none) = not (is_nil date) && consecutive_designators date (codes "YMD")
parts_valid (date, some time) =
    not (is_nil time)
    && (consecutive_designators date (codes "YMD") && consecutive_designators time (codes "HMS"))

unfoldable pub is_duration : Bytes → Bool
is_duration [] = false
is_duration (c ∷ rest) =
    c == b'P'
    && (not (is_nil rest) && elim (cut_last b'W' rest) [
      | some weeks ↦ is_digit_run weeks
      | none ↦ parts_valid (cut_byte b'T' rest)
    ])
