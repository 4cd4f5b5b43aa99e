-- ===== src/Merge/Formats/Uuid.antt =====
-- `isUUID` against the form of a UUID.
use morphic.Base.{
  ℕ, zero, suc, ◌+◌, ◌<◌, ◌≤◌, ◌==◌, ◌||◌, false, ◌⊎◌, inl, inr, true, [], ◌∷◌, Bytes, length,
  get_or, ◌≡◌, ◌↔◌, refl, ap, ◌∙◌, sym, arith,
}
use morphic.Merge.Formats.{is_hex, uuid_byte, uuid_loop, is_uuid}

uuid_loop_bytes :
    (i : ℕ) (s : Bytes)
    → uuid_loop i s ≡ true
    → (j : ℕ) → j < length s
    → uuid_byte (i + j) (get_or s j 0) ≡ true
unfolding uuid_loop
uuid_loop_bytes i [] h j k = absurd (omega arith)
uuid_loop_bytes i (c ∷ s) h zero k =
    let same : i + 0 ≡ i = omega arith in ap (λ n. uuid_byte n c) same ∙ ground arith
uuid_loop_bytes i (c ∷ s) h (suc j) k =
    let same : i + suc j ≡ suc i + j = omega arith in
    ap (λ n. uuid_byte n (get_or s j 0)) same
    ∙ uuid_loop_bytes (suc i) s (ground arith) j (omega arith)

bytes_uuid_loop :
    (i : ℕ) (s : Bytes)
    → ((j : ℕ) → j < length s → uuid_byte (i + j) (get_or s j 0) ≡ true)
    → uuid_loop i s ≡ true
unfolding uuid_loop
bytes_uuid_loop i [] h = refl
bytes_uuid_loop i (c ∷ s) h =
    let same : i ≡ i + 0 = omega arith in
    let first : uuid_byte i c ≡ true = ap (λ n. uuid_byte n c) same ∙ h 0 (omega arith) in
    let rest = bytes_uuid_loop (suc i) s (λ j k.
      let shifted : suc i + j ≡ i + suc j = omega arith in
      ap (λ n. uuid_byte n (get_or s j 0)) shifted ∙ h (suc j) (omega arith)) in
    ground (arith, first, rest)

from_start : (j : ℕ) → 0 + j ≡ j
from_start j = omega arith

-- Where the dashes of a UUID stand.
abbrev pub DashAt : ℕ → Type 0
DashAt j = (j ≡ 8) ⊎ ((j ≡ 13) ⊎ ((j ≡ 18) ⊎ (j ≡ 23)))

abbrev pub HexDigit : ℕ → Type 0
HexDigit c = ((b'0' ≤ c) × (c ≤ b'9')) ⊎ (((b'a' ≤ c) × (c ≤ b'f')) ⊎ ((b'A' ≤ c) × (c ≤ b'F')))

-- A dash in its place, or a hexadecimal digit elsewhere.
abbrev pub InPlace : ℕ → ℕ → Type 0
InPlace j c = (DashAt j × (c ≡ b'-')) ⊎ ((DashAt j → ⊥) × HexDigit c)

DashAt-cases :
    (j : ℕ)
    → (DashAt j × ((j == 8 || (j == 13 || (j == 18 || j == 23))) ≡ true))
      ⊎ ((DashAt j → ⊥) × ((j == 8 || (j == 13 || (j == 18 || j == 23))) ≡ false))
DashAt-cases j = ground arith

HexDigit-iff : (c : ℕ) → (is_hex c ≡ true) ↔ HexDigit c
HexDigit-iff c = (λ h. ground (arith, h), λ h. ground (arith, h))

uuid_byte-InPlace : (j c : ℕ) → (uuid_byte j c ≡ true) ↔ InPlace j c
unfolding uuid_byte
uuid_byte-InPlace j c = elim (DashAt-cases j) [
  | inl (at, e) ↦ (
    (λ h. inl (at, ground (arith, rw (uuid_byte, e) at h))),
    λ k. elim k [
      | inl (_, dash) ↦ rw (uuid_byte, e) (ground (arith, dash))
      | inr (no_dash, _) ↦ absurd (no_dash at)
    ],
  )
  | inr (no_dash, e) ↦ (
    (λ h. inr (no_dash, (HexDigit-iff c).0 (rw (uuid_byte, e) at h))),
    λ k. elim k [
      | inl (at, _) ↦ absurd (no_dash at)
      | inr (_, hex) ↦ rw (uuid_byte, e) ((HexDigit-iff c).1 hex)
    ],
  )
]

-- A text is a UUID exactly where it has 36 bytes, those at 8, 13, 18 and 23 dashes and the others
-- hexadecimal digits.
pub is_uuid_iff :
    (s : Bytes)
    → (is_uuid s ≡ true) ↔ ((length s ≡ 36) × ((j : ℕ) → j < length s → InPlace j (get_or s j 0)))
unfolding is_uuid
is_uuid_iff s = (
  λ h. (
    ground arith,
    λ j k. (uuid_byte-InPlace j (get_or s j 0)).0 (
        sym (ap (λ n. uuid_byte n (get_or s j 0)) (from_start j))
        ∙ uuid_loop_bytes 0 s (ground arith) j k),
  ),
  λ p.
      let loop = bytes_uuid_loop 0 s (λ j k.
        ap (λ n. uuid_byte n (get_or s j 0)) (from_start j)
        ∙ (uuid_byte-InPlace j (get_or s j 0)).1 (p.1 j k)) in
      ground (arith, p.0, loop),
)
