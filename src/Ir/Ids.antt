-- ===== src/Ir/Ids.antt =====
-- ir/ids.go: what an identifier is made of.
-- An identifier is a kind, a space and, at most, a path, with a separator between them.
pub mod Parts
mod Tests
use morphic.Base.{
  ℕ, Bool, true, false, not, ◌&&◌, List, [], ◌∷◌, ◌++◌, Option, none, some, Bytes, if◌then◌else◌,
  ◌==◌,
}
use morphic.Ir.BigVal.{is_nil}

abbrev pub id_separator : ℕ
id_separator = b'/'

-- The text up to the next separator, and whether there is one and what stands behind it.
unfoldable pub segment : Bytes → Bytes × Option Bytes
segment [] = ([], none)
segment (c ∷ s) =
    let (head, rest) = segment s in if c == id_separator then ([], some s) else (c ∷ head, rest)

-- `strings.CutPrefix`.
unfoldable pub cut_prefix : Bytes → Bytes → Option Bytes
cut_prefix [] s = some s
cut_prefix (p ∷ ps) [] = none
cut_prefix (p ∷ ps) (c ∷ s) = let rest = cut_prefix ps s in if p == c then rest else none

abbrev pub opening : Bytes → Bytes
opening kind = kind ++ id_separator ∷ []

-- What stands behind the kind: a space, and a path if a separator follows it.
unfoldable pub rest_valid : Bytes → Bool
rest_valid rest =
    let (space, path) = segment rest in
    not (is_nil rest) && not (is_nil space) && elim path [ none ↦ true | some p ↦ not (is_nil p) ]

unfoldable pub well_formed_id : Bytes → Bytes → Bool
well_formed_id kind id = elim (cut_prefix (opening kind) id) [
  | none ↦ false
  | some rest ↦ rest_valid rest
]

-- `strings.TrimPrefix`.
unfoldable pub trim_prefix : Bytes → Bytes → Bytes
trim_prefix prefix s = elim (cut_prefix prefix s) [ none ↦ s | some rest ↦ rest ]

unfoldable pub id_rest : Bytes → Bytes → Option Bytes
id_rest kind id = if well_formed_id kind id then some (trim_prefix (opening kind) id) else none

unfoldable pub id_space : Bytes → Bytes → Option Bytes
id_space kind id = elim (id_rest kind id) [ none ↦ none | some rest ↦ some (segment rest).0 ]

unfoldable pub id_path : Bytes → Bytes → Option Bytes
id_path kind id = elim (id_rest kind id) [ none ↦ none | some rest ↦ (segment rest).1 ]

-- `PrimTypeID`, with the kind of types and the space of primitives.
unfoldable pub prim_type_id : Bytes → Bytes
prim_type_id k = b't' ∷ id_separator ∷ b'p' ∷ b'r' ∷ b'i' ∷ b'm' ∷ id_separator ∷ k
