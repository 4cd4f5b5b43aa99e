-- ===== src/Compile/Ids.antt =====
-- compilers/compile/ids.go: how the compilers make identifiers.
pub mod Parts
mod Tests
use morphic.Base.{ℕ, List, [], ◌∷◌, ◌++◌, Bytes, if◌then◌else◌, ◌==◌}
use morphic.Ir.BigVal.{is_nil}
use morphic.Ir.Ids.{id_separator, opening, trim_prefix}

-- `strings.ReplaceAll` of one byte by two.
unfoldable pub replace_byte : ℕ → ℕ → ℕ → Bytes → Bytes
replace_byte c x y [] = []
replace_byte c x y (b ∷ s) =
    let rest = replace_byte c x y s in if b == c then x ∷ y ∷ rest else b ∷ rest

abbrev pub qualifier : ℕ
qualifier = b'@'

-- What `Qualified` makes of the name of a document: `~0` for each tilde, then `~1` for each separator.
unfoldable pub escape : Bytes → Bytes
escape document = replace_byte id_separator b'~' b'1' (replace_byte b'~' b'~' b'0' document)

unfoldable pub qualified : Bytes → Bytes → Bytes
qualified space document = space ++ qualifier ∷ escape document

unfoldable pub id_for : Bytes → Bytes → Bytes → Bytes
id_for kind space path =
    let trimmed = trim_prefix (id_separator ∷ []) path in
    if is_nil trimmed
    then opening kind ++ space
    else opening kind ++ (space ++ id_separator ∷ trimmed)
