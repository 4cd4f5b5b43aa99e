-- ===== src/Ir/Inferred.antt =====
-- ir/inferred.go: the list of the heuristics that a value rests on, as one text.
-- The text is a list of bytes, and `strings.SplitSeq` yields the pieces between its commas.
pub mod Canonical
pub mod Members
mod Tests
use morphic.Base.{
  ℕ, Bool, true, false, not, ◌&&◌, ◌||◌, List, [], ◌∷◌, ◌++◌, Bytes, if◌then◌else◌, has, ◌==◌, map,
}
use morphic.Ir.BigVal.{is_nil}

-- An `Inferred` is its text.
abbrev pub Inferred : Type 0
Inferred = Bytes

abbrev pub inferred_separator : ℕ
inferred_separator = b','

-- A byte before the first piece.
unfoldable pub extend : ℕ → List Bytes → List Bytes
extend c [] = (c ∷ []) ∷ []
extend c (p ∷ ps) = (c ∷ p) ∷ ps

-- The pieces of a text, at least one.
unfoldable pub split : Bytes → List Bytes
split [] = [] ∷ []
split (c ∷ s) = let rest = split s in if c == inferred_separator then [] ∷ rest else extend c rest

-- `strings.Join`.
unfoldable pub join : List Bytes → Bytes
join [] = []
join (n ∷ []) = n
join (n ∷ m ∷ ns) = n ++ inferred_separator ∷ join (m ∷ ns)

-- The loop over the pieces of one list: `names` are those taken so far, which are the map's keys.
unfoldable pub take_names : List Bytes → List Bytes → List Bytes
take_names names [] = names
take_names names (n ∷ ns) =
    take_names (if has names n || is_nil n then names else names ++ n ∷ []) ns

unfoldable pub take_lists : List Bytes → List Inferred → List Bytes
take_lists names [] = names
take_lists names (l ∷ ls) = take_lists (take_names names (split l)) ls

unfoldable pub join_inferred : List Inferred → Inferred
join_inferred lists = join (take_lists [] lists)

-- The loop of `IsCanonical`.
unfoldable pub all_new : List Bytes → List Bytes → Bool
all_new listed [] = true
all_new listed (n ∷ ns) =
    let rest = all_new (n ∷ listed) ns in if has listed n || is_nil n then false else rest

unfoldable pub is_canonical : Inferred → Bool
is_canonical [] = true
is_canonical (c ∷ s) = all_new [] (split (c ∷ s))
