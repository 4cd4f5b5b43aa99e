-- ===== src/Merge/Nullability.antt =====
-- compilers/openapi/internal/merge/nullability.go: whether a merged reference admits null.
use morphic.Base.{
  Bool, true, false, ◌&&◌, ◌||◌, [], ◌∷◌, Bytes, if◌then◌else◌, has, same_text, ◌≡◌, refl, arith,
  inl, inr, Bool-cases,
}
use morphic.Ir.BigVal.{is_nil}
use morphic.Ir.Inferred.{Inferred, split, join_inferred}
use morphic.Ir.Inferred.Members.{join_inferred-has}

-- `ir.TypeRef`: the type pointed at, and whether null is admitted too.
pub record TypeRef : Type 0 where
  pub target : Bytes
  pub nullable : Bool
  pub inferred : Inferred

unfoldable pub intersect_null : TypeRef → TypeRef → TypeRef
intersect_null dst src =
    if dst.nullable && src.nullable
    then record dst { nullable = true; inferred = join_inferred (dst.inferred ∷ src.inferred ∷ []) }
    else record dst { nullable = false; inferred = [] }

-- Whether the null of a reference rests on the heuristic of a name.
abbrev pub rests_on : TypeRef → Bytes → Bool
rests_on ref n = has (split ref.inferred) n

unmarked : (n : Bytes) → is_nil n ≡ false → has (split []) n ≡ false
unfolding has split same_text
unmarked [] full = absurd cc
unmarked (c ∷ n) full = refl

-- A merged reference admits null exactly where both do, and for every name that is not blank it rests on
-- the heuristic of that name exactly where it admits null and one of the two rests on it.
pub intersect_null-rests_on :
    (dst src : TypeRef) (n : Bytes)
    → is_nil n ≡ false
    → ((intersect_null dst src).nullable ≡ (dst.nullable && src.nullable))
      × (rests_on (intersect_null dst src) n
          ≡ ((dst.nullable && src.nullable) && (rests_on dst n || rests_on src n)))
unfolding intersect_null
intersect_null-rests_on dst src n full = elim (Bool-cases (dst.nullable && src.nullable)) [
  | inl e ↦
      rw (e, intersect_null)
        (refl, ground (arith, join_inferred-has (dst.inferred ∷ src.inferred ∷ []) n full))
  | inr e ↦ rw (e, intersect_null) (refl, ground (arith, unmarked n full))
]
