-- ===== src/Merge/Visibility.antt =====
-- compilers/openapi/internal/merge/visibility.go: the lifecycles in which a merged property is
-- visible.
use morphic.Base.{
  Bool, true, false, not, ◌&&◌, ◌||◌, List, [], ◌∷◌, Bytes, Ordering, compare_text, same_text,
  same_text-eq, if◌then◌else◌, ◌≡◌, refl, ap, arith, Bool-cases, inl, inr,
}
use morphic.Ir.Decimal.{opposite}
use morphic.Ir.Decimal.Equality.{compare_text-eq, compare_text_swap}

abbrev pub Lifecycle : Type 0
Lifecycle = Bytes

pub record Visibility : Type 0 where
  pub only : List Lifecycle
  pub is_none : Bool

unfoldable pub no_lifecycles : List Lifecycle → Bool
no_lifecycles [] = true
no_lifecycles (l ∷ ls) = false

-- The test of the map `inB`.
unfoldable pub listed : List Lifecycle → Lifecycle → Bool
listed [] l = false
listed (x ∷ xs) l = same_text x l || listed xs l

-- `slices.Compare`.
unfoldable pub compare_lifecycles : List Lifecycle → List Lifecycle → Ordering
compare_lifecycles [] [] = Ordering.eq
compare_lifecycles [] (y ∷ ys) = Ordering.lt
compare_lifecycles (x ∷ xs) [] = Ordering.gt
compare_lifecycles (x ∷ xs) (y ∷ ys) =
    let rest = compare_lifecycles xs ys in
    elim (compare_text x y) [
      | Ordering.eq ↦ rest
      | Ordering.lt ↦ Ordering.lt
      | Ordering.gt ↦ Ordering.gt
    ]

-- The loop over `a`.
unfoldable pub keep_listed : List Lifecycle → List Lifecycle → List Lifecycle
keep_listed b [] = []
keep_listed b (l ∷ a) = if listed b l then l ∷ keep_listed b a else keep_listed b a

unfoldable pub intersect_lifecycles : List Lifecycle → List Lifecycle → List Lifecycle
intersect_lifecycles a b = elim (compare_lifecycles a b) [
  | Ordering.gt ↦ keep_listed a b
  | Ordering.eq ↦ keep_listed b a
  | Ordering.lt ↦ keep_listed b a
]

-- The field `None` of the source is `is_none`.
unfoldable pub merge_visibility : Visibility → Visibility → Visibility
merge_visibility dst src =
    if dst.is_none || src.is_none
    then record { only = []; is_none = true }
    else if no_lifecycles dst.only
    then src
    else if no_lifecycles src.only
    then dst
    else let only = intersect_lifecycles dst.only src.only in
      if no_lifecycles only
      then record { only = []; is_none = true }
      else record { only = only; is_none = false }

-- Where a property is visible: in no lifecycle, in every one, or in those that it lists.
unfoldable pub visible : Visibility → Lifecycle → Bool
visible v l = not v.is_none && (no_lifecycles v.only || listed v.only l)

listed-keep_listed :
    (b a : List Lifecycle) (l : Lifecycle) → listed (keep_listed b a) l ≡ (listed a l && listed b l)
unfolding listed keep_listed
listed-keep_listed b [] l = refl
listed-keep_listed b (x ∷ a) l = elim (Bool-cases (same_text x l)) [
  | inl e ↦
      ground
        (arith, e, same_text-eq x l e, listed-keep_listed b a l, ap (listed b) (same_text-eq x l e))
  | inr e ↦ ground (arith, e, listed-keep_listed b a l)
]

listed-intersect_lifecycles :
    (a b : List Lifecycle) (l : Lifecycle)
    → listed (intersect_lifecycles a b) l ≡ (listed a l && listed b l)
unfolding intersect_lifecycles
listed-intersect_lifecycles a b l =
    ground (arith, listed-keep_listed a b l, listed-keep_listed b a l)

none_listed : (a : List Lifecycle) (l : Lifecycle) → no_lifecycles a ≡ true → listed a l ≡ false
unfolding no_lifecycles listed
none_listed [] l h = refl
none_listed (x ∷ a) l h = cc

-- A merged property is visible in exactly the lifecycles in which both are.
pub merge_visibility-visible :
    (dst src : Visibility) (l : Lifecycle)
    → visible (merge_visibility dst src) l ≡ (visible dst l && visible src l)
unfolding visible merge_visibility
merge_visibility-visible dst src l = ground (
  arith,
  listed-intersect_lifecycles dst.only src.only l,
  none_listed dst.only l,
  none_listed src.only l,
  none_listed (intersect_lifecycles dst.only src.only) l,
)

compare_lifecycles_swap :
    (a b : List Lifecycle) → compare_lifecycles b a ≡ opposite (compare_lifecycles a b)
unfolding compare_lifecycles
compare_lifecycles_swap [] [] = refl
compare_lifecycles_swap [] (y ∷ ys) = refl
compare_lifecycles_swap (x ∷ xs) [] = refl
compare_lifecycles_swap (x ∷ xs) (y ∷ ys) =
    ground (arith, compare_text_swap x y, compare_lifecycles_swap xs ys)

compare_lifecycles-eq : (a b : List Lifecycle) → compare_lifecycles a b ≡ Ordering.eq → a ≡ b
unfolding compare_lifecycles
compare_lifecycles-eq [] [] h = refl
compare_lifecycles-eq [] (y ∷ ys) h = cc
compare_lifecycles-eq (x ∷ xs) [] h = cc
compare_lifecycles-eq (x ∷ xs) (y ∷ ys) h =
    ground (arith, compare_text-eq x y, compare_lifecycles-eq xs ys)

intersect_lifecycles_swap :
    (a b : List Lifecycle) → intersect_lifecycles a b ≡ intersect_lifecycles b a
unfolding intersect_lifecycles
intersect_lifecycles_swap a b =
    ground (arith, compare_lifecycles_swap a b, compare_lifecycles-eq a b)

-- The merged visibility is the same, down to the order of its lifecycles, whichever side comes first.
pub merge_visibility_swap : (a b : Visibility) → merge_visibility a b ≡ merge_visibility b a
unfolding merge_visibility no_lifecycles
merge_visibility_swap a b = ground (arith, intersect_lifecycles_swap a.only b.only)
