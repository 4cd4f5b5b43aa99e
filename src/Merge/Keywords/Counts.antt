-- ===== src/Merge/Keywords/Counts.antt =====
-- A count against the fold of two sets of keywords.
use morphic.Base.{Bool, true, not, ◌&&◌, Option, none, some, ◌≡◌, refl, arith, if◌then◌else◌}
use morphic.Base.Int.{ℤ, ltb_ℤ}
use morphic.Merge.Constraints.{Constraints, meet_slot, slot_keyword}
use morphic.Merge.Keywords.{
  constraint_keywords, meet_all, fold_constraints, number_keyword, int_keyword, str_keyword,
  larger_count, smaller_count,
}
use morphic.Merge.Admits.{within}

less_larger :
    (n x y : ℤ) → not (ltb_ℤ n (if ltb_ℤ x y then y else x)) ≡ (not (ltb_ℤ n x) && not (ltb_ℤ n y))
less_larger n x y = ground arith

smaller_less :
    (n x y : ℤ) → not (ltb_ℤ (if ltb_ℤ y x then y else x) n) ≡ (not (ltb_ℤ x n) && not (ltb_ℤ y n))
smaller_less n x y = ground arith

abbrev low : ℤ → Option ℤ → Bool
low n none = true
low n (some l) = not (ltb_ℤ n l)

abbrev high : ℤ → Option ℤ → Bool
high n none = true
high n (some h) = not (ltb_ℤ h n)

low_meet : (n : ℤ) (x y : Option ℤ) → low n (meet_slot larger_count x y) ≡ (low n x && low n y)
unfolding meet_slot larger_count
low_meet n none y = refl
low_meet n (some x) none = ground arith
low_meet n (some x) (some y) = less_larger n x y

high_meet : (n : ℤ) (x y : Option ℤ) → high n (meet_slot smaller_count x y) ≡ (high n x && high n y)
unfolding meet_slot smaller_count
high_meet n none y = refl
high_meet n (some x) none = ground arith
high_meet n (some x) (some y) = smaller_less n x y

within_lem : (n : ℤ) (lo hi : Option ℤ) → within n lo hi ≡ (low n lo && high n hi)
unfolding within
within_lem n none none = refl
within_lem n none (some h) = refl
within_lem n (some l) none = refl
within_lem n (some l) (some h) = refl

within_meet :
    (n : ℤ) (al bl ah bh : Option ℤ)
    → within n (meet_slot larger_count al bl) (meet_slot smaller_count ah bh)
      ≡ (within n al ah && within n bl bh)
within_meet n al bl ah bh = ground (
  arith,
  within_lem n al ah,
  within_lem n bl bh,
  low_meet n al bl,
  high_meet n ah bh,
  within_lem n (meet_slot larger_count al bl) (meet_slot smaller_count ah bh),
)

-- A length, a number of items and a number of properties stand in the fold's bounds exactly where they
-- stand in those of both sets.
pub fold-within :
    (a b : Constraints) (n : ℤ)
    → let f = fold_constraints a b in
      (within n f.min_length f.max_length
        ≡ (within n a.min_length a.max_length && within n b.min_length b.max_length))
      × (within n f.min_items f.max_items
          ≡ (within n a.min_items a.max_items && within n b.min_items b.max_items))
      × (within n f.min_props f.max_props
          ≡ (within n a.min_props a.max_props && within n b.min_props b.max_props))
unfolding fold_constraints meet_all constraint_keywords number_keyword int_keyword str_keyword
    slot_keyword
fold-within a b n = (
  within_meet n a.min_length b.min_length a.max_length b.max_length,
  within_meet n a.min_items b.min_items a.max_items b.max_items,
  within_meet n a.min_props b.min_props a.max_props b.max_props,
)
