-- ===== src/Merge/Bounds/Same.antt =====
-- Sets of keywords that state the same bounds, and the one of two that is the narrower.
use morphic.Base.{
  Bool, true, false, ◌&&◌, List, [], ◌∷◌, Option, none, some, Ordering, ◌≡◌, ◌≢◌, refl, sym, ap,
  ◌∙◌, arith, Option-cases, Result-cases, inl, inr, ok, All,
}
use morphic.Ir.BigVal.{BigVal, decimal_of}
use morphic.Ir.Decimal.{Decimal}
use morphic.Ir.Decimal.Canonical.{parse_decimal-IsCanonical}
use morphic.Ir.Decimal.Equality.{cmp-eq_iff}
use morphic.Merge.Constraints.{
  Constraints, ConstraintKeyword, no_constraints, same_slot, slot_keyword, meet_slot, is_set,
}
use morphic.Merge.Numbers.{compare_numbers, same_number}
use morphic.Merge.Keywords.{
  constraint_keywords, meet_all, fold_constraints, merge_constraints, meets, number_keyword,
  int_keyword, str_keyword, first_text,
}
use morphic.Merge.Admits.{
  bound_holds, step_holds, admits_decimal, admits_number, at_least, above, at_most, below,
}
use morphic.Merge.Admits.Bounds.{compared}
use morphic.Merge.Admits.Fold.{fold-admits_number}
use morphic.Merge.Bounds.{
  Relation, unrelated, disjoint, overlap, same, a_narrower, b_narrower, meet, all_same, same_sets,
  same_bounds, bounds_relation,
}

same_number-decimal_of : (x y : BigVal) → same_number x y ≡ true → decimal_of x ≡ decimal_of y
unfolding same_number
same_number-decimal_of x y h = elim (Option-cases (compare_numbers x y)) [
  | inl e ↦ absurd (cc (rw (e, same_number) at h))
  | inr (Ordering.lt, e) ↦ absurd (cc (rw (e, same_number) at h))
  | inr (Ordering.gt, e) ↦ absurd (cc (rw (e, same_number) at h))
  | inr (Ordering.eq, e) ↦ elim (compared x y e) [
    | inl (one, _) ↦ ap decimal_of one
    | inr (a, b, p, q, c) ↦
        p
        ∙ (ap ok
              ((cmp-eq_iff a b (parse_decimal-IsCanonical x p) (parse_decimal-IsCanonical y q)).0 c)
            ∙ sym q)
  ]
]

same_slot-bound_holds :
    (holds : Ordering → Bool) (d : Decimal) (x y : Option BigVal)
    → same_slot same_number x y ≡ true
    → bound_holds holds d x ≡ bound_holds holds d y
unfolding same_slot bound_holds
same_slot-bound_holds holds d none none h = refl
same_slot-bound_holds holds d none (some y) h = cc
same_slot-bound_holds holds d (some x) none h = cc
same_slot-bound_holds holds d (some x) (some y) h = rw (same_number-decimal_of x y h, bound_holds)

same_slot-step_holds :
    (d : Decimal) (x y : Option BigVal)
    → same_slot same_number x y ≡ true
    → step_holds d x ≡ step_holds d y
unfolding same_slot step_holds
same_slot-step_holds d none none h = refl
same_slot-step_holds d none (some y) h = cc
same_slot-step_holds d (some x) none h = cc
same_slot-step_holds d (some x) (some y) h = rw (same_number-decimal_of x y h, step_holds)

same_slot-is_set :
    {T : Type 0} (eq : T → T → Bool) (x y : Option T)
    → same_slot eq x y ≡ true
    → is_set x ≡ is_set y
unfolding same_slot is_set
same_slot-is_set eq none none h = refl
same_slot-is_set eq none (some y) h = cc
same_slot-is_set eq (some x) none h = cc
same_slot-is_set eq (some x) (some y) h = refl

all_same-All :
    (kws : List ConstraintKeyword) (a b : Constraints)
    → all_same kws a b ≡ true
    → All (λ kw. kw.same a b ≡ true) kws
unfolding all_same
all_same-All [] a b h = tt
all_same-All (kw ∷ kws) a b h = (ground arith, all_same-All kws a b (ground arith))

abbrev Alike : Constraints → Constraints → Type 0
Alike a b =
    (same_slot same_number a.min b.min ≡ true)
    × (same_slot same_number a.exclusive_min b.exclusive_min ≡ true)
    × (same_slot same_number a.max b.max ≡ true)
    × (same_slot same_number a.exclusive_max b.exclusive_max ≡ true)
    × (same_slot same_number a.multiple_of b.multiple_of ≡ true)
    × (is_set a.precision ≡ is_set b.precision)
    × (is_set a.scale ≡ is_set b.scale)

same_sets-Alike : (a b : Constraints) → same_sets a b ≡ true → Alike a b
unfolding same_sets constraint_keywords number_keyword int_keyword str_keyword slot_keyword
same_sets-Alike a b h =
    let (m1, r1) = all_same-All constraint_keywords a b (ground arith) in
    let (m2, r2) = r1 in
    let (m3, r3) = r2 in
    let (m4, r4) = r3 in
    let (m5, r5) = r4 in
    let (m6, r6) = r5 in
    let (m7, r7) = r6 in
    (
      m1,
      m2,
      m3,
      m4,
      m5,
      same_slot-is_set _ a.precision b.precision m6,
      same_slot-is_set _ a.scale b.scale m7,
    )

same_sets-admits_decimal :
    (a b : Constraints) (d : Decimal)
    → same_sets a b ≡ true
    → admits_decimal a d ≡ admits_decimal b d
unfolding admits_decimal
same_sets-admits_decimal a b d h =
    let (m1, m2, m3, m4, m5, m6, m7) = same_sets-Alike a b h in
    let e1 = same_slot-bound_holds at_least d a.min b.min m1 in
    let e2 = same_slot-bound_holds above d a.exclusive_min b.exclusive_min m2 in
    let e3 = same_slot-bound_holds at_most d a.max b.max m3 in
    let e4 = same_slot-bound_holds below d a.exclusive_max b.exclusive_max m4 in
    let e5 = same_slot-step_holds d a.multiple_of b.multiple_of m5 in rw (e1, e2, e3, e4, e5)

-- Two sets that `sameBounds` calls the same admit the same numbers, however each spells its bounds.
pub same_sets-admits_number :
    (a b : Constraints) (n : BigVal) → same_sets a b ≡ true → admits_number a n ≡ admits_number b n
unfolding admits_number
same_sets-admits_number a b n h = elim (Result-cases (decimal_of n)) [
  | inr (e, p) ↦
      let (m1, m2, m3, m4, m5, m6, m7) = same_sets-Alike a b h in ground (arith, p, m6, m7)
  | inl (d, p) ↦
      let (m1, m2, m3, m4, m5, m6, m7) = same_sets-Alike a b h in
      ground (arith, p, m6, m7, same_sets-admits_decimal a b d h)
]

-- A set with nothing in it folds into any other.
fold-none : (a : Constraints) → fold_constraints no_constraints a ≡ a
unfolding fold_constraints meet_all constraint_keywords number_keyword int_keyword str_keyword
    slot_keyword meet_slot first_text
fold-none a = refl

narrower_cases :
    (a b : Constraints)
    → bounds_relation (some a) (some b) ≡ a_narrower
    → (meets (some a) (some b) ≡ true) × (same_sets (fold_constraints a b) a ≡ true)
unfolding bounds_relation merge_constraints same_bounds
narrower_cases a b h = (ground (arith, fold-none a), ground (arith, fold-none a))

wider_cases :
    (a b : Constraints)
    → bounds_relation (some a) (some b) ≡ b_narrower
    → (meets (some a) (some b) ≡ true) × (same_sets (fold_constraints a b) b ≡ true)
unfolding bounds_relation merge_constraints same_bounds
wider_cases a b h = (ground (arith, fold-none a), ground (arith, fold-none a))

same_cases :
    (a b : Constraints)
    → bounds_relation (some a) (some b) ≡ same
    → (meets (some a) (some b) ≡ true)
      × (same_sets (fold_constraints a b) a ≡ true)
      × (same_sets (fold_constraints a b) b ≡ true)
unfolding bounds_relation merge_constraints same_bounds
same_cases a b h =
    (ground (arith, fold-none a), ground (arith, fold-none a), ground (arith, fold-none a))

-- What an answer of `boundsRelation` says of the numbers that two sets admit.
abbrev pub Told : Constraints → Constraints → BigVal → Relation → Type 0
Told a b n a_narrower = admits_number a n ≡ true → admits_number b n ≡ true
Told a b n b_narrower = admits_number b n ≡ true → admits_number a n ≡ true
Told a b n same = admits_number a n ≡ admits_number b n
Told a b n meet = Unit
Told a b n _ = ⊥

no_other :
    (a b : Constraints) (r : Relation)
    → bounds_relation (some a) (some b) ≡ r
    → (r ≢ unrelated) × (r ≢ disjoint) × (r ≢ overlap)
unfolding bounds_relation
no_other a b r h = (λ e. ground arith, λ e. ground arith, λ e. ground arith)

-- `boundsRelation` of two sets, at most one of which has `multipleOf`, answers that they meet, which says
-- nothing more, that they are the same, and then they admit the same numbers, or that one is the narrower,
-- and then every number that this one admits is one that the other admits; it answers nothing else.
pub bounds_relation-admits_number :
    (a b : Constraints) (n : BigVal)
    → (is_set a.multiple_of && is_set b.multiple_of) ≡ false
    → Told a b n (bounds_relation (some a) (some b))
bounds_relation-admits_number a b n steps = told_by (bounds_relation (some a) (some b)) refl
  where
    folded :
        meets (some a) (some b) ≡ true
        → same_sets (fold_constraints a b) a ≡ true
        → admits_number a n ≡ (admits_number a n && admits_number b n)
    folded m e =
        sym (same_sets-admits_number (fold_constraints a b) a n e)
        ∙ fold-admits_number a b n m steps

    folded_b :
        meets (some a) (some b) ≡ true
        → same_sets (fold_constraints a b) b ≡ true
        → admits_number b n ≡ (admits_number a n && admits_number b n)
    folded_b m e =
        sym (same_sets-admits_number (fold_constraints a b) b n e)
        ∙ fold-admits_number a b n m steps

    told_by : (r : Relation) → bounds_relation (some a) (some b) ≡ r → Told a b n r
    told_by unrelated h = (no_other a b unrelated h).0 refl
    told_by disjoint h = (no_other a b disjoint h).1 refl
    told_by overlap h = (no_other a b overlap h).2 refl
    told_by same h = let (m, x, y) = same_cases a b h in folded m x ∙ sym (folded_b m y)
    told_by a_narrower h =
        λ admitted. ground (arith, folded (narrower_cases a b h).0 (narrower_cases a b h).1)
    told_by b_narrower h =
        λ admitted. ground (arith, folded_b (wider_cases a b h).0 (wider_cases a b h).1)
    told_by meet h = tt
