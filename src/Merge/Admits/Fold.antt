-- ===== src/Merge/Admits/Fold.antt =====
-- A number against the fold of two sets of keywords.
use morphic.Base.{
  Bool, true, false, ◌&&◌, ◌||◌, Option, none, some, Ordering, Result-cases, ◌≡◌, refl, ap, ◌∙◌,
  arith, Option-cases, inl, inr, Bytes, codes,
}
use morphic.Ir.BigVal.{BigVal, decimal_of}
use morphic.Ir.Decimal.{Decimal}
use morphic.Ir.Decimal.Canonical.{IsCanonical, parse_decimal-IsCanonical}
use morphic.Merge.Constraints.{
  Constraints, Shown, number, meet_slot, differ_slot, slot_keyword, is_set,
}
use morphic.Merge.Numbers.{larger_number, smaller_number, common_step}
use morphic.Merge.Keywords.{
  constraint_keywords, meet_all, fold_constraints, meets, number_keyword, int_keyword, str_keyword,
  only_equal,
}
use morphic.Merge.Keywords.Meets.{meets-All}
use morphic.Merge.Admits.{
  bound_holds, step_holds, admits_decimal, admits_number, at_least, above, at_most, below,
}
use morphic.Merge.Admits.Bounds.{
  Rises, Falls, at_least-Rises, above-Rises, at_most-Falls, below-Falls, larger_number_bound,
  smaller_number_bound,
}

true_and : (p : Bool) → p ≡ (p && true)
true_and true = refl
true_and false = refl

module _ (holds : Ordering → Bool) (d : Decimal) (cd : IsCanonical d) (name : Bytes)
    (show : BigVal → Shown) where
  abbrev Both : (BigVal → BigVal → Option BigVal) → Option BigVal → Option BigVal → Type 0
  Both meet x y =
      bound_holds holds d (meet_slot meet x y) ≡ (bound_holds holds d x && bound_holds holds d y)

  larger_slot :
      (x y : Option BigVal)
      → Rises holds
      → differ_slot name show larger_number x y ≡ none
      → Both larger_number x y
  unfolding meet_slot differ_slot bound_holds
  larger_slot none y r h = refl
  larger_slot (some x) none r h = true_and _
  larger_slot (some x) (some y) r h = elim (Option-cases (larger_number x y)) [
    | inl e ↦ absurd (cc (rw (e, differ_slot) at h))
    | inr (z, e) ↦
        let m : meet_slot larger_number (some x) (some y) ≡ some z = rw (e, meet_slot) in
        ap (bound_holds holds d) m ∙ larger_number_bound holds d cd x y r e
  ]

  smaller_slot :
      (x y : Option BigVal)
      → Falls holds
      → differ_slot name show smaller_number x y ≡ none
      → Both smaller_number x y
  unfolding meet_slot differ_slot bound_holds
  smaller_slot none y r h = refl
  smaller_slot (some x) none r h = true_and _
  smaller_slot (some x) (some y) r h = elim (Option-cases (smaller_number x y)) [
    | inl e ↦ absurd (cc (rw (e, differ_slot) at h))
    | inr (z, e) ↦
        let m : meet_slot smaller_number (some x) (some y) ≡ some z = rw (e, meet_slot) in
        ap (bound_holds holds d) m ∙ smaller_number_bound holds d cd x y r e
  ]

-- Where one set has no step, the fold has the other's.
step_slot :
    (d : Decimal) (x y : Option BigVal)
    → (is_set x && is_set y) ≡ false
    → step_holds d (meet_slot common_step x y) ≡ (step_holds d x && step_holds d y)
unfolding meet_slot step_holds is_set
step_slot d none y h = refl
step_slot d (some x) none h = true_and _
step_slot d (some x) (some y) h = absurd (cc)

set_slot :
    {T : Type 0} (meet : T → T → Option T) (x y : Option T)
    → is_set (meet_slot meet x y) ≡ (is_set x || is_set y)
unfolding meet_slot is_set
set_slot meet none y = refl
set_slot meet (some x) none = refl
set_slot meet (some x) (some y) = elim (Option-cases (meet x y)) [
  | inl e ↦ rw (e, meet_slot)
  | inr (z, e) ↦ rw (e, meet_slot)
]

-- The fields of the fold that the test of a number reads.
abbrev NumericPart : Constraints → Constraints → Type 0
NumericPart a b =
    (let f = fold_constraints a b in
      (f.min ≡ meet_slot larger_number a.min b.min)
      × (f.exclusive_min ≡ meet_slot larger_number a.exclusive_min b.exclusive_min)
      × (f.max ≡ meet_slot smaller_number a.max b.max)
      × (f.exclusive_max ≡ meet_slot smaller_number a.exclusive_max b.exclusive_max)
      × (f.multiple_of ≡ meet_slot common_step a.multiple_of b.multiple_of)
      × (f.precision ≡ meet_slot only_equal a.precision b.precision)
      × (f.scale ≡ meet_slot only_equal a.scale b.scale))

fold_fields : (a b : Constraints) → NumericPart a b
unfolding fold_constraints meet_all constraint_keywords number_keyword int_keyword str_keyword
    slot_keyword
fold_fields a b = (refl, refl, refl, refl, refl, refl, refl)

bool_mix :
    (p q r s t p2 q2 r2 s2 t2 : Bool)
    → ((p && p2) && ((q && q2) && ((r && r2) && ((s && s2) && (t && t2)))))
      ≡ ((p && (q && (r && (s && t)))) && (p2 && (q2 && (r2 && (s2 && t2)))))
bool_mix p q r s t p2 q2 r2 s2 t2 = ground arith

abbrev Agree : Constraints → Constraints → Type 0
Agree a b =
    (differ_slot (codes "minimum") number larger_number a.min b.min ≡ none)
    × (differ_slot (codes "exclusiveMinimum") number larger_number a.exclusive_min b.exclusive_min
        ≡ none)
    × (differ_slot (codes "maximum") number smaller_number a.max b.max ≡ none)
    × (differ_slot (codes "exclusiveMaximum") number smaller_number a.exclusive_max b.exclusive_max
        ≡ none)

meets-Agree : (a b : Constraints) → meets (some a) (some b) ≡ true → Agree a b
unfolding constraint_keywords number_keyword int_keyword str_keyword slot_keyword
meets-Agree a b h =
    let (m1, r1) = meets-All a b h in
    let (m2, r2) = r1 in let (m3, r3) = r2 in let (m4, r4) = r3 in (m1, m2, m3, m4)

fold-admits_decimal :
    (a b : Constraints) (d : Decimal)
    → IsCanonical d
    → meets (some a) (some b) ≡ true
    → (is_set a.multiple_of && is_set b.multiple_of) ≡ false
    → admits_decimal (fold_constraints a b) d ≡ (admits_decimal a d && admits_decimal b d)
unfolding admits_decimal
fold-admits_decimal a b d cd h steps =
    let (f1, f2, f3, f4, f5, f6, f7) = fold_fields a b in
    let (m1, m2, m3, m4) = meets-Agree a b h in
    let e1 =
      ap (bound_holds at_least d) f1
      ∙ larger_slot at_least d cd _ _ a.min b.min at_least-Rises m1 in
    let e2 =
      ap (bound_holds above d) f2
      ∙ larger_slot above d cd _ _ a.exclusive_min b.exclusive_min above-Rises m2 in
    let e3 =
      ap (bound_holds at_most d) f3 ∙ smaller_slot at_most d cd _ _ a.max b.max at_most-Falls m3 in
    let e4 =
      ap (bound_holds below d) f4
      ∙ smaller_slot below d cd _ _ a.exclusive_max b.exclusive_max below-Falls m4 in
    let e5 = ap (step_holds d) f5 ∙ step_slot d a.multiple_of b.multiple_of steps in
    rw (e1, e2, e3, e4, e5)
      (bool_mix (bound_holds at_least d a.min) (bound_holds above d a.exclusive_min)
        (bound_holds at_most d a.max) (bound_holds below d a.exclusive_max)
        (step_holds d a.multiple_of) (bound_holds at_least d b.min)
        (bound_holds above d b.exclusive_min) (bound_holds at_most d b.max)
        (bound_holds below d b.exclusive_max) (step_holds d b.multiple_of))

fold-is_set :
    (a b : Constraints)
    → (is_set (fold_constraints a b).precision || is_set (fold_constraints a b).scale)
      ≡ ((is_set a.precision || is_set a.scale) || (is_set b.precision || is_set b.scale))
fold-is_set a b =
    let (_, _, _, _, _, f6, f7) = fold_fields a b in
    let e6 = ap is_set f6 ∙ set_slot only_equal a.precision b.precision in
    let e7 = ap is_set f7 ∙ set_slot only_equal a.scale b.scale in rw (e6, e7) (ground arith)

-- Where two sets of keywords do not conflict and at most one of them has `multipleOf`, a number meets
-- their fold exactly where it meets both.
pub fold-admits_number :
    (a b : Constraints) (n : BigVal)
    → meets (some a) (some b) ≡ true
    → (is_set a.multiple_of && is_set b.multiple_of) ≡ false
    → admits_number (fold_constraints a b) n ≡ (admits_number a n && admits_number b n)
unfolding admits_number
fold-admits_number a b n h steps = elim (Result-cases (decimal_of n)) [
  | inr (e, p) ↦ let q = fold-is_set a b in ground (arith, p, q)
  | inl (d, p) ↦
      let q = fold-is_set a b in
      let r = fold-admits_decimal a b d (parse_decimal-IsCanonical n p) h steps in
      ground (arith, p, q, r)
]
