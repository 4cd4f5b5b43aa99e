-- ===== src/Merge/Keywords/Meets.antt =====
-- Two sets of keywords that meet: what their fold holds, field by field.
use morphic.Base.{ℕ, suc, true, List, [], ◌∷◌, none, some, ◌≡◌, Option-cases, All, inl, inr}
use morphic.Merge.Constraints.{Constraints, ConstraintKeyword}
use morphic.Merge.Keywords.{constraint_keywords, first_conflict, constraints_conflict, meets}

first_conflict-none :
    (i : ℕ) (kws : List ConstraintKeyword) (a b : Constraints)
    → first_conflict i kws a b ≡ none
    → All (λ kw. kw.differ a b ≡ none) kws
unfolding first_conflict
first_conflict-none i [] a b h = tt
first_conflict-none i (kw ∷ kws) a b h = elim (Option-cases (kw.differ a b)) [
  | inl e ↦ (e, first_conflict-none (suc i) kws a b (rw (e, first_conflict) at h))
  | inr (c, e) ↦ absurd (cc (rw (e, first_conflict) at h))
]

pub meets-All :
    (a b : Constraints)
    → meets (some a) (some b) ≡ true
    → All (λ kw. kw.differ a b ≡ none) constraint_keywords
unfolding meets constraints_conflict
meets-All a b h = elim (Option-cases (first_conflict 0 constraint_keywords a b)) [
  | inl e ↦ first_conflict-none 0 constraint_keywords a b e
  | inr (c, e) ↦ absurd (cc (rw (e, meets, constraints_conflict) at h))
]
