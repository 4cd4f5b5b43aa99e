-- ===== src/Merge/Admits/Bounds.antt =====
-- A bound that two sets state: the tighter one admits what both admit.
use morphic.Base.{
  Bool, true, false, ◌&&◌, some, ok, ◌≡◌, ◌≢◌, refl, sym, ap, ◌∙◌, arith, Ordering, Bool-cases,
  Option-cases, Result-cases, same_text, same_text-eq, inl, inr, ◌⊎◌,
}
use morphic.Base.Int.{ℤ, compare_ℤ}
use morphic.Ir.BigVal.{BigVal, decimal_of}
use morphic.Ir.Decimal.{Decimal, cmp, opposite}
use morphic.Ir.Decimal.Equality.{cmp_swap}
use morphic.Ir.Decimal.Canonical.{IsCanonical, parse_decimal-IsCanonical}
use morphic.Ir.Decimal.Total.{cmp-Ordered}
use morphic.Merge.Numbers.{compare_numbers, both_decimals, larger_number, smaller_number}
use morphic.Merge.Admits.{at_least, above, at_most, below, bound_holds}

-- Two literals that have an order are one text, or two decimals in that order.
pub compared :
    (x y : BigVal) {o : Ordering}
    → compare_numbers x y ≡ some o
    → ((x ≡ y) × (o ≡ Ordering.eq))
      ⊎ ((a : Decimal) × (b : Decimal) × (decimal_of x ≡ ok a)
          × (decimal_of y ≡ ok b)
          × (cmp a b ≡ o))
unfolding compare_numbers both_decimals
compared x y {o} h = elim (Bool-cases (same_text x y)) [
  | inl e ↦ inl (same_text-eq x y e, cc (rw (e, compare_numbers) at h))
  | inr e ↦ elim (Result-cases (decimal_of x)) [
    | inr (f, p) ↦ absurd (ground (arith, e, p))
    | inl (a, p) ↦ elim (Result-cases (decimal_of y)) [
      | inr (f, q) ↦ absurd (ground (arith, e, p, q))
      | inl (b, q) ↦ inr (a, b, p, q, ground (arith, e, p, q))
    ]
  ]
]

-- A test of a number against a bound that a larger bound makes harder, and a smaller one.
abbrev pub Rises : (Ordering → Bool) → Type 0
Rises holds =
    (x y z : ℤ)
    → compare_ℤ y z ≢ Ordering.gt
    → holds (compare_ℤ x z) ≡ true
    → holds (compare_ℤ x y) ≡ true

abbrev pub Falls : (Ordering → Bool) → Type 0
Falls holds =
    (x y z : ℤ)
    → compare_ℤ y z ≢ Ordering.lt
    → holds (compare_ℤ x z) ≡ true
    → holds (compare_ℤ x y) ≡ true

pub at_least-Rises : Rises at_least
at_least-Rises x y z h k = ground arith

pub above-Rises : Rises above
above-Rises x y z h k = ground arith

pub at_most-Falls : Falls at_most
at_most-Falls x y z h k = ground arith

pub below-Falls : Falls below
below-Falls x y z h k = ground arith

-- Which of two numbers is kept, and why.
larger_cases :
    (x y : BigVal) {z : BigVal}
    → larger_number x y ≡ some z
    → ((o : Ordering) × (compare_numbers x y ≡ some o) × (o ≢ Ordering.lt) × (x ≡ z))
      ⊎ ((compare_numbers x y ≡ some Ordering.lt) × (y ≡ z))
unfolding larger_number
larger_cases x y {z} h = elim (Option-cases (compare_numbers x y)) [
  | inl e ↦ absurd (cc (rw (e, larger_number) at h))
  | inr (Ordering.lt, e) ↦ inr (e, cc (rw (e, larger_number) at h))
  | inr (Ordering.eq, e) ↦ inl (Ordering.eq, e, (λ p. cc), cc (rw (e, larger_number) at h))
  | inr (Ordering.gt, e) ↦ inl (Ordering.gt, e, (λ p. cc), cc (rw (e, larger_number) at h))
]

smaller_cases :
    (x y : BigVal) {z : BigVal}
    → smaller_number x y ≡ some z
    → ((o : Ordering) × (compare_numbers x y ≡ some o) × (o ≢ Ordering.gt) × (x ≡ z))
      ⊎ ((compare_numbers x y ≡ some Ordering.gt) × (y ≡ z))
unfolding smaller_number
smaller_cases x y {z} h = elim (Option-cases (compare_numbers x y)) [
  | inl e ↦ absurd (cc (rw (e, smaller_number) at h))
  | inr (Ordering.gt, e) ↦ inr (e, cc (rw (e, smaller_number) at h))
  | inr (Ordering.eq, e) ↦ inl (Ordering.eq, e, (λ p. cc), cc (rw (e, smaller_number) at h))
  | inr (Ordering.lt, e) ↦ inl (Ordering.lt, e, (λ p. cc), cc (rw (e, smaller_number) at h))
]

and_right : (p q : Bool) → (q ≡ true → p ≡ true) → q ≡ (p && q)
and_right true q h = refl
and_right false true h = sym (h refl)
and_right false false h = refl

and_left : (p q : Bool) → (p ≡ true → q ≡ true) → p ≡ (p && q)
and_left true q h = sym (h refl)
and_left false q h = refl

and_same : (p : Bool) → p ≡ (p && p)
and_same true = refl
and_same false = refl

module _ (holds : Ordering → Bool) (d : Decimal) (cd : IsCanonical d) where
  bound_ok :
      (x : BigVal) {a : Decimal}
      → decimal_of x ≡ ok a
      → bound_holds holds d (some x) ≡ holds (cmp d a)
  unfolding bound_holds
  bound_ok x e = rw (e, bound_holds)

  -- One bound implies the other where the numbers stand the right way round.
  implied_up :
      (a b : Decimal)
      → Rises holds
      → IsCanonical a
      → IsCanonical b
      → cmp a b ≢ Ordering.gt
      → holds (cmp d b) ≡ true
      → holds (cmp d a) ≡ true
  implied_up a b rises ca cb order h =
      let t = cmp-Ordered d a b cd ca cb in
      rw t.first (rises t.x t.y t.z (rw (← t.second) order) (rw (← t.outer) h))

  implied_down :
      (a b : Decimal)
      → Falls holds
      → IsCanonical a
      → IsCanonical b
      → cmp a b ≢ Ordering.lt
      → holds (cmp d b) ≡ true
      → holds (cmp d a) ≡ true
  implied_down a b falls ca cb order h =
      let t = cmp-Ordered d a b cd ca cb in
      rw t.first (falls t.x t.y t.z (rw (← t.second) order) (rw (← t.outer) h))

  -- What keeping `x` or `y` asks: that meeting the one kept is meeting the other.
  keep_first :
      (x y : BigVal) {o : Ordering}
      → compare_numbers x y ≡ some o
      → ((a b : Decimal)
          → IsCanonical a
          → IsCanonical b
          → cmp a b ≡ o
          → holds (cmp d a) ≡ true
          → holds (cmp d b) ≡ true)
      → bound_holds holds d (some x)
        ≡ (bound_holds holds d (some x) && bound_holds holds d (some y))
  keep_first x y {o} e implied = and_left _ _ (λ h. elim (compared x y e) [
    | inl (same, _) ↦ rw same at h
    | inr (a, b, p, q, c) ↦
        bound_ok y q
        ∙ implied a b (parse_decimal-IsCanonical x p) (parse_decimal-IsCanonical y q) c
            (sym (bound_ok x p) ∙ h)
  ])

  keep_second :
      (x y : BigVal) {o : Ordering}
      → compare_numbers x y ≡ some o
      → ((a b : Decimal)
          → IsCanonical a
          → IsCanonical b
          → cmp a b ≡ o
          → holds (cmp d b) ≡ true
          → holds (cmp d a) ≡ true)
      → bound_holds holds d (some y)
        ≡ (bound_holds holds d (some x) && bound_holds holds d (some y))
  keep_second x y {o} e implied = and_right _ _ (λ h. elim (compared x y e) [
    | inl (same, _) ↦ rw (← same) at h
    | inr (a, b, p, q, c) ↦
        bound_ok x p
        ∙ implied a b (parse_decimal-IsCanonical x p) (parse_decimal-IsCanonical y q) c
            (sym (bound_ok y q) ∙ h)
  ])

  -- A bound from below: the larger of two says what both say.
  pub larger_number_bound :
      (x y : BigVal) {z : BigVal}
      → Rises holds
      → larger_number x y ≡ some z
      → bound_holds holds d (some z)
        ≡ (bound_holds holds d (some x) && bound_holds holds d (some y))
  larger_number_bound x y {z} rises h = elim (larger_cases x y h) [
    | inl (o, e, ne, same) ↦ rw (← same) (
        keep_first x y e (λ a b ca cb c.
          implied_up b a rises cb ca (λ r. ne (sym c ∙ cmp_swap b a ∙ ap opposite r))))
    | inr (e, same) ↦
        rw (← same) (keep_second x y e (λ a b ca cb c. implied_up a b rises ca cb (λ r. cc)))
  ]

  -- A bound from above: the smaller of two says what both say.
  pub smaller_number_bound :
      (x y : BigVal) {z : BigVal}
      → Falls holds
      → smaller_number x y ≡ some z
      → bound_holds holds d (some z)
        ≡ (bound_holds holds d (some x) && bound_holds holds d (some y))
  smaller_number_bound x y {z} falls h = elim (smaller_cases x y h) [
    | inl (o, e, ne, same) ↦ rw (← same) (
        keep_first x y e (λ a b ca cb c.
          implied_down b a falls cb ca (λ r. ne (sym c ∙ cmp_swap b a ∙ ap opposite r))))
    | inr (e, same) ↦
        rw (← same) (keep_second x y e (λ a b ca cb c. implied_down a b falls ca cb (λ r. cc)))
  ]
