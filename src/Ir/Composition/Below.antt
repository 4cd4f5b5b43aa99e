-- ===== src/Ir/Composition/Below.antt =====
-- What `isSubtype` answers, against the closure of the direct supertypes.
use morphic.Base.{
  ℕ, zero, suc, true, false, ◌||◌, List, [], ◌∷◌, Option, none, some, Bytes, has, same_text,
  same_text-eq, same_text_refl, if◌then◌else◌, ◌≡◌, ◌⊎◌, ◌↔◌, inl, inr, refl, arith, Bool-cases,
  Option-cases,
}
use morphic.Ir.Composition.{
  TypeRegistry, again, found, spent, supertypes, push_all, expand, round, sub_loop, is_subtype_loop,
  is_subtype_within,
}
use morphic.Ir.Composition.Supers.{Super, registry_of, supertypes-Super}

-- A walk of at least one step up the supertypes.
pub data Below (types : TypeRegistry) : Bytes → Bytes → Type 0 where
  direct : {x y : Bytes} → Super types x y → Below types x y
  above : {x y z : Bytes} → Super types x y → Below types y z → Below types x z

Below-snoc :
    {types : TypeRegistry} {x y z : Bytes} → Below types x y → Super types y z → Below types x z
Below-snoc (direct s) t = above s (direct t)
Below-snoc (above s b) t = above s (Below-snoc b t)

pub has-push_all :
    (supers queue : List Bytes) (v : Bytes)
    → has (push_all supers queue) v ≡ (has supers v || has queue v)
unfolding has push_all
has-push_all [] queue v = refl
has-push_all (s ∷ supers) queue v = ground (arith, has-push_all supers (s ∷ queue) v)

-- What a round may do.
pub data Turn (doc : Option TypeRegistry) (base : Bytes) (seen : List Bytes) (id : Bytes)
    (queue : List Bytes) (left : ℕ) : Type 0 where
  old :
      (less : ℕ)
      → left ≡ suc less
      → has seen id ≡ true
      → round doc base seen id queue left ≡ again seen queue less
      → Turn doc base seen id queue left
  hit :
      (less rest : ℕ) (supers : List Bytes)
      → left ≡ suc less
      → supertypes [] doc id less ≡ some (supers, rest)
      → has supers base ≡ true
      → round doc base seen id queue left ≡ found rest
      → Turn doc base seen id queue left
  new :
      (less rest : ℕ) (supers : List Bytes)
      → left ≡ suc less
      → has seen id ≡ false
      → supertypes [] doc id less ≡ some (supers, rest)
      → has supers base ≡ false
      → round doc base seen id queue left ≡ again (id ∷ seen) (push_all supers queue) rest
      → Turn doc base seen id queue left
  short :
      (less : ℕ)
      → (left ≡ zero)
        ⊎ ((left ≡ suc less) × (has seen id ≡ false) × (supertypes [] doc id less ≡ none))
      → round doc base seen id queue left ≡ spent
      → Turn doc base seen id queue left

pub round-Turn :
    (doc : Option TypeRegistry) (base : Bytes) (seen : List Bytes) (id : Bytes) (queue : List Bytes)
    (left : ℕ)
    → Turn doc base seen id queue left
unfolding round expand
round-Turn doc base seen id queue zero = short zero (inl refl) refl
round-Turn doc base seen id queue (suc left) = elim (Bool-cases (has seen id)) [
  | inl m ↦ old left refl m (rw (round, m, if◌then◌else◌) refl)
  | inr m ↦ elim (Option-cases (supertypes [] doc id left)) [
    | inl e ↦ short left (inr (refl, m, e)) (rw (round, m, if◌then◌else◌, expand, e) refl)
    | inr ((supers, rest), e) ↦ elim (Bool-cases (has supers base)) [
      | inl f ↦
          hit left rest supers refl e f
            (rw (round, m, if◌then◌else◌, expand, e, f, if◌then◌else◌) refl)
      | inr f ↦
          new left rest supers refl m e f
            (rw (round, m, if◌then◌else◌, expand, e, f, if◌then◌else◌) refl)
    ]
  ]
]

module _ (doc : Option TypeRegistry) (target base : Bytes) where
  abbrev Reached : Bytes → Type 0
  Reached v = (target ≡ v) ⊎ Below (registry_of doc) target v

  Reached-step :
      (x y : Bytes) → Reached x → Super (registry_of doc) x y → Below (registry_of doc) target y
  Reached-step x y (inl e) s = direct (rw (← e) at s)
  Reached-step x y (inr b) s = Below-snoc b s

  -- What is queued is the target or above it.
  abbrev Sound : List Bytes → Type 0
  Sound queue = (v : Bytes) → has queue v ≡ true → Reached v

  Sound-new :
      (supers queue : List Bytes) (id : Bytes) (left rest : ℕ)
      → Sound (id ∷ queue)
      → supertypes [] doc id left ≡ some (supers, rest)
      → Sound (push_all supers queue)
  unfolding has
  Sound-new supers queue id left rest sound e v h = elim (Bool-cases (has supers v)) [
    | inl m ↦
        let (to, from) = supertypes-Super doc supers id v left rest e in
        inr (Reached-step id v (sound id (ground (arith, same_text_refl id))) (to m))
    | inr m ↦ sound v (ground (arith, has-push_all supers queue v, m))
  ]

  Sound-tail : (queue : List Bytes) (id : Bytes) → Sound (id ∷ queue) → Sound queue
  unfolding has
  Sound-tail queue id sound v h = sound v (ground (arith, h))

  sub_loop-true :
      (rounds : ℕ) (seen queue : List Bytes) (left rest : ℕ)
      → Sound queue
      → sub_loop doc base rounds seen queue left ≡ some (true, rest)
      → Below (registry_of doc) target base
  unfolding sub_loop has
  sub_loop-true rounds seen [] left rest sound h = absurd cc
  sub_loop-true zero seen (id ∷ queue) left rest sound h = absurd cc
  sub_loop-true (suc rounds) seen (id ∷ queue) left rest sound h =
      elim (round-Turn doc base seen id queue left) [
        | short _ _ e ↦ absurd (cc (rw (e, sub_loop) at h))
        | hit less end supers _ run m _ ↦
            let (to, from) = supertypes-Super doc supers id base less end run in
            Reached-step id base (sound id (ground (arith, same_text_refl id))) (to m)
        | old less _ m e ↦
            sub_loop-true rounds seen queue less rest (Sound-tail queue id sound)
              (rw (e, sub_loop) at h)
        | new less end supers _ _ run _ e ↦
            sub_loop-true rounds (id ∷ seen) (push_all supers queue) end rest
              (Sound-new supers queue id less end sound run) (rw (e, sub_loop) at h)
      ]

  -- What was seen is closed under the supertypes, up to what is queued, and none of it is the base.
  abbrev Closed : List Bytes → List Bytes → Type 0
  Closed seen queue =
      (x y : Bytes)
      → has seen x ≡ true
      → Super (registry_of doc) x y
      → ((has seen y || has queue y) ≡ true) × (same_text y base ≡ false)

  Closed-old :
      (seen queue : List Bytes) (id : Bytes)
      → has seen id ≡ true
      → Closed seen (id ∷ queue)
      → Closed seen queue
  unfolding has
  Closed-old seen queue id m closed x y h s =
      let (k, ne) = closed x y h s in
      elim (Bool-cases (same_text id y)) [
        | inl e ↦
            let there : has seen y ≡ true = rw (same_text-eq id y e) at m in
            (ground (arith, there), ne)
        | inr e ↦ (ground (arith, k, e), ne)
      ]

  Closed-new :
      (seen supers queue : List Bytes) (id : Bytes) (left rest : ℕ)
      → Closed seen (id ∷ queue)
      → supertypes [] doc id left ≡ some (supers, rest)
      → has supers base ≡ false
      → Closed (id ∷ seen) (push_all supers queue)
  unfolding has
  Closed-new seen supers queue id left rest closed e out x y h s =
      elim (Bool-cases (same_text id x)) [
        | inl same ↦
            let (to, from) = supertypes-Super doc supers id y left rest e in
            let k : has supers y ≡ true = from (rw (← same_text-eq id x same) at s) in
            let ne : same_text y base ≡ false = elim (Bool-cases (same_text y base)) [
              | inl f ↦ absurd (cc (rw (same_text-eq y base f) at k, out))
              | inr f ↦ f
            ] in
            (ground (arith, has-push_all supers queue y, k), ne)
        | inr other ↦
            let (k, ne) = closed x y (ground (arith, other)) s in
            (ground (arith, has-push_all supers queue y, k), ne)
      ]

  sub_loop-false :
      (rounds : ℕ) (seen queue : List Bytes) (left rest : ℕ)
      → Closed seen queue
      → (has seen target || has queue target) ≡ true
      → sub_loop doc base rounds seen queue left ≡ some (false, rest)
      → (end : List Bytes) × Closed end [] × (has end target ≡ true)
  unfolding sub_loop has
  sub_loop-false rounds seen [] left rest closed t h = (seen, closed, ground arith)
  sub_loop-false zero seen (id ∷ queue) left rest closed t h = absurd cc
  sub_loop-false (suc rounds) seen (id ∷ queue) left rest closed t h =
      elim (round-Turn doc base seen id queue left) [
        | short _ _ e ↦ absurd (cc (rw (e, sub_loop) at h))
        | hit less end supers _ run m e ↦ absurd (cc (rw (e, sub_loop) at h))
        | old less _ m e ↦
            sub_loop-false rounds seen queue less rest (Closed-old seen queue id m closed)
              (elim (Bool-cases (same_text id target)) [
                | inl f ↦
                    let there : has seen target ≡ true = rw (same_text-eq id target f) at m in
                    ground (arith, there)
                | inr f ↦ ground (arith, t, f)
              ])
              (rw (e, sub_loop) at h)
        | new less end supers _ _ run m e ↦
            sub_loop-false rounds (id ∷ seen) (push_all supers queue) end rest
              (Closed-new seen supers queue id less end closed run m)
              (ground (arith, has-push_all supers queue target, t)) (rw (e, sub_loop) at h)
      ]

  Closed-Below :
      (seen : List Bytes) (x z : Bytes)
      → Closed seen []
      → has seen x ≡ true
      → Below (registry_of doc) x z
      → same_text z base ≡ false
  unfolding has
  Closed-Below seen x z closed h (direct s) = (closed x z h s).1
  Closed-Below seen x z closed h (above {y} s b) =
      Closed-Below seen y z closed (ground (arith, (closed x y h s).0)) b

-- Where the budget lasts, the answer is right: a type is a subtype of `base` exactly when a walk of one
-- step or more up the supertypes leads from it to `base`.
pub is_subtype_within-Below :
    (doc : Option TypeRegistry) (target base : Bytes) (limit : ℕ)
    → (is_subtype_within doc target base limit).ok ≡ true
    → (is_subtype_within doc target base limit).sub ≡ true ↔ Below (registry_of doc) target base
unfolding is_subtype_within is_subtype_loop has
is_subtype_within-Below doc target base limit h =
    elim (Option-cases (is_subtype_loop doc target base limit)) [
      | inl e ↦ absurd (cc (rw (is_subtype_within, e) at h))
      | inr ((true, left), e) ↦ (
        (λ _.
            sub_loop-true doc target base limit [] (target ∷ []) limit left
              (λ v m. inl (same_text-eq target v (ground (arith, m)))) e),
        (λ b. rw (is_subtype_within, e) refl),
      )
      | inr ((false, left), e) ↦ (
        (λ k. absurd (cc (rw (is_subtype_within, e) at k))),
        (λ b.
            let (end, closed, there) =
              sub_loop-false doc target base limit [] (target ∷ []) limit left
                (λ x y m s. absurd cc) (ground (arith, same_text_refl target)) e in
            let ne = Closed-Below doc target base end target base closed there b in
            absurd (cc (ne, same_text_refl base))),
      )
    ]
