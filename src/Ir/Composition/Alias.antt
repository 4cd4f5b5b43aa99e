-- ===== src/Ir/Composition/Alias.antt =====
-- Where a chain of aliases ends, and the steps that it takes.
use morphic.Base.{
  ℕ, zero, suc, ◌+◌, ◌≤◌, true, false, List, [], ◌∷◌, none, some, Bytes, find, has, same_text,
  same_text-eq, if◌then◌else◌, ◌≡◌, ◌⊎◌, inl, inr, refl, sym, ap, ◌∙◌, arith, Bool-cases,
  Option-cases, length,
}
use morphic.Ir.Composition.{TypeDef, TypeRegistry, base_of, alias_base, alias_loop, alias_target}

-- A walk from one identifier along its aliases.
pub data Chain (types : TypeRegistry) : Bytes → Bytes → Type 0 where
  here : {x : Bytes} → Chain types x x
  step : {x y z : Bytes} → alias_base types x ≡ some y → Chain types y z → Chain types x z

-- An end of a chain: a type that is no alias, or an alias that leads back to itself.
pub data End (types : TypeRegistry) (x : Bytes) : Type 0 where
  opaque : alias_base types x ≡ none → End types x
  cyclic : {y : Bytes} → alias_base types x ≡ some y → Chain types y x → End types x

Chain-trans :
    {types : TypeRegistry} {x y z : Bytes} → Chain types x y → Chain types y z → Chain types x z
Chain-trans here q = q
Chain-trans (step e p) q = step e (Chain-trans p q)

-- Every alias seen leads to `id` by a first step.
abbrev Leads : TypeRegistry → List Bytes → Bytes → Type 0
Leads types [] id = Unit
Leads types (x ∷ seen) id =
    ((y : Bytes) × (alias_base types x ≡ some y) × Chain types y id) × Leads types seen id

Leads-step :
    (types : TypeRegistry) (seen : List Bytes) (id base : Bytes)
    → alias_base types id ≡ some base
    → Leads types seen id
    → Leads types seen base
Leads-step types [] id base e h = tt
Leads-step types (x ∷ seen) id base e ((y, f, p), h) =
    ((y, f, Chain-trans p (step e here)), Leads-step types seen id base e h)

Leads-has :
    (types : TypeRegistry) (seen : List Bytes) (id : Bytes)
    → has seen id ≡ true
    → Leads types seen id
    → (y : Bytes) × (alias_base types id ≡ some y) × Chain types y id
unfolding has
Leads-has types [] id m h = cc
Leads-has types (x ∷ seen) id m ((y, f, p), h) = elim (Bool-cases (same_text x id)) [
  | inl e ↦ (y, ap (alias_base types) (sym (same_text-eq x id e)) ∙ f, p)
  | inr e ↦ Leads-has types seen id (ground (arith, e)) h
]

-- What the loop answers, read off its equation.
data Ran (types : TypeRegistry) (seen : List Bytes) (id t : Bytes) (left rest : ℕ) : Type 0 where
  stop :
      id ≡ t
      → left ≡ rest
      → (alias_base types id ≡ none) ⊎ (has seen id ≡ true)
      → Ran types seen id t left rest
  go :
      (base : Bytes) (less : ℕ)
      → left ≡ suc less
      → alias_base types id ≡ some base
      → has seen id ≡ false
      → alias_loop types (id ∷ seen) base less ≡ some (t, rest)
      → Ran types seen id t left rest

alias_loop-Ran :
    (types : TypeRegistry) (seen : List Bytes) (id t : Bytes) (left rest : ℕ)
    → alias_loop types seen id left ≡ some (t, rest)
    → Ran types seen id t left rest
unfolding alias_loop
alias_loop-Ran types seen id t zero rest h = elim (Option-cases (alias_base types id)) [
  | inl e ↦ stop (cc (rw (e, alias_loop) at h)) (cc (rw (e, alias_loop) at h)) (inl e)
  | inr (base, e) ↦ elim (Bool-cases (has seen id)) [
    | inl m ↦ stop (cc (rw (e, alias_loop, m) at h)) (cc (rw (e, alias_loop, m) at h)) (inr m)
    | inr m ↦ absurd (cc (rw (e, alias_loop, m) at h))
  ]
]
alias_loop-Ran types seen id t (suc left) rest h = elim (Option-cases (alias_base types id)) [
  | inl e ↦ stop (cc (rw (e, alias_loop) at h)) (cc (rw (e, alias_loop) at h)) (inl e)
  | inr (base, e) ↦ elim (Bool-cases (has seen id)) [
    | inl m ↦ stop (cc (rw (e, alias_loop, m) at h)) (cc (rw (e, alias_loop, m) at h)) (inr m)
    | inr m ↦ go base left refl e m (rw (e, alias_loop, m) at h)
  ]
]

stopped-End :
    (types : TypeRegistry) (seen : List Bytes) (id : Bytes)
    → Leads types seen id
    → (alias_base types id ≡ none) ⊎ (has seen id ≡ true)
    → End types id
stopped-End types seen id leads (inl e) = opaque e
stopped-End types seen id leads (inr m) =
    let (y, e, p) = Leads-has types seen id m leads in cyclic e p

alias_loop-End :
    (types : TypeRegistry) (seen : List Bytes) (id t : Bytes) (left rest : ℕ)
    → Leads types seen id
    → alias_loop types seen id left ≡ some (t, rest)
    → Chain types id t × End types t
alias_loop-End types seen id t zero rest leads h =
    elim (alias_loop-Ran types seen id t zero rest h) [
      | stop same _ why ↦ rw (← same) (here, stopped-End types seen id leads why)
      | go base less e _ _ _ ↦ absurd (omega arith)
    ]
alias_loop-End types seen id t (suc left) rest leads h =
    elim (alias_loop-Ran types seen id t (suc left) rest h) [
      | stop same _ why ↦ rw (← same) (here, stopped-End types seen id leads why)
      | go base less e f m r ↦
          let same : less ≡ left = omega arith in
          let more : Leads types (id ∷ seen) base =
            ((base, f, here), Leads-step types seen id base f leads) in
          let (p, end) = alias_loop-End types (id ∷ seen) base t left rest more (rw same at r) in
          (step f p, end)
    ]

-- Where the budget lasts, `aliasTarget` answers an end of the chain of aliases from the type: one that
-- is no alias, or one that its own aliases lead back to.
pub alias_target-End :
    (types : TypeRegistry) (id t : Bytes) (left rest : ℕ)
    → alias_target types id left ≡ some (t, rest)
    → Chain types id t × End types t
unfolding alias_target
alias_target-End types id t left rest h = alias_loop-End types [] id t left rest tt h

-- The answer does not depend on the budget.
alias_loop_agree :
    (types : TypeRegistry) (seen : List Bytes) (id t u : Bytes) (left more rest other : ℕ)
    → alias_loop types seen id left ≡ some (t, rest)
    → alias_loop types seen id more ≡ some (u, other)
    → t ≡ u
alias_loop_agree types seen id t u zero more rest other h k =
    elim (alias_loop-Ran types seen id t zero rest h) [
      | go base less e _ _ _ ↦ absurd (omega arith)
      | stop same _ why ↦ elim (alias_loop-Ran types seen id u more other k) [
        | stop same' _ _ ↦ sym same ∙ same'
        | go base less _ f m _ ↦ absurd (ground arith)
      ]
    ]
alias_loop_agree types seen id t u (suc left) more rest other h k =
    elim (alias_loop-Ran types seen id t (suc left) rest h) [
      | stop same _ why ↦ elim (alias_loop-Ran types seen id u more other k) [
        | stop same' _ _ ↦ sym same ∙ same'
        | go base less _ f m _ ↦ absurd (ground arith)
      ]
      | go base less e f m r ↦ elim (alias_loop-Ran types seen id u more other k) [
        | stop same' _ why ↦ absurd (ground arith)
        | go base' less' e' f' m' r' ↦
            let same : less ≡ left = omega arith in
            let one : base' ≡ base = cc in
            alias_loop_agree types (id ∷ seen) base t u left less' rest other (rw same at r)
              (rw one at r')
      ]
    ]

pub alias_target_agree :
    (types : TypeRegistry) (id t u : Bytes) (left more rest other : ℕ)
    → alias_target types id left ≡ some (t, rest)
    → alias_target types id more ≡ some (u, other)
    → t ≡ u
unfolding alias_target
alias_target_agree types id t u left more rest other h k =
    alias_loop_agree types [] id t u left more rest other h k

-- A weight for each entry of a registry that is not seen.
unfoldable pub total : (TypeDef → ℕ) → TypeRegistry → List Bytes → ℕ
total w [] seen = 0
total w ((k, node) ∷ types) seen = (if has seen k then 0 else w node) + total w types seen

pub total_mono :
    (w : TypeDef → ℕ) (types : TypeRegistry) (seen : List Bytes) (id : Bytes)
    → total w types (id ∷ seen) ≤ total w types seen
unfolding total has
total_mono w [] seen id = omega arith
total_mono w ((k, node) ∷ types) seen id = ground (arith, total_mono w types seen id)

-- To see a type takes its weight off.
pub total_seen :
    (w : TypeDef → ℕ) (types : TypeRegistry) (seen : List Bytes) (id : Bytes) {node : TypeDef}
    → find types id ≡ some node
    → has seen id ≡ false
    → total w types (id ∷ seen) + w node ≤ total w types seen
unfolding total has find
total_seen w [] seen id h m = cc
total_seen w ((k, n) ∷ types) seen id {node} h m = elim (Bool-cases (same_text k id)) [
  | inl e ↦
      let same : k ≡ id = same_text-eq k id e in
      let one : n ≡ node = ground (arith, e) in
      let out : has seen k ≡ false = ap (has seen) same ∙ m in
      ground (arith, e, out, total_mono w types seen id, ap w one)
  | inr e ↦
      let r = total_seen w types seen id {node = node} (ground (arith, e)) m in ground (arith, r)
]

abbrev pub each : TypeDef → ℕ
each node = 1

alias_base-find :
    (types : TypeRegistry) (id base : Bytes)
    → alias_base types id ≡ some base
    → (node : TypeDef) × (find types id ≡ some node)
unfolding alias_base
alias_base-find types id base h = elim (Option-cases (find types id)) [
  | inl e ↦ absurd (cc (ap base_of e, h))
  | inr (node, e) ↦ (node, e)
]

-- As many steps as the registry has types are enough for a chain.
alias_loop_ends :
    (types : TypeRegistry) (seen : List Bytes) (id : Bytes) (left : ℕ)
    → total each types seen ≤ left
    → (t : Bytes) × (rest : ℕ) × (alias_loop types seen id left ≡ some (t, rest))
      × (left ≤ rest + total each types seen)
      × (rest ≤ left)
unfolding alias_loop
alias_loop_ends types seen id zero h = elim (Option-cases (alias_base types id)) [
  | inl e ↦ (id, zero, rw (e, alias_loop), omega arith, omega arith)
  | inr (base, e) ↦ elim (Bool-cases (has seen id)) [
    | inl m ↦ (id, zero, rw (e, alias_loop, m), omega arith, omega arith)
    | inr m ↦
        let (node, f) = alias_base-find types id base e in
        absurd (omega (arith, total_seen each types seen id {node = node} f m))
  ]
]
alias_loop_ends types seen id (suc left) h = elim (Option-cases (alias_base types id)) [
  | inl e ↦ (id, suc left, rw (e, alias_loop), omega arith, omega arith)
  | inr (base, e) ↦ elim (Bool-cases (has seen id)) [
    | inl m ↦ (id, suc left, rw (e, alias_loop, m), omega arith, omega arith)
    | inr m ↦
        let (node, f) = alias_base-find types id base e in
        let less = total_seen each types seen id {node = node} f m in
        let (t, rest, r, le, down) = alias_loop_ends types (id ∷ seen) base left (omega arith) in
        (t, rest, rw (e, alias_loop, m) r, omega arith, omega arith)
  ]
]

total-each : (types : TypeRegistry) → total each types [] ≡ length types
unfolding total has
total-each [] = refl
total-each ((k, node) ∷ types) = omega (arith, total-each types)

pub alias_target_ends :
    (types : TypeRegistry) (id : Bytes) (left : ℕ)
    → length types ≤ left
    → (t : Bytes) × (rest : ℕ) × (alias_target types id left ≡ some (t, rest))
      × (left ≤ rest + length types)
      × (rest ≤ left)
unfolding alias_target
alias_target_ends types id left h =
    let e = total-each types in
    let (t, rest, r, le, down) = alias_loop_ends types [] id left (omega arith) in
    (t, rest, r, omega arith, omega arith)
