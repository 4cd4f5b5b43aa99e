-- ===== src/Compile/Registry/Settled.antt =====
-- What `fulfil` comes to: its rounds end, and no promise is forgotten.
use mathlib.Core.List.{Memᴰ}
use mathlib.Core.List.Memᴰ
use morphic.Base.{
  ℕ, zero, suc, ◌+◌, ◌≤◌, ◌<◌, Bool, true, false, List, [], ◌∷◌, none, some, Bytes, Table, has,
  same_text, same_text-eq, if◌then◌else◌, ◌≡◌, ◌⊎◌, inl, inr, refl, ap, ◌∙◌, arith, Bool-cases,
  length,
}
use morphic.Compile.Types.{promise_unbuilt, refuse}
use morphic.Compile.Registry.{
  Registry, Went, is_built, sorted, call, fulfil_round, fulfil_rounds, fulfil, unasked, go_on,
}
use morphic.Compile.Registry.Fair.{Fair, keys, Fair-refl, Fair-trans, decline-Fair, if-Fair}
use morphic.Compile.Registry.Rounds.{
  has-sorted, Accounted, waiting, in_round, done, unbuilt, AllAccounted, went, last_round, empty,
  cut_off, further, go_on-Left,
}

module _ {N B S D : Type 0} (names : List Bytes) (stopped : ℕ → Bool)
    (build : B → Registry N B S → Registry N B S × List D)
    (fair : (b : B) (t : Registry N B S) → Fair names t (build b t).0) where
  call-Fair : (c : Bytes) (b : B) (t : Registry N B S) → Fair names t (call stopped build c b t).0
  unfolding call
  call-Fair c b t =
      if-Fair names (is_built c (build b t).0) (λ _. fair b t)
        (λ _.
          Fair-trans names t (build b t).0 _ (fair b t)
            (decline-Fair names (promise_unbuilt c) (build b t).0))

  call-Accounted :
      (c : Bytes) (b : B) (t : Registry N B S) → Accounted [] c (call stopped build c b t).0
  unfolding call refuse
  call-Accounted c b t = elim (Bool-cases (is_built c (build b t).0)) [
    | inl e ↦ rw (e, call) (done e)
    | inr e ↦
        rw (e, call) (unbuilt (Memᴰ.append_right (build b t).0.types.refused (Memᴰ.head refl)))
  ]

  -- What was accounted for before a call is accounted for after it.
  call-AllAccounted :
      (c : Bytes) (b : B) (round : List Bytes) (t : Registry N B S)
      → AllAccounted (c ∷ round) t
      → AllAccounted round (call stopped build c b t).0
  unfolding has
  call-AllAccounted c b round t all v h =
      let f = call-Fair c b t in
      elim (f.outstanding v h) [
        | inr k ↦ waiting k
        | inl m ↦ elim (all v m) [
          | waiting k ↦ waiting (f.held v k)
          | done e ↦ done (f.kept v e)
          | unbuilt k ↦ unbuilt (f.told k)
          | in_round k ↦ elim (Bool-cases (same_text c v)) [
            | inr e ↦ in_round (ground (arith, k, e))
            | inl e ↦
                let same : c ≡ v = same_text-eq c v e in
                elim (rw same at (call-Accounted c b t)) [
                  | waiting k' ↦ waiting (rw same k')
                  | in_round k' ↦ absurd cc
                  | done d ↦ done (rw same d)
                  | unbuilt d ↦ unbuilt (rw same d)
                ]
          ]
        ]
      ]

  skip-AllAccounted :
      (c : Bytes) (round : List Bytes) (t : Registry N B S)
      → is_built c t ≡ true
      → AllAccounted (c ∷ round) t
      → AllAccounted round t
  unfolding has
  skip-AllAccounted c round t d all v m = elim (all v m) [
    | waiting k ↦ waiting k
    | done e ↦ done e
    | unbuilt k ↦ unbuilt k
    | in_round k ↦ elim (Bool-cases (same_text c v)) [
      | inr e ↦ in_round (ground (arith, k, e))
      | inl e ↦ done (rw (same_text-eq c v e) at d)
    ]
  ]

  fulfil_round-Fair :
      (rest : Table B) (t : Registry N B S) (k : ℕ)
      → Fair names t (fulfil_round stopped build rest t k).after
  unfolding fulfil_round
  fulfil_round-Fair [] t k = Fair-refl names t
  fulfil_round-Fair ((c, b) ∷ rest) t k = elim (Bool-cases (stopped k)) [
    | inl e ↦ rw (fulfil_round, e) (Fair-refl names t)
    | inr e ↦ elim (Bool-cases (is_built c t)) [
      | inl d ↦ rw (fulfil_round, e, d) (fulfil_round-Fair rest t (suc k))
      | inr d ↦
          let next = (call stopped build c b t).0 in
          rw (fulfil_round, e, d)
            (Fair-trans names t next _ (call-Fair c b t) (fulfil_round-Fair rest next (suc k)))
    ]
  ]

  fulfil_round-AllAccounted :
      (rest : Table B) (t : Registry N B S) (k : ℕ)
      → AllAccounted (keys rest) t
      → (fulfil_round stopped build rest t k).cut ≡ false
      → AllAccounted [] (fulfil_round stopped build rest t k).after
  unfolding fulfil_round
  fulfil_round-AllAccounted [] t k all h = all
  fulfil_round-AllAccounted ((c, b) ∷ rest) t k all h = elim (Bool-cases (stopped k)) [
    | inl e ↦ absurd (cc (rw (fulfil_round, e) at h))
    | inr e ↦ elim (Bool-cases (is_built c t)) [
      | inl d ↦
          rw (fulfil_round, e, d)
            (fulfil_round-AllAccounted rest t (suc k) (skip-AllAccounted c (keys rest) t d all)
              (rw (fulfil_round, e, d) at h))
      | inr d ↦
          rw (fulfil_round, e, d)
            (fulfil_round-AllAccounted rest (call stopped build c b t).0 (suc k)
              (call-AllAccounted c b (keys rest) t all) (rw (fulfil_round, e, d) at h))
    ]
  ]

  -- A round takes the promises that are outstanding.
  abbrev taken : Registry N B S → Registry N B S
  taken t = record t { promises = [] }

  abbrev round_of : Registry N B S → ℕ → Went N B S D
  round_of t k = fulfil_round stopped build (sorted t.promises) (taken t) k

  taken-AllAccounted :
      (t : Registry N B S) → AllAccounted [] t → AllAccounted (keys (sorted t.promises)) (taken t)
  unfolding has is_built
  taken-AllAccounted t all c h = elim (all c h) [
    | waiting k ↦ in_round (has-sorted t.promises c ∙ k)
    | in_round k ↦ absurd cc
    | done d ↦ done d
    | unbuilt m ↦ unbuilt m
  ]

  -- How many coordinates are still to be promised.
  missing : List Bytes → List Bytes → ℕ
  missing [] ps = 0
  missing (n ∷ ns) ps = (if has ps n then 0 else 1) + missing ns ps

  missing_mono :
      (ns ps qs : List Bytes)
      → ((c : Bytes) → has ps c ≡ true → has qs c ≡ true)
      → missing ns qs ≤ missing ns ps
  unfolding missing
  missing_mono [] ps qs f = omega arith
  missing_mono (n ∷ ns) ps qs f = elim (Bool-cases (has ps n)) [
    | inl e ↦ ground (arith, e, f n e, missing_mono ns ps qs f)
    | inr e ↦ ground (arith, e, missing_mono ns ps qs f)
  ]

  missing_less :
      (ns ps qs : List Bytes) (c : Bytes)
      → ((c : Bytes) → has ps c ≡ true → has qs c ≡ true)
      → has ns c ≡ true
      → has ps c ≡ false
      → has qs c ≡ true
      → missing ns qs < missing ns ps
  unfolding missing has
  missing_less [] ps qs c f m p q = absurd cc
  missing_less (n ∷ ns) ps qs c f m p q = elim (Bool-cases (same_text n c)) [
    | inl e ↦
        let same : n ≡ c = same_text-eq n c e in
        let out : has ps n ≡ false = rw same p in
        let there : has qs n ≡ true = rw same q in
        ground (arith, out, there, missing_mono ns ps qs f)
    | inr e ↦
        let less = missing_less ns ps qs c f (ground (arith, m, e)) p q in
        elim (Bool-cases (has ps n)) [
          | inl d ↦ ground (arith, d, f n d, less)
          | inr d ↦ ground (arith, d, less)
        ]
  ]

  rounds_ends :
      (fuel : ℕ) (t : Registry N B S) (k : ℕ)
      → (t.promises ≡ []) ⊎ (missing names t.promised < fuel)
      → (w : Went N B S D) × (fulfil_rounds stopped build fuel t k ≡ some w)
  unfolding fulfil_rounds go_on
  rounds_ends zero t k (inl e) = (
    unasked stopped build t k,
    ap (λ ps. elim ps [ [] ↦ some (unasked stopped build t k) | p ∷ ps ↦ none ]) e,
  )
  rounds_ends zero t k (inr h) = absurd (omega arith)
  rounds_ends (suc fuel) t k (inl e) = (
    unasked stopped build t k,
    ap
        (λ ps.
          go_on stopped build ps t k (round_of t k)
            (fulfil_rounds stopped build fuel (round_of t k).after (round_of t k).asked))
        e,
  )
  rounds_ends (suc fuel) t k (inr h) =
      let w = round_of t k in
      let f = fulfil_round-Fair (sorted t.promises) (taken t) k in
      let (v, e) = rounds_ends fuel w.after w.asked (elim f.first [
        | inl d ↦ inl d
        | inr (c, out, there, m) ↦
            let less = missing_less names t.promised w.after.promised c f.still m out there in
            inr (omega arith)
      ]) in
      rw e (went stopped build t.promises t k w v)

  rounds_accounted :
      (fuel : ℕ) (t : Registry N B S) (k : ℕ) (w : Went N B S D)
      → fulfil_rounds stopped build fuel t k ≡ some w
      → w.cut ≡ false
      → AllAccounted [] t
      → AllAccounted [] w.after × (w.after.promises ≡ [])
  unfolding fulfil_rounds
  rounds_accounted zero t k w h c all =
      let (e, s) = last_round t.promises (unasked stopped build t k) w h in rw (← s) (all, e)
  rounds_accounted (suc fuel) t k w h c all =
      let r = round_of t k in
      elim (go_on-Left stopped build t.promises t k r _ w h) [
        | empty e s ↦ rw (← s) (all, e)
        | cut_off e s ↦ absurd (cc (ap (λ (v : Went N B S D). v.cut) s, e, c))
        | further v e run s ↦
            let all' =
              fulfil_round-AllAccounted (sorted t.promises) (taken t) k (taken-AllAccounted t all)
                e in
            rw (← s) (
              rounds_accounted fuel r.after r.asked v run (ap (λ (v : Went N B S D). v.cut) s ∙ c)
                all')
      ]

  missing_bound : (ns ps : List Bytes) → missing ns ps ≤ length ns
  unfolding missing
  missing_bound [] ps = omega arith
  missing_bound (n ∷ ns) ps = ground (arith, missing_bound ns ps)

  -- Nothing outstanding and nothing in a round: what was promised has a node or a refusal.
  answered :
      (t : Registry N B S) (c : Bytes)
      → t.promises ≡ []
      → Accounted [] c t
      → (is_built c t ≡ true) ⊎ Memᴰ (promise_unbuilt c) t.types.refused
  unfolding has
  answered t c e (waiting h) = absurd (cc (ap (λ ps. has (keys ps) c) e, h))
  answered t c e (in_round h) = absurd cc
  answered t c e (done d) = inl d
  answered t c e (unbuilt m) = inr m

abbrev pub AllAnswered : {N B S : Type 0} → Registry N B S → Type 0
AllAnswered t =
    (c : Bytes)
    → has t.promised c ≡ true
    → (is_built c t ≡ true) ⊎ Memᴰ (promise_unbuilt c) t.types.refused

-- Where the builds take nothing back and promise only coordinates of a list, whatever the builds promise
-- in turn, one round more than the list is long is enough for `fulfil` to end. It marks the registry as
-- fulfilled, and unless the context stopped it, every coordinate that was ever promised has a node or a
-- refusal that names it, where those promised before were accounted for.
pub fulfil_answers :
    {N B S D : Type 0} (names : List Bytes) (stopped : ℕ → Bool)
    (build : B → Registry N B S → Registry N B S × List D) (fuel : ℕ) (t : Registry N B S) (k : ℕ)
    → ((b : B) (u : Registry N B S) → Fair names u (build b u).0)
    → AllAccounted [] t
    → length names < fuel
    → (w : Went N B S D) × (fulfil stopped build fuel t k ≡ some w)
      × (w.after.fulfilled ≡ true)
      × ((w.cut ≡ true) ⊎ AllAnswered w.after)
unfolding fulfil is_built
fulfil_answers names stopped build fuel t k fair all h =
    let bound = missing_bound names stopped build fair names t.promised in
    let (w, e) = rounds_ends names stopped build fair fuel t k (inr (omega arith)) in
    (
      record w { after = record w.after { fulfilled = true } },
      rw (fulfil, e) refl,
      refl,
      elim (Bool-cases w.cut) [
        | inl c ↦ inl c
        | inr c ↦
            let (all', done') = rounds_accounted names stopped build fair fuel t k w e c all in
            inr (λ n m. answered names stopped build fair w.after n done' (all' n m))
      ],
    )
