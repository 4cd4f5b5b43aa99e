-- ===== src/Ir/Exposure/Exposed.antt =====
-- What `ExposesWithin` answers, against the parts that a type is made of.
use morphic.Base.{
  ℕ, zero, suc, Bool, true, false, ◌||◌, List, [], ◌∷◌, Option, none, some, Bytes, find, has,
  same_text, same_text-eq, same_text_refl, if◌then◌else◌, ◌≡◌, ◌↔◌, inl, inr, refl, arith,
  Bool-cases, Option-cases,
}
use morphic.Ir.Composition.{TypeRegistry, push_all}
use morphic.Ir.Composition.Supers.{registry_of}
use morphic.Ir.Composition.Below.{has-push_all}
use morphic.Ir.Exposure.Parts.{
  Parts, part, whole, Own, Parts-snoc, part_targets-PartOf, PartOf-part_targets, no_targets,
  properties_of-Own, Own-missing, same_Parts, nothing,
}
use morphic.Ir.Exposure.{
  Step, further, stopped, spent, visit_props, part_targets, properties_of, part_sources, walk_step,
  walk_loop, exposed_walk, looks_for, exposes_within,
}

visit_props-has :
    (prop : Bytes) (ps : List Bytes) (left rest : ℕ) (found stop : Bool)
    → visit_props (looks_for prop) ps false left ≡ some ((found, stop), rest)
    → (found ≡ has ps prop) × (stop ≡ has ps prop)
unfolding visit_props has
visit_props-has prop [] left rest found stop h = (cc, cc)
visit_props-has prop (p ∷ ps) zero rest found stop h = absurd cc
visit_props-has prop (p ∷ ps) (suc left) rest found stop h = elim (Bool-cases (same_text p prop)) [
  | inl e ↦ (cc (rw (visit_props, e) at h, e), cc (rw (visit_props, e) at h, e))
  | inr e ↦
      let (a, b) = visit_props-has prop ps left rest found stop (rw (visit_props, e) at h) in
      (ground (arith, e, a), ground (arith, e, b))
]

module _ (types : TypeRegistry) (prop : Bytes) where
  abbrev bears : Bytes → Bool
  bears id = has (properties_of (find types id)) prop

  abbrev step_of : List Bytes → Bytes → List Bytes → ℕ → Step Bool
  step_of seen id queue left = walk_step (looks_for prop) types seen id queue false left

  -- What a round may do.
  data Turn (seen : List Bytes) (id : Bytes) (queue : List Bytes) (left : ℕ) : Type 0 where
    old :
        (rest : ℕ)
        → has seen id ≡ true
        → step_of seen id queue left ≡ further seen queue false rest
        → Turn seen id queue left
    hit :
        (rest : ℕ)
        → bears id ≡ true
        → step_of seen id queue left ≡ stopped true rest
        → Turn seen id queue left
    new :
        (rest : ℕ)
        → bears id ≡ false
        → step_of seen id queue left
          ≡ further (id ∷ seen) (push_all (part_targets (find types id)) queue) false rest
        → Turn seen id queue left
    short : step_of seen id queue left ≡ spent → Turn seen id queue left

  walk_step-Turn :
      (seen : List Bytes) (id : Bytes) (queue : List Bytes) (left : ℕ) → Turn seen id queue left
  unfolding walk_step part_sources
  walk_step-Turn seen id queue zero = short refl
  walk_step-Turn seen id queue (suc left) = elim (Bool-cases (has seen id)) [
    | inl m ↦ old left m (rw (walk_step, m, if◌then◌else◌) refl)
    | inr m ↦
        elim (Option-cases
          (visit_props (looks_for prop) (properties_of (find types id)) false left)) [
            | inl e ↦ short (rw (walk_step, m, if◌then◌else◌, part_sources, e) refl)
            | inr (((found, stop), rest), e) ↦
                let (f, s) =
                  visit_props-has prop (properties_of (find types id)) left rest found stop e in
                elim (Bool-cases (bears id)) [
                  | inl b ↦ hit rest b (
                      rw (walk_step, m, if◌then◌else◌, part_sources, e, f, s, b, if◌then◌else◌)
                        refl)
                  | inr b ↦ new rest b (
                      rw (walk_step, m, if◌then◌else◌, part_sources, e, f, s, b, if◌then◌else◌)
                        refl)
                ]
          ]
  ]

  module _ (root : Bytes) where
    abbrev Sound : List Bytes → Type 0
    Sound queue = (v : Bytes) → has queue v ≡ true → Parts types root v

    abbrev Found : Type 0
    Found = (x : Bytes) × Parts types root x × (bears x ≡ true)

    Sound-new :
        (queue : List Bytes) (id : Bytes)
        → Sound (id ∷ queue)
        → Sound (push_all (part_targets (find types id)) queue)
    unfolding has
    Sound-new queue id sound v h = elim (Bool-cases (has (part_targets (find types id)) v)) [
      | inl m ↦ elim (Option-cases (find types id)) [
        | inl e ↦ absurd (no_targets v (rw e at m))
        | inr (node, e) ↦
            Parts-snoc node (sound id (ground (arith, same_text_refl id))) e
              (part_targets-PartOf node v (rw e at m))
      ]
      | inr m ↦ sound v (ground (arith, has-push_all (part_targets (find types id)) queue v, m))
    ]

    Sound-tail : (queue : List Bytes) (id : Bytes) → Sound (id ∷ queue) → Sound queue
    unfolding has
    Sound-tail queue id sound v h = sound v (ground (arith, h))

    walk_loop-true :
        (rounds : ℕ) (seen queue : List Bytes) (left rest : ℕ)
        → Sound queue
        → walk_loop (looks_for prop) types rounds seen queue false left ≡ some (true, rest)
        → Found
    unfolding walk_loop has
    walk_loop-true rounds seen [] left rest sound h = absurd cc
    walk_loop-true zero seen (id ∷ queue) left rest sound h = absurd cc
    walk_loop-true (suc rounds) seen (id ∷ queue) left rest sound h =
        elim (walk_step-Turn seen id queue left) [
          | short e ↦ absurd (cc (rw (e, walk_loop) at h))
          | hit end b e ↦ (id, sound id (ground (arith, same_text_refl id)), b)
          | old less m e ↦
              walk_loop-true rounds seen queue less rest (Sound-tail queue id sound)
                (rw (e, walk_loop) at h)
          | new end b e ↦
              walk_loop-true rounds (id ∷ seen) (push_all (part_targets (find types id)) queue) end
                rest (Sound-new queue id sound) (rw (e, walk_loop) at h)
        ]

    -- What was seen bears no such property, and its parts are seen or queued.
    abbrev Closed : List Bytes → List Bytes → Type 0
    Closed seen queue =
        (x : Bytes)
        → has seen x ≡ true
        → (bears x ≡ false)
          × ((y : Bytes)
              → has (part_targets (find types x)) y ≡ true
              → (has seen y || has queue y) ≡ true)

    Closed-old :
        (seen queue : List Bytes) (id : Bytes)
        → has seen id ≡ true
        → Closed seen (id ∷ queue)
        → Closed seen queue
    unfolding has
    Closed-old seen queue id m closed x h =
        let (b, all) = closed x h in
        (
          b,
          λ y k. elim (Bool-cases (same_text id y)) [
            | inl e ↦
                let there : has seen y ≡ true = rw (same_text-eq id y e) at m in
                ground (arith, there)
            | inr e ↦ ground (arith, all y k, e)
          ],
        )

    Closed-new :
        (seen queue : List Bytes) (id : Bytes)
        → bears id ≡ false
        → Closed seen (id ∷ queue)
        → Closed (id ∷ seen) (push_all (part_targets (find types id)) queue)
    unfolding has
    Closed-new seen queue id b closed x h = elim (Bool-cases (same_text id x)) [
      | inl same ↦
          let one : id ≡ x = same_text-eq id x same in
          (
            rw one at b,
            λ y k.
                let there : has (part_targets (find types id)) y ≡ true = rw one k in
                ground (arith, has-push_all (part_targets (find types id)) queue y, there),
          )
      | inr other ↦
          let (c, all) = closed x (ground (arith, other)) in
          (c, λ y k. ground (arith, has-push_all (part_targets (find types id)) queue y, all y k))
    ]

    walk_loop-false :
        (rounds : ℕ) (seen queue : List Bytes) (left rest : ℕ)
        → Closed seen queue
        → (has seen root || has queue root) ≡ true
        → walk_loop (looks_for prop) types rounds seen queue false left ≡ some (false, rest)
        → (end : List Bytes) × Closed end [] × (has end root ≡ true)
    unfolding walk_loop has
    walk_loop-false rounds seen [] left rest closed t h = (seen, closed, ground arith)
    walk_loop-false zero seen (id ∷ queue) left rest closed t h = absurd cc
    walk_loop-false (suc rounds) seen (id ∷ queue) left rest closed t h =
        elim (walk_step-Turn seen id queue left) [
          | short e ↦ absurd (cc (rw (e, walk_loop) at h))
          | hit end b e ↦ absurd (cc (rw (e, walk_loop) at h))
          | old less m e ↦
              walk_loop-false rounds seen queue less rest (Closed-old seen queue id m closed)
                (elim (Bool-cases (same_text id root)) [
                  | inl f ↦
                      let there : has seen root ≡ true = rw (same_text-eq id root f) at m in
                      ground (arith, there)
                  | inr f ↦ ground (arith, t, f)
                ])
                (rw (e, walk_loop) at h)
          | new end b e ↦
              walk_loop-false rounds (id ∷ seen) (push_all (part_targets (find types id)) queue) end
                rest (Closed-new seen queue id b closed)
                (ground (arith, has-push_all (part_targets (find types id)) queue root, t))
                (rw (e, walk_loop) at h)
        ]

    Closed-Parts :
        (seen : List Bytes) (x z : Bytes)
        → Closed seen []
        → has seen x ≡ true
        → Parts types x z
        → bears z ≡ false
    unfolding has
    Closed-Parts seen x z closed h whole = (closed x h).0
    Closed-Parts seen x z closed h (part {y} node e s p) =
        let there : has (part_targets (find types x)) y ≡ true =
          rw e (PartOf-part_targets node y s) in
        Closed-Parts seen y z closed (ground (arith, (closed x h).1 y there)) p

-- Where the budget lasts, the answer is right: a type exposes a property exactly when it is one of the
-- own properties of the type or of a type that it is made of, however far down.
pub exposes_within-Parts :
    (doc : Option TypeRegistry) (root prop : Bytes) (limit : ℕ)
    → (exposes_within doc root prop limit).ok ≡ true
    → (exposes_within doc root prop limit).exposed ≡ true
      ↔ ((x : Bytes) × Parts (registry_of doc) root x × Own (registry_of doc) x prop)
unfolding exposes_within exposed_walk has
exposes_within-Parts none root prop limit h =
    ((λ k. absurd cc), (λ f. absurd (nothing root prop f)))
exposes_within-Parts (some types) root prop limit h =
    elim (Option-cases (exposed_walk (looks_for prop) (some types) root false limit)) [
      | inl e ↦ absurd (cc (rw (exposes_within, e) at h))
      | inr ((true, left), e) ↦ (
        (λ _.
            let (x, parts, b) =
              walk_loop-true types prop root limit [] (root ∷ []) limit left
                (λ v m. same_Parts root v (same_text-eq root v (ground (arith, m)))) e in
            (x, parts, properties_of-Own types x prop (find types x) refl b)),
        (λ b. rw (exposes_within, e) refl),
      )
      | inr ((false, left), e) ↦ (
        (λ k. absurd (cc (rw (exposes_within, e) at k))),
        (λ f.
            let (x, parts, o) = f in
            let (end, closed, there) =
              walk_loop-false types prop root limit [] (root ∷ []) limit left (λ y m. absurd cc)
                (ground (arith, same_text_refl root)) e in
            absurd (
              Own-missing types x prop o
                (Closed-Parts types prop root end root x closed there parts))),
      )
    ]
