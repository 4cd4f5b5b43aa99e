-- ===== src/Ir/Composition/Budget.antt =====
-- How many steps are enough for an answer.
use morphic.Base.{
  ℕ, zero, suc, ◌+◌, ◌*◌, ◌≤◌, Bool, true, false, List, [], ◌∷◌, Option, none, some, Bytes, find,
  has, ◌≡◌, inl, inr, refl, ◌∙◌, arith, Option-cases, length,
}
use morphic.Ir.Composition.{
  TypeDef, TypeRegistry, model_of, supertypes, push_all, sub_loop, is_subtype_loop,
  is_subtype_within,
}
use morphic.Ir.Composition.Alias.{total, total_seen, total_mono}
use morphic.Ir.Composition.Supers.{
  targets, registry_of, append_all_ends, model_supertypes-append_all,
}
use morphic.Ir.Composition.Below.{round-Turn, old, hit, new, short}

-- How many supertypes a type names.
unfoldable pub named : Option TypeDef → ℕ
named node = elim (model_of node) [ none ↦ 0 | some m ↦ length (targets m) ]

-- The steps that a type may take: each name is followed through the registry and queued.
abbrev pub cost : TypeRegistry → TypeDef → ℕ
cost types node = named (some node) + named (some node) * length types

abbrev pub needed : TypeRegistry → ℕ
needed types = suc (total (cost types) types [])

length-push_all :
    (supers queue : List Bytes) → length (push_all supers queue) ≡ length supers + length queue
unfolding push_all
length-push_all [] queue = omega arith
length-push_all (s ∷ supers) queue = omega (arith, length-push_all supers (s ∷ queue))

-- A type in the registry whose names are followed with steps to spare.
supertypes_ends :
    (doc : Option TypeRegistry) (id : Bytes) (left : ℕ)
    → named (find (registry_of doc) id) * length (registry_of doc) ≤ left
    → (ys : List Bytes) × (rest : ℕ) × (supertypes [] doc id left ≡ some (ys, rest))
      × (left ≤ rest + named (find (registry_of doc) id) * length (registry_of doc))
      × (length ys ≤ named (find (registry_of doc) id))
      × (rest ≤ left)
unfolding supertypes named
supertypes_ends none id left h = ([], left, refl, omega arith, omega arith, omega arith)
supertypes_ends (some types) id left h = elim (Option-cases (model_of (find types id))) [
  | inl e ↦ ([], left, rw (e, supertypes) refl, omega arith, omega arith, omega arith)
  | inr (m, e) ↦
      let same : named (find types id) ≡ length (targets m) = rw (named, e) refl in
      let (ys, rest, r, le, long, down) =
        append_all_ends types [] (targets m) left (rw same at h) in
      (
        ys,
        rest,
        rw (e, supertypes) (model_supertypes-append_all types [] m left ∙ r),
        rw same le,
        rw same (omega arith),
        down,
      )
]

-- To see a type pays for it.
total-named :
    (types : TypeRegistry) (seen : List Bytes) (id : Bytes)
    → has seen id ≡ false
    → total (cost types) types (id ∷ seen)
        + named (find types id)
        + named (find types id) * length types
      ≤ total (cost types) types seen
unfolding named
total-named types seen id m = elim (Option-cases (find types id)) [
  | inl e ↦
      let zeroed : named (find types id) ≡ 0 = rw (e, named) refl in
      rw zeroed (omega (arith, total_mono (cost types) types seen id))
  | inr (node, e) ↦
      let less = total_seen (cost types) types seen id {node = node} e m in
      rw e (omega (arith, less))
]

module _ (doc : Option TypeRegistry) (base : Bytes) where
  -- What is left of the registry to read, and of the queue.
  abbrev ahead : List Bytes → List Bytes → ℕ
  ahead seen queue = total (cost (registry_of doc)) (registry_of doc) seen + length queue

  sub_loop_ends :
      (rounds : ℕ) (seen queue : List Bytes) (left : ℕ)
      → ahead seen queue ≤ left
      → left ≤ rounds
      → (sub : Bool) × (rest : ℕ) × (sub_loop doc base rounds seen queue left ≡ some (sub, rest))
  unfolding sub_loop
  sub_loop_ends rounds seen [] left h k = (false, left, refl)
  sub_loop_ends zero seen (id ∷ queue) left h k = absurd (omega arith)
  sub_loop_ends (suc rounds) seen (id ∷ queue) left h k =
      elim (round-Turn doc base seen id queue left) [
        | short less why e ↦ elim why [
          | inl none_left ↦ absurd (omega arith)
          | inr (same, m, out) ↦
              let room = total-named (registry_of doc) seen id m in
              let (ys, rest, r, _, _, _) = supertypes_ends doc id less (omega arith) in
              absurd (cc (out, r))
        ]
        | hit less end supers _ run m e ↦ (true, end, rw (e, sub_loop) refl)
        | old less same m e ↦
            let (sub, rest, r) = sub_loop_ends rounds seen queue less (omega arith) (omega arith) in
            (sub, rest, rw (e, sub_loop) r)
        | new less end supers same m run no_base e ↦
            let room = total-named (registry_of doc) seen id m in
            let (ys, left', r, le, long, down) = supertypes_ends doc id less (omega arith) in
            let one : ys ≡ supers = cc in
            let two : left' ≡ end = cc in
            let queued = length-push_all supers queue in
            let steps : less ≤ end + named (find (registry_of doc) id) * length (registry_of doc) =
              rw two at le in
            let fewer : end ≤ less = rw two at down in
            let few : length supers ≤ named (find (registry_of doc) id) = rw one at long in
            let (sub, rest, ran) =
              sub_loop_ends rounds (id ∷ seen) (push_all supers queue) end (omega arith)
                (omega arith) in
            (sub, rest, rw (e, sub_loop) ran)
      ]

-- A budget of a step for the target, a step for every supertype that the registry names, and a step for
-- every type on the way of each is enough for an answer, whether or not the supertypes form a cycle.
pub is_subtype_within-ok :
    (doc : Option TypeRegistry) (target base : Bytes) (limit : ℕ)
    → needed (registry_of doc) ≤ limit
    → (is_subtype_within doc target base limit).ok ≡ true
unfolding is_subtype_within is_subtype_loop
is_subtype_within-ok doc target base limit h =
    let (sub, rest, r) =
      sub_loop_ends doc base limit [] (target ∷ []) limit (omega arith) (omega arith) in
    rw (is_subtype_within, is_subtype_loop, r) refl
