-- ===== src/Compile/Types/Interned.antt =====
-- What a compiler relies on in `Intern`: a pointer keeps its identifier, and has its node.
use morphic.Base.{
  Bool, false, delete, [], sym, ◌||◌, ◌∷◌, Option, none, some, Bytes, same_text, same_text_refl,
  same_text-eq, ◌≡◌, refl, ap, ◌∙◌, find, find-delete, arith, Bool-cases, Option-cases, inl, inr,
  if◌then◌else◌,
}
use morphic.Ir.BigVal.{is_nil}
use morphic.Compile.Types.{
  Types, Refusal, refuse, register, prim_ref, claim_id, claim_space, claim, built, intern, lookup,
  node_at,
}

abbrev pub Build : Type 0 → Type 0
Build N = Types N → Types N × Option N

-- What a build does to the registry it shares: it reads it, interns and registers other nodes, refers to
-- primitives and refuses, going on by what each answers, and at last gives a node or none.
pub data Making (N : Type 0) : Type 0 where
  gives : Option N → Making N
  reads : (Types N → Making N) → Making N
  refuses : Refusal → Making N → Making N
  registers : (N → N → Bool) → Bytes → Option N → Making N → Making N
  refers : Bytes → N → (Bytes → Making N) → Making N
  interns : (pointer id : Bytes) → Making N → (Bytes → Making N) → Making N
  interns_nil : (pointer id : Bytes) → (Bytes → Making N) → Making N

unfoldable pub run_making : {N : Type 0} → Making N → Build N
run_making (gives td) t = (t, td)
run_making (reads go) t = run_making (go t) t
run_making (refuses why m) t = run_making m (refuse why t)
run_making (registers same id td m) t = run_making m (register same id td t)
run_making (refers id prim go) t = let after = prim_ref id prim t in run_making (go after.1) after.0
run_making (interns pointer id m go) t =
    let after = intern pointer id (some (run_making m)) t in run_making (go after.1) after.0
run_making (interns_nil pointer id go) t =
    let after = intern pointer id none t in run_making (go after.1) after.0

module _ {N : Type 0} where
  -- Every pointer that the first registry knows has the same identifier in the second.
  abbrev pub Keeps : Types N → Types N → Type 0
  Keeps t u = (pointer id : Bytes) → lookup pointer t ≡ some id → lookup pointer u ≡ some id

  lookup-claim :
      (pointer id other : Bytes) (t : Types N)
      → lookup other (claim pointer id t)
        ≡ (if same_text pointer other then some id else lookup other t)
  unfolding lookup claim claim_id claim_space refuse find
  lookup-claim pointer id other t = ground arith

  lookup-refuse :
      (why : Refusal) (other : Bytes) (t : Types N) → lookup other (refuse why t) ≡ lookup other t
  unfolding lookup refuse
  lookup-refuse why other t = refl

  lookup-built :
      (pointer id other : Bytes) (w : Types N × Option N)
      → same_text pointer other ≡ false
      → lookup other (built pointer id w).0 ≡ lookup other w.0
  unfolding lookup built refuse
  lookup-built pointer id other (t, none) h = find-delete t.by_pointer other pointer h
  lookup-built pointer id other (t, some td) h = refl

  others :
      (pointer p i : Bytes) (t : Types N)
      → find t.by_pointer pointer ≡ none
      → lookup p t ≡ some i
      → same_text pointer p ≡ false
  unfolding lookup
  others pointer p i t f h = elim (Bool-cases (same_text pointer p)) [
    | inr e ↦ e
    | inl e ↦ absurd (cc (ap (find t.by_pointer) (same_text-eq pointer p e), f, h))
  ]

  interned-Keeps :
      (pointer id : Bytes) (run : Build N) (t : Types N)
      → ((u : Types N) → Keeps u (run u).0)
      → Keeps t (intern pointer id (some run) t).0
  unfolding intern
  interned-Keeps pointer id run t keeps p i h = elim (Option-cases (find t.by_pointer pointer)) [
    | inr (existing, f) ↦ rw (f, intern) h
    | inl f ↦ elim (Bool-cases (is_nil pointer || is_nil id)) [
      | inl e ↦ rw (f, intern, e) (lookup-refuse _ p t ∙ h)
      | inr e ↦
          let apart = others pointer p i t f h in
          let claimed : lookup p (claim pointer id t) ≡ some i =
            lookup-claim pointer id p t ∙ ground (arith, apart, h) in
          rw (f, intern, e)
            (lookup-built pointer id p (run (claim pointer id t)) apart
              ∙ keeps (claim pointer id t) p i claimed)
    ]
  ]

  interned_nil-Keeps : (pointer id : Bytes) (t : Types N) → Keeps t (intern pointer id none t).0
  unfolding intern
  interned_nil-Keeps pointer id t p i h = elim (Option-cases (find t.by_pointer pointer)) [
    | inr (existing, f) ↦ rw (f, intern) h
    | inl f ↦ rw (f, intern) (lookup-refuse _ p t ∙ h)
  ]

  lookup-register :
      (same : N → N → Bool) (id : Bytes) (td : Option N) (other : Bytes) (t : Types N)
      → lookup other (register same id td t) ≡ lookup other t
  unfolding lookup register claim_space refuse
  lookup-register same [] td other t = refl
  lookup-register same (c ∷ id) none other t = refl
  lookup-register same (c ∷ id) (some td) other t = ground arith

  lookup-prim_ref :
      (id : Bytes) (prim : N) (other : Bytes) (t : Types N)
      → lookup other (prim_ref id prim t).0 ≡ lookup other t
  unfolding lookup prim_ref
  lookup-prim_ref id prim other t = ground arith

  -- Whatever a build does through the registry's methods, it takes no identifier from a pointer.
  run_making-Keeps : (m : Making N) (t : Types N) → Keeps t (run_making m t).0
  unfolding run_making
  run_making-Keeps (gives td) t p i h = h
  run_making-Keeps (reads go) t p i h = run_making-Keeps (go t) t p i h
  run_making-Keeps (refuses why m) t p i h =
      run_making-Keeps m (refuse why t) p i (lookup-refuse why p t ∙ h)
  run_making-Keeps (registers same id td m) t p i h =
      run_making-Keeps m (register same id td t) p i (lookup-register same id td p t ∙ h)
  run_making-Keeps (refers id prim go) t p i h =
      let after = prim_ref id prim t in
      run_making-Keeps (go after.1) after.0 p i (lookup-prim_ref id prim p t ∙ h)
  run_making-Keeps (interns pointer id m go) t p i h =
      let after = intern pointer id (some (run_making m)) t in
      run_making-Keeps (go after.1) after.0 p i
        (interned-Keeps pointer id (run_making m) t (run_making-Keeps m) p i h)
  run_making-Keeps (interns_nil pointer id go) t p i h =
      let after = intern pointer id none t in
      run_making-Keeps (go after.1) after.0 p i (interned_nil-Keeps pointer id t p i h)

  -- The build of an intern, which is nil or goes through the registry's methods.
  abbrev pub build_of : Option (Making N) → Option (Build N)
  build_of none = none
  build_of (some m) = some (run_making m)

  -- An intern whose build, if it is not nil, changes the registry through its methods alone takes no
  -- identifier from any pointer, whatever it or an intern inside the build refuses.
  pub intern-Keeps :
      (pointer id : Bytes) (build : Option (Making N)) (t : Types N)
      → Keeps t (intern pointer id (build_of build) t).0
  intern-Keeps pointer id none t = interned_nil-Keeps pointer id t
  intern-Keeps pointer id (some m) t =
      interned-Keeps pointer id (run_making m) t (run_making-Keeps m)

  added : Bytes → N → Types N → Types N
  added id td u = record u { reg = (id, td) ∷ delete u.reg id }

  intern-run :
      (pointer id : Bytes) (run : Build N) (t : Types N)
      → lookup pointer t ≡ none
      → (is_nil pointer || is_nil id) ≡ false
      → intern pointer id (some run) t ≡ built pointer id (run (claim pointer id t))
  unfolding intern lookup
  intern-run pointer id run t fresh named = rw (fresh, intern, named)

  intern-built :
      (pointer id : Bytes) (run : Build N) (t u : Types N) (td : N)
      → lookup pointer t ≡ none
      → (is_nil pointer || is_nil id) ≡ false
      → run (claim pointer id t) ≡ (u, some td)
      → intern pointer id (some run) t ≡ (added id td u, id)
  unfolding built added
  intern-built pointer id run t u td fresh named ran =
      intern-run pointer id run t fresh named ∙ ap (built pointer id) ran

  intern_again :
      (pointer id again : Bytes) (build : Option (Build N)) (w : Types N)
      → lookup pointer w ≡ some id
      → intern pointer again build w ≡ (w, id)
  unfolding intern lookup
  intern_again pointer id again build w h = rw (h, intern)

  node_at-added :
      (pointer id : Bytes) (u : Types N) (td : N)
      → lookup pointer u ≡ some id
      → (lookup pointer (added id td u) ≡ some id) × (node_at pointer (added id td u) ≡ some td)
  unfolding lookup node_at added find
  node_at-added pointer id u td h = (h, rw (h, node_at, find, same_text_refl id))

  -- For a pointer that has no identifier yet, and a pointer and an identifier that are not empty: while
  -- its node is built, the pointer has its identifier already, and interning it again calls no build and
  -- changes nothing. Where the build changes the registry through its methods alone and returns a node, the
  -- pointer has its identifier and that node afterwards, and interning it again changes nothing.
  pub intern-node_at :
      (pointer id : Bytes) (m : Making N) (t u : Types N) (td : N) (again : Bytes)
      (build : Option (Build N))
      → lookup pointer t ≡ none
      → (is_nil pointer || is_nil id) ≡ false
      → run_making m (claim pointer id t) ≡ (u, some td)
      → let r = (intern pointer id (some (run_making m)) t).0 in
        (intern pointer again build (claim pointer id t) ≡ (claim pointer id t, id))
        × (lookup pointer r ≡ some id)
        × (node_at pointer r ≡ some td)
        × (intern pointer again build r ≡ (r, id))
  intern-node_at pointer id m t u td again build fresh named ran =
      let e : lookup pointer (claim pointer id t) ≡ some id =
        lookup-claim pointer id pointer t ∙ ground (arith, same_text_refl pointer) in
      let kept : lookup pointer u ≡ some id =
        ap (λ (w : Types N × Option N). lookup pointer w.0) (sym ran)
        ∙ run_making-Keeps m (claim pointer id t) pointer id e in
      let done =
        ap (λ (w : Types N × Bytes). w.0)
          (intern-built pointer id (run_making m) t u td fresh named ran) in
      let (known, held) = node_at-added pointer id u td kept in
      rw done (
        intern_again pointer id again build (claim pointer id t) e,
        known,
        held,
        intern_again pointer id again build (added id td u) known,
      )
