-- ===== src/Engine/Passes/Names.antt =====
-- Names address passes: what `bindPasses` accepts, and what `enabledPasses` leaves on.
use morphic.Base.{
  ◌⊎◌, ℕ, ◌+◌, true, false, List, [], ◌∷◌, ◌++◌, Option, none, some, ok, err, Bytes, ◌||◌, ◌≡◌, ◌≢◌,
  refl, ap, ◌∙◌, inl, inr, arith, length, same_text, same_text_refl, same_text-eq, same_text_swap,
  Bool-cases, Result-cases, Option-cases, append-nil, append_assoc,
}
use morphic.Engine.Passes.{
  unknown_pass, NamedPass, GivenPass, position, contains, names_of, name_of, bind_loop, bind_passes,
  check_known, delete_named, enabled_passes,
}

-- No name stands twice.
abbrev pub Distinct : List Bytes → Type 0
Distinct [] = Unit
Distinct (n ∷ ns) = (contains ns n ≡ false) × Distinct ns

contains-append :
    (xs ys : List Bytes) (n : Bytes) → contains (xs ++ ys) n ≡ (contains xs n || contains ys n)
unfolding contains
contains-append [] ys n = refl
contains-append (x ∷ xs) ys n = ground (arith, contains-append xs ys n)

Distinct-concat :
    (ns : List Bytes) (n : Bytes) → Distinct ns → contains ns n ≡ false → Distinct (ns ++ n ∷ [])
unfolding contains
Distinct-concat [] n d new = (refl, tt)
Distinct-concat (x ∷ ns) n (fresh, d) new = (
  ground (arith, contains-append ns (n ∷ []) x, same_text_swap x n),
  Distinct-concat ns n d (ground arith),
)

-- The map of the names bound so far has each of them.
abbrev Covers : List (Bytes × ℕ) → List Bytes → Type 0
Covers at names = (n : Bytes) → position at n ≡ none → contains names n ≡ false

Covers-concat :
    (at : List (Bytes × ℕ)) (names : List Bytes) (n : Bytes) (i : ℕ)
    → Covers at names
    → Covers ((n, i) ∷ at) (names ++ n ∷ [])
unfolding position contains
Covers-concat at names n i c m free = ground (arith, contains-append names (n ∷ []) m, c m)

module _ {P : Type 0} where
  -- The passes bound are those handed over, in their order, each under the name it answers.
  abbrev pub Binds : List (Option (GivenPass P)) → List (NamedPass P) → Type 0
  Binds [] [] = Unit
  Binds [] (n ∷ ns) = ⊥
  Binds (p ∷ ps) [] = ⊥
  Binds (none ∷ ps) (n ∷ ns) = ⊥
  Binds (some given ∷ ps) (n ∷ ns) =
      (given.answer ≡ some n.name) × (n.name ≢ []) × (given.pass ≡ n.pass) × Binds ps ns

  Binds-concat :
      (ps : List (Option (GivenPass P))) (ns : List (NamedPass P)) (given : GivenPass P)
      (n : NamedPass P)
      → Binds ps ns
      → given.answer ≡ some n.name
      → n.name ≢ []
      → given.pass ≡ n.pass
      → Binds (ps ++ some given ∷ []) (ns ++ n ∷ [])
  Binds-concat [] [] given n b answer name pass = (answer, name, pass, tt)
  Binds-concat [] (m ∷ ns) given n b answer name pass = absurd b
  Binds-concat (none ∷ ps) [] given n b answer name pass = absurd b
  Binds-concat (some p ∷ ps) [] given n b answer name pass = absurd b
  Binds-concat (none ∷ ps) (m ∷ ns) given n b answer name pass = absurd b
  Binds-concat (some p ∷ ps) (m ∷ ns) given n b answer name pass =
      (b.0, b.1, b.2, Binds-concat ps ns given n b.3 answer name pass)

  names_of-concat :
      (ns : List (NamedPass P)) (n : NamedPass P)
      → names_of (ns ++ n ∷ []) ≡ names_of ns ++ n.name ∷ []
  names_of-concat [] n = refl
  names_of-concat (m ∷ ns) n = ap (λ t. m.name ∷ t) (names_of-concat ns n)

  -- What a round that refuses nothing found out.
  name_of_ok :
      (i : ℕ) (at : List (Bytes × ℕ)) (p : Option (GivenPass P)) {n : NamedPass P}
      → name_of i at p ≡ ok n
      → (given : GivenPass P) × (p ≡ some given)
        × (given.answer ≡ some n.name)
        × (n.name ≢ [])
        × (given.pass ≡ n.pass)
        × (position at n.name ≡ none)
  unfolding name_of
  name_of_ok i at none h = cc
  name_of_ok i at (some given) h =
      (given, refl, ground arith, ground arith, ground arith, ground arith)

  bind_loop_ok :
      (i : ℕ) (at : List (Bytes × ℕ)) (bound : List (NamedPass P))
      (seen ps : List (Option (GivenPass P))) {all : List (NamedPass P)}
      → Covers at (names_of bound)
      → Binds seen bound
      → Distinct (names_of bound)
      → bind_loop i at bound ps ≡ ok all
      → Binds (seen ++ ps) all × Distinct (names_of all)
  unfolding bind_loop
  bind_loop_ok i at bound seen [] {all} c b d h =
      let e : bound ≡ all = cc in rw (append-nil seen, ← e) (b, d)
  bind_loop_ok i at bound seen (p ∷ ps) {all} c b d h = elim (Result-cases (name_of i at p)) [
    | inr (e, eq) ↦ absurd (cc (rw (eq, bind_loop) at h))
    | inl (n, eq) ↦
        let (given, is_given, answer, named, pass, free) = name_of_ok i at p eq in
        let (all_bound, distinct) =
          bind_loop_ok (i + 1) ((n.name, i) ∷ at) (bound ++ n ∷ []) (seen ++ some given ∷ []) ps
            {all = all}
            (rw (names_of-concat bound n) (Covers-concat at (names_of bound) n.name i c))
            (Binds-concat seen bound given n b answer named pass)
            (rw (names_of-concat bound n)
              (Distinct-concat (names_of bound) n.name d (c n.name free)))
            (rw (eq, bind_loop) at h) in
        (rw (is_given, ← append_assoc seen (some given ∷ []) ps) all_bound, distinct)
  ]

  -- A list that the engine accepts is bound whole and in order, each pass under the name it answers,
  -- no name is empty, and no two passes share one.
  pub bind_passes_ok :
      (ps : List (Option (GivenPass P))) {all : List (NamedPass P)}
      → bind_passes ps ≡ ok all
      → Binds ps all × Distinct (names_of all)
  unfolding bind_passes
  bind_passes_ok ps h = bind_loop_ok 0 [] [] [] ps (λ n _. unfold contains in refl) tt tt h

check_known_ok :
    (names disabled : List Bytes)
    → check_known names disabled ≡ none
    → (d : Bytes) → contains disabled d ≡ true
    → contains names d ≡ true
unfolding check_known contains
check_known_ok names [] h d m = cc
check_known_ok names (x ∷ disabled) h d m = elim (Bool-cases (contains names x)) [
  | inr e ↦ absurd (ground arith)
  | inl e ↦ elim (Bool-cases (same_text x d)) [
    | inl same ↦ rw (← same_text-eq x d same) e
    | inr other ↦ check_known_ok names disabled (ground arith) d (ground arith)
  ]
]

check_known_refuses :
    (names disabled : List Bytes) {d : Bytes}
    → check_known names disabled ≡ some d
    → (contains names d ≡ false) × (contains disabled d ≡ true)
unfolding check_known contains
check_known_refuses names [] h = cc
check_known_refuses names (x ∷ disabled) {d} h =
    ground (arith, check_known_refuses names disabled {d = d}, same_text_refl d)

module _ {P : Type 0} where
  -- What a run keeps of the passes: each of them, once and in its place, unless its name is turned off.
  pub data Left (disabled : List Bytes) : List (NamedPass P) → List (NamedPass P) → Type 0 where
    none_left : Left disabled [] []
    left_on :
        {p : NamedPass P} {ps kept : List (NamedPass P)}
        → contains disabled p.name ≡ false
        → Left disabled ps kept
        → Left disabled (p ∷ ps) (p ∷ kept)
    turned_off :
        {p : NamedPass P} {ps kept : List (NamedPass P)}
        → contains disabled p.name ≡ true
        → Left disabled ps kept
        → Left disabled (p ∷ ps) kept

  delete_named-Left :
      (disabled : List Bytes) (ps : List (NamedPass P))
      → Left disabled ps (delete_named disabled ps)
  unfolding delete_named
  delete_named-Left disabled [] = none_left
  delete_named-Left disabled (p ∷ ps) = elim (Bool-cases (contains disabled p.name)) [
    | inl off ↦ rw (off, delete_named) (turned_off off (delete_named-Left disabled ps))
    | inr on ↦ rw (on, delete_named) (left_on on (delete_named-Left disabled ps))
  ]

  -- A run keeps the passes whose names it was not told to turn off, each of them once, as it is and in
  -- its order, and no other, where every name to turn off is that of a pass. It refuses otherwise, with
  -- a name that it was told to turn off and that no pass carries.
  pub enabled_passes_lem :
      (ps : List (NamedPass P)) (disabled : List Bytes)
      → ((kept : List (NamedPass P)) × (enabled_passes ps disabled ≡ ok kept)
          × Left disabled ps kept
          × ((d : Bytes) → contains disabled d ≡ true → contains (names_of ps) d ≡ true))
        ⊎ ((d : Bytes) × (enabled_passes ps disabled ≡ err (unknown_pass d))
            × (contains (names_of ps) d ≡ false)
            × (contains disabled d ≡ true))
  unfolding enabled_passes
  enabled_passes_lem ps disabled = elim (Option-cases (check_known (names_of ps) disabled)) [
    | inl e ↦ inl (
      delete_named disabled ps,
      rw (e, enabled_passes),
      delete_named-Left disabled ps,
      check_known_ok (names_of ps) disabled e,
    )
    | inr (d, e) ↦
        let (free, asked) = check_known_refuses (names_of ps) disabled e in
        inr (d, rw (e, enabled_passes), free, asked)
  ]

  delete_absent :
      (ps : List (NamedPass P)) (n : Bytes)
      → contains (names_of ps) n ≡ false
      → delete_named (n ∷ []) ps ≡ ps
  unfolding delete_named contains
  delete_absent [] n h = refl
  delete_absent (p ∷ ps) n h = ground (arith, delete_absent ps n, same_text_swap n p.name)

  delete_one :
      (ps : List (NamedPass P)) (n : Bytes)
      → Distinct (names_of ps)
      → contains (names_of ps) n ≡ true
      → length (delete_named (n ∷ []) ps) + 1 ≡ length ps
  unfolding delete_named contains
  delete_one [] n d h = cc
  delete_one (p ∷ ps) n (fresh, d) h = elim (Bool-cases (same_text n p.name)) [
    | inl same ↦
        let e = ap (contains (names_of ps)) (same_text-eq n p.name same) in
        let gone = delete_absent ps n (e ∙ fresh) in ground (arith, same, ap length gone)
    | inr other ↦ ground (arith, other, same_text_swap n p.name, delete_one ps n d)
  ]

  -- In a list that the engine accepted, turning off one pass by its name turns off that pass alone.
  pub disable_one :
      (given : List (Option (GivenPass P))) {ps : List (NamedPass P)} (n : Bytes)
      → bind_passes given ≡ ok ps
      → contains (names_of ps) n ≡ true
      → (kept : List (NamedPass P)) × (enabled_passes ps (n ∷ []) ≡ ok kept)
        × (length kept + 1 ≡ length ps)
  unfolding enabled_passes check_known
  disable_one given {ps} n h m = (
    delete_named (n ∷ []) ps,
    rw (m, enabled_passes),
    delete_one ps n (bind_passes_ok given h).1 m,
  )
