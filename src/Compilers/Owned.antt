-- ===== src/Compilers/Owned.antt =====
-- compilers/compilers.go: which compiler owns a format.
use morphic.Base.{
  ℕ, zero, suc, ◌<◌, Bool, true, false, ◌||◌, List, [], ◌∷◌, ◌++◌, Option, none, some, ok,
  if◌then◌else◌, ◌≡◌, ◌⊎◌, ◌↔◌, inl, inr, refl, ap, ◌∙◌, arith, length, get_elem?, same_text-eq,
  Bool-cases, Option-cases, bind_ok,
}
use morphic.Compilers.{
  Call, panicked, returned, SourceFormat, same_format, format_valid, Compiler, Registered,
  CompilerRegistry, owner_of, check_formats, own_formats, new_compiler_registry, enter,
  register_formats, register_compiler, register_all,
}

-- Whether a format is one of some.
unfoldable pub lists : List SourceFormat → SourceFormat → Bool
lists [] g = false
lists (f ∷ formats) g = same_format f g || lists formats g

pub same_format-eq : (f g : SourceFormat) → same_format f g ≡ true → f ≡ g
unfolding same_format
same_format-eq f g h =
    let names : f.name ≡ g.name = same_text-eq f.name g.name (ground arith) in
    let versions : f.version ≡ g.version = same_text-eq f.version g.version (ground arith) in
    λ i. record { name = names i; version = versions i }

owner_of-own_formats :
    (owners : List (SourceFormat × ℕ)) (i : ℕ) (formats : List SourceFormat) (g : SourceFormat)
    → owner_of (own_formats owners i formats) g
      ≡ (if lists formats g then some i else owner_of owners g)
unfolding own_formats owner_of lists
owner_of-own_formats owners i [] g = refl
owner_of-own_formats owners i (f ∷ formats) g =
    ground (arith, owner_of-own_formats ((f, i) ∷ owners) i formats g)

-- The formats that a compiler may be registered for are valid, and nobody owns them.
check_formats_free :
    (owners : List (SourceFormat × ℕ)) (formats : List SourceFormat) (g : SourceFormat)
    → check_formats owners formats ≡ none
    → lists formats g ≡ true
    → (owner_of owners g ≡ none) × (format_valid g ≡ true)
unfolding check_formats lists
check_formats_free owners [] g h m = absurd cc
check_formats_free owners (f ∷ formats) g h m = elim (Bool-cases (format_valid f)) [
  | inr e ↦ absurd (cc (rw (check_formats, e) at h))
  | inl e ↦ elim (Option-cases (owner_of owners f)) [
    | inr (i, o) ↦ absurd (cc (rw (check_formats, e, o) at h))
    | inl o ↦ elim (Bool-cases (same_format f g)) [
      | inl s ↦ rw (← same_format-eq f g s) (o, e)
      | inr s ↦
          check_formats_free owners formats g (rw (check_formats, e, o) at h) (ground (arith, m, s))
    ]
  ]
]

get_elem?-bound {ℓ} :
    {A : Type ℓ} (xs : List A) (i : ℕ) (x : A) → get_elem? xs i ≡ some x → i < length xs
get_elem?-bound [] i x h = absurd cc
get_elem?-bound (y ∷ xs) zero x h = omega arith
get_elem?-bound (y ∷ xs) (suc i) x h = omega (arith, get_elem?-bound xs i x h)

get_elem?-append {ℓ} :
    {A : Type ℓ} (xs ys : List A) (i : ℕ) (x : A)
    → get_elem? xs i ≡ some x
    → get_elem? (xs ++ ys) i ≡ some x
get_elem?-append [] ys i x h = absurd cc
get_elem?-append (y ∷ xs) ys zero x h = h
get_elem?-append (y ∷ xs) ys (suc i) x h = get_elem?-append xs ys i x h

get_elem?-last {ℓ} :
    {A : Type ℓ} (xs : List A) (e : A) → get_elem? (xs ++ e ∷ []) (length xs) ≡ some e
get_elem?-last [] e = refl
get_elem?-last (x ∷ xs) e = get_elem?-last xs e

get_elem?-snoc {ℓ} :
    {A : Type ℓ} (xs : List A) (e : A) (i : ℕ) (x : A)
    → get_elem? (xs ++ e ∷ []) i ≡ some x
    → (get_elem? xs i ≡ some x) ⊎ ((i ≡ length xs) × (e ≡ x))
get_elem?-snoc [] e zero x h = inr (refl, cc)
get_elem?-snoc [] e (suc i) x h = absurd cc
get_elem?-snoc (y ∷ xs) e zero x h = inl h
get_elem?-snoc (y ∷ xs) e (suc i) x h = elim (get_elem?-snoc xs e i x h) [
  | inl k ↦ inl k
  | inr (at, k) ↦ inr (ap suc at, k)
]

pub Call-cases {ℓ} : {X : Type ℓ} (c : Call X) → (c ≡ panicked) ⊎ ((x : X) × (c ≡ returned x))
Call-cases panicked = inl refl
Call-cases (returned x) = inr (x, refl)

module _ {A R B E : Type 0} where
  -- The compiler at a position was registered for a format.
  abbrev pub Serves : CompilerRegistry A R B E → ℕ → SourceFormat → Type 0
  Serves r i f =
      (e : Registered A R B E) × (get_elem? r.ordered i ≡ some e) × (lists e.formats f ≡ true)

  -- The map of a registry tells who serves a format, and only valid formats are served.
  pub record WellFormed (r : CompilerRegistry A R B E) : Type 0 where
    pub owns : (f : SourceFormat) (i : ℕ) → (owner_of r.by_format f ≡ some i) ↔ Serves r i f
    pub valid : (f : SourceFormat) (i : ℕ) → Serves r i f → format_valid f ≡ true

  new_compiler_registry-WellFormed :
      WellFormed (new_compiler_registry {A = A} {R = R} {B = B} {E = E})
  unfolding new_compiler_registry owner_of
  new_compiler_registry-WellFormed = record {
    owns = λ f i. ((λ h. absurd cc), (λ (e, h, _). absurd cc));
    valid = λ f i (e, h, _). absurd cc;
  }

  module _ (r : CompilerRegistry A R B E) (c : Compiler A R B E) (formats : List SourceFormat)
      (free : check_formats r.by_format formats ≡ none) (known : WellFormed r) where
    abbrev added : Registered A R B E
    added = record { compiler = c; formats = formats }

    enter-served :
        (f : SourceFormat) (i : ℕ)
        → owner_of (enter r c formats).by_format f ≡ some i
        → Serves (enter r c formats) i f
    unfolding enter
    enter-served f i h =
        let read = owner_of-own_formats r.by_format (length r.ordered) formats f in
        elim (Bool-cases (lists formats f)) [
          | inl m ↦
              let at : length r.ordered ≡ i = cc (rw (read, m) at h) in
              (added, rw (← at) (get_elem?-last r.ordered added), m)
          | inr m ↦
              let (e, k, l) = (known.owns f i).0 (rw (read, m) at h) in
              (e, get_elem?-append r.ordered (added ∷ []) i e k, l)
        ]

    enter-serving :
        (f : SourceFormat) (i : ℕ)
        → Serves (enter r c formats) i f
        → (owner_of (enter r c formats).by_format f ≡ some i) × (format_valid f ≡ true)
    unfolding enter
    enter-serving f i (e, h, m) =
        let read = owner_of-own_formats r.by_format (length r.ordered) formats f in
        elim (get_elem?-snoc r.ordered added i e h) [
          | inl k ↦
              let own = (known.owns f i).1 (e, k, m) in
              elim (Bool-cases (lists formats f)) [
                | inl l ↦ absurd (cc (own, (check_formats_free r.by_format formats f free l).0))
                | inr l ↦ (read ∙ rw l own, known.valid f i (e, k, m))
              ]
          | inr (at, same) ↦
              let l : lists formats f ≡ true = rw (← same) at m in
              (read ∙ rw (l, at), (check_formats_free r.by_format formats f free l).1)
        ]

    enter-WellFormed : WellFormed (enter r c formats)
    enter-WellFormed = record {
      owns = λ f i. (enter-served f i, λ s. (enter-serving f i s).0);
      valid = λ f i s. (enter-serving f i s).1;
    }

  register_formats-WellFormed :
      (r next : CompilerRegistry A R B E) (c : Compiler A R B E) (formats : List SourceFormat)
      → WellFormed r
      → register_formats r c formats ≡ ok next
      → WellFormed next
  unfolding register_formats
  register_formats-WellFormed r next c [] known h = absurd cc
  register_formats-WellFormed r next c (f ∷ formats) known h =
      elim (Option-cases (check_formats r.by_format (f ∷ formats))) [
        | inr (e, k) ↦ absurd (cc (rw (register_formats, k) at h))
        | inl k ↦
            let same : enter r c (f ∷ formats) ≡ next = cc (rw (register_formats, k) at h) in
            rw (← same) (enter-WellFormed r c (f ∷ formats) k known)
      ]

  register_compiler-WellFormed :
      (r next : CompilerRegistry A R B E) (c : Option (Compiler A R B E))
      → WellFormed r
      → register_compiler r c ≡ ok next
      → WellFormed next
  unfolding register_compiler
  register_compiler-WellFormed r next none known h = absurd cc
  register_compiler-WellFormed r next (some c) known h = elim (Call-cases c.formats) [
    | inl k ↦ absurd (cc (rw (register_compiler, k) at h))
    | inr (formats, k) ↦
        register_formats-WellFormed r next c formats known (rw (register_compiler, k) at h)
  ]

  registered_all-WellFormed :
      (r next : CompilerRegistry A R B E) (cs : List (Option (Compiler A R B E)))
      → WellFormed r
      → register_all r cs ≡ ok next
      → WellFormed next
  unfolding register_all
  registered_all-WellFormed r next [] known h = let same : r ≡ next = cc in rw (← same) known
  registered_all-WellFormed r next (c ∷ cs) known h =
      let (mid, one, rest) = bind_ok (register_compiler r c) (λ m. register_all m cs) next h in
      registered_all-WellFormed mid next cs (register_compiler-WellFormed r mid c known one) rest

  -- However compilers are registered from an empty registry on, where that succeeds, a format is owned by
  -- a compiler exactly where that compiler was registered for it, and only valid formats are owned.
  pub register_all-WellFormed :
      (cs : List (Option (Compiler A R B E))) (r : CompilerRegistry A R B E)
      → register_all new_compiler_registry cs ≡ ok r
      → WellFormed r
  register_all-WellFormed cs r h =
      registered_all-WellFormed new_compiler_registry r cs new_compiler_registry-WellFormed h
