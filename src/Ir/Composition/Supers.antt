-- ===== src/Ir/Composition/Supers.antt =====
-- The direct supertypes of a type, told apart from the order and the budget they are found in.
use morphic.Base.{
  ℕ, suc, ◌+◌, ◌*◌, ◌≤◌, true, false, ◌||◌, List, [], ◌∷◌, ◌++◌, Option, none, some, Bytes, find,
  has, same_text, same_text-eq, same_text_refl, if◌then◌else◌, ◌≡◌, ◌⊎◌, ◌↔◌, inl, inr, refl, sym,
  ap, ◌∙◌, arith, Bool-cases, Option-cases, length, has-append, length-append,
}
use morphic.Ir.BigVal.{is_nil}
use morphic.Ir.Composition.{
  TypeRegistry, Model, model_of, alias_target, append_supertype, append_all, model_supertypes,
  supertypes,
}
use morphic.Ir.Composition.Alias.{alias_target_agree, alias_target_ends}

-- Where the chain of aliases from `t` ends, under some budget.
pub data Ends (types : TypeRegistry) (t y : Bytes) : Type 0 where
  ends : (left rest : ℕ) → alias_target types t left ≡ some (y, rest) → Ends types t y

pub data Among (types : TypeRegistry) : List Bytes → Bytes → Type 0 where
  first : {t y : Bytes} {ts : List Bytes} → Ends types t y → Among types (t ∷ ts) y
  later : {t y : Bytes} {ts : List Bytes} → Among types ts y → Among types (t ∷ ts) y

-- The types that a model names as its base and as what it implements.
abbrev with_base : Option Bytes → List Bytes → List Bytes
with_base none ts = ts
with_base (some t) ts = t ∷ ts

abbrev pub targets : Model → List Bytes
targets m = with_base m.base m.implements

-- A direct supertype: what a type named by the model stands for, when that has an identifier.
pub data Super (types : TypeRegistry) (x y : Bytes) : Type 0 where
  super :
      (m : Model)
      → model_of (find types x) ≡ some m
      → Among types (targets m) y
      → is_nil y ≡ false
      → Super types x y

-- One name, appended.
append_supertype-Ran :
    (types : TypeRegistry) (dst ys : List Bytes) (t : Bytes) (left rest : ℕ)
    → append_supertype dst types t left ≡ some (ys, rest)
    → (u : Bytes) × (alias_target types t left ≡ some (u, rest))
      × (ys ≡ (if is_nil u then dst else dst ++ u ∷ []))
unfolding append_supertype
append_supertype-Ran types dst ys t left rest h = elim (Option-cases (alias_target types t left)) [
  | inl e ↦ absurd (cc (rw (e, append_supertype) at h))
  | inr ((u, r), e) ↦
      let run : some (if is_nil u then dst else dst ++ u ∷ [], r) ≡ some (ys, rest) =
        rw (e, append_supertype) at h in
      let at_rest : r ≡ rest = cc in (u, rw (← at_rest) e, cc)
]

has-snoc :
    (dst : List Bytes) (u y : Bytes)
    → is_nil y ≡ false
    → has (if is_nil u then dst else dst ++ u ∷ []) y ≡ (has dst y || same_text u y)
unfolding has
has-snoc dst u y h = elim (Bool-cases (is_nil u)) [
  | inl e ↦ elim (Bool-cases (same_text u y)) [
    | inl f ↦ absurd (cc (ap is_nil (same_text-eq u y f), e, h))
    | inr f ↦ ground (arith, e, f)
  ]
  | inr e ↦ ground (arith, e, has-append dst (u ∷ []) y)
]

snoc-filled :
    (dst : List Bytes) (u y : Bytes)
    → is_nil y ≡ true
    → has (if is_nil u then dst else dst ++ u ∷ []) y ≡ has dst y
unfolding has
snoc-filled dst u y h = elim (Bool-cases (is_nil u)) [
  | inl e ↦ rw (e, if◌then◌else◌) refl
  | inr e ↦ elim (Bool-cases (same_text u y)) [
    | inl f ↦ absurd (cc (ap is_nil (same_text-eq u y f), e, h))
    | inr f ↦ ground (arith, e, f, has-append dst (u ∷ []) y)
  ]
]

length-snoc :
    (dst : List Bytes) (u : Bytes)
    → length (if is_nil u then dst else dst ++ u ∷ []) ≤ suc (length dst)
length-snoc dst u = ground (arith, length-append dst (u ∷ []))

-- A name that comes first contributes where it ends, and nothing else.
snoc-Ends :
    (types : TypeRegistry) (dst : List Bytes) (t u y : Bytes) (left rest : ℕ)
    → alias_target types t left ≡ some (u, rest)
    → is_nil y ≡ false
    → (has dst y || same_text u y) ≡ true ↔ (has dst y ≡ true) ⊎ Ends types t y
snoc-Ends types dst t u y left rest e n = (
  (λ h. elim (Bool-cases (has dst y)) [
    | inl m ↦ inl m
    | inr m ↦
        let same : u ≡ y = same_text-eq u y (ground (arith, m)) in
        inr (ends left rest (rw same at e))
  ]),
  (λ c. elim c [
    | inl m ↦ ground (arith, m)
    | inr (ends more other f) ↦
        let same : u ≡ y = alias_target_agree types t u y left more rest other e f in
        let one : same_text u y ≡ true = ap (λ x. same_text x y) same ∙ same_text_refl y in
        ground (arith, one)
  ]),
)

nothing : {types : TypeRegistry} {y : Bytes} → Among types [] y → ⊥
nothing a = elim a [ ]

pub append_all-Among :
    (types : TypeRegistry) (dst ys ts : List Bytes) (y : Bytes) (left rest : ℕ)
    → append_all dst types ts left ≡ some (ys, rest)
    → is_nil y ≡ false
    → has ys y ≡ true ↔ (has dst y ≡ true) ⊎ Among types ts y
unfolding append_all
append_all-Among types dst ys [] y left rest h n =
    let same : dst ≡ ys = cc in
    ((λ m. inl (rw same m)), (λ c. elim c [ inl m ↦ rw (← same) m | inr a ↦ absurd (nothing a) ]))
append_all-Among types dst ys (t ∷ ts) y left rest h n =
    elim (Option-cases (append_supertype dst types t left)) [
      | inl e ↦ absurd (cc (rw (e, append_all) at h))
      | inr ((next, mid), e) ↦
          let (u, f, g) = append_supertype-Ran types dst next t left mid e in
          let (to, from) =
            append_all-Among types next ys ts y mid rest (rw (e, append_all) at h) n in
          let (in_next, of_next) = snoc-Ends types dst t u y left mid f n in
          let same : has next y ≡ (has dst y || same_text u y) =
            ap (λ d. has d y) g ∙ has-snoc dst u y n in
          (
            (λ m. elim (to m) [
              | inl k ↦ elim (in_next (sym same ∙ k)) [ inl d ↦ inl d | inr d ↦ inr (first d) ]
              | inr a ↦ inr (later a)
            ]),
            (λ c. elim c [
              | inl k ↦ from (inl (same ∙ of_next (inl k)))
              | inr (first d) ↦ from (inl (same ∙ of_next (inr d)))
              | inr (later a) ↦ from (inr a)
            ]),
          )
    ]

pub model_supertypes-append_all :
    (types : TypeRegistry) (dst : List Bytes) (m : Model) (left : ℕ)
    → model_supertypes dst types m left ≡ append_all dst types (targets m) left
unfolding model_supertypes append_all
model_supertypes-append_all types dst m left = elim (Option-cases m.base) [
  | inl e ↦ rw (e, model_supertypes) refl
  | inr (t, e) ↦ rw (e, model_supertypes) refl
]

-- No text without bytes is appended.
append_all-filled :
    (types : TypeRegistry) (dst ys ts : List Bytes) (y : Bytes) (left rest : ℕ)
    → append_all dst types ts left ≡ some (ys, rest)
    → is_nil y ≡ true
    → has ys y ≡ has dst y
unfolding append_all
append_all-filled types dst ys [] y left rest h n =
    let same : dst ≡ ys = cc in ap (λ d. has d y) (sym same)
append_all-filled types dst ys (t ∷ ts) y left rest h n =
    elim (Option-cases (append_supertype dst types t left)) [
      | inl e ↦ absurd (cc (rw (e, append_all) at h))
      | inr ((next, mid), e) ↦
          let (u, f, g) = append_supertype-Ran types dst next t left mid e in
          append_all-filled types next ys ts y mid rest (rw (e, append_all) at h) n
          ∙ ap (λ d. has d y) g
          ∙ snoc-filled dst u y n
    ]

abbrev pub registry_of : Option TypeRegistry → TypeRegistry
registry_of none = []
registry_of (some types) = types

-- What `supertypes` lists for a type are its direct supertypes, where the budget lasts.
pub supertypes-Super :
    (doc : Option TypeRegistry) (ys : List Bytes) (x y : Bytes) (left rest : ℕ)
    → supertypes [] doc x left ≡ some (ys, rest)
    → has ys y ≡ true ↔ Super (registry_of doc) x y
unfolding supertypes has find
supertypes-Super none ys x y left rest h =
    let same : [] ≡ ys = cc in
    ((λ m. absurd (cc (ap (λ l. has l y) same, m))), (λ c. elim c [ super m e a n ↦ absurd cc ]))
supertypes-Super (some types) ys x y left rest h = elim (Option-cases (model_of (find types x))) [
  | inl e ↦
      let run : some ([], left) ≡ some (ys, rest) = rw (e, supertypes) at h in
      let same : [] ≡ ys = cc in
      ((λ m. absurd (cc (ap (λ l. has l y) same, m))), (λ c. elim c [ super m f a n ↦ absurd cc ]))
  | inr (m, e) ↦
      let run : append_all [] types (targets m) left ≡ some (ys, rest) =
        sym (model_supertypes-append_all types [] m left) ∙ (rw (e, supertypes) at h) in
      elim (Bool-cases (is_nil y)) [
        | inl n ↦ (
          (λ k. absurd (cc (append_all-filled types [] ys (targets m) y left rest run n, k))),
          (λ c. elim c [ super m' f a n' ↦ absurd (cc (n, n')) ]),
        )
        | inr n ↦
            let (to, from) = append_all-Among types [] ys (targets m) y left rest run n in
            (
              (λ k. elim (to k) [ inl d ↦ absurd cc | inr a ↦ super m e a n ]),
              (λ c. elim c [
                | super m' f a n' ↦ let same : m' ≡ m = cc in from (inr (rw same at a))
              ]),
            )
      ]
]

-- The steps that enough for the names of one type.
pub append_all_ends :
    (types : TypeRegistry) (dst ts : List Bytes) (left : ℕ)
    → length ts * length types ≤ left
    → (ys : List Bytes) × (rest : ℕ) × (append_all dst types ts left ≡ some (ys, rest))
      × (left ≤ rest + length ts * length types)
      × (length ys ≤ length dst + length ts)
      × (rest ≤ left)
unfolding append_all append_supertype
append_all_ends types dst [] left h = (dst, left, refl, omega arith, omega arith, omega arith)
append_all_ends types dst (t ∷ ts) left h =
    let (u, mid, e, le, down) = alias_target_ends types t left (omega arith) in
    let next : List Bytes = if is_nil u then dst else dst ++ u ∷ [] in
    let ran : append_supertype dst types t left ≡ some (next, mid) =
      rw (e, append_supertype) refl in
    let (ys, rest, r, less, long, more) = append_all_ends types next ts mid (omega arith) in
    (ys, rest, rw (ran, append_all) r, omega arith, omega (arith, length-snoc dst u), omega arith)
