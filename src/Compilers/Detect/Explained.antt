-- ===== src/Compilers/Detect/Explained.antt =====
-- compilers/compilers.go: what a compiler that is asked may answer.
use morphic.Base.{
  Bool, true, false, ◌||◌, List, [], ◌∷◌, ◌++◌, none, some, if◌then◌else◌, ◌≡◌, ◌⊎◌, inl, inr, refl,
  ◌∙◌, arith, length, get_elem?, Bool-cases, Option-cases, same_text,
}
use morphic.Ir.Diagnostic.{Diagnostic, first_error, has_error, first_outside_table, severity_error}
use morphic.Engine.Stage.Kept.{first_outside_table-append}
use morphic.Compilers.{format_valid, Source, Registered}
use morphic.Compilers.Detect.{Asked, check_decline, weigh_answer, held_to_limit}

-- Findings that say why a source was declined, where there are any, and that index its table of one.
abbrev pub Explained : List Diagnostic → Type 0
Explained ds = (first_outside_table ds 1 ≡ none) × ((ds ≡ []) ⊎ (has_error ds ≡ true))

has_error-cons :
    (d : Diagnostic) (ds : List Diagnostic)
    → has_error (d ∷ ds) ≡ (same_text d.severity severity_error || has_error ds)
unfolding has_error first_error
has_error-cons d ds = elim (Bool-cases (same_text d.severity severity_error)) [
  | inl e ↦ rw (has_error, first_error, e)
  | inr e ↦ rw (has_error, first_error, e)
]

pub has_error-append :
    (ds es : List Diagnostic) → has_error (ds ++ es) ≡ (has_error ds || has_error es)
unfolding has_error first_error
has_error-append [] es = refl
has_error-append (d ∷ ds) es =
    has_error-cons d (ds ++ es) ∙ rw (has_error-append ds es, has_error-cons d ds) (ground arith)

pub Explained-append :
    (ds es : List Diagnostic) → Explained ds → Explained es → Explained (ds ++ es)
Explained-append ds es (h, inr k) (m, _) =
    (first_outside_table-append ds es 1 h m, inr (has_error-append ds es ∙ (ground (arith, k))))
Explained-append ds es (h, inl k) (m, inr l) =
    (first_outside_table-append ds es 1 h m, inr (has_error-append ds es ∙ (ground (arith, l))))
Explained-append ds es (h, inl k) (m, inl l) =
    (first_outside_table-append ds es 1 h m, inl (rw (k, l)))

check_decline-Explained :
    {E : Type 0} (ds : List Diagnostic) → check_decline {E = E} ds ≡ none → Explained ds
unfolding check_decline has_error first_outside_table
check_decline-Explained [] h = (refl, inl refl)
check_decline-Explained (d ∷ ds) h = elim (Option-cases (first_error (d ∷ ds))) [
  | inl e ↦ absurd (cc (rw (check_decline, e) at h))
  | inr (s, e) ↦ elim (Option-cases (first_outside_table (d ∷ ds) 1)) [
    | inr (o, f) ↦ absurd (cc (rw (check_decline, e, f) at h))
    | inl f ↦ (f, inr (rw (has_error, e) refl))
  ]
]

-- An answer that stands claims a valid format, or explains its decline.
pub weigh_answer-Weighed :
    {A R B E : Type 0} (src : Source A) (e : Registered A R B E) (a : Asked A R E)
    → weigh_answer src e a ≡ none
    → ((a.claims ≡ true) × (format_valid a.recognition.format ≡ true))
      ⊎ ((a.claims ≡ false) × Explained a.diagnostics)
unfolding weigh_answer
weigh_answer-Weighed {E = E} src e a h =
    elim (Option-cases (held_to_limit e a (length src.data_of))) [
      | inr (f, k) ↦ absurd (cc (rw (weigh_answer, k) at h))
      | inl k ↦ elim (Bool-cases a.claims) [
        | inr c ↦
            let why : check_decline {E = E} a.diagnostics ≡ none = rw (weigh_answer, k, c) at h in
            inr (c, check_decline-Explained {E = E} a.diagnostics why)
        | inl c ↦ elim (Bool-cases (format_valid a.recognition.format)) [
          | inl v ↦ inl (c, v)
          | inr v ↦ absurd (cc (rw (weigh_answer, k, c, v) at h))
        ]
      ]
    ]

pub List-cases {ℓ} :
    {A : Type ℓ} (xs : List A) → (xs ≡ []) ⊎ ((x : A) × (ys : List A) × (xs ≡ x ∷ ys))
List-cases [] = inl refl
List-cases (x ∷ xs) = inr (x, xs, refl)

pub if_true {ℓ} : {A : Type ℓ} {b : Bool} (x y : A) → b ≡ true → (if b then x else y) ≡ x
if_true x y e = rw e

pub if_false {ℓ} : {A : Type ℓ} {b : Bool} (x y : A) → b ≡ false → (if b then x else y) ≡ y
if_false x y e = rw e

pub get_elem?-middle {ℓ} :
    {A : Type ℓ} (xs : List A) (e : A) (ys : List A) → get_elem? (xs ++ e ∷ ys) (length xs) ≡ some e
get_elem?-middle [] e ys = refl
get_elem?-middle (x ∷ xs) e ys = get_elem?-middle xs e ys
