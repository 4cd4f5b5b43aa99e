-- ===== src/Compilers/Detect.antt =====
-- compilers/compilers.go: the detection of a source and the limit of its size.
-- The context is the answers to the successive questions of `ctx.Err`, as in Engine/Stage. The
-- engine always names a configuration, so the one that stands for none is left out.
pub mod Explained
pub mod Taken
pub mod Claimed
use morphic.Base.{
  ℕ, zero, suc, ◌+◌, max, Bool, true, false, not, ◌&&◌, ◌||◌, List, [], ◌∷◌, ◌++◌, Option, none,
  some, Bytes, Result, ok, err, ◌>>=◌, if◌then◌else◌, ◌==◌, leb, length, get_elem?,
}
use morphic.Ir.Diagnostic.{Diagnostic, first_error, first_outside_table}
use morphic.Compilers.{
  Call, panicked, returned, SourceFormat, format_valid, Source, Recognition, Options, Detected,
  Compiler, Registered, CompilerRegistry, owner_of,
}

pub record Detection (A R B E : Type 0) : Type 0 where
  pub source : Source A
  pub compiler : Option (Compiler A R B E)
  pub recognition : Recognition A
  pub options : Options A R
  pub declined : List Diagnostic

-- What a call of a method breaks the contract by.
pub data DetectError (E : Type 0) : Type 0 where
  stopped : DetectError E
  configure_panicked detect_panicked limit_panicked : DetectError E
  claimed_past_limit silent_past_limit : ℕ → DetectError E
  unexplained_decline : DetectError E
  decline_outside : Diagnostic → DetectError E
  invalid_claim : SourceFormat → DetectError E
  options_failed : SourceFormat → E → DetectError E

-- `checkDecline`.
unfoldable pub check_decline : {E : Type 0} → List Diagnostic → Option (DetectError E)
check_decline [] = none
check_decline (d ∷ diags) = elim (first_error (d ∷ diags)) [
  | none ↦ some unexplained_decline
  | some stated ↦ elim (first_outside_table (d ∷ diags) 1) [
    | none ↦ none
    | some outside ↦ some (decline_outside outside)
  ]
]

abbrev pub no_recognition : {A : Type 0} → Recognition A
no_recognition = record { format = record { name = []; version = [] }; parsed = none }

abbrev pub no_options : {A R : Type 0} → Options A R
no_options = record { format_options = none; reader = none }

-- What a compiler answered: its options, or why there are none, and what it made of the source.
pub record Asked (A R E : Type 0) : Type 0 where
  pub recognition : Recognition A
  pub diagnostics : List Diagnostic
  pub claims : Bool
  pub options : Options A R
  pub failed : Option E

abbrev pub Configure : (A R B E : Type 0) → Type 0
Configure A R B E = Compiler A R B E → Call (Result E (Options A R))

unfoldable pub within_limit : {A R E : Type 0} → Asked A R E → ℕ → ℕ → Option (DetectError E)
within_limit a n limit =
    if (limit == 0) || leb n limit
    then none
    else if a.claims
    then some (claimed_past_limit limit)
    else elim a.diagnostics [ [] ↦ some (silent_past_limit limit) | d ∷ diags ↦ none ]

module _ {A R B E : Type 0} where
  unfoldable pub configured :
      Configure A R B E → Registered A R B E → Result (DetectError E) (Options A R × Option E)
  configured configure e = elim (configure e.compiler) [
    | panicked ↦ err configure_panicked
    | returned (ok opts) ↦ ok (opts, none)
    | returned (err failed) ↦ ok (no_options, some failed)
  ]

  unfoldable pub limit_of_source : Registered A R B E → Options A R → Result (DetectError E) ℕ
  limit_of_source e opts = elim (e.compiler.source_limit opts) [
    | panicked ↦ err limit_panicked
    | returned limit ↦ ok limit
  ]

  -- `SourceLimit`, from a limit on.
  unfoldable pub limit_loop :
      Configure A R B E → List (Registered A R B E) → ℕ → Result (DetectError E) ℕ
  limit_loop configure [] most = ok most
  limit_loop configure (e ∷ es) most = configured configure e >>= λ opts.
      limit_of_source e opts.0 >>= λ limit. elim limit [
        | zero ↦ ok 0
        | suc n ↦ limit_loop configure es (max most (suc n))
      ]

  unfoldable pub registry_limit :
      Configure A R B E → CompilerRegistry A R B E → Result (DetectError E) ℕ
  registry_limit configure r = limit_loop configure r.ordered 0

  unfoldable pub ask_compiler :
      Configure A R B E → Source A → Registered A R B E → Result (DetectError E) (Asked A R E)
  ask_compiler configure src e = configured configure e >>= λ opts.
      elim (e.compiler.detect src opts.0) [
        | panicked ↦ err detect_panicked
        | returned (rec, diags, claims) ↦ ok (record {
          recognition = rec;
          diagnostics = diags;
          claims = claims;
          options = opts.0;
          failed = opts.1;
        })
      ]

  unfoldable pub held_to_limit : Registered A R B E → Asked A R E → ℕ → Option (DetectError E)
  held_to_limit e a n = elim (limit_of_source e a.options) [
    | err f ↦ some f
    | ok limit ↦ within_limit a n limit
  ]

  -- The detection of a claim by the compiler that owns its format, configured; `parsed` is what was
  -- parsed of the source, if the owner is to have it.
  unfoldable pub settle_claim :
      Source A
      → SourceFormat
      → Option A
      → Compiler A R B E
      → Options A R × Option E
      → Result (DetectError E) (Detection A R B E × Bool)
  settle_claim src format parsed c (opts, some failed) = err (options_failed format failed)
  settle_claim src format parsed c (opts, none) = ok (
    record {
      source = src;
      compiler = some c;
      recognition = record { format = format; parsed = parsed };
      options = opts;
      declined = [];
    },
    true,
  )

  abbrev pub undetected : Source A → List Diagnostic → Detection A R B E
  undetected src diags = record {
    source = src;
    compiler = none;
    recognition = no_recognition;
    options = no_options;
    declined = diags;
  }

  unfoldable pub unowned : Source A → SourceFormat → Detection A R B E
  unowned src format = record {
    source = src;
    compiler = none;
    recognition = record { format = format; parsed = none };
    options = no_options;
    declined = [];
  }

  -- `claim` by the compiler at the position `i`. An owner is a position of the registry, so the case
  -- of none there does not come up.
  unfoldable pub claim_by :
      CompilerRegistry A R B E
      → Configure A R B E
      → Source A
      → ℕ
      → Registered A R B E
      → Asked A R E
      → Result (DetectError E) (Detection A R B E × Bool)
  claim_by r configure src i e a = elim (owner_of r.by_format a.recognition.format) [
    | none ↦ ok (unowned src a.recognition.format, false)
    | some j ↦
        if j == i
        then settle_claim src a.recognition.format a.recognition.parsed e.compiler
            (a.options, a.failed)
        else elim (get_elem? r.ordered j) [
          | none ↦ ok (unowned src a.recognition.format, false)
          | some owner ↦
              configured configure owner
              >>= settle_claim src a.recognition.format none owner.compiler
        ]
  ]

  -- What a compiler that was asked makes of the loop of `Detect`: an error, or whether it declined.
  unfoldable pub weigh_answer : Source A → Registered A R B E → Asked A R E → Option (DetectError E)
  weigh_answer src e a = elim (held_to_limit e a (length src.data_of)) [
    | some f ↦ some f
    | none ↦
        if not a.claims
        then check_decline a.diagnostics
        else if not (format_valid a.recognition.format)
        then some (invalid_claim a.recognition.format)
        else none
  ]

  module _ (ctx : ℕ → Bool) (configure : Configure A R B E) (r : CompilerRegistry A R B E)
      (src : Source A) where
    -- The part of a round of `Detect` in which a compiler is asked.
    unfoldable pub heard : ℕ → Registered A R B E → Result (DetectError E) (Asked A R E)
    heard k e =
        if ctx k
        then err stopped
        else (ask_compiler configure src e >>= λ a.
            (if ctx (k + 1)
              then err stopped
              else elim (weigh_answer src e a) [ some f ↦ err f | none ↦ ok a ]))

    -- The loop of `Detect` from the position `i` on, `k` questions having been put to the context. The
    -- questions put are returned with the detection.
    unfoldable pub detect_loop :
        ℕ
        → ℕ
        → List (Registered A R B E)
        → List Diagnostic
        → Result (DetectError E) (Detection A R B E × Bool × ℕ)
    detect_loop k i [] declined = ok (undetected src declined, false, k)
    detect_loop k i (e ∷ es) declined = elim (heard k e) [
      | err f ↦ err f
      | ok a ↦
          if a.claims
          then (claim_by r configure src i e a >>= λ d. ok (d.0, d.1, k + 2))
          else detect_loop (k + 2) (suc i) es (declined ++ a.diagnostics)
    ]

    -- `Detect`.
    unfoldable pub detect_source : ℕ → Result (DetectError E) (Detection A R B E × Bool × ℕ)
    detect_source k = elim src.data_of [
      | [] ↦ ok (undetected src [], false, k)
      | c ∷ cs ↦ detect_loop k 0 r.ordered []
    ]
