-- ===== src/Compilers/Detect/Taken.antt =====
-- compilers/compilers.go: what the claim of a compiler comes to.
use morphic.Base.{
  ℕ, ◌+◌, Bool, true, false, List, [], ◌∷◌, ◌++◌, Option, none, some, ok, if◌then◌else◌, ◌==◌, ◌≡◌,
  ◌⊎◌, inl, inr, refl, sym, ap, ◌∙◌, arith, length, get_elem?, All, Bool-cases, Option-cases,
  Result-cases, bind_ok,
}
use morphic.Ir.Diagnostic.{Diagnostic}
use morphic.Compilers.{
  returned, SourceFormat, format_valid, Source, Options, Compiler, Registered, CompilerRegistry,
  owner_of,
}
use morphic.Compilers.Owned.{lists, WellFormed, Call-cases}
use morphic.Compilers.Detect.{
  Detection, Asked, Configure, configured, ask_compiler, weigh_answer, settle_claim, unowned,
  undetected, claim_by, heard,
}
use morphic.Compilers.Detect.Explained.{Explained, get_elem?-middle}

module _ {A R B E : Type 0} (ctx : ℕ → Bool) (configure : Configure A R B E)
    (r : CompilerRegistry A R B E) (src : Source A) where
  -- A compiler that was asked, and what it made of the source.
  pub record Heard (e : Registered A R B E) (a : Asked A R E) : Type 0 where
    pub configured_as : configured configure e ≡ ok (a.options, a.failed)
    pub answered :
        e.compiler.detect src a.options ≡ returned (a.recognition, a.diagnostics, a.claims)
    pub weighed : weigh_answer src e a ≡ none

  -- A compiler that declined the source, saying why if it says anything.
  pub data Declined (e : Registered A R B E) : Type 0 where
    passed_on :
        (a : Asked A R E) → Heard e a → a.claims ≡ false → Explained a.diagnostics → Declined e

  -- A source that is taken: the first compiler to claim it, and the one that owns the format of the claim.
  pub record Taken (d : Detection A R B E) : Type 0 where
    pub before : List (Registered A R B E)
    pub after : List (Registered A R B E)
    pub claimant : Registered A R B E
    pub answer : Asked A R E
    pub first : r.ordered ≡ before ++ claimant ∷ after
    pub others : All Declined before
    pub asked : Heard claimant answer
    pub claims : answer.claims ≡ true
    pub valid : format_valid answer.recognition.format ≡ true
    pub position : ℕ
    pub owner : Registered A R B E
    pub owns : get_elem? r.ordered position ≡ some owner
    pub serves : lists owner.formats answer.recognition.format ≡ true
    pub compiler : d.compiler ≡ some owner.compiler
    pub format : d.recognition.format ≡ answer.recognition.format
    pub parsed :
        d.recognition.parsed
        ≡ (if position == length before then answer.recognition.parsed else none)
    pub options : configured configure owner ≡ ok (d.options, none)
    pub source : d.source ≡ src

  -- What a detection that comes to no error is.
  pub data Found : Detection A R B E → Bool → Type 0 where
    taken : {d : Detection A R B E} → Taken d → Found d true
    nobody :
        (before after : List (Registered A R B E)) (claimant : Registered A R B E)
        (answer : Asked A R E)
        → r.ordered ≡ before ++ claimant ∷ after
        → All Declined before
        → Heard claimant answer
        → answer.claims ≡ true
        → format_valid answer.recognition.format ≡ true
        → owner_of r.by_format answer.recognition.format ≡ none
        → Found (unowned src answer.recognition.format) false
    refused :
        (diags : List Diagnostic)
        → Explained diags
        → (src.data_of ≡ []) ⊎ All Declined r.ordered
        → Found (undetected src diags) false

  ask_compiler-Heard :
      (e : Registered A R B E) (a : Asked A R E)
      → ask_compiler configure src e ≡ ok a
      → (configured configure e ≡ ok (a.options, a.failed))
        × (e.compiler.detect src a.options ≡ returned (a.recognition, a.diagnostics, a.claims))
  unfolding ask_compiler
  ask_compiler-Heard e a h = elim (Result-cases (configured configure e)) [
    | inr (f, k) ↦ absurd (cc (rw (ask_compiler, k) at h))
    | inl ((opts, failed), k) ↦ elim (Call-cases (e.compiler.detect src opts)) [
      | inl m ↦ absurd (cc (rw (ask_compiler, k, m) at h))
      | inr ((rec, diags, claims), m) ↦
          let one : record {
            recognition = rec;
            diagnostics = diags;
            claims = claims;
            options = opts;
            failed = failed;
          }
              ≡ a =
            cc (rw (ask_compiler, k, m) at h) in
          rw (← one) (k, m)
    ]
  ]

  pub heard-Heard :
      (k : ℕ) (e : Registered A R B E) (a : Asked A R E)
      → heard ctx configure r src k e ≡ ok a
      → Heard e a
  unfolding heard
  heard-Heard k e a h = elim (Bool-cases (ctx k)) [
    | inl c ↦ absurd (cc (rw (heard, c) at h))
    | inr c ↦
        let (b, asked, rest) = bind_ok (ask_compiler configure src e) _ a (rw (heard, c) at h) in
        elim (Bool-cases (ctx (k + 1))) [
          | inl f ↦ absurd (cc (rw f at rest))
          | inr f ↦ elim (Option-cases (weigh_answer src e b)) [
            | inr (x, w) ↦ absurd (cc (rw (f, w) at rest))
            | inl w ↦
                let same : b ≡ a = cc (rw (f, w) at rest) in
                let (conf, ans) = ask_compiler-Heard e b asked in
                rw (← same) (record { configured_as = conf; answered = ans; weighed = w })
          ]
        ]
  ]

  -- A claim that is settled names the owner, with the options that it was configured with.
  settle_claim-Settled :
      (format : SourceFormat) (parsed : Option A) (c : Compiler A R B E)
      (opts : Options A R × Option E) (d : Detection A R B E) (b : Bool)
      → settle_claim src format parsed c opts ≡ ok (d, b)
      → (opts ≡ (d.options, none))
        × (b ≡ true)
        × (d.compiler ≡ some c)
        × (d.source ≡ src)
        × (d.recognition ≡ record { format = format; parsed = parsed })
  unfolding settle_claim
  settle_claim-Settled format parsed c (opts, some f) d b h = absurd cc
  settle_claim-Settled format parsed c (opts, none) d b h =
      let made : record {
        source = src;
        compiler = some c;
        recognition = record { format = format; parsed = parsed };
        options = opts;
        declined = [];
      }
          ≡ d =
        cc in
      (
        ap (λ x. (x.options, none)) made,
        cc,
        sym (ap (λ x. x.compiler) made),
        sym (ap (λ x. x.source) made),
        sym (ap (λ x. x.recognition) made),
      )

  module _ (known : WellFormed r) (before : List (Registered A R B E)) (e : Registered A R B E)
      (after : List (Registered A R B E)) (first : r.ordered ≡ before ++ e ∷ after)
      (others : All Declined before) (a : Asked A R E) (asked : Heard e a)
      (claims : a.claims ≡ true) (valid : format_valid a.recognition.format ≡ true) where
    taken_by :
        (j : ℕ) (owner : Registered A R B E) (parsed : Option A) (d : Detection A R B E) (b : Bool)
        → owner_of r.by_format a.recognition.format ≡ some j
        → get_elem? r.ordered j ≡ some owner
        → parsed ≡ (if j == length before then a.recognition.parsed else none)
        → (opts : Options A R × Option E) → configured configure owner ≡ ok opts
        → settle_claim src a.recognition.format parsed owner.compiler opts ≡ ok (d, b)
        → Found d b
    taken_by j owner parsed d b owned at kept opts conf h =
        let (plain, one, compiler, source, rec) =
          settle_claim-Settled a.recognition.format parsed owner.compiler opts d b h in
        let (o, k, l) = (known.owns a.recognition.format j).0 owned in
        let same : o ≡ owner = cc (k, at) in
        rw one (
          taken (record {
            before = before;
            after = after;
            claimant = e;
            answer = a;
            first = first;
            others = others;
            asked = asked;
            claims = claims;
            valid = valid;
            position = j;
            owner = owner;
            owns = at;
            serves = rw (← same) l;
            compiler = compiler;
            format = ap (λ x. x.format) rec;
            parsed = ap (λ x. x.parsed) rec ∙ kept;
            options = conf ∙ ap ok plain;
            source = source;
          }))

    pub claim_by-Found :
        (d : Detection A R B E) (b : Bool)
        → claim_by r configure src (length before) e a ≡ ok (d, b)
        → Found d b
    unfolding claim_by
    claim_by-Found d b h = elim (Option-cases (owner_of r.by_format a.recognition.format)) [
      | inl o ↦
          let made : unowned src a.recognition.format ≡ d = cc (rw (claim_by, o) at h) in
          let no : false ≡ b = cc (rw (claim_by, o) at h) in
          rw (← made, ← no) (nobody before after e a first others asked claims valid o)
      | inr (j, o) ↦ elim (Bool-cases (j == length before)) [
        | inl same ↦
            let at : j ≡ length before = ground (arith, same) in
            let here : get_elem? r.ordered j ≡ some e =
              rw (at, first) (get_elem?-middle before e after) in
            taken_by j e a.recognition.parsed d b o here (rw same refl) (a.options, a.failed)
              asked.configured_as (rw (claim_by, o, same) at h)
        | inr other ↦
            let (owner, at, l) = (known.owns a.recognition.format j).0 o in
            let (opts, conf, rest) =
              bind_ok (configured configure owner) _ (d, b) (rw (claim_by, o, other, at) at h) in
            taken_by j owner none d b o at (rw other refl) opts conf rest
      ]
    ]
