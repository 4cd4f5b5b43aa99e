-- ===== src/Engine/Stage/Run.antt =====
-- What a whole run of the passes returns, where it returns a document.
use morphic.Base.{
  ℕ, zero, suc, subst, ◌+◌, ◌*◌, ◌≤◌, Bool, true, false, List, [], ◌∷◌, ◌++◌, Option, none, some,
  ok, ◌≡◌, refl, sym, ◌∙◌, arith, length, append-nil, append_assoc, inl, inr, Bool-cases,
  Result-cases, All, ◌⊎◌,
}
use morphic.Ir.Diagnostic.{Diagnostic, first_outside_table}
use morphic.Engine.Passes.{NamedPass}
use morphic.Engine.Stage.{
  Document, Next, Ran, panicked, returned, Pass, Verifier, compatible_version, check_output,
  after_pass, round, run_passes, next_document,
}
use morphic.Engine.Stage.Kept.{
  Extends, Extends-trans, Extends-length, Accepted, check_output_ok, first_outside_table-append,
  first_outside_table-le,
}

-- The pass leaves the document it is handed as it was, as the contract of `pass.Pass` asks.
abbrev pub LeavesInput : {B : Type 0} → Pass B → Type 0
LeavesInput {B} pass =
    (doc left : Document B) (next : Next B) (diags : List Diagnostic)
    → pass doc ≡ returned left next diags
    → left ≡ doc

-- What passes report, one after the other, each of the document that the one before it handed on: the
-- document at the end, and the findings of all of them in order.
pub data Reports {B : Type 0}
    : List (NamedPass (Pass B)) → Document B → Document B → List Diagnostic → Type 0 where
  no_passes : {doc : Document B} → Reports [] doc doc []
  one_more :
      {np : NamedPass (Pass B)} {nps : List (NamedPass (Pass B))} {doc left x d : Document B}
      {next : Next B} {diags more : List Diagnostic}
      → np.pass doc ≡ returned left next diags
      → next_document left next ≡ some x
      → Reports nps x d more
      → Reports (np ∷ nps) doc d (diags ++ more)

module _ {B V F : Type 0} (zero_sum : F) (ctx : ℕ → Bool) (verify : Option (Verifier B V F)) where
  -- A round that went on, and all that it found in order.
  pub record WentOn (k : ℕ) (np : NamedPass (Pass B)) (doc : Document B) (sum : F) (d : Document B)
      (after : F) (diags : List Diagnostic) : Type 0 where
    pub left : Document B
    pub next : Next B
    pub ran : np.pass doc ≡ returned left next diags
    pub live : ctx k ≡ false
    pub accepted : Accepted left next diags d
    pub held : after_pass zero_sum ctx verify np.name sum left next d ≡ ok after

  Ran-cases :
      (r : Ran B)
      → (r ≡ panicked)
        ⊎ ((left : Document B) × (next : Next B) × (diags : List Diagnostic) × (r
              ≡ returned left next diags))
  Ran-cases panicked = inl refl
  Ran-cases (returned left next diags) = inr (left, next, diags, refl)

  pub round_ok :
      (k : ℕ) (np : NamedPass (Pass B)) (doc : Document B) (sum : F) {d : Document B} {after : F}
      {diags : List Diagnostic}
      → round zero_sum ctx verify k np doc sum ≡ ok (d, after, diags)
      → WentOn k np doc sum d after diags
  unfolding round
  round_ok k np doc sum {d} {after} {diags} h = elim (Ran-cases (np.pass doc)) [
    | inl e ↦ absurd (cc (rw (e, round) at h))
    | inr (left, next, ds, e) ↦ elim (Bool-cases (ctx k)) [
      | inl stop ↦ absurd (cc (rw (e, round, stop) at h))
      | inr live ↦ elim (Result-cases (check_output left next ds)) [
        | inr (b, f) ↦ absurd (cc (rw (e, round, live, f) at h))
        | inl (x, f) ↦
            elim (Result-cases (after_pass zero_sum ctx verify np.name sum left next x)) [
              | inr (b, g) ↦ absurd (cc (rw (e, round, live, f, g) at h))
              | inl (s, g) ↦
                  let end = rw (e, round, live, f, g) at h in
                  let same_doc : x ≡ d = cc in
                  let same_sum : s ≡ after = cc in
                  let same_diags : ds ≡ diags = cc in
                  rw (← same_doc, ← same_sum, ← same_diags)
                    (record {
                      left = left;
                      next = next;
                      ran = e;
                      live = live;
                      accepted = check_output_ok left next ds f;
                      held = g;
                    })
            ]
      ]
    ]
  ]

  -- A run of a first pass that ended with a document: its round went on, and so did the others.
  pub run_passes_step :
      (k : ℕ) (np : NamedPass (Pass B)) (nps : List (NamedPass (Pass B))) (doc : Document B)
      (sum : F) (found : List Diagnostic) {r : Document B × List Diagnostic}
      → run_passes zero_sum ctx verify k (np ∷ nps) doc sum found ≡ ok r
      → (ctx k ≡ false)
        × ((d : Document B) × (after : F) × (diags : List Diagnostic) × WentOn
              (k + 1)
              np
              doc
              sum
              d
              after
              diags
            × (run_passes zero_sum ctx verify (k + 2) nps d after (found ++ diags) ≡ ok r))
  unfolding run_passes
  run_passes_step k np nps doc sum found {r} h = elim (Bool-cases (ctx k)) [
    | inl stop ↦ absurd (cc (rw (stop, run_passes) at h))
    | inr live ↦ elim (Result-cases (round zero_sum ctx verify (k + 1) np doc sum)) [
      | inr (e, f) ↦ absurd (cc (rw (live, run_passes, f) at h))
      | inl ((d, after, diags), f) ↦
          (live, (d, after, diags, round_ok (k + 1) np doc sum f, rw (live, run_passes, f) at h))
    ]
  ]

  pub run_passes_end :
      (k : ℕ) (doc : Document B) (sum : F) (found : List Diagnostic) {d : Document B}
      {fs : List Diagnostic}
      → run_passes zero_sum ctx verify k [] doc sum found ≡ ok (d, fs)
      → (ctx k ≡ false) × (doc ≡ d) × (found ≡ fs)
  unfolding run_passes
  run_passes_end k doc sum found h = (ground arith, ground arith, ground arith)

  -- What holds of the document and the findings at the end of a run.
  pub record Kept (nps : List (NamedPass (Pass B))) (doc : Document B) (found : List Diagnostic)
      (d : Document B) (fs : List Diagnostic) : Type 0 where
    pub version : compatible_version d.version ≡ true
    pub sources : Extends doc.sources d.sources
    pub reported : (more : List Diagnostic) × (fs ≡ found ++ more) × Reports nps doc d more
    pub findings : first_outside_table fs (length d.sources) ≡ none

  -- Where the first document is of a version that this build reads, the findings handed in index its
  -- table, and the passes leave what they are handed alone, a run that returns a document returns one of
  -- such a version, whose table has every source of the first document at its index. It is the document
  -- that the passes hand on from one to the next, and the findings are those handed in and then those
  -- that each pass reports, in order; they all index that table.
  pub run_passes-Kept :
      (k : ℕ) (nps : List (NamedPass (Pass B))) (doc : Document B) (sum : F)
      (found : List Diagnostic) {d : Document B} {fs : List Diagnostic}
      → All (λ np. LeavesInput np.pass) nps
      → compatible_version doc.version ≡ true
      → first_outside_table found (length doc.sources) ≡ none
      → run_passes zero_sum ctx verify k nps doc sum found ≡ ok (d, fs)
      → Kept nps doc found d fs
  run_passes-Kept k [] doc sum found {d} {fs} keep version inside h =
      let (_, same_doc, same_found) = run_passes_end k doc sum found h in
      rw (← same_doc, ← same_found)
        (record {
          version = version;
          sources = ([], sym (append-nil doc.sources));
          reported = ([], sym (append-nil found), no_passes);
          findings = inside;
        })
  run_passes-Kept k (np ∷ nps) doc sum found {d} {fs} (keep, keeps) version inside h =
      let (live, step) = run_passes_step k np nps doc sum found h in
      let (x, after, diags, went, rest) = step in
      let unchanged : went.left ≡ doc = keep doc went.left went.next diags went.ran in
      let grown =
        subst (λ (y : Document B). Extends y.sources x.sources) unchanged went.accepted.sources in
      let first =
        first_outside_table-le found (length doc.sources) (length x.sources)
          (Extends-length doc.sources x.sources grown) inside in
      let all =
        first_outside_table-append found diags (length x.sources) first went.accepted.findings in
      let last =
        run_passes-Kept (k + 2) nps x after (found ++ diags) {d = d} {fs = fs} keeps
          went.accepted.version all rest in
      record {
        version = last.version;
        sources = Extends-trans doc.sources x.sources d.sources grown last.sources;
        reported = (
          diags ++ last.reported.0,
          last.reported.1 ∙ append_assoc found diags last.reported.0,
          one_more went.ran went.accepted.document last.reported.2,
        );
        findings = last.findings;
      }

  -- A run that returns a document was not stopped: the context was asked before each pass, after
  -- each, and at the end, and every answer was that it goes on.
  pub run_passes-live :
      (k j : ℕ) (nps : List (NamedPass (Pass B))) (doc : Document B) (sum : F)
      (found : List Diagnostic) {r : Document B × List Diagnostic}
      → run_passes zero_sum ctx verify k nps doc sum found ≡ ok r
      → j ≤ 2 * length nps
      → ctx (k + j) ≡ false
  run_passes-live k j [] doc sum found {r} h le =
      let e : k + j ≡ k = omega arith in
      rw e (run_passes_end k doc sum found {d = r.0} {fs = r.1} h).0
  run_passes-live k zero (np ∷ nps) doc sum found h le =
      let e : k + 0 ≡ k = omega arith in rw e (run_passes_step k np nps doc sum found h).0
  run_passes-live k (suc zero) (np ∷ nps) doc sum found h le =
      (run_passes_step k np nps doc sum found h).1.3.live
  run_passes-live k (suc (suc j)) (np ∷ nps) doc sum found h le =
      let step = (run_passes_step k np nps doc sum found h).1 in
      let e : k + suc (suc j) ≡ k + 2 + j = omega arith in
      rw e (run_passes-live (k + 2) j nps step.0 step.1 (found ++ step.2) step.4 (omega arith))
