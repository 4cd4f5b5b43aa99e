-- ===== src/Engine/Whole/Sound.antt =====
-- What a run over a document comes to when it comes to a result.
use morphic.Base.{
  ℕ, Bool, true, ◌||◌, List, [], ◌∷◌, Option, none, some, Result, ok, err, ◌>>=◌, if◌then◌else◌,
  length, ◌≡◌, inl, inr, refl, sym, ap, subst, ◌∙◌, arith, All, Bool-cases, Option-cases, bind_ok,
}
use morphic.Ir.BigVal.{is_nil}
use morphic.Ir.Diagnostic.{Diagnostic, holds, in_table, first_outside_table, merge_diagnostics}
use morphic.Ir.Diagnostic.Merge.{missing, merge_diagnostics-missing}
use morphic.Engine.Verdict.{RunResult, verdict, judge}
use morphic.Engine.Stage.{Document, compatible_version, hold, run_passes}
use morphic.Engine.Stage.Kept.{
  Extends, Extends-length, first_outside_table-le, first_outside_table-append,
}
use morphic.Engine.Stage.Run.{LeavesInput, Kept, Reports, run_passes-Kept}
use morphic.Engine.Whole.{
  RunOptions, Engine, Plan, not_judged, input_violates, stage_failed, map_err, prepare, check_input,
  with_findings, conclude, run_plan, run_checked, run_document,
}

-- A run that came to a result: what it was given, what the passes came to, and what is returned.
pub record Concluded {B V F : Type 0} (p : Plan B V F) (doc : Document B)
    (res : RunResult (Document B)) : Type 0 where
  pub out : Document B
  pub found : List Diagnostic
  pub handed_on : Document B
  pub made : Reports p.enabled doc handed_on found
  pub rest : out ≡ with_findings handed_on res.diagnostics
  pub document : res.document ≡ some out
  pub diagnostics : res.diagnostics ≡ merge_diagnostics doc.diagnostics found
  pub carried : out.diagnostics ≡ res.diagnostics
  pub version : compatible_version out.version ≡ true
  pub grown : Extends doc.sources out.sources
  pub inside : first_outside_table res.diagnostics (length out.sources) ≡ none
  pub judged : verdict p.threshold res.document res.diagnostics ≡ ok res.failed

outside_missing :
    (stored produced : List Diagnostic) (n : ℕ)
    → first_outside_table produced n ≡ none
    → first_outside_table (missing stored produced) n ≡ none
unfolding first_outside_table missing
outside_missing stored [] n h = refl
outside_missing stored (d ∷ ds) n h = elim (Bool-cases (in_table d.provenance n)) [
  | inr e ↦ absurd (ground (arith, h, e))
  | inl e ↦ elim (Bool-cases (holds stored d)) [
    | inl f ↦ rw (f, if◌then◌else◌) (outside_missing stored ds n (ground (arith, h, e)))
    | inr f ↦
        rw (f, if◌then◌else◌)
          (ground (arith, e, outside_missing stored ds n (ground (arith, h, e))))
  ]
]

none_outside : (n : ℕ) → first_outside_table [] n ≡ none
unfolding first_outside_table
none_outside n = refl

pub outside_merge :
    (stored produced : List Diagnostic) (n : ℕ)
    → first_outside_table stored n ≡ none
    → first_outside_table produced n ≡ none
    → first_outside_table (merge_diagnostics stored produced) n ≡ none
outside_merge stored produced n h k =
    ap (λ ds. first_outside_table ds n) (merge_diagnostics-missing stored produced)
    ∙ first_outside_table-append stored (missing stored produced) n h
        (outside_missing stored produced n k)

-- An input that was taken has a version that this build reads, and findings that index its sources.
check_input_ok :
    {B V : Type 0} (opts : RunOptions) (doc : Document B)
    → check_input {V = V} opts doc ≡ none
    → (compatible_version doc.version ≡ true)
      × (first_outside_table doc.diagnostics (length doc.sources) ≡ none)
unfolding check_input
check_input_ok opts doc h =
    elim (Bool-cases (opts.has_format_options || opts.has_compiler_options)) [
      | inl e ↦ absurd (cc (rw (check_input, e) at h))
      | inr e ↦ elim (Bool-cases (is_nil doc.version)) [
        | inl f ↦ absurd (cc (rw (check_input, e, f) at h))
        | inr f ↦ elim (Bool-cases (compatible_version doc.version)) [
          | inr g ↦ absurd (cc (rw (check_input, e, f, g) at h))
          | inl g ↦ elim (Option-cases (first_outside_table doc.diagnostics (length doc.sources))) [
            | inl k ↦ (g, k)
            | inr (d, k) ↦ absurd (cc (rw (check_input, e, f, g, k) at h))
          ]
        ]
      ]
    ]

pub map_err_ok :
    {E G A : Type 0} (f : E → G) (r : Result E A) (a : A) → map_err f r ≡ ok a → r ≡ ok a
map_err_ok f (ok b) a h = cc
map_err_ok f (err e) a h = absurd cc

module _ {B V F : Type 0} (zero_sum : F) (ctx : ℕ → Bool) (p : Plan B V F) (doc : Document B)
    (alone : All (λ np. LeavesInput np.pass) p.enabled)
    (version : compatible_version doc.version ≡ true)
    (inside : first_outside_table doc.diagnostics (length doc.sources) ≡ none) where
  conclude-Concluded :
      (out : Document B) (found : List Diagnostic) (res : RunResult (Document B))
      → Kept zero_sum ctx p.held_to p.enabled doc [] out found
      → conclude {V = V} p.threshold doc (out, found) ≡ ok res
      → Concluded p doc res
  unfolding conclude judge
  conclude-Concluded out found res kept h =
      let merged = merge_diagnostics doc.diagnostics found in
      let last = with_findings out merged in
      let (failed, judged, same) =
        bind_ok (verdict p.threshold (some last) merged)
          (λ f. ok (record { document = some last; diagnostics = merged; failed = f })) res
          (map_err_ok not_judged _ res h) in
      let one : record { document = some last; diagnostics = merged; failed = failed } ≡ res = cc in
      rw (← one) (record {
        out = last;
        found = found;
        handed_on = out;
        made = subst (Reports p.enabled doc out) (sym kept.reported.1) kept.reported.2;
        rest = refl;
        document = refl;
        diagnostics = refl;
        carried = refl;
        version = kept.version;
        grown = kept.sources;
        inside =
            outside_merge doc.diagnostics found (length out.sources)
              (first_outside_table-le doc.diagnostics (length doc.sources) (length out.sources)
                (Extends-length doc.sources out.sources kept.sources) inside)
              kept.findings;
        judged = judged;
      })

  run_plan-Concluded :
      (res : RunResult (Document B)) → run_plan zero_sum ctx p doc ≡ ok res → Concluded p doc res
  unfolding run_plan
  run_plan-Concluded res h = elim (Bool-cases (ctx 0)) [
    | inl e ↦ absurd (cc (rw (run_plan, e) at h))
    | inr e ↦
        let (sum, _, rest) =
          bind_ok (map_err input_violates (hold zero_sum ctx p.held_to doc))
            (λ sum.
              map_err stage_failed (run_passes zero_sum ctx p.held_to 1 p.enabled doc sum [])
              >>= conclude p.threshold doc)
            res (rw (run_plan, e) at h) in
        let ((out, found), ran, last) =
          bind_ok (map_err stage_failed (run_passes zero_sum ctx p.held_to 1 p.enabled doc sum []))
            (conclude p.threshold doc) res rest in
        conclude-Concluded out found res
          (run_passes-Kept zero_sum ctx p.held_to 1 p.enabled doc sum [] alone version
            (none_outside (length doc.sources))
            (map_err_ok stage_failed (run_passes zero_sum ctx p.held_to 1 p.enabled doc sum [])
              (out, found) ran))
          last
  ]

-- A run over a document that comes to a result, where the passes that are left on do not touch the
-- document they are handed, returns the document that these passes hand on from one to the next, but for
-- its findings; this build reads it, and its table of sources opens with that of the input. Its findings
-- are those of the input, first and as they were, with those that these passes report merged into them;
-- each indexes an entry of the table, and the result is judged failed or not by the threshold of the
-- options.
pub run_document-Concluded :
    {B V F : Type 0} (zero_sum : F) (ctx : ℕ → Bool) (engine : Option (Engine B V F))
    (opts : RunOptions) (p : Plan B V F) (doc : Document B) (res : RunResult (Document B))
    → prepare engine opts ≡ ok p
    → All (λ np. LeavesInput np.pass) p.enabled
    → run_document zero_sum ctx engine opts (some doc) ≡ ok res
    → Concluded p doc res
unfolding run_document run_checked
run_document-Concluded {V} zero_sum ctx engine opts p doc res prepared alone h =
    let run : run_checked zero_sum ctx opts p (some doc) ≡ ok res =
      rw (run_document, prepared) at h in
    elim (Option-cases (check_input {V = V} opts doc)) [
      | inr (e, f) ↦ absurd (cc (rw (run_checked, f) at run))
      | inl f ↦
          let (version, inside) = check_input_ok {V = V} opts doc f in
          run_plan-Concluded zero_sum ctx p doc alone version inside res
            (rw (run_checked, f) at run)
    ]
