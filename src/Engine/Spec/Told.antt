-- ===== src/Engine/Spec/Told.antt =====
-- engine/engine.go: a result that tells what became of a spec.
use morphic.Base.{
  ℕ, Bool, true, false, List, [], ◌∷◌, ◌++◌, Option, none, some, Bytes, ok, length, ◌≡◌, ◌⊎◌, inl,
  inr, refl, ap, ◌∙◌, All, Bool-cases, bind_ok,
}
use morphic.Ir.BigVal.{is_nil}
use morphic.Ir.Diagnostic.{
  Diagnostic, SourceInfo, has_error, first_error, first_outside_table, merge_diagnostics, in_table,
  ℤ-discrete,
}
use morphic.Base.{same_text}
use morphic.Engine.Verdict.{verdict, judge}
use morphic.Engine.Stage.{Document, compatible_version, hold, run_passes}
use morphic.Engine.Stage.Kept.{Extends, Extends-length, first_outside_table-le}
use morphic.Engine.Stage.Run.{LeavesInput, run_passes-Kept}
use morphic.Engine.Whole.{Plan, map_err, with_findings}
use morphic.Engine.Whole.Sound.{map_err_ok, outside_merge}
use morphic.Compilers.{SourceFormat, Source}
use morphic.Compilers.Detect.{Detection}
use morphic.Compilers.Detect.Explained.{Explained}
use morphic.Compilers.Contract.Met.{Opens, Reads, Standing}
use morphic.Engine.Spec.{
  SpecResult, violates, stage_failed, not_judged, spec_problem, undetected_findings,
  undetected_result, run_compiled, judge_spec,
}

abbrev Stated : List Diagnostic → Type 0
Stated ds = (has_error ds ≡ true) × (first_outside_table ds 1 ≡ none)

spec_problem-Stated : (code message : Bytes) → Stated (spec_problem code message ∷ [])
unfolding has_error first_error first_outside_table spec_problem same_text in_table ℤ-discrete
spec_problem-Stated code message = (refl, refl)

-- The findings on a source that no compiler takes: they say why, and index a table of one source.
undetected_findings-Stated :
    (say : Option SourceFormat → Bytes) (format : SourceFormat) (diags : List Diagnostic)
    → Explained diags
    → Stated (undetected_findings say format diags)
unfolding undetected_findings
undetected_findings-Stated say format [] why = elim (Bool-cases (is_nil format.name)) [
  | inr e ↦ rw (undetected_findings, e) (spec_problem-Stated _ (say (some format)))
  | inl e ↦ rw (undetected_findings, e) (spec_problem-Stated _ (say none))
]
undetected_findings-Stated say format (d ∷ ds) (inside, why) =
    elim (Bool-cases (is_nil format.name)) [
      | inr e ↦ rw (undetected_findings, e) (spec_problem-Stated _ (say (some format)))
      | inl e ↦ elim why [ inl empty ↦ absurd cc | inr h ↦ rw (undetected_findings, e) (h, inside) ]
    ]

-- A document that passes made of one that was read keeps what its table opens with.
Opens-Extends : (a b : List SourceInfo) (path : Bytes) → Extends a b → Opens a path → Opens b path
Opens-Extends a b path (more, e) o = record {
  first = o.first;
  rest = o.rest ++ more;
  begins = e ∙ ap (◌++ more) o.begins;
  named = o.named;
}

Reads-Extends :
    (hash : Bytes → Bytes) (a b : List SourceInfo) (data_of : Bytes) (format : SourceFormat)
    → Extends a b
    → Reads hash a data_of format
    → Reads hash b data_of format
Reads-Extends hash [] b data_of format _ reads = absurd reads
Reads-Extends hash (s ∷ a) b data_of format (more, e) reads = rw e reads

-- A result: a table that opens with the spec, findings that index it, and a document of a version that
-- this build reads, which carries those findings, whose table it is, read from the spec in the format of
-- the result, or an error that says why there is none.
pub record Told {B : Type 0} (hash : Bytes → Bytes) (path data_of : Bytes) (res : SpecResult B)
    : Type 0 where
  pub opens : Opens res.sources path
  pub inside : first_outside_table res.result.diagnostics (length res.sources) ≡ none
  pub outcome :
      ((res.result.document ≡ none) × (has_error res.result.diagnostics ≡ true))
      ⊎ ((doc : Document B) × (res.result.document ≡ some doc)
          × (doc.diagnostics ≡ res.result.diagnostics)
          × Standing hash res.format data_of doc res.sources)

pub undetected_result-Told :
    {A R B E : Type 0} (hash : Bytes → Bytes) (say : Option SourceFormat → Bytes)
    (d : Detection A R B E) (spec : Source A)
    → Explained d.declined
    → Told hash spec.path spec.data_of (undetected_result say d spec.path)
unfolding undetected_result
undetected_result-Told hash say d spec why =
    let (stated, inside) = undetected_findings-Stated say d.recognition.format d.declined why in
    record {
      opens = record {
        first = record { format = []; path = spec.path; hash = []; self_uri = [] };
        rest = [];
        begins = refl;
        named = refl;
      };
      inside = inside;
      outcome = inl (refl, stated);
    }

module _ {B E V F : Type 0} (hash : Bytes → Bytes) (zero_sum : F) (ctx : ℕ → Bool) (p : Plan B V F)
    (alone : All (λ np. LeavesInput np.pass) p.enabled) where
  pub run_compiled-Told :
      (path data_of : Bytes) (format : SourceFormat) (k : ℕ) (doc : Document B)
      (diags : List Diagnostic) (res : SpecResult B)
      → Opens doc.sources path
      → compatible_version doc.version ≡ true
      → Reads hash doc.sources data_of format
      → first_outside_table diags (length doc.sources) ≡ none
      → run_compiled {E = E} {V = V} zero_sum ctx p format k doc diags ≡ ok res
      → Told hash path data_of res
  unfolding run_compiled first_outside_table
  run_compiled-Told path data_of format k doc diags res opens version reads inside h =
      let (sum, _, rest) = bind_ok (map_err violates (hold zero_sum ctx p.held_to doc)) _ res h in
      let ((out, found), ran, last) =
        bind_ok (map_err stage_failed (run_passes zero_sum ctx p.held_to k p.enabled doc sum [])) _
          res rest in
      let kept =
        run_passes-Kept zero_sum ctx p.held_to k p.enabled doc sum [] alone version refl
          (map_err_ok stage_failed _ (out, found) ran) in
      let merged = merge_diagnostics diags found in
      let same : record {
        result = record {
          document = some (with_findings out merged);
          diagnostics = merged;
          failed = false;
        };
        sources = out.sources;
        format = format;
      }
          ≡ res =
        cc in
      rw (← same) (record {
        opens = Opens-Extends doc.sources out.sources path kept.sources opens;
        inside =
            outside_merge diags found (length out.sources)
              (first_outside_table-le diags (length doc.sources) (length out.sources)
                (Extends-length doc.sources out.sources kept.sources) inside)
              kept.findings;
        outcome = inr (
          with_findings out merged,
          refl,
          refl,
          record {
            version = kept.version;
            tabled = refl;
            reads = Reads-Extends hash doc.sources out.sources data_of format kept.sources reads;
          },
        );
      })

-- A judged result is the result, and what the threshold makes of it.
pub judge_spec-Told :
    {B E V F : Type 0} (hash : Bytes → Bytes) (p : Plan B V F) (path data_of : Bytes)
    (res last : SpecResult B)
    → Told hash path data_of res
    → judge_spec {E = E} {V = V} p res ≡ ok last
    → Told hash path data_of last
      × (verdict p.threshold last.result.document last.result.diagnostics ≡ ok last.result.failed)
unfolding judge_spec judge
judge_spec-Told hash p path data_of res last told h =
    let (j, run, made) = bind_ok (map_err not_judged (judge p.threshold res.result)) _ last h in
    let (failed, verdict_is, same_j) =
      bind_ok (verdict p.threshold res.result.document res.result.diagnostics) _ j
        (map_err_ok not_judged _ j run) in
    let one : record res { result = record res.result { failed = failed } } ≡ last = cc in
    rw (← one)
      (record { opens = told.opens; inside = told.inside; outcome = told.outcome }, verdict_is)
