-- ===== src/Engine/Whole.antt =====
-- engine/engine.go: the prepare and the RunDocument of an engine, and the withFindings of engine/stage.go.
-- An engine is its passes and its verifier, `none` where no constructor built it. What a document is held
-- to and the answers of the context are parameters, as in Engine/Stage; the context is asked once before
-- the passes. The text of an error is left out. The findings of the document handed in are read as they were
-- handed in, which a pass that writes to its document would change.
pub mod Sound
mod Tests
use morphic.Base.{
  ℕ, zero, suc, Bool, true, false, ◌&&◌, ◌||◌, List, [], ◌∷◌, Option, none, some, Bytes, Result, ok,
  err, ◌>>=◌, if◌then◌else◌, length,
}
use morphic.Ir.BigVal.{is_nil}
use morphic.Ir.Diagnostic.{Diagnostic, first_outside_table, merge_diagnostics}
use morphic.Engine.Passes.{NamedPass, PassesError, enabled_passes}
use morphic.Engine.Verdict.{VerdictError, RunResult, resolve, judge}
use morphic.Engine.Stage.{
  Document, Pass, Verifier, StageError, compatible_version, hold, run_passes,
}

pub record RunOptions : Type 0 where
  pub fail_on : Bytes
  pub disable_passes : List Bytes
  pub verify : Bool
  pub has_format_options : Bool
  pub has_compiler_options : Bool

pub record Engine (B V F : Type 0) : Type 0 where
  pub passes : List (NamedPass (Pass B))
  pub verifier : Verifier B V F

pub record Plan (B V F : Type 0) : Type 0 where
  pub enabled : List (NamedPass (Pass B))
  pub threshold : ℕ
  pub held_to : Option (Verifier B V F)

pub data RunFailure (V : Type 0) : Type 0 where
  uninitialized option_channels no_input options_unused unstamped stopped_at_start : RunFailure V
  passes_refused : PassesError → RunFailure V
  threshold_refused : VerdictError → RunFailure V
  incompatible : Bytes → RunFailure V
  finding_outside : Diagnostic → RunFailure V
  input_violates : List V → RunFailure V
  stage_failed : StageError V → RunFailure V
  not_judged : VerdictError → RunFailure V

abbrev pub with_findings : {B : Type 0} → Document B → List Diagnostic → Document B
with_findings doc diags = record doc { diagnostics = diags }

-- A result with its error put in the terms of the caller.
abbrev pub map_err : {E G A : Type 0} → (E → G) → Result E A → Result G A
map_err f (ok a) = ok a
map_err f (err e) = err (f e)

module _ {B V F : Type 0} where
  unfoldable pub prepare : Option (Engine B V F) → RunOptions → Result (RunFailure V) (Plan B V F)
  prepare none opts = err uninitialized
  prepare (some e) opts =
      if opts.has_format_options && opts.has_compiler_options
      then err option_channels
      else map_err passes_refused (enabled_passes e.passes opts.disable_passes) >>= λ passes.
          map_err threshold_refused (resolve opts.fail_on) >>= λ t. ok (record {
            enabled = passes;
            threshold = t;
            held_to = if opts.verify then some e.verifier else none;
          })

module _ {B V : Type 0} where
  -- What `RunDocument` asks of its options and its document before it asks the context.
  unfoldable pub check_input : RunOptions → Document B → Option (RunFailure V)
  check_input opts doc =
      if opts.has_format_options || opts.has_compiler_options
      then some options_unused
      else if is_nil doc.version
      then some unstamped
      else if compatible_version doc.version
      then elim (first_outside_table doc.diagnostics (length doc.sources)) [
        | none ↦ none
        | some d ↦ some (finding_outside d)
      ]
      else some (incompatible doc.version)

  -- The result of the passes, judged.
  unfoldable pub conclude :
      ℕ → Document B → Document B × List Diagnostic → Result (RunFailure V) (RunResult (Document B))
  conclude t doc (out, found) =
      let merged = merge_diagnostics doc.diagnostics found in
      map_err not_judged (
        judge t (record {
          document = some (with_findings out merged);
          diagnostics = merged;
          failed = false;
        }))

module _ {B V F : Type 0} where
  unfoldable pub run_plan :
      F → (ℕ → Bool) → Plan B V F → Document B → Result (RunFailure V) (RunResult (Document B))
  run_plan zero_sum ctx p doc =
      if ctx 0
      then err stopped_at_start
      else map_err input_violates (hold zero_sum ctx p.held_to doc) >>= λ sum.
          map_err stage_failed (run_passes zero_sum ctx p.held_to 1 p.enabled doc sum [])
          >>= conclude p.threshold doc

  -- A checked document is run.
  unfoldable pub run_checked :
      F
      → (ℕ → Bool)
      → RunOptions
      → Plan B V F
      → Option (Document B)
      → Result (RunFailure V) (RunResult (Document B))
  run_checked zero_sum ctx opts p none = err no_input
  run_checked zero_sum ctx opts p (some doc) = elim (check_input opts doc) [
    | some e ↦ err e
    | none ↦ run_plan zero_sum ctx p doc
  ]

  unfoldable pub run_document :
      F
      → (ℕ → Bool)
      → Option (Engine B V F)
      → RunOptions
      → Option (Document B)
      → Result (RunFailure V) (RunResult (Document B))
  run_document zero_sum ctx engine opts doc =
      prepare engine opts >>= λ p. run_checked zero_sum ctx opts p doc
