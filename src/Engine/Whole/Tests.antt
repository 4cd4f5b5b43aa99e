-- ===== src/Engine/Whole/Tests.antt =====
-- Runs of RunDocument, and its theorem at two passes of which one is disabled.
use native.Mathlib.Decide.{ℕ_discrete}
use morphic.Base.{
  ℕ, ◌+◌, Bool, true, false, List, [], ◌∷◌, none, some, Result, ok, err, Bytes, codes, refl, ◌≡◌,
  same_text, ltb, if◌then◌else◌,
}
use morphic.Ir.Diagnostic.{
  Diagnostic-discrete, SourceInfo-discrete, ℤ-discrete, in_table, first_outside_table, holds,
  merge_into, merge_diagnostics,
}
use morphic.Ir.Diagnostic.Tests.{second_finding}
use morphic.Engine.Passes.{PassesError, enabled_passes, check_known, contains, delete_named}
use morphic.Engine.Verdict.{
  RunResult, resolve, resolve_named, index_of, verdict, verdict_loop, judge,
}
use morphic.Engine.Stage.{
  Document, itself, another, returned, Pass, Verifier, ir_version, run_passes, round, check_output,
  check_document, after_pass, hold, keeps_sources, compatible_version, all_equal,
}
use morphic.Engine.Stage.Run.{LeavesInput}
use morphic.Engine.Whole.{
  RunOptions, Engine, Plan, RunFailure, prepare, check_input, conclude, run_plan, run_checked,
  run_document, passes_refused, incompatible,
}
use morphic.Engine.Whole.Sound.{Concluded, run_document-Concluded}

abbrev start : Document ℕ
start = record { version = ir_version; sources = []; diagnostics = second_finding ∷ []; body = 3 }

abbrev raise : Pass ℕ
raise doc =
    returned doc (another (record doc { body = doc.body + 1; diagnostics = [] }))
      (second_finding ∷ [])

abbrev look : Pass ℕ
look doc = returned doc itself []

abbrev small : Verifier ℕ ℕ ℕ
small = record {
  violations = λ d. if ltb 10 d.body then d.body ∷ [] else [];
  fingerprint = λ d. some d.body;
  same = λ f g. true;
  unencodable = 0;
}

abbrev engine : Engine ℕ ℕ ℕ
engine = record {
  passes =
      record { name = codes "raise"; pass = raise }
      ∷ record { name = codes "look"; pass = look }
      ∷ [];
  verifier = small;
}

abbrev without : List Bytes → RunOptions
without names = record {
  fail_on = [];
  disable_passes = names;
  verify = false;
  has_format_options = false;
  has_compiler_options = false;
}

abbrev never : ℕ → Bool
never k = false

-- Its line opens all that `run_document` calls.
run_start : RunOptions → Document ℕ → Result (RunFailure ℕ) (RunResult (Document ℕ))
unfolding run_document run_checked run_plan conclude check_input prepare enabled_passes check_known
    contains delete_named resolve resolve_named index_of verdict verdict_loop judge
    merge_diagnostics merge_into holds run_passes round check_output check_document after_pass hold
    keeps_sources compatible_version all_equal first_outside_table in_table ℤ-discrete
    SourceInfo-discrete Diagnostic-discrete same_text
run_start opts doc = run_document 0 never (some engine) opts (some doc)

abbrev last : Document ℕ
last = record { version = ir_version; sources = []; diagnostics = second_finding ∷ []; body = 4 }

ran :
    run_start (without (codes "look" ∷ [])) start
    ≡ ok (record { document = some last; diagnostics = second_finding ∷ []; failed = false })
unfolding run_start ℕ_discrete
ran = refl

started :
    run_document 0 never (some engine) (without (codes "look" ∷ [])) (some start)
    ≡ ok (record { document = some last; diagnostics = second_finding ∷ []; failed = false })
unfolding run_start ℕ_discrete
started = refl

abbrev raise_only : Plan ℕ ℕ ℕ
raise_only = record {
  enabled = record { name = codes "raise"; pass = raise } ∷ [];
  threshold = 2;
  held_to = none;
}

prepared : prepare (some engine) (without (codes "look" ∷ [])) ≡ ok raise_only
unfolding run_start
prepared = refl

unknown_refused :
    run_start (without (codes "prune" ∷ [])) start
    ≡ err (passes_refused (PassesError.unknown_pass (codes "prune")))
unfolding run_start
unknown_refused = refl

version_refused :
    run_start (without []) (record start { version = codes "0" }) ≡ err (incompatible (codes "0"))
unfolding run_start
version_refused = refl

raise-LeavesInput : LeavesInput raise
raise-LeavesInput doc left next diags e = cc

run_document-Concluded_example :
    Concluded raise_only start
      (record { document = some last; diagnostics = second_finding ∷ []; failed = false })
run_document-Concluded_example =
    run_document-Concluded 0 never (some engine) (without (codes "look" ∷ [])) raise_only start
      (record { document = some last; diagnostics = second_finding ∷ []; failed = false }) prepared
      (raise-LeavesInput, tt) started
