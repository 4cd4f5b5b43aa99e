-- ===== src/Engine/Spec/Tests.antt =====
-- engine/engine.go: runs that compile a spec, by an engine of two compilers and one pass.
use native.Mathlib.Decide.{ℕ_discrete}
use morphic.Base.{
  ℕ, ◌+◌, Bool, true, false, [], ◌∷◌, Option, none, some, Result, ok, err, Bytes, codes, refl, ◌≡◌,
  same_text,
}
use morphic.Ir.Diagnostic.{
  Diagnostic-discrete, SourceInfo-discrete, ℤ-discrete, in_table, first_outside_table, holds,
  merge_into, merge_diagnostics,
}
use morphic.Engine.Passes.{enabled_passes, check_known, contains, delete_named}
use morphic.Engine.Verdict.{resolve, resolve_named, index_of, verdict, verdict_loop, judge}
use morphic.Engine.Stage.{
  another, returned, Pass, Verifier, ir_version, run_passes, round, check_output, check_document,
  after_pass, hold, keeps_sources, compatible_version, all_equal,
}
use morphic.Engine.Stage.Run.{LeavesInput}
use morphic.Engine.Cache.Serve.{cacheable}
use morphic.Engine.Whole.{Plan, prepare}
use morphic.Compilers.{
  SourceFormat, Source, owner_of, same_format, format_valid, has_byte, format_text, Call,
}
use morphic.Compilers.Detect.{
  configured, limit_of_source, ask_compiler, within_limit, held_to_limit, settle_claim, unowned,
  claim_by, weigh_answer, heard, detect_loop, detect_source, check_decline,
}
use morphic.Compilers.Contract
use morphic.Compilers.Contract.{
  check_indexes, check_paths, check_first, check_sources, table_names, compiled_of, checked,
  after_compile, compile_detection, handed, check,
}
use morphic.Compilers.Tests.{plain, both, registry, both_registered, source}
use morphic.Engine.Spec.{
  SpecOptions, SpecEngine, SpecResult, SpecFailure, run_options, spec_problem, undetected_findings,
  undetected_result, format_options_of, configurer, run_compiled, after_compiled, compile_detected,
  compile_spec, judge_spec, run_held, compile_or_serve, prepare_spec, run_spec,
  code_unrecognized_format, no_path, no_sources, takes_part,
}
use morphic.Engine.Spec.Told.{Told}
use morphic.Engine.Spec.Answered.{run_spec-Told}

abbrev raise : Pass ℕ
raise doc = returned doc (another (record doc { body = doc.body + 1 })) []

abbrev small : Verifier ℕ ℕ ℕ
small = record {
  violations = λ d. [];
  fingerprint = λ d. some d.body;
  same = λ f g. true;
  unencodable = 0;
}

abbrev engine : SpecEngine ℕ ℕ ℕ ℕ ℕ ℕ
engine = record {
  engine = record { passes = record { name = codes "raise"; pass = raise } ∷ []; verifier = small };
  registry = registry;
  cache = some (record { serve = λ opts p k docs src compile. err no_sources });
}

abbrev options : SpecOptions ℕ
options = record { fail_on = []; disable_passes = []; verify = true; given = some 2; settings = [] }

abbrev say : Option SourceFormat → Bytes
say format = codes "no"

abbrev never : ℕ → Bool
never k = false

-- Its line opens all that `run_spec` calls.
run_source : Source ℕ → Result (SpecFailure ℕ ℕ) (SpecResult ℕ)
unfolding cacheable run_spec prepare_spec run_options run_held compile_or_serve compile_spec
    configurer format_options_of compile_detected after_compiled run_compiled undetected_result
    undetected_findings spec_problem judge_spec prepare enabled_passes check_known contains
    delete_named resolve resolve_named index_of verdict verdict_loop judge merge_diagnostics
    merge_into holds run_passes round check_output check_document after_pass hold keeps_sources
    compatible_version all_equal first_outside_table in_table ℤ-discrete SourceInfo-discrete
    Diagnostic-discrete same_text detect_source detect_loop heard ask_compiler configured
    weigh_answer held_to_limit limit_of_source within_limit claim_by settle_claim unowned
    check_decline format_valid has_byte owner_of same_format compile_detection after_compile checked
    check morphic.Compilers.Contract.check_made check_sources check_paths check_first check_indexes
    table_names compiled_of handed format_text
run_source src = run_spec plain say 0 never (λ s. 7) (some engine) options src

abbrev last : SpecResult ℕ
last = record {
  result = record {
    document = some (record {
      version = ir_version;
      sources =
          record { format = codes "q@1"; path = b'/' ∷ []; hash = b'y' ∷ b'z' ∷ []; self_uri = [] }
          ∷ [];
      diagnostics = [];
      body = 4;
    });
    diagnostics = [];
    failed = false;
  };
  sources =
      record { format = codes "q@1"; path = b'/' ∷ []; hash = b'y' ∷ b'z' ∷ []; self_uri = [] }
      ∷ [];
  format = record { name = b'q' ∷ []; version = b'1' ∷ [] };
}

ran : run_spec plain say 0 never (λ s. 7) (some engine) options source ≡ ok last
unfolding run_source ℕ_discrete
ran = refl

unrecognized :
    run_source (record source { data_of = b'z' ∷ [] })
    ≡ ok (record {
      result = record {
        document = none;
        diagnostics = spec_problem code_unrecognized_format (codes "no") ∷ [];
        failed = true;
      };
      sources = record { format = []; path = b'/' ∷ []; hash = []; self_uri = [] } ∷ [];
      format = record { name = []; version = [] };
    })
unfolding run_source ℕ_discrete
unrecognized = refl

pathless : run_source (record source { path = [] }) ≡ err no_path
unfolding run_source
pathless = refl

abbrev plan : Plan ℕ ℕ ℕ
plan = record {
  enabled = record { name = codes "raise"; pass = raise } ∷ [];
  threshold = 2;
  held_to = some small;
}

prepared : prepare (some engine.engine) (run_options options) ≡ ok plan
unfolding run_source
prepared = refl

-- The run is verified, so the cache of the engine has no part in it.
no_part : takes_part engine options ≡ false
unfolding cacheable
no_part = refl

raise-LeavesInput : LeavesInput raise
raise-LeavesInput doc left next diags e = cc

run_spec-Told_example :
    Told plain (b'/' ∷ []) (b'y' ∷ b'z' ∷ []) last
    × (verdict 2 last.result.document last.result.diagnostics ≡ ok false)
run_spec-Told_example =
    run_spec-Told plain say 0 never (λ s. 7) engine both options plan source last both_registered
      prepared no_part (raise-LeavesInput, tt) ran
