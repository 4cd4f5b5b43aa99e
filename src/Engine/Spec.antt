-- ===== src/Engine/Spec.antt =====
-- engine/engine.go: the runs that compile a spec: its detection, its compile, the passes and the verdict.
-- What the cache of an engine does with a run that takes part in it is a function here, `serve`, since
-- Engine/Cache/Serve models it over the reads of a compile; a run that takes no part compiles. The hash of
-- a source, the readers, the reading of a file and the sentences of a finding are parameters. The questions
-- put to the context are counted through a run, as in Engine/Stage.
pub mod Told
pub mod Answered
mod Tests
use morphic.Base.{
  ℕ, zero, suc, ◌+◌, Bool, true, false, not, ◌&&◌, List, [], ◌∷◌, Option, none, some, Bytes, codes,
  Table, Result, ok, err, ◌>>=◌, if◌then◌else◌, length,
}
use morphic.Base.Int.{pos}
use morphic.Ir.BigVal.{is_nil}
use morphic.Ir.Diagnostic.{Diagnostic, SourceInfo, severity_error, merge_diagnostics}
use morphic.Engine.Verdict.{VerdictError, RunResult, judge}
use morphic.Engine.Stage.{Document, StageError, hold, run_passes}
use morphic.Engine.Whole.{
  RunOptions, Engine, Plan, RunFailure, uninitialized, prepare, map_err, with_findings,
}
use morphic.Engine.Cache.Serve.{cacheable}
use morphic.Compilers.{
  Call, panicked, returned, SourceFormat, Source, Options, Compiler, CompilerRegistry,
}
use morphic.Compilers.Detect.{Detection, DetectError, Configure, detect_source, registry_limit}
use morphic.Compilers.Contract.{Compiled, CompileError, compile_detection}

-- `RunOptions`, with what it holds for the compilers.
pub record SpecOptions (A : Type 0) : Type 0 where
  pub fail_on : Bytes
  pub disable_passes : List Bytes
  pub verify : Bool
  pub given : Option A
  pub settings : Table Bytes

abbrev pub is_given {ℓ} : {A : Type ℓ} → Option A → Bool
is_given none = false
is_given (some a) = true

abbrev has_settings : Table Bytes → Bool
has_settings [] = false
has_settings (s ∷ settings) = true

-- What the preparation of a run reads.
unfoldable pub run_options : {A : Type 0} → SpecOptions A → RunOptions
run_options opts = record {
  fail_on = opts.fail_on;
  disable_passes = opts.disable_passes;
  verify = opts.verify;
  has_format_options = is_given opts.given;
  has_compiler_options = has_settings opts.settings;
}

-- `Result`, of which the verdict reads the first part.
pub record SpecResult (B : Type 0) : Type 0 where
  pub result : RunResult (Document B)
  pub sources : List SourceInfo
  pub format : SourceFormat

pub data SpecFailure (V E : Type 0) : Type 0 where
  not_prepared : RunFailure V → SpecFailure V E
  no_path no_sources unreadable : SpecFailure V E
  not_detected : DetectError E → SpecFailure V E
  not_compiled : CompileError E → SpecFailure V E
  violates : List V → SpecFailure V E
  stage_failed : StageError V → SpecFailure V E
  not_judged : VerdictError → SpecFailure V E

-- What a cache makes of a run that takes part in it: from the options, the
-- plan, the questions put, the reader, the source, and the compile, which it may hand another reader.
pub record SpecCache (A R B E V F : Type 0) : Type 0 where
  pub serve :
      SpecOptions A
      → Plan B V F
      → ℕ
      → R
      → Source A
      → (R → Result (SpecFailure V E) (SpecResult B))
      → Result (SpecFailure V E) (SpecResult B)

pub record SpecEngine (A R B E V F : Type 0) : Type 0 where
  pub engine : Engine B V F
  pub registry : CompilerRegistry A R B E
  pub cache : Option (SpecCache A R B E V F)

abbrev pub code_unrecognized_format : Bytes
code_unrecognized_format = codes "engine/unrecognized-format"

abbrev pub code_no_compiler_for_format : Bytes
code_no_compiler_for_format = codes "engine/no-compiler-for-format"

-- `specProblem`, with its message.
unfoldable pub spec_problem : Bytes → Bytes → Diagnostic
spec_problem code message = record {
  severity = severity_error;
  code = code;
  message = message;
  provenance = record {
    source = pos 0;
    pointer = [];
    position = record { line = pos 0; column = pos 0 };
    node = [];
    inferred = [];
  };
}

-- `undetected`; `say` is the sentence on a format that no compiler serves, or on one nobody recognizes.
unfoldable pub undetected_findings :
    (Option SourceFormat → Bytes) → SourceFormat → List Diagnostic → List Diagnostic
undetected_findings say format declined =
    if not (is_nil format.name)
    then spec_problem code_no_compiler_for_format (say (some format)) ∷ []
    else elim declined [
      | [] ↦ spec_problem code_unrecognized_format (say none) ∷ []
      | d ∷ ds ↦ d ∷ ds
    ]

-- `formatOptions`: a call of the compiler where there are settings to decode.
unfoldable pub format_options_of :
    {A R B E : Type 0} → SpecOptions A → Compiler A R B E → Call (Result E (Option A))
format_options_of opts c = elim opts.settings [
  | [] ↦ returned (ok opts.given)
  | s ∷ settings ↦ c.decode_options (s ∷ settings)
]

-- `configurer`.
unfoldable pub configurer : {A R B E : Type 0} → SpecOptions A → R → Configure A R B E
configurer opts docs c = elim (format_options_of opts c) [
  | panicked ↦ panicked
  | returned (err e) ↦ returned (err e)
  | returned (ok o) ↦ returned (ok (record { format_options = o; reader = some docs }))
]

-- The result where no compiler takes the source.
unfoldable pub undetected_result :
    {A R B E : Type 0} → (Option SourceFormat → Bytes) → Detection A R B E → Bytes → SpecResult B
undetected_result say d path = record {
  result = record {
    document = none;
    diagnostics = undetected_findings say d.recognition.format d.declined;
    failed = false;
  };
  sources = record { format = []; path = path; hash = []; self_uri = [] } ∷ [];
  format = d.recognition.format;
}

module _ {B E V F : Type 0} (zero_sum : F) (ctx : ℕ → Bool) where
  -- The passes of a plan over a document that was compiled, `k` questions having been put.
  unfoldable pub run_compiled :
      Plan B V F
      → SourceFormat
      → ℕ
      → Document B
      → List Diagnostic
      → Result (SpecFailure V E) (SpecResult B)
  run_compiled p format k doc diags = map_err violates (hold zero_sum ctx p.held_to doc) >>= λ sum.
      map_err stage_failed (run_passes zero_sum ctx p.held_to k p.enabled doc sum []) >>= λ ran.
      ok (record {
        result = record {
          document = some (with_findings ran.0 (merge_diagnostics diags ran.1));
          diagnostics = merge_diagnostics diags ran.1;
          failed = false;
        };
        sources = ran.0.sources;
        format = format;
      })

  unfoldable pub after_compiled :
      Plan B V F → SourceFormat → ℕ → Compiled B → Result (SpecFailure V E) (SpecResult B)
  after_compiled p format k out = elim out.document [
    | some doc ↦ run_compiled p format k doc out.diagnostics
    | none ↦ ok (record {
      result = record { document = none; diagnostics = out.diagnostics; failed = false };
      sources = out.sources;
      format = format;
    })
  ]

module _ {B E V F : Type 0} where
  unfoldable pub judge_spec : Plan B V F → SpecResult B → Result (SpecFailure V E) (SpecResult B)
  judge_spec p res =
      map_err not_judged (judge p.threshold res.result) >>= λ j. ok (record res { result = j })

module _ {A R B E V F : Type 0} where
  -- Whether a run takes part in the cache of an engine.
  abbrev pub takes_part : SpecEngine A R B E V F → SpecOptions A → Bool
  takes_part e opts = is_given e.cache && cacheable opts.verify (is_given opts.given)

  unfoldable pub prepare_spec :
      Option (SpecEngine A R B E V F)
      → SpecOptions A
      → Result (SpecFailure V E) (SpecEngine A R B E V F × Plan B V F)
  prepare_spec none opts = err (not_prepared uninitialized)
  prepare_spec (some e) opts =
      map_err not_prepared (prepare (some e.engine) (run_options opts)) >>= λ p. ok (e, p)

abbrev pub spec_source : {A : Type 0} → Bytes → Bytes → Source A
spec_source path data_of = record { path = path; data_of = data_of; parsed = none }

module _ {A R B E V F : Type 0} (hash : Bytes → Bytes) (say : Option SourceFormat → Bytes)
    (zero_sum : F) (ctx : ℕ → Bool) where
  unfoldable pub compile_detected :
      Plan B V F → Bytes → Detection A R B E × Bool × ℕ → Result (SpecFailure V E) (SpecResult B)
  compile_detected p path (d, false, k) = ok (undetected_result say d path)
  compile_detected p path (d, true, k) =
      map_err not_compiled (compile_detection hash (ctx k) d)
      >>= after_compiled zero_sum ctx p d.recognition.format (k + 1)

  -- `Engine.compile`, `k` questions having been put.
  unfoldable pub compile_spec :
      Configure A R B E
      → CompilerRegistry A R B E
      → Plan B V F
      → ℕ
      → Source A
      → Result (SpecFailure V E) (SpecResult B)
  compile_spec configure r p k src =
      map_err not_detected (detect_source ctx configure r src k) >>= compile_detected p src.path

  -- `compileCached`: a run that takes no part in a cache compiles.
  unfoldable pub compile_or_serve :
      SpecOptions A
      → R
      → SpecEngine A R B E V F
      → Plan B V F
      → ℕ
      → Source A
      → Result (SpecFailure V E) (SpecResult B)
  compile_or_serve opts docs e p k src = elim e.cache [
    | none ↦ compile_spec (configurer opts docs) e.registry p k src
    | some cache ↦
        if cacheable opts.verify (is_given opts.given)
        then cache.serve opts p k docs src
            (λ reads. compile_spec (configurer opts reads) e.registry p k src)
        else compile_spec (configurer opts docs) e.registry p k src
  ]

  -- `runHeld`.
  unfoldable pub run_held :
      SpecOptions A
      → R
      → SpecEngine A R B E V F
      → Plan B V F
      → ℕ
      → Source A
      → Result (SpecFailure V E) (SpecResult B)
  run_held opts docs e p k src = compile_or_serve opts docs e p k src >>= judge_spec p

  -- `RunSpec`, whose reader holds the spec.
  unfoldable pub run_spec :
      (Source A → R)
      → Option (SpecEngine A R B E V F)
      → SpecOptions A
      → Source A
      → Result (SpecFailure V E) (SpecResult B)
  run_spec layered engine opts spec = prepare_spec engine opts >>= λ q. elim spec.path [
    | [] ↦ err no_path
    | c ∷ path ↦
        let src = spec_source (c ∷ path) spec.data_of in run_held opts (layered src) q.0 q.1 0 src
  ]

  -- `Run`: `read` reads a file up to a limit of bytes, putting one question and more to the context, so
  -- that `asks` of them were put.
  unfoldable pub run_spec_path :
      R
      → (Source A → R)
      → (Bytes → ℕ → Option Bytes)
      → ℕ
      → Option (SpecEngine A R B E V F)
      → SpecOptions A
      → Bytes
      → Result (SpecFailure V E) (SpecResult B)
  run_spec_path disk layered read asks engine opts path = prepare_spec engine opts >>= λ q.
      map_err not_detected (registry_limit (configurer opts disk) q.0.registry) >>= λ limit.
      elim (read path limit) [
        | none ↦ err unreadable
        | some data_of ↦
            let src = spec_source path data_of in run_held opts (layered src) q.0 q.1 asks src
      ]

  -- `RunSources`: the first source is compiled, and a memory, if the sources make one, reads the others.
  unfoldable pub run_sources :
      (List (Source A) → Option R)
      → Option (SpecEngine A R B E V F)
      → SpecOptions A
      → List (Source A)
      → Result (SpecFailure V E) (SpecResult B)
  run_sources memory engine opts sources = prepare_spec engine opts >>= λ q. elim sources [
    | [] ↦ err no_sources
    | spec ∷ others ↦ elim (memory (spec ∷ others)) [
      | none ↦ err unreadable
      | some docs ↦ run_held opts docs q.0 q.1 0 (spec_source spec.path spec.data_of)
    ]
  ]
