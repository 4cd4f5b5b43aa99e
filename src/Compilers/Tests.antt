-- ===== src/Compilers/Tests.antt =====
-- compilers/compilers.go, compilers/contract.go: two compilers and what they make of a source.
use morphic.Base.{
  ℕ, ◌==◌, Bool, true, false, List, [], ◌∷◌, ◌++◌, Option, none, some, Result, ok, err, Bytes,
  codes, refl, ◌≡◌, same_text,
}
use morphic.Ir.Diagnostic.{SourceInfo, first_outside_table, merge_diagnostics}
use morphic.Engine.Stage.{ir_version, compatible_version}
use morphic.Compilers.{
  panicked, returned, SourceFormat, format_text, same_format, has_byte, format_valid, Source,
  Compiler, CompilerRegistry, new_compiler_registry, owner_of, check_formats, own_formats, enter,
  register_formats, register_compiler, register_all, RegisterError, taken_format, invalid_format,
  nil_compiler,
}
use morphic.Compilers.Owned.{WellFormed, register_all-WellFormed}
use morphic.Compilers.Detect.{
  Detection, DetectError, Configure, configured, limit_of_source, ask_compiler, within_limit,
  held_to_limit, settle_claim, unowned, claim_by, weigh_answer, heard, detect_loop, detect_source,
  check_decline, limit_loop, registry_limit, claimed_past_limit,
}
use morphic.Compilers.Detect.Taken.{Found}
use morphic.Compilers.Detect.Claimed.{detect_source-Found}
use morphic.Compilers.Contract.{
  Compiled, CompileError, check_indexes, check_paths, check_first, check_sources, table_names,
  check_made, check, handed, compiled_of, checked, after_compile, compile_detection, broke,
  hash_misread,
}
use morphic.Compilers.Contract.Met.{Met, compile_detection-Met}

abbrev format_of : Bytes → SourceFormat
format_of name = record { name = name; version = b'1' ∷ [] }

abbrev opens_with : ℕ → Bytes → Bool
opens_with b [] = false
opens_with b (c ∷ s) = b == c

-- The hash of these tests.
abbrev pub plain : Bytes → Bytes
plain data_of = data_of

abbrev table_of : Bytes → List (Source ℕ) → List SourceInfo
table_of name [] = []
table_of name (s ∷ sources) =
    record { format = name ++ codes "@1"; path = s.path; hash = s.data_of; self_uri = [] } ∷ []

-- A compiler of one format, which claims the sources of a first byte and up to a limit.
abbrev pub toy : Bytes → ℕ → ℕ → Compiler ℕ ℕ ℕ ℕ
toy name first limit = record {
  formats = returned (format_of name ∷ []);
  detect = λ src opts.
      returned
        (record { format = format_of name; parsed = some 5 }, [], opens_with first src.data_of);
  decode_options = λ settings. panicked;
  source_limit = λ opts. returned limit;
  compile = λ sources opts. returned (
    some (record {
      version = ir_version;
      sources = table_of name sources;
      diagnostics = [];
      body = 3;
    }),
    [],
    none,
  );
  source_table = λ sources opts. returned (table_of name sources);
}

abbrev pub both : List (Option (Compiler ℕ ℕ ℕ ℕ))
both = some (toy (b'p' ∷ []) b'x' 0) ∷ some (toy (b'q' ∷ []) b'y' 9) ∷ []

abbrev pub registry : CompilerRegistry ℕ ℕ ℕ ℕ
registry = record {
  by_format = (format_of (b'q' ∷ []), 1) ∷ (format_of (b'p' ∷ []), 0) ∷ [];
  ordered =
      record { compiler = toy (b'p' ∷ []) b'x' 0; formats = format_of (b'p' ∷ []) ∷ [] }
      ∷ record { compiler = toy (b'q' ∷ []) b'y' 9; formats = format_of (b'q' ∷ []) ∷ [] }
      ∷ [];
}

pub both_registered : register_all new_compiler_registry both ≡ ok registry
unfolding register_all register_compiler register_formats check_formats enter own_formats owner_of
    format_valid has_byte same_format same_text new_compiler_registry
both_registered = refl

run_register : List (Option (Compiler ℕ ℕ ℕ ℕ)) → Result RegisterError (CompilerRegistry ℕ ℕ ℕ ℕ)
unfolding register_all register_compiler register_formats check_formats enter own_formats owner_of
    format_valid has_byte same_format same_text new_compiler_registry
run_register cs = register_all new_compiler_registry cs

taken_refused :
    run_register (some (toy (b'p' ∷ []) b'x' 0) ∷ some (toy (b'p' ∷ []) b'y' 0) ∷ [])
    ≡ err (taken_format (format_of (b'p' ∷ [])))
unfolding run_register
taken_refused = refl

nameless_refused :
    run_register (some (toy (b'@' ∷ []) b'x' 0) ∷ []) ≡ err (invalid_format (format_of (b'@' ∷ [])))
unfolding run_register
nameless_refused = refl

nil_refused : run_register (none ∷ []) ≡ err nil_compiler
unfolding run_register
nil_refused = refl

abbrev pub plainly : Configure ℕ ℕ ℕ ℕ
plainly c = returned (ok (record { format_options = some 2; reader = some 7 }))

abbrev pub source : Source ℕ
source = record { path = b'/' ∷ []; data_of = b'y' ∷ b'z' ∷ []; parsed = none }

abbrev never : ℕ → Bool
never k = false

run_detect : Source ℕ → Result (DetectError ℕ) (Detection ℕ ℕ ℕ ℕ × Bool × ℕ)
unfolding detect_source detect_loop heard ask_compiler configured weigh_answer held_to_limit
    limit_of_source within_limit claim_by settle_claim unowned check_decline format_valid has_byte
    owner_of same_format same_text
run_detect src = detect_source never plainly registry src 0

abbrev detection : Detection ℕ ℕ ℕ ℕ
detection = record {
  source = source;
  compiler = some (toy (b'q' ∷ []) b'y' 9);
  recognition = record { format = format_of (b'q' ∷ []); parsed = some 5 };
  options = record { format_options = some 2; reader = some 7 };
  declined = [];
}

detected : detect_source never plainly registry source 0 ≡ ok (detection, true, 4)
unfolding run_detect
detected = refl

past_limit :
    run_detect (record source { data_of = b'y' ∷ codes "0123456789" }) ≡ err (claimed_past_limit 9)
unfolding run_detect
past_limit = refl

limit_none : registry_limit plainly registry ≡ ok 0
unfolding registry_limit limit_loop configured limit_of_source
limit_none = refl

abbrev out : Compiled ℕ
out = record {
  document = some (record {
    version = ir_version;
    sources = table_of (b'q' ∷ []) (source ∷ []);
    diagnostics = [];
    body = 3;
  });
  diagnostics = [];
  sources = table_of (b'q' ∷ []) (source ∷ []);
}

run_compile : (Bytes → Bytes) → Detection ℕ ℕ ℕ ℕ → Result (CompileError ℕ) (Compiled ℕ)
unfolding compile_detection after_compile checked check check_made check_sources check_paths
    check_first check_indexes table_names compiled_of handed compatible_version first_outside_table
    format_text merge_diagnostics same_text
run_compile hash d = compile_detection hash false d

did_compile : compile_detection plain false detection ≡ ok out
unfolding run_compile
did_compile = refl

hash_refused :
    run_compile (λ data_of. b'0' ∷ data_of) detection
    ≡ err (broke (hash_misread (b'y' ∷ b'z' ∷ [])))
unfolding run_compile
hash_refused = refl

register_all-WellFormed_example : WellFormed registry
register_all-WellFormed_example = register_all-WellFormed both registry both_registered

detect_source-Found_example : Found never plainly registry source detection true
detect_source-Found_example =
    detect_source-Found never plainly registry source
      (register_all-WellFormed both registry both_registered) 0 detection true 4 detected

compile_detection-Met_example : Met plain detection out
compile_detection-Met_example = compile_detection-Met plain false detection out did_compile
