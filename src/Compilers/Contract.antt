-- ===== src/Compilers/Contract.antt =====
-- compilers/contract.go: the compile of a detection, and what a compiler is held to.
-- The hash of a source is SHA-256, a parameter. The text of an error is left out, but what it names is kept.
pub mod Met
use morphic.Base.{
  ℕ, zero, suc, ◌+◌, Bool, true, false, not, ◌&&◌, ◌||◌, List, [], ◌∷◌, Option, none, some, Bytes,
  Result, ok, err, ◌>>=◌, if◌then◌else◌, leb, ltb, length, same_text, ◌<◌,
}
use morphic.Ir.Diagnostic.{
  Diagnostic, SourceInfo, first_error, first_outside_table, merge_diagnostics,
}
use morphic.Engine.Stage.{Document, compatible_version}
use morphic.Compilers.{
  Call, panicked, returned, SourceFormat, format_text, Source, Recognition, Options, Output,
  Compiler,
}
use morphic.Compilers.Detect.{Detection}

-- `Compiled`.
pub record Compiled (B : Type 0) : Type 0 where
  pub document : Option (Document B)
  pub diagnostics : List Diagnostic
  pub sources : List SourceInfo

-- What `check` finds unmet.
pub data Broken : Type 0 where
  table_misnamed unexplained_refusal sources_missing : Broken
  outside_table : Diagnostic → Broken
  incompatible : Bytes → Broken
  source_moved : Bytes → Broken
  format_misread hash_misread : Bytes → Broken

pub data CompileError (E : Type 0) : Type 0 where
  no_compiler compile_stopped compile_panicked table_panicked : CompileError E
  refused : E → CompileError E
  broke : Broken → CompileError E

-- `checkIndexes`.
unfoldable pub check_indexes : List Diagnostic → ℕ → Option Broken
check_indexes diags n = elim (first_outside_table diags n) [
  | none ↦ none
  | some d ↦ some (outside_table d)
]

-- The loop of `checkSources`, which the guard on the lengths keeps from the end of the first table.
unfoldable pub check_paths : List SourceInfo → List SourceInfo → Option Broken
check_paths got [] = none
check_paths [] (t ∷ table) = some sources_missing
check_paths (s ∷ got) (t ∷ table) =
    let rest = check_paths got table in
    if same_text s.path t.path then rest else some (source_moved s.path)

-- The first source of a document, against what was compiled.
unfoldable pub check_first :
    (Bytes → Bytes) → List SourceInfo → Bytes → SourceFormat → Option Broken
check_first hash [] data_of format = some sources_missing
check_first hash (s ∷ got) data_of format =
    if not (same_text s.format (format_text format))
    then some (format_misread s.format)
    else if not (same_text s.hash (hash data_of))
    then some (hash_misread s.hash)
    else none

unfoldable pub check_sources :
    (Bytes → Bytes) → List SourceInfo → List SourceInfo → Bytes → SourceFormat → Option Broken
check_sources hash got table data_of format =
    if ltb (length got) (length table) then some sources_missing else elim (check_paths got table) [
      | some e ↦ some e
      | none ↦ check_first hash got data_of format
    ]

-- The table that a compiler gives for its sources opens with the source that was compiled.
unfoldable pub table_names : List SourceInfo → Bytes → Bool
table_names [] path = false
table_names (t ∷ table) path = same_text t.path path

-- A refusal says why.
unfoldable pub check_refusal : List Diagnostic → ℕ → Option Broken
check_refusal diags n = elim (first_error diags) [
  | none ↦ some unexplained_refusal
  | some stated ↦ check_indexes diags n
]

unfoldable pub check_made :
    {B : Type 0}
    → (Bytes → Bytes)
    → Document B
    → List Diagnostic
    → List SourceInfo
    → Bytes
    → SourceFormat
    → Option Broken
check_made hash doc diags table data_of format =
    if not (compatible_version doc.version)
    then some (incompatible doc.version)
    else elim (check_sources hash doc.sources table data_of format) [
      | some e ↦ some e
      | none ↦ elim (check_indexes doc.diagnostics (length doc.sources)) [
        | some e ↦ some e
        | none ↦ check_indexes diags (length doc.sources)
      ]
    ]

-- What a compile that is checked comes to.
unfoldable pub compiled_of :
    {B : Type 0} → Option (Document B) → List Diagnostic → List SourceInfo → Compiled B
compiled_of none diags table = record { document = none; diagnostics = diags; sources = table }
compiled_of (some doc) diags table = record {
  document = some doc;
  diagnostics = merge_diagnostics doc.diagnostics diags;
  sources = doc.sources;
}

-- The source that the compiler is handed.
unfoldable pub handed : {A R B E : Type 0} → Detection A R B E → List (Source A)
handed d = record d.source { parsed = d.recognition.parsed } ∷ []

module _ {A R B E : Type 0} (hash : Bytes → Bytes) where
  -- `Detection.check`.
  unfoldable pub check :
      Detection A R B E → Option (Document B) → List Diagnostic → List SourceInfo → Option Broken
  check d doc diags table =
      if not (table_names table d.source.path) then some table_misnamed else elim doc [
        | none ↦ check_refusal diags (length table)
        | some out ↦ check_made hash out diags table d.source.data_of d.recognition.format
      ]

  unfoldable pub checked :
      Detection A R B E
      → Option (Document B)
      → List Diagnostic
      → List SourceInfo
      → Result (CompileError E) (Compiled B)
  checked d doc diags table = elim (check d doc diags table) [
    | some e ↦ err (broke e)
    | none ↦ ok (compiled_of doc diags table)
  ]

  -- What follows the call of `Compile`; `stopped` is the answer of the context behind it.
  unfoldable pub after_compile :
      Bool
      → Detection A R B E
      → Compiler A R B E
      → Output B E
      → Result (CompileError E) (Compiled B)
  after_compile stopped d c (doc, diags, failed) =
      if stopped then err compile_stopped else elim failed [
        | some e ↦ err (refused e)
        | none ↦ elim (c.source_table (handed d) d.options) [
          | panicked ↦ err table_panicked
          | returned table ↦ checked d doc diags table
        ]
      ]

  -- `Detection.Compile`.
  unfoldable pub compile_detection : Bool → Detection A R B E → Result (CompileError E) (Compiled B)
  compile_detection stopped d = elim d.compiler [
    | none ↦ err no_compiler
    | some c ↦ elim (c.compile (handed d) d.options) [
      | panicked ↦ err compile_panicked
      | returned out ↦ after_compile stopped d c out
    ]
  ]
