-- ===== src/Compilers/Contract/Met.antt =====
-- compilers/contract.go: what a compile that came to a result has met.
use morphic.Base.{
  ℕ, Bool, true, false, List, [], ◌∷◌, Option, none, some, Bytes, ok, ltb, length, same_text,
  same_text-eq, ◌≡◌, ◌⊎◌, inl, inr, refl, ◌∙◌, Bool-cases, Option-cases,
}
use morphic.Ir.Diagnostic.{
  Diagnostic, SourceInfo, first_error, has_error, first_outside_table, merge_diagnostics,
}
use morphic.Engine.Stage.{Document, compatible_version}
use morphic.Engine.Whole.Sound.{outside_merge}
use morphic.Compilers.{SourceFormat, format_text, Compiler}
use morphic.Compilers.Owned.{Call-cases}
use morphic.Compilers.Detect.{Detection}
use morphic.Compilers.Contract.{
  Compiled, check_indexes, check_paths, check_first, check_sources, table_names, check_refusal,
  check_made, check, handed, compiled_of, checked, after_compile, compile_detection,
}

-- A table of sources that opens with a source of a path.
pub record Opens (sources : List SourceInfo) (path : Bytes) : Type 0 where
  pub first : SourceInfo
  pub rest : List SourceInfo
  pub begins : sources ≡ first ∷ rest
  pub named : first.path ≡ path

table_names-Opens :
    (table : List SourceInfo) (path : Bytes) → table_names table path ≡ true → Opens table path
unfolding table_names
table_names-Opens [] path h = absurd cc
table_names-Opens (t ∷ table) path h = record {
  first = t;
  rest = table;
  begins = refl;
  named = same_text-eq t.path path h;
}

check_indexes-none :
    (diags : List Diagnostic) (n : ℕ)
    → check_indexes diags n ≡ none
    → first_outside_table diags n ≡ none
unfolding check_indexes
check_indexes-none diags n h = elim (Option-cases (first_outside_table diags n)) [
  | inl e ↦ e
  | inr (d, e) ↦ absurd (cc (rw (check_indexes, e) at h))
]

-- A refusal that stands states an error, and its findings index the table.
check_refusal-none :
    (diags : List Diagnostic) (n : ℕ)
    → check_refusal diags n ≡ none
    → (has_error diags ≡ true) × (first_outside_table diags n ≡ none)
unfolding check_refusal has_error
check_refusal-none diags n h = elim (Option-cases (first_error diags)) [
  | inl e ↦ absurd (cc (rw (check_refusal, e) at h))
  | inr (s, e) ↦ (rw (has_error, e) refl, check_indexes-none diags n (rw (check_refusal, e) at h))
]

check_paths-Opens :
    (got table : List SourceInfo) (path : Bytes)
    → check_paths got table ≡ none
    → table_names table path ≡ true
    → Opens got path
unfolding check_paths table_names
check_paths-Opens got [] path h k = absurd cc
check_paths-Opens [] (t ∷ table) path h k = absurd cc
check_paths-Opens (s ∷ got) (t ∷ table) path h k = elim (Bool-cases (same_text s.path t.path)) [
  | inr e ↦ absurd (cc (rw (check_paths, e) at h))
  | inl e ↦ record {
    first = s;
    rest = got;
    begins = refl;
    named = same_text-eq s.path t.path e ∙ same_text-eq t.path path k;
  }
]

-- A table whose first source was read in a format and has the hash of some bytes.
abbrev pub Reads : (Bytes → Bytes) → List SourceInfo → Bytes → SourceFormat → Type 0
Reads hash [] data_of format = ⊥
Reads hash (s ∷ sources) data_of format = (s.format ≡ format_text format) × (s.hash ≡ hash data_of)

check_first-Reads :
    (hash : Bytes → Bytes) (got : List SourceInfo) (data_of : Bytes) (format : SourceFormat)
    → check_first hash got data_of format ≡ none
    → Reads hash got data_of format
unfolding check_first
check_first-Reads hash [] data_of format h = absurd cc
check_first-Reads hash (s ∷ got) data_of format h =
    elim (Bool-cases (same_text s.format (format_text format))) [
      | inr e ↦ absurd (cc (rw (check_first, e) at h))
      | inl e ↦ elim (Bool-cases (same_text s.hash (hash data_of))) [
        | inr f ↦ absurd (cc (rw (check_first, e, f) at h))
        | inl f ↦
            (same_text-eq s.format (format_text format) e, same_text-eq s.hash (hash data_of) f)
      ]
    ]

check_sources-none :
    (hash : Bytes → Bytes) (got table : List SourceInfo) (path data_of : Bytes)
    (format : SourceFormat)
    → check_sources hash got table data_of format ≡ none
    → table_names table path ≡ true
    → Opens got path × Reads hash got data_of format
unfolding check_sources
check_sources-none hash got table path data_of format h k =
    elim (Bool-cases (ltb (length got) (length table))) [
      | inl e ↦ absurd (cc (rw (check_sources, e) at h))
      | inr e ↦ elim (Option-cases (check_paths got table)) [
        | inr (x, f) ↦ absurd (cc (rw (check_sources, e, f) at h))
        | inl f ↦ (
          check_paths-Opens got table path f k,
          check_first-Reads hash got data_of format (rw (check_sources, e, f) at h),
        )
      ]
    ]

-- A document that stands: this build reads its version, its table opens with what was compiled, and its
-- own findings and the compiler's index the table.
check_made-none :
    {B : Type 0} (hash : Bytes → Bytes) (doc : Document B) (diags : List Diagnostic)
    (table : List SourceInfo) (path data_of : Bytes) (format : SourceFormat)
    → check_made hash doc diags table data_of format ≡ none
    → table_names table path ≡ true
    → (compatible_version doc.version ≡ true)
      × (Opens doc.sources path × Reads hash doc.sources data_of format)
      × (first_outside_table (merge_diagnostics doc.diagnostics diags) (length doc.sources) ≡ none)
unfolding check_made
check_made-none hash doc diags table path data_of format h k =
    elim (Bool-cases (compatible_version doc.version)) [
      | inr e ↦ absurd (cc (rw (check_made, e) at h))
      | inl e ↦ elim (Option-cases (check_sources hash doc.sources table data_of format)) [
        | inr (x, f) ↦ absurd (cc (rw (check_made, e, f) at h))
        | inl f ↦ elim (Option-cases (check_indexes doc.diagnostics (length doc.sources))) [
          | inr (x, g) ↦ absurd (cc (rw (check_made, e, f, g) at h))
          | inl g ↦ (
            e,
            check_sources-none hash doc.sources table path data_of format f k,
            outside_merge doc.diagnostics diags (length doc.sources)
                (check_indexes-none doc.diagnostics (length doc.sources) g)
                (check_indexes-none diags (length doc.sources) (rw (check_made, e, f, g) at h)),
          )
        ]
      ]
    ]

-- What is asked of the documents and the refusals of a compiler.
pub record Standing {B : Type 0} (hash : Bytes → Bytes) (format : SourceFormat) (data_of : Bytes)
    (doc : Document B) (sources : List SourceInfo) : Type 0 where
  pub version : compatible_version doc.version ≡ true
  pub tabled : sources ≡ doc.sources
  pub reads : Reads hash doc.sources data_of format

module _ {A R B E : Type 0} (hash : Bytes → Bytes) where
  -- What a compile came to: a table that opens with the source, findings that index it, and a document
  -- that reads that source or an error that says why there is none.
  pub record Met (d : Detection A R B E) (out : Compiled B) : Type 0 where
    pub opens : Opens out.sources d.source.path
    pub inside : first_outside_table out.diagnostics (length out.sources) ≡ none
    pub outcome :
        ((out.document ≡ none) × (has_error out.diagnostics ≡ true))
        ⊎ ((doc : Document B) × (out.document ≡ some doc)
            × Standing hash d.recognition.format d.source.data_of doc out.sources)

  checked-Met :
      (d : Detection A R B E) (doc : Option (Document B)) (diags : List Diagnostic)
      (table : List SourceInfo)
      → check hash d doc diags table ≡ none
      → Met d (compiled_of doc diags table)
  unfolding check compiled_of
  checked-Met d none diags table h = elim (Bool-cases (table_names table d.source.path)) [
    | inr e ↦ absurd (cc (rw (check, e) at h))
    | inl e ↦
        let (why, inside) = check_refusal-none diags (length table) (rw (check, e) at h) in
        record {
          opens = table_names-Opens table d.source.path e;
          inside = inside;
          outcome = inl (refl, why);
        }
  ]
  checked-Met d (some doc) diags table h = elim (Bool-cases (table_names table d.source.path)) [
    | inr e ↦ absurd (cc (rw (check, e) at h))
    | inl e ↦
        let (version, (opens, reads), inside) =
          check_made-none hash doc diags table d.source.path d.source.data_of d.recognition.format
            (rw (check, e) at h) e in
        record {
          opens = opens;
          inside = inside;
          outcome = inr (doc, refl, record { version = version; tabled = refl; reads = reads });
        }
  ]

  after_compile-Met :
      (stopped : Bool) (d : Detection A R B E) (c : Compiler A R B E) (doc : Option (Document B))
      (diags : List Diagnostic) (failed : Option E) (out : Compiled B)
      → after_compile hash stopped d c (doc, diags, failed) ≡ ok out
      → Met d out
  unfolding after_compile checked
  after_compile-Met true d c doc diags failed out h = absurd cc
  after_compile-Met false d c doc diags (some e) out h = absurd cc
  after_compile-Met false d c doc diags none out h =
      elim (Call-cases (c.source_table (handed d) d.options)) [
        | inl k ↦ absurd (cc (rw (after_compile, k) at h))
        | inr (table, k) ↦ elim (Option-cases (check hash d doc diags table)) [
          | inr (x, f) ↦ absurd (cc (rw (after_compile, k, checked, f) at h))
          | inl f ↦
              let same : compiled_of doc diags table ≡ out =
                cc (rw (after_compile, k, checked, f) at h) in
              rw (← same) (checked-Met d doc diags table f)
        ]
      ]

  -- A compile of a detection that comes to a result has met the contract: the table that it answers opens
  -- with the source, its findings index the table, and there is a document of a version that this build
  -- reads, whose table that is, with the format and the hash of the source, or an error that says why there
  -- is no document.
  pub compile_detection-Met :
      (stopped : Bool) (d : Detection A R B E) (out : Compiled B)
      → compile_detection hash stopped d ≡ ok out
      → Met d out
  unfolding compile_detection
  compile_detection-Met stopped d out h = elim (Option-cases d.compiler) [
    | inl e ↦ absurd (cc (rw (compile_detection, e) at h))
    | inr (c, e) ↦ elim (Call-cases (c.compile (handed d) d.options)) [
      | inl k ↦ absurd (cc (rw (compile_detection, e, k) at h))
      | inr ((doc, diags, failed), k) ↦
          after_compile-Met stopped d c doc diags failed out (rw (compile_detection, e, k) at h)
    ]
  ]
