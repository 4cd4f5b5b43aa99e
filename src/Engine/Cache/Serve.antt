-- ===== src/Engine/Cache/Serve.antt =====
-- engine/cache.go: a run that answers from the cache, or compiles and keeps what it made.
-- The store is a parameter: what it answers, and the store that it is after it was written to; a panic
-- in it is an answer like an error. So are SHA-256 and the JSON of documents and of heads. The text of an
-- error is left out.
pub mod Uncached
pub mod Kept
use morphic.Base.{
  ℕ, zero, suc, Bool, true, false, not, ◌&&◌, ◌||◌, List, [], ◌∷◌, ◌++◌, Option, none, some, Bytes,
  if◌then◌else◌, Result, ok, err,
}
use morphic.Ir.BigVal.{is_nil}
use morphic.Engine.Cache.Entry.{EntryError, document_unread, decode_entry, encode_entry}
use morphic.Engine.Cache.Reads.{
  Request, Compile, done, ask, Recorder, new_recorder, run_recorded, settled_reads, reads_unchanged,
}

pub data CacheError : Type 0 where
  no_directory load_failed store_failed : CacheError
  entry_failed : EntryError → CacheError

-- The errors of a binding that no run can use.
pub data BindingError : Type 0 where
  nil_store no_build : BindingError

-- `check`, from whether there is a store and from the build.
unfoldable pub check_binding : Bool → Bytes → Option BindingError
check_binding false build = some nil_store
check_binding true build = if is_nil build then some no_build else none

-- `cacheable`, from whether the run verifies and whether it has options of a format.
unfoldable pub cacheable : Bool → Bool → Bool
cacheable verify has_format_options = not verify && not has_format_options

pub record Head : Type 0 where
  pub format : Bytes
  pub reads : List (Request × Bytes)

-- A result, with what the cache had to say; the findings and the sources are parameters.
pub record CompileResult (D F S : Type 0) : Type 0 where
  pub document : Option D
  pub diagnostics : F
  pub sources : S
  pub format : Bytes
  pub cache_errors : List CacheError

pub data Loaded : Type 0 where
  held : Bytes → Loaded
  absent unloaded : Loaded

pub record Binding (St D F S : Type 0) : Type 0 where
  pub sha : Bytes → Bytes
  pub load : St → Bytes → Loaded
  pub save : St → Bytes → Bytes → St × Bool
  pub marshal_document : D → Option Bytes
  pub unmarshal_document : Bytes → Option D
  pub marshal_head : Head → Option Bytes
  pub unmarshal_head : Bytes → Option Head
  pub diagnostics_of : D → F
  pub sources_of : D → S

pub data Fetched (D F S : Type 0) : Type 0 where
  hit : CompileResult D F S → Fetched D F S
  miss : List CacheError → Fetched D F S

pub data RunError (E : Type 0) : Type 0 where
  compile_failed : E → RunError E
  stopped_after_cache : RunError E

-- A compile whose reader answers each read anew.
unfoldable pub run_timed : {R : Type 0} → (ℕ → Request → Option Bytes) → ℕ → Compile R → R
run_timed docs n (done result) = result
run_timed docs n (ask q go) = run_timed docs (suc n) (go (docs n q))

module _ {St D F S : Type 0} (b : Binding St D F S) where
  -- What `fetch` makes of the document of an entry.
  unfoldable pub answer_document : Head → Option D → Fetched D F S
  answer_document head none = miss (entry_failed document_unread ∷ [])
  answer_document head (some d) = hit (record {
    document = some d;
    diagnostics = b.diagnostics_of d;
    sources = b.sources_of d;
    format = head.format;
    cache_errors = [];
  })

  unfoldable pub answer_entry :
      (Request → Option Bytes) → Result EntryError (Head × Bytes) → Fetched D F S
  answer_entry now (err e) = miss (entry_failed e ∷ [])
  answer_entry now (ok (head, body)) =
      if reads_unchanged b.sha now head.reads
      then answer_document head (b.unmarshal_document body)
      else miss []

  unfoldable pub fetch : St → Bytes → (Request → Option Bytes) → Fetched D F S
  fetch st key now = elim (b.load st key) [
    | unloaded ↦ miss (load_failed ∷ [])
    | absent ↦ miss []
    | held entry ↦ answer_entry now (decode_entry b.sha b.unmarshal_head key entry)
  ]

  unfoldable pub save_entry : St → Bytes → Result EntryError Bytes → St × List CacheError
  save_entry st key (err e) = (st, entry_failed e ∷ [])
  save_entry st key (ok entry) =
      let (after, failed) = b.save st key entry in (after, if failed then store_failed ∷ [] else [])

  unfoldable pub keep : St → Bytes → CompileResult D F S → Recorder → St × List CacheError
  keep st key res r = elim res.document [
    | none ↦ (st, [])
    | some d ↦
        let (listed, sound) = settled_reads r in
        let head : Head = record { format = res.format; reads = listed } in
        if sound
        then save_entry st key (encode_entry b.sha b.marshal_document b.marshal_head key d head)
        else (st, [])
  ]

abbrev pub Outcome : Type 0 → Type 0 → Type 0 → Type 0 → Type 0
Outcome E D F S = Result (RunError E) (CompileResult D F S)

-- A compile's own outcome.
abbrev pub uncached : {E D F S : Type 0} → Result E (CompileResult D F S) → Outcome E D F S
uncached (ok res) = ok res
uncached (err e) = err (compile_failed e)

-- A compile's outcome, with what the cache had to say.
abbrev pub noting :
    {E D F S : Type 0} → List CacheError → Result E (CompileResult D F S) → Outcome E D F S
noting errors (ok res) = ok (record res { cache_errors = errors })
noting errors (err e) = err (compile_failed e)

module _ {St D F S E : Type 0} where
  -- What follows a miss: the compile is recorded, and kept if it comes to a result.
  unfoldable pub kept_run :
      Binding St D F S
      → St
      → Bytes
      → List CacheError
      → Result E (CompileResult D F S) × Recorder
      → Outcome E D F S × St
  kept_run b st key looked (err e, r) = (err (compile_failed e), st)
  kept_run b st key looked (ok res, r) =
      let (after, errors) = keep b st key res r in
      (ok (record res { cache_errors = looked ++ errors }), after)

  unfoldable pub after_fetch :
      Binding St D F S
      → Bool
      → St
      → Bytes
      → (ℕ → Request → Option Bytes)
      → Compile (Result E (CompileResult D F S))
      → Fetched D F S
      → Outcome E D F S × St
  after_fetch b stopped st key docs c (hit res) =
      (if stopped then err stopped_after_cache else ok res, st)
  after_fetch b stopped st key docs c (miss looked) =
      kept_run b st key looked (run_recorded b.sha docs 0 c new_recorder)

  -- `compileCached`: `key` is none where the working directory is not known, `now` answers the reads
  -- that the cache checks, and `docs` those of a compile after them.
  unfoldable pub compile_cached :
      Option (Binding St D F S)
      → Bool
      → Option Bytes
      → Bool
      → St
      → (Request → Option Bytes)
      → (ℕ → Request → Option Bytes)
      → Compile (Result E (CompileResult D F S))
      → Outcome E D F S × St
  compile_cached none allowed key stopped st now docs c = (uncached (run_timed docs 0 c), st)
  compile_cached (some b) false key stopped st now docs c = (uncached (run_timed docs 0 c), st)
  compile_cached (some b) true none stopped st now docs c =
      (noting (no_directory ∷ []) (run_timed docs 0 c), st)
  compile_cached (some b) true (some key) stopped st now docs c =
      after_fetch b stopped st key docs c (fetch b st key now)
