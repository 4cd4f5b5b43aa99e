-- ===== src/Engine/Cache/Tests.antt =====
-- Runs of the engine's cache, and its theorems at a store in memory and a compile of one read.
use morphic.Base.{
  ℕ, Bool, true, false, ◌&&◌, ltb, length, List, [], ◌∷◌, Option, none, some, Bytes, Table, codes,
  find, same_text, compare_text, Result, ok, err, ◌≡◌, refl, All, arith,
}
use morphic.Base.Format.{hex_digit, hex_encode, format_nat}
use morphic.Ir.Ids.Parts.{lacks}
use morphic.Engine.Cache.Key.{
  KeyInputs, uvarint_bytes, uvarint, frame, insert_setting, sorted_settings, setting_fields,
  key_fields,
}
use morphic.Engine.Cache.Key.Framed.{Short}
use morphic.Engine.Cache.Key.Inputs.{key_fields_unique}
use morphic.Engine.Cache.Entry.{
  entry_separator, cut_line, seal_of, sealed, read_head, open_sealed, decode_entry, encode_entry,
}
use morphic.Engine.Cache.Reads.{
  Request, Compile, done, ask, source_hash, Recorder, new_recorder, same_request, find_read,
  drop_read, put_read, changed, record_read, run_recorded, run, insert_read, sorted_reads,
  settled_reads, reads_unchanged,
}
use morphic.Engine.Cache.Serve.{
  CompileResult, Loaded, held, absent, Binding, hit, miss, answer_document, answer_entry, fetch,
  save_entry, keep, run_timed, Outcome, kept_run, after_fetch, compile_cached,
}
use morphic.Engine.Cache.Serve.Uncached.{Answered, compile_cached-Answered}
use morphic.Engine.Cache.Serve.Kept.{result_of}

-- A stand-in of SHA-256 that keeps texts apart.
abbrev plain : Bytes → Bytes
plain s = s

abbrev pets : Request
pets = record { location = codes "pets.yaml"; within = []; limit = 0 }

abbrev reads : List (Request × Bytes)
reads = (pets, codes "78") ∷ []

abbrev Memory : Type 0
Memory = Table Bytes

abbrev loaded : Option Bytes → Loaded
loaded none = absent
loaded (some e) = held e

abbrev memory : Binding Memory Bytes ℕ ℕ
memory = record {
  sha = plain;
  load = λ st k. loaded (find st k);
  save = λ st k e. ((k, e) ∷ st, false);
  marshal_document = λ d. some d;
  unmarshal_document = λ s. some s;
  marshal_head = λ h. some h.format;
  unmarshal_head = λ s. some (record { format = s; reads = reads });
  diagnostics_of = λ d. 1;
  sources_of = λ d. 2;
}

abbrev compiled : Option Bytes → Compile (Result ℕ (CompileResult Bytes ℕ ℕ))
compiled none = done (err 0)
compiled (some d) = done (ok (result_of memory d (codes "openapi")))

abbrev one_read : Compile (Result ℕ (CompileResult Bytes ℕ ℕ))
one_read = ask pets compiled

abbrev first_docs : ℕ → Request → Option Bytes
first_docs n q = some (codes "x")

abbrev same_docs : Request → Option Bytes
same_docs q = some (codes "x")

abbrev recorded : Recorder
recorded = record { reads = reads; unsound = false }

-- Its line opens all that a compile and a fetch call.
run_cached : Memory → (Request → Option Bytes) → Outcome ℕ Bytes ℕ ℕ × Memory
unfolding compile_cached after_fetch kept_run keep save_entry fetch answer_entry answer_document
    run_timed encode_entry decode_entry open_sealed read_head sealed seal_of cut_line run_recorded
    record_read changed put_read drop_read find_read same_request settled_reads sorted_reads
    insert_read reads_unchanged source_hash hex_encode hex_digit find same_text run lacks
run_cached st now =
    compile_cached (some memory) true (some (codes "k")) false st now first_docs one_read

-- The first run compiles and keeps, and the second, of the store that it left, is answered from there.
first_kept : (run_cached [] same_docs).0 ≡ ok (result_of memory (codes "x") (codes "openapi"))
unfolding run_cached
first_kept = refl

second_hit :
    fetch memory (run_cached [] same_docs).1 (codes "k") same_docs
    ≡ hit (result_of memory (codes "x") (codes "openapi"))
unfolding run_cached
second_hit = refl

changed_misses :
    fetch memory (run_cached [] same_docs).1 (codes "k") (λ q. some (codes "y")) ≡ miss []
unfolding run_cached
changed_misses = refl

compile_cached-Answered_example :
    Answered
      (some memory)
      (some (codes "k"))
      false
      []
      same_docs
      (run_timed first_docs 0 one_read)
      (compile_cached
        (some memory)
        true
        (some (codes "k"))
        false
        []
        same_docs
        first_docs
        one_read).0
compile_cached-Answered_example =
    compile_cached-Answered (some memory) true (some (codes "k")) false [] same_docs first_docs
      one_read

abbrev ran : Result ℕ (CompileResult Bytes ℕ ℕ) × Recorder
ran = run_recorded plain first_docs 0 one_read new_recorder

head_plain : lacks entry_separator (codes "openapi") ≡ true
unfolding run_cached
head_plain = refl

abbrev inputs : Table Bytes → KeyInputs
inputs settings = record {
  build = codes "b";
  ir_version = codes "1";
  dir = codes "/d";
  path = codes "p";
  spec_hash = codes "78";
  passes = codes "prune" ∷ [];
  settings = settings;
}

abbrev one_way : KeyInputs
one_way = inputs ((codes "m", codes "1") ∷ (codes "n", codes "2") ∷ [])

abbrev other_way : KeyInputs
other_way = inputs ((codes "n", codes "2") ∷ (codes "m", codes "1") ∷ [])

run_fields : KeyInputs → List Bytes
unfolding key_fields setting_fields sorted_settings insert_setting compare_text frame uvarint
    uvarint_bytes format_nat find same_text
run_fields x = key_fields x

same_frame : frame (key_fields one_way) ≡ frame (key_fields other_way)
unfolding run_fields
same_frame = refl

-- Whether each field fits, as a test.
fits : List Bytes → Bool
fits [] = true
fits (f ∷ fs) = ltb (length f) 9_223_372_036_854_775_808 && fits fs

fits-Short : (fs : List Bytes) → fits fs ≡ true → All Short fs
unfolding fits
fits-Short [] h = tt
fits-Short (f ∷ fs) h = (ground (arith, h), fits-Short fs (ground (arith, h)))

one_fits : fits (key_fields one_way) ≡ true
unfolding run_fields fits
one_fits = refl

other_fits : fits (key_fields other_way) ≡ true
unfolding run_fields fits
other_fits = refl

key_fields_unique_example :
    (one_way.build ≡ other_way.build)
    × (one_way.ir_version ≡ other_way.ir_version)
    × (one_way.dir ≡ other_way.dir)
    × (one_way.path ≡ other_way.path)
    × (one_way.spec_hash ≡ other_way.spec_hash)
    × (one_way.passes ≡ other_way.passes)
    × ((name : Bytes) → find one_way.settings name ≡ find other_way.settings name)
key_fields_unique_example =
    key_fields_unique one_way other_way (fits-Short (key_fields one_way) one_fits)
      (fits-Short (key_fields other_way) other_fits) same_frame
