-- ===== src/Engine/Cache/Reads.antt =====
-- engine/cachereads.go: the documents that a run reads, and whether they still read the same.
-- What a compiler does with its reader is a program that asks for documents and goes on by the answers.
-- `sha` is SHA-256 and a parameter; a document that cannot be read is `none`.
pub mod Replay
pub mod Same
use morphic.Base.{
  ℕ, zero, suc, Bool, true, false, not, ◌&&◌, ◌||◌, List, [], ◌∷◌, Option, none, some, Bytes,
  same_text, compare_text, Ordering, if◌then◌else◌, ◌==◌, compare,
}
use morphic.Base.Format.{hex_encode}
use morphic.Base.Int.{ℤ}

-- `DocumentRequest`; the limit is a number of bytes, and zero where there is none.
pub record Request : Type 0 where
  pub location : Bytes
  pub within : Bytes
  pub limit : ℕ

unfoldable pub same_request : Request → Request → Bool
same_request a b =
    same_text a.location b.location && same_text a.within b.within && a.limit == b.limit

-- A compile, as the reads that it makes: it ends with a result, or asks and goes on.
pub data Compile (R : Type 0) : Type 0 where
  done : R → Compile R
  ask : Request → (Option Bytes → Compile R) → Compile R

unfoldable pub source_hash : (Bytes → Bytes) → Bytes → Bytes
source_hash sha data' = hex_encode (sha data')

-- The recorder's map of reads as a table whose first entry for a request is the one held.
pub record Recorder : Type 0 where
  pub reads : List (Request × Bytes)
  pub unsound : Bool

abbrev pub new_recorder : Recorder
new_recorder = record { reads = []; unsound = false }

unfoldable pub find_read : List (Request × Bytes) → Request → Option Bytes
find_read [] q = none
find_read ((p, h) ∷ reads) q = if same_request p q then some h else find_read reads q

unfoldable pub drop_read : List (Request × Bytes) → Request → List (Request × Bytes)
drop_read [] q = []
drop_read ((p, h) ∷ reads) q =
    let rest = drop_read reads q in if same_request p q then rest else (p, h) ∷ rest

-- `r.reads[req] = hash`, which leaves one entry for the request.
unfoldable pub put_read : List (Request × Bytes) → Request → Bytes → List (Request × Bytes)
put_read reads q h = (q, h) ∷ drop_read reads q

-- Whether a request was read before, and with another hash.
unfoldable pub changed : Option Bytes → Bytes → Bool
changed none h = false
changed (some seen) h = not (same_text seen h)

-- What `ReadDocument` of a recorder makes of the answer that it passes on.
unfoldable pub record_read : (Bytes → Bytes) → Request → Option Bytes → Recorder → Recorder
record_read sha q none r = record { reads = put_read r.reads q []; unsound = true }
record_read sha q (some data') r =
    let hash = source_hash sha data' in
    record {
      reads = put_read r.reads q hash;
      unsound = r.unsound || changed (find_read r.reads q) hash;
    }

-- A compile whose reader is a recorder: the answers are those of the reads one after another, since a
-- document may change between two of them.
unfoldable pub run_recorded :
    {R : Type 0}
    → (Bytes → Bytes)
    → (ℕ → Request → Option Bytes)
    → ℕ
    → Compile R
    → Recorder
    → R × Recorder
run_recorded sha docs n (done result) r = (result, r)
run_recorded sha docs n (ask q go) r =
    run_recorded sha docs (suc n) (go (docs n q)) (record_read sha q (docs n q) r)

-- A compile whose reader is one set of documents.
unfoldable pub run : {R : Type 0} → (Request → Option Bytes) → Compile R → R
run docs (done result) = result
run docs (ask q go) = run docs (go (docs q))

-- `cmp.Or` over the location, the directory and the limit.
unfoldable pub compare_requests : Request → Request → Ordering
compare_requests a b = elim (compare_text a.location b.location) [
  | Ordering.lt ↦ Ordering.lt
  | Ordering.gt ↦ Ordering.gt
  | Ordering.eq ↦ elim (compare_text a.within b.within) [
    | Ordering.lt ↦ Ordering.lt
    | Ordering.gt ↦ Ordering.gt
    | Ordering.eq ↦ compare a.limit b.limit
  ]
]

unfoldable pub insert_read : Request × Bytes → List (Request × Bytes) → List (Request × Bytes)
insert_read p [] = p ∷ []
insert_read p (q ∷ reads) =
    let rest = insert_read p reads in
    elim (compare_requests p.0 q.0) [ Ordering.gt ↦ q ∷ rest | _ ↦ p ∷ q ∷ reads ]

unfoldable pub sorted_reads : List (Request × Bytes) → List (Request × Bytes)
sorted_reads [] = []
sorted_reads (p ∷ reads) = insert_read p (sorted_reads reads)

-- `settled`: the reads in order, and whether they are sound.
unfoldable pub settled_reads : Recorder → List (Request × Bytes) × Bool
settled_reads r = (sorted_reads r.reads, not r.unsound)

abbrev pub reads_as : (Bytes → Bytes) → Option Bytes → Bytes → Bool
reads_as sha none h = false
reads_as sha (some data') h = same_text (source_hash sha data') h

unfoldable pub reads_unchanged :
    (Bytes → Bytes) → (Request → Option Bytes) → List (Request × Bytes) → Bool
reads_unchanged sha docs [] = true
reads_unchanged sha docs ((q, h) ∷ reads) =
    let rest = reads_unchanged sha docs reads in if reads_as sha (docs q) h then rest else false
