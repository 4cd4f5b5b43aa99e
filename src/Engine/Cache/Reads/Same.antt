-- ===== src/Engine/Cache/Reads/Same.antt =====
-- engine/cachereads.go: reads that are unchanged are of documents that read the same.
use morphic.Base.{
  ℕ, suc, true, false, List, [], ◌∷◌, Option, some, Bytes, same_text_refl, ◌↔◌, ◌≡◌, refl, sym, ◌∙◌,
  arith,
}
use morphic.Engine.Cache.Reads.{
  Request, Compile, done, ask, source_hash, Recorder, new_recorder, find_read, drop_read, put_read,
  record_read, run_recorded, settled_reads, reads_as, reads_unchanged,
}
use morphic.Engine.Cache.Reads.Replay.{
  record_read_sound, read_again, run_recorded-Holds, unchanged-find_read, unchanged-sorted_reads,
}

-- The documents asked for, which a compile was given the answers `docs` for, read the same by now.
unfoldable pub SameReads :
    {R : Type 0} → (ℕ → Request → Option Bytes) → (Request → Option Bytes) → ℕ → Compile R → Type 0
SameReads docs now n (done result) = Unit
SameReads docs now n (ask q go) = (now q ≡ docs n q) × SameReads docs now (suc n) (go (docs n q))

module _ (sha : Bytes → Bytes) where
  unchanged-drop_read :
      (now : Request → Option Bytes) (reads : List (Request × Bytes)) (q : Request)
      → reads_unchanged sha now reads ≡ true
      → reads_unchanged sha now (drop_read reads q) ≡ true
  unfolding reads_unchanged drop_read
  unchanged-drop_read now [] q h = refl
  unchanged-drop_read now ((p, x) ∷ reads) q h = ground (arith, h, unchanged-drop_read now reads q)

  -- A read that is sound and reads the same by now leaves the reads unchanged.
  unchanged-record_read :
      (now : Request → Option Bytes) (q : Request) (d : Bytes) (r : Recorder)
      → now q ≡ some d
      → reads_unchanged sha now r.reads ≡ true
      → reads_unchanged sha now (record_read sha q (some d) r).reads ≡ true
  unfolding reads_unchanged record_read put_read
  unchanged-record_read now q d r same h =
      let hash = source_hash sha d in
      let as_read : reads_as sha (now q) hash ≡ true = rw same (same_text_refl hash) in
      rw (reads_unchanged, as_read) (unchanged-drop_read now r.reads q h)

  module _ {R : Type 0} (docs : ℕ → Request → Option Bytes) (now : Request → Option Bytes) where
    -- Documents that read the same leave all the reads of a sound recording unchanged.
    SameReads-unchanged :
        (c : Compile R) (n : ℕ) (r : Recorder)
        → (run_recorded sha docs n c r).1.unsound ≡ false
        → SameReads docs now n c
        → reads_unchanged sha now r.reads ≡ true
        → reads_unchanged sha now (run_recorded sha docs n c r).1.reads ≡ true
    unfolding run_recorded SameReads
    SameReads-unchanged (done result) n r h same u = u
    SameReads-unchanged (ask q go) n r h (same, rest) u =
        let next = record_read sha q (docs n q) r in
        let (sound, _) = run_recorded-Holds sha docs (go (docs n q)) (suc n) next h in
        let (d, read, _, _, _) = record_read_sound sha q (docs n q) r sound in
        let kept : reads_unchanged sha now next.reads ≡ true =
          rw read (unchanged-record_read now q d r (same ∙ read) u) in
        SameReads-unchanged (go (docs n q)) (suc n) next h rest kept

    -- Reads that are unchanged are of documents that read the same.
    unchanged-SameReads :
        ((a b : Bytes) → source_hash sha a ≡ source_hash sha b → a ≡ b)
        → (c : Compile R) (n : ℕ) (r : Recorder) → (run_recorded sha docs n c r).1.unsound ≡ false
        → ((q : Request) (h : Bytes)
            → find_read (run_recorded sha docs n c r).1.reads q ≡ some h
            → reads_as sha (now q) h ≡ true)
        → SameReads docs now n c
    unfolding run_recorded SameReads
    unchanged-SameReads inj (done result) n r h same = tt
    unchanged-SameReads inj (ask q go) n r h same =
        let next = record_read sha q (docs n q) r in
        let (sound, later) = run_recorded-Holds sha docs (go (docs n q)) (suc n) next h in
        let (d, read, _, put, _) = record_read_sound sha q (docs n q) r sound in
        let again =
          read_again sha (now q) d inj
            (same q (source_hash sha d) (later q (source_hash sha d) put)) in
        (again ∙ sym read, unchanged-SameReads inj (go (docs n q)) (suc n) next h same)

-- The reads of a sound recording are unchanged exactly where the documents read the same.
pub settled_reads-SameReads :
    {R : Type 0} (sha : Bytes → Bytes) (docs : ℕ → Request → Option Bytes)
    (now : Request → Option Bytes) (c : Compile R)
    → ((a b : Bytes) → source_hash sha a ≡ source_hash sha b → a ≡ b)
    → (settled_reads (run_recorded sha docs 0 c new_recorder).1).1 ≡ true
    → (reads_unchanged sha now (settled_reads (run_recorded sha docs 0 c new_recorder).1).0 ≡ true)
      ↔ SameReads docs now 0 c
unfolding settled_reads reads_unchanged
settled_reads-SameReads sha docs now c inj sound =
    let r = (run_recorded sha docs 0 c new_recorder).1 in
    let plain : r.unsound ≡ false = ground (arith, sound) in
    let in_order = unchanged-sorted_reads sha now r.reads in
    (
      λ u.
          unchanged-SameReads sha docs now inj c 0 new_recorder plain
            (λ q h f. unchanged-find_read sha now r.reads q h (sym in_order ∙ u) f),
      λ same. in_order ∙ SameReads-unchanged sha docs now c 0 new_recorder plain same refl,
    )
