-- ===== src/Engine/Cache/Reads/Replay.antt =====
-- A compile that reads what was recorded does what the recorded one did.
use morphic.Base.{
  ℕ, suc, true, false, List, [], ◌∷◌, Option, none, some, Bytes, same_text-eq, same_text_refl,
  if◌then◌else◌, ◌≡◌, inl, inr, refl, sym, ap, ◌∙◌, arith, Bool-cases,
}
use morphic.Engine.Cache.Reads.{
  Request, same_request, Compile, done, ask, source_hash, Recorder, new_recorder, find_read,
  drop_read, put_read, changed, record_read, run_recorded, run, insert_read, sorted_reads,
  settled_reads, reads_as, reads_unchanged,
}

same_request-eq : (p q : Request) → same_request p q ≡ true → p ≡ q
unfolding same_request
same_request-eq p q h =
    let one : p.location ≡ q.location = same_text-eq p.location q.location (ground (arith, h)) in
    let two : p.within ≡ q.within = same_text-eq p.within q.within (ground (arith, h)) in
    let three : p.limit ≡ q.limit = ground (arith, h) in cc

same_request_refl : (p : Request) → same_request p p ≡ true
unfolding same_request
same_request_refl p = ground (arith, same_text_refl p.location, same_text_refl p.within)

find_read-drop_read :
    (reads : List (Request × Bytes)) (q k : Request)
    → same_request q k ≡ false
    → find_read (drop_read reads q) k ≡ find_read reads k
unfolding find_read drop_read
find_read-drop_read [] q k h = refl
find_read-drop_read ((p, x) ∷ reads) q k h = elim (Bool-cases (same_request p q)) [
  | inl e ↦
      let same : p ≡ q = same_request-eq p q e in
      let other : same_request p k ≡ false = ap (λ r. same_request r k) same ∙ h in
      rw (e, drop_read, other, find_read) (find_read-drop_read reads q k h)
  | inr e ↦ ground (arith, e, find_read-drop_read reads q k h)
]

find_read-put_read :
    (reads : List (Request × Bytes)) (q k : Request) (h : Bytes)
    → find_read (put_read reads q h) k ≡ (if same_request q k then some h else find_read reads k)
unfolding find_read put_read
find_read-put_read reads q k h = elim (Bool-cases (same_request q k)) [
  | inl e ↦ ground (arith, e)
  | inr e ↦ ground (arith, e, find_read-drop_read reads q k e)
]

-- Every read that the first holds is held, with its hash, by the second.
abbrev pub Holds : Recorder → Recorder → Type 0
Holds r s = (q : Request) (h : Bytes) → find_read r.reads q ≡ some h → find_read s.reads q ≡ some h

module _ (sha : Bytes → Bytes) where
  -- A read that leaves the recorder sound.
  pub record_read_sound :
      (q : Request) (answer : Option Bytes) (r : Recorder)
      → (record_read sha q answer r).unsound ≡ false
      → (d : Bytes) × (answer ≡ some d)
        × (r.unsound ≡ false)
        × (find_read (record_read sha q answer r).reads q ≡ some (source_hash sha d))
        × Holds r (record_read sha q answer r)
  unfolding record_read changed
  record_read_sound q none r h = absurd cc
  record_read_sound q (some d) r h =
      let hash = source_hash sha d in
      let same : changed (find_read r.reads q) hash ≡ false = ground (arith, h) in
      (
        d,
        refl,
        ground (arith, h),
        find_read-put_read r.reads q q hash ∙ ground (arith, same_request_refl q),
        λ k x f. find_read-put_read r.reads q k hash ∙ elim (Bool-cases (same_request q k)) [
          | inr e ↦ ground (arith, e, f)
          | inl e ↦
              let one : find_read r.reads q ≡ some x =
                ap (find_read r.reads) (same_request-eq q k e) ∙ f in
              let two : x ≡ hash = same_text-eq x hash (ground (arith, one, same)) in
              ground (arith, e, ap some two)
        ],
      )

  pub read_again :
      (answer : Option Bytes) (d : Bytes)
      → ((a b : Bytes) → source_hash sha a ≡ source_hash sha b → a ≡ b)
      → reads_as sha answer (source_hash sha d) ≡ true
      → answer ≡ some d
  read_again none d inj h = absurd cc
  read_again (some e) d inj h = ap some (inj e d (same_text-eq _ _ h))

  module _ {R : Type 0} (docs : ℕ → Request → Option Bytes) where
    pub run_recorded-Holds :
        (c : Compile R) (n : ℕ) (r : Recorder)
        → (run_recorded sha docs n c r).1.unsound ≡ false
        → (r.unsound ≡ false) × Holds r (run_recorded sha docs n c r).1
    unfolding run_recorded
    run_recorded-Holds (done result) n r h = (h, λ q x f. f)
    run_recorded-Holds (ask q go) n r h =
        let next = record_read sha q (docs n q) r in
        let (sound, later) = run_recorded-Holds (go (docs n q)) (suc n) next h in
        let (d, _, before, _, kept) = record_read_sound q (docs n q) r sound in
        (before, λ k x f. later k x (kept k x f))

    replay :
        (docs2 : Request → Option Bytes)
        → ((a b : Bytes) → source_hash sha a ≡ source_hash sha b → a ≡ b)
        → (c : Compile R) (n : ℕ) (r : Recorder) → (run_recorded sha docs n c r).1.unsound ≡ false
        → ((q : Request) (h : Bytes)
            → find_read (run_recorded sha docs n c r).1.reads q ≡ some h
            → reads_as sha (docs2 q) h ≡ true)
        → run docs2 c ≡ (run_recorded sha docs n c r).0
    unfolding run_recorded run
    replay docs2 inj (done result) n r h same = refl
    replay docs2 inj (ask q go) n r h same =
        let next = record_read sha q (docs n q) r in
        let (sound, later) = run_recorded-Holds (go (docs n q)) (suc n) next h in
        let (d, read, _, put, _) = record_read_sound q (docs n q) r sound in
        let now =
          read_again (docs2 q) d inj
            (same q (source_hash sha d) (later q (source_hash sha d) put)) in
        ap (λ a. run docs2 (go a)) (now ∙ sym read)
        ∙ replay docs2 inj (go (docs n q)) (suc n) next h same

  -- What is asked of the reads does not depend on their order.
  unchanged-insert_read :
      (docs : Request → Option Bytes) (p : Request × Bytes) (reads : List (Request × Bytes))
      → reads_unchanged sha docs (insert_read p reads) ≡ reads_unchanged sha docs (p ∷ reads)
  unfolding reads_unchanged insert_read
  unchanged-insert_read docs (q, h) [] = refl
  unchanged-insert_read docs (q, h) ((k, x) ∷ reads) =
      ground (arith, unchanged-insert_read docs (q, h) reads)

  pub unchanged-sorted_reads :
      (docs : Request → Option Bytes) (reads : List (Request × Bytes))
      → reads_unchanged sha docs (sorted_reads reads) ≡ reads_unchanged sha docs reads
  unfolding reads_unchanged sorted_reads
  unchanged-sorted_reads docs [] = refl
  unchanged-sorted_reads docs ((q, h) ∷ reads) =
      unchanged-insert_read docs (q, h) (sorted_reads reads)
      ∙ ground (arith, unchanged-sorted_reads docs reads)

  first_as :
      (docs : Request → Option Bytes) (q : Request) (h : Bytes) (reads : List (Request × Bytes))
      → reads_unchanged sha docs ((q, h) ∷ reads) ≡ true
      → reads_as sha (docs q) h ≡ true
  unfolding reads_unchanged
  first_as docs q h reads u = elim (Bool-cases (reads_as sha (docs q) h)) [
    | inl e ↦ e
    | inr e ↦ absurd (cc (rw (reads_unchanged, e) at u))
  ]

  pub unchanged-find_read :
      (docs : Request → Option Bytes) (reads : List (Request × Bytes)) (q : Request) (h : Bytes)
      → reads_unchanged sha docs reads ≡ true
      → find_read reads q ≡ some h
      → reads_as sha (docs q) h ≡ true
  unfolding reads_unchanged find_read
  unchanged-find_read docs [] q h u f = absurd cc
  unchanged-find_read docs ((p, x) ∷ reads) q h u f = elim (Bool-cases (same_request p q)) [
    | inr e ↦ unchanged-find_read docs reads q h (ground (arith, u)) (ground (arith, e, f))
    | inl e ↦
        let one : p ≡ q = same_request-eq p q e in
        let two : x ≡ h = ground (arith, e, f) in rw (one, two) at (first_as docs p x reads u)
  ]

-- A compile that was recorded, whatever the documents did while it read them, and whose reads are sound,
-- gives the result that was recorded when it is run on any documents that `readsUnchanged` finds to read
-- the same, where no two documents share a hash.
pub replay_settled :
    {R : Type 0} (sha : Bytes → Bytes) (docs : ℕ → Request → Option Bytes)
    (now : Request → Option Bytes) (c : Compile R)
    → ((a b : Bytes) → source_hash sha a ≡ source_hash sha b → a ≡ b)
    → (settled_reads (run_recorded sha docs 0 c new_recorder).1).1 ≡ true
    → reads_unchanged sha now (settled_reads (run_recorded sha docs 0 c new_recorder).1).0 ≡ true
    → run now c ≡ (run_recorded sha docs 0 c new_recorder).0
unfolding settled_reads
replay_settled sha docs now c inj sound same =
    let r = (run_recorded sha docs 0 c new_recorder).1 in
    replay sha docs now inj c 0 new_recorder (ground (arith, sound)) (λ q h f.
      unchanged-find_read sha now r.reads q h (sym (unchanged-sorted_reads sha now r.reads) ∙ same)
        f)
