-- ===== src/Ir/WalkPath/Log.antt =====
-- ir/pathlog.go: what a log replays.
use morphic.Base.{take-length, drop-length}
use morphic.Base.{
  ℕ, suc, ◌+◌, ◌-◌, ◌≡◌, refl, sym, ap, ◌∙◌, Bool, true, List, [], ◌∷◌, ◌++◌, Option, map,
  append-nil, append_assoc, Bytes, take, drop, length, length-append, same_text-eq, arith,
  Bool-cases, inl, inr,
}
use morphic.Ir.WalkPath.{StepKind, PathStep, WalkPath, Reflect, LoggedPath, PathLog, walk_path}
use morphic.Ir.WalkPath.{
  same_kind, same_step, shared_steps, path_root, path_steps, path_text, path_field,
}
use morphic.Ir.WalkPath.{
  is_map_key, empty_log, log_len, record_path, record_paths, replay_loop, all_paths,
}
use morphic.Ir.WalkPath.{step_field, step_element, step_map_key, step_map_value}

take_all {ℓ} : {A : Type ℓ} (xs : List A) → take (length xs) xs ≡ xs
take_all [] = refl
take_all (x ∷ xs) = ap (x ∷◌) (take_all xs)

same_kind-eq : (k l : StepKind) → same_kind k l ≡ true → k ≡ l
unfolding same_kind
same_kind-eq step_field step_field h = refl
same_kind-eq step_element step_element h = refl
same_kind-eq step_map_key step_map_key h = refl
same_kind-eq step_map_value step_map_value h = refl
same_kind-eq _ _ h = cc

-- What is spelled of a path, and what a caller may ask of it.
abbrev pub Reading : Type 0 → Type 0
Reading T = Bytes × Option (T × Bytes) × Bool

module _ {T : Type 0} (R : Reflect T) where
  unfoldable pub reading : WalkPath T → Reading T
  reading p = (path_text R p, path_field R p, is_map_key p)

  unfoldable pub readings : ℕ → List (WalkPath T) → List (ℕ × Reading T)
  readings i [] = []
  readings i (at ∷ ats) = (i, reading at) ∷ readings (suc i) ats

-- Types that are told to be one are one.
abbrev pub TypesCompared : {T : Type 0} → Reflect T → Type 0
TypesCompared {T = T} R = (t u : T) → R.same_type t u ≡ true → t ≡ u

module _ {T : Type 0} (R : Reflect T) where
  same_step-eq : TypesCompared R → (s t : PathStep T) → same_step R s t ≡ true → s ≡ t
  unfolding same_step
  same_step-eq sound s t h =
      let kinds : s.kind ≡ t.kind = same_kind-eq s.kind t.kind (ground arith) in
      let owners : s.owner ≡ t.owner = sound s.owner t.owner (ground arith) in
      let indices : s.index ≡ t.index = ground arith in
      let labels : s.label ≡ t.label = same_text-eq s.label t.label (ground arith) in
      λ i. record { kind = kinds i; owner = owners i; index = indices i; label = labels i }

  take-shared_steps :
      TypesCompared R
      → (last steps : List (PathStep T))
      → take (shared_steps R last steps) last ++ drop (shared_steps R last steps) steps ≡ steps
  unfolding shared_steps
  take-shared_steps sound [] [] = refl
  take-shared_steps sound [] (t ∷ steps) = refl
  take-shared_steps sound (s ∷ last) [] = refl
  take-shared_steps sound (s ∷ last) (t ∷ steps) = elim (Bool-cases (same_step R s t)) [
    | inl e ↦ rw (e, same_step-eq sound s t e, take-shared_steps sound last steps)
    | inr e ↦ rw e
  ]

  -- The tails and the entries that some paths add to a log.
  unfoldable own_steps : List (PathStep T) → List (WalkPath T) → List (PathStep T)
  own_steps last [] = []
  own_steps last (at ∷ ats) =
      drop (shared_steps R last (path_steps at)) (path_steps at) ++ own_steps (path_steps at) ats

  unfoldable logged : List (PathStep T) → ℕ → List (WalkPath T) → List LoggedPath
  logged last start [] = []
  logged last start (at ∷ ats) =
      let shared = shared_steps R last (path_steps at) in
      let end = start + length (drop shared (path_steps at)) in
      record { root = path_root at; shared = shared; end = end } ∷ logged (path_steps at) end ats

  record_path-last :
      TypesCompared R
      → (log : PathLog T) (at : WalkPath T) → (record_path R log at).last ≡ path_steps at
  unfolding record_path
  record_path-last sound log at = take-shared_steps sound log.last (path_steps at)

  record_paths-tails :
      TypesCompared R
      → (log : PathLog T) (ats : List (WalkPath T))
      → (record_paths R log ats).tails ≡ log.tails ++ own_steps log.last ats
  unfolding record_paths record_path own_steps
  record_paths-tails sound log [] = sym (append-nil log.tails)
  record_paths-tails sound log (at ∷ ats) =
      record_paths-tails sound (record_path R log at) ats
      ∙ rw (record_path-last sound log at) (append_assoc log.tails _ _)

  record_paths-entries :
      TypesCompared R
      → (log : PathLog T) (ats : List (WalkPath T))
      → (record_paths R log ats).entries ≡ log.entries ++ logged log.last (length log.tails) ats
  unfolding record_paths record_path logged
  record_paths-entries sound log [] = sym (append-nil log.entries)
  record_paths-entries sound log (at ∷ ats) =
      let own = drop (shared_steps R log.last (path_steps at)) (path_steps at) in
      record_paths-entries sound (record_path R log at) ats
      ∙ rw (record_path-last sound log at, length-append log.tails own)
          (append_assoc log.entries _ _)

  reading_unique :
      (p q : WalkPath T)
      → path_root p ≡ path_root q
      → path_steps p ≡ path_steps q
      → reading R p ≡ reading R q
  unfolding reading path_text path_field is_map_key
  reading_unique p q roots steps = rw (roots, steps)

  abbrev replayed : Bytes → List (PathStep T) → WalkPath T
  replayed root steps = walk_path (record { root = root; steps = steps }) (length steps)

  reading-replayed :
      (at : WalkPath T) → reading R (replayed (path_root at) (path_steps at)) ≡ reading R at
  unfolding path_root path_steps
  reading-replayed at =
      reading_unique (replayed (path_root at) (path_steps at)) at refl (take_all (path_steps at))

  pub read_paths : List (ℕ × WalkPath T) → List (ℕ × Reading T)
  read_paths = map (λ p. (p.0, reading R p.1))

  -- What is replayed of the paths recorded from a state of the log on, whose steps stand behind others.
  replay_loop-logged :
      TypesCompared R
      → (last before tails : List (PathStep T)) (i start : ℕ) (ats : List (WalkPath T))
      → tails ≡ before ++ own_steps last ats
      → start ≡ length before
      → read_paths (replay_loop tails (logged last start ats) i start last) ≡ readings R i ats
  unfolding replay_loop own_steps logged readings read_paths
  replay_loop-logged sound last before tails i start [] split at_end = refl
  replay_loop-logged sound last before tails i start (at ∷ ats) split at_end =
      let own = drop (shared_steps R last (path_steps at)) (path_steps at) in
      let later = own_steps (path_steps at) ats in
      let size : start + length own - start ≡ length own = omega arith in
      let behind : drop start tails ≡ own ++ later =
        rw (at_end, split) (drop-length before (own ++ later)) in
      let tail : take (start + length own - start) (drop start tails) ≡ own =
        rw (behind, size) (take-length own later) in
      let now = take-shared_steps sound last (path_steps at) in
      let rest =
        replay_loop-logged sound (path_steps at) (before ++ own) tails (suc i) (start + length own)
          ats (split ∙ sym (append_assoc before own later))
          (ap (◌+ length own) at_end ∙ sym (length-append before own)) in
      rw (tail, now, reading-replayed at) (ap ((i, reading R at) ∷◌) rest)

  length-logged :
      (last : List (PathStep T)) (start : ℕ) (ats : List (WalkPath T))
      → length (logged last start ats) ≡ length ats
  unfolding logged
  length-logged last start [] = refl
  length-logged last start (at ∷ ats) = ap suc (
      length-logged (path_steps at)
        (start + length (drop (shared_steps R last (path_steps at)) (path_steps at))) ats)

  -- A log that paths were recorded into counts them, and replays as many paths in the order recorded, each
  -- at its position, that read as those recorded: they spell the same text, end in the same field and are
  -- keys of a map alike. Types that are told to be one are one.
  pub all_paths-record_paths :
      TypesCompared R
      → (ats : List (WalkPath T))
      → let log = record_paths R empty_log ats in
        (read_paths (all_paths log) ≡ readings R 0 ats) × (log_len log ≡ length ats)
  unfolding all_paths log_len empty_log
  all_paths-record_paths sound ats =
      let entries = record_paths-entries sound empty_log ats in
      (
        rw (record_paths-tails sound empty_log ats, entries)
            (replay_loop-logged sound [] [] (own_steps [] ats) 0 0 ats refl refl),
        ap length entries ∙ length-logged [] 0 ats,
      )
