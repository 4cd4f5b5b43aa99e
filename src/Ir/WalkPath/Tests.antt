-- ===== src/Ir/WalkPath/Tests.antt =====
-- ir/pathlog.go: runs of the log.
use morphic.Base.{
  ℕ, zero, suc, ◌+◌, ◌≡◌, refl, Bool, true, false, List, [], ◌∷◌, Option, none, some, map, Bytes,
  length, ◌==◌, arith, same_text,
}
use morphic.Ir.WalkPath.{PathStep, Walk, WalkPath, Reflect, no_path, walk_path}
use morphic.Ir.WalkPath.{
  same_kind, same_step, shared_steps, path_root, path_steps, path_text, path_field,
}
use morphic.Ir.WalkPath.{empty_log, log_len, record_path, record_paths, replay_loop, all_paths}
use morphic.Ir.WalkPath.{step_field, step_element, step_map_key, past_embedded}
use morphic.Ir.WalkPath.{embedded, step_text, steps_text, outermost, spelled_field}
use morphic.Ir.WalkPath.Log.{TypesCompared, readings, read_paths, all_paths-record_paths}

-- A struct by number: its fields are named by a letter, and the first is embedded.
abbrev fields : Reflect ℕ
fields = record {
  same_type = ◌==◌;
  field_at = λ t i. record { name = (b'a' + i) ∷ []; anonymous = i == 0 };
}

fields-TypesCompared : TypesCompared fields
fields-TypesCompared t u h = ground arith

abbrev through : ℕ → PathStep ℕ
through i = record { kind = step_field; owner = 7; index = i; label = [] }

abbrev element : PathStep ℕ
element = record { kind = step_element; owner = 0; index = 12; label = [] }

abbrev key : PathStep ℕ
key = record { kind = step_map_key; owner = 0; index = 0; label = b'k' ∷ [] }

abbrev walk : Walk ℕ
walk = record { root = b'r' ∷ []; steps = through 1 ∷ element ∷ through 0 ∷ through 2 ∷ key ∷ [] }

abbrev paths : List (WalkPath ℕ)
paths = walk_path walk 2 ∷ walk_path walk 4 ∷ no_path ∷ walk_path walk 5 ∷ []

run_texts : List (ℕ × WalkPath ℕ) → List Bytes
unfolding path_text path_root path_steps steps_text step_text
run_texts ps = map (λ p. path_text fields p.1) ps

run_log : List (WalkPath ℕ) → List (ℕ × WalkPath ℕ)
unfolding all_paths record_paths record_path empty_log replay_loop shared_steps same_step same_kind
run_log ats = all_paths (record_paths fields empty_log ats)

run_log_second : map (λ p. p.0) (run_log paths) ≡ 0 ∷ 1 ∷ 2 ∷ 3 ∷ []
unfolding run_log
run_log_second = refl

run_texts-paths :
    run_texts (run_log paths)
    ≡ (b'r' ∷ b'.' ∷ b'b' ∷ b'[' ∷ b'1' ∷ b'2' ∷ b']' ∷ [])
      ∷ (b'r' ∷ b'.' ∷ b'b' ∷ b'[' ∷ b'1' ∷ b'2' ∷ b']' ∷ b'.' ∷ b'c' ∷ [])
      ∷ []
      ∷ (b'r' ∷ b'.' ∷ b'b' ∷ b'[' ∷ b'1' ∷ b'2' ∷ b']' ∷ b'.' ∷ b'c' ∷ b'[' ∷ b'k' ∷ b']' ∷ b'.'
          ∷ b'k' ∷ b'e' ∷ b'y' ∷ [])
      ∷ []
unfolding run_log run_texts morphic.Base.Format.format_nat same_text
run_texts-paths = refl

run_field : WalkPath ℕ → Option (ℕ × Bytes)
unfolding path_field spelled_field past_embedded outermost embedded same_kind path_steps
run_field p = path_field fields p

run_field_embedded : run_field (walk_path walk 3) ≡ none
unfolding run_field
run_field_embedded = refl

run_field_field : run_field (walk_path walk 4) ≡ some (7, b'c' ∷ [])
unfolding run_field
run_field_field = refl

all_paths-record_paths_example :
    let log = record_paths fields empty_log paths in
    (read_paths fields (all_paths log) ≡ readings fields 0 paths) × (log_len log ≡ 4)
all_paths-record_paths_example = all_paths-record_paths fields fields-TypesCompared paths
