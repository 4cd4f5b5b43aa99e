-- ===== src/Ir/WalkPath.antt =====
-- ir/walk.go, ir/pathlog.go: the path to a value that a walk shows, and the log that keeps paths.
-- A walk holds its root and the steps it has taken; a path is a walk and how many of its steps lead to
-- the value. The log keeps of each path the steps past those that it shares with the path before it.
-- Types of the Go library are a parameter, with the fields that they declare and whether two are one.
-- Capacities are left out, and a replay is the list of what it yields.
pub mod Log
mod Tests
use mathlib.Core.List.{reverse}
use morphic.Base.Format.{format_nat}
use morphic.Base.{
  ℕ, zero, suc, ◌-◌, ◌+◌, min, Bool, true, false, not, ◌&&◌, List, [], ◌∷◌, ◌++◌, Option, none,
  some, Bytes, if◌then◌else◌, ◌==◌, length, take, drop, same_text,
}

-- `stepKind`.
pub data StepKind : Type 0 where
  step_field step_element step_map_key step_map_value : StepKind

unfoldable pub same_kind : StepKind → StepKind → Bool
same_kind step_field step_field = true
same_kind step_element step_element = true
same_kind step_map_key step_map_key = true
same_kind step_map_value step_map_value = true
same_kind _ _ = false

-- What `reflect` tells of a field of a struct.
pub record StructField : Type 0 where
  pub name : Bytes
  pub anonymous : Bool

-- What the model asks of the Go library: whether two types are one, and the fields of a struct.
pub record Reflect (T : Type 0) : Type 0 where
  pub same_type : T → T → Bool
  pub field_at : T → ℕ → StructField

-- `pathStep`: the owner is of use for a field alone.
pub record PathStep (T : Type 0) : Type 0 where
  pub kind : StepKind
  pub owner : T
  pub index : ℕ
  pub label : Bytes

pub record Walk (T : Type 0) : Type 0 where
  pub root : Bytes
  pub steps : List (PathStep T)

-- `WalkPath`, whose zero value has no walk.
pub data WalkPath (T : Type 0) : Type 0 where
  no_path : WalkPath T
  walk_path : Walk T → ℕ → WalkPath T

-- `MapKeySuffix`.
abbrev pub map_key_suffix : Bytes
map_key_suffix = b'.' ∷ b'k' ∷ b'e' ∷ b'y' ∷ []

unfoldable pub path_root : {T : Type 0} → WalkPath T → Bytes
path_root no_path = []
path_root (walk_path w depth) = w.root

unfoldable pub path_steps : {T : Type 0} → WalkPath T → List (PathStep T)
path_steps no_path = []
path_steps (walk_path w depth) = take depth w.steps

-- The last of some steps.
unfoldable pub last_step : {T : Type 0} → List (PathStep T) → Option (PathStep T)
last_step [] = none
last_step (s ∷ []) = some s
last_step (s ∷ t ∷ steps) = last_step (t ∷ steps)

unfoldable pub ends_in_key : {T : Type 0} → Option (PathStep T) → Bool
ends_in_key none = false
ends_in_key (some s) = same_kind s.kind step_map_key

-- `IsMapKey`.
unfoldable pub is_map_key : {T : Type 0} → WalkPath T → Bool
is_map_key p = ends_in_key (last_step (path_steps p))

-- The rest of the model reads the fields of structs.
module _ {T : Type 0} (R : Reflect T) where
  unfoldable pub same_step : PathStep T → PathStep T → Bool
  same_step s t =
      same_kind s.kind t.kind
      && R.same_type s.owner t.owner
      && (s.index == t.index)
      && same_text s.label t.label

  -- `embedded`.
  unfoldable pub embedded : PathStep T → Bool
  embedded s = same_kind s.kind step_field && (R.field_at s.owner s.index).anonymous

  -- `pathStep.appendTo`, what it appends.
  unfoldable pub step_text : PathStep T → Bytes
  step_text s = elim s.kind [
    | step_field ↦
        if (R.field_at s.owner s.index).anonymous
        then []
        else (b'.' ∷ (R.field_at s.owner s.index).name)
    | step_element ↦ (b'[' ∷ format_nat s.index) ++ (b']' ∷ [])
    | step_map_key ↦ (b'[' ∷ s.label) ++ (b']' ∷ map_key_suffix)
    | step_map_value ↦ (b'[' ∷ s.label) ++ (b']' ∷ [])
  ]

  unfoldable pub steps_text : List (PathStep T) → Bytes
  steps_text [] = []
  steps_text (s ∷ steps) = step_text s ++ steps_text steps

  -- `WalkPath.AppendTo`, what it appends, and `WalkPath.String`.
  unfoldable pub path_text : WalkPath T → Bytes
  path_text p = path_root p ++ steps_text (path_steps p)

  -- The loop of `Field` over the steps that a path does not spell, the last step first.
  unfoldable pub past_embedded : List (PathStep T) → List (PathStep T)
  past_embedded [] = []
  past_embedded (s ∷ steps) =
      let rest = past_embedded steps in if embedded s then rest else (s ∷ steps)

  -- The loop of `Field` over the embedded structs that a field is reached through, the innermost first.
  unfoldable pub outermost : T → List (PathStep T) → T
  outermost owner [] = owner
  outermost owner (s ∷ steps) =
      let rest = outermost s.owner steps in if embedded s then rest else owner

  unfoldable pub spelled_field : List (PathStep T) → Option (T × Bytes)
  spelled_field [] = none
  spelled_field (s ∷ steps) =
      if same_kind s.kind step_field
      then some (outermost s.owner steps, (R.field_at s.owner s.index).name)
      else none

  -- `Field`.
  unfoldable pub path_field : WalkPath T → Option (T × Bytes)
  path_field p = spelled_field (past_embedded (reverse (path_steps p)))

  -- `sharedSteps`.
  unfoldable pub shared_steps : List (PathStep T) → List (PathStep T) → ℕ
  shared_steps (a ∷ before) (b ∷ steps) =
      let rest = shared_steps before steps in if same_step a b then suc rest else 0
  shared_steps _ _ = 0

-- `loggedPath`.
pub record LoggedPath : Type 0 where
  pub root : Bytes
  pub shared : ℕ
  pub end : ℕ

-- `PathLog`.
pub record PathLog (T : Type 0) : Type 0 where
  pub last : List (PathStep T)
  pub tails : List (PathStep T)
  pub entries : List LoggedPath

-- The zero PathLog.
unfoldable pub empty_log : {T : Type 0} → PathLog T
empty_log = record { last = []; tails = []; entries = [] }

-- `Len`.
unfoldable pub log_len : {T : Type 0} → PathLog T → ℕ
log_len log = length log.entries

-- `Record`.
unfoldable pub record_path : {T : Type 0} → Reflect T → PathLog T → WalkPath T → PathLog T
record_path R log at =
    let steps = path_steps at in
    let shared = shared_steps R log.last steps in
    let tails = log.tails ++ drop shared steps in
    record {
      last = take shared log.last ++ drop shared steps;
      tails = tails;
      entries =
          log.entries ++ record { root = path_root at; shared = shared; end = length tails } ∷ [];
    }

unfoldable pub record_paths : {T : Type 0} → Reflect T → PathLog T → List (WalkPath T) → PathLog T
record_paths R log [] = log
record_paths R log (at ∷ ats) = record_paths R (record_path R log at) ats

-- The loop of `All` from a position on, with the steps of the replay and where the next tail starts.
unfoldable pub replay_loop :
    {T : Type 0}
    → List (PathStep T)
    → List LoggedPath
    → ℕ
    → ℕ
    → List (PathStep T)
    → List (ℕ × WalkPath T)
replay_loop tails [] i start steps = []
replay_loop tails (e ∷ entries) i start steps =
    let now = take e.shared steps ++ take (e.end - start) (drop start tails) in
    (i, walk_path (record { root = e.root; steps = now }) (length now))
    ∷ replay_loop tails entries (suc i) e.end now

-- `All`.
unfoldable pub all_paths : {T : Type 0} → PathLog T → List (ℕ × WalkPath T)
all_paths log = replay_loop log.tails log.entries 0 0 []
