-- ===== src/Merge/Bounds.antt =====
-- compilers/openapi/internal/merge/bounds.go: how the keyword sets of two schemas relate, and the one
-- set of several.
-- A set that may be nil is an option. The fold writes to a fresh set, so no set handed in changes.
pub mod Same
use morphic.Base.{
  ℕ, suc, Bool, true, false, not, ◌&&◌, ◌||◌, List, [], ◌∷◌, ◌++◌, Option, none, some,
  if◌then◌else◌, get_or,
}
use morphic.Merge.Constraints.{Constraints, ConstraintKeyword, Conflict, no_constraints}
use morphic.Merge.Keywords.{constraint_keywords, merge_constraints, constraints_conflict, meets}

pub data Relation : Type 0 where
  unrelated disjoint overlap same a_narrower b_narrower meet : Relation

-- The relation seen from the other side.
unfoldable pub flipped : Relation → Relation
flipped unrelated = unrelated
flipped disjoint = disjoint
flipped overlap = overlap
flipped same = same
flipped a_narrower = b_narrower
flipped b_narrower = a_narrower
flipped meet = meet

unfoldable pub all_same : List ConstraintKeyword → Constraints → Constraints → Bool
all_same [] a b = true
all_same (kw ∷ kws) a b = kw.same a b && all_same kws a b

abbrev same_flag : Bool → Bool → Bool
same_flag true b = b
same_flag false b = not b

-- A set, or the empty one where it is nil.
abbrev pub or_none : Option Constraints → Constraints
or_none none = no_constraints
or_none (some c) = c

unfoldable pub same_sets : Constraints → Constraints → Bool
same_sets a b = same_flag a.unique_items b.unique_items && all_same constraint_keywords a b

unfoldable pub same_bounds : Option Constraints → Option Constraints → Bool
same_bounds a b = same_sets (or_none a) (or_none b)

unfoldable pub bounds_relation : Option Constraints → Option Constraints → Relation
bounds_relation a b =
    let met = merge_constraints (merge_constraints (some no_constraints) a) b in
    if not (meets a b)
    then meet
    else if same_bounds met a
    then if same_bounds met b then same else a_narrower
    else if same_bounds met b
    then b_narrower
    else meet

-- The loop of `boundsBeyond`, which clears what the two sets state alike.
unfoldable pub clear_same :
    List ConstraintKeyword → Constraints → Constraints → Constraints → Constraints
clear_same [] c own beyond = beyond
clear_same (kw ∷ kws) c own beyond =
    clear_same kws c own (if kw.same c own then kw.clear beyond else beyond)

unfoldable pub bounds_beyond : Constraints → Constraints → Constraints
bounds_beyond c own = record (clear_same constraint_keywords c own c) {
  unique_items = c.unique_items && not own.unique_items;
}

-- A call of `disagree`: the set, the one that stated its value first, and the disagreement.
pub record Disagreement : Type 0 where
  pub at : ℕ
  pub kept : ℕ
  pub detail : Conflict

-- The loop over the keywords: which set stated each of them first.
unfoldable pub mark_set :
    ℕ → Option Constraints → Constraints → List ConstraintKeyword → List ℕ → List ℕ
mark_set i kept c [] set_by = set_by
mark_set i kept c (kw ∷ kws) [] = []
mark_set i kept c (kw ∷ kws) (s ∷ set_by) =
    (if kw.set c && elim kept [ none ↦ true | some k ↦ not (kw.set k) ] then i else s)
    ∷ mark_set i kept c kws set_by

-- The calls of one round.
unfoldable pub disagreement : ℕ → List ℕ → Option Constraints → Constraints → List Disagreement
disagreement i set_by kept c = elim (constraints_conflict kept (some c)) [
  | none ↦ []
  | some (k, detail) ↦ record { at = i; kept = get_or set_by k 0; detail = detail } ∷ []
]

-- The loop of `meetConstraints`: the set kept, and the calls made of `disagree`.
unfoldable pub meet_loop :
    ℕ
    → List ℕ
    → Option Constraints
    → List Disagreement
    → List (Option Constraints)
    → Option Constraints × List Disagreement
meet_loop i set_by kept calls [] = (kept, calls)
meet_loop i set_by kept calls (none ∷ sets) = meet_loop (suc i) set_by kept calls sets
meet_loop i set_by kept calls (some c ∷ sets) =
    meet_loop (suc i) (mark_set i kept c constraint_keywords set_by)
      (merge_constraints kept (some c)) (calls ++ disagreement i set_by kept c) sets

abbrev zeros_for : List ConstraintKeyword → List ℕ
zeros_for [] = []
zeros_for (kw ∷ kws) = 0 ∷ zeros_for kws

unfoldable pub meet_constraints : List (Option Constraints) → Option Constraints × List Disagreement
meet_constraints sets = meet_loop 0 (zeros_for constraint_keywords) none [] sets
