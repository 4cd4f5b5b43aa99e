-- ===== src/Compile/Registry.antt =====
-- compilers/compile/promise.go, settle.go and the Finish of types.go: what a registry has promised to
-- build and what it settles at the end.
-- `Types` of types.go is here two records: the nodes with their claims, which Compile/Types models, and
-- around them the promises, the queues and what has been reported. A build is named by a `B` and a
-- settlement by an `S`: a closure of Go shares the registry, so what it does is a function of the registry,
-- `build` and `settle_with`. Findings other than refusals are a parameter `D`. The answers to the successive
-- calls of `ctx.Err` are `stopped`, and a function that asks counts them.
pub mod Fair
pub mod Rounds
pub mod Settled
pub mod Sizes
mod Tests
use morphic.Base.{
  ℕ, zero, suc, ◌+◌, ◌-◌, Bool, true, false, not, ◌&&◌, ◌||◌, List, [], ◌∷◌, ◌++◌, Option, none,
  some, Bytes, Table, find, has, same_text, compare_text, Ordering, if◌then◌else◌, ◌==◌, length,
  drop, map,
}
use morphic.Ir.BigVal.{is_nil}
use morphic.Compile.Types.{
  Types, Refusal, new_types, table_size, refuse, lookup, promised_late, promise_incomplete,
  promise_unbuilt, settled_late, nil_settlement, size_changed,
}

-- A finding: one that a build or a settlement raised, or a refusal of the registry.
pub data Finding (D : Type 0) : Type 0 where
  raised : D → Finding D
  registry_refused : Refusal → Finding D

pub record Registry (N B S : Type 0) : Type 0 where
  pub types : Types N
  pub promised : List Bytes
  pub promises : Table B
  pub completing : List S
  pub pending : List S
  pub reported : ℕ
  pub fulfilled : Bool
  pub settled : Bool

module _ {N B S : Type 0} where
  abbrev pub new_registry : Registry N B S
  new_registry = record {
    types = new_types;
    promised = [];
    promises = [];
    completing = [];
    pending = [];
    reported = 0;
    fulfilled = false;
    settled = false;
  }

  abbrev pub decline : Refusal → Registry N B S → Registry N B S
  decline why t = record t { types = refuse why t.types }

  unfoldable pub promise : Bytes → Option B → Registry N B S → Registry N B S
  promise coordinate none t =
      if t.fulfilled
      then decline (promised_late coordinate) t
      else decline (promise_incomplete coordinate) t
  promise coordinate (some b) t =
      if t.fulfilled
      then decline (promised_late coordinate) t
      else if is_nil coordinate
      then decline (promise_incomplete coordinate) t
      else if has t.promised coordinate
      then t
      else record t { promised = coordinate ∷ t.promised; promises = (coordinate, b) ∷ t.promises }

  unfoldable pub defer : Option S → Registry N B S → Registry N B S
  defer none t = if t.settled then decline settled_late t else decline nil_settlement t
  defer (some s) t =
      if t.settled then decline settled_late t else record t { pending = t.pending ++ s ∷ [] }

  unfoldable pub complete : Option S → Registry N B S → Registry N B S
  complete none t = if t.settled then decline settled_late t else decline nil_settlement t
  complete (some s) t =
      if t.settled then decline settled_late t else record t { completing = t.completing ++ s ∷ [] }

  -- `_, built := t.byPointer[coordinate]`.
  unfoldable pub is_built : Bytes → Registry N B S → Bool
  is_built coordinate t = elim (lookup coordinate t.types) [ none ↦ false | some id ↦ true ]

-- `slices.Sorted(maps.Keys(round))`, each key with its build.
unfoldable pub insert_sorted : {B : Type 0} → Bytes → B → Table B → Table B
insert_sorted c b [] = (c, b) ∷ []
insert_sorted c b ((k, a) ∷ table) =
    let rest = insert_sorted c b table in
    elim (compare_text c k) [ Ordering.gt ↦ (k, a) ∷ rest | _ ↦ (c, b) ∷ (k, a) ∷ table ]

unfoldable pub sorted : {B : Type 0} → Table B → Table B
sorted [] = []
sorted ((c, b) ∷ table) = insert_sorted c b (sorted table)

-- The registry, what was raised, the answers asked for, and whether the context stopped the run.
pub record Went (N B S D : Type 0) : Type 0 where
  pub after : Registry N B S
  pub found : List (Finding D)
  pub asked : ℕ
  pub cut : Bool

module _ {N B S D : Type 0} (stopped : ℕ → Bool)
    (build : B → Registry N B S → Registry N B S × List D) where
  -- A promise that is called, and refused where it built no node.
  unfoldable pub call : Bytes → B → Registry N B S → Registry N B S × List (Finding D)
  call coordinate b t =
      let (after, ds) = build b t in
      (
        if is_built coordinate after then after else decline (promise_unbuilt coordinate) after,
        map raised ds,
      )

  -- One round, over its promises in order of their coordinates.
  unfoldable pub fulfil_round : Table B → Registry N B S → ℕ → Went N B S D
  fulfil_round [] t k = record { after = t; found = []; asked = k; cut = false }
  fulfil_round ((coordinate, b) ∷ rest) t k =
      let (after, ds) = call coordinate b t in
      let w = fulfil_round rest after (suc k) in
      let skipped = fulfil_round rest t (suc k) in
      if stopped k
      then record { after = t; found = []; asked = suc k; cut = true }
      else if is_built coordinate t
      then skipped
      else record w { found = ds ++ w.found }

  abbrev pub unasked : Registry N B S → ℕ → Went N B S D
  unasked t k = record { after = t; found = []; asked = k; cut = false }

  -- What the loop does where these promises are outstanding: `w` is the round that takes them, and `rest`
  -- what the rounds after it come to.
  unfoldable pub go_on :
      Table B → Registry N B S → ℕ → Went N B S D → Option (Went N B S D) → Option (Went N B S D)
  go_on [] t k w rest = some (unasked t k)
  go_on (p ∷ ps) t k w rest = if w.cut then some w else elim rest [
    | none ↦ none
    | some more ↦ some (record more { found = w.found ++ more.found })
  ]

  -- The rounds, of which `fuel` at most are run; `none` says that promises were left.
  unfoldable pub fulfil_rounds : ℕ → Registry N B S → ℕ → Option (Went N B S D)
  fulfil_rounds zero t k = elim t.promises [ [] ↦ some (unasked t k) | p ∷ ps ↦ none ]
  fulfil_rounds (suc fuel) t k =
      let w = fulfil_round (sorted t.promises) (record t { promises = [] }) k in
      go_on t.promises t k w (fulfil_rounds fuel w.after w.asked)

  -- `fulfil`, which marks the registry at the end however it ends.
  unfoldable pub fulfil : ℕ → Registry N B S → ℕ → Option (Went N B S D)
  fulfil fuel t k = elim (fulfil_rounds fuel t k) [
    | none ↦ none
    | some w ↦ some (record w { after = record w.after { fulfilled = true } })
  ]

module _ {N B S D : Type 0} (stopped : ℕ → Bool)
    (settle_with : S → Registry N B S → Registry N B S × List D) where
  -- One settlement, refused where the nodes it leaves are not those it found and registered.
  unfoldable pub settle_one : S → Registry N B S → Registry N B S × List (Finding D)
  settle_one s t =
      let (after, ds) = settle_with s t in
      let sized =
        table_size after.types.reg + t.types.minted
        == table_size t.types.reg + after.types.minted in
      let why =
        size_changed (table_size t.types.reg) (table_size after.types.reg)
          (after.types.minted - t.types.minted) in
      (if sized then after else decline why after, map raised ds)

  unfoldable pub settle_all : List S → Registry N B S → ℕ → Went N B S D
  settle_all [] t k = record { after = t; found = []; asked = k; cut = false }
  settle_all (s ∷ rest) t k =
      let (after, ds) = settle_one s t in
      let w = settle_all rest after (suc k) in
      if stopped k
      then record { after = t; found = []; asked = suc k; cut = true }
      else record w { found = ds ++ w.found }

  unfoldable pub settle : Registry N B S → ℕ → Went N B S D
  settle t k =
      settle_all (t.completing ++ t.pending)
        (record t { settled = true; completing = []; pending = [] }) k

module _ {N B S D : Type 0} where
  -- What `Finish` reports of the refusals.
  unfoldable pub report : Registry N B S → Registry N B S × List (Finding D)
  report t = (
    record t { reported = length t.types.refused },
    map registry_refused (drop t.reported t.types.refused),
  )

-- `Finish`, and what it returns: the nodes are those of the registry.
unfoldable pub finish :
    {N B S D : Type 0}
    → (ℕ → Bool)
    → (B → Registry N B S → Registry N B S × List D)
    → (S → Registry N B S → Registry N B S × List D)
    → ℕ
    → Registry N B S
    → ℕ
    → Option (Registry N B S × List (Finding D))
finish stopped build settle_with fuel t k = elim (fulfil stopped build fuel t k) [
  | none ↦ none
  | some w ↦
      let s = settle stopped settle_with w.after w.asked in
      let (after, told) = report s.after in some (after, w.found ++ s.found ++ told)
]
