-- ===== src/Compile/Types.antt =====
-- compilers/compile/types.go: the registry of types that a compile fills.
-- A Go map is an association list whose first pair for a key is its entry; `table_size` is its number of
-- entries. A type definition is a
-- parameter `N`: the registry asks of one only whether it is nil, which an option says, and whether it
-- equals another, `same`. A build is a function of the registry, which it may intern into in turn. The
-- text of a refusal is left out.
pub mod Interned
mod Tests
use morphic.Base.{
  ℕ, suc, Bool, true, false, not, ◌&&◌, ◌||◌, List, [], ◌∷◌, ◌++◌, Option, none, some, Bytes,
  same_text, Table, find, delete, if◌then◌else◌, ◌==◌,
}
use morphic.Ir.BigVal.{is_nil}
use morphic.Ir.Ids.{segment}

-- The refusals, by what is refused: those of the registry, then those of promises and of settlements.
pub data Refusal : Type 0 where
  id_twice space_mixed intern_incomplete nil_built empty_id nil_registered other_held :
      Bytes → Refusal
  promised_late promise_incomplete promise_unbuilt : Bytes → Refusal
  settled_late nil_settlement : Refusal
  size_changed : (before after registered : ℕ) → Refusal

pub record Types (N : Type 0) : Type 0 where
  pub reg : Table N
  pub by_pointer : Table Bytes
  pub spaces : Table Bool
  pub by_id : Table Bytes
  pub refused : List Refusal
  pub minted : ℕ

-- `len` of a map.
unfoldable pub table_size : {A : Type 0} → Table A → ℕ
table_size [] = 0
table_size ((k, a) ∷ table) =
    let rest = table_size table in elim (find table k) [ none ↦ suc rest | some held ↦ rest ]

unfoldable pub space_of : Bytes → Bytes
space_of id = elim (segment id).1 [ none ↦ [] | some rest ↦ (segment rest).0 ]

abbrev pub same_flags : Bool → Bool → Bool
same_flags true b = b
same_flags false b = not b

module _ {N : Type 0} where
  abbrev pub new_types : Types N
  new_types = record {
    reg = [];
    by_pointer = [];
    spaces = [];
    by_id = [];
    refused = [];
    minted = 0;
  }

  unfoldable pub refuse : Refusal → Types N → Types N
  refuse why t = record t { refused = t.refused ++ why ∷ [] }

  unfoldable pub claim_id : Bytes → Bytes → Types N → Types N
  claim_id id pointer t =
      let claimed = record t { by_id = (id, pointer) ∷ t.by_id } in
      elim (find t.by_id id) [
        | none ↦ claimed
        | some owner ↦ if same_text owner pointer then claimed else refuse (id_twice id) t
      ]

  unfoldable pub claim_space : Bytes → Bool → Types N → Types N
  claim_space id minted t =
      let claimed = record t { spaces = (space_of id, minted) ∷ t.spaces } in
      if is_nil (space_of id) then t else elim (find t.spaces (space_of id)) [
        | none ↦ claimed
        | some was ↦ if same_flags was minted then claimed else refuse (space_mixed id) t
      ]

  -- What `Intern` has claimed when it calls the build.
  unfoldable pub claim : Bytes → Bytes → Types N → Types N
  claim pointer id t =
      let claimed = claim_id id pointer (claim_space id false t) in
      record claimed { by_pointer = (pointer, id) ∷ claimed.by_pointer }

  -- What `Intern` does with what the build returned.
  unfoldable pub built : Bytes → Bytes → Types N × Option N → Types N × Bytes
  built pointer id (t, none) = (
    refuse (nil_built id)
        (record t { by_pointer = delete t.by_pointer pointer; by_id = delete t.by_id id }),
    id,
  )
  built pointer id (t, some td) = (record t { reg = (id, td) ∷ delete t.reg id }, id)

  unfoldable pub intern :
      Bytes → Bytes → Option (Types N → Types N × Option N) → Types N → Types N × Bytes
  intern pointer id build t = elim (find t.by_pointer pointer) [
    | some existing ↦ (t, existing)
    | none ↦ elim build [
      | none ↦ (refuse (intern_incomplete id) t, id)
      | some run ↦
          if is_nil pointer || is_nil id
          then (refuse (intern_incomplete id) t, id)
          else built pointer id (run (claim pointer id t))
    ]
  ]

  unfoldable pub register : (N → N → Bool) → Bytes → Option N → Types N → Types N
  register same [] td t = refuse (empty_id []) t
  register same (c ∷ id) none t = refuse (nil_registered (c ∷ id)) t
  register same (c ∷ id) (some td) t =
      let claimed = claim_space (c ∷ id) true t in
      elim (find claimed.reg (c ∷ id)) [
        | some held ↦ if same held td then claimed else refuse (other_held (c ∷ id)) claimed
        | none ↦ record claimed { minted = suc claimed.minted; reg = (c ∷ id, td) ∷ claimed.reg }
      ]

  unfoldable pub lookup : Bytes → Types N → Option Bytes
  lookup pointer t = find t.by_pointer pointer

  unfoldable pub node : Bytes → Types N → Option N
  node id t = find t.reg id

  unfoldable pub node_at : Bytes → Types N → Option N
  node_at pointer t = elim (find t.by_pointer pointer) [ none ↦ none | some id ↦ find t.reg id ]

  unfoldable pub building : Bytes → Types N → Bool
  building id t = elim (find t.by_id id) [
    | none ↦ false
    | some owner ↦ elim (find t.reg id) [ none ↦ true | some td ↦ false ]
  ]

  -- `PrimRef`, where `prim` is the node of the primitive and `id` its identifier.
  unfoldable pub prim_ref : Bytes → N → Types N → Types N × Bytes
  prim_ref id prim t = elim (find t.reg id) [
    | some td ↦ (t, id)
    | none ↦ (record t { reg = (id, prim) ∷ t.reg }, id)
  ]
