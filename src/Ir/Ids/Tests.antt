-- ===== src/Ir/Ids/Tests.antt =====
-- Runs of ir/ids.go.
use morphic.Base.{false, some, Option, Bytes, codes, ◌≡◌, refl}
use morphic.Ir.Ids.{
  segment, cut_prefix, rest_valid, well_formed_id, trim_prefix, id_rest, id_space, id_path,
  prim_type_id,
}

run_path : Bytes → Option Bytes
unfolding id_path id_space id_rest trim_prefix well_formed_id rest_valid cut_prefix segment
    prim_type_id
run_path id = id_path (codes "t") id

path_read : run_path (codes "t/spec/components/schemas/Pet") ≡ some (codes "components/schemas/Pet")
unfolding run_path
path_read = refl

prim_space : id_space (codes "t") (prim_type_id (codes "string")) ≡ some (codes "prim")
unfolding run_path
prim_space = refl

no_space : well_formed_id (codes "t") (codes "t//Pet") ≡ false
unfolding run_path
no_space = refl

no_path : well_formed_id (codes "t") (codes "t/spec/") ≡ false
unfolding run_path
no_path = refl
