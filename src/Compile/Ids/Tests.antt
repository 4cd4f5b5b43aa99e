-- ===== src/Compile/Ids/Tests.antt =====
-- Runs of compilers/compile/ids.go, and its theorems at a document whose name has a tilde and a separator.
use morphic.Base.{true, none, some, Bytes, codes, ◌≡◌, refl, if◌then◌else◌}
use morphic.Ir.BigVal.{is_nil}
use morphic.Ir.Ids.{
  segment, cut_prefix, rest_valid, well_formed_id, trim_prefix, id_rest, id_space, id_path,
}
use morphic.Ir.Ids.Parts.{lacks}
use morphic.Compile.Ids.{replace_byte, escape, qualified, id_for}
use morphic.Compile.Ids.Parts.{id_for-parts, id_for-qualified}

abbrev space : Bytes
space = codes "spec"

abbrev document : Bytes
document = codes "a~b/c.yaml"

run_id : Bytes → Bytes
unfolding id_for qualified escape replace_byte trim_prefix cut_prefix lacks id_path id_space id_rest
    well_formed_id rest_valid segment
run_id path = id_for (codes "t") (qualified space document) path

id_made : run_id (codes "/paths/x") ≡ codes "t/spec@a~0b~1c.yaml/paths/x"
unfolding run_id
id_made = refl

plain : lacks b'/' space ≡ true
unfolding run_id
plain = refl

unqualified : lacks b'@' space ≡ true
unfolding run_id
unqualified = refl

id_for-parts_example :
    let id = id_for (codes "t") space (codes "/paths/x") in
    let trimmed = trim_prefix (codes "/") (codes "/paths/x") in
    (well_formed_id (codes "t") id ≡ true)
    × (id_space (codes "t") id ≡ some space)
    × (id_path (codes "t") id ≡ (if is_nil trimmed then none else some trimmed))
id_for-parts_example = id_for-parts (codes "t") space (codes "/paths/x") refl plain

two_paths :
    id_for (codes "t") (qualified space document) (codes "/x")
    ≡ id_for (codes "t") (qualified space document) (codes "x")
unfolding run_id
two_paths = refl

id_for-qualified_example :
    (space ≡ space)
    × (document ≡ document)
    × (trim_prefix (codes "/") (codes "/x") ≡ trim_prefix (codes "/") (codes "x"))
id_for-qualified_example =
    id_for-qualified (codes "t") space space document document (codes "/x") (codes "x") unqualified
      unqualified plain plain two_paths
