-- ===== src/Ir/Inferred/Tests.antt =====
-- Runs of ir/inferred.go, and its theorems at concrete lists.
use morphic.Base.{has, Bytes, true, false, List, [], ◌∷◌, codes, ◌≡◌, refl, same_text}
use morphic.Ir.Inferred.{
  Inferred, extend, split, join, take_names, take_lists, join_inferred, all_new, is_canonical,
}
use morphic.Ir.Inferred.Canonical.{join_inferred-is_canonical, is_canonical-join_inferred}

-- Its line opens all that `join_inferred` and `is_canonical` call.
run_join : List Inferred → Bytes
unfolding join_inferred take_lists take_names split extend join has all_new is_canonical same_text
run_join lists = join_inferred lists

join_two :
    join_inferred (codes "nullable,,enum" ∷ codes "enum,format" ∷ []) ≡ codes "nullable,enum,format"
unfolding run_join
join_two = refl

twice_named : is_canonical (codes "enum,enum") ≡ false
unfolding run_join
twice_named = refl

two_named : is_canonical (codes "enum,format") ≡ true
unfolding run_join
two_named = refl

join_inferred-is_canonical_example :
    is_canonical (join_inferred (codes "nullable,,enum" ∷ codes "enum,format" ∷ [])) ≡ true
join_inferred-is_canonical_example =
    join_inferred-is_canonical (codes "nullable,,enum" ∷ codes "enum,format" ∷ [])

is_canonical-join_inferred_example : join_inferred (codes "enum,format" ∷ []) ≡ codes "enum,format"
is_canonical-join_inferred_example = is_canonical-join_inferred (codes "enum,format") two_named
