-- ===== src/Engine/Cache/Prune/Tests.antt =====
-- engine/cache/prune.go: prunes of a directory of three entries.
use morphic.Base.{
  ℕ, true, List, [], ◌∷◌, ◌++◌, Option, none, some, Bytes, codes, refl, ◌≡◌, replicate, same_text,
  compare_text, if◌then◌else◌,
}
use morphic.Ir.Ids.{cut_prefix}
use morphic.Engine.Cache.Prune.{
  DirEntry, known_file, Removal, removed, absent_file, remove_failed, PruneError, removal_failed,
  entry_suffix, is_hex_lower, past_hex, some_digits, is_entry, is_temporary, own_name, is_hidden,
  held_one, comes_first, insert_held, put_held, held_in, Held, plus_int, minus_int, total_from,
  total_fits, after_removal, prune_loop, prune,
}
use morphic.Engine.Cache.Prune.Pruned.{Pruned}

-- The name of an entry whose key is one digit throughout.
abbrev entry_name : ℕ → Bytes
entry_name c = replicate 64 c ++ entry_suffix

abbrev file_of : Bytes → ℕ → ℕ → DirEntry
file_of name size modified = record { name = name; regular = true; info = known_file size modified }

abbrev directory : List DirEntry
directory =
    file_of (entry_name b'a') 5 30
    ∷ file_of (entry_name b'b') 7 10
    ∷ file_of (codes "notes.entry") 90 1
    ∷ file_of (entry_name b'c') 4 20
    ∷ file_of (b'.' ∷ entry_name b'd' ++ codes "17") 6 40
    ∷ []

abbrev always : Bytes → Removal
always name = removed

run_prune : ℕ → (Bytes → Removal) → List Bytes × Option PruneError
unfolding prune prune_loop after_removal plus_int minus_int total_from total_fits held_in put_held
    insert_held comes_first held_one is_hidden own_name is_temporary is_entry some_digits past_hex
    is_hex_lower cut_prefix same_text compare_text
run_prune limit remove = prune limit remove 50 (some directory)

all_fit : run_prune 16 always ≡ ([], none)
unfolding run_prune
all_fit = refl

not_removed :
    run_prune 3 (λ name. if same_text name (entry_name b'c') then remove_failed else absent_file)
    ≡ (entry_name b'b' ∷ [], some removal_failed)
unfolding run_prune
not_removed = refl

abbrev held_three : List Held
held_three =
    record { name = entry_name b'b'; size = 7; modified = 10 }
    ∷ record { name = entry_name b'c'; size = 4; modified = 20 }
    ∷ record { name = entry_name b'a'; size = 5; modified = 30 }
    ∷ []
