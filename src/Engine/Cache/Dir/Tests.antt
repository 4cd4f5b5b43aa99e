-- ===== src/Engine/Cache/Dir/Tests.antt =====
-- engine/cache/dir.go: loads and stores of a small directory.
use morphic.Base.{true, List, [], ◌∷◌, Option, none, some, Bytes, codes, Result, ok, err, refl, ◌≡◌}
use morphic.Engine.Cache.Prune.{removed, prune, list_failed}
use morphic.Engine.Cache.Ledger.{prune_due}
use morphic.Engine.Cache.Dir.{
  EntryDir, FileRead, read_file, missing_file, StoreAnswers, DirError, oversized, unpruned,
  load_entry, file_name_of, reset_ledger, prune_errors, after_write, store_entry,
}

abbrev small_dir : EntryDir
small_dir = record { dir_path = b'd' ∷ []; dir_limit = 3 }

abbrev answers : StoreAnswers
answers = record {
  dir_made = true;
  entry_written = true;
  append_failed = true;
  ledger_read = none;
  ledger_removed = removed;
  removals = λ name. removed;
  now_at = 5;
  listing = none;
}

run_load : FileRead → Result DirError (Option Bytes)
unfolding load_entry file_name_of
run_load answer = load_entry small_dir (λ name. answer) (codes "k")

loads : run_load (read_file (codes "abc")) ≡ ok (some (codes "abc"))
unfolding run_load
loads = refl

load_missing : run_load missing_file ≡ ok none
unfolding run_load
load_missing = refl

load_past_limit : run_load (read_file (codes "abcd")) ≡ err (oversized 4)
unfolding run_load
load_past_limit = refl

run_store : Bytes → List Bytes × List DirError
unfolding store_entry after_write reset_ledger prune_errors prune prune_due
run_store entry = store_entry small_dir answers entry

store_past_limit : run_store (codes "abcd") ≡ ([], oversized 4 ∷ [])
unfolding run_store
store_past_limit = refl

store_unlisted : run_store (codes "abc") ≡ ([], unpruned list_failed ∷ [])
unfolding run_store
store_unlisted = refl
