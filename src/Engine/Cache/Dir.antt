-- ===== src/Engine/Cache/Dir.antt =====
-- engine/cache/dir.go: the loading and the storing of an entry in a directory.
-- The text of a key is a parameter, and so is what the operating system answers: to the reading of a
-- file, the making of the directory, the writing of a file, and to the steps of a prune.
mod Tests
use morphic.Base.{
  ℕ, Bool, true, false, not, List, [], ◌∷◌, ◌++◌, Option, none, some, Bytes, Result, ok, err,
  if◌then◌else◌, ltb, length,
}
use morphic.Engine.Cache.Prune.{
  DirEntry, Removal, removed, absent_file, remove_failed, PruneError, prune, entry_suffix,
}
use morphic.Engine.Cache.Ledger.{prune_due}

-- `Dir`, which keeps no entries where its path is empty.
pub record EntryDir : Type 0 where
  pub dir_path : Bytes
  pub dir_limit : ℕ

abbrev pub max_bytes : ℕ
max_bytes = 1_073_741_824

pub data DirError : Type 0 where
  pathless_dir unread_entry unmade_dir unwritten_entry reset_failed : DirError
  oversized : ℕ → DirError
  unpruned : PruneError → DirError

-- What the reading of a file comes to.
pub data FileRead : Type 0 where
  missing_file unreadable_file : FileRead
  read_file : Bytes → FileRead

unfoldable pub new_dir : Bytes → Result DirError EntryDir
new_dir [] = err pathless_dir
new_dir (c ∷ path) = ok (record { dir_path = c ∷ path; dir_limit = max_bytes })

-- The name that an entry is kept under, given the text of its key.
unfoldable pub file_name_of : Bytes → Bytes
file_name_of key = key ++ entry_suffix

-- `Load`; marking the file as used is best effort and changes no answer.
unfoldable pub load_entry : EntryDir → (Bytes → FileRead) → Bytes → Result DirError (Option Bytes)
load_entry d read key = elim d.dir_path [
  | [] ↦ err pathless_dir
  | c ∷ path ↦ elim (read (file_name_of key)) [
    | missing_file ↦ ok none
    | unreadable_file ↦ err unread_entry
    | read_file entry ↦
        if ltb d.dir_limit (length entry) then err (oversized (length entry)) else ok (some entry)
  ]
]

-- `resetLedger`.
unfoldable pub reset_ledger : Removal → List DirError
reset_ledger removed = []
reset_ledger absent_file = []
reset_ledger remove_failed = reset_failed ∷ []

unfoldable pub prune_errors : Option PruneError → List DirError
prune_errors none = []
prune_errors (some e) = unpruned e ∷ []

-- What the operating system answers in the course of a `Store`.
pub record StoreAnswers : Type 0 where
  pub dir_made : Bool
  pub entry_written : Bool
  pub append_failed : Bool
  pub ledger_read : Option Bytes
  pub ledger_removed : Removal
  pub removals : Bytes → Removal
  pub now_at : ℕ
  pub listing : Option (List DirEntry)

-- The steps behind the writing of an entry: the names that were removed, and the errors, joined.
unfoldable pub after_write : EntryDir → StoreAnswers → List Bytes × List DirError
after_write d a =
    if not (prune_due a.append_failed a.ledger_read d.dir_limit)
    then ([], [])
    else let (names, failed) = prune d.dir_limit a.removals a.now_at a.listing in
      (names, reset_ledger a.ledger_removed ++ prune_errors failed)

-- `Store`.
unfoldable pub store_entry : EntryDir → StoreAnswers → Bytes → List Bytes × List DirError
store_entry d a entry = elim d.dir_path [
  | [] ↦ ([], pathless_dir ∷ [])
  | c ∷ path ↦
      if ltb d.dir_limit (length entry)
      then ([], oversized (length entry) ∷ [])
      else if not a.dir_made
      then ([], unmade_dir ∷ [])
      else if not a.entry_written
      then ([], unwritten_entry ∷ [])
      else after_write d a
]
