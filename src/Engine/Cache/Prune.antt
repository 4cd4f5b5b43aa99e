-- ===== src/Engine/Cache/Prune.antt =====
-- engine/cache/prune.go: the removal of the oldest entries of a directory that holds too many bytes.
-- A time is a number of nanoseconds. What the directory lists, what it tells of a file and whether it
-- removes one are parameters. The total is an int of 64 bits: it is kept below 2 ^ 64, where what is not
-- below 2 ^ 63 is negative.
pub mod Sorted
pub mod Pruned
mod Tests
use morphic.Base.{
  ℕ, zero, suc, ◌+◌, ◌-◌, ◌*◌, ◌%◌, Bool, true, false, not, ◌&&◌, ◌||◌, List, [], ◌∷◌, Option, none,
  some, Bytes, codes, Result, ok, err, if◌then◌else◌, ◌==◌, leb, ltb, same_text, compare_text,
  Ordering, compare,
}
use morphic.Ir.Ids.{cut_prefix}
use morphic.Engine.Cache.Ledger.{int_bound, int_words}
use morphic.Ir.Decimal.{is_ascii_digit}

abbrev pub entry_suffix : Bytes
entry_suffix = codes ".entry"

abbrev pub stale_after : ℕ
stale_after = 3_600_000_000_000

-- What a directory tells of a file: that there is none by now, nothing, or its size and time.
pub data Info : Type 0 where
  gone_file unknown_file : Info
  known_file : (size modified : ℕ) → Info

pub record DirEntry : Type 0 where
  pub name : Bytes
  pub regular : Bool
  pub info : Info

pub record Held : Type 0 where
  pub name : Bytes
  pub size : ℕ
  pub modified : ℕ

pub data Removal : Type 0 where
  removed absent_file remove_failed : Removal

pub data PruneError : Type 0 where
  list_failed info_failed removal_failed : PruneError

unfoldable pub is_hex_lower : ℕ → Bool
is_hex_lower c = is_ascii_digit c || leb b'a' c && leb c b'f'

-- What stands behind a number of hexadecimal digits.
unfoldable pub past_hex : ℕ → Bytes → Option Bytes
past_hex zero s = some s
past_hex (suc n) [] = none
past_hex (suc n) (c ∷ s) = let rest = past_hex n s in if is_hex_lower c then rest else none

unfoldable pub some_digits : Bytes → Bool
some_digits [] = false
some_digits (c ∷ []) = is_ascii_digit c
some_digits (c ∷ d ∷ s) = is_ascii_digit c && some_digits (d ∷ s)

unfoldable pub is_entry : Bytes → Bool
is_entry s = elim (past_hex 64 s) [ none ↦ false | some rest ↦ same_text rest entry_suffix ]

unfoldable pub is_temporary : Bytes → Bool
is_temporary s = elim (past_hex 64 s) [
  | none ↦ false
  | some rest ↦ elim (cut_prefix entry_suffix rest) [
    | none ↦ false
    | some digits ↦ some_digits digits
  ]
]

-- `ownName`.
unfoldable pub own_name : Bytes → Bool
own_name [] = false
own_name (c ∷ s) = if c == b'.' then is_temporary s else is_entry (c ∷ s)

unfoldable pub is_hidden : Bytes → Bool
is_hidden [] = false
is_hidden (c ∷ s) = c == b'.'

-- A round of `heldIn`: an error, or what is held of the file, if anything.
unfoldable pub held_one : ℕ → DirEntry → Result PruneError (Option Held)
held_one now e = if not (e.regular && own_name e.name) then ok none else elim e.info [
  | gone_file ↦ ok none
  | unknown_file ↦ err info_failed
  | known_file size modified ↦
      if is_hidden e.name && ltb now (modified + stale_after)
      then ok none
      else ok (some (record { name = e.name; size = size; modified = modified }))
]

-- Older first, and by name where the times are one.
unfoldable pub comes_first : Held → Held → Bool
comes_first a b = elim (compare a.modified b.modified) [
  | Ordering.lt ↦ true
  | Ordering.gt ↦ false
  | Ordering.eq ↦ elim (compare_text a.name b.name) [ Ordering.gt ↦ false | _ ↦ true ]
]

unfoldable pub insert_held : Held → List Held → List Held
insert_held x [] = x ∷ []
insert_held x (y ∷ ys) =
    let rest = insert_held x ys in if comes_first x y then x ∷ y ∷ ys else y ∷ rest

unfoldable pub put_held : Option Held → List Held → List Held
put_held none files = files
put_held (some x) files = insert_held x files

-- `heldIn`, which sorts what it collects.
unfoldable pub held_in : ℕ → List DirEntry → Result PruneError (List Held)
held_in now [] = ok []
held_in now (e ∷ listed) = elim (held_one now e) [
  | err f ↦ err f
  | ok x ↦ elim (held_in now listed) [ err f ↦ err f | ok files ↦ ok (put_held x files) ]
]

-- A sum and a difference of ints, which wrap.
unfoldable pub plus_int : ℕ → ℕ → ℕ
plus_int a b = (a + b) % int_words

unfoldable pub minus_int : ℕ → ℕ → ℕ
minus_int a b = (a + (int_words - b)) % int_words

-- The first loop of `prune`, from a total on.
unfoldable pub total_from : ℕ → List Held → ℕ
total_from total [] = total
total_from total (f ∷ files) = total_from (plus_int total f.size) files

-- `total <= d.limit`.
unfoldable pub total_fits : ℕ → ℕ → Bool
total_fits total limit = leb int_bound total || leb total limit

-- The names that are removed from a file on, where the loop is at that file and may go on.
unfoldable pub after_removal :
    Bytes → Removal → List Bytes × Option PruneError → List Bytes × Option PruneError
after_removal name removed (names, failed) = (name ∷ names, failed)
after_removal name absent_file (names, failed) = (name ∷ names, failed)
after_removal name remove_failed rest = ([], some removal_failed)

-- The second loop of `prune`: the names that it removes, and an error.
unfoldable pub prune_loop : ℕ → (Bytes → Removal) → ℕ → List Held → List Bytes × Option PruneError
prune_loop limit remove total [] = ([], none)
prune_loop limit remove total (f ∷ files) =
    let rest = prune_loop limit remove (minus_int total f.size) files in
    if total_fits total limit then ([], none) else after_removal f.name (remove f.name) rest

-- `prune` of what was listed, if it could be.
unfoldable pub prune :
    ℕ → (Bytes → Removal) → ℕ → Option (List DirEntry) → List Bytes × Option PruneError
prune limit remove now none = ([], some list_failed)
prune limit remove now (some listed) = elim (held_in now listed) [
  | err f ↦ ([], some f)
  | ok files ↦ prune_loop limit remove (total_from 0 files) files
]
