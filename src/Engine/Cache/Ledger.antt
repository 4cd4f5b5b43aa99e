-- ===== src/Engine/Cache/Ledger.antt =====
-- engine/cache/ledger.go: the sizes of the entries stored since the last prune, and whether one is due.
-- An int has 64 bits: the total is kept below 2 ^ 64, where what is not below 2 ^ 63 is negative. A limit is
-- an int that is not negative.
pub mod Tally
mod Tests
use morphic.Base.{
  ℕ, zero, suc, ◌+◌, ◌-◌, ◌*◌, ◌/◌, ◌%◌, Bool, true, false, not, ◌&&◌, ◌||◌, List, [], ◌∷◌, ◌++◌,
  Option, none, some, Bytes, if◌then◌else◌, ◌==◌, leb, ltb, length, take, drop, replicate,
  same_text,
}
use morphic.Base.Format.{format_nat, digits_value}
use morphic.Base.Int.{ℤ, pos, negsuc}

abbrev pub record_width : ℕ
record_width = 21

abbrev pub max_records : ℕ
max_records = 4096

abbrev pub int_bound : ℕ
int_bound = 9_223_372_036_854_775_808

abbrev pub int_words : ℕ
int_words = 18_446_744_073_709_551_616

-- `strconv.Atoi`: a sign or none, digits, and no more than an int holds.
unfoldable pub unsigned_of : Bytes → Option ℕ
unsigned_of [] = none
unsigned_of (c ∷ s) = digits_value 0 (c ∷ s)

unfoldable pub positive_of : Option ℕ → Option ℤ
positive_of none = none
positive_of (some n) = if ltb n int_bound then some (pos n) else none

unfoldable pub negative_of : Option ℕ → Option ℤ
negative_of none = none
negative_of (some zero) = some (pos 0)
negative_of (some (suc n)) = if leb (suc n) int_bound then some (negsuc n) else none

unfoldable pub atoi : Bytes → Option ℤ
atoi [] = none
atoi (c ∷ s) =
    if c == b'-'
    then negative_of (unsigned_of s)
    else if c == b'+'
    then positive_of (unsigned_of s)
    else positive_of (unsigned_of (c ∷ s))

-- The size that a record holds, if it is whole and of a size that the limit allows.
unfoldable pub sized : ℕ → Bytes → Option ℤ → Option ℕ
sized limit line none = none
sized limit line (some (negsuc n)) = none
sized limit line (some (pos n)) =
    if ltb limit n || not (same_text line (b'\n' ∷ [])) then none else some n

unfoldable pub record_size : ℕ → Bytes → Option ℕ
record_size limit r = sized limit (drop 20 r) (atoi (take 20 r))

-- The loop of `tallyDue` over as many records as the data has.
unfoldable pub tally_loop : ℕ → ℕ → Bytes → ℕ → Bool
tally_loop limit zero data_of total = ltb total int_bound && ltb (limit / 8) total
tally_loop limit (suc records) data_of total =
    elim (record_size limit (take record_width data_of)) [
      | none ↦ true
      | some n ↦ tally_loop limit records (drop record_width data_of) ((total + n) % int_words)
    ]

-- `tallyDue`.
unfoldable pub tally_due : Bytes → ℕ → Bool
tally_due data_of limit =
    if ltb (max_records * record_width) (length data_of) || not (length data_of % record_width == 0)
    then true
    else tally_loop limit (length data_of / record_width) data_of 0

-- What `appendRecord` writes: the size in twenty digits, and the end of the line.
unfoldable pub padded : ℕ → Bytes
padded size = replicate (20 - length (format_nat size)) b'0' ++ format_nat size

unfoldable pub record_of : ℕ → Bytes
record_of size = padded size ++ b'\n' ∷ []

-- A ledger that records were appended to, and nothing else.
unfoldable pub ledger_of : List ℕ → Bytes
ledger_of [] = []
ledger_of (size ∷ sizes) = record_of size ++ ledger_of sizes

-- `pruneDue`: whether the record could not be appended, what the ledger is read as if it can be, and the
-- limit.
unfoldable pub prune_due : Bool → Option Bytes → ℕ → Bool
prune_due true data_of limit = true
prune_due false none limit = true
prune_due false (some data_of) limit = tally_due data_of limit
