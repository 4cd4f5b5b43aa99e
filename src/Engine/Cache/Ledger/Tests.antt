-- ===== src/Engine/Cache/Ledger/Tests.antt =====
-- engine/cache/ledger.go: ledgers of two records, and texts that are none.
use morphic.Base.{
  ℕ, Bool, true, false, ◌||◌, List, [], ◌∷◌, ◌++◌, some, Bytes, codes, refl, ◌≡◌, ltb, arith,
  same_text, ◌/◌,
}
use morphic.Base.Format.{format_nat, digits_value}
use morphic.Engine.Cache.Ledger.{
  unsigned_of, positive_of, negative_of, atoi, sized, record_size, tally_loop, tally_due, padded,
  record_of, ledger_of, prune_due,
}
use morphic.Engine.Cache.Ledger.Tally.{any_past, sum_of, tally_due-ledger_of}

run_due : Bytes → ℕ → Bool
unfolding prune_due tally_due tally_loop record_size sized atoi negative_of positive_of unsigned_of
    digits_value same_text
run_due data_of limit = prune_due false (some data_of) limit

run_ledger : List ℕ → Bytes
unfolding ledger_of record_of padded format_nat
run_ledger sizes = ledger_of sizes

small_sizes : run_due (run_ledger (100 ∷ 20 ∷ [])) 1000 ≡ false
unfolding run_due run_ledger
small_sizes = refl

large_sizes : run_due (run_ledger (100 ∷ 26 ∷ [])) 1000 ≡ true
unfolding run_due run_ledger
large_sizes = refl

torn_record : run_due (codes "0000000000000000012") 1000 ≡ true
unfolding run_due
torn_record = refl

negative_record : run_due (codes "-0000000000000000012" ++ b'\n' ∷ []) 1000 ≡ true
unfolding run_due
negative_record = refl

tally_due-ledger_of_example :
    tally_due (ledger_of (100 ∷ 26 ∷ [])) 1000
    ≡ (ltb 4096 2 || (any_past 1000 (100 ∷ 26 ∷ []) || ltb (1000 / 8) (sum_of (100 ∷ 26 ∷ []))))
tally_due-ledger_of_example =
    tally_due-ledger_of 1000 (100 ∷ 26 ∷ []) (omega arith) (omega arith, (omega arith, tt))
