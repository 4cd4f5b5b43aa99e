-- ===== src/Engine/Cache/Ledger/Tally.antt =====
-- engine/cache/ledger.go: when a ledger that was only appended to makes a prune due.
use morphic.Base.{
  ℕ, ◌+◌, ◌-◌, ◌*◌, ◌/◌, ◌%◌, ◌<◌, ◌≤◌, Bool, true, false, ◌&&◌, ◌||◌, List, [], ◌∷◌, ◌++◌, none,
  some, Bytes, if◌then◌else◌, ◌==◌, leb, ltb, length, take, drop, replicate, same_text, ◌≡◌, ◌≢◌,
  inl, inr, refl, ap, subst, ◌∙◌, arith, All, Bool-cases, length-append, length-replicate,
  take-length, drop-length,
}
use morphic.Base.Format.{format_nat, digits_value, digits_value-format_nat, length-format_nat}
use morphic.Base.Int.{pos}
use morphic.Engine.Cache.Ledger.{
  max_records, int_bound, int_words, unsigned_of, positive_of, atoi, sized, record_size, tally_loop,
  tally_due, padded, record_of, ledger_of,
}

-- A number of an int has no more than twenty digits, so a record is as wide as it is to be.
length-padded : (size : ℕ) → size < int_bound → length (padded size) ≡ 20
unfolding padded
length-padded size h =
    let short : length (format_nat size) ≤ 20 = length-format_nat 19 size (omega (arith, h)) in
    omega (
      arith,
      length-append (replicate (20 - length (format_nat size)) b'0') (format_nat size),
      length-replicate {A = ℕ} (20 - length (format_nat size)) b'0',
      short,
    )

length-record_of : (size : ℕ) → size < int_bound → length (record_of size) ≡ 21
unfolding record_of
length-record_of size h =
    omega (arith, length-append (padded size) (b'\n' ∷ []), length-padded size h)

first_digit :
    (m n c : ℕ) (s : Bytes) → digits_value m (c ∷ s) ≡ some n → (leb b'0' c && leb c b'9') ≡ true
unfolding digits_value
first_digit m n c s h = elim (Bool-cases (leb b'0' c && leb c b'9')) [
  | inl e ↦ e
  | inr e ↦ absurd (cc (rw (digits_value, e) at h))
]

padded_digits : (size : ℕ) → digits_value 0 (padded size) ≡ some size
unfolding padded
padded_digits size = digits_value-format_nat (20 - length (format_nat size)) size

atoi_digits :
    (s : Bytes) (n : ℕ) → digits_value 0 s ≡ some n → s ≢ [] → n < int_bound → atoi s ≡ some (pos n)
unfolding atoi unsigned_of positive_of
atoi_digits [] n h full small = absurd (full refl)
atoi_digits (c ∷ s) n h full small =
    let digit = first_digit 0 n c s h in
    let minus : (c == b'-') ≡ false = ground (arith, digit) in
    let plus : (c == b'+') ≡ false = ground (arith, digit) in
    let bound : ltb n int_bound ≡ true = ground (arith, small) in rw (atoi, minus, plus, h, bound)

padded_value : (size : ℕ) → size < int_bound → atoi (padded size) ≡ some (pos size)
padded_value size h =
    atoi_digits (padded size) size (padded_digits size)
      (λ e. omega (arith, length-padded size h, ap length e)) h

-- A record is read as it was written, where the limit allows its size.
record_size-record_of :
    (limit size : ℕ)
    → size < int_bound
    → record_size limit (record_of size) ≡ (if ltb limit size then none else some size)
unfolding record_size record_of sized same_text
record_size-record_of limit size h =
    let front : take 20 (padded size ++ b'\n' ∷ []) ≡ padded size =
      subst (λ k. take k (padded size ++ b'\n' ∷ []) ≡ padded size) (length-padded size h)
        (take-length (padded size) (b'\n' ∷ [])) in
    let back : drop 20 (padded size ++ b'\n' ∷ []) ≡ b'\n' ∷ [] =
      subst (λ k. drop k (padded size ++ b'\n' ∷ []) ≡ b'\n' ∷ []) (length-padded size h)
        (drop-length (padded size) (b'\n' ∷ [])) in
    rw (record_size, record_of, front, back, padded_value size h) (ground arith)

-- 4096 sizes that a limit below this one allows add up to what an int holds.
abbrev pub limit_bound : ℕ
limit_bound = 2_251_799_813_685_248

-- A size that the limit does not allow.
unfoldable pub any_past : ℕ → List ℕ → Bool
any_past limit [] = false
any_past limit (size ∷ sizes) = ltb limit size || any_past limit sizes

unfoldable pub sum_of : List ℕ → ℕ
sum_of [] = 0
sum_of (size ∷ sizes) = size + sum_of sizes

-- The limit once for each of some sizes, which is what those may add up to.
unfoldable room : ℕ → List ℕ → ℕ
room limit [] = 0
room limit (size ∷ sizes) = limit + room limit sizes

room_le :
    (limit : ℕ) (sizes : List ℕ)
    → limit < limit_bound
    → room limit sizes ≤ 2_251_799_813_685_247 * length sizes
unfolding room
room_le limit [] h = omega arith
room_le limit (size ∷ sizes) h = omega (arith, h, room_le limit sizes h)

tally_loop-ledger_of :
    (limit total : ℕ) (sizes : List ℕ)
    → All (λ size. size < int_bound) sizes
    → total + room limit sizes < int_bound
    → tally_loop limit (length sizes) (ledger_of sizes) total
      ≡ (any_past limit sizes || ltb (limit / 8) (total + sum_of sizes))
unfolding tally_loop ledger_of any_past sum_of room
tally_loop-ledger_of limit total [] _ fits = ground (arith, fits)
tally_loop-ledger_of limit total (size ∷ sizes) (small, all_small) fits =
    let wide = length-record_of size small in
    let front : take 21 (record_of size ++ ledger_of sizes) ≡ record_of size =
      subst (λ k. take k (record_of size ++ ledger_of sizes) ≡ record_of size) wide
        (take-length (record_of size) (ledger_of sizes)) in
    let back : drop 21 (record_of size ++ ledger_of sizes) ≡ ledger_of sizes =
      subst (λ k. drop k (record_of size ++ ledger_of sizes) ≡ ledger_of sizes) wide
        (drop-length (record_of size) (ledger_of sizes)) in
    let read = record_size-record_of limit size small in
    elim (Bool-cases (ltb limit size)) [
      | inl e ↦ rw (tally_loop, ledger_of, front, read, e)
      | inr e ↦
          let allowed : size ≤ limit = ground (arith, e) in
          let sum : (total + size) % int_words ≡ total + size = omega (arith, allowed, fits) in
          rw (tally_loop, ledger_of, front, read, e, back, sum)
            (tally_loop-ledger_of limit (total + size) sizes all_small
                (omega (arith, allowed, fits))
              ∙ ap (λ n. any_past limit sizes || ltb (limit / 8) n) (omega arith))
    ]

length-ledger_of :
    (sizes : List ℕ)
    → All (λ size. size < int_bound) sizes
    → length (ledger_of sizes) ≡ 21 * length sizes
unfolding ledger_of
length-ledger_of [] _ = refl
length-ledger_of (size ∷ sizes) (small, all_small) = omega (
  arith,
  length-append (record_of size) (ledger_of sizes),
  length-record_of size small,
  length-ledger_of sizes all_small,
)

-- Under a limit below 2 ^ 51, a ledger that records of sizes that an int holds were appended to, and nothing
-- else, makes a prune due exactly where it holds more than 4096 records, one of a size past the limit, or
-- sizes that add up to more than an eighth of the limit.
pub tally_due-ledger_of :
    (limit : ℕ) (sizes : List ℕ)
    → limit < limit_bound
    → All (λ size. size < int_bound) sizes
    → tally_due (ledger_of sizes) limit
      ≡ (ltb max_records (length sizes) || (any_past limit sizes || ltb (limit / 8) (sum_of sizes)))
unfolding tally_due
tally_due-ledger_of limit sizes bounded small =
    let wide = length-ledger_of sizes small in
    let whole : (length (ledger_of sizes) % 21 == 0) ≡ true = ground (arith, wide) in
    let count : length (ledger_of sizes) / 21 ≡ length sizes = omega (arith, wide) in
    let long : ltb (4096 * 21) (length (ledger_of sizes)) ≡ ltb 4096 (length sizes) =
      ground (arith, wide) in
    elim (Bool-cases (ltb 4096 (length sizes))) [
      | inl many ↦ rw (tally_due, long, many)
      | inr few ↦
          let fits : 0 + room limit sizes < int_bound =
            ground (arith, few, room_le limit sizes bounded) in
          rw (tally_due, long, few, whole, count, tally_loop-ledger_of limit 0 sizes small fits)
            (ground arith)
    ]
