-- ===== src/Base/Format.antt =====
-- Decimal text of integers, as `strconv.FormatInt` and `big.Int.String` write it, and `big.Int.GCD`.
use morphic.Base.{
  ℕ, zero, suc, ◌^◌, ◌≤◌, ◌&&◌, ◌++◌, leb, length, replicate, Option, none, some, ◌+◌, ◌-◌, ◌*◌,
  ◌/◌, ◌%◌, ◌<◌, [], ◌∷◌, Bytes, ◌==◌, ltb, if◌then◌else◌, true, false, ◌≡◌, sym, ap, ◌∙◌, inl, inr,
  arith, Bool-cases,
}
use morphic.Base.Int.{ℤ, pos, negsuc}

-- `n` is below ten to the power of the fuel, so the fuel lasts.
pub digits_of : ℕ → ℕ → Bytes → Bytes
digits_of zero n out = out
digits_of (suc fuel) n out = elim (n / 10 == 0) [
  | true ↦ (b'0' + n % 10) ∷ out
  | false ↦ digits_of fuel (n / 10) ((b'0' + n % 10) ∷ out)
]

unfoldable pub format_nat : ℕ → Bytes
unfolding digits_of
format_nat n = digits_of (suc n) n []

-- A decimal text read again.
read_nat : ℕ → Bytes → ℕ
read_nat n [] = n
read_nat n (c ∷ s) = read_nat (n * 10 + (c - b'0')) s

read_nat-digits_of :
    (fuel n : ℕ) (out : Bytes) → n < fuel → read_nat 0 (digits_of fuel n out) ≡ read_nat n out
unfolding digits_of read_nat
read_nat-digits_of zero n out h = absurd (omega arith)
read_nat-digits_of (suc fuel) n out h = elim (Bool-cases (n / 10 == 0)) [
  | inl e ↦
      let last : 0 * 10 + (b'0' + n % 10 - b'0') ≡ n = ground (arith, e) in
      rw (digits_of, e) (ap (λ m. read_nat m out) last)
  | inr e ↦
      let next : n / 10 * 10 + (b'0' + n % 10 - b'0') ≡ n = omega arith in
      let less : n / 10 < fuel = ground (arith, e) in
      rw (digits_of, e)
        (read_nat-digits_of fuel (n / 10) ((b'0' + n % 10) ∷ out) less
          ∙ ap (λ m. read_nat m out) next)
]

pub format_nat_injective : (m n : ℕ) → format_nat m ≡ format_nat n → m ≡ n
unfolding format_nat read_nat
format_nat_injective m n h =
    sym (read_nat-digits_of (suc m) m [] (omega arith))
    ∙ ap (read_nat 0) h
    ∙ read_nat-digits_of (suc n) n [] (omega arith)

length-digits_of :
    (k fuel n : ℕ) (out : Bytes)
    → n < 10 ^ suc k
    → length (digits_of fuel n out) ≤ suc k + length out
unfolding digits_of
length-digits_of k zero n out h = omega arith
length-digits_of zero (suc fuel) n out h =
    let e : (n / 10 == 0) ≡ true = ground arith in rw (digits_of, e) (omega arith)
length-digits_of (suc k) (suc fuel) n out h = elim (Bool-cases (n / 10 == 0)) [
  | inl e ↦ rw (digits_of, e) (omega arith)
  | inr e ↦
      rw (digits_of, e)
        (omega (arith, length-digits_of k fuel (n / 10) ((b'0' + n % 10) ∷ out) (omega arith)))
]

-- A number below a power of ten has no more digits than that.
pub length-format_nat : (k n : ℕ) → n < 10 ^ suc k → length (format_nat n) ≤ suc k
unfolding format_nat
length-format_nat k n h = omega (arith, length-digits_of k (suc n) n [] h)

-- The value of a run of digits behind a number, as `strconv.ParseUint` takes it.
unfoldable pub digits_value : ℕ → Bytes → Option ℕ
digits_value n [] = some n
digits_value n (c ∷ s) =
    let rest = digits_value (n * 10 + (c - b'0')) s in
    if leb b'0' c && leb c b'9' then rest else none

digits_value-digits_of :
    (fuel n : ℕ) (out : Bytes)
    → n < fuel
    → digits_value 0 (digits_of fuel n out) ≡ digits_value n out
unfolding digits_of digits_value
digits_value-digits_of zero n out h = absurd (omega arith)
digits_value-digits_of (suc fuel) n out h =
    let digit : (leb b'0' (b'0' + n % 10) && leb (b'0' + n % 10) b'9') ≡ true = ground arith in
    elim (Bool-cases (n / 10 == 0)) [
      | inl e ↦
          let last : 0 * 10 + (b'0' + n % 10 - b'0') ≡ n = ground (arith, e) in
          rw (digits_of, e, digits_value, digit) (ap (λ m. digits_value m out) last)
      | inr e ↦
          let next : n / 10 * 10 + (b'0' + n % 10 - b'0') ≡ n = omega arith in
          let less : n / 10 < fuel = ground (arith, e) in
          rw (digits_of, e)
            (digits_value-digits_of fuel (n / 10) ((b'0' + n % 10) ∷ out) less
              ∙ rw (digits_value, digit) (ap (λ m. digits_value m out) next))
    ]

-- The text of a number, with any zeros before it, has the value of the number.
pub digits_value-format_nat : (k n : ℕ) → digits_value 0 (replicate k b'0' ++ format_nat n) ≡ some n
unfolding format_nat digits_value
digits_value-format_nat zero n = digits_value-digits_of (suc n) n [] (omega arith)
digits_value-format_nat (suc k) n = digits_value-format_nat k n

unfoldable pub format_int : ℤ → Bytes
unfolding format_nat
format_int (pos n) = format_nat n
format_int (negsuc n) = b'-' ∷ format_nat (suc n)

-- Euclid's algorithm; the second number falls, so its successor is fuel enough.
pub gcd_fuel : ℕ → ℕ → ℕ → ℕ
gcd_fuel zero a b = a
gcd_fuel (suc fuel) a b = elim (b == 0) [ true ↦ a | false ↦ gcd_fuel fuel b (a % b) ]

unfoldable pub gcd : ℕ → ℕ → ℕ
unfolding gcd_fuel
gcd a b = gcd_fuel (suc b) a b

-- `hex.EncodeToString`: two digits for each byte, in lower case.
unfoldable pub hex_digit : ℕ → ℕ
hex_digit n = if ltb n 10 then b'0' + n else b'a' + (n - 10)

unfoldable pub hex_encode : Bytes → Bytes
hex_encode [] = []
hex_encode (b ∷ s) = hex_digit (b / 16) ∷ hex_digit (b % 16) ∷ hex_encode s
