-- ===== src/Ir/Decimal/Grammar.antt =====
-- `scanDecimal` against the grammar of its comment, stated apart from the scan.
use morphic.Base.{
  Option-cases, ℕ, ◌≤◌, Bool, true, false, [], ◌∷◌, ◌++◌, append-nil, append_assoc, some, none, ◌≡◌,
  ◌≢◌, ◌⊎◌, inl, inr, refl, arith, Bytes, All, ◌==◌, ◌||◌, sym, ap, Bool-cases, Option,
}
use morphic.Ir.Decimal.{
  DecimalLiteral, scan_digits, scan_sign, scan_fraction, scan_exponent, scan_exponent_sign,
  scan_exponent_body, scan_tail, scan_decimal, finish_literal, is_ascii_digit,
}

abbrev pub IsDigit : ℕ → Type 0
IsDigit c = (b'0' ≤ c) × (c ≤ b'9')

-- A text that a run of digits stops at.
abbrev pub Stops : Bytes → Type 0
Stops [] = Unit
Stops (c ∷ s) = is_ascii_digit c ≡ false

-- The text of a sign, and whether it is a minus.
pub data Sign : Bool → Bytes → Type 0 where
  unsigned : Sign false []
  plus : Sign false (b'+' ∷ [])
  minus : Sign true (b'-' ∷ [])

-- The text of an exponent: none, or a mark, a sign and at least one digit.
pub data Exponent : Bytes → Type 0 where
  absent : Exponent []
  present :
      (mark : ℕ) (neg : Bool) (sign : Bytes) (d : ℕ) (ds : Bytes)
      → (mark ≡ b'e') ⊎ (mark ≡ b'E')
      → Sign neg sign
      → IsDigit d
      → All IsDigit ds
      → Exponent (mark ∷ (sign ++ d ∷ ds))

-- The text between a literal's sign and its exponent's end.
abbrev pub point_text : Bool → Bytes → Bytes
point_text true frac = b'.' ∷ frac
point_text false frac = []

abbrev pub unsigned_text : DecimalLiteral → Bytes
unsigned_text l = l.int_part ++ (point_text l.point l.frac ++ l.exponent)

pub record IsLiteral (l : DecimalLiteral) : Type 0 where
  pub ints : All IsDigit l.int_part
  pub fracs : All IsDigit l.frac
  pub some_digit : (l.int_part ≢ []) ⊎ (l.frac ≢ [])
  pub no_point : l.point ≡ false → l.frac ≡ []
  pub exponents : Exponent l.exponent

pub scan_digits-All : (s : Bytes) → All IsDigit (scan_digits s).0
unfolding scan_digits
scan_digits-All [] = tt
scan_digits-All (c ∷ s) = ground (arith, scan_digits-All s)

pub scan_digits-append : (s : Bytes) → (scan_digits s).0 ++ (scan_digits s).1 ≡ s
unfolding scan_digits
scan_digits-append [] = refl
scan_digits-append (c ∷ s) = ground (arith, scan_digits-append s)

pub scan_digits_run :
    (ds rest : Bytes) → All IsDigit ds → Stops rest → scan_digits (ds ++ rest) ≡ (ds, rest)
unfolding scan_digits
scan_digits_run [] [] h stop = refl
scan_digits_run [] (c ∷ s) h stop = ground arith
scan_digits_run (d ∷ ds) rest (hd, hds) stop = ground (arith, scan_digits_run ds rest hds stop)

scan_sign_sound :
    (s : Bytes) → (sgn : Bytes) × Sign (scan_sign s).0 sgn × (s ≡ sgn ++ (scan_sign s).1)
unfolding scan_sign
scan_sign_sound [] = ([], unsigned, refl)
scan_sign_sound (c ∷ s) = elim (Bool-cases (c == b'+')) [
  | inl e ↦ let p : c ≡ b'+' = ground arith in rw p (b'+' ∷ [], plus, refl)
  | inr no_plus ↦ elim (Bool-cases (c == b'-')) [
    | inl e ↦ let p : c ≡ b'-' = ground arith in rw p (b'-' ∷ [], minus, refl)
    | inr no_minus ↦ rw (no_plus, no_minus) ([], unsigned, refl)
  ]
]

record FractionRead (s frac : Bytes) (point : Bool) (rest : Bytes) : Type 0 where
  fracs : All IsDigit frac
  no_point : point ≡ false → frac ≡ []
  spelled : s ≡ point_text point frac ++ rest

scan_fraction_sound :
    (s : Bytes) → FractionRead s (scan_fraction s).0 (scan_fraction s).1 (scan_fraction s).2
unfolding scan_fraction
scan_fraction_sound [] = record { fracs = tt; no_point = λ _. refl; spelled = refl }
scan_fraction_sound (c ∷ s) = elim (Bool-cases (c == b'.')) [
  | inl e ↦
      let p : c ≡ b'.' = ground arith in
      rw p (record {
        fracs = scan_digits-All s;
        no_point = λ e. cc;
        spelled = ap (λ t. b'.' ∷ t) (sym (scan_digits-append s));
      })
  | inr other ↦ rw other (record { fracs = tt; no_point = λ _. refl; spelled = refl })
]

scan_exponent_sign_sound :
    (s : Bytes)
    → (neg : Bool) × Sign neg (scan_exponent_sign s).0
      × (s ≡ (scan_exponent_sign s).0 ++ (scan_exponent_sign s).1)
unfolding scan_exponent_sign
scan_exponent_sign_sound [] = (false, unsigned, refl)
scan_exponent_sign_sound (c ∷ s) = elim (Bool-cases (c == b'+')) [
  | inl e ↦ let p : c ≡ b'+' = ground arith in rw p (false, plus, refl)
  | inr no_plus ↦ elim (Bool-cases (c == b'-')) [
    | inl e ↦ let p : c ≡ b'-' = ground arith in rw p (true, minus, refl)
    | inr no_minus ↦ rw (no_plus, no_minus) (false, unsigned, refl)
  ]
]

body_run_sound :
    (mark : ℕ) (neg : Bool) (sign run s : Bytes) {e rest : Bytes}
    → (mark ≡ b'e') ⊎ (mark ≡ b'E')
    → Sign neg sign
    → All IsDigit run
    → ◌≡◌ {A = Option (Bytes × Bytes)}
        (elim run [ [] ↦ none | d ∷ ds ↦ some (mark ∷ (sign ++ d ∷ ds), s) ])
        (some (e, rest))
    → Exponent e × (mark ∷ (sign ++ (run ++ s)) ≡ e ++ rest)
body_run_sound mark neg sign [] s m sg h eq = cc
body_run_sound mark neg sign (d ∷ ds) s {e} {rest} m sg (hd, hds) eq =
    let p : mark ∷ (sign ++ d ∷ ds) ≡ e = cc in
    let q : s ≡ rest = cc in
    rw (← p, ← q) (present mark neg sign d ds m sg hd hds, simp append_assoc)

scan_exponent_body_sound :
    (mark : ℕ) (s : Bytes) {e rest : Bytes}
    → (mark ≡ b'e') ⊎ (mark ≡ b'E')
    → scan_exponent_body mark s ≡ some (e, rest)
    → Exponent e × (mark ∷ s ≡ e ++ rest)
unfolding scan_exponent_body
scan_exponent_body_sound mark s {e} {rest} m eq =
    let (neg, sg, split) = scan_exponent_sign_sound s in
    let t = (scan_exponent_sign s).1 in
    let (shape, spelled) =
      body_run_sound mark neg (scan_exponent_sign s).0 (scan_digits t).0 (scan_digits t).1 m sg
        (scan_digits-All t) eq in
    (shape, cc (scan_digits-append t))

scan_exponent_sound :
    (s : Bytes) {e rest : Bytes} → scan_exponent s ≡ some (e, rest) → Exponent e × (s ≡ e ++ rest)
unfolding scan_exponent
scan_exponent_sound [] {e} {rest} eq =
    let p : [] ≡ e = cc in let q : [] ≡ rest = cc in rw (← p, ← q) (absent, refl)
scan_exponent_sound (c ∷ s) {e} {rest} eq = elim (Bool-cases (c == b'e' || c == b'E')) [
  | inl marked ↦ scan_exponent_body_sound c s (ground arith) (rw marked at eq)
  | inr plain ↦
      let eq' = rw plain at eq in
      let p : [] ≡ e = cc in let q : c ∷ s ≡ rest = cc in rw (← p, ← q) (absent, refl)
]

record TailRead (neg : Bool) (int_part frac : Bytes) (point : Bool) (s : Bytes) (l : DecimalLiteral)
    : Type 0 where
  form : IsLiteral l
  signed : l.neg ≡ neg
  spelled : int_part ++ (point_text point frac ++ s) ≡ unsigned_text l

finish_sound :
    (neg : Bool) (int_part frac : Bytes) (point : Bool) (s e rest : Bytes) (l : DecimalLiteral)
    → All IsDigit int_part
    → All IsDigit frac
    → (int_part ≢ []) ⊎ (frac ≢ [])
    → (point ≡ false → frac ≡ [])
    → scan_exponent s ≡ some (e, rest)
    → finish_literal neg int_part frac point (e, rest) ≡ some l
    → TailRead neg int_part frac point s l
unfolding finish_literal
finish_sound neg int_part frac point s e (c ∷ rest) l hi hf some_one np he hl = cc
finish_sound neg int_part frac point s e [] l hi hf some_one np he hl =
    let (shape, spelled) = scan_exponent_sound s he in
    let p : record { int_part = int_part; frac = frac; exponent = e; neg = neg; point = point }
        ≡ l =
      cc in
    rw (← p) (record {
      form = record {
        ints = hi;
        fracs = hf;
        some_digit = some_one;
        no_point = np;
        exponents = shape;
      };
      signed = refl;
      spelled = rw spelled (simp append-nil);
    })

scan_tail_sound :
    (neg : Bool) (int_part frac : Bytes) (point : Bool) (s : Bytes) (l : DecimalLiteral)
    → All IsDigit int_part
    → All IsDigit frac
    → (point ≡ false → frac ≡ [])
    → scan_tail neg int_part frac point s ≡ some l
    → TailRead neg int_part frac point s l
unfolding scan_tail
scan_tail_sound neg [] [] point s l hi hf np h = cc
scan_tail_sound neg [] (d ∷ frac) point s l hi hf np h = elim (Option-cases (scan_exponent s)) [
  | inl e ↦ cc (rw (e, scan_tail) at h)
  | inr (p, e) ↦
      finish_sound neg [] (d ∷ frac) point s p.0 p.1 l hi hf (inr (cc)) np e
        (rw (e, scan_tail) at h)
]
scan_tail_sound neg (d ∷ int_part) frac point s l hi hf np h =
    elim (Option-cases (scan_exponent s)) [
      | inl e ↦ cc (rw (e, scan_tail) at h)
      | inr (p, e) ↦
          finish_sound neg (d ∷ int_part) frac point s p.0 p.1 l hi hf (inl (cc)) np e
            (rw (e, scan_tail) at h)
    ]

-- An accepted text spells a literal of the grammar: a sign, and then the literal's own text. So
-- nothing of the text is left unread and nothing of it is lost.
pub scan_decimal_sound :
    (s : Bytes) (l : DecimalLiteral)
    → scan_decimal s ≡ some l
    → IsLiteral l × ((sgn : Bytes) × Sign l.neg sgn × (s ≡ sgn ++ unsigned_text l))
scan_decimal_sound s l h =
    let (sgn, sign, split) = scan_sign_sound s in
    let t = (scan_sign s).1 in
    let r = (scan_digits t).1 in
    let frac = scan_fraction_sound r in
    let tail =
      scan_tail_sound (scan_sign s).0 (scan_digits t).0 (scan_fraction r).0 (scan_fraction r).1
        (scan_fraction r).2 l (scan_digits-All t) frac.fracs frac.no_point
        (unfold scan_decimal in h) in
    (tail.form, (sgn, rw tail.signed sign, cc (scan_digits-append t, tail.spelled, frac.spelled)))
