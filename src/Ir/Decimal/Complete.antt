-- ===== src/Ir/Decimal/Complete.antt =====
-- `scanDecimal` accepts every text of its grammar, and splits it as the grammar does.
use morphic.Base.{
  ℕ, subst, Bool, true, false, [], ◌∷◌, ◌++◌, append-nil, some, ◌≡◌, ◌≢◌, ◌⊎◌, refl, arith, Bytes,
  All,
}
use morphic.Ir.Decimal.{
  DecimalLiteral, scan_digits, scan_sign, scan_fraction, scan_exponent, scan_exponent_sign,
  scan_exponent_body, scan_tail, scan_decimal, finish_literal,
}
use morphic.Ir.Decimal.Grammar.{
  IsDigit, Stops, Sign, unsigned, plus, minus, Exponent, absent, present, point_text, unsigned_text,
  IsLiteral, scan_digits_run,
}

-- A text that no sign opens.
abbrev Unsigned : Bytes → Type 0
Unsigned [] = Unit
Unsigned (c ∷ s) = (c ≢ b'+') × (c ≢ b'-')

scan_sign_complete :
    (neg : Bool) (sgn t : Bytes) → Sign neg sgn → Unsigned t → scan_sign (sgn ++ t) ≡ (neg, t)
unfolding scan_sign
scan_sign_complete neg sgn [] unsigned h = refl
scan_sign_complete neg sgn (c ∷ t) unsigned h = ground arith
scan_sign_complete neg sgn t plus h = refl
scan_sign_complete neg sgn t minus h = refl

scan_exponent_sign_complete :
    (neg : Bool) (sgn t : Bytes)
    → Sign neg sgn
    → Unsigned t
    → scan_exponent_sign (sgn ++ t) ≡ (sgn, t)
unfolding scan_exponent_sign
scan_exponent_sign_complete neg sgn [] unsigned h = refl
scan_exponent_sign_complete neg sgn (c ∷ t) unsigned h = ground arith
scan_exponent_sign_complete neg sgn t plus h = refl
scan_exponent_sign_complete neg sgn t minus h = refl

exponent_body_complete :
    (mark : ℕ) (neg : Bool) (sgn : Bytes) (d : ℕ) (ds : Bytes)
    → Sign neg sgn
    → IsDigit d
    → All IsDigit ds
    → scan_exponent_body mark (sgn ++ d ∷ ds) ≡ some (mark ∷ (sgn ++ d ∷ ds), [])
unfolding scan_exponent_body
exponent_body_complete mark neg sgn d ds sign hd hds =
    let run : scan_digits (d ∷ ds) ≡ (d ∷ ds, []) =
      subst (λ t. scan_digits t ≡ (d ∷ ds, [])) (append-nil (d ∷ ds))
        (scan_digits_run (d ∷ ds) [] (hd, hds) tt) in
    ground
      (arith, scan_exponent_sign_complete neg sgn (d ∷ ds) sign (ground arith, ground arith), run)

scan_exponent_complete : (e : Bytes) → Exponent e → scan_exponent e ≡ some (e, [])
unfolding scan_exponent
scan_exponent_complete e absent = refl
scan_exponent_complete e (present mark neg sgn d ds m sign hd hds) =
    ground (arith, exponent_body_complete mark neg sgn d ds sign hd hds)

Exponent-Stops : (e : Bytes) → Exponent e → Stops e
Exponent-Stops e absent = tt
Exponent-Stops e (present mark neg sgn d ds m sign hd hds) = ground arith

point_text-Stops : (point : Bool) (frac e : Bytes) → Exponent e → Stops (point_text point frac ++ e)
point_text-Stops true frac e h = refl
point_text-Stops false frac e h = Exponent-Stops e h

no_fraction : (e : Bytes) → Exponent e → scan_fraction e ≡ ([], false, e)
unfolding scan_fraction
no_fraction e absent = refl
no_fraction e (present mark neg sgn d ds m sign hd hds) = ground arith

scan_fraction_complete :
    (point : Bool) (frac e : Bytes)
    → All IsDigit frac
    → (point ≡ false → frac ≡ [])
    → Exponent e
    → scan_fraction (point_text point frac ++ e) ≡ (frac, point, e)
scan_fraction_complete true frac e h np he =
    unfold scan_fraction in rw (scan_digits_run frac e h (Exponent-Stops e he))
scan_fraction_complete false frac e h np he = rw (np refl, no_fraction e he)

scan_tail_complete :
    (neg : Bool) (int_part frac : Bytes) (point : Bool) (e : Bytes)
    → (int_part ≢ []) ⊎ (frac ≢ [])
    → Exponent e
    → scan_tail neg int_part frac point e
      ≡ some (record { int_part = int_part; frac = frac; exponent = e; neg = neg; point = point })
unfolding scan_tail finish_literal
scan_tail_complete neg [] [] point e h he = ground arith
scan_tail_complete neg [] (d ∷ frac) point e h he = rw (scan_exponent_complete e he, scan_tail)
scan_tail_complete neg (d ∷ int_part) frac point e h he =
    rw (scan_exponent_complete e he, scan_tail)

text_opens :
    (int_part frac : Bytes) (point : Bool) (e : Bytes)
    → All IsDigit int_part
    → (int_part ≢ []) ⊎ (frac ≢ [])
    → (point ≡ false → frac ≡ [])
    → Unsigned (int_part ++ (point_text point frac ++ e))
text_opens (d ∷ int_part) frac point e h some_one np = (ground arith, ground arith)
text_opens [] frac true e h some_one np = (omega arith, omega arith)
text_opens [] frac false e h some_one np = absurd (ground (arith, np refl))

-- A text that spells a literal of the grammar, behind any sign that says as much, is accepted, and
-- the parts read are that literal's.
pub scan_decimal_complete :
    (l : DecimalLiteral) (sgn : Bytes)
    → IsLiteral l
    → Sign l.neg sgn
    → scan_decimal (sgn ++ unsigned_text l) ≡ some l
scan_decimal_complete l sgn h sign =
    let rest = point_text l.point l.frac ++ l.exponent in
    let signed =
      scan_sign_complete l.neg sgn (unsigned_text l) sign
        (text_opens l.int_part l.frac l.point l.exponent h.ints h.some_digit h.no_point) in
    let run =
      scan_digits_run l.int_part rest h.ints
        (point_text-Stops l.point l.frac l.exponent h.exponents) in
    let fraction =
      scan_fraction_complete l.point l.frac l.exponent h.fracs h.no_point h.exponents in
    unfold scan_decimal in
    rw (signed, run, fraction)
      (scan_tail_complete l.neg l.int_part l.frac l.point l.exponent h.some_digit h.exponents)
