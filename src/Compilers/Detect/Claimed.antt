-- ===== src/Compilers/Detect/Claimed.antt =====
-- compilers/compilers.go: what a detection comes to.
use morphic.Base.{
  ℕ, suc, ◌+◌, Bool, false, List, [], ◌∷◌, ◌++◌, ok, ◌≡◌, inl, inr, refl, sym, subst, ◌∙◌, arith,
  length, length-append, All, All-append, append_assoc, append-nil, Result-cases, bind_ok,
}
use morphic.Ir.Diagnostic.{Diagnostic, first_outside_table}
use morphic.Compilers.{Source, Registered, CompilerRegistry}
use morphic.Compilers.Owned.{WellFormed}
use morphic.Compilers.Detect.{
  Detection, Configure, undetected, claim_by, heard, detect_loop, detect_source,
}
use morphic.Compilers.Detect.Explained.{
  Explained, Explained-append, weigh_answer-Weighed, List-cases, if_true, if_false,
}
use morphic.Compilers.Detect.Taken.{
  Declined, Found, refused, passed_on, heard-Heard, claim_by-Found,
}

add_one : (n : ℕ) → n + 1 ≡ suc n
add_one n = omega arith

module _ {A R B E : Type 0} (ctx : ℕ → Bool) (configure : Configure A R B E)
    (r : CompilerRegistry A R B E) (src : Source A) where
  -- The loop from a state on: the compilers before it declined, and what they said is kept.
  detect_loop-Found :
      WellFormed r
      → (k : ℕ) (before es : List (Registered A R B E)) (said : List Diagnostic)
      → r.ordered ≡ before ++ es
      → All (Declined ctx configure r src) before
      → Explained said
      → (d : Detection A R B E) (b : Bool) (asks : ℕ)
      → detect_loop ctx configure r src k (length before) es said ≡ ok (d, b, asks)
      → Found ctx configure r src d b
  unfolding detect_loop
  detect_loop-Found known k before [] said all others why d b asks h =
      let whole : All (Declined ctx configure r src) r.ordered =
        subst (All (Declined ctx configure r src)) (sym (all ∙ append-nil before)) others in
      let made : undetected src said ≡ d = cc in
      let no : false ≡ b = cc in rw (← made, ← no) (refused said why (inr whole))
  detect_loop-Found known k before (e ∷ es) said all others why d b asks h =
      elim (Result-cases (heard ctx configure r src k e)) [
        | inr (f, l) ↦ absurd (cc (rw (detect_loop, l) at h))
        | inl (a, l) ↦
            let asked = heard-Heard ctx configure r src k e a l in
            elim (weigh_answer-Weighed src e a asked.weighed) [
              | inl (c, v) ↦
                  let ((d', b'), run, same) =
                    bind_ok (claim_by r configure src (length before) e a) _ (d, b, asks)
                      (sym (if_true _ _ c) ∙ rw (detect_loop, l) at h) in
                  let (same_d, same_b) : (d' ≡ d) × (b' ≡ b) = (cc, cc) in
                  rw (← same_d, ← same_b)
                    (claim_by-Found ctx configure r src known before e es all others a asked c v d'
                      b' run)
              | inr (c, explained) ↦
                  detect_loop-Found known (k + 2) (before ++ e ∷ []) es (said ++ a.diagnostics)
                    (all ∙ sym (append_assoc before (e ∷ []) es))
                    (All-append (Declined ctx configure r src) before (e ∷ []) others
                      (passed_on a asked c explained, tt))
                    (Explained-append said a.diagnostics why explained) d b asks
                    (rw (length-append before (e ∷ []), add_one)
                      (sym (if_false _ _ c) ∙ rw (detect_loop, l) at h))
            ]
      ]

  -- What a detection that comes to no error is, where the registry is well formed. A source that is taken
  -- is taken by the first compiler to claim it, those before it having declined with a reason for whatever
  -- they say; it goes to the compiler that owns the format of the claim, with the options that this one is
  -- configured with, and with what the claimant parsed of it only where that is the claimant. Otherwise
  -- a compiler claimed it as a format that nobody owns, those before it having declined, or the source is
  -- empty or every compiler declined it.
  pub detect_source-Found :
      WellFormed r
      → (k : ℕ) (d : Detection A R B E) (b : Bool) (asks : ℕ)
      → detect_source ctx configure r src k ≡ ok (d, b, asks)
      → Found ctx configure r src d b
  unfolding detect_source first_outside_table
  detect_source-Found known k d b asks h = elim (List-cases src.data_of) [
    | inl empty ↦
        let made : undetected src [] ≡ d = cc (rw (detect_source, empty) at h) in
        let no : false ≡ b = cc (rw (detect_source, empty) at h) in
        rw (← made, ← no) (refused [] (refl, inl refl) (inl empty))
    | inr (c, cs, full) ↦
        detect_loop-Found known k [] r.ordered [] refl tt (refl, inl refl) d b asks
          (rw (detect_source, full) at h)
  ]
