-- ===== src/Engine/Verdict/Reaches.antt =====
-- The verdict against what it is to reach a threshold.
use mathlib.Core.List.{Memᴰ}
use mathlib.Core.List.Memᴰ
use mathlib.Core.Logic.{⊎_elim}
use morphic.Base.{
  ℕ, ◌≤◌, Bool, true, false, List, [], ◌∷◌, none, some, Result, ok, err, ◌≡◌, ◌⊎◌, ◌↔◌, inl, inr,
  refl, ap, arith, leb, ◌||◌, Option-cases, leb→le,
}
use morphic.Ir.Diagnostic.{Diagnostic}
use morphic.Engine.Verdict.{
  VerdictError, unknown_severity, severities, index_of, verdict_loop, verdict,
}

-- Some finding's severity ranks at the threshold or above.
abbrev pub Reaches : ℕ → List Diagnostic → Type 0
Reaches t ds =
    (d : Diagnostic) × (rank : ℕ) × Memᴰ d ds
    × (index_of severities d.severity ≡ some rank)
    × (t ≤ rank)

-- Some finding's severity is none that the IR defines.
abbrev pub Unranked : List Diagnostic → Type 0
Unranked ds = (d : Diagnostic) × Memᴰ d ds × (index_of severities d.severity ≡ none)

Reaches-tail : {t : ℕ} {d : Diagnostic} {ds : List Diagnostic} → Reaches t ds → Reaches t (d ∷ ds)
Reaches-tail (x, r, m, e, h) = (x, r, Memᴰ.tail m, e, h)

Reaches-head :
    (t rank : ℕ) (d : Diagnostic) (ds : List Diagnostic)
    → index_of severities d.severity ≡ some rank
    → Reaches t (d ∷ ds)
    → (t ≤ rank) ⊎ Reaches t ds
Reaches-head t rank d ds e (x, r, m, f, h) =
    ⊎_elim (λ p. let q : r ≡ rank = cc (ap (λ (y : Diagnostic). y.severity) p) in inl (omega arith))
      (λ tail. inr (x, r, tail, f, h)) (Memᴰ.cases_cons m)

reached_iff :
    (t rank : ℕ) (failed : Bool) (d : Diagnostic) (ds : List Diagnostic)
    → index_of severities d.severity ≡ some rank
    → (((failed || leb t rank) ≡ true) ⊎ Reaches t ds) ↔ ((failed ≡ true) ⊎ Reaches t (d ∷ ds))
reached_iff t rank true d ds e = (λ _. inl refl, λ _. inl refl)
reached_iff t rank false d ds e = (
  ⊎_elim (λ h. inr (d, rank, Memᴰ.head refl, e, leb→le t rank h)) (λ r. inr (Reaches-tail r)),
  ⊎_elim (λ h. cc) (λ r. ⊎_elim (λ h. inl (ground arith)) inr (Reaches-head t rank d ds e r)),
)

Unranked-tail :
    (rank : ℕ) (d : Diagnostic) (ds : List Diagnostic)
    → index_of severities d.severity ≡ some rank
    → Unranked (d ∷ ds)
    → Unranked ds
Unranked-tail rank d ds e (x, m, f) =
    ⊎_elim (λ p. absurd (cc (ap (λ (y : Diagnostic). y.severity) p))) (λ tail. (x, tail, f))
      (Memᴰ.cases_cons m)

-- Either every severity is known, and the answer `b` is whether the run was failed already or some
-- finding reaches the threshold; or some severity is not, and there is no answer.
abbrev pub Judged : ℕ → Bool → List Diagnostic → Result VerdictError Bool → Type 0
Judged t failed ds r =
    ((b : Bool) × (r ≡ ok b) × ((b ≡ true) ↔ ((failed ≡ true) ⊎ Reaches t ds)) × (¬ Unranked ds))
    ⊎ (Unranked ds × ((e : VerdictError) × (r ≡ err e)))

pub verdict_loop-Judged :
    (t : ℕ) (failed : Bool) (ds : List Diagnostic) → Judged t failed ds (verdict_loop t failed ds)
unfolding verdict_loop
verdict_loop-Judged t failed [] =
    inl
      (failed, refl, (inl, ⊎_elim (λ p. p) (λ r. absurd (Memᴰ.not-nil r.2))), λ u. Memᴰ.not-nil u.1)
verdict_loop-Judged t failed (d ∷ ds) = elim (Option-cases (index_of severities d.severity)) [
  | inl e ↦ inr ((d, Memᴰ.head refl, e), (unknown_severity d.code d.severity, rw (e, verdict_loop)))
  | inr (rank, e) ↦
      let same = reached_iff t rank failed d ds e in
      ⊎_elim
        (λ (b, eq, reached, ranked). inl (
          b,
          rw (e, verdict_loop) eq,
          (λ h. same.0 (reached.0 h), λ h. reached.1 (same.1 h)),
          λ u. ranked (Unranked-tail rank d ds e u),
        ))
        (λ (u, stop). inr ((u.0, Memᴰ.tail u.1, u.2), (stop.0, rw (e, verdict_loop) stop.1)))
        (verdict_loop-Judged t (failed || leb t rank) ds)
]

-- On a run that made a document, `verdict` answers exactly when every finding has a severity of the
-- IR, and answers true exactly when some finding's severity ranks at the threshold or above.
pub verdict_document :
    {D : Type 0} (t : ℕ) (document : D) (ds : List Diagnostic)
    → Judged t false ds (verdict t (some document) ds)
unfolding verdict
verdict_document t document ds = verdict_loop-Judged t false ds
