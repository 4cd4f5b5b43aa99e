-- ===== src/Ir/Diagnostic/Merge.antt =====
-- What `MergeDiagnostics` keeps, drops and adds.
use mathlib.Core.List.{Memᴰ}
use mathlib.Core.List.Memᴰ
use mathlib.Core.Logic.{⊎_elim}
use morphic.Base.{
  ap, ◌||◌, true, false, List, [], ◌∷◌, ◌++◌, append-nil, append_assoc, ◌≡◌, ◌⊎◌, ◌↔◌, inl, inr,
  refl, sym, ◌∙◌, Bool-cases, if◌then◌else◌,
}
use morphic.Ir.Diagnostic.{
  Diagnostic, Diagnostic-discrete, holds, merge_into, merge_diagnostics, is_yes,
}

-- The findings of `produced` that `stored` lacks, in their order.
unfoldable pub missing : List Diagnostic → List Diagnostic → List Diagnostic
missing stored [] = []
missing stored (d ∷ ds) = if holds stored d then missing stored ds else d ∷ missing stored ds

merge_into-missing :
    (stored merged produced : List Diagnostic)
    → merge_into stored merged produced ≡ merged ++ missing stored produced
unfolding merge_into missing
merge_into-missing stored merged [] = sym (append-nil merged)
merge_into-missing stored merged (d ∷ ds) = elim (Bool-cases (holds stored d)) [
  | inl e ↦ rw (e, merge_into-missing stored merged ds)
  | inr e ↦ rw (e, merge_into-missing stored (merged ++ d ∷ []) ds, append_assoc)
]

-- The stored findings come first and are kept as they are; behind them stand those produced that
-- were not stored, in their order.
pub merge_diagnostics-missing :
    (stored produced : List Diagnostic)
    → merge_diagnostics stored produced ≡ stored ++ missing stored produced
unfolding merge_diagnostics
merge_diagnostics-missing stored [] = unfold missing in sym (append-nil stored)
merge_diagnostics-missing stored (d ∷ ds) = merge_into-missing stored stored (d ∷ ds)

holds_iff : (xs : List Diagnostic) (d : Diagnostic) → (holds xs d ≡ true) ↔ Memᴰ d xs
unfolding holds
holds_iff [] d = (λ h. cc, λ m. absurd (Memᴰ.not-nil m))
holds_iff (x ∷ xs) d =
    elim (Diagnostic-discrete x d) as (λ t. ((is_yes t || holds xs d) ≡ true) ↔ Memᴰ d (x ∷ xs)) [
      | yes e ↦ (λ _. Memᴰ.head (sym e), λ _. refl)
      | no ne ↦ (
        λ h. Memᴰ.tail ((holds_iff xs d).0 h),
        λ m. ⊎_elim (λ e. absurd (ne (sym e))) (holds_iff xs d).1 (Memᴰ.cases_cons m),
      )
    ]

missing_mem :
    (stored ds : List Diagnostic) (d : Diagnostic)
    → Memᴰ d (missing stored ds) ↔ (Memᴰ d ds × (holds stored d ≡ false))
unfolding missing
missing_mem stored [] d = (λ m. absurd (Memᴰ.not-nil m), λ m. absurd (Memᴰ.not-nil m.0))
missing_mem stored (x ∷ ds) d = elim (Bool-cases (holds stored x)) [
  | inl e ↦ rw e (
    λ m. let (t, f) = (missing_mem stored ds d).0 m in (Memᴰ.tail t, f),
    λ m.
        ⊎_elim (λ p. absurd (cc (ap (holds stored) p, m.1, e)))
          (λ t. (missing_mem stored ds d).1 (t, m.1)) (Memᴰ.cases_cons m.0),
  )
  | inr e ↦ rw e (
    λ m.
        ⊎_elim (λ p. (Memᴰ.head p, ap (holds stored) p ∙ e))
          (λ t. let (u, f) = (missing_mem stored ds d).0 t in (Memᴰ.tail u, f)) (Memᴰ.cases_cons m),
    λ m.
        ⊎_elim Memᴰ.head (λ t. Memᴰ.tail ((missing_mem stored ds d).1 (t, m.1)))
          (Memᴰ.cases_cons m.0),
  )
]

missing_again :
    (stored ds : List Diagnostic)
    → ((d : Diagnostic) → Memᴰ d ds → holds stored d ≡ true)
    → missing stored ds ≡ []
unfolding missing
missing_again stored [] h = refl
missing_again stored (x ∷ ds) h =
    rw (h x (Memᴰ.head refl)) (missing_again stored ds (λ d m. h d (Memᴰ.tail m)))

-- The merged list has a finding exactly where one of the two lists has it: nothing is lost and
-- nothing is made up.
pub merge_diagnostics_mem :
    (stored produced : List Diagnostic) (d : Diagnostic)
    → Memᴰ d (merge_diagnostics stored produced) ↔ (Memᴰ d stored ⊎ Memᴰ d produced)
merge_diagnostics_mem stored produced d = rw (merge_diagnostics-missing stored produced) (
  λ m. ⊎_elim inl (λ t. inr ((missing_mem stored produced d).0 t).0) (Memᴰ.append_cases stored m),
  ⊎_elim (Memᴰ.append_left _) (λ t. elim (Bool-cases (holds stored d)) [
    | inl e ↦ Memᴰ.append_left _ ((holds_iff stored d).0 e)
    | inr e ↦ Memᴰ.append_right stored ((missing_mem stored produced d).1 (t, e))
  ]),
)

-- Merging the same findings once more adds nothing.
pub merge_diagnostics_again :
    (stored produced : List Diagnostic)
    → merge_diagnostics (merge_diagnostics stored produced) produced
      ≡ merge_diagnostics stored produced
merge_diagnostics_again stored produced =
    let merged = merge_diagnostics stored produced in
    merge_diagnostics-missing merged produced
    ∙ rw
        (missing_again merged produced
          (λ d m. (holds_iff merged d).1 ((merge_diagnostics_mem stored produced d).1 (inr m))))
        (append-nil merged)
