-- ===== src/Engine/Verdict/Tests.antt =====
-- Runs of engine/verdict.go, and its theorems at concrete findings.
use mathlib.Core.List.{Memᴰ}
use mathlib.Core.List.Memᴰ
use mathlib.Core.Logic.{⊎_elim}
use morphic.Base.{
  ℕ, ◌≤◌, Bool, true, false, List, [], ◌∷◌, Option, some, Result, ok, err, codes, refl, ◌≡◌, ◌↔◌,
  arith, same_text,
}
use morphic.Ir.Diagnostic.{Diagnostic}
use morphic.Ir.Diagnostic.Tests.{finding, first_finding, second_finding, third_finding}
use morphic.Engine.Verdict.{
  VerdictError, unknown_severity, verdict, verdict_loop, index_of, resolve, resolve_named,
  fail_on_none, unknown_fail_on,
}
use morphic.Engine.Verdict.Reaches.{Judged, verdict_document}

abbrev a_document : ℕ
a_document = 7

abbrev mild : List Diagnostic
mild = second_finding ∷ third_finding ∷ []

-- Its line opens all that `verdict` calls.
run_verdict : ℕ → Option ℕ → List Diagnostic → Result VerdictError Bool
unfolding verdict verdict_loop index_of same_text resolve resolve_named
run_verdict t doc ds = verdict t doc ds

mild_passes : verdict 2 (some a_document) mild ≡ ok false
unfolding run_verdict
mild_passes = refl

warnings_fail : verdict 1 (some a_document) mild ≡ ok true
unfolding run_verdict
warnings_fail = refl

fatal_passes :
    verdict 3 (some a_document) (finding (codes "fatal") (codes "a/b") ∷ [])
    ≡ err (unknown_severity (codes "a/b") (codes "fatal"))
unfolding run_verdict
fatal_passes = refl

resolve_empty : resolve [] ≡ ok 2
unfolding run_verdict
resolve_empty = refl

resolve_none : resolve fail_on_none ≡ ok 3
unfolding run_verdict
resolve_none = refl

resolve_unknown : resolve (codes "fatal") ≡ err (unknown_fail_on (codes "fatal"))
unfolding run_verdict
resolve_unknown = refl

at_three : verdict 3 (some a_document) (first_finding ∷ []) ≡ ok false
unfolding run_verdict
at_three = refl

zero_le : 0 ≤ 1
zero_le = omega arith

verdict_document_example : Judged 1 false mild (verdict 1 (some a_document) mild)
verdict_document_example = verdict_document 1 a_document mild

-- The two findings swapped.
swapped : (d : Diagnostic) → Memᴰ d mild ↔ Memᴰ d (third_finding ∷ second_finding ∷ [])
swapped d = (flip second_finding third_finding d, flip third_finding second_finding d)
  where
    flip : (x y d : Diagnostic) → Memᴰ d (x ∷ y ∷ []) → Memᴰ d (y ∷ x ∷ [])
    flip x y d m =
        ⊎_elim (λ p. Memᴰ.tail (Memᴰ.head p))
          (λ t. ⊎_elim (λ q. Memᴰ.head q) (λ u. Memᴰ.tail (Memᴰ.tail u)) (Memᴰ.cases_cons t))
          (Memᴰ.cases_cons m)
