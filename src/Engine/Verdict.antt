-- ===== src/Engine/Verdict.antt =====
-- engine/verdict.go: thresholds, and whether a run fails at one.
-- An error carries what distinguishes it, and not the sentence that is made of it.
pub mod Reaches
pub mod Gate
mod Tests
use morphic.Base.{
  suc, ℕ, Bool, true, false, List, [], ◌∷◌, Option, none, some, Result, ok, err, ◌>>=◌, Bytes,
  codes, length, leb, ◌||◌, if◌then◌else◌, same_text,
}
use morphic.Ir.Diagnostic.{Diagnostic, severity_error, severity_warning, severity_info}

pub data VerdictError : Type 0 where
  unknown_fail_on : Bytes → VerdictError
  unknown_severity : (code severity : Bytes) → VerdictError

abbrev pub fail_on_none : Bytes
fail_on_none = codes "none"

abbrev pub severities : List Bytes
severities = severity_info ∷ severity_warning ∷ severity_error ∷ []

-- `slices.Index`, with `none` for -1.
unfoldable pub index_of : List Bytes → Bytes → Option ℕ
index_of [] s = none
index_of (x ∷ xs) s =
    if same_text x s then some 0 else elim (index_of xs s) [ none ↦ none | some i ↦ some (suc i) ]

-- `FailOn.resolve` on a threshold that is not the zero value.
unfoldable pub resolve_named : Bytes → Result VerdictError ℕ
resolve_named f =
    if same_text f fail_on_none
    then ok (length severities)
    else elim (index_of severities f) [ none ↦ err (unknown_fail_on f) | some rank ↦ ok rank ]

unfoldable pub resolve : Bytes → Result VerdictError ℕ
resolve [] = resolve_named severity_error
resolve (c ∷ s) = resolve_named (c ∷ s)

unfoldable pub parse_fail_on : Bytes → Result VerdictError Bytes
parse_fail_on [] = err (unknown_fail_on [])
parse_fail_on (c ∷ s) = resolve (c ∷ s) >>= λ _. ok (c ∷ s)

-- The loop of `threshold.verdict` over the findings.
unfoldable pub verdict_loop : ℕ → Bool → List Diagnostic → Result VerdictError Bool
verdict_loop t failed [] = ok failed
verdict_loop t failed (d ∷ ds) = elim (index_of severities d.severity) [
  | none ↦ err (unknown_severity d.code d.severity)
  | some rank ↦ verdict_loop t (failed || leb t rank) ds
]

-- `D` is the type of documents, of which only the absence is read.
pub record RunResult {ℓ} (D : Type ℓ) : Type ℓ where
  pub document : Option D
  pub diagnostics : List Diagnostic
  pub failed : Bool

module _ {ℓ} {D : Type ℓ} where
  unfoldable pub verdict : ℕ → Option D → List Diagnostic → Result VerdictError Bool
  verdict t none ds = verdict_loop t true ds
  verdict t (some document) ds = verdict_loop t false ds

  unfoldable pub judge : ℕ → RunResult D → Result VerdictError (RunResult D)
  judge t res =
      verdict t res.document res.diagnostics >>= λ failed. ok (record res { failed = failed })
