-- ===== src/Ir/Diagnostic.antt =====
-- ir/provenance.go: where a finding points, what it says, and the table of sources it points into.
-- An int is an integer of `ℤ`; no sum of one is taken, so none wraps.
pub mod Merge
pub mod Tests
use native.Mathlib.Decide.{ℕ_discrete}
use morphic.Base.{
  ℕ, Bool, List, [], ◌∷◌, ◌++◌, Option, none, some, Bytes, codes, length, true, false, not, ◌&&◌,
  ◌||◌, if◌then◌else◌, same_text,
}
use morphic.Base.Int.{ℤ, pos, negsuc, ltb_ℤ, compare_ℤ}

pub record Position : Type 0 where
  pub line : ℤ
  pub column : ℤ

pub record Provenance : Type 0 where
  pub source : ℤ
  pub pointer : Bytes
  pub position : Position
  pub node : Bytes
  pub inferred : Bytes

pub record Diagnostic : Type 0 where
  pub severity : Bytes
  pub code : Bytes
  pub message : Bytes
  pub provenance : Provenance

pub record SourceInfo : Type 0 where
  pub format : Bytes
  pub path : Bytes
  pub hash : Bytes
  pub self_uri : Bytes

abbrev pub severity_error : Bytes
severity_error = codes "error"

abbrev pub severity_warning : Bytes
severity_warning = codes "warning"

abbrev pub severity_info : Bytes
severity_info = codes "info"

abbrev pub no_source : ℤ
no_source = negsuc 0

unfoldable pub ℤ-discrete : Discrete ℤ
ℤ-discrete = hlevel ℕ_discrete

unfoldable pub Bytes-discrete : Discrete Bytes
Bytes-discrete = hlevel ℕ_discrete

-- `==` on findings and on sources, which compares every field.
unfoldable pub Diagnostic-discrete : Discrete Diagnostic
Diagnostic-discrete = hlevel ℕ_discrete

unfoldable pub SourceInfo-discrete : Discrete SourceInfo
SourceInfo-discrete = hlevel ℕ_discrete

abbrev pub is_yes {ℓ} : {A : Type ℓ} → Dec A → Bool
is_yes (yes _) = true
is_yes (no _) = false

unfoldable pub in_table : Provenance → ℕ → Bool
in_table p n =
    is_yes (ℤ-discrete p.source no_source) || not (ltb_ℤ p.source (pos 0)) && ltb_ℤ p.source (pos n)

-- `FirstError`: the first finding of that severity, if there is one.
unfoldable pub first_error : List Diagnostic → Option Diagnostic
first_error [] = none
first_error (d ∷ ds) = if same_text d.severity severity_error then some d else first_error ds

unfoldable pub has_error : List Diagnostic → Bool
has_error ds = elim (first_error ds) [ none ↦ false | some d ↦ true ]

unfoldable pub first_outside_table : List Diagnostic → ℕ → Option Diagnostic
first_outside_table [] n = none
first_outside_table (d ∷ ds) n =
    if not (in_table d.provenance n) then some d else first_outside_table ds n

unfoldable pub holds : List Diagnostic → Diagnostic → Bool
holds [] d = false
holds (x ∷ xs) d = is_yes (Diagnostic-discrete x d) || holds xs d

-- The loop of `MergeDiagnostics`; `stored` is the content of the map `held`.
unfoldable pub merge_into : List Diagnostic → List Diagnostic → List Diagnostic → List Diagnostic
merge_into stored merged [] = merged
merge_into stored merged (d ∷ produced) =
    merge_into stored (if holds stored d then merged else merged ++ d ∷ []) produced

unfoldable pub merge_diagnostics : List Diagnostic → List Diagnostic → List Diagnostic
merge_diagnostics stored [] = stored
merge_diagnostics stored (d ∷ produced) = merge_into stored stored (d ∷ produced)
