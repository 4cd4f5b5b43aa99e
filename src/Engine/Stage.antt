-- ===== src/Engine/Stage.antt =====
-- engine/stage.go and the run-time half of engine/verify.go: the passes of a run, and what is asked
-- of each.
-- A document is the fields that the engine reads and, as `B`, all the others. A pass is handed a
-- document and may leave it changed, so a call returns the document as it was left. The context is
-- the answers to the successive calls of `ctx.Err`. The verifier, the canonical JSON and its hash
-- are of other packages: `Verifier` takes them as functions.
pub mod Kept
pub mod Run
pub mod Verified
mod Tests
use morphic.Base.{
  ℕ, suc, ◌+◌, Bool, true, false, List, [], ◌∷◌, ◌++◌, Option, none, some, Result, ok, err, ◌>>=◌,
  Bytes, codes, ◌&&◌, not, if◌then◌else◌, same_text, length, leb, take,
}
use morphic.Ir.Diagnostic.{
  Diagnostic, Diagnostic-discrete, SourceInfo, SourceInfo-discrete, first_outside_table, is_yes,
}
use morphic.Engine.Passes.{NamedPass}

abbrev pub ir_version : Bytes
ir_version = codes "0.32.0"

pub record Document (B : Type 0) : Type 0 where
  pub version : Bytes
  pub sources : List SourceInfo
  pub diagnostics : List Diagnostic
  pub body : B

-- What a pass hands back: nil, the very document it was handed, or another one.
pub data Next (B : Type 0) : Type 0 where
  nothing itself : Next B
  another : Document B → Next B

-- A call of `Pass.Run`: a panic, or the document handed in as the pass left it, and what it returned.
pub data Ran (B : Type 0) : Type 0 where
  panicked : Ran B
  returned : Document B → Next B → List Diagnostic → Ran B

abbrev pub Pass : Type 0 → Type 0
Pass B = Document B → Ran B

-- The duties that `checkOutput` and `afterPass` find unmet.
pub data Breach : Type 0 where
  no_document version_changed sources_moved diagnostics_changed : Breach
  source_out_of_range input_changed no_longer_encodes : Breach

pub data StageError (V : Type 0) : Type 0 where
  stopped_before stopped_in : Bytes → StageError V
  stopped_after : StageError V
  pass_panicked : Bytes → StageError V
  breach : Bytes → Breach → StageError V
  breaks_invariants : List V → StageError V

-- What a verified run asks of a document: the violations irverify lists, and the fingerprint of its
-- JSON, `none` where it will not encode, which is the violation `unencodable`.
pub record Verifier (B V F : Type 0) : Type 0 where
  pub violations : Document B → List V
  pub fingerprint : Document B → Option F
  pub same : F → F → Bool
  pub unencodable : V

unfoldable pub compatible_version : Bytes → Bool
compatible_version version = same_text version ir_version

unfoldable pub all_equal {ℓ} : {A : Type ℓ} → (A → A → Bool) → List A → List A → Bool
all_equal eq [] [] = true
all_equal eq [] (y ∷ ys) = false
all_equal eq (x ∷ xs) [] = false
all_equal eq (x ∷ xs) (y ∷ ys) = eq x y && all_equal eq xs ys

unfoldable pub keeps_sources : List SourceInfo → List SourceInfo → Bool
keeps_sources prev next =
    leb (length prev) (length next)
    && all_equal (λ a b. is_yes (SourceInfo-discrete a b)) prev (take (length prev) next)

abbrev pub is_empty {ℓ} : {A : Type ℓ} → List A → Bool
is_empty [] = true
is_empty (x ∷ xs) = false

module _ {B : Type 0} where
  unfoldable pub check_document : Document B → Document B → List Diagnostic → Option Breach
  check_document prev next diags =
      if not (compatible_version next.version)
      then some version_changed
      else if not (keeps_sources prev.sources next.sources)
      then some sources_moved
      else if not (is_empty next.diagnostics)
          && not (
              all_equal (λ a b. is_yes (Diagnostic-discrete a b)) prev.diagnostics next.diagnostics)
      then some diagnostics_changed
      else elim (first_outside_table diags (length next.sources)) [
        | none ↦ none
        | some d ↦ some source_out_of_range
      ]

  -- The document that `next` is, where `left` is the one handed in.
  abbrev pub next_document : Document B → Next B → Option (Document B)
  next_document left nothing = none
  next_document left itself = some left
  next_document left (another d) = some d

  unfoldable pub check_output : Document B → Next B → List Diagnostic → Result Breach (Document B)
  check_output left next diags = elim (next_document left next) [
    | none ↦ err no_document
    | some d ↦ elim (check_document left d diags) [ none ↦ ok d | some b ↦ err b ]
  ]

module _ {B V F : Type 0} (zero_sum : F) (ctx : ℕ → Bool) (verify : Option (Verifier B V F)) where
  -- `plan.hold` without the stage's name; `zero_sum` is the zero value of a fingerprint.
  unfoldable pub hold : Document B → Result (List V) F
  hold doc = elim verify [
    | none ↦ ok zero_sum
    | some v ↦ elim (v.fingerprint doc) [
      | none ↦ err (v.violations doc ++ v.unencodable ∷ [])
      | some sum ↦ elim (v.violations doc) [ [] ↦ ok sum | x ∷ xs ↦ err (x ∷ xs) ]
    ]
  ]

  -- `plan.afterPass`: `left` is the document handed in as the pass left it, `d` the one returned.
  unfoldable pub after_pass : Bytes → F → Document B → Next B → Document B → Result (StageError V) F
  after_pass name before left next d = elim verify [
    | none ↦ ok before
    | some v ↦ elim (v.fingerprint left) [
      | none ↦ err (breach name no_longer_encodes)
      | some after ↦
          if v.same after before
          then elim next [
            | itself ↦ ok before
            | _ ↦ elim (hold d) [ ok sum ↦ ok sum | err vs ↦ err (breaks_invariants vs) ]
          ]
          else err (breach name input_changed)
    ]
  ]

  -- One round of `runPasses` behind its first question to the context, `k` questions having been put:
  -- the document, the fingerprint and the findings of the pass.
  unfoldable pub round :
      ℕ
      → NamedPass (Pass B)
      → Document B
      → F
      → Result (StageError V) (Document B × F × List Diagnostic)
  round k np doc sum = elim (np.pass doc) [
    | panicked ↦ err (pass_panicked np.name)
    | returned left next diags ↦
        if ctx k then err (stopped_in np.name) else elim (check_output left next diags) [
          | err b ↦ err (breach np.name b)
          | ok d ↦ after_pass np.name sum left next d >>= λ after. ok (d, after, diags)
        ]
  ]

  unfoldable pub run_passes :
      ℕ
      → List (NamedPass (Pass B))
      → Document B
      → F
      → List Diagnostic
      → Result (StageError V) (Document B × List Diagnostic)
  run_passes k [] doc sum found = if ctx k then err stopped_after else ok (doc, found)
  run_passes k (np ∷ nps) doc sum found =
      if ctx k then err (stopped_before np.name) else elim (round (k + 1) np doc sum) [
        | err e ↦ err e
        | ok (next, after, diags) ↦ run_passes (k + 2) nps next after (found ++ diags)
      ]
