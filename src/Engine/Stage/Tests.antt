-- ===== src/Engine/Stage/Tests.antt =====
-- Runs of engine/stage.go, and its theorems at a concrete run of two passes.
use native.Mathlib.Decide.{ℕ_discrete}
use morphic.Base.{
  ℕ, ◌+◌, ◌≤◌, Bool, true, false, List, [], ◌∷◌, Option, none, some, Result, ok, codes, refl, ◌≡◌,
  arith, Bytes, same_text, length, ltb, if◌then◌else◌,
}
use morphic.Ir.Diagnostic.{
  Diagnostic, Diagnostic-discrete, SourceInfo, SourceInfo-discrete, ℤ-discrete, in_table,
  first_outside_table, is_yes,
}
use morphic.Ir.Diagnostic.Tests.{first_finding, second_finding}
use morphic.Engine.Passes.{NamedPass}
use morphic.Engine.Stage.{
  Document, itself, another, returned, Pass, StageError, Verifier, ir_version, run_passes, round,
  check_output, check_document, after_pass, hold, keeps_sources, compatible_version, all_equal,
}
use morphic.Engine.Stage.Kept.{Extends}
use morphic.Engine.Stage.Run.{LeavesInput, Kept, run_passes-Kept}
use morphic.Engine.Stage.Verified.{Holds, run_passes-verified}

abbrev start : Document ℕ
start = record { version = ir_version; sources = []; diagnostics = []; body = 3 }

-- A pass that raises the body and reports a finding, and one that hands its document back.
abbrev raise : Pass ℕ
raise doc = returned doc (another (record doc { body = doc.body + 1 })) (second_finding ∷ [])

abbrev look : Pass ℕ
look doc = returned doc itself []

abbrev two_passes : List (NamedPass (Pass ℕ))
two_passes =
    record { name = codes "raise"; pass = raise } ∷ record { name = codes "look"; pass = look } ∷ []

abbrev never : ℕ → Bool
never k = false

abbrev Sum : Type 0
Sum = Bytes × List SourceInfo × List Diagnostic × ℕ

-- A verifier that refuses a body above ten, and fingerprints a document by all its fields.
abbrev sum_of : Document ℕ → Sum
sum_of d = (d.version, d.sources, d.diagnostics, d.body)

Sum-discrete : Discrete Sum
Sum-discrete = hlevel (ℕ_discrete, SourceInfo-discrete, Diagnostic-discrete)

abbrev ten_at_most : Verifier ℕ ℕ Sum
ten_at_most = record {
  violations = λ d. if ltb 10 d.body then d.body ∷ [] else [];
  fingerprint = λ d. some (sum_of d);
  same = λ f g. is_yes (Sum-discrete f g);
  unencodable = 0;
}

abbrev last_one : Document ℕ
last_one = record { version = ir_version; sources = []; diagnostics = []; body = 4 }

-- Its line opens all that `run_passes` calls.
run_two : Option (Verifier ℕ ℕ Sum) → Result (StageError ℕ) (Document ℕ × List Diagnostic)
unfolding run_passes round check_output check_document after_pass hold keeps_sources
    compatible_version all_equal first_outside_table in_table ℤ-discrete SourceInfo-discrete
    Diagnostic-discrete Sum-discrete same_text
run_two verify =
    run_passes (sum_of start) never verify 0 two_passes start (sum_of start) (first_finding ∷ [])

two_ran :
    run_passes
      (sum_of start)
      never
      (some ten_at_most)
      0
      two_passes
      start
      (sum_of start)
      (first_finding ∷ [])
    ≡ ok (last_one, first_finding ∷ second_finding ∷ [])
unfolding run_two ℕ_discrete
two_ran = refl

start_version : compatible_version start.version ≡ true
unfolding run_two ℕ_discrete
start_version = refl

first_inside : first_outside_table (first_finding ∷ []) (length start.sources) ≡ none
unfolding run_two ℕ_discrete
first_inside = refl

raise-LeavesInput : LeavesInput raise
raise-LeavesInput doc left next diags e = cc

look-LeavesInput : LeavesInput look
look-LeavesInput doc left next diags e = cc

start-Holds : Holds ten_at_most (sum_of start) never start (sum_of start)
start-Holds = record { keeps = refl; print = refl }

yes_eq : {A : Type 0} {x y : A} (d : Dec (x ≡ y)) → is_yes d ≡ true → x ≡ y
yes_eq (yes p) h = p
yes_eq (no n) h = absurd (cc)

same_sound : (f g : Sum) → is_yes (Sum-discrete f g) ≡ true → f ≡ g
same_sound f g h = yes_eq (Sum-discrete f g) h

one_print :
    (x y : Document ℕ) (f : Sum) → some (sum_of x) ≡ some f → some (sum_of y) ≡ some f → x ≡ y
one_print x y f p q = cc

run_passes-Kept_example :
    Kept
      (sum_of start)
      never
      (some ten_at_most)
      two_passes
      start
      (first_finding ∷ [])
      last_one
      (first_finding ∷ second_finding ∷ [])
run_passes-Kept_example =
    run_passes-Kept (sum_of start) never (some ten_at_most) 0 two_passes start (sum_of start)
      (first_finding ∷ []) (raise-LeavesInput, (look-LeavesInput, tt)) start_version first_inside
      two_ran

run_passes-verified_example :
    (ten_at_most.violations last_one ≡ []) × Extends start.sources last_one.sources
run_passes-verified_example =
    run_passes-verified ten_at_most (sum_of start) never same_sound one_print 0 two_passes start
      (sum_of start) (first_finding ∷ []) start-Holds two_ran

three_in : 3 ≤ 4
three_in = omega arith
