-- ===== src/Ir/Diagnostic/Tests.antt =====
-- The theorems of the merge of findings at concrete ones.
use morphic.Base.{List, [], ◌∷◌, ◌++◌, codes, Bytes, ◌≡◌}
use morphic.Base.Int.{pos}
use morphic.Ir.Diagnostic.{
  Diagnostic, merge_diagnostics, severity_error, severity_info, severity_warning, no_source,
}
use morphic.Ir.Diagnostic.Merge.{missing, merge_diagnostics-missing}

abbrev pub finding : Bytes → Bytes → Diagnostic
finding severity code = record {
  severity = severity;
  code = code;
  message = [];
  provenance = record {
    source = no_source;
    pointer = [];
    position = record { line = pos 0; column = pos 0 };
    node = [];
    inferred = [];
  };
}

abbrev pub first_finding : Diagnostic
first_finding = finding severity_error (codes "a/b")

abbrev pub second_finding : Diagnostic
second_finding = finding severity_info (codes "c/d")

abbrev pub third_finding : Diagnostic
third_finding = finding severity_warning (codes "e/f")

abbrev stored_two : List Diagnostic
stored_two = first_finding ∷ second_finding ∷ []

abbrev produced_three : List Diagnostic
produced_three = second_finding ∷ third_finding ∷ third_finding ∷ []

merge_diagnostics-missing_example :
    merge_diagnostics stored_two produced_three ≡ stored_two ++ missing stored_two produced_three
merge_diagnostics-missing_example = merge_diagnostics-missing stored_two produced_three
