-- ===== src/Engine/Stage/Kept.antt =====
-- What a run of the passes keeps: the IR version, the table of sources, and findings that index it.
use morphic.Base.{
  ℕ, ◌≤◌, true, List, [], ◌∷◌, ◌++◌, none, some, ok, ◌≡◌, refl, sym, ap, ◌∙◌, arith, ◌&&◌, length,
  length-append, take, drop, take-append-drop, append_assoc, inl, inr, Option-cases,
}
use morphic.Ir.Diagnostic.{
  Diagnostic, Provenance, SourceInfo, SourceInfo-discrete, in_table, first_outside_table, is_yes,
}
use morphic.Engine.Stage.{
  Document, Next, compatible_version, all_equal, keeps_sources, check_document, next_document,
  check_output,
}

-- Every entry of one table stands in the other at its index.
abbrev pub Extends : List SourceInfo → List SourceInfo → Type 0
Extends prev next = (more : List SourceInfo) × (next ≡ prev ++ more)

pub all_equal-eq {ℓ} :
    {A : Type ℓ} (dec : Discrete A) (xs ys : List A)
    → all_equal (λ a b. is_yes (dec a b)) xs ys ≡ true
    → xs ≡ ys
unfolding all_equal
all_equal-eq dec [] [] h = refl
all_equal-eq dec [] (y ∷ ys) h = cc
all_equal-eq dec (x ∷ xs) [] h = cc
all_equal-eq dec (x ∷ xs) (y ∷ ys) h = go (dec x y) (all_equal-eq dec xs ys) h
  where
    go :
        (d : Dec (x ≡ y))
        → (all_equal (λ a b. is_yes (dec a b)) xs ys ≡ true → xs ≡ ys)
        → (is_yes d && all_equal (λ a b. is_yes (dec a b)) xs ys) ≡ true
        → x ∷ xs ≡ y ∷ ys
    go (yes e) rest h = cc (rest h)
    go (no e) rest h = cc

keeps_sources-Extends :
    (prev next : List SourceInfo) → keeps_sources prev next ≡ true → Extends prev next
unfolding keeps_sources
keeps_sources-Extends prev next h =
    let same : prev ≡ take (length prev) next =
      all_equal-eq SourceInfo-discrete prev _ (ground arith) in
    (
      drop (length prev) next,
      sym (take-append-drop (length prev) next) ∙ ap (λ t. t ++ drop (length prev) next) (sym same),
    )

in_table-le : (p : Provenance) (m n : ℕ) → m ≤ n → in_table p m ≡ true → in_table p n ≡ true
unfolding in_table
in_table-le p m n le h = ground arith

pub first_outside_table-le :
    (ds : List Diagnostic) (m n : ℕ)
    → m ≤ n
    → first_outside_table ds m ≡ none
    → first_outside_table ds n ≡ none
unfolding first_outside_table
first_outside_table-le [] m n le h = refl
first_outside_table-le (d ∷ ds) m n le h =
    ground (arith, in_table-le d.provenance m n le, first_outside_table-le ds m n le)

pub first_outside_table-append :
    (ds es : List Diagnostic) (n : ℕ)
    → first_outside_table ds n ≡ none
    → first_outside_table es n ≡ none
    → first_outside_table (ds ++ es) n ≡ none
unfolding first_outside_table
first_outside_table-append [] es n h k = k
first_outside_table-append (d ∷ ds) es n h k = ground (arith, first_outside_table-append ds es n)

pub Extends-trans : (a b c : List SourceInfo) → Extends a b → Extends b c → Extends a c
Extends-trans a b c (m, e) (n, f) = (m ++ n, f ∙ ap (λ t. t ++ n) e ∙ append_assoc a m n)

pub Extends-length : (a b : List SourceInfo) → Extends a b → length a ≤ length b
Extends-length a b (m, e) = omega (arith, ap length e, length-append a m)

-- What `checkOutput` accepts: a document of this version, that keeps the sources of the one handed
-- in, and findings that index its table.
pub record Accepted {B : Type 0} (left : Document B) (next : Next B) (diags : List Diagnostic)
    (d : Document B) : Type 0 where
  pub document : next_document left next ≡ some d
  pub version : compatible_version d.version ≡ true
  pub sources : Extends left.sources d.sources
  pub findings : first_outside_table diags (length d.sources) ≡ none

module _ {B : Type 0} where
  check_document_ok :
      (prev next : Document B) (diags : List Diagnostic)
      → check_document prev next diags ≡ none
      → (compatible_version next.version ≡ true)
        × (keeps_sources prev.sources next.sources ≡ true)
        × (first_outside_table diags (length next.sources) ≡ none)
  unfolding check_document
  check_document_ok prev next diags h = (ground arith, ground arith, ground arith)

  pub check_output_ok :
      (left : Document B) (next : Next B) (diags : List Diagnostic) {d : Document B}
      → check_output left next diags ≡ ok d
      → Accepted left next diags d
  unfolding check_output
  check_output_ok left next diags {d} h = elim (Option-cases (next_document left next)) [
    | inl e ↦ absurd (cc (rw (e, check_output) at h))
    | inr (x, e) ↦ elim (Option-cases (check_document left x diags)) [
      | inr (b, f) ↦ absurd (cc (rw (e, check_output, f) at h))
      | inl f ↦
          let same : x ≡ d = cc (rw (e, check_output, f) at h) in
          let (version, kept, findings) = check_document_ok left x diags f in
          rw (← same) (record {
            document = e;
            version = version;
            sources = keeps_sources-Extends left.sources x.sources kept;
            findings = findings;
          })
    ]
  ]
