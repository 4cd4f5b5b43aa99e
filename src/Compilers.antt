-- ===== src/Compilers.antt =====
-- compilers/compilers.go: the compilers of a build and the registry of the formats that they take.
-- A value of the type `any` is an `Option A`, `none` where it is nil, and an error of a compiler is an
-- `E`. A compiler is its methods; a call of one either panics, which the barrier catches, or returns.
-- The limit of a source is the number of its bytes, and every limit of zero or below is zero here. The
-- pointer to a registered compiler is its position in the order of registration.
pub mod Owned
pub mod Detect
pub mod Contract
pub mod Tests
use morphic.Base.{
  ℕ, zero, suc, Bool, true, false, not, ◌&&◌, ◌||◌, List, [], ◌∷◌, ◌++◌, Option, none, some, Bytes,
  Table, Result, ok, err, ◌>>=◌, if◌then◌else◌, ◌==◌, length, same_text,
}
use morphic.Ir.BigVal.{is_nil}
use morphic.Ir.Diagnostic.{Diagnostic, SourceInfo}
use morphic.Engine.Stage.{Document}

-- `barrier.Catch` of a call.
pub data Call {ℓ} (X : Type ℓ) : Type ℓ where
  panicked : Call X
  returned : X → Call X

pub record SourceFormat : Type 0 where
  pub name : Bytes
  pub version : Bytes

-- `SourceFormat.String`.
unfoldable pub format_text : SourceFormat → Bytes
format_text f = f.name ++ (b'@' ∷ f.version)

unfoldable pub same_format : SourceFormat → SourceFormat → Bool
same_format f g = same_text f.name g.name && same_text f.version g.version

unfoldable pub has_byte : Bytes → ℕ → Bool
has_byte [] b = false
has_byte (c ∷ s) b = (c == b) || has_byte s b

-- `SourceFormat.valid`.
unfoldable pub format_valid : SourceFormat → Bool
format_valid f = not (is_nil f.name) && not (is_nil f.version) && not (has_byte f.name b'@')

pub record Source (A : Type 0) : Type 0 where
  pub path : Bytes
  pub data_of : Bytes
  pub parsed : Option A

pub record Recognition (A : Type 0) : Type 0 where
  pub format : SourceFormat
  pub parsed : Option A

pub record Options (A R : Type 0) : Type 0 where
  pub format_options : Option A
  pub reader : Option R

-- What a compiler answers when it is shown a source, and when it compiles one.
abbrev pub Detected : Type 0 → Type 0
Detected A = Recognition A × List Diagnostic × Bool

abbrev pub Output : Type 0 → Type 0 → Type 0
Output B E = Option (Document B) × List Diagnostic × Option E

pub record Compiler (A R B E : Type 0) : Type 0 where
  pub formats : Call (List SourceFormat)
  pub detect : Source A → Options A R → Call (Detected A)
  pub decode_options : Table Bytes → Call (Result E (Option A))
  pub source_limit : Options A R → Call ℕ
  pub compile : List (Source A) → Options A R → Call (Output B E)
  pub source_table : List (Source A) → Options A R → Call (List SourceInfo)

pub record Registered (A R B E : Type 0) : Type 0 where
  pub compiler : Compiler A R B E
  pub formats : List SourceFormat

pub record CompilerRegistry (A R B E : Type 0) : Type 0 where
  pub by_format : List (SourceFormat × ℕ)
  pub ordered : List (Registered A R B E)

pub data RegisterError : Type 0 where
  nil_compiler formats_panicked no_formats : RegisterError
  invalid_format taken_format : SourceFormat → RegisterError

unfoldable pub new_compiler_registry : {A R B E : Type 0} → CompilerRegistry A R B E
new_compiler_registry = record { by_format = []; ordered = [] }

-- The content of the map `byFormat`.
unfoldable pub owner_of : List (SourceFormat × ℕ) → SourceFormat → Option ℕ
owner_of [] f = none
owner_of ((g, i) ∷ owners) f = if same_format g f then some i else owner_of owners f

-- The formats that a compiler may not be registered for.
unfoldable pub check_formats : List (SourceFormat × ℕ) → List SourceFormat → Option RegisterError
check_formats owners [] = none
check_formats owners (f ∷ formats) =
    if not (format_valid f) then some (invalid_format f) else elim (owner_of owners f) [
      | some i ↦ some (taken_format f)
      | none ↦ check_formats owners formats
    ]

unfoldable pub own_formats :
    List (SourceFormat × ℕ) → ℕ → List SourceFormat → List (SourceFormat × ℕ)
own_formats owners i [] = owners
own_formats owners i (f ∷ formats) = own_formats ((f, i) ∷ owners) i formats

module _ {A R B E : Type 0} where
  unfoldable pub enter :
      CompilerRegistry A R B E → Compiler A R B E → List SourceFormat → CompilerRegistry A R B E
  enter r c formats = record {
    by_format = own_formats r.by_format (length r.ordered) formats;
    ordered = r.ordered ++ record { compiler = c; formats = formats } ∷ [];
  }

  -- `Register` of a compiler that is not nil and reports some formats.
  unfoldable pub register_formats :
      CompilerRegistry A R B E
      → Compiler A R B E
      → List SourceFormat
      → Result RegisterError (CompilerRegistry A R B E)
  register_formats r c [] = err no_formats
  register_formats r c (f ∷ formats) = elim (check_formats r.by_format (f ∷ formats)) [
    | some e ↦ err e
    | none ↦ ok (enter r c (f ∷ formats))
  ]

  unfoldable pub register_compiler :
      CompilerRegistry A R B E
      → Option (Compiler A R B E)
      → Result RegisterError (CompilerRegistry A R B E)
  register_compiler r none = err nil_compiler
  register_compiler r (some c) = elim c.formats [
    | panicked ↦ err formats_panicked
    | returned formats ↦ register_formats r c formats
  ]

  -- The loop of `engine.New` over the compilers of its configuration.
  unfoldable pub register_all :
      CompilerRegistry A R B E
      → List (Option (Compiler A R B E))
      → Result RegisterError (CompilerRegistry A R B E)
  register_all r [] = ok r
  register_all r (c ∷ cs) = register_compiler r c >>= λ next. register_all next cs
