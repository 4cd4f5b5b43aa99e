-- ===== src/Engine/Cache/Serve/Kept.antt =====
-- What is kept of a run is what a later run on the same documents would make.
use morphic.Base.{true, [], some, Bytes, ◌≡◌}
use morphic.Ir.Ids.Parts.{lacks}
use morphic.Engine.Cache.Entry.{entry_separator}
use morphic.Engine.Cache.Reads.{Recorder, settled_reads}
use morphic.Engine.Cache.Serve.{Head, CompileResult, Binding}

-- What the writers and the readers of JSON keep to: a document and a head read as they were written, a
-- head on one line.
pub record Written {St D F S : Type 0} (b : Binding St D F S) (d : D) (head : Head) : Type 0 where
  pub body : Bytes
  pub line : Bytes
  pub body_written : b.marshal_document d ≡ some body
  pub body_read : b.unmarshal_document body ≡ some d
  pub line_written : b.marshal_head head ≡ some line
  pub line_read : b.unmarshal_head line ≡ some head
  pub one_line : lacks entry_separator line ≡ true

-- The result of a compile that came to this document.
abbrev pub result_of : {St D F S : Type 0} → Binding St D F S → D → Bytes → CompileResult D F S
result_of b d format = record {
  document = some d;
  diagnostics = b.diagnostics_of d;
  sources = b.sources_of d;
  format = format;
  cache_errors = [];
}

module _ {St D F S : Type 0} (b : Binding St D F S) (st : St) (key : Bytes) (d : D) (format : Bytes)
    (r : Recorder) where
  abbrev pub head_kept : Head
  head_kept = record { format = format; reads = (settled_reads r).0 }
