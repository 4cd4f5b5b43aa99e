-- ===== src/Engine/Cache/Entry.antt =====
-- engine/cacheentry.go: an entry of the cache, which is a seal, a head and a document, a line each but
-- the last.
-- `sha` is SHA-256, and the JSON of a head and of a document is read and written by parameters: a writer
-- that fails is `none`, as is a reader.
pub mod Sealed
use morphic.Base.{
  ℕ, Bool, List, [], ◌∷◌, ◌++◌, Option, none, some, Bytes, same_text, if◌then◌else◌, ◌==◌, Result,
  ok, err,
}
use morphic.Base.Format.{hex_encode}

abbrev pub entry_separator : ℕ
entry_separator = 10

-- `bytes.Cut` at the separator: all of the text and nothing where it has none.
unfoldable pub cut_line : Bytes → Bytes × Bytes
cut_line [] = ([], [])
cut_line (c ∷ s) =
    let (line, rest) = cut_line s in if c == entry_separator then ([], s) else (c ∷ line, rest)

unfoldable pub seal_of : (Bytes → Bytes) → Bytes → Bytes → Bytes
seal_of sha key content = hex_encode (sha (key ++ content))

abbrev pub content_of : Bytes → Bytes → Bytes
content_of head body = head ++ entry_separator ∷ body

unfoldable pub sealed : (Bytes → Bytes) → Bytes → Bytes → Bytes → Bytes
sealed sha key head body =
    seal_of sha key (content_of head body) ++ entry_separator ∷ content_of head body

pub data EntryError : Type 0 where
  seal_broken head_unread document_unread document_unwritten head_unwritten : EntryError

unfoldable pub read_head :
    {H : Type 0} → (Bytes → Option H) → Bytes × Bytes → Result EntryError (H × Bytes)
read_head unmarshal (line, body) = elim (unmarshal line) [
  | none ↦ err head_unread
  | some head ↦ ok (head, body)
]

unfoldable pub open_sealed :
    {H : Type 0}
    → (Bytes → Bytes)
    → (Bytes → Option H)
    → Bytes
    → Bytes × Bytes
    → Result EntryError (H × Bytes)
open_sealed sha unmarshal key (seal, content) =
    if same_text seal (seal_of sha key content)
    then read_head unmarshal (cut_line content)
    else err seal_broken

unfoldable pub decode_entry :
    {H : Type 0}
    → (Bytes → Bytes)
    → (Bytes → Option H)
    → Bytes
    → Bytes
    → Result EntryError (H × Bytes)
decode_entry sha unmarshal key entry = open_sealed sha unmarshal key (cut_line entry)

-- `encodeEntry`, from the document and the head of the entry.
unfoldable pub encode_entry :
    {D H : Type 0}
    → (Bytes → Bytes)
    → (D → Option Bytes)
    → (H → Option Bytes)
    → Bytes
    → D
    → H
    → Result EntryError Bytes
encode_entry sha marshal_document marshal_head key document head =
    elim (marshal_document document) [
      | none ↦ err document_unwritten
      | some body ↦ elim (marshal_head head) [
        | none ↦ err head_unwritten
        | some line ↦ ok (sealed sha key line body)
      ]
    ]
