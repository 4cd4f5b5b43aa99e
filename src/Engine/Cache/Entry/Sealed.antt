-- ===== src/Engine/Cache/Entry/Sealed.antt =====
-- What was sealed is read again, and what is read was sealed.
use morphic.Base.{
  true, [], ◌∷◌, ◌++◌, Option, some, Bytes, same_text_refl, ok, ◌≡◌, refl, ap, ◌∙◌, arith,
}
use morphic.Base.Format.{hex_digit, hex_encode}
use morphic.Ir.Ids.Parts.{lacks}
use morphic.Engine.Cache.Entry.{
  entry_separator, cut_line, seal_of, content_of, sealed, read_head, open_sealed, decode_entry,
}

cut_line-append :
    (s t : Bytes) → lacks entry_separator s ≡ true → cut_line (s ++ entry_separator ∷ t) ≡ (s, t)
unfolding cut_line lacks
cut_line-append [] t h = refl
cut_line-append (c ∷ s) t h =
    let r = cut_line-append s t (ground (arith, h)) in ground (arith, h, r)

hex_encode-lacks : (s : Bytes) → lacks entry_separator (hex_encode s) ≡ true
unfolding hex_encode hex_digit lacks
hex_encode-lacks [] = refl
hex_encode-lacks (b ∷ s) = ground (arith, hex_encode-lacks s)

module _ {H : Type 0} (sha : Bytes → Bytes) (unmarshal : Bytes → Option H) where
  -- An entry of a head and a document decodes, under the key that it was sealed with, to what its head
  -- reads as and to the text of the document, where the head is one line.
  pub decode_entry-sealed :
      (key line body : Bytes) (head : H)
      → lacks entry_separator line ≡ true
      → unmarshal line ≡ some head
      → decode_entry sha unmarshal key (sealed sha key line body) ≡ ok (head, body)
  unfolding decode_entry sealed seal_of open_sealed read_head
  decode_entry-sealed key line body head plain read =
      let content = content_of line body in
      ap (open_sealed sha unmarshal key)
        (cut_line-append (seal_of sha key content) content (hex_encode-lacks _))
      ∙ rw
          (
            open_sealed,
            same_text_refl (hex_encode (sha (key ++ content))),
            cut_line-append line body plain,
          )
          (rw (read_head, read) refl)
