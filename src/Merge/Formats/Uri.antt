-- ===== src/Merge/Formats/Uri.antt =====
-- The bytes of a URI, of compilers/openapi/internal/merge/formats.go.
use morphic.Base.{
  ℕ, suc, ◌+◌, Bool, true, false, ◌&&◌, ◌||◌, [], ◌∷◌, Bytes, codes, length, get_or, take, drop,
  leb, ltb, ◌==◌, if◌then◌else◌,
}
use morphic.Ir.BigVal.{starts_with}
use morphic.Merge.Formats.{is_digit, is_hex}

abbrev pub is_letter : ℕ → Bool
is_letter c = leb b'a' c && leb c b'z' || leb b'A' c && leb c b'Z'

-- `strings.IndexByte(set, c) >= 0`.
unfoldable pub one_of : Bytes → ℕ → Bool
one_of [] c = false
one_of (x ∷ set) c = x == c || one_of set c

-- `strings.IndexAny`, or the length of the text where it answers -1.
unfoldable pub index_any : Bytes → Bytes → ℕ
index_any set [] = 0
index_any set (c ∷ s) = let rest = index_any set s in if one_of set c then 0 else suc rest

-- `strings.Count` of one byte.
unfoldable pub count_byte : ℕ → Bytes → ℕ
count_byte b [] = 0
count_byte b (c ∷ s) = let rest = count_byte b s in if c == b then suc rest else rest

-- The text behind the last `@`, or all of it.
unfoldable pub behind_at : Bytes → Bytes → Bytes
behind_at host [] = host
behind_at host (c ∷ s) = behind_at (if c == b'@' then s else host) s

-- An address in brackets stands where a host does, alone or before a port.
unfoldable pub bracketed : Bytes → Bytes → Bool
bracketed authority host =
    let end = index_any (codes "]") host in
    starts_with host b'['
    && (ltb end (length host)
        && (ltb 0 end
            && (count_byte b'[' authority == 1
                && (count_byte b']' authority == 1
                    && (end + 1 == length host || get_or host (end + 1) 0 == b':')))))

unfoldable pub ip_literal_placed : Bytes → Bool
ip_literal_placed authority =
    if index_any (codes "[]") authority == length authority
    then true
    else bracketed authority (behind_at (drop 2 authority) (drop 2 authority))

-- The loop of `uriTailValid` from the byte at `i` on; `fragments` counts the `#` before it.
unfoldable pub tail_loop : ℕ → ℕ → ℕ → Bytes → Bool
tail_loop authority_end i fragments [] = true
tail_loop authority_end i fragments (c ∷ []) =
    if c == b'[' || c == b']'
    then ltb i authority_end
    else if c == b'#'
    then fragments == 0
    else is_letter c || (is_digit c || one_of (codes "-._~:/?@!$&'()*+,;=") c)
tail_loop authority_end i fragments (c ∷ d ∷ []) =
    let rest =
      tail_loop authority_end (suc i) (if c == b'#' then suc fragments else fragments) (d ∷ []) in
    if c == b'%'
    then false
    else if c == b'[' || c == b']'
    then ltb i authority_end && rest
    else if c == b'#'
    then fragments == 0 && rest
    else (is_letter c || (is_digit c || one_of (codes "-._~:/?@!$&'()*+,;=") c)) && rest
tail_loop authority_end i fragments (c ∷ d ∷ e ∷ s) = elim (c == b'%') [
  | true ↦ is_hex d && (is_hex e && tail_loop authority_end (i + 3) fragments s)
  | false ↦
      let rest =
        tail_loop authority_end (suc i) (if c == b'#' then suc fragments else fragments)
          (d ∷ e ∷ s) in
      if c == b'[' || c == b']'
      then ltb i authority_end && rest
      else if c == b'#'
      then fragments == 0 && rest
      else (is_letter c || (is_digit c || one_of (codes "-._~:/?@!$&'()*+,;=") c)) && rest
]

unfoldable pub authority_end : Bytes → ℕ
authority_end [] = 0
authority_end (a ∷ []) = 0
authority_end (a ∷ b ∷ s) = if a == b'/' && b == b'/' then 2 + index_any (codes "/?#") s else 0

unfoldable pub uri_tail_valid : Bytes → Bool
uri_tail_valid rest =
    let end = authority_end rest in
    ip_literal_placed (take end rest)
    && (leb (count_byte b'@' (take end rest)) 1 && tail_loop end 0 0 rest)

-- The text behind the scheme's bytes.
unfoldable pub past_scheme : Bytes → Bytes
past_scheme [] = []
past_scheme (c ∷ s) =
    let rest = past_scheme s in
    if is_letter c || (is_digit c || one_of (codes "+-.") c) then rest else c ∷ s

unfoldable pub behind_scheme : Bytes → Bool
behind_scheme [] = false
behind_scheme (c ∷ s) = c == b':' && uri_tail_valid s

unfoldable pub uri_bytes_valid : Bytes → Bool
uri_bytes_valid [] = false
uri_bytes_valid (c ∷ s) = is_letter c && behind_scheme (past_scheme s)
