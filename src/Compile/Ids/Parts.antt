-- ===== src/Compile/Ids/Parts.antt =====
-- What an identifier was made of is read from it again, and no two documents share a space.
use morphic.Base.{
  ℕ, true, false, [], ◌∷◌, ◌++◌, none, some, Bytes, if◌then◌else◌, ◌==◌, ◌≡◌, inl, inr, refl, sym,
  ap, ◌∙◌, arith, Bool-cases,
}
use morphic.Ir.BigVal.{is_nil}
use morphic.Ir.Ids.{id_separator, opening, well_formed_id, trim_prefix, id_rest, id_space, id_path}
use morphic.Ir.Ids.Parts.{
  lacks, lacks-append, segment-lacks, segment-append, id_rest-space, id_rest-path, append_unique,
}
use morphic.Compile.Ids.{replace_byte, qualifier, escape, qualified, id_for}

well_formed_id-rest :
    (kind id : Bytes) {rest : Bytes} → id_rest kind id ≡ some rest → well_formed_id kind id ≡ true
unfolding id_rest
well_formed_id-rest kind id h = elim (Bool-cases (well_formed_id kind id)) [
  | inl e ↦ e
  | inr e ↦ absurd (cc (rw (id_rest, e) at h))
]

-- The identifier of a space that is not empty and has no separator is well formed; its space and its path
-- are read from it again, the path less one leading separator, and no path where nothing is left of it.
pub id_for-parts :
    (kind space path : Bytes)
    → is_nil space ≡ false
    → lacks id_separator space ≡ true
    → let id = id_for kind space path in
      let trimmed = trim_prefix (id_separator ∷ []) path in
      (well_formed_id kind id ≡ true)
      × (id_space kind id ≡ some space)
      × (id_path kind id ≡ (if is_nil trimmed then none else some trimmed))
unfolding id_for id_space id_path
id_for-parts kind space path named plain =
    let trimmed = trim_prefix (id_separator ∷ []) path in
    elim (Bool-cases (is_nil trimmed)) [
      | inl e ↦
          let r = id_rest-space kind space named plain in
          rw (id_for, e, id_space, id_path, r, segment-lacks space plain)
            (well_formed_id-rest kind (opening kind ++ space) r, refl, refl)
      | inr e ↦
          let r = id_rest-path kind space named plain trimmed e in
          rw (id_for, e, id_space, id_path, r, segment-append space trimmed plain)
            (
              well_formed_id-rest kind (opening kind ++ (space ++ id_separator ∷ trimmed)) r,
              refl,
              refl,
            )
    ]

-- `~0` and `~1` read again.
unescape : Bytes → Bytes
unescape [] = []
unescape (b ∷ []) = b ∷ []
unescape (b ∷ c ∷ s) =
    let short = unescape s in
    let long = unescape (c ∷ s) in
    if b == b'~' then (if c == b'0' then b'~' else id_separator) ∷ short else b ∷ long

-- The escape of one byte.
abbrev escaped : ℕ → Bytes → Bytes
escaped b rest =
    if b == b'~'
    then b'~' ∷ b'0' ∷ rest
    else if b == id_separator
    then b'~' ∷ b'1' ∷ rest
    else b ∷ rest

escape-cons : (b : ℕ) (s : Bytes) → escape (b ∷ s) ≡ escaped b (escape s)
unfolding escape replace_byte
escape-cons b s = ground arith

unescape-cons : (b : ℕ) (s : Bytes) → (b == b'~') ≡ false → unescape (b ∷ s) ≡ b ∷ unescape s
unfolding unescape
unescape-cons b [] h = refl
unescape-cons b (c ∷ s) h = rw (unescape, h) refl

unescape-escape : (s : Bytes) → unescape (escape s) ≡ s
unfolding unescape escape replace_byte
unescape-escape [] = refl
unescape-escape (b ∷ s) = elim (Bool-cases (b == b'~')) [
  | inl e ↦
      let same : b ≡ b'~' = ground (arith, e) in
      rw (escape-cons b s, e) (ap (λ r. b'~' ∷ r) (unescape-escape s) ∙ ap (λ c. c ∷ s) (sym same))
  | inr e ↦ elim (Bool-cases (b == id_separator)) [
    | inl f ↦
        let same : b ≡ id_separator = ground (arith, f) in
        rw (escape-cons b s, e, f)
          (ap (λ r. id_separator ∷ r) (unescape-escape s) ∙ ap (λ c. c ∷ s) (sym same))
    | inr f ↦
        rw (escape-cons b s, e, f)
          (unescape-cons b (escape s) e ∙ ap (λ r. b ∷ r) (unescape-escape s))
  ]
]

pub escape-lacks : (s : Bytes) → lacks id_separator (escape s) ≡ true
unfolding lacks escape replace_byte
escape-lacks [] = refl
escape-lacks (b ∷ s) = rw (escape-cons b s) (ground (arith, escape-lacks s))

pub qualified-lacks :
    (space document : Bytes)
    → lacks id_separator space ≡ true
    → lacks id_separator (qualified space document) ≡ true
unfolding qualified lacks
qualified-lacks space document h =
    lacks-append id_separator space (qualifier ∷ escape document)
    ∙ ground (arith, h, escape-lacks document)

filled : (space document : Bytes) → is_nil (qualified space document) ≡ false
unfolding qualified
filled [] document = refl
filled (c ∷ space) document = refl

whole_path :
    (a b : Bytes)
    → (if is_nil a then none else some a) ≡ (if is_nil b then none else some b)
    → a ≡ b
whole_path [] [] h = refl
whole_path [] (y ∷ b) h = absurd cc
whole_path (x ∷ a) [] h = absurd cc
whole_path (x ∷ a) (y ∷ b) h = cc

-- Two documents share a qualified space only if they are one, in one space: of spaces without the
-- qualifier and without a separator, qualified by any two names, identifiers made in them that are equal
-- have equal spaces, equal names of documents, and paths that are equal less one leading separator.
pub id_for-qualified :
    (kind s t d e p q : Bytes)
    → lacks qualifier s ≡ true
    → lacks qualifier t ≡ true
    → lacks id_separator s ≡ true
    → lacks id_separator t ≡ true
    → id_for kind (qualified s d) p ≡ id_for kind (qualified t e) q
    → (s ≡ t) × (d ≡ e) × (trim_prefix (id_separator ∷ []) p ≡ trim_prefix (id_separator ∷ []) q)
unfolding qualified
id_for-qualified kind s t d e p q qs qt ss st same =
    let (_, space_p, path_p) =
      id_for-parts kind (qualified s d) p (filled s d) (qualified-lacks s d ss) in
    let (_, space_q, path_q) =
      id_for-parts kind (qualified t e) q (filled t e) (qualified-lacks t e st) in
    let spaces : qualified s d ≡ qualified t e = cc in
    let (same_s, escapes) = append_unique qualifier s t (escape d) (escape e) qs qt spaces in
    let names : d ≡ e = sym (unescape-escape d) ∙ ap unescape escapes ∙ unescape-escape e in
    (same_s, names, whole_path _ _ (cc (path_p, path_q, same)))
