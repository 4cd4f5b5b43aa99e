-- ===== src/Ir/Ids/Parts.antt =====
-- The parts of an identifier are the parts that it was made of.
use morphic.Base.{
  ℕ, Bool, true, false, not, ◌&&◌, [], ◌∷◌, ◌++◌, none, some, Bytes, ◌==◌, ◌≡◌, refl, arith,
}
use morphic.Ir.BigVal.{is_nil}
use morphic.Ir.Ids.{
  id_separator, segment, cut_prefix, opening, rest_valid, well_formed_id, trim_prefix, id_rest,
}

-- A text without a byte.
unfoldable pub lacks : ℕ → Bytes → Bool
lacks c [] = true
lacks c (b ∷ s) = not (b == c) && lacks c s

pub lacks-append : (c : ℕ) (s t : Bytes) → lacks c (s ++ t) ≡ (lacks c s && lacks c t)
unfolding lacks
lacks-append c [] t = refl
lacks-append c (b ∷ s) t = ground (arith, lacks-append c s t)

pub cut_prefix-append : (p s : Bytes) → cut_prefix p (p ++ s) ≡ some s
unfolding cut_prefix
cut_prefix-append [] s = refl
cut_prefix-append (c ∷ p) s = ground (arith, cut_prefix-append p s)

pub segment-lacks : (s : Bytes) → lacks id_separator s ≡ true → segment s ≡ (s, none)
unfolding segment lacks
segment-lacks [] h = refl
segment-lacks (c ∷ s) h = let r = segment-lacks s (ground (arith, h)) in ground (arith, h, r)

pub segment-append :
    (s t : Bytes) → lacks id_separator s ≡ true → segment (s ++ id_separator ∷ t) ≡ (s, some t)
unfolding segment lacks
segment-append [] t h = refl
segment-append (c ∷ s) t h = let r = segment-append s t (ground (arith, h)) in ground (arith, h, r)

nil-append : (s t : Bytes) → is_nil (s ++ id_separator ∷ t) ≡ false
nil-append [] t = refl
nil-append (c ∷ s) t = refl

-- A text that opens another up to the first of a byte is known by it.
pub append_unique :
    (c : ℕ) (s t a b : Bytes)
    → lacks c s ≡ true
    → lacks c t ≡ true
    → s ++ c ∷ a ≡ t ++ c ∷ b
    → (s ≡ t) × (a ≡ b)
unfolding lacks
append_unique c [] [] a b h k e = (refl, cc)
append_unique c [] (y ∷ t) a b h k e = let same : c ≡ y = cc in absurd (ground (arith, k, same))
append_unique c (x ∷ s) [] a b h k e = let same : x ≡ c = cc in absurd (ground (arith, h, same))
append_unique c (x ∷ s) (y ∷ t) a b h k e =
    let one : x ≡ y = cc in
    let more : s ++ c ∷ a ≡ t ++ c ∷ b = cc in
    let (p, q) = append_unique c s t a b (ground (arith, h)) (ground (arith, k)) more in
    (cc (one, p), q)

id_rest-opening :
    (kind rest : Bytes) → rest_valid rest ≡ true → id_rest kind (opening kind ++ rest) ≡ some rest
unfolding id_rest well_formed_id trim_prefix
id_rest-opening kind rest h =
    rw (id_rest, well_formed_id, trim_prefix, cut_prefix-append (opening kind) rest, h) refl

module _ (kind space : Bytes) (named : is_nil space ≡ false)
    (plain : lacks id_separator space ≡ true) where
  pub id_rest-space : id_rest kind (opening kind ++ space) ≡ some space
  unfolding rest_valid
  id_rest-space =
      id_rest-opening kind space (rw (rest_valid, segment-lacks space plain, named) refl)

  pub id_rest-path :
      (path : Bytes)
      → is_nil path ≡ false
      → id_rest kind (opening kind ++ (space ++ id_separator ∷ path))
        ≡ some (space ++ id_separator ∷ path)
  unfolding rest_valid
  id_rest-path path h =
      id_rest-opening kind (space ++ id_separator ∷ path)
        (rw (rest_valid, segment-append space path plain, named, h, nil-append space path) refl)
