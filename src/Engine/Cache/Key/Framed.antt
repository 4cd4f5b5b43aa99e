-- ===== src/Engine/Cache/Key/Framed.antt =====
-- Fields framed alike are the same fields.
use morphic.Base.{
  ℕ, zero, suc, ◌+◌, ◌*◌, ◌/◌, ◌%◌, ◌<◌, List, [], ◌∷◌, ◌++◌, Bytes, ltb, ◌≡◌, ◌≢◌, refl, sym,
  arith, length, All, Bool-cases, inl, inr,
}
use morphic.Engine.Cache.Key.{uvarint_bytes, uvarint, frame}

-- What so many bytes more can hold.
unfoldable capacity : ℕ → ℕ
capacity zero = 128
capacity (suc more) = 128 * capacity more

uvarint_bytes_unique :
    (more m n : ℕ) (s t : Bytes)
    → m < capacity more
    → n < capacity more
    → uvarint_bytes more m ++ s ≡ uvarint_bytes more n ++ t
    → (m ≡ n) × (s ≡ t)
unfolding uvarint_bytes capacity
uvarint_bytes_unique zero m n s t h k e = let one : m % 256 ≡ n % 256 = cc in (omega arith, cc)
uvarint_bytes_unique (suc more) m n s t h k e = elim (Bool-cases (ltb m 128)) [
  | inl x ↦ elim (Bool-cases (ltb n 128)) [
    | inl y ↦ let run : m ∷ s ≡ n ∷ t = rw (uvarint_bytes, x, y) at e in (cc, cc)
    | inr y ↦
        let run : m ∷ s ≡ (n % 128 + 128) ∷ (uvarint_bytes more (n / 128) ++ t) =
          rw (uvarint_bytes, x, y) at e in
        let one : m ≡ n % 128 + 128 = cc in absurd (ground (arith, x, one))
  ]
  | inr x ↦ elim (Bool-cases (ltb n 128)) [
    | inl y ↦
        let run : (m % 128 + 128) ∷ (uvarint_bytes more (m / 128) ++ s) ≡ n ∷ t =
          rw (uvarint_bytes, x, y) at e in
        let one : m % 128 + 128 ≡ n = cc in absurd (ground (arith, y, one))
    | inr y ↦
        let run : (m % 128 + 128) ∷ (uvarint_bytes more (m / 128) ++ s)
            ≡ (n % 128 + 128) ∷ (uvarint_bytes more (n / 128) ++ t) =
          rw (uvarint_bytes, x, y) at e in
        let one : m % 128 + 128 ≡ n % 128 + 128 = cc in
        let two : uvarint_bytes more (m / 128) ++ s ≡ uvarint_bytes more (n / 128) ++ t = cc in
        let (same, rest) =
          uvarint_bytes_unique more (m / 128) (n / 128) s t (omega arith) (omega arith) two in
        (omega arith, rest)
  ]
]

fields_split : (a b s t : Bytes) → length a ≡ length b → a ++ s ≡ b ++ t → (a ≡ b) × (s ≡ t)
fields_split [] [] s t h e = (refl, e)
fields_split [] (y ∷ b) s t h e = absurd (omega arith)
fields_split (x ∷ a) [] s t h e = absurd (omega arith)
fields_split (x ∷ a) (y ∷ b) s t h e =
    let one : x ≡ y = cc in
    let rest : a ++ s ≡ b ++ t = cc in
    let (p, q) = fields_split a b s t (omega arith) rest in (cc (one, p), q)

-- The length of a Go string fits an int.
abbrev pub Short : Bytes → Type 0
Short s = length s < 9_223_372_036_854_775_808

Short-capacity : (s : Bytes) → Short s → length s < capacity 9
unfolding capacity
Short-capacity s h = omega arith

bytes_none : (more n : ℕ) (s : Bytes) → uvarint_bytes more n ++ s ≢ []
unfolding uvarint_bytes
bytes_none zero n s e = cc
bytes_none (suc more) n s e = elim (Bool-cases (ltb n 128)) [
  | inl x ↦ cc (rw (uvarint_bytes, x) at e)
  | inr x ↦ cc (rw (uvarint_bytes, x) at e)
]

-- No two lists of fields have one framed text: where each field ends is read from the text itself.
pub frame_unique :
    (fs gs : List Bytes) → All Short fs → All Short gs → frame fs ≡ frame gs → fs ≡ gs
unfolding frame uvarint
frame_unique [] [] hs ks e = refl
frame_unique [] (g ∷ gs) hs ks e = absurd (bytes_none 9 (length g) _ (sym e))
frame_unique (f ∷ fs) [] hs ks e = absurd (bytes_none 9 (length f) _ e)
frame_unique (f ∷ fs) (g ∷ gs) (h, hs) (k, ks) e =
    let (long, rest) =
      uvarint_bytes_unique 9 (length f) (length g) (f ++ frame fs) (g ++ frame gs)
        (Short-capacity f h) (Short-capacity g k) e in
    let (same, more) = fields_split f g (frame fs) (frame gs) long rest in
    cc (same, frame_unique fs gs hs ks more)
