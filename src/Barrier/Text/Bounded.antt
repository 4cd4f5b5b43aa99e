-- ===== src/Barrier/Text/Bounded.antt =====
-- What a clipped text is.
use morphic.Base.{
  ℕ, zero, suc, ◌≤◌, ◌<◌, true, false, [], ◌++◌, Bytes, length, take, drop, get_or, leb, ◌≡◌, ◌⊎◌,
  inl, inr, refl, sym, arith, Bool-cases, length-take, take-append-drop, append-nil,
}
use morphic.Barrier.Text.{rune_start, cut_at, clip}

-- The cut stands at most at the bound, at the start or before a byte that starts a rune, and only bytes
-- that start none lie between it and the bound.
cut_at_lem :
    (s : Bytes) (n : ℕ)
    → (cut_at s n ≤ n)
      × ((cut_at s n ≡ 0) ⊎ (rune_start (get_or s (cut_at s n) 0) ≡ true))
      × ((i : ℕ) → cut_at s n < i → i ≤ n → rune_start (get_or s i 0) ≡ false)
unfolding cut_at
cut_at_lem s zero = (omega arith, inl refl, λ i h k. absurd (omega arith))
cut_at_lem s (suc n) = elim (Bool-cases (rune_start (get_or s (suc n) 0))) [
  | inl e ↦ rw (e, cut_at) (omega arith, inr e, λ i h k. absurd (omega arith))
  | inr e ↦
      let (le, edge, between) = cut_at_lem s n in
      rw (e, cut_at) (omega arith, edge, λ i h k. ground (arith, e, between i h))
]

-- A clipped text opens the text, has at most the bytes asked for, and says whether it was cut. A text
-- within the bound is whole, and one past it is cut before a byte that starts a rune, or is empty, and
-- loses only bytes that start no rune before the bound.
pub clip_lem :
    (s : Bytes) (n : ℕ)
    → let r = clip s n in
      (length r.0 ≤ n)
      × ((rest : Bytes) × (s ≡ r.0 ++ rest))
      × ((length s ≤ n) × (r ≡ (s, false))
          ⊎ (n < length s)
            × (r.1 ≡ true)
            × ((length r.0 ≡ 0) ⊎ (rune_start (get_or s (length r.0) 0) ≡ true))
            × ((i : ℕ) → length r.0 < i → i ≤ n → rune_start (get_or s i 0) ≡ false))
unfolding clip
clip_lem s n = elim (Bool-cases (leb (length s) n)) [
  | inl e ↦
      let le : length s ≤ n = ground (arith, e) in
      rw (e, clip) (le, ([], sym (append-nil s)), inl (le, refl))
  | inr e ↦
      let past : n < length s = ground (arith, e) in
      let (le, edge, between) = cut_at_lem s n in
      let size : length (take (cut_at s n) s) ≡ cut_at s n =
        omega (arith, length-take (cut_at s n) s) in
      rw (e, clip, size)
        (
          le,
          (drop (cut_at s n) s, sym (take-append-drop (cut_at s n) s)),
          inr (past, refl, edge, between),
        )
]
