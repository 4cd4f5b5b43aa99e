-- ===== src/Engine/Cache/Prune/Sorted.antt =====
-- engine/cache/prune.go: which files are held, and in which order.
use morphic.Base.{
  ℕ, ◌≤◌, true, false, List, [], ◌∷◌, Option, none, some, ok, ◌≡◌, ◌⊎◌, ◌↔◌, inl, inr, arith, All,
  Bool-cases, Result-cases, compare, Ordering,
}
use morphic.Engine.Cache.Prune.{
  DirEntry, Held, held_one, comes_first, insert_held, put_held, held_in,
}

-- The oldest file stands first.
abbrev pub OldestFirst : List Held → Type 0
OldestFirst [] = Unit
OldestFirst (x ∷ xs) = All (λ y. x.modified ≤ y.modified) xs × OldestFirst xs

abbrev pub Holds : List Held → Held → Type 0
Holds [] h = ⊥
Holds (f ∷ files) h = (f ≡ h) ⊎ Holds files h

-- A file of a directory that counts as held.
abbrev pub Listed : ℕ → List DirEntry → Held → Type 0
Listed now [] h = ⊥
Listed now (e ∷ listed) h = (held_one now e ≡ ok (some h)) ⊎ Listed now listed h

Ordering-cases : (m n : ℕ) → (m ≤ n) ⊎ (compare m n ≡ Ordering.gt)
Ordering-cases m n = ground arith

less_cases : (m n : ℕ) → (compare m n ≡ Ordering.lt) ⊎ (n ≤ m)
less_cases m n = ground arith

comes_first_older : (x y : Held) → comes_first x y ≡ true → x.modified ≤ y.modified
unfolding comes_first
comes_first_older x y h = elim (Ordering-cases x.modified y.modified) [
  | inl le ↦ le
  | inr gt ↦ absurd (cc (rw (comes_first, gt) at h))
]

comes_first_younger : (x y : Held) → comes_first x y ≡ false → y.modified ≤ x.modified
unfolding comes_first
comes_first_younger x y h = elim (less_cases x.modified y.modified) [
  | inl lt ↦ absurd (cc (rw (comes_first, lt) at h))
  | inr le ↦ le
]

All-insert_held :
    (P : Held → Type 0) (x : Held) (ys : List Held) → P x → All P ys → All P (insert_held x ys)
unfolding insert_held
All-insert_held P x [] px _ = (px, tt)
All-insert_held P x (y ∷ ys) px (py, pys) = elim (Bool-cases (comes_first x y)) [
  | inl e ↦ rw (insert_held, e) (px, (py, pys))
  | inr e ↦ rw (insert_held, e) (py, All-insert_held P x ys px pys)
]

All-older :
    (m n : ℕ) (ys : List Held) → m ≤ n → All (λ y. n ≤ y.modified) ys → All (λ y. m ≤ y.modified) ys
All-older m n [] h _ = tt
All-older m n (y ∷ ys) h (k, ks) = (omega arith, All-older m n ys h ks)

insert_held-OldestFirst :
    (x : Held) (ys : List Held) → OldestFirst ys → OldestFirst (insert_held x ys)
unfolding insert_held
insert_held-OldestFirst x [] _ = (tt, tt)
insert_held-OldestFirst x (y ∷ ys) (h, hs) = elim (Bool-cases (comes_first x y)) [
  | inl e ↦
      let older = comes_first_older x y e in
      rw (insert_held, e) ((older, All-older x.modified y.modified ys older h), (h, hs))
  | inr e ↦
      rw (insert_held, e)
        (
          All-insert_held (λ z. y.modified ≤ z.modified) x ys (comes_first_younger x y e) h,
          insert_held-OldestFirst x ys hs,
        )
]

insert_held-Holds :
    (x : Held) (ys : List Held) (h : Held) → Holds (insert_held x ys) h ↔ ((x ≡ h) ⊎ Holds ys h)
unfolding insert_held
insert_held-Holds x [] h = ((λ k. k), λ k. k)
insert_held-Holds x (y ∷ ys) h = elim (Bool-cases (comes_first x y)) [
  | inl e ↦ rw (insert_held, e) ((λ k. k), λ k. k)
  | inr e ↦
      let (to, from) = insert_held-Holds x ys h in
      rw (insert_held, e)
        (
          (λ k. elim k [
            | inl same ↦ inr (inl same)
            | inr there ↦ elim (to there) [ inl same ↦ inl same | inr rest ↦ inr (inr rest) ]
          ]),
          λ k. elim k [
            | inl same ↦ inr (from (inl same))
            | inr there ↦ elim there [ inl same ↦ inl same | inr rest ↦ inr (from (inr rest)) ]
          ],
        )
]

put_held-Holds :
    (now : ℕ) (e : DirEntry) (listed : List DirEntry) (x : Option Held) (files : List Held)
    → held_one now e ≡ ok x
    → OldestFirst files
    → ((h : Held) → Holds files h ↔ Listed now listed h)
    → OldestFirst (put_held x files)
      × ((h : Held) → Holds (put_held x files) h ↔ Listed now (e ∷ listed) h)
unfolding put_held
put_held-Holds now e listed none files k oldest held = (
  oldest,
  λ h. (
    (λ m. inr ((held h).0 m)),
    λ m. elim m [ inl here ↦ absurd (cc (k, here)) | inr there ↦ (held h).1 there ],
  ),
)
put_held-Holds now e listed (some x) files k oldest held = (
  insert_held-OldestFirst x files oldest,
  λ h.
      let (to, from) = insert_held-Holds x files h in
      (
        (λ m. elim (to m) [ inl same ↦ inl (rw (← same) k) | inr rest ↦ inr ((held h).0 rest) ]),
        λ m. elim m [
          | inl here ↦ from (inl (cc (k, here)))
          | inr there ↦ from (inr ((held h).1 there))
        ],
      ),
)

-- What is held of a directory: the oldest file first, and all the files that count as held.
pub held_in-OldestFirst :
    (now : ℕ) (listed : List DirEntry) (files : List Held)
    → held_in now listed ≡ ok files
    → OldestFirst files × ((h : Held) → Holds files h ↔ Listed now listed h)
unfolding held_in
held_in-OldestFirst now [] files h =
    let same : [] ≡ files = cc in rw (← same) (tt, λ k. ((λ m. m), λ m. m))
held_in-OldestFirst now (e ∷ listed) files h = elim (Result-cases (held_one now e)) [
  | inr (f, k) ↦ absurd (cc (rw (held_in, k) at h))
  | inl (x, k) ↦ elim (Result-cases (held_in now listed)) [
    | inr (f, l) ↦ absurd (cc (rw (held_in, k, l) at h))
    | inl (rest, l) ↦
        let (oldest, held) = held_in-OldestFirst now listed rest l in
        let same : put_held x rest ≡ files = cc (rw (held_in, k, l) at h) in
        rw (← same) (put_held-Holds now e listed x rest k oldest held)
  ]
]
