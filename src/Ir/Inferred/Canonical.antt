-- ===== src/Ir/Inferred/Canonical.antt =====
-- `JoinInferred` and `IsCanonical` against each other.
use morphic.Base.{
  has, ℕ, true, false, not, ◌&&◌, ◌||◌, List, [], ◌∷◌, ◌++◌, Bytes, same_text, ◌==◌, ◌≡◌, ◌≢◌, refl,
  sym, ap, ◌∙◌, arith, All, Bool-cases, inl, inr, append_assoc, append-nil,
}
use morphic.Ir.BigVal.{is_nil}
use morphic.Ir.Inferred.{
  Inferred, inferred_separator, extend, split, join, take_names, take_lists, join_inferred, all_new,
  is_canonical,
}

-- A name with no separator in it.
abbrev pub Whole : Bytes → Type 0
Whole [] = Unit
Whole (c ∷ s) = ((c == inferred_separator) ≡ false) × Whole s

split-cons : (s : Bytes) → (p : Bytes) × (ps : List Bytes) × (split s ≡ p ∷ ps)
unfolding split extend
split-cons [] = ([], [], refl)
split-cons (c ∷ s) =
    let (p, ps, e) = split-cons s in
    elim (Bool-cases (c == inferred_separator)) [
      | inl f ↦ ([], split s, rw (f, split))
      | inr f ↦ (c ∷ p, ps, rw (f, split, e))
    ]

extend-Whole :
    (c : ℕ) (ps : List Bytes)
    → (c == inferred_separator) ≡ false
    → All Whole ps
    → All Whole (extend c ps)
unfolding extend
extend-Whole c [] h a = ((h, tt), tt)
extend-Whole c (p ∷ ps) h (a, b) = ((h, a), b)

split-Whole : (s : Bytes) → All Whole (split s)
unfolding split
split-Whole [] = (tt, tt)
split-Whole (c ∷ s) = elim (Bool-cases (c == inferred_separator)) [
  | inl f ↦ rw (f, split) (tt, split-Whole s)
  | inr f ↦ rw (f, split) (extend-Whole c (split s) f (split-Whole s))
]

split_one : (n : Bytes) → Whole n → split n ≡ n ∷ []
unfolding split extend
split_one [] w = refl
split_one (c ∷ n) (h, w) = rw (h, split, split_one n w)

split-append : (n s : Bytes) → Whole n → split (n ++ inferred_separator ∷ s) ≡ n ∷ split s
unfolding split extend
split-append [] s w = refl
split-append (c ∷ n) s (h, w) = rw (h, split, split-append n s w)

pub split-join : (ns : List Bytes) → ns ≢ [] → All Whole ns → split (join ns) ≡ ns
unfolding join
split-join [] h w = absurd (h refl)
split-join (n ∷ []) h (w, _) = split_one n w
split-join (n ∷ m ∷ ns) h (w, ws) =
    split-append n (join (m ∷ ns)) w ∙ ap (λ t. n ∷ t) (split-join (m ∷ ns) (λ e. cc) ws)

join-extend : (c : ℕ) (p : Bytes) (ps : List Bytes) → join (extend c (p ∷ ps)) ≡ c ∷ join (p ∷ ps)
unfolding join extend
join-extend c p [] = refl
join-extend c p (q ∷ ps) = refl

join-blank : (ps : List Bytes) (p : Bytes) → join ([] ∷ p ∷ ps) ≡ inferred_separator ∷ join (p ∷ ps)
unfolding join
join-blank ps p = refl

join-split : (s : Bytes) → join (split s) ≡ s
unfolding split
join-split [] = unfold join in refl
join-split (c ∷ s) =
    let (p, ps, e) = split-cons s in
    let whole : join (p ∷ ps) ≡ s = ap join (sym e) ∙ join-split s in
    elim (Bool-cases (c == inferred_separator)) [
      | inl f ↦
          let comma : inferred_separator ≡ c = ground arith in
          rw (f, split, e) (join-blank ps p ∙ ground (arith, whole, comma))
      | inr f ↦ rw (f, split, e) (join-extend c p ps ∙ ap (λ t. c ∷ t) whole)
    ]

pub has-concat :
    (xs : List Bytes) (n m : Bytes) → has (xs ++ n ∷ []) m ≡ (has xs m || same_text n m)
unfolding has
has-concat [] n m = ground arith
has-concat (x ∷ xs) n m = ground (arith, has-concat xs n m)

all_new-append :
    (listed ns : List Bytes) (n : Bytes)
    → all_new listed (ns ++ n ∷ [])
      ≡ (all_new listed ns && not (has listed n || (has ns n || is_nil n)))
unfolding all_new has
all_new-append listed [] n = ground arith
all_new-append listed (m ∷ ns) n = ground (arith, all_new-append (m ∷ listed) ns n)

All-concat : (ns : List Bytes) (n : Bytes) → All Whole ns → Whole n → All Whole (ns ++ n ∷ [])
All-concat [] n a w = (w, tt)
All-concat (m ∷ ns) n (v, a) w = (v, All-concat ns n a w)

-- Names that are not blank, all differ and hold no separator.
pub record Names (ns : List Bytes) : Type 0 where
  pub fresh : all_new [] ns ≡ true
  pub whole : All Whole ns

take_names-Names :
    (names ns : List Bytes) → Names names → All Whole ns → Names (take_names names ns)
unfolding take_names has
take_names-Names names [] h w = h
take_names-Names names (n ∷ ns) h (w, ws) = elim (Bool-cases (has names n || is_nil n)) [
  | inl e ↦ rw (e, take_names) (take_names-Names names ns h ws)
  | inr e ↦
      let added : Names (names ++ n ∷ []) = record {
        fresh = all_new-append [] names n ∙ ground (arith, h.fresh, e);
        whole = All-concat names n h.whole w;
      } in
      rw (e, take_names) (take_names-Names (names ++ n ∷ []) ns added ws)
]

pub take_lists-Names :
    (names : List Bytes) (lists : List Inferred) → Names names → Names (take_lists names lists)
unfolding take_lists
take_lists-Names names [] h = h
take_lists-Names names (l ∷ ls) h =
    take_lists-Names (take_names names (split l)) ls
      (take_names-Names names (split l) h (split-Whole l))

split-is_canonical : (s : Bytes) → all_new [] (split s) ≡ true → is_canonical s ≡ true
unfolding is_canonical
split-is_canonical [] h = refl
split-is_canonical (c ∷ s) h = h

join-is_canonical : (ns : List Bytes) → Names ns → is_canonical (join ns) ≡ true
join-is_canonical [] h = unfold join is_canonical in refl
join-is_canonical (n ∷ ns) h =
    split-is_canonical (join (n ∷ ns))
      (ap (all_new []) (split-join (n ∷ ns) (λ e. cc) h.whole) ∙ h.fresh)

-- What `JoinInferred` makes of any lists is in the form that `IsCanonical` asks for.
pub join_inferred-is_canonical : (lists : List Inferred) → is_canonical (join_inferred lists) ≡ true
unfolding join_inferred
join_inferred-is_canonical lists =
    join-is_canonical (take_lists [] lists)
      (take_lists-Names [] lists (record { fresh = unfold all_new in refl; whole = tt }))

take_names-append :
    (listed names ns : List Bytes)
    → ((n : Bytes) → has listed n ≡ has names n)
    → all_new listed ns ≡ true
    → take_names names ns ≡ names ++ ns
unfolding take_names all_new has
take_names-append listed names [] same h = sym (append-nil names)
take_names-append listed names (n ∷ ns) same h = elim (Bool-cases (has listed n || is_nil n)) [
  | inl e ↦ absurd (ground (arith, e))
  | inr e ↦
      let kept : (has names n || is_nil n) ≡ false = ground (arith, e, same n) in
      let rest =
        take_names-append (n ∷ listed) (names ++ n ∷ []) ns
          (λ m. ground (arith, same m, has-concat names n m)) (ground (arith, e)) in
      rw (kept, take_names) (rest ∙ append_assoc names (n ∷ []) ns)
]

-- A canonical list is `JoinInferred` of itself.
pub is_canonical-join_inferred : (l : Inferred) → is_canonical l ≡ true → join_inferred (l ∷ []) ≡ l
unfolding is_canonical join_inferred take_lists
is_canonical-join_inferred [] h = unfold join take_names split has in refl
is_canonical-join_inferred (c ∷ s) h =
    ap join (take_names-append [] [] (split (c ∷ s)) (λ n. refl) h) ∙ join-split (c ∷ s)
