-- ===== src/Compile/Registry/Rounds.antt =====
-- promise.go, fulfil: how its rounds are left, and what is accounted for.
use mathlib.Core.List.{Memᴰ}
use morphic.Base.{
  ℕ, Bool, true, false, ◌||◌, List, [], ◌∷◌, ◌++◌, Option, none, some, Bytes, Table, has, same_text,
  ◌≡◌, inl, inr, refl, ap, ◌∙◌, arith, Bool-cases,
}
use morphic.Compile.Types.{promise_unbuilt}
use morphic.Compile.Registry.{Registry, Went, is_built, insert_sorted, sorted, unasked, go_on}
use morphic.Compile.Registry.Fair.{keys}

pub has-insert_sorted :
    {B : Type 0} (c : Bytes) (b : B) (table : Table B) (v : Bytes)
    → has (keys (insert_sorted c b table)) v ≡ (same_text c v || has (keys table) v)
unfolding insert_sorted has
has-insert_sorted c b [] v = refl
has-insert_sorted c b ((k, a) ∷ table) v = ground (arith, has-insert_sorted c b table v)

pub has-sorted :
    {B : Type 0} (table : Table B) (v : Bytes) → has (keys (sorted table)) v ≡ has (keys table) v
unfolding sorted has
has-sorted [] v = refl
has-sorted ((c, b) ∷ table) v =
    has-insert_sorted c b (sorted table) v ∙ ap (λ h. same_text c v || h) (has-sorted table v)

-- A promise is accounted for while it is outstanding or in a round, and once it has a node or a refusal.
pub data Accounted {N B S : Type 0} (round : List Bytes) (c : Bytes) (t : Registry N B S)
    : Type 0 where
  waiting : has (keys t.promises) c ≡ true → Accounted round c t
  in_round : has round c ≡ true → Accounted round c t
  done : is_built c t ≡ true → Accounted round c t
  unbuilt : Memᴰ (promise_unbuilt c) t.types.refused → Accounted round c t

abbrev pub AllAccounted : {N B S : Type 0} → List Bytes → Registry N B S → Type 0
AllAccounted round t = (c : Bytes) → has t.promised c ≡ true → Accounted round c t

pub went :
    {N B S D : Type 0} (stopped : ℕ → Bool) (build : B → Registry N B S → Registry N B S × List D)
    (ps : Table B) (t : Registry N B S) (k : ℕ) (w v : Went N B S D)
    → (u : Went N B S D) × (go_on stopped build ps t k w (some v) ≡ some u)
unfolding go_on
went stopped build [] t k w v = (unasked stopped build t k, refl)
went stopped build (p ∷ ps) t k w v = elim (Bool-cases w.cut) [
  | inl e ↦ (w, rw (go_on, e) refl)
  | inr e ↦ (record v { found = w.found ++ v.found }, rw (go_on, e) refl)
]

pub last_round :
    {N B S D : Type 0} (ps : Table B) (start u : Went N B S D)
    → elim ps [ [] ↦ some start | p ∷ ps ↦ none ] ≡ some u
    → (ps ≡ []) × (start ≡ u)
last_round [] start u h = (refl, cc)
last_round (p ∷ ps) start u h = absurd cc

-- How a round was left: nothing was outstanding, the context stopped it, or the rounds after it ran.
pub data Left {N B S D : Type 0} (ps : Table B) (start w : Went N B S D)
    (rest : Option (Went N B S D)) (u : Went N B S D) : Type 0 where
  empty : ps ≡ [] → start ≡ u → Left ps start w rest u
  cut_off : w.cut ≡ true → w ≡ u → Left ps start w rest u
  further :
      (v : Went N B S D)
      → w.cut ≡ false
      → rest ≡ some v
      → record v { found = w.found ++ v.found } ≡ u
      → Left ps start w rest u

pub go_on-Left :
    {N B S D : Type 0} (stopped : ℕ → Bool) (build : B → Registry N B S → Registry N B S × List D)
    (ps : Table B) (t : Registry N B S) (k : ℕ) (w : Went N B S D) (rest : Option (Went N B S D))
    (u : Went N B S D)
    → go_on stopped build ps t k w rest ≡ some u
    → Left ps (unasked stopped build t k) w rest u
unfolding go_on
go_on-Left stopped build [] t k w rest u h = empty refl cc
go_on-Left stopped build (p ∷ ps) t k w none u h = elim (Bool-cases w.cut) [
  | inl e ↦ cut_off e (cc (rw (go_on, e) at h))
  | inr e ↦ absurd (cc (rw (go_on, e) at h))
]
go_on-Left stopped build (p ∷ ps) t k w (some v) u h = elim (Bool-cases w.cut) [
  | inl e ↦ cut_off e (cc (rw (go_on, e) at h))
  | inr e ↦ further v e refl (cc (rw (go_on, e) at h))
]
