-- ===== src/Compile/Registry/Sizes.antt =====
-- What `settle` notices of the settlements that it runs.
use mathlib.Core.List.{Memᴰ}
use mathlib.Core.List.Memᴰ
use morphic.Base.{
  ℕ, suc, ◌+◌, Bool, true, List, [], ◌∷◌, ◌++◌, ◌==◌, ==_iff, ◌≡◌, ◌⊎◌, inl, inr, refl, arith,
  Bool-cases,
}
use morphic.Compile.Types.{Refusal, table_size, size_changed, refuse}
use morphic.Compile.Registry.{Registry, settle_one, settle_all, settle}

-- The nodes of the second are those of the first and those registered since, in number.
abbrev pub Sized : {N B S : Type 0} → Registry N B S → Registry N B S → Type 0
Sized t u = table_size u.types.reg + t.types.minted ≡ table_size t.types.reg + u.types.minted

abbrev pub Noticed : {N B S : Type 0} → Registry N B S → Type 0
Noticed u =
    (before : ℕ) × (after : ℕ) × (registered : ℕ) × Memᴰ (size_changed before after registered)
      u.types.refused

module _ {N B S D : Type 0} (stopped : ℕ → Bool)
    (settle_with : S → Registry N B S → Registry N B S × List D)
    (told : (s : S) (t : Registry N B S) (why : Refusal)
      → Memᴰ why t.types.refused
      → Memᴰ why (settle_with s t).0.types.refused) where
  one_told :
      (s : S) (t : Registry N B S) (why : Refusal)
      → Memᴰ why t.types.refused
      → Memᴰ why (settle_one stopped settle_with s t).0.types.refused
  unfolding settle_one refuse
  one_told s t why m =
      let u = (settle_with s t).0 in
      elim (Bool-cases
        (table_size u.types.reg + t.types.minted == table_size t.types.reg + u.types.minted)) [
          | inl e ↦ rw (settle_one, e) (told s t why m)
          | inr e ↦ rw (settle_one, e) (Memᴰ.append_left _ (told s t why m))
        ]

  all_told :
      (rest : List S) (t : Registry N B S) (k : ℕ) (why : Refusal)
      → Memᴰ why t.types.refused
      → Memᴰ why (settle_all stopped settle_with rest t k).after.types.refused
  unfolding settle_all
  all_told [] t k why m = m
  all_told (s ∷ rest) t k why m = elim (Bool-cases (stopped k)) [
    | inl e ↦ rw (settle_all, e) m
    | inr e ↦
        rw (settle_all, e)
          (all_told rest (settle_one stopped settle_with s t).0 (suc k) why (one_told s t why m))
  ]

  one-Sized :
      (s : S) (t : Registry N B S)
      → Sized t (settle_one stopped settle_with s t).0
        ⊎ Noticed (settle_one stopped settle_with s t).0
  unfolding settle_one refuse
  one-Sized s t =
      let u = (settle_with s t).0 in
      elim (Bool-cases
        (table_size u.types.reg + t.types.minted == table_size t.types.reg + u.types.minted)) [
          | inl e ↦ rw (settle_one, e) (inl ((==_iff _ _).0 e))
          | inr e ↦
              rw (settle_one, e) (inr (_, _, _, Memᴰ.append_right u.types.refused (Memᴰ.head refl)))
        ]

  settle_all-Sized :
      (rest : List S) (t : Registry N B S) (k : ℕ)
      → let u = (settle_all stopped settle_with rest t k).after in Sized t u ⊎ Noticed u
  unfolding settle_all
  settle_all-Sized [] t k = inl refl
  settle_all-Sized (s ∷ rest) t k = elim (Bool-cases (stopped k)) [
    | inl e ↦ rw (settle_all, e) (inl refl)
    | inr e ↦
        let u = (settle_one stopped settle_with s t).0 in
        rw (settle_all, e)
          (elim (one-Sized s t) [
            | inr (b, a, r, m) ↦ inr (b, a, r, all_told rest u (suc k) _ m)
            | inl p ↦ elim (settle_all-Sized rest u (suc k)) [
              | inr n ↦ inr n
              | inl q ↦ inl (omega arith)
            ]
          ])
  ]

-- Where a settlement takes no refusal back, the settling of a registry, however far the context lets it
-- go, leaves as many nodes as it found and registered since, or a refusal that says otherwise.
pub settle-Sized :
    {N B S D : Type 0} (stopped : ℕ → Bool)
    (settle_with : S → Registry N B S → Registry N B S × List D) (t : Registry N B S) (k : ℕ)
    → ((s : S) (t : Registry N B S) (why : Refusal)
        → Memᴰ why t.types.refused
        → Memᴰ why (settle_with s t).0.types.refused)
    → let u = (settle stopped settle_with t k).after in Sized t u ⊎ Noticed u
unfolding settle
settle-Sized stopped settle_with t k told =
    settle_all-Sized stopped settle_with told (t.completing ++ t.pending)
      (record t { settled = true; completing = []; pending = [] }) k
