-- ===== src/Ir/Inferred/Members.antt =====
-- ir/inferred.go: the names that `JoinInferred` keeps.
use morphic.Base.{
  has, Bool, false, ◌||◌, List, [], ◌∷◌, ◌++◌, Bytes, same_text, same_text-eq, ◌≡◌, refl, ap, ◌∙◌,
  arith, Bool-cases, inl, inr,
}
use morphic.Ir.BigVal.{is_nil}
use morphic.Ir.Inferred.{Inferred, split, join, take_names, take_lists, join_inferred, all_new}
use morphic.Ir.Inferred.Canonical.{Names, split-join, has-concat, take_lists-Names}

take_names-has :
    (names ns : List Bytes) (n : Bytes)
    → is_nil n ≡ false
    → has (take_names names ns) n ≡ (has names n || has ns n)
unfolding take_names has
take_names-has names [] n full = ground arith
take_names-has names (m ∷ ns) n full = elim (Bool-cases (has names m || is_nil m)) [
  | inr e ↦
      rw (e, take_names)
        (take_names-has (names ++ m ∷ []) ns n full ∙ ground (arith, has-concat names m n))
  | inl e ↦
      rw (e, take_names)
        (take_names-has names ns n full ∙ elim (Bool-cases (same_text m n)) [
          | inr other ↦ ground (arith, other)
          | inl same ↦
              let one = same_text-eq m n same in
              let held = ap (λ x. has names x || is_nil x) one in ground (arith, held, e, full)
        ])
]

-- Whether one of the lists has a name.
abbrev pub names_any : List Inferred → Bytes → Bool
names_any [] n = false
names_any (l ∷ ls) n = has (split l) n || names_any ls n

take_lists-has :
    (names : List Bytes) (lists : List Inferred) (n : Bytes)
    → is_nil n ≡ false
    → has (take_lists names lists) n ≡ (has names n || names_any lists n)
unfolding take_lists
take_lists-has names [] n full = ground arith
take_lists-has names (l ∷ ls) n full =
    take_lists-has (take_names names (split l)) ls n full
    ∙ ground (arith, take_names-has names (split l) n full)

split-join-has :
    (ns : List Bytes) (n : Bytes) → Names ns → is_nil n ≡ false → has (split (join ns)) n ≡ has ns n
unfolding split join has same_text
split-join-has [] [] w full = absurd cc
split-join-has [] (c ∷ n) w full = refl
split-join-has (m ∷ ns) n w full = ap (λ xs. has xs n) (split-join (m ∷ ns) (λ e. cc) w.whole)

-- What `JoinInferred` makes of some lists has a name that is not blank exactly where one of them has it.
pub join_inferred-has :
    (lists : List Inferred) (n : Bytes)
    → is_nil n ≡ false
    → has (split (join_inferred lists)) n ≡ names_any lists n
unfolding join_inferred
join_inferred-has lists n full =
    split-join-has (take_lists [] lists) n
      (take_lists-Names [] lists (record { fresh = unfold all_new in refl; whole = tt })) full
    ∙ take_lists-has [] lists n full
    ∙ unfold has in refl
