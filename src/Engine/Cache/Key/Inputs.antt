-- ===== src/Engine/Cache/Key/Inputs.antt =====
-- A key's text tells all the inputs of the key.
use morphic.Base.{
  List, [], ◌∷◌, ◌++◌, Bytes, Table, find, Ordering, compare_text, same_text, same_text-eq, ◌≡◌,
  ◌≢◌, ◌⊎◌, inl, inr, refl, sym, ap, ◌∙◌, arith, length, All, Bool-cases,
}
use morphic.Base.Numbers.{compare_shift}
use morphic.Base.Format.{format_nat, format_nat_injective}
use morphic.Engine.Cache.Key.{
  frame, KeyInputs, insert_setting, sorted_settings, setting_fields, key_fields,
}
use morphic.Engine.Cache.Key.Framed.{Short, frame_unique}

compare_text_refl : (s : Bytes) → compare_text s s ≡ Ordering.eq
unfolding compare_text
compare_text_refl [] = refl
compare_text_refl (c ∷ s) = rw (compare_text, compare_shift c c 0 0 refl) (compare_text_refl s)

Ordering-cases : (o : Ordering) → (o ≡ Ordering.gt) ⊎ (o ≢ Ordering.gt)
Ordering-cases Ordering.lt = inr (λ e. cc)
Ordering-cases Ordering.eq = inr (λ e. cc)
Ordering-cases Ordering.gt = inl refl

unless_gt :
    {A : Type 0} (o : Ordering) (a b : A)
    → o ≢ Ordering.gt
    → elim o as (λ _. A) [ Ordering.gt ↦ a | _ ↦ b ] ≡ b
unless_gt Ordering.lt a b h = refl
unless_gt Ordering.eq a b h = refl
unless_gt Ordering.gt a b h = absurd (h refl)

not_after :
    (n v m w : Bytes) (settings : Table Bytes)
    → compare_text n m ≢ Ordering.gt
    → insert_setting n v ((m, w) ∷ settings) ≡ (n, v) ∷ (m, w) ∷ settings
unfolding insert_setting
not_after n v m w settings h =
    unless_gt (compare_text n m) ((m, w) ∷ insert_setting n v settings) ((n, v) ∷ (m, w) ∷ settings)
      h

find-insert_setting :
    (n v : Bytes) (settings : Table Bytes) (k : Bytes)
    → find (insert_setting n v settings) k ≡ find ((n, v) ∷ settings) k
unfolding insert_setting find
find-insert_setting n v [] k = refl
find-insert_setting n v ((m, w) ∷ settings) k = elim (Ordering-cases (compare_text n m)) [
  | inr e ↦ ap (λ t. find t k) (not_after n v m w settings e)
  | inl e ↦ elim (Bool-cases (same_text m k)) [
    | inr f ↦ rw (insert_setting, e) (ground (arith, f, find-insert_setting n v settings k))
    | inl f ↦ elim (Bool-cases (same_text n k)) [
      | inr g ↦ rw (insert_setting, e) (ground (arith, f, g))
      | inl g ↦
          let same : n ≡ m = same_text-eq n k g ∙ sym (same_text-eq m k f) in
          absurd (cc (ap (compare_text n) same, compare_text_refl n, e))
    ]
  ]
]

find-sorted_settings :
    (settings : Table Bytes) (k : Bytes) → find (sorted_settings settings) k ≡ find settings k
unfolding sorted_settings find
find-sorted_settings [] k = refl
find-sorted_settings ((n, v) ∷ settings) k =
    find-insert_setting n v (sorted_settings settings) k
    ∙ ground (arith, find-sorted_settings settings k)

fields_pair :
    (xs ys : List Bytes) (s t : List Bytes)
    → length xs ≡ length ys
    → xs ++ s ≡ ys ++ t
    → (xs ≡ ys) × (s ≡ t)
fields_pair [] [] s t h e = (refl, e)
fields_pair [] (y ∷ ys) s t h e = absurd (omega arith)
fields_pair (x ∷ xs) [] s t h e = absurd (omega arith)
fields_pair (x ∷ xs) (y ∷ ys) s t h e =
    let one : x ≡ y = cc in
    let rest : xs ++ s ≡ ys ++ t = cc in
    let (p, q) = fields_pair xs ys s t (omega arith) rest in (cc (one, p), q)

setting_fields_unique : (s t : Table Bytes) → setting_fields s ≡ setting_fields t → s ≡ t
unfolding setting_fields
setting_fields_unique [] [] e = refl
setting_fields_unique [] ((m, w) ∷ t) e = absurd cc
setting_fields_unique ((n, v) ∷ s) [] e = absurd cc
setting_fields_unique ((n, v) ∷ s) ((m, w) ∷ t) e =
    let one : n ≡ m = cc in
    let two : v ≡ w = cc in
    let rest : setting_fields s ≡ setting_fields t = cc in
    let more = setting_fields_unique s t rest in cc (one, two, more)

-- Two runs whose keys hash one text agree in all that a key is derived from: the build, the version of
-- the IR, the directory, the path, the hash of the source, the passes in their order, and the setting of
-- every name, where each field fits a Go string.
pub key_fields_unique :
    (x y : KeyInputs)
    → All Short (key_fields x)
    → All Short (key_fields y)
    → frame (key_fields x) ≡ frame (key_fields y)
    → (x.build ≡ y.build)
      × (x.ir_version ≡ y.ir_version)
      × (x.dir ≡ y.dir)
      × (x.path ≡ y.path)
      × (x.spec_hash ≡ y.spec_hash)
      × (x.passes ≡ y.passes)
      × ((name : Bytes) → find x.settings name ≡ find y.settings name)
unfolding key_fields
key_fields_unique x y hx hy e =
    let same : key_fields x ≡ key_fields y = frame_unique (key_fields x) (key_fields y) hx hy e in
    let counts : format_nat (length x.passes) ≡ format_nat (length y.passes) = cc in
    let tails : x.passes ++ setting_fields (sorted_settings x.settings)
        ≡ y.passes ++ setting_fields (sorted_settings y.settings) =
      cc in
    let (passes, fields) =
      fields_pair x.passes y.passes _ _ (format_nat_injective _ _ counts) tails in
    let settings = setting_fields_unique _ _ fields in
    (
      cc,
      cc,
      cc,
      cc,
      cc,
      passes,
      λ name.
          sym (find-sorted_settings x.settings name)
          ∙ ap (λ t. find t name) settings
          ∙ find-sorted_settings y.settings name,
    )
