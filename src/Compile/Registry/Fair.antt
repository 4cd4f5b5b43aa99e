-- ===== src/Compile/Registry/Fair.antt =====
-- What `fulfil` relies on in a build: it takes nothing back, and every promise it makes is of a known
-- coordinate.
use mathlib.Core.List.{Memᴰ}
use mathlib.Core.List.Memᴰ
use morphic.Base.{
  Bool, true, false, List, [], ◌∷◌, Option, none, some, Bytes, Table, has, same_text,
  same_text_refl, if◌then◌else◌, ◌≡◌, ◌⊎◌, inl, inr, refl, ◌∙◌, arith, Bool-cases,
}
use morphic.Ir.BigVal.{is_nil}
use morphic.Compile.Types.{Refusal, refuse, lookup}
use morphic.Compile.Registry.{Registry, decline, promise, is_built}

abbrev pub keys : {B : Type 0} → Table B → List Bytes
keys [] = []
keys ((c, b) ∷ table) = c ∷ keys table

-- From one registry to a later one: nothing promised, built, refused or outstanding is lost, what is
-- newly promised is outstanding, and either nothing was promised or some known coordinate was for the
-- first time.
pub record Fair {N B S : Type 0} (names : List Bytes) (t u : Registry N B S) : Type 0 where
  pub still : (c : Bytes) → has t.promised c ≡ true → has u.promised c ≡ true
  pub kept : (c : Bytes) → is_built c t ≡ true → is_built c u ≡ true
  pub told : {why : Refusal} → Memᴰ why t.types.refused → Memᴰ why u.types.refused
  pub held : (c : Bytes) → has (keys t.promises) c ≡ true → has (keys u.promises) c ≡ true
  pub outstanding :
      (c : Bytes)
      → has u.promised c ≡ true
      → (has t.promised c ≡ true) ⊎ (has (keys u.promises) c ≡ true)
  pub first :
      (u.promises ≡ t.promises)
      ⊎ ((c : Bytes) × (has t.promised c ≡ false)
          × (has u.promised c ≡ true)
          × (has names c ≡ true))

module _ {N B S : Type 0} (names : List Bytes) where
  pub Fair-refl : (t : Registry N B S) → Fair names t t
  Fair-refl t = record {
    still = λ c h. h;
    kept = λ c h. h;
    told = λ m. m;
    held = λ c h. h;
    outstanding = λ c h. inl h;
    first = inl refl;
  }

  not_before :
      (t u : Registry N B S) (c : Bytes)
      → Fair names t u
      → has u.promised c ≡ false
      → has t.promised c ≡ false
  not_before t u c f h = elim (Bool-cases (has t.promised c)) [
    | inl e ↦ absurd (cc (f.still c e, h))
    | inr e ↦ e
  ]

  pub Fair-trans : (t u v : Registry N B S) → Fair names t u → Fair names u v → Fair names t v
  Fair-trans t u v f g = record {
    still = λ c h. g.still c (f.still c h);
    kept = λ c h. g.kept c (f.kept c h);
    told = λ m. g.told (f.told m);
    held = λ c h. g.held c (f.held c h);
    outstanding = λ c h. elim (g.outstanding c h) [
      | inl m ↦ elim (f.outstanding c m) [ inl k ↦ inl k | inr k ↦ inr (g.held c k) ]
      | inr k ↦ inr k
    ];
    first = elim g.first [
      | inr (c, out, h, m) ↦ inr (c, not_before t u c f out, h, m)
      | inl e ↦ elim f.first [
        | inl d ↦ inl (e ∙ d)
        | inr (c, out, h, m) ↦ inr (c, out, g.still c h, m)
      ]
    ];
  }

  pub decline-Fair : (why : Refusal) (t : Registry N B S) → Fair names t (decline why t)
  unfolding refuse is_built lookup
  decline-Fair why t = record {
    still = λ c h. h;
    kept = λ c h. h;
    told = λ m. Memᴰ.append_left (why ∷ []) m;
    held = λ c h. h;
    outstanding = λ c h. inl h;
    first = inl refl;
  }

  pub if-Fair :
      {t u v : Registry N B S} (b : Bool)
      → (b ≡ true → Fair names t u)
      → (b ≡ false → Fair names t v)
      → Fair names t (if b then u else v)
  if-Fair true f g = f refl
  if-Fair false f g = g refl

  added-Fair :
      (coordinate : Bytes) (b : B) (t : Registry N B S)
      → has t.promised coordinate ≡ false
      → has names coordinate ≡ true
      → Fair names t
          (record t { promised = coordinate ∷ t.promised; promises = (coordinate, b) ∷ t.promises })
  unfolding has is_built
  added-Fair coordinate b t p m = record {
    still = λ c h. ground (arith, h);
    kept = λ c h. h;
    told = λ x. x;
    held = λ c h. ground (arith, h);
    outstanding = λ c h. elim (Bool-cases (same_text coordinate c)) [
      | inl e ↦ inr (ground (arith, e))
      | inr e ↦ inl (ground (arith, h, e))
    ];
    first = inr (coordinate, p, ground (arith, same_text_refl coordinate), m);
  }

  -- A promise of a known coordinate.
  pub promise-Fair :
      (coordinate : Bytes) (b : Option B) (t : Registry N B S)
      → has names coordinate ≡ true
      → Fair names t (promise coordinate b t)
  unfolding promise
  promise-Fair coordinate none t m =
      if-Fair t.fulfilled (λ _. decline-Fair _ t) (λ _. decline-Fair _ t)
  promise-Fair coordinate (some b) t m =
      if-Fair t.fulfilled (λ _. decline-Fair _ t)
        (λ _.
          if-Fair (is_nil coordinate) (λ _. decline-Fair _ t)
            (λ _.
              if-Fair (has t.promised coordinate) (λ _. Fair-refl t)
                (λ p. added-Fair coordinate b t p m)))
