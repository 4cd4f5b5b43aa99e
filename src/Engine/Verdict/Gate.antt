-- ===== src/Engine/Verdict/Gate.antt =====
-- What a caller relies on in a gate: order of findings, stricter thresholds, and `FailOnNone`.
use mathlib.Core.List.{Memᴰ}
use mathlib.Core.Logic.{⊎_elim}
use morphic.Base.{
  ℕ, ◌≤◌, ◌<◌, Bool, true, false, List, Option, none, some, ok, ◌≡◌, ◌⊎◌, ◌↔◌, inl, inr, refl, sym,
  ap, arith, ◌∙◌, Bytes, same_text,
}
use morphic.Ir.Diagnostic.{Diagnostic}
use morphic.Engine.Verdict.{
  severities, index_of, verdict_loop, verdict, resolve, resolve_named, fail_on_none,
}
use morphic.Engine.Verdict.Reaches.{Reaches, Unranked, verdict_loop-Judged}

-- An answer of the loop, read off its characterisation.
answered :
    (t : ℕ) (failed : Bool) (ds : List Diagnostic) {b : Bool}
    → verdict_loop t failed ds ≡ ok b
    → ((b ≡ true) ↔ ((failed ≡ true) ⊎ Reaches t ds)) × (¬ Unranked ds)
answered t failed ds {b} h = elim (verdict_loop-Judged t failed ds) [
  | inl (c, eq, reached, ranked) ↦ let p : c ≡ b = cc in (rw p at reached, ranked)
  | inr (u, (e, stop)) ↦ absurd (cc)
]

-- The loop answers a question whose truth is known, if every severity is.
answers :
    (t : ℕ) (failed b : Bool) (ds : List Diagnostic)
    → ¬ Unranked ds
    → ((b ≡ true) ↔ ((failed ≡ true) ⊎ Reaches t ds))
    → verdict_loop t failed ds ≡ ok b
answers t failed b ds ranked known = elim (verdict_loop-Judged t failed ds) [
  | inl (c, eq, reached, _) ↦
      eq ∙ ap ok (Bool_eq c b (λ h. known.1 (reached.0 h)) (λ h. reached.1 (known.0 h)))
  | inr (u, _) ↦ absurd (ranked u)
]
  where
    Bool_eq : (c b : Bool) → (c ≡ true → b ≡ true) → (b ≡ true → c ≡ true) → c ≡ b
    Bool_eq true b h k = sym (h refl)
    Bool_eq false true h k = k refl
    Bool_eq false false h k = refl

loop_same_findings :
    (t : ℕ) (failed : Bool) (ds es : List Diagnostic) {b : Bool}
    → ((d : Diagnostic) → Memᴰ d ds ↔ Memᴰ d es)
    → verdict_loop t failed ds ≡ ok b
    → verdict_loop t failed es ≡ ok b
loop_same_findings t failed ds es {b} same h =
    let (known, ranked) = answered t failed ds h in
    answers t failed b es (λ (d, m, e). ranked (d, (same d).1 m, e))
      (
        λ p. ⊎_elim inl (λ (d, r, m, e, le). inr (d, r, (same d).0 m, e, le)) (known.0 p),
        λ p. known.1 (⊎_elim inl (λ (d, r, m, e, le). inr (d, r, (same d).1 m, e, le)) p),
      )

loop_stricter :
    (t u : ℕ) (failed : Bool) (ds : List Diagnostic)
    → t ≤ u
    → verdict_loop u failed ds ≡ ok true
    → verdict_loop t failed ds ≡ ok true
loop_stricter t u failed ds le h =
    let (known, ranked) = answered u failed ds h in
    answers t failed true ds ranked
      (λ p. ⊎_elim inl (λ (d, r, m, e, up). inr (d, r, m, e, omega arith)) (known.0 p), λ p. refl)

rank-lt : (s : Bytes) {r : ℕ} → index_of severities s ≡ some r → r < 3
unfolding index_of
rank-lt s h = ground arith

resolve-none : resolve fail_on_none ≡ ok 3
unfolding resolve resolve_named same_text
resolve-none = refl

module _ {D : Type 0} where
  -- Two runs with the same findings, in any order and however often each, get the same answer.
  pub verdict_same_findings :
      (t : ℕ) (document : Option D) (ds es : List Diagnostic) {b : Bool}
      → ((d : Diagnostic) → Memᴰ d ds ↔ Memᴰ d es)
      → verdict t document ds ≡ ok b
      → verdict t document es ≡ ok b
  unfolding verdict
  verdict_same_findings t none ds es same h = loop_same_findings t true ds es same h
  verdict_same_findings t (some document) ds es same h = loop_same_findings t false ds es same h

  -- A run that fails at a threshold fails at every stricter one.
  pub verdict_stricter :
      (t u : ℕ) (document : Option D) (ds : List Diagnostic)
      → t ≤ u
      → verdict u document ds ≡ ok true
      → verdict t document ds ≡ ok true
  unfolding verdict
  verdict_stricter t u none ds le h = loop_stricter t u true ds le h
  verdict_stricter t u (some document) ds le h = loop_stricter t u false ds le h

  -- At `none` a run fails exactly when it made no document, whatever its findings of known severity.
  pub verdict_at_none :
      (t : ℕ) (document : Option D) (ds : List Diagnostic) {b : Bool}
      → resolve fail_on_none ≡ ok t
      → verdict t document ds ≡ ok b
      → (b ≡ true) ↔ (document ≡ none)
  unfolding verdict
  verdict_at_none t none ds {b} at h = (λ _. refl, λ _. (answered t true ds h).0.1 (inl refl))
  verdict_at_none t (some document) ds {b} at h =
      let known = (answered t false ds h).0 in
      let top : t ≡ 3 = cc resolve-none in
      (
        λ p. absurd (
            ⊎_elim (λ e. cc) (λ (d, r, m, e, le). omega (arith, rank-lt d.severity e)) (known.0 p)),
        λ e. cc,
      )
