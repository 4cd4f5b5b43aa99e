-- ===== src/Engine/Stage/Verified.antt =====
-- What a verified run adds: every document returned keeps the invariants, and no pass changed the
-- document it was handed, where fingerprints tell documents apart.
use mathlib.Core.Logic.{⊎_elim}
use morphic.Base.{
  ℕ, ◌+◌, Bool, true, List, [], ◌∷◌, ◌++◌, some, Result, ok, err, ◌≡◌, ◌⊎◌, inl, inr, refl, sym, ap,
  ◌∙◌, subst, arith, Bytes, Bool-cases, Option-cases, append-nil,
}
use morphic.Ir.Diagnostic.{Diagnostic}
use morphic.Engine.Passes.{NamedPass}
use morphic.Engine.Stage.{
  Document, Next, nothing, itself, another, Pass, StageError, Verifier, hold, after_pass,
  run_passes, next_document,
}
use morphic.Engine.Stage.Kept.{Extends, Extends-trans}
use morphic.Engine.Stage.Run.{WentOn, run_passes_step, run_passes_end}

module _ {B V F : Type 0} (v : Verifier B V F) (zero_sum : F) (ctx : ℕ → Bool) where
  -- A document that breaks nothing, with its fingerprint.
  pub record Holds (doc : Document B) (sum : F) : Type 0 where
    pub keeps : v.violations doc ≡ []
    pub print : v.fingerprint doc ≡ some sum

  List-nil : (vs : List V) → (vs ≡ []) ⊎ ((x : V) × (xs : List V) × (vs ≡ x ∷ xs))
  List-nil [] = inl refl
  List-nil (x ∷ xs) = inr (x, xs, refl)

  hold-Holds :
      (doc : Document B) {sum : F} → hold zero_sum ctx (some v) doc ≡ ok sum → Holds doc sum
  unfolding hold
  hold-Holds doc {sum} h = elim (Option-cases (v.fingerprint doc)) [
    | inl e ↦ absurd (cc (rw (e, hold) at h))
    | inr (s, e) ↦ elim (List-nil (v.violations doc)) [
      | inr (x, xs, f) ↦ absurd (cc (rw (e, hold, f) at h))
      | inl f ↦
          let same : s ≡ sum = cc (rw (e, hold, f) at h) in
          record { keeps = f; print = e ∙ ap some same }
    ]
  ]

  held :
      (d : Document B) {after : F}
      → ◌≡◌ {A = Result (StageError V) F}
          (elim (hold zero_sum ctx (some v) d) [
            | ok s ↦ ok s
            | err vs ↦ err (StageError.breaks_invariants vs)
          ])
          (ok after)
      → hold zero_sum ctx (some v) d ≡ ok after
  held d eq = ground arith

  after_pass_ok :
      (name : Bytes) (before : F) (left : Document B) (next : Next B) (d : Document B) {after : F}
      → after_pass zero_sum ctx (some v) name before left next d ≡ ok after
      → ((a : F) × (v.fingerprint left ≡ some a) × (v.same a before ≡ true))
        × (((next ≡ itself) × (before ≡ after)) ⊎ Holds d after)
  unfolding after_pass
  after_pass_ok name before left next d {after} h = elim (Option-cases (v.fingerprint left)) [
    | inl e ↦ absurd (cc (rw (e, after_pass) at h))
    | inr (a, e) ↦ elim (Bool-cases (v.same a before)) [
      | inr moved ↦ absurd (cc (rw (e, after_pass, moved) at h))
      | inl same ↦ ((a, e, same), by_next next (rw (e, after_pass, same) at h))
    ]
  ]
    where
      by_next :
          (n : Next B)
          → ◌≡◌ {A = Result (StageError V) F}
              (elim n [
                | itself ↦ ok before
                | _ ↦ elim (hold zero_sum ctx (some v) d) [
                  | ok s ↦ ok s
                  | err vs ↦ err (StageError.breaks_invariants vs)
                ]
              ])
              (ok after)
          → ((n ≡ itself) × (before ≡ after)) ⊎ Holds d after
      by_next itself eq = inl (refl, cc)
      by_next nothing eq = inr (hold-Holds d (held d eq))
      by_next (another x) eq = inr (hold-Holds d (held d eq))

  next-itself :
      (left d : Document B) (next : Next B)
      → next ≡ itself
      → next_document left next ≡ some d
      → left ≡ d
  next-itself left d next e h = cc (rw e at h)

  module _ (same_sound : (f g : F) → v.same f g ≡ true → f ≡ g)
      (one_print : (x y : Document B) (f : F)
        → v.fingerprint x ≡ some f
        → v.fingerprint y ≡ some f
        → x ≡ y) where
    -- A round of a verified run hands on a document that holds, and left its own as it was.
    round-Holds :
        (k : ℕ) (np : NamedPass (Pass B)) (doc : Document B) (sum : F) {d : Document B} {after : F}
        {diags : List Diagnostic}
        → Holds doc sum
        → (w : WentOn zero_sum ctx (some v) k np doc sum d after diags)
        → (w.left ≡ doc) × Holds d after
    round-Holds k np doc sum {d} {after} h w =
        let ((a, print, same), ends) = after_pass_ok np.name sum w.left w.next d w.held in
        let unchanged =
          one_print w.left doc sum (print ∙ ap some (same_sound a sum same)) h.print in
        let same_holds = λ (e : (w.next ≡ itself) × (sum ≡ after)).
          let p = sym unchanged ∙ next-itself w.left d w.next e.0 w.accepted.document in
          subst (λ x. Holds x after) p (rw (← e.1) h) in
        (unchanged, ⊎_elim same_holds (λ holds. holds) ends)

    -- Where no two documents have one fingerprint, and fingerprints that the verifier calls the same are
    -- equal, a verified run that starts from a document of no violation and its fingerprint, and that
    -- returns a document, returns one of no violation, whose table has every source of the first at its
    -- index. Of the passes nothing is asked.
    pub run_passes-verified :
        (k : ℕ) (nps : List (NamedPass (Pass B))) (doc : Document B) (sum : F)
        (found : List Diagnostic) {d : Document B} {fs : List Diagnostic}
        → Holds doc sum
        → run_passes zero_sum ctx (some v) k nps doc sum found ≡ ok (d, fs)
        → (v.violations d ≡ []) × Extends doc.sources d.sources
    run_passes-verified k [] doc sum found {d} {fs} h eq =
        let (_, same, _) = run_passes_end zero_sum ctx (some v) k doc sum found eq in
        rw (← same) (h.keeps, ([], sym (append-nil doc.sources)))
    run_passes-verified k (np ∷ nps) doc sum found {d} {fs} h eq =
        let step = (run_passes_step zero_sum ctx (some v) k np nps doc sum found eq).1 in
        let (x, after, diags, went, rest) = step in
        let (unchanged, holds) = round-Holds (k + 1) np doc sum h went in
        let grown =
          subst (λ (y : Document B). Extends y.sources x.sources) unchanged went.accepted.sources in
        let (keeps, last) =
          run_passes-verified (k + 2) nps x after (found ++ diags) {d = d} {fs = fs} holds rest in
        (keeps, Extends-trans doc.sources x.sources d.sources grown last)
