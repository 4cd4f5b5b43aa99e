-- ===== src/Engine/Spec/Answered.antt =====
-- engine/engine.go: what a run that compiles a spec comes to.
use morphic.Base.{
  ℕ, ◌+◌, Bool, false, List, [], ◌∷◌, Option, none, some, Bytes, ok, err, ◌>>=◌, ◌≡◌, inl, inr,
  Option-cases, sym, ◌∙◌, refl, subst, All, bind_ok,
}
use morphic.Ir.Diagnostic.{first_outside_table}
use morphic.Engine.Verdict.{verdict}
use morphic.Engine.Stage.Run.{LeavesInput}
use morphic.Engine.Whole.{Plan, prepare, map_err}
use morphic.Engine.Cache.Serve.{cacheable}
use morphic.Engine.Whole.Sound.{map_err_ok}
use morphic.Compilers.{
  SourceFormat, Source, Compiler, CompilerRegistry, new_compiler_registry, register_all,
}
use morphic.Compilers.Owned.{WellFormed, register_all-WellFormed}
use morphic.Compilers.Detect.{Detection, Configure, detect_source, unowned}
use morphic.Compilers.Detect.Taken.{Found, taken, nobody, refused}
use morphic.Compilers.Detect.Claimed.{detect_source-Found}
use morphic.Compilers.Contract.{Compiled, compile_detection}
use morphic.Compilers.Contract.Met.{Met, compile_detection-Met}
use morphic.Engine.Spec.{
  no_path, SpecOptions, SpecEngine, SpecResult, not_detected, not_compiled, undetected_result,
  configurer, after_compiled, compile_detected, compile_spec, judge_spec, run_held, is_given,
  takes_part, compile_or_serve, run_spec, run_options, spec_source, prepare_spec,
}
use morphic.Engine.Spec.Told.{Told, undetected_result-Told, run_compiled-Told, judge_spec-Told}
use morphic.Compilers.Detect.Explained.{List-cases}

module _ {A R B E V F : Type 0} (hash : Bytes → Bytes) (say : Option SourceFormat → Bytes)
    (zero_sum : F) (ctx : ℕ → Bool) where
  module _ (p : Plan B V F) (alone : All (λ np. LeavesInput np.pass) p.enabled) where
    after_compiled-Told :
        (d : Detection A R B E) (k : ℕ) (out : Compiled B) (res : SpecResult B)
        → Met hash d out
        → after_compiled {E = E} {V = V} zero_sum ctx p d.recognition.format k out ≡ ok res
        → Told hash d.source.path d.source.data_of res
    unfolding after_compiled
    after_compiled-Told d k out res met h = elim met.outcome [
      | inl (left, why) ↦
          let same : record {
            result = record { document = none; diagnostics = out.diagnostics; failed = false };
            sources = out.sources;
            format = d.recognition.format;
          }
              ≡ res =
            cc (rw (after_compiled, left) at h) in
          rw (← same) (record { opens = met.opens; inside = met.inside; outcome = inl (refl, why) })
      | inr (doc, has, standing) ↦
          run_compiled-Told hash zero_sum ctx p alone d.source.path d.source.data_of
            d.recognition.format k doc out.diagnostics res (rw (← standing.tabled) met.opens)
            standing.version standing.reads (rw (← standing.tabled) met.inside)
            (rw (after_compiled, has) at h)
    ]

    compile_detected-Told :
        (spec : Source A) (d : Detection A R B E) (b : Bool) (k : ℕ) (configure : Configure A R B E)
        (r : CompilerRegistry A R B E) (res : SpecResult B)
        → Found ctx configure r spec d b
        → compile_detected {V = V} hash say zero_sum ctx p spec.path (d, b, k) ≡ ok res
        → Told hash spec.path spec.data_of res
    unfolding compile_detected unowned first_outside_table
    compile_detected-Told spec d b k configure r res (taken t) h =
        let (out, ran, rest) =
          bind_ok (map_err not_compiled (compile_detection hash (ctx k) d)) _ res h in
        subst (λ s. Told hash s.path s.data_of res) t.source
          (after_compiled-Told d (k + 1) out res
            (compile_detection-Met hash (ctx k) d out (map_err_ok not_compiled _ out ran)) rest)
    compile_detected-Told spec d b k configure r res (nobody _ _ _ _ _ _ _ _ _ _) h =
        let same : undetected_result say d spec.path ≡ res = cc in
        rw (← same) (undetected_result-Told hash say d spec (refl, inl refl))
    compile_detected-Told spec d b k configure r res (refused diags why _) h =
        let same : undetected_result say d spec.path ≡ res = cc in
        rw (← same) (undetected_result-Told hash say d spec why)

    compile_spec-Told :
        (configure : Configure A R B E) (r : CompilerRegistry A R B E) (k : ℕ) (spec : Source A)
        (res : SpecResult B)
        → WellFormed r
        → compile_spec {V = V} hash say zero_sum ctx configure r p k spec ≡ ok res
        → Told hash spec.path spec.data_of res
    unfolding compile_spec
    compile_spec-Told configure r k spec res known h =
        let ((d, b, asks), found, rest) =
          bind_ok (map_err not_detected (detect_source ctx configure r spec k))
            (compile_detected hash say zero_sum ctx p spec.path) res h in
        compile_detected-Told spec d b asks configure r res
          (detect_source-Found ctx configure r spec known k d b asks
            (map_err_ok not_detected _ (d, b, asks) found))
          rest

  compile_or_serve-compile_spec :
      (opts : SpecOptions A) (docs : R) (e : SpecEngine A R B E V F) (p : Plan B V F) (k : ℕ)
      (src : Source A)
      → takes_part e opts ≡ false
      → compile_or_serve hash say zero_sum ctx opts docs e p k src
        ≡ compile_spec hash say zero_sum ctx (configurer opts docs) e.registry p k src
  unfolding compile_or_serve
  compile_or_serve-compile_spec opts docs e p k src apart = elim (Option-cases e.cache) [
    | inl none_bound ↦ rw (compile_or_serve, none_bound)
    | inr (cache, bound) ↦
        let no : cacheable opts.verify (is_given opts.given) ≡ false = rw bound at apart in
        rw (compile_or_serve, bound, no)
  ]

  -- A RunSpec of an engine whose compilers were all registered, that takes no part in a cache, since the
  -- engine has none or the options keep the run out of it, with passes left on that do not touch the
  -- document they are handed: where it comes to a result, that answers with a table of sources that opens with the
  -- path of the spec. Its findings index that table. There is a document of a version that this build
  -- reads, which carries the findings, has the table, and whose first source has the format of the result
  -- and the hash of the spec; or there is none, and one of the findings is an error. The result is judged by
  -- the threshold of the options.
  pub run_spec-Told :
      (layered : Source A → R) (e : SpecEngine A R B E V F) (cs : List (Option (Compiler A R B E)))
      (opts : SpecOptions A) (p : Plan B V F) (spec : Source A) (res : SpecResult B)
      → register_all new_compiler_registry cs ≡ ok e.registry
      → prepare (some e.engine) (run_options opts) ≡ ok p
      → takes_part e opts ≡ false
      → All (λ np. LeavesInput np.pass) p.enabled
      → run_spec hash say zero_sum ctx layered (some e) opts spec ≡ ok res
      → Told hash spec.path spec.data_of res
        × (verdict p.threshold res.result.document res.result.diagnostics ≡ ok res.result.failed)
  unfolding run_spec prepare_spec run_held
  run_spec-Told layered e cs opts p spec res registered prepared apart alone h =
      let run : (prepare_spec (some e) opts >>= λ q. elim spec.path [
        | [] ↦ err no_path
        | c ∷ path ↦
            let src = spec_source (c ∷ path) spec.data_of in
            run_held hash say zero_sum ctx opts (layered src) q.0 q.1 0 src
      ])
          ≡ ok res =
        h in
      elim (List-cases spec.path) [
        | inl empty ↦ absurd (cc (rw (prepare_spec, prepared, empty) at run))
        | inr (c, path, full) ↦
            let src = spec_source (c ∷ path) spec.data_of in
            let held : run_held hash say zero_sum ctx opts (layered src) e p 0 src ≡ ok res =
              rw (prepare_spec, prepared, full) at run in
            let (raw, compiled_of, last) =
              bind_ok (compile_or_serve hash say zero_sum ctx opts (layered src) e p 0 src)
                (judge_spec p) res held in
            let plain = sym (compile_or_serve-compile_spec opts (layered src) e p 0 src apart) in
            rw full (
              judge_spec-Told hash p (c ∷ path) spec.data_of raw res
                (compile_spec-Told p alone (configurer opts (layered src)) e.registry 0 src raw
                  (register_all-WellFormed cs e.registry registered) (plain ∙ compiled_of))
                last)
      ]
