-- ===== src/Engine/Cache/Serve/Uncached.antt =====
-- What a cache can change of a run.
use morphic.Base.{
  ℕ, suc, Bool, true, false, List, [], ◌∷◌, ◌++◌, Option, none, some, Bytes, if◌then◌else◌, Result,
  ok, err, ◌≡◌, refl, subst,
}
use morphic.Engine.Cache.Reads.{
  Request, Compile, done, ask, Recorder, new_recorder, record_read, run_recorded,
}
use morphic.Engine.Cache.Serve.{
  CompileResult, CacheError, no_directory, Binding, Fetched, hit, miss, stopped_after_cache,
  run_timed, fetch, keep, Outcome, uncached, noting, kept_run, after_fetch, compile_cached,
}

-- To record the reads of a compile does not change its result.
pub run_recorded-run_timed :
    {R : Type 0} (sha : Bytes → Bytes) (docs : ℕ → Request → Option Bytes) (n : ℕ) (c : Compile R)
    (r : Recorder)
    → (run_recorded sha docs n c r).0 ≡ run_timed docs n c
unfolding run_recorded run_timed
run_recorded-run_timed sha docs n (done result) r = refl
run_recorded-run_timed sha docs n (ask q go) r =
    run_recorded-run_timed sha docs (suc n) (go (docs n q)) (record_read sha q (docs n q) r)

-- What a cached run may answer: what the uncached one does, that with the errors of the cache noted, or
-- a hit, which only the context keeps from its caller.
pub data Answered {St D F S E : Type 0} (binding : Option (Binding St D F S)) (key : Option Bytes)
    (stopped : Bool) (st : St) (now : Request → Option Bytes)
    (plain : Result E (CompileResult D F S)) : Outcome E D F S → Type 0 where
  as_uncached : Answered binding key stopped st now plain (uncached plain)
  as_noted :
      (errors : List CacheError) → Answered binding key stopped st now plain (noting errors plain)
  from_cache :
      (b : Binding St D F S) (k : Bytes) (res : CompileResult D F S)
      → binding ≡ some b
      → key ≡ some k
      → fetch b st k now ≡ hit res
      → Answered binding key stopped st now plain
          (if stopped then err stopped_after_cache else ok res)

module _ {St D F S E : Type 0} (stopped : Bool) (st : St) (now : Request → Option Bytes)
    (docs : ℕ → Request → Option Bytes) (c : Compile (Result E (CompileResult D F S))) where
  kept_run-Answered :
      (b : Binding St D F S) (key : Bytes) (looked : List CacheError)
      (o : Result E (CompileResult D F S)) (r : Recorder)
      → Answered (some b) (some key) stopped st now o (kept_run b st key looked (o, r)).0
  unfolding kept_run
  kept_run-Answered b key looked (err e) r = as_uncached
  kept_run-Answered b key looked (ok res) r = as_noted (looked ++ (keep b st key res r).1)

  after_fetch-Answered :
      (b : Binding St D F S) (key : Bytes) (f : Fetched D F S)
      → fetch b st key now ≡ f
      → Answered
          (some b)
          (some key)
          stopped
          st
          now
          (run_timed docs 0 c)
          (after_fetch b stopped st key docs c f).0
  unfolding after_fetch
  after_fetch-Answered b key (hit res) e = from_cache b key res refl refl e
  after_fetch-Answered b key (miss looked) e =
      let ran = run_recorded b.sha docs 0 c new_recorder in
      subst (λ o. Answered (some b) (some key) stopped st now o (kept_run b st key looked ran).0)
        (run_recorded-run_timed b.sha docs 0 c new_recorder)
        (kept_run-Answered b key looked ran.0 ran.1)

-- No failure of the cache fails a run: without a cache, where the run is not cacheable, where no key can be
-- made, and after a fetch that finds nothing to answer or fails, the outcome is that of a compile without
-- a cache, but for the errors of the cache noted in a result. Otherwise it is the result that was fetched, or an error where the
-- context has ended.
pub compile_cached-Answered :
    {St D F S E : Type 0} (binding : Option (Binding St D F S)) (allowed : Bool)
    (key : Option Bytes) (stopped : Bool) (st : St) (now : Request → Option Bytes)
    (docs : ℕ → Request → Option Bytes) (c : Compile (Result E (CompileResult D F S)))
    → Answered binding key stopped st now
        (run_timed docs 0 c)
        (compile_cached binding allowed key stopped st now docs c).0
unfolding compile_cached
compile_cached-Answered none allowed key stopped st now docs c = as_uncached
compile_cached-Answered (some b) false key stopped st now docs c = as_uncached
compile_cached-Answered (some b) true none stopped st now docs c = as_noted (no_directory ∷ [])
compile_cached-Answered (some b) true (some key) stopped st now docs c =
    after_fetch-Answered stopped st now docs c b key (fetch b st key now) refl
