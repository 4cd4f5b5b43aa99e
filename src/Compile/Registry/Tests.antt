-- ===== src/Compile/Registry/Tests.antt =====
-- Runs of promise.go and settle.go, and their theorems at a build that promises another.
use mathlib.Core.List.{Memᴰ}
use morphic.Base.{
  ℕ, zero, suc, ◌<◌, Bool, true, false, List, [], ◌∷◌, Option, none, some, Bytes, codes, ◌≡◌, ◌⊎◌,
  inl, inr, refl, same_text, find, has, arith, compare_text, Bool-cases, length,
}
use morphic.Compile.Types.{Refusal, refuse, table_size, lookup, promise_unbuilt}
use morphic.Compile.Registry.{
  Registry, Went, Finding, raised, registry_refused, new_registry, promise, defer, complete,
  is_built, insert_sorted, sorted, call, fulfil_round, go_on, fulfil_rounds, fulfil, settle_one,
  settle_all, settle, report, finish,
}
use morphic.Compile.Registry.Fair.{Fair, Fair-refl, Fair-trans, promise-Fair}
use morphic.Compile.Registry.Rounds.{AllAccounted, waiting}
use morphic.Compile.Registry.Settled.{AllAnswered, fulfil_answers}
use morphic.Compile.Registry.Sizes.{Sized, Noticed, settle-Sized}

abbrev Shop : Type 0
Shop = Registry ℕ ℕ ℕ

-- The node of a pointer, held without more ado.
abbrev hold_node : Bytes → Shop → Shop
hold_node p t = record t {
  types = record t.types { by_pointer = (p, codes "id") ∷ t.types.by_pointer };
}

-- The build 0 holds its node and promises another, and the other builds nothing.
abbrev shop_build : ℕ → Shop → Shop × List ℕ
shop_build zero t = (promise (codes "/b") (some 1) (hold_node (codes "/a") t), 7 ∷ [])
shop_build (suc b) t = (t, [])

abbrev shop_settle : ℕ → Shop → Shop × List ℕ
shop_settle zero t = (t, 8 ∷ [])
shop_settle (suc s) t =
    (record t { types = record t.types { reg = (codes "id", 5) ∷ t.types.reg } }, [])

abbrev never : ℕ → Bool
never k = false

abbrev open_shop : Shop
open_shop = defer (some 0) (complete (some 1) (promise (codes "/a") (some 0) new_registry))

-- Its line opens all that `finish` calls.
run_finish : ℕ → Option (Shop × List (Finding ℕ))
unfolding finish fulfil fulfil_rounds go_on fulfil_round call promise is_built lookup find has
    same_text insert_sorted sorted compare_text refuse settle settle_all settle_one report defer
    complete table_size
run_finish fuel = finish never shop_build shop_settle fuel open_shop 0

abbrev told_of : Option (Shop × List (Finding ℕ)) → List (Finding ℕ)
told_of none = []
told_of (some (t, found)) = found

shop_told :
    told_of (run_finish 3)
    ≡ raised 7
      ∷ raised 8
      ∷ registry_refused (promise_unbuilt (codes "/b"))
      ∷ registry_refused (Refusal.size_changed 0 1 0)
      ∷ []
unfolding run_finish
shop_told = refl

out_of_fuel : run_finish 1 ≡ none
unfolding run_finish
out_of_fuel = refl

abbrev coordinates : List Bytes
coordinates = codes "/a" ∷ codes "/b" ∷ []

hold_node-Fair : (p : Bytes) (t : Shop) → Fair coordinates t (hold_node p t)
unfolding is_built lookup find
hold_node-Fair p t = record {
  still = λ c h. h;
  kept = λ c h. elim (Bool-cases (same_text p c)) [
    | inl e ↦ ground (arith, e)
    | inr e ↦ ground (arith, e, h)
  ];
  told = λ m. m;
  held = λ c h. h;
  outstanding = λ c h. inl h;
  first = inl refl;
}

b_known : has coordinates (codes "/b") ≡ true
unfolding run_finish
b_known = refl

shop_build-Fair : (b : ℕ) (t : Shop) → Fair coordinates t (shop_build b t).0
shop_build-Fair zero t =
    Fair-trans coordinates t (hold_node (codes "/a") t) _ (hold_node-Fair (codes "/a") t)
      (promise-Fair coordinates (codes "/b") (some 1) (hold_node (codes "/a") t) b_known)
shop_build-Fair (suc b) t = Fair-refl coordinates t

a_waiting : AllAccounted [] open_shop
unfolding run_finish
a_waiting c h = waiting h

three_rounds : length coordinates < 3
three_rounds = omega arith

fulfil_answers_example :
    (w : Went ℕ ℕ ℕ ℕ) × (fulfil never shop_build 3 open_shop 0 ≡ some w)
    × (w.after.fulfilled ≡ true)
    × ((w.cut ≡ true) ⊎ AllAnswered w.after)
fulfil_answers_example =
    fulfil_answers coordinates never shop_build 3 open_shop 0 shop_build-Fair a_waiting three_rounds

shop_settle_told :
    (s : ℕ) (t : Shop) (why : Refusal)
    → Memᴰ why t.types.refused
    → Memᴰ why (shop_settle s t).0.types.refused
shop_settle_told zero t why m = m
shop_settle_told (suc s) t why m = m

settle-Sized_example :
    let u = (settle never shop_settle open_shop 0).after in Sized open_shop u ⊎ Noticed u
settle-Sized_example = settle-Sized never shop_settle open_shop 0 shop_settle_told
