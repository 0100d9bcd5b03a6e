-- ===== src/Application/Seed/Counts.antt =====
-- internal/application/seed.go: what the result of `Seed` counts.
use order_hub.Prelude.{ℕ, suc, ◌+◌, String, ◌≡◌, refl, arith, List, [], ◌∷◌, length, length-append}
use order_hub.Prelude.Dict.{Dict}
use order_hub.Domain.Error.{Result, ok, err}
use order_hub.Domain.Scene.{SceneConfig}
use order_hub.Domain.Hash.{ContextDoc, CheckoutDoc}
use order_hub.Application.Action.{Outside, World}
use order_hub.Application.Seed.{SeededOrder, SeedResult, tally, run_case, run_cases, seed}
use order_hub.Application.Seed.Cases.{SeedCase, seed_cases}

-- The orders and the errors of a result are as many as it counts.
abbrev pub IsCounted : ℕ → SeedResult → Type 0
IsCounted total r =
    (r.created + r.failed ≡ total) × (length r.orders ≡ r.created) × (length r.errors ≡ r.failed)

tally-IsCounted :
    (c : SeedCase) (made : Result SeededOrder) (total : ℕ) (r : SeedResult)
    → IsCounted total r
    → IsCounted (suc total) (tally c made r)
unfolding tally
tally-IsCounted c (ok o) total r (sum, orders, errors) =
    (omega arith, omega (arith, length-append r.orders (o ∷ [])), errors)
tally-IsCounted c (err e) total r (sum, orders, errors) =
    (omega arith, orders, omega (arith, length-append r.errors (_ ∷ [])))

module _ (out : Outside) (ctx : ContextDoc → String) (req : CheckoutDoc → String)
    (scenes : Dict SceneConfig) (stamp : ℕ) where
  run_cases-IsCounted :
      (cs : List SeedCase) (i total : ℕ) (done : SeedResult) (w : World)
      → IsCounted total done
      → (r : SeedResult) × ((run_cases out ctx req scenes stamp i cs done w).0 ≡ ok r)
        × IsCounted (total + length cs) r
  unfolding run_cases
  run_cases-IsCounted [] i total done w h = (done, refl, (omega arith, h.1, h.2))
  run_cases-IsCounted (c ∷ cs) i total done w h =
      let made = run_case out ctx req scenes stamp i c w in
      let (r, same, (sum, orders, errors)) =
        run_cases-IsCounted cs (suc i) (suc total) (tally c made.0 done) made.1
          (tally-IsCounted c made.0 total done h) in
      (r, same, (omega arith, orders, errors))

-- The seeding ends without an error, whatever the hubs answer: each of the 24 cases is counted as
-- created or as failed, and there are as many orders and errors as are counted.
pub seed-IsCounted :
    (out : Outside) (ctx : ContextDoc → String) (req : CheckoutDoc → String)
    (scenes : Dict SceneConfig) (stamp : ℕ) (w : World)
    → (r : SeedResult) × ((seed out ctx req scenes stamp w).0 ≡ ok r) × IsCounted 24 r
unfolding seed seed_cases
seed-IsCounted out ctx req scenes stamp w =
    run_cases-IsCounted out ctx req scenes stamp seed_cases 0 0 _ w (refl, refl, refl)
