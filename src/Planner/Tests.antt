-- ===== src/Planner/Tests.antt =====
-- Runs of the planner on a small region, and the theorems at them.
use provisioned_throughput.Base.{
  inl, inr, u32_max, ℕ, ◌+◌, ◌≤◌, ◌<◌, ◌≡◌, refl, none, some, List, [], ◌∷◌, String, map, arith,
  w64,
}
use provisioned_throughput.Base.Dict
use provisioned_throughput.Base.Result.{ok}
use provisioned_throughput.Core.{Tier, Shape}
use provisioned_throughput.Capacity.{
  dates_after, cus_in, PoolKey, Costs, CapacityConfig, Schedule, added_by, arrivals, pool_id,
  cost_per_cu,
}
use provisioned_throughput.Base.{All}
use provisioned_throughput.Base.Dict.{Dict}
use provisioned_throughput.Planner.Place.{Decided, place-Decided}
use provisioned_throughput.Planner.Available.{IsPriced, available_exact}
use provisioned_throughput.Planner.Memory.Ledger.{held_at, capacity_of, reserved_of, booked}
use provisioned_throughput.Planner.Memory.Undo.{release-reserve}
use provisioned_throughput.Planner.Memory.Judge.{want}
use provisioned_throughput.Planner.Memory.Drifts.{reconcile_twice}
use provisioned_throughput.Planner.{free_at, PoolView, Claim, from_config, place}
use provisioned_throughput.Planner.Memory.{
  is_at, find_pool, MemoryPlanner, new, reserve, release, reconcile,
}
use provisioned_throughput.Planner.Memory.Sales.{Sale, IsSound, sell_all, never_oversold}

abbrev shape : Shape
shape = record {
  input_p95 = 100;
  input_max = 200;
  output_p95 = 50;
  context_ceiling = 1000;
  cache_hit_ratio = 0;
  burst_factor = 4607182418800017408;
}

-- Two pools for one model: the second is smaller, and grows by a replica at date 10.
abbrev configs : List CapacityConfig
configs =
    record {
      region = "eu";
      model = "m";
      pool = some "big";
      replicas = 3;
      max_context = 4000;
      profile = "p";
    }
    ∷ record {
      region = "eu";
      model = "m";
      pool = some "small";
      replicas = 1;
      max_context = 4000;
      profile = "p";
    }
    ∷ []

abbrev costs : Costs
costs = record {
  per_cu =
      ((("eu", "big"), Tier.standard), 400000) ∷ ((("eu", "small"), Tier.standard), 500000) ∷ [];
}

abbrev schedule : Schedule
schedule = record { added = (("eu", "small"), (10, 1000000) ∷ []) ∷ [] }

abbrev claim : ℕ → Claim
claim n = record { region = "eu"; pool = none; cus = n }

abbrev planner : MemoryPlanner
planner = new configs costs schedule

-- Two CUs fit the smaller pool exactly, so the best fit is there; three fit only the big one.
best_fits :
    (place (claim 2) "m" Tier.standard shape (some 0) (map from_config configs) costs schedule
      ≡ ok (some ("small", 1000000)))
    × (place (claim 3) "m" Tier.standard shape (some 0) (map from_config configs) costs schedule
        ≡ ok (some ("big", 1200000)))
unfolding place from_config pool_id cost_per_cu Dict.get added_by w64 free_at
best_fits = (refl, refl)

place-Decided_example :
    Decided
      (claim 9)
      "m"
      Tier.standard
      shape
      0
      (map from_config configs)
      costs
      schedule
      (place (claim 9) "m" Tier.standard shape (some 0) (map from_config configs) costs schedule)
place-Decided_example =
    place-Decided (claim 9) "m" Tier.standard shape 0 (map from_config configs) costs schedule

costs-IsPriced :
    IsPriced (claim 9) "m" Tier.standard shape 0 (map from_config configs) costs schedule
unfolding from_config pool_id cost_per_cu Dict.get
costs-IsPriced p c (inl e) h = ground arith
costs-IsPriced p c (inr (inl e)) h = ground arith
costs-IsPriced p c (inr (inr i)) h = absurd i

-- Nine CUs fit nowhere; seven are offered, and fit.
available_exact_example :
    (7 < 9)
    × ((pool : String) × (need : ℕ) × (place
            (claim 7)
            "m"
            Tier.standard
            shape
            (some 0)
            (map from_config configs)
            costs
            schedule
          ≡ ok (some (pool, need))))
    × ((n need : ℕ) (pool : String)
        → n ≤ u32_max
        → place (claim n) "m" Tier.standard shape (some 0) (map from_config configs) costs schedule
          ≡ ok (some (pool, need))
        → n ≤ 7)
unfolding place from_config pool_id cost_per_cu cus_in Dict.get added_by dates_after w64 free_at
available_exact_example =
    available_exact (claim 9) "m" Tier.standard shape 0 (map from_config configs) costs schedule
      "eu" "m" Tier.standard 9 7 none costs-IsPriced refl

configs-IsSound : IsSound configs schedule
unfolding from_config find_pool is_at pool_id arrivals Dict.get
configs-IsSound = record { keyed = (refl, (refl, tt)); bounded = λ region pool. ground arith }

abbrev sale : ℕ → ℕ → Sale
sale n at = record {
  model = "m";
  tier = Tier.standard;
  claims = claim n ∷ [];
  shape = shape;
  start = at;
}

-- A later start is sold first, then an earlier one.
abbrev sales : List Sale
sales = sale 4 10 ∷ sale 2 0 ∷ sale 9 0 ∷ []

never_oversold_example :
    let (m', l) = sell_all (new configs costs schedule, []) sales in
    (held_at 5 "eu" "small" l
      ≤ capacity_of "eu" "small" (map from_config configs) + added_by schedule "eu" "small" 5)
    × (reserved_of "eu" "small" m'.pools ≡ booked "eu" "small" l)
never_oversold_example = never_oversold configs costs schedule sales 5 "eu" "small" configs-IsSound

abbrev with_reserved_2 : List PoolView
with_reserved_2 =
    record {
      region = "eu";
      pool = "big";
      model = "m";
      capacity = 3000000;
      reserved = 1200000;
      max_context = 4000;
    }
    ∷ record {
      region = "eu";
      pool = "small";
      model = "m";
      capacity = 1000000;
      reserved = 1000000;
      max_context = 4000;
    }
    ∷ []

abbrev sold : MemoryPlanner
sold = record { pools = with_reserved_2; costs = costs; schedule = schedule; pending = [] }

-- One request with two claims, placed on the two pools; releasing its shares undoes it.
release-reserve_example :
    release sold Tier.standard (
      record { region = "eu"; pool = "small"; cus = 2 }
      ∷ record { region = "eu"; pool = "big"; cus = 3 }
      ∷ [])
    ≡ new configs costs schedule
unfolding new from_config pool_id find_pool is_at reserve place cost_per_cu Dict.get added_by w64
    free_at
release-reserve_example =
    release-reserve (new configs costs schedule) sold "m" Tier.standard (claim 2 ∷ claim 3 ∷ [])
      shape 0 _ (refl, (refl, tt)) (omega arith) refl

abbrev expected : Dict PoolKey ℕ
expected = (("eu", "big"), 1200000) ∷ []

reconcile_twice_example :
    let (_, m') = reconcile sold expected in
    let (_, m'') = reconcile m' expected in All (λ p. p.reserved ≡ want expected p) m''.pools
unfolding find_pool is_at
reconcile_twice_example = reconcile_twice sold expected (refl, (refl, tt))
