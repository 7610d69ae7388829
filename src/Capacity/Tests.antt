-- ===== src/Capacity/Tests.antt =====
-- A schedule that grows.
use provisioned_throughput.Base.{ℕ, ◌≡◌, List, [], ◌∷◌, String, none, some, string_eq, pair_eq}
use provisioned_throughput.Capacity.{
  Schedule, CapacityConfig, CapacityChange, arrivals, schedule_from_config,
}
use provisioned_throughput.Capacity.Arrivals.{IsSorted, arrived}
use provisioned_throughput.Capacity.Configured.{configured, schedule_from_config-Arrives}

abbrev region : String
region = "eu"

abbrev pool : String
pool = "big"

abbrev schedule : Schedule
schedule = record { added = ((region, pool), (20, 3000000) ∷ []) ∷ [] }

abbrev configs : List CapacityConfig
configs =
    record {
      region = region;
      model = "m";
      pool = some pool;
      replicas = 3;
      max_context = 4000;
      profile = "p";
    }
    ∷ []

abbrev later : ℕ → CapacityChange
later from = record { region = region; model = "m"; pool = none; from = from; add_replicas = 1 }

-- Two changes that name no pool, listed with the later first.
schedule_from_config-Arrives_example :
    IsSorted (arrivals (schedule_from_config configs (later 30 ∷ later 10 ∷ [])) region pool)
    × (arrived 20 (arrivals (schedule_from_config configs (later 30 ∷ later 10 ∷ [])) region pool)
        ≡ configured configs region pool 20 (later 30 ∷ later 10 ∷ []))
schedule_from_config-Arrives_example =
    schedule_from_config-Arrives configs (later 30 ∷ later 10 ∷ []) region pool 20
