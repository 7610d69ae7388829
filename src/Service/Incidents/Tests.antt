-- ===== src/Service/Incidents/Tests.antt =====
-- The failover check where one of two regions has stopped.
use provisioned_throughput.Base.{ℕ, true, none, some, [], ◌∷◌, String, ◌≡◌, refl}
use provisioned_throughput.Model.Requests.{IncidentSource}
use provisioned_throughput.Failover.{GatewayHeartbeat, RegionConfig}
use provisioned_throughput.Store
use provisioned_throughput.Store.{MemoryStore}
use provisioned_throughput.Service.{Settings, Service}
use provisioned_throughput.Service.Sample
use provisioned_throughput.Service.Runs.{Leaves}
use provisioned_throughput.Service.Incidents.{region_statuses, run_failover}
use provisioned_throughput.Service.Incidents.Open.{IsQuiet}
use provisioned_throughput.Service.Incidents.Failover.{AreLost, run_failover-IsQuiet}

abbrev region : String → RegionConfig
region name = record { name = name; token = name; pair = none; residency = none }

abbrev settings : Settings
settings = record Sample.settings {
  offer = record Sample.settings.offer { regions = region "eu" ∷ region "us" ∷ [] };
}

-- The gateway of `eu` last served at 20, and that of `us` has served since 10.
abbrev gateway : String → ℕ → ℕ → GatewayHeartbeat
gateway name since last = record {
  region = name;
  gateway_id = name;
  last_seen = last;
  serving = true;
  key_id = none;
  last_serving_at = some last;
  serving_since = some since;
}

abbrev stored : MemoryStore
stored = record Sample.stored {
  heartbeats = (("eu", "eu"), gateway "eu" 10 20) ∷ (("us", "us"), gateway "us" 10 49) ∷ [];
}

abbrev running : Service
running = record Sample.running { store = stored }

run_failover-IsQuiet_example :
    Leaves IsQuiet
      (AreLost settings 50 (λ r. r) (region_statuses settings 50 stored))
      (run_failover settings 50 (λ r. r) running)
run_failover-IsQuiet_example = run_failover-IsQuiet settings 50 (λ r. r) running tt

-- It declares an incident in `eu`.
declared_eu :
    (run_failover settings 50 (λ r. r) running).1.store.incidents
    ≡ record {
      id = "eu";
      region = "eu";
      started_at = 20;
      ended_at = none;
      description = "no gateway serves";
      declared_at = 50;
      source = IncidentSource.automatic;
    }
      ∷ []
unfolding run_failover Store.bump_version
declared_eu = refl
