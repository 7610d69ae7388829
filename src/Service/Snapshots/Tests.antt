-- ===== src/Service/Snapshots/Tests.antt =====
-- Snapshots of a small service.
use provisioned_throughput.Base.{◌≤◌, refl, none, [], ◌∷◌, All, string_eq}
use provisioned_throughput.Base.Sort.{sort_by}
use provisioned_throughput.Capacity.{pool_id}
use provisioned_throughput.Model.{
  Sku, ProvisionedThroughput, effective, is_live, current_key, is_current,
}
use provisioned_throughput.Failover.{RegionConfig, cus_of, headroom}
use provisioned_throughput.Service.{Settings, pool_of}
use provisioned_throughput.Service.Queries
use provisioned_throughput.Service.Sample.{sample, running}
use provisioned_throughput.Service.Moves.Tests.{placed}
use provisioned_throughput.Service.Snapshots.{Snapshot, failover_shares, snapshot}
use provisioned_throughput.Service.Snapshots.Covered.{failover_shares-covered}
use provisioned_throughput.Service.Snapshots.Closed.{IsRunning, IsServed, snapshot-IsClosed}

abbrev region : RegionConfig
region = record { name = "eu"; token = "t"; pair = none; residency = none }

abbrev spread : ProvisionedThroughput
spread = record sample {
  sku = Sku.multi_region;
  regions = record { region = "eu"; cus = 3 } ∷ record { region = "us"; cus = 2 } ∷ [];
}

failover_shares-covered_example :
    All
      (λ f. f.cus ≤ cus_of "us" (headroom (region ∷ []) Sku.multi_region (effective spread)))
      (failover_shares (region ∷ []) spread "us")
failover_shares-covered_example = failover_shares-covered (region ∷ []) spread "us"

abbrev known : Settings
known = record placed { offer = record placed.offer { regions = region ∷ [] } }

abbrev told : Snapshot
told = record {
  region = "eu";
  version = 7;
  generated_at = 50;
  reservations =
      record {
        id = "r1";
        tenant = "acme";
        model = "m";
        cus = 3;
        tier = sample.tier;
        profile = "fast";
        shape = sample.shape;
        failover = [];
      }
      ∷ [];
  deployments =
      record {
        id = "d1";
        reservation = "r1";
        api_key_sha256 = "b";
        previous_keys = record { api_key_sha256 = "a"; expires_at_ms = 90 } ∷ [];
        max_share = none;
        boundary_policy = sample.boundary_policy;
      }
      ∷ [];
  failovers = [];
}

snapshot-IsClosed_example :
    All (IsRunning running) told.reservations × All (IsServed 50 told.reservations) told.deployments
unfolding snapshot Queries.sync_version is_live effective pool_of pool_id current_key is_current
    sort_by
snapshot-IsClosed_example = snapshot-IsClosed known 60 50 "eu" running running told refl
