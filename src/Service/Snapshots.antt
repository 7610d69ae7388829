-- ===== src/Service/Snapshots.antt =====
-- What a region's gateways are told (`snapshot`, `failover_shares` and `failovers` in
-- crates/pt-control-plane/src/service.rs), with the types of a snapshot
-- (crates/pt-entitlement/src/lib.rs). Times are in milliseconds, and never
-- before the epoch; `generated_at` is the time, not its text.
pub mod Covered
pub mod Closed
pub mod Tests
use Prim.Native.String.{compare}
use Prim.Native.Nat.{Ordering}
use provisioned_throughput.Base.{
  ℕ, ◌+◌, Bool, true, false, not, ◌&&◌, Option, none, some, List, [], ◌∷◌, ◌++◌, String, map,
  filter, find, any, ltb, ◌==◌, string_eq, if◌then◌else◌,
}
use provisioned_throughput.Base.Sort.{sort_by}
use provisioned_throughput.Core.{Tier, Shape}
use provisioned_throughput.Capacity.{CapacityConfig, pool_id}
use provisioned_throughput.Model.{
  RegionShare, Sku, BoundaryPolicy, State, ApiKey, Deployment, current_key, ProvisionedThroughput,
  effective,
}
use provisioned_throughput.Model.Requests.{RegionIncident}
use provisioned_throughput.Failover.{
  RegionConfig, region_config, cus_of, has_region, failover_targets,
}
use provisioned_throughput.Validate.{is_multi_region}
use provisioned_throughput.Store.{MemoryStore, list_live}
use provisioned_throughput.Service.{Settings, M, ◌>>=◌, done, pool_of}
use provisioned_throughput.Service.Queries.{sync_version}
use provisioned_throughput.Service.Lifecycle.{is_running}

-- `RegionFailover`
pub record RegionFailover : Type 0 where
  pub region : String
  pub incident : String
  pub started_at_ms : ℕ
  pub ended_at_ms : Option ℕ
  pub return_ramp_ms : ℕ

-- `FailoverShare`
pub record FailoverShare : Type 0 where
  pub from_region : String
  pub cus : ℕ

-- `ReservationEntitlement`
pub record ReservationEntitlement : Type 0 where
  pub id : String
  pub tenant : String
  pub model : String
  pub cus : ℕ
  pub tier : Tier
  pub profile : String
  pub shape : Shape
  pub failover : List FailoverShare

-- `PreviousKey`
pub record PreviousKey : Type 0 where
  pub api_key_sha256 : String
  pub expires_at_ms : ℕ

-- `DeploymentEntitlement`
pub record DeploymentEntitlement : Type 0 where
  pub id : String
  pub reservation : String
  pub api_key_sha256 : String
  pub previous_keys : List PreviousKey
  pub max_share : Option ℕ
  pub boundary_policy : BoundaryPolicy

-- `Snapshot`
pub record Snapshot : Type 0 where
  pub region : String
  pub version : ℕ
  pub generated_at : ℕ
  pub reservations : List ReservationEntitlement
  pub deployments : List DeploymentEntitlement
  pub failovers : List RegionFailover

-- `ControlPlaneConfig::pool`
unfoldable pub pool_at : List CapacityConfig → String → Option String → Option CapacityConfig
pool_at capacity region none = none
pool_at capacity region (some pool) = find (λ p. p.region == region && pool_id p == pool) capacity

-- `i.ended_at.is_none_or(|e| e + ramp > now)`
unfoldable is_active_incident : ℕ → ℕ → RegionIncident → Bool
is_active_incident now ramp i = elim i.ended_at [ none ↦ true | some e ↦ ltb now (e + ramp) ]

unfoldable region_failover : ℕ → RegionIncident → RegionFailover
region_failover ramp i = record {
  region = i.region;
  incident = i.id;
  started_at_ms = i.started_at;
  ended_at_ms = i.ended_at;
  return_ramp_ms = ramp;
}

unfoldable pub is_earlier_id : String → String → Bool
is_earlier_id a b = elim (compare a b) [ Ordering.lt ↦ true | _ ↦ false ]

-- `failovers`
unfoldable pub failovers : ℕ → ℕ → MemoryStore → List RegionFailover
unfolding is_active_incident region_failover is_earlier_id
failovers now ramp st =
    sort_by (λ a b. is_earlier_id a.incident b.incident)
      (map (region_failover ramp) (filter (is_active_incident now ramp) st.incidents))

-- The two closures of `failover_shares`.
unfoldable pub shares_for : String → List RegionShare → List (String × String) → List FailoverShare
unfolding cus_of
shares_for region regions [] = []
shares_for region regions ((from, to) ∷ rest) =
    let more = shares_for region regions rest in
    if to == region && has_region from regions
    then record { from_region = from; cus = cus_of from regions } ∷ more
    else more

-- `failover_shares`
unfoldable pub failover_shares :
    List RegionConfig → ProvisionedThroughput → String → List FailoverShare
unfolding effective failover_targets shares_for
failover_shares regions pt region =
    if is_multi_region pt.sku
    then shares_for region (effective pt) (failover_targets regions (effective pt))
    else []

-- `filter_map` on the keys: those that expire later
unfoldable pub previous_keys : ℕ → List ApiKey → List PreviousKey
previous_keys now [] = []
previous_keys now (k ∷ rest) =
    let more = previous_keys now rest in
    elim k.expires_at [
      | none ↦ more
      | some e ↦
          if ltb now e then record { api_key_sha256 = k.sha256; expires_at_ms = e } ∷ more else more
    ]

-- The loop over a reservation's deployments.
unfoldable pub deployments_of :
    ℕ → ProvisionedThroughput → List Deployment → List DeploymentEntitlement
unfolding current_key previous_keys
deployments_of now pt [] = []
deployments_of now pt (d ∷ rest) =
    let more = deployments_of now pt rest in
    elim (current_key d) [
      | none ↦ more
      | some k ↦
          record {
            id = d.id;
            reservation = pt.id;
            api_key_sha256 = k.sha256;
            previous_keys = previous_keys now d.api_keys;
            max_share = d.max_share;
            boundary_policy = pt.boundary_policy;
          }
          ∷ more
    ]

unfoldable pub reservation_of :
    List RegionConfig
    → ProvisionedThroughput
    → String
    → RegionShare
    → CapacityConfig
    → ReservationEntitlement
unfolding failover_shares
reservation_of regions pt region share pool = record {
  id = pt.id;
  tenant = pt.tenant;
  model = pt.model;
  cus = share.cus;
  tier = pt.tier;
  profile = pool.profile;
  shape = pt.shape;
  failover = failover_shares regions pt region;
}

abbrev pub Entries : Type 0
Entries = List ReservationEntitlement × List DeploymentEntitlement

-- The loop of `snapshot`; a reservation without a pool in the region is only logged.
unfoldable pub entries : Settings → ℕ → String → List ProvisionedThroughput → Entries
unfolding effective pool_of pool_at reservation_of deployments_of
entries c now region [] = ([], [])
entries c now region (pt ∷ rest) =
    let (rs, ds) = entries c now region rest in
    elim (find (λ r. r.region == region) (effective pt)) [
      | none ↦ (rs, ds)
      | some share ↦ elim (pool_at c.offer.capacity region (pool_of c pt region)) [
        | none ↦ (rs, ds)
        | some pool ↦ (
          reservation_of c.offer.regions pt region share pool ∷ rs,
          deployments_of now pt pt.deployments ++ ds,
        )
      ]
    ]

-- `snapshot`; `ramp` is the return ramp.
unfoldable pub snapshot : Settings → ℕ → ℕ → String → M (Option Snapshot)
unfolding sync_version list_live is_earlier_id failovers entries
snapshot c ramp now region s =
    if any (λ r. r.name == region) c.offer.regions
    then (do
      version ← sync_version
      λ s.
          let live =
            sort_by (λ a b. is_earlier_id a.id b.id)
              (filter (λ pt. is_running pt.state) (list_live s.store)) in
          let (reservations, deployments) = entries c now region live in
          done
            (some (record {
              region = region;
              version = version;
              generated_at = now;
              reservations = reservations;
              deployments = deployments;
              failovers = failovers now ramp s.store;
            }))
            s)
        s
    else done none s
