-- ===== src/Model.antt =====
-- The reservation and what surrounds it (crates/pt-control-plane/src/model.rs): the states of its
-- life, its events, keys and deployments, the requests that change it, incidents and heartbeats.
-- Timestamps are numbers. A float (a deployment's cap, the figures of a boundary policy) stands as
-- its 64 bits: the code here carries it along, and where it tests one the test is a parameter.
pub mod Requests
use provisioned_throughput.Base.{
  ℕ, ◌+◌, Bool, true, false, Option, none, some, List, [], ◌∷◌, String, map, sum, find,
  if◌then◌else◌,
}
use provisioned_throughput.Base.Words.{w32}
use provisioned_throughput.Core.{Tier, Shape, TermMonths}

-- `RegionShare`
pub record RegionShare : Type 0 where
  pub region : String
  pub cus : ℕ

-- `total_cus`
unfoldable pub total_cus : List RegionShare → ℕ
total_cus regions = w32 (sum (map (λ r. r.cus) regions))

-- `Sku`
pub data Sku : Type 0 where
  regional multi_region : Sku

-- `State`
pub data State : Type 0 where
  scheduled active pending_cancellation ended cancelled : State

-- `State::is_live`
unfoldable pub is_live : State → Bool
is_live State.scheduled = true
is_live State.active = true
is_live State.pending_cancellation = true
is_live State.ended = false
is_live State.cancelled = false

-- `PoolIsolation` (crates/pt-core/src/tier.rs)
pub data PoolIsolation : Type 0 where
  shared dedicated strict_dedicated : PoolIsolation

-- `BurstPolicy`, `QueuePolicy` and `BoundaryPolicy` (crates/pt-admission/src/policy.rs)
pub record BurstPolicy : Type 0 where
  pub max_credit_seconds : ℕ
  pub max_rate_multiple : ℕ
  pub continuation_reserve : ℕ

pub record QueuePolicy : Type 0 where
  pub deadline_ms : ℕ
  pub max_depth_wu_seconds : ℕ

pub record BoundaryPolicy : Type 0 where
  pub burst : Option BurstPolicy
  pub queue : Option QueuePolicy
  pub spillover : Bool

-- `PendingChanges`
pub record PendingChanges : Type 0 where
  pub tier : Option Tier
  pub regions : Option (List RegionShare)
  pub effective_at : ℕ

-- `Price`
pub record Price : Type 0 where
  pub currency : String
  pub per_cu_monthly : ℕ
  pub monthly : ℕ

-- `Endpoint`
pub record Endpoint : Type 0 where
  pub region : String
  pub url : String

-- `EventKind`
pub data EventKind : Type 0 where
  created : (cus monthly : ℕ) → EventKind
  activated : (cus : Option ℕ) (tier : Option Tier) (monthly : Option ℕ) → EventKind
  capacity_increased :
      (region : String) (from to prorated_charge : ℕ) (cus monthly : Option ℕ) → EventKind
  change_scheduled : (tier : Option Tier) (regions : Option (List RegionShare)) → EventKind
  change_applied : (tier : Tier) (regions : List RegionShare) (monthly : Option ℕ) → EventKind
  scheduled_change_failed : (reason : String) → EventKind
  shape_updated boundary_policy_updated : EventKind
  renamed : (name : String) → EventKind
  auto_renew_changed : (auto_renew : Bool) → EventKind
  split_rebalanced : (from to : List RegionShare) → EventKind
  rebalance_changed : (rebalance : Bool) → EventKind
  relocated : (region : String) → EventKind
  cancellation_requested : (effective_at : ℕ) → EventKind
  cancellation_withdrawn : EventKind
  key_rotated :
      (deployment new_key previous_key : String) (previous_expires_at : Option ℕ) → EventKind
  key_revoked key_expired : (deployment key : String) → EventKind
  deployment_created deployment_updated :
      (deployment name : String) (max_share : Option ℕ) → EventKind
  deployment_deleted : (deployment : String) → EventKind
  renewed : (term_start term_end monthly : ℕ) → EventKind
  ended cancelled : EventKind

-- `Event`
pub record Event : Type 0 where
  pub at : ℕ
  pub kind : EventKind

-- `ApiKey`
pub record ApiKey : Type 0 where
  pub id : String
  pub prefix : String
  pub sha256 : String
  pub created_at : ℕ
  pub expires_at : Option ℕ

-- `ApiKey::is_current`
unfoldable pub is_current : ApiKey → Bool
is_current k = elim k.expires_at [ none ↦ true | some t ↦ false ]

-- `Deployment`
pub record Deployment : Type 0 where
  pub id : String
  pub name : String
  pub max_share : Option ℕ
  pub api_keys : List ApiKey
  pub created_at : ℕ

-- `Deployment::current_key`
unfoldable pub current_key : Deployment → Option ApiKey
unfolding is_current
current_key d = find is_current d.api_keys

-- `Placement`
pub record Placement : Type 0 where
  pub region : String
  pub pool : String

-- `ProvisionedThroughput`
pub record ProvisionedThroughput : Type 0 where
  pub id : String
  pub tenant : String
  pub name : String
  pub model : String
  pub tier : Tier
  pub regions : List RegionShare
  pub cus : ℕ
  pub sku : Sku
  pub isolation : PoolIsolation
  pub shape : Shape
  pub boundary_policy : BoundaryPolicy
  pub term_months : TermMonths
  pub term_start : ℕ
  pub term_end : ℕ
  pub auto_renew : Bool
  pub state : State
  pub pending_changes : Option PendingChanges
  pub endpoints : List Endpoint
  pub price : Price
  pub failover_headroom : List RegionShare
  pub rebalance : Bool
  pub effective_regions : List RegionShare
  pub placements : List Placement
  pub deployments : List Deployment
  pub version : ℕ
  pub created_at : ℕ
  pub updated_at : ℕ
  pub events : List Event

-- `ProvisionedThroughput::effective`
unfoldable pub effective : ProvisionedThroughput → List RegionShare
effective pt = elim pt.effective_regions [ [] ↦ pt.regions | x ∷ xs ↦ x ∷ xs ]
