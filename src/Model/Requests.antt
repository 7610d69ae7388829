-- ===== src/Model/Requests.antt =====
-- The bodies of requests, incidents and heartbeats (crates/pt-control-plane/src/model.rs).
use provisioned_throughput.Base.{ℕ, Bool, Option, List, String}
use provisioned_throughput.Core.{Tier, Shape, TermMonths}
use provisioned_throughput.Model.{RegionShare, Sku, PoolIsolation, BoundaryPolicy}

-- `CreateRequest`
pub record CreateRequest : Type 0 where
  pub name : String
  pub model : String
  pub tier : Tier
  pub regions : List RegionShare
  pub sku : Sku
  pub isolation : PoolIsolation
  pub term_months : TermMonths
  pub start_at : Option ℕ
  pub auto_renew : Bool
  pub shape : Shape
  pub boundary_policy : BoundaryPolicy
  pub rebalance : Bool

-- `UpdateRequest`
pub record UpdateRequest : Type 0 where
  pub name : Option String
  pub tier : Option Tier
  pub regions : Option (List RegionShare)
  pub shape : Option Shape
  pub boundary_policy : Option BoundaryPolicy
  pub auto_renew : Option Bool
  pub rebalance : Option Bool

-- `CreateDeploymentRequest`
pub record CreateDeploymentRequest : Type 0 where
  pub name : String
  pub max_share : Option ℕ

-- `UpdateDeploymentRequest`: `none` is an absent field, and `some none` an explicit null.
pub record UpdateDeploymentRequest : Type 0 where
  pub name : Option String
  pub max_share : Option (Option ℕ)

-- `RotateKeyRequest`
pub record RotateKeyRequest : Type 0 where
  pub grace_minutes : Option ℕ

-- `IncidentSource`
pub data IncidentSource : Type 0 where
  operator automatic : IncidentSource

-- `RegionIncident`
pub record RegionIncident : Type 0 where
  pub id : String
  pub region : String
  pub started_at : ℕ
  pub ended_at : Option ℕ
  pub description : String
  pub declared_at : ℕ
  pub source : IncidentSource

-- `DeclareIncident`
pub record DeclareIncident : Type 0 where
  pub region : String
  pub started_at : Option ℕ
  pub description : String

-- `ResolveIncident`
pub record ResolveIncident : Type 0 where
  pub ended_at : Option ℕ

-- `Heartbeat`
pub record Heartbeat : Type 0 where
  pub gateway_id : String
  pub serving : Bool
  pub snapshot_version : ℕ
  pub key_id : Option String
