-- ===== src/Service.antt =====
-- The reservation service (crates/pt-control-plane/src/service.rs) over the store and the planner in
-- memory. An operation is a function on the service's state that returns a result; what it changed
-- before an error stays changed. It reads the clock once, as `now`, in milliseconds. The price, the
-- calendar, the address of a region and the test of a float are parameters (`Settings`); new ids and
-- secrets are arguments. Log lines are left out, and so are the publishing of snapshots to gateways
-- and the signer.
pub mod Keys
pub mod Deployments
pub mod Runs
pub mod Life
pub mod Delete
pub mod Create
pub mod Lifecycle
pub mod Holds
pub mod Incidents
pub mod Queries
pub mod Moves
pub mod Update
pub mod Snapshots
pub mod Sample
pub mod Tests
use mathlib.Core.Option
use Prim.Native.String.{compare}
use Prim.Native.Nat.{Ordering}
use provisioned_throughput.Base.{
  ℕ, ◌+◌, max, Bool, true, false, not, ◌&&◌, Option, none, some, List, [], ◌∷◌, ◌++◌, String, map,
  filter, find, any, ◌==◌, string_eq, nat_eq, if◌then◌else◌, w64, ◌⊎◌, inl, inr,
}
use provisioned_throughput.Base.Result.{Result, ok, err, panicked}
use provisioned_throughput.Core.{Tier, Shape}
use provisioned_throughput.Capacity.{PoolShare, capacity_for, pool_id}
use provisioned_throughput.Planner.{Claim, PlanError}
use provisioned_throughput.Planner.Memory.{MemoryPlanner, reserve, release}
use provisioned_throughput.Model.{
  RegionShare, Sku, PoolIsolation, Price, Endpoint, EventKind, Placement, ProvisionedThroughput,
  effective, is_live,
}
use provisioned_throughput.Failover.{footprint, has_region}
use provisioned_throughput.Base.Sort.{sort_by}
use provisioned_throughput.Store.{MemoryStore, StoreError, update, bump_version}
use provisioned_throughput.Store
use provisioned_throughput.Errors.{ServiceError, not_found, conflict, precondition_failed, of_store}
use provisioned_throughput.Validate.{Offer}

-- What the service reads of its configuration, and what other code computes for it: `latest` is the
-- last timestamp there is, `reason` the words of a planner's error, and `outage` those of an automatic
-- incident.
pub record Settings : Type 0 where
  pub offer : Offer
  pub region_url : String → String
  pub price : Tier → PoolIsolation → Sku → ℕ → Price
  pub add_months : ℕ → ℕ → ℕ
  pub is_share : ℕ → Bool
  pub auto_declare : Bool
  pub heartbeat_timeout : ℕ
  pub recovery : ℕ
  pub latest : ℕ
  pub reason : PlanError → String
  pub outage : String → String

-- `Service`, less its configuration.
pub record Service : Type 0 where
  pub store : MemoryStore
  pub planner : MemoryPlanner
  pub changes : ℕ

-- An operation.
abbrev pub M : Type 0 → Type 0
M A = Service → Result ServiceError A × Service

abbrev pub then_do :
    {A B : Type 0} → Result ServiceError A × Service → (A → M B) → Result ServiceError B × Service
then_do (ok a, s) f = f a s
then_do (err e, s) f = (err e, s)
then_do (panicked, s) f = (panicked, s)

infixl 5 ◌>>=◌ ◌>>◌
abbrev pub ◌>>=◌ : {A B : Type 0} → M A → (A → M B) → M B
◌>>=◌ m f s = then_do (m s) f

abbrev pub ◌>>◌ : {B : Type 0} → M (Unit {0}) → M B → M B
◌>>◌ m k s = then_do (m s) (λ _. k)

abbrev pub done : {A : Type 0} → A → M A
done a s = (ok a, s)

abbrev pub fail : {A : Type 0} → ServiceError → M A
fail e s = (err e, s)

abbrev pub check : Result ServiceError (Unit {0}) → M (Unit {0})
check r s = (r, s)

abbrev pub lift : {A : Type 0} → Result ServiceError A → M A
lift r s = (r, s)

abbrev pub guard : Bool → ServiceError → M (Unit {0})
guard true e s = (ok tt, s)
guard false e s = (err e, s)

-- The planner's `reserve` and `release`, with a failure to reserve as a value.
abbrev pub answered : {A : Type 0} → Result PlanError A → M (PlanError ⊎ A)
answered (ok a) s = (ok (inr a), s)
answered (err e) s = (ok (inl e), s)
answered panicked s = (panicked, s)

unfoldable pub plan_reserve :
    String → Tier → List Claim → Shape → ℕ → M (PlanError ⊎ List PoolShare)
plan_reserve model tier claims shape at s =
    let (answer, planner) = reserve s.planner model tier claims shape at in
    answered answer (record s { planner = planner })

unfoldable pub plan_release : Tier → List PoolShare → M (Unit {0})
plan_release tier shares s = (ok tt, record s { planner = release s.planner tier shares })

-- `pt.events.push(Event { at, kind })`
abbrev pub push_event : ℕ → EventKind → ProvisionedThroughput → ProvisionedThroughput
push_event at kind pt = record pt { events = pt.events ++ record { at = at; kind = kind } ∷ [] }

-- `held`
unfoldable pub held : ProvisionedThroughput → List RegionShare
held pt = footprint (effective pt) pt.failover_headroom

-- `as_claims` and `unplaced`
unfoldable pub as_claims : List PoolShare → List Claim
as_claims shares = map (λ s. record { region = s.region; pool = some s.pool; cus = s.cus }) shares

unfoldable pub unplaced : List RegionShare → List Claim
unplaced shares = map (λ s. record { region = s.region; pool = none; cus = s.cus }) shares

-- `record`
unfoldable set_placement : PoolShare → List Placement → List Placement
set_placement s [] = record { region = s.region; pool = s.pool } ∷ []
set_placement s (p ∷ rest) =
    let more = set_placement s rest in
    if p.region == s.region then record p { pool = s.pool } ∷ rest else p ∷ more

unfoldable set_placements : List PoolShare → List Placement → List Placement
unfolding set_placement
set_placements [] placements = placements
set_placements (s ∷ rest) placements = set_placements rest (set_placement s placements)

unfoldable pub is_earlier_region : Placement → Placement → Bool
is_earlier_region a b = elim (compare a.region b.region) [ Ordering.lt ↦ true | _ ↦ false ]

unfoldable pub record_placed : List PoolShare → ProvisionedThroughput → ProvisionedThroughput
unfolding set_placements
record_placed placed pt = record pt {
  placements = sort_by is_earlier_region (set_placements placed pt.placements);
}

-- `tidy_placements`
unfoldable pub tidy_placements : ProvisionedThroughput → ProvisionedThroughput
unfolding held
tidy_placements pt = record pt {
  placements = filter (λ p. has_region p.region (held pt)) pt.placements;
}

-- `check_version`
unfoldable pub check_version : ProvisionedThroughput → Option ℕ → Result ServiceError (Unit {0})
check_version pt none = ok tt
check_version pt (some v) =
    if v == pt.version then ok tt else err (precondition_failed v pt.version)

-- `get`
unfoldable pub get : String → String → M ProvisionedThroughput
get tenant id s = elim (Store.get tenant id s.store) [
  | none ↦ (err not_found, s)
  | some pt ↦ (ok pt, s)
]

-- `load_live`
unfoldable pub load_live : String → String → Option ℕ → M ProvisionedThroughput
unfolding get check_version
load_live tenant id if_match = do
  pt ← get tenant id
  check (check_version pt if_match)
  guard (is_live pt.state) (conflict "inactive")
  done pt

-- `bump`
unfoldable pub bump : ℕ → Service → Service
bump now s =
    let (v, store) = bump_version now s.store in
    record s { store = store; changes = max s.changes v }

-- `self.store.update(…).await?`
unfoldable pub after_update :
    Service → Result StoreError (Unit {0}) × MemoryStore → Result ServiceError (Unit {0}) × Service
after_update s (answer, store) = (of_store answer, record s { store = store })

unfoldable pub write : ℕ → ProvisionedThroughput → M (Unit {0})
unfolding after_update
write expected pt s = after_update s (update pt expected s.store)

abbrev pub bump_now : ℕ → M (Unit {0})
bump_now now s = (ok tt, bump now s)

-- The reservation as it is saved: `pt.version += 1; pt.updated_at = now`.
abbrev pub stamp : ℕ → ProvisionedThroughput → ProvisionedThroughput
stamp now pt = record pt { version = w64 (pt.version + 1); updated_at = now }

-- `persist`
unfoldable pub persist : ℕ → ℕ → ProvisionedThroughput → M ProvisionedThroughput
unfolding tidy_placements write bump
persist now expected pt = do
  let saved = stamp now (tidy_placements pt)
  write expected saved
  bump_now now
  done saved

module _ (c : Settings) where
  -- `pool_of`
  unfoldable pub pool_of : ProvisionedThroughput → String → Option String
  pool_of pt region = elim (find (λ p. p.region == region) pt.placements) [
    | some p ↦ some p.pool
    | none ↦ Option.map pool_id (capacity_for c.offer.capacity region pt.model)
  ]

  -- `on_pools`
  unfoldable pub on_pools : ProvisionedThroughput → List RegionShare → List PoolShare
  unfolding pool_of
  on_pools pt [] = []
  on_pools pt (s ∷ rest) =
      let more = on_pools pt rest in
      elim (pool_of pt s.region) [
        | none ↦ more
        | some pool ↦ record { region = s.region; pool = pool; cus = s.cus } ∷ more
      ]

  -- `pooled`
  unfoldable pub pooled : ProvisionedThroughput → List PoolShare
  unfolding on_pools held
  pooled pt = on_pools pt (held pt)

  -- `claims`
  unfoldable pub claims : ProvisionedThroughput → List RegionShare → List Claim
  unfolding pool_of held
  claims pt shares =
      map
        (λ s. record {
          region = s.region;
          pool = if has_region s.region (held pt) then pool_of pt s.region else none;
          cus = s.cus;
        })
        shares

  -- `endpoints`
  unfoldable pub endpoints : List RegionShare → List Endpoint
  endpoints regions = map (λ r. record { region = r.region; url = c.region_url r.region }) regions

  -- `ensure_name_free`
  unfoldable pub ensure_name_free : String → String → Option String → M (Unit {0})
  ensure_name_free tenant name except s =
      guard
        (not (
          any
            (λ pt.
              is_live pt.state
              && (pt.name == name && not (elim except [ none ↦ false | some id ↦ pt.id == id ])))
            (Store.list tenant s.store)))
        (conflict "name_taken") s
