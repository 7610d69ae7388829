-- ===== src/Service/Create.antt =====
-- Creation of a reservation (`create` in crates/pt-control-plane/src/service.rs): a repeated request is
-- answered from the record of its idempotency key; a new one is checked, placed and stored.
pub mod Replay
pub mod Tests
use mathlib.Core.Option
use provisioned_throughput.Base.{
  ℕ, ◌+◌, ◌-◌, max, Bool, true, false, Option, none, some, List, [], ◌∷◌, ◌++◌, String, ◌⊎◌, inl,
  inr, leb, ltb, ◌==◌, string_eq, if◌then◌else◌,
}
use provisioned_throughput.Base.Result.{Result, ok, err, panicked}
use provisioned_throughput.Core.{months}
use provisioned_throughput.Capacity.{PoolShare}
use provisioned_throughput.Planner.{PlanError}
use provisioned_throughput.Model.{
  RegionShare, total_cus, State, EventKind, created, activated, Event, Deployment,
  ProvisionedThroughput,
}
use provisioned_throughput.Model.Requests.{CreateRequest}
use provisioned_throughput.Failover.{headroom, footprint}
use provisioned_throughput.Store
use provisioned_throughput.Store.{
  MemoryStore, StoreError, already_exists, IdempotencyRecord, idempotency_get, idempotency_put,
}
use provisioned_throughput.Errors.{ServiceError, validation, conflict, capacity, from_store}
use provisioned_throughput.Validate
use provisioned_throughput.Service.{
  Settings, Service, M, then_do, ◌>>=◌, ◌>>◌, done, fail, check, lift, guard, plan_reserve,
  plan_release, unplaced, record_placed, endpoints, ensure_name_free, get, bump, bump_now,
}
use provisioned_throughput.Service.Keys.{Fresh, issue_key}
use provisioned_throughput.Service.Holds.{sales_open}

-- `CreateOutcome`
pub record CreateOutcome : Type 0 where
  pub resource : ProvisionedThroughput
  pub api_key : Option String
  pub replayed : Bool

-- What a creation draws at random: the ids of the reservation and of its deployment, and the key with
-- its secret.
pub record Draw : Type 0 where
  pub id : String
  pub deployment : String
  pub key : Fresh
  pub secret : String

abbrev start_skew : ℕ
start_skew = 300000

abbrev max_start_ahead : ℕ
max_start_ahead = 7776000000

-- The `match` on `start_at`
unfoldable pub start_of : ℕ → Option ℕ → Result ServiceError ℕ
start_of now none = ok now
start_of now (some t) =
    if ltb (t + start_skew) now
    then err (validation "start_at")
    else if ltb (now + max_start_ahead) t
    then err (validation "start_at")
    else ok (max t now)

-- The new reservation, before its placements.
unfoldable pub new_reservation :
    Settings → Draw → ℕ → String → ℕ → List RegionShare → CreateRequest → ProvisionedThroughput
unfolding total_cus months endpoints issue_key
new_reservation c draw now tenant start spare req =
    let cus = total_cus req.regions in
    let price = c.price req.tier req.isolation req.sku cus in
    let is_started = leb start now in
    let first : Event = record { at = now; kind = created cus price.monthly } in
    let begun : Event = record {
      at = now;
      kind = activated (some cus) (some req.tier) (some price.monthly);
    } in
    record {
      id = draw.id;
      tenant = tenant;
      name = req.name;
      model = req.model;
      tier = req.tier;
      regions = req.regions;
      cus = cus;
      sku = req.sku;
      isolation = req.isolation;
      shape = req.shape;
      boundary_policy = req.boundary_policy;
      term_months = req.term_months;
      term_start = start;
      term_end = c.add_months start (months req.term_months);
      auto_renew = req.auto_renew;
      state = if is_started then State.active else State.scheduled;
      pending_changes = none;
      endpoints = endpoints c req.regions;
      price = price;
      failover_headroom = spare;
      rebalance = req.rebalance;
      effective_regions = [];
      placements = [];
      deployments =
          record {
            id = draw.deployment;
            name = "default";
            max_share = none;
            api_keys = issue_key draw.key now ∷ [];
            created_at = now;
          }
          ∷ [];
      version = 1;
      created_at = now;
      updated_at = now;
      events = if is_started then first ∷ begun ∷ [] else first ∷ [];
    }

-- The error of `insert`, and of `reserve`
abbrev create_error : StoreError → ServiceError
create_error (already_exists id) = conflict "name_taken"
create_error e = from_store e

abbrev pub or_capacity : {A : Type 0} → PlanError ⊎ A → M A
or_capacity (inl e) = fail (capacity e)
or_capacity (inr a) = done a

-- `insert`, and the release of the capacity when it fails.
unfoldable pub after_insert :
    ProvisionedThroughput
    → List PoolShare
    → Service
    → Result StoreError (Unit {0}) × MemoryStore
    → Result ServiceError (Unit {0}) × Service
unfolding plan_release
after_insert pt placed s (ok u, store) = (ok tt, record s { store = store })
after_insert pt placed s (err e, store) =
    (err (create_error e), (plan_release pt.tier placed (record s { store = store })).1)
after_insert pt placed s (panicked, store) = (panicked, record s { store = store })

unfoldable pub insert_or_release : ProvisionedThroughput → List PoolShare → M (Unit {0})
unfolding after_insert Store.insert
insert_or_release pt placed s = after_insert pt placed s (Store.insert pt s.store)

-- `idempotency_put`, whose failure is only logged.
unfoldable pub remember : String → Option String → String → String → M (Unit {0})
unfolding idempotency_put
remember tenant none id fingerprint s = (ok tt, s)
remember tenant (some key) id fingerprint s = (
  ok tt,
  record s {
    store =
        (idempotency_put tenant key (record { resource_id = id; fingerprint = fingerprint })
          s.store).1;
  },
)

-- The answer to a request whose key is recorded.
unfoldable pub replay : String → String → IdempotencyRecord → M CreateOutcome
unfolding get
replay tenant fingerprint r = do
  guard (r.fingerprint == fingerprint) (conflict "idempotency_key_reused")
  resource ← get tenant r.resource_id
  done (record { resource = resource; api_key = none; replayed = true })

-- The end of `create`: the reservation is stored and published.
unfoldable pub store_new :
    ℕ
    → String
    → Option String
    → String
    → String
    → List PoolShare
    → ProvisionedThroughput
    → M CreateOutcome
unfolding insert_or_release remember bump
store_new now tenant key fingerprint secret placed pt = do
  insert_or_release pt placed
  remember tenant key pt.id fingerprint
  bump_now now
  done (record { resource = pt; api_key = some secret; replayed = false })

-- The part of `create` for a request that is not recorded.
unfoldable pub create_new :
    Settings → Draw → ℕ → String → Option String → String → CreateRequest → M CreateOutcome
unfolding Validate.create sales_open start_of ensure_name_free headroom footprint unplaced
    plan_reserve new_reservation record_placed store_new
create_new c draw now tenant key fingerprint req = do
  check (Validate.create c.offer req)
  sales_open now req.model req.regions
  start ← lift (start_of now req.start_at)
  ensure_name_free c tenant req.name none
  let spare = headroom c.offer.regions req.sku req.regions
  answer ← plan_reserve req.model req.tier (unplaced (footprint req.regions spare)) req.shape start
  placed ← or_capacity answer
  store_new now tenant key fingerprint draw.secret placed
      (record_placed placed (new_reservation c draw now tenant start spare req))

unfoldable pub recorded : String → Option String → MemoryStore → Option IdempotencyRecord
unfolding idempotency_get
recorded tenant none store = none
recorded tenant (some key) store = idempotency_get tenant key store

-- `create`; `fingerprint` is the hash of the request.
unfoldable pub create :
    Settings → Draw → ℕ → String → Option String → String → CreateRequest → M CreateOutcome
unfolding recorded replay create_new
create c draw now tenant key fingerprint req s = elim (recorded tenant key s.store) [
  | some r ↦ replay tenant fingerprint r s
  | none ↦ create_new c draw now tenant key fingerprint req s
]
