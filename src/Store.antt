-- ===== src/Store.antt =====
-- The store in memory (crates/pt-control-plane/src/store.rs): reservations with a version each,
-- idempotency keys, incidents, invoices, the shared entitlement version, heartbeats, named leases,
-- sales holds and component reports. Each method holds the lock from its first read to its last
-- write, so it is one step on the state. A `HashMap` is an association list; an invoice stands
-- without its amounts, and a report without its body, which the store only carries.
pub mod Writes
pub mod Leases
pub mod Incidents
pub mod Tests
use Prim.Native.String.{compare}
use Prim.Native.Nat.{Ordering}
use mathlib.Core.Option
use provisioned_throughput.Base.{
  ℕ, ◌+◌, ◌-◌, max, Bool, true, false, not, ◌&&◌, ◌||◌, Option, none, some, List, [], ◌∷◌, String,
  map, filter, find, any, length, leb, ltb, ◌==◌, string_eq, nat_eq, pair_eq, if◌then◌else◌, w64,
}
use provisioned_throughput.Base.Sort.{sort_by}
use provisioned_throughput.Base.Dict
use provisioned_throughput.Base.Dict.{Dict}
use provisioned_throughput.Base.Result.{Result, ok, err}
use provisioned_throughput.Model.{ProvisionedThroughput, is_live}
use provisioned_throughput.Model.Requests.{RegionIncident, Heartbeat}
use provisioned_throughput.Failover.{GatewayHeartbeat, next_heartbeat}

-- `Lease`
pub record Lease : Type 0 where
  pub name : String
  pub holder : String
  pub expires_at : ℕ

-- `StoreError`
pub data StoreError : Type 0 where
  already_exists version_conflict not_found unavailable : String → StoreError

-- `SalesHold`
pub record SalesHold : Type 0 where
  pub region : String
  pub model : String
  pub source : String
  pub reason : String
  pub expires_at : ℕ

-- `ComponentReport`
pub record ComponentReport : Type 0 where
  pub kind : String
  pub region : String
  pub id : String
  pub reported_at : ℕ

-- `IdempotencyRecord`
pub record IdempotencyRecord : Type 0 where
  pub resource_id : String
  pub fingerprint : String

-- `Invoice` (crates/pt-control-plane/src/billing.rs)
pub record Invoice : Type 0 where
  pub id : String
  pub tenant : String
  pub period : String

abbrev pub Triple : Type 0
Triple = String × (String × String)

-- `Inner`, the state of a `MemoryStore`.
pub record MemoryStore : Type 0 where
  pub by_id : Dict String ProvisionedThroughput
  pub idempotency : Dict (String × String) IdempotencyRecord
  pub incidents : List RegionIncident
  pub invoices : Dict (String × String) Invoice
  pub version : ℕ
  pub heartbeats : Dict (String × String) GatewayHeartbeat
  pub leases : Dict String Lease
  pub holds : Dict Triple SalesHold
  pub reports : Dict Triple ComponentReport

-- `MemoryStore::starting_at`
unfoldable starting_at : ℕ → MemoryStore
starting_at version = record {
  by_id = [];
  idempotency = [];
  incidents = [];
  invoices = [];
  version = version;
  heartbeats = [];
  leases = [];
  holds = [];
  reports = [];
}

-- `HashMap::values`
abbrev pub values : {K V : Type 0} → Dict K V → List V
values d = map (λ e. e.1) d

-- `insert`
unfoldable pub insert :
    ProvisionedThroughput → MemoryStore → Result StoreError (Unit {0}) × MemoryStore
insert pt s = elim (Dict.get pt.id s.by_id) [
  | some found ↦ (err (already_exists pt.id), s)
  | none ↦ (ok tt, record s { by_id = Dict.insert pt.id pt s.by_id })
]

-- `get`
unfoldable pub get : String → String → MemoryStore → Option ProvisionedThroughput
get tenant id s = elim (Dict.get id s.by_id) [
  | none ↦ none
  | some pt ↦ if pt.tenant == tenant then some pt else none
]

-- The order of `list`: whether `b` goes before `a`.
unfoldable pub is_older : ProvisionedThroughput → ProvisionedThroughput → Bool
is_older b a =
    if ltb b.created_at a.created_at
    then true
    else if ltb a.created_at b.created_at
    then false
    else elim (compare b.id a.id) [ Ordering.lt ↦ true | _ ↦ false ]

-- `list`
unfoldable pub list : String → MemoryStore → List ProvisionedThroughput
unfolding is_older
list tenant s = sort_by is_older (filter (λ pt. pt.tenant == tenant) (values s.by_id))

-- `list_live`
unfoldable pub list_live : MemoryStore → List ProvisionedThroughput
list_live s = filter (λ pt. is_live pt.state) (values s.by_id)

-- `update`
unfoldable pub update :
    ProvisionedThroughput → ℕ → MemoryStore → Result StoreError (Unit {0}) × MemoryStore
update pt expected_version s = elim (Dict.get pt.id s.by_id) [
  | none ↦ (err (not_found pt.id), s)
  | some current ↦
      if current.version == expected_version
      then (ok tt, record s { by_id = Dict.insert pt.id pt s.by_id })
      else (err (version_conflict pt.id), s)
]

-- `idempotency_get` and `idempotency_put`
unfoldable pub idempotency_get : String → String → MemoryStore → Option IdempotencyRecord
idempotency_get tenant key s = Dict.get (tenant, key) s.idempotency

unfoldable pub idempotency_put :
    String → String → IdempotencyRecord → MemoryStore → Result StoreError (Unit {0}) × MemoryStore
idempotency_put tenant key r s = elim (Dict.get (tenant, key) s.idempotency) [
  | some found ↦ (err (already_exists key), s)
  | none ↦ (ok tt, record s { idempotency = Dict.insert (tenant, key) r s.idempotency })
]

-- `partition_point` and `Vec::insert`: after the prefix that started no later. The binary search of
-- the source finds the end of that prefix, since the incidents are sorted by their start.
unfoldable pub insert_started : RegionIncident → List RegionIncident → List RegionIncident
insert_started i [] = i ∷ []
insert_started i (j ∷ rest) =
    let more = insert_started i rest in
    if leb j.started_at i.started_at then j ∷ more else i ∷ j ∷ rest

-- `insert_incident`
unfoldable pub insert_incident :
    RegionIncident → MemoryStore → Result StoreError (Unit {0}) × MemoryStore
unfolding insert_started
insert_incident i s =
    if any (λ j. j.id == i.id) s.incidents
    then (err (already_exists i.id), s)
    else (ok tt, record s { incidents = insert_started i s.incidents })

-- `*slot = incident`, on the first with its id
unfoldable pub replace_incident : RegionIncident → List RegionIncident → List RegionIncident
replace_incident i [] = []
replace_incident i (j ∷ rest) =
    let more = replace_incident i rest in if j.id == i.id then i ∷ rest else j ∷ more

-- `update_incident`
unfoldable pub update_incident :
    RegionIncident → MemoryStore → Result StoreError (Unit {0}) × MemoryStore
unfolding replace_incident
update_incident i s =
    if any (λ j. j.id == i.id) s.incidents
    then (ok tt, record s { incidents = replace_incident i s.incidents })
    else (err (not_found i.id), s)

-- `insert_invoice`, `get_invoice` and `list_invoices`
unfoldable insert_invoice : Invoice → MemoryStore → Result StoreError (Unit {0}) × MemoryStore
insert_invoice i s = elim (Dict.get (i.tenant, i.period) s.invoices) [
  | some found ↦ (err (already_exists i.id), s)
  | none ↦ (ok tt, record s { invoices = Dict.insert (i.tenant, i.period) i s.invoices })
]

unfoldable get_invoice : String → String → MemoryStore → Option Invoice
get_invoice tenant period s = Dict.get (tenant, period) s.invoices

unfoldable pub is_newer : Invoice → Invoice → Bool
is_newer b a = elim (compare a.period b.period) [ Ordering.lt ↦ true | _ ↦ false ]

unfoldable list_invoices : String → MemoryStore → List Invoice
unfolding is_newer
list_invoices tenant s = sort_by is_newer (filter (λ i. i.tenant == tenant) (values s.invoices))

-- `bump_version` and `current_version`
unfoldable pub bump_version : ℕ → MemoryStore → ℕ × MemoryStore
bump_version at_least s =
    let v = max (w64 (s.version + 1)) at_least in (v, record s { version = v })

-- `record_heartbeat`, `gateway_heartbeats` and `prune_heartbeats`
unfoldable pub record_heartbeat : String → Heartbeat → ℕ → ℕ → MemoryStore → MemoryStore
record_heartbeat region hb now timeout s =
    let key : String × String = (region, hb.gateway_id) in
    record s {
      heartbeats =
          Dict.insert key (next_heartbeat (Dict.get key s.heartbeats) region hb now timeout)
            s.heartbeats;
    }

unfoldable pub gateway_heartbeats : MemoryStore → List GatewayHeartbeat
gateway_heartbeats s = values s.heartbeats

unfoldable prune_heartbeats : ℕ → MemoryStore → ℕ × MemoryStore
prune_heartbeats before s =
    let kept = filter (λ e. leb before e.1.last_seen) s.heartbeats in
    (length s.heartbeats - length kept, record s { heartbeats = kept })

-- `try_lease` and `lease`
unfoldable pub is_free : Option Lease → String → ℕ → Bool
is_free none holder now = true
is_free (some l) holder now = (l.holder == holder) || leb l.expires_at now

unfoldable pub try_lease : String → String → ℕ → ℕ → MemoryStore → Bool × MemoryStore
unfolding is_free
try_lease name holder now ttl s =
    if is_free (Dict.get name s.leases) holder now
    then (
      true,
      record s {
        leases =
            Dict.insert name (record { name = name; holder = holder; expires_at = now + ttl })
              s.leases;
      },
    )
    else (false, s)

unfoldable pub lease : String → MemoryStore → Option Lease
lease name s = Dict.get name s.leases

-- `put_hold`, `delete_hold` and `holds`
unfoldable pub put_hold : SalesHold → MemoryStore → MemoryStore
put_hold h s = record s { holds = Dict.insert (h.region, (h.model, h.source)) h s.holds }

unfoldable pub delete_hold : String → String → String → MemoryStore → Bool × MemoryStore
delete_hold region model source s = elim (Dict.get (region, (model, source)) s.holds) [
  | none ↦ (false, s)
  | some h ↦ (true, record s { holds = Dict.remove (region, (model, source)) s.holds })
]

-- Whether the first triple is before the second, as tuples of strings are ordered.
unfoldable pub is_before : Triple → Triple → Bool
is_before (a, (b, c)) (x, (y, z)) = elim (compare a x) [
  | Ordering.lt ↦ true
  | Ordering.gt ↦ false
  | Ordering.eq ↦ elim (compare b y) [
    | Ordering.lt ↦ true
    | Ordering.gt ↦ false
    | Ordering.eq ↦ elim (compare c z) [ Ordering.lt ↦ true | _ ↦ false ]
  ]
]

unfoldable pub holds : ℕ → MemoryStore → List SalesHold
unfolding is_before
holds now s =
    sort_by (λ a b. is_before (a.region, (a.model, a.source)) (b.region, (b.model, b.source)))
      (filter (λ h. ltb now h.expires_at) (values s.holds))

-- `put_report`, `reports` and `prune_reports`
unfoldable put_report : ComponentReport → MemoryStore → MemoryStore
put_report r s = record s { reports = Dict.insert (r.kind, (r.region, r.id)) r s.reports }

unfoldable pub reports : String → MemoryStore → List ComponentReport
unfolding is_before
reports kind s =
    sort_by (λ a b. is_before ("", (a.region, a.id)) ("", (b.region, b.id)))
      (filter (λ r. r.kind == kind) (values s.reports))

unfoldable prune_reports : ℕ → MemoryStore → ℕ × MemoryStore
prune_reports before s =
    let kept = filter (λ e. leb before e.1.reported_at) s.reports in
    (length s.reports - length kept, record s { reports = kept })
