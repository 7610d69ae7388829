-- ===== src/Service/Incidents.antt =====
-- Region incidents (crates/pt-control-plane/src/service.rs): declared by an operator or by the failover
-- check, and resolved by either.
pub mod Open
pub mod Failover
pub mod Tests
use provisioned_throughput.Base.{
  ℕ, ◌+◌, ◌-◌, ◌*◌, max, Bool, true, false, not, ◌&&◌, ◌||◌, Option, none, some, List, [], ◌∷◌,
  ◌++◌, String, map, find, any, leb, ltb, unwrap_or, ◌==◌, string_eq, nat_eq, if◌then◌else◌,
}
use provisioned_throughput.Base.Texts.{trim, byte_len}
use provisioned_throughput.Base.Result.{Result, ok, err, panicked}
use provisioned_throughput.Model.Requests.{
  RegionIncident, IncidentSource, operator, automatic, DeclareIncident, ResolveIncident, Heartbeat,
}
use provisioned_throughput.Failover.{Health, down, serving, unknown, RegionStatus, region_status}
use provisioned_throughput.Store.{
  MemoryStore, StoreError, already_exists, insert_incident, update_incident, record_heartbeat,
  gateway_heartbeats,
}
use provisioned_throughput.Errors.{
  ServiceError, validation, conflict, not_found, from_store, of_store,
}
use provisioned_throughput.Service.{
  Settings, Service, M, then_do, ◌>>=◌, ◌>>◌, done, lift, guard, bump, bump_now,
}

abbrev pub minute : ℕ
minute = 60000

abbrev pub day : ℕ
day = 86400000

-- `i.ended_at.is_none()`
abbrev pub is_open : RegionIncident → Bool
is_open i = elim i.ended_at [ none ↦ true | some t ↦ false ]

unfoldable pub open_in : String → List RegionIncident → Option RegionIncident
open_in region incidents = find (λ i. i.region == region && is_open i) incidents

-- The conversion of `insert_incident`'s error in `open_incident`.
abbrev open_error : StoreError → ServiceError
open_error (already_exists id) = conflict "incident_open"
open_error e = from_store e

unfoldable pub inserted :
    Service → Result StoreError (Unit {0}) × MemoryStore → Result ServiceError (Unit {0}) × Service
inserted s (ok u, store) = (ok tt, record s { store = store })
inserted s (err e, store) = (err (open_error e), record s { store = store })
inserted s (panicked, store) = (panicked, record s { store = store })

unfoldable pub new_incident : String → ℕ → String → ℕ → String → IncidentSource → RegionIncident
new_incident id now region started_at description source = record {
  id = id;
  region = region;
  started_at = started_at;
  ended_at = none;
  description = description;
  declared_at = now;
  source = source;
}

unfoldable pub insert_new : RegionIncident → M (Unit {0})
unfolding inserted insert_incident
insert_new i s = inserted s (insert_incident i s.store)

abbrev pub is_none : {A : Type 0} → Option A → Bool
is_none none = true
is_none (some a) = false

-- `open_incident`; `id` is the id drawn for it.
unfoldable pub open_incident : String → ℕ → String → ℕ → String → IncidentSource → M RegionIncident
unfolding open_in new_incident insert_new bump
open_incident id now region started_at description source s =
    (do
      guard (is_none (open_in region s.store.incidents)) (conflict "incident_open")
      let incident = new_incident id now region started_at description source
      insert_new incident
      bump_now now
      done incident)
      s

-- `declare_incident`
unfoldable pub declare_incident : Settings → String → ℕ → DeclareIncident → M RegionIncident
unfolding trim byte_len open_incident
declare_incident c id now req = do
  guard (any (λ r. r.name == req.region) c.offer.regions) (validation "region")
  let description = trim req.description
  guard (leb 1 (byte_len description) && leb (byte_len description) 500) (validation "description")
  let started_at = unwrap_or req.started_at now
  guard (leb started_at (now + minute) && leb (now - day) started_at) (validation "started_at")
  open_incident id now req.region started_at description operator

-- `resolve_incident`
unfoldable pub find_incident : String → List RegionIncident → Result ServiceError RegionIncident
find_incident id incidents = elim (find (λ i. i.id == id) incidents) [
  | none ↦ err not_found
  | some i ↦ ok i
]

unfoldable pub updated :
    Service → Result StoreError (Unit {0}) × MemoryStore → Result ServiceError (Unit {0}) × Service
updated s (answer, store) = (of_store answer, record s { store = store })

unfoldable pub write_incident : RegionIncident → M (Unit {0})
unfolding updated update_incident
write_incident i s = updated s (update_incident i s.store)

unfoldable pub resolve_incident : ℕ → String → ResolveIncident → M RegionIncident
unfolding find_incident write_incident bump
resolve_incident now id req s =
    (do
      i ← lift (find_incident id s.store.incidents)
      guard (is_open i) (conflict "already_resolved")
      let ended_at = unwrap_or req.ended_at now
      guard (leb i.started_at ended_at && leb ended_at (now + minute)) (validation "ended_at")
      let resolved = record i { ended_at = some ended_at }
      write_incident resolved
      bump_now now
      done resolved)
      s

-- `heartbeat` and `region_statuses`
unfoldable heartbeat : Settings → ℕ → String → Heartbeat → M (Unit {0})
unfolding record_heartbeat
heartbeat c now region hb s =
    (ok tt, record s { store = record_heartbeat region hb now c.heartbeat_timeout s.store })

unfoldable pub region_statuses : Settings → ℕ → MemoryStore → List RegionStatus
unfolding region_status gateway_heartbeats
region_statuses c now store =
    map (λ r. region_status r.name (gateway_heartbeats store) now c.heartbeat_timeout)
      c.offer.regions

-- `FailoverReport`
pub record FailoverReport : Type 0 where
  pub declared : List (String × String)
  pub resolved : List (String × String)

-- `t.is_some_and(|t| now.duration_since(t) >= d)`
abbrev pub has_lasted : ℕ → ℕ → Option ℕ → Bool
has_lasted now d none = false
has_lasted now d (some t) = leb (t + d) now

abbrev pub is_automatic : IncidentSource → Bool
is_automatic automatic = true
is_automatic operator = false

module _ (c : Settings) (now : ℕ) (new_id : String → String) (statuses : List RegionStatus) where
  -- The closure `flowing`
  unfoldable pub flowing : String → Bool
  flowing except =
      any (λ o. not (o.region == except) && has_lasted now c.heartbeat_timeout o.serving_since)
        statuses

  -- An error of the loop's calls is logged, and the loop goes on.
  unfoldable pub declared_in :
      FailoverReport
      → Result ServiceError RegionIncident × Service
      → Result ServiceError FailoverReport × Service
  declared_in report (ok i, s) =
      (ok (record report { declared = report.declared ++ (i.id, i.region) ∷ [] }), s)
  declared_in report (err e, s) = (ok report, s)
  declared_in report (panicked, s) = (panicked, s)

  unfoldable pub resolved_in :
      FailoverReport
      → Result ServiceError RegionIncident × Service
      → Result ServiceError FailoverReport × Service
  resolved_in report (ok i, s) =
      (ok (record report { resolved = report.resolved ++ (i.id, i.region) ∷ [] }), s)
  resolved_in report (err e, s) = (ok report, s)
  resolved_in report (panicked, s) = (panicked, s)

  -- One round of the loop, by the region's health and its open incident.
  unfoldable pub judge_region :
      RegionStatus → Health → Option RegionIncident → FailoverReport → M FailoverReport
  unfolding flowing declared_in resolved_in open_incident resolve_incident
  judge_region st down none report s =
      if flowing st.region
      then declared_in report (
          open_incident (new_id st.region) now st.region
            (max (unwrap_or st.last_serving_at now) (now - day)) (c.outage st.region) automatic s)
      else (ok report, s)
  judge_region st serving (some i) report s =
      if is_automatic i.source && has_lasted now c.recovery st.serving_since
      then resolved_in report (resolve_incident now i.id (record { ended_at = some now }) s)
      else (ok report, s)
  judge_region st down (some i) report s = (ok report, s)
  judge_region st serving none report s = (ok report, s)
  judge_region st unknown i report s = (ok report, s)

  unfoldable pub judge_all :
      List RegionIncident → List RegionStatus → FailoverReport → M FailoverReport
  unfolding judge_region open_in
  judge_all incidents [] report = done report
  judge_all incidents (st ∷ rest) report = do
    report₁ ← judge_region st st.health (open_in st.region incidents) report
    judge_all incidents rest report₁

-- `run_failover`; `new_id` gives the id that a region's incident would draw.
unfoldable pub run_failover : Settings → ℕ → (String → String) → M FailoverReport
unfolding region_statuses judge_all
run_failover c now new_id s =
    let statuses = region_statuses c now s.store in
    if c.auto_declare
    then judge_all c now new_id statuses s.store.incidents statuses
        (record { declared = []; resolved = [] }) s
    else (ok (record { declared = []; resolved = [] }), s)
