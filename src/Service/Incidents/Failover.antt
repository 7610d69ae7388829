-- ===== src/Service/Incidents/Failover.antt =====
-- Declarations, resolutions and the failover check.
use provisioned_throughput.Base.{
  ℕ, ◌+◌, ◌-◌, max, ◌≡◌, refl, sym, Bool, true, false, ◌&&◌, Option, none, some, List, [], ◌∷◌,
  String, inl, inr, any, leb, unwrap_or, All, In, Bool-cases, ◌==◌, string_eq, if◌then◌else◌,
  true-ne-false,
}
use provisioned_throughput.Base.Texts.{trim, byte_len}
use provisioned_throughput.Base.Distinct.{All-append}
use provisioned_throughput.Base.Result.{Result, ok, err, panicked}
use provisioned_throughput.Model.Requests.{
  RegionIncident, IncidentSource, automatic, operator, DeclareIncident, ResolveIncident,
}
use provisioned_throughput.Failover.{Health, down, serving, unknown, RegionStatus}
use provisioned_throughput.Store
use provisioned_throughput.Errors.{ServiceError, conflict, validation}
use provisioned_throughput.Service.{Settings, Service, guard, bump}
use provisioned_throughput.Service.Runs.{
  Leaves, then_do-Leaves, bind-Leaves, guard-Leaves, lift-Leaves,
}
use provisioned_throughput.Service.Incidents.{
  is_open, is_none, open_in, new_incident, insert_new, open_incident, declare_incident,
  find_incident, write_incident, resolve_incident, region_statuses, FailoverReport, has_lasted,
  is_automatic, flowing, declared_in, resolved_in, judge_region, judge_all, run_failover, day,
  minute,
}
use provisioned_throughput.Service.Incidents.Open.{
  IsQuiet, open_in-none, insert_new-IsQuiet, write_incident-IsQuiet,
}

bump-IsQuiet : (now : ℕ) (s : Service) → IsQuiet s → IsQuiet (bump now s)
unfolding bump Store.bump_version
bump-IsQuiet now s q = q

nothing_open : {A : Type 0} (o : Option A) → is_none o ≡ true → o ≡ none
nothing_open none e = refl
nothing_open (some a) e = absurd (true-ne-false (sym e))

open_incident-IsQuiet :
    (id : String) (now : ℕ) (region : String) (started_at : ℕ) (description : String)
    (source : IncidentSource) (s : Service)
    → IsQuiet s
    → Leaves IsQuiet
        (λ i. i.region ≡ region)
        (open_incident id now region started_at description source s)
unfolding open_incident new_incident
open_incident-IsQuiet id now region started_at description source s q =
    let i₀ = new_incident id now region started_at description source in
    let R : RegionIncident → Type 0 = λ i. i.region ≡ region in
    let free = is_none (open_in region s.store.incidents) in
    let Same : Service → Type 0 = λ t. IsQuiet t × (t.store.incidents ≡ s.store.incidents) in
    then_do-Leaves Same IsQuiet (λ u. free ≡ true) R (guard free (conflict "incident_open") s) _
      (λ t i. i.0) (guard-Leaves Same free (conflict "incident_open") s (q, refl))
      (λ u t e i.
        bind-Leaves IsQuiet (λ u. Unit {0}) R (insert_new i₀ t) _
          (insert_new-IsQuiet i₀ t i.0 (
            rw i.1 (
              open_in-none i₀ s.store.incidents
                (nothing_open (open_in region s.store.incidents) e))))
          (λ u s v q. (bump-IsQuiet now s q, refl)))

resolve_incident-IsQuiet :
    (now : ℕ) (id : String) (req : ResolveIncident) (s : Service)
    → IsQuiet s
    → Leaves IsQuiet (λ i. Unit {0}) (resolve_incident now id req s)
unfolding resolve_incident
resolve_incident-IsQuiet now id req s q =
    let R : RegionIncident → Type 0 = λ i. Unit {0} in
    let ended_at = unwrap_or req.ended_at now in
    let found = find_incident id s.store.incidents in
    bind-Leaves IsQuiet (λ i. found ≡ ok i) R (found, s) _ (lift-Leaves IsQuiet found s q)
      (λ i s e q.
        let fits = leb i.started_at ended_at && leb ended_at (now + minute) in
        let resolved = record i { ended_at = some ended_at } in
        bind-Leaves IsQuiet (λ u. is_open i ≡ true) R
          (guard (is_open i) (conflict "already_resolved") s) _
          (guard-Leaves IsQuiet (is_open i) (conflict "already_resolved") s q)
          (λ u s o q.
            bind-Leaves IsQuiet (λ u. fits ≡ true) R (guard fits (validation "ended_at") s) _
              (guard-Leaves IsQuiet fits (validation "ended_at") s q)
              (λ u s f q.
                bind-Leaves IsQuiet (λ u. Unit {0}) R (write_incident resolved s) _
                  (write_incident-IsQuiet resolved s q refl)
                  (λ u s w q. (bump-IsQuiet now s q, tt)))))

-- One open incident per region at a time: after an operator's declaration, on every branch, when it
-- was so before.
declare_incident-IsQuiet :
    (c : Settings) (id : String) (now : ℕ) (req : DeclareIncident) (s : Service)
    → IsQuiet s
    → Leaves IsQuiet (λ i. i.region ≡ req.region) (declare_incident c id now req s)
unfolding declare_incident
declare_incident-IsQuiet c id now req s q =
    let R : RegionIncident → Type 0 = λ i. i.region ≡ req.region in
    let known = any (λ r. r.name == req.region) c.offer.regions in
    let description = trim req.description in
    let words = leb 1 (byte_len description) && leb (byte_len description) 500 in
    let started_at = unwrap_or req.started_at now in
    let timely = leb started_at (now + minute) && leb (now - day) started_at in
    bind-Leaves IsQuiet (λ u. known ≡ true) R (guard known (validation "region") s) _
      (guard-Leaves IsQuiet known (validation "region") s q)
      (λ u s k q.
        bind-Leaves IsQuiet (λ u. words ≡ true) R (guard words (validation "description") s) _
          (guard-Leaves IsQuiet words (validation "description") s q)
          (λ u s w q.
            bind-Leaves IsQuiet (λ u. timely ≡ true) R (guard timely (validation "started_at") s) _
              (guard-Leaves IsQuiet timely (validation "started_at") s q)
              (λ u s t q.
                open_incident-IsQuiet id now req.region started_at description operator s q)))

module _ (c : Settings) (now : ℕ) (new_id : String → String) (statuses : List RegionStatus) where
  -- A region whose status is that it is down, while another has served for the heartbeat timeout.
  abbrev IsLost : String → Type 0
  IsLost region =
      (st : RegionStatus) × In st statuses
      × (st.region ≡ region)
      × (st.health ≡ down)
      × (flowing c now new_id statuses region ≡ true)

  abbrev pub AreLost : FailoverReport → Type 0
  AreLost report = All (λ d. IsLost d.1) report.declared

  declared_in-Leaves :
      (st : RegionStatus) (report : FailoverReport)
      (r : Result ServiceError RegionIncident × Service)
      → AreLost report
      → IsLost st.region
      → Leaves IsQuiet (λ i. i.region ≡ st.region) r
      → Leaves IsQuiet AreLost (declared_in c now new_id statuses report r)
  unfolding declared_in
  declared_in-Leaves st report (ok i, s) a l h =
      (h.0, All-append (λ d. IsLost d.1) report.declared ((i.id, i.region) ∷ []) a ((rw h.1 l), tt))
  declared_in-Leaves st report (err e, s) a l h = (h.0, a)
  declared_in-Leaves st report (panicked, s) a l h = (h.0, tt)

  resolved_in-Leaves :
      (report : FailoverReport) (r : Result ServiceError RegionIncident × Service)
      → AreLost report
      → Leaves IsQuiet (λ i. Unit {0}) r
      → Leaves IsQuiet AreLost (resolved_in c now new_id statuses report r)
  unfolding resolved_in
  resolved_in-Leaves report (ok i, s) a h = (h.0, a)
  resolved_in-Leaves report (err e, s) a h = (h.0, a)
  resolved_in-Leaves report (panicked, s) a h = (h.0, tt)

  judge_region-Leaves :
      (st : RegionStatus) (health : Health) (found : Option RegionIncident)
      (report : FailoverReport) (s : Service)
      → st.health ≡ health
      → In st statuses
      → AreLost report
      → IsQuiet s
      → Leaves IsQuiet AreLost (judge_region c now new_id statuses st health found report s)
  unfolding judge_region
  judge_region-Leaves st down none report s e i a q =
      elim (Bool-cases (flowing c now new_id statuses st.region)) [
        | inl t ↦
            rw (judge_region, t)
              (declared_in-Leaves st report
                (open_incident (new_id st.region) now st.region
                  (max (unwrap_or st.last_serving_at now) (now - day)) (c.outage st.region)
                  automatic s)
                a (st, i, refl, e, t)
                (open_incident-IsQuiet (new_id st.region) now st.region
                  (max (unwrap_or st.last_serving_at now) (now - day)) (c.outage st.region)
                  automatic s q))
        | inr f ↦ rw (judge_region, f) (q, a)
      ]
  judge_region-Leaves st serving (some o) report s e i a q =
      elim (Bool-cases (is_automatic o.source && has_lasted now c.recovery st.serving_since)) [
        | inl t ↦
            rw (judge_region, t)
              (resolved_in-Leaves report
                (resolve_incident now o.id (record { ended_at = some now }) s) a
                (resolve_incident-IsQuiet now o.id (record { ended_at = some now }) s q))
        | inr f ↦ rw (judge_region, f) (q, a)
      ]
  judge_region-Leaves st down (some o) report s e i a q = (q, a)
  judge_region-Leaves st serving none report s e i a q = (q, a)
  judge_region-Leaves st unknown o report s e i a q = (q, a)

  judge_all-Leaves :
      (incidents : List RegionIncident) (rest : List RegionStatus) (report : FailoverReport)
      (s : Service)
      → ((st : RegionStatus) → In st rest → In st statuses)
      → AreLost report
      → IsQuiet s
      → Leaves IsQuiet AreLost (judge_all c now new_id statuses incidents rest report s)
  unfolding judge_all
  judge_all-Leaves incidents [] report s known a q = (q, a)
  judge_all-Leaves incidents (st ∷ rest) report s known a q =
      bind-Leaves IsQuiet AreLost AreLost
        (judge_region c now new_id statuses st st.health (open_in st.region incidents) report s) _
        (judge_region-Leaves st st.health (open_in st.region incidents) report s refl
          (known st (inl refl)) a q)
        (λ report₁ s a q. judge_all-Leaves incidents rest report₁ s (λ x i. known x (inr i)) a q)

-- When at most one incident is open in each region, that is so after the failover check, and every
-- incident that it declares is for a region whose status, of those that the heartbeats give, is that it
-- is down, while the status of another region is that it has served for at least the heartbeat timeout.
pub run_failover-IsQuiet :
    (c : Settings) (now : ℕ) (new_id : String → String) (s : Service)
    → IsQuiet s
    → Leaves IsQuiet
        (AreLost c now new_id (region_statuses c now s.store))
        (run_failover c now new_id s)
unfolding run_failover
run_failover-IsQuiet c now new_id s q =
    let statuses = region_statuses c now s.store in go statuses c.auto_declare
  where
    go :
        (statuses : List RegionStatus) (b : Bool)
        → Leaves IsQuiet (AreLost c now new_id statuses) (
            if b
            then judge_all c now new_id statuses s.store.incidents statuses
                (record { declared = []; resolved = [] })
                s
            else (ok (record { declared = []; resolved = [] }), s))
    go statuses true =
        judge_all-Leaves c now new_id statuses s.store.incidents statuses
          (record { declared = []; resolved = [] }) s (λ x i. i) tt q
    go statuses false = (q, tt)
