-- ===== src/Service/Snapshots/Closed.antt =====
-- What stands in a snapshot.
use provisioned_throughput.Base.{
  ℕ, ◌≡◌, ◌<◌, refl, ap, subst, true, some, List, [], ◌∷◌, String, inl, inr, map, filter, find, any,
  ltb, ltb→lt, All, In, In-filter_into, Bool-cases, Option-cases, some-eq, none-ne-some, ◌==◌,
  string_eq,
}
use provisioned_throughput.Base.Sort.{sort_by, In-sort_by}
use provisioned_throughput.Base.Distinct.{All-append, All-weaken}
use provisioned_throughput.Base.Result.{ok, ok-eq}
use provisioned_throughput.Model.{
  ApiKey, Deployment, current_key, ProvisionedThroughput, effective, is_live,
}
use provisioned_throughput.Store.{values, list_live}
use provisioned_throughput.Service.{Settings, Service, pool_of}
use provisioned_throughput.Service.Queries
use provisioned_throughput.Service.Lifecycle.{is_running}
use provisioned_throughput.Service.Snapshots.{
  ReservationEntitlement, DeploymentEntitlement, Snapshot, pool_at, previous_keys, reservation_of,
  deployments_of, entries, Entries, is_earlier_id, snapshot,
}

-- A deployment's reservation is told too, and its replaced keys work for some time still.
abbrev pub IsServed : ℕ → List ReservationEntitlement → DeploymentEntitlement → Type 0
IsServed now rs d =
    In d.reservation (map (λ r. r.id) rs) × All (λ k. now < k.expires_at_ms) d.previous_keys

-- A reservation is one of `pts`.
abbrev IsOf : List ProvisionedThroughput → ReservationEntitlement → Type 0
IsOf pts r = (pt : ProvisionedThroughput) × In pt pts × (pt.id ≡ r.id)

previous_keys-last :
    (now : ℕ) (ks : List ApiKey) → All (λ k. now < k.expires_at_ms) (previous_keys now ks)
unfolding previous_keys
previous_keys-last now [] = tt
previous_keys-last now (k ∷ rest) = elim (Option-cases k.expires_at) [
  | inl n ↦ rw (previous_keys, n) (previous_keys-last now rest)
  | inr (e, q) ↦ elim (Bool-cases (ltb now e)) [
    | inl t ↦ rw (previous_keys, q, t) (ltb→lt now e t, previous_keys-last now rest)
    | inr f ↦ rw (previous_keys, q, f) (previous_keys-last now rest)
  ]
]

deployments_of-IsServed :
    (now : ℕ) (pt : ProvisionedThroughput) (rs : List ReservationEntitlement) (ds : List Deployment)
    → In pt.id (map (λ r. r.id) rs)
    → All (IsServed now rs) (deployments_of now pt ds)
unfolding deployments_of
deployments_of-IsServed now pt rs [] i = tt
deployments_of-IsServed now pt rs (d ∷ rest) i = elim (Option-cases (current_key d)) [
  | inl n ↦ rw (deployments_of, n) (deployments_of-IsServed now pt rs rest i)
  | inr (k, e) ↦
      rw (deployments_of, e)
        ((i, previous_keys-last now d.api_keys), deployments_of-IsServed now pt rs rest i)
]

abbrev AreClosed : ℕ → List ProvisionedThroughput → Entries → Type 0
AreClosed now pts (rs, ds) = All (IsOf pts) rs × All (IsServed now rs) ds

entries-AreClosed :
    (c : Settings) (now : ℕ) (region : String) (pts : List ProvisionedThroughput)
    → AreClosed now pts (entries c now region pts)
unfolding entries
entries-AreClosed c now region [] = (tt, tt)
entries-AreClosed c now region (pt ∷ rest) =
    let (rs, ds) = entries c now region rest in
    let ih = entries-AreClosed c now region rest in
    let wider = All-weaken (IsOf rest) (IsOf (pt ∷ rest)) rs (λ r h. (h.0, inr h.1, h.2)) ih.0 in
    elim (Option-cases (find (λ r. r.region == region) (effective pt))) [
      | inl n ↦ rw (entries, n) (wider, ih.1)
      | inr (share, e) ↦
          elim (Option-cases (pool_at c.offer.capacity region (pool_of c pt region))) [
            | inl n ↦ rw (entries, e, n) (wider, ih.1)
            | inr (pool, q) ↦
                let all = reservation_of c.offer.regions pt region share pool ∷ rs in
                rw (entries, e, q)
                  (
                    ((pt, inl refl, refl), wider),
                    All-append (IsServed now all) (deployments_of now pt pt.deployments) ds
                        (deployments_of-IsServed now pt all pt.deployments (inl refl))
                        (All-weaken (IsServed now rs) (IsServed now all) ds (λ d h. (inr h.0, h.1))
                          ih.1),
                  )
          ]
    ]

-- The reservations of a snapshot are running ones of the store.
abbrev pub IsRunning : Service → ReservationEntitlement → Type 0
IsRunning s r =
    (pt : ProvisionedThroughput) × In pt (values s.store.by_id)
    × (is_running pt.state ≡ true)
    × (pt.id ≡ r.id)

-- Every reservation in a snapshot is a stored one that is active or pending cancellation. Every
-- deployment in it is of a reservation that is in it too, and of the deployment's replaced keys it
-- holds only those that have not expired.
pub snapshot-IsClosed :
    (c : Settings) (ramp now : ℕ) (region : String) (s s' : Service) (snap : Snapshot)
    → snapshot c ramp now region s ≡ (ok (some snap), s')
    → All (IsRunning s) snap.reservations × All (IsServed now snap.reservations) snap.deployments
unfolding snapshot Queries.sync_version list_live
snapshot-IsClosed c ramp now region s s' snap e =
    elim (Bool-cases (any (λ r. r.name == region) c.offer.regions)) [
      | inr f ↦ absurd (none-ne-some (ok-eq (ap (λ r. r.0) (rw (snapshot, f) at e))))
      | inl t ↦
          let same = some-eq (ok-eq (ap (λ r. r.0) (rw (snapshot, t) at e))) in
          let running = filter (λ pt. is_running pt.state) (list_live s.store) in
          let live = sort_by (λ a b. is_earlier_id a.id b.id) running in
          let closed = entries-AreClosed c now region live in
          subst
            (λ (x : Snapshot).
              All (IsRunning s) x.reservations × All (IsServed now x.reservations) x.deployments)
            same
            (
              All-weaken (IsOf live) (IsRunning s) _
                  (λ r h.
                    let (here, is) =
                      In-filter_into (λ pt. is_running pt.state) h.0 (list_live s.store)
                        (In-sort_by (λ a b. is_earlier_id a.id b.id) h.0 running h.1) in
                    let (there, lives) =
                      In-filter_into (λ pt. is_live pt.state) h.0 (values s.store.by_id) here in
                    (h.0, there, is, h.2))
                  closed.0,
              closed.1,
            )
    ]
