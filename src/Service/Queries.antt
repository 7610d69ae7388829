-- ===== src/Service/Queries.antt =====
-- What the service answers from its store, and how it sets the planner right
-- (crates/pt-control-plane/src/service.rs): at its start from the live reservations (`restore_capacity`)
-- and now and then against them (`reconcile_capacity`).
use provisioned_throughput.Base.{
  ℕ, Bool, true, ◌||◌, Option, none, some, List, String, map, filter, find, length, ltb, ◌==◌,
  string_eq, if◌then◌else◌,
}
use provisioned_throughput.Base.Result.{ok, err}
use provisioned_throughput.Capacity.{PoolShare, Costs}
use provisioned_throughput.Planner.Memory.{Drift, Held, expected_micro, restore, reconcile}
use provisioned_throughput.Model.{ProvisionedThroughput, is_live}
use provisioned_throughput.Store
use provisioned_throughput.Store.{list_live}
use provisioned_throughput.Errors.{not_found}
use provisioned_throughput.Service.{Settings, M, ◌>>=◌, done, pooled}

-- `list`
abbrev is_of : Option String → ProvisionedThroughput → Bool
is_of none pt = true
is_of (some m) pt = pt.model == m

unfoldable pub list : String → Option String → Bool → M (List ProvisionedThroughput)
unfolding Store.list
list tenant model include_inactive s = (
  ok (
      filter (is_of model)
        (filter (λ pt. include_inactive || is_live pt.state) (Store.list tenant s.store))),
  s,
)

-- `find_live` and `placements`
unfoldable pub find_live : String → M ProvisionedThroughput
unfolding list_live
find_live id s = elim (find (λ pt. pt.id == id) (list_live s.store)) [
  | none ↦ (err not_found, s)
  | some pt ↦ (ok pt, s)
]

unfoldable pub placements : Settings → String → M (List PoolShare)
unfolding find_live pooled
placements c id = do pt ← find_live id; done (pooled c pt)

-- `holding`
unfoldable holding : Settings → ProvisionedThroughput → Held
unfolding pooled
holding c pt = record { tier = pt.tier; shares = pooled c pt }

-- `restore_capacity`
unfoldable restore_capacity : Settings → M ℕ
unfolding holding list_live restore
restore_capacity c s =
    let live = list_live s.store in
    (ok (length live), record s { planner = restore s.planner (map (holding c) live) })

-- `reconcile_capacity`
unfoldable reconcile_capacity : Settings → Costs → M (List Drift)
unfolding holding list_live expected_micro reconcile
reconcile_capacity c costs s =
    let expected = expected_micro costs (map (holding c) (list_live s.store)) in
    let (drifts, planner) = reconcile s.planner expected in
    (ok drifts, record s { planner = planner })

-- `sync_version`
unfoldable pub sync_version : M ℕ
sync_version s =
    let v = s.store.version in
    let changes = if ltb s.changes v then v else s.changes in
    (ok changes, record s { changes = changes })
