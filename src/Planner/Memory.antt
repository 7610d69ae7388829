-- ===== src/Planner/Memory.antt =====
-- `MemoryPlanner` and its implementation of `CapacityPlanner`, with the pure helpers `expected_micro`
-- and `judge_drift` (crates/pt-control-plane/src/planner.rs). Each method holds the lock on the
-- pools from its first read to its last write, so it is one step on the planner's state. A
-- `HashMap` is an association list, and its iteration is in list order.
pub mod Pools
pub mod Ledger
pub mod Sales
pub mod Undo
pub mod Redo
pub mod Judge
pub mod Drifts
use mathlib.Core.Option
use provisioned_throughput.Base.{
  ℕ, ◌+◌, ◌-◌, Bool, true, false, ◌&&◌, Option, none, some, List, [], ◌∷◌, String, map, find,
  unwrap_or, w64, ◌==◌, string_eq, pair_eq, nat_eq, option_eq, if◌then◌else◌,
}
use provisioned_throughput.Base.Dict
use provisioned_throughput.Base.Dict.{Dict}
use provisioned_throughput.Base.Result.{Result, ok, err, panicked, ◌>>=◌}
use provisioned_throughput.Core.{Tier, Shape}
use provisioned_throughput.Capacity.{
  PoolKey, PoolShare, CapacityConfig, Costs, share_cost, Schedule,
}
use provisioned_throughput.Planner.{
  PlanError, PoolView, Claim, from_config, place, largest_free_cus,
}

-- `Drift`
pub record Drift : Type 0 where
  pub region : String
  pub pool : String
  pub reserved : ℕ
  pub expected : ℕ
  pub corrected : Bool

-- `Held`
pub record Held : Type 0 where
  pub tier : Tier
  pub shares : List PoolShare

-- `PendingDrift`
abbrev pub PendingDrift : Type 0
PendingDrift = Dict PoolKey (ℕ × ℕ)

-- `MemoryPlanner`
pub record MemoryPlanner : Type 0 where
  pub pools : List PoolView
  pub costs : Costs
  pub schedule : Schedule
  pub pending : PendingDrift

-- `MemoryPlanner::new`
unfoldable pub new : List CapacityConfig → Costs → Schedule → MemoryPlanner
new capacity costs schedule = record {
  pools = map from_config capacity;
  costs = costs;
  schedule = schedule;
  pending = [];
}

-- `p.region == region && p.pool == pool`
unfoldable pub is_at : String → String → PoolView → Bool
is_at region pool p = p.region == region && p.pool == pool

-- `pools.iter().find(…)` and `pools.iter_mut().find(…)` with a write to what was found.
unfoldable pub find_pool : String → String → List PoolView → Option PoolView
find_pool region pool [] = none
find_pool region pool (p ∷ ps) =
    let rest = find_pool region pool ps in if is_at region pool p then some p else rest

unfoldable pub set_reserved : String → String → (ℕ → ℕ) → List PoolView → List PoolView
set_reserved region pool f [] = []
set_reserved region pool f (p ∷ ps) =
    let rest = set_reserved region pool f ps in
    if is_at region pool p then record p { reserved = f p.reserved } ∷ ps else p ∷ rest

-- The loop of `reserve` on the scratch copy of the pools.
unfoldable pub reserve_all :
    String
    → Tier
    → Shape
    → ℕ
    → Costs
    → Schedule
    → List Claim
    → List PoolView
    → Result PlanError (List PoolView × List PoolShare)
unfolding set_reserved
reserve_all model tier shape at costs schedule [] scratch = ok (scratch, [])
reserve_all model tier shape at costs schedule (c ∷ cs) scratch =
    place c model tier shape (some at) scratch costs schedule >>= elim [
      | none ↦ panicked
      | some (pool, need) ↦
          reserve_all model tier shape at costs schedule cs
            (set_reserved c.region pool (λ n. w64 (n + need)) scratch)
          >>= λ (scratch', placed).
              ok (scratch', record { region = c.region; pool = pool; cus = c.cus } ∷ placed)
    ]

-- `*pools = scratch; Ok(placed)`, or the failure, which leaves the planner as it was.
abbrev pub commit :
    MemoryPlanner
    → Result PlanError (List PoolView × List PoolShare)
    → Result PlanError (List PoolShare) × MemoryPlanner
commit m (ok (scratch, placed)) = (ok placed, record m { pools = scratch })
commit m (err e) = (err e, m)
commit m panicked = (panicked, m)

-- `reserve`
unfoldable pub reserve :
    MemoryPlanner
    → String
    → Tier
    → List Claim
    → Shape
    → ℕ
    → Result PlanError (List PoolShare) × MemoryPlanner
unfolding reserve_all
reserve m model tier claims shape at =
    commit m (reserve_all model tier shape at m.costs m.schedule claims m.pools)

-- The loop of `release`. `saturating_sub` is the subtraction of ℕ.
unfoldable pub release_all : Costs → Tier → List PoolShare → List PoolView → List PoolView
unfolding set_reserved
release_all costs tier [] pools = pools
release_all costs tier (s ∷ shares) pools =
    release_all costs tier shares
      (set_reserved s.region s.pool (λ n. n - unwrap_or (share_cost costs tier s) 0) pools)

-- `release`
unfoldable pub release : MemoryPlanner → Tier → List PoolShare → MemoryPlanner
unfolding release_all
release m tier shares = record m { pools = release_all m.costs tier shares m.pools }

-- `check_shape`
unfoldable pub check_shape :
    MemoryPlanner → String → List Claim → Shape → Result PlanError (Unit {0})
check_shape m model [] shape = ok tt
check_shape m model (c ∷ cs) shape =
    place c model Tier.standard shape none m.pools m.costs m.schedule >>= λ _.
    check_shape m model cs shape

-- `available_at`, which `available_cus` calls, and `available`: from `Timestamp::MIN`.
unfoldable available_at : MemoryPlanner → String → String → Tier → ℕ → Option ℕ
available_at m region model tier at =
    largest_free_cus m.pools region model tier at m.costs m.schedule

unfoldable pub available : MemoryPlanner → String → String → Tier → Option ℕ
unfolding available_at
available m region model tier = available_at m region model tier 0

-- `available_micro` and `pool_micro`
unfoldable available_micro : MemoryPlanner → String → String → Option ℕ
unfolding find_pool
available_micro m region pool =
    Option.map (λ p. p.capacity - p.reserved) (find_pool region pool m.pools)

unfoldable pool_micro : MemoryPlanner → String → String → Option (ℕ × ℕ)
unfolding find_pool
pool_micro m region pool =
    Option.map (λ p. (p.capacity, p.reserved)) (find_pool region pool m.pools)

-- `*out.entry(key).or_default() += m`
unfoldable add_entry : PoolKey → ℕ → Dict PoolKey ℕ → Dict PoolKey ℕ
add_entry k m out = Dict.insert k (w64 (unwrap_or (Dict.get k out) 0 + m)) out

unfoldable expected_of_shares : Costs → Tier → List PoolShare → Dict PoolKey ℕ → Dict PoolKey ℕ
unfolding add_entry
expected_of_shares costs tier [] out = out
expected_of_shares costs tier (s ∷ shares) out =
    expected_of_shares costs tier shares
      (elim (share_cost costs tier s) [ none ↦ out | some m ↦ add_entry (s.region, s.pool) m out ])

-- `expected_micro`
unfoldable expected_from : Costs → List Held → Dict PoolKey ℕ → Dict PoolKey ℕ
unfolding expected_of_shares
expected_from costs [] out = out
expected_from costs (h ∷ held) out =
    expected_from costs held (expected_of_shares costs h.tier h.shares out)

unfoldable pub expected_micro : Costs → List Held → Dict PoolKey ℕ
unfolding expected_from
expected_micro costs held = expected_from costs held []

-- The loop of `restore`; the log lines are left out.
unfoldable restore_all : Dict PoolKey ℕ → List PoolView → List PoolView
unfolding set_reserved
restore_all [] pools = pools
restore_all (((region, pool), m) ∷ d) pools =
    restore_all d (set_reserved region pool (λ n. w64 (n + m)) pools)

-- `restore`
unfoldable pub restore : MemoryPlanner → List Held → MemoryPlanner
unfolding restore_all expected_micro
restore m live = record m { pools = restore_all (expected_micro m.costs live) m.pools }

-- `judge_drift`: the drift and whether to fix it, with the pending drifts after the call.
unfoldable pub judge_drift : PendingDrift → PoolKey → ℕ → ℕ → Option (Drift × Bool) × PendingDrift
judge_drift pending key reserved expected =
    let fix = Dict.get key pending == some (reserved, expected) in
    let drift : Drift = record {
      region = key.0;
      pool = key.1;
      reserved = reserved;
      expected = expected;
      corrected = fix;
    } in
    if reserved == expected then (none, Dict.remove key pending) else (
      some (drift, fix),
      (if fix then Dict.remove key pending else Dict.insert key (reserved, expected) pending),
    )

-- One round of the loop of `reconcile`: the pool after it, its drift, and the pending drifts.
abbrev apply_drift :
    PoolView → ℕ → Option (Drift × Bool) × PendingDrift → PoolView × Option Drift × PendingDrift
apply_drift p want (none, pending) = (p, none, pending)
apply_drift p want (some (drift, fix), pending) =
    ((if fix then record p { reserved = want } else p), some drift, pending)

unfoldable pub reconcile_pool :
    Dict PoolKey ℕ → PoolView → PendingDrift → PoolView × Option Drift × PendingDrift
unfolding judge_drift
reconcile_pool expected p pending =
    let want = unwrap_or (Dict.get (p.region, p.pool) expected) 0 in
    apply_drift p want (judge_drift pending (p.region, p.pool) p.reserved want)

abbrev cons_some : Option Drift → List Drift → List Drift
cons_some none ds = ds
cons_some (some d) ds = d ∷ ds

unfoldable pub reconcile_all :
    Dict PoolKey ℕ → List PoolView → PendingDrift → List PoolView × List Drift × PendingDrift
unfolding reconcile_pool
reconcile_all expected [] pending = ([], [], pending)
reconcile_all expected (p ∷ ps) pending =
    let (p', found, pending') = reconcile_pool expected p pending in
    let (ps', drifts, pending'') = reconcile_all expected ps pending' in
    (p' ∷ ps', cons_some found drifts, pending'')

-- `reconcile`
unfoldable pub reconcile : MemoryPlanner → Dict PoolKey ℕ → List Drift × MemoryPlanner
unfolding reconcile_all
reconcile m expected =
    let (pools, drifts, pending) = reconcile_all expected m.pools m.pending in
    (drifts, record m { pools = pools; pending = pending })
