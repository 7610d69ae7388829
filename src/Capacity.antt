-- ===== src/Capacity.antt =====
-- What a CU costs each pool and tier, and the replicas scheduled to arrive
-- (crates/pt-control-plane/src/capacity.rs), with the pool entry of the configuration that both
-- read (config.rs). Dates (`jiff::Timestamp`) are numbers, and `Timestamp::MIN` is 0: the code
-- only compares them.
pub mod Tests
pub mod Arrivals
pub mod Configured
use provisioned_throughput.Base.{
  ℕ, ◌+◌, ◌*◌, ◌/◌, ◌≡◌, Bool, true, false, ◌&&◌, Option, none, some, List, [], ◌∷◌, String, map,
  min, filter, find, sum, unwrap_or, w64, ltb, leb, u32_max, ◌==◌, string_eq, pair_eq,
  if◌then◌else◌,
}
use mathlib.Core.Option
use provisioned_throughput.Base.Dict
use provisioned_throughput.Base.Dict.{Dict}
use provisioned_throughput.Core.{Tier, tier_eq}

-- `MICRO`: micro-replicas in a replica.
abbrev pub micro : ℕ
micro = 1000000

-- A pool: its region and its id there.
abbrev pub PoolKey : Type 0
PoolKey = String × String

abbrev pub same_pool : PoolKey → PoolKey → Bool
same_pool k j = k == j

-- `CapacityConfig`
pub record CapacityConfig : Type 0 where
  pub region : String
  pub model : String
  pub pool : Option String
  pub replicas : ℕ
  pub max_context : ℕ
  pub profile : String

-- `CapacityConfig::pool_id`
unfoldable pub pool_id : CapacityConfig → String
pool_id c = unwrap_or c.pool c.model

-- `CapacityChange`: replicas that arrive at a date.
pub record CapacityChange : Type 0 where
  pub region : String
  pub model : String
  pub pool : Option String
  pub from : ℕ
  pub add_replicas : ℕ

pub record PoolShare : Type 0 where
  pub region : String
  pub pool : String
  pub cus : ℕ

-- `Costs`
pub record Costs : Type 0 where
  pub per_cu : Dict (PoolKey × Tier) ℕ

-- `Costs::insert`
unfoldable insert_cost : Costs → String → String → Tier → ℕ → Costs
insert_cost c region pool tier micro_per_cu = record {
  per_cu = Dict.insert ((region, pool), tier) micro_per_cu c.per_cu;
}

-- `Costs::per_cu`
unfoldable pub cost_per_cu : Costs → String → String → Tier → Option ℕ
cost_per_cu c region pool tier = Dict.get ((region, pool), tier) c.per_cu

-- `Costs::share`
unfoldable pub share_cost : Costs → Tier → PoolShare → Option ℕ
unfolding cost_per_cu
share_cost c tier s =
    Option.map (λ per_cu. w64 (per_cu * s.cus)) (cost_per_cu c s.region s.pool tier)

-- `Costs::cus_in`. The division of the source panics on a cost of zero, which `micro_per_cu` never
-- yields for a pool with a positive price; the model's division by zero is zero, and what is
-- proved of it takes a positive cost.
unfoldable pub cus_in : Costs → String → String → Tier → ℕ → Option ℕ
unfolding cost_per_cu
cus_in c region pool tier free =
    Option.map (λ per_cu. min (free / per_cu) u32_max) (cost_per_cu c region pool tier)

-- A date, and the micro-replicas that arrive on it.
abbrev pub Arrival : Type 0
Arrival = ℕ × ℕ

-- `Schedule`
pub record Schedule : Type 0 where
  pub added : Dict PoolKey (List Arrival)

-- `sort_by_key(|(t, _)| *t)`, the standard library's stable sort, as an insertion sort.
unfoldable pub insert_by_date : Arrival → List Arrival → List Arrival
insert_by_date a [] = a ∷ []
insert_by_date a (b ∷ bs) = if leb a.0 b.0 then a ∷ b ∷ bs else b ∷ insert_by_date a bs

unfoldable pub sort_by_date : List Arrival → List Arrival
unfolding insert_by_date
sort_by_date [] = []
sort_by_date (a ∷ rest) = insert_by_date a (sort_by_date rest)

-- `Vec::push`
unfoldable pub push : List Arrival → Arrival → List Arrival
push [] a = a ∷ []
push (b ∷ bs) a = b ∷ push bs a

-- The arrivals of a pool; none if it has no entry.
unfoldable pub arrivals : Schedule → String → String → List Arrival
arrivals s region pool = unwrap_or (Dict.get (region, pool) s.added) []

-- `Schedule::add`
unfoldable pub add_arrival : Schedule → String → String → ℕ → ℕ → Schedule
unfolding arrivals
add_arrival s region pool from replicas = record {
  added =
      Dict.insert (region, pool)
        (sort_by_date (push (arrivals s region pool) (from, replicas * micro))) s.added;
}

-- `Schedule::added_by`
unfoldable pub added_by : Schedule → String → String → ℕ → ℕ
unfolding arrivals
added_by s region pool at =
    w64 (sum (map (λ a. a.1) (filter (λ a. leb a.0 at) (arrivals s region pool))))

-- `Schedule::dates_after`
unfoldable pub dates_after : Schedule → String → String → ℕ → List ℕ
unfolding arrivals
dates_after s region pool after =
    filter (λ t. ltb after t) (map (λ a. a.0) (arrivals s region pool))

-- `ControlPlaneConfig::pools_for`: the region's entries for a model, in configuration order.
unfoldable pub pools_for : List CapacityConfig → String → String → List CapacityConfig
pools_for cs region model = filter (λ c. c.region == region && c.model == model) cs

-- `slice::first`
abbrev pub first? {ℓ} : {A : Type ℓ} → List A → Option A
first? [] = none
first? (x ∷ xs) = some x

-- `ControlPlaneConfig::capacity_for`: the region's default pool for the model, else its first.
unfoldable pub capacity_for : List CapacityConfig → String → String → Option CapacityConfig
unfolding pools_for pool_id
capacity_for cs region model =
    let pools = pools_for cs region model in
    elim (find (λ c. pool_id c == model) pools) [ some c ↦ some c | none ↦ first? pools ]

-- The pool that a change is for: the one it names, or else the region's entry for the model.
unfoldable pub change_pool : List CapacityConfig → CapacityChange → Option String
unfolding capacity_for pool_id
change_pool cs c = elim c.pool [
  | some p ↦ some p
  | none ↦ Option.map pool_id (capacity_for cs c.region c.model)
]

-- The loop of `Schedule::from_config`, which pushes each change to its pool's entry.
unfoldable pub collect_changes :
    List CapacityConfig
    → List CapacityChange
    → Dict PoolKey (List Arrival)
    → Dict PoolKey (List Arrival)
unfolding change_pool
collect_changes cs [] added = added
collect_changes cs (c ∷ rest) added = collect_changes cs rest (elim (change_pool cs c) [
  | none ↦ added
  | some pool ↦
      Dict.insert (c.region, pool)
        (push (unwrap_or (Dict.get (c.region, pool) added) []) (c.from, c.add_replicas * micro))
        added
])

-- `for v in added.values_mut() { v.sort_by_key(…) }`
unfoldable pub sort_entries : Dict PoolKey (List Arrival) → Dict PoolKey (List Arrival)
unfolding sort_by_date
sort_entries [] = []
sort_entries ((k, v) ∷ d) = (k, sort_by_date v) ∷ sort_entries d

-- `Schedule::from_config`
unfoldable pub schedule_from_config : List CapacityConfig → List CapacityChange → Schedule
unfolding collect_changes sort_entries
schedule_from_config cs changes = record { added = sort_entries (collect_changes cs changes []) }
