-- ===== src/Service/Moves/Tests.antt =====
-- Moves of the sample reservation's capacity, on a planner with two pools of one region.
use provisioned_throughput.Base.{◌+◌, arith, inl, ◌≡◌, refl, some, List, [], ◌∷◌, ◌++◌, w64}
use provisioned_throughput.Base.Dict
use provisioned_throughput.Core.{Tier}
use provisioned_throughput.Capacity.{
  CapacityConfig, Costs, pool_id, cost_per_cu, added_by, arrivals, share_cost, capacity_for,
  pools_for, cus_in, dates_after,
}
use provisioned_throughput.Planner.{PoolView, need_of, place, from_config, free_at, capacity_at}
use provisioned_throughput.Planner.Memory.{MemoryPlanner, new, reserve, release, is_at, find_pool}
use provisioned_throughput.Model.{RegionShare, effective, is_live}
use provisioned_throughput.Failover.{cus_of, growth, footprint}
use provisioned_throughput.Errors.{conflict, from_store}
use provisioned_throughput.Store.{update}
use provisioned_throughput.Service.{
  Settings, Service, held, on_pools, pool_of, claims, plan_reserve,
}
use provisioned_throughput.Service.Sample.{sample, stored, running, settings, shape}
use provisioned_throughput.Service.Moves.Called.{Calls}
use provisioned_throughput.Service.Lifecycle.{PlanOp}
use provisioned_throughput.Service.Moves.{Draft, in_region, move_capacity}
use provisioned_throughput.Service.Moves.Taken.{taken, given}
use provisioned_throughput.Service.Moves.Balance.{move_capacity-balance}
use provisioned_throughput.Service.Moves.ToPool.{move_held}
use provisioned_throughput.Service.Moves.Restored.{IsHome, move_held-unchanged}

abbrev pool : CapacityConfig
pool = record {
  region = "eu";
  model = "m";
  pool = some "p";
  replicas = 3;
  max_context = 4000;
  profile = "fast";
}

abbrev pools : List CapacityConfig
pools = pool ∷ record pool { pool = some "q"; replicas = 1 } ∷ []

abbrev costs : Costs
costs = record {
  per_cu = ((("eu", "p"), Tier.standard), 400000) ∷ ((("eu", "q"), Tier.standard), 500000) ∷ [];
}

abbrev planner : MemoryPlanner
planner = new pools costs (record { added = [] })

abbrev pub placed : Settings
placed = record settings { offer = record settings.offer { capacity = pools } }

abbrev service : Service
service = record running { planner = planner }

abbrev pub draft : Draft
draft = record { pt = sample; ops = []; service = service }

abbrev pub eu : List RegionShare
eu = record { region = "eu"; cus = 5 } ∷ []

abbrev after : Draft
after = (move_capacity placed 50 eu shape draft).1

-- From three CUs to five.
move_capacity-balance_example :
    (ops : List PlanOp) × (after.ops ≡ [] ++ ops)
    × Calls planner ops after.service.planner
    × (cus_of "eu" (held sample) + taken "eu" ops ≡ cus_of "eu" eu + given "eu" ops)
unfolding new move_capacity held footprint effective growth cus_of claims pool_of plan_reserve
    reserve place from_config pool_id cost_per_cu Dict.get added_by w64 free_at capacity_at
    capacity_for pools_for
move_capacity-balance_example =
    move_capacity-balance placed 50 "eu" eu shape draft after (tt, tt) (tt, tt) ((pool, refl), tt)
      refl

-- The pool that the sample's three CUs stand on, and a larger one beside it.
abbrev home : PoolView
home = record {
  region = "eu";
  pool = "p";
  model = "m";
  max_context = 4000;
  capacity = 3000000;
  reserved = 1200000;
}

abbrev away : PoolView
away = record home { pool = "q"; reserved = 0 }

-- Another client has saved the reservation since it was read: it has a later version.
abbrev overtaken : Service
overtaken = record running {
  store = record stored { by_id = ("r1", record sample { version = 5 }) ∷ [] };
  planner = record planner { pools = home ∷ away ∷ [] };
}

overtaken-IsHome : IsHome placed sample "eu" 3 overtaken home
unfolding held footprint effective pool_of Dict.get find_pool is_at cost_per_cu need_of w64
    capacity_at added_by on_pools in_region arrivals new
overtaken-IsHome = record {
  held_on = refl;
  placed_on = refl;
  keyed = (refl, (refl, tt));
  words = (omega arith, (omega arith, tt));
  can_hold = record {
    cost = 400000;
    stands = inl refl;
    of_model = refl;
    serves = omega arith;
    costed = refl;
    counted = omega arith;
    fits = omega arith;
  };
}

-- The larger pool sells and the old one is released, and then the version has moved on.
move_held-unchanged_example :
    (move_held placed 50 sample "eu" "q" (some (record { region = "eu"; cus = 3 })) overtaken).1
    ≡ overtaken
unfolding cus_in dates_after move_held held footprint effective pool_of plan_reserve reserve place
    pool_id cost_per_cu Dict.get added_by w64 free_at capacity_at capacity_for pools_for is_live new
    update release is_at share_cost from_store
move_held-unchanged_example =
    move_held-unchanged placed 50 sample "eu" "q" (record { region = "eu"; cus = 3 }) overtaken _
      (conflict "concurrent_modification") home overtaken-IsHome refl
