-- ===== src/Service/Create/Tests.antt =====
-- A creation that is sent twice.
use provisioned_throughput.Base.{◌≡◌, refl, true, false, none, some, [], ◌∷◌, String, w64}
use provisioned_throughput.Base.Result.{ok}
use provisioned_throughput.Core.{Tier, TermMonths}
use provisioned_throughput.Capacity.{CapacityConfig, cost_per_cu, added_by}
use provisioned_throughput.Model.{Sku, PoolIsolation, ProvisionedThroughput}
use provisioned_throughput.Model.Requests.{CreateRequest}
use provisioned_throughput.Planner.Memory
use provisioned_throughput.Planner.{place, free_at}
use provisioned_throughput.Base.Dict
use provisioned_throughput.Base.Sort
use provisioned_throughput.Store
use provisioned_throughput.Store.{MemoryStore}
use provisioned_throughput.Service.{Settings, Service, record_placed}
use provisioned_throughput.Service.Sample
use provisioned_throughput.Service.Create.{Draw, new_reservation, create}
use provisioned_throughput.Service.Create.Replay.{create-create}

abbrev pool : CapacityConfig
pool = record {
  region = "eu";
  model = "m";
  pool = some "p";
  replicas = 3;
  max_context = 4000;
  profile = "p";
}

abbrev settings : Settings
settings = record Sample.settings {
  offer = record Sample.settings.offer {
    models =
        record { id = "m"; display_name = "M"; max_context = 4000; tiers = Tier.standard ∷ [] }
        ∷ [];
    capacity = pool ∷ [];
    regions = record { name = "eu"; token = "t"; pair = none; residency = none } ∷ [];
  };
}

abbrev running : Service
running = record Sample.running {
  store = record Sample.stored { by_id = [] };
  planner = record Sample.planner {
    pools =
        record {
          region = "eu";
          pool = "p";
          model = "m";
          max_context = 4000;
          capacity = 3000000;
          reserved = 0;
        }
        ∷ [];
    costs = record { per_cu = ((("eu", "p"), Tier.standard), 400000) ∷ [] };
  };
}

abbrev request : CreateRequest
request = record {
  name = "chat";
  model = "m";
  tier = Tier.standard;
  regions = record { region = "eu"; cus = 2 } ∷ [];
  sku = Sku.regional;
  isolation = PoolIsolation.shared;
  term_months = TermMonths.one;
  start_at = none;
  auto_renew = true;
  shape = Sample.shape;
  boundary_policy = record { burst = none; queue = none; spillover = false };
  rebalance = false;
}

abbrev draw : String → Draw
draw id = record {
  id = id;
  deployment = id;
  key = record { id = id; prefix = "pt"; sha256 = "a" };
  secret = "s";
}

abbrev after : Service
after = (create settings (draw "r1") 50 "acme" (some "k") "f" request running).1

abbrev sold : ProvisionedThroughput
sold =
    record_placed (record { region = "eu"; pool = "p"; cus = 2 } ∷ [])
      (new_reservation settings (draw "r1") 50 "acme" 50 [] request)

create-create_example :
    create settings (draw "r2") 60 "acme" (some "k") "f" request after
    ≡ (ok (record { resource = sold; api_key = none; replayed = true }), after)
unfolding create Dict.get Sort.sort_by Store.list Memory.reserve place cost_per_cu free_at w64
    added_by
create-create_example =
    create-create settings (draw "r1") (draw "r2") 50 60 "acme" "k" "f" request request
      (record { resource = sold; api_key = some "s"; replayed = false }) running after refl
