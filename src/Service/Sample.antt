-- ===== src/Service/Sample.antt =====
-- A small service to run examples on: one stored reservation, and settings to go with it.
use provisioned_throughput.Base.{
  ◌+◌, ◌*◌, subst, true, false, none, some, List, [], ◌∷◌, inl, inr, leb, Bool-cases, ◌==◌,
  string_eq, some-eq, none-ne-some,
}
use provisioned_throughput.Base.Dict
use provisioned_throughput.Core.{Tier, Shape, TermMonths}
use provisioned_throughput.Model.{
  Sku, State, PoolIsolation, Price, ApiKey, Deployment, ProvisionedThroughput,
}
use provisioned_throughput.Planner.Memory.{MemoryPlanner}
use provisioned_throughput.Store.{MemoryStore}
use provisioned_throughput.Service.{Settings, Service}
use provisioned_throughput.Service.Runs.{Stored}

-- A reservation of one region, with one deployment whose key has been rotated once.
abbrev pub shape : Shape
shape = record {
  input_p95 = 100;
  input_max = 200;
  output_p95 = 50;
  context_ceiling = 1000;
  cache_hit_ratio = 0;
  burst_factor = 4607182418800017408;
}

abbrev pub current : ApiKey
current = record { id = "k2"; prefix = "pt"; sha256 = "b"; created_at = 20; expires_at = none }

abbrev pub old : ApiKey
old = record { id = "k1"; prefix = "pt"; sha256 = "a"; created_at = 10; expires_at = some 90 }

abbrev pub keys : List ApiKey
keys = old ∷ current ∷ []

abbrev pub primary : Deployment
primary = record { id = "d1"; name = "main"; max_share = none; api_keys = keys; created_at = 10 }

abbrev pub price : Price
price = record { currency = "eur"; per_cu_monthly = 100; monthly = 300 }

abbrev pub sample : ProvisionedThroughput
sample = record {
  id = "r1";
  tenant = "acme";
  name = "chat";
  model = "m";
  tier = Tier.standard;
  regions = record { region = "eu"; cus = 3 } ∷ [];
  cus = 3;
  sku = Sku.regional;
  isolation = PoolIsolation.shared;
  shape = shape;
  boundary_policy = record { burst = none; queue = none; spillover = false };
  term_months = TermMonths.one;
  term_start = 10;
  term_end = 40;
  auto_renew = true;
  state = State.active;
  pending_changes = none;
  endpoints = [];
  price = price;
  failover_headroom = [];
  rebalance = false;
  effective_regions = [];
  placements = record { region = "eu"; pool = "p" } ∷ [];
  deployments = primary ∷ [];
  version = 4;
  created_at = 10;
  updated_at = 20;
  events = [];
}

abbrev pub stored : MemoryStore
stored = record {
  by_id = ("r1", sample) ∷ [];
  idempotency = [];
  incidents = [];
  invoices = [];
  version = 7;
  heartbeats = [];
  leases = [];
  holds = [];
  reports = [];
}

abbrev pub planner : MemoryPlanner
planner = record {
  pools = [];
  costs = record { per_cu = [] };
  schedule = record { added = [] };
  pending = [];
}

abbrev pub running : Service
running = record { store = stored; planner = planner; changes = 7 }

pub Stored-one : (P : ProvisionedThroughput → Type 0) → P sample → Stored P running
unfolding Dict.get
Stored-one P p id pt e = elim (Bool-cases ("r1" == id)) [
  | inl t ↦ subst P (some-eq (rw t at e)) p
  | inr f ↦ absurd (none-ne-some (rw f at e))
]

abbrev pub settings : Settings
settings = record {
  offer = record {
    models = [];
    capacity = [];
    regions = [];
    ratios_fit = λ s. true;
    policy_fits = λ p. true;
  };
  region_url = λ r. r;
  price = λ tier isolation sku cus. record price { monthly = 100 * cus };
  add_months = λ t m. t + m * 30;
  is_share = leb 1;
  auto_declare = true;
  heartbeat_timeout = 5;
  recovery = 60;
  latest = 1000000;
  reason = λ e. "no capacity";
  outage = λ r. "no gateway serves";
}

-- The settings with a pool to sell from, and a paused store.
abbrev pub sells : Settings
sells = record settings {
  offer = record settings.offer {
    capacity =
        record {
          region = "eu";
          model = "m";
          pool = none;
          replicas = 3;
          max_context = 4000;
          profile = "p";
        }
        ∷ [];
  };
}
