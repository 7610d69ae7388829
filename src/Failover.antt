-- ===== src/Failover.antt =====
-- Region failure (crates/pt-control-plane/src/failover.rs): where each share goes when its region
-- fails, the headroom that holds for it, what a reservation holds in all, and the health of a region
-- from its gateways' heartbeats. A timestamp is a number, and a difference of two that would be
-- negative is zero, which the code compares with a timeout alike. The DNS weights are floats and are
-- left out.
pub mod Growth
use Prim.Native.String.{compare}
use Prim.Native.Nat.{Ordering}
use mathlib.Core.Option
use provisioned_throughput.Base.{
  ℕ, ◌+◌, ◌-◌, max, Bool, true, false, not, Option, none, some, List, [], ◌∷◌, String, map, filter,
  find, any, length, unwrap_or, max?, min?, leb, ltb, ◌==◌, string_eq, if◌then◌else◌, w64,
}
use provisioned_throughput.Base.Words.{w32}
use provisioned_throughput.Base.Dict
use provisioned_throughput.Base.Dict.{Dict}
use provisioned_throughput.Model.{RegionShare, Sku, regional, multi_region}
use provisioned_throughput.Model.Requests.{Heartbeat}

-- `RegionConfig` (crates/pt-control-plane/src/config.rs)
pub record RegionConfig : Type 0 where
  pub name : String
  pub token : String
  pub pair : Option String
  pub residency : Option String

-- `ControlPlaneConfig::region`
unfoldable pub region_config : List RegionConfig → String → Option RegionConfig
region_config config name = find (λ r. r.name == name) config

-- `regions.iter().find(|r| r.region == region).map_or(0, |r| r.cus)`
unfoldable pub cus_of : String → List RegionShare → ℕ
cus_of region [] = 0
cus_of region (s ∷ rest) = if s.region == region then s.cus else cus_of region rest

abbrev pub has_region : String → List RegionShare → Bool
has_region region = any (λ r. r.region == region)

-- `max_by(|a, b| a.cus.cmp(&b.cus).then_with(|| b.region.cmp(&a.region)))`, which keeps the later of
-- two that compare equal: whether `b` replaces `a`.
unfoldable replaces : RegionShare → RegionShare → Bool
replaces a b =
    if ltb a.cus b.cus
    then true
    else if ltb b.cus a.cus
    then false
    else elim (compare b.region a.region) [ Ordering.gt ↦ false | _ ↦ true ]

unfoldable largest_from : RegionShare → List RegionShare → RegionShare
unfolding replaces
largest_from best [] = best
largest_from best (s ∷ rest) = largest_from (if replaces best s then s else best) rest

unfoldable largest : List RegionShare → Option RegionShare
unfolding largest_from
largest [] = none
largest (s ∷ rest) = some (largest_from s rest)

-- The closure of `failover_targets`: the target of one region.
unfoldable paired : List RegionConfig → List RegionShare → String → Option String
unfolding region_config
paired config regions from = elim (region_config config from) [
  | none ↦ none
  | some c ↦ elim c.pair [ none ↦ none | some p ↦ if has_region p regions then some p else none ]
]

unfoldable target_of : List RegionConfig → List RegionShare → String → Option String
unfolding paired largest
target_of config regions from = elim (paired config regions from) [
  | some p ↦ some p
  | none ↦ Option.map (λ r. r.region) (largest (filter (λ r. not (r.region == from)) regions))
]

unfoldable targets_from :
    List RegionConfig → List RegionShare → List RegionShare → List (String × String)
unfolding target_of
targets_from config regions [] = []
targets_from config regions (s ∷ rest) =
    let more = targets_from config regions rest in
    elim (target_of config regions s.region) [ none ↦ more | some to ↦ (s.region, to) ∷ more ]

-- `failover_targets`
unfoldable pub failover_targets : List RegionConfig → List RegionShare → List (String × String)
unfolding targets_from
failover_targets config regions = targets_from config regions regions

-- `match out.iter_mut().find(|r| r.region == region) { Some(r) => …, None => out.push(…) }`
unfoldable pub merge : (ℕ → ℕ → ℕ) → RegionShare → List RegionShare → List RegionShare
merge f s [] = s ∷ []
merge f s (r ∷ rest) =
    let more = merge f s rest in
    if r.region == s.region then record r { cus = f r.cus s.cus } ∷ rest else r ∷ more

-- The loop of `headroom`.
unfoldable pub absorb :
    List RegionShare → List (String × String) → List RegionShare → List RegionShare
unfolding merge cus_of
absorb regions [] out = out
absorb regions ((from, to) ∷ rest) out =
    absorb regions rest (merge max (record { region = to; cus = cus_of from regions }) out)

-- `sort_by(|a, b| a.region.cmp(&b.region))`, a stable sort
unfoldable pub insert_by_region : RegionShare → List RegionShare → List RegionShare
insert_by_region s [] = s ∷ []
insert_by_region s (r ∷ rest) =
    let more = insert_by_region s rest in
    elim (compare r.region s.region) [ Ordering.lt ↦ r ∷ more | _ ↦ s ∷ r ∷ rest ]

unfoldable pub sort_by_region : List RegionShare → List RegionShare
unfolding insert_by_region
sort_by_region [] = []
sort_by_region (s ∷ rest) = insert_by_region s (sort_by_region rest)

-- `headroom`
unfoldable pub headroom : List RegionConfig → Sku → List RegionShare → List RegionShare
unfolding failover_targets absorb sort_by_region
headroom config regional regions = []
headroom config multi_region regions =
    sort_by_region (absorb regions (failover_targets config regions) [])

-- `footprint`
unfoldable pub footprint : List RegionShare → List RegionShare → List RegionShare
unfolding merge
footprint out [] = out
footprint out (h ∷ rest) = footprint (merge (λ a b. w32 (a + b)) h out) rest

-- `growth`
unfoldable pub growth : List RegionShare → List RegionShare → List RegionShare
unfolding cus_of
growth old [] = []
growth old (n ∷ rest) =
    let more = growth old rest in
    if ltb (cus_of n.region old) n.cus
    then record { region = n.region; cus = n.cus - cus_of n.region old } ∷ more
    else more

-- `Health`
pub data Health : Type 0 where
  unknown serving down : Health

-- `RegionStatus`
pub record RegionStatus : Type 0 where
  pub region : String
  pub health : Health
  pub gateways : ℕ
  pub serving_gateways : ℕ
  pub last_serving_at : Option ℕ
  pub serving_since : Option ℕ
  pub snapshot_key_ids : Dict String ℕ

-- `GatewayHeartbeat`
pub record GatewayHeartbeat : Type 0 where
  pub region : String
  pub gateway_id : String
  pub last_seen : ℕ
  pub serving : Bool
  pub key_id : Option String
  pub last_serving_at : Option ℕ
  pub serving_since : Option ℕ

-- `now.duration_since(t) <= timeout`
abbrev is_fresh : ℕ → ℕ → ℕ → Bool
is_fresh now timeout t = leb (now - t) timeout

abbrev is_some_fresh : ℕ → ℕ → Option ℕ → Bool
is_some_fresh now timeout none = false
is_some_fresh now timeout (some t) = is_fresh now timeout t

abbrev last_serving : Option GatewayHeartbeat → Option ℕ
last_serving none = none
last_serving (some p) = p.last_serving_at

abbrev since_of : Option GatewayHeartbeat → Option ℕ
since_of none = none
since_of (some p) = p.serving_since

-- `next_heartbeat`
unfoldable pub next_heartbeat :
    Option GatewayHeartbeat → String → Heartbeat → ℕ → ℕ → GatewayHeartbeat
next_heartbeat prev region hb now timeout = record {
  region = region;
  gateway_id = hb.gateway_id;
  last_seen = now;
  serving = hb.serving;
  key_id = hb.key_id;
  last_serving_at = if hb.serving then some now else last_serving prev;
  serving_since =
      if hb.serving
      then some (
          if is_some_fresh now timeout (last_serving prev)
          then unwrap_or (since_of prev) now
          else now)
      else since_of prev;
}

-- `iter().filter_map(…)` on a field that may be absent
abbrev present : List (Option ℕ) → List ℕ
present [] = []
present (none ∷ rest) = present rest
present (some t ∷ rest) = t ∷ present rest

-- The loop that counts the keys of the recent gateways.
unfoldable count_keys : List GatewayHeartbeat → Dict String ℕ → Dict String ℕ
count_keys [] counts = counts
count_keys (g ∷ rest) counts =
    let key = unwrap_or g.key_id "unknown" in
    count_keys rest (Dict.insert key (w64 (unwrap_or (Dict.get key counts) 0 + 1)) counts)

-- `region_status`
unfoldable health_of : List GatewayHeartbeat → List GatewayHeartbeat → Health
health_of [] serving_now = unknown
health_of (g ∷ mine) [] = down
health_of (g ∷ mine) (s ∷ serving_now) = serving

unfoldable pub region_status : String → List GatewayHeartbeat → ℕ → ℕ → RegionStatus
unfolding count_keys health_of
region_status region gateways now timeout =
    let mine = filter (λ g. g.region == region) gateways in
    let recent = filter (λ g. is_fresh now timeout g.last_seen) mine in
    let serving_now = filter (λ g. is_some_fresh now timeout g.last_serving_at) mine in
    record {
      region = region;
      health = health_of mine serving_now;
      gateways = length recent;
      serving_gateways = length (filter (λ g. g.serving) recent);
      last_serving_at = max? (present (map (λ g. g.last_serving_at) mine));
      serving_since = min? (present (map (λ g. g.serving_since) serving_now));
      snapshot_key_ids = count_keys recent [];
    }
