-- ===== src/Validate.antt =====
-- Request validation (crates/pt-control-plane/src/validate.rs), with the lookups of the
-- configuration that it uses (config.rs). The two tests of floats in `shape`, and those of a boundary
-- policy, are parameters.
pub mod Name
pub mod Regions
use provisioned_throughput.Base.{
  ℕ, ◌≡◌, Bool, true, false, not, ◌&&◌, ◌||◌, Option, none, some, List, [], ◌∷◌, ◌++◌, String,
  filter, find, any, length, ltb, leb, ◌==◌, string_eq, option_eq, nat_eq, if◌then◌else◌,
}
use provisioned_throughput.Base.Result.{Result, ok, err, panicked, ◌>>=◌}
use provisioned_throughput.Core.{Tier, tier_eq, Shape}
use provisioned_throughput.Capacity.{CapacityConfig}
use provisioned_throughput.Model.{RegionShare, Sku, regional, multi_region, BoundaryPolicy}
use provisioned_throughput.Model.Requests.{CreateRequest}
use provisioned_throughput.Failover.{RegionConfig, region_config}
use provisioned_throughput.Errors.{ServiceError, validation}
use provisioned_throughput.Validate.Name.{is_name}

-- `ModelConfig`
pub record ModelConfig : Type 0 where
  pub id : String
  pub display_name : String
  pub max_context : ℕ
  pub tiers : List Tier

-- What validation reads of the configuration, and the tests on floats.
pub record Offer : Type 0 where
  pub models : List ModelConfig
  pub capacity : List CapacityConfig
  pub regions : List RegionConfig
  pub ratios_fit : Shape → Bool
  pub policy_fits : BoundaryPolicy → Bool

abbrev pub Checked : Type 0
Checked = Result ServiceError (Unit {0})

abbrev invalid : {A : Type 0} → String → Result ServiceError A
invalid field = err (validation field)

abbrev require : Bool → String → Checked
require true field = ok tt
require false field = invalid field

-- `name`
unfoldable pub name : String → Checked
unfolding is_name
name s = require (is_name s) "name"

-- `model`, with `ControlPlaneConfig::model`
unfoldable pub model : Offer → String → Result ServiceError ModelConfig
model offer id = elim (find (λ m. m.id == id) offer.models) [
  | none ↦ invalid "model"
  | some m ↦ ok m
]

-- `tier`
unfoldable pub tier : ModelConfig → Tier → Checked
tier m t = require (any (λ u. u == t) m.tiers) "tier"

-- `ControlPlaneConfig::regions_for`
abbrev pub contains : String → List String → Bool
contains x = any (λ y. y == x)

unfoldable distinct_regions : List CapacityConfig → List String → List String
distinct_regions [] out = out
distinct_regions (c ∷ rest) out =
    distinct_regions rest (if contains c.region out then out else out ++ c.region ∷ [])

unfoldable pub regions_for : Offer → String → List String
unfolding distinct_regions
regions_for offer model = distinct_regions (filter (λ c. c.model == model) offer.capacity) []

-- The loop of `regions`; `seen` is the set of the regions before.
unfoldable pub each_region : List String → List String → List RegionShare → Checked
each_region offered seen [] = ok tt
each_region offered seen (r ∷ rest) =
    let more = each_region offered (r.region ∷ seen) rest in
    if contains r.region seen
    then invalid "regions"
    else if ltb r.cus 1
    then invalid "regions"
    else if contains r.region offered
    then more
    else invalid "regions"

-- A region's data-residency zone.
unfoldable zone : Offer → RegionShare → Option String
unfolding region_config
zone offer r = elim (region_config offer.regions r.region) [ none ↦ none | some c ↦ c.residency ]

unfoldable pub one_zone : Offer → List RegionShare → Bool
unfolding zone
one_zone offer [] = true
one_zone offer (first ∷ rest) =
    not (any (λ r. not (zone offer r == zone offer first)) (first ∷ rest))

abbrev pub is_multi_region : Sku → Bool
is_multi_region regional = false
is_multi_region multi_region = true

abbrev pub max_regions : ℕ
max_regions = 8

-- `regions`
unfoldable pub regions : Offer → String → Sku → List RegionShare → Checked
unfolding regions_for each_region one_zone
regions offer model sku shares =
    if (length shares == 0) || ltb max_regions (length shares)
    then invalid "regions"
    else each_region (regions_for offer model) [] shares >>= λ _.
        (if is_multi_region sku && ltb (length shares) 2
          then invalid "sku"
          else if is_multi_region sku && not (one_zone offer shares)
          then invalid "regions"
          else ok tt)

-- `shape`
unfoldable pub shape : Offer → ModelConfig → Shape → Checked
shape offer m s =
    if ltb s.input_max s.input_p95
    then invalid "shape"
    else if ltb s.context_ceiling s.input_max
    then invalid "shape"
    else if (s.output_p95 == 0) || ltb s.context_ceiling s.output_p95
    then invalid "shape"
    else if ltb m.max_context s.context_ceiling
    then invalid "shape"
    else require (offer.ratios_fit s) "shape"

-- `boundary_policy`
unfoldable pub boundary_policy : Offer → BoundaryPolicy → Checked
boundary_policy offer p = require (offer.policy_fits p) "boundary_policy"

-- `create`
unfoldable pub create : Offer → CreateRequest → Checked
unfolding name model tier regions shape boundary_policy
create offer req = name req.name >>= λ _. model offer req.model >>= λ m. tier m req.tier >>= λ _.
    regions offer req.model req.sku req.regions >>= λ _.
    shape offer m req.shape >>= λ _. boundary_policy offer req.boundary_policy
