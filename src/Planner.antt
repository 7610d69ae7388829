-- ===== src/Planner.antt =====
-- Capacity feasibility (crates/pt-control-plane/src/planner.rs): the types `PlanError`, `Claim` and
-- `PoolView`, and the pure placement rule `place` with `fits_from` and `largest_free_cus`. The
-- children hold the in-memory planner and the proofs.
pub mod BestFit
pub mod Eligible
pub mod Costed
pub mod Place
pub mod Available
pub mod Memory
mod Tests
use provisioned_throughput.Base.{
  ℕ, ◌+◌, ◌-◌, ◌*◌, Bool, true, false, ◌&&◌, Option, none, some, List, [], ◌∷◌, String, map, filter,
  find, unwrap_or, max?, min?, w64, u64_mod, leb, ltb, ◌==◌, string_eq, if◌then◌else◌,
}
use provisioned_throughput.Base.Result.{Result, ok, err}
use provisioned_throughput.Core.{Tier, Shape}
use provisioned_throughput.Capacity.{
  micro, CapacityConfig, pool_id, Costs, cost_per_cu, cus_in, Schedule, added_by, dates_after,
}

-- `PlanError`
pub data PlanError : Type 0 where
  not_offered : (region model : String) → PlanError
  capacity_unavailable :
      (region model : String) (tier : Tier) (requested available : ℕ) (available_from : Option ℕ)
      → PlanError
  shape_unsupported : (region model : String) (max_context needed : ℕ) → PlanError
  unavailable : String → PlanError

-- `Claim`
pub record Claim : Type 0 where
  pub region : String
  pub pool : Option String
  pub cus : ℕ

-- `PoolView`
pub record PoolView : Type 0 where
  pub region : String
  pub pool : String
  pub model : String
  pub capacity : ℕ
  pub reserved : ℕ
  pub max_context : ℕ

-- `PoolView::from_config`
unfoldable pub from_config : CapacityConfig → PoolView
from_config c = record {
  region = c.region;
  pool = pool_id c;
  model = c.model;
  capacity = c.replicas * micro;
  reserved = 0;
  max_context = c.max_context;
}

-- The sum inside `PoolView::free_at`: micro-replicas that a pool has at a date.
unfoldable pub capacity_at : Schedule → ℕ → PoolView → ℕ
capacity_at schedule at p = w64 (p.capacity + added_by schedule p.region p.pool at)

-- `PoolView::free_at`. `saturating_sub` is the subtraction of ℕ.
unfoldable pub free_at : Schedule → ℕ → PoolView → ℕ
unfolding capacity_at
free_at schedule at p = capacity_at schedule at p - p.reserved

-- The two filters of `place`: the region's pools for the model, and of those the named one.
unfoldable pub is_candidate : Claim → String → PoolView → Bool
is_candidate claim model p =
    (p.region == claim.region && p.model == model)
    && elim claim.pool [ none ↦ true | some n ↦ n == p.pool ]

-- The third filter: the pool serves the shape's longest context.
unfoldable pub can_serve : Shape → PoolView → Bool
can_serve shape p = leb shape.context_ceiling p.max_context

-- `filter_map` of the pools that have a cost at the tier, each with its cost.
unfoldable pub costed_pools : Costs → Tier → List PoolView → List (PoolView × ℕ)
costed_pools costs tier [] = []
costed_pools costs tier (p ∷ ps) =
    let rest = costed_pools costs tier ps in
    elim (cost_per_cu costs p.region p.pool tier) [ none ↦ rest | some c ↦ (p, c) ∷ rest ]

-- `per_cu * u64::from(claim.cus)`
unfoldable pub need_of : ℕ → ℕ → ℕ
need_of cus per_cu = w64 (per_cu * cus)

-- The best fit so far: the pool, what the claim needs there, and what that leaves free.
pub record Fit : Type 0 where
  pub chosen : PoolView
  pub need : ℕ
  pub slack : ℕ

abbrev pub offer : PoolView → ℕ → ℕ → Option Fit → Option Fit
offer p need slack none = some (record { chosen = p; need = need; slack = slack })
offer p need slack (some best) =
    if ltb slack best.slack
    then some (record { chosen = p; need = need; slack = slack })
    else some best

-- One round of the loop over the costed pools.
unfoldable pub fit_step : Schedule → ℕ → ℕ → PoolView → ℕ → Option Fit → Option Fit
unfolding need_of
fit_step schedule at cus p per_cu best =
    let need = need_of cus per_cu in
    let free = free_at schedule at p in
    if ltb free need then best else offer p need (free - need) best

-- The loop.
unfoldable pub best_fit : Schedule → ℕ → ℕ → List (PoolView × ℕ) → Option Fit → Option Fit
unfolding fit_step
best_fit schedule at cus [] best = best
best_fit schedule at cus ((p, per_cu) ∷ ps) best =
    best_fit schedule at cus ps (fit_step schedule at cus p per_cu best)

-- `fits_from`. The difference of two `u64` wraps, so the modulus is added first.
unfoldable fits_from : Schedule → String → String → ℕ → ℕ → ℕ → Option ℕ
fits_from schedule region pool at free need =
    let now_added = added_by schedule region pool at in
    find (λ d. leb need (w64 (free + (added_by schedule region pool d + u64_mod - now_added))))
      (dates_after schedule region pool at)

-- The CUs that the error reports as available: the most that any one pool could take.
unfoldable pub available_in : Costs → Tier → Schedule → ℕ → List (PoolView × ℕ) → ℕ
available_in costs tier schedule at costed =
    unwrap_or
      (max? (
        map (λ (p, c). unwrap_or (cus_in costs p.region p.pool tier (free_at schedule at p)) 0)
          costed))
      0

-- The dates that the error reports, one for each pool that scheduled capacity will make fit.
unfoldable fit_dates : Schedule → ℕ → ℕ → List (PoolView × ℕ) → List ℕ
unfolding fits_from need_of
fit_dates schedule at cus [] = []
fit_dates schedule at cus ((p, c) ∷ ps) =
    let rest = fit_dates schedule at cus ps in
    elim (fits_from schedule p.region p.pool at (free_at schedule at p) (need_of cus c)) [
      | none ↦ rest
      | some d ↦ d ∷ rest
    ]

-- The end of `place`, once the pools that can serve and cost the claim are known.
unfoldable pub choose :
    Claim
    → String
    → Tier
    → ℕ
    → List (PoolView × ℕ)
    → Costs
    → Schedule
    → Result PlanError (Option (String × ℕ))
unfolding best_fit available_in fit_dates
choose claim model tier at costed costs schedule =
    elim (best_fit schedule at claim.cus costed none) [
      | some best ↦ ok (some (best.chosen.pool, best.need))
      | none ↦ err (
          capacity_unavailable claim.region model tier claim.cus
            (available_in costs tier schedule at costed)
            (min? (fit_dates schedule at claim.cus costed)))
    ]

abbrev pub is_empty {ℓ} : {A : Type ℓ} → List A → Bool
is_empty [] = true
is_empty (x ∷ xs) = false

-- `place`
unfoldable pub place :
    Claim
    → String
    → Tier
    → Shape
    → Option ℕ
    → List PoolView
    → Costs
    → Schedule
    → Result PlanError (Option (String × ℕ))
unfolding is_candidate can_serve costed_pools choose
place claim model tier shape at pools costs schedule =
    let candidates = filter (is_candidate claim model) pools in
    let serving = filter (can_serve shape) candidates in
    let costed = costed_pools costs tier serving in
    if is_empty candidates
    then err (not_offered claim.region model)
    else if is_empty serving
    then err (
        shape_unsupported claim.region model
          (unwrap_or (max? (map (λ p. p.max_context) candidates)) 0) shape.context_ceiling)
    else elim at [
      | none ↦ ok none
      | some t ↦
          if is_empty costed
          then err (not_offered claim.region model)
          else choose claim model tier t costed costs schedule
    ]

-- `filter_map` of the CUs that fit each pool of `model` in `region`.
unfoldable free_cus : String → String → Tier → ℕ → Costs → Schedule → List PoolView → List ℕ
free_cus region model tier at costs schedule [] = []
free_cus region model tier at costs schedule (p ∷ ps) =
    let rest = free_cus region model tier at costs schedule ps in
    if p.region == region && p.model == model
    then elim (cus_in costs p.region p.pool tier (free_at schedule at p)) [
      | none ↦ rest
      | some n ↦ n ∷ rest
    ]
    else rest

-- `largest_free_cus`
unfoldable pub largest_free_cus :
    List PoolView → String → String → Tier → ℕ → Costs → Schedule → Option ℕ
unfolding free_cus
largest_free_cus pools region model tier at costs schedule =
    max? (free_cus region model tier at costs schedule pools)
