-- ===== src/Service/Update.antt =====
-- What an update of a reservation changes (`apply_update` in
-- crates/pt-control-plane/src/service.rs), part by part of the request, as steps that edit it: the
-- name, the policy, the renewal, rebalancing and the tier here, the regions and the rest in the
-- children. The tests `==` that compare floats, and the prorated charge, are parameters (`Figures`).
pub mod Regions
pub mod Apply
pub mod Request
pub mod Increases
pub mod AtOnce
pub mod Kept
pub mod Applied
pub mod Stored
pub mod Priced
pub mod Tests
use provisioned_throughput.Base.{
  ℕ, ◌+◌, ◌-◌, ◌*◌, Bool, true, false, not, ◌&&◌, ◌||◌, Option, none, some, List, [], ◌∷◌, ◌++◌,
  String, map, filter, find, length, unwrap_or, ltb, w64, ◌==◌, string_eq, nat_eq, if◌then◌else◌,
  ◌⊎◌, inl, inr,
}
use provisioned_throughput.Base.Words.{w32}
use provisioned_throughput.Base.Result.{ok, err}
use provisioned_throughput.Core.{Tier, tier_eq, Shape, months}
use provisioned_throughput.Planner.Memory.{check_shape}
use provisioned_throughput.Model.{
  RegionShare, total_cus, State, BoundaryPolicy, PendingChanges, ProvisionedThroughput, renamed,
  boundary_policy_updated, cancellation_withdrawn, auto_renew_changed, rebalance_changed,
  split_rebalanced, capacity_increased, shape_updated, change_scheduled,
}
use provisioned_throughput.Model.Requests.{UpdateRequest}
use provisioned_throughput.Failover.{headroom, footprint, has_region, cus_of}
use provisioned_throughput.Errors.{ServiceError, conflict, of_plan}
use provisioned_throughput.Service.{
  Settings, push_event, plan_reserve, plan_release, as_claims, held, record_placed, pooled, claims,
  endpoints, check,
}
use provisioned_throughput.Service.Holds.{sales_open}
use provisioned_throughput.Service.Lifecycle.{reserved, released, same_shares, is_scheduled}
use provisioned_throughput.Service.Moves.{
  Draft, E, then_edit, ◌>>=◌, ◌>>◌, done, fail, edit, note, on_service, placed_or_fail, is_empty,
  move_capacity,
}

-- The derived `==` on types with floats, and `prorated_increase` (src/pricing.rs of the crate).
pub record Figures : Type 0 where
  pub same_shape : Shape → Shape → Bool
  pub same_policy : BoundaryPolicy → BoundaryPolicy → Bool
  pub same_reservation : ProvisionedThroughput → ProvisionedThroughput → Bool
  pub prorated_increase : ℕ → ℕ → ℕ → ℕ → ℕ → ℕ → ℕ

abbrev pub bool_eq : Bool → Bool → Bool
bool_eq true b = b
bool_eq false b = not b

abbrev pub is_pending_cancellation : State → Bool
is_pending_cancellation State.pending_cancellation = true
is_pending_cancellation _ = false

abbrev pub is_change : {A : Type 0} → Option (Option A) → Bool
is_change (some (some a)) = true
is_change _ = false

abbrev pub is_some : {A : Type 0} → Option A → Bool
is_some none = false
is_some (some a) = true

module _ (c : Settings) (f : Figures) (now : ℕ) where
  unfoldable pub rename : Option String → ProvisionedThroughput → ProvisionedThroughput
  rename none pt = pt
  rename (some n) pt =
      if n == pt.name then pt else push_event now (renamed n) (record pt { name = n })

  unfoldable pub set_policy : Option BoundaryPolicy → ProvisionedThroughput → ProvisionedThroughput
  set_policy none pt = pt
  set_policy (some p) pt =
      if f.same_policy p pt.boundary_policy
      then pt
      else push_event now boundary_policy_updated (record pt { boundary_policy = p })

  unfoldable pub set_auto_renew : Option Bool → ProvisionedThroughput → ProvisionedThroughput
  set_auto_renew none pt = pt
  set_auto_renew (some v) pt =
      if v && is_pending_cancellation pt.state
      then push_event now cancellation_withdrawn
          (record pt { state = State.active; auto_renew = true })
      else if bool_eq v pt.auto_renew
      then pt
      else push_event now (auto_renew_changed v) (record pt { auto_renew = v })

  -- Rebalancing turned off: back to the contracted split.
  unfoldable pub to_contract : E (Unit {0})
  unfolding headroom footprint move_capacity
  to_contract d =
      (do
        let spare = headroom c.offer.regions d.pt.sku d.pt.regions
        move_capacity c now (footprint d.pt.regions spare) d.pt.shape
        edit (λ pt.
            push_event now (split_rebalanced pt.effective_regions pt.regions)
              (record pt { effective_regions = []; failover_headroom = spare })))
        d

  unfoldable pub set_rebalance : Option Bool → E (Unit {0})
  unfolding to_contract
  set_rebalance none d = (ok tt, d)
  set_rebalance (some v) d =
      if bool_eq v d.pt.rebalance
      then (ok tt, d)
      else (do
        edit (λ pt. push_event now (rebalance_changed v) (record pt { rebalance = v }))
        (if not v && not (is_empty d.pt.effective_regions) then to_contract else done tt))
          d

  -- A change of the tier before the term: the amount at the new tier is held instead.
  unfoldable pub change_tier : Shape → Tier → E (Unit {0})
  unfolding pooled plan_release plan_reserve as_claims
  change_tier shape tier d =
      (do
        let pt = d.pt
        let current = pooled c pt
        on_service (plan_release pt.tier current)
        note (released pt.tier current)
        answer ← on_service (plan_reserve pt.model tier (as_claims current) shape pt.term_start)
        placed ← placed_or_fail answer
        note (reserved tier placed)
        edit (λ pt. record pt { tier = tier }))
        d

  -- The change of the tier that is scheduled: `some none` reverts one.
  unfoldable pub set_tier : Bool → Shape → Option Tier → E (Option (Option Tier))
  unfolding change_tier
  set_tier not_started shape none d = (ok none, d)
  set_tier true shape (some tier) d =
      if tier == d.pt.tier then (ok none, d) else (do change_tier shape tier; done none) d
  set_tier false shape (some tier) d =
      if tier == d.pt.tier then (ok (some none), d) else (ok (some (some tier)), d)
