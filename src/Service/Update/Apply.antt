-- ===== src/Service/Update/Apply.antt =====
-- The shape, the changes that wait for the next term, and the whole of `apply_update`
-- (crates/pt-control-plane/src/service.rs).
use provisioned_throughput.Base.{
  ℕ, ◌&&◌, ◌||◌, Option, none, some, List, unwrap_or, string_eq, nat_eq, if◌then◌else◌,
}
use provisioned_throughput.Base.Result.{ok, err}
use provisioned_throughput.Core.{Tier, tier_eq, Shape}
use provisioned_throughput.Planner.Memory.{check_shape}
use provisioned_throughput.Model.{
  RegionShare, total_cus, PendingChanges, ProvisionedThroughput, shape_updated, change_scheduled,
}
use provisioned_throughput.Model.Requests.{UpdateRequest}
use provisioned_throughput.Errors.{conflict, of_plan}
use provisioned_throughput.Service.{Settings, push_event, held, claims, endpoints}
use provisioned_throughput.Service.Lifecycle.{same_shares, is_scheduled}
use provisioned_throughput.Service.Moves.{E, ◌>>=◌, ◌>>◌, edit, on_service}
use provisioned_throughput.Service.Update.{
  Figures, is_pending_cancellation, is_change, is_some, rename, set_policy, set_auto_renew,
  set_rebalance, set_tier,
}
use provisioned_throughput.Service.Update.Regions.{set_regions}

module _ (c : Settings) (f : Figures) (now : ℕ) where
  unfoldable pub set_shape : Option Shape → E (Unit {0})
  unfolding claims held check_shape
  set_shape none d = (ok tt, d)
  set_shape (some s) d =
      if f.same_shape s d.pt.shape
      then (ok tt, d)
      else (do
        on_service (λ service. (
          of_plan (check_shape service.planner d.pt.model (claims c d.pt (held d.pt)) s),
          service,
        ))
        edit (λ pt. push_event now shape_updated (record pt { shape = s })))
          d

  -- The changes that wait for the next term, with the new ones.
  unfoldable merge_pending :
      Option (Option Tier)
      → Option (Option (List RegionShare))
      → ProvisionedThroughput
      → PendingChanges
  unfolding same_shares
  merge_pending tier regions pt =
      let was =
        unwrap_or pt.pending_changes
          (record { tier = none; regions = none; effective_at = pt.term_end }) in
      record {
        tier = unwrap_or tier was.tier;
        regions = elim regions [
          | none ↦ was.regions
          | some none ↦ none
          | some (some r) ↦ if same_shares r pt.regions then none else some r
        ];
        effective_at = pt.term_end;
      }

  unfoldable pub set_pending : PendingChanges → ProvisionedThroughput → ProvisionedThroughput
  set_pending pending pt =
      if is_some pending.tier || is_some pending.regions
      then record (push_event now (change_scheduled pending.tier pending.regions) pt) {
        pending_changes = some pending;
      }
      else record pt { pending_changes = none }

  unfoldable pub schedule : Option (Option Tier) → Option (Option (List RegionShare)) → E (Unit {0})
  unfolding merge_pending set_pending
  schedule tier regions d =
      if is_some tier || is_some regions
      then (if (is_change tier || is_change regions) && is_pending_cancellation d.pt.state
          then (err (conflict "no_next_term"), d)
          else edit (λ pt. set_pending (merge_pending tier regions pt) pt) d)
      else (ok tt, d)

  -- The end of `apply_update`: what follows from the regions.
  unfoldable pub refresh : ProvisionedThroughput → ProvisionedThroughput
  unfolding total_cus endpoints
  refresh pt =
      let cus = total_cus pt.regions in
      record pt {
        cus = cus;
        endpoints = endpoints c pt.regions;
        price = c.price pt.tier pt.isolation pt.sku cus;
      }

  -- `apply_update`
  unfoldable pub apply_update : UpdateRequest → E (Unit {0})
  unfolding rename set_policy set_auto_renew set_rebalance set_tier set_regions set_shape schedule
      refresh
  apply_update req d =
      (do
        let not_started = is_scheduled d.pt.state
        edit (rename c f now req.name)
        edit (set_policy c f now req.boundary_policy)
        edit (set_auto_renew c f now req.auto_renew)
        set_rebalance c f now req.rebalance
        let shape = unwrap_or req.shape d.pt.shape
        tier ← set_tier c f now not_started shape req.tier
        regions ← set_regions c f now not_started shape req.regions
        set_shape req.shape
        schedule tier regions
        edit refresh)
        d
