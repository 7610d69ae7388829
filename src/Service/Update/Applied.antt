-- ===== src/Service/Update/Applied.antt =====
-- What `apply_update` leaves as it was, whether it succeeds, fails or panics.
use provisioned_throughput.Base.{
  ℕ, ◌≡◌, refl, ◌∙◌, ap, Bool, true, false, not, ◌&&◌, ◌||◌, Option, none, some, List, [], ◌∷◌,
  String, inl, inr, Bool-cases, ◌==◌, string_eq,
}
use provisioned_throughput.Core.{Tier, tier_eq, Shape}
use provisioned_throughput.Planner.Memory.{check_shape}
use provisioned_throughput.Model.{
  RegionShare, BoundaryPolicy, PendingChanges, ProvisionedThroughput,
}
use provisioned_throughput.Model.Requests.{UpdateRequest}
use provisioned_throughput.Failover.{headroom}
use provisioned_throughput.Errors.{of_plan}
use provisioned_throughput.Store.{holds}
use provisioned_throughput.Service.{Settings, held, record_placed, claims, plan_release}
use provisioned_throughput.Service.Holds.{sales_open, is_none, hold_on}
use provisioned_throughput.Service.Lifecycle.{same_shares}
use provisioned_throughput.Service.Moves.{Draft, done, is_empty, on_service}
use provisioned_throughput.Service.Update.{
  Figures, rename, set_policy, set_auto_renew, bool_eq, to_contract, set_rebalance, change_tier,
  set_tier, is_pending_cancellation, is_change, is_some,
}
use provisioned_throughput.Service.Update.Regions.{
  change_regions, announce_increases, set_increased, increase, running_regions, set_regions,
}
use provisioned_throughput.Service.Update.Apply.{
  set_shape, set_pending, schedule, refresh, apply_update,
}
use provisioned_throughput.Service.Update.Kept.{
  Mark, mark, identity, IsEdit, then_edit-Keeps, reserve-Keeps, placed-Keeps, if-Keeps,
  move_capacity-Keeps,
}

module _ (c : Settings) (f : Figures) (now : ℕ) where
  rename-lasting :
      (n : Option String) (w : Mark) (d : Draft)
      → mark d ≡ w
      → mark (record d { pt = rename c f now n d.pt }) ≡ w
  unfolding rename
  rename-lasting none w d h = h
  rename-lasting (some n) w d h = elim (Bool-cases (n == d.pt.name)) [
    | inl t ↦ rw (rename, t) h
    | inr e ↦ rw (rename, e) h
  ]

  set_policy-lasting :
      (p : Option BoundaryPolicy) (w : Mark) (d : Draft)
      → mark d ≡ w
      → mark (record d { pt = set_policy c f now p d.pt }) ≡ w
  unfolding set_policy
  set_policy-lasting none w d h = h
  set_policy-lasting (some p) w d h = elim (Bool-cases (f.same_policy p d.pt.boundary_policy)) [
    | inl t ↦ rw (set_policy, t) h
    | inr e ↦ rw (set_policy, e) h
  ]

  set_auto_renew-lasting :
      (v : Option Bool) (w : Mark) (d : Draft)
      → mark d ≡ w
      → mark (record d { pt = set_auto_renew c f now v d.pt }) ≡ w
  unfolding set_auto_renew
  set_auto_renew-lasting none w d h = h
  set_auto_renew-lasting (some v) w d h =
      elim (Bool-cases (v && is_pending_cancellation d.pt.state)) [
        | inl t ↦ rw (set_auto_renew, t) h
        | inr e ↦ elim (Bool-cases (bool_eq v d.pt.auto_renew)) [
          | inl t ↦ rw (set_auto_renew, e, t) h
          | inr e' ↦ rw (set_auto_renew, e, e') h
        ]
      ]

  to_contract-Keeps : IsEdit (to_contract c f now)
  unfolding to_contract
  to_contract-Keeps w d h =
      then_edit-Keeps w _ _ (move_capacity-Keeps c now _ d.pt.shape w d h)
        (λ u w d h. record { same = h })

  set_rebalance-Keeps : (v : Option Bool) → IsEdit (set_rebalance c f now v)
  unfolding set_rebalance
  set_rebalance-Keeps none w d h = record { same = h }
  set_rebalance-Keeps (some v) w d h = elim (Bool-cases (bool_eq v d.pt.rebalance)) [
    | inl t ↦ rw (set_rebalance, t) (record { same = h })
    | inr e ↦
        rw (set_rebalance, e)
          (if-Keeps (not v && not (is_empty d.pt.effective_regions)) (to_contract c f now) (done tt)
            to_contract-Keeps (λ w d h. record { same = h }) w _ h)
  ]

  change_tier-Keeps : (shape : Shape) (tier : Tier) → IsEdit (change_tier c f now shape tier)
  unfolding change_tier plan_release
  change_tier-Keeps shape tier w d h =
      then_edit-Keeps w _ _ (reserve-Keeps d.pt.model tier _ shape d.pt.term_start w _ h)
        (λ answer w d h.
          then_edit-Keeps w _ _ (placed-Keeps answer w d h) (λ placed w d h. record { same = h }))

  set_tier-Keeps :
      (not_started : Bool) (shape : Shape) (tier : Option Tier)
      → IsEdit (set_tier c f now not_started shape tier)
  unfolding set_tier
  set_tier-Keeps not_started shape none w d h = record { same = h }
  set_tier-Keeps true shape (some tier) w d h = elim (Bool-cases (tier == d.pt.tier)) [
    | inl t ↦ rw (set_tier, t) (record { same = h })
    | inr e ↦
        rw (set_tier, e)
          (then_edit-Keeps w _ _ (change_tier-Keeps shape tier w d h)
            (λ u w d h. record { same = h }))
  ]
  set_tier-Keeps false shape (some tier) w d h = elim (Bool-cases (tier == d.pt.tier)) [
    | inl t ↦ rw (set_tier, t) (record { same = h })
    | inr e ↦ rw (set_tier, e) (record { same = h })
  ]

  change_regions-Keeps :
      (shape : Shape) (new : List RegionShare) → IsEdit (change_regions c f now shape new)
  unfolding change_regions plan_release record_placed
  change_regions-Keeps shape new w d h =
      then_edit-Keeps w _ _ (reserve-Keeps d.pt.model d.pt.tier _ shape d.pt.term_start w _ h)
        (λ answer w d h.
          then_edit-Keeps w _ _ (placed-Keeps answer w d h) (λ placed w d h. record { same = h }))

  announce-lasting :
      (per_cu : ℕ) (deltas : List RegionShare) (running : ℕ) (pt : ProvisionedThroughput)
      → identity (announce_increases c f now per_cu running deltas pt) ≡ identity pt
  unfolding announce_increases
  announce-lasting per_cu [] running pt = refl
  announce-lasting per_cu (g ∷ rest) running pt = announce-lasting per_cu rest _ _

  set_increased-lasting :
      (spare new deltas : List RegionShare) (pt : ProvisionedThroughput)
      → identity (set_increased c f now spare new deltas pt) ≡ identity pt
  unfolding set_increased
  set_increased-lasting spare new deltas pt = announce-lasting _ deltas pt.cus _

  increase-Keeps :
      (shape : Shape) (new deltas : List RegionShare) → IsEdit (increase c f now shape new deltas)
  unfolding increase
  increase-Keeps shape new [] w d h = record { same = h }
  increase-Keeps shape new (g ∷ deltas) w d h =
      then_edit-Keeps w _ _ (move_capacity-Keeps c now _ shape w d h) (λ u w d₁ h. record {
        same =
            ap (λ i. (i.0, (i.1, d₁.service.store)))
              (set_increased-lasting (headroom c.offer.regions d.pt.sku new) new (g ∷ deltas) d₁.pt)
            ∙ h;
      })

  running_regions-Keeps :
      (shape : Shape) (new : List RegionShare) (deltas : Option (List RegionShare))
      → IsEdit (running_regions c f now shape new deltas)
  unfolding running_regions
  running_regions-Keeps shape new none w d h = record { same = h }
  running_regions-Keeps shape new (some deltas) w d h =
      then_edit-Keeps w _ _ (increase-Keeps shape new deltas w d h) (λ u w d h. record { same = h })

  sales_open-Keeps :
      (model : String) (regions : List RegionShare)
      → IsEdit (on_service (sales_open now model regions))
  unfolding sales_open
  sales_open-Keeps model regions w d h =
      elim (Bool-cases (is_none (hold_on model regions (holds now d.service.store)))) [
        | inl t ↦ rw (sales_open, t) (record { same = h })
        | inr e ↦ rw (sales_open, e) (record { same = h })
      ]

  set_regions-Keeps :
      (not_started : Bool) (shape : Shape) (new : Option (List RegionShare))
      → IsEdit (set_regions c f now not_started shape new)
  unfolding set_regions
  set_regions-Keeps not_started shape none w d h = record { same = h }
  set_regions-Keeps true shape (some new) w d h =
      then_edit-Keeps w _ _ (sales_open-Keeps d.pt.model _ w d h) (λ u w d' h.
        then_edit-Keeps w _ _
          (if-Keeps (same_shares new d.pt.regions) (done tt) (change_regions c f now shape new)
            (λ w d h. record { same = h }) (change_regions-Keeps shape new) w d' h)
          (λ u w d h. record { same = h }))
  set_regions-Keeps false shape (some new) w d h =
      then_edit-Keeps w _ _ (sales_open-Keeps d.pt.model _ w d h)
        (λ u. running_regions-Keeps shape new _)

  set_shape-Keeps : (s : Option Shape) → IsEdit (set_shape c f now s)
  unfolding set_shape
  set_shape-Keeps none w d h = record { same = h }
  set_shape-Keeps (some s) w d h = elim (Bool-cases (f.same_shape s d.pt.shape)) [
    | inl t ↦ rw (set_shape, t) (record { same = h })
    | inr e ↦
        rw (set_shape, e)
          (then_edit-Keeps {A = Unit {0}} w
            (of_plan (check_shape d.service.planner d.pt.model (claims c d.pt (held d.pt)) s), d) _
            (record { same = h }) (λ u w d h. record { same = h }))
  ]

  set_pending-lasting :
      (pending : PendingChanges) (w : Mark) (d : Draft)
      → mark d ≡ w
      → mark (record d { pt = set_pending c f now pending d.pt }) ≡ w
  unfolding set_pending
  set_pending-lasting pending w d h =
      elim (Bool-cases (is_some pending.tier || is_some pending.regions)) [
        | inl t ↦ rw (set_pending, t) h
        | inr e ↦ rw (set_pending, e) h
      ]

  schedule-Keeps :
      (tier : Option (Option Tier)) (regions : Option (Option (List RegionShare)))
      → IsEdit (schedule c f now tier regions)
  unfolding schedule
  schedule-Keeps tier regions w d h = elim (Bool-cases (is_some tier || is_some regions)) [
    | inr e ↦ rw (schedule, e) (record { same = h })
    | inl t ↦
        elim (Bool-cases
          ((is_change tier || is_change regions) && is_pending_cancellation d.pt.state)) [
            | inl t' ↦ rw (schedule, t, t') (record { same = h })
            | inr e ↦ rw (schedule, t, e) (record { same = set_pending-lasting _ w d h })
          ]
  ]

  -- `apply_update` keeps the identity of the reservation, its term, its deployments and its version,
  -- and the whole store, whether it succeeds, fails or panics.
  pub apply_update-Keeps : (req : UpdateRequest) → IsEdit (apply_update c f now req)
  unfolding apply_update refresh
  apply_update-Keeps req w d h =
      let named = rename-lasting req.name w d h in
      let d₁ : Draft = record d { pt = rename c f now req.name d.pt } in
      let ruled = set_policy-lasting req.boundary_policy w d₁ named in
      let d₂ : Draft = record d { pt = set_policy c f now req.boundary_policy d₁.pt } in
      let kept = set_auto_renew-lasting req.auto_renew w d₂ ruled in
      then_edit-Keeps w _ _ (set_rebalance-Keeps req.rebalance w _ kept) (λ u w d h.
        then_edit-Keeps w _ _ (set_tier-Keeps _ _ req.tier w d h) (λ tier w d h.
          then_edit-Keeps w _ _ (set_regions-Keeps _ _ req.regions w d h) (λ regions w d h.
            then_edit-Keeps w _ _ (set_shape-Keeps req.shape w d h) (λ u w d h.
              then_edit-Keeps w _ _ (schedule-Keeps tier regions w d h)
                (λ u w d h. record { same = h })))))
