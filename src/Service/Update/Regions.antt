-- ===== src/Service/Update/Regions.antt =====
-- A change of a reservation's regions (`increases_only` and the regions' part of `apply_update` in
-- crates/pt-control-plane/src/service.rs): at once before the term and where shares only grow, and
-- else at the next term.
use provisioned_throughput.Base.{
  ℕ, ◌+◌, ◌-◌, ◌*◌, Bool, true, false, not, Option, none, some, List, [], ◌∷◌, filter, length, ltb,
  w64, ◌==◌, string_eq, nat_eq, if◌then◌else◌,
}
use provisioned_throughput.Base.Words.{w32}
use provisioned_throughput.Base.Result.{ok}
use provisioned_throughput.Core.{tier_eq, Shape, months}
use provisioned_throughput.Model.{RegionShare, ProvisionedThroughput, capacity_increased}
use provisioned_throughput.Failover.{headroom, footprint, has_region, cus_of}
use provisioned_throughput.Service.{
  Settings, push_event, plan_reserve, plan_release, record_placed, pooled, claims,
}
use provisioned_throughput.Service.Holds.{sales_open}
use provisioned_throughput.Service.Lifecycle.{reserved, released, same_shares}
use provisioned_throughput.Service.Moves.{
  E, ◌>>=◌, ◌>>◌, done, edit, note, on_service, placed_or_fail, move_capacity,
}
use provisioned_throughput.Service.Update.{Figures, is_some}

-- The loop of `increases_only`.
unfoldable pub increases : List RegionShare → List RegionShare → Option (List RegionShare)
unfolding cus_of
increases current [] = some []
increases current (n ∷ rest) =
    let more = increases current rest in
    if not (has_region n.region current)
    then none
    else if ltb n.cus (cus_of n.region current)
    then none
    else elim more [
      | none ↦ none
      | some deltas ↦ some (
          if ltb (cus_of n.region current) n.cus
          then record { region = n.region; cus = n.cus - cus_of n.region current } ∷ deltas
          else deltas)
    ]

-- `increases_only`
unfoldable pub increases_only : List RegionShare → List RegionShare → Option (List RegionShare)
unfolding increases
increases_only current new = if length current == length new then increases current new else none

-- `growing`: the shares of `new` that are larger than those of `current`.
unfoldable pub growing : List RegionShare → List RegionShare → List RegionShare
unfolding cus_of
growing current new = filter (λ n. ltb (cus_of n.region current) n.cus) new

module _ (c : Settings) (f : Figures) (now : ℕ) where
  -- A change of the regions before the term.
  unfoldable pub change_regions : Shape → List RegionShare → E (Unit {0})
  unfolding pooled headroom footprint claims plan_release plan_reserve record_placed
  change_regions shape new d =
      (do
        let pt = d.pt
        let before = pooled c pt
        let spare = headroom c.offer.regions pt.sku new
        let after = claims c pt (footprint new spare)
        on_service (plan_release pt.tier before)
        note (released pt.tier before)
        answer ← on_service (plan_reserve pt.model pt.tier after shape pt.term_start)
        placed ← placed_or_fail answer
        edit (record_placed placed)
        note (reserved pt.tier placed)
        edit (λ pt. record pt { regions = new; effective_regions = []; failover_headroom = spare }))
        d

  -- The events of the increases; `running` counts the CUs.
  unfoldable pub announce_increases :
      ℕ → ℕ → List RegionShare → ProvisionedThroughput → ProvisionedThroughput
  unfolding cus_of months
  announce_increases per_cu running [] pt = pt
  announce_increases per_cu running (d ∷ rest) pt =
      let total = w32 (running + d.cus) in
      let before = cus_of d.region pt.regions in
      let charge =
        f.prorated_increase per_cu d.cus (months pt.term_months) pt.term_start pt.term_end now in
      announce_increases per_cu total rest (
        push_event now
          (capacity_increased d.region before (w32 (before + d.cus)) charge (some total)
            (some (w64 (per_cu * total))))
          pt)

  -- The new contract replaces a rebalanced split.
  unfoldable pub set_increased :
      List RegionShare
      → List RegionShare
      → List RegionShare
      → ProvisionedThroughput
      → ProvisionedThroughput
  unfolding announce_increases
  set_increased spare new deltas pt =
      record (announce_increases (c.price pt.tier pt.isolation pt.sku 1).per_cu_monthly pt.cus
        deltas (record pt { effective_regions = []; failover_headroom = spare })) { regions = new }

  -- An increase of running shares.
  unfoldable pub increase : Shape → List RegionShare → List RegionShare → E (Unit {0})
  unfolding headroom footprint move_capacity set_increased
  increase shape new [] d = (ok tt, d)
  increase shape new (g ∷ deltas) d =
      (do
        let spare = headroom c.offer.regions d.pt.sku new
        move_capacity c now (footprint new spare) shape
        edit (set_increased spare new (g ∷ deltas)))
        d

  -- Whether a change of the regions is scheduled.
  abbrev pub has_pending_regions : ProvisionedThroughput → Bool
  has_pending_regions pt = elim pt.pending_changes [ none ↦ false | some p ↦ is_some p.regions ]

  -- The change of the regions of a term that runs: `some none` drops a scheduled one.
  unfoldable pub running_regions :
      Shape → List RegionShare → Option (List RegionShare) → E (Option (Option (List RegionShare)))
  unfolding increase
  running_regions shape new none d = (ok (some (some new)), d)
  running_regions shape new (some deltas) d =
      (do
        increase shape new deltas
        λ d. (ok (if has_pending_regions d.pt then some none else none), d))
        d

  unfoldable pub set_regions :
      Bool → Shape → Option (List RegionShare) → E (Option (Option (List RegionShare)))
  unfolding growing sales_open change_regions increases_only running_regions same_shares
  set_regions not_started shape none d = (ok none, d)
  set_regions true shape (some new) d =
      (do
        on_service (sales_open now d.pt.model (growing d.pt.regions new))
        (if same_shares new d.pt.regions then done tt else change_regions shape new)
        done none)
        d
  set_regions false shape (some new) d =
      (do
        on_service (sales_open now d.pt.model (growing d.pt.regions new))
        running_regions shape new (increases_only d.pt.regions new))
        d
