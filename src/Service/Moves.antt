-- ===== src/Service/Moves.antt =====
-- Steps that edit a reservation and move its capacity (`relocate` and `move_capacity` in
-- crates/pt-control-plane/src/service.rs). The source passes the reservation and the list of the
-- planner's calls as `&mut`, which keep their changes when a step fails; here they are the state of
-- the steps, beside the service.
pub mod ToPool
pub mod Taken
pub mod Sums
pub mod Gains
pub mod Called
pub mod Balance
pub mod Refused
pub mod Restored
pub mod Tests
use mathlib.Core.Option
use provisioned_throughput.Base.{
  ℕ, max, Bool, true, false, ◌&&◌, Option, none, some, List, [], ◌∷◌, ◌++◌, String, map, filter,
  find, unwrap_or, ◌==◌, string_eq, if◌then◌else◌, ◌⊎◌, inl, inr,
}
use provisioned_throughput.Base.Result.{Result, ok, err, panicked}
use provisioned_throughput.Core.{Tier, Shape}
use provisioned_throughput.Capacity.{PoolShare}
use provisioned_throughput.Planner.{
  Claim, PlanError, not_offered, capacity_unavailable, shape_unsupported, unavailable,
}
use provisioned_throughput.Model.{RegionShare, EventKind, relocated, ProvisionedThroughput}
use provisioned_throughput.Failover.{growth}
use provisioned_throughput.Errors.{ServiceError, capacity}
use provisioned_throughput.Service.{
  Settings, Service, M, push_event, plan_reserve, plan_release, held, record_placed, on_pools,
  pooled, claims,
}
use provisioned_throughput.Service.Holds.{is_none}
use provisioned_throughput.Service.Lifecycle.{PlanOp, reserved, released}

-- The reservation as edited so far, the planner's calls so far, and the service.
pub record Draft : Type 0 where
  pub pt : ProvisionedThroughput
  pub ops : List PlanOp
  pub service : Service

-- A step.
abbrev pub E : Type 0 → Type 0
E A = Draft → Result ServiceError A × Draft

abbrev pub then_edit :
    {A B : Type 0} → Result ServiceError A × Draft → (A → E B) → Result ServiceError B × Draft
then_edit (ok a, d) f = f a d
then_edit (err e, d) f = (err e, d)
then_edit (panicked, d) f = (panicked, d)

infixl 5 ◌>>=◌ ◌>>◌
abbrev pub ◌>>=◌ : {A B : Type 0} → E A → (A → E B) → E B
◌>>=◌ m f d = then_edit (m d) f

abbrev pub ◌>>◌ : {B : Type 0} → E (Unit {0}) → E B → E B
◌>>◌ m k d = then_edit (m d) (λ _. k)

abbrev pub done : {A : Type 0} → A → E A
done a d = (ok a, d)

abbrev pub fail : {A : Type 0} → ServiceError → E A
fail e d = (err e, d)

abbrev pub edit : (ProvisionedThroughput → ProvisionedThroughput) → E (Unit {0})
edit f d = (ok tt, record d { pt = f d.pt })

-- `ops.push(op)`
abbrev pub note : PlanOp → E (Unit {0})
note op d = (ok tt, record d { ops = d.ops ++ op ∷ [] })

-- A step of the service.
abbrev pub on_service : {A : Type 0} → M A → E A
on_service m d = let (r, s) = m d.service in (r, record d { service = s })

-- `?` on the planner's answer
abbrev pub placed_or_fail : PlanError ⊎ List PoolShare → E (List PoolShare)
placed_or_fail (inr placed) = done placed
placed_or_fail (inl e) = fail (capacity e)

abbrev pub is_unavailable : PlanError → Bool
is_unavailable (capacity_unavailable region model tier requested available from) = true
is_unavailable _ = false

-- `claim[0].pool.is_some()`
abbrev pub has_pool : List Claim → Bool
has_pool [] = false
has_pool (c ∷ rest) = elim c.pool [ none ↦ false | some p ↦ true ]

abbrev pub is_empty : {A : Type 0} → List A → Bool
is_empty [] = true
is_empty (x ∷ xs) = false

-- `if !shares.is_empty() { release …; ops.push(…) }`
unfoldable pub give_back : List PoolShare → E (Unit {0})
unfolding plan_release
give_back [] d = (ok tt, d)
give_back (s ∷ rest) d =
    (do on_service (plan_release d.pt.tier (s ∷ rest)); note (released d.pt.tier (s ∷ rest))) d

unfoldable pub in_region : String → List RegionShare → List RegionShare
in_region region shares = filter (λ s. s.region == region) shares

-- `map_or(g.cus, |t| t.cus)` on the region's target
unfoldable pub total_in : RegionShare → List RegionShare → ℕ
total_in g target =
    unwrap_or (Option.map (λ t. t.cus) (find (λ t. t.region == g.region) target)) g.cus

module _ (c : Settings) (now : ℕ) where
  -- The end of `relocate`, once the new pool has reserved.
  unfoldable pub leave_old : Tier → List PoolShare → String → List PoolShare → E (Unit {0})
  unfolding give_back record_placed
  leave_old tier old region placed = do
    note (reserved tier placed)
    give_back old
    edit (record_placed placed)
    edit (push_event now (relocated region))

  -- `relocate`
  unfoldable pub relocate : String → ℕ → Option String → Shape → ℕ → E (Unit {0})
  unfolding on_pools held in_region plan_reserve leave_old
  relocate region total to shape at d =
      (do
        let pt = d.pt
        let old = on_pools c pt (in_region region (held pt))
        answer ← on_service (
            plan_reserve pt.model pt.tier (record { region = region; pool = to; cus = total } ∷ [])
              shape at)
        placed ← placed_or_fail answer
        leave_old pt.tier old region placed)
        d

  -- The `match` on the planner's answer, for one region that grows.
  unfoldable pub grown :
      List RegionShare
      → Shape
      → ℕ
      → RegionShare
      → List Claim
      → PlanError ⊎ List PoolShare
      → E (Unit {0})
  unfolding record_placed relocate total_in
  grown target shape at g claim (inr placed) d =
      (do edit (record_placed placed); note (reserved d.pt.tier placed)) d
  grown target shape at g claim (inl e) d =
      if is_unavailable e && has_pool claim
      then relocate g.region (total_in g target) none shape at d
      else (err (capacity e), d)

  -- The loop of `move_capacity`.
  unfoldable pub grow_each : List RegionShare → Shape → ℕ → List RegionShare → E (Unit {0})
  unfolding claims plan_reserve grown
  grow_each target shape at [] d = (ok tt, d)
  grow_each target shape at (g ∷ rest) d =
      (do
        let claim = claims c d.pt (g ∷ [])
        answer ← on_service (plan_reserve d.pt.model d.pt.tier claim shape at)
        grown target shape at g claim answer
        grow_each target shape at rest)
        d

  -- The end of `move_capacity`.
  unfoldable pub shrink_to : List RegionShare → List RegionShare → E (Unit {0})
  unfolding on_pools growth give_back
  shrink_to before target d = give_back (on_pools c d.pt (growth target before)) d

  -- `move_capacity`
  unfoldable pub move_capacity : List RegionShare → Shape → E (Unit {0})
  unfolding held growth grow_each shrink_to
  move_capacity target shape d =
      (do
        let before = held d.pt
        let at = max d.pt.term_start now
        grow_each target shape at (growth before target)
        shrink_to before target)
        d
