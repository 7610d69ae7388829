-- ===== src/Service/Update/Kept.antt =====
-- What the steps of an update leave as it was, whether they succeed or fail: the moves of capacity.
use provisioned_throughput.Base.{
  ℕ, ◌≡◌, refl, sym, subst, Bool, true, false, ◌&&◌, Option, none, List, [], ◌∷◌, String, ◌⊎◌, inl,
  inr, Bool-cases, string_eq, if◌then◌else◌,
}
use provisioned_throughput.Base.Result.{Result, ok, err, panicked}
use provisioned_throughput.Core.{Tier, tier_eq, Shape, TermMonths}
use provisioned_throughput.Capacity.{PoolShare}
use provisioned_throughput.Planner.{Claim, PlanError}
use provisioned_throughput.Planner.Memory.{reserve}
use provisioned_throughput.Model.{
  RegionShare, Sku, PoolIsolation, Deployment, ProvisionedThroughput,
}
use provisioned_throughput.Errors.{ServiceError}
use provisioned_throughput.Store.{MemoryStore}
use provisioned_throughput.Service.{
  Settings, Service, M, guard, held, record_placed, claims, answered, plan_reserve, plan_release,
}
use provisioned_throughput.Service.Moves.{
  Draft, E, then_edit, on_service, placed_or_fail, give_back, leave_old, relocate, grown,
  is_unavailable, has_pool, grow_each, shrink_to, move_capacity,
}

-- What identifies a reservation, its term and its deployments.
pub record Lasting : Type 0 where
  pub id : String
  pub tenant : String
  pub model : String
  pub sku : Sku
  pub isolation : PoolIsolation
  pub term_months : TermMonths
  pub term_start : ℕ
  pub term_end : ℕ
  pub deployments : List Deployment
  pub created_at : ℕ

abbrev lasting : ProvisionedThroughput → Lasting
lasting pt = record {
  id = pt.id;
  tenant = pt.tenant;
  model = pt.model;
  sku = pt.sku;
  isolation = pt.isolation;
  term_months = pt.term_months;
  term_start = pt.term_start;
  term_end = pt.term_end;
  deployments = pt.deployments;
  created_at = pt.created_at;
}

abbrev pub identity : ProvisionedThroughput → Lasting × ℕ
identity pt = (lasting pt, pt.version)

abbrev pub Mark : Type 0
Mark = Lasting × (ℕ × MemoryStore)

-- The lasting part of a draft, its version, and the store.
abbrev pub mark : Draft → Mark
mark d = (lasting d.pt, (d.pt.version, d.service.store))

pub guard-same : (b : Bool) (e : ServiceError) (s : Service) → (guard b e s).1 ≡ s
guard-same true e s = refl
guard-same false e s = refl

-- A step's draft, on each branch, has the mark.
pub record Keeps {A : Type 0} (w : Mark) (r : Result ServiceError A × Draft) : Type 0 where
  pub same : mark r.1 ≡ w

-- A step that keeps every mark.
abbrev pub IsEdit : {A : Type 0} → E A → Type 0
IsEdit e = (w : Mark) (d : Draft) → mark d ≡ w → Keeps w (e d)

pub then_edit-Keeps :
    {A B : Type 0} (w : Mark) (r : Result ServiceError A × Draft) (f : A → E B)
    → Keeps w r
    → ((a : A) → IsEdit (f a))
    → Keeps w (then_edit r f)
then_edit-Keeps w (ok a, d) f h next = next a w d h.same
then_edit-Keeps w (err e, d) f h next = record { same = h.same }
then_edit-Keeps w (panicked, d) f h next = record { same = h.same }

-- A step of the service that leaves the store.
on_service-Keeps :
    {A : Type 0} (m : M A) (w : Mark) (d : Draft)
    → (m d.service).1.store ≡ d.service.store
    → mark d ≡ w
    → Keeps w (on_service m d)
on_service-Keeps m w d e h = record {
  same = subst (λ st. (lasting d.pt, (d.pt.version, st)) ≡ w) (sym e) h;
}

answered-store :
    {A : Type 0} (r : Result PlanError A) (s : Service) → (answered r s).1.store ≡ s.store
answered-store (ok a) s = refl
answered-store (err e) s = refl
answered-store panicked s = refl

pub plan_reserve-store :
    (model : String) (tier : Tier) (claims : List Claim) (shape : Shape) (at : ℕ) (s : Service)
    → (plan_reserve model tier claims shape at s).1.store ≡ s.store
unfolding plan_reserve
plan_reserve-store model tier claims shape at s =
    answered-store (reserve s.planner model tier claims shape at).0 _

pub reserve-Keeps :
    (model : String) (tier : Tier) (claims : List Claim) (shape : Shape) (at : ℕ)
    → IsEdit (on_service (plan_reserve model tier claims shape at))
reserve-Keeps model tier claims shape at w d h =
    on_service-Keeps (plan_reserve model tier claims shape at) w d
      (plan_reserve-store model tier claims shape at d.service) h

pub placed-Keeps : (answer : PlanError ⊎ List PoolShare) → IsEdit (placed_or_fail answer)
placed-Keeps (inl e) w d h = record { same = h }
placed-Keeps (inr placed) w d h = record { same = h }

give_back-Keeps : (shares : List PoolShare) → IsEdit (give_back shares)
unfolding give_back plan_release
give_back-Keeps [] w d h = record { same = h }
give_back-Keeps (s ∷ rest) w d h = record { same = h }

pub if-Keeps :
    {A : Type 0} (b : Bool) (e e' : E A) → IsEdit e → IsEdit e' → IsEdit (if b then e else e')
if-Keeps true e e' h h' = h
if-Keeps false e e' h h' = h'

module _ (c : Settings) (now : ℕ) where
  leave_old-Keeps :
      (tier : Tier) (old : List PoolShare) (region : String) (placed : List PoolShare)
      → IsEdit (leave_old c now tier old region placed)
  unfolding leave_old give_back plan_release record_placed
  leave_old-Keeps tier [] region placed w d h = record { same = h }
  leave_old-Keeps tier (s ∷ rest) region placed w d h = record { same = h }

  pub relocate-Keeps :
      (region : String) (total : ℕ) (to : Option String) (shape : Shape) (at : ℕ)
      → IsEdit (relocate c now region total to shape at)
  unfolding relocate
  relocate-Keeps region total to shape at w d h =
      then_edit-Keeps w _ _ (reserve-Keeps d.pt.model d.pt.tier _ shape at w d h) (λ answer w d₁ h.
        then_edit-Keeps w _ _ (placed-Keeps answer w d₁ h)
          (λ placed. leave_old-Keeps d.pt.tier _ region placed))

  grown-Keeps :
      (target : List RegionShare) (shape : Shape) (at : ℕ) (g : RegionShare) (claim : List Claim)
      (answer : PlanError ⊎ List PoolShare)
      → IsEdit (grown c now target shape at g claim answer)
  unfolding grown record_placed
  grown-Keeps target shape at g claim (inr placed) w d h = record { same = h }
  grown-Keeps target shape at g claim (inl e) w d h =
      elim (Bool-cases (is_unavailable e && has_pool claim)) [
        | inl t ↦ rw (grown, t) (relocate-Keeps g.region _ none shape at w d h)
        | inr f ↦ rw (grown, f) (record { same = h })
      ]

  grow_each-Keeps :
      (target : List RegionShare) (shape : Shape) (at : ℕ) (gs : List RegionShare)
      → IsEdit (grow_each c now target shape at gs)
  unfolding grow_each
  grow_each-Keeps target shape at [] w d h = record { same = h }
  grow_each-Keeps target shape at (g ∷ rest) w d h =
      then_edit-Keeps w _ _ (reserve-Keeps d.pt.model d.pt.tier _ shape at w d h) (λ answer w d₁ h.
        then_edit-Keeps w _ _ (grown-Keeps target shape at g (claims c d.pt (g ∷ [])) answer w d₁ h)
          (λ u. grow_each-Keeps target shape at rest))

  shrink_to-Keeps : (before target : List RegionShare) → IsEdit (shrink_to c now before target)
  unfolding shrink_to
  shrink_to-Keeps before target w d h = give_back-Keeps _ w d h

  pub move_capacity-Keeps :
      (target : List RegionShare) (shape : Shape) → IsEdit (move_capacity c now target shape)
  unfolding move_capacity
  move_capacity-Keeps target shape w d h =
      then_edit-Keeps w _ _ (grow_each-Keeps target shape _ _ w d h)
        (λ u. shrink_to-Keeps (held d.pt) target)
