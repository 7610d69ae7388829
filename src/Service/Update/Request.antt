-- ===== src/Service/Update/Request.antt =====
-- A request to update a reservation (`update` in crates/pt-control-plane/src/service.rs): its checks,
-- the changes, and the write, with the planner put back when either fails.
use provisioned_throughput.Base.{ℕ, Option, none, some, [], String, ◌==◌, string_eq, if◌then◌else◌}
use provisioned_throughput.Base.Result.{Result, ok, err, panicked, ◌>>=◌ as ◌then_if◌}
use provisioned_throughput.Model.{ProvisionedThroughput}
use provisioned_throughput.Model.Requests.{UpdateRequest}
use provisioned_throughput.Errors.{ServiceError}
use provisioned_throughput.Validate
use provisioned_throughput.Validate.{Checked, ModelConfig}
use provisioned_throughput.Service.{
  Settings, Service, M, ◌>>=◌, ◌>>◌, done, check, load_live, ensure_name_free, persist,
}
use provisioned_throughput.Service.Moves.{Draft}
use provisioned_throughput.Service.Moves.ToPool.{undone, or_undo}
use provisioned_throughput.Service.Update.{Figures}
use provisioned_throughput.Service.Update.Apply.{apply_update}

-- A check of a field that may be absent.
abbrev check_if : {A : Type 0} → (A → Checked) → Option A → Checked
check_if f none = ok tt
check_if f (some a) = f a

-- Those of the fields, each alone.
unfoldable pub check_fields : Settings → ProvisionedThroughput → UpdateRequest → Checked
unfolding Validate.model Validate.name Validate.tier Validate.regions Validate.shape
    Validate.boundary_policy
check_fields c pt req = Validate.model c.offer pt.model then_if λ model.
    check_if Validate.name req.name then_if λ _.
    check_if (Validate.tier model) req.tier then_if λ _.
    check_if (Validate.regions c.offer pt.model pt.sku) req.regions then_if λ _.
    check_if (Validate.shape c.offer model) req.shape then_if λ _.
    check_if (Validate.boundary_policy c.offer) req.boundary_policy

module _ (c : Settings) (f : Figures) (now : ℕ) where
  -- The new name has to be free.
  unfoldable pub check_name : String → ProvisionedThroughput → Option String → M (Unit {0})
  unfolding ensure_name_free
  check_name tenant pt none = done tt
  check_name tenant pt (some n) =
      if n == pt.name then done tt else ensure_name_free c tenant n (some pt.id)

  -- The checks of `update` before it touches capacity.
  unfoldable pub check_update : String → ProvisionedThroughput → UpdateRequest → M (Unit {0})
  unfolding check_fields check_name
  check_update tenant pt req = do check (check_fields c pt req); check_name tenant pt req.name

  -- The end of `update`, by what `apply_update` returned; `before` is the reservation as it was.
  unfoldable pub finish_update :
      ProvisionedThroughput
      → Result ServiceError (Unit {0}) × Draft
      → Result ServiceError ProvisionedThroughput × Service
  unfolding undone or_undo persist
  finish_update before (ok u, d) =
      if f.same_reservation d.pt before
      then (ok d.pt, d.service)
      else or_undo c now d.pt d.ops (persist now before.version d.pt d.service)
  finish_update before (err e, d) = undone c now d.pt d.ops e d.service
  finish_update before (panicked, d) = (panicked, d.service)

  unfoldable pub change : ProvisionedThroughput → UpdateRequest → M ProvisionedThroughput
  unfolding apply_update finish_update
  change pt req s =
      finish_update pt (apply_update c f now req (record { pt = pt; ops = []; service = s }))

  -- `update`
  unfoldable pub update : String → String → Option ℕ → UpdateRequest → M ProvisionedThroughput
  unfolding load_live check_update change
  update tenant id if_match req = do
    pt ← load_live tenant id if_match
    check_update tenant pt req
    change pt req
