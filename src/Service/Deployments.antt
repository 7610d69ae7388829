-- ===== src/Service/Deployments.antt =====
-- Deployments of a reservation (crates/pt-control-plane/src/service.rs): they are added, renamed or
-- capped, and removed.
pub mod Limits
pub mod Requests
pub mod Tests
use provisioned_throughput.Base.{
  ℕ, ◌+◌, zero, suc, Bool, true, false, not, ◌&&◌, Option, none, some, List, [], ◌∷◌, ◌++◌, String,
  any, length, modify, leb, unwrap_or, ◌==◌, string_eq, nat_eq, option_eq, if◌then◌else◌,
}
use provisioned_throughput.Base.Distinct.{remove_at}
use provisioned_throughput.Base.Result.{Result, ok, err, panicked}
use provisioned_throughput.Model.{
  deployment_created, deployment_updated, deployment_deleted, Deployment, ProvisionedThroughput,
}
use provisioned_throughput.Model.Requests.{CreateDeploymentRequest, UpdateDeploymentRequest}
use provisioned_throughput.Errors.{ServiceError, validation, conflict}
use provisioned_throughput.Validate
use provisioned_throughput.Service.{
  M, then_do, ◌>>=◌, ◌>>◌, done, check, lift, guard, push_event, load_live, persist,
}
use provisioned_throughput.Service.Keys.{Fresh, issue_key, deployment_index, deployment_at}

abbrev pub max_deployments : ℕ
max_deployments = 10

-- `validate_max_share`; `is_share` is the test `s > 0.0 && s <= 1.0`. Two shares that pass it are equal
-- as floats when their bits are.
unfoldable pub validate_max_share : (ℕ → Bool) → Option ℕ → Result ServiceError (Unit {0})
validate_max_share is_share none = ok tt
validate_max_share is_share (some s) = if is_share s then ok tt else err (validation "max_share")

-- `ensure_deployment_name_free`
unfoldable pub is_taken : List Deployment → String → Option String → Bool
is_taken deployments name except =
    any (λ d. d.name == name && not (some d.id == except)) deployments

unfoldable pub ensure_deployment_name_free :
    ProvisionedThroughput → String → Option String → Result ServiceError (Unit {0})
unfolding is_taken Validate.name
ensure_deployment_name_free pt name except = elim (Validate.name name) [
  | ok u ↦ if is_taken pt.deployments name except then err (conflict "name_taken") else ok tt
  | err e ↦ err e
  | panicked ↦ panicked
]

-- The new deployment of `create_deployment`.
unfoldable pub new_deployment : String → Fresh → ℕ → CreateDeploymentRequest → Deployment
unfolding issue_key
new_deployment id fresh now req = record {
  id = id;
  name = req.name;
  max_share = req.max_share;
  api_keys = issue_key fresh now ∷ [];
  created_at = now;
}

unfoldable pub add_deployment : ℕ → Deployment → ProvisionedThroughput → ProvisionedThroughput
add_deployment now d pt =
    push_event now (deployment_created d.id d.name d.max_share)
      (record pt { deployments = pt.deployments ++ d ∷ [] })

-- `create_deployment`; `new_id` is the id of the deployment.
unfoldable pub create_deployment :
    (ℕ → Bool)
    → String
    → Fresh
    → ℕ
    → String
    → String
    → Option ℕ
    → CreateDeploymentRequest
    → M (ProvisionedThroughput × Deployment)
unfolding load_live ensure_deployment_name_free validate_max_share new_deployment add_deployment
    persist
create_deployment is_share new_id fresh now tenant id if_match req = do
  pt ← load_live tenant id if_match
  check (ensure_deployment_name_free pt req.name none)
  check (validate_max_share is_share req.max_share)
  guard (not (leb max_deployments (length pt.deployments))) (conflict "too_many_deployments")
  let deployment = new_deployment new_id fresh now req
  saved ← persist now pt.version (add_deployment now deployment pt)
  done (saved, deployment)

-- The deployment after an `update_deployment`.
unfoldable pub changed : UpdateDeploymentRequest → Deployment → Deployment
changed req d = record d {
  name = unwrap_or req.name d.name;
  max_share = unwrap_or req.max_share d.max_share;
}

abbrev pub check_new_name :
    ProvisionedThroughput → String → Option String → Result ServiceError (Unit {0})
check_new_name pt deployment none = ok tt
check_new_name pt deployment (some name) = ensure_deployment_name_free pt name (some deployment)

abbrev pub check_new_share : (ℕ → Bool) → Option (Option ℕ) → Result ServiceError (Unit {0})
check_new_share is_share none = ok tt
check_new_share is_share (some share) = validate_max_share is_share share

-- `update_deployment`
unfoldable pub save_changed :
    ℕ → UpdateDeploymentRequest → ProvisionedThroughput → ℕ → Deployment → M ProvisionedThroughput
unfolding changed persist
save_changed now req pt i d =
    let d' = changed req d in
    if d'.name == d.name && d'.max_share == d.max_share
    then done pt
    else persist now pt.version (
        push_event now (deployment_updated d'.id d'.name d'.max_share)
          (record pt { deployments = modify i (changed req) pt.deployments }))

unfoldable pub update_deployment :
    (ℕ → Bool)
    → ℕ
    → String
    → String
    → String
    → Option ℕ
    → UpdateDeploymentRequest
    → M ProvisionedThroughput
unfolding load_live deployment_index save_changed
update_deployment is_share now tenant id deployment if_match req = do
  pt ← load_live tenant id if_match
  i ← lift (deployment_index pt (some deployment))
  check (check_new_name pt deployment req.name)
  check (check_new_share is_share req.max_share)
  d ← deployment_at pt i
  save_changed now req pt i d

-- `delete_deployment`
unfoldable pub drop_deployment : ℕ → ℕ → Deployment → ProvisionedThroughput → ProvisionedThroughput
drop_deployment now i d pt =
    push_event now (deployment_deleted d.id)
      (record pt { deployments = remove_at i pt.deployments })

unfoldable pub delete_deployment : ℕ → String → String → String → Option ℕ → M ProvisionedThroughput
unfolding load_live deployment_index drop_deployment persist
delete_deployment now tenant id deployment if_match = do
  pt ← load_live tenant id if_match
  i ← lift (deployment_index pt (some deployment))
  guard (not (length pt.deployments == 1)) (conflict "last_deployment")
  removed ← deployment_at pt i
  persist now pt.version (drop_deployment now i removed pt)
