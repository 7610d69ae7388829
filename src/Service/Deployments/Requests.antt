-- ===== src/Service/Deployments/Requests.antt =====
-- The requests that change a reservation's deployments.
use provisioned_throughput.Base.{
  ℕ, ◌≡◌, Bool, true, not, ◌&&◌, Option, none, some, String, inl, inr, length, modify, get_elem?,
  leb, Bool-cases, ◌==◌, string_eq, nat_eq, option_eq,
}
use provisioned_throughput.Base.Result.{ok}
use provisioned_throughput.Model.{Deployment, ProvisionedThroughput, is_live}
use provisioned_throughput.Model.Requests.{CreateDeploymentRequest, UpdateDeploymentRequest}
use provisioned_throughput.Errors.{conflict}
use provisioned_throughput.Service.{Service, guard, load_live, tidy_placements, persist}
use provisioned_throughput.Service.Runs.{
  Leaves, Stored, then_do-Leaves, bind-Leaves, guard-Leaves, lift-Leaves, load_live-Stored,
  persist-Stored,
}
use provisioned_throughput.Service.Keys.{Fresh, deployment_index, deployment_at}
use provisioned_throughput.Service.Keys.Rings.{deployment_at-Leaves}
use provisioned_throughput.Service.Deployments.{
  max_deployments, validate_max_share, ensure_deployment_name_free, new_deployment, add_deployment,
  create_deployment, changed, check_new_name, check_new_share, save_changed, update_deployment,
  drop_deployment, delete_deployment,
}
use provisioned_throughput.Service.Deployments.Limits.{
  IsSound, HasSound, LacksId, add-IsSound, drop-IsSound, change-IsSound, found-id,
}

-- When every stored reservation is sound and none has a deployment of the new id, each is sound after
-- `create_deployment`, and so is the one returned, on every branch.
pub create_deployment-IsSound :
    (is_share : ℕ → Bool) (new_id : String) (fresh : Fresh) (now : ℕ) (tenant id : String)
    (if_match : Option ℕ) (req : CreateDeploymentRequest) (s : Service)
    → Stored (λ pt. HasSound pt × LacksId new_id pt) s
    → Leaves
        (Stored HasSound)
        (λ a. HasSound a.0)
        (create_deployment is_share new_id fresh now tenant id if_match req s)
unfolding create_deployment tidy_placements
create_deployment-IsSound is_share new_id fresh now tenant id if_match req s h =
    let Both : ProvisionedThroughput → Type 0 = λ pt. HasSound pt × LacksId new_id pt in
    let R : ProvisionedThroughput × Deployment → Type 0 = λ a. HasSound a.0 in
    let I = Stored HasSound in
    then_do-Leaves (Stored Both) I (λ pt. Both pt × (is_live pt.state ≡ true)) R
      (load_live tenant id if_match s) _ (λ s i id pt e. (i id pt e).0)
      (load_live-Stored Both tenant id if_match s h)
      (λ pt s p i.
        let free = ensure_deployment_name_free pt req.name none in
        let room = not (leb max_deployments (length pt.deployments)) in
        bind-Leaves I (λ u. free ≡ ok u) R (free, s) _
          (lift-Leaves I free s (λ id pt e. (i id pt e).0))
          (λ u s f i.
            bind-Leaves I (λ v. validate_max_share is_share req.max_share ≡ ok v) R
              (validate_max_share is_share req.max_share, s) _
              (lift-Leaves I (validate_max_share is_share req.max_share) s i)
              (λ v s w i.
                bind-Leaves I (λ u. room ≡ true) R (guard room (conflict "too_many_deployments") s)
                  _ (guard-Leaves I room (conflict "too_many_deployments") s i)
                  (λ x s r i.
                    let d = new_deployment new_id fresh now req in
                    bind-Leaves I HasSound R (persist now pt.version (add_deployment now d pt) s) _
                      (persist-Stored HasSound now pt.version (add_deployment now d pt) s i
                        (add-IsSound now new_id fresh req pt p.0.0 p.0.1 f r))
                      (λ saved s q i. (i, q))))))

-- When every stored reservation is sound, each is sound after `delete_deployment`, and so is the one
-- returned, on every branch: the last deployment stays.
delete_deployment-IsSound :
    (now : ℕ) (tenant id deployment : String) (if_match : Option ℕ) (s : Service)
    → Stored HasSound s
    → Leaves (Stored HasSound) HasSound (delete_deployment now tenant id deployment if_match s)
unfolding delete_deployment tidy_placements
delete_deployment-IsSound now tenant id deployment if_match s h =
    let I = Stored HasSound in
    bind-Leaves I (λ pt. HasSound pt × (is_live pt.state ≡ true)) HasSound
      (load_live tenant id if_match s) _ (load_live-Stored HasSound tenant id if_match s h)
      (λ pt s p i.
        let index = deployment_index pt (some deployment) in
        let many = not (length pt.deployments == 1) in
        bind-Leaves I (λ j. index ≡ ok j) HasSound (index, s) _ (lift-Leaves I index s i)
          (λ j s e i.
            bind-Leaves I (λ u. many ≡ true) HasSound (guard many (conflict "last_deployment") s) _
              (guard-Leaves I many (conflict "last_deployment") s i)
              (λ u s m i.
                bind-Leaves I (λ d. get_elem? pt.deployments j ≡ some d) HasSound
                  (deployment_at pt j s) _ (deployment_at-Leaves I pt j s i)
                  (λ d s at i.
                    persist-Stored HasSound now pt.version (drop_deployment now j d pt) s i
                      (drop-IsSound now j d pt p.0 at m)))))

save_changed-IsSound :
    (now : ℕ) (req : UpdateDeploymentRequest) (pt : ProvisionedThroughput) (i : ℕ) (d : Deployment)
    (s : Service)
    → Stored HasSound s
    → HasSound pt
    → IsSound (modify i (changed req) pt.deployments)
    → Leaves (Stored HasSound) HasSound (save_changed now req pt i d s)
unfolding save_changed tidy_placements
save_changed-IsSound now req pt i d s h p q =
    let d' = changed req d in
    elim (Bool-cases (d'.name == d.name && d'.max_share == d.max_share)) [
      | inl t ↦ rw (save_changed, t) (h, p)
      | inr f ↦ rw (save_changed, f) (persist-Stored HasSound now pt.version _ s h q)
    ]

-- When every stored reservation is sound, each is sound after `update_deployment`, and so is the one
-- returned, on every branch: a new name is no other deployment's.
pub update_deployment-IsSound :
    (is_share : ℕ → Bool) (now : ℕ) (tenant id deployment : String) (if_match : Option ℕ)
    (req : UpdateDeploymentRequest) (s : Service)
    → Stored HasSound s
    → Leaves
        (Stored HasSound)
        HasSound
        (update_deployment is_share now tenant id deployment if_match req s)
unfolding update_deployment
update_deployment-IsSound is_share now tenant id deployment if_match req s h =
    let I = Stored HasSound in
    bind-Leaves I (λ pt. HasSound pt × (is_live pt.state ≡ true)) HasSound
      (load_live tenant id if_match s) _ (load_live-Stored HasSound tenant id if_match s h)
      (λ pt s p i.
        let index = deployment_index pt (some deployment) in
        bind-Leaves I (λ j. index ≡ ok j) HasSound (index, s) _ (lift-Leaves I index s i)
          (λ j s e i.
            bind-Leaves I (λ u. check_new_name pt deployment req.name ≡ ok u) HasSound
              (check_new_name pt deployment req.name, s) _
              (lift-Leaves I (check_new_name pt deployment req.name) s i)
              (λ u s free i.
                bind-Leaves I (λ u. check_new_share is_share req.max_share ≡ ok u) HasSound
                  (check_new_share is_share req.max_share, s) _
                  (lift-Leaves I (check_new_share is_share req.max_share) s i)
                  (λ v s w i.
                    bind-Leaves I (λ d. get_elem? pt.deployments j ≡ some d) HasSound
                      (deployment_at pt j s) _ (deployment_at-Leaves I pt j s i)
                      (λ d s at i. save_changed-IsSound now req pt j d s i p.0 (
                        change-IsSound req j d deployment pt p.0 at
                          (found-id pt deployment j d e at) free))))))
