-- ===== src/Service/Keys.antt =====
-- Inference keys (crates/pt-control-plane/src/service.rs): a key is issued with its deployment, lives
-- on for a grace period after a rotation, and expires or is revoked.
pub mod Ring
pub mod Rings
use mathlib.Core.Option
use provisioned_throughput.Base.{
  ℕ, ◌+◌, ◌*◌, Bool, true, false, not, Option, none, some, List, [], ◌∷◌, ◌++◌, String, map, filter,
  find, take, drop, position, modify, get_elem?, unwrap_or, leb, ltb, ◌==◌, string_eq, nat_eq,
  if◌then◌else◌,
}
use provisioned_throughput.Base.Sort.{sort_by}
use provisioned_throughput.Base.Result.{Result, ok, err, panicked}
use provisioned_throughput.Model.{
  EventKind, key_rotated, key_revoked, key_expired, ApiKey, is_current, Deployment, current_key,
  ProvisionedThroughput,
}
use provisioned_throughput.Model.Requests.{RotateKeyRequest}
use provisioned_throughput.Errors.{ServiceError, not_found, validation, conflict}
use provisioned_throughput.Service.{
  M, then_do, ◌>>=◌, ◌>>◌, done, check, lift, guard, fail, push_event, get, check_version,
  load_live, persist,
}

-- The random parts of a new key: its id, its prefix and the hash of its secret.
pub record Fresh : Type 0 where
  pub id : String
  pub prefix : String
  pub sha256 : String

-- `issue_key`
unfoldable pub issue_key : Fresh → ℕ → ApiKey
issue_key f now = record {
  id = f.id;
  prefix = f.prefix;
  sha256 = f.sha256;
  created_at = now;
  expires_at = none;
}

-- The closure of `retain` in `prune_expired_keys`
unfoldable pub is_unexpired : ℕ → ApiKey → Bool
is_unexpired now k = elim k.expires_at [ none ↦ true | some e ↦ ltb now e ]

unfoldable pub prune_keys : ℕ → Deployment → Deployment
unfolding is_unexpired
prune_keys now d = record d { api_keys = filter (is_unexpired now) d.api_keys }

-- The keys that `prune_expired_keys` removes, each with its deployment.
unfoldable pub expired_of : ℕ → List Deployment → List (String × String)
unfolding is_unexpired
expired_of now [] = []
expired_of now (d ∷ rest) =
    map (λ k. (d.id, k.id)) (filter (λ k. not (is_unexpired now k)) d.api_keys)
    ++ expired_of now rest

abbrev pub push_events : ℕ → List EventKind → ProvisionedThroughput → ProvisionedThroughput
push_events now [] pt = pt
push_events now (k ∷ rest) pt = push_events now rest (push_event now k pt)

abbrev is_some_list : {A : Type 0} → List A → Bool
is_some_list [] = false
is_some_list (x ∷ xs) = true

-- `prune_expired_keys`: whether it removed any, and the reservation after it.
unfoldable pub prune_expired_keys : ℕ → ProvisionedThroughput → Bool × ProvisionedThroughput
unfolding prune_keys expired_of
prune_expired_keys now pt =
    let expired = expired_of now pt.deployments in
    (
      is_some_list expired,
      push_events now (map (λ e. key_expired e.0 e.1) expired)
          (record pt { deployments = map (prune_keys now) pt.deployments }),
    )

-- `deployment_index`
unfoldable pub deployment_index : ProvisionedThroughput → Option String → Result ServiceError ℕ
deployment_index pt none = ok 0
deployment_index pt (some d) = elim (position (λ x. x.id == d) pt.deployments) [
  | none ↦ err not_found
  | some i ↦ ok i
]

-- `pt.deployments[i]`, which panics out of bounds.
abbrev pub deployment_at : ProvisionedThroughput → ℕ → M Deployment
deployment_at pt i s = elim (get_elem? pt.deployments i) [
  | none ↦ (panicked, s)
  | some d ↦ (ok d, s)
]

-- `if let Some(k) = d.api_keys.iter_mut().find(|k| k.is_current()) { k.expires_at = Some(at) }`
unfoldable pub expire_current : ℕ → List ApiKey → List ApiKey
expire_current at [] = []
expire_current at (k ∷ rest) =
    let more = expire_current at rest in
    if is_current k then record k { expires_at = some at } ∷ rest else k ∷ more

abbrev max_previous_keys : ℕ
max_previous_keys = 2

unfoldable pub is_newer : ApiKey → ApiKey → Bool
is_newer a b = ltb b.created_at a.created_at

unfoldable pub is_older : ApiKey → ApiKey → Bool
is_older a b = ltb a.created_at b.created_at

-- The id of the key that a rotation replaces.
unfoldable pub previous_id : Deployment → String
unfolding current_key
previous_id d = unwrap_or (Option.map (λ k. k.id) (current_key d)) ""

-- The keys that have been rotated out, once the current one has.
unfoldable pub rotated_out : Option ℕ → Deployment → List ApiKey
unfolding expire_current previous_id
rotated_out none d = filter (λ k. not (k.id == previous_id d)) d.api_keys
rotated_out (some at) d = expire_current at d.api_keys

-- The part of `rotate_key` that changes the deployment: it, and the keys that it revokes.
unfoldable pub rotate_deployment : ApiKey → Option ℕ → Deployment → Deployment × List ApiKey
unfolding rotated_out is_newer is_older
rotate_deployment new_key previous_expires_at d =
    let previous = sort_by is_newer (rotated_out previous_expires_at d) in
    (
      record d { api_keys = sort_by is_older (take max_previous_keys previous ++ new_key ∷ []) },
      drop max_previous_keys previous,
    )

abbrev pub minute : ℕ
minute = 60000

abbrev pub default_key_grace_minutes : ℕ
default_key_grace_minutes = 60

abbrev pub max_key_grace_minutes : ℕ
max_key_grace_minutes = 10080

-- `(grace > 0).then(|| now + grace)`
abbrev pub grace_end : ℕ → ℕ → Option ℕ
grace_end now grace = if ltb 0 grace then some (now + grace * minute) else none

-- What `rotate_key` does to the reservation once it has found the deployment.
unfoldable pub rotate_at :
    ℕ → ℕ → ApiKey → ℕ → Deployment → ProvisionedThroughput → ProvisionedThroughput
unfolding rotate_deployment previous_id
rotate_at now grace new_key i d pt =
    let (d', revoked) = rotate_deployment new_key (grace_end now grace) d in
    push_events now
      (key_rotated d.id new_key.id (previous_id d) (grace_end now grace)
        ∷ map (λ k. key_revoked d.id k.id) revoked)
      (record pt { deployments = modify i (λ _. d') pt.deployments })

-- `rotate_key`
unfoldable pub rotate_key :
    Fresh
    → ℕ
    → String
    → String
    → Option String
    → Option ℕ
    → RotateKeyRequest
    → M ProvisionedThroughput
unfolding load_live deployment_index prune_expired_keys issue_key rotate_at persist
rotate_key fresh now tenant id deployment if_match req = do
  let grace = unwrap_or req.grace_minutes default_key_grace_minutes
  guard (leb grace max_key_grace_minutes) (validation "grace_minutes")
  pt ← load_live tenant id if_match
  i ← lift (deployment_index pt deployment)
  let pruned = (prune_expired_keys now pt).1
  d ← deployment_at pruned i
  persist now pt.version (rotate_at now grace (issue_key fresh now) i d pruned)

-- The part of `revoke_key` that changes the reservation.
unfoldable pub revoke_at :
    ℕ → String → ℕ → Deployment → ProvisionedThroughput → ProvisionedThroughput
revoke_at now key_id i d pt = push_event now (key_revoked d.id key_id) (record pt {
  deployments =
      modify i (λ e. record e { api_keys = filter (λ k. not (k.id == key_id)) e.api_keys })
        pt.deployments;
})

-- The key to revoke, which is live and is not the current one.
unfoldable pub revocable : String → Deployment → Result ServiceError (Unit {0})
unfolding is_current
revocable key_id d = elim (find (λ k. k.id == key_id) d.api_keys) [
  | none ↦ err (validation "key_id")
  | some k ↦ if is_current k then err (conflict "current_key") else ok tt
]

-- `revoke_key`
unfoldable pub revoke_key :
    ℕ → String → String → Option String → String → Option ℕ → M ProvisionedThroughput
unfolding get check_version deployment_index revoke_at persist revocable
revoke_key now tenant id deployment key_id if_match = do
  pt ← get tenant id
  check (check_version pt if_match)
  i ← lift (deployment_index pt deployment)
  d ← deployment_at pt i
  check (revocable key_id d)
  persist now pt.version (revoke_at now key_id i d pt)
