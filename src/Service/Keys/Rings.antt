-- ===== src/Service/Keys/Rings.antt =====
-- The keys of every deployment through whole requests: rotation and revocation.
use provisioned_throughput.Base.{
  ℕ, ◌≡◌, refl, sym, ◌∙◌, subst, true, false, not, Option, some, List, [], ◌∷◌, String, inl, inr,
  map, filter, modify, get_elem?, leb, unwrap_or, All, In, In-filter_into, ◌==◌, string_eq, some-eq,
  Option-cases,
}
use provisioned_throughput.Base.Distinct.{All-modify, All-at}
use provisioned_throughput.Base.Result.{ok}
use provisioned_throughput.Model.{
  ApiKey, is_current, is_live, Deployment, EventKind, ProvisionedThroughput,
}
use provisioned_throughput.Model.Requests.{RotateKeyRequest}
use provisioned_throughput.Errors.{validation}
use provisioned_throughput.Service.{
  Service, guard, lift, push_event, get, check_version, load_live, tidy_placements,
}
use provisioned_throughput.Service.Runs.{
  Leaves, Stored, then_do-Leaves, bind-Leaves, guard-Leaves, lift-Leaves, get-Stored,
  load_live-Stored, persist-Stored,
}
use provisioned_throughput.Service.Keys.{
  Fresh, issue_key, is_unexpired, prune_keys, prune_expired_keys, push_events, deployment_index,
  deployment_at, rotate_deployment, grace_end, rotate_at, rotate_key, max_key_grace_minutes,
  default_key_grace_minutes, revoke_at, revocable, revoke_key,
}
use provisioned_throughput.Service.Keys.Ring.{
  IsKeyRing, rotate_deployment-IsKeyRing, prune_keys-IsKeyRing, revoke-IsKeyRing,
}

-- The keys of each deployment make a ring.
abbrev pub HasRings : ProvisionedThroughput → Type 0
HasRings pt = All (λ d. IsKeyRing d.api_keys) pt.deployments

-- No key has the id.
abbrev pub IsNew : String → Deployment → Type 0
IsNew id d = (k : ApiKey) → In k d.api_keys → (id == k.id) ≡ false

abbrev pub IsFresh : String → ProvisionedThroughput → Type 0
IsFresh id pt = All (IsNew id) pt.deployments

All-map :
    {A : Type 0} (P : A → Type 0) (Q : A → Type 0) (f : A → A) (xs : List A)
    → ((x : A) → P x → Q (f x))
    → All P xs
    → All Q (map f xs)
All-map P Q f [] g h = tt
All-map P Q f (x ∷ xs) g h = (g x h.0, All-map P Q f xs g h.1)

deployments-push_events :
    (now : ℕ) (ks : List EventKind) (pt : ProvisionedThroughput)
    → (push_events now ks pt).deployments ≡ pt.deployments
deployments-push_events now [] pt = refl
deployments-push_events now (k ∷ ks) pt = deployments-push_events now ks (push_event now k pt)

-- Expired keys go, and every deployment keeps its ring; no id becomes taken.
prune-HasRings :
    (now : ℕ) (pt : ProvisionedThroughput) → HasRings pt → HasRings (prune_expired_keys now pt).1
unfolding prune_expired_keys
prune-HasRings now pt h =
    rw
      (
        prune_expired_keys,
        deployments-push_events now _
            (record pt { deployments = map (prune_keys now) pt.deployments }),
      )
      (All-map (λ d. IsKeyRing d.api_keys) (λ d. IsKeyRing d.api_keys) (prune_keys now)
        pt.deployments (prune_keys-IsKeyRing now) h)

prune-IsFresh :
    (id : String) (now : ℕ) (pt : ProvisionedThroughput)
    → IsFresh id pt
    → IsFresh id (prune_expired_keys now pt).1
unfolding prune_expired_keys prune_keys
prune-IsFresh id now pt h =
    rw
      (
        prune_expired_keys,
        deployments-push_events now _
            (record pt { deployments = map (prune_keys now) pt.deployments }),
      )
      (All-map (IsNew id) (IsNew id) (prune_keys now) pt.deployments
        (λ d f k i. f k (In-filter_into (is_unexpired now) k d.api_keys i).0) h)

-- The rotation of one deployment's keys.
rotate_at-HasRings :
    (now grace : ℕ) (new : ApiKey) (i : ℕ) (d : Deployment) (pt : ProvisionedThroughput)
    → HasRings pt
    → IsFresh new.id pt
    → is_current new ≡ true
    → get_elem? pt.deployments i ≡ some d
    → HasRings (rotate_at now grace new i d pt)
unfolding rotate_at
rotate_at-HasRings now grace new i d pt h fresh current at =
    let d' = (rotate_deployment new (grace_end now grace) d).0 in
    rw
      (
        rotate_at,
        deployments-push_events now _
            (record pt { deployments = modify i (λ _. d') pt.deployments }),
      )
      (All-modify (λ d. IsKeyRing d.api_keys) i (λ _. d') pt.deployments h
        (λ x e.
          rotate_deployment-IsKeyRing new (grace_end now grace) d
            (All-at (λ d. IsKeyRing d.api_keys) i d pt.deployments at h) current
            (All-at (IsNew new.id) i d pt.deployments at fresh)))

pub deployment_at-Leaves :
    (I : Service → Type 0) (pt : ProvisionedThroughput) (i : ℕ) (s : Service)
    → I s
    → Leaves I (λ d. get_elem? pt.deployments i ≡ some d) (deployment_at pt i s)
deployment_at-Leaves I pt i s h = elim (Option-cases (get_elem? pt.deployments i)) [
  | inl n ↦ rw (deployment_at, n) (h, tt)
  | inr (d, e) ↦ rw (deployment_at, e) (h, refl)
]

-- A ring is one current key and at most two others, none with the id of the current one. When in every
-- stored reservation the keys of each deployment make a ring and none has the new id, then after a
-- rotation they make rings in every stored reservation, and in the one that is returned: on success, on
-- each error and on a panic.
pub rotate_key-HasRings :
    (fresh : Fresh) (now : ℕ) (tenant id : String) (deployment : Option String)
    (if_match : Option ℕ) (req : RotateKeyRequest) (s : Service)
    → Stored (λ pt. HasRings pt × IsFresh fresh.id pt) s
    → Leaves (Stored HasRings) HasRings (rotate_key fresh now tenant id deployment if_match req s)
unfolding rotate_key issue_key is_current tidy_placements
rotate_key-HasRings fresh now tenant id deployment if_match req s h =
    let grace = unwrap_or req.grace_minutes default_key_grace_minutes in
    let Both : ProvisionedThroughput → Type 0 = λ pt. HasRings pt × IsFresh fresh.id pt in
    let Live : ProvisionedThroughput → Type 0 = λ pt. Both pt × (is_live pt.state ≡ true) in
    then_do-Leaves (Stored Both) (Stored HasRings) (λ u. leb grace max_key_grace_minutes ≡ true)
      HasRings (guard (leb grace max_key_grace_minutes) (validation "grace_minutes") s) _
      (λ s i id pt e. (i id pt e).0)
      (guard-Leaves (Stored Both) (leb grace max_key_grace_minutes) (validation "grace_minutes") s
        h)
      (λ u s t i.
        then_do-Leaves (Stored Both) (Stored HasRings) Live HasRings
          (load_live tenant id if_match s) _ (λ s i id pt e. (i id pt e).0)
          (load_live-Stored Both tenant id if_match s i)
          (λ pt s p i.
            bind-Leaves (Stored HasRings) (λ j. deployment_index pt deployment ≡ ok j) HasRings
              (lift (deployment_index pt deployment) s) _
              (lift-Leaves (Stored HasRings) (deployment_index pt deployment) s
                (λ id pt e. (i id pt e).0))
              (λ j s e i.
                let pruned = (prune_expired_keys now pt).1 in
                bind-Leaves (Stored HasRings) (λ d. get_elem? pruned.deployments j ≡ some d)
                  HasRings (deployment_at pruned j s) _
                  (deployment_at-Leaves (Stored HasRings) pruned j s i)
                  (λ d s at i.
                    persist-Stored HasRings now pt.version
                      (rotate_at now grace (issue_key fresh now) j d pruned) s i
                      (rotate_at-HasRings now grace (issue_key fresh now) j d pruned
                        (prune-HasRings now pt p.0.0) (prune-IsFresh fresh.id now pt p.0.1) refl
                        at)))))

-- The revocation of a key that may be revoked.
revoke_at-HasRings :
    (now : ℕ) (key_id : String) (i : ℕ) (d : Deployment) (pt : ProvisionedThroughput)
    → HasRings pt
    → get_elem? pt.deployments i ≡ some d
    → revocable key_id d ≡ ok tt
    → HasRings (revoke_at now key_id i d pt)
unfolding revoke_at
revoke_at-HasRings now key_id i d pt h at e =
    All-modify (λ d. IsKeyRing d.api_keys) i
      (λ d. record d { api_keys = filter (λ k. not (k.id == key_id)) d.api_keys }) pt.deployments h
      (λ x at_x.
        let same : d ≡ x = some-eq (sym at ∙ at_x) in
        subst (λ y. IsKeyRing (filter (λ k. not (k.id == key_id)) y.api_keys)) same
          (revoke-IsKeyRing key_id d (All-at (λ d. IsKeyRing d.api_keys) i d pt.deployments at h)
            e))

-- When every stored reservation's keys make rings, then after a revocation they still do, and so do the
-- keys of the one that is returned: on success, on each error and on a panic. So the current key is
-- never taken from a deployment.
revoke_key-HasRings :
    (now : ℕ) (tenant id : String) (deployment : Option String) (key_id : String)
    (if_match : Option ℕ) (s : Service)
    → Stored HasRings s
    → Leaves (Stored HasRings) HasRings (revoke_key now tenant id deployment key_id if_match s)
unfolding revoke_key tidy_placements
revoke_key-HasRings now tenant id deployment key_id if_match s h =
    let I = Stored HasRings in
    bind-Leaves I HasRings HasRings (get tenant id s) _ (get-Stored HasRings tenant id s h)
      (λ pt s p i.
        bind-Leaves I (λ u. check_version pt if_match ≡ ok u) HasRings
          (check_version pt if_match, s) _ (lift-Leaves I (check_version pt if_match) s i)
          (λ u s v i.
            bind-Leaves I (λ j. deployment_index pt deployment ≡ ok j) HasRings
              (deployment_index pt deployment, s) _
              (lift-Leaves I (deployment_index pt deployment) s i)
              (λ j s e i.
                bind-Leaves I (λ d. get_elem? pt.deployments j ≡ some d) HasRings
                  (deployment_at pt j s) _ (deployment_at-Leaves I pt j s i)
                  (λ d s at i.
                    bind-Leaves I (λ u. revocable key_id d ≡ ok u) HasRings (revocable key_id d, s)
                      _ (lift-Leaves I (revocable key_id d) s i)
                      (λ u s r i.
                        persist-Stored HasRings now pt.version (revoke_at now key_id j d pt) s i
                          (revoke_at-HasRings now key_id j d pt p at r))))))
