-- ===== src/Service/Deployments/Limits.antt =====
-- What every change of a reservation's deployments keeps: how many they are, their names and ids, and
-- the keys of each.
use provisioned_throughput.Base.{
  ℕ, ◌≤◌, ◌≡◌, refl, sym, ◌∙◌, ap, Bool, true, false, not, ◌&&◌, Option, none, some, List, [], ◌∷◌,
  String, inl, inr, arith, length, length-append, modify, position, get_elem?, leb, unwrap_or, All,
  Option-cases, ◌==◌, ==_iff, string_eq, nat_eq, option_eq, if◌then◌else◌, In, true-ne-false,
}
use provisioned_throughput.Base.Result.{Result, ok, err, panicked, ok-eq, err-ne-ok, panicked-ne-ok}
use provisioned_throughput.Base.Distinct.{
  remove_at, All-weaken, All-both, All-append, All-remove_at, All-modify, All-at, All-of_none,
  length-modify, length-remove_at, position-passes, Distinct, Distinct-snoc, Distinct-remove_at,
  Distinct-modify, others-Apart, Apart,
}
use provisioned_throughput.Model.{ApiKey, Deployment, ProvisionedThroughput, is_current}
use provisioned_throughput.Model.Requests.{CreateDeploymentRequest, UpdateDeploymentRequest}
use provisioned_throughput.Errors.{ServiceError, conflict}
use provisioned_throughput.Validate
use provisioned_throughput.Service.Keys.{Fresh, issue_key, deployment_index}
use provisioned_throughput.Service.Keys.Ring.{IsKeyRing}
use provisioned_throughput.Service.Deployments.{
  max_deployments, is_taken, ensure_deployment_name_free, new_deployment, add_deployment, changed,
  check_new_name, drop_deployment,
}

-- A reservation is sound when it has between one and ten deployments, no two of the same name or id,
-- and the keys of each make a ring: one of them is current.
pub record IsSound (deployments : List Deployment) : Type 0 where
  pub at_least : 1 ≤ length deployments
  pub at_most : length deployments ≤ 10
  pub names : Distinct (λ d. d.name) deployments
  pub ids : Distinct (λ d. d.id) deployments
  pub rings : All (λ d. IsKeyRing d.api_keys) deployments

abbrev pub HasSound : ProvisionedThroughput → Type 0
HasSound pt = IsSound pt.deployments

abbrev pub LacksId : String → ProvisionedThroughput → Type 0
LacksId id pt = All (λ d. (d.id == id) ≡ false) pt.deployments

-- A name that is free is no other deployment's.
free_name :
    (pt : ProvisionedThroughput) (name : String) (except : Option String)
    → ensure_deployment_name_free pt name except ≡ ok tt
    → is_taken pt.deployments name except ≡ false
unfolding ensure_deployment_name_free
free_name pt name except e = passed (Validate.name name) (is_taken pt.deployments name except) e
  where
    passed :
        (r : Result ServiceError (Unit {0})) (taken : Bool)
        → elim r [
          | ok u ↦ if taken then err (conflict "name_taken") else ok tt
          | err e ↦ err e
          | panicked ↦ panicked
        ]
          ≡ ok tt
        → taken ≡ false
    passed (ok u) true e = absurd (err-ne-ok e)
    passed (ok u) false e = refl
    passed (err x) taken e = absurd (err-ne-ok e)
    passed panicked taken e = absurd (panicked-ne-ok e)

issued-IsKeyRing : (fresh : Fresh) (now : ℕ) → IsKeyRing (issue_key fresh now ∷ [])
unfolding issue_key is_current
issued-IsKeyRing fresh now = record {
  one_current = refl;
  few = omega arith;
  apart = λ a b i j ca cb. only a b i j ca cb;
}
  where
    only :
        (a b : ApiKey)
        → In a (issue_key fresh now ∷ [])
        → In b (issue_key fresh now ∷ [])
        → is_current a ≡ true
        → is_current b ≡ false
        → (a.id == b.id) ≡ false
    only a b (inl e) (inl e') ca cb = absurd (true-ne-false (ap is_current (sym e') ∙ cb))
    only a b (inr i) j ca cb = absurd i
    only a b (inl e) (inr j) ca cb = absurd j

pub add-IsSound :
    (now : ℕ) (id : String) (fresh : Fresh) (req : CreateDeploymentRequest)
    (pt : ProvisionedThroughput)
    → HasSound pt
    → LacksId id pt
    → ensure_deployment_name_free pt req.name none ≡ ok tt
    → not (leb max_deployments (length pt.deployments)) ≡ true
    → HasSound (add_deployment now (new_deployment id fresh now req) pt)
unfolding add_deployment new_deployment is_taken
add-IsSound now id fresh req pt sound lacks free room =
    let d = new_deployment id fresh now req in
    let size = length-append pt.deployments (d ∷ []) in
    let low = sound.at_least in
    record {
      at_least = omega arith;
      at_most = ground arith;
      names =
          Distinct-snoc (λ d. d.name) pt.deployments d sound.names
            (All-weaken _ (λ x. Apart (λ d. d.name) x d) pt.deployments (λ x e. ground arith)
              (All-of_none _ pt.deployments (free_name pt req.name none free)));
      ids = Distinct-snoc (λ d. d.id) pt.deployments d sound.ids lacks;
      rings =
          All-append (λ d. IsKeyRing d.api_keys) pt.deployments (d ∷ []) sound.rings
            (issued-IsKeyRing fresh now, tt);
    }

pub drop-IsSound :
    (now i : ℕ) (d : Deployment) (pt : ProvisionedThroughput)
    → HasSound pt
    → get_elem? pt.deployments i ≡ some d
    → not (length pt.deployments == 1) ≡ true
    → HasSound (drop_deployment now i d pt)
unfolding drop_deployment
drop-IsSound now i d pt sound at many =
    let size = length-remove_at i d pt.deployments at in
    let low = sound.at_least in
    let high = sound.at_most in
    record {
      at_least = ground arith;
      at_most = omega arith;
      names = Distinct-remove_at (λ d. d.name) i pt.deployments sound.names;
      ids = Distinct-remove_at (λ d. d.id) i pt.deployments sound.ids;
      rings = All-remove_at (λ d. IsKeyRing d.api_keys) i pt.deployments sound.rings;
    }

-- A change of the name and the cap.
pub change-IsSound :
    (req : UpdateDeploymentRequest) (i : ℕ) (d : Deployment) (deployment : String)
    (pt : ProvisionedThroughput)
    → HasSound pt
    → get_elem? pt.deployments i ≡ some d
    → d.id ≡ deployment
    → check_new_name pt deployment req.name ≡ ok tt
    → IsSound (modify i (changed req) pt.deployments)
unfolding changed is_taken
change-IsSound req i d deployment pt sound at named free =
    let size = length-modify i (changed req) pt.deployments in
    let low = sound.at_least in
    let high = sound.at_most in
    record {
      at_least = omega arith;
      at_most = omega arith;
      names =
          Distinct-modify (λ d. d.name) i (changed req) d pt.deployments at (others req.name free)
            sound.names;
      ids =
          Distinct-modify (λ d. d.id) i (changed req) d pt.deployments at
            (others-Apart (λ d. d.id) i d pt.deployments at sound.ids) sound.ids;
      rings =
          All-modify (λ d. IsKeyRing d.api_keys) i (changed req) pt.deployments sound.rings
            (λ x e. All-at (λ d. IsKeyRing d.api_keys) i x pt.deployments e sound.rings);
    }
  where
    others :
        (name : Option String)
        → check_new_name pt deployment name ≡ ok tt
        → All (λ y. (y.name == unwrap_or name d.name) ≡ false) (remove_at i pt.deployments)
    others none e = others-Apart (λ d. d.name) i d pt.deployments at sound.names
    others (some n) e =
        All-both (λ y. (y.id == d.id) ≡ false)
          (λ y. (y.name == n && not (some y.id == some deployment)) ≡ false)
          (λ y. (y.name == n) ≡ false) (remove_at i pt.deployments)
          (λ y other free. let o : (y.id == deployment) ≡ false = rw named at other in ground arith)
          (others-Apart (λ d. d.id) i d pt.deployments at sound.ids)
          (All-remove_at _ i pt.deployments
            (All-of_none _ pt.deployments (free_name pt n (some deployment) e)))

-- The deployment that is found by its id has that id.
pub found-id :
    (pt : ProvisionedThroughput) (deployment : String) (i : ℕ) (d : Deployment)
    → deployment_index pt (some deployment) ≡ ok i
    → get_elem? pt.deployments i ≡ some d
    → d.id ≡ deployment
unfolding deployment_index
found-id pt deployment i d e at =
    elim (Option-cases (position (λ x. x.id == deployment) pt.deployments)) [
      | inl n ↦ absurd (err-ne-ok (rw (deployment_index, n) at e))
      | inr (j, p) ↦
          let same : j ≡ i = ok-eq (rw (deployment_index, p) at e) in
          (==_iff d.id deployment).0
            (position-passes (λ x. x.id == deployment) i d pt.deployments (p ∙ ap some same) at)
    ]
