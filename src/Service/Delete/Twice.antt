-- ===== src/Service/Delete/Twice.antt =====
-- Deleting a reservation again.
use provisioned_throughput.Base.{
  ℕ, ◌≡◌, refl, sym, ◌∙◌, ap, subst, true, Option, none, some, String, inl, inr, Bool-cases,
  Option-cases, ◌==◌, ==_iff, string_eq,
}
use provisioned_throughput.Base.Dict
use provisioned_throughput.Base.Dict.{get-insert}
use provisioned_throughput.Base.Result.{Result, ok, ok-eq, err-ne-ok}
use provisioned_throughput.Model.{State, ProvisionedThroughput}
use provisioned_throughput.Errors.{ServiceError}
use provisioned_throughput.Store
use provisioned_throughput.Store.{update}
use provisioned_throughput.Service.{
  Settings, Service, get, check_version, write, after_update, stamp, bump, plan_release,
}
use provisioned_throughput.Service.Runs.{update-cases, then_do-ok}
use provisioned_throughput.Service.Delete.{
  DeleteEffect, cancelled_now, ends_at_term_end, already_inactive, cancel, request_cancellation,
  close_now, close_later, close, delete,
}

-- The reservation `id` of the tenant is `pt`.
abbrev Has : String → String → ProvisionedThroughput → Service → Type 0
Has tenant id pt s = (Dict.get id s.store.by_id ≡ some pt) × ((pt.tenant == tenant) ≡ true)

get-Has :
    (tenant id : String) (pt : ProvisionedThroughput) (s s' : Service)
    → get tenant id s ≡ (ok pt, s')
    → Has tenant id pt s × (s ≡ s')
unfolding get Store.get
get-Has tenant id pt s s' e = elim (Option-cases (Dict.get id s.store.by_id)) [
  | inl n ↦ absurd (err-ne-ok (ap (λ r. r.0) (rw (get, Store.get, n) at e)))
  | inr (q, found) ↦ elim (Bool-cases (q.tenant == tenant)) [
    | inl t ↦
        let e' = rw (get, Store.get, found, t) at e in
        let same : q ≡ pt = ok-eq (ap (λ r. r.0) e') in
        ((found ∙ ap some same, rw (← same) t), ap (λ r. r.1) e')
    | inr f ↦ absurd (err-ne-ok (ap (λ r. r.0) (rw (get, Store.get, found, f) at e)))
  ]
]

Has-get :
    (tenant id : String) (pt : ProvisionedThroughput) (s : Service)
    → Has tenant id pt s
    → get tenant id s ≡ (ok pt, s)
unfolding get Store.get
Has-get tenant id pt s (found, t) = rw (get, Store.get, found, t) refl

-- What is written is there.
write-Has :
    (tenant id : String) (pt : ProvisionedThroughput) (expected : ℕ) (s s' : Service)
    → (pt.id == id) ≡ true
    → (pt.tenant == tenant) ≡ true
    → write expected pt s ≡ (ok tt, s')
    → Has tenant id pt s'
unfolding write after_update
write-Has tenant id pt expected s s' named owned e = elim (update-cases pt expected s.store) [
  | inl (x, refused) ↦
      absurd (err-ne-ok (ap (λ r. r.0) (subst (λ r. after_update s r ≡ (ok tt, s')) refused e)))
  | inr written ↦
      let left =
        ap (λ r. r.1.store.by_id) (subst (λ r. after_update s r ≡ (ok tt, s')) written e) in
      (ap (Dict.get id) (sym left) ∙ get-insert pt.id id pt s.store.by_id ∙ (rw named refl), owned)
]

-- What a second deletion says after a first.
abbrev pub again : DeleteEffect → DeleteEffect
again cancelled_now = already_inactive
again ends_at_term_end = ends_at_term_end
again already_inactive = already_inactive

module _ (c : Settings) (later : ℕ) (tenant id : String) where
  -- The reservation is stored, and closing it again changes nothing.
  abbrev Closed : ProvisionedThroughput × DeleteEffect → Service → Type 0
  Closed a s = Has tenant id a.0 s × (close c later a.0.state a.0 s ≡ (ok (a.0, again a.1), s))

  returned :
      (a b : ProvisionedThroughput × DeleteEffect) (s s' : Service)
      → ◌≡◌ {A = Result ServiceError (ProvisionedThroughput × DeleteEffect) × Service}
          (ok a, s)
          (ok b, s')
      → Closed a s
      → Closed b s'
  returned a b s s' e h =
      subst (λ t. Closed b t) (ap (λ r. r.1) e)
        (subst (λ x. Closed x s) (ok-eq (ap (λ r. r.0) e)) h)

  module _ (now : ℕ) (q : ProvisionedThroughput) (a : ProvisionedThroughput × DeleteEffect)
      (s s' : Service) (has : Has tenant id q s) (named : (q.id == id) ≡ true) where
    close_now-Closed : close_now c now q s ≡ (ok a, s') → Closed a s'
    unfolding close_now close cancel bump plan_release Store.bump_version
    close_now-Closed e =
        let saved = stamp now (cancel now q) in
        let (u, s₁, w, e₁) = then_do-ok (write q.version saved s) _ e in
        let h = write-Has tenant id saved q.version s s₁ named has.1 w in
        returned (saved, cancelled_now) a _ s' e₁ ((h.0, h.1), refl)

    close_later-Closed : close_later now q s ≡ (ok a, s') → Closed a s'
    unfolding close_later close request_cancellation bump Store.bump_version
    close_later-Closed e =
        let saved = stamp now (request_cancellation now q) in
        let (u, s₁, w, e₁) = then_do-ok (write q.version saved s) _ e in
        let h = write-Has tenant id saved q.version s s₁ named has.1 w in
        returned (saved, ends_at_term_end) a _ s' e₁ ((h.0, h.1), refl)

    close-Closed : (st : State) → q.state ≡ st → close c now st q s ≡ (ok a, s') → Closed a s'
    unfolding close
    close-Closed State.scheduled at e = close_now-Closed e
    close-Closed State.active at e = close_later-Closed e
    close-Closed State.pending_cancellation at e =
        returned (q, ends_at_term_end) a s s' e (has, (rw at refl))
    close-Closed State.ended at e = returned (q, already_inactive) a s s' e (has, (rw at refl))
    close-Closed State.cancelled at e = returned (q, already_inactive) a s s' e (has, (rw at refl))

-- When a deletion returns a reservation, deleting it again at any later time returns the same
-- reservation and changes nothing, neither the store nor the planner: the second one
-- releases no capacity. This is for a reservation that is stored under its own id.
pub delete-delete :
    (c : Settings) (now later : ℕ) (tenant id : String) (if_match : Option ℕ)
    (pt : ProvisionedThroughput) (effect : DeleteEffect) (s s' : Service)
    → ((q : ProvisionedThroughput) → Dict.get id s.store.by_id ≡ some q → q.id ≡ id)
    → delete c now tenant id if_match s ≡ (ok (pt, effect), s')
    → delete c later tenant id none s' ≡ (ok (pt, again effect), s')
unfolding delete check_version
delete-delete c now later tenant id if_match pt effect s s' keyed e =
    let (q, s₁, got, e₁) = then_do-ok (get tenant id s) _ e in
    let (has, same) = get-Has tenant id q s s₁ got in
    let (u, s₂, checked, e₂) = then_do-ok (check_version q if_match, s₁) _ e₁ in
    let here : s ≡ s₂ = same ∙ ap (λ r. r.1) checked in
    let named : (q.id == id) ≡ true = (==_iff q.id id).1 (keyed q has.0) in
    let closed =
      close-Closed c later tenant id now q (pt, effect) s s' has named q.state refl
        (subst (λ t. close c now q.state q t ≡ (ok (pt, effect), s')) (sym here) e₂) in
    rw (delete, Has-get tenant id pt s' closed.0) closed.1
