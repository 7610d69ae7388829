-- ===== src/Service/Lifecycle/Rounds.antt =====
-- The rounds of a reservation's turn in the lifecycle run: where they lead and that they come to an end.
use provisioned_throughput.Base.{
  ℕ, ◌+◌, ◌≤◌, ◌<◌, ◌≡◌, refl, sym, ◌∙◌, subst, true, ◌&&◌, Option, none, some, List, ◌⊎◌, inl, inr,
  arith, leb, &&-eq_true, Bool-cases, true-ne-false, ◌==◌, if◌then◌else◌,
}
use provisioned_throughput.Core.{tier_eq}
use provisioned_throughput.Base.Result.{Result, ok, err, panicked}
use provisioned_throughput.Core.{Tier, TermMonths, months}
use provisioned_throughput.Capacity.{PoolShare}
use provisioned_throughput.Planner.{PlanError}
use provisioned_throughput.Model.{RegionShare, State, PendingChanges, ProvisionedThroughput}
use provisioned_throughput.Errors.{ServiceError}
use provisioned_throughput.Service.{
  Settings, Service, M, then_do, done, plan_reserve, plan_release, as_claims, pooled, claims,
  record_placed,
}
use provisioned_throughput.Failover.{headroom, footprint}
use provisioned_throughput.Service.Runs.{Returns}
use provisioned_throughput.Service.Life.{Arrow, Way, here, ◌then◌, renew, lapse, finish}
use provisioned_throughput.Service.Lifecycle.{
  LifecycleReport, Turn, edit, same_shares, put_back, on_regions, on_tier, renew_regions,
  renew_tier, renew_regions_if, renew_tier_if, announce, apply_pending, next_term, end_term,
  is_active, is_running, is_due, turn_over, catch_up, activate, begin, count_renewed, count_ended,
}
use provisioned_throughput.Service.Lifecycle

-- What a step returns satisfies `Q`.
abbrev pub Gives : {A : Type 0} → (A → Type 0) → Result ServiceError A × Service → Type 0
Gives Q r = Returns Q r.0

pub then_do-Gives :
    {A B : Type 0} (Q : A → Type 0) (R : B → Type 0) (r : Result ServiceError A × Service)
    (f : A → M B)
    → Gives Q r
    → ((a : A) (s : Service) → Q a → Gives R (f a s))
    → Gives R (then_do r f)
then_do-Gives Q R (ok a, s) f h next = next a s h
then_do-Gives Q R (err e, s) f h next = tt
then_do-Gives Q R (panicked, s) f h next = tt

pub Gives-weaken :
    {A : Type 0} (Q R : A → Type 0) (r : Result ServiceError A × Service)
    → ((a : A) → Q a → R a)
    → Gives Q r
    → Gives R r
Gives-weaken Q R (ok a, s) f h = f a h
Gives-weaken Q R (err e, s) f h = tt
Gives-weaken Q R (panicked, s) f h = tt

after_any :
    {A B : Type 0} (R : B → Type 0) (r : Result ServiceError A × Service) (f : A → M B)
    → ((a : A) (s : Service) → Gives R (f a s))
    → Gives R (then_do r f)
after_any R (ok a, s) f next = next a s
after_any R (err e, s) f next = tt
after_any R (panicked, s) f next = tt

-- The state and the end of the term are as they were.
abbrev Keeps : ProvisionedThroughput → Turn → Type 0
Keeps pt t = (t.pt.state ≡ pt.state) × (t.pt.term_end ≡ pt.term_end)

months-positive : (m : TermMonths) → 1 ≤ months m
unfolding months
months-positive TermMonths.one = omega arith
months-positive TermMonths.three = omega arith
months-positive TermMonths.six = omega arith

module _ (c : Settings) (now : ℕ) where
  put_back-Keeps :
      (shares : List PoolShare) (e : PlanError) (t : Turn) (s : Service)
      → Gives (Keeps t.pt) (put_back c now shares e t s)
  unfolding put_back
  put_back-Keeps shares e t s =
      after_any (Keeps t.pt)
        (plan_reserve t.pt.model t.pt.tier (as_claims shares) t.pt.shape c.latest s) _
        (λ b s. (refl, refl))

  on_regions-Keeps :
      (new spare : List RegionShare) (before : List PoolShare) (t : Turn)
      (a : PlanError ⊎ List PoolShare) (s : Service)
      → Gives (Keeps t.pt) (on_regions c now new spare before t a s)
  unfolding on_regions record_placed
  on_regions-Keeps new spare before t (inr placed) s = (refl, refl)
  on_regions-Keeps new spare before t (inl e) s = put_back-Keeps before e t s

  on_tier-Keeps :
      (tier : Tier) (current : List PoolShare) (t : Turn) (a : PlanError ⊎ List PoolShare)
      (s : Service)
      → Gives (Keeps t.pt) (on_tier c now tier current t a s)
  unfolding on_tier
  on_tier-Keeps tier current t (inr placed) s = (refl, refl)
  on_tier-Keeps tier current t (inl e) s = put_back-Keeps current e t s

  renew_regions-Keeps :
      (new : List RegionShare) (t : Turn) (s : Service)
      → Gives (Keeps t.pt) (renew_regions c now new t s)
  unfolding renew_regions plan_release
  renew_regions-Keeps new t s =
      after_any (Keeps t.pt)
        (plan_reserve t.pt.model t.pt.tier
          (claims c t.pt (footprint new (headroom c.offer.regions t.pt.sku new))) t.pt.shape
          t.pt.term_end (plan_release t.pt.tier (pooled c t.pt) s).1)
        (on_regions c now new (headroom c.offer.regions t.pt.sku new) (pooled c t.pt) t)
        (λ a s. on_regions-Keeps new (headroom c.offer.regions t.pt.sku new) (pooled c t.pt) t a s)

  renew_tier-Keeps :
      (tier : Tier) (t : Turn) (s : Service) → Gives (Keeps t.pt) (renew_tier c now tier t s)
  unfolding renew_tier plan_release
  renew_tier-Keeps tier t s =
      after_any (Keeps t.pt)
        (plan_reserve t.pt.model tier (as_claims (pooled c t.pt)) t.pt.shape t.pt.term_end
          (plan_release t.pt.tier (pooled c t.pt) s).1)
        (on_tier c now tier (pooled c t.pt) t) (λ a s. on_tier-Keeps tier (pooled c t.pt) t a s)

  renew_regions_if-Keeps :
      (new : Option (List RegionShare)) (t : Turn) (s : Service)
      → Gives (Keeps t.pt) (renew_regions_if c now new t s)
  unfolding renew_regions_if
  renew_regions_if-Keeps none t s = (refl, refl)
  renew_regions_if-Keeps (some new) t s = elim (Bool-cases (same_shares new t.pt.regions)) [
    | inl e ↦ rw (renew_regions_if, e) (refl, refl)
    | inr f ↦ rw (renew_regions_if, f) (renew_regions-Keeps new t s)
  ]

  renew_tier_if-Keeps :
      (tier : Option Tier) (t : Turn) (s : Service)
      → Gives (Keeps t.pt) (renew_tier_if c now tier t s)
  unfolding renew_tier_if
  renew_tier_if-Keeps none t s = (refl, refl)
  renew_tier_if-Keeps (some tier) t s = elim (Bool-cases (tier == t.pt.tier)) [
    | inl e ↦ rw (renew_tier_if, e) (refl, refl)
    | inr f ↦ rw (renew_tier_if, f) (renew_tier-Keeps tier t s)
  ]

  apply_pending-Keeps :
      (p : Option PendingChanges) (t : Turn) (s : Service)
      → Gives (Keeps t.pt) (apply_pending c now p t s)
  unfolding apply_pending announce
  apply_pending-Keeps none t s = (refl, refl)
  apply_pending-Keeps (some p) t s =
      then_do-Gives (Keeps t.pt) (Keeps t.pt)
        (renew_regions_if c now p.regions (edit (λ pt. record pt { pending_changes = none }) t) s) _
        (renew_regions_if-Keeps p.regions (edit (λ pt. record pt { pending_changes = none }) t) s)
        (λ t₁ s k.
          then_do-Gives (Keeps t₁.pt) (Keeps t.pt) (renew_tier_if c now p.tier t₁ s) _
            (renew_tier_if-Keeps p.tier t₁ s) (λ t₂ s h. (h.0 ∙ k.0, h.1 ∙ k.1)))

  -- One round: the state moves along an arrow, and the term ends later than it did, unless the
  -- reservation has ended.
  abbrev pub Moves : ProvisionedThroughput → Turn → Type 0
  Moves pt t =
      Way pt.state t.pt.state
      × (((pt.term_end + 1 ≤ t.pt.term_end) × (t.pt.state ≡ State.active))
          ⊎ ((t.pt.state ≡ State.ended) × (t.pt.term_end ≡ pt.term_end)))

  abbrev pub Grows : Type 0
  Grows = (t m : ℕ) → 1 ≤ m → t < c.add_months t m

  renew-Moves :
      Grows
      → (t : Turn) (s : Service) → t.pt.state ≡ State.active
      → Gives (Moves t.pt) (Lifecycle.renew c now t s)
  unfolding Lifecycle.renew next_term
  renew-Moves grows t s active =
      then_do-Gives (Keeps t.pt) (Moves t.pt) (apply_pending c now t.pt.pending_changes t s) _
        (apply_pending-Keeps t.pt.pending_changes t s)
        (λ t₁ s k.
          let later =
            grows t₁.pt.term_end (months t₁.pt.term_months) (months-positive t₁.pt.term_months) in
          let same = k.1 in
          (
            subst (λ z. Way z t₁.pt.state) (sym active)
                (subst (λ z. Way State.active z) (sym (k.0 ∙ active)) (renew then here)),
            inl (omega arith, k.0 ∙ active),
          ))

  end_term-Moves :
      (t : Turn) (s : Service)
      → Arrow t.pt.state State.ended
      → Gives (Moves t.pt) (end_term c now t s)
  unfolding end_term plan_release
  end_term-Moves t s a = (a then here, inr (refl, refl))

  -- A reservation whose term is over is active or waits for its end.
  due_arrow : (pt : ProvisionedThroughput) → is_due now pt ≡ true → Arrow pt.state State.ended
  unfolding is_due
  due_arrow pt e = go pt.state (&&-eq_true (is_running pt.state) (leb pt.term_end now) e).0
    where
      go : (s : State) → is_running s ≡ true → Arrow s State.ended
      go State.scheduled h = absurd (true-ne-false (sym h))
      go State.active h = lapse
      go State.pending_cancellation h = finish
      go State.ended h = absurd (true-ne-false (sym h))
      go State.cancelled h = absurd (true-ne-false (sym h))

  active_of : (s : State) → is_active s ≡ true → s ≡ State.active
  active_of State.scheduled h = absurd (true-ne-false (sym h))
  active_of State.active h = refl
  active_of State.pending_cancellation h = absurd (true-ne-false (sym h))
  active_of State.ended h = absurd (true-ne-false (sym h))
  active_of State.cancelled h = absurd (true-ne-false (sym h))

  pub turn_over-Moves :
      Grows
      → (t : Turn) (s : Service) → is_due now t.pt ≡ true
      → Gives (Moves t.pt) (turn_over c now t s)
  unfolding turn_over
  turn_over-Moves grows t s due = elim (Bool-cases (is_active t.pt.state && t.pt.auto_renew)) [
    | inl e ↦
        rw (turn_over, e)
          (then_do-Gives (Moves t.pt) (Moves t.pt)
            (Lifecycle.renew c now (record t { changed = true }) s) (λ t₁. done (count_renewed t₁))
            (renew-Moves grows (record t { changed = true }) s
              (active_of t.pt.state (&&-eq_true (is_active t.pt.state) t.pt.auto_renew e).0))
            (λ t₁ s m. m))
    | inr f ↦
        rw (turn_over, f)
          (then_do-Gives (Moves t.pt) (Moves t.pt) (end_term c now (record t { changed = true }) s)
            (λ t₁. done (count_ended t₁))
            (end_term-Moves (record t { changed = true }) s (due_arrow t.pt due)) (λ t₁ s m. m))
  ]
