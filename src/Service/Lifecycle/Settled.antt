-- ===== src/Service/Lifecycle/Settled.antt =====
-- A turn of the lifecycle run as a whole.
use provisioned_throughput.Base.{
  ℕ, zero, suc, ◌+◌, ◌≤◌, ◌<◌, ◌≡◌, refl, sym, ◌∙◌, ap, subst, true, false, ◌&&◌, List, [], ◌∷◌,
  inl, inr, arith, leb, leb→le, &&-eq_true, Bool-cases, true-ne-false, if◌then◌else◌, map,
}
use provisioned_throughput.Model.{State, is_live, EventKind, ProvisionedThroughput, key_expired}
use provisioned_throughput.Service.{Settings, Service, push_event}
use provisioned_throughput.Base.Result.{ok}
use provisioned_throughput.Service.Life.{Way, here, ◌then◌, join, start}
use provisioned_throughput.Service.Keys.{prune_expired_keys, push_events, expired_of, prune_keys}
use provisioned_throughput.Service.Lifecycle.{
  LifecycleReport, Turn, is_running, is_scheduled, is_due, turn_over, catch_up, activate, begin,
}
use provisioned_throughput.Service.Lifecycle.Rounds.{
  Gives, then_do-Gives, Gives-weaken, Moves, turn_over-Moves,
}

-- Where a turn may lead from a state: along the diagram, to a reservation with nothing due, which
-- has not ended before its term.
abbrev pub Settles : ℕ → State → Turn → Type 0
Settles now from t =
    Way from t.pt.state
    × (is_due now t.pt ≡ false)
    × (t.pt.state ≡ State.ended → t.pt.term_end ≤ now)

running_of : (s : State) → s ≡ State.ended → is_running s ≡ false
unfolding is_live
running_of State.scheduled e = refl
running_of State.active e = absurd (true-ne-false (ap is_live e))
running_of State.pending_cancellation e = absurd (true-ne-false (ap is_live e))
running_of State.ended e = refl
running_of State.cancelled e = refl

ended-not_due :
    (now : ℕ) (pt : ProvisionedThroughput) → pt.state ≡ State.ended → is_due now pt ≡ false
unfolding is_due
ended-not_due now pt e = rw (running_of pt.state e) refl

before-not_due : (now : ℕ) (pt : ProvisionedThroughput) → now < pt.term_end → is_due now pt ≡ false
unfolding is_due
before-not_due now pt h = ground arith

due-over : (now : ℕ) (pt : ProvisionedThroughput) → is_due now pt ≡ true → pt.term_end ≤ now
unfolding is_due
due-over now pt e =
    leb→le pt.term_end now (&&-eq_true (is_running pt.state) (leb pt.term_end now) e).1

catch_up-idle :
    (c : Settings) (now fuel : ℕ) (t : Turn) (s : Service)
    → is_due now t.pt ≡ false
    → catch_up c now fuel t s ≡ (ok t, s)
unfolding catch_up
catch_up-idle c now zero t s e = refl
catch_up-idle c now (suc fuel) t s e = rw (catch_up, e) refl

active-not_ended : State.active ≡ State.ended → ⊥
unfolding is_live
active-not_ended e = true-ne-false (ap is_live e)

catch_up-Settles :
    (c : Settings) (now : ℕ)
    → ((t m : ℕ) → 1 ≤ m → t < c.add_months t m)
    → (fuel : ℕ) (t : Turn) (s : Service) → now < fuel + t.pt.term_end
    → (t.pt.state ≡ State.ended → t.pt.term_end ≤ now)
    → Gives (Settles now t.pt.state) (catch_up c now fuel t s)
unfolding catch_up
catch_up-Settles c now grows zero t s enough on_time =
    (here, before-not_due now t.pt (omega arith), on_time)
catch_up-Settles c now grows (suc fuel) t s enough on_time = elim (Bool-cases (is_due now t.pt)) [
  | inr f ↦ rw (catch_up, f) (here, f, on_time)
  | inl due ↦
      rw (catch_up, due)
        (then_do-Gives (Moves c now t.pt) (Settles now t.pt.state) (turn_over c now t s)
          (catch_up c now fuel) (turn_over-Moves c now grows t s due)
          (λ t₁ s m. elim m.1 [
            | inl later ↦
                Gives-weaken (Settles now t₁.pt.state) (Settles now t.pt.state)
                  (catch_up c now fuel t₁ s) (λ t₂ h. (join m.0 h.0, h.1, h.2))
                  (catch_up-Settles c now grows fuel t₁ s (let l = later.0 in omega arith)
                    (λ e. absurd (active-not_ended (sym later.1 ∙ e))))
            | inr over ↦ rw (catch_up-idle c now fuel t₁ s (ended-not_due now t₁.pt over.0)) (
              m.0,
              ended-not_due now t₁.pt over.0,
              λ e. let o = due-over now t.pt due in let q = over.1 in omega arith,
            )
          ]))
]

state-push_events :
    (now : ℕ) (ks : List EventKind) (pt : ProvisionedThroughput)
    → (push_events now ks pt).state ≡ pt.state
state-push_events now [] pt = refl
state-push_events now (k ∷ ks) pt = state-push_events now ks (push_event now k pt)

state-prune :
    (now : ℕ) (pt : ProvisionedThroughput) → (prune_expired_keys now pt).1.state ≡ pt.state
unfolding prune_expired_keys
state-prune now pt =
    state-push_events now (map (λ e. key_expired e.0 e.1) (expired_of now pt.deployments))
      (record pt { deployments = map (prune_keys now) pt.deployments })

-- The start of a term is an arrow, and leaves a live reservation live.
activate-Way : (now : ℕ) (t : Turn) → Way t.pt.state (activate now t).pt.state
unfolding activate
activate-Way now t = elim (Bool-cases (is_scheduled t.pt.state && leb t.pt.term_start now)) [
  | inl e ↦
      rw (activate, e)
        (rw
          (scheduled_of t.pt.state
            (&&-eq_true (is_scheduled t.pt.state) (leb t.pt.term_start now) e).0)
          (start then here))
  | inr f ↦ rw (activate, f) here
]
  where
    scheduled_of : (s : State) → is_scheduled s ≡ true → s ≡ State.scheduled
    scheduled_of State.scheduled e = refl
    scheduled_of State.active e = absurd (true-ne-false (sym e))
    scheduled_of State.pending_cancellation e = absurd (true-ne-false (sym e))
    scheduled_of State.ended e = absurd (true-ne-false (sym e))
    scheduled_of State.cancelled e = absurd (true-ne-false (sym e))

activate-live :
    (now : ℕ) (t : Turn) → is_live t.pt.state ≡ true → is_live (activate now t).pt.state ≡ true
unfolding activate is_live
activate-live now t live = elim (Bool-cases (is_scheduled t.pt.state && leb t.pt.term_start now)) [
  | inl e ↦ rw (activate, e) refl
  | inr f ↦ rw (activate, f) live
]

begin-Way :
    (now : ℕ) (pt : ProvisionedThroughput) (report : LifecycleReport)
    → Way pt.state (begin now pt report).pt.state
unfolding begin
begin-Way now pt report =
    let (changed, pruned) = prune_expired_keys now pt in
    subst (λ z. Way z (begin now pt report).pt.state) (state-prune now pt)
      (activate-Way now (record { pt = pruned; ops = []; changed = changed; report = report }))

begin-live :
    (now : ℕ) (pt : ProvisionedThroughput) (report : LifecycleReport)
    → is_live pt.state ≡ true
    → is_live (begin now pt report).pt.state ≡ true
unfolding begin
begin-live now pt report live =
    let (changed, pruned) = prune_expired_keys now pt in
    activate-live now (record { pt = pruned; ops = []; changed = changed; report = report })
      (ap is_live (state-prune now pt) ∙ live)

not_ended : (s : State) → is_live s ≡ true → s ≡ State.ended → ⊥
unfolding is_live
not_ended s live e = true-ne-false (sym live ∙ ap is_live e)

-- A turn of a live reservation, when adding months to a time gives a later one and the planner does not
-- panic: the rounds come to an end with nothing due any more, the state has moved along the diagram, and
-- a reservation that has ended had its term over.
pub take_turn-Settles :
    (c : Settings) (now : ℕ) (pt : ProvisionedThroughput) (report : LifecycleReport) (s : Service)
    → ((t m : ℕ) → 1 ≤ m → t < c.add_months t m)
    → is_live pt.state ≡ true
    → Gives (Settles now pt.state) (catch_up c now (suc now) (begin now pt report) s)
take_turn-Settles c now pt report s grows live =
    let t = begin now pt report in
    Gives-weaken (Settles now t.pt.state) (Settles now pt.state) (catch_up c now (suc now) t s)
      (λ t₂ h. (join (begin-Way now pt report) h.0, h.1, h.2))
      (catch_up-Settles c now grows (suc now) t s (omega arith)
        (λ e. absurd (not_ended t.pt.state (begin-live now pt report live) e)))
