-- ===== src/Election/Cluster/Invariant.antt =====
-- What holds of every replica in every reachable world, given a time `g` by which the holder last
-- began a renewal.
use provisioned_throughput.Base.{
  ℕ, ◌+◌, ◌-◌, ◌≤◌, ◌≡◌, Option, none, some, String, ◌⊎◌, inl, inr, arith, string_eq, nat_eq,
}
use provisioned_throughput.Election.{
  LeaseRecord, Elector, Reason, expired, released, creating, renewing,
}
use provisioned_throughput.Election.Cluster.{
  Phase, idle, reading, writing, answered, leaving, clearing, Node, Timing, stored, Grows,
}

-- An instant by which a replica counts its lead: its last renewal, or one whose answer is on its
-- way.
abbrev pub Answered : Phase → ℕ → Type 0
Answered (answered now reason) t = now ≡ t
Answered _ t = ⊥

abbrev pub Claims : Node → ℕ → Type 0
Claims n t = (n.elector.last_renew ≡ some t) ⊎ Answered n.phase t

abbrev pub holder_of : Option LeaseRecord → Option String
holder_of none = none
holder_of (some r) = r.holder

-- The record's version is at least `v`, and while it is `v` the holder is `h`.
abbrev pub HolderAt : ℕ → Option String → Option LeaseRecord → Type 0
HolderAt v h none = ⊥
HolderAt v h (some r) = (v ≤ r.version) × (v ≡ r.version → r.holder ≡ h)

module _ (timing : Timing) (delay : ℕ) where
  -- A version seen at `since` is not from the future, and if it is the present one, the holder
  -- began its last renewal at most `delay` after.
  abbrev pub SeenAt : ℕ → Option LeaseRecord → ℕ → ℕ → Type 0
  SeenAt g none v since = ⊥
  SeenAt g (some r) v since = (v ≤ r.version) × (v ≡ r.version → g ≤ since + delay)

  abbrev pub Seen : ℕ → Option LeaseRecord → Option (ℕ × ℕ) → Type 0
  Seen g store none = Unit
  Seen g store (some (v, since)) = SeenAt g store v since

  -- Why the write that a tick awaits is in order.
  abbrev pub PlanOk : String → Option LeaseRecord → Option (ℕ × ℕ) → ℕ → Option ℕ → Reason → Type 0
  PlanOk name store observed now none creating = Unit
  PlanOk name store observed now (some v) renewing = HolderAt v (some name) store
  PlanOk name store observed now (some v) released = HolderAt v none store
  PlanOk name store observed now (some v) expired =
      (since : ℕ) × (observed ≡ some (v, since)) × (timing.lease_duration ≤ now - since)
  PlanOk name store observed now _ _ = ⊥

  abbrev pub PhaseOk : String → Option LeaseRecord → ℕ → Elector → Phase → Type 0
  PhaseOk name store clock e idle = Unit
  PhaseOk name store clock e (reading now) = now ≤ clock
  PhaseOk name store clock e (writing now expected reason) =
      (now ≤ clock) × PlanOk name store e.observed now expected reason
  PhaseOk name store clock e (answered now reason) = now ≤ clock
  PhaseOk name store clock e leaving = e.last_renew ≡ none
  PhaseOk name store clock e (clearing v) = (e.last_renew ≡ none) × HolderAt v (some name) store

  -- A lead counted from `t` ended long enough ago for another replica to take the lease.
  abbrev pub Over : ℕ → ℕ → Type 0
  Over clock t = t + timing.lease_duration ≤ clock + delay

  pub record NodeOk (g : ℕ) (store : Option LeaseRecord) (clock : ℕ) (name : String) (n : Node)
      : Type 0 where
    pub past : (t : ℕ) → Claims n t → t ≤ clock
    pub lead : (t : ℕ) → Claims n t → Over clock t ⊎ ((holder_of store ≡ some name) × (t ≤ g))
    pub seen : Seen g store n.elector.observed
    pub phase : PhaseOk name store clock n.elector n.phase

  module _ (g : ℕ) (store : Option LeaseRecord) (clock : ℕ) (name : String) where
    later_phase :
        (d : ℕ) (e : Elector) (p : Phase)
        → PhaseOk name store clock e p
        → PhaseOk name store (clock + d) e p
    later_phase d e idle h = tt
    later_phase d e (reading now) h = omega arith
    later_phase d e (writing now expected reason) h = (omega arith, h.1)
    later_phase d e (answered now reason) h = omega arith
    later_phase d e leaving h = h
    later_phase d e (clearing v) h = h

    -- Time passes.
    pub NodeOk-later :
        (d : ℕ) (n : Node) → NodeOk g store clock name n → NodeOk g store (clock + d) name n
    NodeOk-later d n ok = record {
      past = λ t c. let p = ok.past t c in omega arith;
      lead = λ t c. elim (ok.lead t c) [ inl o ↦ inl (omega arith) | inr h ↦ inr h ];
      seen = ok.seen;
      phase = later_phase d n.elector n.phase ok.phase;
    }

    HolderAt-Grows :
        (v v' : ℕ) (h h' : Option String)
        → Grows store v'
        → HolderAt v h store
        → HolderAt v h (stored h' v')
    HolderAt-Grows = holder_grows store
      where
        holder_grows :
            (s : Option LeaseRecord) (v v' : ℕ) (h h' : Option String)
            → Grows s v'
            → HolderAt v h s
            → HolderAt v h (stored h' v')
        holder_grows none v v' h h' gr k = absurd k
        holder_grows (some r) v v' h h' gr k = (omega arith, λ e. absurd (omega arith))

    pub Seen-grows :
        (g' v' : ℕ) (h' : Option String) (o : Option (ℕ × ℕ))
        → Grows store v'
        → Seen g store o
        → Seen g' (stored h' v') o
    Seen-grows = seen_grows store
      where
        seen_grows :
            (s : Option LeaseRecord) (g' v' : ℕ) (h' : Option String) (o : Option (ℕ × ℕ))
            → Grows s v'
            → Seen g s o
            → Seen g' (stored h' v') o
        seen_grows s g' v' h' none gr k = tt
        seen_grows none g' v' h' (some (v, since)) gr k = absurd k
        seen_grows (some r) g' v' h' (some (v, since)) gr k =
            (omega arith, λ e. absurd (omega arith))

    plan-Grows :
        (v' : ℕ) (h' : Option String) (o : Option (ℕ × ℕ)) (now : ℕ) (expected : Option ℕ)
        (reason : Reason)
        → Grows store v'
        → PlanOk name store o now expected reason
        → PlanOk name (stored h' v') o now expected reason
    plan-Grows v' h' o now none creating gr k = tt
    plan-Grows v' h' o now (some v) renewing gr k = HolderAt-Grows v v' (some name) h' gr k
    plan-Grows v' h' o now (some v) released gr k = HolderAt-Grows v v' none h' gr k
    plan-Grows v' h' o now (some v) expired gr k = k
    plan-Grows v' h' o now none renewing gr k = k
    plan-Grows v' h' o now none released gr k = k
    plan-Grows v' h' o now none expired gr k = k
    plan-Grows v' h' o now (some v) creating gr k = k

    phase-Grows :
        (v' : ℕ) (h' : Option String) (e : Elector) (p : Phase)
        → Grows store v'
        → PhaseOk name store clock e p
        → PhaseOk name (stored h' v') clock e p
    phase-Grows v' h' e idle gr k = tt
    phase-Grows v' h' e (reading now) gr k = k
    phase-Grows v' h' e (writing now expected reason) gr k =
        (k.0, plan-Grows v' h' e.observed now expected reason gr k.1)
    phase-Grows v' h' e (answered now reason) gr k = k
    phase-Grows v' h' e leaving gr k = k
    phase-Grows v' h' e (clearing v) gr k = (k.0, HolderAt-Grows v v' (some name) h' gr k.1)

    -- The record is written by another replica, when every claim of this one is over.
    pub NodeOk-written :
        (g' v' : ℕ) (h' : Option String) (n : Node)
        → Grows store v'
        → ((t : ℕ) → Claims n t → Over clock t)
        → NodeOk g store clock name n
        → NodeOk g' (stored h' v') clock name n
    NodeOk-written g' v' h' n gr over ok = record {
      past = ok.past;
      lead = λ t c. inl (over t c);
      seen = Seen-grows g' v' h' n.elector.observed gr ok.seen;
      phase = phase-Grows v' h' n.elector n.phase gr ok.phase;
    }
