-- ===== src/Election/Cluster/Own.antt =====
-- What a replica's own step does to it: each keeps what holds of the replica.
use provisioned_throughput.Base.{
  some-eq, none-ne-some, ℕ, ◌+◌, ◌-◌, ◌≤◌, ◌≡◌, refl, sym, ◌∙◌, ap, Bool, true, false, Option, none,
  some, String, inl, inr, arith, leb, leb→le, Bool-cases, ◌==◌, ==_iff, string_eq, nat_eq,
}
use provisioned_throughput.Election.{
  LeaseRecord, Elector, fresh, Reason, on_read, on_other, observe, on_write, expired, released,
  creating, renewing,
}
use provisioned_throughput.Election.Cluster.{
  Phase, idle, reading, writing, answered, leaving, clearing, Node, Timing, config, after_read,
  stored, Grows,
}
use provisioned_throughput.Election.Cluster.Invariant.{
  Answered, Claims, NodeOk, Seen, PhaseOk, Seen-grows,
}

abbrev pub node : Elector → Phase → Node
node e p = record { elector = e; phase = p }

module _ (timing : Timing) (delay g : ℕ) (store : Option LeaseRecord) (clock : ℕ)
    (name : String) where
  abbrev Ok : Node → Type 0
  Ok n = NodeOk timing delay g store clock name n

  -- A step that claims nothing new.
  fewer :
      (n n' : Node)
      → ((t : ℕ) → Claims n' t → Claims n t)
      → Seen timing delay g store n'.elector.observed
      → PhaseOk timing delay name store clock n'.elector n'.phase
      → Ok n
      → Ok n'
  fewer n n' sub seen phase ok = record {
    past = λ t c. ok.past t (sub t c);
    lead = λ t c. ok.lead t (sub t c);
    seen = seen;
    phase = phase;
  }

  pub begin-Ok : (e : Elector) → Ok (node e idle) → Ok (node e (reading clock))
  begin-Ok e ok =
      fewer (node e idle) (node e (reading clock))
        (λ t c. elim c [ inl h ↦ inl h | inr h ↦ absurd h ]) ok.seen (omega arith) ok

  pub give_up-Ok : (n : Node) → Ok n → Ok (node n.elector idle)
  give_up-Ok n ok =
      fewer n (node n.elector idle) (λ t c. elim c [ inl h ↦ inl h | inr h ↦ absurd h ]) ok.seen tt
        ok

  -- A replica that has no claim.
  pub unclaimed :
      (e : Elector) (p : Phase)
      → e.last_renew ≡ none
      → ((t : ℕ) → Answered p t → ⊥)
      → Seen timing delay g store e.observed
      → PhaseOk timing delay name store clock e p
      → Ok (node e p)
  unclaimed e p unled quiet seen phase = record {
    past = λ t c. elim c [
      | inl h ↦ absurd (none-ne-some (sym unled ∙ h))
      | inr h ↦ absurd (quiet t h)
    ];
    lead = λ t c. elim c [
      | inl h ↦ absurd (none-ne-some (sym unled ∙ h))
      | inr h ↦ absurd (quiet t h)
    ];
    seen = seen;
    phase = phase;
  }

  pub leave-Ok :
      (e : Elector) → Ok (node e idle) → Ok (node (record e { last_renew = none }) leaving)
  leave-Ok e ok = unclaimed (record e { last_renew = none }) leaving refl (λ t h. h) ok.seen refl

  pub restart-Ok : Ok (node fresh idle)
  restart-Ok = unclaimed fresh idle refl (λ t h. h) tt tt

  pub miss-Ok :
      (e : Elector) (now : ℕ) (expected : Option ℕ) (reason : Reason) (was : Bool)
      → Ok (node e (writing now expected reason))
      → Ok (node (on_write now reason was false e).0 idle)
  unfolding on_write
  miss-Ok e now expected creating was ok = give_up-Ok (node e (writing now expected creating)) ok
  miss-Ok e now expected renewing was ok = give_up-Ok (node e (writing now expected renewing)) ok
  miss-Ok e now expected released was ok = give_up-Ok (node e (writing now expected released)) ok
  miss-Ok e now expected expired was ok = give_up-Ok (node e (writing now expected expired)) ok

  learned :
      (e e' : Elector) (now : ℕ) (reason : Reason)
      → e'.last_renew ≡ some now
      → Seen timing delay g store e'.observed
      → Ok (node e (answered now reason))
      → Ok (node e' idle)
  learned e e' now reason new seen ok =
      fewer (node e (answered now reason)) (node e' idle)
        (λ t c. elim c [ inl h ↦ inr (some-eq (sym new ∙ h)) | inr h ↦ absurd h ]) seen tt ok

  pub learn-Ok :
      (e : Elector) (now : ℕ) (reason : Reason) (was : Bool)
      → Ok (node e (answered now reason))
      → Ok (node (on_write now reason was true e).0 idle)
  unfolding on_write
  learn-Ok e now creating was ok = learned e _ now creating refl tt ok
  learn-Ok e now renewing was ok = learned e _ now renewing refl ok.seen ok
  learn-Ok e now released was ok = learned e _ now released refl tt ok
  learn-Ok e now expired was ok = learned e _ now expired refl tt ok

  -- The replica's own write: it may count its lead from any instant by now.
  pub swap-Ok :
      (e : Elector) (now v : ℕ) (expected : Option ℕ) (reason : Reason)
      → Grows store v
      → Ok (node e (writing now expected reason))
      → NodeOk timing delay clock (stored (some name) v) clock name (node e (answered now reason))
  swap-Ok e now v expected reason gr ok = record {
    past = written_past;
    lead = λ t c. inr (refl, written_past t c);
    seen = Seen-grows timing delay g store clock name clock v (some name) e.observed gr ok.seen;
    phase = ok.phase.0;
  }
    where
      written_past : (t : ℕ) → Claims (node e (answered now reason)) t → t ≤ clock
      written_past t (inl h) = ok.past t (inl h)
      written_past t (inr h) = let p = ok.phase.0 in omega arith

  pub clear-Ok :
      (e : Elector) (v v' : ℕ)
      → Grows store v'
      → Ok (node e (clearing v))
      → NodeOk timing delay clock (stored none v') clock name (node e idle)
  clear-Ok e v v' gr ok = record {
    past = λ t c. elim c [ inl h ↦ absurd (none-ne-some (sym ok.phase.0 ∙ h)) | inr h ↦ absurd h ];
    lead = λ t c. elim c [ inl h ↦ absurd (none-ne-some (sym ok.phase.0 ∙ h)) | inr h ↦ absurd h ];
    seen = Seen-grows timing delay g store clock name clock v' none e.observed gr ok.seen;
    phase = tt;
  }

-- The replica's read of a record that it found.
module _ (timing : Timing) (delay g v clock now : ℕ) (name : String) (began : now ≤ clock)
    (behind : g ≤ clock) (served : clock ≤ now + delay) where
  observed-Seen :
      (h : String) (o : Option (ℕ × ℕ))
      → Seen timing delay g (stored (some h) v) o
      → Seen timing delay g (stored (some h) v) (some (observe now v o))
  unfolding observe
  observed-Seen h none seen = (omega arith, λ _. omega arith)
  observed-Seen h (some (u, since)) seen = elim (Bool-cases (u == v)) [
    | inl t ↦ rw t seen
    | inr f ↦ rw f (omega arith, λ _. omega arith)
  ]

  observe-version : (o : Option (ℕ × ℕ)) → (observe now v o).0 ≡ v
  unfolding observe
  observe-version none = refl
  observe-version (some (u, since)) = elim (Bool-cases (u == v)) [
    | inl t ↦ rw t ((==_iff u v).0 t)
    | inr f ↦ rw f refl
  ]

  abbrev next_elector : Elector → Elector
  next_elector e = record { observed = some (observe now v e.observed); last_renew = none }

  other-Ok :
      (h : String) (e : Elector)
      → NodeOk timing delay g (stored (some h) v) clock name (node e (reading now))
      → NodeOk timing delay g
          (stored (some h) v)
          clock
          name
          (after_read now (on_other (config timing name) now v e))
  unfolding on_other
  other-Ok h e ok =
      elim (Bool-cases (leb timing.lease_duration (now - (observe now v e.observed).1))) [
        | inl t ↦ rw t (
            unclaimed timing delay g (stored (some h) v) clock name (next_elector e)
              (writing now (some v) expired) refl (λ t h. h) (observed-Seen h e.observed ok.seen)
              (
                began,
                (
                  (observe now v e.observed).1,
                  ap (λ u. some (u, (observe now v e.observed).1)) (observe-version e.observed),
                  leb→le _ _ t,
                ),
              ))
        | inr f ↦ rw f (
            unclaimed timing delay g (stored (some h) v) clock name (next_elector e) idle refl
              (λ t h. h) (observed-Seen h e.observed ok.seen) tt)
      ]

  -- A read that leaves the replica's record of itself as it was.
  plain-Ok :
      (store : Option LeaseRecord) (e : Elector) (expected : Option ℕ) (reason : Reason)
      → PhaseOk timing delay name store clock e (writing now expected reason)
      → NodeOk timing delay g store clock name (node e (reading now))
      → NodeOk timing delay g store clock name (node e (writing now expected reason))
  plain-Ok store e expected reason phase ok =
      fewer timing delay g store clock name (node e (reading now))
        (node e (writing now expected reason)) (λ t c. elim c [ inl h ↦ inl h | inr h ↦ absurd h ])
        ok.seen phase ok

  found-Ok :
      (holder : Option String) (e : Elector)
      → NodeOk timing delay g (stored holder v) clock name (node e (reading now))
      → NodeOk timing delay g
          (stored holder v)
          clock
          name
          (after_read now (on_read (config timing name) now (stored holder v) e))
  unfolding on_read
  found-Ok none e ok =
      plain-Ok (stored none v) e (some v) released (began, (omega arith, λ _. refl)) ok
  found-Ok (some h) e ok = elim (Bool-cases (h == name)) [
    | inl t ↦ rw t (
        plain-Ok (stored (some h) v) e (some v) renewing
          (began, (omega arith, λ _. ap some ((==_iff h name).0 t))) ok)
    | inr f ↦ rw f (other-Ok h e ok)
  ]

-- The replica's read.
pub read-Ok :
    (timing : Timing) (delay g : ℕ) (store : Option LeaseRecord) (clock now : ℕ) (name : String)
    (e : Elector)
    → g ≤ clock
    → clock ≤ now + delay
    → NodeOk timing delay g store clock name (node e (reading now))
    → NodeOk timing delay g store clock name
        (after_read now (on_read (config timing name) now store e))
unfolding on_read
read-Ok timing delay g none clock now name e behind served ok =
    fewer timing delay g none clock name (node e (reading now)) (node e (writing now none creating))
      (λ t c. elim c [ inl h ↦ inl h | inr h ↦ absurd h ]) ok.seen (ok.phase, tt) ok
read-Ok timing delay g (some r) clock now name e behind served ok =
    found-Ok timing delay g r.version clock now name ok.phase behind served r.holder e ok
