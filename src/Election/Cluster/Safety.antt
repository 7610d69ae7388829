-- ===== src/Election/Cluster/Safety.antt =====
-- At most one replica leads at any moment.
use provisioned_throughput.Base.{
  ℕ, ◌+◌, ◌≤◌, ◌<◌, ◌≡◌, ◌≢◌, refl, sym, ◌∙◌, subst, true, Option, none, some, String, inl, inr,
  arith, ltb→lt, Bool-cases, true-ne-false, ◌==◌, ==_iff, string_eq,
}
use provisioned_throughput.Election.{LeaseRecord, is_leader, leader_until, validate}
use provisioned_throughput.Election.Validate.{validate-gap}
use provisioned_throughput.Base.Result.{ok}
use provisioned_throughput.Election.Cluster.{
  writing, clearing, Node, World, Timing, config, set_node, at_node, stored, Grows, Move, wait,
  begin, read, swap, miss, learn, give_up, leave, leave_read, clear, restart, Reach, here, next,
  start, leads,
}
use provisioned_throughput.Election.Cluster.Invariant.{
  NodeOk, NodeOk-later, NodeOk-written, Over, holder_of,
}
use provisioned_throughput.Election.Cluster.Own.{
  node, begin-Ok, give_up-Ok, leave-Ok, restart-Ok, miss-Ok, learn-Ok, swap-Ok, clear-Ok, read-Ok,
  unclaimed,
}
use provisioned_throughput.Election.Cluster.Others.{plan-Over, holder-other}

module _ (timing : Timing) (delay : ℕ) where
  -- The time `g` by which the holder last began a renewal is past, and every replica agrees.
  abbrev Inv : World → Type 0
  Inv w =
      (g : ℕ) × (g ≤ w.clock)
      × ((name : String) → NodeOk timing delay g w.store w.clock name (w.nodes name))

  abbrev AllOk : ℕ → Option LeaseRecord → ℕ → (String → Node) → Type 0
  AllOk g store clock nodes = (name : String) → NodeOk timing delay g store clock name (nodes name)

  -- One replica changes and the record does not.
  set-AllOk :
      (g : ℕ) (store : Option LeaseRecord) (clock : ℕ) (nodes : String → Node) (name : String)
      (n : Node)
      → ((other : String) → name ≢ other → NodeOk timing delay g store clock other (nodes other))
      → NodeOk timing delay g store clock name n
      → AllOk g store clock (set_node name n nodes)
  set-AllOk g store clock nodes name n others okay other = elim (Bool-cases (name == other)) [
    | inl t ↦
        rw t (subst (λ k. NodeOk timing delay g store clock k n) ((==_iff name other).0 t) okay)
    | inr f ↦ rw f (others other (λ e. true-ne-false (sym ((==_iff name other).1 e) ∙ f)))
  ]

  -- A step of one replica that leaves the record alone.
  local :
      (w : World) (name : String) {n : Node} (n' : Node)
      → w.nodes name ≡ n
      → ((g : ℕ)
          → g ≤ w.clock
          → NodeOk timing delay g w.store w.clock name n
          → NodeOk timing delay g w.store w.clock name n')
      → Inv w
      → Inv (at_node w name n')
  local w name n' at keep (g, past, okay) = (
    g,
    past,
    set-AllOk g w.store w.clock w.nodes name n' (λ other ne. okay other)
        (keep g past (subst (NodeOk timing delay g w.store w.clock name) at (okay name))),
  )

  -- A write by one replica.
  written :
      (w : World) (name : String) (n' : Node) (h : Option String) (v : ℕ)
      → Grows w.store v
      → (i : Inv w)
      → ((k : String) (t : ℕ)
          → name ≢ k
          → t ≤ w.clock
          → t ≤ i.0
          → holder_of w.store ≡ some k
          → Over timing delay w.clock t)
      → NodeOk timing delay w.clock (stored h v) w.clock name n'
      → Inv (record w { store = stored h v; nodes = set_node name n' w.nodes })
  written w name n' h v gr (g, past, okay) over own = (
    w.clock,
    omega arith,
    set-AllOk w.clock (stored h v) w.clock w.nodes name n'
        (λ k ne.
          NodeOk-written timing delay g w.store w.clock k w.clock v h (w.nodes k) gr
            (λ t c. elim ((okay k).lead t c) [
              | inl o ↦ o
              | inr s ↦ over k t ne ((okay k).past t c) s.1 s.0
            ])
            (okay k))
        own,
  )

  Move-Inv : {w w' : World} → Move timing delay w w' → Inv w → Inv w'
  Move-Inv {w} (wait d) (g, past, okay) = (
    g,
    omega arith,
    λ name. NodeOk-later timing delay g w.store w.clock name d (w.nodes name) (okay name),
  )
  Move-Inv {w} (begin name {e} at) i =
      local w name _ at (λ g past okay. begin-Ok timing delay g w.store w.clock name e okay) i
  Move-Inv {w} (read name {e} {now} at served) i =
      local w name _ at
        (λ g past okay. read-Ok timing delay g w.store w.clock now name e past served okay) i
  Move-Inv {w} (swap name {e} {now} {reason} {expected} v at same gr) (g, past, okay) =
      let mine : NodeOk timing delay g w.store w.clock name (node e (writing now expected reason)) =
        subst (NodeOk timing delay g w.store w.clock name) at (okay name) in
      written w name _ (some name) v gr (g, past, okay)
        (λ k t ne tp tg hold.
          plan-Over timing delay g w.clock w.store name k e.observed now t expected reason
            mine.phase.0 tp tg same mine.seen mine.phase.1 ne hold)
        (swap-Ok timing delay g w.store w.clock name e now v expected reason gr mine)
  Move-Inv {w} (miss name {e} {now} {reason} {expected} was at) i =
      local w name _ at
        (λ g past okay. miss-Ok timing delay g w.store w.clock name e now expected reason was okay)
        i
  Move-Inv {w} (learn name {e} {now} {reason} was at) i =
      local w name _ at
        (λ g past okay. learn-Ok timing delay g w.store w.clock name e now reason was okay) i
  Move-Inv {w} (give_up name {n} at) i =
      local w name _ at (λ g past okay. give_up-Ok timing delay g w.store w.clock name n okay) i
  Move-Inv {w} (leave name {e} at) i =
      local w name _ at (λ g past okay. leave-Ok timing delay g w.store w.clock name e okay) i
  Move-Inv {w} (leave_read name {e} {v} at found) i =
      local w name _ at
        (λ g past okay.
          unclaimed timing delay g w.store w.clock name e (clearing v) okay.phase (λ t h. h)
            okay.seen (okay.phase, rw found (omega arith, λ _. refl)))
        i
  Move-Inv {w} (clear name {e} {v} v' at same gr) (g, past, okay) =
      let mine : NodeOk timing delay g w.store w.clock name (node e (clearing v)) =
        subst (NodeOk timing delay g w.store w.clock name) at (okay name) in
      written w name _ none v' gr (g, past, okay)
        (λ k t ne tp tg hold.
          absurd (holder-other timing delay g w.clock w.store name k v same mine.phase.1 ne hold))
        (clear-Ok timing delay g w.store w.clock name e v v' gr mine)
  Move-Inv {w} (restart name) i =
      local w name _ refl (λ g past okay. restart-Ok timing delay g w.store w.clock name) i

  Reach-Inv : {w : World} → Reach timing delay start w → Inv w
  Reach-Inv here = (0, omega arith, λ name. restart-Ok timing delay 0 none 0 name)
  Reach-Inv (next r m) = Move-Inv m (Reach-Inv r)

  -- A replica that leads counts its lead from an instant that has not run out.
  leads-since :
      (w : World) (i : String)
      → leads timing w i ≡ true
      → (t : ℕ) × ((w.nodes i).elector.last_renew ≡ some t) × (w.clock < t + timing.renew_deadline)
  unfolding is_leader leader_until leads
  leads-since w i l = since (w.nodes i).elector.last_renew refl l
    where
      since :
          (r : Option ℕ)
          → (w.nodes i).elector.last_renew ≡ r
          → is_leader
              (config timing i)
              (record { observed = (w.nodes i).elector.observed; last_renew = r })
              w.clock
            ≡ true
          → (t : ℕ) × ((w.nodes i).elector.last_renew ≡ some t)
            × (w.clock < t + timing.renew_deadline)
      since none e l = absurd (true-ne-false (sym l))
      since (some t) e l = (t, e, ltb→lt _ _ l)

  leads-holder :
      (w : World) (i : String)
      → delay + timing.renew_deadline ≤ timing.lease_duration
      → Inv w
      → leads timing w i ≡ true
      → holder_of w.store ≡ some i
  leads-holder w i bound (g, past, okay) l =
      let (t, at, live) = leads-since w i l in
      elim ((okay i).lead t (inl at)) [ inl o ↦ absurd (omega arith) | inr h ↦ h.0 ]

-- The gap before a takeover: while a replica leads, in a world that replicas sharing their timings
-- reach from the start, every other replica that counts its lead from an instant stopped serving,
-- the renew deadline after it, at least `min_gap` less `delay` ago, when `validate` accepts the
-- timings for `min_gap`, reads are served within `delay` of their tick's start, and `delay` with the
-- renew deadline is at most the lease's duration.
pub takeover_gap :
    (timing : Timing) (delay min_gap : ℕ) {w : World}
    → delay + timing.renew_deadline ≤ timing.lease_duration
    → Reach timing delay start w
    → (i k : String) → validate (config timing i) min_gap ≡ ok tt
    → leads timing w i ≡ true
    → i ≢ k
    → (t : ℕ) → (w.nodes k).elector.last_renew ≡ some t
    → t + timing.renew_deadline + min_gap ≤ w.clock + delay
takeover_gap timing delay min_gap {w} bound r i k valid l ne t at =
    let (g, past, okay) = Reach-Inv timing delay r in
    let gap = validate-gap (config timing i) min_gap valid in
    elim ((okay k).lead t (inl at)) [
      | inl o ↦ omega arith
      | inr h ↦
          absurd (ne (same (sym (leads-holder timing delay w i bound (g, past, okay) l) ∙ h.0)))
    ]
  where
    same : {x y : String} → some x ≡ some y → x ≡ y
    same q = cc

-- At most one replica leads: in every world that replicas sharing their timings reach from the
-- start, however their reads, writes, failures, restarts and releases interleave, two replicas that
-- lead are one, when every read is served within `delay` of its tick's start and `delay` with the
-- renew deadline is at most the lease's duration.
pub at_most_one_leader :
    (timing : Timing) (delay : ℕ) {w : World}
    → delay + timing.renew_deadline ≤ timing.lease_duration
    → Reach timing delay start w
    → (i j : String) → leads timing w i ≡ true
    → leads timing w j ≡ true
    → i ≡ j
at_most_one_leader timing delay {w} bound r i j a b =
    let inv = Reach-Inv timing delay r in
    same
      (sym (leads-holder timing delay w i bound inv a) ∙ leads-holder timing delay w j bound inv b)
  where
    same : {x y : String} → some x ≡ some y → x ≡ y
    same q = cc
