-- ===== src/Election/Ticks.antt =====
-- What a tick reports, over any backend.
use provisioned_throughput.Base.{
  ℕ, ◌+◌, ◌-◌, ◌<◌, ◌≡◌, refl, sym, ◌∙◌, Bool, true, false, not, ◌&&◌, Option, none, some, String,
  arith, leb, lt→ltb, Bool-cases, inl, inr, ◌==◌, string_eq, if◌then◌else◌, true-ne-false,
}
use provisioned_throughput.Base.Result.{Result, ok, err, panicked}
use provisioned_throughput.Election.{
  LeaseRecord, ElectionError, LeaseBackend, ElectionConfig, Elector, Change, no_change, acquired,
  resumed, lost, leader_until, is_leader, Reason, creating, renewing, released, expired, write,
  observe, on_other, on_read, on_write, step, judge_tick, tick, answer, carry_out,
}

-- What a change says of whether the replica led before and leads after.
abbrev pub Says : Result ElectionError Change → Bool → Bool → Type 0
Says (ok no_change) before after = before ≡ after
Says (ok (acquired warm_up)) before after = after ≡ true
Says (ok resumed) before after = (before ≡ false) × (after ≡ true)
Says (ok lost) before after = (before ≡ true) × (after ≡ false)
Says (err x) before after = before ≡ after
Says panicked before after = Unit

-- What a step says, before a loss is reported.
abbrev Hints : Result ElectionError Change → Bool → Bool → Type 0
Hints (ok no_change) before after = after ≡ true → before ≡ true
Hints (err x) before after = after ≡ true → before ≡ true
Hints r before after = Says r before after

module _ {S : Type 0} (b : LeaseBackend S) (c : ElectionConfig) (now : ℕ) where
  abbrev Outcome : Type 0
  Outcome = Result ElectionError Change × Elector × S

  judged :
      (before : Bool) (r : Outcome)
      → Hints r.0 before (is_leader c r.1 now)
      → let (result, e, _) = judge_tick b c now before r in Says result before (is_leader c e now)
  unfolding judge_tick
  judged before (panicked, e, s) h = tt
  judged before (err x, e, s) h = lemma before (is_leader c e now) h
    where
      lemma :
          (before after : Bool)
          → (after ≡ true → before ≡ true)
          → Says (if before && not after then ok lost else err x) before after
      lemma true true h = refl
      lemma true false h = (refl, refl)
      lemma false true h = h refl
      lemma false false h = refl
  judged before (ok no_change, e, s) h = lemma before (is_leader c e now) h
    where
      lemma :
          (before after : Bool)
          → (after ≡ true → before ≡ true)
          → Says (ok (if true && (before && not after) then lost else no_change)) before after
      lemma true true h = refl
      lemma true false h = (refl, refl)
      lemma false true h = h refl
      lemma false false h = refl
  judged before (ok (acquired w), e, s) h = h
  judged before (ok resumed, e, s) h = h
  judged before (ok lost, e, s) h = h

  module _ (lasts : 0 < c.renew_deadline) where
    leads_from_now :
        (o : Option (ℕ × ℕ))
        → is_leader c (record { observed = o; last_renew = some now }) now ≡ true
    unfolding is_leader leader_until
    leads_from_now o = lt→ltb now (now + c.renew_deadline) (omega arith)

    -- After its write, when the replica that awaited it led only if it led before.
    wrote :
        (before : Bool) (reason : Reason) (e : Elector) (r : Result ElectionError Bool × S)
        → (is_leader c e now ≡ true → before ≡ true)
        → (reason ≡ expired → is_leader c e now ≡ false)
        → let (result, e', _) = answer b c now reason before e r in
          Hints result before (is_leader c e' now)
    unfolding on_write
    wrote before reason e (err x, s) h q = h
    wrote before reason e (panicked, s) h q = tt
    wrote before creating e (ok true, s) h q = leads_from_now none
    wrote before creating e (ok false, s) h q = h
    wrote true renewing e (ok true, s) h q = λ _. refl
    wrote false renewing e (ok true, s) h q = (refl, leads_from_now e.observed)
    wrote before renewing e (ok false, s) h q = h
    wrote before released e (ok true, s) h q = leads_from_now none
    wrote before released e (ok false, s) h q = h
    wrote before expired e (ok true, s) h q = leads_from_now none
    wrote true expired e (ok false, s) h q = (refl, q refl)
    wrote false expired e (ok false, s) h q = h

    abbrev ended : ℕ → Elector → Elector
    ended v e = record { observed = some (observe now v e.observed); last_renew = none }

    ended_lead : (v : ℕ) (e : Elector) → is_leader c (ended v e) now ≡ false
    unfolding is_leader leader_until
    ended_lead v e = refl

    never :
        (v : ℕ) (e : Elector) (before : Bool) → is_leader c (ended v e) now ≡ true → before ≡ true
    never v e before t = absurd (true-ne-false (sym t ∙ ended_lead v e))

    -- Another replica's record was read.
    other :
        (before : Bool) (v : ℕ) (e : Elector) (s : S)
        → is_leader c e now ≡ before
        → let (result, e', _) = carry_out b c now before s (on_other c now v e) in
          Hints result before (is_leader c e' now)
    unfolding on_other
    other before v e s q =
        elim (Bool-cases (leb c.lease_duration (now - (observe now v e.observed).1))) [
          | inl t ↦ rw t (
              wrote before expired (ended v e) (b.put (some c.identity) (some v) s)
                (never v e before) (λ _. ended_lead v e))
          | inr f ↦ rw (f, q) (stopped before)
        ]
      where
        stopped :
            (before : Bool)
            → Hints (ok (if before then lost else no_change)) before (is_leader c (ended v e) now)
        stopped true = (refl, ended_lead v e)
        stopped false = never v e false

    -- A read that leaves the replica's own record as it was.
    plain :
        (before : Bool) (expected : Option ℕ) (reason : Reason) (e : Elector) (s : S)
        → (reason ≡ expired → ⊥)
        → is_leader c e now ≡ before
        → let (result, e', _) = carry_out b c now before s (e, write expected reason) in
          Hints result before (is_leader c e' now)
    plain before expected reason e s ne q =
        wrote before reason e (b.put (some c.identity) expected s) (λ t. sym q ∙ t)
          (λ x. absurd (ne x))

    found :
        (before : Bool) (holder : Option String) (v : ℕ) (e : Elector) (s : S)
        → is_leader c e now ≡ before
        → let r : LeaseRecord = record { holder = holder; version = v } in
          let (result, e', _) = carry_out b c now before s (on_read c now (some r) e) in
          Hints result before (is_leader c e' now)
    unfolding on_read
    found before none v e s q = plain before (some v) released e s (λ x. cc) q
    found before (some h) v e s q = elim (Bool-cases (h == c.identity)) [
      | inl t ↦ rw t (plain before (some v) renewing e s (λ x. cc) q)
      | inr f ↦ rw f (other before v e s q)
    ]

    served :
        (before : Bool) (got : Result ElectionError (Option LeaseRecord)) (e : Elector) (s : S)
        → is_leader c e now ≡ before
        → let (result, e', _) = elim got as (λ _. Outcome) [
          | err x ↦ (err x, e, s)
          | panicked ↦ (panicked, e, s)
          | ok r ↦ carry_out b c now before s (on_read c now r e)
        ] in
          Hints result before (is_leader c e' now)
    unfolding on_read
    served before (err x) e s q = λ t. sym q ∙ t
    served before panicked e s q = tt
    served before (ok none) e s q = plain before none creating e s (λ x. cc) q
    served before (ok (some r)) e s q = found before r.holder r.version e s q

-- No change of leadership goes unreported. Over any backend, with a positive renew deadline, of a tick
-- at `now`: no change or an error means that the replica leads at `now` as it did before; an
-- acquisition, that it leads, whether or not it led before; a resumption, that it leads and did not; a
-- loss, that it led and does not. When the backend panics, nothing is said.
pub tick-Says :
    {S : Type 0} (b : LeaseBackend S) (c : ElectionConfig) (now : ℕ) (e : Elector) (s : S)
    → 0 < c.renew_deadline
    → let (result, e', _) = tick b c now e s in Says result (is_leader c e now) (is_leader c e' now)
unfolding tick step
tick-Says b c now e s lasts =
    judged b c now (is_leader c e now) _
      (served b c now lasts (is_leader c e now) (b.get s) e s refl)
