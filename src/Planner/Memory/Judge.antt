-- ===== src/Planner/Memory/Judge.antt =====
-- How `reconcile` (crates/pt-control-plane/src/planner.rs) judges one pool: what is remembered of a drift, and what becomes of the counter.
use provisioned_throughput.Base.{
  ℕ, ◌≡◌, ◌≢◌, refl, sym, ◌∙◌, Bool, true, false, Option, none, some, ◌⊎◌, inl, inr, unwrap_or,
  Bool-cases, ◌==◌, ==_iff, ==_refl, pair_eq, string_eq, nat_eq, option_eq, true-ne-false,
}
use provisioned_throughput.Base.Dict
use provisioned_throughput.Base.Dict.{Dict, get-insert, get-remove}
use provisioned_throughput.Capacity.{PoolKey, same_pool}
use provisioned_throughput.Planner.{PoolView}
use provisioned_throughput.Planner.Memory.{Drift, PendingDrift, judge_drift, reconcile_pool}

abbrev pub key : PoolView → PoolKey
key p = (p.region, p.pool)

abbrev drift_of : PoolKey → ℕ → ℕ → Bool → Drift
drift_of k reserved expected fix = record {
  region = k.0;
  pool = k.1;
  reserved = reserved;
  expected = expected;
  corrected = fix;
}

module _ (pending : PendingDrift) (k : PoolKey) (reserved expected : ℕ) where
  judge_same :
      (reserved == expected) ≡ true
      → judge_drift pending k reserved expected ≡ (none, Dict.remove k pending)
  unfolding judge_drift
  judge_same e = rw e

  judge_pending :
      (reserved == expected) ≡ false
      → (Dict.get k pending == some (reserved, expected)) ≡ true
      → judge_drift pending k reserved expected
        ≡ (some (drift_of k reserved expected true, true), Dict.remove k pending)
  unfolding judge_drift
  judge_pending e s = rw (e, s)

  judge_new :
      (reserved == expected) ≡ false
      → (Dict.get k pending == some (reserved, expected)) ≡ false
      → judge_drift pending k reserved expected ≡ (
        some (drift_of k reserved expected false, false),
        Dict.insert k (reserved, expected) pending,
      )
  unfolding judge_drift
  judge_new e s = rw (e, s)

module _ (expected : Dict PoolKey ℕ) where
  -- What the live reservations hold on a pool.
  abbrev pub want : PoolView → ℕ
  want p = unwrap_or (Dict.get (key p) expected) 0

  -- The drift of a pool was pending from the run before.
  abbrev pub SeenBefore : PendingDrift → PoolView → Type 0
  SeenBefore pending p = Dict.get (key p) pending ≡ some (p.reserved, want p)

  pub data Judged (p : PoolView) (pending : PendingDrift)
      : PoolView × Option Drift × PendingDrift → Type 0 where
    settled :
        {d : Option Drift}
        → p.reserved ≡ want p
        → Judged p pending (p, d, Dict.remove (key p) pending)
    fixed :
        {d : Option Drift}
        → SeenBefore pending p
        → Judged p pending (record p { reserved = want p }, d, Dict.remove (key p) pending)
    noted :
        {d : Option Drift}
        → p.reserved ≢ want p
        → ¬ SeenBefore pending p
        → Judged p pending (p, d, Dict.insert (key p) (p.reserved, want p) pending)

  abbrev seen : PendingDrift → PoolView → Bool
  seen pending p = Dict.get (key p) pending == some (p.reserved, want p)

  pub judge :
      (p : PoolView) (pending : PendingDrift) → Judged p pending (reconcile_pool expected p pending)
  unfolding reconcile_pool
  judge p pending = elim (Bool-cases (p.reserved == want p)) [
    | inl e ↦
        rw (judge_same pending (key p) p.reserved (want p) e, reconcile_pool)
          (settled ((==_iff p.reserved (want p)).0 e))
    | inr e ↦ elim (Bool-cases (seen pending p)) [
      | inl s ↦
          rw (judge_pending pending (key p) p.reserved (want p) e s, reconcile_pool)
            (fixed ((==_iff _ _).0 s))
      | inr s ↦
          rw (judge_new pending (key p) p.reserved (want p) e s, reconcile_pool)
            (noted (λ q. absurd (true-ne-false (sym ((==_iff p.reserved (want p)).1 q) ∙ e)))
              (λ q. absurd (
                true-ne-false
                  (sym ((==_iff (Dict.get (key p) pending) (some (p.reserved, want p))).1 q) ∙ s))))
    ]
  ]

  -- What judging one pool leaves pending for other keys, and of the pool itself.
  pub Judged-key :
      (p : PoolView) (pending : PendingDrift) {r : PoolView × Option Drift × PendingDrift}
      → Judged p pending r
      → key r.0 ≡ key p
  Judged-key p pending (settled e) = refl
  Judged-key p pending (fixed s) = refl
  Judged-key p pending (noted n s) = refl

  pub Judged-frame :
      (p : PoolView) (pending : PendingDrift) {r : PoolView × Option Drift × PendingDrift}
      (k : PoolKey)
      → Judged p pending r
      → same_pool (key p) k ≡ false
      → Dict.get k r.2 ≡ Dict.get k pending
  Judged-frame p pending k (settled e) ne = get-remove (key p) k pending ∙ (rw ne)
  Judged-frame p pending k (fixed s) ne = get-remove (key p) k pending ∙ (rw ne)
  Judged-frame p pending k (noted n s) ne =
      get-insert (key p) k (p.reserved, want p) pending ∙ (rw ne)

  -- A pool is on its way to its expected count: it is there, or its drift is pending.
  abbrev pub IsReady : PendingDrift → PoolView → Type 0
  IsReady pending p = (p.reserved ≡ want p) ⊎ SeenBefore pending p

  pub Judged-IsReady :
      (p : PoolView) (pending : PendingDrift) {r : PoolView × Option Drift × PendingDrift}
      → Judged p pending r
      → IsReady r.2 r.0
  Judged-IsReady p pending (settled e) = inl e
  Judged-IsReady p pending (fixed s) = inl refl
  Judged-IsReady p pending (noted n s) =
      inr (get-insert (key p) (key p) (p.reserved, want p) pending ∙ (rw (==_refl (key p))))

  pub Judged-settles :
      (p : PoolView) (pending : PendingDrift) {r : PoolView × Option Drift × PendingDrift}
      → IsReady pending p
      → Judged p pending r
      → r.0.reserved ≡ want r.0
  Judged-settles p pending h (settled e) = e
  Judged-settles p pending h (fixed s) = refl
  Judged-settles p pending (inl e) (noted n s) = absurd (n e)
  Judged-settles p pending (inr e) (noted n s) = absurd (s e)

  pub Judged-reports :
      (p : PoolView) (pending : PendingDrift) {r : PoolView × Option Drift × PendingDrift}
      → ¬ SeenBefore pending p
      → Judged p pending r
      → r.0 ≡ p
  Judged-reports p pending h (settled e) = refl
  Judged-reports p pending h (fixed s) = absurd (h s)
  Judged-reports p pending h (noted n s) = refl
