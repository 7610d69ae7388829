-- ===== src/Planner/Memory/Drifts.antt =====
-- `reconcile`: a drift is reported when it is first seen and corrected when it is seen again.
use provisioned_throughput.Base.{
  ℕ, ◌≡◌, refl, sym, ap₂, ◌∙◌, false, none, some, List, [], ◌∷◌, inl, inr, All, Bool-cases, ==_iff,
  pair_eq, string_eq, nat_eq, option_eq, true-ne-false,
}
use provisioned_throughput.Base.Dict
use provisioned_throughput.Base.Dict.{Dict, get-insert, get-remove}
use provisioned_throughput.Capacity.{PoolKey, same_pool}
use provisioned_throughput.Planner.{PoolView}
use provisioned_throughput.Planner.Memory.{
  MemoryPlanner, PendingDrift, is_at, find_pool, reconcile_pool, reconcile_all, reconcile,
}
use provisioned_throughput.Planner.Memory.Pools.{IsKeyed}
use provisioned_throughput.Planner.Memory.Judge.{
  key, want, SeenBefore, IsReady, Judged-key, Judged-frame, Judged-IsReady, Judged-settles,
  Judged-reports, judge,
}

some-ne-none {ℓ} : {A : Type ℓ} {a : A} → some a ≡ none → ⊥
some-ne-none e = cc

same_pool_sym : (k j : PoolKey) → same_pool k j ≡ false → same_pool j k ≡ false
same_pool_sym k j f = elim (Bool-cases (same_pool j k)) [
  | inl t ↦ absurd (true-ne-false (sym ((==_iff k j).1 (sym ((==_iff j k).0 t))) ∙ f))
  | inr e ↦ e
]

module _ (expected : Dict PoolKey ℕ) where
  -- No pool of the list has the key.
  abbrev Misses : PoolKey → List PoolView → Type 0
  Misses k = All (λ p. same_pool (key p) k ≡ false)

  missed :
      (p : PoolView) (ps : List PoolView)
      → find_pool p.region p.pool ps ≡ none
      → Misses (key p) ps × All (λ q. same_pool (key p) (key q) ≡ false) ps
  unfolding find_pool is_at
  missed p [] e = (tt, tt)
  missed p (q ∷ ps) e = elim (Bool-cases (same_pool (key q) (key p))) [
    | inl t ↦ absurd (some-ne-none (rw t at e))
    | inr f ↦
        let rest = missed p ps (rw f at e) in
        ((f, rest.0), (same_pool_sym (key q) (key p) f, rest.1))
  ]

  run_frame :
      (k : PoolKey) (ps : List PoolView) (pending : PendingDrift)
      → Misses k ps
      → Dict.get k (reconcile_all expected ps pending).2 ≡ Dict.get k pending
  unfolding reconcile_all
  run_frame k [] pending h = refl
  run_frame k (p ∷ ps) pending h =
      run_frame k ps _ h.1 ∙ Judged-frame expected p pending k (judge expected p pending) h.0

  abbrev Apart : List PoolView → Type 0
  Apart [] = Unit
  Apart (p ∷ ps) = Misses (key p) ps × Apart ps

  Apart-of_keyed : (ps : List PoolView) → IsKeyed ps → Apart ps
  Apart-of_keyed [] k = tt
  Apart-of_keyed (p ∷ ps) k = ((missed p ps k.0).0, Apart-of_keyed ps k.1)

  Misses-others :
      (p : PoolView) (ps : List PoolView)
      → Misses (key p) ps
      → All (λ q. same_pool (key p) (key q) ≡ false) ps
  Misses-others p [] m = tt
  Misses-others p (q ∷ ps) m = (same_pool_sym (key q) (key p) m.0, Misses-others p ps m.1)

  run-Misses :
      (k : PoolKey) (ps : List PoolView) (pending : PendingDrift)
      → Misses k ps
      → Misses k (reconcile_all expected ps pending).0
  unfolding reconcile_all
  run-Misses k [] pending m = tt
  run-Misses k (p ∷ ps) pending m =
      (rw (Judged-key expected p pending (judge expected p pending)) m.0, run-Misses k ps _ m.1)

  run-Apart :
      (ps : List PoolView) (pending : PendingDrift)
      → Apart ps
      → Apart (reconcile_all expected ps pending).0
  unfolding reconcile_all
  run-Apart [] pending a = tt
  run-Apart (p ∷ ps) pending a = (
    rw (Judged-key expected p pending (judge expected p pending)) (run-Misses (key p) ps _ a.0),
    run-Apart ps _ a.1,
  )

  run-IsReady :
      (ps : List PoolView) (pending : PendingDrift)
      → Apart ps
      → let (ps', _, pending') = reconcile_all expected ps pending in
        All (IsReady expected pending') ps'
  unfolding reconcile_all
  run-IsReady [] pending a = tt
  run-IsReady (p ∷ ps) pending a = (ready_later p pending ps a.0, run-IsReady ps _ a.1)
    where
      ready_later :
          (p : PoolView) (pending : PendingDrift) (ps : List PoolView)
          → Misses (key p) ps
          → let (p', _, pending') = reconcile_pool expected p pending in
            IsReady expected (reconcile_all expected ps pending').2 p'
      ready_later p pending ps m =
          elim (Judged-IsReady expected p pending (judge expected p pending)) [
            | inl e ↦ inl e
            | inr s ↦ inr (
                run_frame (key (reconcile_pool expected p pending).0) ps _
                  (rw (Judged-key expected p pending (judge expected p pending)) m)
                ∙ s)
          ]

  IsReady-frame :
      (p : PoolView) (pending : PendingDrift) (ps : List PoolView)
      → All (λ q. same_pool (key p) (key q) ≡ false) ps
      → All (IsReady expected pending) ps
      → All (IsReady expected (reconcile_pool expected p pending).2) ps
  IsReady-frame p pending [] o h = tt
  IsReady-frame p pending (q ∷ ps) o h = (
    elim h.0 [
      | inl e ↦ inl e
      | inr s ↦ inr (Judged-frame expected p pending (key q) (judge expected p pending) o.0 ∙ s)
    ],
    IsReady-frame p pending ps o.1 h.1,
  )

  run_settles :
      (ps : List PoolView) (pending : PendingDrift)
      → Apart ps
      → All (IsReady expected pending) ps
      → All (λ p. p.reserved ≡ want expected p) (reconcile_all expected ps pending).0
  unfolding reconcile_all
  run_settles [] pending a h = tt
  run_settles (p ∷ ps) pending a h = (
    Judged-settles expected p pending h.0 (judge expected p pending),
    run_settles ps _ a.1 (IsReady-frame p pending ps (Misses-others p ps a.0) h.1),
  )

  fresh_frame :
      (p : PoolView) (pending : PendingDrift) (ps : List PoolView)
      → All (λ q. same_pool (key p) (key q) ≡ false) ps
      → All (λ q. ¬ SeenBefore expected pending q) ps
      → All (λ q. ¬ SeenBefore expected (reconcile_pool expected p pending).2 q) ps
  fresh_frame p pending [] o h = tt
  fresh_frame p pending (q ∷ ps) o h = (
    λ s. h.0 (sym (Judged-frame expected p pending (key q) (judge expected p pending) o.0) ∙ s),
    fresh_frame p pending ps o.1 h.1,
  )

  run_reports :
      (ps : List PoolView) (pending : PendingDrift)
      → Apart ps
      → All (λ p. ¬ SeenBefore expected pending p) ps
      → (reconcile_all expected ps pending).0 ≡ ps
  unfolding reconcile_all
  run_reports [] pending a h = refl
  run_reports (p ∷ ps) pending a h =
      ap₂ (◌∷◌) (Judged-reports expected p pending h.0 (judge expected p pending))
        (run_reports ps _ a.1 (fresh_frame p pending ps (Misses-others p ps a.0) h.1))

-- Two runs of `reconcile` in a row against the same expected counts leave every pool's counter at
-- its expected count, whatever was pending before, when no two pools share their key.
pub reconcile_twice :
    (m : MemoryPlanner) (expected : Dict PoolKey ℕ)
    → IsKeyed m.pools
    → let (_, m') = reconcile m expected in
      let (_, m'') = reconcile m' expected in All (λ p. p.reserved ≡ want expected p) m''.pools
unfolding reconcile
reconcile_twice m expected k =
    let a = Apart-of_keyed expected m.pools k in
    run_settles expected _ _ (run-Apart expected m.pools m.pending a)
      (run-IsReady expected m.pools m.pending a)

-- A run corrects nothing that the run before had not seen as the same drift: if no pool's drift is
-- pending with its present counts, every pool is left as it was.
reconcile_first :
    (m : MemoryPlanner) (expected : Dict PoolKey ℕ)
    → IsKeyed m.pools
    → All (λ p. ¬ SeenBefore expected m.pending p) m.pools
    → (reconcile m expected).1.pools ≡ m.pools
unfolding reconcile
reconcile_first m expected k h =
    run_reports expected m.pools m.pending (Apart-of_keyed expected m.pools k) h
