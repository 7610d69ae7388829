-- ===== src/Planner/Memory/Undo.antt =====
-- `release` undoes `reserve`, exactly.
use provisioned_throughput.Base.{
  ℕ, ◌+◌, ◌-◌, ◌≤◌, ◌<◌, ◌≡◌, refl, ap, ◌∙◌, some, List, [], ◌∷◌, String, inl, inr, arith,
  unwrap_or, w64, w64-lt, w64_small, u64_mod, Bool-cases, All, All-In, Split-In,
}
use provisioned_throughput.Base.Result.{Result, ok, err, panicked, ◌>>=◌}
use provisioned_throughput.Core.{Tier, Shape}
use provisioned_throughput.Capacity.{Costs, cost_per_cu, PoolShare, Schedule, share_cost, added_by}
use provisioned_throughput.Planner.{PlanError, PoolView, Claim, need_of, free_at, capacity_at}
use provisioned_throughput.Planner.Place.{IsBestPlacement, place-Decided}
use provisioned_throughput.Planner.Memory.{
  MemoryPlanner, is_at, find_pool, set_reserved, reserve_all, release_all, reserve, release, commit,
}
use provisioned_throughput.Planner.Memory.Pools.{find_pool-In, IsKeyed, set_reserved-IsKeyed}

-- Writes to one pool compose, and a write that changes nothing is none.
pub set_reserved_twice :
    (region pool : String) (f g : ℕ → ℕ) (ps : List PoolView)
    → set_reserved region pool g (set_reserved region pool f ps)
      ≡ set_reserved region pool (λ n. g (f n)) ps
unfolding set_reserved is_at
set_reserved_twice region pool f g [] = refl
set_reserved_twice region pool f g (p ∷ ps) = ground (arith, set_reserved_twice region pool f g ps)

pub set_reserved_same :
    (region pool : String) (f : ℕ → ℕ) (ps : List PoolView)
    → ((p : PoolView) → find_pool region pool ps ≡ some p → f p.reserved ≡ p.reserved)
    → set_reserved region pool f ps ≡ ps
unfolding set_reserved find_pool
set_reserved_same region pool f [] h = refl
set_reserved_same region pool f (p ∷ ps) h = elim (Bool-cases (is_at region pool p)) [
  | inl t ↦ rw t (ap (λ n. record p { reserved = n } ∷ ps) (h p (rw t)))
  | inr e ↦ rw e (ap (◌∷◌ p) (set_reserved_same region pool f ps (λ q k. h q (rw e k))))
]

-- Two releases commute, whichever pools they are for.
minus_comm :
    (region pool region' pool' : String) (j k : ℕ) (ps : List PoolView)
    → set_reserved region pool (λ n. n - j) (set_reserved region' pool' (λ n. n - k) ps)
      ≡ set_reserved region' pool' (λ n. n - k) (set_reserved region pool (λ n. n - j) ps)
unfolding set_reserved is_at
minus_comm region pool region' pool' j k [] = refl
minus_comm region pool region' pool' j k (p ∷ ps) =
    ground (arith, minus_comm region pool region' pool' j k ps)

module _ (costs : Costs) (tier : Tier) where
  release_all-minus :
      (region pool : String) (k : ℕ) (shares : List PoolShare) (ps : List PoolView)
      → release_all costs tier shares (set_reserved region pool (λ n. n - k) ps)
        ≡ set_reserved region pool (λ n. n - k) (release_all costs tier shares ps)
  unfolding release_all
  release_all-minus region pool k [] ps = refl
  release_all-minus region pool k (s ∷ shares) ps =
      ap (release_all costs tier shares)
        (minus_comm s.region s.pool region pool (unwrap_or (share_cost costs tier s) 0) k ps)
      ∙ release_all-minus region pool k shares _

-- Every counter is a machine word.
abbrev pub AreWords : List PoolView → Type 0
AreWords = All (λ p. p.reserved < u64_mod)

pub set_reserved-AreWords :
    (region pool : String) (need : ℕ) (ps : List PoolView)
    → AreWords ps
    → AreWords (set_reserved region pool (λ n. w64 (n + need)) ps)
unfolding set_reserved
set_reserved-AreWords region pool need [] h = tt
set_reserved-AreWords region pool need (p ∷ ps) h = elim (Bool-cases (is_at region pool p)) [
  | inl t ↦ rw t (w64-lt (p.reserved + need), h.1)
  | inr e ↦ rw e (h.0, set_reserved-AreWords region pool need ps h.1)
]

module _ (model : String) (tier : Tier) (shape : Shape) (at : ℕ) (costs : Costs)
    (schedule : Schedule) where
  abbrev run : List Claim → List PoolView → Result PlanError (List PoolView × List PoolShare)
  run = reserve_all model tier shape at costs schedule

  -- A need that fits what is free does not overflow the counter.
  fits_word :
      (q : PoolView) (need : ℕ)
      → q.reserved < u64_mod
      → need ≤ free_at schedule at q
      → w64 (q.reserved + need) - need ≡ q.reserved
  unfolding free_at capacity_at
  fits_word q need h f =
      let lt = w64-lt (q.capacity + added_by schedule q.region q.pool at) in
      rw (w64_small (q.reserved + need) (omega arith)) (omega arith)

  -- Releasing what one claim took.
  undo_one :
      (c : Claim) (ps : List PoolView) (pool : String) (need : ℕ)
      → IsKeyed ps
      → AreWords ps
      → IsBestPlacement c model tier shape at ps costs schedule pool need
      → set_reserved c.region pool
          (λ n.
            n
            - unwrap_or
                (share_cost costs tier (record { region = c.region; pool = pool; cus = c.cus }))
                0)
          (set_reserved c.region pool (λ n. w64 (n + need)) ps)
        ≡ ps
  unfolding share_cost cost_per_cu need_of
  undo_one c ps pool need keyed words b =
      let p = b.chosen in
      let here = Split-In p ps b.split in
      let found = find_pool-In p ps keyed here in
      rw (← b.takes.eligible.in_region, b.pool_is, b.need_is, b.takes.costed)
        (set_reserved_twice p.region p.pool _ _ ps
          ∙ set_reserved_same p.region p.pool _ ps (λ q e.
            let same : p ≡ q = cc in
            rw (← same)
              (fits_word p (need_of c.cus b.cost) (All-In _ p ps words here) b.takes.fits)))

  -- What `release` makes of the outcome of `reserve`.
  abbrev Undoes : List PoolView → Result PlanError (List PoolView × List PoolShare) → Type 0
  Undoes ps (ok (ps', shares)) = release_all costs tier shares ps' ≡ ps
  Undoes ps (err e) = Unit
  Undoes ps panicked = Unit

  undo_step :
      (ps qs : List PoolView) (s : PoolShare)
      (r : Result PlanError (List PoolView × List PoolShare))
      → set_reserved s.region s.pool (λ n. n - unwrap_or (share_cost costs tier s) 0) qs ≡ ps
      → Undoes qs r
      → Undoes ps (r >>= λ (ps', shares). ok (ps', s ∷ shares))
  unfolding release_all
  undo_step ps qs s (ok (ps', shares)) e h =
      release_all-minus costs tier s.region s.pool _ shares ps'
      ∙ ap (set_reserved s.region s.pool _) h
      ∙ e
  undo_step ps qs s (err e') e h = tt
  undo_step ps qs s panicked e h = tt

  undo_all :
      (cs : List Claim) (ps : List PoolView) → IsKeyed ps → AreWords ps → Undoes ps (run cs ps)
  unfolding reserve_all release_all
  undo_all [] ps k w = refl
  undo_all (c ∷ cs) ps k w = elim (place-Decided c model tier shape at ps costs schedule) [
    | inl (pool, need, e, best) ↦ rw e (
        undo_step ps _ (record { region = c.region; pool = pool; cus = c.cus }) _
          (undo_one c ps pool need k w best)
          (undo_all cs _ (set_reserved-IsKeyed c.region pool (λ n. w64 (n + need)) ps k)
            (set_reserved-AreWords c.region pool need ps w)))
    | inr (e, refused, _) ↦ rw refused tt
  ]

-- Releasing the shares that a sale returned puts the planner back exactly as it was before the
-- sale, also where several of its claims were placed on one pool.
pub release-reserve :
    (m m' : MemoryPlanner) (model : String) (tier : Tier) (claims : List Claim) (shape : Shape)
    (at : ℕ) (shares : List PoolShare)
    → IsKeyed m.pools
    → AreWords m.pools
    → reserve m model tier claims shape at ≡ (ok shares, m')
    → release m' tier shares ≡ m
unfolding reserve release
release-reserve m m' model tier claims shape at shares k w e =
    finish _ (undo_all model tier shape at m.costs m.schedule claims m.pools k w) e
  where
    finish :
        (r : Result PlanError (List PoolView × List PoolShare))
        → Undoes model tier shape at m.costs m.schedule m.pools r
        → commit m r ≡ (ok shares, m')
        → record m' { pools = release_all m'.costs tier shares m'.pools } ≡ m
    finish (ok (ps, placed)) h q =
        let after : record m { pools = ps } ≡ m' = ap (λ r. r.1) q in
        let result : ◌≡◌ {A = Result PlanError (List PoolShare)} (ok placed) (ok shares) =
          ap (λ r. r.0) q in
        let same : placed ≡ shares = cc in rw (← after, ← same) (ap (λ x. record m { pools = x }) h)
    finish (err e') h q = cc
    finish panicked h q = cc
