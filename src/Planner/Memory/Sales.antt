-- ===== src/Planner/Memory/Sales.antt =====
-- A history of sales on a planner: no pool is ever oversold, whatever the order of start dates.
use provisioned_throughput.Base.{
  ℕ, ◌+◌, ◌≤◌, ◌<◌, ◌≡◌, refl, sym, ◌∙◌, List, [], ◌∷◌, String, inl, inr, arith, unwrap_or, map,
  w64, u64_mod, Split-In,
}
use provisioned_throughput.Base.Result.{Result, ok, err, panicked, ◌>>=◌}
use provisioned_throughput.Core.{Tier, Shape}
use provisioned_throughput.Capacity.{
  Costs, cost_per_cu, PoolShare, Schedule, CapacityConfig, share_cost, added_by, arrivals,
}
use provisioned_throughput.Capacity.Arrivals.{total}
use provisioned_throughput.Planner.{PlanError, PoolView, Claim, need_of, from_config}
use provisioned_throughput.Planner.Place.{IsBestPlacement, place-Decided}
use provisioned_throughput.Planner.Memory.{
  MemoryPlanner, find_pool, set_reserved, reserve_all, reserve, commit, new,
}
use provisioned_throughput.Planner.Memory.Pools.{find_pool-In, IsKeyed}
use provisioned_throughput.Planner.Memory.Ledger.{
  Booking, Ledger, held_at, booked, Balances, book-Balances, capacity_of, reserved_of, SameCapacity,
  set_reserved-SameCapacity,
}

-- What the shares that a sale returned hold from its start.
booking_of : Costs → Tier → ℕ → PoolShare → Booking
booking_of costs tier start s = record {
  start = start;
  region = s.region;
  pool = s.pool;
  need = unwrap_or (share_cost costs tier s) 0;
}

pub record_shares : Costs → Tier → ℕ → List PoolShare → Ledger → Ledger
unfolding booking_of
record_shares costs tier start [] l = l
record_shares costs tier start (s ∷ shares) l =
    record_shares costs tier start shares (booking_of costs tier start s ∷ l)

-- A request for capacity, as `reserve` takes it.
pub record Sale : Type 0 where
  pub model : String
  pub tier : Tier
  pub claims : List Claim
  pub shape : Shape
  pub start : ℕ

abbrev Books : Type 0
Books = MemoryPlanner × Ledger

-- A sale that is refused books nothing.
abbrev enter : Costs → Sale → Ledger → Result PlanError (List PoolShare) → Ledger
enter costs s l (ok shares) = record_shares costs s.tier s.start shares l
enter costs s l (err e) = l
enter costs s l panicked = l

sell : Books → Sale → Books
sell (m, l) s =
    let (result, m') = reserve m s.model s.tier s.claims s.shape s.start in
    (m', enter m.costs s l result)

pub sell_all : Books → List Sale → Books
unfolding sell
sell_all b [] = b
sell_all b (s ∷ sales) = sell_all (sell b s) sales

module _ (model : String) (tier : Tier) (shape : Shape) (at : ℕ) (costs : Costs)
    (schedule : Schedule) where
  abbrev run : List Claim → List PoolView → Result PlanError (List PoolView × List PoolShare)
  run = reserve_all model tier shape at costs schedule

  -- What a run of `reserve` has done to the balance; it does not panic.
  abbrev Ends : List PoolView → Ledger → Result PlanError (List PoolView × List PoolShare) → Type 0
  Ends ps l (ok (ps', shares)) =
      Balances schedule ps' (record_shares costs tier at shares l) × SameCapacity ps' ps
  Ends ps l (err e) = Unit
  Ends ps l panicked = ⊥

  place_books :
      (c : Claim) (ps : List PoolView) (l : Ledger) (pool : String) (need : ℕ)
      → Balances schedule ps l
      → IsBestPlacement c model tier shape at ps costs schedule pool need
      → Balances schedule
          (set_reserved c.region pool (λ n. w64 (n + need)) ps)
          (booking_of costs tier at (record { region = c.region; pool = pool; cus = c.cus }) ∷ l)
  unfolding booking_of share_cost cost_per_cu need_of
  place_books c ps l pool need bal b =
      let p = b.chosen in
      rw (← b.takes.eligible.in_region, b.pool_is, b.need_is, b.takes.costed)
        (book-Balances schedule ps l bal at p (need_of c.cus b.cost)
          (find_pool-In p ps bal.keyed (Split-In p ps b.split)) b.takes.fits)

  Ends-step :
      (ps qs : List PoolView) (l : Ledger) (share : PoolShare)
      (r : Result PlanError (List PoolView × List PoolShare))
      → SameCapacity qs ps
      → Ends qs (booking_of costs tier at share ∷ l) r
      → Ends ps l (r >>= λ (ps', shares). ok (ps', share ∷ shares))
  unfolding record_shares
  Ends-step ps qs l share (ok (ps', shares)) same h =
      (h.0, λ region pool. h.1 region pool ∙ same region pool)
  Ends-step ps qs l share (err e) same h = tt
  Ends-step ps qs l share panicked same h = h

  -- The claims of one sale keep the balance, and `reserve` does not panic.
  pub reserve_all-Ends :
      (cs : List Claim) (ps : List PoolView) (l : Ledger)
      → Balances schedule ps l
      → Ends ps l (run cs ps)
  unfolding reserve_all record_shares
  reserve_all-Ends [] ps l bal = (bal, λ region pool. refl)
  reserve_all-Ends (c ∷ cs) ps l bal =
      elim (place-Decided c model tier shape at ps costs schedule) [
        | inl (pool, need, e, best) ↦ rw e (
            Ends-step ps _ l (record { region = c.region; pool = pool; cus = c.cus }) _
              (set_reserved-SameCapacity c.region pool (λ n. w64 (n + need)) ps)
              (reserve_all-Ends cs _ _ (place_books c ps l pool need bal best)))
        | inr (e, refused, _) ↦ rw refused tt
      ]

-- What a step on the books keeps.
pub record Keeps (m : MemoryPlanner) (b : Books) : Type 0 where
  pub balances : Balances m.schedule b.0.pools b.1
  pub same_schedule : b.0.schedule ≡ m.schedule
  pub same_costs : b.0.costs ≡ m.costs
  pub same_capacity : SameCapacity b.0.pools m.pools

commit-Keeps :
    (m : MemoryPlanner) (l : Ledger) (s : Sale)
    (r : Result PlanError (List PoolView × List PoolShare))
    → Balances m.schedule m.pools l
    → Ends s.model s.tier s.shape s.start m.costs m.schedule m.pools l r
    → let (result, m') = commit m r in Keeps m (m', enter m.costs s l result)
commit-Keeps m l s (ok (ps, shares)) bal h = record {
  balances = h.0;
  same_schedule = refl;
  same_costs = refl;
  same_capacity = h.1;
}
commit-Keeps m l s (err e) bal h = record {
  balances = bal;
  same_schedule = refl;
  same_costs = refl;
  same_capacity = λ region pool. refl;
}
commit-Keeps m l s panicked bal h = absurd h

sell-Keeps :
    (m : MemoryPlanner) (l : Ledger) (s : Sale)
    → Balances m.schedule m.pools l
    → Keeps m (sell (m, l) s)
unfolding sell reserve
sell-Keeps m l s bal =
    commit-Keeps m l s _ bal
      (reserve_all-Ends s.model s.tier s.shape s.start m.costs m.schedule s.claims m.pools l bal)

keep_on : (m : MemoryPlanner) (b c : Books) → Keeps m b → Keeps b.0 c → Keeps m c
keep_on m b c k h = record {
  balances = rw (← k.same_schedule) h.balances;
  same_schedule = h.same_schedule ∙ k.same_schedule;
  same_costs = h.same_costs ∙ k.same_costs;
  same_capacity = λ region pool. h.same_capacity region pool ∙ k.same_capacity region pool;
}

sell_all-Keeps :
    (sales : List Sale) (m : MemoryPlanner) (l : Ledger)
    → Balances m.schedule m.pools l
    → Keeps m (sell_all (m, l) sales)
unfolding sell_all
sell_all-Keeps [] m l bal = record {
  balances = bal;
  same_schedule = refl;
  same_costs = refl;
  same_capacity = λ region pool. refl;
}
sell_all-Keeps (s ∷ sales) m l bal =
    let (m', l') = sell (m, l) s in
    let k = sell-Keeps m l s bal in
    keep_on m (m', l') _ k (sell_all-Keeps sales m' l' (rw k.same_schedule k.balances))

-- A new planner has nothing sold.
unsold :
    (cs : List CapacityConfig) (region pool : String)
    → reserved_of region pool (map from_config cs) ≡ 0
unfolding find_pool from_config
unsold [] region pool = refl
unsold (c ∷ cs) region pool = ground (arith, unsold cs region pool)

-- Capacity configured and scheduled fits a machine word, and no two pools share their key.
pub record IsSound (cs : List CapacityConfig) (schedule : Schedule) : Type 0 where
  pub keyed : IsKeyed (map from_config cs)
  pub bounded :
      (region pool : String)
      → capacity_of region pool (map from_config cs) + total (arrivals schedule region pool)
        < u64_mod

new-Balances :
    (cs : List CapacityConfig) (costs : Costs) (schedule : Schedule)
    → IsSound cs schedule
    → Balances schedule (new cs costs schedule).pools []
unfolding booked held_at new
new-Balances cs costs schedule f = record {
  keyed = f.keyed;
  bounded = f.bounded;
  word = λ region pool. rw (unsold cs region pool) (omega arith);
  counted = λ region pool. sym (unsold cs region pool);
  held = λ t region pool. omega arith;
}

-- Starting from a new planner, after any list of sales with any start dates, at every moment the
-- capacity held by the accepted sales that have started is at most what the pool has by then: its
-- configured capacity and what has arrived. And the pool's counter is the sum of all that was
-- accepted. The configured pools have distinct keys, and capacity fits a machine word.
pub never_oversold :
    (cs : List CapacityConfig) (costs : Costs) (schedule : Schedule) (sales : List Sale) (t : ℕ)
    (region pool : String)
    → IsSound cs schedule
    → let (m', l) = sell_all (new cs costs schedule, []) sales in
      (held_at t region pool l
        ≤ capacity_of region pool (map from_config cs) + added_by schedule region pool t)
      × (reserved_of region pool m'.pools ≡ booked region pool l)
unfolding new
never_oversold cs costs schedule sales t region pool f =
    let m = new cs costs schedule in
    let k = sell_all-Keeps sales m [] (new-Balances cs costs schedule f) in
    (
      rw (← k.same_capacity region pool) (k.balances.held t region pool),
      sym (k.balances.counted region pool),
    )
