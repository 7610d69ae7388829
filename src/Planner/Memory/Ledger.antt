-- ===== src/Planner/Memory/Ledger.antt =====
-- The sales that a planner has accepted, and the invariant that ties them to its counts.
use provisioned_throughput.Base.{
  ℕ, ◌+◌, ◌≤◌, ◌<◌, ◌≡◌, refl, Bool, true, false, ◌&&◌, Option, none, some, List, [], ◌∷◌, String,
  ◌⊎◌, inl, inr, arith, Bool-cases, leb, ◌==◌, ==_iff, string_eq, if◌then◌else◌, w64, w64_small,
  u64_mod, ==_refl, subst₂,
}
use provisioned_throughput.Capacity.{Schedule, arrivals, added_by}
use provisioned_throughput.Capacity.Arrivals.{total, arrived-le-total, added_by-eq, added_by_mono}
use provisioned_throughput.Planner.{PoolView, free_at, capacity_at}
use provisioned_throughput.Planner.Memory.{is_at, find_pool, set_reserved}
use provisioned_throughput.Planner.Memory.Pools.{
  with_reserved, is_at_with, find-set_self, find-set_ne, IsKeyed, set_reserved-IsKeyed,
}

-- Micro-replicas of a pool held from a date on.
pub record Booking : Type 0 where
  pub start : ℕ
  pub region : String
  pub pool : String
  pub need : ℕ

abbrev pub Ledger : Type 0
Ledger = List Booking

abbrev is_for : String → String → Booking → Bool
is_for region pool b = b.region == region && b.pool == pool

-- Everything booked on a pool, and what of it has started by a date.
unfoldable pub booked : String → String → Ledger → ℕ
booked region pool [] = 0
booked region pool (b ∷ bs) = (if is_for region pool b then b.need else 0) + booked region pool bs

unfoldable pub held_at : ℕ → String → String → Ledger → ℕ
held_at t region pool [] = 0
held_at t region pool (b ∷ bs) =
    (if is_for region pool b && leb b.start t then b.need else 0) + held_at t region pool bs

held_at-le-booked :
    (t : ℕ) (region pool : String) (bs : Ledger) → held_at t region pool bs ≤ booked region pool bs
unfolding held_at booked
held_at-le-booked t region pool [] = omega arith
held_at-le-booked t region pool (b ∷ bs) = elim (Bool-cases (is_for region pool b)) [
  | inl e ↦ rw e (ground (arith, held_at-le-booked t region pool bs))
  | inr e ↦ rw e (ground (arith, held_at-le-booked t region pool bs))
]

-- A pool's counts, zero for a pool that is not there.
abbrev reserved_in : Option PoolView → ℕ
reserved_in none = 0
reserved_in (some p) = p.reserved

abbrev capacity_in : Option PoolView → ℕ
capacity_in none = 0
capacity_in (some p) = p.capacity

abbrev pub reserved_of : String → String → List PoolView → ℕ
reserved_of region pool ps = reserved_in (find_pool region pool ps)

abbrev pub capacity_of : String → String → List PoolView → ℕ
capacity_of region pool ps = capacity_in (find_pool region pool ps)

abbrev pub SameCapacity : List PoolView → List PoolView → Type 0
SameCapacity ps qs =
    (region pool : String) → capacity_of region pool ps ≡ capacity_of region pool qs

pub set_reserved-SameCapacity :
    (region pool : String) (f : ℕ → ℕ) (ps : List PoolView)
    → SameCapacity (set_reserved region pool f ps) ps
unfolding set_reserved find_pool
set_reserved-SameCapacity region pool f [] region' pool' = refl
set_reserved-SameCapacity region pool f (p ∷ ps) region' pool' =
    elim (Bool-cases (is_at region pool p)) [
      | inl t ↦ rw t (ground (arith, is_at_with region' pool' f p))
      | inr e ↦ rw e (ground (arith, set_reserved-SameCapacity region pool f ps region' pool'))
    ]

-- The counters are the sum of the bookings, and at every moment what has started fits what the
-- pool has by then.
pub record Balances (schedule : Schedule) (ps : List PoolView) (l : Ledger) : Type 0 where
  pub keyed : IsKeyed ps
  pub bounded :
      (region pool : String)
      → capacity_of region pool ps + total (arrivals schedule region pool) < u64_mod
  pub word : (region pool : String) → reserved_of region pool ps < u64_mod
  pub counted : (region pool : String) → booked region pool l ≡ reserved_of region pool ps
  pub held :
      (t : ℕ) (region pool : String)
      → held_at t region pool l ≤ capacity_of region pool ps + added_by schedule region pool t

module _ (schedule : Schedule) (ps : List PoolView) (l : Ledger) (bal : Balances schedule ps l)
    (at : ℕ) (q : PoolView) (need : ℕ) (found : find_pool q.region q.pool ps ≡ some q)
    (fits : need ≤ free_at schedule at q) where
  abbrev booking : Booking
  booking = record { start = at; region = q.region; pool = q.pool; need = need }

  abbrev booked_pools : List PoolView
  booked_pools = set_reserved q.region q.pool (λ n. w64 (n + need)) ps

  schedule_bounded : (region pool : String) → total (arrivals schedule region pool) < u64_mod
  schedule_bounded region pool = let b = bal.bounded region pool in omega arith

  room_bound :
      (t : ℕ) (region pool : String)
      → capacity_of region pool ps + added_by schedule region pool t < u64_mod
  room_bound t region pool = omega (
    arith,
    added_by-eq schedule region pool t schedule_bounded,
    arrived-le-total t (arrivals schedule region pool),
    bal.bounded region pool,
  )

  capacity_at-eq : capacity_at schedule at q ≡ q.capacity + added_by schedule q.region q.pool at
  unfolding capacity_at
  capacity_at-eq = w64_small _ (let r = room_bound at q.region q.pool in rw found at r)

  -- What is reserved after the booking fits the capacity at its start, unless nothing is booked.
  after_fits : (need ≡ 0) ⊎ (q.reserved + need ≤ q.capacity + added_by schedule q.region q.pool at)
  unfolding free_at
  after_fits = let e = capacity_at-eq in let f = rw e at fits in omega arith

  q_word : q.reserved < u64_mod
  q_word = let r = bal.word q.region q.pool in rw found at r

  q_room : q.capacity + added_by schedule q.region q.pool at < u64_mod
  q_room = let r = room_bound at q.region q.pool in rw found at r

  new_reserved : w64 (q.reserved + need) ≡ q.reserved + need
  new_reserved = elim after_fits [
    | inl z ↦ w64_small _ (let h = q_word in omega arith)
    | inr f ↦ w64_small _ (let h = q_room in omega arith)
  ]

  new_bound : q.reserved + need < u64_mod
  new_bound = elim after_fits [
    | inl z ↦ let h = q_word in omega arith
    | inr f ↦ let h = q_room in omega arith
  ]

  -- The pools that are not booked.
  abbrev Other : String → String → Type 0
  Other region pool = ¬ ((q.region ≡ region) × (q.pool ≡ pool))

  found_after :
      find_pool q.region q.pool booked_pools ≡ some (with_reserved (λ n. w64 (n + need)) q)
  found_after = rw (find-set_self q.region q.pool (λ n. w64 (n + need)) ps, found)

  found-Other :
      (region pool : String)
      → Other region pool
      → find_pool region pool booked_pools ≡ find_pool region pool ps
  found-Other region pool h = find-set_ne q.region q.pool region pool (λ n. w64 (n + need)) ps h

  key_cases : (region pool : String) → ((q.region ≡ region) × (q.pool ≡ pool)) ⊎ Other region pool
  key_cases region pool = elim (Bool-cases (is_for region pool booking)) [
    | inl e ↦ inl (&&-both region pool e)
    | inr e ↦ inr (λ k. absurd (ground (arith, ==_iff q.region region, ==_iff q.pool pool)))
  ]
    where
      &&-both :
          (region pool : String)
          → is_for region pool booking ≡ true
          → (q.region ≡ region) × (q.pool ≡ pool)
      &&-both region pool e = ground (arith, ==_iff q.region region, ==_iff q.pool pool)

  for_self : is_for q.region q.pool booking ≡ true
  for_self = rw (==_refl q.region, ==_refl q.pool)

  for-Other : (region pool : String) → Other region pool → is_for region pool booking ≡ false
  for-Other region pool h = elim (Bool-cases (is_for region pool booking)) [
    | inl e ↦ absurd (h (ground (arith, ==_iff q.region region, ==_iff q.pool pool)))
    | inr e ↦ e
  ]

  -- A fact about every pool, from the pool that is booked and the others.
  every :
      (P : String → String → Type 0)
      → P q.region q.pool
      → ((region pool : String) → Other region pool → P region pool)
      → (region pool : String) → P region pool
  every P self other region pool = elim (key_cases region pool) [
    | inl (r, p) ↦ subst₂ P r p self
    | inr h ↦ other region pool h
  ]

  counted_after :
      (region pool : String)
      → booked region pool (booking ∷ l) ≡ reserved_of region pool booked_pools
  unfolding booked
  counted_after =
      every _
        (rw (for_self, found_after, bal.counted q.region q.pool, found, new_reserved) (omega arith))
        (λ region pool h.
          rw (for-Other region pool h, found-Other region pool h, bal.counted region pool)
            (omega arith))

  held_self :
      (t : ℕ)
      → held_at t q.region q.pool (booking ∷ l) ≤ q.capacity + added_by schedule q.region q.pool t
  unfolding held_at
  held_self t =
      let old = bal.held t q.region q.pool in
      let old' = rw found at old in
      let all = held_at-le-booked t q.region q.pool l in
      let count = rw found at (bal.counted q.region q.pool) in
      rw for_self (elim (Bool-cases (leb at t)) [
        | inl e ↦ rw e (elim after_fits [
          | inl z ↦ omega arith
          | inr f ↦
              let grows =
                added_by_mono schedule q.region q.pool at t schedule_bounded (ground arith) in
              omega arith
        ])
        | inr e ↦ rw e (omega arith)
      ])

  held_after :
      (t : ℕ) (region pool : String)
      → held_at t region pool (booking ∷ l)
        ≤ capacity_of region pool booked_pools + added_by schedule region pool t
  unfolding held_at
  held_after t = every _ (rw found_after (held_self t)) (λ region pool h.
      rw (for-Other region pool h, found-Other region pool h)
        (let old = bal.held t region pool in omega arith))

  bounded_after :
      (region pool : String)
      → capacity_of region pool booked_pools + total (arrivals schedule region pool) < u64_mod
  bounded_after =
      every _ (rw found_after (let b = bal.bounded q.region q.pool in rw found at b))
        (λ region pool h. rw (found-Other region pool h) (bal.bounded region pool))

  word_after : (region pool : String) → reserved_of region pool booked_pools < u64_mod
  word_after =
      every _ (rw (found_after, new_reserved) new_bound)
        (λ region pool h. rw (found-Other region pool h) (bal.word region pool))

  -- A booking that fits the free capacity at its start keeps the balance.
  pub book-Balances : Balances schedule booked_pools (booking ∷ l)
  book-Balances = record {
    keyed = set_reserved-IsKeyed q.region q.pool (λ n. w64 (n + need)) ps bal.keyed;
    bounded = bounded_after;
    word = word_after;
    counted = counted_after;
    held = held_after;
  }
