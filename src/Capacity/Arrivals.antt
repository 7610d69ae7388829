-- ===== src/Capacity/Arrivals.antt =====
-- Scheduled capacity: it only grows, the order in which changes are listed does not matter, and
-- every pool's arrivals are in date order.
use provisioned_throughput.Base.{
  ℕ, ◌+◌, ◌*◌, ◌≤◌, ◌<◌, ◌≡◌, refl, List, [], ◌∷◌, String, map, filter, sum, unwrap_or, w64_small,
  leb, string_eq, pair_eq, u64_mod, if◌then◌else◌, arith, inl, inr, Bool-cases,
}
use provisioned_throughput.Base.Dict
use provisioned_throughput.Base.Dict.{Dict, get-insert}
use provisioned_throughput.Capacity.{
  micro, PoolKey, same_pool, Arrival, Schedule, insert_by_date, sort_by_date, push, arrivals,
  add_arrival, added_by, sort_entries,
}

-- What arrives by a date.
abbrev pub arrived : ℕ → List Arrival → ℕ
arrived at xs = sum (map (λ a. a.1) (filter (λ a. leb a.0 at) xs))

-- Everything that ever arrives at a pool.
abbrev pub total : List Arrival → ℕ
total [] = 0
total ((t, n) ∷ xs) = n + total xs

pub arrived-le-total : (at : ℕ) (xs : List Arrival) → arrived at xs ≤ total xs
arrived-le-total at [] = omega arith
arrived-le-total at ((t, n) ∷ xs) = ground (arith, arrived-le-total at xs)

arrived_mono : (at at' : ℕ) (xs : List Arrival) → at ≤ at' → arrived at xs ≤ arrived at' xs
arrived_mono at at' [] h = omega arith
arrived_mono at at' ((t, n) ∷ xs) h = ground (arith, arrived_mono at at' xs h)

-- The arrivals of each pool fit a machine word.
abbrev IsBounded : Schedule → Type 0
IsBounded s = (region pool : String) → total (arrivals s region pool) < u64_mod

pub added_by-eq :
    (s : Schedule) (region pool : String) (at : ℕ)
    → IsBounded s
    → added_by s region pool at ≡ arrived at (arrivals s region pool)
unfolding added_by
added_by-eq s region pool at b =
    w64_small _ (omega (arith, b region pool, arrived-le-total at (arrivals s region pool)))

-- Capacity only grows.
pub added_by_mono :
    (s : Schedule) (region pool : String) (at at' : ℕ)
    → IsBounded s
    → at ≤ at'
    → added_by s region pool at ≤ added_by s region pool at'
added_by_mono s region pool at at' b h =
    rw (added_by-eq s region pool at b, added_by-eq s region pool at' b)
      (arrived_mono at at' (arrivals s region pool) h)

arrived-insert :
    (at : ℕ) (a : Arrival) (xs : List Arrival)
    → arrived at (insert_by_date a xs) ≡ arrived at (a ∷ xs)
unfolding insert_by_date
arrived-insert at a [] = refl
arrived-insert at a (x ∷ xs) = ground (arith, arrived-insert at a xs)

pub arrived-sort : (at : ℕ) (xs : List Arrival) → arrived at (sort_by_date xs) ≡ arrived at xs
unfolding sort_by_date
arrived-sort at [] = refl
arrived-sort at (x ∷ xs) = ground (arith, arrived-insert at x (sort_by_date xs), arrived-sort at xs)

pub arrived-push :
    (at : ℕ) (a : Arrival) (xs : List Arrival) → arrived at (push xs a) ≡ arrived at (a ∷ xs)
unfolding push
arrived-push at a [] = refl
arrived-push at a (x ∷ xs) = ground (arith, arrived-push at a xs)

-- Adding replicas from a date raises the pool's capacity from then on by that many, and leaves
-- earlier dates and other pools alone.
arrived-add_arrival :
    (s : Schedule) (region pool region' pool' : String) (from replicas at : ℕ)
    → arrived at (arrivals (add_arrival s region pool from replicas) region' pool') ≡ (
        if same_pool (region, pool) (region', pool')
        then (if leb from at then replicas * micro else 0) + arrived at (arrivals s region pool)
        else arrived at (arrivals s region' pool'))
unfolding add_arrival arrivals
arrived-add_arrival s region pool region' pool' from replicas at =
    rw
      (get-insert (region, pool) (region', pool')
        (sort_by_date (push (arrivals s region pool) (from, replicas * micro))) s.added)
      (elim (Bool-cases (same_pool (region, pool) (region', pool'))) [
        | inl e ↦ rw e (
            ground (
              arith,
              arrived-sort at (push (arrivals s region pool) (from, replicas * micro)),
              arrived-push at (from, replicas * micro) (arrivals s region pool),
            ))
        | inr e ↦ rw e
      ])

-- No arrival of the list is before `t`, and the list is in date order.
abbrev After : ℕ → List Arrival → Type 0
After t [] = Unit
After t ((u, n) ∷ xs) = (t ≤ u) × After u xs

abbrev pub IsSorted : List Arrival → Type 0
IsSorted = After 0

After-le : (t u : ℕ) (xs : List Arrival) → t ≤ u → After u xs → After t xs
After-le t u [] h a = tt
After-le t u ((v, n) ∷ xs) h a = (omega arith, a.1)

insert-After :
    (t : ℕ) (a : Arrival) (xs : List Arrival) → t ≤ a.0 → After t xs → After t (insert_by_date a xs)
unfolding insert_by_date
insert-After t a [] h s = (h, tt)
insert-After t (v, m) ((u, n) ∷ xs) h s = elim (Bool-cases (leb v u)) [
  | inl e ↦ rw e (h, (ground arith, s.1))
  | inr e ↦ rw e (s.0, insert-After u (v, m) xs (ground arith) s.1)
]

sort-IsSorted : (xs : List Arrival) → IsSorted (sort_by_date xs)
unfolding sort_by_date
sort-IsSorted [] = tt
sort-IsSorted (x ∷ xs) = insert-After 0 x (sort_by_date xs) (omega arith) (sort-IsSorted xs)

pub get-sort_entries-IsSorted :
    (k : PoolKey) (d : Dict PoolKey (List Arrival))
    → IsSorted (unwrap_or (Dict.get k (sort_entries d)) [])
unfolding Dict.get sort_entries
get-sort_entries-IsSorted k [] = tt
get-sort_entries-IsSorted k ((j, v) ∷ d) = elim (Bool-cases (same_pool j k)) [
  | inl e ↦ rw e (sort-IsSorted v)
  | inr e ↦ rw e (get-sort_entries-IsSorted k d)
]

add_arrival-IsSorted :
    (s : Schedule) (region pool region' pool' : String) (from replicas : ℕ)
    → ((r p : String) → IsSorted (arrivals s r p))
    → IsSorted (arrivals (add_arrival s region pool from replicas) region' pool')
unfolding add_arrival arrivals
add_arrival-IsSorted s region pool region' pool' from replicas h =
    rw
      (get-insert (region, pool) (region', pool')
        (sort_by_date (push (arrivals s region pool) (from, replicas * micro))) s.added)
      (elim (Bool-cases (same_pool (region, pool) (region', pool'))) [
        | inl e ↦ rw e (sort-IsSorted _)
        | inr e ↦ rw e (h region' pool')
      ])
