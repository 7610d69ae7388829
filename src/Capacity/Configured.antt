-- ===== src/Capacity/Configured.antt =====
-- The schedule of a configuration (`Schedule::from_config` in
-- crates/pt-control-plane/src/capacity.rs): what arrives at each pool, and in which order.

use provisioned_throughput.Base.{
  ℕ, ◌+◌, ◌*◌, ◌≡◌, refl, ap, ◌∙◌, false, ◌&&◌, Bool, Option, none, some, List, [], ◌∷◌, String,
  unwrap_or, leb, ◌==◌, ==_iff, string_eq, pair_eq, if◌then◌else◌, arith, inl, inr, Bool-cases,
  Option-cases,
}
use provisioned_throughput.Base.Dict
use provisioned_throughput.Base.Dict.{Dict, get-insert}
use provisioned_throughput.Capacity.{
  micro, PoolKey, same_pool, CapacityConfig, CapacityChange, Arrival, pool_id, capacity_for,
  change_pool, push, arrivals, sort_entries, collect_changes, schedule_from_config,
}
use provisioned_throughput.Capacity.Arrivals.{
  IsSorted, arrived, arrived-push, arrived-sort, get-sort_entries-IsSorted,
}

-- The change is for the pool: it names it, or it names none and the pool is the region's entry for the
-- model.
abbrev is_for : List CapacityConfig → String → String → CapacityChange → Bool
is_for cs region pool c = (c.region == region) && elim c.pool [
  | some named ↦ named == pool
  | none ↦ elim (capacity_for cs c.region c.model) [
    | none ↦ false
    | some entry ↦ pool_id entry == pool
  ]
]

-- The micro-replicas that the configured changes bring a pool by a date.
abbrev pub configured : List CapacityConfig → String → String → ℕ → List CapacityChange → ℕ
configured cs region pool at [] = 0
configured cs region pool at (c ∷ rest) =
    (if is_for cs region pool c && leb c.from at then c.add_replicas * micro else 0)
    + configured cs region pool at rest

module _ (cs : List CapacityConfig) (region pool : String) (at : ℕ) where
  abbrev got : Dict PoolKey (List Arrival) → ℕ
  got d = arrived at (unwrap_or (Dict.get (region, pool) d) [])

  -- One change, once its pool is known.
  abbrev brought : CapacityChange → Option String → ℕ
  brought c none = 0
  brought c (some p) =
      if same_pool (c.region, p) (region, pool) && leb c.from at then c.add_replicas * micro else 0

  abbrev collected :
      CapacityChange → Option String → Dict PoolKey (List Arrival) → Dict PoolKey (List Arrival)
  collected c none d = d
  collected c (some p) d =
      Dict.insert (c.region, p)
        (push (unwrap_or (Dict.get (c.region, p) d) []) (c.from, c.add_replicas * micro)) d

  collected-got :
      (c : CapacityChange) (o : Option String) (d : Dict PoolKey (List Arrival))
      → got (collected c o d) ≡ brought c o + got d
  collected-got c none d = omega arith
  collected-got c (some p) d =
      let more =
        arrived-push at (c.from, c.add_replicas * micro)
          (unwrap_or (Dict.get (c.region, p) d) []) in
      rw
        (get-insert (c.region, p) (region, pool)
          (push (unwrap_or (Dict.get (c.region, p) d) []) (c.from, c.add_replicas * micro)) d)
        (elim (Bool-cases (same_pool (c.region, p) (region, pool))) [
          | inl e ↦
              let here = (==_iff (c.region, p) (region, pool)).0 e in
              let was = ap (λ k. arrived at (unwrap_or (Dict.get k d) [])) here in
              rw e (ground (arith, more, was))
          | inr e ↦ rw e (omega arith)
        ])

  brought-is_for :
      (c : CapacityChange)
      → brought c (change_pool cs c)
        ≡ (if is_for cs region pool c && leb c.from at then c.add_replicas * micro else 0)
  unfolding change_pool
  brought-is_for c = elim (Option-cases c.pool) [
    | inr (p, e) ↦ rw e refl
    | inl n ↦ elim (Option-cases (capacity_for cs c.region c.model)) [
      | inr (entry, f) ↦ rw (n, f) refl
      | inl f ↦ elim (Bool-cases (c.region == region)) [
        | inl r ↦ rw (n, f, r) refl
        | inr r ↦ rw (n, f, r) refl
      ]
    ]
  ]

  collect_changes-step :
      (c : CapacityChange) (rest : List CapacityChange) (d : Dict PoolKey (List Arrival))
      → collect_changes cs (c ∷ rest) d ≡ collect_changes cs rest (collected c (change_pool cs c) d)
  unfolding collect_changes
  collect_changes-step c rest d = elim (Option-cases (change_pool cs c)) [
    | inl n ↦ rw (collect_changes, n) refl
    | inr (p, e) ↦ rw (collect_changes, e) refl
  ]

  collect_changes-got :
      (changes : List CapacityChange) (d : Dict PoolKey (List Arrival))
      → got (collect_changes cs changes d) ≡ configured cs region pool at changes + got d
  unfolding collect_changes
  collect_changes-got [] d = omega arith
  collect_changes-got (c ∷ rest) d =
      let ih = collect_changes-got rest (collected c (change_pool cs c) d) in
      let one = collected-got c (change_pool cs c) d in
      let same = brought-is_for c in
      ap got (collect_changes-step c rest d) ∙ ih ∙ omega (arith, one, same)

  get-sort_entries : (d : Dict PoolKey (List Arrival)) → got (sort_entries d) ≡ got d
  unfolding Dict.get sort_entries
  get-sort_entries [] = refl
  get-sort_entries ((j, v) ∷ d) = elim (Bool-cases (same_pool j (region, pool))) [
    | inl e ↦ rw e (arrived-sort at v)
    | inr e ↦ rw e (get-sort_entries d)
  ]

-- The schedule of a configuration lists every pool's arrivals in date order, and what arrives at a pool
-- by a date is what the changes bring that are for the pool and not after the date: those that name it,
-- and, where it is the region's entry for their model, those that name no pool.
pub schedule_from_config-Arrives :
    (cs : List CapacityConfig) (changes : List CapacityChange) (region pool : String) (at : ℕ)
    → let xs = arrivals (schedule_from_config cs changes) region pool in
      IsSorted xs × (arrived at xs ≡ configured cs region pool at changes)
unfolding schedule_from_config arrivals Dict.get
schedule_from_config-Arrives cs changes region pool at = (
  get-sort_entries-IsSorted (region, pool) (collect_changes cs changes []),
  get-sort_entries cs region pool at (collect_changes cs changes [])
      ∙ collect_changes-got cs region pool at changes []
      ∙ omega arith,
)
