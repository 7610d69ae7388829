-- ===== src/Planner/Available.antt =====
-- What a refusal for want of capacity reports: the CUs that one pool could still take.

use native.Mathlib.Nat.{mul-div-le, le-div_iff_mul-le, mul_comm}
use native.Mathlib.Decide.{dec_lt}
use provisioned_throughput.Base.{
  ℕ, ◌*◌, ◌/◌, ◌≤◌, ◌<◌, ◌≡◌, refl, sym, ◌∙◌, false, Option, some, List, [], ◌∷◌, String, ◌⊎◌, inl,
  inr, arith, In, Option-cases, subst, max, min, max?, max?-ge, unwrap_or, map, w64-le, u32_max,
  filter, In-filter_into, In-filter_back, Split-In, w64_small, u64_mod,
}
use provisioned_throughput.Base.Result.{Result, ok, err}
use provisioned_throughput.Base.Counts.{In-map}
use provisioned_throughput.Core.{Tier, Shape}
use provisioned_throughput.Capacity.{Costs, cost_per_cu, cus_in, Schedule}
use provisioned_throughput.Planner.{
  PlanError, capacity_unavailable, PoolView, Claim, free_at, need_of, is_candidate, can_serve,
  costed_pools, choose, is_empty, place, available_in,
}
use provisioned_throughput.Planner.Eligible.{
  IsEligible, IsEligible-of_tests, is_candidate_of, can_serve_of,
}
use provisioned_throughput.Planner.Costed.{Costed, In-Costed_into, In-Costed_back}
use provisioned_throughput.Planner.Place.{Takes, place-Decided}

-- The largest of a list that is not empty is one of its elements.
max?-cons : (x : ℕ) (xs : List ℕ) → (m : ℕ) × (max? (x ∷ xs) ≡ some m)
max?-cons x xs = elim (Option-cases (max? xs)) [ inl e ↦ (x, rw e) | inr (m, e) ↦ (max x m, rw e) ]

max-In : (x m : ℕ) (xs : List ℕ) → In m xs → In (max x m) (x ∷ xs)
max-In x m xs i =
    let either : (max x m ≡ x) ⊎ (max x m ≡ m) = grind arith in
    elim either [ inl e ↦ inl e | inr e ↦ inr (subst (λ k. In k xs) (sym e) i) ]

max?-In : (y m : ℕ) (ys : List ℕ) → max? (y ∷ ys) ≡ some m → In m (y ∷ ys)
max?-In y m [] e = inl (cc)
max?-In y m (z ∷ zs) e =
    let (k, f) = max?-cons z zs in
    let eq : max y k ≡ m = ground arith in
    subst (λ n. In n (y ∷ z ∷ zs)) eq (max-In y k (z ∷ zs) (max?-In z k zs f))

max?-attained : (x : ℕ) (xs : List ℕ) → In (unwrap_or (max? (x ∷ xs)) 0) (x ∷ xs)
max?-attained x xs =
    let (m, e) = max?-cons x xs in
    subst (λ o. In (unwrap_or o 0) (x ∷ xs)) (sym e) (max?-In x m xs e)

module _ (claim : Claim) (model : String) (tier : Tier) (shape : Shape) (at : ℕ)
    (pools : List PoolView) (costs : Costs) (schedule : Schedule) where
  abbrev costed_all : List (PoolView × ℕ)
  costed_all =
      costed_pools costs tier (filter (can_serve shape) (filter (is_candidate claim model) pools))

  reaches :
      (region' model' : String) (tier' : Tier) (requested free : ℕ) (from : Option ℕ)
      → place claim model tier shape (some at) pools costs schedule
        ≡ err (capacity_unavailable region' model' tier' requested free from)
      → (is_empty costed_all ≡ false)
        × (free ≡ available_in costs tier schedule at costed_all)
        × (requested ≡ claim.cus)
  unfolding place choose
  reaches region' model' tier' requested free from e = ground arith

  -- What the error counts for one costed pool.
  abbrev room_in : PoolView × ℕ → ℕ
  room_in (p, c) = unwrap_or (cus_in costs p.region p.pool tier (free_at schedule at p)) 0

  room_in-eq :
      (p : PoolView) (c : ℕ)
      → Costed costs tier (p, c)
      → room_in (p, c) ≡ min (free_at schedule at p / c) u32_max
  unfolding cus_in cost_per_cu
  room_in-eq p c e = rw e

  -- Some costed pool has that many.
  In-room :
      (ps : List (PoolView × ℕ)) (n : ℕ)
      → In n (map room_in ps)
      → (x : PoolView × ℕ) × In x ps × (n ≡ room_in x)
  In-room [] n i = absurd i
  In-room (x ∷ ps) n (inl e) = (x, inl refl, e)
  In-room (x ∷ ps) n (inr i) = let (y, j, e) = In-room ps n i in (y, inr j, e)

  room_attained :
      (ps : List (PoolView × ℕ))
      → is_empty ps ≡ false
      → (x : PoolView × ℕ) × In x ps × (available_in costs tier schedule at ps ≡ room_in x)
  unfolding available_in
  room_attained [] e = cc
  room_attained (x ∷ ps) e = In-room (x ∷ ps) _ (max?-attained (room_in x) (map room_in ps))

  fits_room :
      (p : PoolView) (c n : ℕ)
      → Costed costs tier (p, c)
      → n ≤ room_in (p, c)
      → need_of n c ≤ free_at schedule at p
  unfolding need_of
  fits_room p c n e h =
      let eq = room_in-eq p c e in
      let le : n ≤ free_at schedule at p / c = omega arith in
      let w = w64-le (c * n) in
      let step : c * n ≤ c * (free_at schedule at p / c) = grind arith in
      omega (arith, mul-div-le (free_at schedule at p) c)

  -- Each of the costed pools may take the claim, whatever its size.
  Costed-IsEligible :
      (p : PoolView) (c : ℕ)
      → In (p, c) costed_all
      → In p pools × IsEligible claim model shape p × Costed costs tier (p, c)
  Costed-IsEligible p c i =
      let (j, cost) = In-Costed_into costs tier p c _ i in
      let (k, serves) = In-filter_into (can_serve shape) p _ j in
      let (here, candidate) = In-filter_into (is_candidate claim model) p pools k in
      (here, IsEligible-of_tests claim model shape p candidate serves, cost)

  -- The pool that can take what the error reports.
  abbrev Roomy : ℕ → Type 0
  Roomy free =
      (p : PoolView) × (c : ℕ) × In p pools
      × IsEligible claim model shape p
      × Costed costs tier (p, c)
      × (free ≤ room_in (p, c))

  roomy :
      (free : ℕ)
      → is_empty costed_all ≡ false
      → free ≡ available_in costs tier schedule at costed_all
      → Roomy free
  roomy free e f =
      let ((p, c), i, r) = room_attained costed_all e in
      let (here, able, cost) = Costed-IsEligible p c i in (p, c, here, able, cost, omega arith)

-- What is under a product is under the quotient.
le-div : (n c free : ℕ) → 1 ≤ c → c * n ≤ free → n ≤ free / c
le-div n c free pos h = (le-div_iff_mul-le pos).1 (omega (arith, h, mul_comm c n))

module _ (claim : Claim) (model : String) (tier : Tier) (shape : Shape) (at : ℕ)
    (pools : List PoolView) (costs : Costs) (schedule : Schedule) where
  abbrev resized : ℕ → Claim
  resized n = record claim { cus = n }

  resize-IsEligible :
      (n : ℕ) (p : PoolView) → IsEligible claim model shape p → IsEligible (resized n) model shape p
  resize-IsEligible n p h = record {
    in_region = h.in_region;
    of_model = h.of_model;
    named = h.named;
    serves = h.serves;
  }

  resize-IsEligible_back :
      (n : ℕ) (p : PoolView) → IsEligible (resized n) model shape p → IsEligible claim model shape p
  resize-IsEligible_back n p h = record {
    in_region = h.in_region;
    of_model = h.of_model;
    named = h.named;
    serves = h.serves;
  }

  abbrev placing : Claim → Result PlanError (Option (String × ℕ))
  placing c = place c model tier shape (some at) pools costs schedule

  Roomy-ok :
      (free n : ℕ)
      → n ≤ free
      → Roomy claim model tier shape at pools costs schedule free
      → (pool : String) × (need : ℕ) × (placing (resized n) ≡ ok (some (pool, need)))
  Roomy-ok free n le (p, c, here, able, cost, room) =
      let fits =
        fits_room claim model tier shape at pools costs schedule p c n cost (omega arith) in
      elim (place-Decided (resized n) model tier shape at pools costs schedule) [
        | inl (pool, need, e, _) ↦ (pool, need, e)
        | inr (_, _, none_takes) ↦ absurd (
            none_takes p c here
              (record { eligible = resize-IsEligible n p able; costed = cost; fits = fits }))
      ]

  -- What a pool that takes a claim has room for.
  Takes-room :
      (n c : ℕ) (p : PoolView)
      → 1 ≤ c
      → n ≤ u32_max
      → c * n < u64_mod
      → Takes (resized n) model tier shape at pools costs schedule p c
      → n ≤ room_in claim model tier shape at pools costs schedule (p, c)
  unfolding need_of
  Takes-room n c p pos small fits t =
      let room = room_in-eq claim model tier shape at pools costs schedule p c t.costed in
      let need : c * n ≤ free_at schedule at p =
        subst (λ k. k ≤ free_at schedule at p) (w64_small (c * n) fits) t.fits in
      let quotient = le-div n c (free_at schedule at p) pos need in
      omega (arith, room, quotient, small)

  -- It is one of the costed pools, whose rooms the error's figure is the largest of.
  Takes-room_le :
      (n c : ℕ) (p : PoolView)
      → In p pools
      → Takes (resized n) model tier shape at pools costs schedule p c
      → room_in claim model tier shape at pools costs schedule (p, c)
        ≤ available_in costs tier schedule at
            (costed_all claim model tier shape at pools costs schedule)
  unfolding available_in
  Takes-room_le n c p i t =
      max?-ge _ (map (room_in claim model tier shape at pools costs schedule) _) (
        In-map (room_in claim model tier shape at pools costs schedule) (p, c) _
          (In-Costed_back costs tier p c _ t.costed (
            In-filter_back (can_serve shape) p _ (can_serve_of (resized n) model shape p t.eligible)
              (In-filter_back (is_candidate claim model) p pools
                (is_candidate_of claim model shape p (resize-IsEligible_back n p t.eligible)) i))))

  -- A cost of a CU is positive, and the most CUs of a claim at that cost fit a machine word.
  abbrev pub IsPriced : Type 0
  IsPriced =
      (p : PoolView) (c : ℕ)
      → In p pools
      → cost_per_cu costs p.region p.pool tier ≡ some c
      → (1 ≤ c) × (c * u32_max < u64_mod)

  placed_le :
      (n need : ℕ) (pool : String)
      → IsPriced
      → n ≤ u32_max
      → placing (resized n) ≡ ok (some (pool, need))
      → n
        ≤ available_in costs tier schedule at
            (costed_all claim model tier shape at pools costs schedule)
  placed_le n need pool priced small e =
      elim (place-Decided (resized n) model tier shape at pools costs schedule) [
        | inr (x, refused, _) ↦
            let clash : ◌≡◌ {A = Result PlanError (Option (String × ℕ))} _ _ = sym e ∙ refused in cc
        | inl (q, m, _, best) ↦
            let i = Split-In best.chosen pools best.split in
            let (pos, fits) = priced best.chosen best.cost i best.takes.costed in
            let product : best.cost * n ≤ best.cost * u32_max = grind arith in
            let room = Takes-room n best.cost best.chosen pos small (omega arith) best.takes in
            let most = Takes-room_le n best.cost best.chosen i best.takes in
            omega (arith, room, most)
      ]

  -- When a claim is refused for want of capacity, the reported number of CUs is less than was
  -- asked for, and a claim for that number, otherwise the same, is placed. And it is the largest such
  -- number: no claim for more CUs is placed, when every cost of a CU is positive and costs fit a machine
  -- word.
  pub available_exact :
      (region' model' : String) (tier' : Tier) (requested free : ℕ) (from : Option ℕ)
      → IsPriced
      → placing claim ≡ err (capacity_unavailable region' model' tier' requested free from)
      → (free < claim.cus)
        × ((pool : String) × (need : ℕ) × (placing (resized free) ≡ ok (some (pool, need))))
        × ((n need : ℕ) (pool : String)
            → n ≤ u32_max
            → placing (resized n) ≡ ok (some (pool, need))
            → n ≤ free)
  available_exact region' model' tier' requested free from priced e =
      let (some_costed, is_free, _) =
        reaches claim model tier shape at pools costs schedule region' model' tier' requested free
          from e in
      let room = roomy claim model tier shape at pools costs schedule free some_costed is_free in
      (
        short room,
        Roomy-ok free free (omega arith) room,
        λ n need pool small placed.
            subst (λ m. n ≤ m) (sym is_free) (placed_le n need pool priced small placed),
      )
    where
      short : Roomy claim model tier shape at pools costs schedule free → free < claim.cus
      short room = elim (dec_lt free claim.cus) [
        | yes h ↦ h
        | no h ↦
            let (_, _, placed) = Roomy-ok free claim.cus (omega arith) room in
            let clash : ◌≡◌ {A = Result PlanError (Option (String × ℕ))} _ _ = sym placed ∙ e in cc
      ]
