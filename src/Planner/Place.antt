-- ===== src/Planner/Place.antt =====
-- What `place` promises: the best fit among the pools that may take the claim, and an error only
-- when none can.
use provisioned_throughput.Base.{
  ℕ, ◌-◌, ◌≤◌, ◌<◌, ◌≡◌, refl, true, Option, some, List, [], ◌∷◌, String, ◌⊎◌, inl, inr, In, Split,
  filter, filter_split, Bool-cases, string_eq, In-filter_back, In-filter_into, Split-In,
}
use provisioned_throughput.Base.Result.{Result, ok, err}
use provisioned_throughput.Core.{Tier, Shape}
use provisioned_throughput.Capacity.{Costs, cost_per_cu, Schedule}
use provisioned_throughput.Planner.{
  PlanError, PoolView, Claim, free_at, need_of, is_candidate, can_serve, costed_pools, choose,
  is_empty, place,
}
use provisioned_throughput.Planner.Eligible.{
  IsEligible, IsEligible-of_tests, is_candidate_of, can_serve_of,
}
use provisioned_throughput.Planner.Costed.{costed_split, In-Costed_back}
use provisioned_throughput.Planner.BestFit.{Wins, best_fit-Outcome}

nothing-In : {A : Type 0} (xs : List A) (x : A) → is_empty xs ≡ true → ¬ In x xs
nothing-In [] x e i = i
nothing-In (y ∷ ys) x e i = cc

module _ (claim : Claim) (model : String) (tier : Tier) (shape : Shape) (at : ℕ)
    (pools : List PoolView) (costs : Costs) (schedule : Schedule) where
  -- A pool may take the claim, costs `c` for each CU, and has room for it at the date.
  pub record Takes (p : PoolView) (c : ℕ) : Type 0 where
    pub eligible : IsEligible claim model shape p
    pub costed : cost_per_cu costs p.region p.pool tier ≡ some c
    pub fits : need_of claim.cus c ≤ free_at schedule at p

  abbrev left_free : PoolView → ℕ → ℕ
  left_free p c = free_at schedule at p - need_of claim.cus c

  -- The placement is on the pool with the least left free among those that take the claim, the
  -- first of them in configuration order.
  pub record IsBestPlacement (pool : String) (need : ℕ) : Type 0 where
    pub chosen : PoolView
    pub cost : ℕ
    pub takes : Takes chosen cost
    pub pool_is : pool ≡ chosen.pool
    pub need_is : need ≡ need_of claim.cus cost
    pub split : Split chosen pools
    pub first_best :
        (q : PoolView) (c : ℕ)
        → In q split.before
        → Takes q c
        → left_free chosen cost < left_free q c
    pub best :
        (q : PoolView) (c : ℕ)
        → In q split.after
        → Takes q c
        → left_free chosen cost ≤ left_free q c

  abbrev placing : Result PlanError (Option (String × ℕ))
  placing = place claim model tier shape (some at) pools costs schedule

  abbrev candidates : List PoolView
  candidates = filter (is_candidate claim model) pools

  abbrev serving : List PoolView
  serving = filter (can_serve shape) candidates

  abbrev costed_all : List (PoolView × ℕ)
  costed_all = costed_pools costs tier serving

  Takes-costed :
      (q : PoolView) (c : ℕ) (qs : List PoolView)
      → Takes q c
      → In q qs
      → In
          (q, c)
          (costed_pools costs tier
            (filter (can_serve shape) (filter (is_candidate claim model) qs)))
  Takes-costed q c qs t i = In-Costed_back costs tier q c _ t.costed (
      In-filter_back (can_serve shape) q _ (can_serve_of claim model shape q t.eligible) (
        In-filter_back (is_candidate claim model) q qs
          (is_candidate_of claim model shape q t.eligible) i))

  -- The winner of the loop is the best placement.
  Wins-best :
      (p : PoolView) (c : ℕ)
      → Wins schedule at claim.cus (p, c) costed_all
      → IsBestPlacement p.pool (need_of claim.cus c)
  Wins-best p c w =
      let s = costed_split costs tier p c serving w.split.before w.split.after w.split.joined in
      let f =
        filter_split (can_serve shape) p candidates s.split.before s.split.after s.split.joined in
      let g =
        filter_split (is_candidate claim model) p pools f.split.before f.split.after
          f.split.joined in
      record {
        chosen = p;
        cost = c;
        takes = record {
          eligible =
              IsEligible-of_tests claim model shape p
                (In-filter_into (is_candidate claim model) p pools
                  (In-filter_into (can_serve shape) p candidates (Split-In p serving s.split)).0).1
                (In-filter_into (can_serve shape) p candidates (Split-In p serving s.split)).1;
          costed = s.cost;
          fits = w.fits;
        };
        pool_is = refl;
        need_is = refl;
        split = g.split;
        first_best = λ q d i t.
            w.beats (q, d)
              (rw (← s.before_costed, ← f.before_kept, ← g.before_kept)
                (Takes-costed q d g.split.before t i))
              t.fits;
        best = λ q d i t.
            w.holds (q, d)
              (rw (← s.after_costed, ← f.after_kept, ← g.after_kept)
                (Takes-costed q d g.split.after t i))
              t.fits;
      }

  abbrev NoneTakes : Type 0
  NoneTakes = (q : PoolView) (c : ℕ) → In q pools → ¬ Takes q c

  abbrev pub Decided : Result PlanError (Option (String × ℕ)) → Type 0
  Decided r =
      ((pool : String) × (need : ℕ) × (r ≡ ok (some (pool, need))) × IsBestPlacement pool need)
      ⊎ ((e : PlanError) × (r ≡ err e) × NoneTakes)

  no_candidate : is_empty candidates ≡ true → NoneTakes
  no_candidate e q c i t = nothing-In candidates q e (
      In-filter_back (is_candidate claim model) q pools
        (is_candidate_of claim model shape q t.eligible) i)

  none_serving : is_empty serving ≡ true → NoneTakes
  none_serving e q c i t = nothing-In serving q e (
      In-filter_back (can_serve shape) q candidates (can_serve_of claim model shape q t.eligible) (
        In-filter_back (is_candidate claim model) q pools
          (is_candidate_of claim model shape q t.eligible) i))

  none_costed : is_empty costed_all ≡ true → NoneTakes
  none_costed e q c i t = nothing-In costed_all (q, c) e (Takes-costed q c pools t i)

  choose-Decided : Decided (choose claim model tier at costed_all costs schedule)
  unfolding choose
  choose-Decided = elim (best_fit-Outcome schedule at claim.cus costed_all) [
    | inl (h, e) ↦
        rw (e, choose) (inr (_, refl, λ q c i t. h (q, c) (Takes-costed q c pools t i) t.fits))
    | inr ((p, c), w, e) ↦ rw (e, choose) (inl (p.pool, need_of claim.cus c, refl, Wins-best p c w))
  ]

  -- With a start date, `place` either returns the best placement or an error, and an error only
  -- when no pool takes the claim. It never answers without a pool.
  pub place-Decided : Decided placing
  unfolding place
  place-Decided = elim (Bool-cases (is_empty candidates)) [
    | inl e ↦ rw e (inr (_, refl, no_candidate e))
    | inr e ↦ rw e (elim (Bool-cases (is_empty serving)) [
      | inl f ↦ rw f (inr (_, refl, none_serving f))
      | inr f ↦ rw f (elim (Bool-cases (is_empty costed_all)) [
        | inl g ↦ rw g (inr (_, refl, none_costed g))
        | inr g ↦ rw g choose-Decided
      ])
    ])
  ]
