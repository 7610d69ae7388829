-- ===== src/Service/Moves/Taken.antt =====
-- How many CUs the planner's calls of a step reserve and release in a region.
use provisioned_throughput.Base.{
  ℕ, ◌+◌, ◌≡◌, refl, subst, List, [], ◌∷◌, ◌++◌, String, ◌⊎◌, inl, inr, arith, ◌==◌, string_eq,
  if◌then◌else◌,
}
use provisioned_throughput.Base.Result.{
  Result, ok, err, panicked, ◌>>=◌ as ◌then_if◌, ok-eq, err-ne-ok, panicked-ne-ok,
}
use provisioned_throughput.Core.{Tier, Shape}
use provisioned_throughput.Capacity.{Costs, PoolShare, Schedule}
use provisioned_throughput.Planner.{Claim, PlanError, PoolView}
use provisioned_throughput.Planner.Place.{place-Decided}
use provisioned_throughput.Planner.Memory.{reserve_all, reserve, commit}
use provisioned_throughput.Errors.{ServiceError}
use provisioned_throughput.Service.{answered, plan_reserve}
use provisioned_throughput.Service.Lifecycle.{PlanOp, reserved, released}
use provisioned_throughput.Service.Moves.{Draft, E, then_edit, on_service}

abbrev pub amount : String → List PoolShare → ℕ
amount r [] = 0
amount r (s ∷ rest) = (if s.region == r then s.cus else 0) + amount r rest

abbrev claimed : String → List Claim → ℕ
claimed r [] = 0
claimed r (c ∷ rest) = (if c.region == r then c.cus else 0) + claimed r rest

-- What the calls reserve in the region, and what they release there.
abbrev pub taken : String → List PlanOp → ℕ
taken r [] = 0
taken r (reserved tier shares ∷ rest) = amount r shares + taken r rest
taken r (released tier shares ∷ rest) = taken r rest

abbrev pub given : String → List PlanOp → ℕ
given r [] = 0
given r (reserved tier shares ∷ rest) = given r rest
given r (released tier shares ∷ rest) = amount r shares + given r rest

pub taken_append : (r : String) (xs ys : List PlanOp) → taken r (xs ++ ys) ≡ taken r xs + taken r ys
taken_append r [] ys = omega arith
taken_append r (reserved tier shares ∷ xs) ys = omega (arith, taken_append r xs ys)
taken_append r (released tier shares ∷ xs) ys = taken_append r xs ys

pub given_append : (r : String) (xs ys : List PlanOp) → given r (xs ++ ys) ≡ given r xs + given r ys
given_append r [] ys = omega arith
given_append r (reserved tier shares ∷ xs) ys = given_append r xs ys
given_append r (released tier shares ∷ xs) ys = omega (arith, given_append r xs ys)

module _ (model : String) (tier : Tier) (shape : Shape) (at : ℕ) (costs : Costs)
    (schedule : Schedule) (r : String) where
  -- What is placed is as much as was claimed.
  abbrev Places : ℕ → Result PlanError (List PoolView × List PoolShare) → Type 0
  Places n (ok (ps, placed)) = amount r placed ≡ n
  Places n (err e) = Unit
  Places n panicked = Unit

  place_step :
      (n : ℕ) (s : PoolShare) (q : Result PlanError (List PoolView × List PoolShare))
      → Places n q
      → Places
          ((if s.region == r then s.cus else 0) + n)
          (q then_if λ (ps, shares). ok (ps, s ∷ shares))
  place_step n s (ok (ps, shares)) h = omega (arith, h)
  place_step n s (err e) h = tt
  place_step n s panicked h = tt

  reserve_all-Places :
      (cs : List Claim) (ps : List PoolView)
      → Places (claimed r cs) (reserve_all model tier shape at costs schedule cs ps)
  unfolding reserve_all
  reserve_all-Places [] ps = refl
  reserve_all-Places (c ∷ cs) ps = elim (place-Decided c model tier shape at ps costs schedule) [
    | inl (pool, need, e, best) ↦ rw e (
        place_step (claimed r cs) (record { region = c.region; pool = pool; cus = c.cus }) _
          (reserve_all-Places cs _))
    | inr (e, refused, _) ↦ rw refused tt
  ]

-- What the planner answers to claims: shares of as many CUs in each region, or an error.
abbrev pub Answered : String → ℕ → PlanError ⊎ List PoolShare → Type 0
Answered r n (inl e) = Unit
Answered r n (inr placed) = amount r placed ≡ n

-- A step that succeeds does so with a value and a draft that satisfy `Q`.
pub record Succeeds {A : Type 0} (Q : A → Draft → Type 0) (r : Result ServiceError A × Draft)
    : Type 0 where
  pub holds : (a : A) → r.0 ≡ ok a → Q a r.1

pub succeeds :
    {A : Type 0} (Q : A → Draft → Type 0) (a : A) (d : Draft) → Q a d → Succeeds Q (ok a, d)
succeeds Q a d h = record { holds = λ b e. subst (λ x. Q x d) (ok-eq e) h }

pub then_edit-Succeeds :
    {A B : Type 0} (P : A → Draft → Type 0) (Q : B → Draft → Type 0)
    (r : Result ServiceError A × Draft) (f : A → E B)
    → Succeeds P r
    → ((a : A) (d : Draft) → P a d → Succeeds Q (f a d))
    → Succeeds Q (then_edit r f)
then_edit-Succeeds P Q (ok a, d) f h next = next a d (h.holds a refl)
then_edit-Succeeds P Q (err e, d) f h next = record { holds = λ a q. absurd (err-ne-ok q) }
then_edit-Succeeds P Q (panicked, d) f h next = record { holds = λ a q. absurd (panicked-ne-ok q) }

-- The same reservation, the same calls so far.
abbrev pub SameEdit : Draft → Draft → Type 0
SameEdit d d' = (d'.pt ≡ d.pt) × (d'.ops ≡ d.ops)

pub plan_reserve-Answered :
    (r model : String) (tier : Tier) (claims : List Claim) (shape : Shape) (at : ℕ) (d : Draft)
    → Succeeds
        (λ answer d'. Answered r (claimed r claims) answer × SameEdit d d')
        (on_service (plan_reserve model tier claims shape at) d)
unfolding plan_reserve reserve
plan_reserve-Answered r model tier claims shape at d =
    let m = d.service.planner in
    of_planner (reserve_all model tier shape at m.costs m.schedule claims m.pools)
      (reserve_all-Places model tier shape at m.costs m.schedule r claims m.pools)
  where
    of_planner :
        (q : Result PlanError (List PoolView × List PoolShare))
        → Places model tier shape at d.service.planner.costs d.service.planner.schedule r
            (claimed r claims)
            q
        → let (answer, planner) = commit d.service.planner q in
          Succeeds
            (λ answer d'. Answered r (claimed r claims) answer × SameEdit d d')
            (on_service (λ s. answered answer (record s { planner = planner })) d)
    of_planner (ok (ps, placed)) h = succeeds _ _ _ (h, (refl, refl))
    of_planner (err e) h = succeeds _ _ _ (tt, (refl, refl))
    of_planner panicked h = record { holds = λ a q. absurd (panicked-ne-ok q) }
