-- ===== src/Planner/Eligible.antt =====
-- Which pools may take a claim, by the filters of `place`.
use provisioned_throughput.Base.{
  ◌≤◌, ◌≡◌, refl, true, Option, none, some, String, ◌⊎◌, inl, inr, arith, ap, ◌==◌, ==_iff,
  string_eq,
}
use provisioned_throughput.Core.{Shape}
use provisioned_throughput.Planner.{PoolView, Claim, is_candidate, can_serve}

-- A pool may take the claim: it is in the claim's region, serves the model and the shape's longest
-- context, and is the pool that the claim names, if it names one.
pub record IsEligible (claim : Claim) (model : String) (shape : Shape) (p : PoolView) : Type 0 where
  pub in_region : p.region ≡ claim.region
  pub of_model : p.model ≡ model
  pub named : (claim.pool ≡ none) ⊎ (claim.pool ≡ some p.pool)
  pub serves : shape.context_ceiling ≤ p.max_context

module _ (claim : Claim) (model : String) (shape : Shape) where
  named_iff :
      (o : Option String) (p : PoolView)
      → elim o [ none ↦ true | some n ↦ n == p.pool ] ≡ true
      → (o ≡ none) ⊎ (o ≡ some p.pool)
  named_iff none p h = inl refl
  named_iff (some n) p h = inr (ap some ((==_iff n p.pool).0 h))

  named_back :
      (o : Option String) (p : PoolView)
      → (o ≡ none) ⊎ (o ≡ some p.pool)
      → elim o [ none ↦ true | some n ↦ n == p.pool ] ≡ true
  named_back none p h = refl
  named_back (some n) p (inl e) = cc
  named_back (some n) p (inr e) = (==_iff n p.pool).1 (ground arith)

  pub IsEligible-of_tests :
      (p : PoolView)
      → is_candidate claim model p ≡ true
      → can_serve shape p ≡ true
      → IsEligible claim model shape p
  unfolding is_candidate can_serve
  IsEligible-of_tests p h k =
      let n : elim claim.pool [ none ↦ true | some n ↦ n == p.pool ] ≡ true = ground arith in
      record {
        in_region = (==_iff p.region claim.region).0 (ground arith);
        of_model = (==_iff p.model model).0 (ground arith);
        named = named_iff claim.pool p n;
        serves = ground arith;
      }

  pub is_candidate_of :
      (p : PoolView) → IsEligible claim model shape p → is_candidate claim model p ≡ true
  unfolding is_candidate
  is_candidate_of p h =
      let r = (==_iff p.region claim.region).1 h.in_region in
      let m = (==_iff p.model model).1 h.of_model in
      let n = named_back claim.pool p h.named in rw (r, m, n)

  pub can_serve_of : (p : PoolView) → IsEligible claim model shape p → can_serve shape p ≡ true
  unfolding can_serve
  can_serve_of p h = let s = h.serves in ground arith
