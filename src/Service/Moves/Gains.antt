-- ===== src/Service/Moves/Gains.antt =====
-- What a relocation reserves and releases, region by region.

use provisioned_throughput.Base.{
  ℕ, ◌+◌, ◌≡◌, refl, ◌∙◌, ap, subst, Option, some, List, [], ◌∷◌, ◌++◌, String, ◌⊎◌, inl, inr,
  arith, Bool-cases, Option-cases, ◌==◌, string_eq, if◌then◌else◌, find,
}
use provisioned_throughput.Base.Result.{Result, err-ne-ok}
use provisioned_throughput.Core.{Tier, Shape}
use provisioned_throughput.Capacity.{PoolShare, pool_id}
use provisioned_throughput.Planner.{PlanError}
use provisioned_throughput.Model.{RegionShare, ProvisionedThroughput, effective}
use provisioned_throughput.Errors.{ServiceError}
use provisioned_throughput.Service.{Settings, held, pool_of, on_pools, record_placed, plan_reserve}
use provisioned_throughput.Service.Lifecycle.{reserved, released}
use provisioned_throughput.Service.Moves.{
  Draft, then_edit, on_service, placed_or_fail, in_region, give_back, leave_old, relocate,
}
use provisioned_throughput.Service.Moves.Taken.{
  SameEdit, amount, taken, given, taken_append, given_append, Answered, Succeeds, succeeds,
  then_edit-Succeeds, plan_reserve-Answered,
}
use provisioned_throughput.Service.Moves.Sums.{sum_of, IsOffered, AreOffered, in_region-sum}

module _ (c : Settings) (now : ℕ) (r : String) where
  pool_of-some :
      (pt : ProvisionedThroughput) (region : String)
      → IsOffered c pt.model region
      → (pool : String) × (pool_of c pt region ≡ some pool)
  unfolding pool_of
  pool_of-some pt region (p, e) =
      elim (Option-cases (find (λ p. p.region == region) pt.placements)) [
        | inl n ↦ (pool_id p, rw (pool_of, n, e) refl)
        | inr (q, found) ↦ (q.pool, rw (pool_of, found) refl)
      ]

  pub on_pools-amount :
      (pt : ProvisionedThroughput) (shares : List RegionShare)
      → AreOffered c pt.model shares
      → amount r (on_pools c pt shares) ≡ sum_of r shares
  unfolding on_pools
  on_pools-amount pt [] h = refl
  on_pools-amount pt (s ∷ rest) h =
      let (pool, e) = pool_of-some pt s.region h.0 in
      rw (on_pools, e) (ap ((if s.region == r then s.cus else 0) +◌) (on_pools-amount pt rest h.1))

  -- From one draft to another the calls gain `n` more CUs in the region than they lose, and the
  -- reservation's shares stay.
  pub record Gains (n m : ℕ) (d d' : Draft) : Type 0 where
    pub net : taken r d'.ops + given r d.ops + m ≡ taken r d.ops + given r d'.ops + n
    pub same_held : held d'.pt ≡ held d.pt
    pub same_model : d'.pt.model ≡ d.pt.model

  pub give_back-Gains :
      (shares : List PoolShare) (n : ℕ) (d : Draft)
      → amount r shares ≡ n
      → Succeeds (λ u d'. Gains 0 n d d') (give_back shares d)
  unfolding give_back
  give_back-Gains [] n d e =
      succeeds _ _ _ (record { net = omega (arith, e); same_held = refl; same_model = refl })
  give_back-Gains (s ∷ rest) n d e =
      let op = released d.pt.tier (s ∷ rest) in
      let t = taken_append r d.ops (op ∷ []) in
      let g = given_append r d.ops (op ∷ []) in
      succeeds _ _ _ (record { net = omega (arith, e, t, g); same_held = refl; same_model = refl })

  Gains-as : (n m n' m' : ℕ) (d d' : Draft) → n + m' ≡ n' + m → Gains n m d d' → Gains n' m' d d'
  Gains-as n m n' m' d d' e h = record {
    net = let q = h.net in omega (arith, e, q);
    same_held = h.same_held;
    same_model = h.same_model;
  }

  Gains-then :
      (n m n' m' : ℕ) (d d' d'' : Draft)
      → Gains n m d d'
      → Gains n' m' d' d''
      → Gains (n + n') (m + m') d d''
  Gains-then n m n' m' d d' d'' h k = record {
    net = let p = h.net in let q = k.net in omega (arith, p, q);
    same_held = k.same_held ∙ h.same_held;
    same_model = k.same_model ∙ h.same_model;
  }

  pub Succeeds-then :
      (n m n' m' : ℕ) (d d' : Draft) (q : Result ServiceError (Unit {0}) × Draft)
      → Gains n m d d'
      → Succeeds (λ u d''. Gains n' m' d' d'') q
      → Succeeds (λ u d''. Gains (n + n') (m + m') d d'') q
  Succeeds-then n m n' m' d d' q h k = record {
    holds = λ a e. Gains-then n m n' m' d d' q.1 h (k.holds a e);
  }

  -- The end of a relocation.
  leave_old-Gains :
      (tier : Tier) (old : List PoolShare) (region : String) (placed : List PoolShare) (n m : ℕ)
      (d : Draft)
      → amount r placed ≡ n
      → amount r old ≡ m
      → Succeeds (λ u d'. Gains n m d d') (leave_old c now tier old region placed d)
  unfolding leave_old give_back held effective record_placed
  leave_old-Gains tier [] region placed n m d e e' =
      let t = taken_append r d.ops (reserved tier placed ∷ []) in
      let g = given_append r d.ops (reserved tier placed ∷ []) in
      succeeds _ _ _
        (record { net = omega (arith, e, e', t, g); same_held = refl; same_model = refl })
  leave_old-Gains tier (s ∷ rest) region placed n m d e e' =
      let ops = d.ops ++ reserved tier placed ∷ [] in
      let t = taken_append r d.ops (reserved tier placed ∷ []) in
      let g = given_append r d.ops (reserved tier placed ∷ []) in
      let t' = taken_append r ops (released d.pt.tier (s ∷ rest) ∷ []) in
      let g' = given_append r ops (released d.pt.tier (s ∷ rest) ∷ []) in
      succeeds _ _ _
        (record { net = omega (arith, e, e', t, g, t', g'); same_held = refl; same_model = refl })

  abbrev pub here : String → ℕ → ℕ
  here region n = if region == r then n else 0

  pub Succeeds-from :
      (n m n' m' : ℕ) (d d₁ : Draft) (q : Result ServiceError (Unit {0}) × Draft)
      → (d₁.pt ≡ d.pt) × (d₁.ops ≡ d.ops)
      → n + m' ≡ n' + m
      → Succeeds (λ u d'. Gains n m d₁ d') q
      → Succeeds (λ u d'. Gains n' m' d d') q
  Succeeds-from n m n' m' d d₁ q same e h = record {
    holds = λ a k.
        let g = h.holds a k in
        Gains-as n m n' m' d q.1 e (record {
          net =
              subst (λ ops. taken r q.1.ops + given r ops + m ≡ taken r ops + given r q.1.ops + n)
                same.1 g.net;
          same_held = g.same_held ∙ ap held same.0;
          same_model = g.same_model ∙ ap (λ pt. pt.model) same.0;
        });
  }

  in_region-AreOffered :
      (model region : String) (xs : List RegionShare)
      → AreOffered c model xs
      → AreOffered c model (in_region region xs)
  unfolding in_region
  in_region-AreOffered model region [] h = tt
  in_region-AreOffered model region (s ∷ rest) h = elim (Bool-cases (s.region == region)) [
    | inl t ↦ rw (in_region, t) (h.0, in_region-AreOffered model region rest h.1)
    | inr f ↦ rw (in_region, f) (in_region-AreOffered model region rest h.1)
  ]

  pub relocate-Gains :
      (region : String) (total : ℕ) (to : Option String) (shape : Shape) (at : ℕ) (d : Draft)
      → AreOffered c d.pt.model (held d.pt)
      → Succeeds
          (λ u d'. Gains (here region total) (here region (sum_of r (held d.pt))) d d')
          (relocate c now region total to shape at d)
  unfolding relocate
  relocate-Gains region total to shape at d off =
      then_edit-Succeeds (λ answer d₁. Answered r (here region total + 0) answer × SameEdit d d₁) _
        (on_service (plan_reserve d.pt.model d.pt.tier _ shape at) d) _
        (plan_reserve-Answered r d.pt.model d.pt.tier _ shape at d) on_answer
    where
      old : List PoolShare
      old = on_pools c d.pt (in_region region (held d.pt))

      on_answer :
          (answer : PlanError ⊎ List PoolShare) (d₁ : Draft)
          → Answered r (here region total + 0) answer × SameEdit d d₁
          → Succeeds
              (λ u d'. Gains (here region total) (here region (sum_of r (held d.pt))) d d')
              (then_edit
                (placed_or_fail answer d₁)
                (λ placed. leave_old c now d.pt.tier old region placed))
      on_answer (inl e) d₁ h = record { holds = λ a q. absurd (err-ne-ok q) }
      on_answer (inr placed) d₁ h =
          Succeeds-from (here region total) (here region (sum_of r (held d.pt))) _ _ d d₁ _ h.1 refl
            (leave_old-Gains d.pt.tier old region placed _ _ d₁ (omega (arith, h.0)) (
              on_pools-amount d.pt (in_region region (held d.pt))
                (in_region-AreOffered d.pt.model region (held d.pt) off)
              ∙ in_region-sum r region (held d.pt)))
