-- ===== src/Service/Moves/Balance.antt =====
-- A move of capacity reserves what a reservation gains and releases what it loses, in every region,
-- also where a region's shares move whole to another pool.

use provisioned_throughput.Base.{
  ℕ, ◌+◌, ◌≡◌, refl, sym, ◌∙◌, ap, subst, ◌&&◌, none, List, [], ◌∷◌, ◌++◌, String, ◌⊎◌, inl, inr,
  arith, max, All, Bool-cases, ◌==◌, ==_iff, string_eq,
}
use provisioned_throughput.Base.Result.{ok, err-ne-ok}
use provisioned_throughput.Core.{Shape}
use provisioned_throughput.Capacity.{PoolShare}
use provisioned_throughput.Planner.{Claim, PlanError}
use provisioned_throughput.Model.{RegionShare, effective}
use provisioned_throughput.Failover.{cus_of, growth}
use provisioned_throughput.Failover.Growth.{AreDistinct, growth-balance}
use provisioned_throughput.Service.{Settings, held, on_pools, claims, record_placed, plan_reserve}
use provisioned_throughput.Service.Lifecycle.{PlanOp, reserved}
use provisioned_throughput.Service.Moves.{
  Draft, on_service, has_pool, is_unavailable, total_in, grown, grow_each, shrink_to, move_capacity,
}
use provisioned_throughput.Service.Moves.Called.{Calls, move_capacity-Calls}
use provisioned_throughput.Service.Moves.Taken.{
  SameEdit, taken, given, taken_append, given_append, Answered, Succeeds, succeeds,
  then_edit-Succeeds, plan_reserve-Answered,
}
use provisioned_throughput.Service.Moves.Sums.{
  sum_of, IsOffered, AreOffered, sum_of-cus_of, All-growth, growth-AreDistinct, growth-Fills, Fills,
}
use provisioned_throughput.Service.Moves.Gains.{
  on_pools-amount, Gains, give_back-Gains, Succeeds-then, here, Succeeds-from, relocate-Gains,
}

module _ (c : Settings) (now : ℕ) (r : String) where
  -- A region that grows, on its pool or moved whole to another.
  relocated-more :
      (before target : List RegionShare) (g : RegionShare)
      → AreDistinct before
      → Fills before target g
      → here c now r g.region (total_in g target) + 0
        ≡ here c now r g.region g.cus + here c now r g.region (sum_of r before)
  relocated-more before target g d h = elim (Bool-cases (g.region == r)) [
    | inr f ↦ rw f refl
    | inl t ↦
        let held_here : cus_of g.region before ≡ sum_of r before =
          ap (λ x. cus_of x before) ((==_iff g.region r).0 t) ∙ sym (sum_of-cus_of r before d) in
        rw t (omega (arith, h, held_here))
  ]

  grown-Gains :
      (before target : List RegionShare) (shape : Shape) (at : ℕ) (g : RegionShare)
      (claim : List Claim) (answer : PlanError ⊎ List PoolShare) (d : Draft)
      → held d.pt ≡ before
      → AreOffered c d.pt.model before
      → AreDistinct before
      → Fills before target g
      → Answered r (here c now r g.region g.cus + 0) answer
      → Succeeds
          (λ u d'. Gains c now r (here c now r g.region g.cus) 0 d d')
          (grown c now target shape at g claim answer d)
  unfolding grown held effective record_placed
  grown-Gains before target shape at g claim (inr placed) d e off dist fills h =
      let t = taken_append r d.ops (reserved d.pt.tier placed ∷ []) in
      let k = given_append r d.ops (reserved d.pt.tier placed ∷ []) in
      succeeds _ _ _ (record { net = omega (arith, h, t, k); same_held = refl; same_model = refl })
  grown-Gains before target shape at g claim (inl x) d e off dist fills h =
      elim (Bool-cases (is_unavailable x && has_pool claim)) [
        | inr f ↦ rw (grown, f) (record { holds = λ a q. absurd (err-ne-ok q) })
        | inl t ↦
            rw (grown, t)
              (Succeeds-from c now r (here c now r g.region (total_in g target))
                (here c now r g.region (sum_of r (held d.pt))) _ _ d d _ (refl, refl)
                (rw e (relocated-more before target g dist fills))
                (relocate-Gains c now r g.region (total_in g target) none shape at d
                  (subst (AreOffered c d.pt.model) (sym e) off)))
      ]

  grow_each-Gains :
      (before target : List RegionShare) (model : String) (shape : Shape) (at : ℕ)
      → AreOffered c model before
      → AreDistinct before
      → (gs : List RegionShare) → All (Fills before target) gs
      → (d : Draft) → held d.pt ≡ before
      → d.pt.model ≡ model
      → Succeeds (λ u d'. Gains c now r (sum_of r gs) 0 d d') (grow_each c now target shape at gs d)
  unfolding grow_each claims
  grow_each-Gains before target model shape at off dist [] fills d e e' =
      succeeds _ _ _ (record { net = omega arith; same_held = refl; same_model = refl })
  grow_each-Gains before target model shape at off dist (g ∷ rest) fills d e e' =
      then_edit-Succeeds
        (λ answer d₁. Answered r (here c now r g.region g.cus + 0) answer × SameEdit d d₁) _
        (on_service (plan_reserve d.pt.model d.pt.tier (claims c d.pt (g ∷ [])) shape at) d) _
        (plan_reserve-Answered r d.pt.model d.pt.tier (claims c d.pt (g ∷ [])) shape at d)
        (λ answer d₁ h.
          let e₁ : held d₁.pt ≡ before = ap held h.1.0 ∙ e in
          let m₁ : d₁.pt.model ≡ model = ap (λ pt. pt.model) h.1.0 ∙ e' in
          then_edit-Succeeds (λ u d₂. Gains c now r (here c now r g.region g.cus) 0 d d₂) _
            (grown c now target shape at g (claims c d.pt (g ∷ [])) answer d₁) _
            (Succeeds-from c now r (here c now r g.region g.cus) 0 _ 0 d d₁ _ h.1 refl (
              grown-Gains before target shape at g (claims c d.pt (g ∷ [])) answer d₁ e₁
                (subst (λ m. AreOffered c m before) (sym m₁) off) dist fills.0 h.0))
            (λ u d₂ k.
              Succeeds-then c now r (here c now r g.region g.cus) 0 (sum_of r rest) 0 d d₂ _ k (
                grow_each-Gains before target model shape at off dist rest fills.1 d₂
                  (k.same_held ∙ e) (k.same_model ∙ e'))))

-- The whole move.
move_capacity-Gains :
    (c : Settings) (now : ℕ) (r : String) (target : List RegionShare) (shape : Shape) (d : Draft)
    → AreDistinct (held d.pt)
    → AreDistinct target
    → AreOffered c d.pt.model (held d.pt)
    → Succeeds
        (λ u d'.
          Gains c now r
            (sum_of r (growth (held d.pt) target) + 0)
            (0 + sum_of r (growth target (held d.pt)))
            d
            d')
        (move_capacity c now target shape d)
unfolding move_capacity shrink_to
move_capacity-Gains c now r target shape d dist dist' off =
    let before = held d.pt in
    let at = max d.pt.term_start now in
    then_edit-Succeeds (λ u d₁. Gains c now r (sum_of r (growth before target)) 0 d d₁) _
      (grow_each c now target shape at (growth before target) d) _
      (grow_each-Gains c now r before target d.pt.model shape at off dist (growth before target)
        (growth-Fills before target target dist' (λ n i. i)) d refl refl)
      (λ u d₁ h.
        Succeeds-then c now r (sum_of r (growth before target)) 0 0
          (sum_of r (growth target before)) d d₁ _ h
          (give_back-Gains c now r (on_pools c d₁.pt (growth target before)) _ d₁ (
            on_pools-amount c now r d₁.pt (growth target before) (
              subst (λ m. AreOffered c m (growth target before)) (sym h.same_model)
                (All-growth (IsOffered c d.pt.model) target before off)))))

-- When `move_capacity` succeeds, what it adds to the log is the list of the calls that bring the
-- planner from its state before to its state after, and in every region what the reservation held, with
-- what these calls reserved there, is what was wanted there with what they released. The reservation
-- and the target name a region at most once, and for every region that the reservation holds the
-- configuration has a pool of the model.
pub move_capacity-balance :
    (c : Settings) (now : ℕ) (r : String) (target : List RegionShare) (shape : Shape) (d d' : Draft)
    → AreDistinct (held d.pt)
    → AreDistinct target
    → AreOffered c d.pt.model (held d.pt)
    → move_capacity c now target shape d ≡ (ok tt, d')
    → (ops : List PlanOp) × (d'.ops ≡ d.ops ++ ops)
      × Calls d.service.planner ops d'.service.planner
      × (cus_of r (held d.pt) + taken r ops ≡ cus_of r target + given r ops)
move_capacity-balance c now r target shape d d' dist dist' off e =
    let before = held d.pt in
    let moved = move_capacity-Gains c now r target shape d dist dist' off in
    let net = (moved.holds tt (ap (λ q. q.0) e)).net in
    let up = sum_of-cus_of r (growth before target) (growth-AreDistinct before target dist') in
    let down = sum_of-cus_of r (growth target before) (growth-AreDistinct target before dist) in
    let even = growth-balance r before target dist dist' in
    let (ops, logged, calls) = move_capacity-Calls c now target shape d in
    let t = ap (taken r) logged ∙ taken_append r d.ops ops in
    let g = ap (given r) logged ∙ given_append r d.ops ops in
    (
      ops,
      subst (λ (x : Draft). x.ops ≡ d.ops ++ ops) (ap (λ q. q.1) e) logged,
      subst (λ (x : Draft). Calls d.service.planner ops x.service.planner) (ap (λ q. q.1) e) calls,
      omega (arith, net, up, down, even, t, g),
    )
