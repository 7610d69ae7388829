-- ===== src/Planner/Memory/Redo.antt =====
-- `reserve` takes back what `release` gave, exactly (crates/pt-control-plane/src/planner.rs).
use provisioned_throughput.Base.{
  ℕ, ◌+◌, ◌-◌, ◌≤◌, ◌≡◌, refl, sym, ap, subst, ◌∙◌, some, List, [], ◌∷◌, String, inl, inr, arith,
  In, unwrap_or, w64, w64_small, Bool-cases, All-In, some-eq, none-ne-some, true-ne-false, false,
  &&-eq_true, ◌==◌, string_eq,
}
use provisioned_throughput.Base.Result.{ok, err-ne-ok}
use provisioned_throughput.Core.{Tier, Shape}
use provisioned_throughput.Capacity.{cost_per_cu, PoolShare, share_cost}
use provisioned_throughput.Planner.{PoolView, Claim, need_of, free_at, capacity_at, place}
use provisioned_throughput.Planner.Place.{place-Decided}
use provisioned_throughput.Planner.Memory.{
  MemoryPlanner, is_at, find_pool, set_reserved, reserve_all, release_all, reserve, release,
}
use provisioned_throughput.Planner.Memory.Pools.{find_pool-In, IsKeyed, set_reserved-IsKeyed}
use provisioned_throughput.Planner.Memory.Undo.{
  set_reserved_twice, set_reserved_same, AreWords, set_reserved-AreWords,
}

-- The pool that a write is for stands among the pools after it.
set_reserved-In :
    (region pool : String) (f : ℕ → ℕ) (p : PoolView) (ps : List PoolView)
    → find_pool region pool ps ≡ some p
    → In (record p { reserved = f p.reserved }) (set_reserved region pool f ps)
unfolding set_reserved find_pool
set_reserved-In region pool f p [] e = absurd (none-ne-some e)
set_reserved-In region pool f p (q ∷ ps) e = elim (Bool-cases (is_at region pool q)) [
  | inl t ↦ rw t (
      inl
        (ap {A = PoolView} (λ x. record x { reserved = f x.reserved }) (sym (some-eq (rw t at e)))))
  | inr g ↦ rw g (inr (set_reserved-In region pool f p ps (rw g at e)))
]

-- A pool that holds a share, and can take it again after a release.
pub record CanHold (model : String) (tier : Tier) (shape : Shape) (at cus : ℕ) (m : MemoryPlanner)
    (p : PoolView) : Type 0 where
  pub cost : ℕ
  pub stands : In p m.pools
  pub of_model : p.model ≡ model
  pub serves : shape.context_ceiling ≤ p.max_context
  pub costed : cost_per_cu m.costs p.region p.pool tier ≡ some cost
  -- its counter has the share, and is no more than the pool has
  pub counted : need_of cus cost ≤ p.reserved
  pub fits : p.reserved ≤ capacity_at m.schedule at p

module _ (m : MemoryPlanner) (model : String) (tier : Tier) (shape : Shape) (at cus : ℕ)
    (p : PoolView) where
  abbrev pub share_of : PoolShare
  share_of = record { region = p.region; pool = p.pool; cus = cus }

  abbrev pub claim_of : Claim
  claim_of = record { region = p.region; pool = some p.pool; cus = cus }

  abbrev left : ℕ → List PoolView
  left k = set_reserved p.region p.pool (λ n. n - k) m.pools

  place-again :
      IsKeyed m.pools
      → (h : CanHold model tier shape at cus m p)
      → place claim_of model tier shape (some at) (left (need_of cus h.cost)) m.costs m.schedule
        ≡ ok (some (p.pool, need_of cus h.cost))
  unfolding free_at capacity_at
  place-again k h =
      let need = need_of cus h.cost in
      let found = find_pool-In p m.pools k h.stands in
      let after : PoolView = record p { reserved = p.reserved - need } in
      let stays = set_reserved-In p.region p.pool (λ n. n - need) p m.pools found in
      let counted = h.counted in
      let fits = h.fits in
      elim (place-Decided claim_of model tier shape at (left need) m.costs m.schedule) [
        | inr (_, _, none_takes) ↦ absurd (
            none_takes after h.cost stays (record {
              eligible = record {
                in_region = refl;
                of_model = h.of_model;
                named = inr refl;
                serves = h.serves;
              };
              costed = h.costed;
              fits = omega (arith, counted, fits);
            }))
        | inl (pool, n, e, best) ↦
            let region = best.takes.eligible.in_region in
            let named : p.pool ≡ best.chosen.pool = elim best.takes.eligible.named [
              | inl x ↦ absurd (none-ne-some (sym x))
              | inr x ↦ some-eq x
            ] in
            let cost : best.cost ≡ h.cost =
              some-eq (sym best.takes.costed ∙ (rw (region, ← named) h.costed)) in
            rw (e, best.pool_is, best.need_is, ← named, cost) refl
      ]

  freed :
      (h : CanHold model tier shape at cus m p)
      → unwrap_or (share_cost m.costs tier share_of) 0 ≡ need_of cus h.cost
  unfolding share_cost need_of
  freed h = rw h.costed refl

  -- The planner that sells a share again, right after it was released, is as before the release.
  pub reserve-release :
      IsKeyed m.pools
      → AreWords m.pools
      → CanHold model tier shape at cus m p
      → reserve (release m tier (share_of ∷ [])) model tier (claim_of ∷ []) shape at
        ≡ (ok (share_of ∷ []), m)
  unfolding reserve release release_all reserve_all
  reserve-release k w h =
      let need = need_of cus h.cost in
      let found = find_pool-In p m.pools k h.stands in
      let counted = h.counted in
      let word = All-In _ p m.pools w h.stands in
      let back =
        ap (λ j. set_reserved p.region p.pool (λ n. w64 (n + need)) (left j)) (freed h)
        ∙ set_reserved_twice p.region p.pool (λ n. n - need) (λ n. w64 (n + need)) m.pools
        ∙ set_reserved_same p.region p.pool (λ n. w64 (n - need + need)) m.pools
            (λ q e.
              let same : p ≡ q = some-eq (sym found ∙ e) in
              rw (← same) (ap w64 (omega (arith, counted)) ∙ w64_small p.reserved word)) in
      rw (freed h, place-again k h) (ap (λ ps. (ok (share_of ∷ []), record m { pools = ps })) back)

set_reserved-others :
    (region pool : String) (f : ℕ → ℕ) (p : PoolView) (ps : List PoolView)
    → (p.pool == pool) ≡ false
    → In p ps
    → In p (set_reserved region pool f ps)
unfolding set_reserved is_at
set_reserved-others region pool f p [] off i = absurd i
set_reserved-others region pool f p (q ∷ ps) off i = elim (Bool-cases (is_at region pool q)) [
  | inr g ↦
      rw (is_at, g)
        (elim i [ inl e ↦ inl e | inr j ↦ inr (set_reserved-others region pool f p ps off j) ])
  | inl t ↦ elim i [
    | inr j ↦ rw (is_at, t) (inr j)
    | inl e ↦
        absurd (true-ne-false (sym (&&-eq_true _ _ t).1 ∙ ap (λ x. x.pool == pool) (sym e) ∙ off))
  ]
]

-- What the sale of one claim on a named pool keeps: the pools' keys, the counters' size, the other pools.
pub record Keeps (p : PoolView) (m m' : MemoryPlanner) : Type 0 where
  pub keyed : IsKeyed m'.pools
  pub words : AreWords m'.pools
  pub stands : In p m'.pools
  pub same_costs : m'.costs ≡ m.costs
  pub same_schedule : m'.schedule ≡ m.schedule

pub reserve-Keeps :
    (m m' : MemoryPlanner) (model : String) (tier : Tier) (region pool : String) (cus : ℕ)
    (shape : Shape) (at : ℕ) (shares : List PoolShare) (p : PoolView)
    → IsKeyed m.pools
    → AreWords m.pools
    → In p m.pools
    → (p.pool == pool) ≡ false
    → reserve m model tier (record { region = region; pool = some pool; cus = cus } ∷ []) shape at
      ≡ (ok shares, m')
    → Keeps p m m'
unfolding reserve reserve_all
reserve-Keeps m m' model tier region pool cus shape at shares p k w i off e =
    let claim : Claim = record { region = region; pool = some pool; cus = cus } in
    elim (place-Decided claim model tier shape at m.pools m.costs m.schedule) [
      | inr (_, refused, _) ↦ absurd (err-ne-ok (ap (λ r. r.0) (rw refused at e)))
      | inl (pl, need, placed, best) ↦
          let named : pl ≡ pool = best.pool_is ∙ elim best.takes.eligible.named [
            | inl x ↦ absurd (none-ne-some (sym x))
            | inr x ↦ sym (some-eq x)
          ] in
          let after = ap (λ r. r.1) (rw placed at e) in
          subst (Keeps p m) after (record {
            keyed = set_reserved-IsKeyed region pl (λ n. w64 (n + need)) m.pools k;
            words = set_reserved-AreWords region pl need m.pools w;
            stands = set_reserved-others region pl (λ n. w64 (n + need)) p m.pools (rw named off) i;
            same_costs = refl;
            same_schedule = refl;
          })
    ]
