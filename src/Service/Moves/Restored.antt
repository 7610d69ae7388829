-- ===== src/Service/Moves/Restored.antt =====
-- A move to another pool that does not come about, also where another client got in between
-- (`move_to_pool` and `undo` in crates/pt-control-plane/src/service.rs).
use provisioned_throughput.Base.{
  ℕ, ◌≡◌, refl, sym, ◌∙◌, ap, some, List, [], ◌∷◌, String, inl, inr, max, any, Bool, false,
  Bool-cases, Option-cases, ◌==◌, nat_eq, string_eq, option_eq,
}
use provisioned_throughput.Base.Dict
use provisioned_throughput.Base.Result.{Result, ok, err, panicked}
use provisioned_throughput.Capacity.{PoolShare, pools_for, pool_id}
use provisioned_throughput.Planner.{Claim, PlanError, PoolView}
use provisioned_throughput.Planner.Memory.{MemoryPlanner, reserve, release, reserve_all, commit}
use provisioned_throughput.Planner.Memory.Pools.{IsKeyed}
use provisioned_throughput.Planner.Memory.Undo.{AreWords, release-reserve}
use provisioned_throughput.Planner.Memory.Redo.{CanHold, reserve-release, reserve-Keeps}
use provisioned_throughput.Model.{RegionShare, ProvisionedThroughput}
use provisioned_throughput.Errors.{ServiceError, validation}
use provisioned_throughput.Store.{update}
use provisioned_throughput.Service.{
  Settings, Service, then_do, done, pooled, guard, answered, plan_reserve, plan_release, held,
  pool_of, on_pools, as_claims, after_update, write, persist, stamp, tidy_placements,
}
use provisioned_throughput.Service.Lifecycle.{PlanOp, reserved, released, undo, undo_all}
use provisioned_throughput.Service.Moves.{
  Draft, then_edit, on_service, placed_or_fail, give_back, leave_old, relocate, in_region,
}
use provisioned_throughput.Service.Update.Kept.{guard-same}
use provisioned_throughput.Service.Moves.Refused.{
  Spares, Spares-ok, Spares-err, Spares-panicked, read_then,
}
use provisioned_throughput.Service.Moves.ToPool.{
  undone, or_undo, save_move, moved, move_share, move_held,
}

-- A write that fails leaves the service as it was.
persist-Spares :
    (now version : ℕ) (pt : ProvisionedThroughput) (s : Service)
    → Spares s (persist now version pt s)
unfolding persist write after_update update tidy_placements
persist-Spares now version pt s =
    elim (Option-cases (Dict.get (stamp now (tidy_placements pt)).id s.store.by_id)) [
      | inl n ↦ rw (persist, write, update, n) (Spares-err s _)
      | inr (q, e) ↦ elim (Bool-cases (q.version == version)) [
        | inl t ↦ rw (persist, write, update, e, t) (Spares-ok s _ _)
        | inr f ↦ rw (persist, write, update, e, f) (Spares-err s _)
      ]
    ]

-- The reservation's share of the region stands on the pool `home`, which can take it again: it is a pool
-- of the model that serves the shape, its counter has the share, and no more than the pool ever has.
pub record IsHome (c : Settings) (pt : ProvisionedThroughput) (region : String) (cus : ℕ)
    (s : Service) (home : PoolView) : Type 0 where
  pub held_on :
      on_pools c pt (in_region region (held pt))
      ≡ record { region = home.region; pool = home.pool; cus = cus } ∷ []
  pub placed_on : pool_of c pt region ≡ some home.pool
  pub keyed : IsKeyed s.planner.pools
  pub words : AreWords s.planner.pools
  pub can_hold : CanHold pt.model pt.tier pt.shape c.latest cus s.planner home

module _ (c : Settings) (now : ℕ) (pt : ProvisionedThroughput) (region pool : String) (cus : ℕ)
    (s : Service) (home : PoolView) (h : IsHome c pt region cus s home)
    (off : (home.pool == pool) ≡ false) where
  abbrev old : List PoolShare
  old = record { region = home.region; pool = home.pool; cus = cus } ∷ []

  abbrev claim : List Claim
  claim = record { region = region; pool = some pool; cus = cus } ∷ []

  -- The planner's two calls of a move are taken back.
  undo-move :
      (at : ℕ) (placed : List PoolShare) (m : MemoryPlanner)
      → reserve s.planner pt.model pt.tier claim pt.shape at ≡ (ok placed, m)
      → undo c now pt.model pt.shape
          (reserved pt.tier placed ∷ released pt.tier old ∷ [])
          (record s { planner = release m pt.tier old })
        ≡ (ok tt, s)
  unfolding undo undo_all plan_reserve plan_release as_claims
  undo-move at placed m e =
      let k =
        reserve-Keeps s.planner m pt.model pt.tier region pool cus pt.shape at placed home h.keyed
          h.words h.can_hold.stands off e in
      let again : CanHold pt.model pt.tier pt.shape c.latest cus m home = record {
        cost = h.can_hold.cost;
        stands = k.stands;
        of_model = h.can_hold.of_model;
        serves = h.can_hold.serves;
        costed = rw (k.same_costs) h.can_hold.costed;
        counted = h.can_hold.counted;
        fits = rw (k.same_schedule) h.can_hold.fits;
      } in
      let sold =
        reserve-release m pt.model pt.tier pt.shape c.latest cus home k.keyed k.words again in
      let back =
        release-reserve s.planner m pt.model pt.tier claim pt.shape at placed h.keyed h.words e in
      rw (sold, back) refl

  abbrev start : Draft
  start = record { pt = pt; ops = []; service = s }

  saved :
      (ops : List PlanOp) (d : Draft) (q : Result ServiceError ProvisionedThroughput × Service)
      → undo c now pt.model pt.shape ops d.service ≡ (ok tt, s)
      → Spares d.service q
      → Spares s (then_do (or_undo c now pt ops q) (λ saved. done (pooled c saved)))
  unfolding or_undo undone
  saved ops d (ok a, s') u k = Spares-ok s _ _
  saved ops d (err x, s') u k = rw (k.on_error x refl, u) (Spares-err s x)
  saved ops d (panicked, s') u k = Spares-panicked s s'

  left :
      (at : ℕ) (old' : List PoolShare) (placed : List PoolShare) (ps : List PoolView)
      → old' ≡ old
      → reserve s.planner pt.model pt.tier claim pt.shape at
        ≡ (ok placed, record s.planner { pools = ps })
      → Spares s (
          moved c now pt (
            leave_old c now pt.tier old' region placed
              (record start { service = record s { planner = record s.planner { pools = ps } } })))
  unfolding moved save_move leave_old give_back plan_release
  left at old' placed ps same e =
      let sold : MemoryPlanner = record s.planner { pools = ps } in
      let t : Service = record s { planner = release sold pt.tier old } in
      rw same (
        saved (reserved pt.tier placed ∷ released pt.tier old ∷ []) (record start { service = t })
          (persist now pt.version _ t) (undo-move at placed sold e)
          (persist-Spares now pt.version _ t))

  moved-Restores :
      (at : ℕ)
      → Spares s (
          moved c now pt (
            relocate c now region cus
              (some pool)
              pt.shape
              at
              (record { pt = pt; ops = []; service = s })))
  unfolding relocate plan_reserve reserve moved undone undo undo_all
  moved-Restores at =
      let m = s.planner in
      of_planner (reserve_all pt.model pt.tier pt.shape at m.costs m.schedule claim m.pools) refl
    where
      of_planner :
          (q : Result PlanError (List PoolView × List PoolShare))
          → reserve s.planner pt.model pt.tier claim pt.shape at ≡ commit s.planner q
          → let (answer, planner) = commit s.planner q in
            Spares s (
              moved c now pt (
                then_edit
                  (on_service (λ s. answered answer (record s { planner = planner })) start)
                  (λ answer. λ d'.
                    then_edit (placed_or_fail answer d') (
                      leave_old c now pt.tier
                        (on_pools c pt (in_region region (held pt)))
                        region))))
      of_planner (ok (ps, placed)) e = left at _ placed ps h.held_on e
      of_planner (err e) q = Spares-err s _
      of_planner panicked q = Spares-panicked s _

-- After it has read the reservation, a move to another pool that fails leaves the service, its store and
-- its planner as they were, whatever the error: also when the new pool has sold and the old one is
-- released, and then the reservation cannot be saved, since another client changed or removed it (the
-- store is any). This is for a reservation that holds one share in the region, on a pool of its model
-- that serves its shape, whose counter has the share and is no more than the pool will have; no two
-- pools share their key, and counters are machine words.
pub move_held-unchanged :
    (c : Settings) (now : ℕ) (pt : ProvisionedThroughput) (region pool : String)
    (share : RegionShare) (s s' : Service) (e : ServiceError) (home : PoolView)
    → IsHome c pt region share.cus s home
    → move_held c now pt region pool (some share) s ≡ (err e, s')
    → s' ≡ s
unfolding move_held move_share
move_held-unchanged c now pt region pool share s s' e home h q =
    let spared : Spares s (move_held c now pt region pool (some share) s) =
      read_then c now s (guard offered (validation "pool") s) _
        (guard-same offered (validation "pool") s)
        (λ u k. elim (Bool-cases (pool_of c pt region == some pool)) [
          | inl t ↦ rw t (Spares-ok s _ _)
          | inr f ↦ rw f (
              moved-Restores c now pt region pool share.cus s home h (elsewhere f)
                (max pt.term_start now))
        ]) in
    sym (ap (λ r. r.1) q) ∙ spared.on_error e (ap (λ r. r.0) q)
  where
    offered : Bool
    offered = any (λ p. pool_id p == pool) (pools_for c.offer.capacity region pt.model)

    elsewhere : (pool_of c pt region == some pool) ≡ false → (home.pool == pool) ≡ false
    elsewhere f = rw h.placed_on at f
