-- ===== src/Service/Moves/ToPool.antt =====
-- A reservation's move to another pool of its region (`move_to_pool`, with `undo` around it, in
-- crates/pt-control-plane/src/service.rs).
use provisioned_throughput.Base.{
  ℕ, max, Option, none, some, List, [], String, find, any, ◌==◌, string_eq, option_eq,
  if◌then◌else◌,
}
use provisioned_throughput.Base.Result.{Result, ok, err, panicked}
use provisioned_throughput.Capacity.{PoolShare, pools_for, pool_id}
use provisioned_throughput.Model.{RegionShare, ProvisionedThroughput}
use provisioned_throughput.Errors.{ServiceError, validation}
use provisioned_throughput.Service.{
  Settings, Service, M, then_do, ◌>>=◌, ◌>>◌, done, fail, guard, held, persist, pool_of, pooled,
}
use provisioned_throughput.Service.Lifecycle.{PlanOp, undo}
use provisioned_throughput.Service.Queries.{find_live}
use provisioned_throughput.Service.Moves.{Draft, relocate}

module _ (c : Settings) (now : ℕ) where
  -- `self.undo(&model, &shape, ops).await; return Err(e)`
  unfoldable pub undone : {A : Type 0} → ProvisionedThroughput → List PlanOp → ServiceError → M A
  unfolding undo
  undone pt ops e = do undo c now pt.model pt.shape ops; fail e

  unfoldable pub or_undo :
      {A : Type 0}
      → ProvisionedThroughput
      → List PlanOp
      → Result ServiceError A × Service
      → Result ServiceError A × Service
  unfolding undone
  or_undo pt ops (ok a, s) = (ok a, s)
  or_undo pt ops (err e, s) = undone pt ops e s
  or_undo pt ops (panicked, s) = (panicked, s)

  -- The two `match`es of `move_to_pool`.
  unfoldable pub save_move : ProvisionedThroughput → Draft → M ProvisionedThroughput
  unfolding persist or_undo
  save_move pt d s = or_undo pt d.ops (persist now pt.version d.pt s)

  unfoldable pub moved :
      ProvisionedThroughput
      → Result ServiceError (Unit {0}) × Draft
      → Result ServiceError (List PoolShare) × Service
  unfolding undone save_move pooled
  moved pt (ok u, d) = then_do (save_move pt d d.service) (λ saved. done (pooled c saved))
  moved pt (err e, d) = undone pt d.ops e d.service
  moved pt (panicked, d) = (panicked, d.service)

  unfoldable pub move_share :
      ProvisionedThroughput → String → String → RegionShare → M (List PoolShare)
  unfolding relocate moved
  move_share pt region pool share s = moved pt (
      relocate c now region share.cus (some pool) pt.shape (max pt.term_start now)
        (record { pt = pt; ops = []; service = s }))

  unfoldable pub move_held :
      ProvisionedThroughput → String → String → Option RegionShare → M (List PoolShare)
  unfolding pools_for pool_id pool_of pooled move_share
  move_held pt region pool none = fail (validation "region")
  move_held pt region pool (some share) = do
    guard (any (λ p. pool_id p == pool) (pools_for c.offer.capacity region pt.model))
        (validation "pool")
    (if pool_of c pt region == some pool
        then done (pooled c pt)
        else move_share pt region pool share)

  -- `move_to_pool`
  unfoldable pub move_to_pool : String → String → String → M (List PoolShare)
  unfolding find_live held move_held
  move_to_pool id region pool = do
    pt ← find_live id
    move_held pt region pool (find (λ s. s.region == region) (held pt))
