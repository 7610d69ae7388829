-- ===== src/Service/Moves/Called.antt =====
-- The log of a move (`ops` in `relocate` and `move_capacity` of
-- crates/pt-control-plane/src/service.rs) and the calls that the planner got.
use mathlib.Core.List.{append-nil}
use provisioned_throughput.Base.{
  ℕ, max, ◌≡◌, refl, sym, ◌∙◌, ap, ◌&&◌, Option, none, List, [], ◌∷◌, ◌++◌, String, inl, inr,
  Bool-cases,
}
use provisioned_throughput.Base.Result.{Result, ok, err, panicked}
use provisioned_throughput.Core.{Tier, Shape}
use provisioned_throughput.Capacity.{PoolShare}
use provisioned_throughput.Planner.{Claim, PlanError, PoolView}
use provisioned_throughput.Planner.Memory.{MemoryPlanner, reserve_all, reserve, release, commit}
use provisioned_throughput.Model.{RegionShare}
use provisioned_throughput.Errors.{ServiceError}
use provisioned_throughput.Failover.{growth}
use provisioned_throughput.Service.{
  Settings, answered, plan_reserve, plan_release, held, on_pools, claims, record_placed,
}
use provisioned_throughput.Service.Lifecycle.{PlanOp, reserved, released}
use provisioned_throughput.Service.Moves.{
  Draft, E, then_edit, on_service, placed_or_fail, is_unavailable, has_pool, in_region, give_back,
  total_in, leave_old, relocate, grown, grow_each, shrink_to, move_capacity,
}

-- The log lists the calls that bring the planner from one state to another, in their order: the sales
-- that it accepted, with the shares that it answered, and the releases.
pub data Calls (m : MemoryPlanner) : List PlanOp → MemoryPlanner → Type 0 where
  none_made : Calls m [] m
  then_reserved :
      {ops : List PlanOp} {m' m'' : MemoryPlanner} (model : String) (tier : Tier)
      (claims : List Claim) (shape : Shape) (at : ℕ) (shares : List PoolShare)
      → Calls m ops m'
      → reserve m' model tier claims shape at ≡ (ok shares, m'')
      → Calls m (ops ++ reserved tier shares ∷ []) m''
  then_released :
      {ops : List PlanOp} {m' : MemoryPlanner} (tier : Tier) (shares : List PoolShare)
      → Calls m ops m'
      → Calls m (ops ++ released tier shares ∷ []) (release m' tier shares)

-- What was logged since a planner's state `m`, after the calls `before`.
abbrev Logged : MemoryPlanner → List PlanOp → Draft → Type 0
Logged m before d = (ops : List PlanOp) × (d.ops ≡ before ++ ops) × Calls m ops d.service.planner

append_assoc : (xs ys zs : List PlanOp) → (xs ++ ys) ++ zs ≡ xs ++ (ys ++ zs)
append_assoc [] ys zs = refl
append_assoc (x ∷ xs) ys zs = ap (◌∷◌ x) (append_assoc xs ys zs)

module _ (m : MemoryPlanner) (before : List PlanOp) where
  then_edit-Logged :
      {A B : Type 0} (r : Result ServiceError A × Draft) (f : A → E B)
      → Logged m before r.1
      → ((a : A) (d : Draft) → Logged m before d → Logged m before (f a d).1)
      → Logged m before (then_edit r f).1
  then_edit-Logged (ok a, d) f h next = next a d h
  then_edit-Logged (err e, d) f h next = h
  then_edit-Logged (panicked, d) f h next = h

  -- A draft that a sale was noted in, and one that a release was.
  reserved-Logged :
      (d d' : Draft) (model : String) (tier : Tier) (claims : List Claim) (shape : Shape) (at : ℕ)
      (shares : List PoolShare)
      → Logged m before d
      → reserve d.service.planner model tier claims shape at ≡ (ok shares, d'.service.planner)
      → d'.ops ≡ d.ops ++ reserved tier shares ∷ []
      → Logged m before d'
  reserved-Logged d d' model tier claims shape at shares (ops, e, k) call noted = (
    ops ++ reserved tier shares ∷ [],
    noted
        ∙ ap (λ xs. xs ++ reserved tier shares ∷ []) e
        ∙ append_assoc before ops (reserved tier shares ∷ []),
    then_reserved model tier claims shape at shares k call,
  )

  give_back-Logged :
      (shares : List PoolShare) (d : Draft)
      → Logged m before d
      → Logged m before (give_back shares d).1
  unfolding give_back plan_release
  give_back-Logged [] d h = h
  give_back-Logged (s ∷ rest) d (ops, e, k) = (
    ops ++ released d.pt.tier (s ∷ rest) ∷ [],
    ap (λ xs. xs ++ released d.pt.tier (s ∷ rest) ∷ []) e
        ∙ append_assoc before ops (released d.pt.tier (s ∷ rest) ∷ []),
    then_released d.pt.tier (s ∷ rest) k,
  )

  module _ (c : Settings) (now : ℕ) where
    leave_old-Logged :
        (tier : Tier) (old : List PoolShare) (region : String) (placed : List PoolShare) (d : Draft)
        → Logged m before (record d { ops = d.ops ++ reserved tier placed ∷ [] })
        → Logged m before (leave_old c now tier old region placed d).1
    unfolding leave_old give_back record_placed
    leave_old-Logged tier [] region placed d h = h
    leave_old-Logged tier (s ∷ rest) region placed d h =
        give_back-Logged (s ∷ rest) (record d { ops = d.ops ++ reserved tier placed ∷ [] }) h

    relocate-Logged :
        (region : String) (total : ℕ) (to : Option String) (shape : Shape) (at : ℕ) (d : Draft)
        → Logged m before d
        → Logged m before (relocate c now region total to shape at d).1
    unfolding relocate plan_reserve reserve
    relocate-Logged region total to shape at d h =
        let p = d.service.planner in
        of_planner
          (reserve_all d.pt.model d.pt.tier shape at p.costs p.schedule
            (record { region = region; pool = to; cus = total } ∷ []) p.pools)
          refl
      where
        of_planner :
            (q : Result PlanError (List PoolView × List PoolShare))
            → reserve d.service.planner d.pt.model d.pt.tier
                (record { region = region; pool = to; cus = total } ∷ [])
                shape
                at
              ≡ commit d.service.planner q
            → let (answer, planner) = commit d.service.planner q in
              Logged m before
                (then_edit
                  (on_service (λ s. answered answer (record s { planner = planner })) d)
                  (λ answer. λ d'. then_edit (placed_or_fail answer d') (
                    leave_old c now d.pt.tier
                      (on_pools c d.pt (in_region region (held d.pt)))
                      region))).1
        of_planner (ok (ps, placed)) e =
            let sold : Draft = record d {
              service = record d.service { planner = record d.service.planner { pools = ps } };
            } in
            leave_old-Logged d.pt.tier (on_pools c d.pt (in_region region (held d.pt))) region
              placed sold
              (reserved-Logged d (record sold { ops = d.ops ++ reserved d.pt.tier placed ∷ [] })
                d.pt.model d.pt.tier (record { region = region; pool = to; cus = total } ∷ []) shape
                at placed h e refl)
        of_planner (err x) e = h
        of_planner panicked e = h

    grow_each-Logged :
        (target : List RegionShare) (shape : Shape) (at : ℕ) (gs : List RegionShare) (d : Draft)
        → Logged m before d
        → Logged m before (grow_each c now target shape at gs d).1
    unfolding grow_each grown plan_reserve reserve
    grow_each-Logged target shape at [] d h = h
    grow_each-Logged target shape at (g ∷ rest) d h =
        let p = d.service.planner in
        of_planner
          (reserve_all d.pt.model d.pt.tier shape at p.costs p.schedule (claims c d.pt (g ∷ []))
            p.pools)
          refl (grow_each-Logged target shape at rest)
      where
        of_planner :
            (q : Result PlanError (List PoolView × List PoolShare))
            → reserve d.service.planner d.pt.model d.pt.tier (claims c d.pt (g ∷ [])) shape at
              ≡ commit d.service.planner q
            → ((d : Draft)
                → Logged m before d
                → Logged m before (grow_each c now target shape at rest d).1)
            → let (answer, planner) = commit d.service.planner q in
              Logged m before
                (then_edit
                  (on_service (λ s. answered answer (record s { planner = planner })) d)
                  (λ answer. λ d'.
                    then_edit
                      (grown c now target shape at g (claims c d.pt (g ∷ [])) answer d')
                      (λ u. grow_each c now target shape at rest))).1
        of_planner (ok (ps, placed)) e more =
            let sold : Draft = record d {
              pt = record_placed placed d.pt;
              ops = d.ops ++ reserved d.pt.tier placed ∷ [];
              service = record d.service { planner = record d.service.planner { pools = ps } };
            } in
            more sold (
              reserved-Logged d sold d.pt.model d.pt.tier (claims c d.pt (g ∷ [])) shape at placed h
                e refl)
        of_planner (err x) e more =
            then_edit-Logged (grown c now target shape at g (claims c d.pt (g ∷ [])) (inl x) d) _
              (elim (Bool-cases (is_unavailable x && has_pool (claims c d.pt (g ∷ [])))) [
                | inl t ↦
                    rw (grown, t) (relocate-Logged g.region (total_in g target) none shape at d h)
                | inr f ↦ rw (grown, f) h
              ])
              (λ u. more)
        of_planner panicked e more = h

-- The log of `move_capacity`, whatever its outcome, is the log before with the calls that it made.
pub move_capacity-Calls :
    (c : Settings) (now : ℕ) (target : List RegionShare) (shape : Shape) (d : Draft)
    → let (_, d') = move_capacity c now target shape d in
      (ops : List PlanOp) × (d'.ops ≡ d.ops ++ ops) × Calls d.service.planner ops d'.service.planner
unfolding move_capacity shrink_to
move_capacity-Calls c now target shape d =
    let before = held d.pt in
    then_edit-Logged d.service.planner d.ops
      (grow_each c now target shape (max d.pt.term_start now) (growth before target) d) _
      (grow_each-Logged d.service.planner d.ops c now target shape (max d.pt.term_start now)
        (growth before target) d ([], sym (append-nil d.ops), none_made))
      (λ u d' k.
        give_back-Logged d.service.planner d.ops (on_pools c d'.pt (growth target before)) d' k)
