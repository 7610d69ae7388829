-- ===== src/Service/Lifecycle.antt =====
-- The lifecycle run (`run_lifecycle` and `renew` in crates/pt-control-plane/src/service.rs): it starts
-- reservations whose term has begun, renews or ends those whose term is over, and takes back what it
-- did to the planner when a write loses a race.
pub mod Rounds
pub mod Settled
use provisioned_throughput.Base.{
  ℕ, zero, suc, ◌+◌, Bool, true, false, not, ◌&&◌, ◌||◌, Option, none, some, List, [], ◌∷◌, ◌++◌,
  String, ◌⊎◌, inl, inr, reverse, leb, nat_eq, string_eq, ◌==◌, if◌then◌else◌,
}
use provisioned_throughput.Base.Words.{w32}
use provisioned_throughput.Base.Result.{Result, ok, err, panicked}
use provisioned_throughput.Core.{Tier, tier_eq, Shape, months}
use provisioned_throughput.Capacity.{PoolShare}
use provisioned_throughput.Planner.{PlanError}
use provisioned_throughput.Model.{
  RegionShare, total_cus, State, PendingChanges, EventKind, activated, change_applied,
  scheduled_change_failed, renewed, Event, ProvisionedThroughput,
}
use provisioned_throughput.Failover.{headroom, footprint}
use provisioned_throughput.Store.{list_live}
use provisioned_throughput.Errors.{ServiceError}
use provisioned_throughput.Service.{
  Settings, Service, M, then_do, ◌>>=◌, ◌>>◌, done, push_event, plan_reserve, plan_release,
  as_claims, record_placed, tidy_placements, pooled, claims, endpoints, write, bump, bump_now,
  stamp,
}
use provisioned_throughput.Service.Keys.{prune_expired_keys}

-- `LifecycleReport`
pub record LifecycleReport : Type 0 where
  pub activated : ℕ
  pub renewed : ℕ
  pub ended : ℕ
  pub conflicts : ℕ

-- `PlanOp`
pub data PlanOp : Type 0 where
  reserved released : (tier : Tier) (shares : List PoolShare) → PlanOp

-- The variables of the run that one reservation's turn changes.
pub record Turn : Type 0 where
  pub pt : ProvisionedThroughput
  pub ops : List PlanOp
  pub changed : Bool
  pub report : LifecycleReport

abbrev pub edit : (ProvisionedThroughput → ProvisionedThroughput) → Turn → Turn
edit f t = record t { pt = f t.pt }

-- `==` on `Vec<RegionShare>`
unfoldable pub same_shares : List RegionShare → List RegionShare → Bool
same_shares [] [] = true
same_shares (a ∷ xs) (b ∷ ys) =
    let more = same_shares xs ys in (a.region == b.region && a.cus == b.cus) && more
same_shares [] (b ∷ ys) = false
same_shares (a ∷ xs) [] = false

abbrev pub is_active : State → Bool
is_active State.active = true
is_active _ = false

abbrev pub is_running : State → Bool
is_running State.active = true
is_running State.pending_cancellation = true
is_running _ = false

-- The condition of the `while`.
unfoldable pub is_due : ℕ → ProvisionedThroughput → Bool
is_due now pt = is_running pt.state && leb pt.term_end now

abbrev pub count_renewed : Turn → Turn
count_renewed t = record t { report = record t.report { renewed = w32 (t.report.renewed + 1) } }

abbrev pub count_ended : Turn → Turn
count_ended t = record t { report = record t.report { ended = w32 (t.report.ended + 1) } }

-- The first part of a turn: expired keys, and the start of a term.
abbrev pub is_scheduled : State → Bool
is_scheduled State.scheduled = true
is_scheduled _ = false

unfoldable pub activate : ℕ → Turn → Turn
activate now t =
    if is_scheduled t.pt.state && leb t.pt.term_start now
    then record t {
      pt =
          push_event t.pt.term_start
            (activated (some t.pt.cus) (some t.pt.tier) (some t.pt.price.monthly))
            (record t.pt { state = State.active });
      changed = true;
      report = record t.report { activated = w32 (t.report.activated + 1) };
    }
    else t

unfoldable pub begin : ℕ → ProvisionedThroughput → LifecycleReport → Turn
unfolding prune_expired_keys activate
begin now pt report =
    let (changed, pruned) = prune_expired_keys now pt in
    activate now (record { pt = pruned; ops = []; changed = changed; report = report })

module _ (c : Settings) (now : ℕ) where
  -- Both arms of a reservation that fails: `keep` is reserved again, and the turn goes on unchanged.
  unfoldable pub put_back : List PoolShare → PlanError → Turn → M Turn
  unfolding plan_reserve as_claims
  put_back shares e t = do
    back ← plan_reserve t.pt.model t.pt.tier (as_claims shares) t.pt.shape c.latest
    done (edit (push_event now (scheduled_change_failed (c.reason e))) t)

  -- `renew`: the change of regions.
  unfoldable pub on_regions :
      List RegionShare
      → List RegionShare
      → List PoolShare
      → Turn
      → PlanError ⊎ List PoolShare
      → M Turn
  unfolding record_placed put_back
  on_regions new spare before t (inr placed) = done (record t {
    pt = record (record_placed placed t.pt) {
      regions = new;
      effective_regions = [];
      failover_headroom = spare;
    };
    ops = t.ops ++ released t.pt.tier before ∷ reserved t.pt.tier placed ∷ [];
  })
  on_regions new spare before t (inl e) = put_back before e t

  unfoldable pub renew_regions : List RegionShare → Turn → M Turn
  unfolding pooled claims plan_reserve plan_release headroom footprint on_regions
  renew_regions new t = do
    let pt = t.pt
    let before = pooled c pt
    let spare = headroom c.offer.regions pt.sku new
    let after = claims c pt (footprint new spare)
    plan_release pt.tier before
    answer ← plan_reserve pt.model pt.tier after pt.shape pt.term_end
    on_regions new spare before t answer

  -- `renew`: the change of the tier.
  unfoldable pub on_tier : Tier → List PoolShare → Turn → PlanError ⊎ List PoolShare → M Turn
  unfolding put_back
  on_tier tier current t (inr placed) = done (record t {
    pt = record t.pt { tier = tier };
    ops = t.ops ++ released t.pt.tier current ∷ reserved tier placed ∷ [];
  })
  on_tier tier current t (inl e) = put_back current e t

  unfoldable pub renew_tier : Tier → Turn → M Turn
  unfolding pooled plan_reserve plan_release as_claims on_tier
  renew_tier tier t = do
    let pt = t.pt
    let current = pooled c pt
    plan_release pt.tier current
    answer ← plan_reserve pt.model tier (as_claims current) pt.shape pt.term_end
    on_tier tier current t answer

  unfoldable pub renew_regions_if : Option (List RegionShare) → Turn → M Turn
  unfolding renew_regions same_shares
  renew_regions_if none t = done t
  renew_regions_if (some new) t =
      if same_shares new t.pt.regions then done t else renew_regions new t

  unfoldable pub renew_tier_if : Option Tier → Turn → M Turn
  unfolding renew_tier
  renew_tier_if none t = done t
  renew_tier_if (some tier) t = if tier == t.pt.tier then done t else renew_tier tier t

  -- The `ChangeApplied` event of `renew`
  unfoldable pub announce : ProvisionedThroughput → ProvisionedThroughput
  unfolding total_cus
  announce pt =
      push_event pt.term_end
        (change_applied pt.tier pt.regions
          (some (c.price pt.tier pt.isolation pt.sku (total_cus pt.regions)).monthly))
        pt

  unfoldable pub apply_pending : Option PendingChanges → Turn → M Turn
  unfolding renew_regions_if renew_tier_if announce
  apply_pending none t = done t
  apply_pending (some pending) t = do
    t₁ ← renew_regions_if pending.regions (edit (λ pt. record pt { pending_changes = none }) t)
    t₂ ← renew_tier_if pending.tier t₁
    done (edit announce t₂)

  -- `renew`: the next term.
  unfoldable pub next_term : ProvisionedThroughput → ProvisionedThroughput
  unfolding total_cus endpoints months
  next_term pt =
      let cus = total_cus pt.regions in
      let price = c.price pt.tier pt.isolation pt.sku cus in
      let ends = c.add_months pt.term_end (months pt.term_months) in
      push_event pt.term_end (renewed pt.term_end ends price.monthly) (record pt {
        term_start = pt.term_end;
        term_end = ends;
        cus = cus;
        endpoints = endpoints c pt.regions;
        price = price;
      })

  -- `renew`
  unfoldable pub renew : Turn → M Turn
  unfolding apply_pending next_term
  renew t = do t₁ ← apply_pending t.pt.pending_changes t; done (edit next_term t₁)

  -- The other branch of the loop: the term ends without renewal.
  unfoldable pub end_term : Turn → M Turn
  unfolding pooled plan_release
  end_term t = do
    let pt = t.pt
    let before = pooled c pt
    plan_release pt.tier before
    done (record t {
      pt =
          push_event pt.term_end EventKind.ended
            (record pt { state = State.ended; pending_changes = none });
      ops = t.ops ++ released pt.tier before ∷ [];
    })

  -- Its body.
  unfoldable pub turn_over : Turn → M Turn
  unfolding renew end_term
  turn_over t =
      if is_active t.pt.state && t.pt.auto_renew
      then (do t₁ ← renew (record t { changed = true }); done (count_renewed t₁))
      else (do t₁ ← end_term (record t { changed = true }); done (count_ended t₁))

  -- The `while`, on fuel.
  unfoldable pub catch_up : ℕ → Turn → M Turn
  unfolding is_due turn_over
  catch_up zero t = done t
  catch_up (suc fuel) t = if is_due now t.pt then turn_over t >>= catch_up fuel else done t

  -- `undo`, the operations last to first; a reservation that fails is only logged.
  unfoldable pub undo_all : String → Shape → List PlanOp → M (Unit {0})
  unfolding plan_release plan_reserve as_claims
  undo_all model shape [] = done tt
  undo_all model shape (reserved tier shares ∷ rest) = do
    plan_release tier shares
    undo_all model shape rest
  undo_all model shape (released tier shares ∷ rest) = do
    back ← plan_reserve model tier (as_claims shares) shape c.latest
    undo_all model shape rest

  unfoldable pub undo : String → Shape → List PlanOp → M (Unit {0})
  unfolding undo_all
  undo model shape ops = undo_all model shape (reverse ops)

  -- The end of a turn, by the store's answer.
  unfoldable settle :
      Turn
      → Result ServiceError (Unit {0}) × Service
      → Result ServiceError LifecycleReport × Service
  unfolding bump undo
  settle t (ok u, s) = (bump_now now >> done t.report) s
  settle t (err e, s) =
      (undo t.pt.model t.pt.shape t.ops
          >> done (record t.report { conflicts = w32 (t.report.conflicts + 1) }))
        s
  settle t (panicked, s) = (panicked, s)

  unfoldable pub keep : ℕ → Turn → M LifecycleReport
  unfolding settle write tidy_placements
  keep expected t s =
      if t.changed
      then settle t (write expected (stamp now (tidy_placements t.pt)) s)
      else (ok t.report, s)

  -- One reservation's turn. Each renewal moves the end of the term on, so `suc now` rounds of the
  -- `while` are enough.
  unfoldable take_turn : ProvisionedThroughput → LifecycleReport → M LifecycleReport
  unfolding begin catch_up keep
  take_turn pt report = do t ← catch_up (suc now) (begin now pt report); keep pt.version t

  unfoldable take_turns : List ProvisionedThroughput → LifecycleReport → M LifecycleReport
  unfolding take_turn
  take_turns [] report = done report
  take_turns (pt ∷ rest) report = do report₁ ← take_turn pt report; take_turns rest report₁

  -- `run_lifecycle`
  unfoldable run_lifecycle : M LifecycleReport
  unfolding take_turns list_live
  run_lifecycle s =
      take_turns (list_live s.store)
        (record { activated = 0; renewed = 0; ended = 0; conflicts = 0 }) s
