-- ===== src/Service/Moves/Refused.antt =====
-- A move to another pool that is refused.
use provisioned_throughput.Base.{
  ℕ, ◌≡◌, refl, sym, ◌∙◌, ap, ap₂, subst, Option, none, some, List, [], ◌∷◌, String, inl, inr, max,
  All, In, In-filter_into, find, any, Bool-cases, Option-cases, ◌==◌, ==_refl, nat_eq, string_eq,
  option_eq,
}
use provisioned_throughput.Base.Counts.{find-In}
use provisioned_throughput.Base.Dict
use provisioned_throughput.Base.Dict.{Dict}
use provisioned_throughput.Base.Result.{Result, ok, err, panicked, err-ne-ok, panicked-ne-ok, ok-eq}
use provisioned_throughput.Core.{Tier, Shape}
use provisioned_throughput.Capacity.{PoolShare, pools_for, pool_id}
use provisioned_throughput.Planner.{PlanError, PoolView}
use provisioned_throughput.Planner.Memory.{reserve, reserve_all, commit}
use provisioned_throughput.Model.{RegionShare, ProvisionedThroughput, is_live}
use provisioned_throughput.Errors.{ServiceError, validation}
use provisioned_throughput.Store.{update, list_live, values}
use provisioned_throughput.Service.{
  Settings, Service, M, then_do, done, pooled, guard, answered, plan_reserve, held, pool_of,
  on_pools, after_update, write, persist, stamp, tidy_placements,
}
use provisioned_throughput.Service.Lifecycle.{undo, undo_all}
use provisioned_throughput.Service.Queries.{find_live}
use provisioned_throughput.Service.Moves.{
  Draft, then_edit, on_service, placed_or_fail, give_back, leave_old, relocate, in_region,
}
use provisioned_throughput.Service.Update.Kept.{mark, guard-same, relocate-Keeps}
use provisioned_throughput.Service.Moves.ToPool.{
  undone, or_undo, save_move, moved, move_share, move_held, move_to_pool,
}

-- A `HashMap` has one entry to a key, and each reservation is stored under its id.
abbrev pub IsKeyed : Dict String ProvisionedThroughput → Type 0
IsKeyed d = All (λ e. (Dict.get e.0 d ≡ some e.1) × (e.1.id ≡ e.0)) d

-- An error leaves the state as it was.
pub record Spares {S A : Type 0} (s : S) (r : Result ServiceError A × S) : Type 0 where
  pub on_error : (e : ServiceError) → r.0 ≡ err e → r.1 ≡ s

ok-ne-err :
    {A : Type 0} {a : A} {e : ServiceError} → ◌≡◌ {A = Result ServiceError A} (ok a) (err e) → ⊥
ok-ne-err q = cc

panicked-ne-err :
    {A : Type 0} {e : ServiceError} → ◌≡◌ {A = Result ServiceError A} panicked (err e) → ⊥
panicked-ne-err q = cc

pub Spares-ok : {S A : Type 0} (s : S) (a : A) (s' : S) → Spares s (ok a, s')
Spares-ok s a s' = record { on_error = λ e q. absurd (ok-ne-err q) }

pub Spares-err : {S A : Type 0} (s : S) (e : ServiceError) → Spares {A = A} s (err e, s)
Spares-err s e = record { on_error = λ e q. refl }

pub Spares-panicked : {S A : Type 0} (s s' : S) → Spares {A = A} s (panicked, s')
Spares-panicked s s' = record { on_error = λ e q. absurd (panicked-ne-err q) }

leave_old-Spares :
    (c : Settings) (now : ℕ) (tier : Tier) (old : List PoolShare) (region : String)
    (placed : List PoolShare) (d d' : Draft)
    → Spares d (leave_old c now tier old region placed d')
unfolding leave_old give_back
leave_old-Spares c now tier [] region placed d d' = Spares-ok d _ _
leave_old-Spares c now tier (s ∷ rest) region placed d d' = Spares-ok d _ _

relocate-Spares :
    (c : Settings) (now : ℕ) (region : String) (total : ℕ) (to : Option String) (shape : Shape)
    (at : ℕ) (d : Draft)
    → Spares d (relocate c now region total to shape at d)
unfolding relocate plan_reserve reserve
relocate-Spares c now region total to shape at d =
    let m = d.service.planner in
    of_planner (
      reserve_all d.pt.model d.pt.tier shape at m.costs m.schedule
        (record { region = region; pool = to; cus = total } ∷ []) m.pools)
  where
    of_planner :
        (q : Result PlanError (List PoolView × List PoolShare))
        → let (answer, planner) = commit d.service.planner q in
          Spares d (
            then_edit
              (on_service (λ s. answered answer (record s { planner = planner })) d)
              (λ answer. λ d'. then_edit (placed_or_fail answer d') (
                leave_old c now d.pt.tier (on_pools c d.pt (in_region region (held d.pt))) region)))
    of_planner (ok (ps, placed)) =
        leave_old-Spares c now d.pt.tier (on_pools c d.pt (in_region region (held d.pt))) region
          placed d _
    of_planner (err e) = Spares-err d _
    of_planner panicked = Spares-panicked d _

-- The write of a reservation that is stored as it was read succeeds.
persist-written :
    (now : ℕ) (pt pt' : ProvisionedThroughput) (s : Service)
    → Dict.get pt'.id s.store.by_id ≡ some pt
    → (persist now pt.version pt' s).0 ≡ ok (stamp now (tidy_placements pt'))
unfolding persist write after_update update tidy_placements
persist-written now pt pt' s e = rw (persist, write, update, e, ==_refl pt.version) refl

module _ (c : Settings) (now : ℕ) where
  undone_none :
      (pt : ProvisionedThroughput) (s : Service) (e : ServiceError)
      → Spares {A = List PoolShare} s (undone c now pt [] e s)
  unfolding undone undo undo_all
  undone_none pt s e = Spares-err s e

  moved-Spares :
      (pt : ProvisionedThroughput) (s : Service) (r : Result ServiceError (Unit {0}) × Draft)
      → Spares (record { pt = pt; ops = []; service = s }) r
      → r.1.pt.id ≡ pt.id
      → r.1.service.store ≡ s.store
      → Dict.get pt.id s.store.by_id ≡ some pt
      → Spares s (moved c now pt r)
  unfolding moved save_move or_undo
  moved-Spares pt s (ok u, d) h same_id same_store e =
      let found : Dict.get d.pt.id d.service.store.by_id ≡ some pt =
        ap₂ (λ id st. Dict.get id st.by_id) same_id same_store ∙ e in
      saved (persist now pt.version d.pt d.service) (persist-written now pt d.pt d.service found)
    where
      saved :
          {p : ProvisionedThroughput} (q : Result ServiceError ProvisionedThroughput × Service)
          → q.0 ≡ ok p
          → Spares s (then_do (or_undo c now pt d.ops q) (λ saved. done (pooled c saved)))
      saved (ok a, s') e = Spares-ok s _ _
      saved (err x, s') e = absurd (err-ne-ok e)
      saved (panicked, s') e = absurd (panicked-ne-ok e)
  moved-Spares pt s (err e, d) h same_id same_store f =
      subst (λ x. Spares {A = List PoolShare} s (undone c now pt x.ops e x.service))
        (sym (h.on_error e refl)) (undone_none pt s e)
  moved-Spares pt s (panicked, d) h same_id same_store e = Spares-panicked s _

  -- Steps that read, and a last one.
  pub read_then :
      {A B : Type 0} (s : Service) (r : Result ServiceError A × Service) (f : A → M B)
      → r.1 ≡ s
      → ((a : A) → r.0 ≡ ok a → Spares s (f a s))
      → Spares s (then_do r f)
  read_then s (ok a, s') f e next = subst (λ t. Spares s (f a t)) (sym e) (next a refl)
  read_then s (err x, s') f e next = record { on_error = λ y q. e }
  read_then s (panicked, s') f e next = Spares-panicked s s'

  move_share-Spares :
      (pt : ProvisionedThroughput) (region pool : String) (share : RegionShare) (s : Service)
      → Dict.get pt.id s.store.by_id ≡ some pt
      → Spares s (move_share c now pt region pool share s)
  unfolding move_share
  move_share-Spares pt region pool share s e =
      let d : Draft = record { pt = pt; ops = []; service = s } in
      let at = max pt.term_start now in
      let same =
        (relocate-Keeps c now region share.cus (some pool) pt.shape at (mark d) d refl).same in
      moved-Spares pt s (relocate c now region share.cus (some pool) pt.shape at d)
        (relocate-Spares c now region share.cus (some pool) pt.shape at d) (ap (λ m. m.0.id) same)
        (ap (λ m. m.1.1) same) e

  move_held-Spares :
      (pt : ProvisionedThroughput) (region pool : String) (share : Option RegionShare) (s : Service)
      → Dict.get pt.id s.store.by_id ≡ some pt
      → Spares s (move_held c now pt region pool share s)
  unfolding move_held
  move_held-Spares pt region pool none s e = Spares-err s _
  move_held-Spares pt region pool (some share) s e =
      let offered = any (λ p. pool_id p == pool) (pools_for c.offer.capacity region pt.model) in
      read_then s (guard offered (validation "pool") s) _ (guard-same offered (validation "pool") s)
        (λ u q. elim (Bool-cases (pool_of c pt region == some pool)) [
          | inl t ↦ rw t (Spares-ok s _ _)
          | inr f ↦ rw f (move_share-Spares pt region pool share s e)
        ])

-- A live reservation that is found is the one stored under its id.
find_live-stored :
    (id : String) (s : Service) (pt : ProvisionedThroughput)
    → IsKeyed s.store.by_id
    → (find_live id s).0 ≡ ok pt
    → Dict.get pt.id s.store.by_id ≡ some pt
unfolding find_live list_live
find_live-stored id s pt k e = elim (Option-cases (find (λ pt. pt.id == id) (list_live s.store))) [
  | inl n ↦ absurd (err-ne-ok (rw (find_live, n) at e))
  | inr (q, found) ↦
      let same : q ≡ pt = ok-eq (rw (find_live, found) at e) in
      let live = (find-In (λ pt. pt.id == id) q (list_live s.store) found).0 in
      let held_in = (In-filter_into (λ pt. is_live pt.state) q (values s.store.by_id) live).0 in
      rw (← same) (at_key q s.store.by_id s.store.by_id k held_in)
]
  where
    at_key :
        (q : ProvisionedThroughput) (d all : Dict String ProvisionedThroughput)
        → All (λ e. (Dict.get e.0 all ≡ some e.1) × (e.1.id ≡ e.0)) d
        → In q (values d)
        → Dict.get q.id all ≡ some q
    at_key q [] all k i = absurd i
    at_key q (x ∷ rest) all k (inl e) =
        subst (λ p. Dict.get p.id all ≡ some p) (sym e)
          (subst (λ i. Dict.get i all ≡ some x.1) (sym k.0.1) k.0.0)
    at_key q (x ∷ rest) all k (inr i) = at_key q rest all k.1 i

find_live-same : (id : String) (s : Service) → (find_live id s).1 ≡ s
unfolding find_live
find_live-same id s = elim (Option-cases (find (λ pt. pt.id == id) (list_live s.store))) [
  | inl n ↦ rw (find_live, n) refl
  | inr (q, found) ↦ rw (find_live, found) refl
]

-- A move to another pool that fails changes nothing, when no other client writes while it runs: it has
-- then failed before any call of the planner succeeded. Each reservation is stored under its id, once.
move_to_pool-unchanged :
    (c : Settings) (now : ℕ) (id region pool : String) (s s' : Service) (e : ServiceError)
    → IsKeyed s.store.by_id
    → move_to_pool c now id region pool s ≡ (err e, s')
    → s' ≡ s
unfolding move_to_pool
move_to_pool-unchanged c now id region pool s s' e k h =
    let spared : Spares s (move_to_pool c now id region pool s) =
      read_then c now s (find_live id s) _ (find_live-same id s)
        (λ pt q. move_held-Spares c now pt region pool _ s (find_live-stored id s pt k q)) in
    sym (ap (λ r. r.1) h) ∙ spared.on_error e (ap (λ r. r.0) h)
