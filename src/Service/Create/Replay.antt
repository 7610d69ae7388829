-- ===== src/Service/Create/Replay.antt =====
-- A repeated creation.
use provisioned_throughput.Base.{
  ℕ, ◌≡◌, refl, sym, ◌∙◌, ap, subst, true, false, Option, none, some, List, String, ◌⊎◌, inl, inr,
  Bool-cases, Option-cases, ◌==◌, ==_iff, ==_refl, string_eq, pair_eq,
}
use provisioned_throughput.Base.Dict
use provisioned_throughput.Base.Dict.{get-insert}
use provisioned_throughput.Base.Result.{Result, ok, err, panicked, ok-eq, err-ne-ok}
use provisioned_throughput.Capacity.{PoolShare}
use provisioned_throughput.Planner.{PlanError, Claim}
use provisioned_throughput.Planner.Memory.{reserve}
use provisioned_throughput.Core.{Tier, Shape}
use provisioned_throughput.Model.{RegionShare, ProvisionedThroughput}
use provisioned_throughput.Failover.{headroom, footprint}
use provisioned_throughput.Model.Requests.{CreateRequest}
use provisioned_throughput.Errors.{conflict}
use provisioned_throughput.Store
use provisioned_throughput.Store.{
  MemoryStore, StoreError, IdempotencyRecord, idempotency_get, idempotency_put, already_exists,
}
use provisioned_throughput.Validate
use provisioned_throughput.Service.{
  Settings, Service, get, answered, plan_reserve, ensure_name_free, record_placed, bump, bump_now,
  unplaced, done, ◌>>◌,
}
use provisioned_throughput.Service.Runs.{then_do-ok, guard-ok}
use provisioned_throughput.Service.Holds.{sales_open}
use provisioned_throughput.Service.Create.{
  CreateOutcome, Draw, start_of, new_reservation, or_capacity, after_insert, insert_or_release,
  remember, replay, store_new, create_new, recorded, create,
}

-- The store has the reservation of the tenant, under the id that the key's record names.
record Remembered (tenant key fingerprint : String) (pt : ProvisionedThroughput)
    (store : MemoryStore) : Type 0 where
  id : String
  noted :
      idempotency_get tenant key store
      ≡ some (record { resource_id = id; fingerprint = fingerprint })
  stored : Store.get tenant id store ≡ some pt

-- A reservation that is inserted can be read, and no idempotency key changes.
insert-get :
    (tenant : String) (pt : ProvisionedThroughput) (placed : List PoolShare) (s s' : Service)
    → pt.tenant ≡ tenant
    → insert_or_release pt placed s ≡ (ok tt, s')
    → (Store.get tenant pt.id s'.store ≡ some pt) × (s'.store.idempotency ≡ s.store.idempotency)
unfolding insert_or_release after_insert Store.insert Store.get
insert-get tenant pt placed s s' owned e = elim (Option-cases (Dict.get pt.id s.store.by_id)) [
  | inr (q, found) ↦
      absurd (err-ne-ok (ap (λ r. r.0) (rw (insert_or_release, Store.insert, found) at e)))
  | inl n ↦
      let left = ap (λ r. r.1.store) (rw (insert_or_release, Store.insert, n) at e) in
      let same : (pt.tenant == tenant) ≡ true = (==_iff pt.tenant tenant).1 owned in
      (
        subst (λ st. Store.get tenant pt.id st ≡ some pt) left
            (rw (Store.get, get-insert pt.id pt.id pt s.store.by_id, ==_refl pt.id, same) refl),
        sym (ap (λ st. st.idempotency) left),
      )
]

answered-state :
    {A : Type 0} (r : Result PlanError A) (s s' : Service) (a : PlanError ⊎ A)
    → answered r s ≡ (ok a, s')
    → s ≡ s'
answered-state (ok x) s s' a e = ap (λ r. r.1) e
answered-state (err x) s s' a e = ap (λ r. r.1) e
answered-state panicked s s' a e = ap (λ r. r.1) e

-- Asking the planner leaves the store.
plan_reserve-store :
    (model : String) (tier : Tier) (claims : List Claim) (shape : Shape) (at : ℕ) (s s' : Service)
    (a : PlanError ⊎ List PoolShare)
    → plan_reserve model tier claims shape at s ≡ (ok a, s')
    → s'.store ≡ s.store
unfolding plan_reserve
plan_reserve-store model tier claims shape at s s' a e =
    let (answer, planner) = reserve s.planner model tier claims shape at in
    sym (ap (λ t. t.store) (answered-state answer (record s { planner = planner }) s' a e))

or_capacity-state :
    {A : Type 0} (x : PlanError ⊎ A) (a : A) (s s' : Service)
    → or_capacity x s ≡ (ok a, s')
    → s ≡ s'
or_capacity-state (inl x) a s s' e = absurd (err-ne-ok (ap (λ r. r.0) e))
or_capacity-state (inr x) a s s' e = ap (λ r. r.1) e

-- What is remembered is recorded, when the key was not taken.
remember-recorded :
    (tenant key id fingerprint : String) (s s' : Service) (u : Unit {0})
    → idempotency_get tenant key s.store ≡ none
    → remember tenant (some key) id fingerprint s ≡ (ok u, s')
    → (idempotency_get tenant key s'.store
        ≡ some (record { resource_id = id; fingerprint = fingerprint }))
      × (s'.store.by_id ≡ s.store.by_id)
unfolding remember idempotency_get idempotency_put
remember-recorded tenant key id fingerprint s s' u free e =
    let note : IdempotencyRecord = record { resource_id = id; fingerprint = fingerprint } in
    let d = s.store.idempotency in
    let absent : Dict.get (tenant, key) d ≡ none = free in
    let left = ap (λ r. r.1.store) (rw (remember, idempotency_put, absent) at e) in
    (
      subst (λ st. idempotency_get tenant key st ≡ some note) left
          (get-insert (tenant, key) (tenant, key) note d
            ∙ (rw (==_refl {A = String × String} (tenant, key)) refl)),
      sym (ap (λ st. st.by_id) left),
    )

get-stored :
    (tenant id : String) (pt : ProvisionedThroughput) (s s' : Service)
    → get tenant id s ≡ (ok pt, s')
    → (Store.get tenant id s.store ≡ some pt) × (s ≡ s')
unfolding get
get-stored tenant id pt s s' e = elim (Option-cases (Store.get tenant id s.store)) [
  | inl n ↦ absurd (err-ne-ok (ap (λ r. r.0) (rw (get, n) at e)))
  | inr (q, found) ↦
      let e' = rw (get, found) at e in
      (found ∙ ap some (ok-eq (ap (λ r. r.0) e')), ap (λ r. r.1) e')
]

abbrev Replayed : ProvisionedThroughput → CreateOutcome
Replayed pt = record { resource = pt; api_key = none; replayed = true }

-- A remembered request is answered from its record.
Remembered-create :
    (c : Settings) (draw : Draw) (now : ℕ) (tenant key fingerprint : String) (req : CreateRequest)
    (pt : ProvisionedThroughput) (s : Service)
    → Remembered tenant key fingerprint pt s.store
    → create c draw now tenant (some key) fingerprint req s ≡ (ok (Replayed pt), s)
unfolding create recorded replay get
Remembered-create c draw now tenant key fingerprint req pt s h =
    rw (create, recorded, h.noted, replay, ==_refl fingerprint, get, h.stored) refl

replay-Remembered :
    (tenant key fingerprint : String) (r : IdempotencyRecord) (outcome : CreateOutcome)
    (s s' : Service)
    → idempotency_get tenant key s.store ≡ some r
    → replay tenant fingerprint r s ≡ (ok outcome, s')
    → Remembered tenant key fingerprint outcome.resource s'.store
unfolding replay
replay-Remembered tenant key fingerprint r outcome s s' noted e =
    elim (Bool-cases (r.fingerprint == fingerprint)) [
      | inr f ↦ absurd (err-ne-ok (ap (λ r. r.0) (rw (replay, f) at e)))
      | inl t ↦
          let (pt, s₁, got, e₁) = then_do-ok (get tenant r.resource_id s) _ (rw (replay, t) at e) in
          let (stored, same) = get-stored tenant r.resource_id pt s s₁ got in
          let end : s ≡ s' = same ∙ ap (λ r. r.1) e₁ in
          let out : pt ≡ outcome.resource = ap (λ o. o.resource) (ok-eq (ap (λ r. r.0) e₁)) in
          let print : r.fingerprint ≡ fingerprint = (==_iff r.fingerprint fingerprint).0 t in
          subst (λ t. Remembered tenant key fingerprint outcome.resource t.store) end
            (record {
              id = r.resource_id;
              noted =
                  noted
                  ∙ ap (λ f. some (record { resource_id = r.resource_id; fingerprint = f })) print;
              stored = stored ∙ ap some out;
            })
    ]

sales_open-state :
    (now : ℕ) (model : String) (regions : List RegionShare) (s s' : Service) (u : Unit {0})
    → sales_open now model regions s ≡ (ok u, s')
    → s ≡ s'
unfolding sales_open
sales_open-state now model regions s s' u e = guard-ok _ (conflict "sales_paused") u s s' e

ensure_name_free-state :
    (c : Settings) (tenant name : String) (except : Option String) (s s' : Service) (u : Unit {0})
    → ensure_name_free c tenant name except s ≡ (ok u, s')
    → s ≡ s'
unfolding ensure_name_free
ensure_name_free-state c tenant name except s s' u e = guard-ok _ (conflict "name_taken") u s s' e

get-by_id :
    (tenant id : String) (st st' : MemoryStore)
    → st'.by_id ≡ st.by_id
    → Store.get tenant id st' ≡ Store.get tenant id st
unfolding Store.get
get-by_id tenant id st st' e = ap (λ d. Store.get tenant id (record st { by_id = d })) e

store_new-Remembered :
    (now : ℕ) (tenant key fingerprint secret : String) (placed : List PoolShare)
    (pt : ProvisionedThroughput) (outcome : CreateOutcome) (s s' : Service)
    → pt.tenant ≡ tenant
    → idempotency_get tenant key s.store ≡ none
    → store_new now tenant (some key) fingerprint secret placed pt s ≡ (ok outcome, s')
    → Remembered tenant key fingerprint outcome.resource s'.store
unfolding store_new idempotency_get bump Store.bump_version
store_new-Remembered now tenant key fingerprint secret placed pt outcome s s' owned free e =
    let (u₁, s₁, r₁, e₁) = then_do-ok (insert_or_release pt placed s) _ e in
    let outcome₁ : CreateOutcome = record {
      resource = pt;
      api_key = some secret;
      replayed = false;
    } in
    let (u₂, s₂, r₂, e₂) =
      then_do-ok (remember tenant (some key) pt.id fingerprint s₁)
        (λ u. bump_now now >> done outcome₁) e₁ in
    let (there, keys) = insert-get tenant pt placed s s₁ owned r₁ in
    let open_still : idempotency_get tenant key s₁.store ≡ none =
      ap (Dict.get (tenant, key)) keys ∙ free in
    let (noted, kept) = remember-recorded tenant key pt.id fingerprint s₁ s₂ u₂ open_still r₂ in
    let out : pt ≡ outcome.resource =
      ap (λ o. o.resource) (ok-eq {a = outcome₁} {b = outcome} (ap (λ r. r.0) e₂)) in
    subst (Remembered tenant key fingerprint outcome.resource) (ap (λ r. r.1.store) e₂) (record {
      id = pt.id;
      noted = noted;
      stored = get-by_id tenant pt.id s₁.store (bump now s₂).store kept ∙ there ∙ ap some out;
    })

create_new-Remembered :
    (c : Settings) (draw : Draw) (now : ℕ) (tenant key fingerprint : String) (req : CreateRequest)
    (outcome : CreateOutcome) (s s' : Service)
    → idempotency_get tenant key s.store ≡ none
    → create_new c draw now tenant (some key) fingerprint req s ≡ (ok outcome, s')
    → Remembered tenant key fingerprint outcome.resource s'.store
unfolding create_new record_placed new_reservation
create_new-Remembered c draw now tenant key fingerprint req outcome s s' free e =
    let spare = headroom c.offer.regions req.sku req.regions in
    let claims = unplaced (footprint req.regions spare) in
    let (u₁, s₁, r₁, e₁) = then_do-ok (Validate.create c.offer req, s) _ e in
    let (u₂, s₂, r₂, e₂) = then_do-ok (sales_open now req.model req.regions s₁) _ e₁ in
    let (start, s₃, r₃, e₃) = then_do-ok (start_of now req.start_at, s₂) _ e₂ in
    let (u₄, s₄, r₄, e₄) = then_do-ok (ensure_name_free c tenant req.name none s₃) _ e₃ in
    let (answer, s₅, r₅, e₅) =
      then_do-ok (plan_reserve req.model req.tier claims req.shape start s₄) _ e₄ in
    let (placed, s₆, r₆, e₆) = then_do-ok (or_capacity answer s₅) _ e₅ in
    let before : s ≡ s₄ =
      ap (λ r. r.1) r₁
      ∙ sales_open-state now req.model req.regions s₁ s₂ u₂ r₂
      ∙ ap (λ r. r.1) r₃
      ∙ ensure_name_free-state c tenant req.name none s₃ s₄ u₄ r₄ in
    let asked = plan_reserve-store req.model req.tier claims req.shape start s₄ s₅ answer r₅ in
    let same : s₆.store ≡ s.store =
      ap (λ t. t.store) (sym (or_capacity-state answer placed s₅ s₆ r₆))
      ∙ asked
      ∙ ap (λ t. t.store) (sym before) in
    store_new-Remembered now tenant key fingerprint draw.secret placed
      (record_placed placed (new_reservation c draw now tenant start spare req)) outcome s₆ s' refl
      (ap (idempotency_get tenant key) same ∙ free) e₆

-- A creation with an idempotency key that returns a reservation is not carried out twice: any later
-- creation of the tenant with that key and the same fingerprint returns the same reservation, marked
-- as replayed and without the key's secret, and changes nothing, neither the store nor the planner.
pub create-create :
    (c : Settings) (draw draw' : Draw) (now later : ℕ) (tenant key fingerprint : String)
    (req req' : CreateRequest) (outcome : CreateOutcome) (s s' : Service)
    → create c draw now tenant (some key) fingerprint req s ≡ (ok outcome, s')
    → create c draw' later tenant (some key) fingerprint req' s'
      ≡ (ok (record { resource = outcome.resource; api_key = none; replayed = true }), s')
unfolding create recorded
create-create c draw draw' now later tenant key fingerprint req req' outcome s s' e =
    Remembered-create c draw' later tenant key fingerprint req' outcome.resource s' (
      remembered (elim (Option-cases (idempotency_get tenant key s.store)) [
        | inl n ↦ inl (n, (rw (create, recorded, n) at e))
        | inr (r, q) ↦ inr (r, q, (rw (create, recorded, q) at e))
      ]))
  where
    remembered :
        ((idempotency_get tenant key s.store ≡ none)
            × (create_new c draw now tenant (some key) fingerprint req s ≡ (ok outcome, s')))
          ⊎ ((r : IdempotencyRecord) × (idempotency_get tenant key s.store ≡ some r)
              × (replay tenant fingerprint r s ≡ (ok outcome, s')))
        → Remembered tenant key fingerprint outcome.resource s'.store
    remembered (inl (n, h)) =
        create_new-Remembered c draw now tenant key fingerprint req outcome s s' n h
    remembered (inr (r, q, h)) = replay-Remembered tenant key fingerprint r outcome s s' q h
