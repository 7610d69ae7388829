-- ===== src/Service/Runs.antt =====
-- What an operation of the service leaves behind, on every branch: a predicate of the state after it
-- and of the value it returns, composed along the operation's steps.
use provisioned_throughput.Base.{
  ℕ, ◌≡◌, refl, sym, ap, subst, Bool, true, false, Option, some, String, ◌⊎◌, inl, inr, Bool-cases,
  Option-cases, ◌==◌, string_eq, nat_eq, some-eq,
}
use provisioned_throughput.Base.Dict
use provisioned_throughput.Base.Dict.{get-insert}
use provisioned_throughput.Base.Result.{Result, ok, err, panicked, err-ne-ok, panicked-ne-ok}
use provisioned_throughput.Model.{ProvisionedThroughput, is_live}
use provisioned_throughput.Errors.{ServiceError, conflict}
use provisioned_throughput.Store
use provisioned_throughput.Store.{MemoryStore, StoreError, update, not_found, version_conflict}
use provisioned_throughput.Service.{
  Service, M, then_do, get, check_version, load_live, bump, after_update, write, stamp,
  tidy_placements, persist, guard, done,
}

abbrev pub Returns : {A : Type 0} → (A → Type 0) → Result ServiceError A → Type 0
Returns Q (ok a) = Q a
Returns Q (err e) = Unit
Returns Q panicked = Unit

-- The state satisfies `I`, and the value, when there is one, `Q`.
abbrev pub Leaves :
    {A : Type 0} → (Service → Type 0) → (A → Type 0) → Result ServiceError A × Service → Type 0
Leaves I Q r = I r.1 × Returns Q r.0

-- One step and then the rest; when the step fails, its own state has to do.
pub then_do-Leaves :
    {A B : Type 0} (I J : Service → Type 0) (Q : A → Type 0) (R : B → Type 0)
    (r : Result ServiceError A × Service) (f : A → M B)
    → ((s : Service) → I s → J s)
    → Leaves I Q r
    → ((a : A) (s : Service) → Q a → I s → Leaves J R (f a s))
    → Leaves J R (then_do r f)
then_do-Leaves I J Q R (ok a, s) f weaken h next = next a s h.1 h.0
then_do-Leaves I J Q R (err e, s) f weaken h next = (weaken s h.0, tt)
then_do-Leaves I J Q R (panicked, s) f weaken h next = (weaken s h.0, tt)

-- The same, where every step keeps the same predicate.
pub bind-Leaves :
    {A B : Type 0} (I : Service → Type 0) (Q : A → Type 0) (R : B → Type 0)
    (r : Result ServiceError A × Service) (f : A → M B)
    → Leaves I Q r
    → ((a : A) (s : Service) → Q a → I s → Leaves I R (f a s))
    → Leaves I R (then_do r f)
bind-Leaves I Q R r f h next = then_do-Leaves I I Q R r f (λ s i. i) h next

pub guard-Leaves :
    (I : Service → Type 0) (b : Bool) (e : ServiceError) (s : Service)
    → I s
    → Leaves I (λ u. b ≡ true) (guard b e s)
guard-Leaves I true e s h = (h, refl)
guard-Leaves I false e s h = (h, tt)

pub lift-Leaves :
    {A : Type 0} (I : Service → Type 0) (r : Result ServiceError A) (s : Service)
    → I s
    → Leaves I (λ a. r ≡ ok a) (r, s)
lift-Leaves I (ok a) s h = (h, refl)
lift-Leaves I (err e) s h = (h, tt)
lift-Leaves I panicked s h = (h, tt)

-- A run of steps that returns a value ran its first step.
pub then_do-ok :
    {A B : Type 0} {b : B} {s' : Service} (r : Result ServiceError A × Service) (f : A → M B)
    → then_do r f ≡ (ok b, s')
    → (a : A) × (s : Service) × (r ≡ (ok a, s)) × (f a s ≡ (ok b, s'))
then_do-ok (ok a, s) f e = (a, s, refl, e)
then_do-ok (err x, s) f e = absurd (err-ne-ok (ap (λ r. r.0) e))
then_do-ok (panicked, s) f e = absurd (panicked-ne-ok (ap (λ r. r.0) e))

pub guard-ok :
    (b : Bool) (e : ServiceError) (u : Unit {0}) (s s' : Service)
    → guard b e s ≡ (ok u, s')
    → s ≡ s'
guard-ok true e u s s' h = ap (λ r. r.1) h
guard-ok false e u s s' h = absurd (err-ne-ok (ap (λ r. r.0) h))

-- Every stored reservation satisfies `P`.
abbrev pub Stored : (ProvisionedThroughput → Type 0) → Service → Type 0
Stored P s = (id : String) (pt : ProvisionedThroughput) → Dict.get id s.store.by_id ≡ some pt → P pt

-- A write is refused and changes nothing, or it puts the reservation in its place.
pub update-cases :
    (pt : ProvisionedThroughput) (expected : ℕ) (st : MemoryStore)
    → ((e : StoreError) × (update pt expected st ≡ (err e, st)))
      ⊎ (update pt expected st ≡ (ok tt, record st { by_id = Dict.insert pt.id pt st.by_id }))
unfolding update
update-cases pt expected st = elim (Option-cases (Dict.get pt.id st.by_id)) [
  | inl n ↦ inl (not_found pt.id, rw (update, n) refl)
  | inr (old, e) ↦ elim (Bool-cases (old.version == expected)) [
    | inl t ↦ inr (rw (update, e, t) refl)
    | inr f ↦ inl (version_conflict pt.id, rw (update, e, f) refl)
  ]
]

module _ (P : ProvisionedThroughput → Type 0) where
  -- A reservation that is read satisfies it.
  pub get-Stored :
      (tenant id : String) (s : Service) → Stored P s → Leaves (Stored P) P (get tenant id s)
  unfolding get Store.get
  get-Stored tenant id s h = elim (Option-cases (Dict.get id s.store.by_id)) [
    | inl n ↦ rw (get, Store.get, n) (h, tt)
    | inr (pt, e) ↦ elim (Bool-cases (pt.tenant == tenant)) [
      | inl t ↦ rw (get, Store.get, e, t) (h, h id pt e)
      | inr f ↦ rw (get, Store.get, e, f) (h, tt)
    ]
  ]

  pub load_live-Stored :
      (tenant id : String) (if_match : Option ℕ) (s : Service)
      → Stored P s
      → Leaves (Stored P) (λ pt. P pt × (is_live pt.state ≡ true)) (load_live tenant id if_match s)
  unfolding load_live
  load_live-Stored tenant id if_match s h =
      bind-Leaves (Stored P) P (λ pt. P pt × (is_live pt.state ≡ true)) (get tenant id s) _
        (get-Stored tenant id s h)
        (λ pt s p i.
          bind-Leaves (Stored P) (λ u. check_version pt if_match ≡ ok u)
            (λ pt. P pt × (is_live pt.state ≡ true)) (check_version pt if_match, s) _
            (lift-Leaves (Stored P) (check_version pt if_match) s i)
            (λ u s q i.
              bind-Leaves (Stored P) (λ u. is_live pt.state ≡ true)
                (λ pt. P pt × (is_live pt.state ≡ true))
                (guard (is_live pt.state) (conflict "inactive") s) (λ u. done pt)
                (guard-Leaves (Stored P) (is_live pt.state) (conflict "inactive") s i)
                (λ u s t i. (i, (p, t)))))

  -- What is written satisfies it, so everything stored does still.
  pub write-Stored :
      (expected : ℕ) (pt : ProvisionedThroughput) (s : Service)
      → Stored P s
      → P pt
      → Leaves (Stored P) (λ u. Unit {0}) (write expected pt s)
  unfolding write after_update
  write-Stored expected pt s h p = elim (update-cases pt expected s.store) [
    | inl (e, refused) ↦
        subst (λ r. Leaves (Stored P) (λ u. Unit {0}) (after_update s r)) (sym refused) (h, tt)
    | inr written ↦
        subst (λ r. Leaves (Stored P) (λ u. Unit {0}) (after_update s r)) (sym written) (all_of, tt)
  ]
    where
      all_of :
          (id : String) (q : ProvisionedThroughput)
          → Dict.get id (Dict.insert pt.id pt s.store.by_id) ≡ some q
          → P q
      all_of id q e = elim (Bool-cases (pt.id == id)) [
        | inl t ↦ subst P (some-eq (rw (get-insert pt.id id pt s.store.by_id, t) at e)) p
        | inr f ↦ h id q (rw (get-insert pt.id id pt s.store.by_id, f) at e)
      ]

  -- A new version of the store's contents leaves the reservations.
  pub bump-Stored : (now : ℕ) (s : Service) → Stored P s → Stored P (bump now s)
  unfolding bump Store.bump_version
  bump-Stored now s h = h

  pub persist-Stored :
      (now expected : ℕ) (pt : ProvisionedThroughput) (s : Service)
      → Stored P s
      → P (stamp now (tidy_placements pt))
      → Leaves (Stored P) P (persist now expected pt s)
  unfolding persist
  persist-Stored now expected pt s h p =
      let saved = stamp now (tidy_placements pt) in
      bind-Leaves (Stored P) (λ u. Unit {0}) P (write expected saved s) _
        (write-Stored expected saved s h p) (λ u s q i. (bump-Stored now s i, p))
