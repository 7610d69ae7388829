-- ===== src/Store/Writes.antt =====
-- Optimistic concurrency: a reservation that was loaded, and the store later on.
use provisioned_throughput.Base.{
  some-eq, none-ne-some, ℕ, ◌≤◌, ◌<◌, ◌≡◌, refl, sym, ◌∙◌, ap, true, false, none, some, String, inl,
  inr, arith, Bool-cases, Option-cases, ◌==◌, ==_iff, string_eq, nat_eq,
}
use provisioned_throughput.Base.Dict
use provisioned_throughput.Base.Dict.{get-insert}
use provisioned_throughput.Base.Result.{ok, err-ne-ok}
use provisioned_throughput.Model.{ProvisionedThroughput}
use provisioned_throughput.Store.{MemoryStore, insert, update}

-- One step of any client of the store: it inserts, it replaces a reservation by one of a larger
-- version, or it does something else, which leaves the reservations alone.
pub data Write (s : MemoryStore) : MemoryStore → Type 0 where
  inserted : (pt : ProvisionedThroughput) → (insert pt s).0 ≡ ok tt → Write s (insert pt s).1
  updated :
      (pt : ProvisionedThroughput) (expected : ℕ)
      → expected < pt.version
      → (update pt expected s).0 ≡ ok tt
      → Write s (update pt expected s).1
  elsewhere : (s' : MemoryStore) → s'.by_id ≡ s.by_id → Write s s'

pub data Writes (s : MemoryStore) : MemoryStore → Type 0 where
  here : Writes s s
  next : {t u : MemoryStore} → Writes s t → Write t u → Writes s u

-- The reservation `a` under `id`, or a later one that has a larger version.
abbrev Since : String → ProvisionedThroughput → MemoryStore → Type 0
Since id a s =
    (b : ProvisionedThroughput) × (Dict.get id s.by_id ≡ some b)
    × (a.version ≤ b.version)
    × (a.version ≡ b.version → a ≡ b)

-- What an insert and an update that succeed found and left.
insert-ok :
    (pt : ProvisionedThroughput) (s : MemoryStore)
    → (insert pt s).0 ≡ ok tt
    → (Dict.get pt.id s.by_id ≡ none) × ((insert pt s).1.by_id ≡ Dict.insert pt.id pt s.by_id)
unfolding insert
insert-ok pt s e = elim (Option-cases (Dict.get pt.id s.by_id)) [
  | inl q ↦ (q, rw (q, insert) refl)
  | inr (b, q) ↦ absurd (err-ne-ok (rw (q, insert) at e))
]

update-ok :
    (pt : ProvisionedThroughput) (expected : ℕ) (s : MemoryStore)
    → (update pt expected s).0 ≡ ok tt
    → (b : ProvisionedThroughput) × (Dict.get pt.id s.by_id ≡ some b)
      × (b.version ≡ expected)
      × ((update pt expected s).1.by_id ≡ Dict.insert pt.id pt s.by_id)
unfolding update
update-ok pt expected s e = elim (Option-cases (Dict.get pt.id s.by_id)) [
  | inl q ↦ absurd (err-ne-ok (rw (q, update) at e))
  | inr (b, q) ↦ elim (Bool-cases (b.version == expected)) [
    | inl t ↦ (b, q, (==_iff b.version expected).0 t, rw (q, t, update) refl)
    | inr f ↦ absurd (err-ne-ok (rw (q, f, update) at e))
  ]
]

get-other :
    (id : String) (pt : ProvisionedThroughput) (s s' : MemoryStore)
    → s'.by_id ≡ Dict.insert pt.id pt s.by_id
    → (pt.id == id) ≡ false
    → Dict.get id s'.by_id ≡ Dict.get id s.by_id
get-other id pt s s' e f = ap (Dict.get id) e ∙ get-insert pt.id id pt s.by_id ∙ (rw f refl)

get-same :
    (id : String) (pt : ProvisionedThroughput) (s s' : MemoryStore)
    → s'.by_id ≡ Dict.insert pt.id pt s.by_id
    → (pt.id == id) ≡ true
    → Dict.get id s'.by_id ≡ some pt
get-same id pt s s' e t = ap (Dict.get id) e ∙ get-insert pt.id id pt s.by_id ∙ (rw t refl)

Since-Write :
    (id : String) (a : ProvisionedThroughput) {s s' : MemoryStore}
    → Write s s'
    → Since id a s
    → Since id a s'
Since-Write id a {s} (elsewhere s' e) (b, at, le, same) = (b, ap (Dict.get id) e ∙ at, le, same)
Since-Write id a {s} (inserted pt done) (b, at, le, same) =
    let (free, left) = insert-ok pt s done in
    elim (Bool-cases (pt.id == id)) [
      | inl t ↦
          absurd
            (none-ne-some (sym free ∙ ap (λ k. Dict.get k s.by_id) ((==_iff pt.id id).0 t) ∙ at))
      | inr f ↦ (b, get-other id pt s (insert pt s).1 left f ∙ at, le, same)
    ]
Since-Write id a {s} (updated pt expected grows done) (b, at, le, same) =
    let (c, found, version, left) = update-ok pt expected s done in
    elim (Bool-cases (pt.id == id)) [
      | inl t ↦
          let equal : b ≡ c =
            some-eq (sym at ∙ ap (λ k. Dict.get k s.by_id) (sym ((==_iff pt.id id).0 t)) ∙ found) in
          let versions : b.version ≡ c.version = ap (λ x. x.version) equal in
          (
            pt,
            get-same id pt s (update pt expected s).1 left t,
            omega arith,
            λ e. absurd (omega arith),
          )
      | inr f ↦ (b, get-other id pt s (update pt expected s).1 left f ∙ at, le, same)
    ]

Since-Writes :
    (id : String) (a : ProvisionedThroughput) {s s' : MemoryStore}
    → Dict.get id s.by_id ≡ some a
    → Writes s s'
    → Since id a s'
Since-Writes id a at here = (a, at, omega arith, λ _. refl)
Since-Writes id a at (next run w) = Since-Write id a w (Since-Writes id a at run)

-- No update is lost: a client loads the reservation `a`, any clients write to the store, and the
-- client then replaces the reservation under the version that it loaded. If that succeeds, the
-- reservation that it replaced is still `a`, when every update stores a larger version than the one
-- it expected.
pub update-load :
    (a pt : ProvisionedThroughput) {s s' : MemoryStore}
    → Dict.get pt.id s.by_id ≡ some a
    → Writes s s'
    → (update pt a.version s').0 ≡ ok tt
    → Dict.get pt.id s'.by_id ≡ some a
update-load a pt {s} {s'} at run done =
    let (b, found, le, same) = Since-Writes pt.id a at run in
    let (c, found', version, left) = update-ok pt a.version s' done in
    let equal : c ≡ b = some-eq (sym found' ∙ found) in
    let versions : c.version ≡ b.version = ap (λ x. x.version) equal in
    found ∙ ap some (sym (same (omega arith)))
