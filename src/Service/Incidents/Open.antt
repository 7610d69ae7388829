-- ===== src/Service/Incidents/Open.antt =====
-- At most one incident is open in a region.
use provisioned_throughput.Base.{
  ◌≡◌, sym, ◌∙◌, true, false, ◌&&◌, none, List, [], ◌∷◌, inl, inr, arith, any, leb, All, Bool-cases,
  ◌==◌, string_eq, true-ne-false, none-ne-some,
}
use provisioned_throughput.Base.Distinct.{All-weaken, ==-false_sym}
use provisioned_throughput.Model.Requests.{RegionIncident}
use provisioned_throughput.Store.{
  insert_started, insert_incident, replace_incident, update_incident,
}
use provisioned_throughput.Service.{Service}
use provisioned_throughput.Service.Runs.{Leaves}
use provisioned_throughput.Service.Incidents.{
  is_open, open_in, inserted, insert_new, updated, write_incident,
}

-- The two are not both open in one region.
abbrev Agree : RegionIncident → RegionIncident → Type 0
Agree i j = is_open i ≡ true → is_open j ≡ true → (i.region == j.region) ≡ false

abbrev OneOpen : List RegionIncident → Type 0
OneOpen [] = Unit
OneOpen (i ∷ rest) = All (Agree i) rest × OneOpen rest

abbrev pub IsQuiet : Service → Type 0
IsQuiet s = OneOpen s.store.incidents

Agree-sym : (i j : RegionIncident) → Agree i j → Agree j i
Agree-sym i j h oj oi = ==-false_sym i.region j.region (h oi oj)

All-insert_started :
    (P : RegionIncident → Type 0) (i : RegionIncident) (xs : List RegionIncident)
    → P i
    → All P xs
    → All P (insert_started i xs)
unfolding insert_started
All-insert_started P i [] p h = (p, tt)
All-insert_started P i (j ∷ rest) p h = elim (Bool-cases (leb j.started_at i.started_at)) [
  | inl e ↦ rw (insert_started, e) (h.0, All-insert_started P i rest p h.1)
  | inr e ↦ rw (insert_started, e) (p, h)
]

OneOpen-insert_started :
    (i : RegionIncident) (xs : List RegionIncident)
    → All (Agree i) xs
    → OneOpen xs
    → OneOpen (insert_started i xs)
unfolding insert_started
OneOpen-insert_started i [] a o = (tt, tt)
OneOpen-insert_started i (j ∷ rest) a o = elim (Bool-cases (leb j.started_at i.started_at)) [
  | inl e ↦
      rw (insert_started, e)
        (
          All-insert_started (Agree j) i rest (Agree-sym i j a.0) o.0,
          OneOpen-insert_started i rest a.1 o.1,
        )
  | inr e ↦ rw (insert_started, e) (a, o)
]

-- A closed incident agrees with every other.
closed-Agree : (i j : RegionIncident) → is_open i ≡ false → Agree j i
closed-Agree i j e oj oi = absurd (true-ne-false (sym oi ∙ e))

All-replace :
    (P : RegionIncident → Type 0) (i : RegionIncident) (xs : List RegionIncident)
    → P i
    → All P xs
    → All P (replace_incident i xs)
unfolding replace_incident
All-replace P i [] p h = tt
All-replace P i (j ∷ rest) p h = elim (Bool-cases (j.id == i.id)) [
  | inl e ↦ rw (replace_incident, e) (p, h.1)
  | inr e ↦ rw (replace_incident, e) (h.0, All-replace P i rest p h.1)
]

OneOpen-replace :
    (i : RegionIncident) (xs : List RegionIncident)
    → is_open i ≡ false
    → OneOpen xs
    → OneOpen (replace_incident i xs)
unfolding replace_incident
OneOpen-replace i [] e o = tt
OneOpen-replace i (j ∷ rest) closed o = elim (Bool-cases (j.id == i.id)) [
  | inl e ↦
      rw (replace_incident, e)
        (
          All-weaken (Agree j) (Agree i) rest
              (λ k a oi ok. absurd (true-ne-false (sym oi ∙ closed))) o.0,
          o.1,
        )
  | inr e ↦
      rw (replace_incident, e)
        (
          All-replace (Agree j) i rest (closed-Agree i j closed) o.0,
          OneOpen-replace i rest closed o.1,
        )
]

-- Where no incident is open in a region, a new one agrees with all.
pub open_in-none :
    (i : RegionIncident) (xs : List RegionIncident) → open_in i.region xs ≡ none → All (Agree i) xs
unfolding open_in
open_in-none i [] e = tt
open_in-none i (j ∷ rest) e = elim (Bool-cases (j.region == i.region && is_open j)) [
  | inl t ↦ absurd (none-ne-some (sym (rw (open_in, t) at e)))
  | inr f ↦ (
    λ oi oj. ==-false_sym j.region i.region (ground arith),
    open_in-none i rest (rw (open_in, f) at e),
  )
]

pub insert_new-IsQuiet :
    (i : RegionIncident) (s : Service)
    → IsQuiet s
    → All (Agree i) s.store.incidents
    → Leaves IsQuiet (λ u. Unit {0}) (insert_new i s)
unfolding insert_new inserted insert_incident
insert_new-IsQuiet i s q a = elim (Bool-cases (any (λ j. j.id == i.id) s.store.incidents)) [
  | inl t ↦ rw (insert_new, insert_incident, t) (q, tt)
  | inr f ↦ rw (insert_new, insert_incident, f) (OneOpen-insert_started i s.store.incidents a q, tt)
]

pub write_incident-IsQuiet :
    (i : RegionIncident) (s : Service)
    → IsQuiet s
    → is_open i ≡ false
    → Leaves IsQuiet (λ u. Unit {0}) (write_incident i s)
unfolding write_incident updated update_incident
write_incident-IsQuiet i s q closed =
    elim (Bool-cases (any (λ j. j.id == i.id) s.store.incidents)) [
      | inl t ↦
          rw (write_incident, update_incident, t) (OneOpen-replace i s.store.incidents closed q, tt)
      | inr f ↦ rw (write_incident, update_incident, f) (q, tt)
    ]
