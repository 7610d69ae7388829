-- ===== src/Store/Incidents.antt =====
-- The incidents, in the order of their start.
use provisioned_throughput.Base.{
  ℕ, ◌≤◌, ◌≡◌, true, List, [], ◌∷◌, inl, inr, arith, leb, leb→le, any, Bool-cases, ◌==◌, string_eq,
}
use provisioned_throughput.Model.Requests.{RegionIncident}
use provisioned_throughput.Store.{
  MemoryStore, insert_started, insert_incident, replace_incident, update_incident,
}

-- None of the list started before `t`, and each started no later than the next.
abbrev From : ℕ → List RegionIncident → Type 0
From t [] = Unit
From t (i ∷ rest) = (t ≤ i.started_at) × From i.started_at rest

abbrev pub IsSorted : List RegionIncident → Type 0
IsSorted = From 0

insert-From :
    (t : ℕ) (i : RegionIncident) (is : List RegionIncident)
    → t ≤ i.started_at
    → From t is
    → From t (insert_started i is)
unfolding insert_started
insert-From t i [] h s = (h, tt)
insert-From t i (j ∷ rest) h s = elim (Bool-cases (leb j.started_at i.started_at)) [
  | inl e ↦ rw e (s.0, insert-From j.started_at i rest (leb→le _ _ e) s.1)
  | inr e ↦ rw e (h, (ground arith, s.1))
]

-- The start of the incident with the id is not changed.
abbrev SameStart : RegionIncident → List RegionIncident → Type 0
SameStart i [] = Unit
SameStart i (j ∷ rest) = ((j.id == i.id) ≡ true → j.started_at ≡ i.started_at) × SameStart i rest

replace-From :
    (t : ℕ) (i : RegionIncident) (is : List RegionIncident)
    → SameStart i is
    → From t is
    → From t (replace_incident i is)
unfolding replace_incident
replace-From t i [] k s = tt
replace-From t i (j ∷ rest) k s = elim (Bool-cases (j.id == i.id)) [
  | inl e ↦ let same : j.started_at ≡ i.started_at = k.0 e in rw e (omega arith, rw (← same) s.1)
  | inr e ↦ rw e (s.0, replace-From j.started_at i rest k.1 s.1)
]

-- The incidents stay in the order of their start, whatever is inserted and whether or not the insert
-- is refused; and also when one is replaced by one that started at the same time.
incidents-IsSorted :
    (i : RegionIncident) (s : MemoryStore)
    → IsSorted s.incidents
    → SameStart i s.incidents
    → IsSorted (insert_incident i s).1.incidents × IsSorted (update_incident i s).1.incidents
unfolding insert_incident update_incident
incidents-IsSorted i s sorted same = elim (Bool-cases (any (λ j. j.id == i.id) s.incidents)) [
  | inl e ↦ rw e (sorted, replace-From 0 i s.incidents same sorted)
  | inr e ↦ rw e (insert-From 0 i s.incidents (omega arith) sorted, sorted)
]
