-- ===== src/Store/Tests.antt =====
-- Writes, leases and incidents on the sample store.
use provisioned_throughput.Base.{ℕ, ◌≡◌, refl, none, some, List, [], ◌∷◌, String, arith, string_eq}
use provisioned_throughput.Base.Dict
use provisioned_throughput.Model.{ProvisionedThroughput}
use provisioned_throughput.Store.{MemoryStore, update}
use provisioned_throughput.Model.Requests.{RegionIncident, IncidentSource}
use provisioned_throughput.Store.{insert, try_lease, is_free}
use provisioned_throughput.Store.Writes.{Write, Writes, update-load}
use provisioned_throughput.Store.Leases.{Attempt, try_lease-exclusive}
use provisioned_throughput.Service.Sample.{sample, stored}

-- Between the load and the update another client inserts a reservation.
abbrev second : ProvisionedThroughput
second = record sample { id = "r2"; name = "chat-2" }

update-load_example : Dict.get "r1" (insert second stored).1.by_id ≡ some sample
unfolding Dict.get Dict.insert update insert
update-load_example =
    update-load sample (record sample { version = 5 }) {s = stored} {s' = (insert second stored).1}
      refl (Writes.next Writes.here (Write.inserted second refl)) refl

abbrev others : List Attempt
others =
    record { name = "background"; holder = "b"; at = 12 }
    ∷ record { name = "background"; holder = "a"; at = 14 }
    ∷ []

abbrev holder : String
holder = "a"

try_lease-exclusive_example : holder ≡ holder
unfolding try_lease is_free Dict.get Dict.insert
try_lease-exclusive_example =
    try_lease-exclusive "background" holder holder 10 18 10 others stored refl
      ((omega arith, omega arith), ((omega arith, omega arith), tt)) (omega arith) refl

abbrev incident : String → ℕ → RegionIncident
incident id t = record {
  id = id;
  region = "eu";
  started_at = t;
  ended_at = none;
  description = "power";
  declared_at = t;
  source = IncidentSource.operator;
}

abbrev with_incidents : MemoryStore
with_incidents = record stored { incidents = incident "i1" 3 ∷ incident "i2" 8 ∷ [] }
