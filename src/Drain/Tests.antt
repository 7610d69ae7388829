-- ===== src/Drain/Tests.antt =====
-- A pool with one pod on a node that drains and one on a node that drains expedited.
use provisioned_throughput.Base.{
  ◌≡◌, ◌↔◌, In, refl, true, false, some, List, [], ◌∷◌, String, string_eq, arith, length, filter,
}
use provisioned_throughput.Base.Dict.{Dict}
use provisioned_throughput.Drain.{
  RoleReplicas, Role, WorkerPod, NodeState, assess, add_surge, room_for,
}
use provisioned_throughput.Drain.Surge.{IsTotal, Granted, add_surge-Granted}
use provisioned_throughput.Drain.Visits.{leaves}
use provisioned_throughput.Drain.Hosts.{On, rushes, assess-nodes}
use provisioned_throughput.Drain.Assess.{wants, role_of, assess-counts}

abbrev pod : String → Role → WorkerPod
pod node role = record { node = node; role = role; terminating = false; ready = true }

abbrev pods : List WorkerPod
pods = pod "n1" Role.decode ∷ pod "n2" Role.prefill ∷ pod "n3" Role.decode ∷ []

abbrev nodes : Dict String NodeState
nodes =
    ("n1", record { unschedulable = true; expedite = false })
    ∷ ("n2", record { unschedulable = true; expedite = true })
    ∷ []

assess-counts_example :
    IsTotal (assess pods nodes).surge
    × (role_of Role.decode (assess pods nodes).surge
        ≡ length (filter (wants nodes Role.decode) pods))
assess-counts_example = assess-counts pods nodes Role.decode (omega arith)

assess-nodes_example :
    (In "n2" (assess pods nodes).nodes ↔ On nodes (leaves nodes) pods "n2")
    × (In "n2" (assess pods nodes).expedited ↔ On nodes (rushes nodes) pods "n2")
assess-nodes_example = assess-nodes pods nodes "n2"

abbrev desired : RoleReplicas
desired = record { aggregated = 0; prefill = 2; decode = 3; total = 5 }

abbrev wanted : RoleReplicas
wanted = record { aggregated = 0; prefill = 2; decode = 1; total = 3 }

-- A limit of seven leaves room for two of the three.
add_surge-Granted_example :
    let (out, added) = add_surge desired wanted (some 7) in
    Granted desired wanted (room_for desired (some 7)) out added
add_surge-Granted_example = add_surge-Granted desired wanted (some 7) refl refl (omega arith)
