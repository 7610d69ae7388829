-- ===== src/Drain.antt =====
-- Surge before a drain (crates/pt-operator/src/drain.rs): the worker pods of a pool that stand on
-- cordoned nodes, the replicas added while they leave, and the pause of sales. `RoleReplicas` is in
-- crates/pt-crds/src/pool.rs, and `Role` in crates/pt-operator/src/render.rs. The `HashMap` of the
-- nodes is an association list, and a `BTreeSet` is the list of its elements in their order.
pub mod Surge
pub mod Visits
pub mod Assess
pub mod Hosts
pub mod Hold
pub mod Tests
use Prim.Native.String.{compare}
use Prim.Native.Nat.{Ordering}
use mathlib.Core.Option
use provisioned_throughput.Base.{
  ℕ, ◌+◌, ◌-◌, min, Bool, true, false, not, Option, none, some, List, [], ◌∷◌, String, ◌==◌,
  string_eq, if◌then◌else◌, unwrap_or, map,
}
use provisioned_throughput.Base.Words.{u32_max, w32}
use provisioned_throughput.Base.Dict
use provisioned_throughput.Base.Dict.{Dict}

-- `RoleReplicas`
pub record RoleReplicas : Type 0 where
  pub aggregated : ℕ
  pub prefill : ℕ
  pub decode : ℕ
  pub total : ℕ

abbrev pub no_replicas : RoleReplicas
no_replicas = record { aggregated = 0; prefill = 0; decode = 0; total = 0 }

-- `Role`
pub data Role : Type 0 where
  aggregated prefill decode : Role

-- `WorkerPod`
pub record WorkerPod : Type 0 where
  pub node : String
  pub role : Role
  pub terminating : Bool
  pub ready : Bool

-- `NodeState`
pub record NodeState : Type 0 where
  pub unschedulable : Bool
  pub expedite : Bool

-- `Drain`
pub record Drain : Type 0 where
  pub surge : RoleReplicas
  pub nodes : List String
  pub expedited : List String

-- `BTreeSet::insert`
unfoldable pub set_insert : String → List String → List String
set_insert x [] = x ∷ []
set_insert x (y ∷ ys) =
    let rest = set_insert x ys in
    elim (compare x y) [ Ordering.lt ↦ x ∷ y ∷ ys | Ordering.eq ↦ y ∷ ys | Ordering.gt ↦ y ∷ rest ]

-- One more replica of the role.
unfoldable pub count_role : Role → RoleReplicas → RoleReplicas
count_role Role.aggregated r = record r {
  aggregated = w32 (r.aggregated + 1);
  total = w32 (r.total + 1);
}
count_role Role.prefill r = record r { prefill = w32 (r.prefill + 1); total = w32 (r.total + 1) }
count_role Role.decode r = record r { decode = w32 (r.decode + 1); total = w32 (r.total + 1) }

-- The state of the pod's node, if it is cordoned.
unfoldable pub cordoned : Dict String NodeState → WorkerPod → Option NodeState
cordoned nodes p = elim (Dict.get p.node nodes) [
  | none ↦ none
  | some n ↦ if n.unschedulable then some n else none
]

-- One round of the loop of `assess`.
unfoldable pub visit : Dict String NodeState → WorkerPod → Drain → Drain
unfolding count_role cordoned
visit nodes p d = if p.terminating then d else elim (cordoned nodes p) [
  | none ↦ d
  | some n ↦
      if n.expedite
      then record d { nodes = set_insert p.node d.nodes; expedited = set_insert p.node d.expedited }
      else record d { nodes = set_insert p.node d.nodes; surge = count_role p.role d.surge }
]

unfoldable pub visit_all : Dict String NodeState → List WorkerPod → Drain → Drain
unfolding visit
visit_all nodes [] d = d
visit_all nodes (p ∷ ps) d = visit_all nodes ps (visit nodes p d)

-- `assess`
unfoldable pub assess : List WorkerPod → Dict String NodeState → Drain
unfolding visit_all
assess pods nodes =
    visit_all nodes pods (record { surge = no_replicas; nodes = []; expedited = [] })

-- `room` in `add_surge`
unfoldable pub room_for : RoleReplicas → Option ℕ → ℕ
room_for desired none = u32_max
room_for desired (some m) = m - desired.total

-- What the closure `take` grants of `n`, and the room that it leaves.
unfoldable pub take : ℕ → ℕ → ℕ × ℕ
take n room = (min n room, room - min n room)

-- `add_surge`: the replicas with the surge, and the surge that was added.
unfoldable pub add_surge : RoleReplicas → RoleReplicas → Option ℕ → RoleReplicas × RoleReplicas
unfolding room_for take
add_surge desired surge limit =
    let (decoders, room1) = take surge.decode (room_for desired limit) in
    let (prefillers, room2) = take surge.prefill room1 in
    let (aggregates, _) = take surge.aggregated room2 in
    let added : RoleReplicas = record {
      aggregated = aggregates;
      prefill = prefillers;
      decode = decoders;
      total = w32 (w32 (aggregates + prefillers) + decoders);
    } in
    (
      record {
        aggregated = w32 (desired.aggregated + aggregates);
        prefill = w32 (desired.prefill + prefillers);
        decode = w32 (desired.decode + decoders);
        total = w32 (desired.total + added.total);
      },
      added,
    )

-- `SalesHold`
pub data SalesHold : Type 0 where
  place lift nothing : SalesHold

-- `sales_hold`
unfoldable pub sales_hold : Drain → Bool → SalesHold
sales_hold d was_expedited = elim d.expedited [
  | [] ↦ if was_expedited then lift else nothing
  | x ∷ xs ↦ place
]
