-- ===== src/Drain/Assess.antt =====
-- The counts that `assess` (crates/pt-operator/src/drain.rs) finds.

use provisioned_throughput.Base.{
  ℕ, ◌+◌, ◌≤◌, ◌≡◌, refl, ◌∙◌, Bool, true, false, not, ◌&&◌, List, [], ◌∷◌, String, string_eq, inl,
  inr, arith, length, filter, Bool-cases, if◌then◌else◌,
}
use provisioned_throughput.Base.Words.{u32_max, w32}
use provisioned_throughput.Base.Dict.{Dict}
use provisioned_throughput.Drain.{
  RoleReplicas, no_replicas, Role, WorkerPod, NodeState, Drain, count_role, visit, visit_all,
  assess,
}
use provisioned_throughput.Drain.Surge.{IsTotal}
use provisioned_throughput.Drain.Visits.{leaves, hurries, Visited, stays, surged, hurried, visited}

abbrev pub role_of : Role → RoleReplicas → ℕ
role_of Role.aggregated r = r.aggregated
role_of Role.prefill r = r.prefill
role_of Role.decode r = r.decode

abbrev is_role : Role → Role → Bool
is_role Role.aggregated Role.aggregated = true
is_role Role.prefill Role.prefill = true
is_role Role.decode Role.decode = true
is_role _ _ = false

one_more :
    (r k : Role) (s : RoleReplicas)
    → IsTotal s
    → s.total + 1 ≤ u32_max
    → IsTotal (count_role k s)
      × ((count_role k s).total ≡ s.total + 1)
      × (role_of r (count_role k s) ≡ role_of r s + (if is_role r k then 1 else 0))
unfolding count_role w32
one_more Role.aggregated Role.aggregated s t b = (omega arith, omega arith, omega arith)
one_more Role.aggregated Role.prefill s t b = (omega arith, omega arith, omega arith)
one_more Role.aggregated Role.decode s t b = (omega arith, omega arith, omega arith)
one_more Role.prefill Role.aggregated s t b = (omega arith, omega arith, omega arith)
one_more Role.prefill Role.prefill s t b = (omega arith, omega arith, omega arith)
one_more Role.prefill Role.decode s t b = (omega arith, omega arith, omega arith)
one_more Role.decode Role.aggregated s t b = (omega arith, omega arith, omega arith)
one_more Role.decode Role.prefill s t b = (omega arith, omega arith, omega arith)
one_more Role.decode Role.decode s t b = (omega arith, omega arith, omega arith)

module _ (nodes : Dict String NodeState) where
  -- A replica of the role is wanted in its place.
  abbrev pub wants : Role → WorkerPod → Bool
  wants r p = (leaves nodes p && not (hurries nodes p)) && is_role r p.role

  -- One visit, on the counts.
  counted :
      (r : Role) (p : WorkerPod) (d : Drain) {d' : Drain}
      → IsTotal d.surge
      → d.surge.total + 1 ≤ u32_max
      → Visited nodes p d d'
      → IsTotal d'.surge
        × (d'.surge.total ≤ d.surge.total + 1)
        × (role_of r d'.surge ≡ role_of r d.surge + (if wants r p then 1 else 0))
  counted r p d t b (stays l) = (t, omega arith, rw l (omega arith))
  counted r p d t b (hurried l h) = (t, omega arith, rw (l, h) (omega arith))
  counted r p d t b (surged l h) =
      let (total, more, grown) = one_more r p.role d.surge t b in
      (total, omega arith, rw (l, h) grown)

  count_all :
      (r : Role) (ps : List WorkerPod) (d : Drain)
      → IsTotal d.surge
      → d.surge.total + length ps ≤ u32_max
      → IsTotal (visit_all nodes ps d).surge
        × (role_of r (visit_all nodes ps d).surge
            ≡ role_of r d.surge + length (filter (wants r) ps))
  unfolding visit_all
  count_all r [] d t b = (t, omega arith)
  count_all r (p ∷ ps) d t b =
      let (t', less, grown) = counted r p d t (omega arith) (visited nodes p d) in
      let (total, rest) = count_all r ps (visit nodes p d) t' (omega arith) in
      (
        total,
        elim (Bool-cases (wants r p)) [
          | inl w ↦ rw w (
              let one : role_of r (visit nodes p d).surge ≡ role_of r d.surge + 1 =
                grown ∙ (rw w refl) in
              omega arith)
          | inr w ↦ rw w (
              let same : role_of r (visit nodes p d).surge ≡ role_of r d.surge + 0 =
                grown ∙ (rw w refl) in
              omega arith)
        ],
      )

-- The surge is one replica of the same role for each worker pod that is not being deleted and stands
-- on a cordoned node without an expedited drain, when the number of pods fits in a word; its total is
-- the sum of the roles.
pub assess-counts :
    (pods : List WorkerPod) (nodes : Dict String NodeState) (r : Role)
    → length pods ≤ u32_max
    → IsTotal (assess pods nodes).surge
      × (role_of r (assess pods nodes).surge ≡ length (filter (wants nodes r) pods))
unfolding assess
assess-counts pods nodes r b =
    let (total, count) =
      count_all nodes r pods (record { surge = no_replicas; nodes = []; expedited = [] }) refl
        (omega arith) in
    (total, count ∙ zero_plus r)
  where
    zero_plus : {k : ℕ} (r : Role) → role_of r no_replicas + k ≡ k
    zero_plus Role.aggregated = omega arith
    zero_plus Role.prefill = omega arith
    zero_plus Role.decode = omega arith
