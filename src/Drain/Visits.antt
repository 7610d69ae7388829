-- ===== src/Drain/Visits.antt =====
-- What `assess` (crates/pt-operator/src/drain.rs) does at one pod.
use provisioned_throughput.Base.{
  ◌≡◌, refl, sym, Bool, true, false, not, ◌&&◌, Option, none, some, String, string_eq, inl, inr,
  Bool-cases, subst,
}
use provisioned_throughput.Base.Dict
use provisioned_throughput.Base.Dict.{Dict}
use provisioned_throughput.Drain.{
  WorkerPod, NodeState, Drain, set_insert, count_role, cordoned, visit,
}

module _ (nodes : Dict String NodeState) where
  -- The pod is not being deleted, and stands on a cordoned node.
  abbrev pub leaves : WorkerPod → Bool
  leaves p =
      not p.terminating && elim (Dict.get p.node nodes) [ none ↦ false | some n ↦ n.unschedulable ]

  -- Its node asks for an expedited drain.
  abbrev pub hurries : WorkerPod → Bool
  hurries p = elim (Dict.get p.node nodes) [ none ↦ false | some n ↦ n.expedite ]

  pub data Visited (p : WorkerPod) (d : Drain) : Drain → Type 0 where
    stays : leaves p ≡ false → Visited p d d
    surged :
        leaves p ≡ true
        → hurries p ≡ false
        → Visited p d
            (record d { nodes = set_insert p.node d.nodes; surge = count_role p.role d.surge })
    hurried :
        leaves p ≡ true
        → hurries p ≡ true
        → Visited p d (record d {
          nodes = set_insert p.node d.nodes;
          expedited = set_insert p.node d.expedited;
        })

  pub visited : (p : WorkerPod) (d : Drain) → Visited p d (visit nodes p d)
  unfolding visit cordoned
  visited p d = cases p.terminating refl (Dict.get p.node nodes) refl
    where
      is_at : {d' : Drain} → visit nodes p d ≡ d' → Visited p d d' → Visited p d (visit nodes p d)
      is_at e v = subst (Visited p d) (sym e) v

      found :
          (n : NodeState)
          → p.terminating ≡ false
          → Dict.get p.node nodes ≡ some n
          → Visited p d (visit nodes p d)
      found n e g = elim (Bool-cases n.unschedulable) [
        | inl u ↦ elim (Bool-cases n.expedite) [
          | inl x ↦ is_at (rw (e, g, u, x) refl) (hurried (rw (e, g, u) refl) (rw (g, hurries) x))
          | inr x ↦ is_at (rw (e, g, u, x) refl) (surged (rw (e, g, u) refl) (rw (g, hurries) x))
        ]
        | inr u ↦ is_at (rw (e, g, u) refl) (stays (rw (e, g, u) refl))
      ]

      cases :
          (t : Bool)
          → p.terminating ≡ t
          → (g : Option NodeState) → Dict.get p.node nodes ≡ g
          → Visited p d (visit nodes p d)
      cases true e g q = is_at (rw e refl) (stays (rw e refl))
      cases false e none q = is_at (rw (e, q) refl) (stays (rw (e, q) refl))
      cases false e (some n) q = found n e q
