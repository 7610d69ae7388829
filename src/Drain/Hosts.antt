-- ===== src/Drain/Hosts.antt =====
-- The nodes that `assess` (crates/pt-operator/src/drain.rs) finds.
use Prim.Native.String.{compare}
use Prim.Native.Nat.{Ordering}
use text.Mathlib.TextEquality.{path_by_compare}
use provisioned_throughput.Base.{
  ◌≡◌, refl, sym, ◌∙◌, ap, Bool, true, false, ◌&&◌, List, [], ◌∷◌, String, string_eq, ◌⊎◌, inl, inr,
  ◌↔◌, In, true-ne-false,
}
use provisioned_throughput.Base.Dict.{Dict}
use provisioned_throughput.Drain.{
  no_replicas, WorkerPod, NodeState, Drain, set_insert, visit, visit_all, assess,
}
use provisioned_throughput.Drain.Visits.{leaves, hurries, Visited, stays, surged, hurried, visited}

-- A set keeps what it had and has what was inserted.
module _ (n x : String) where
  In-set_insert_into : (ys : List String) → In n (set_insert x ys) → (n ≡ x) ⊎ In n ys
  unfolding set_insert
  In-set_insert_into [] i = i
  In-set_insert_into (y ∷ ys) i = cases (compare x y) i (In-set_insert_into ys)
    where
      cases :
          (o : Ordering)
          → In n (elim o [
            | Ordering.lt ↦ x ∷ y ∷ ys
            | Ordering.eq ↦ y ∷ ys
            | Ordering.gt ↦ y ∷ set_insert x ys
          ])
          → (In n (set_insert x ys) → (n ≡ x) ⊎ In n ys)
          → (n ≡ x) ⊎ In n (y ∷ ys)
      cases Ordering.lt i ih = i
      cases Ordering.eq i ih = inr i
      cases Ordering.gt (inl e) ih = inr (inl e)
      cases Ordering.gt (inr i) ih = elim (ih i) [ inl e ↦ inl e | inr j ↦ inr (inr j) ]

  In-set_insert_back : (ys : List String) → (n ≡ x) ⊎ In n ys → In n (set_insert x ys)
  unfolding set_insert
  In-set_insert_back [] i = i
  In-set_insert_back (y ∷ ys) i =
      cases (compare x y) (path_by_compare x y) i (In-set_insert_back ys)
    where
      cases :
          (o : Ordering)
          → (o ≡ Ordering.eq → x ≡ y)
          → (n ≡ x) ⊎ In n (y ∷ ys)
          → ((n ≡ x) ⊎ In n ys → In n (set_insert x ys))
          → In n (elim o [
            | Ordering.lt ↦ x ∷ y ∷ ys
            | Ordering.eq ↦ y ∷ ys
            | Ordering.gt ↦ y ∷ set_insert x ys
          ])
      cases Ordering.lt same i ih = i
      cases Ordering.eq same (inl e) ih = inl (e ∙ same refl)
      cases Ordering.eq same (inr j) ih = j
      cases Ordering.gt same (inl e) ih = inr (ih (inl e))
      cases Ordering.gt same (inr (inl e)) ih = inl e
      cases Ordering.gt same (inr (inr j)) ih = inr (ih (inr j))

module _ (nodes : Dict String NodeState) where
  -- A pod of the list passes the test and stands on the node.
  abbrev pub On : (WorkerPod → Bool) → List WorkerPod → String → Type 0
  On f ps n = (p : WorkerPod) × In p ps × (f p ≡ true) × (n ≡ p.node)

  -- The pods whose node hurries.
  abbrev pub rushes : WorkerPod → Bool
  rushes p = leaves nodes p && hurries nodes p

  -- What one visit does to the two sets.
  abbrev Adds : (WorkerPod → Bool) → WorkerPod → String → List String → List String → Type 0
  Adds f p n before after = In n after ↔ (((f p ≡ true) × (n ≡ p.node)) ⊎ In n before)

  unchanged :
      (f : WorkerPod → Bool) (p : WorkerPod) (n : String) (set : List String)
      → f p ≡ false
      → Adds f p n set set
  unchanged f p n set no_one =
      (λ i. inr i, λ c. elim c [ inl x ↦ absurd (true-ne-false (sym x.0 ∙ no_one)) | inr i ↦ i ])

  inserted :
      (f : WorkerPod → Bool) (p : WorkerPod) (n : String) (set : List String)
      → f p ≡ true
      → Adds f p n set (set_insert p.node set)
  inserted f p n set yes_one = (
    λ i. elim (In-set_insert_into n p.node set i) [ inl e ↦ inl (yes_one, e) | inr j ↦ inr j ],
    λ c. In-set_insert_back n p.node set (elim c [ inl x ↦ inl x.1 | inr j ↦ inr j ]),
  )

  adds :
      (p : WorkerPod) (d : Drain) (n : String) {d' : Drain}
      → Visited nodes p d d'
      → Adds (leaves nodes) p n d.nodes d'.nodes × Adds rushes p n d.expedited d'.expedited
  adds p d n (stays l) =
      (unchanged (leaves nodes) p n d.nodes l, unchanged rushes p n d.expedited (rw l refl))
  adds p d n (surged l h) =
      (inserted (leaves nodes) p n d.nodes l, unchanged rushes p n d.expedited (rw (l, h) refl))
  adds p d n (hurried l h) =
      (inserted (leaves nodes) p n d.nodes l, inserted rushes p n d.expedited (rw (l, h) refl))

  -- From one pod to the list of them.
  gather :
      (f : WorkerPod → Bool) (p : WorkerPod) (ps : List WorkerPod) (n : String)
      (before after final : List String)
      → Adds f p n before after
      → (In n final ↔ (On f ps n ⊎ In n after))
      → In n final ↔ (On f (p ∷ ps) n ⊎ In n before)
  gather f p ps n before after final one rest = (
    λ i. elim (rest.0 i) [
      | inl (q, j, t, e) ↦ inl (q, inr j, t, e)
      | inr j ↦ elim (one.0 j) [ inl x ↦ inl (p, inl refl, x.0, x.1) | inr k ↦ inr k ]
    ],
    λ c. rest.1 (elim c [
      | inl (q, inl same, t, e) ↦ inr (one.1 (inl (sym (ap f same) ∙ t, e ∙ ap (λ q. q.node) same)))
      | inl (q, inr j, t, e) ↦ inl (q, j, t, e)
      | inr k ↦ inr (one.1 (inr k))
    ]),
  )

  found_all :
      (ps : List WorkerPod) (d : Drain) (n : String)
      → let final = visit_all nodes ps d in
        (In n final.nodes ↔ (On (leaves nodes) ps n ⊎ In n d.nodes))
        × (In n final.expedited ↔ (On rushes ps n ⊎ In n d.expedited))
  unfolding visit_all
  found_all [] d n = (
    (λ i. inr i, λ c. elim c [ inl x ↦ absurd x.1 | inr i ↦ i ]),
    (λ i. inr i, λ c. elim c [ inl x ↦ absurd x.1 | inr i ↦ i ]),
  )
  found_all (p ∷ ps) d n =
      let one = adds p d n (visited nodes p d) in
      let rest = found_all ps (visit nodes p d) n in
      (gather (leaves nodes) p ps n _ _ _ one.0 rest.0, gather rushes p ps n _ _ _ one.1 rest.1)

-- The nodes reported are exactly those that are cordoned and host a pod that is not being deleted,
-- and those reported as expedited are exactly the ones among them that ask for it.
pub assess-nodes :
    (pods : List WorkerPod) (nodes : Dict String NodeState) (n : String)
    → (In n (assess pods nodes).nodes ↔ On nodes (leaves nodes) pods n)
      × (In n (assess pods nodes).expedited ↔ On nodes (rushes nodes) pods n)
unfolding assess
assess-nodes pods nodes n =
    let (a, b) =
      found_all nodes pods (record { surge = no_replicas; nodes = []; expedited = [] }) n in
    (
      (λ i. elim (a.0 i) [ inl x ↦ x | inr e ↦ absurd e ], λ x. a.1 (inl x)),
      (λ i. elim (b.0 i) [ inl x ↦ x | inr e ↦ absurd e ], λ x. b.1 (inl x)),
    )
