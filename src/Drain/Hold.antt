-- ===== src/Drain/Hold.antt =====
-- The pause of sales while a drain is expedited.
use provisioned_throughput.Base.{
  ◌≡◌, refl, Bool, true, false, List, [], ◌∷◌, String, In, inl, ◌↔◌, if◌then◌else◌,
}
use provisioned_throughput.Base.Dict.{Dict}
use provisioned_throughput.Drain.{
  WorkerPod, NodeState, Drain, SalesHold, place, lift, nothing, assess, sales_hold,
}
use provisioned_throughput.Drain.Hosts.{On, rushes, assess-nodes}

hold_iff : (d : Drain) (was : Bool) → (sales_hold d was ≡ place) ↔ ((n : String) × In n d.expedited)
unfolding sales_hold
hold_iff d was = cases d.expedited was
  where
    cases :
        (xs : List String) (was : Bool)
        → (elim xs as (λ _. SalesHold) [ [] ↦ if was then lift else nothing | x ∷ rest ↦ place ]
            ≡ place)
          ↔ ((n : String) × In n xs)
    cases [] true = (λ e. cc, λ i. absurd i.1)
    cases [] false = (λ e. cc, λ i. absurd i.1)
    cases (x ∷ xs) was = (λ e. (x, inl refl), λ i. refl)

-- Sales on a pool are paused exactly while one of its pods that is not being deleted stands on a
-- cordoned node whose drain is expedited, whatever the reconcile before reported.
sales_hold-assess :
    (pods : List WorkerPod) (nodes : Dict String NodeState) (was : Bool)
    → (sales_hold (assess pods nodes) was ≡ place) ↔ ((n : String) × On nodes (rushes nodes) pods n)
sales_hold-assess pods nodes was =
    let (into, back) = hold_iff (assess pods nodes) was in
    (
      λ e. let (n, i) = into e in (n, (assess-nodes pods nodes n).1.0 i),
      λ x. back (x.0, (assess-nodes pods nodes x.0).1.1 x.1),
    )
