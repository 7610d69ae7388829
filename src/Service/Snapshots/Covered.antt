-- ===== src/Service/Snapshots/Covered.antt =====
-- The failover headroom is enough for each failure of one region, and for what a snapshot promises.
use Prim.Native.String.{compare}
use Prim.Native.Nat.{Ordering}
use provisioned_throughput.Base.{
  ℕ, ◌≡◌, ◌≤◌, refl, sym, ◌∙◌, ap, subst, ◌&&◌, List, [], ◌∷◌, String, inl, inr, arith, max, All,
  In, Bool-cases, &&-eq_true, ◌==◌, ==_iff, ==_refl, string_eq, if◌then◌else◌,
}
use provisioned_throughput.Base.Distinct.{Apart}
use provisioned_throughput.Model.{
  RegionShare, Sku, regional, multi_region, ProvisionedThroughput, effective,
}
use provisioned_throughput.Failover.{
  RegionConfig, cus_of, has_region, failover_targets, merge, absorb, insert_by_region,
  sort_by_region, headroom,
}
use provisioned_throughput.Failover.Growth.{AreDistinct}
use provisioned_throughput.Validate.{is_multi_region}
use provisioned_throughput.Service.Snapshots.{shares_for, failover_shares}

merge-le :
    (r : String) (s : RegionShare) (out : List RegionShare)
    → cus_of r out ≤ cus_of r (merge max s out)
unfolding merge cus_of
merge-le r s [] = ground arith
merge-le r s (x ∷ rest) = ground (arith, merge-le r s rest)

merge-own : (s : RegionShare) (out : List RegionShare) → s.cus ≤ cus_of s.region (merge max s out)
unfolding merge cus_of
merge-own s [] = ground (arith, ==_refl s.region)
merge-own s (x ∷ rest) = ground (arith, merge-own s rest)

absorb-le :
    (r : String) (regions : List RegionShare) (ts : List (String × String)) (out : List RegionShare)
    → cus_of r out ≤ cus_of r (absorb regions ts out)
unfolding absorb
absorb-le r regions [] out = omega arith
absorb-le r regions ((from, to) ∷ rest) out =
    let s : RegionShare = record { region = to; cus = cus_of from regions } in
    omega (arith, merge-le r s out, absorb-le r regions rest (merge max s out))

absorb-covers :
    (from to : String) (regions : List RegionShare) (ts : List (String × String))
    (out : List RegionShare)
    → In (from, to) ts
    → cus_of from regions ≤ cus_of to (absorb regions ts out)
unfolding absorb
absorb-covers from to regions [] out i = absurd i
absorb-covers from to regions ((f, t) ∷ rest) out (inr i) =
    absorb-covers from to regions rest
      (merge max (record { region = t; cus = cus_of f regions }) out) i
absorb-covers from to regions ((f, t) ∷ rest) out (inl e) =
    let s : RegionShare = record { region = t; cus = cus_of f regions } in
    let own = merge-own s out in
    let grows = absorb-le t regions rest (merge max s out) in
    subst (λ p. cus_of p.0 regions ≤ cus_of p.1 (absorb regions rest (merge max s out))) (sym e)
      (omega (arith, own, grows))

-- A region stays apart from others when shares are merged.
merge-Apart :
    (f : ℕ → ℕ → ℕ) (x s : RegionShare) (out : List RegionShare)
    → Apart (λ s. s.region) x s
    → All (Apart (λ s. s.region) x) out
    → All (Apart (λ s. s.region) x) (merge f s out)
unfolding merge
merge-Apart f x s [] h k = (h, tt)
merge-Apart f x s (y ∷ rest) h k = elim (Bool-cases (y.region == s.region)) [
  | inl t ↦ rw (merge, t) k
  | inr e ↦ rw (merge, e) (k.0, merge-Apart f x s rest h k.1)
]

merge-AreDistinct :
    (f : ℕ → ℕ → ℕ) (s : RegionShare) (out : List RegionShare)
    → AreDistinct out
    → AreDistinct (merge f s out)
unfolding merge
merge-AreDistinct f s [] d = (tt, tt)
merge-AreDistinct f s (y ∷ rest) d = elim (Bool-cases (y.region == s.region)) [
  | inl t ↦ rw (merge, t) d
  | inr e ↦ rw (merge, e) (merge-Apart f y s rest e d.0, merge-AreDistinct f s rest d.1)
]

absorb-AreDistinct :
    (regions : List RegionShare) (ts : List (String × String)) (out : List RegionShare)
    → AreDistinct out
    → AreDistinct (absorb regions ts out)
unfolding absorb
absorb-AreDistinct regions [] out d = d
absorb-AreDistinct regions ((from, to) ∷ rest) out d =
    absorb-AreDistinct regions rest _ (merge-AreDistinct max _ out d)

-- Either branch of a comparison.
either :
    {A : Type 0} (P : A → Type 0) (o : Ordering) (a b : A)
    → P a
    → P b
    → P (elim o [ Ordering.lt ↦ a | _ ↦ b ])
either P Ordering.lt a b h k = h
either P Ordering.eq a b h k = k
either P Ordering.gt a b h k = k

insert-cus_of :
    (r : String) (s : RegionShare) (xs : List RegionShare)
    → All (Apart (λ s. s.region) s) xs
    → cus_of r (insert_by_region s xs) ≡ cus_of r (s ∷ xs)
unfolding insert_by_region cus_of
insert-cus_of r s [] h = refl
insert-cus_of r s (x ∷ rest) h =
    let ih = insert-cus_of r s rest h.1 in
    let apart = h.0 in
    either (λ ys. cus_of r ys ≡ cus_of r (s ∷ x ∷ rest)) (compare x.region s.region)
      (x ∷ insert_by_region s rest) (s ∷ x ∷ rest)
      (ground (arith, ==_iff x.region r, ==_iff s.region r, ==_iff s.region x.region)) refl

insert-Apart :
    (x s : RegionShare) (xs : List RegionShare)
    → Apart (λ s. s.region) x s
    → All (Apart (λ s. s.region) x) xs
    → All (Apart (λ s. s.region) x) (insert_by_region s xs)
unfolding insert_by_region
insert-Apart x s [] h k = (h, tt)
insert-Apart x s (y ∷ rest) h k =
    either (All (Apart (λ s. s.region) x)) (compare y.region s.region) _ (s ∷ y ∷ rest)
      (k.0, insert-Apart x s rest h k.1) (h, k)

sort-Apart :
    (x : RegionShare) (xs : List RegionShare)
    → All (Apart (λ s. s.region) x) xs
    → All (Apart (λ s. s.region) x) (sort_by_region xs)
unfolding sort_by_region
sort-Apart x [] k = tt
sort-Apart x (s ∷ rest) k = insert-Apart x s (sort_by_region rest) k.0 (sort-Apart x rest k.1)

sort-cus_of :
    (r : String) (xs : List RegionShare)
    → AreDistinct xs
    → cus_of r (sort_by_region xs) ≡ cus_of r xs
unfolding sort_by_region cus_of
sort-cus_of r [] d = refl
sort-cus_of r (s ∷ rest) d =
    insert-cus_of r s (sort_by_region rest) (sort-Apart s rest d.0)
    ∙ ap (λ n. if s.region == r then s.cus else n) (sort-cus_of r rest d.1)

-- The target of each region's failover holds headroom for the whole share of that region.
headroom-covers :
    (config : List RegionConfig) (regions : List RegionShare) (from to : String)
    → In (from, to) (failover_targets config regions)
    → cus_of from regions ≤ cus_of to (headroom config multi_region regions)
unfolding headroom
headroom-covers config regions from to i =
    let ts = failover_targets config regions in
    let covered = absorb-covers from to regions ts [] i in
    let sorted = sort-cus_of to (absorb regions ts []) (absorb-AreDistinct regions ts [] tt) in
    omega (arith, covered, sorted)

shares_for-covered :
    (region : String) (regions : List RegionShare) (n : ℕ) (ts : List (String × String))
    → ((from : String) → In (from, region) ts → cus_of from regions ≤ n)
    → All (λ f. f.cus ≤ n) (shares_for region regions ts)
unfolding shares_for
shares_for-covered region regions n [] h = tt
shares_for-covered region regions n ((from, to) ∷ rest) h =
    let ih = shares_for-covered region regions n rest (λ f i. h f (inr i)) in
    elim (Bool-cases (to == region && has_region from regions)) [
      | inr e ↦ rw (shares_for, e) ih
      | inl t ↦
          let same : to ≡ region = (==_iff to region).0 (&&-eq_true _ _ t).0 in
          rw (shares_for, t) (h from (inl (ap (λ x. (from, x)) (sym same))), ih)
    ]

-- What a snapshot lets a reservation use in a region when another fails, is covered by the headroom
-- for the reservation's effective split.
pub failover_shares-covered :
    (config : List RegionConfig) (pt : ProvisionedThroughput) (region : String)
    → All
        (λ f. f.cus ≤ cus_of region (headroom config pt.sku (effective pt)))
        (failover_shares config pt region)
unfolding failover_shares
failover_shares-covered config pt region = by_sku pt.sku
  where
    by_sku :
        (sku : Sku)
        → All
            (λ f. f.cus ≤ cus_of region (headroom config sku (effective pt)))
            (if is_multi_region sku
              then shares_for region (effective pt) (failover_targets config (effective pt))
              else [])
    by_sku regional = tt
    by_sku multi_region =
        shares_for-covered region (effective pt) _ (failover_targets config (effective pt))
          (λ from i. headroom-covers config (effective pt) from region i)
