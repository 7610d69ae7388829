-- ===== src/Service/Moves/Sums.antt =====
-- The CUs of a list of shares, and what grows between two lists.

use provisioned_throughput.Base.{
  ℕ, ◌+◌, ◌-◌, ◌≡◌, refl, sym, ◌∙◌, ap, subst, true, false, some, List, [], ◌∷◌, String, inl, inr,
  arith, All, In, All-In, ltb, ltb→lt, Bool-cases, ◌==◌, ==_iff, string_eq, if◌then◌else◌,
}
use provisioned_throughput.Base.Distinct.{Apart, ==-false_sym}
use provisioned_throughput.Capacity.{CapacityConfig, capacity_for}
use provisioned_throughput.Model.{RegionShare}
use provisioned_throughput.Failover.{cus_of, growth}
use provisioned_throughput.Failover.Growth.{AreDistinct}
use provisioned_throughput.Service.{Settings}
use provisioned_throughput.Service.Moves.{in_region, total_in}

-- The shares' CUs in a region, of a list that may name it more than once.
abbrev pub sum_of : String → List RegionShare → ℕ
sum_of r [] = 0
sum_of r (s ∷ rest) = (if s.region == r then s.cus else 0) + sum_of r rest

-- A pool of the region serves the model.
abbrev pub IsOffered : Settings → String → String → Type 0
IsOffered c model region =
    (p : CapacityConfig) × (capacity_for c.offer.capacity region model ≡ some p)

abbrev pub AreOffered : Settings → String → List RegionShare → Type 0
AreOffered c model = All (λ s. IsOffered c model s.region)

sum_of-absent :
    (s : RegionShare) (rest : List RegionShare)
    → All (Apart (λ s. s.region) s) rest
    → sum_of s.region rest ≡ 0
sum_of-absent s [] h = refl
sum_of-absent s (x ∷ rest) h =
    rw (==-false_sym s.region x.region h.0) (omega (arith, sum_of-absent s rest h.1))

pub sum_of-cus_of :
    (r : String) (xs : List RegionShare) → AreDistinct xs → sum_of r xs ≡ cus_of r xs
unfolding cus_of
sum_of-cus_of r [] d = refl
sum_of-cus_of r (s ∷ rest) d = elim (Bool-cases (s.region == r)) [
  | inr f ↦ rw (cus_of, f) (omega (arith, sum_of-cus_of r rest d.1))
  | inl t ↦
      let gone : sum_of r rest ≡ 0 =
        subst (λ x. sum_of x rest ≡ 0) ((==_iff s.region r).0 t) (sum_of-absent s rest d.0) in
      rw (cus_of, t) (omega (arith, gone))
]

-- A predicate of regions holds of what grows when it holds of the new shares.
pub All-growth :
    (P : String → Type 0) (old new : List RegionShare)
    → All (λ s. P s.region) new
    → All (λ s. P s.region) (growth old new)
unfolding growth
All-growth P old [] h = tt
All-growth P old (n ∷ rest) h = elim (Bool-cases (ltb (cus_of n.region old) n.cus)) [
  | inl t ↦ rw (growth, t) (h.0, All-growth P old rest h.1)
  | inr f ↦ rw (growth, f) (All-growth P old rest h.1)
]

pub growth-AreDistinct :
    (old new : List RegionShare) → AreDistinct new → AreDistinct (growth old new)
unfolding growth
growth-AreDistinct old [] d = tt
growth-AreDistinct old (n ∷ rest) d = elim (Bool-cases (ltb (cus_of n.region old) n.cus)) [
  | inl t ↦
      rw (growth, t)
        (All-growth (λ r. (n.region == r) ≡ false) old rest d.0, growth-AreDistinct old rest d.1)
  | inr f ↦ rw (growth, f) (growth-AreDistinct old rest d.1)
]

pub in_region-sum :
    (r region : String) (xs : List RegionShare)
    → sum_of r (in_region region xs) ≡ (if region == r then sum_of r xs else 0)
unfolding in_region
in_region-sum r region [] = ground arith
in_region-sum r region (s ∷ rest) =
    ground (
      arith,
      in_region-sum r region rest,
      ==_iff s.region region,
      ==_iff region r,
      ==_iff s.region r,
    )

-- The target's share of a region is found by the region.
total_in-In :
    (g n : RegionShare) (target : List RegionShare)
    → AreDistinct target
    → In n target
    → g.region ≡ n.region
    → total_in g target ≡ n.cus
unfolding total_in
total_in-In g n [] d i e = absurd i
total_in-In g n (t ∷ rest) d (inl q) e =
    let here : (t.region == g.region) ≡ true =
      (==_iff t.region g.region).1 (ap (λ s. s.region) (sym q) ∙ sym e) in
    rw (total_in, here) (ap (λ s. s.cus) (sym q))
total_in-In g n (t ∷ rest) d (inr i) e =
    let apart : (t.region == n.region) ≡ false = All-In (Apart (λ s. s.region) t) n rest d.0 i in
    let off : (t.region == g.region) ≡ false = rw e apart in
    rw (total_in, off) (total_in-In g n rest d.1 i e)

-- With what was held, what a region grows by makes the target.
abbrev pub Fills : List RegionShare → List RegionShare → RegionShare → Type 0
Fills before target g = cus_of g.region before + g.cus ≡ total_in g target

pub growth-Fills :
    (before target new : List RegionShare)
    → AreDistinct target
    → ((n : RegionShare) → In n new → In n target)
    → All (Fills before target) (growth before new)
unfolding growth
growth-Fills before target [] d h = tt
growth-Fills before target (n ∷ rest) d h =
    let ih = growth-Fills before target rest d (λ m i. h m (inr i)) in
    elim (Bool-cases (ltb (cus_of n.region before) n.cus)) [
      | inr f ↦ rw (growth, f) ih
      | inl t ↦
          let g : RegionShare = record {
            region = n.region;
            cus = n.cus - cus_of n.region before;
          } in
          let total = total_in-In g n target d (h n (inl refl)) refl in
          let less = ltb→lt (cus_of n.region before) n.cus t in
          rw (growth, t) (omega (arith, total, less), ih)
    ]
