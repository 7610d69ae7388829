-- ===== src/Failover/Growth.antt =====
-- What a change of a reservation's regions reserves and releases.
use provisioned_throughput.Base.{
  ◌+◌, ◌-◌, ◌≡◌, refl, ◌∙◌, ap, false, List, [], ◌∷◌, String, inl, inr, arith, All, ltb, Bool-cases,
  ◌==◌, ==_iff, string_eq,
}
use provisioned_throughput.Base.Distinct.{Distinct, Apart, ==-false_sym}
use provisioned_throughput.Model.{RegionShare}
use provisioned_throughput.Failover.{cus_of, growth}

-- No two shares are of one region.
abbrev pub AreDistinct : List RegionShare → Type 0
AreDistinct shares = Distinct (λ s. s.region) shares

cus_of-absent :
    (n : RegionShare) (rest : List RegionShare)
    → All (Apart (λ s. s.region) n) rest
    → cus_of n.region rest ≡ 0
unfolding cus_of
cus_of-absent n [] h = refl
cus_of-absent n (s ∷ rest) h =
    rw (cus_of, ==-false_sym n.region s.region h.0) (cus_of-absent n rest h.1)

cus_of-growth :
    (r : String) (old new : List RegionShare)
    → AreDistinct new
    → cus_of r (growth old new) ≡ cus_of r new - cus_of r old
unfolding cus_of growth
cus_of-growth r old [] d = omega arith
cus_of-growth r old (n ∷ rest) d =
    let ih = cus_of-growth r old rest d.1 in
    let absent = cus_of-absent n rest d.0 in
    elim (Bool-cases (n.region == r)) [
      | inl t ↦
          let same : n.region ≡ r = (==_iff n.region r).0 t in
          let gone : cus_of r rest ≡ 0 = rw (← same) absent in
          elim (Bool-cases (ltb (cus_of n.region old) n.cus)) [
            | inl g ↦ rw (growth, g, cus_of, t) (ap (λ x. n.cus - cus_of x old) same)
            | inr g ↦
                let small : (ltb (cus_of r old) n.cus) ≡ false = rw (← same) g in
                rw (growth, g, cus_of, t) (ih ∙ ground arith)
          ]
      | inr f ↦ elim (Bool-cases (ltb (cus_of n.region old) n.cus)) [
        | inl g ↦ rw (growth, g, cus_of, f) ih
        | inr g ↦ rw (growth, g, cus_of, f) ih
      ]
    ]

-- For lists that name a region at most once: in every region, what was held and what the change
-- reserves there make what is wanted and what the change releases, so carrying out both leaves
-- exactly the wanted shares.
pub growth-balance :
    (r : String) (old new : List RegionShare)
    → AreDistinct old
    → AreDistinct new
    → cus_of r old + cus_of r (growth old new) ≡ cus_of r new + cus_of r (growth new old)
growth-balance r old new d e =
    let gained = cus_of-growth r old new e in let lost = cus_of-growth r new old d in omega arith
