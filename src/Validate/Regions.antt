-- ===== src/Validate/Regions.antt =====
-- What the check of a request's regions lets through.
use provisioned_throughput.Base.{
  ◌≤◌, ◌≡◌, true, false, not, ◌&&◌, ◌||◌, List, [], ◌∷◌, String, inl, inr, arith, All, length, ltb,
  Bool-cases, ◌==◌, string_eq, nat_eq, if◌then◌else◌,
}
use provisioned_throughput.Base.Result.{ok, err, err-ne-ok, bind-ok}
use provisioned_throughput.Base.Distinct.{Distinct, Apart, All-weaken}
use provisioned_throughput.Model.{RegionShare, Sku}
use provisioned_throughput.Errors.{validation}
use provisioned_throughput.Validate.{
  Offer, contains, regions_for, each_region, one_zone, is_multi_region, max_regions, regions,
}
use provisioned_throughput.Validate

-- The share is of a new region that is offered, and of at least one capacity unit.
abbrev pub Fits : List String → List String → RegionShare → Type 0
Fits offered seen r =
    (contains r.region seen ≡ false) × (1 ≤ r.cus) × (contains r.region offered ≡ true)

each_region-Fits :
    (offered seen : List String) (shares : List RegionShare)
    → each_region offered seen shares ≡ ok tt
    → All (Fits offered seen) shares × Distinct (λ r. r.region) shares
unfolding each_region
each_region-Fits offered seen [] e = (tt, tt)
each_region-Fits offered seen (r ∷ rest) e = elim (Bool-cases (contains r.region seen)) [
  | inl t ↦ absurd (err-ne-ok (rw (each_region, t) at e))
  | inr f ↦ elim (Bool-cases (ltb r.cus 1)) [
    | inl t ↦ absurd (err-ne-ok (rw (each_region, f, t) at e))
    | inr g ↦ elim (Bool-cases (contains r.region offered)) [
      | inr h ↦ absurd (err-ne-ok (rw (each_region, f, g, h) at e))
      | inl t ↦
          let ih =
            each_region-Fits offered (r.region ∷ seen) rest (rw (each_region, f, g, t) at e) in
          (
            (
              (f, ground arith, t),
              All-weaken (Fits offered (r.region ∷ seen)) (Fits offered seen) rest
                  (λ x k. (let h = k.0 in ground arith, k.1, k.2)) ih.0,
            ),
            (
              All-weaken (Fits offered (r.region ∷ seen)) (Apart (λ r. r.region) r) rest
                  (λ x k. let h = k.0 in ground arith) ih.0,
              ih.1,
            ),
          )
    ]
  ]
]

-- What a reservation's regions have to be.
pub record AreFit (offer : Offer) (model : String) (sku : Sku) (shares : List RegionShare)
    : Type 0 where
  pub few : (1 ≤ length shares) × (length shares ≤ 8)
  pub fits : All (Fits (regions_for offer model) []) shares
  pub distinct : Distinct (λ r. r.region) shares
  pub several : is_multi_region sku ≡ true → (2 ≤ length shares) × (one_zone offer shares ≡ true)

-- The regions of a request that pass the check are one to eight, no two the same, each offered for the
-- model and with at least one capacity unit, and, for the multi-region product, at least two, all in
-- one data-residency zone.
pub regions-AreFit :
    (offer : Offer) (model : String) (sku : Sku) (shares : List RegionShare)
    → Validate.regions offer model sku shares ≡ ok tt
    → AreFit offer model sku shares
unfolding Validate.regions
regions-AreFit offer model sku shares e =
    elim (Bool-cases ((length shares == 0) || ltb max_regions (length shares))) [
      | inl t ↦ absurd (err-ne-ok (rw (regions, t) at e))
      | inr f ↦
          let (u, k, rest) =
            bind-ok (each_region (regions_for offer model) [] shares) _ (rw (regions, f) at e) in
          let (fits, distinct) = each_region-Fits (regions_for offer model) [] shares k in
          record {
            few = (ground arith, ground arith);
            fits = fits;
            distinct = distinct;
            several = λ m. several_of m rest;
          }
    ]
  where
    several_of :
        is_multi_region sku ≡ true
        → (if is_multi_region sku && ltb (length shares) 2
            then err (validation "sku")
            else if is_multi_region sku && not (one_zone offer shares)
            then err (validation "regions")
            else ok tt)
          ≡ ok tt
        → (2 ≤ length shares) × (one_zone offer shares ≡ true)
    several_of m rest = elim (Bool-cases (ltb (length shares) 2)) [
      | inl t ↦ absurd (err-ne-ok (rw (m, t) at rest))
      | inr g ↦ elim (Bool-cases (one_zone offer shares)) [
        | inl z ↦ (ground arith, z)
        | inr z ↦ absurd (err-ne-ok (rw (m, g, z) at rest))
      ]
    ]
