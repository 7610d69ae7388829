-- ===== src/Service/Update/Increases.antt =====
-- Which change of regions applies at once.
use provisioned_throughput.Base.{
  ◌≡◌, ◌≤◌, ◌-◌, if◌then◌else◌, refl, sym, ◌∙◌, ap, true, Option, none, some, List, [], ◌∷◌, ◌⊎◌,
  inl, inr, arith, All, length, ltb, Bool-cases, string_eq, ◌==◌, nat_eq, ==_iff, true-ne-false,
}
use provisioned_throughput.Model.{RegionShare}
use provisioned_throughput.Failover.{cus_of, growth, has_region}
use provisioned_throughput.Service.Update.Regions.{increases, increases_only}

-- A share's region has a share already, which is no larger.
abbrev Raises : List RegionShare → RegionShare → Type 0
Raises current n = (has_region n.region current ≡ true) × (cus_of n.region current ≤ n.cus)

-- The same number of shares, and each raises one of the current ones or leaves it.
abbrev pub OnlyRaises : List RegionShare → List RegionShare → Type 0
OnlyRaises current new = (length current ≡ length new) × All (Raises current) new

-- `P` holds and the answer is `some a`, or it fails and there is none.
abbrev Answers : {A : Type 0} → Type 0 → A → Option A → Type 0
Answers P a o = (P × (o ≡ some a)) ⊎ ((P → ⊥) × (o ≡ none))

increases-Answers :
    (current new : List RegionShare)
    → Answers (All (Raises current) new) (growth current new) (increases current new)
unfolding increases growth
increases-Answers current [] = inl (tt, refl)
increases-Answers current (n ∷ rest) = elim (Bool-cases (has_region n.region current)) [
  | inr absent ↦ inr (λ h. true-ne-false (sym h.0.0 ∙ absent), rw (increases, absent) refl)
  | inl here ↦ elim (Bool-cases (ltb n.cus (cus_of n.region current))) [
    | inl less ↦ inr (λ h. let small = h.0.1 in ground arith, rw (increases, here, less) refl)
    | inr more ↦ elim (increases-Answers current rest) [
      | inr (denied, e) ↦ inr (λ h. denied h.1, rw (increases, here, more, e) refl)
      | inl (all, e) ↦ inl (
        ((here, ground arith), all),
        rw (increases, here, more, e) (ap some (cons_growth n rest)),
      )
    ]
  ]
]
  where
    cons_growth :
        (n : RegionShare) (rest : List RegionShare)
        → (if ltb (cus_of n.region current) n.cus
            then record { region = n.region; cus = n.cus - cus_of n.region current }
              ∷ growth current rest
            else growth current rest)
          ≡ growth current (n ∷ rest)
    cons_growth n rest = refl

-- When a split has as many shares as the current one, of regions that have a share already, and lowers
-- none, `increases_only` answers what `growth` does, what each region gains; otherwise it answers `none`.
pub increases_only-Answers :
    (current new : List RegionShare)
    → Answers (OnlyRaises current new) (growth current new) (increases_only current new)
unfolding increases_only
increases_only-Answers current new = elim (Bool-cases (length current == length new)) [
  | inr f ↦ inr (
    λ h. true-ne-false (sym ((==_iff (length current) (length new)).1 h.0) ∙ f),
    rw (increases_only, f) refl,
  )
  | inl t ↦
      let same = (==_iff (length current) (length new)).0 t in
      elim (increases-Answers current new) [
        | inl (all, e) ↦ inl ((same, all), rw (increases_only, t) e)
        | inr (denied, e) ↦ inr (λ h. denied h.1, rw (increases_only, t) e)
      ]
]
