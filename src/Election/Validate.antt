-- ===== src/Election/Validate.antt =====
-- The timings that `ElectionConfig::validate` accepts.
use provisioned_throughput.Base.{
  ||-cases, ℕ, ◌+◌, ◌-◌, ◌≤◌, ◌<◌, ◌≡◌, ◌≢◌, Bool, true, false, arith, Bool-cases, ◌==◌, ==_iff,
  string_eq, nat_eq, ltb, leb, ltb→lt, leb→le, if◌then◌else◌, refl, ◌||◌, inl, inr, ◌↔◌,
}
use provisioned_throughput.Base.Result.{Result, ok, err}
use provisioned_throughput.Election.{ElectionConfig, ConfigError, validate}

-- What the election relies on.
record IsValid (c : ElectionConfig) (min_gap : ℕ) : Type 0 where
  pub named : c.identity ≢ ""
  pub retries : 0 < c.retry_period
  pub in_time : c.retry_period < c.renew_deadline
  pub gap : c.renew_deadline + min_gap ≤ c.lease_duration
  pub apart : c.renew_deadline < c.lease_duration

-- A test that a result other than a refusal has passed.
passed :
    (b : Bool) (x : ConfigError) (r : Result ConfigError (Unit {0}))
    → (if b then err x else r) ≡ ok tt
    → (b ≡ true → ⊥) × (r ≡ ok tt)
passed true x r e = cc
passed false x r e = (λ t. cc, e)

untaken :
    (b : Bool) (x : ConfigError) (r : Result ConfigError (Unit {0}))
    → (b ≡ true → ⊥)
    → r ≡ ok tt
    → (if b then err x else r) ≡ ok tt
untaken true x r nope e = absurd (nope refl)
untaken false x r nope e = e

||-true_left : (a b : Bool) → a ≡ true → (a || b) ≡ true
||-true_left true b e = refl
||-true_left false b e = cc

||-true_right : (a b : Bool) → b ≡ true → (a || b) ≡ true
||-true_right true b e = refl
||-true_right false b e = e

less : (a b : ℕ) → (leb a b ≡ true → ⊥) → b < a
less a b nope = elim (Bool-cases (leb a b)) [ inl t ↦ absurd (nope t) | inr f ↦ ground arith ]

at_least : (a b : ℕ) → (ltb a b ≡ true → ⊥) → b ≤ a
at_least a b nope = elim (Bool-cases (ltb a b)) [ inl t ↦ absurd (nope t) | inr f ↦ ground arith ]

accepted : (c : ElectionConfig) (min_gap : ℕ) → validate c min_gap ≡ ok tt → IsValid c min_gap
unfolding validate
accepted c min_gap e =
    let (named, e1) = passed _ _ _ e in
    let (retry, e2) = passed _ _ _ e1 in
    let (deadline, e3) = passed _ _ _ e2 in
    let (gap, _) = passed _ _ _ e3 in
    let in_time =
      less c.renew_deadline c.retry_period (λ t. retry (||-true_right (c.retry_period == 0) _ t)) in
    let apart = less c.lease_duration c.renew_deadline deadline in
    let wide = at_least (c.lease_duration - c.renew_deadline) min_gap gap in
    record {
      named = λ q. named ((==_iff c.identity "").1 q);
      retries = elim (Bool-cases (c.retry_period == 0)) [
        | inl t ↦ absurd (retry (||-true_left (c.retry_period == 0) _ t))
        | inr f ↦ ground arith
      ];
      in_time = in_time;
      gap = omega arith;
      apart = apart;
    }

positive : (n : ℕ) → 0 < n → (n == 0) ≡ true → ⊥
positive n p t = let q : n ≡ 0 = (==_iff n 0).0 t in omega arith

above : (a b : ℕ) → a < b → leb b a ≡ true → ⊥
above a b p t = let q : b ≤ a = leb→le b a t in omega arith

wide_enough : (a b : ℕ) → b ≤ a → ltb a b ≡ true → ⊥
wide_enough a b p t = let q : a < b = ltb→lt a b t in omega arith

retry_fine :
    (c : ElectionConfig) (min_gap : ℕ)
    → IsValid c min_gap
    → ((c.retry_period == 0) || leb c.renew_deadline c.retry_period) ≡ true
    → ⊥
retry_fine c min_gap v t = elim (||-cases (c.retry_period == 0) _ t) [
  | inl z ↦ positive c.retry_period v.retries z
  | inr l ↦ above c.retry_period c.renew_deadline v.in_time l
]

gap_fine :
    (c : ElectionConfig) (min_gap : ℕ)
    → IsValid c min_gap
    → min_gap ≤ c.lease_duration - c.renew_deadline
gap_fine c min_gap v = let p = v.gap in omega arith

accepts : (c : ElectionConfig) (min_gap : ℕ) → IsValid c min_gap → validate c min_gap ≡ ok tt
unfolding validate
accepts c min_gap v =
    untaken _ _ _ (λ t. v.named ((==_iff c.identity "").0 t))
      (untaken _ _ _ (retry_fine c min_gap v) (
        untaken _ _ _ (above c.renew_deadline c.lease_duration v.apart)
          (untaken _ _ _ (wide_enough _ min_gap (gap_fine c min_gap v)) refl)))

-- `validate` accepts exactly the configurations that have a name, a positive retry period shorter
-- than the renew deadline, and a lease longer than the renew deadline, by `min_gap` at least.
validate_iff : (c : ElectionConfig) (min_gap : ℕ) → (validate c min_gap ≡ ok tt) ↔ IsValid c min_gap
validate_iff c min_gap = (accepted c min_gap, accepts c min_gap)

pub validate-gap :
    (c : ElectionConfig) (min_gap : ℕ)
    → validate c min_gap ≡ ok tt
    → c.renew_deadline + min_gap ≤ c.lease_duration
validate-gap c min_gap e = (accepted c min_gap e).gap
