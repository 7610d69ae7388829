-- ===== src/Core.antt =====
-- The shared types of crates/pt-core: latency tiers (tier.rs), the declared workload shape
-- (shape.rs) and the term lengths (term.rs).
pub mod Laws
use provisioned_throughput.Base.{
  ℕ, ◌+◌, ◌≡◌, Bool, true, false, ◌&&◌, ◌==◌, nat_eq, ◌↔◌, min, leb, BEq, refl, if◌then◌else◌,
}
use provisioned_throughput.Base.Words.{u64_max}
use provisioned_throughput.Base.Result.{Result, ok, err}

-- `Tier`
pub data Tier : Type 0 where
  interactive agentic standard : Tier

abbrev tier_beq : Tier → Tier → Bool
tier_beq Tier.interactive Tier.interactive = true
tier_beq Tier.agentic Tier.agentic = true
tier_beq Tier.standard Tier.standard = true
tier_beq _ _ = false

pub tier_beq_iff : (a b : Tier) → (tier_beq a b ≡ true) ↔ (a ≡ b)
tier_beq_iff Tier.interactive Tier.interactive = (λ _. refl, λ _. refl)
tier_beq_iff Tier.agentic Tier.agentic = (λ _. refl, λ _. refl)
tier_beq_iff Tier.standard Tier.standard = (λ _. refl, λ _. refl)
tier_beq_iff _ _ = (λ h. cc, λ h. cc)

instance abbrev pub tier_eq : BEq Tier
tier_eq = record { beq = tier_beq; beq_iff = tier_beq_iff }

-- `Shape`. Its two ratios are floats, which stand as their 64 bits: the code here carries them along.
pub record Shape : Type 0 where
  pub input_p95 : ℕ
  pub input_max : ℕ
  pub output_p95 : ℕ
  pub context_ceiling : ℕ
  pub cache_hit_ratio : ℕ
  pub burst_factor : ℕ

-- `u64::saturating_add`
saturating_add : ℕ → ℕ → ℕ
saturating_add a b = min (a + b) u64_max

-- `Shape::is_in_shape`
pub is_in_shape : Shape → ℕ → ℕ → Bool
unfolding saturating_add
is_in_shape s input_tokens max_output_tokens =
    leb input_tokens s.input_max
    && leb (saturating_add input_tokens max_output_tokens) s.context_ceiling

-- `TermMonths`
pub data TermMonths : Type 0 where
  one three six : TermMonths

-- `impl From<TermMonths> for u8`, which `TermMonths::months` calls
unfoldable pub months : TermMonths → ℕ
months TermMonths.one = 1
months TermMonths.three = 3
months TermMonths.six = 6

-- `impl TryFrom<u8> for TermMonths`; the error carries the refused number, which the source
-- prints in its message
pub try_from : ℕ → Result ℕ TermMonths
try_from v =
    if v == 1
    then ok TermMonths.one
    else if v == 3
    then ok TermMonths.three
    else if v == 6
    then ok TermMonths.six
    else err v
