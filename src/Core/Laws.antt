-- ===== src/Core/Laws.antt =====
-- What is in shape, and the codes of the term lengths.
use provisioned_throughput.Base.{ℕ, ◌+◌, ◌≤◌, ◌<◌, ◌≡◌, refl, true, ◌↔◌, arith}
use provisioned_throughput.Base.Words.{u64_mod}
use provisioned_throughput.Base.Result.{ok}
use provisioned_throughput.Core.{Shape, is_in_shape, TermMonths, months, try_from}

-- For a declared ceiling that is a machine word below its largest value, a request is in shape
-- exactly when its input is within the declared maximum and input and output together are within
-- the ceiling: the saturating sum never lets an overflowing request through.
is_in_shape_iff :
    (s : Shape) (input output : ℕ)
    → s.context_ceiling + 1 < u64_mod
    → (is_in_shape s input output ≡ true)
      ↔ ((input ≤ s.input_max) × (input + output ≤ s.context_ceiling))
unfolding is_in_shape
is_in_shape_iff s input output h = (λ e. ground arith, λ e. ground arith)

try_from-months : (t : TermMonths) → try_from (months t) ≡ ok t
unfolding try_from months
try_from-months TermMonths.one = refl
try_from-months TermMonths.three = refl
try_from-months TermMonths.six = refl

-- A number is accepted as a term length exactly when some term length is written as it, and then
-- as that one.
try_from_iff : (v : ℕ) (t : TermMonths) → (try_from v ≡ ok t) ↔ (v ≡ months t)
unfolding try_from months
try_from_iff v TermMonths.one = (λ e. ground arith, λ e. ground arith)
try_from_iff v TermMonths.three = (λ e. ground arith, λ e. ground arith)
try_from_iff v TermMonths.six = (λ e. ground arith, λ e. ground arith)
