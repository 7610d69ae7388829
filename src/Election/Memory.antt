-- ===== src/Election/Memory.antt =====
-- The lease in memory as a compare-and-swap register.
use provisioned_throughput.Base.{
  some-eq, ℕ, ◌+◌, ◌<◌, ◌≡◌, ◌≢◌, refl, sym, ◌∙◌, ap, Bool, true, false, Option, none, some, String,
  ◌⊎◌, inl, inr, arith, Bool-cases, ◌==◌, ==_iff, nat_eq, w64, w64_small, u64_max, true-ne-false,
}
use provisioned_throughput.Base.Result.{Result, ok}
use provisioned_throughput.Election.{
  LeaseRecord, ElectionError, MemoryLease, memory_get, memory_put,
}
use provisioned_throughput.Election.Cluster.{version_of, stored, Grows}

-- The record that a read returns.
abbrev pub view : MemoryLease → Option LeaseRecord
view none = none
view (some (h, v)) = stored h v

-- The version has not reached the largest word.
abbrev pub Counts : MemoryLease → Type 0
Counts none = Unit
Counts (some (h, v)) = v < u64_max

-- What a put answers and leaves.
abbrev pub Swaps :
    Option String → Option ℕ → MemoryLease → Result ElectionError Bool × MemoryLease → Type 0
Swaps holder expected s (answer, s') =
    ((answer ≡ ok true)
      × (version_of (view s) ≡ expected)
      × ((v : ℕ) × (view s' ≡ stored holder v) × Grows (view s) v))
    ⊎ ((answer ≡ ok false) × (version_of (view s) ≢ expected) × (s' ≡ s))

-- `put` on the lease in memory is a compare-and-swap: it succeeds exactly when the version expected is
-- the one that a read returns, and then the record is the new holder's, under a version larger than
-- the one before (which is below the largest word); else it changes nothing.
pub memory_put-Swaps :
    (holder : Option String) (expected : Option ℕ) (s : MemoryLease)
    → Counts s
    → (memory_get s ≡ ok (view s)) × Swaps holder expected s (memory_put holder expected s)
unfolding memory_get memory_put
memory_put-Swaps holder none none c = (refl, inl (refl, refl, (1, refl, tt)))
memory_put-Swaps holder none (some r) c = (refl, inr (refl, (λ e. cc), refl))
memory_put-Swaps holder (some e) none c = (refl, inr (refl, (λ e. cc), refl))
memory_put-Swaps holder (some e) (some (h, v)) c = elim (Bool-cases (v == e)) [
  | inl t ↦ (refl, rw t (inl (refl, ap some ((==_iff v e).0 t), (w64 (v + 1), refl, larger))))
  | inr f ↦ (
    refl,
    rw f (inr (refl, (λ q. absurd (true-ne-false (sym ((==_iff v e).1 (some-eq q)) ∙ f))), refl)),
  )
]
  where
    larger : v < w64 (v + 1)
    larger = let small = w64_small (v + 1) (omega arith) in omega arith
