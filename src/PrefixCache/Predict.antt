-- ===== src/PrefixCache/Predict.antt =====
-- How many tokens of a request are matched.
use provisioned_throughput.Base.{
  ℕ, zero, suc, ◌+◌, ◌-◌, ◌≤◌, ◌<◌, ◌≡◌, refl, min, sum, String, Bool, true, some, List, [], ◌∷◌,
  inl, inr, arith, Option-cases, w64_small, u64_mod,
}
use provisioned_throughput.PrefixCache.{PrefixCache, fresh, rposition, sum_first, predict}

-- `k` stands at place `i`.
abbrev At : ℕ → ℕ → List ℕ → Type 0
At i k [] = ⊥
At zero k (x ∷ xs) = x ≡ k
At (suc i) k (x ∷ xs) = At i k xs

-- The last place that passes is no earlier than one that passes.
rposition-At :
    (p : ℕ → Bool) (i k : ℕ) (xs : List ℕ)
    → At i k xs
    → p k ≡ true
    → (j : ℕ) × (rposition p xs ≡ some j) × (i ≤ j)
unfolding rposition
rposition-At p i k [] at t = absurd at
rposition-At p zero k (x ∷ xs) at t = elim (Option-cases (rposition p xs)) [
  | inl e ↦ (0, rw (e, at, t) refl, omega arith)
  | inr (j, e) ↦ (suc j, rw e refl, omega arith)
]
rposition-At p (suc i) k (x ∷ xs) at t =
    let (j, e, le) = rposition-At p i k xs at t in (suc j, rw e refl, omega arith)

sum_first_mono : (i j : ℕ) (xs : List ℕ) → i ≤ j → sum_first i xs ≤ sum_first j xs
unfolding sum_first
sum_first_mono zero j xs h = omega arith
sum_first_mono (suc i) zero xs h = absurd (omega arith)
sum_first_mono (suc i) (suc j) [] h = omega arith
sum_first_mono (suc i) (suc j) (x ∷ xs) h = omega (arith, sum_first_mono i j xs (omega arith))

sum_first-sum : (i : ℕ) (xs : List ℕ) → sum_first i xs ≤ sum xs
unfolding sum_first
sum_first-sum zero xs = omega arith
sum_first-sum (suc i) [] = omega arith
sum_first-sum (suc i) (x ∷ xs) = omega (arith, sum_first-sum i xs)

module _ (scale : String → ℕ → ℕ) (c : PrefixCache) (model : String) (keys per_message : List ℕ)
    (now : ℕ) where
  -- A remembered prefix counts: when the key of a prefix was sent within the time to live, the request
  -- is matched with at least that prefix's tokens, but always with fewer than all its tokens (with
  -- none if it has none), the sum of which fits in a word.
  pub predict-sum_first :
      (i k : ℕ)
      → At i k keys
      → fresh c k now ≡ true
      → sum per_message < u64_mod
      → let matched = (predict scale c model keys per_message now).matched_tokens in
        (min (sum_first (i + 1) per_message) (sum per_message - 1) ≤ matched)
        × (matched ≤ sum per_message - 1)
  unfolding predict
  predict-sum_first i k at t fits =
      let (j, e, le) = rposition-At (λ k. fresh c k now) i k keys at t in
      let more = sum_first_mono (i + 1) (j + 1) per_message (omega arith) in
      let most = sum_first-sum (j + 1) per_message in
      let whole = w64_small (sum per_message) fits in
      let part = w64_small (sum_first (j + 1) per_message) (omega arith) in
      rw (e, predict, whole, part) (omega arith, omega arith)
