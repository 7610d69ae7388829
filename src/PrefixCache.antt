-- ===== src/PrefixCache.antt =====
-- The index of recently sent prefixes (crates/pt-admission/src/prefix.rs). Hashes are numbers, as the
-- hasher of the standard library gives them; the learned hit rates are
-- floats, so `predict` takes the product by a rate as a parameter and what learns them is left out.
pub mod Evict
pub mod Predict
pub mod Tests
use provisioned_throughput.Base.{
  ℕ, zero, suc, ◌+◌, ◌-◌, ◌*◌, min, sum, String, Bool, true, false, ◌||◌, Option, none, some, List,
  [], ◌∷◌, ◌++◌, length, ltb, w64, ◌==◌, nat_eq, if◌then◌else◌,
}
use provisioned_throughput.Base.Dict
use provisioned_throughput.Base.Dict.{Dict}

-- `PrefixCacheConfig`, less the initial hit rate.
pub record PrefixCacheConfig : Type 0 where
  pub capacity : ℕ
  pub ttl : ℕ

-- When a prefix was last sent, and the generation of that write.
abbrev pub Seen : Type 0
Seen = Dict ℕ (ℕ × ℕ)

-- Writes in order: a prefix and its generation.
abbrev pub Order : Type 0
Order = List (ℕ × ℕ)

-- `PrefixCache`, less the hasher and the hit rates.
pub record PrefixCache : Type 0 where
  pub config : PrefixCacheConfig
  pub seen : Seen
  pub order : Order
  pub generation : ℕ

-- `PrefixCache::new`
abbrev pub new : PrefixCacheConfig → PrefixCache
new config = record { config = config; seen = []; order = []; generation = 0 }

-- `PrefixCache::fresh`
unfoldable pub fresh : PrefixCache → ℕ → ℕ → Bool
fresh c key now = elim (Dict.get key c.seen) [
  | none ↦ false
  | some (t, g) ↦ ltb (now - t) c.config.ttl
]

-- The first loop of `record`.
unfoldable pub write_all : List ℕ → ℕ → PrefixCache → PrefixCache
write_all [] now c = c
write_all (k ∷ keys) now c =
    let g = w64 (c.generation + 1) in
    write_all keys now (record c {
      generation = g;
      seen = Dict.insert k (now, g) c.seen;
      order = c.order ++ (k, g) ∷ [];
    })

-- The body of the second: a write that is the prefix's last takes the prefix with it.
unfoldable pub forget : ℕ → ℕ → Seen → Seen
forget k generation seen = elim (Dict.get k seen) [
  | none ↦ seen
  | some (t, g) ↦ if g == generation then Dict.remove k seen else seen
]

-- The second loop.
unfoldable pub evict : ℕ → Seen → Order → Seen × Order
unfolding forget
evict capacity seen [] = (seen, [])
evict capacity seen ((k, g) ∷ order) =
    let rest = evict capacity (forget k g seen) order in
    if ltb capacity (length seen) || ltb (w64 (2 * capacity)) (length ((k, g) ∷ order))
    then rest
    else (seen, (k, g) ∷ order)

-- `PrefixCache::record`
unfoldable pub record_keys : List ℕ → ℕ → PrefixCache → PrefixCache
unfolding write_all evict
record_keys keys now c =
    if c.config.capacity == 0
    then c
    else let written = write_all keys now c in
      let (seen, order) = evict c.config.capacity written.seen written.order in
      record written { seen = seen; order = order }

-- `Prediction`
pub record Prediction : Type 0 where
  pub matched_tokens : ℕ
  pub expected_cached : ℕ

-- `Iterator::rposition`
unfoldable pub rposition : (ℕ → Bool) → List ℕ → Option ℕ
rposition p [] = none
rposition p (x ∷ xs) = elim (rposition p xs) [
  | some i ↦ some (suc i)
  | none ↦ if p x then some 0 else none
]

-- `per_message.iter().take(n).sum()`, before it wraps.
unfoldable pub sum_first : ℕ → List ℕ → ℕ
sum_first zero xs = 0
sum_first (suc n) [] = 0
sum_first (suc n) (x ∷ xs) = x + sum_first n xs

-- `PrefixCache::predict`, where `scale` multiplies by the model's hit rate.
unfoldable pub predict :
    (scale : String → ℕ → ℕ) → PrefixCache → String → List ℕ → List ℕ → ℕ → Prediction
unfolding rposition sum_first
predict scale c model keys per_message now = elim (rposition (λ k. fresh c k now) keys) [
  | none ↦ record { matched_tokens = 0; expected_cached = 0 }
  | some last ↦
      let total = w64 (sum per_message) in
      let matched = min (w64 (sum_first (last + 1) per_message)) (total - 1) in
      record { matched_tokens = matched; expected_cached = scale model matched }
]
