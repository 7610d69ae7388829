-- ===== src/PrefixCache/Tests.antt =====
-- A small index that overflows.
use provisioned_throughput.Base.{ℕ, ◌≡◌, refl, true, false, List, [], ◌∷◌, nat_eq, w64}
use provisioned_throughput.Base.Dict.{get, insert, remove}
use provisioned_throughput.PrefixCache.{PrefixCacheConfig, new, record_keys, fresh}
use provisioned_throughput.PrefixCache.Evict.{record_all, IsWithin, record_all-IsWithin}

abbrev config : PrefixCacheConfig
config = record { capacity = 2; ttl = 10 }

-- The second run refreshes the first key and adds a third, so the second key is the oldest.
abbrev runs : List (List ℕ × ℕ)
runs = (5 ∷ 6 ∷ [], 1) ∷ (5 ∷ 7 ∷ [], 4) ∷ []

oldest_goes : fresh (record_all runs (new config)) 6 5 ≡ false
unfolding record_keys fresh insert get remove w64
oldest_goes = refl

refreshed_stays : fresh (record_all runs (new config)) 5 5 ≡ true
unfolding record_keys fresh insert get remove w64
refreshed_stays = refl

record_all-IsWithin_example : let c = record_all runs (new config) in IsWithin 2 c.seen c.order
record_all-IsWithin_example = record_all-IsWithin config runs
