-- ===== src/Service/Holds.antt =====
-- Pauses of sales (crates/pt-control-plane/src/service.rs): a region's controller holds the sales of a
-- model for a time, and new capacity is refused meanwhile.
pub mod Pause
use provisioned_throughput.Base.{
  ℕ, ◌+◌, Bool, true, false, not, ◌&&◌, Option, none, some, List, String, find, leb, ltb, ◌==◌,
  string_eq,
}
use provisioned_throughput.Base.Texts.{byte_len, take_chars}
use provisioned_throughput.Base.Result.{ok}
use provisioned_throughput.Capacity.{capacity_for}
use provisioned_throughput.Model.{RegionShare}
use provisioned_throughput.Failover.{has_region}
use provisioned_throughput.Store.{SalesHold, MemoryStore, holds, put_hold, delete_hold}
use provisioned_throughput.Errors.{ServiceError, validation, conflict}
use provisioned_throughput.Service.{Settings, Service, M, then_do, ◌>>=◌, ◌>>◌, done, guard}

abbrev pub is_none : {A : Type 0} → Option A → Bool
is_none none = true
is_none (some a) = false

-- `sales_open`
unfoldable pub hold_on : String → List RegionShare → List SalesHold → Option SalesHold
hold_on model regions hs = find (λ h. h.model == model && has_region h.region regions) hs

unfoldable pub sales_open : ℕ → String → List RegionShare → M (Unit {0})
unfolding hold_on holds
sales_open now model regions s =
    guard (is_none (hold_on model regions (holds now s.store))) (conflict "sales_paused") s

abbrev pub hour : ℕ
hour = 3600000

abbrev pub put : SalesHold → M (Unit {0})
put h s = (ok tt, record s { store = put_hold h s.store })

unfoldable pub new_hold : ℕ → String → String → String → String → ℕ → SalesHold
unfolding take_chars
new_hold now region model source reason ttl = record {
  region = region;
  model = model;
  source = source;
  reason = take_chars 256 reason;
  expires_at = now + ttl;
}

-- `hold_sales`
unfoldable pub hold_sales : Settings → ℕ → String → String → String → String → ℕ → M SalesHold
unfolding capacity_for byte_len new_hold put_hold
hold_sales c now region model source reason ttl = do
  guard (not (is_none (capacity_for c.offer.capacity region model))) (validation "model")
  guard (leb 1 (byte_len source) && leb (byte_len source) 128) (validation "source")
  guard (ltb 0 ttl && leb ttl hour) (validation "ttl_seconds")
  let hold = new_hold now region model source reason ttl
  put hold
  done hold

-- `release_sales_hold`
unfoldable release_sales_hold : String → String → String → M Bool
unfolding delete_hold
release_sales_hold region model source s =
    let (removed, store) = delete_hold region model source s.store in
    (ok removed, record s { store = store })

-- `sales_holds`
unfoldable sales_holds : ℕ → M (List SalesHold)
unfolding holds
sales_holds now s = (ok (holds now s.store), s)
