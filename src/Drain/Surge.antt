-- ===== src/Drain/Surge.antt =====
-- What `add_surge` grants.
use provisioned_throughput.Base.{ℕ, ◌+◌, ◌≤◌, ◌<◌, ◌≡◌, min, Option, arith}
use provisioned_throughput.Base.Words.{u32_max, w32}
use provisioned_throughput.Drain.{RoleReplicas, room_for, take, add_surge}

-- The total is the sum of the roles.
abbrev pub IsTotal : RoleReplicas → Type 0
IsTotal r = r.total ≡ r.aggregated + r.prefill + r.decode

-- Of a surge, `added` is granted on top of `desired`, with room for `room`.
pub record Granted (desired surge : RoleReplicas) (room : ℕ) (out added : RoleReplicas)
    : Type 0 where
  pub aggregated_sum : out.aggregated ≡ desired.aggregated + added.aggregated
  pub prefill_sum : out.prefill ≡ desired.prefill + added.prefill
  pub decode_sum : out.decode ≡ desired.decode + added.decode
  pub total_sum : out.total ≡ desired.total + added.total
  pub added_total : IsTotal added
  pub out_total : IsTotal out
  -- the most that was asked for and fits
  pub most : added.total ≡ min surge.total room
  pub aggregated_asked : added.aggregated ≤ surge.aggregated
  pub prefill_asked : added.prefill ≤ surge.prefill
  pub decode_asked : added.decode ≤ surge.decode
  -- decode first, then prefill
  pub decode_first : added.decode < surge.decode → added.prefill + added.aggregated ≡ 0
  pub prefill_next : added.prefill < surge.prefill → added.aggregated ≡ 0

-- Surge replicas are granted as far as they fit: when the totals of `desired` and `surge` are the
-- sums of their roles and fit in a word together, `add_surge` adds to every role no more than was
-- asked, as many in all as were asked or as the pool's limit leaves room for, decode workers before
-- prefill workers and those before aggregated ones, and the totals stay the sums of the roles.
pub add_surge-Granted :
    (desired surge : RoleReplicas) (limit : Option ℕ)
    → IsTotal desired
    → IsTotal surge
    → desired.total + surge.total ≤ u32_max
    → let (out, added) = add_surge desired surge limit in
      Granted desired surge (room_for desired limit) out added
unfolding add_surge take w32
add_surge-Granted desired surge limit d s fits = record {
  aggregated_sum = omega arith;
  prefill_sum = omega arith;
  decode_sum = omega arith;
  total_sum = omega arith;
  added_total = omega arith;
  out_total = omega arith;
  most = omega arith;
  aggregated_asked = omega arith;
  prefill_asked = omega arith;
  decode_asked = omega arith;
  decode_first = λ h. omega arith;
  prefill_next = λ h. omega arith;
}
