-- ===== src/Election/Handover.antt =====
-- A release and the tick of the replica that follows, on the lease in memory.
use provisioned_throughput.Base.{
  ℕ, ◌+◌, ◌<◌, ◌≡◌, refl, true, false, some, arith, lt→ltb, ==_refl, string_eq, nat_eq, w64,
}
use provisioned_throughput.Base.Result.{ok}
use provisioned_throughput.Election.{
  memory_get, memory_put, memory_lease, ElectionConfig, Elector, acquired, leader_until, is_leader,
  on_read, on_write, step, judge_tick, tick, release,
}

-- A handover: when the replica that holds the lease in memory and has led releases it, it leads at
-- no moment, and another replica's next tick takes the lease at once, and says that the previous
-- leader's grants may still be live; with a positive renew deadline it then leads.
pub tick-release :
    (a b : ElectionConfig) (ea eb : Elector) (t v now : ℕ)
    → 0 < b.renew_deadline
    → ea.last_renew ≡ some t
    → let (ea', _, lease) = release memory_lease a ea (some (some a.identity, v)) in
      let (result, eb', _) = tick memory_lease b now eb lease in
      (is_leader a ea' now ≡ false) × (result ≡ ok (acquired true)) × (is_leader b eb' now ≡ true)
unfolding release memory_lease memory_get memory_put tick step judge_tick on_read on_write is_leader
    leader_until
tick-release a b ea eb t v now lasts held =
    rw (held, ==_refl a.identity, ==_refl v, ==_refl (w64 (v + 1)))
      (refl, refl, lt→ltb now (now + b.renew_deadline) (omega arith))
