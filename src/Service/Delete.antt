-- ===== src/Service/Delete.antt =====
-- Deletion (`delete` in crates/pt-control-plane/src/service.rs): a reservation that has not started
-- is cancelled and its capacity released, an active one ends with its term.
pub mod Twice
use provisioned_throughput.Base.{ℕ, Bool, true, false, Option, none, some, String}
use provisioned_throughput.Base.Result.{ok, err, panicked}
use provisioned_throughput.Model.{State, EventKind, ProvisionedThroughput, cancellation_requested}
use provisioned_throughput.Service.{
  Settings, M, then_do, ◌>>=◌, ◌>>◌, done, check, push_event, plan_release, pooled, get,
  check_version, write, bump, bump_now, stamp,
}

-- `DeleteEffect`
pub data DeleteEffect : Type 0 where
  cancelled_now ends_at_term_end already_inactive : DeleteEffect

-- The arms of the match on the state that change the reservation.
unfoldable pub cancel : ℕ → ProvisionedThroughput → ProvisionedThroughput
cancel now pt =
    push_event now EventKind.cancelled
      (record pt { state = State.cancelled; pending_changes = none })

unfoldable pub request_cancellation : ℕ → ProvisionedThroughput → ProvisionedThroughput
request_cancellation now pt =
    push_event now (cancellation_requested pt.term_end)
      (record pt { state = State.pending_cancellation; auto_renew = false; pending_changes = none })

-- The rest of `delete`, once it knows what it does.
unfoldable pub close_now :
    Settings → ℕ → ProvisionedThroughput → M (ProvisionedThroughput × DeleteEffect)
unfolding cancel write bump plan_release pooled
close_now c now pt = do
  let saved = stamp now (cancel now pt)
  write pt.version saved
  plan_release saved.tier (pooled c saved)
  bump_now now
  done (saved, cancelled_now)

unfoldable pub close_later : ℕ → ProvisionedThroughput → M (ProvisionedThroughput × DeleteEffect)
unfolding request_cancellation write bump
close_later now pt = do
  let saved = stamp now (request_cancellation now pt)
  write pt.version saved
  bump_now now
  done (saved, ends_at_term_end)

unfoldable pub close :
    Settings → ℕ → State → ProvisionedThroughput → M (ProvisionedThroughput × DeleteEffect)
unfolding close_now close_later
close c now State.ended pt = done (pt, already_inactive)
close c now State.cancelled pt = done (pt, already_inactive)
close c now State.pending_cancellation pt = done (pt, ends_at_term_end)
close c now State.scheduled pt = close_now c now pt
close c now State.active pt = close_later now pt

-- `delete`
unfoldable pub delete :
    Settings → ℕ → String → String → Option ℕ → M (ProvisionedThroughput × DeleteEffect)
unfolding get check_version close
delete c now tenant id if_match = do
  pt ← get tenant id
  check (check_version pt if_match)
  close c now pt.state pt
