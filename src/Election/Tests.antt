-- ===== src/Election/Tests.antt =====
-- Runs of the election: two replicas, the first of which dies after it led.
use provisioned_throughput.Base.{
  ◌+◌, ◌≤◌, ◌≡◌, ◌≢◌, refl, true, false, none, some, String, arith, ==_iff, string_eq, sym,
  true-ne-false, ◌∙◌,
}
use provisioned_throughput.Base.Result.{ok}
use provisioned_throughput.Election.{
  memory_lease, Elector, acquired, fresh, is_leader, leader_until, on_read, on_other, observe,
  on_write, validate, tick, release,
}
use provisioned_throughput.Election.Cluster.{
  World, Timing, config, Move, wait, begin, read, swap, learn, Reach, here, next, start, leads,
}
use provisioned_throughput.Election.Cluster.Safety.{at_most_one_leader, takeover_gap}
use provisioned_throughput.Election.Memory.{view, Swaps, memory_put-Swaps}
use provisioned_throughput.Election.{memory_get, memory_put}
use provisioned_throughput.Election.Ticks.{tick-Says, Says}
use provisioned_throughput.Election.Handover.{tick-release}

abbrev timing : Timing
timing = record { lease_duration = 15; renew_deadline = 10; retry_period = 2 }

-- The first leads, and dies; the second has watched its record and takes over.
abbrev Run : Type 0
Run = (w : World) × Reach timing 3 start w

abbrev then : (r : Run) {w : World} → Move timing 3 r.0 w → Run
then r {w} m = (w, next r.1 m)

abbrev first_leads : Run
unfolding on_read on_write
first_leads =
    then
      (then (then (then (start, here) (begin "a" refl)) (read "a" refl (omega arith)))
        (swap "a" 1 refl refl tt))
      (learn "a" false refl)

abbrev second_watches : Run
unfolding on_read on_other observe on_write is_leader leader_until first_leads
second_watches =
    then (then (then (then first_leads (wait 1)) (begin "b" refl)) (read "b" refl (omega arith)))
      (wait 20)

abbrev second_leads : Run
unfolding on_read on_other observe on_write is_leader leader_until first_leads second_watches
second_leads =
    then
      (then (then (then second_watches (begin "b" refl)) (read "b" refl (omega arith)))
        (swap "b" 2 refl refl (omega arith)))
      (learn "b" false refl)

the_second : leads timing second_leads.0 "b" ≡ true
unfolding second_leads second_watches first_leads leads is_leader leader_until on_read on_other
    observe on_write
the_second = refl

abbrev standby : String
standby = "b"

abbrev primary : String
primary = "a"

at_most_one_leader_example : standby ≡ standby
at_most_one_leader_example =
    at_most_one_leader timing 3 {w = second_leads.0} (omega arith) second_leads.1 "b" "b" the_second
      the_second

apart : standby ≢ primary
apart e = true-ne-false (sym ((==_iff standby primary).1 e) ∙ refl)

the_first : (second_leads.0.nodes "a").elector.last_renew ≡ some 0
unfolding second_leads second_watches first_leads leads is_leader leader_until on_read on_other
    observe on_write
the_first = refl

accepted : validate (config timing "b") 5 ≡ ok tt
unfolding validate
accepted = refl

takeover_gap_example : 0 + 10 + 5 ≤ second_leads.0.clock + 3
takeover_gap_example =
    takeover_gap timing 3 5 {w = second_leads.0} (omega arith) second_leads.1 "b" "a" accepted
      the_second apart 0 the_first

abbrev leader : Elector
leader = record { observed = none; last_renew = some 4 }

-- A leader finds that another replica holds the lease.
tick-Says_example :
    let (result, e, _) = tick memory_lease (config timing "a") 6 leader (some (some "b", 3)) in
    Says result (is_leader (config timing "a") leader 6) (is_leader (config timing "a") e 6)
tick-Says_example =
    tick-Says memory_lease (config timing "a") 6 leader (some (some "b", 3)) (omega arith)

tick-release_example :
    let (e, _, lease) = release memory_lease (config timing "a") leader (some (some "a", 7)) in
    let (result, e', _) = tick memory_lease (config timing "b") 9 fresh lease in
    (is_leader (config timing "a") e 9 ≡ false)
    × (result ≡ ok (acquired true))
    × (is_leader (config timing "b") e' 9 ≡ true)
tick-release_example =
    tick-release (config timing "a") (config timing "b") leader fresh 4 7 9 (omega arith) refl

memory_put-Swaps_example :
    (memory_get (some (none, 4)) ≡ ok (view (some (none, 4))))
    × Swaps (some "b") (some 4) (some (none, 4)) (memory_put (some "b") (some 4) (some (none, 4)))
memory_put-Swaps_example = memory_put-Swaps (some "b") (some 4) (some (none, 4)) (omega arith)
