-- ===== src/Election/Cluster.antt =====
-- Replicas that compete for one record, each call to the backend a step of its own. A replica's
-- tick takes the time, then its read is served, then its write; between these other replicas may
-- move, and an answer may arrive late or never. Every write is a compare-and-swap on the version,
-- and versions grow.
pub mod Invariant
pub mod Own
pub mod Others
pub mod Safety
use provisioned_throughput.Base.{
  ℕ, ◌+◌, ◌≤◌, ◌<◌, ◌≡◌, Bool, true, false, Option, none, some, String, ◌==◌, string_eq,
  if◌then◌else◌,
}
use provisioned_throughput.Election.{
  LeaseRecord, ElectionConfig, Elector, fresh, is_leader, Reason, Plan, stop, write, on_read,
  on_write, expired, released, creating, renewing,
}

-- Where a replica's program stands.
pub data Phase : Type 0 where
  idle : Phase
  -- a tick that began at the instant awaits its read
  reading : ℕ → Phase
  -- it awaits its write, under the version and for the reason
  writing : ℕ → Option ℕ → Reason → Phase
  -- its write was made and succeeded, and it awaits the answer
  answered : ℕ → Reason → Phase
  -- it has stopped serving, and awaits the read and then the write of `release`
  leaving : Phase
  clearing : ℕ → Phase

pub record Node : Type 0 where
  pub elector : Elector
  pub phase : Phase

pub record World : Type 0 where
  pub clock : ℕ
  pub store : Option LeaseRecord
  pub nodes : String → Node

-- The timings that the replicas share; a replica's identity is its name.
pub record Timing : Type 0 where
  pub lease_duration : ℕ
  pub renew_deadline : ℕ
  pub retry_period : ℕ

abbrev pub config : Timing → String → ElectionConfig
config t name = record {
  identity = name;
  lease_duration = t.lease_duration;
  renew_deadline = t.renew_deadline;
  retry_period = t.retry_period;
}

abbrev pub set_node : String → Node → (String → Node) → String → Node
set_node name n nodes other = if name == other then n else nodes other

abbrev pub at_node : World → String → Node → World
at_node w name n = record w { nodes = set_node name n w.nodes }

-- The replica after its read.
abbrev pub after_read : ℕ → Elector × Plan → Node
after_read now (e, stop c) = record { elector = e; phase = idle }
after_read now (e, write expected reason) = record {
  elector = e;
  phase = writing now expected reason;
}

abbrev pub version_of : Option LeaseRecord → Option ℕ
version_of none = none
version_of (some r) = some r.version

-- The record after a write, under a version that is larger than every one before.
abbrev pub stored : Option String → ℕ → Option LeaseRecord
stored holder v = some (record { holder = holder; version = v })

abbrev pub Grows : Option LeaseRecord → ℕ → Type 0
Grows none v = Unit
Grows (some r) v = r.version < v

-- One step. Reads are served within `delay` of the tick's start.
pub data Move (t : Timing) (delay : ℕ) (w : World) : World → Type 0 where
  wait : (d : ℕ) → Move t delay w (record w { clock = w.clock + d })
  begin :
      (name : String) {e : Elector}
      → w.nodes name ≡ record { elector = e; phase = idle }
      → Move t delay w (at_node w name (record { elector = e; phase = reading w.clock }))
  read :
      (name : String) {e : Elector} {now : ℕ}
      → w.nodes name ≡ record { elector = e; phase = reading now }
      → w.clock ≤ now + delay
      → Move t delay w (at_node w name (after_read now (on_read (config t name) now w.store e)))
  -- the compare-and-swap succeeds; the answer is on its way
  swap :
      (name : String) {e : Elector} {now : ℕ} {reason : Reason} {expected : Option ℕ} (v : ℕ)
      → w.nodes name ≡ record { elector = e; phase = writing now expected reason }
      → version_of w.store ≡ expected
      → Grows w.store v
      → Move t delay w (record w {
        store = stored (some name) v;
        nodes = set_node name (record { elector = e; phase = answered now reason }) w.nodes;
      })
  -- another writer got there first
  miss :
      (name : String) {e : Elector} {now : ℕ} {reason : Reason} {expected : Option ℕ} (was : Bool)
      → w.nodes name ≡ record { elector = e; phase = writing now expected reason }
      → Move t delay w
          (at_node w name (record { elector = (on_write now reason was false e).0; phase = idle }))
  learn :
      (name : String) {e : Elector} {now : ℕ} {reason : Reason} (was : Bool)
      → w.nodes name ≡ record { elector = e; phase = answered now reason }
      → Move t delay w
          (at_node w name (record { elector = (on_write now reason was true e).0; phase = idle }))
  -- the read or the write fails, or an answer is lost: the tick ends with an error
  give_up :
      (name : String) {n : Node}
      → w.nodes name ≡ n
      → Move t delay w (at_node w name (record n { phase = idle }))
  -- `release`: serving ends first
  leave :
      (name : String) {e : Elector}
      → w.nodes name ≡ record { elector = e; phase = idle }
      → Move t delay w
          (at_node w name (record { elector = record e { last_renew = none }; phase = leaving }))
  leave_read :
      (name : String) {e : Elector} {v : ℕ}
      → w.nodes name ≡ record { elector = e; phase = leaving }
      → w.store ≡ stored (some name) v
      → Move t delay w (at_node w name (record { elector = e; phase = clearing v }))
  clear :
      (name : String) {e : Elector} {v : ℕ} (v' : ℕ)
      → w.nodes name ≡ record { elector = e; phase = clearing v }
      → version_of w.store ≡ some v
      → Grows w.store v'
      → Move t delay w (record w {
        store = stored none v';
        nodes = set_node name (record { elector = e; phase = idle }) w.nodes;
      })
  -- a replica dies and comes back with nothing
  restart :
      (name : String) → Move t delay w (at_node w name (record { elector = fresh; phase = idle }))

pub data Reach (t : Timing) (delay : ℕ) (s : World) : World → Type 0 where
  here : Reach t delay s s
  next : {w w' : World} → Reach t delay s w → Move t delay w w' → Reach t delay s w'

-- Nobody has led.
abbrev pub start : World
start = record { clock = 0; store = none; nodes = λ name. record { elector = fresh; phase = idle } }

unfoldable pub leads : Timing → World → String → Bool
leads t w name = is_leader (config t name) (w.nodes name).elector w.clock
