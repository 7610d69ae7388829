-- ===== src/Election.antt =====
-- Active/standby leader election on one lease record (crates/pt-election/src/lib.rs). Instants and
-- durations are numbers in one unit, and all clocks run alike. A record's version is an opaque
-- string of which the code only tests equality: it is a number here, as in `MemoryLease`.
-- `Elector::step` awaits the backend at most twice, so it is written as what it does with the
-- record that it reads (`on_read`) and with the answer to its write (`on_write`); `step` composes
-- the two over any backend, and the children interleave them.
pub mod Cluster
pub mod Memory
pub mod Tests
pub mod Handover
pub mod Ticks
pub mod Validate
use provisioned_throughput.Base.{
  ℕ, ◌+◌, ◌-◌, Bool, true, false, not, ◌&&◌, ◌||◌, Option, none, some, String, ltb, leb, ◌==◌,
  nat_eq, string_eq, if◌then◌else◌, w64,
}
use provisioned_throughput.Base.Result.{Result, ok, err, panicked}

-- `LeaseRecord`
pub record LeaseRecord : Type 0 where
  pub holder : Option String
  pub version : ℕ

-- `ElectionError`
pub data ElectionError : Type 0 where
  backend : String → ElectionError

-- `LeaseBackend`, on a state of its own.
pub record LeaseBackend (S : Type 0) : Type 0 where
  pub get : S → Result ElectionError (Option LeaseRecord)
  pub put : Option String → Option ℕ → S → Result ElectionError Bool × S

-- `MemoryLease`: the holder and the version.
abbrev pub MemoryLease : Type 0
MemoryLease = Option (Option String × ℕ)

unfoldable pub memory_get : MemoryLease → Result ElectionError (Option LeaseRecord)
memory_get none = ok none
memory_get (some (holder, v)) = ok (some (record { holder = holder; version = v }))

unfoldable pub memory_put :
    Option String → Option ℕ → MemoryLease → Result ElectionError Bool × MemoryLease
memory_put holder none none = (ok true, some (holder, 1))
memory_put holder none (some r) = (ok false, some r)
memory_put holder (some e) none = (ok false, none)
memory_put holder (some e) (some (h, v)) =
    if v == e then (ok true, some (holder, w64 (v + 1))) else (ok false, some (h, v))

unfoldable pub memory_lease : LeaseBackend MemoryLease
memory_lease = record { get = memory_get; put = memory_put }

-- `ElectionConfig`
pub record ElectionConfig : Type 0 where
  pub identity : String
  pub lease_duration : ℕ
  pub renew_deadline : ℕ
  pub retry_period : ℕ

-- The refusals of `ElectionConfig::validate`, which the source words as text.
pub data ConfigError : Type 0 where
  empty_identity bad_retry_period bad_renew_deadline : ConfigError
  short_gap : ℕ → ConfigError

-- `ElectionConfig::validate`
unfoldable pub validate : ElectionConfig → ℕ → Result ConfigError (Unit {0})
validate c min_gap =
    if c.identity == ""
    then err empty_identity
    else if (c.retry_period == 0) || leb c.renew_deadline c.retry_period
    then err bad_retry_period
    else if leb c.lease_duration c.renew_deadline
    then err bad_renew_deadline
    else if ltb (c.lease_duration - c.renew_deadline) min_gap
    then err (short_gap min_gap)
    else ok tt

-- `Change`
pub data Change : Type 0 where
  no_change : Change
  acquired : (warm_up : Bool) → Change
  resumed lost : Change

-- `Elector`, less its backend and its configuration.
pub record Elector : Type 0 where
  pub observed : Option (ℕ × ℕ)
  pub last_renew : Option ℕ

-- `Elector::new`
abbrev pub fresh : Elector
fresh = record { observed = none; last_renew = none }

-- `Elector::leader_until`
unfoldable pub leader_until : ElectionConfig → Elector → Option ℕ
leader_until c e = elim e.last_renew [ none ↦ none | some t ↦ some (t + c.renew_deadline) ]

-- `Elector::is_leader`
unfoldable pub is_leader : ElectionConfig → Elector → ℕ → Bool
unfolding leader_until
is_leader c e now = elim (leader_until c e) [ none ↦ false | some u ↦ ltb now u ]

-- `Elector::acquired`
abbrev set_acquired : ℕ → Elector → Elector
set_acquired now e = record { observed = none; last_renew = some now }

-- Why `step` writes its own name: there is no record, it holds the lease, the lease was released,
-- or another holder's record has not changed for the lease's duration.
pub data Reason : Type 0 where
  creating renewing released expired : Reason

-- What is left to do once the record is read: nothing, or a write under the version read.
pub data Plan : Type 0 where
  stop : Change → Plan
  write : Option ℕ → Reason → Plan

-- `self.observed` after another holder's record was read.
unfoldable pub observe : ℕ → ℕ → Option (ℕ × ℕ) → ℕ × ℕ
observe now version none = (version, now)
observe now version (some (v, since)) = if v == version then (v, since) else (version, now)

-- The branch of `step` for another holder.
unfoldable pub on_other : ElectionConfig → ℕ → ℕ → Elector → Elector × Plan
unfolding observe is_leader
on_other c now version e =
    let seen = observe now version e.observed in
    (
      record { observed = some seen; last_renew = none },
      (if leb c.lease_duration (now - seen.1)
          then write (some version) expired
          else stop (if is_leader c e now then lost else no_change)),
    )

-- `step` up to its write.
unfoldable pub on_read : ElectionConfig → ℕ → Option LeaseRecord → Elector → Elector × Plan
unfolding on_other
on_read c now none e = (e, write none creating)
on_read c now (some r) e = elim r.holder [
  | none ↦ (e, write (some r.version) released)
  | some h ↦
      if h == c.identity then (e, write (some r.version) renewing) else on_other c now r.version e
]

-- `step` after its write, which succeeded or found that another writer got there first. `was` is
-- whether the replica led when the step began.
unfoldable pub on_write : ℕ → Reason → Bool → Bool → Elector → Elector × Change
on_write now creating was true e = (set_acquired now e, acquired false)
on_write now creating was false e = (e, no_change)
on_write now renewing was true e =
    (record e { last_renew = some now }, (if was then no_change else resumed))
on_write now renewing was false e = (e, no_change)
on_write now released was true e = (set_acquired now e, acquired true)
on_write now released was false e = (e, no_change)
on_write now expired was true e = (set_acquired now e, acquired false)
on_write now expired was false e = (e, (if was then lost else no_change))

module _ {S : Type 0} (b : LeaseBackend S) (c : ElectionConfig) where
  abbrev answer :
      ℕ
      → Reason
      → Bool
      → Elector
      → Result ElectionError Bool × S
      → Result ElectionError Change × Elector × S
  answer now reason was e (ok wrote, s) =
      let (e', change) = on_write now reason was wrote e in (ok change, e', s)
  answer now reason was e (err x, s) = (err x, e, s)
  answer now reason was e (panicked, s) = (panicked, e, s)

  abbrev carry_out : ℕ → Bool → S → Elector × Plan → Result ElectionError Change × Elector × S
  carry_out now was s (e, stop change) = (ok change, e, s)
  carry_out now was s (e, write expected reason) =
      answer now reason was e (b.put (some c.identity) expected s)

  -- `Elector::step`
  unfoldable pub step : ℕ → Elector → S → Result ElectionError Change × Elector × S
  unfolding on_read on_write is_leader
  step now e s = elim (b.get s) [
    | err x ↦ (err x, e, s)
    | panicked ↦ (panicked, e, s)
    | ok r ↦ carry_out now (is_leader c e now) s (on_read c now r e)
  ]

  abbrev is_no_change : Change → Bool
  is_no_change no_change = true
  is_no_change _ = false

  -- The end of `Elector::tick`: losing the lead is reported whatever the step's result.
  unfoldable pub judge_tick :
      ℕ
      → Bool
      → Result ElectionError Change × Elector × S
      → Result ElectionError Change × Elector × S
  unfolding is_leader
  judge_tick now was (ok change, e, s) =
      (ok (if is_no_change change && (was && not (is_leader c e now)) then lost else change), e, s)
  judge_tick now was (err x, e, s) =
      ((if was && not (is_leader c e now) then ok lost else err x), e, s)
  judge_tick now was (panicked, e, s) = (panicked, e, s)

  -- `Elector::tick`
  unfoldable pub tick : ℕ → Elector → S → Result ElectionError Change × Elector × S
  unfolding step judge_tick
  tick now e s = judge_tick now (is_leader c e now) (step now e s)

  abbrev cleared : Result ElectionError Bool × S → Result ElectionError (Unit {0}) × S
  cleared (ok wrote, s) = (ok tt, s)
  cleared (err x, s) = (err x, s)
  cleared (panicked, s) = (panicked, s)

  abbrev clear_holder : S → Option LeaseRecord → Result ElectionError (Unit {0}) × S
  clear_holder s none = (ok tt, s)
  clear_holder s (some r) = elim r.holder [
    | none ↦ (ok tt, s)
    | some h ↦ if h == c.identity then cleared (b.put none (some r.version) s) else (ok tt, s)
  ]

  abbrev clear_read :
      S → Result ElectionError (Option LeaseRecord) → Result ElectionError (Unit {0}) × S
  clear_read s (ok r) = clear_holder s r
  clear_read s (err x) = (err x, s)
  clear_read s panicked = (panicked, s)

  -- `Elector::release`: it stops serving first, whatever becomes of the record.
  unfoldable pub release : Elector → S → Elector × Result ElectionError (Unit {0}) × S
  release e s =
      let result = clear_read s (b.get s) in
      elim e.last_renew [
        | none ↦ (e, ok tt, s)
        | some t ↦ (record e { last_renew = none }, result.0, result.1)
      ]

-- `Leadership`: `none` serves always, and otherwise until the instant, if there is one.
abbrev Leadership : Type 0
Leadership = Option (Option ℕ)

-- `Leadership::set`
unfoldable set_until : Option ℕ → Leadership → Leadership
set_until until none = none
set_until until (some old) = some until

-- `Leadership::serving`
unfoldable pub serving : Leadership → ℕ → Bool
serving none now = true
serving (some none) now = false
serving (some (some u)) now = ltb now u
