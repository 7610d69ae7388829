-- ===== src/Service/Tests.antt =====
-- The lifecycle run, deletions and sales of the sample reservation.
use provisioned_throughput.Base.{
  ℕ, ◌≡◌, refl, sym, ap, none, some, List, [], ◌∷◌, arith, string_eq, some-eq,
}
use provisioned_throughput.Base.Dict
use provisioned_throughput.Base.Result.{ok}
use provisioned_throughput.Model.{Sku, State, is_live, ProvisionedThroughput}
use provisioned_throughput.Planner.Memory.{release}
use provisioned_throughput.Store.{MemoryStore, update}
use provisioned_throughput.Store.{insert, insert_incident, update_incident, try_lease, is_free}
use provisioned_throughput.Service.Lifecycle.{catch_up, begin}
use provisioned_throughput.Service.Lifecycle.Rounds.{Gives}
use provisioned_throughput.Service.Lifecycle.Settled.{Settles, take_turn-Settles}
use provisioned_throughput.Service.{Service}
use provisioned_throughput.Service.Delete.{cancelled_now, already_inactive, delete}
use provisioned_throughput.Service.Delete.Twice.{delete-delete}
use provisioned_throughput.Store
use provisioned_throughput.Store.{put_hold}
use provisioned_throughput.Base.Result.{err}
use provisioned_throughput.Errors.{conflict}
use provisioned_throughput.Capacity.{capacity_for}
use provisioned_throughput.Validate.{regions}
use provisioned_throughput.Validate.Regions.{AreFit, regions-AreFit}
use provisioned_throughput.Service.Holds.{sales_open, hold_sales, new_hold}
use provisioned_throughput.Service.Holds.Pause.{sales_open-hold_sales}
use provisioned_throughput.Model.{RegionShare, EventKind, effective}
use provisioned_throughput.Failover.{footprint}
use provisioned_throughput.Base.{w64}
use provisioned_throughput.Service.Sample.{sample, stored, running, settings, sells}

-- Two terms have passed since the last run.
take_turn-Settles_example : Gives (Settles 110 State.active) (
    catch_up settings 110 111
      (begin 110 sample (record { activated = 0; renewed = 0; ended = 0; conflicts = 0 }))
      running)
unfolding is_live
take_turn-Settles_example =
    take_turn-Settles settings 110 sample
      (record { activated = 0; renewed = 0; ended = 0; conflicts = 0 }) running
      (λ t m h. omega arith) refl

-- A reservation that has not started is cancelled, and then deleted again.
abbrev waiting : Service
waiting = record running {
  store = record stored { by_id = ("r1", record sample { state = State.scheduled }) ∷ [] };
}

abbrev closed : ProvisionedThroughput
closed = record sample {
  state = State.cancelled;
  version = 5;
  updated_at = 30;
  events = record { at = 30; kind = EventKind.cancelled } ∷ [];
}

abbrev after : Service
after = record running {
  store = record stored { by_id = ("r1", closed) ∷ []; version = 30 };
  changes = 30;
}

delete-delete_example :
    delete settings 35 "acme" "r1" none after ≡ (ok (closed, already_inactive), after)
unfolding delete Store.bump_version update release Dict.get Store.get w64 Dict.insert footprint
    effective
delete-delete_example =
    delete-delete settings 30 35 "acme" "r1" (some 4) closed cancelled_now waiting after named refl
  where
    named : (q : ProvisionedThroughput) → Dict.get "r1" waiting.store.by_id ≡ some q → q.id ≡ "r1"
    named q e = ap (λ x. x.id) (sym (some-eq e))

abbrev put_hold_at : Service → Service
put_hold_at s = record s { store = put_hold (new_hold 50 "eu" "m" "drain" "node drain" 10) s.store }

sales_open-hold_sales_example :
    sales_open 55 "m" (record { region = "eu"; cus = 1 } ∷ []) (put_hold_at running)
    ≡ (err (conflict "sales_paused"), put_hold_at running)
unfolding hold_sales capacity_for
sales_open-hold_sales_example =
    sales_open-hold_sales sells 50 55 "eu" "m" "drain" "node drain" 10
      (record { region = "eu"; cus = 1 } ∷ []) (new_hold 50 "eu" "m" "drain" "node drain" 10)
      running (put_hold_at running) refl (omega arith) refl

abbrev eu : ℕ → List RegionShare
eu n = record { region = "eu"; cus = n } ∷ []

abbrev both : List RegionShare
both = record { region = "us"; cus = 2 } ∷ record { region = "eu"; cus = 1 } ∷ []

regions-AreFit_example : AreFit sells.offer "m" Sku.regional (eu 3)
unfolding regions
regions-AreFit_example = regions-AreFit sells.offer "m" Sku.regional (eu 3) refl
