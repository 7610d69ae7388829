-- ===== src/Service/Update/Tests.antt =====
-- Updates of the sample reservation.
use provisioned_throughput.Base.{
  refl, true, false, none, some, [], ◌∷◌, inl, inr, nat_eq, string_eq, ◌==◌, subst, w32, Bool-cases,
  some-eq, none-ne-some,
}
use provisioned_throughput.Base.Dict
use provisioned_throughput.Model.{ProvisionedThroughput, total_cus}
use provisioned_throughput.Model.Requests.{UpdateRequest}
use provisioned_throughput.Service.{Service, endpoints}
use provisioned_throughput.Service.Moves.{Draft}
use provisioned_throughput.Service.Runs.{Leaves, Stored}
use provisioned_throughput.Service.Sample.{sample, stored, running, settings, shape}
use provisioned_throughput.Service.Update.{Figures}
use provisioned_throughput.Service.Update.Regions.{set_regions}
use provisioned_throughput.Service.Moves.Tests.{placed, draft, eu}
use provisioned_throughput.Service.Update.Request.{update}
use provisioned_throughput.Service.Update.Priced.{IsPriced, update-IsPriced}

abbrev figures : Figures
figures = record {
  same_shape = λ a b. a.input_p95 == b.input_p95;
  same_policy = λ a b. true;
  same_reservation = λ a b. false;
  prorated_increase = λ per_cu added months start ends now. 0;
}

abbrev request : UpdateRequest
request = record {
  name = some "prod";
  tier = none;
  regions = none;
  shape = none;
  boundary_policy = none;
  auto_renew = some false;
  rebalance = none;
}

abbrev priced : ProvisionedThroughput
priced = record sample { endpoints = record { region = "eu"; url = "eu" } ∷ [] }

abbrev service : Service
service = record running { store = record stored { by_id = ("r1", priced) ∷ [] } }

update-IsPriced_example :
    Leaves
      (Stored (IsPriced settings))
      (IsPriced settings)
      (update settings figures 30 "acme" "r1" (some 4) request service)
unfolding total_cus endpoints Dict.get w32
update-IsPriced_example =
    update-IsPriced settings figures 30 "acme" "r1" (some 4) request service all_priced
  where
    all_priced : Stored (IsPriced settings) service
    all_priced id pt e = elim (Bool-cases ("r1" == id)) [
      | inl t ↦
          subst (IsPriced settings) (some-eq (rw t at e))
            (record { of_cus = refl; of_endpoints = refl; of_price = refl })
      | inr f ↦ absurd (none-ne-some (rw f at e))
    ]

abbrev changed : Draft
changed = (set_regions placed figures 50 false shape (some eu) draft).1
