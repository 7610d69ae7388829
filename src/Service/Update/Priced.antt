-- ===== src/Service/Update/Priced.antt =====
-- A reservation's CUs, addresses and price are those of its regions.
use provisioned_throughput.Base.{ℕ, ◌≡◌, refl, sym, ap, subst, Option, String, All}
use provisioned_throughput.Model.{total_cus, ProvisionedThroughput}
use provisioned_throughput.Model.Requests.{UpdateRequest}
use provisioned_throughput.Service.{Settings, Service, endpoints, tidy_placements}
use provisioned_throughput.Service.Runs.{Leaves, Stored}
use provisioned_throughput.Service.Keys.Ring.{IsKeyRing}
use provisioned_throughput.Service.Keys.Rings.{HasRings}
use provisioned_throughput.Service.Moves.{Draft}
use provisioned_throughput.Service.Update.{Figures, set_rebalance, set_tier}
use provisioned_throughput.Service.Update.Regions.{set_regions}
use provisioned_throughput.Service.Update.Apply.{set_shape, schedule, refresh, apply_update}
use provisioned_throughput.Service.Update.Kept.{mark}
use provisioned_throughput.Service.Update.Applied.{apply_update-Keeps}
use provisioned_throughput.Service.Update.Stored.{Ends, then_edit-Ends, update-Stored}
use provisioned_throughput.Service.Update.Request.{update}

-- The regions are the contract; what a customer sees of it follows from them.
pub record IsPriced (c : Settings) (pt : ProvisionedThroughput) : Type 0 where
  pub of_cus : pt.cus ≡ total_cus pt.regions
  pub of_endpoints : pt.endpoints ≡ endpoints c pt.regions
  pub of_price : pt.price ≡ c.price pt.tier pt.isolation pt.sku pt.cus

module _ (c : Settings) (f : Figures) (now : ℕ) where
  apply_update-IsPriced :
      (req : UpdateRequest) (d : Draft) → Ends (IsPriced c) (apply_update c f now req d)
  unfolding apply_update refresh
  apply_update-IsPriced req d =
      then_edit-Ends (IsPriced c) (set_rebalance c f now req.rebalance _) _ (λ u d.
        then_edit-Ends (IsPriced c) (set_tier c f now _ _ req.tier d) _ (λ tier d.
          then_edit-Ends (IsPriced c) (set_regions c f now _ _ req.regions d) _ (λ regions d.
            then_edit-Ends (IsPriced c) (set_shape c f now req.shape d) _ (λ u d.
              then_edit-Ends (IsPriced c) (schedule c f now tier regions d) _ (λ u d. record {
                holds = λ a e. record { of_cus = refl; of_endpoints = refl; of_price = refl };
              })))))

-- When the CUs, the endpoints and the price of every stored reservation are those of its regions, then
-- so they are in every stored reservation after an update, on success, on each error and on a panic,
-- and in the reservation that the update returns.
pub update-IsPriced :
    (c : Settings) (f : Figures) (now : ℕ) (tenant id : String) (if_match : Option ℕ)
    (req : UpdateRequest) (s : Service)
    → Stored (IsPriced c) s
    → Leaves (Stored (IsPriced c)) (IsPriced c) (update c f now tenant id if_match req s)
unfolding tidy_placements
update-IsPriced c f now tenant id if_match req s =
    update-Stored c f now (IsPriced c) tenant id if_match req s
      (λ pt p. record { of_cus = p.of_cus; of_endpoints = p.of_endpoints; of_price = p.of_price })
      (λ d p. apply_update-IsPriced c f now req d)

-- When in every stored reservation the keys of each deployment make a ring, then so they do after an
-- update, on success, on each error and on a panic, and in the reservation that the update returns.
update-HasRings :
    (c : Settings) (f : Figures) (now : ℕ) (tenant id : String) (if_match : Option ℕ)
    (req : UpdateRequest) (s : Service)
    → Stored HasRings s
    → Leaves (Stored HasRings) HasRings (update c f now tenant id if_match req s)
unfolding tidy_placements
update-HasRings c f now tenant id if_match req s =
    update-Stored c f now HasRings tenant id if_match req s (λ pt p. p)
      (λ d p. record {
        holds = λ a e.
            subst (λ ds. All (λ d. IsKeyRing d.api_keys) ds)
              (sym
                (ap (λ m. m.0.deployments) (apply_update-Keeps c f now req (mark d) d refl).same))
              p;
      })
