-- ===== src/Service/Update/AtOnce.antt =====
-- Which change of the regions of a term that runs applies at once, and which waits for the next
-- (`apply_update` in crates/pt-control-plane/src/service.rs).
use provisioned_throughput.Base.{ℕ, ◌≡◌, Option, none, some, List, if◌then◌else◌}
use provisioned_throughput.Model.{RegionShare}
use provisioned_throughput.Failover.{growth}
use provisioned_throughput.Service.{Settings}
use provisioned_throughput.Service.Moves.{Draft, is_empty}
use provisioned_throughput.Service.Update.{Figures}
use provisioned_throughput.Service.Update.Regions.{has_pending_regions}
use provisioned_throughput.Service.Update.Increases.{OnlyRaises}

-- What became of a change of the regions, by the answer: whether a change is to be scheduled
-- (`some (some new)`), or a scheduled one dropped (`some none`).
pub data Decided (c : Settings) (f : Figures) (now : ℕ) (d : Draft) (new : List RegionShare)
    (answer : Option (Option (List RegionShare))) (d' : Draft) : Type 0 where
  -- it waits: it lowers a share, or adds or drops a region; nothing is touched
  waits :
      (OnlyRaises d.pt.regions new → ⊥)
      → answer ≡ some (some new)
      → d' ≡ d
      → Decided c f now d new answer d'
  -- it has been applied: the regions are the new ones, where any grew; a scheduled change is dropped
  applied :
      OnlyRaises d.pt.regions new
      → d'.pt.regions ≡ (if is_empty (growth d.pt.regions new) then d.pt.regions else new)
      → answer ≡ (if has_pending_regions c f now d'.pt then some none else none)
      → Decided c f now d new answer d'
