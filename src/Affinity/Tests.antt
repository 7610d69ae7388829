-- ===== src/Affinity/Tests.antt =====
-- Replicas of one region.
use provisioned_throughput.Base.{◌≡◌, refl, none, some, [], ◌∷◌, String, inl, inr, In, w64}
use provisioned_throughput.Base.Dict
use provisioned_throughput.Base.Sort.{sort_by}
use provisioned_throughput.Affinity.{
  AffinityConfig, Affinity, is_up, forward, route, new, refresh, mark_down, norm,
}
use provisioned_throughput.Affinity.Routes.{IsOther, route-IsOther}
use provisioned_throughput.Affinity.Stays.{live, route-stays}
use provisioned_throughput.Affinity.Members.{
  HasSelf, start, next, refreshed, marked, Reaches-HasSelf,
}

abbrev replica : String → Affinity
replica url = record {
  self_url = url;
  peers = "http://a" ∷ "http://b" ∷ [];
  discovery = none;
  home_below_cus = 2;
  home_gateways = 1;
  down = [];
}

-- A session and a small reservation that belong to the second replica.
forwarded :
    (route (replica "http://a") (some "s3") "d" 9 0 50 ≡ forward "http://b")
    × (route (replica "http://a") none "d" 2 0 50 ≡ forward "http://b")
unfolding route Dict.get sort_by w64
forwarded = (refl, refl)

-- Three replicas, and one of them once the first is gone.
abbrev three : Affinity
three = record (replica "http://a") { peers = "http://a" ∷ "http://b" ∷ "http://c" ∷ [] }

abbrev third : Affinity
third = record (replica "http://c") { peers = "http://b" ∷ "http://c" ∷ [] }

route-stays_example : route third (some "s3") "d" 9 0 70 ≡ forward "http://b"
unfolding route Dict.get sort_by w64 is_up
route-stays_example = route-stays three third "s3" "d" 9 0 50 70 "http://b" refl fewer (inl refl)
  where
    fewer : (x : String) → In x (live third 70) → In x (live three 50)
    fewer x (inl e) = inr (inl e)
    fewer x (inr (inl e)) = inr (inr (inl e))
    fewer x (inr (inr i)) = absurd i

route-IsOther_example : IsOther (replica "http://a") 50 "http://b"
unfolding route Dict.get sort_by w64
route-IsOther_example = route-IsOther (replica "http://a") none "d" 2 0 50 "http://b" refl

abbrev config : AffinityConfig
config = record {
  self_url = "http://b/";
  peers = "http://b" ∷ "http://a/" ∷ [];
  discovery_dns = none;
  refresh_secs = 10;
  self_ip_env = none;
  home_below_cus = 2;
  home_gateways = 1;
}

abbrev fresh : Affinity
fresh = replica "http://b"

abbrev later : Affinity
later = mark_down "http://a" 70 (refresh (some ("c" ∷ [])) fresh)

Reaches-HasSelf_example : HasSelf later
unfolding new norm sort_by
Reaches-HasSelf_example =
    Reaches-HasSelf (λ v. none) config fresh later refl
      (next (next start (refreshed (some ("c" ∷ [])))) (marked "http://a" 70))
