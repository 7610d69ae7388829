-- ===== src/Service/Deployments/Tests.antt =====
-- Keys and deployments of the sample reservation.
use provisioned_throughput.Base.{
  ◌≡◌, refl, sym, true, false, none, some, inl, inr, arith, leb, ◌==◌, string_eq, true-ne-false, In,
}
use provisioned_throughput.Model.{ApiKey, is_current}
use provisioned_throughput.Service.Runs.{Leaves, Stored}
use provisioned_throughput.Service.Keys.{Fresh, rotate_key}
use provisioned_throughput.Service.Keys.Ring.{IsKeyRing}
use provisioned_throughput.Service.Keys.Rings.{HasRings, IsFresh, IsNew, rotate_key-HasRings}
use provisioned_throughput.Service.Deployments.{create_deployment, update_deployment}
use provisioned_throughput.Service.Deployments.Limits.{HasSound, LacksId}
use provisioned_throughput.Service.Deployments.Requests.{
  create_deployment-IsSound, update_deployment-IsSound,
}
use provisioned_throughput.Service.Sample.{keys, primary, sample, running, Stored-one}

keys-IsKeyRing : IsKeyRing keys
unfolding is_current
keys-IsKeyRing = record { one_current = refl; few = omega arith; apart = apart }
  where
    apart :
        (a b : ApiKey)
        → In a keys
        → In b keys
        → is_current a ≡ true
        → is_current b ≡ false
        → (a.id == b.id) ≡ false
    apart a b (inl e) j ca cb = absurd (true-ne-false (sym (rw e at ca)))
    apart a b (inr (inl e)) (inl e') ca cb = rw (e, e') refl
    apart a b (inr (inl e)) (inr (inl e')) ca cb = absurd (true-ne-false (rw e' at cb))
    apart a b (inr (inl e)) (inr (inr j)) ca cb = absurd j
    apart a b (inr (inr i)) j ca cb = absurd i

sample-IsSound : HasSound sample
sample-IsSound = record {
  at_least = omega arith;
  at_most = omega arith;
  names = (tt, tt);
  ids = (tt, tt);
  rings = (keys-IsKeyRing, tt);
}

abbrev fresh : Fresh
fresh = record { id = "k3"; prefix = "pt"; sha256 = "c" }

sample-IsFresh : IsFresh "k3" sample
sample-IsFresh = (new, tt)
  where
    new : IsNew "k3" primary
    new k (inl e) = rw e refl
    new k (inr (inl e)) = rw e refl
    new k (inr (inr i)) = absurd i

rotate_key-HasRings_example :
    Leaves
      (Stored HasRings)
      HasRings
      (rotate_key fresh 50 "acme" "r1" none (some 4) (record { grace_minutes = none }) running)
rotate_key-HasRings_example =
    rotate_key-HasRings fresh 50 "acme" "r1" none (some 4) (record { grace_minutes = none }) running
      (Stored-one (λ pt. HasRings pt × IsFresh "k3" pt) ((keys-IsKeyRing, tt), sample-IsFresh))

create_deployment-IsSound_example :
    Leaves
      (Stored HasSound)
      (λ a. HasSound a.0)
      (create_deployment
        (leb 1)
        "d2"
        fresh
        50
        "acme"
        "r1"
        none
        (record { name = "batch"; max_share = some 5 })
        running)
create_deployment-IsSound_example =
    create_deployment-IsSound (leb 1) "d2" fresh 50 "acme" "r1" none
      (record { name = "batch"; max_share = some 5 }) running
      (Stored-one (λ pt. HasSound pt × LacksId "d2" pt) (sample-IsSound, (refl, tt)))

update_deployment-IsSound_example : Leaves (Stored HasSound) HasSound (
    update_deployment
      (leb 1)
      50
      "acme"
      "r1"
      "d1"
      (some 4)
      (record { name = some "prod"; max_share = some none })
      running)
update_deployment-IsSound_example =
    update_deployment-IsSound (leb 1) 50 "acme" "r1" "d1" (some 4)
      (record { name = some "prod"; max_share = some none }) running
      (Stored-one HasSound sample-IsSound)
