-- ===== src/Spares/Tests.antt =====
-- The choice of spares among three pods.
use provisioned_throughput.Base.{
  ◌≡◌, refl, true, false, none, some, List, [], ◌∷◌, String, Option, inl,
}
use provisioned_throughput.Base.Sort.{sort_by}
use provisioned_throughput.Drain.{Role}
use provisioned_throughput.Spares.{PodServing, choose, relabel, ends_spare, assign, is_spare}
use provisioned_throughput.Spares.Choice.{IsChoice, choose-IsChoice}
use provisioned_throughput.Spares.Relabel.{relabel-ends}

abbrev pod : String → Option String → PodServing
pod name serving = record {
  name = name;
  role = Role.decode;
  ready = true;
  terminating = false;
  serving = serving;
}

abbrev pods : List PodServing
pods = pod "d-0" (some "spare") ∷ pod "d-1" none ∷ pod "d-2" (some "floor") ∷ []

-- One hot spare of three pods, two of which have to stay: the pod that is a spare stays one.
keeps_spare : assign pods 1 (λ r. 2) ≡ ("d-1", "floor") ∷ []
unfolding assign is_spare sort_by
keeps_spare = refl

-- A spare that is not ready goes back to the floor, and the newest pod takes its place.
replaces_spare :
    assign
      (record (pod "d-0" (some "spare")) { ready = false } ∷ pod "d-1" none ∷ pod "d-2" none ∷ [])
      1
      (λ r. 1)
    ≡ ("d-0", "floor") ∷ ("d-1", "floor") ∷ ("d-2", "spare") ∷ []
unfolding assign is_spare sort_by
replaces_spare = refl

choose-IsChoice_example : IsChoice 1 2 pods (choose 1 2 pods)
choose-IsChoice_example = choose-IsChoice 1 2 pods ((refl, (refl, tt)), ((refl, tt), (tt, tt)))

relabel-ends_example : ends_spare (relabel ("d-2" ∷ []) pods) (pod "d-0" (some "spare")) ≡ false
relabel-ends_example =
    relabel-ends ("d-2" ∷ []) (pod "d-0" (some "spare")) pods
      ((refl, (refl, tt)), ((refl, tt), (tt, tt))) (inl refl)
