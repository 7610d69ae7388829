-- ===== src/Spares/Relabel.antt =====
-- The label changes of a role, once they are made.

use provisioned_throughput.Base.{
  ◌≡◌, refl, sym, subst, Bool, true, false, Option, none, some, List, [], ◌∷◌, String, inl, inr,
  All, All-In, In, find, Bool-cases, ◌==◌, ==_iff, ==_refl, string_eq, option_eq, if◌then◌else◌,
}
use provisioned_throughput.Base.Distinct.{Apart, ==-false_sym}
use provisioned_throughput.Spares.{
  PodServing, spare, floor, is_spare, contains, relabel, ends_spare,
}
use provisioned_throughput.Spares.Choice.{AreNamed}

-- No change is for a pod that is not there.
find-absent :
    (spares : List String) (p : PodServing) (ps : List PodServing)
    → All (Apart (λ q. q.name) p) ps
    → find (λ e. e.0 == p.name) (relabel spares ps) ≡ none
unfolding relabel
find-absent spares p [] h = refl
find-absent spares p (q ∷ rest) h =
    let ih = find-absent spares p rest h.1 in
    let apart : (q.name == p.name) ≡ false = ==-false_sym p.name q.name h.0 in
    elim (Bool-cases (q.serving == some (if contains q.name spares then spare else floor))) [
      | inl t ↦ rw (relabel, t) ih
      | inr f ↦ rw (relabel, f, apart) ih
    ]

-- The label that a pod is to have is `spare` exactly when its name is chosen.
target-spare :
    (b : Bool) (s : Option String)
    → (s == some (if b then spare else floor)) ≡ true
    → (s == some spare) ≡ b
target-spare b s e =
    let same : s ≡ some (if b then spare else floor) = (==_iff s _).0 e in
    subst (λ x. (x == some spare) ≡ b) (sym same) (of_bool b)
  where
    of_bool : (b : Bool) → (some (if b then spare else floor) == some spare) ≡ b
    of_bool true = refl
    of_bool false = refl

target-text : (b : Bool) → ((if b then spare else floor) == spare) ≡ b
target-text true = refl
target-text false = refl

-- Once its changes are made, a serving pod of a role is a spare exactly when its name was chosen,
-- when no two of the pods have the same name.
pub relabel-ends :
    (spares : List String) (p : PodServing) (ps : List PodServing)
    → AreNamed ps
    → In p ps
    → ends_spare (relabel spares ps) p ≡ contains p.name spares
unfolding ends_spare relabel is_spare
relabel-ends spares p [] d i = absurd i
relabel-ends spares p (q ∷ rest) d (inl e) =
    subst (λ x. ends_spare (relabel spares (q ∷ rest)) x ≡ contains x.name spares) (sym e) at_head
  where
    at_head : ends_spare (relabel spares (q ∷ rest)) q ≡ contains q.name spares
    at_head =
        let absent = find-absent spares q rest d.0 in
        elim (Bool-cases (q.serving == some (if contains q.name spares then spare else floor))) [
          | inl t ↦
              rw (ends_spare, relabel, t, absent)
                (target-spare (contains q.name spares) q.serving t)
          | inr f ↦
              rw (ends_spare, relabel, f, ==_refl q.name) (target-text (contains q.name spares))
        ]
relabel-ends spares p (q ∷ rest) d (inr i) =
    let apart : (q.name == p.name) ≡ false = All-In (Apart (λ q. q.name) q) p rest d.0 i in
    let ih = relabel-ends spares p rest d.1 i in
    elim (Bool-cases (q.serving == some (if contains q.name spares then spare else floor))) [
      | inl t ↦ rw (ends_spare, relabel, t) ih
      | inr f ↦ rw (ends_spare, relabel, f, apart) ih
    ]
