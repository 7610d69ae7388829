-- ===== src/Service/Keys/Ring.antt =====
-- The keys of a deployment: one of them is current, a few older ones live out their grace period.
use provisioned_throughput.Base.{
  ℕ, ◌≤◌, ◌≡◌, refl, sym, ◌∙◌, ap, Bool, true, false, not, Option, none, some, List, [], ◌∷◌, ◌++◌,
  String, ◌⊎◌, inl, inr, arith, filter, find, take, length, length-append, Bool-cases, In,
  In-filter_into, true-ne-false, ◌==◌, ==_refl, ==_iff, string_eq, some-eq, Option-cases,
}
use provisioned_throughput.Base.Counts.{
  count_append, count_take, count_filter, none_pass, count_keep, length-filter, length-take_le,
  In-take, In-append_into, find-In,
}
use provisioned_throughput.Base.Sort.{sort_by, sort_by-filter, length-sort_by, In-sort_by}
use provisioned_throughput.Base.Result.{ok, err-ne-ok}
use provisioned_throughput.Model.{ApiKey, is_current, Deployment, current_key}
use provisioned_throughput.Service.Keys.{
  expire_current, is_newer, is_older, previous_id, rotated_out, rotate_deployment, prune_keys,
  is_unexpired, revocable,
}

-- How many keys are current.
abbrev currents : List ApiKey → ℕ
currents keys = length (filter is_current keys)

-- One key is current, at most two others are kept, and none of these has the id of the current one.
pub record IsKeyRing (keys : List ApiKey) : Type 0 where
  pub one_current : currents keys ≡ 1
  pub few : length keys ≤ 3
  pub apart :
      (a b : ApiKey)
      → In a keys
      → In b keys
      → is_current a ≡ true
      → is_current b ≡ false
      → (a.id == b.id) ≡ false

-- With its grace period set, the current key is current no more.
currents-expire :
    (at : ℕ) (keys : List ApiKey) → currents keys ≡ 1 → currents (expire_current at keys) ≡ 0
unfolding expire_current is_current
currents-expire at [] e = absurd (omega (arith, e))
currents-expire at (k ∷ rest) e = ground (arith, currents-expire at rest)

-- Without a grace period the current key is dropped, by its id.
currents-drop :
    (k : ApiKey) (keys : List ApiKey)
    → find is_current keys ≡ some k
    → currents keys ≡ 1
    → currents (filter (λ x. not (x.id == k.id)) keys) ≡ 0
unfolding is_current
currents-drop k [] f e = absurd (omega (arith, e))
currents-drop k (x ∷ rest) f e = elim (Bool-cases (is_current x)) [
  | inl t ↦
      let same : x ≡ k = some-eq (rw t at f) in
      let its_id : (x.id == k.id) ≡ true = rw (← same) (==_refl x.id) in
      let fewer = count_filter is_current (λ y. not (y.id == k.id)) rest in ground arith
  | inr n ↦ let ih = currents-drop k rest (rw n at f) (rw n at e) in ground arith
]

-- A key whose grace period is set keeps its id.
In-expire :
    (at : ℕ) (x : ApiKey) (keys : List ApiKey)
    → In x (expire_current at keys)
    → (y : ApiKey) × In y keys × (y.id ≡ x.id)
unfolding expire_current
In-expire at x [] i = absurd i
In-expire at x (k ∷ rest) i = elim (Bool-cases (is_current k)) [
  | inl t ↦ elim (rw t at i) as (λ _. (y : ApiKey) × In y (k ∷ rest) × (y.id ≡ x.id)) [
    | inl e ↦ (k, inl refl, ap (λ z. z.id) (sym e))
    | inr j ↦ (x, inr j, refl)
  ]
  | inr n ↦ elim (rw n at i) as (λ _. (y : ApiKey) × In y (k ∷ rest) × (y.id ≡ x.id)) [
    | inl e ↦ (x, inl e, refl)
    | inr j ↦ let (y, h, e) = In-expire at x rest j in (y, inr h, e)
  ]
]

has_current :
    (keys : List ApiKey) → currents keys ≡ 1 → (k : ApiKey) × (find is_current keys ≡ some k)
has_current [] e = absurd (omega (arith, e))
has_current (k ∷ rest) e = elim (Bool-cases (is_current k)) [
  | inl t ↦ (k, rw t refl)
  | inr n ↦ let (j, h) = has_current rest (rw n at e) in (j, rw n h)
]

-- What a rotation keeps has no current key.
currents-rotated_out :
    (at : Option ℕ) (d : Deployment) → currents d.api_keys ≡ 1 → currents (rotated_out at d) ≡ 0
unfolding rotated_out previous_id current_key
currents-rotated_out (some at) d e = currents-expire at d.api_keys e
currents-rotated_out none d e =
    let (k, h) = has_current d.api_keys e in rw h (currents-drop k d.api_keys h e)

In-rotated_out :
    (at : Option ℕ) (x : ApiKey) (d : Deployment)
    → In x (rotated_out at d)
    → (y : ApiKey) × In y d.api_keys × (y.id ≡ x.id)
unfolding rotated_out
In-rotated_out (some at) x d i = In-expire at x d.api_keys i
In-rotated_out none x d i =
    (x, (In-filter_into (λ k. not (k.id == previous_id d)) x d.api_keys i).0, refl)

-- The ring made of a fresh current key and of keys that are not current.
ring_of :
    (new : ApiKey) (kept : List ApiKey)
    → is_current new ≡ true
    → currents kept ≡ 0
    → length kept ≤ 2
    → ((x : ApiKey) → In x kept → (new.id == x.id) ≡ false)
    → IsKeyRing (sort_by is_older (kept ++ new ∷ []))
ring_of new kept current old short fresh =
    let counted = count_append is_current kept (new ∷ []) in
    let one : length (filter is_current (new ∷ [])) ≡ 1 = rw current refl in
    let size = length-append kept (new ∷ []) in
    record {
      one_current = sort_by-filter is_older is_current (kept ++ new ∷ []) ∙ omega arith;
      few = rw (length-sort_by is_older (kept ++ new ∷ [])) (omega arith);
      apart = λ a b i j ca cb.
          let from_a = In-append_into a kept (new ∷ []) (In-sort_by is_older a _ i) in
          let from_b = In-append_into b kept (new ∷ []) (In-sort_by is_older b _ j) in
          apart_of a b from_a from_b ca cb;
    }
  where
    apart_of :
        (a b : ApiKey)
        → In a kept ⊎ In a (new ∷ [])
        → In b kept ⊎ In b (new ∷ [])
        → is_current a ≡ true
        → is_current b ≡ false
        → (a.id == b.id) ≡ false
    apart_of a b (inl i) j ca cb =
        absurd (true-ne-false (sym ca ∙ none_pass is_current a kept old i))
    apart_of a b (inr (inl e)) (inl j) ca cb = rw e (fresh b j)
    apart_of a b (inr (inl e)) (inr (inl e')) ca cb =
        absurd (true-ne-false (sym current ∙ ap is_current (sym e') ∙ cb))
    apart_of a b (inr (inl e)) (inr (inr j)) ca cb = absurd j
    apart_of a b (inr (inr i)) j ca cb = absurd i

-- A rotation with a current key of a fresh id keeps the ring: the new key is the only current one,
-- whether the old one is given a grace period or dropped, and at most two older keys stay.
pub rotate_deployment-IsKeyRing :
    (new : ApiKey) (at : Option ℕ) (d : Deployment)
    → IsKeyRing d.api_keys
    → is_current new ≡ true
    → ((k : ApiKey) → In k d.api_keys → (new.id == k.id) ≡ false)
    → IsKeyRing (rotate_deployment new at d).0.api_keys
unfolding rotate_deployment
rotate_deployment-IsKeyRing new at d ring current fresh =
    let previous = sort_by is_newer (rotated_out at d) in
    let sorted = sort_by-filter is_newer is_current (rotated_out at d) in
    let none_left = currents-rotated_out at d ring.one_current in
    let fewer = count_take is_current 2 previous in
    ring_of new (take 2 previous) current (omega arith) (length-take_le 2 previous) (λ x i.
      let (y, h, e) = In-rotated_out at x d (In-sort_by is_newer x _ (In-take x 2 previous i)) in
      rw (← e) (fresh y h))

-- A ring stays one when keys that are not current are taken out.
filter-IsKeyRing :
    (q : ApiKey → Bool) (keys : List ApiKey)
    → IsKeyRing keys
    → ((k : ApiKey) → In k keys → is_current k ≡ true → q k ≡ true)
    → IsKeyRing (filter q keys)
filter-IsKeyRing q keys ring keep = record {
  one_current = count_keep is_current q keys keep ∙ ring.one_current;
  few = let shorter = length-filter q keys in let bound = ring.few in omega arith;
  apart = λ a b i j. ring.apart a b (In-filter_into q a keys i).0 (In-filter_into q b keys j).0;
}

-- Keys that expire are not current.
pub prune_keys-IsKeyRing :
    (now : ℕ) (d : Deployment) → IsKeyRing d.api_keys → IsKeyRing (prune_keys now d).api_keys
unfolding prune_keys is_unexpired is_current
prune_keys-IsKeyRing now d ring =
    filter-IsKeyRing (is_unexpired now) d.api_keys ring (λ k i c. ground arith)

-- A key may be revoked when it is there and is not current, and the ring stays.
pub revoke-IsKeyRing :
    (key_id : String) (d : Deployment)
    → IsKeyRing d.api_keys
    → revocable key_id d ≡ ok tt
    → IsKeyRing (filter (λ k. not (k.id == key_id)) d.api_keys)
unfolding revocable
revoke-IsKeyRing key_id d ring e = elim (Option-cases (find (λ k. k.id == key_id) d.api_keys)) [
  | inl n ↦ absurd (err-ne-ok (rw (revocable, n) at e))
  | inr (j, h) ↦
      let (i, named) = find-In (λ k. k.id == key_id) j d.api_keys h in
      let same : j.id ≡ key_id = (==_iff j.id key_id).0 named in
      elim (Bool-cases (is_current j)) [
        | inl c ↦ absurd (err-ne-ok (rw (revocable, h, c) at e))
        | inr old ↦
            filter-IsKeyRing (λ k. not (k.id == key_id)) d.api_keys ring
              (λ k at_k current. rw (← same, ring.apart k j at_k i current old) refl)
      ]
]
