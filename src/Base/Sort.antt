-- ===== src/Base/Sort.antt =====
-- `sort_by`, the standard library's stable sort, by a test that one element goes before another.
use Prim.Native.Nat.{suc}
use mathlib.Core.Path.{◌≡◌, refl, ◌∙◌, ap}
use mathlib.Core.Logic.{inl, inr}
use mathlib.Core.Bool.{Bool}
use mathlib.Core.List.{List, [], ◌∷◌}
use native.Mathlib.Omega.{arith}
use provisioned_throughput.Base.Tests.{if◌then◌else◌, Bool-cases}
use provisioned_throughput.Base.Lists.{length, filter, In}

module _ {A : Type 0} (goes_before : A → A → Bool) where
  unfoldable pub place_in : A → List A → List A
  place_in a [] = a ∷ []
  place_in a (b ∷ rest) =
      let more = place_in a rest in if goes_before b a then b ∷ more else a ∷ b ∷ rest

  unfoldable pub sort_by : List A → List A
  unfolding place_in
  sort_by [] = []
  sort_by (a ∷ rest) = place_in a (sort_by rest)

  place_in-filter :
      (p : A → Bool) (a : A) (xs : List A)
      → length (filter p (place_in a xs)) ≡ length (filter p (a ∷ xs))
  unfolding place_in
  place_in-filter p a [] = refl
  place_in-filter p a (b ∷ rest) = ground (arith, place_in-filter p a rest)

  -- Sorting keeps how many elements pass a test.
  pub sort_by-filter :
      (p : A → Bool) (xs : List A) → length (filter p (sort_by xs)) ≡ length (filter p xs)
  unfolding sort_by
  sort_by-filter p [] = refl
  sort_by-filter p (a ∷ rest) =
      ground (arith, place_in-filter p a (sort_by rest), sort_by-filter p rest)

  length-place_in : (a : A) (xs : List A) → length (place_in a xs) ≡ suc (length xs)
  unfolding place_in
  length-place_in a [] = refl
  length-place_in a (b ∷ rest) = ground (arith, length-place_in a rest)

  pub length-sort_by : (xs : List A) → length (sort_by xs) ≡ length xs
  unfolding sort_by
  length-sort_by [] = refl
  length-sort_by (a ∷ rest) = length-place_in a (sort_by rest) ∙ ap suc (length-sort_by rest)

  In-place_in : (x a : A) (xs : List A) → In x (place_in a xs) → In x (a ∷ xs)
  unfolding place_in
  In-place_in x a [] i = i
  In-place_in x a (b ∷ rest) i = elim (Bool-cases (goes_before b a)) [
    | inl t ↦ elim (rw t at i) as (λ _. In x (a ∷ b ∷ rest)) [
      | inl e ↦ inr (inl e)
      | inr j ↦ elim (In-place_in x a rest j) [ inl e ↦ inl e | inr k ↦ inr (inr k) ]
    ]
    | inr f ↦ rw f at i
  ]

  -- It adds nothing.
  pub In-sort_by : (x : A) (xs : List A) → In x (sort_by xs) → In x xs
  unfolding sort_by
  In-sort_by x [] i = i
  In-sort_by x (a ∷ rest) i = elim (In-place_in x a (sort_by rest) i) [
    | inl e ↦ inl e
    | inr j ↦ inr (In-sort_by x rest j)
  ]

  In-place_in_back : (x a : A) (xs : List A) → In x (a ∷ xs) → In x (place_in a xs)
  unfolding place_in
  In-place_in_back x a [] i = i
  In-place_in_back x a (b ∷ rest) i = elim (Bool-cases (goes_before b a)) [
    | inr f ↦ rw (place_in, f) i
    | inl t ↦
        rw (place_in, t)
          (elim i [
            | inl e ↦ inr (In-place_in_back x a rest (inl e))
            | inr j ↦ elim j [ inl e ↦ inl e | inr k ↦ inr (In-place_in_back x a rest (inr k)) ]
          ])
  ]

  -- Nor does it lose anything.
  pub In-sort_back : (x : A) (xs : List A) → In x xs → In x (sort_by xs)
  unfolding sort_by
  In-sort_back x [] i = i
  In-sort_back x (a ∷ rest) (inl e) = In-place_in_back x a (sort_by rest) (inl e)
  In-sort_back x (a ∷ rest) (inr j) =
      In-place_in_back x a (sort_by rest) (inr (In-sort_back x rest j))
