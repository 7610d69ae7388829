-- ===== src/Base/Counts.antt =====
-- How many elements of a list pass a test, and where an element of a list made from others comes from.
use Prim.Native.Nat.{ℕ, zero, suc, ◌+◌, ◌≤◌}
use mathlib.Core.Path.{◌≡◌, refl, sym, ap}
use mathlib.Core.Logic.{◌⊎◌, inl, inr}
use mathlib.Core.Bool.{Bool, true, false}
use mathlib.Core.Option.{some}
use mathlib.Core.List.{List, [], ◌∷◌, ◌++◌, map}
use native.Mathlib.Omega.{arith}
use provisioned_throughput.Base.Tests.{Bool-cases, some-eq, none-ne-some}
use provisioned_throughput.Base.Lists.{filter, find, take, length, In, filter-eq_nil}

module _ {A : Type 0} (p : A → Bool) where
  pub count_append :
      (xs ys : List A) → length (filter p (xs ++ ys)) ≡ length (filter p xs) + length (filter p ys)
  count_append [] ys = omega arith
  count_append (x ∷ xs) ys = ground (arith, count_append xs ys)

  pub count_take : (n : ℕ) (xs : List A) → length (filter p (take n xs)) ≤ length (filter p xs)
  count_take zero xs = omega arith
  count_take (suc n) [] = omega arith
  count_take (suc n) (x ∷ xs) = ground (arith, count_take n xs)

  pub count_filter :
      (q : A → Bool) (xs : List A) → length (filter p (filter q xs)) ≤ length (filter p xs)
  count_filter q [] = omega arith
  count_filter q (x ∷ xs) = ground (arith, count_filter q xs)

  pub none_pass : (x : A) (xs : List A) → length (filter p xs) ≡ 0 → In x xs → p x ≡ false
  none_pass x xs e i = filter-eq_nil p x xs (nil_of (filter p xs) e) i
    where
      nil_of : (ys : List A) → length ys ≡ 0 → ys ≡ []
      nil_of [] e = refl
      nil_of (y ∷ ys) e = absurd (omega (arith, e))

pub length-filter : {A : Type 0} (q : A → Bool) (xs : List A) → length (filter q xs) ≤ length xs
length-filter q [] = omega arith
length-filter q (x ∷ xs) = ground (arith, length-filter q xs)

pub length-take_le : {A : Type 0} (n : ℕ) (xs : List A) → length (take n xs) ≤ n
length-take_le zero xs = omega arith
length-take_le (suc n) [] = omega arith
length-take_le (suc n) (x ∷ xs) = ground (arith, length-take_le n xs)

pub In-map : {A B : Type 0} (f : A → B) (x : A) (xs : List A) → In x xs → In (f x) (map f xs)
In-map f x [] i = absurd i
In-map f x (y ∷ ys) (inl e) = inl (ap f e)
In-map f x (y ∷ ys) (inr i) = inr (In-map f x ys i)

pub In-take : {A : Type 0} (x : A) (n : ℕ) (xs : List A) → In x (take n xs) → In x xs
In-take x zero xs i = absurd i
In-take x (suc n) [] i = i
In-take x (suc n) (y ∷ ys) (inl e) = inl e
In-take x (suc n) (y ∷ ys) (inr i) = inr (In-take x n ys i)

pub In-append_into : {A : Type 0} (x : A) (xs ys : List A) → In x (xs ++ ys) → In x xs ⊎ In x ys
In-append_into x [] ys i = inr i
In-append_into x (y ∷ xs) ys (inl e) = inl (inl e)
In-append_into x (y ∷ xs) ys (inr i) = elim (In-append_into x xs ys i) [
  | inl j ↦ inl (inr j)
  | inr j ↦ inr j
]

module _ {A : Type 0} (p q : A → Bool) where
  pub count_keep :
      (xs : List A)
      → ((x : A) → In x xs → p x ≡ true → q x ≡ true)
      → length (filter p (filter q xs)) ≡ length (filter p xs)
  count_keep [] keep = refl
  count_keep (x ∷ xs) keep =
      let ih = count_keep xs (λ y i. keep y (inr i)) in
      let here : p x ≡ true → q x ≡ true = keep x (inl refl) in
      elim (Bool-cases (p x)) [ inl t ↦ let kept = here t in ground arith | inr n ↦ ground arith ]

pub find-In :
    {A : Type 0} (p : A → Bool) (x : A) (xs : List A) → find p xs ≡ some x → In x xs × (p x ≡ true)
find-In p x [] e = absurd (none-ne-some e)
find-In p x (y ∷ ys) e = elim (Bool-cases (p y)) [
  | inl t ↦ let same : y ≡ x = some-eq (rw t at e) in (inl (sym same), rw (← same) t)
  | inr n ↦ let (i, h) = find-In p x ys (rw n at e) in (inr i, h)
]
