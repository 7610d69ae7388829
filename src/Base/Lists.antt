-- ===== src/Base/Lists.antt =====
-- Lists over the native numbers, and predicates on lists that the tactics take apart.
use Prim.Native.Nat.{ℕ, zero, suc, ◌+◌, ◌≤◌, max, min}
use mathlib.Core.Path.{◌≡◌, refl, sym, ap, ◌∙◌, subst}
use mathlib.Core.Logic.{◌⊎◌, inl, inr}
use mathlib.Core.Bool.{Bool, true, false}
use mathlib.Core.Option.{Option, none, some}
use mathlib.Core.List.{List, [], ◌∷◌, ◌++◌}
use native.Mathlib.Omega.{arith}
use provisioned_throughput.Base.Tests.{if◌then◌else◌, Bool-cases, true-ne-false}

abbrev pub sum : List ℕ → ℕ
sum [] = 0
sum (x ∷ xs) = x + sum xs

-- `Iterator::max` and `Iterator::min`: `none` on an empty iterator.
abbrev pub max? : List ℕ → Option ℕ
max? [] = none
max? (x ∷ xs) = elim (max? xs) [ none ↦ some x | some m ↦ some (max x m) ]

abbrev pub min? : List ℕ → Option ℕ
min? [] = none
min? (x ∷ xs) = elim (min? xs) [ none ↦ some x | some m ↦ some (min x m) ]

-- `Option::unwrap_or`.
abbrev pub unwrap_or {ℓ} : {A : Type ℓ} → Option A → A → A
unwrap_or none d = d
unwrap_or (some a) d = a

module _ {ℓ} {A : Type ℓ} where
  abbrev pub length : List A → ℕ
  length [] = 0
  length (x ∷ xs) = suc (length xs)

  -- `Iterator::filter` with a Boolean test.
  abbrev pub filter : (A → Bool) → List A → List A
  filter p [] = []
  filter p (x ∷ xs) = let rest = filter p xs in if p x then x ∷ rest else rest

  -- `Iterator::find`: the first element that passes.
  abbrev pub find : (A → Bool) → List A → Option A
  find p [] = none
  find p (x ∷ xs) = let rest = find p xs in if p x then some x else rest

  -- `Iterator::any`.
  abbrev pub any : (A → Bool) → List A → Bool
  any p [] = false
  any p (x ∷ xs) = let rest = any p xs in if p x then true else rest

  -- `Iterator::take`, and what `split_off` cuts away.
  abbrev pub take : ℕ → List A → List A
  take zero xs = []
  take (suc n) [] = []
  take (suc n) (x ∷ xs) = x ∷ take n xs

  abbrev pub drop : ℕ → List A → List A
  drop zero xs = xs
  drop (suc n) [] = []
  drop (suc n) (x ∷ xs) = drop n xs

  -- `Iterator::position`.
  abbrev pub position : (A → Bool) → List A → Option ℕ
  position p [] = none
  position p (x ∷ xs) =
      let rest = position p xs in
      if p x then some 0 else elim rest [ none ↦ none | some i ↦ some (suc i) ]

  -- `xs[i] = f(xs[i])`, within bounds.
  abbrev pub modify : ℕ → (A → A) → List A → List A
  modify i f [] = []
  modify zero f (x ∷ xs) = f x ∷ xs
  modify (suc i) f (x ∷ xs) = x ∷ modify i f xs

  abbrev pub get_elem? : List A → ℕ → Option A
  get_elem? [] i = none
  get_elem? (x ∷ xs) zero = some x
  get_elem? (x ∷ xs) (suc i) = get_elem? xs i

  -- Every element satisfies `P`.
  abbrev pub All {κ} : (A → Type κ) → List A → Type κ
  All P [] = Unit
  All P (x ∷ xs) = P x × All P xs

  pub length-append : (xs ys : List A) → length (xs ++ ys) ≡ length xs + length ys
  length-append [] ys = omega arith
  length-append (x ∷ xs) ys = omega (arith, length-append xs ys)

-- `x` is one of the elements, at a known place.
abbrev pub In : {A : Type 0} → A → List A → Type 0
In x [] = ⊥
In x (y ∷ ys) = (x ≡ y) ⊎ In x ys

pub All-In : {A : Type 0} (P : A → Type 0) (x : A) (xs : List A) → All P xs → In x xs → P x
All-In P x [] h i = elim i [ ]
All-In P x (y ∷ ys) h (inl e) = subst P (sym e) h.0
All-In P x (y ∷ ys) h (inr i) = All-In P x ys h.1 i

pub All-of_In : {A : Type 0} (P : A → Type 0) (xs : List A) → ((x : A) → In x xs → P x) → All P xs
All-of_In P [] h = tt
All-of_In P (x ∷ xs) h = (h x (inl refl), All-of_In P xs (λ y i. h y (inr i)))

module _ {A : Type 0} (p : A → Bool) (x : A) where
  filter_step_into :
      (y : A) (ys : List A) (b : Bool)
      → p y ≡ b
      → (In x (filter p ys) → In x ys × (p x ≡ true))
      → In x (if b then y ∷ filter p ys else filter p ys)
      → In x (y ∷ ys) × (p x ≡ true)
  filter_step_into y ys true e ih (inl q) = (inl q, ap p q ∙ e)
  filter_step_into y ys true e ih (inr j) = (inr (ih j).0, (ih j).1)
  filter_step_into y ys false e ih i = (inr (ih i).0, (ih i).1)

  filter_step_back :
      (y : A) (ys : List A) (b : Bool)
      → p y ≡ b
      → (In x ys → In x (filter p ys))
      → p x ≡ true
      → In x (y ∷ ys)
      → In x (if b then y ∷ filter p ys else filter p ys)
  filter_step_back y ys true e ih t (inl q) = inl q
  filter_step_back y ys true e ih t (inr j) = inr (ih j)
  filter_step_back y ys false e ih t (inl q) = absurd (true-ne-false (sym t ∙ ap p q ∙ e))
  filter_step_back y ys false e ih t (inr j) = ih j

  pub In-filter_into : (xs : List A) → In x (filter p xs) → In x xs × (p x ≡ true)
  In-filter_into [] i = absurd i
  In-filter_into (y ∷ ys) i = filter_step_into y ys (p y) refl (In-filter_into ys) i

  pub In-filter_back : (xs : List A) → p x ≡ true → In x xs → In x (filter p xs)
  In-filter_back [] t i = absurd i
  In-filter_back (y ∷ ys) t i = filter_step_back y ys (p y) refl (In-filter_back ys t) t i

-- An empty filter rejects every element.
pub filter-eq_nil :
    {A : Type 0} (p : A → Bool) (x : A) (xs : List A) → filter p xs ≡ [] → In x xs → p x ≡ false
filter-eq_nil p x xs e i = elim (Bool-cases (p x)) [
  | inl t ↦ absurd (subst (In x) e (In-filter_back p x xs t i))
  | inr f ↦ f
]

pub max?-ge : (x : ℕ) (xs : List ℕ) → In x xs → x ≤ unwrap_or (max? xs) 0
max?-ge x [] i = elim i [ ]
max?-ge x (y ∷ ys) (inl e) = ground arith
max?-ge x (y ∷ ys) (inr i) = ground (arith, max?-ge x ys i)

module _ {A : Type 0} where
  pub In-append_right : (x : A) (xs ys : List A) → In x ys → In x (xs ++ ys)
  In-append_right x [] ys i = i
  In-append_right x (y ∷ xs) ys i = inr (In-append_right x xs ys i)

  pub In-append_left : (x : A) (xs ys : List A) → In x xs → In x (xs ++ ys)
  In-append_left x [] ys i = absurd i
  In-append_left x (y ∷ xs) ys (inl e) = inl e
  In-append_left x (y ∷ xs) ys (inr i) = inr (In-append_left x xs ys i)

  -- `xs` is `before`, then `x`, then `after`.
  pub record Split (x : A) (xs : List A) : Type 0 where
    pub before : List A
    pub after : List A
    pub joined : xs ≡ before ++ x ∷ after

  pub Split-In : (x : A) (xs : List A) (s : Split x xs) → In x xs
  Split-In x xs s = rw (s.joined) (In-append_right x s.before (x ∷ s.after) (inl refl))

  -- An element that a filter keeps stands in the list where it stands among those kept.
  pub record SplitKept (p : A → Bool) (x : A) (xs kept_before kept_after : List A) : Type 0 where
    pub split : Split x xs
    pub before_kept : filter p split.before ≡ kept_before
    pub after_kept : filter p split.after ≡ kept_after

  split_step :
      (p : A → Bool) (x y : A) (ys bs cs : List A)
      → p y ≡ false
      → SplitKept p x ys bs cs
      → SplitKept p x (y ∷ ys) bs cs
  split_step p x y ys bs cs e s = record {
    split = record {
      before = y ∷ s.split.before;
      after = s.split.after;
      joined = ap (◌∷◌ y) s.split.joined;
    };
    before_kept = rw e s.before_kept;
    after_kept = s.after_kept;
  }

  split_keep :
      (p : A → Bool) (x y : A) (ys bs cs : List A)
      → p y ≡ true
      → SplitKept p x ys bs cs
      → SplitKept p x (y ∷ ys) (y ∷ bs) cs
  split_keep p x y ys bs cs e s = record {
    split = record {
      before = y ∷ s.split.before;
      after = s.split.after;
      joined = ap (◌∷◌ y) s.split.joined;
    };
    before_kept = rw e (ap (◌∷◌ y) s.before_kept);
    after_kept = s.after_kept;
  }

  pub filter_split :
      (p : A → Bool) (x : A) (xs bs cs : List A)
      → filter p xs ≡ bs ++ x ∷ cs
      → SplitKept p x xs bs cs
  filter_split p x [] [] cs e = cc
  filter_split p x [] (b ∷ bs) cs e = cc
  filter_split p x (y ∷ ys) [] cs e = elim (Bool-cases (p y)) [
    | inl t ↦ record {
      split = record { before = []; after = ys; joined = ground arith };
      before_kept = refl;
      after_kept = ground arith;
    }
    | inr f ↦ split_step p x y ys [] cs f (filter_split p x ys [] cs (ground arith))
  ]
  filter_split p x (y ∷ ys) (b ∷ bs) cs e = elim (Bool-cases (p y)) [
    | inl t ↦
        let same : y ≡ b = ground arith in
        rw (← same) (split_keep p x y ys bs cs t (filter_split p x ys bs cs (ground arith)))
    | inr f ↦ split_step p x y ys (b ∷ bs) cs f (filter_split p x ys (b ∷ bs) cs (ground arith))
  ]
