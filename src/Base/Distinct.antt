-- ===== src/Base/Distinct.antt =====
-- Lists whose elements differ in a key, and what keeps them so.
use Prim.Native.Nat.{ℕ, zero, suc}
use Prim.Native.String.{String}
use mathlib.Core.Path.{◌≡◌, refl, sym, ◌∙◌, ap, subst}
use mathlib.Core.Logic.{inl, inr}
use mathlib.Core.Bool.{Bool, true, false}
use mathlib.Core.Option.{some}
use mathlib.Core.List.{List, [], ◌∷◌, ◌++◌}
use native.Mathlib.Omega.{arith}
use provisioned_throughput.Base.Tests.{
  Bool-cases, true-ne-false, some-eq, none-ne-some, Option-cases,
}
use provisioned_throughput.Base.Lists.{All, any, length, modify, position, get_elem?}
use provisioned_throughput.Base.Eq.{◌==◌, ==_iff, string_eq}

-- `Vec::remove`, within bounds
abbrev pub remove_at : {A : Type 0} → ℕ → List A → List A
remove_at i [] = []
remove_at zero (x ∷ xs) = xs
remove_at (suc i) (x ∷ xs) = x ∷ remove_at i xs

pub ==-false_sym : (a b : String) → (a == b) ≡ false → (b == a) ≡ false
==-false_sym a b e = elim (Bool-cases (b == a)) [
  | inl t ↦ absurd (true-ne-false (sym ((==_iff a b).1 (sym ((==_iff b a).0 t))) ∙ e))
  | inr f ↦ f
]

module _ {A : Type 0} where
  pub All-weaken : (P Q : A → Type 0) (xs : List A) → ((x : A) → P x → Q x) → All P xs → All Q xs
  All-weaken P Q [] f h = tt
  All-weaken P Q (x ∷ xs) f h = (f x h.0, All-weaken P Q xs f h.1)

  pub All-both :
      (P Q R : A → Type 0) (xs : List A)
      → ((x : A) → P x → Q x → R x)
      → All P xs
      → All Q xs
      → All R xs
  All-both P Q R [] f h k = tt
  All-both P Q R (x ∷ xs) f h k = (f x h.0 k.0, All-both P Q R xs f h.1 k.1)

  pub All-append : (P : A → Type 0) (xs ys : List A) → All P xs → All P ys → All P (xs ++ ys)
  All-append P [] ys h k = k
  All-append P (x ∷ xs) ys h k = (h.0, All-append P xs ys h.1 k)

  pub All-remove_at : (P : A → Type 0) (i : ℕ) (xs : List A) → All P xs → All P (remove_at i xs)
  All-remove_at P i [] h = tt
  All-remove_at P zero (x ∷ xs) h = h.1
  All-remove_at P (suc i) (x ∷ xs) h = (h.0, All-remove_at P i xs h.1)

  pub All-modify :
      (P : A → Type 0) (i : ℕ) (f : A → A) (xs : List A)
      → All P xs
      → ((x : A) → get_elem? xs i ≡ some x → P (f x))
      → All P (modify i f xs)
  All-modify P i f [] h k = tt
  All-modify P zero f (x ∷ xs) h k = (k x refl, h.1)
  All-modify P (suc i) f (x ∷ xs) h k = (h.0, All-modify P i f xs h.1 k)

  pub All-at :
      (P : A → Type 0) (i : ℕ) (x : A) (xs : List A) → get_elem? xs i ≡ some x → All P xs → P x
  All-at P i x [] e h = absurd (none-ne-some e)
  All-at P zero x (y ∷ ys) e h = subst P (some-eq e) h.0
  All-at P (suc i) x (y ∷ ys) e h = All-at P i x ys e h.1

  pub All-of_none : (p : A → Bool) (xs : List A) → any p xs ≡ false → All (λ x. p x ≡ false) xs
  All-of_none p [] e = tt
  All-of_none p (x ∷ xs) e = elim (Bool-cases (p x)) [
    | inl t ↦ absurd (true-ne-false (rw t at e))
    | inr f ↦ (f, All-of_none p xs (rw f at e))
  ]

  pub length-modify : (i : ℕ) (f : A → A) (xs : List A) → length (modify i f xs) ≡ length xs
  length-modify i f [] = refl
  length-modify zero f (x ∷ xs) = refl
  length-modify (suc i) f (x ∷ xs) = ap suc (length-modify i f xs)

  pub length-remove_at :
      (i : ℕ) (x : A) (xs : List A)
      → get_elem? xs i ≡ some x
      → length xs ≡ suc (length (remove_at i xs))
  length-remove_at i x [] e = absurd (none-ne-some e)
  length-remove_at zero x (y ∷ ys) e = refl
  length-remove_at (suc i) x (y ∷ ys) e = ap suc (length-remove_at i x ys e)

  -- What `position` finds passes the test.
  pub position-passes :
      (p : A → Bool) (i : ℕ) (x : A) (xs : List A)
      → position p xs ≡ some i
      → get_elem? xs i ≡ some x
      → p x ≡ true
  position-passes p i x [] e at = absurd (none-ne-some e)
  position-passes p zero x (y ∷ ys) e at = elim (Bool-cases (p y)) [
    | inl t ↦ rw (← some-eq at) t
    | inr f ↦ elim (Option-cases (position p ys)) [
      | inl n ↦ absurd (none-ne-some (rw (n, f) at e))
      | inr (j, q) ↦ let off : suc j ≡ 0 = some-eq (rw (q, f) at e) in absurd (omega (arith, off))
    ]
  ]
  position-passes p (suc i) x (y ∷ ys) e at = elim (Bool-cases (p y)) [
    | inl t ↦ let off : 0 ≡ suc i = some-eq (rw t at e) in absurd (omega (arith, off))
    | inr f ↦ elim (Option-cases (position p ys)) [
      | inl n ↦ absurd (none-ne-some (rw (n, f) at e))
      | inr (j, q) ↦
          let next : suc j ≡ suc i = some-eq (rw (q, f) at e) in
          let same : j ≡ i = omega (arith, next) in position-passes p i x ys (q ∙ ap some same) at
    ]
  ]

module _ {A : Type 0} (key : A → String) where
  abbrev pub Apart : A → A → Type 0
  Apart x y = (key x == key y) ≡ false

  -- No two elements have the same key.
  abbrev pub Distinct : List A → Type 0
  Distinct [] = Unit
  Distinct (x ∷ xs) = All (Apart x) xs × Distinct xs

  pub Distinct-snoc :
      (xs : List A) (y : A) → Distinct xs → All (λ x. Apart x y) xs → Distinct (xs ++ y ∷ [])
  Distinct-snoc [] y d h = (tt, tt)
  Distinct-snoc (x ∷ xs) y d h =
      (All-append (Apart x) xs (y ∷ []) d.0 (h.0, tt), Distinct-snoc xs y d.1 h.1)

  pub Distinct-remove_at : (i : ℕ) (xs : List A) → Distinct xs → Distinct (remove_at i xs)
  Distinct-remove_at i [] d = tt
  Distinct-remove_at zero (x ∷ xs) d = d.1
  Distinct-remove_at (suc i) (x ∷ xs) d =
      (All-remove_at (Apart x) i xs d.0, Distinct-remove_at i xs d.1)

  -- The others differ from the one at `i`.
  pub others-Apart :
      (i : ℕ) (x : A) (xs : List A)
      → get_elem? xs i ≡ some x
      → Distinct xs
      → All (λ y. Apart y x) (remove_at i xs)
  others-Apart i x [] e d = tt
  others-Apart zero x (y ∷ ys) e d =
      let same : y ≡ x = some-eq e in
      rw (← same) (All-weaken (Apart y) (λ z. Apart z y) ys (λ z. ==-false_sym (key y) (key z)) d.0)
  others-Apart (suc i) x (y ∷ ys) e d = (All-at (Apart y) i x ys e d.0, others-Apart i x ys e d.1)

  -- An element may change its key to one that no other has.
  pub Distinct-modify :
      (i : ℕ) (f : A → A) (x : A) (xs : List A)
      → get_elem? xs i ≡ some x
      → All (λ y. Apart y (f x)) (remove_at i xs)
      → Distinct xs
      → Distinct (modify i f xs)
  Distinct-modify i f x [] e h d = tt
  Distinct-modify zero f x (y ∷ ys) e h d =
      let same : y ≡ x = some-eq e in
      (
        All-weaken (λ z. Apart z (f x)) (Apart (f y)) ys
            (λ z k. rw same (==-false_sym (key z) (key (f x)) k)) h,
        d.1,
      )
  Distinct-modify (suc i) f x (y ∷ ys) e h d = (
    All-modify (Apart y) i f ys d.0
        (λ z at. let same : x ≡ z = some-eq (sym e ∙ at) in rw (← same) h.0),
    Distinct-modify i f x ys e h.1 d.1,
  )
