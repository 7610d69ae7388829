-- ===== src/Affinity/Order.antt =====
-- The order in which replicas are ranked (`ranked` in crates/pt-gateway/src/affinity.rs) is total, and
-- the first of a sorted list is the least in it.
use Prim.Native.Nat.{Ordering, compare as compare_ℕ}
use Prim.Native.Char.{code}
use Prim.Native.String.compare
use Prim.Native.String.{compare, then as first_of, [] as nil, ◌∷◌ as ◌cons◌}
use native.Mathlib.Omega.{compare-lt, compare-eq, compare-gt}
use text.Mathlib.TextEquality.{path_by_compare}
use provisioned_throughput.Base.{
  ℕ, ◌<◌, ◌≡◌, refl, sym, ◌∙◌, ap₂, subst, Bool, true, false, List, [], ◌∷◌, String, ◌⊎◌, inl, inr,
  arith, ltb, In, Bool-cases,
}
use provisioned_throughput.Base.Sort.{sort_by, place_in}
use provisioned_throughput.Affinity.{is_before_text, outranks}

-- A text before another: by the first character in which they differ.
pub Less : String → String → Type 0
Less nil nil = ⊥
Less nil (d cons t) = Unit
Less (c cons s) nil = ⊥
Less (c cons s) (d cons t) = (code c < code d) ⊎ ((code c ≡ code d) × Less s t)

Less-trans : (s t u : String) → Less s t → Less t u → Less s u
unfolding Less
Less-trans nil nil u h k = absurd h
Less-trans nil (d cons t) nil h k = absurd k
Less-trans nil (d cons t) (e cons u) h k = tt
Less-trans (c cons s) nil u h k = absurd h
Less-trans (c cons s) (d cons t) nil h k = absurd k
Less-trans (c cons s) (d cons t) (e cons u) (inl h) (inl k) = inl (omega (arith, h, k))
Less-trans (c cons s) (d cons t) (e cons u) (inl h) (inr k) = inl (omega (arith, h, k.0))
Less-trans (c cons s) (d cons t) (e cons u) (inr h) (inl k) = inl (omega (arith, h.0, k))
Less-trans (c cons s) (d cons t) (e cons u) (inr h) (inr k) =
    inr (h.0 ∙ k.0, Less-trans s t u h.1 k.1)

Less-self : (s : String) → Less s s → ⊥
unfolding Less
Less-self nil h = h
Less-self (c cons s) (inl h) = omega (arith, h)
Less-self (c cons s) (inr h) = Less-self s h.1

-- What `compare` answers.
abbrev Compared : String → String → Ordering → Type 0
Compared s t Ordering.lt = Less s t
Compared s t Ordering.eq = Unit
Compared s t Ordering.gt = Less t s

compared : (s t : String) → Compared s t (compare s t)
unfolding Less
compared nil nil = subst (Compared nil nil) (sym compare.nil-nil) tt
compared nil (d cons t) = subst (Compared nil (d cons t)) (sym (compare.nil-cons d t)) tt
compared (c cons s) nil = subst (Compared (c cons s) nil) (sym (compare.cons-nil c s)) tt
compared (c cons s) (d cons t) =
    subst (Compared (c cons s) (d cons t)) (sym (compare.cons-cons c d s t))
      (by_code (compare_ℕ (code c) (code d)) refl (compare s t) (compared s t))
  where
    by_code :
        (o : Ordering)
        → compare_ℕ (code c) (code d) ≡ o
        → (r : Ordering) → Compared s t r
        → Compared (c cons s) (d cons t) (first_of o r)
    by_code Ordering.lt e r h = inl (compare-lt (code c) (code d) e)
    by_code Ordering.gt e r h = inl (compare-gt (code c) (code d) e)
    by_code Ordering.eq e Ordering.lt h = inr (compare-eq (code c) (code d) e, h)
    by_code Ordering.eq e Ordering.eq h = tt
    by_code Ordering.eq e Ordering.gt h = inr (sym (compare-eq (code c) (code d) e), h)

-- Of two texts one is before the other, or they are the same.
abbrev Sorted : String → String → Bool → Type 0
Sorted s t b = ((b ≡ true) × Less s t) ⊎ ((b ≡ false) × ((s ≡ t) ⊎ Less t s))

text-Sorted : (s t : String) → Sorted s t (is_before_text s t)
unfolding is_before_text
text-Sorted s t = by_answer (compare s t) refl (compared s t)
  where
    by_answer :
        (o : Ordering)
        → compare s t ≡ o
        → Compared s t o
        → Sorted s t (elim o [ Ordering.lt ↦ true | _ ↦ false ])
    by_answer Ordering.lt e h = inl (refl, h)
    by_answer Ordering.eq e h = inr (refl, inl (path_by_compare s t e))
    by_answer Ordering.gt e h = inr (refl, inr h)

-- The rank of a replica before another's: a larger hash, or the same hash and an earlier name.
abbrev Above : ℕ × String → ℕ × String → Type 0
Above (h, p) (k, q) = (k < h) ⊎ ((h ≡ k) × Less p q)

Above-trans : (a b c : ℕ × String) → Above a b → Above b c → Above a c
Above-trans (h, p) (k, q) (l, r) (inl x) (inl y) = inl (omega (arith, x, y))
Above-trans (h, p) (k, q) (l, r) (inl x) (inr y) = inl (omega (arith, x, y.0))
Above-trans (h, p) (k, q) (l, r) (inr x) (inl y) = inl (omega (arith, x.0, y))
Above-trans (h, p) (k, q) (l, r) (inr x) (inr y) = inr (x.0 ∙ y.0, Less-trans p q r x.1 y.1)

Above-self : (a : ℕ × String) → Above a a → ⊥
Above-self (h, p) (inl x) = omega (arith, x)
Above-self (h, p) (inr x) = Less-self p x.1

-- `outranks` decides it, and ranks that neither outranks are the same.
outranked :
    (a b : ℕ × String)
    → ((outranks a b ≡ true) × Above a b) ⊎ ((outranks a b ≡ false) × ((a ≡ b) ⊎ Above b a))
unfolding outranks
outranked (h, p) (k, q) = elim (Bool-cases (ltb k h)) [
  | inl t ↦ inl (rw t refl, inl (ground arith))
  | inr f ↦ elim (Bool-cases (ltb h k)) [
    | inl t ↦ inr (rw (f, t) refl, inr (inl (ground arith)))
    | inr g ↦
        let same : h ≡ k = ground arith in
        elim (text-Sorted p q) [
          | inl (e, less) ↦ inl (rw (f, g) e, inr (same, less))
          | inr (e, inl eq) ↦ inr (rw (f, g) e, inl (ap₂ (λ x y. (x, y)) same eq))
          | inr (e, inr less) ↦ inr (rw (f, g) e, inr (inr (sym same, less)))
        ]
  ]
]

-- A rank of the list that is no other's after.
abbrev pub IsTop : ℕ × String → List (ℕ × String) → Type 0
IsTop a xs = In a xs × ((x : ℕ × String) → In x xs → (x ≡ a) ⊎ Above a x)

pub IsTop-unique :
    (a b : ℕ × String) (xs ys : List (ℕ × String))
    → IsTop a xs
    → IsTop b ys
    → In b xs
    → In a ys
    → a ≡ b
IsTop-unique a b xs ys h k i j = elim (h.1 b i) [
  | inl e ↦ sym e
  | inr above ↦ elim (k.1 a j) [
    | inl e ↦ e
    | inr below ↦ absurd (Above-self a (Above-trans a b a above below))
  ]
]

-- The head of a sorted list.
abbrev pub Heads : List (ℕ × String) → List (ℕ × String) → Type 0
Heads [] xs = xs ≡ []
Heads (h ∷ t) xs = IsTop h xs

place_in-Heads :
    (a : ℕ × String) (ys xs : List (ℕ × String))
    → Heads ys xs
    → Heads (place_in outranks a ys) (a ∷ xs)
unfolding place_in
place_in-Heads a [] xs e =
    (inl refl, λ x i. elim i [ inl e' ↦ inl e' | inr j ↦ absurd (subst (In x) e j) ])
place_in-Heads a (h ∷ t) xs top = elim (outranked h a) [
  | inl (e, above) ↦
      rw (place_in, e) (inr top.0, λ x i. elim i [ inl q ↦ inr (rw q above) | inr j ↦ top.1 x j ])
  | inr (e, less) ↦
      rw (place_in, e)
        (
          inl refl,
          λ x i. elim i [
            | inl q ↦ inl q
            | inr j ↦ elim (top.1 x j) [
              | inl q ↦ elim less [ inl w ↦ inl (q ∙ w) | inr above ↦ inr (rw q above) ]
              | inr under ↦ elim less [
                | inl w ↦ inr (subst (λ y. Above y x) w under)
                | inr above ↦ inr (Above-trans a h x above under)
              ]
            ]
          ],
        )
]

pub sort_by-Heads : (xs : List (ℕ × String)) → Heads (sort_by outranks xs) xs
unfolding sort_by
sort_by-Heads [] = refl
sort_by-Heads (x ∷ xs) = place_in-Heads x (sort_by outranks xs) xs (sort_by-Heads xs)
