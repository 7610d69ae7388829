-- ===== src/Sse/Scan.antt =====
-- The end of the first event, in a buffer that grows.
use mathlib.Core.Option
use provisioned_throughput.Base.{
  ℕ, zero, suc, ◌+◌, ◌≤◌, ◌<◌, ◌≡◌, refl, sym, ap, min, true, false, Option, none, some, [], ◌∷◌,
  ◌++◌, length, ◌==◌, nat_eq, inl, inr, arith, Bool-cases, true-ne-false,
}
use provisioned_throughput.Sse.{
  Bytes, is_prefix, position, lf_lf, crlf_crlf, earlier, find_event_end, take, drop,
}

prefix_grows :
    (pat xs ys : Bytes)
    → is_prefix pat xs ≡ true
    → (is_prefix pat (xs ++ ys) ≡ true) × (length pat ≤ length xs)
unfolding is_prefix
prefix_grows [] xs ys e = (refl, omega arith)
prefix_grows (a ∷ pat) [] ys e = cc
prefix_grows (a ∷ pat) (x ∷ xs) ys e = elim (Bool-cases (a == x)) [
  | inl t ↦ let (more, long) = prefix_grows pat xs ys (rw t at e) in (rw t more, omega arith)
  | inr f ↦ absurd (true-ne-false (sym (rw f at e)))
]

-- A prefix that only the longer list has ends past the shorter one.
prefix_late :
    (pat xs ys : Bytes)
    → is_prefix pat xs ≡ false
    → is_prefix pat (xs ++ ys) ≡ true
    → length xs < length pat
unfolding is_prefix
prefix_late [] xs ys f t = cc
prefix_late (a ∷ pat) [] ys f t = omega arith
prefix_late (a ∷ pat) (x ∷ xs) ys f t = elim (Bool-cases (a == x)) [
  | inl e ↦ let late = prefix_late pat xs ys (rw e at f) (rw e at t) in omega arith
  | inr e ↦ absurd (true-ne-false (sym (rw e at t)))
]

-- Where a pattern stands, in a list and in what it grows to.
data Found (pat : Bytes) (xs ys : Bytes) : Option ℕ → Option ℕ → Type 0 where
  here : (i : ℕ) → i + length pat ≤ length xs → Found pat xs ys (some i) (some i)
  later : (i : ℕ) → length xs < i + length pat → Found pat xs ys none (some i)
  nowhere : Found pat xs ys none none

module _ (pat : Bytes) (x : ℕ) (xs ys : Bytes) where
  step_late :
      {p q : Option ℕ}
      → length (x ∷ xs) < length pat
      → Found pat xs ys p q
      → Found pat (x ∷ xs) ys (Option.map suc p) (some 0)
  step_late short (here i fits) = absurd (omega arith)
  step_late short (later i past) = later 0 (omega arith)
  step_late short nowhere = later 0 (omega arith)

  step_on :
      {p q : Option ℕ}
      → Found pat xs ys p q
      → Found pat (x ∷ xs) ys (Option.map suc p) (Option.map suc q)
  step_on (here i fits) = here (suc i) (omega arith)
  step_on (later i past) = later (suc i) (omega arith)
  step_on nowhere = nowhere

found :
    (pat xs ys : Bytes)
    → 0 < length pat
    → Found pat xs ys (position pat xs) (position pat (xs ++ ys))
unfolding position
found pat [] ys pos = anywhere (position pat ys)
  where
    anywhere : (q : Option ℕ) → Found pat [] ys none q
    anywhere none = nowhere
    anywhere (some i) = later i (omega arith)
found pat (x ∷ xs) ys pos = elim (Bool-cases (is_prefix pat (x ∷ xs))) [
  | inl t ↦ let (more, long) = prefix_grows pat (x ∷ xs) ys t in rw (t, more) (here 0 (omega arith))
  | inr f ↦ elim (Bool-cases (is_prefix pat (x ∷ xs ++ ys))) [
    | inl t ↦
        rw (f, t) (step_late pat x xs ys (prefix_late pat (x ∷ xs) ys f t) (found pat xs ys pos))
    | inr g ↦ rw (f, g) (step_on pat x xs ys (found pat xs ys pos))
  ]
]

-- The end of an event within the buffer does not move when the buffer grows.
pub data Ends (xs : Bytes) : Option ℕ → Option ℕ → Type 0 where
  ended : (n : ℕ) → 2 ≤ n → n ≤ length xs → Ends xs (some n) (some n)
  unended : (q : Option ℕ) → Ends xs none q

both :
    (xs ys : Bytes) {a a' b b' : Option ℕ}
    → Found lf_lf xs ys a a'
    → Found crlf_crlf xs ys b b'
    → Ends xs
        (earlier (Option.map (λ i. i + 2) a) (Option.map (λ i. i + 4) b))
        (earlier (Option.map (λ i. i + 2) a') (Option.map (λ i. i + 4) b'))
unfolding earlier
both xs ys (here i h) (here j k) = ended (min (i + 2) (j + 4)) (omega arith) (omega arith)
both xs ys (here i h) (later j k) =
    let same : min (i + 2) (j + 4) ≡ i + 2 = omega arith in
    rw same (ended (i + 2) (omega arith) (omega arith))
both xs ys (here i h) nowhere = ended (i + 2) (omega arith) (omega arith)
both xs ys (later i h) (here j k) =
    let same : min (i + 2) (j + 4) ≡ j + 4 = omega arith in
    rw same (ended (j + 4) (omega arith) (omega arith))
both xs ys (later i h) (later j k) = unended _
both xs ys (later i h) nowhere = unended _
both xs ys nowhere (here j k) = ended (j + 4) (omega arith) (omega arith)
both xs ys nowhere (later j k) = unended _
both xs ys nowhere nowhere = unended _

pub find_event_end-append :
    (xs ys : Bytes) → Ends xs (find_event_end xs) (find_event_end (xs ++ ys))
unfolding find_event_end
find_event_end-append xs ys =
    both xs ys (found lf_lf xs ys (omega arith)) (found crlf_crlf xs ys (omega arith))

pub take-append : (n : ℕ) (xs ys : Bytes) → n ≤ length xs → take n (xs ++ ys) ≡ take n xs
unfolding take
take-append zero xs ys h = refl
take-append (suc n) [] ys h = absurd (omega arith)
take-append (suc n) (x ∷ xs) ys h = ap (◌∷◌ x) (take-append n xs ys (omega arith))

pub drop-append : (n : ℕ) (xs ys : Bytes) → n ≤ length xs → drop n (xs ++ ys) ≡ drop n xs ++ ys
unfolding drop
drop-append zero xs ys h = refl
drop-append (suc n) [] ys h = absurd (omega arith)
drop-append (suc n) (x ∷ xs) ys h = drop-append n xs ys (omega arith)

pub append-take : (n : ℕ) (xs : Bytes) → take n xs ++ drop n xs ≡ xs
unfolding take drop
append-take zero xs = refl
append-take (suc n) [] = refl
append-take (suc n) (x ∷ xs) = ap (◌∷◌ x) (append-take n xs)

pub length-drop : (n : ℕ) (xs : Bytes) → n ≤ length xs → length (drop n xs) + n ≡ length xs
unfolding drop
length-drop zero xs h = omega arith
length-drop (suc n) [] h = absurd (omega arith)
length-drop (suc n) (x ∷ xs) h = omega (arith, length-drop n xs (omega arith))
