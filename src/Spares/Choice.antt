-- ===== src/Spares/Choice.antt =====
-- How the spares of a role are chosen.
use provisioned_throughput.Base.{
  ℕ, zero, suc, ◌+◌, ◌-◌, ◌≤◌, ◌≡◌, refl, sym, ap, subst, min, not, List, [], ◌∷◌, String, ◌⊎◌, inl,
  inr, arith, map, filter, take, length, length-append, leb, leb→le, In, In-append_left, Bool-cases,
  le→leb, All, All-In, All-of_In, Bool, false, ◌==◌, string_eq,
}
use provisioned_throughput.Base.Counts.{In-take, In-append_into}
use provisioned_throughput.Base.Distinct.{Apart, Distinct, Distinct-snoc, ==-false_sym}
use provisioned_throughput.Spares.{PodServing, is_spare, promote, wanted, choose}

-- No two pods have the same name.
abbrev pub AreNamed : List PodServing → Type 0
AreNamed pods = Distinct (λ p. p.name) pods

abbrev pub names : List PodServing → List String
names ps = map (λ p. p.name) ps

-- The names of the pods that are spares already.
abbrev spare_names : List PodServing → List String
spare_names ps = names (filter is_spare ps)

length-map : {A B : Type 0} (f : A → B) (xs : List A) → length (map f xs) ≡ length xs
length-map f [] = refl
length-map f (x ∷ xs) = ap suc (length-map f xs)

length-take : {A : Type 0} (n : ℕ) (xs : List A) → length (take n xs) ≡ min n (length xs)
length-take zero xs = omega arith
length-take (suc n) [] = omega arith
length-take (suc n) (x ∷ xs) = omega (arith, length-take n xs)

-- A pod is a spare or it is not.
count_both :
    (ps : List PodServing)
    → length (filter is_spare ps) + length (filter (λ p. not (is_spare p)) ps) ≡ length ps
count_both [] = refl
count_both (p ∷ rest) = ground (arith, count_both rest)

length-promote :
    (want : ℕ) (spares : List String) (ps : List PodServing)
    → length spares ≤ want
    → length (promote want spares ps)
      ≡ min want (length spares + length (filter (λ p. not (is_spare p)) ps))
unfolding promote
length-promote want spares [] h = omega (arith, h)
length-promote want spares (p ∷ rest) h =
    let ih = length-promote want spares rest h in
    let one = length-append (promote want spares rest) (p.name ∷ []) in ground (arith, ih, one)

promote-keeps :
    (x : String) (want : ℕ) (spares : List String) (ps : List PodServing)
    → In x spares
    → In x (promote want spares ps)
unfolding promote
promote-keeps x want spares [] i = i
promote-keeps x want spares (p ∷ rest) i =
    let ih = promote-keeps x want spares rest i in
    elim (Bool-cases (leb want (length (promote want spares rest)))) [
      | inl t ↦ rw (promote, t) ih
      | inr f ↦ elim (Bool-cases (is_spare p)) [
        | inl t ↦ rw (promote, f, t) ih
        | inr g ↦ rw (promote, f, g) (In-append_left x _ (p.name ∷ []) ih)
      ]
    ]

-- A full list of spares stays as it is.
promote-full :
    (want : ℕ) (spares : List String) (ps : List PodServing)
    → want ≤ length spares
    → promote want spares ps ≡ spares
unfolding promote
promote-full want spares [] h = refl
promote-full want spares (p ∷ rest) h =
    let ih = promote-full want spares rest h in rw (promote, ih, le→leb want (length spares) h) refl

In-take_all :
    {A : Type 0} (x : A) (n : ℕ) (xs : List A) → length xs ≤ n → In x xs → In x (take n xs)
In-take_all x zero [] h i = i
In-take_all x zero (y ∷ ys) h i = absurd (omega (arith, h))
In-take_all x (suc n) [] h i = i
In-take_all x (suc n) (y ∷ ys) h (inl e) = inl e
In-take_all x (suc n) (y ∷ ys) h (inr i) = inr (In-take_all x n ys (omega (arith, h)) i)

-- A chosen name was one of the spares', or is a serving pod's that was none.
promote-In :
    (x : String) (want : ℕ) (spares : List String) (ps : List PodServing)
    → In x (promote want spares ps)
    → In x spares ⊎ In x (names (filter (λ p. not (is_spare p)) ps))
unfolding promote
promote-In x want spares [] i = inl i
promote-In x want spares (p ∷ rest) i =
    elim (Bool-cases (leb want (length (promote want spares rest)))) [
      | inl t ↦ later (promote-In x want spares rest (rw (promote, t) at i))
      | inr f ↦ elim (Bool-cases (is_spare p)) [
        | inl t ↦ later (promote-In x want spares rest (rw (promote, f, t) at i))
        | inr g ↦
            elim (In-append_into x (promote want spares rest) (p.name ∷ [])
              (rw (promote, f, g) at i)) [
                | inl j ↦ later (promote-In x want spares rest j)
                | inr (inl e) ↦ inr (rw g (inl e))
                | inr (inr j) ↦ absurd j
              ]
      ]
    ]
  where
    later :
        In x spares ⊎ In x (names (filter (λ p. not (is_spare p)) rest))
        → In x spares ⊎ In x (names (filter (λ p. not (is_spare p)) (p ∷ rest)))
    later (inl j) = inl j
    later (inr j) = elim (Bool-cases (is_spare p)) [
      | inl t ↦ inr (rw t j)
      | inr g ↦ inr (rw g (inr j))
    ]

In-names_filter :
    (f : PodServing → Bool) (x : String) (ps : List PodServing)
    → In x (names (filter f ps))
    → In x (names ps)
In-names_filter f x [] i = i
In-names_filter f x (p ∷ rest) i = elim (Bool-cases (f p)) [
  | inr g ↦ inr (In-names_filter f x rest (rw g at i))
  | inl t ↦ elim (rw t at i) [ inl e ↦ inl e | inr j ↦ inr (In-names_filter f x rest j) ]
]

-- A name that no other pod of a list has is not among their names.
Apart-names :
    (p : PodServing) (ps : List PodServing)
    → All (Apart (λ q. q.name) p) ps
    → (x : String) → In x (names ps)
    → (p.name == x) ≡ false
Apart-names p [] h x i = absurd i
Apart-names p (q ∷ ps) h x (inl e) = rw e h.0
Apart-names p (q ∷ ps) h x (inr i) = Apart-names p ps h.1 x i

take-Distinct : (n : ℕ) (xs : List String) → Distinct (λ x. x) xs → Distinct (λ x. x) (take n xs)
take-Distinct zero xs d = tt
take-Distinct (suc n) [] d = tt
take-Distinct (suc n) (x ∷ xs) d =
    (All-of_In _ _ (λ y i. All-In _ y xs d.0 (In-take y n xs i)), take-Distinct n xs d.1)

-- The names of the spares differ.
spares-Distinct : (ps : List PodServing) → AreNamed ps → Distinct (λ x. x) (spare_names ps)
spares-Distinct [] d = tt
spares-Distinct (p ∷ ps) d = elim (Bool-cases (is_spare p)) [
  | inr g ↦ rw g (spares-Distinct ps d.1)
  | inl t ↦ rw t (
    All-of_In _ _ (λ x i. Apart-names p ps d.0 x (In-names_filter is_spare x ps i)),
    spares-Distinct ps d.1,
  )
]

-- A pod that is no spare has no spare's name.
abbrev AreOutside : List String → List PodServing → Type 0
AreOutside spares ps =
    (p : PodServing) → In p ps → is_spare p ≡ false → All (λ x. (x == p.name) ≡ false) spares

promote-Distinct :
    (want : ℕ) (spares : List String) (ps : List PodServing)
    → Distinct (λ x. x) spares
    → AreNamed ps
    → AreOutside spares ps
    → Distinct (λ x. x) (promote want spares ps)
unfolding promote
promote-Distinct want spares [] d n o = d
promote-Distinct want spares (p ∷ rest) d n o =
    let ih = promote-Distinct want spares rest d n.1 (λ q i. o q (inr i)) in
    elim (Bool-cases (leb want (length (promote want spares rest)))) [
      | inl t ↦ rw (promote, t) ih
      | inr f ↦ elim (Bool-cases (is_spare p)) [
        | inl t ↦ rw (promote, f, t) ih
        | inr g ↦
            rw (promote, f, g)
              (Distinct-snoc (λ x. x) (promote want spares rest) p.name ih
                (All-of_In _ _ (λ x i. elim (promote-In x want spares rest i) [
                  | inl j ↦ All-In _ x spares (o p (inl refl) g) j
                  | inr j ↦
                      ==-false_sym p.name x (
                        Apart-names p rest n.0 x (In-names_filter (λ p. not (is_spare p)) x rest j))
                ])))
      ]
    ]

spares-AreOutside : (ps : List PodServing) → AreNamed ps → AreOutside (spare_names ps) ps
spares-AreOutside [] n p i g = absurd i
spares-AreOutside (q ∷ ps) n p (inl e) g =
    subst (λ r. is_spare r ≡ false → All (λ x. (x == r.name) ≡ false) (spare_names (q ∷ ps)))
      (sym e) at_head g
  where
    at_head : is_spare q ≡ false → All (λ x. (x == q.name) ≡ false) (spare_names (q ∷ ps))
    at_head f = rw f (
        All-of_In _ _
          (λ x i. ==-false_sym q.name x (Apart-names q ps n.0 x (In-names_filter is_spare x ps i))))
spares-AreOutside (q ∷ ps) n p (inr i) g =
    let rest = spares-AreOutside ps n.1 p i g in
    elim (Bool-cases (is_spare q)) [
      | inr f ↦ rw f rest
      | inl t ↦ rw t (All-In (Apart (λ q. q.name) q) p ps n.0 i, rest)
    ]

-- What `choose` promises.
pub record IsChoice (hot_spares min_available : ℕ) (serving : List PodServing)
    (chosen : List String) : Type 0 where
  -- as many as wanted, and no more than there are beyond the minimum
  pub size : length chosen ≡ min hot_spares (length serving - min_available)
  -- none is chosen twice, and all are serving pods
  pub distinct : Distinct (λ x. x) chosen
  pub serve : All (λ x. In x (names serving)) chosen
  -- the pods that are spares stay, unless there are more than wanted: then none becomes one
  pub stable :
      ((x : String) → In x (spare_names serving) → In x chosen)
      ⊎ ((x : String) → In x chosen → In x (spare_names serving))

-- When no two of a role's serving pods have the same name, the spares chosen are different serving pods,
-- as many as hot spares are asked for, or as there are serving pods
-- beyond the role's minimum when those are fewer; and a pod that is a spare stays one, unless there
-- are more spares than wanted, and then no pod becomes one.
pub choose-IsChoice :
    (hot_spares min_available : ℕ) (serving : List PodServing)
    → AreNamed serving
    → IsChoice hot_spares min_available serving (choose hot_spares min_available serving)
unfolding choose wanted
choose-IsChoice hot_spares min_available serving named_apart =
    let want = wanted hot_spares min_available serving in
    let kept = take want (spare_names serving) in
    let taken = length-take want (spare_names serving) in
    let named = length-map (λ p. p.name) (filter is_spare serving) in
    let both = count_both serving in
    let small : length kept ≤ want = omega (arith, taken) in
    let grown = length-promote want kept serving small in
    record {
      size = omega (arith, taken, named, both, grown);
      distinct =
          promote-Distinct want kept serving
            (take-Distinct want _ (spares-Distinct serving named_apart)) named_apart
            (λ p i g. All-of_In _ _ (λ x j.
              All-In _ x (spare_names serving) (spares-AreOutside serving named_apart p i g)
                (In-take x want (spare_names serving) j)));
      serve = All-of_In _ _ (λ x i. elim (promote-In x want kept serving i) [
        | inl j ↦ In-names_filter is_spare x serving (In-take x want (spare_names serving) j)
        | inr j ↦ In-names_filter (λ p. not (is_spare p)) x serving j
      ]);
      stable = elim (Bool-cases (leb (length (spare_names serving)) want)) [
        | inl t ↦ inl (λ x i.
            promote-keeps x want kept serving
              (In-take_all x want (spare_names serving) (leb→le _ _ t) i))
        | inr f ↦ inr (λ x i.
            In-take x want (spare_names serving)
              (subst (In x) (promote-full want kept serving (ground (arith, taken))) i))
      ];
    }
