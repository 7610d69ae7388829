-- ===== src/Planner/BestFit.antt =====
-- The loop of `place` finds the best fit: the pool with the least free capacity that still fits,
-- the first listed among equals.
use provisioned_throughput.Base.{
  ℕ, ◌-◌, ◌≤◌, ◌<◌, ◌≡◌, refl, Option, none, some, List, [], ◌∷◌, ltb, ◌⊎◌, inl, inr, arith, In,
  Split, Bool-cases, ap, ltb→lt,
}
use provisioned_throughput.Capacity.{Schedule}
use provisioned_throughput.Planner.{PoolView, Fit, free_at, need_of, fit_step, best_fit}

module _ (schedule : Schedule) (at cus : ℕ) where
  -- A costed pool has room for the claim, and what the claim would leave free there.
  abbrev pub Fits : PoolView × ℕ → Type 0
  Fits (p, c) = need_of cus c ≤ free_at schedule at p

  abbrev slack_of : PoolView × ℕ → ℕ
  slack_of (p, c) = free_at schedule at p - need_of cus c

  abbrev fit_of : PoolView × ℕ → Fit
  fit_of (p, c) = record { chosen = p; need = need_of cus c; slack = slack_of (p, c) }

  -- `x` wins: it fits, leaves strictly less free than every pool before it that fits, and no more
  -- than any after it.
  pub record Wins (x : PoolView × ℕ) (ps : List (PoolView × ℕ)) : Type 0 where
    pub split : Split x ps
    pub fits : Fits x
    pub beats : (q : PoolView × ℕ) → In q split.before → Fits q → slack_of x < slack_of q
    pub holds : (q : PoolView × ℕ) → In q split.after → Fits q → slack_of x ≤ slack_of q

  abbrev StepNone : PoolView × ℕ → Option Fit → Type 0
  StepNone x r = (¬ Fits x × (r ≡ none)) ⊎ (Fits x × (r ≡ some (fit_of x)))

  step_none : (p : PoolView) (c : ℕ) → StepNone (p, c) (fit_step schedule at cus p c none)
  unfolding fit_step
  step_none p c = elim (Bool-cases (ltb (free_at schedule at p) (need_of cus c))) [
    | inl e ↦ rw e (inl (λ h. ground arith, refl))
    | inr e ↦ rw e (inr (ground arith, refl))
  ]

  abbrev StepSome : PoolView × ℕ → Fit → Option Fit → Type 0
  StepSome x b r =
      ((Fits x → b.slack ≤ slack_of x) × (r ≡ some b))
      ⊎ (Fits x × (slack_of x < b.slack) × (r ≡ some (fit_of x)))

  step_some :
      (p : PoolView) (c : ℕ) (b : Fit) → StepSome (p, c) b (fit_step schedule at cus p c (some b))
  unfolding fit_step
  step_some p c b = elim (Bool-cases (ltb (free_at schedule at p) (need_of cus c))) [
    | inl e ↦ rw e (inl (λ h. absurd (ground arith), refl))
    | inr e ↦ rw e (elim (Bool-cases (ltb (slack_of (p, c)) b.slack)) [
      | inl l ↦ rw l (inr (ground arith, ltb→lt _ _ l, refl))
      | inr g ↦ rw g (inl (λ h. ground arith, refl))
    ])
  ]

  abbrev NoneFits : List (PoolView × ℕ) → Type 0
  NoneFits ps = (q : PoolView × ℕ) → In q ps → ¬ Fits q

  abbrev AtLeast : ℕ → List (PoolView × ℕ) → Type 0
  AtLeast n ps = (q : PoolView × ℕ) → In q ps → Fits q → n ≤ slack_of q

  -- The loop, started from a best so far.
  abbrev FromSome : List (PoolView × ℕ) → Fit → Option Fit → Type 0
  FromSome ps b r =
      (AtLeast b.slack ps × (r ≡ some b))
      ⊎ ((x : PoolView × ℕ) × Wins x ps × (slack_of x < b.slack) × (r ≡ some (fit_of x)))

  Wins-here :
      (x : PoolView × ℕ) (ps : List (PoolView × ℕ))
      → Fits x
      → AtLeast (slack_of x) ps
      → Wins x (x ∷ ps)
  Wins-here x ps f h = record {
    split = record { before = []; after = ps; joined = refl };
    fits = f;
    beats = λ q i. absurd i;
    holds = h;
  }

  Wins-later :
      (x y : PoolView × ℕ) (ps : List (PoolView × ℕ))
      → (Fits y → slack_of x < slack_of y)
      → Wins x ps
      → Wins x (y ∷ ps)
  Wins-later x y ps h w = record {
    split = record {
      before = y ∷ w.split.before;
      after = w.split.after;
      joined = ap (◌∷◌ y) w.split.joined;
    };
    fits = w.fits;
    beats = λ q i f. elim i [
      | inl e ↦ let g : Fits y = rw e at f in rw e (h g)
      | inr j ↦ w.beats q j f
    ];
    holds = w.holds;
  }

  AtLeast-step :
      (n : ℕ) (y : PoolView × ℕ) (ps : List (PoolView × ℕ))
      → (Fits y → n ≤ slack_of y)
      → AtLeast n ps
      → AtLeast n (y ∷ ps)
  AtLeast-step n y ps h k q (inl e) f = let g : Fits y = rw e at f in rw e (h g)
  AtLeast-step n y ps h k q (inr j) f = k q j f

  from_some :
      (ps : List (PoolView × ℕ)) (b : Fit) → FromSome ps b (best_fit schedule at cus ps (some b))
  unfolding best_fit
  from_some [] b = inl (λ q i. absurd i, refl)
  from_some ((p, c) ∷ ps) b = elim (step_some p c b) [
    | inl (h, e) ↦ rw e (elim (from_some ps b) [
      | inl (k, r) ↦ inl (AtLeast-step b.slack (p, c) ps h k, r)
      | inr (x, w, l, r) ↦ inr (x, Wins-later x (p, c) ps (λ f. omega (arith, h f)) w, l, r)
    ])
    | inr (f, l, e) ↦ rw e (elim (from_some ps (fit_of (p, c))) [
      | inl (k, r) ↦ inr ((p, c), Wins-here (p, c) ps f k, l, r)
      | inr (x, w, l', r) ↦ inr (x, Wins-later x (p, c) ps (λ _. l') w, omega arith, r)
    ])
  ]

  abbrev pub Outcome : List (PoolView × ℕ) → Option Fit → Type 0
  Outcome ps r =
      (NoneFits ps × (r ≡ none)) ⊎ ((x : PoolView × ℕ) × Wins x ps × (r ≡ some (fit_of x)))

  none_step :
      (p : PoolView) (c : ℕ) (ps : List (PoolView × ℕ))
      → ¬ Fits (p, c)
      → NoneFits ps
      → NoneFits ((p, c) ∷ ps)
  none_step p c ps h k q (inl e) f = h (rw e at f)
  none_step p c ps h k q (inr j) f = k q j f

  -- The loop finds the winner if any pool fits, and nothing if none does.
  pub best_fit-Outcome : (ps : List (PoolView × ℕ)) → Outcome ps (best_fit schedule at cus ps none)
  unfolding best_fit
  best_fit-Outcome [] = inl (λ q i. absurd i, refl)
  best_fit-Outcome ((p, c) ∷ ps) = elim (step_none p c) [
    | inl (h, e) ↦ rw e (elim (best_fit-Outcome ps) [
      | inl (k, r) ↦ inl (none_step p c ps h k, r)
      | inr (x, w, r) ↦ inr (x, Wins-later x (p, c) ps (λ f. absurd (h f)) w, r)
    ])
    | inr (f, e) ↦ rw e (elim (from_some ps (fit_of (p, c))) [
      | inl (k, r) ↦ inr ((p, c), Wins-here (p, c) ps f k, r)
      | inr (x, w, l', r) ↦ inr (x, Wins-later x (p, c) ps (λ _. l') w, r)
    ])
  ]
