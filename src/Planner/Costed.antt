-- ===== src/Planner/Costed.antt =====
-- The pools with a cost at a tier, each where it stands among the pools.
use provisioned_throughput.Base.{
  ℕ, ◌≡◌, refl, sym, Option, none, some, List, [], ◌∷◌, ◌++◌, inl, inr, arith, In, Split, ap, subst,
  string_eq, ◌∙◌,
}
use provisioned_throughput.Core.{Tier}
use provisioned_throughput.Capacity.{Costs, cost_per_cu}
use provisioned_throughput.Planner.{PoolView, costed_pools}

module _ (costs : Costs) (tier : Tier) where
  abbrev pub Costed : PoolView × ℕ → Type 0
  Costed (p, c) = cost_per_cu costs p.region p.pool tier ≡ some c

  abbrev keep_costed : PoolView → Option ℕ → List (PoolView × ℕ) → List (PoolView × ℕ)
  keep_costed q none rest = rest
  keep_costed q (some d) rest = (q, d) ∷ rest

  costed_step :
      (q : PoolView) (ps : List PoolView)
      → costed_pools costs tier (q ∷ ps)
        ≡ keep_costed q (cost_per_cu costs q.region q.pool tier) (costed_pools costs tier ps)
  unfolding costed_pools
  costed_step q ps = ground arith

  pub In-Costed_back :
      (p : PoolView) (c : ℕ) (ps : List PoolView)
      → Costed (p, c)
      → In p ps
      → In (p, c) (costed_pools costs tier ps)
  In-Costed_back p c [] e i = absurd i
  In-Costed_back p c (q ∷ ps) e (inl same) = rw (costed_step q ps, ← same, e) (inl refl)
  In-Costed_back p c (q ∷ ps) e (inr i) =
      rw (costed_step q ps)
        (skip (cost_per_cu costs q.region q.pool tier) (In-Costed_back p c ps e i))
    where
      skip :
          (o : Option ℕ)
          → In (p, c) (costed_pools costs tier ps)
          → In (p, c) (keep_costed q o (costed_pools costs tier ps))
      skip none j = j
      skip (some d) j = inr j

  costed_nil : costed_pools costs tier [] ≡ []
  unfolding costed_pools
  costed_nil = refl

  into_step :
      (p : PoolView) (c : ℕ) (q : PoolView) (ps : List PoolView) (o : Option ℕ)
      → cost_per_cu costs q.region q.pool tier ≡ o
      → (In (p, c) (costed_pools costs tier ps) → In p ps × Costed (p, c))
      → In (p, c) (keep_costed q o (costed_pools costs tier ps))
      → In p (q ∷ ps) × Costed (p, c)
  into_step p c q ps none e ih i = (inr (ih i).0, (ih i).1)
  into_step p c q ps (some d) e ih (inl same) =
      let pool : p ≡ q = ap (λ x. x.0) same in
      let cost : c ≡ d = ap (λ x. x.1) same in (inl pool, rw (pool, cost) e)
  into_step p c q ps (some d) e ih (inr i) = (inr (ih i).0, (ih i).1)

  -- A costed pool is one of the pools, and its cost is the configured one.
  pub In-Costed_into :
      (p : PoolView) (c : ℕ) (ps : List PoolView)
      → In (p, c) (costed_pools costs tier ps)
      → In p ps × Costed (p, c)
  unfolding costed_pools
  In-Costed_into p c [] i = absurd i
  In-Costed_into p c (q ∷ ps) i =
      into_step p c q ps _ refl (In-Costed_into p c ps) (subst (In (p, c)) (costed_step q ps) i)

  -- A costed pool at its place among the pools: what stands before it there, costed, is what stood
  -- before it among the costed, and so for what stands after.
  pub record SplitCosted (p : PoolView) (c : ℕ) (ps : List PoolView) (bs cs : List (PoolView × ℕ))
      : Type 0 where
    pub split : Split p ps
    pub cost : Costed (p, c)
    pub before_costed : costed_pools costs tier split.before ≡ bs
    pub after_costed : costed_pools costs tier split.after ≡ cs

  split_after :
      (p q : PoolView) (c : ℕ) (ps : List PoolView) (o : Option ℕ) (bs cs : List (PoolView × ℕ))
      → cost_per_cu costs q.region q.pool tier ≡ o
      → SplitCosted p c ps bs cs
      → SplitCosted p c (q ∷ ps) (keep_costed q o bs) cs
  split_after p q c ps o bs cs e s = record {
    split = record {
      before = q ∷ s.split.before;
      after = s.split.after;
      joined = ap (◌∷◌ q) s.split.joined;
    };
    cost = s.cost;
    before_costed = rw (costed_step q s.split.before, e, s.before_costed);
    after_costed = s.after_costed;
  }

  costed_split_step :
      (p q : PoolView) (c : ℕ) (ps : List PoolView) (o : Option ℕ) (bs cs : List (PoolView × ℕ))
      → cost_per_cu costs q.region q.pool tier ≡ o
      → ((ds : List (PoolView × ℕ))
          → costed_pools costs tier ps ≡ ds ++ (p, c) ∷ cs
          → SplitCosted p c ps ds cs)
      → keep_costed q o (costed_pools costs tier ps) ≡ bs ++ (p, c) ∷ cs
      → SplitCosted p c (q ∷ ps) bs cs
  costed_split_step p q c ps none bs cs e ih h = split_after p q c ps none bs cs e (ih bs h)
  costed_split_step p q c ps (some d) [] cs e ih h =
      let same : q ≡ p = ground arith in
      let cost : d ≡ c = ground arith in
      record {
        split = record { before = []; after = ps; joined = rw same };
        cost = rw (← same, ← cost) e;
        before_costed = costed_nil;
        after_costed = ground arith;
      }
  costed_split_step p q c ps (some d) ((b, n) ∷ bs) cs e ih h =
      let same : ◌≡◌ {A = PoolView × ℕ} (q, d) (b, n) = ground arith in
      rw (← same) (split_after p q c ps (some d) bs cs e (ih bs (ground arith)))

  pub costed_split :
      (p : PoolView) (c : ℕ) (ps : List PoolView) (bs cs : List (PoolView × ℕ))
      → costed_pools costs tier ps ≡ bs ++ (p, c) ∷ cs
      → SplitCosted p c ps bs cs
  unfolding costed_pools
  costed_split p c [] [] cs e = cc
  costed_split p c [] (b ∷ bs) cs e = cc
  costed_split p c (q ∷ ps) bs cs e =
      costed_split_step p q c ps _ bs cs refl (λ ds h. costed_split p c ps ds cs h)
        (sym (costed_step q ps) ∙ e)
