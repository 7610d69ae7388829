-- ===== src/Planner/Memory/Pools.antt =====
-- The pools as a map from region and pool id: what a write to one pool's count changes.
use mathlib.Core.Option
use provisioned_throughput.Base.{
  ℕ, ◌≡◌, refl, sym, ◌∙◌, true, false, none, some, List, [], ◌∷◌, String, inl, inr, arith, In,
  Bool-cases, &&-eq_true, ==_iff, string_eq,
}
use provisioned_throughput.Planner.{PoolView}
use provisioned_throughput.Planner.Memory.{is_at, find_pool, set_reserved}

is_at_key :
    (region pool : String) (p : PoolView)
    → is_at region pool p ≡ true
    → (p.region ≡ region) × (p.pool ≡ pool)
unfolding is_at
is_at_key region pool p h =
    let parts = &&-eq_true _ _ h in
    ((==_iff p.region region).0 parts.0, (==_iff p.pool pool).0 parts.1)

is_at_of_key :
    (region pool : String) (p : PoolView)
    → p.region ≡ region
    → p.pool ≡ pool
    → is_at region pool p ≡ true
unfolding is_at
is_at_of_key region pool p r q = rw ((==_iff p.region region).1 r, (==_iff p.pool pool).1 q)

find_pool-key :
    (region pool : String) (ps : List PoolView) (q : PoolView)
    → find_pool region pool ps ≡ some q
    → (q.region ≡ region) × (q.pool ≡ pool)
unfolding find_pool
find_pool-key region pool [] q e = cc
find_pool-key region pool (p ∷ ps) q e = elim (Bool-cases (is_at region pool p)) [
  | inl t ↦ let same : p ≡ q = ground arith in rw same at (is_at_key region pool p t)
  | inr f ↦ find_pool-key region pool ps q (ground arith)
]

abbrev pub with_reserved : (ℕ → ℕ) → PoolView → PoolView
with_reserved f p = record p { reserved = f p.reserved }

pub is_at_with :
    (region pool : String) (f : ℕ → ℕ) (p : PoolView)
    → is_at region pool (with_reserved f p) ≡ is_at region pool p
unfolding is_at
is_at_with region pool f p = refl

-- The pool that is written.
pub find-set_self :
    (region pool : String) (f : ℕ → ℕ) (ps : List PoolView)
    → find_pool region pool (set_reserved region pool f ps)
      ≡ Option.map (with_reserved f) (find_pool region pool ps)
unfolding find_pool set_reserved is_at
find-set_self region pool f [] = refl
find-set_self region pool f (p ∷ ps) = elim (Bool-cases (is_at region pool p)) [
  | inl t ↦ ground arith
  | inr e ↦ ground (arith, find-set_self region pool f ps)
]

-- Every other pool.
pub find-set_ne :
    (region pool region' pool' : String) (f : ℕ → ℕ) (ps : List PoolView)
    → ¬ ((region ≡ region') × (pool ≡ pool'))
    → find_pool region' pool' (set_reserved region pool f ps) ≡ find_pool region' pool' ps
unfolding find_pool set_reserved
find-set_ne region pool region' pool' f [] h = refl
find-set_ne region pool region' pool' f (p ∷ ps) h = elim (Bool-cases (is_at region pool p)) [
  | inl t ↦
      let key = is_at_key region pool p t in
      let other : is_at region' pool' p ≡ false = elim (Bool-cases (is_at region' pool' p)) [
        | inl u ↦
            let key' = is_at_key region' pool' p u in
            absurd (h (sym key.0 ∙ key'.0, sym key.1 ∙ key'.1))
        | inr e ↦ e
      ] in
      rw (t, is_at_with region' pool' f p ∙ other, other)
  | inr e ↦ rw (e, find-set_ne region pool region' pool' f ps h)
]

-- No two pools share their region and id.
abbrev pub IsKeyed : List PoolView → Type 0
IsKeyed [] = Unit
IsKeyed (p ∷ ps) = (find_pool p.region p.pool ps ≡ none) × IsKeyed ps

-- Then each pool is the one that is found under its key.
pub find_pool-In :
    (q : PoolView) (ps : List PoolView)
    → IsKeyed ps
    → In q ps
    → find_pool q.region q.pool ps ≡ some q
unfolding find_pool
find_pool-In q [] k i = absurd i
find_pool-In q (p ∷ ps) k (inl e) = rw (← e, is_at_of_key q.region q.pool q refl refl)
find_pool-In q (p ∷ ps) k (inr i) = elim (Bool-cases (is_at q.region q.pool p)) [
  | inl t ↦
      let key = is_at_key q.region q.pool p t in
      let found = find_pool-In q ps k.1 i in
      let missing : find_pool q.region q.pool ps ≡ none = rw (← key.0, ← key.1) k.0 in cc
  | inr f ↦ rw f (find_pool-In q ps k.1 i)
]

find-set_none :
    (region pool region' pool' : String) (f : ℕ → ℕ) (ps : List PoolView)
    → find_pool region' pool' ps ≡ none
    → find_pool region' pool' (set_reserved region pool f ps) ≡ none
unfolding find_pool set_reserved
find-set_none region pool region' pool' f [] h = refl
find-set_none region pool region' pool' f (p ∷ ps) h = elim (Bool-cases (is_at region pool p)) [
  | inl t ↦ rw t (ground (arith, is_at_with region' pool' f p))
  | inr e ↦ rw e (ground (arith, find-set_none region pool region' pool' f ps))
]

pub set_reserved-IsKeyed :
    (region pool : String) (f : ℕ → ℕ) (ps : List PoolView)
    → IsKeyed ps
    → IsKeyed (set_reserved region pool f ps)
unfolding set_reserved
set_reserved-IsKeyed region pool f [] k = tt
set_reserved-IsKeyed region pool f (p ∷ ps) k = elim (Bool-cases (is_at region pool p)) [
  | inl t ↦ rw t k
  | inr e ↦ rw e (
    find-set_none region pool p.region p.pool f ps k.0,
    set_reserved-IsKeyed region pool f ps k.1,
  )
]
