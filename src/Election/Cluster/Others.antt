-- ===== src/Election/Cluster/Others.antt =====
-- A write by one replica happens only when every claim of every other is over.
use provisioned_throughput.Base.{ℕ, ◌+◌, ◌≤◌, ◌≡◌, ◌≢◌, sym, ◌∙◌, Option, none, some, String, arith}
use provisioned_throughput.Election.{LeaseRecord, Reason, expired, released, creating, renewing}
use provisioned_throughput.Election.Cluster.{Timing, version_of}
use provisioned_throughput.Election.Cluster.Invariant.{
  Seen, SeenAt, PlanOk, HolderAt, holder_of, Over,
}

holder_now :
    (store : Option LeaseRecord) (v : ℕ) (h : Option String)
    → version_of store ≡ some v
    → HolderAt v h store
    → holder_of store ≡ h
holder_now none v h e k = cc
holder_now (some r) v h e k = k.1 (sym (some_eq e))
  where
    some_eq : {a b : ℕ} → some a ≡ some b → a ≡ b
    some_eq e = cc

module _ (timing : Timing) (delay g : ℕ) (clock : ℕ) where
  seen_now :
      (store : Option LeaseRecord) (v since : ℕ)
      → version_of store ≡ some v
      → SeenAt timing delay g store v since
      → g ≤ since + delay
  seen_now none v since e k = cc
  seen_now (some r) v since e k = k.1 (sym (some_eq e))
    where
      some_eq : {a b : ℕ} → some a ≡ some b → a ≡ b
      some_eq e = cc

  -- Why a write that a replica plans, and that succeeds, is made when no other replica's claim on
  -- the record stands.
  pub plan-Over :
      (store : Option LeaseRecord) (name k : String) (o : Option (ℕ × ℕ)) (now t : ℕ)
      (expected : Option ℕ) (reason : Reason)
      → now ≤ clock
      → t ≤ clock
      → t ≤ g
      → version_of store ≡ expected
      → Seen timing delay g store o
      → PlanOk timing delay name store o now expected reason
      → name ≢ k
      → holder_of store ≡ some k
      → Over timing delay clock t
  plan-Over none name k o now t none creating began past tg e seen plan ne hold = cc
  plan-Over (some r) name k o now t none creating began past tg e seen plan ne hold = cc
  plan-Over store name k o now t (some v) renewing began past tg e seen plan ne hold =
      absurd (ne (same (sym (holder_now store v (some name) e plan) ∙ hold)))
    where
      same : {a b : String} → some a ≡ some b → a ≡ b
      same q = cc
  plan-Over store name k o now t (some v) released began past tg e seen plan ne hold =
      absurd (clash (sym (holder_now store v none e plan) ∙ hold))
    where
      clash : none ≡ some k → ⊥
      clash q = cc
  plan-Over store name k o now t (some v) expired began past tg e seen plan ne hold =
      let (since, same, waited) = plan in
      let known = seen_now store v since e (rw same at seen) in omega arith
  plan-Over store name k o now t none renewing began past tg e seen plan ne hold = absurd plan
  plan-Over store name k o now t none released began past tg e seen plan ne hold = absurd plan
  plan-Over store name k o now t none expired began past tg e seen plan ne hold = absurd plan
  plan-Over store name k o now t (some v) creating began past tg e seen plan ne hold = absurd plan

  -- A replica that clears its own name.
  pub holder-other :
      (store : Option LeaseRecord) (name k : String) (v : ℕ)
      → version_of store ≡ some v
      → HolderAt v (some name) store
      → name ≢ k
      → holder_of store ≡ some k
      → ⊥
  holder-other store name k v e held ne hold =
      ne (same (sym (holder_now store v (some name) e held) ∙ hold))
    where
      same : {a b : String} → some a ≡ some b → a ≡ b
      same q = cc
