-- ===== src/Service/Holds/Pause.antt =====
-- How long a pause lasts.
use provisioned_throughput.Base.Counts.{In-map}
use provisioned_throughput.Base.{
  ℕ, ◌+◌, ◌<◌, ◌≡◌, refl, sym, ◌∙◌, ap, subst, Bool, true, false, ◌&&◌, List, [], ◌∷◌, String, inl,
  inr, find, filter, leb, not, ltb, lt→ltb, In, In-filter_back, Bool-cases, ◌==◌, ==_refl,
  string_eq, pair_eq, BEq, true-ne-false,
}
use provisioned_throughput.Base.Sort.{In-sort_back}
use provisioned_throughput.Base.Dict
use provisioned_throughput.Base.Dict.{Dict}
use provisioned_throughput.Base.Result.{ok, err}
use provisioned_throughput.Base.Texts.{byte_len}
use provisioned_throughput.Capacity.{capacity_for}
use provisioned_throughput.Model.{RegionShare}
use provisioned_throughput.Failover.{has_region}
use provisioned_throughput.Errors.{conflict, validation}
use provisioned_throughput.Store.{SalesHold, MemoryStore, Triple, values, holds, put_hold}
use provisioned_throughput.Service.{Settings, Service, guard}
use provisioned_throughput.Service.Runs.{then_do-ok}
use provisioned_throughput.Service.Holds.{
  is_none, hold_on, sales_open, put, new_hold, hold_sales, hour,
}

In-insert :
    {K V : Type 0} ⦃e : BEq K⦄ (k : K) (v : V) (d : Dict K V) → In (k, v) (Dict.insert k v d)
unfolding Dict.insert
In-insert k v [] = inl refl
In-insert k v ((j, w) ∷ d) = elim (Bool-cases (j == k)) [
  | inl t ↦ rw (Dict.insert, t) (inl refl)
  | inr f ↦ rw (Dict.insert, f) (inr (In-insert k v d))
]

find-passes :
    {A : Type 0} (p : A → Bool) (x : A) (xs : List A)
    → In x xs
    → p x ≡ true
    → is_none (find p xs) ≡ false
find-passes p x [] i h = absurd i
find-passes p x (y ∷ ys) i h = elim (Bool-cases (p y)) [
  | inl t ↦ rw t refl
  | inr f ↦ elim i [
    | inl e ↦ absurd (true-ne-false (sym h ∙ ap p e ∙ f))
    | inr j ↦ rw f (find-passes p x ys j h)
  ]
]

-- A hold that is put stands among the holds until it expires.
put-holds :
    (h : SalesHold) (now : ℕ) (s : MemoryStore)
    → now < h.expires_at
    → In h (holds now (put_hold h s))
unfolding holds put_hold
put-holds h now s soon =
    let key : Triple = (h.region, (h.model, h.source)) in
    let kept = Dict.insert key h s.holds in
    In-sort_back _ h (filter (λ h. ltb now h.expires_at) (values kept)) (
      In-filter_back (λ h. ltb now h.expires_at) h (values kept) (lt→ltb now h.expires_at soon)
        (In-map (λ e. e.1) (key, h) kept (In-insert key h s.holds)))

sales_open-put :
    (h : SalesHold) (now : ℕ) (regions : List RegionShare) (s : Service)
    → now < h.expires_at
    → has_region h.region regions ≡ true
    → sales_open now h.model regions (put h s).1 ≡ (err (conflict "sales_paused"), (put h s).1)
unfolding sales_open hold_on
sales_open-put h now regions s soon there =
    let found =
      find-passes (λ k. k.model == h.model && has_region k.region regions) h
        (holds now (put_hold h s.store)) (put-holds h now s.store soon)
        (rw (==_refl h.model, there) refl) in
    rw (sales_open, hold_on, found) refl

-- When `hold_sales` succeeds, new capacity of that model in a list of regions with that one is refused
-- from then on until the time to live is over: `sales_open` fails and changes nothing.
pub sales_open-hold_sales :
    (c : Settings) (now later : ℕ) (region model source reason : String) (ttl : ℕ)
    (regions : List RegionShare) (hold : SalesHold) (s s' : Service)
    → hold_sales c now region model source reason ttl s ≡ (ok hold, s')
    → later < now + ttl
    → has_region region regions ≡ true
    → sales_open later model regions s' ≡ (err (conflict "sales_paused"), s')
unfolding hold_sales new_hold
sales_open-hold_sales c now later region model source reason ttl regions hold s s' e soon there =
    let h = new_hold now region model source reason ttl in
    let offered = not (is_none (capacity_for c.offer.capacity region model)) in
    let named = leb 1 (byte_len source) && leb (byte_len source) 128 in
    let timed = ltb 0 ttl && leb ttl hour in
    let (u₁, s₁, g₁, e₁) = then_do-ok (guard offered (validation "model") s) _ e in
    let (u₂, s₂, g₂, e₂) = then_do-ok (guard named (validation "source") s₁) _ e₁ in
    let (u₃, s₃, g₃, e₃) = then_do-ok (guard timed (validation "ttl_seconds") s₂) _ e₂ in
    let left : (put h s₃).1 ≡ s' = ap (λ r. r.1) e₃ in
    subst (λ t. sales_open later model regions t ≡ (err (conflict "sales_paused"), t)) left
      (sales_open-put h later regions s₃ soon there)
