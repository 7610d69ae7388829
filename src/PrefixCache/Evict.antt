-- ===== src/PrefixCache/Evict.antt =====
-- The index stays within its capacity.
use provisioned_throughput.Base.{
  some-eq, none-ne-some, ℕ, ◌+◌, ◌*◌, ◌≤◌, ◌≡◌, refl, sym, ◌∙◌, ap, subst, false, ◌||◌, some, List,
  [], ◌∷◌, ◌++◌, length, ltb, w64, ◌==◌, ==_iff, ==_refl, nat_eq, inl, inr, In, In-append_left,
  In-append_right, arith, Bool-cases, Option-cases, true-ne-false,
}
use provisioned_throughput.Base.Dict
use provisioned_throughput.Base.Dict.{Dict, get-insert, get-remove}
use provisioned_throughput.PrefixCache.{
  PrefixCacheConfig, Seen, Order, PrefixCache, new, write_all, forget, evict, record_keys,
}

-- Every prefix that is remembered has its last write in the order.
abbrev Tracked : Seen → Order → Type 0
Tracked seen order = (k t g : ℕ) → Dict.get k seen ≡ some (t, g) → In (k, g) order

pair_path : {a b c d : ℕ} → a ≡ b → c ≡ d → ◌≡◌ {A = ℕ × ℕ} (a, c) (b, d)
pair_path p q = cc

write-Tracked :
    (k now g : ℕ) (seen : Seen) (order : Order)
    → Tracked seen order
    → Tracked (Dict.insert k (now, g) seen) (order ++ (k, g) ∷ [])
write-Tracked k now g seen order h j t u e = elim (Bool-cases (k == j)) [
  | inl same ↦
      let at : some (now, g) ≡ some (t, u) =
        sym (get-insert k j (now, g) seen ∙ (rw same refl)) ∙ e in
      let q : k ≡ j = (==_iff k j).0 same in
      In-append_right (j, u) order ((k, g) ∷ [])
        (inl (pair_path (sym q) (sym (ap (λ p. p.1) (some-eq at)))))
  | inr apart ↦
      In-append_left (j, u) order ((k, g) ∷ [])
        (h j t u (sym (get-insert k j (now, g) seen ∙ (rw apart refl)) ∙ e))
]

write_all-Tracked :
    (keys : List ℕ) (now : ℕ) (c : PrefixCache)
    → Tracked c.seen c.order
    → Tracked (write_all keys now c).seen (write_all keys now c).order
unfolding write_all
write_all-Tracked [] now c h = h
write_all-Tracked (k ∷ keys) now c h =
    write_all-Tracked keys now _ (write-Tracked k now (w64 (c.generation + 1)) c.seen c.order h)

write_all-config :
    (keys : List ℕ) (now : ℕ) (c : PrefixCache) → (write_all keys now c).config ≡ c.config
unfolding write_all
write_all-config [] now c = refl
write_all-config (k ∷ keys) now c = write_all-config keys now _

forget-Tracked :
    (k g : ℕ) (seen : Seen) (order : Order)
    → Tracked seen ((k, g) ∷ order)
    → Tracked (forget k g seen) order
unfolding forget
forget-Tracked k g seen order h = elim (Option-cases (Dict.get k seen)) [
  | inl e ↦
      rw (e, forget)
        (λ j t u at. elim (h j t u at) [
          | inl q ↦
              absurd (none-ne-some (sym e ∙ ap (λ x. Dict.get x seen) (sym (ap (λ p. p.0) q)) ∙ at))
          | inr i ↦ i
        ])
  | inr (last, e) ↦ elim (Bool-cases (last.1 == g)) [
    | inl same ↦
        rw (e, same, forget)
          (λ j t u at. elim (Bool-cases (k == j)) [
            | inl x ↦ absurd (none-ne-some (sym (get-remove k j seen ∙ (rw x refl)) ∙ at))
            | inr x ↦ elim (h j t u (sym (get-remove k j seen ∙ (rw x refl)) ∙ at)) [
              | inl q ↦ absurd (true-ne-false (sym ((==_iff k j).1 (sym (ap (λ p. p.0) q))) ∙ x))
              | inr i ↦ i
            ]
          ])
    | inr apart ↦
        rw (e, apart, forget)
          (λ j t u at. elim (h j t u at) [
            | inl q ↦
                let found : some last ≡ some (t, u) =
                  sym e ∙ ap (λ x. Dict.get x seen) (sym (ap (λ p. p.0) q)) ∙ at in
                absurd (
                  true-ne-false (
                    sym ((==_iff last.1 g).1 (ap (λ p. p.1) (some-eq found) ∙ ap (λ p. p.1) q))
                    ∙ apart))
            | inr i ↦ i
          ])
  ]
]

-- With no writes in the order, nothing is remembered.
empty : (seen : Seen) → Tracked seen [] → length seen ≡ 0
unfolding Dict.get
empty [] h = refl
empty ((k, (t, g)) ∷ seen) h = absurd (h k t g (rw (==_refl k) refl))

-- The bounds that the loop ends with.
abbrev pub IsWithin : ℕ → Seen → Order → Type 0
IsWithin capacity seen order = (length seen ≤ capacity) × (length order ≤ w64 (2 * capacity))

within :
    (capacity : ℕ) (seen : Seen) (order : Order)
    → (ltb capacity (length seen) || ltb (w64 (2 * capacity)) (length order)) ≡ false
    → IsWithin capacity seen order
within capacity seen order e = (ground arith, ground arith)

evict-IsWithin :
    (capacity : ℕ) (seen : Seen) (order : Order)
    → Tracked seen order
    → let (seen', order') = evict capacity seen order in
      IsWithin capacity seen' order' × Tracked seen' order'
unfolding evict
evict-IsWithin capacity seen [] h = let none_left = empty seen h in ((omega arith, omega arith), h)
evict-IsWithin capacity seen ((k, g) ∷ order) h =
    elim (Bool-cases
      (ltb capacity (length seen) || ltb (w64 (2 * capacity)) (length ((k, g) ∷ order)))) [
        | inl t ↦
            rw t (evict-IsWithin capacity (forget k g seen) order (forget-Tracked k g seen order h))
        | inr f ↦ rw f (within capacity seen ((k, g) ∷ order) f, h)
      ]

-- A run of `record`.
abbrev pub record_all : List (List ℕ × ℕ) → PrefixCache → PrefixCache
record_all [] c = c
record_all ((keys, now) ∷ rest) c = record_all rest (record_keys keys now c)

abbrev IsKept : PrefixCacheConfig → PrefixCache → Type 0
IsKept config c =
    (c.config ≡ config) × Tracked c.seen c.order × IsWithin config.capacity c.seen c.order

record_keys-IsKept :
    (config : PrefixCacheConfig) (keys : List ℕ) (now : ℕ) (c : PrefixCache)
    → IsKept config c
    → IsKept config (record_keys keys now c)
unfolding record_keys
record_keys-IsKept config keys now c (same, tracked, fits) =
    elim (Bool-cases (c.config.capacity == 0)) [
      | inl z ↦ rw (z, record_keys) (same, tracked, fits)
      | inr p ↦ rw (p, record_keys) (kept p)
    ]
  where
    kept :
        (c.config.capacity == 0) ≡ false
        → let written = write_all keys now c in
          let (seen, order) = evict c.config.capacity written.seen written.order in
          (written.config ≡ config) × Tracked seen order × IsWithin config.capacity seen order
    kept p =
        let (within, still) =
          evict-IsWithin c.config.capacity (write_all keys now c).seen (write_all keys now c).order
            (write_all-Tracked keys now c tracked) in
        (
          write_all-config keys now c ∙ same,
          still,
          subst
              (λ k.
                IsWithin k.capacity
                  (evict c.config.capacity (write_all keys now c).seen
                    (write_all keys now c).order).0
                  (evict c.config.capacity (write_all keys now c).seen
                    (write_all keys now c).order).1)
              same within,
        )

record_all-IsKept :
    (config : PrefixCacheConfig) (runs : List (List ℕ × ℕ)) (c : PrefixCache)
    → IsKept config c
    → IsKept config (record_all runs c)
record_all-IsKept config [] c h = h
record_all-IsKept config ((keys, now) ∷ rest) c h =
    record_all-IsKept config rest _ (record_keys-IsKept config keys now c h)

-- The index is bounded: after any sequence of `record`s on a new cache, at whatever instants and with
-- however many keys each, it remembers at most as many prefixes as its capacity, and its order of
-- writes has at most twice as many entries (a product taken modulo 2^64).
pub record_all-IsWithin :
    (config : PrefixCacheConfig) (runs : List (List ℕ × ℕ))
    → let c = record_all runs (new config) in IsWithin config.capacity c.seen c.order
unfolding Dict.get
record_all-IsWithin config runs =
    (record_all-IsKept config runs (new config)
      (refl, (λ k t g e. absurd (none-ne-some e)), (omega arith, omega arith))).2
