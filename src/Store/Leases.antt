-- ===== src/Store/Leases.antt =====
-- Named leases (`try_lease`): while one lasts, nobody else takes it.
use provisioned_throughput.Base.{
  ||-cases, ℕ, ◌+◌, ◌≤◌, ◌<◌, ◌≡◌, refl, sym, ◌∙◌, true, some, List, [], ◌∷◌, String, inl, inr,
  arith, All, leb, leb→le, Bool-cases, ◌==◌, ==_iff, ==_refl, string_eq, true-ne-false,
}
use provisioned_throughput.Base.Dict
use provisioned_throughput.Base.Dict.{get-insert}
use provisioned_throughput.Store.{MemoryStore, Lease, is_free, try_lease}

-- An attempt: the lease's name, who tries and when.
pub record Attempt : Type 0 where
  pub name : String
  pub holder : String
  pub at : ℕ

abbrev attempt_all : ℕ → List Attempt → MemoryStore → MemoryStore
attempt_all ttl [] s = s
attempt_all ttl (a ∷ rest) s = attempt_all ttl rest (try_lease a.name a.holder a.at ttl s).1

-- `h` holds the lease at least until `until`.
abbrev Holds : String → String → ℕ → MemoryStore → Type 0
Holds name h until s =
    (l : Lease) × (Dict.get name s.leases ≡ some l) × (l.holder ≡ h) × (until ≤ l.expires_at)

taken :
    (name holder : String) (now ttl : ℕ) (s : MemoryStore)
    → is_free (Dict.get name s.leases) holder now ≡ true
    → Holds name holder (now + ttl) (try_lease name holder now ttl s).1
unfolding try_lease
taken name holder now ttl s free = (
  record { name = name; holder = holder; expires_at = now + ttl },
  rw (free, try_lease) (get-insert name name _ s.leases ∙ (rw (==_refl name) refl)),
  refl,
  omega arith,
)

-- Before it expires only the holder may take it.
only_holder :
    (name h k : String) (until now : ℕ) (s : MemoryStore)
    → Holds name h until s
    → now < until
    → is_free (Dict.get name s.leases) k now ≡ true
    → k ≡ h
unfolding is_free
only_holder name h k until now s (l, at, mine, lasts) soon free =
    elim (||-cases (l.holder == k) (leb l.expires_at now) (rw at at free)) [
      | inl t ↦ sym ((==_iff l.holder k).0 t) ∙ mine
      | inr t ↦ let over : l.expires_at ≤ now = leb→le _ _ t in absurd (omega arith)
    ]

Holds-attempt :
    (name h : String) (start ttl : ℕ) (a : Attempt) (s : MemoryStore)
    → start ≤ a.at
    → a.at < start + ttl
    → Holds name h (start + ttl) s
    → Holds name h (start + ttl) (try_lease a.name a.holder a.at ttl s).1
unfolding try_lease
Holds-attempt name h start ttl a s from soon (l, at, mine, lasts) =
    elim (Bool-cases (is_free (Dict.get a.name s.leases) a.holder a.at)) [
      | inr f ↦ rw (f, try_lease) (l, at, mine, lasts)
      | inl t ↦ elim (Bool-cases (a.name == name)) [
        | inl same ↦
            let q : a.name ≡ name = (==_iff a.name name).0 same in
            let who : a.holder ≡ h =
              only_holder name h a.holder (start + ttl) a.at s (l, at, mine, lasts) soon
                (rw q at t) in
            (
              record { name = a.name; holder = a.holder; expires_at = a.at + ttl },
              rw (t, try_lease) (get-insert a.name name _ s.leases ∙ (rw same refl)),
              who,
              omega arith,
            )
        | inr apart ↦
            (l, rw (t, try_lease) (get-insert a.name name _ s.leases ∙ (rw apart at)), mine, lasts)
      ]
    ]

-- The attempts fall within the lease.
abbrev Within : ℕ → ℕ → List Attempt → Type 0
Within start ttl = All (λ a. (start ≤ a.at) × (a.at < start + ttl))

Holds-attempts :
    (name h : String) (start ttl : ℕ) (as' : List Attempt) (s : MemoryStore)
    → Within start ttl as'
    → Holds name h (start + ttl) s
    → Holds name h (start + ttl) (attempt_all ttl as' s)
Holds-attempts name h start ttl [] s w held = held
Holds-attempts name h start ttl (a ∷ rest) s w held =
    Holds-attempts name h start ttl rest _ w.1 (Holds-attempt name h start ttl a s w.0.0 w.0.1 held)

-- A named lease is exclusive: after `h` takes it, and after any attempts of anybody on any names
-- within its time to live, whoever takes it before that time is over is `h`. All attempts use the
-- same time to live.
pub try_lease-exclusive :
    (name h k : String) (start now ttl : ℕ) (others : List Attempt) (s : MemoryStore)
    → (try_lease name h start ttl s).0 ≡ true
    → Within start ttl others
    → now < start + ttl
    → (try_lease name k now ttl (attempt_all ttl others (try_lease name h start ttl s).1)).0 ≡ true
    → k ≡ h
unfolding try_lease
try_lease-exclusive name h k start now ttl others s took w soon again =
    let s' = attempt_all ttl others (try_lease name h start ttl s).1 in
    only_holder name h k (start + ttl) now s'
      (Holds-attempts name h start ttl others _ w
        (taken name h start ttl s (answer name h start s took)))
      soon (answer name k now s' again)
  where
    answer :
        (name h : String) (now : ℕ) (s : MemoryStore)
        → (try_lease name h now ttl s).0 ≡ true
        → is_free (Dict.get name s.leases) h now ≡ true
    answer name h now s e = elim (Bool-cases (is_free (Dict.get name s.leases) h now)) [
      | inl t ↦ t
      | inr f ↦ absurd (true-ne-false (sym (rw (f, try_lease) at e)))
    ]
