-- ===== src/Affinity/Members.antt =====
-- A replica is one of its own peers.
use Prim.Native.String.{◌++◌ as ◌then◌}
use provisioned_throughput.Base.{
  ℕ, ◌≡◌, refl, sym, subst, true, Option, none, some, List, [], ◌∷◌, ◌++◌, String, inl, inr, map,
  In, In-append_right, Bool-cases, true-ne-false, ◌==◌, ==_iff, string_eq, nat_eq, if◌then◌else◌,
}
use provisioned_throughput.Base.Sort.{sort_by, In-sort_back}
use provisioned_throughput.Base.Result.{Result, ok, err, err-ne-ok, ok-eq, bind-ok}
use provisioned_throughput.Affinity.{
  AffinityConfig, Affinity, contains, is_before_text, starts_with, dedup, sort_unique, norm,
  self_url_of, peers_of, new, resolved, set_peers, refresh, mark_down,
}

abbrev pub HasSelf : Affinity → Type 0
HasSelf a = In a.self_url a.peers

starts-In : (x : String) (xs : List String) → starts_with x xs ≡ true → In x xs
starts-In x [] e = absurd (true-ne-false (sym e))
starts-In x (y ∷ ys) e = inl (sym ((==_iff y x).0 e))

In-dedup : (x : String) (xs : List String) → In x xs → In x (dedup xs)
unfolding dedup
In-dedup x [] i = absurd i
In-dedup x (y ∷ ys) i = elim (Bool-cases (starts_with y (dedup ys))) [
  | inl t ↦
      rw (dedup, t)
        (elim i [
          | inl e ↦ subst (λ z. In z (dedup ys)) (sym e) (starts-In y (dedup ys) t)
          | inr j ↦ In-dedup x ys j
        ])
  | inr f ↦ rw (dedup, f) (elim i [ inl e ↦ inl e | inr j ↦ inr (In-dedup x ys j) ])
]

In-sort_unique : (x : String) (xs : List String) → In x xs → In x (sort_unique xs)
unfolding sort_unique
In-sort_unique x xs i = In-dedup x (sort_by is_before_text xs) (In-sort_back is_before_text x xs i)

contains-In : (x : String) (xs : List String) → contains x xs ≡ true → In x xs
contains-In x [] e = absurd (true-ne-false (sym e))
contains-In x (y ∷ ys) e = elim (Bool-cases (y == x)) [
  | inl t ↦ inl (sym ((==_iff y x).0 t))
  | inr f ↦ inr (contains-In x ys (rw f at e))
]

peers_of-In :
    (config : AffinityConfig) (self_url : String) (peers : List String)
    → peers_of config self_url ≡ ok peers
    → In self_url peers
unfolding peers_of
peers_of-In config self_url peers = by_dns config.discovery_dns (map norm config.peers)
  where
    by_dns :
        (dns : Option String) (listed : List String)
        → ◌≡◌ {A = Result String (List String)}
            (elim dns [
              | some d ↦ elim listed [
                | [] ↦ ok (self_url ∷ [])
                | p ∷ rest ↦ err "set affinity.peers or discovery_dns, not both"
              ]
              | none ↦
                  if contains self_url listed
                  then ok listed
                  else err ("affinity.peers must include self_url " then self_url)
            ])
            (ok peers)
        → In self_url peers
    by_dns (some d) [] e = subst (In self_url) (ok-eq e) (inl refl)
    by_dns (some d) (p ∷ rest) e = absurd (err-ne-ok e)
    by_dns none listed e = elim (Bool-cases (contains self_url listed)) [
      | inl t ↦ subst (In self_url) (ok-eq (rw t at e)) (contains-In self_url listed t)
      | inr f ↦ absurd (err-ne-ok (rw f at e))
    ]

-- A replica that starts is one of its peers.
new-HasSelf :
    (env : String → Option String) (config : AffinityConfig) (a : Affinity)
    → new env config ≡ ok a
    → HasSelf a
unfolding new
new-HasSelf env config a e =
    let (self_url, _, e₁) = bind-ok (self_url_of env config) _ e in
    elim (Bool-cases (self_url == "")) [
      | inl t ↦ absurd (err-ne-ok (rw t at e₁))
      | inr f ↦
          let (peers, e₂, e₃) = bind-ok (peers_of config self_url) _ (rw f at e₁) in
          elim (Bool-cases (config.home_gateways == 0)) [
            | inl t ↦ absurd (err-ne-ok (rw t at e₃))
            | inr g ↦
                subst HasSelf (ok-eq (rw g at e₃))
                  (In-sort_unique self_url peers (peers_of-In config self_url peers e₂))
          ]
    ]

-- The changes of the peers while it runs.
pub data Step (a : Affinity) : Affinity → Type 0 where
  refreshed : (addresses : Option (List String)) → Step a (refresh addresses a)
  marked : (peer : String) (now : ℕ) → Step a (mark_down peer now a)

pub data Reaches (a : Affinity) : Affinity → Type 0 where
  start : Reaches a a
  next : {b c : Affinity} → Reaches a b → Step b c → Reaches a c

set_peers-HasSelf : (peers : List String) (a : Affinity) → HasSelf a → HasSelf (set_peers peers a).1
unfolding set_peers
set_peers-HasSelf [] a h = h
set_peers-HasSelf (p ∷ rest) a h =
    In-sort_unique a.self_url ((p ∷ rest) ++ a.self_url ∷ [])
      (In-append_right a.self_url (p ∷ rest) (a.self_url ∷ []) (inl refl))

refresh-HasSelf :
    (addresses : Option (List String)) (a : Affinity) → HasSelf a → HasSelf (refresh addresses a)
unfolding refresh
refresh-HasSelf none a h = h
refresh-HasSelf (some addresses) a h = by_answer (resolved addresses)
  where
    by_answer :
        (peers : List String)
        → HasSelf (elim peers [ [] ↦ a | p ∷ rest ↦ (set_peers (p ∷ rest) a).1 ])
    by_answer [] = h
    by_answer (p ∷ rest) = set_peers-HasSelf (p ∷ rest) a h

Step-HasSelf : {a b : Affinity} → Step a b → HasSelf a → HasSelf b
unfolding mark_down
Step-HasSelf {a} (refreshed addresses) h = refresh-HasSelf addresses a h
Step-HasSelf (marked peer now) h = h

Reaches-keep : {a b : Affinity} → Reaches a b → HasSelf a → HasSelf b
Reaches-keep start h = h
Reaches-keep (next r s) h = Step-HasSelf s (Reaches-keep r h)

-- A replica that started is one of the peers that it knows, whatever DNS answered since then, on a
-- failed lookup and on an empty answer too, and whichever peers could not be reached.
pub Reaches-HasSelf :
    (env : String → Option String) (config : AffinityConfig) (a b : Affinity)
    → new env config ≡ ok a
    → Reaches a b
    → HasSelf b
Reaches-HasSelf env config a b e r = Reaches-keep r (new-HasSelf env config a e)
