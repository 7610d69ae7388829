-- ===== src/Affinity/Stays.antt =====
-- A session stays with its replica (`route` in crates/pt-gateway/src/affinity.rs).
use Prim.Native.String.{◌++◌ as ◌then◌}
use provisioned_throughput.Base.{
  ℕ, ◌≡◌, refl, sym, ◌∙◌, ap, subst, some, List, [], ◌∷◌, String, inl, inr, map, filter, In,
  none-ne-some, some-eq, ◌==◌, string_eq, if◌then◌else◌,
}
use provisioned_throughput.Base.Counts.{In-map}
use provisioned_throughput.Base.Sort.{sort_by}
use provisioned_throughput.Affinity.{
  Affinity, here, forward, is_up, rank, outranks, ranked, to_owner, first, route,
}
use provisioned_throughput.Affinity.Order.{Heads, IsTop, IsTop-unique, sort_by-Heads}
use provisioned_throughput.Affinity.Routes.{to_owner-forward}

-- The replicas that one may route to: its peers that it does not skip.
abbrev pub live : Affinity → ℕ → List String
live a now = filter (is_up a now) a.peers

-- A rank is the rank of a name, which stands in it.
rank-In :
    (key : String) (e : ℕ × String) (ps : List String)
    → In e (map (rank key) ps)
    → In e.1 ps × (e ≡ rank key e.1)
unfolding rank
rank-In key e [] i = absurd i
rank-In key e (p ∷ ps) (inl q) = (inl (ap (λ x. x.1) q), subst (λ x. x ≡ rank key x.1) (sym q) refl)
rank-In key e (p ∷ ps) (inr i) = let (j, q) = rank-In key e ps i in (inr j, q)

-- The first of the ranked replicas has the top rank.
IsFirst : Affinity → String → ℕ → String → Type 0
IsFirst a key now o = In o (live a now) × IsTop (rank key o) (map (rank key) (live a now))

first-Heads :
    (key o : String) (ys : List (ℕ × String)) (ps : List String)
    → Heads ys (map (rank key) ps)
    → first (map (λ e. e.1) ys) ≡ some o
    → In o ps × IsTop (rank key o) (map (rank key) ps)
first-Heads key o [] ps h e = absurd (none-ne-some e)
first-Heads key o (y ∷ ys) ps h e =
    let (i, q) = rank-In key y ps h.0 in
    let named : y.1 ≡ o = some-eq e in
    (
      subst (λ x. In x ps) named i,
      subst (λ x. IsTop x (map (rank key) ps)) (q ∙ ap (rank key) named) h,
    )

ranked-first :
    (a : Affinity) (key : String) (now : ℕ) (o : String)
    → first (ranked a key now) ≡ some o
    → IsFirst a key now o
unfolding ranked IsFirst
ranked-first a key now o e =
    first-Heads key o (sort_by outranks (map (rank key) (live a now))) (live a now)
      (sort_by-Heads (map (rank key) (live a now))) e

-- Where there is a replica, there is a first.
Heads-first :
    (ys : List (ℕ × String)) (xs : List (ℕ × String)) (x : ℕ × String)
    → Heads ys xs
    → In x xs
    → (p : String) × (first (map (λ e. e.1) ys) ≡ some p)
Heads-first [] xs x h i = absurd (subst (In x) h i)
Heads-first (y ∷ ys) xs x h i = (y.1, refl)

-- The first of some replicas is the first of fewer, if it is one of them.
first_stays :
    (a b : Affinity) (key : String) (now now' : ℕ) (o : String)
    → first (ranked a key now) ≡ some o
    → ((x : String) → In x (live b now') → In x (live a now))
    → In o (live b now')
    → first (ranked b key now') ≡ some o
unfolding ranked IsFirst rank
first_stays a b key now now' o e fewer i =
    let ranks = map (rank key) (live b now') in
    let (p, f) =
      Heads-first (sort_by outranks ranks) ranks (rank key o) (sort_by-Heads ranks)
        (In-map (rank key) o (live b now') i) in
    let top_a = ranked-first a key now o e in
    let top_b = ranked-first b key now' p f in
    let same =
      IsTop-unique (rank key o) (rank key p) _ ranks top_a.1 top_b.1
        (In-map (rank key) p (live a now) (fewer p top_b.0))
        (In-map (rank key) o (live b now') i) in
    f ∙ ap some (sym (ap (λ x. x.1) same))

-- A session stays with its replica: if one replica forwards a session's requests to `o`, then every
-- replica that knows `o` and does not skip it, and that knows and does not skip no replica but those
-- of the first one, sends the session's requests there too, and `o` itself serves them. So a session
-- does not move when other replicas leave or cannot be reached.
pub route-stays :
    (a b : Affinity) (session deployment : String) (cus spread now now' : ℕ) (o : String)
    → route a (some session) deployment cus spread now ≡ forward o
    → ((x : String) → In x (live b now') → In x (live a now))
    → In o (live b now')
    → route b (some session) deployment cus spread now'
      ≡ (if o == b.self_url then here else forward o)
unfolding route to_owner
route-stays a b session deployment cus spread now now' o e fewer i =
    let key = "session:" then session in
    let (owner, off) = to_owner-forward a (first (ranked a key now)) o e in
    rw (first_stays a b key now now' o owner fewer i) refl
