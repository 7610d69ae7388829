-- ===== src/Affinity/Routes.antt =====
-- Where a request goes (`route` in crates/pt-gateway/src/affinity.rs).
use Prim.Native.String.{◌++◌ as ◌then◌}
use provisioned_throughput.Base.{
  ℕ, zero, suc, ◌≡◌, refl, sym, ◌∙◌, ap, subst, subst₂, Bool, true, false, ◌&&◌, Option, none, some,
  List, [], ◌∷◌, String, inl, inr, map, filter, take, length, get_elem?, leb, ltb, max, ◌%◌, In,
  In-filter_into, Bool-cases, none-ne-some, some-eq, ◌==◌, ==_iff, string_eq, if◌then◌else◌, arith,
}
use provisioned_throughput.Base.Counts.{In-take}
use provisioned_throughput.Base.Sort.{sort_by, In-sort_by}
use provisioned_throughput.Affinity.{
  Affinity, here, forward, contains, is_up, rank, outranks, ranked, to_owner, to_home, first, route,
}

forward-eq : {o p : String} → forward o ≡ forward p → o ≡ p
forward-eq e = cc

here-ne-forward : {o : String} → here ≡ forward o → ⊥
here-ne-forward e = cc

In-contains : (x : String) (xs : List String) → In x xs → contains x xs ≡ true
In-contains x [] i = absurd i
In-contains x (y ∷ ys) (inl e) = ground (arith, ==_iff y x)
In-contains x (y ∷ ys) (inr i) = ground (arith, In-contains x ys i)

In-get : (i : ℕ) (x : String) (xs : List String) → get_elem? xs i ≡ some x → In x xs
In-get i x [] e = absurd (none-ne-some e)
In-get zero x (y ∷ ys) e = inl (sym (some-eq e))
In-get (suc i) x (y ∷ ys) e = inr (In-get i x ys e)

In-map-rank :
    (key x : String) (es : List (ℕ × String)) (ps : List String)
    → ((e : ℕ × String) → In e es → In e (map (rank key) ps))
    → In x (map (λ e. e.1) es)
    → In x ps
unfolding rank
In-map-rank key x [] ps h i = absurd i
In-map-rank key x (e ∷ es) ps h (inr i) = In-map-rank key x es ps (λ y j. h y (inr j)) i
In-map-rank key x (e ∷ es) ps h (inl q) = subst (λ y. In y ps) (sym q) (of_rank ps (h e (inl refl)))
  where
    of_rank : (ps : List String) → In e (map (rank key) ps) → In e.1 ps
    of_rank [] i = absurd i
    of_rank (p ∷ rest) (inl e) = inl (ap (λ x. x.1) e)
    of_rank (p ∷ rest) (inr i) = inr (of_rank rest i)

-- The ranked replicas are peers that are not skipped.
ranked-In :
    (a : Affinity) (key : String) (now : ℕ) (x : String)
    → In x (ranked a key now)
    → In x (filter (is_up a now) a.peers)
unfolding ranked
ranked-In a key now x i =
    let ups = filter (is_up a now) a.peers in
    In-map-rank key x (sort_by outranks (map (rank key) ups)) ups
      (λ e j. In-sort_by outranks e (map (rank key) ups) j) i

-- A replica that is up for another.
abbrev pub IsOther : Affinity → ℕ → String → Type 0
IsOther a now o = In o a.peers × (is_up a now o ≡ true) × ((o == a.self_url) ≡ false)

pub to_owner-forward :
    (a : Affinity) (owner : Option String) (o : String)
    → to_owner a owner ≡ forward o
    → (owner ≡ some o) × ((o == a.self_url) ≡ false)
unfolding to_owner
to_owner-forward a none o e = absurd (here-ne-forward e)
to_owner-forward a (some p) o e = elim (Bool-cases (p == a.self_url)) [
  | inl t ↦ absurd (here-ne-forward (rw (to_owner, t) at e))
  | inr f ↦
      let same : p ≡ o = forward-eq (rw (to_owner, f) at e) in
      (ap some same, subst (λ x. (x == a.self_url) ≡ false) same f)
]

first-In : (o : String) (xs : List String) → first xs ≡ some o → In o xs
first-In o [] e = absurd (none-ne-some e)
first-In o (x ∷ xs) e = inl (sym (some-eq e))

-- What a forwarded request's owner is: the session's first replica, or one of the homes.
to_home-forward :
    (a : Affinity) (spread : ℕ) (homes : List String) (o : String)
    → to_home a spread homes ≡ forward o
    → In o homes × ((o == a.self_url) ≡ false) × (contains a.self_url homes ≡ false)
unfolding to_home
to_home-forward a spread homes o e = elim (Bool-cases (contains a.self_url homes)) [
  | inl t ↦ absurd (here-ne-forward (rw (to_home, t) at e))
  | inr f ↦
      let (at, off) =
        to_owner-forward a (get_elem? homes (spread % max (length homes) 1)) o
          (rw (to_home, f) at e) in
      (In-get _ o homes at, off, f)
]

IsOther-of :
    (a : Affinity) (key : String) (now : ℕ) (o : String)
    → In o (ranked a key now)
    → (o == a.self_url) ≡ false
    → IsOther a now o
IsOther-of a key now o i off =
    let (known, up) = In-filter_into (is_up a now) o a.peers (ranked-In a key now o i) in
    (known, up, off)

-- A request is only forwarded to a peer other than this replica, and not to one that could not be
-- reached a short time before.
pub route-IsOther :
    (a : Affinity) (session : Option String) (deployment : String) (cus spread now : ℕ) (o : String)
    → route a session deployment cus spread now ≡ forward o
    → IsOther a now o
unfolding route
route-IsOther a (some s) deployment cus spread now o e =
    let (owner, off) = to_owner-forward a _ o e in
    IsOther-of a ("session:" then s) now o (first-In o _ owner) off
route-IsOther a none deployment cus spread now o e =
    elim (Bool-cases (ltb 0 cus && leb cus a.home_below_cus)) [
      | inr f ↦ absurd (here-ne-forward (rw (route, f, to_owner) at e))
      | inl t ↦
          let (i, off, _) = to_home-forward a spread _ o (rw (route, t) at e) in
          IsOther-of a ("home:" then deployment) now o (In-take o a.home_gateways _ i) off
    ]

-- A replica that skips none of its peers.
abbrev SkipsNone : Affinity → ℕ → Type 0
SkipsNone a now = (p : String) → In p a.peers → is_up a now p ≡ true

filter-all :
    (p : String → Bool) (xs : List String)
    → ((x : String) → In x xs → p x ≡ true)
    → filter p xs ≡ xs
filter-all p [] h = refl
filter-all p (x ∷ rest) h = rw (h x (inl refl)) (ap (x ∷◌) (filter-all p rest (λ y i. h y (inr i))))

ranked-same :
    (a b : Affinity) (key : String) (now : ℕ)
    → a.peers ≡ b.peers
    → SkipsNone a now
    → SkipsNone b now
    → ranked a key now ≡ ranked b key now
unfolding ranked
ranked-same a b key now same ups ups' =
    ap (λ ps. map (λ e. e.1) (sort_by outranks (map (rank key) ps)))
      (filter-all (is_up a now) a.peers ups ∙ same ∙ sym (filter-all (is_up b now) b.peers ups'))

to_owner-here : (b : Affinity) (o : String) → b.self_url ≡ o → to_owner b (some o) ≡ here
unfolding to_owner
to_owner-here b o e = rw (to_owner, (==_iff o b.self_url).1 (sym e)) refl

-- Two replicas of one region: they know the same peers and have the same settings, and skip none.
record AreAlike (a b : Affinity) (now : ℕ) : Type 0 where
  pub same_peers : a.peers ≡ b.peers
  pub same_below : a.home_below_cus ≡ b.home_below_cus
  pub same_homes : a.home_gateways ≡ b.home_gateways
  pub skips_none : SkipsNone a now
  pub other_skips_none : SkipsNone b now

-- Two replicas that know the same peers, have the same settings and skip no peer agree on where a
-- request belongs: if the routing of one forwards it to the other, the routing of the other, asked for
-- the same request, answers that it is served there.
route-settles :
    (a b : Affinity) (session : Option String) (deployment : String) (cus spread now : ℕ)
    → AreAlike a b now
    → route a session deployment cus spread now ≡ forward b.self_url
    → route b session deployment cus spread now ≡ here
unfolding route
route-settles a b (some s) deployment cus spread now alike e =
    let key = "session:" then s in
    let (owner, _) = to_owner-forward a _ b.self_url e in
    let same = ranked-same a b key now alike.same_peers alike.skips_none alike.other_skips_none in
    ap (λ xs. to_owner b (first xs)) (sym same)
    ∙ ap (to_owner b) owner
    ∙ to_owner-here b b.self_url refl
route-settles a b none deployment cus spread now alike e =
    elim (Bool-cases (ltb 0 cus && leb cus a.home_below_cus)) [
      | inr f ↦ absurd (here-ne-forward (rw (route, f, to_owner) at e))
      | inl t ↦
          let key = "home:" then deployment in
          let small : (ltb 0 cus && leb cus b.home_below_cus) ≡ true =
            subst (λ n. (ltb 0 cus && leb cus n) ≡ true) alike.same_below t in
          let (i, _, _) = to_home-forward a spread _ b.self_url (rw (route, t) at e) in
          let same =
            ranked-same a b key now alike.same_peers alike.skips_none alike.other_skips_none in
          let home : contains b.self_url (take b.home_gateways (ranked b key now)) ≡ true =
            subst₂ (λ n xs. contains b.self_url (take n xs) ≡ true) alike.same_homes same
              (In-contains b.self_url _ i) in
          rw (route, small, to_home, home) refl
    ]
