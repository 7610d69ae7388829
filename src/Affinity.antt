-- ===== src/Affinity.antt =====
-- Which gateway replica serves a request (crates/pt-gateway/src/affinity.rs): the owner of a session
-- or of a small reservation, by rendezvous hashing among the replicas. Instants and durations are in
-- milliseconds. The environment and the addresses that DNS gives are arguments; the HTTP client, the
-- timer of `discover` and the log lines are left out.
pub mod Order
pub mod Routes
pub mod Stays
pub mod Members
pub mod Tests
use Prim.Native.Nat.{Ordering, bit_xor}
use Prim.Native.Char.{Char, code}
use Prim.Native.String.{compare, [] as nil, ◌∷◌ as ◌cons◌, ◌++◌ as ◌then◌}
use provisioned_throughput.Base.{
  ℕ, suc, ◌+◌, ◌-◌, ◌*◌, ◌/◌, ◌%◌, max, Bool, true, false, not, ◌&&◌, ◌||◌, Option, none, some,
  List, [], ◌∷◌, ◌++◌, String, map, filter, any, take, length, get_elem?, leb, ltb, ◌==◌, nat_eq,
  string_eq, if◌then◌else◌, w64,
}
use provisioned_throughput.Base.Sort.{sort_by}
use provisioned_throughput.Base.Dict
use provisioned_throughput.Base.Dict.{Dict}
use provisioned_throughput.Base.Result.{Result, ok, err, ◌>>=◌}

-- `AffinityConfig`
pub record AffinityConfig : Type 0 where
  pub self_url : String
  pub peers : List String
  pub discovery_dns : Option String
  pub refresh_secs : ℕ
  pub self_ip_env : Option String
  pub home_below_cus : ℕ
  pub home_gateways : ℕ

-- `Route`
pub data Route : Type 0 where
  here : Route
  forward : String → Route

-- `Affinity`, less the HTTP client.
pub record Affinity : Type 0 where
  pub self_url : String
  pub peers : List String
  pub discovery : Option (String × ℕ)
  pub home_below_cus : ℕ
  pub home_gateways : ℕ
  pub down : Dict String ℕ

abbrev down_for : ℕ
down_for = 10000

abbrev pub contains : String → List String → Bool
contains x = any (λ y. y == x)

-- `Vec::sort` and `Vec::dedup` on strings
unfoldable pub is_before_text : String → String → Bool
is_before_text a b = elim (compare a b) [ Ordering.lt ↦ true | _ ↦ false ]

abbrev pub starts_with : String → List String → Bool
starts_with x [] = false
starts_with x (y ∷ ys) = y == x

unfoldable pub dedup : List String → List String
dedup [] = []
dedup (x ∷ rest) = let more = dedup rest in if starts_with x more then more else x ∷ more

unfoldable pub sort_unique : List String → List String
unfolding is_before_text dedup
sort_unique xs = dedup (sort_by is_before_text xs)

-- `resolve_peers`, from the addresses.
unfoldable pub resolved : List String → List String
unfolding sort_unique
resolved addresses = sort_unique (map (λ a. "http://" then a) addresses)

-- `trim_end_matches('/')`
unfoldable pub norm : String → String
norm nil = nil
norm (c cons rest) =
    let more = norm rest in if (code c == 47) && (more == nil) then nil else c cons more

-- `contains(':')`, and what `rsplit_once(':')` finds after the last colon
unfoldable has_colon : String → Bool
has_colon nil = false
has_colon (c cons rest) = let more = has_colon rest in (code c == 58) || more

unfoldable after_colon : String → Option String
unfolding has_colon
after_colon nil = none
after_colon (c cons rest) =
    let more = after_colon rest in
    if has_colon rest then more else if code c == 58 then some rest else none

-- The URL of this replica from its address and the port of `discovery_dns`.
unfoldable own_url : String → String → Result String String
unfolding has_colon after_colon
own_url ip dns = elim (after_colon dns) [
  | none ↦ err "affinity.discovery_dns must be host:port"
  | some port ↦
      let host = if has_colon ip then "[" then (ip then "]") else ip in
      ok ("http://" then (host then (":" then port)))
]

unfoldable pub self_url_of : (String → Option String) → AffinityConfig → Result String String
unfolding norm own_url
self_url_of env config = elim config.self_ip_env [
  | none ↦ ok (norm config.self_url)
  | some var ↦ elim config.discovery_dns [
    | none ↦ err "affinity.self_ip_env needs discovery_dns"
    | some dns ↦ elim (env var) [
      | none ↦ err ("set " then (var then " to this pod's IP"))
      | some ip ↦ own_url ip dns
    ]
  ]
]

unfoldable pub peers_of : AffinityConfig → String → Result String (List String)
unfolding norm
peers_of config self_url =
    let listed = map norm config.peers in
    elim config.discovery_dns [
      | some dns ↦ elim listed [
        | [] ↦ ok (self_url ∷ [])
        | p ∷ rest ↦ err "set affinity.peers or discovery_dns, not both"
      ]
      | none ↦
          if contains self_url listed
          then ok listed
          else err ("affinity.peers must include self_url " then self_url)
    ]

-- `Affinity::new`
unfoldable pub new : (String → Option String) → AffinityConfig → Result String Affinity
unfolding self_url_of peers_of sort_unique
new env config = self_url_of env config >>= λ self_url.
    (if self_url == nil
      then err "affinity needs self_url or self_ip_env"
      else peers_of config self_url >>= λ peers.
          (if config.home_gateways == 0
            then err "affinity.home_gateways must be at least 1"
            else ok (record {
              self_url = self_url;
              peers = sort_unique peers;
              discovery = elim config.discovery_dns [
                | none ↦ none
                | some d ↦ some (d, max config.refresh_secs 1 * 1000)
              ];
              home_below_cus = config.home_below_cus;
              home_gateways = config.home_gateways;
              down = [];
            })))

-- `str::as_bytes`: UTF-8
unfoldable char_bytes : ℕ → List ℕ
char_bytes n =
    if ltb n 128
    then n ∷ []
    else if ltb n 2048
    then (192 + n / 64) ∷ (128 + n % 64) ∷ []
    else if ltb n 65536
    then (224 + n / 4096) ∷ (128 + n / 64 % 64) ∷ (128 + n % 64) ∷ []
    else (240 + n / 262144) ∷ (128 + n / 4096 % 64) ∷ (128 + n / 64 % 64) ∷ (128 + n % 64) ∷ []

unfoldable as_bytes : String → List ℕ
unfolding char_bytes
as_bytes nil = []
as_bytes (c cons rest) = char_bytes (code c) ++ as_bytes rest

-- `fnv1a`; the loops over the parts and over their bytes are one over all bytes.
unfoldable fnv_from : ℕ → List ℕ → ℕ
fnv_from h [] = h
fnv_from h (b ∷ rest) = fnv_from (w64 (bit_xor h b * 1099511628211)) rest

unfoldable fnv1a : List ℕ → ℕ
unfolding fnv_from
fnv1a bytes = fnv_from 14695981039346656037 bytes

-- Whether a replica is not skipped.
unfoldable pub is_up : Affinity → ℕ → String → Bool
is_up a now p =
    (p == a.self_url) || elim (Dict.get p a.down) [ none ↦ true | some until ↦ leb until now ]

unfoldable pub rank : String → String → ℕ × String
unfolding fnv1a as_bytes
rank key p = (fnv1a (as_bytes key ++ (0 ∷ as_bytes p)), p)

unfoldable pub outranks : ℕ × String → ℕ × String → Bool
unfolding is_before_text
outranks (h, p) (k, q) = if ltb k h then true else if ltb h k then false else is_before_text p q

-- `ranked`
unfoldable pub ranked : Affinity → String → ℕ → List String
unfolding is_up rank outranks
ranked a key now = map (λ e. e.1) (sort_by outranks (map (rank key) (filter (is_up a now) a.peers)))

-- The end of `route`.
unfoldable pub to_owner : Affinity → Option String → Route
to_owner a none = here
to_owner a (some o) = if o == a.self_url then here else forward o

-- Among the home gateways of a small reservation's deployment.
unfoldable pub to_home : Affinity → ℕ → List String → Route
unfolding to_owner
to_home a spread homes =
    if contains a.self_url homes
    then here
    else to_owner a (get_elem? homes (spread % max (length homes) 1))

-- `slice::first`
abbrev pub first : List String → Option String
first [] = none
first (x ∷ xs) = some x

-- `route`
unfoldable pub route : Affinity → Option String → String → ℕ → ℕ → ℕ → Route
unfolding ranked to_owner to_home
route a (some s) deployment reservation_cus spread now =
    to_owner a (first (ranked a ("session:" then s) now))
route a none deployment reservation_cus spread now =
    if ltb 0 reservation_cus && leb reservation_cus a.home_below_cus
    then to_home a spread (take a.home_gateways (ranked a ("home:" then deployment) now))
    else to_owner a none

-- `!=` on `Vec<String>`
unfoldable same_texts : List String → List String → Bool
same_texts [] [] = true
same_texts (x ∷ xs) (y ∷ ys) = let more = same_texts xs ys in (x == y) && more
same_texts [] (y ∷ ys) = false
same_texts (x ∷ xs) [] = false

-- `set_peers`
unfoldable pub set_peers : List String → Affinity → Bool × Affinity
unfolding sort_unique same_texts
set_peers [] a = (false, a)
set_peers (p ∷ rest) a =
    let peers = sort_unique ((p ∷ rest) ++ a.self_url ∷ []) in
    (not (same_texts a.peers peers), record a { peers = peers })

-- A round of `discover`, by what DNS answered: an error, or the addresses.
unfoldable pub refresh : Option (List String) → Affinity → Affinity
unfolding resolved set_peers
refresh none a = a
refresh (some addresses) a = elim (resolved addresses) [
  | [] ↦ a
  | p ∷ rest ↦ (set_peers (p ∷ rest) a).1
]

-- `mark_down`
unfoldable pub mark_down : String → ℕ → Affinity → Affinity
mark_down peer now a = record a { down = Dict.insert peer (now + down_for) a.down }
