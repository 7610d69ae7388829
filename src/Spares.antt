-- ===== src/Spares.antt =====
-- Which worker pods are hot spares (crates/pt-operator/src/spares.rs), with the roles of
-- crates/pt-operator/src/render.rs: the label changes of one reconciliation.
pub mod Choice
pub mod Relabel
pub mod Tests
use Prim.Native.String.{compare}
use Prim.Native.Nat.{Ordering}
use provisioned_throughput.Base.{
  ℕ, ◌+◌, ◌-◌, min, Bool, true, false, not, ◌&&◌, Option, none, some, List, [], ◌∷◌, ◌++◌, String,
  map, filter, find, any, take, length, leb, ◌==◌, string_eq, option_eq, if◌then◌else◌,
}
use provisioned_throughput.Base.Sort.{sort_by}
use provisioned_throughput.Drain.{Role}

-- `Role::as_str`
unfoldable as_str : Role → String
as_str Role.aggregated = "aggregated"
as_str Role.prefill = "prefill"
as_str Role.decode = "decode"

-- `labels::SPARE` and `labels::FLOOR`
abbrev pub spare : String
spare = "spare"

abbrev pub floor : String
floor = "floor"

-- `PodServing`
pub record PodServing : Type 0 where
  pub name : String
  pub role : Role
  pub ready : Bool
  pub terminating : Bool
  pub serving : Option String

-- `PodServing::is_spare`
unfoldable pub is_spare : PodServing → Bool
is_spare p = p.serving == some spare

-- `p.ready && !p.terminating`
abbrev pub is_up : PodServing → Bool
is_up p = p.ready && not p.terminating

abbrev pub Change : Type 0
Change = String × String

unfoldable is_earlier_name : PodServing → PodServing → Bool
is_earlier_name a b = elim (compare a.name b.name) [ Ordering.lt ↦ true | _ ↦ false ]

-- Whether the first change is before the second, as pairs of strings are ordered.
unfoldable pub is_before : Change → Change → Bool
is_before (a, b) (x, y) = elim (compare a x) [
  | Ordering.lt ↦ true
  | Ordering.gt ↦ false
  | Ordering.eq ↦ elim (compare b y) [ Ordering.lt ↦ true | _ ↦ false ]
]

abbrev pub contains : String → List String → Bool
contains x = any (λ y. y == x)

-- The loop over the serving pods from the last to the first: it promotes those that are no spares
-- until there are `want` spares.
unfoldable pub promote : ℕ → List String → List PodServing → List String
unfolding is_spare
promote want spares [] = spares
promote want spares (p ∷ rest) =
    let so_far = promote want spares rest in
    if leb want (length so_far)
    then so_far
    else if is_spare p
    then so_far
    else so_far ++ p.name ∷ []

-- How many spares a role gets.
unfoldable pub wanted : ℕ → ℕ → List PodServing → ℕ
wanted hot_spares min_available serving = min hot_spares (length serving - min_available)

-- The names of a role's spares, among its serving pods.
unfoldable pub choose : ℕ → ℕ → List PodServing → List String
unfolding wanted is_spare promote
choose hot_spares min_available serving =
    let want = wanted hot_spares min_available serving in
    promote want (take want (map (λ p. p.name) (filter is_spare serving))) serving

unfoldable pub relabel : List String → List PodServing → List Change
relabel spares [] = []
relabel spares (p ∷ rest) =
    let more = relabel spares rest in
    let target = if contains p.name spares then spare else floor in
    if p.serving == some target then more else (p.name, target) ∷ more

-- The body of the loop over the roles.
unfoldable role_changes : ℕ → ℕ → List PodServing → List Change
unfolding is_earlier_name choose relabel is_spare
role_changes hot_spares min_available pods =
    let serving = sort_by is_earlier_name (filter is_up pods) in
    relabel (choose hot_spares min_available serving) serving
    ++ map (λ p. (p.name, floor)) (filter (λ p. not (is_up p) && is_spare p) pods)

abbrev of_role : Role → List PodServing → List PodServing
of_role r pods = filter (λ p. as_str p.role == as_str r) pods

-- `assign`. The map of the pods by role has its keys in their order; a role without pods, which it has
-- no key for, gives no changes.
unfoldable pub assign : List PodServing → ℕ → (Role → ℕ) → List Change
unfolding as_str role_changes is_before
assign pods hot_spares min_available =
    let changes_of = λ (r : Role). role_changes hot_spares (min_available r) (of_role r pods) in
    sort_by is_before
      (changes_of Role.aggregated ++ (changes_of Role.decode ++ changes_of Role.prefill))

-- Whether a pod is a spare after the changes.
unfoldable pub ends_spare : List Change → PodServing → Bool
unfolding is_spare
ends_spare changes p = elim (find (λ e. e.0 == p.name) changes) [
  | some e ↦ e.1 == spare
  | none ↦ is_spare p
]

unfoldable pub is_before_text : String → String → Bool
is_before_text a b = elim (compare a b) [ Ordering.lt ↦ true | _ ↦ false ]

-- `spares_after`
unfoldable spares_after : List PodServing → List Change → List String
unfolding ends_spare is_before_text
spares_after pods changes =
    sort_by is_before_text (map (λ p. p.name) (filter (ends_spare changes) (filter is_up pods)))
