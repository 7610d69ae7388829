-- ===== src/Sse/Blank.antt =====
-- What the search for the end of an event (`find_event_end` in crates/pt-gateway/src/sse.rs) does not
-- overlook: the blank lines of a buffer, said without the search.
use mathlib.Core.Option
use provisioned_throughput.Base.{
  ℕ, suc, ◌+◌, ◌≡◌, refl, sym, ◌∙◌, true, Option, none, some, [], ◌∷◌, ◌++◌, ==_refl, nat_eq, inl,
  inr, Bool-cases, none-ne-some,
}
use provisioned_throughput.Sse.{
  Bytes, is_prefix, position, lf_lf, crlf_crlf, earlier, find_event_end,
}

-- The pattern stands nowhere in the bytes.
abbrev Lacks : Bytes → Bytes → Type 0
Lacks pat xs = (a b : Bytes) → xs ≡ a ++ (pat ++ b) → ⊥

-- Neither kind of blank line stands in the bytes.
abbrev pub IsUnended : Bytes → Type 0
IsUnended xs = Lacks (10 ∷ 10 ∷ []) xs × Lacks (13 ∷ 10 ∷ 13 ∷ 10 ∷ []) xs

is_prefix-append : (pat b : Bytes) → is_prefix pat (pat ++ b) ≡ true
unfolding is_prefix
is_prefix-append [] b = refl
is_prefix-append (x ∷ pat) b = rw (==_refl x) (is_prefix-append pat b)

-- A pattern that stands in the bytes is found.
position-append :
    (x : ℕ) (pat a b : Bytes) → (i : ℕ) × (position (x ∷ pat) (a ++ ((x ∷ pat) ++ b)) ≡ some i)
unfolding position
position-append x pat [] b = (0, rw (is_prefix-append (x ∷ pat) b) refl)
position-append x pat (y ∷ a) b =
    let (i, e) = position-append x pat a b in
    elim (Bool-cases (is_prefix (x ∷ pat) (y ∷ a ++ ((x ∷ pat) ++ b)))) [
      | inl t ↦ (0, rw (position, t) refl)
      | inr f ↦ (suc i, rw (position, f, e) refl)
    ]

missing : (x : ℕ) (pat xs : Bytes) → position (x ∷ pat) xs ≡ none → Lacks (x ∷ pat) xs
missing x pat xs e a b same =
    let (i, found) = position-append x pat a b in none-ne-some (sym (rw same at e) ∙ found)

neither :
    (o q : Option ℕ)
    → earlier (Option.map (λ i. i + 2) o) (Option.map (λ i. i + 4) q) ≡ none
    → (o ≡ none) × (q ≡ none)
unfolding earlier
neither none none e = (refl, refl)
neither none (some b) e = absurd (none-ne-some (sym e))
neither (some a) none e = absurd (none-ne-some (sym e))
neither (some a) (some b) e = absurd (none-ne-some (sym e))

pub IsUnended-of_none : (xs : Bytes) → find_event_end xs ≡ none → IsUnended xs
unfolding find_event_end
IsUnended-of_none xs e =
    let (no_lf, no_crlf) = neither (position lf_lf xs) (position crlf_crlf xs) e in
    (missing 10 (10 ∷ []) xs no_lf, missing 13 (10 ∷ 13 ∷ 10 ∷ []) xs no_crlf)
