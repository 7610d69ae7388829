-- ===== src/Sse/Events.antt =====
-- The loop of `push` as the sequence of events that it takes off its buffer.
use provisioned_throughput.Base.{
  some-eq, ℕ, zero, suc, ◌≤◌, ◌≡◌, refl, sym, ◌∙◌, ap, subst, subst₂, Bool, true, false, Option,
  none, some, [], ◌∷◌, ◌++◌, length, inl, inr, arith, Option-cases, if◌then◌else◌,
}
use provisioned_throughput.Sse.{
  Bytes, Observations, Reader, find_event_end, position, earlier, take, drop, inspect, forward,
}
use provisioned_throughput.Sse.Scan.{
  Ends, ended, unended, find_event_end-append, take-append, drop-append, append-take, length-drop,
}

append_assoc : (xs ys zs : Bytes) → (xs ++ ys) ++ zs ≡ xs ++ (ys ++ zs)
append_assoc [] ys zs = refl
append_assoc (x ∷ xs) ys zs = ap (◌∷◌ x) (append_assoc xs ys zs)

-- Where an event ends, and that it ends there however the buffer grows.
end_bounds :
    (buf ys : Bytes) (n : ℕ)
    → find_event_end buf ≡ some n
    → (2 ≤ n) × (n ≤ length buf) × (find_event_end (buf ++ ys) ≡ some n)
end_bounds buf ys n e = bounds (find_event_end-append buf ys) e
  where
    bounds :
        {p q : Option ℕ} → Ends buf p q → p ≡ some n → (2 ≤ n) × (n ≤ length buf) × (q ≡ some n)
    bounds (ended m low high) e = let same : m ≡ n = some-eq e in (omega arith, omega arith, e)
    bounds (unended q) e = cc

module _ {Value : Type 0} (reader : Reader Value) (strip : Bool) (now : ℕ) where
  abbrev sent : Bytes → Observations → Bytes → Bytes
  sent event obs out = if (inspect reader strip event obs now).0 then event ++ out else out

  -- From a buffer and observations to what is forwarded, the rest and the observations after.
  pub data Runs : Bytes → Observations → Bytes × Bytes × Observations → Type 0 where
    done :
        {buf : Bytes} {obs : Observations} → find_event_end buf ≡ none → Runs buf obs ([], buf, obs)
    more :
        {buf : Bytes} {obs : Observations} (n : ℕ) (r : Bytes × Bytes × Observations)
        → find_event_end buf ≡ some n
        → Runs (drop n buf) (inspect reader strip (take n buf) obs now).1 r
        → Runs buf obs (sent (take n buf) obs r.0, r.1, r.2)

  pub forward-Runs :
      (fuel : ℕ) (buf : Bytes) (obs : Observations)
      → length buf ≤ fuel
      → Runs buf obs (forward reader fuel strip now buf obs)
  unfolding forward find_event_end position earlier
  forward-Runs zero [] obs h = done refl
  forward-Runs zero (x ∷ buf) obs h = absurd (omega arith)
  forward-Runs (suc fuel) buf obs h = elim (Option-cases (find_event_end buf)) [
    | inl e ↦ rw (e, forward) (done e)
    | inr (n, e) ↦
        let (low, high, _) = end_bounds buf [] n e in
        rw (e, forward)
          (more n _ e (
            forward-Runs fuel (drop n buf) (inspect reader strip (take n buf) obs now).1
              (omega (arith, length-drop n buf high))))
  ]

  clash : {n : ℕ} {p : Option ℕ} → p ≡ none → p ≡ some n → ⊥
  clash a b = cc

  -- The loop has one outcome.
  pub Runs-unique :
      {buf : Bytes} {obs : Observations} {r r' : Bytes × Bytes × Observations}
      → Runs buf obs r
      → Runs buf obs r'
      → r ≡ r'
  Runs-unique (done e) (done e') = refl
  Runs-unique (done e) (more n r e' run) = absurd (clash e e')
  Runs-unique (more n r e run) (done e') = absurd (clash e' e)
  Runs-unique {buf} {obs} (more n r e run) (more m r' e' run') =
      let same : m ≡ n = some-eq (sym e' ∙ e) in
      let run'' =
        subst (λ k. Runs (drop k buf) (inspect reader strip (take k buf) obs now).1 r') same run' in
      let equal = Runs-unique run run'' in
      ap (λ q. (sent (take n buf) obs q.0, q.1, q.2)) equal
      ∙ ap (λ k. (sent (take k buf) obs r'.0, r'.1, r'.2)) (sym same)

  more_as :
      (buf event left : Bytes) (obs : Observations) (n : ℕ) (r : Bytes × Bytes × Observations)
      → find_event_end buf ≡ some n
      → take n buf ≡ event
      → drop n buf ≡ left
      → Runs left (inspect reader strip event obs now).1 r
      → Runs buf obs (sent event obs r.0, r.1, r.2)
  more_as buf event left obs n r e head tail run =
      subst (λ ev. Runs buf obs (sent ev obs r.0, r.1, r.2)) head
        (more n r e
          (subst₂ (λ ev l. Runs l (inspect reader strip ev obs now).1 r) (sym head) (sym tail) run))

  sent-append :
      (event out out' : Bytes) (obs : Observations)
      → sent event obs (out ++ out') ≡ sent event obs out ++ out'
  sent-append event out out' obs = cases (inspect reader strip event obs now).0
    where
      cases :
          (b : Bool)
          → (if b then event ++ (out ++ out') else out ++ out')
            ≡ (if b then event ++ out else out) ++ out'
      cases true = sym (append_assoc event out out')
      cases false = refl

  -- More bytes after the loop has stopped are as good as more bytes before.
  pub Runs-append :
      {buf : Bytes} {obs : Observations} {r r' : Bytes × Bytes × Observations} (ys : Bytes)
      → Runs buf obs r
      → Runs (r.1 ++ ys) r.2 r'
      → Runs (buf ++ ys) obs (r.0 ++ r'.0, r'.1, r'.2)
  Runs-append ys (done e) run' = run'
  Runs-append {buf} {obs} {r' = r'} ys (more n r e run) run' =
      let (low, high, kept) = end_bounds buf ys n e in
      subst (λ o. Runs (buf ++ ys) obs (o, r'.1, r'.2)) (sent-append (take n buf) r.0 r'.0 obs)
        (more_as (buf ++ ys) (take n buf) (drop n buf ++ ys) obs n (r.0 ++ r'.0, r'.1, r'.2) kept
          (take-append n buf ys high) (drop-append n buf ys high) (Runs-append ys run run'))

  -- No complete event is left.
  pub Runs-complete :
      {buf : Bytes} {obs : Observations} {r : Bytes × Bytes × Observations}
      → Runs buf obs r
      → find_event_end r.1 ≡ none
  Runs-complete (done e) = e
  Runs-complete (more n r e run) = Runs-complete run

  -- What is forwarded and the rest are the buffer, when every event is forwarded.
  pub Runs-whole :
      {buf : Bytes} {obs : Observations} {r : Bytes × Bytes × Observations}
      → ((event : Bytes) (obs : Observations) → (inspect reader strip event obs now).0 ≡ true)
      → Runs buf obs r
      → r.0 ++ r.1 ≡ buf
  Runs-whole keep (done e) = refl
  Runs-whole {buf} {obs} keep (more n r e run) =
      ap (λ b. (if b then take n buf ++ r.0 else r.0) ++ r.1) (keep (take n buf) obs)
      ∙ append_assoc (take n buf) r.0 r.1
      ∙ ap (λ t. take n buf ++ t) (Runs-whole keep run)
      ∙ append-take n buf

  pub Runs-regroup :
      (xs ys zs : Bytes) {obs : Observations} {r : Bytes × Bytes × Observations}
      → Runs ((xs ++ ys) ++ zs) obs r
      → Runs (xs ++ (ys ++ zs)) obs r
  Runs-regroup xs ys zs {obs} {r} run = subst (λ b. Runs b obs r) (append_assoc xs ys zs) run
