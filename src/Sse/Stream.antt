-- ===== src/Sse/Stream.antt =====
-- What a stream that arrives in chunks comes to.
use provisioned_throughput.Base.{
  ℕ, zero, suc, ◌≤◌, ◌≡◌, refl, sym, ap, ap₂, subst, Bool, true, false, not, ◌&&◌, Option, none,
  some, ◌++◌, length, arith, inl, inr, Bool-cases, Option-cases, if◌then◌else◌,
}
use provisioned_throughput.Sse.Blank.{IsUnended, IsUnended-of_none}
use provisioned_throughput.Sse.{
  Bytes, Observations, SseInspector, Reader, find_event_end, note_content, inspect, take, drop,
  forward, push, finish,
}
use provisioned_throughput.Sse.Events.{
  forward-Runs, Runs-unique, Runs-append, Runs-complete, Runs-whole, Runs-regroup,
}

module _ {Value : Type 0} (reader : Reader Value) where
  -- Without stripping, every event is forwarded.
  inspect_keeps :
      (now : ℕ) (event : Bytes) (obs : Observations) → (inspect reader false event obs now).0 ≡ true
  unfolding inspect
  inspect_keeps now event obs = cases (reader.read event)
    where
      with_usage : (v : Value) → (not (reader.lacks_choices v && false)) ≡ true
      with_usage v = elim (Bool-cases (reader.lacks_choices v)) [
        | inl e ↦ rw e refl
        | inr e ↦ rw e refl
      ]

      cases :
          (r : Option Value)
          → (elim r as (λ _. Bool × Observations) [
            | none ↦ (true, obs)
            | some v ↦
                let seen = note_content reader now v obs in
                elim (reader.usage_of v) [
                  | none ↦ (true, seen)
                  | some u ↦ (not (reader.lacks_choices v && false), record seen { usage = some u })
                ]
          ]).0
            ≡ true
      cases none = refl
      cases (some v) = elim (Option-cases (reader.usage_of v)) [
        | inl e ↦ rw e refl
        | inr (u, e) ↦ rw e (with_usage v)
      ]

  -- Bytes that arrive in two chunks at one instant are forwarded, kept and observed as if they had
  -- arrived in one: wherever a chunk breaks, also within the blank line that ends an event.
  pub push-append :
      (s : SseInspector) (xs ys : Bytes) (obs : Observations) (now : ℕ)
      → let (out, s', seen) = push reader s xs obs now in
        let (out', s'', seen') = push reader s' ys seen now in
        push reader s (xs ++ ys) obs now ≡ (out ++ out', s'', seen')
  unfolding push
  push-append s xs ys obs now =
      let strip = s.strip_usage_chunk in
      let first = forward-Runs reader strip now _ (s.buf ++ xs) obs (at_most (s.buf ++ xs)) in
      let second = forward-Runs reader strip now _ _ _ (at_most _) in
      let whole = forward-Runs reader strip now _ (s.buf ++ (xs ++ ys)) obs (at_most _) in
      let joined = Runs-append reader strip now ys first second in
      let same =
        Runs-unique reader strip now whole (Runs-regroup reader strip now s.buf xs ys joined) in
      ap (λ r. (r.0, record s { buf = r.1 }, r.2)) same
    where
      at_most : (b : Bytes) → length b ≤ length b
      at_most b = omega arith

  -- Nothing is lost, added or reordered: when usage chunks are not stripped, what a push forwards
  -- and what `finish` would then flush are together the bytes that had come and the chunk.
  pub finish-push :
      (s : SseInspector) (chunk : Bytes) (obs : Observations) (now : ℕ)
      → s.strip_usage_chunk ≡ false
      → let (out, s', _) = push reader s chunk obs now in out ++ (finish s').0 ≡ s.buf ++ chunk
  unfolding push finish
  finish-push s chunk obs now e =
      Runs-whole reader s.strip_usage_chunk now
        (λ event o.
          subst (λ b. (inspect reader b event o now).0 ≡ true) (sym e) (inspect_keeps now event o))
        (forward-Runs reader s.strip_usage_chunk now _ (s.buf ++ chunk) obs (omega arith))

  -- Whether an event is forwarded depends on the event alone.
  inspect_anytime :
      (strip : Bool) (event : Bytes) (obs obs' : Observations) (now now' : ℕ)
      → (inspect reader strip event obs now).0 ≡ (inspect reader strip event obs' now').0
  unfolding inspect
  inspect_anytime strip event obs obs' now now' = elim (Option-cases (reader.read event)) [
    | inl e ↦ rw (e, inspect) refl
    | inr (v, e) ↦ elim (Option-cases (reader.usage_of v)) [
      | inl u ↦ rw (e, u, inspect) refl
      | inr (w, u) ↦ rw (e, u, inspect) refl
    ]
  ]

  abbrev Alike : Bytes × Bytes × Observations → Bytes × Bytes × Observations → Type 0
  Alike r r' = (r.0 ≡ r'.0) × (r.1 ≡ r'.1)

  forward_anytime :
      (fuel : ℕ) (strip : Bool) (buf : Bytes) (obs obs' : Observations) (now now' : ℕ)
      → Alike (forward reader fuel strip now buf obs) (forward reader fuel strip now' buf obs')
  unfolding forward
  forward_anytime zero strip buf obs obs' now now' = (refl, refl)
  forward_anytime (suc fuel) strip buf obs obs' now now' =
      elim (Option-cases (find_event_end buf)) [
        | inl e ↦ rw (e, forward) (refl, refl)
        | inr (n, e) ↦
            let event = take n buf in
            let rest =
              forward_anytime fuel strip (drop n buf) (inspect reader strip event obs now).1
                (inspect reader strip event obs' now').1 now now' in
            rw (e, forward)
              (
                ap₂ (λ keep out. if keep then event ++ out else out)
                    (inspect_anytime strip event obs obs' now now') rest.0,
                rest.1,
              )
      ]

  -- What a push forwards and what it keeps depend on the bytes alone, not on the instant or on what
  -- was observed before.
  pub push_anytime :
      (s : SseInspector) (chunk : Bytes) (obs obs' : Observations) (now now' : ℕ)
      → ((push reader s chunk obs now).0 ≡ (push reader s chunk obs' now').0)
        × ((push reader s chunk obs now).1 ≡ (push reader s chunk obs' now').1)
  unfolding push
  push_anytime s chunk obs obs' now now' =
      let (out, left) =
        forward_anytime (length (s.buf ++ chunk)) s.strip_usage_chunk (s.buf ++ chunk) obs obs' now
          now' in
      (out, ap (λ b. record s { buf = b }) left)

  buf_unended :
      (s : SseInspector) (chunk : Bytes) (obs : Observations) (now : ℕ)
      → find_event_end (push reader s chunk obs now).1.buf ≡ none
  unfolding push
  buf_unended s chunk obs now =
      Runs-complete reader s.strip_usage_chunk now
        (forward-Runs reader s.strip_usage_chunk now _ (s.buf ++ chunk) obs (omega arith))

  -- No complete event waits: after every push, the buffer has nowhere two line feeds in a row, nor two
  -- carriage returns with line feeds in a row, which end an event.
  pub push_complete :
      (s : SseInspector) (chunk : Bytes) (obs : Observations) (now : ℕ)
      → IsUnended (push reader s chunk obs now).1.buf
  push_complete s chunk obs now = IsUnended-of_none _ (buf_unended s chunk obs now)
