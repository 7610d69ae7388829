-- ===== src/Sse/Tests.antt =====
-- A stream of two events, the second a usage chunk, split inside the blank line of the first.
use provisioned_throughput.Base.{
  ◌≡◌, refl, Bool, true, false, none, some, [], ◌∷◌, ◌++◌, any, ◌==◌, nat_eq, if◌then◌else◌,
}
use provisioned_throughput.Sse.{Bytes, Observations, SseInspector, Reader, push, finish}
use provisioned_throughput.Sse.Blank.{IsUnended}
use provisioned_throughput.Sse.Stream.{push-append, finish-push, push_complete}

-- An event is usage if it has a `u`, and content if it has a `c`.
abbrev reader : Reader Bytes
reader = record {
  read = λ event. some event;
  has_content = any (λ b. b == 99);
  usage_of = λ event.
      if any (λ b. b == 117) event
      then some (record { prompt_tokens = 5; cached_tokens = 2; completion_tokens = 3 })
      else none;
  lacks_choices = any (λ b. b == 117);
}

abbrev inspector : Bool → SseInspector
inspector strip = record { buf = 99 ∷ []; strip_usage_chunk = strip }

abbrev nothing_seen : Observations
nothing_seen = record {
  usage = none;
  first_content_at = none;
  last_content_at = none;
  content_chunks = 0;
}

abbrev first : Bytes
first = 99 ∷ 10 ∷ []

abbrev second : Bytes
second = 10 ∷ 117 ∷ 13 ∷ 10 ∷ 13 ∷ 10 ∷ 99 ∷ []

-- The usage chunk is stripped, and the start of a third event waits.
stripped :
    (push reader (inspector true) (first ++ second) nothing_seen 7).0 ≡ 99 ∷ 99 ∷ 10 ∷ 10 ∷ []
unfolding push
stripped = refl

push-append_example :
    let (out, s', seen) = push reader (inspector true) first nothing_seen 7 in
    let (out', s'', seen') = push reader s' second seen 7 in
    push reader (inspector true) (first ++ second) nothing_seen 7 ≡ (out ++ out', s'', seen')
push-append_example = push-append reader (inspector true) first second nothing_seen 7

finish-push_example :
    let (out, s', _) = push reader (inspector false) (first ++ second) nothing_seen 7 in
    out ++ (finish s').0 ≡ 99 ∷ first ++ second
finish-push_example = finish-push reader (inspector false) (first ++ second) nothing_seen 7 refl

push_complete_example :
    IsUnended (push reader (inspector true) (first ++ second) nothing_seen 7).1.buf
push_complete_example = push_complete reader (inspector true) (first ++ second) nothing_seen 7
