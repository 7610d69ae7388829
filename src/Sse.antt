-- ===== src/Sse.antt =====
-- Inspection of a streamed completion (crates/pt-gateway/src/sse.rs): the bytes of the engine are
-- split into events, each is inspected and forwarded, but for a usage chunk that the client did not
-- ask for. Bytes are numbers. How the text of an event is read as JSON, and what is looked up in it,
-- is the library's (serde_json), so it is an interface, `Reader`.
pub mod Blank
pub mod Stream
pub mod Tests
pub mod Scan
pub mod Events
use mathlib.Core.Option
use provisioned_throughput.Base.{
  ℕ, zero, suc, ◌+◌, min, Bool, true, false, not, ◌&&◌, Option, none, some, List, [], ◌∷◌, ◌++◌,
  length, ◌==◌, nat_eq, if◌then◌else◌, w64,
}

abbrev pub Bytes : Type 0
Bytes = List ℕ

-- `EngineUsage`
pub record EngineUsage : Type 0 where
  pub prompt_tokens : ℕ
  pub cached_tokens : ℕ
  pub completion_tokens : ℕ

-- `Observations`
pub record Observations : Type 0 where
  pub usage : Option EngineUsage
  pub first_content_at : Option ℕ
  pub last_content_at : Option ℕ
  pub content_chunks : ℕ

-- `SseInspector`
pub record SseInspector : Type 0 where
  pub buf : Bytes
  pub strip_usage_chunk : Bool

-- The JSON of an event's data, if it has any and it parses, and what the gateway looks up in it:
-- whether a choice has content, the usage, and whether there are no choices.
pub record Reader (Value : Type 0) : Type 0 where
  pub read : Bytes → Option Value
  pub has_content : Value → Bool
  pub usage_of : Value → Option EngineUsage
  pub lacks_choices : Value → Bool

-- `slice::starts_with`, which tests a window.
unfoldable pub is_prefix : Bytes → Bytes → Bool
is_prefix [] xs = true
is_prefix (a ∷ as') [] = false
is_prefix (a ∷ as') (x ∷ xs) = a == x && is_prefix as' xs

-- `buf.windows(n).position(|w| w == pattern)`
unfoldable pub position : Bytes → Bytes → Option ℕ
unfolding is_prefix
position pat [] = none
position pat (x ∷ xs) =
    let rest = position pat xs in if is_prefix pat (x ∷ xs) then some 0 else Option.map suc rest

abbrev pub lf_lf : Bytes
lf_lf = 10 ∷ 10 ∷ []

abbrev pub crlf_crlf : Bytes
crlf_crlf = 13 ∷ 10 ∷ 13 ∷ 10 ∷ []

-- The match at the end of `find_event_end`.
unfoldable pub earlier : Option ℕ → Option ℕ → Option ℕ
earlier (some a) (some b) = some (min a b)
earlier (some a) none = some a
earlier none b = b

-- `find_event_end`
unfoldable pub find_event_end : Bytes → Option ℕ
unfolding position earlier
find_event_end buf =
    earlier (Option.map (λ i. i + 2) (position lf_lf buf))
      (Option.map (λ i. i + 4) (position crlf_crlf buf))

-- What `buf.drain(..end)` takes and what it leaves.
unfoldable pub take : ℕ → Bytes → Bytes
take zero xs = []
take (suc n) [] = []
take (suc n) (x ∷ xs) = x ∷ take n xs

unfoldable pub drop : ℕ → Bytes → Bytes
drop zero xs = xs
drop (suc n) [] = []
drop (suc n) (x ∷ xs) = drop n xs

-- `Option::get_or_insert`
abbrev get_or_insert : ℕ → Option ℕ → Option ℕ
get_or_insert n none = some n
get_or_insert n (some m) = some m

module _ {Value : Type 0} (reader : Reader Value) where
  -- The counters of `inspect`, when the event has content.
  unfoldable pub note_content : ℕ → Value → Observations → Observations
  note_content now v obs =
      if reader.has_content v
      then record obs {
        content_chunks = w64 (obs.content_chunks + 1);
        first_content_at = get_or_insert now obs.first_content_at;
        last_content_at = some now;
      }
      else obs

  -- `SseInspector::inspect`: whether to forward the event, and the observations.
  unfoldable pub inspect : Bool → Bytes → Observations → ℕ → Bool × Observations
  unfolding note_content
  inspect strip event obs now = elim (reader.read event) [
    | none ↦ (true, obs)
    | some v ↦
        let seen = note_content now v obs in
        elim (reader.usage_of v) [
          | none ↦ (true, seen)
          | some u ↦ (not (reader.lacks_choices v && strip), record seen { usage = some u })
        ]
  ]

  -- The loop of `push`: what it forwards, the buffer and the observations after it.
  unfoldable pub forward : ℕ → Bool → ℕ → Bytes → Observations → Bytes × Bytes × Observations
  unfolding find_event_end take drop inspect
  forward zero strip now buf obs = ([], buf, obs)
  forward (suc fuel) strip now buf obs = elim (find_event_end buf) [
    | none ↦ ([], buf, obs)
    | some end ↦
        let event = take end buf in
        let (keep, seen) = inspect strip event obs now in
        let (out, rest, last) = forward fuel strip now (drop end buf) seen in
        ((if keep then event ++ out else out), rest, last)
  ]

  -- `SseInspector::push`
  unfoldable pub push :
      SseInspector → Bytes → Observations → ℕ → Bytes × SseInspector × Observations
  unfolding forward
  push s chunk obs now =
      let buf = s.buf ++ chunk in
      let (out, rest, seen) = forward (length buf) s.strip_usage_chunk now buf obs in
      (out, record s { buf = rest }, seen)

-- `SseInspector::finish`
unfoldable pub finish : SseInspector → Bytes × SseInspector
finish s = (s.buf, record s { buf = [] })
