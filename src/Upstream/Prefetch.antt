-- ===== src/Upstream/Prefetch.antt =====
-- The first bytes of a streamed answer: inspectOpenAIStreamPrefetch of pkg/gateway/stream_guard.go, and
-- openUpstreamStreamWithPrefetch of pkg/gateway/upstream_attempt.go. The two decoders of
-- encoding/json are parameters. What each round of the loop finds, by the clock, the context and the
-- body, is given round by round; a read ends between two characters.
pub mod Delivery
mod Tests
use nvidia_api_gateway.Prelude.{
  ℕ, ◌+◌, Bool, true, false, not, ◌&&◌, ◌||◌, Option, none, some, List, [], ◌∷◌, ◌++◌, any, ltb,
  leb, ◌==◌, if◌then◌else◌,
}
use nvidia_api_gateway.Prelude.Text.{Text, codes, text_eq, trim_space, is_empty, has_prefix}
use mathlib.Core.List.{reverse}
use nvidia_api_gateway.Prelude.{drop}
use nvidia_api_gateway.Scheduler.{is_some}
use nvidia_api_gateway.Json.{
  Value, Items, Fields, nil, cons, arr, obj, member, member_or_nil, as_object,
}
use nvidia_api_gateway.Upstream.Policy.{GoError}
use nvidia_api_gateway.Upstream.Guard.{value_has_meaningful_delta}

-- What the test reads of openAIStreamChunk.
pub record ToolCall : Type 0 where
  pub id : Text
  pub kind : Text
  pub name : Text
  pub arguments : Text

pub record StreamChoice : Type 0 where
  pub content : Text
  pub tool_calls : List ToolCall

abbrev pub says_something : ToolCall → Bool
says_something t =
    not (is_empty (trim_space t.id))
    || not (is_empty (trim_space t.kind))
    || not (is_empty (trim_space t.name))
    || not (is_empty (trim_space t.arguments))

unfoldable pub open_ai_stream_chunk_has_meaningful_delta : List StreamChoice → Bool
open_ai_stream_chunk_has_meaningful_delta choices =
    any (λ (c : StreamChoice). not (is_empty c.content) || any says_something c.tool_calls) choices

-- The loop over the choices of the decoded object.
unfoldable pub any_delta_means : Items → Bool
any_delta_means nil = false
any_delta_means (cons (obj choice) items) =
    value_has_meaningful_delta (member_or_nil (codes "message") choice) true
    || value_has_meaningful_delta (member_or_nil (codes "delta") choice) true
    || any_delta_means items
any_delta_means (cons _ items) = any_delta_means items

-- The rest of openAIStreamPayloadHasMeaningfulDelta, once the object is decoded.
abbrev object_means : Option Fields → Bool
object_means none = true
object_means (some raw) =
    if is_some (member (codes "error") raw)
    then true
    else elim (member_or_nil (codes "choices") raw) [
      | arr items ↦ any_delta_means items
      | _ ↦ false
    ]

abbrev chunk_means : Option (List StreamChoice) → Bool
chunk_means none = false
chunk_means (some chunk) = open_ai_stream_chunk_has_meaningful_delta chunk

-- strings.Split(s, "\n")
unfoldable pub split_lines : Text → List Text
split_lines [] = [] ∷ []
split_lines (c ∷ s) = elim (split_lines s) [
  | [] ↦ [] ∷ []
  | line ∷ lines ↦ if c == 10 then [] ∷ line ∷ lines else (c ∷ line) ∷ lines
]

-- strings.TrimRight(line, "\r")
abbrev drop_returns : Text → Text
drop_returns [] = []
drop_returns (c ∷ s) = if c == 13 then drop_returns s else c ∷ s

abbrev trim_returns : Text → Text
trim_returns line = reverse (drop_returns (reverse line))

-- strings.Join(lines, "\n")
abbrev join_lines : List Text → Text
join_lines [] = []
join_lines (line ∷ []) = line
join_lines (line ∷ l ∷ lines) = line ++ 10 ∷ join_lines (l ∷ lines)

-- bytes.HasSuffix(data, "\n")
abbrev ends_line : Text → Bool
ends_line text = has_prefix (reverse text) (10 ∷ [])

-- The variables of inspectOpenAIStreamPrefetch.
pub record Inspection : Type 0 where
  pub data_lines : List Text
  pub meaningful : Bool
  pub done : Bool

module _ (decode_chunk : Text → Option (List StreamChoice)) (decode : Text → Option Value) where
  unfoldable pub open_ai_stream_payload_has_meaningful_delta : Text → Bool
  open_ai_stream_payload_has_meaningful_delta payload =
      let p = trim_space payload in
      if is_empty p || text_eq p (codes "[DONE]")
      then false
      else if chunk_means (decode_chunk p)
      then true
      else object_means (as_object (decode p))

  unfoldable pub flush : Inspection → Inspection
  flush i =
      let payload = trim_space (join_lines i.data_lines) in
      let none_left = record i { data_lines = [] } in
      if is_empty payload
      then none_left
      else if text_eq payload (codes "[DONE]")
      then record none_left { done = true }
      else if open_ai_stream_payload_has_meaningful_delta payload
      then record none_left { meaningful = true }
      else none_left

  -- The switch on a line.
  unfoldable pub on_line : Text → Inspection → Inspection
  on_line line i =
      if is_empty line
      then flush i
      else if has_prefix line (codes "data:")
      then record i { data_lines = i.data_lines ++ trim_space (drop 5 line) ∷ [] }
      else i

  -- The loop over the lines: the last one is left if it is not complete.
  unfoldable pub inspect_lines : Text → List Text → Inspection → Inspection
  inspect_lines all [] i = i
  inspect_lines all (raw ∷ []) i =
      let line = trim_returns raw in
      if not (is_empty line) && not (ends_line all) then i else on_line line i
  inspect_lines all (raw ∷ next ∷ lines) i =
      inspect_lines all (next ∷ lines) (on_line (trim_returns raw) i)

  -- Whether something meaningful has come, and whether the stream is done.
  unfoldable pub inspect_open_ai_stream_prefetch : Text → Bool × Bool
  inspect_open_ai_stream_prefetch text =
      let i =
        inspect_lines text (split_lines text)
          (record { data_lines = []; meaningful = false; done = false }) in
      if is_empty (trim_space text) then (false, false) else (i.meaningful, i.done)

-- The bytes of a text in UTF-8.
abbrev rune_length : ℕ → ℕ
rune_length c = if ltb c 0x80 then 1 else if ltb c 0x800 then 2 else if ltb c 0x10000 then 3 else 4

abbrev pub byte_length : Text → ℕ
byte_length [] = 0
byte_length (c ∷ s) = rune_length c + byte_length s

abbrev pub max_open_ai_stream_prefetch_bytes : ℕ
max_open_ai_stream_prefetch_bytes = 65536

pub data StreamError : Type 0 where
  first_byte_timeout : StreamError
  empty_response : StreamError
  context_error : StreamError
  transport_error : GoError → StreamError

-- The error of a read.
pub data ReadError : Type 0 where
  eof : ReadError
  broken : GoError → ReadError

-- A round of the loop: whether the time is over at its start, and what readResponseBodyOnce gives.
pub data Round : Type 0 where
  late : Round
  timed_out : Round
  cancelled : Round
  read : Text → Option ReadError → Round

pub data Cleanup : Type 0 where
  close_body cancel : Cleanup

-- The response as it is, the response with a body that begins with the text read so far, or an error.
pub data Opened : Type 0 where
  passed : ℕ → Opened
  ready : Text → Opened
  failed : StreamError → List Cleanup → Opened

-- An error after the headers.
abbrev pub dropped : StreamError → Opened
dropped e = failed e (close_body ∷ cancel ∷ [])

abbrev pub after_read : Option ReadError → Option Opened
after_read none = none
after_read (some eof) = some (dropped empty_response)
after_read (some (broken e)) = some (dropped (transport_error e))

-- What the request for the headers gives.
pub data Headers : Type 0 where
  no_request : GoError → Headers
  no_response : GoError → Headers
  headers_late : Headers
  headers_cancelled : Headers
  status : ℕ → Headers

module _ (inspect : Text → Bool × Bool) where
  -- A round after its read, none if the loop goes on. `text` is what has been read so far.
  unfoldable pub on_text : Text → Option ReadError → Option Opened
  on_text text err =
      let (meaningful, done) = inspect text in
      if done && not meaningful
      then some (dropped empty_response)
      else if meaningful || leb max_open_ai_stream_prefetch_bytes (byte_length text)
      then some (ready text)
      else after_read err

  -- The loop; none while it goes on.
  unfoldable pub prefetch_loop : List Round → Text → Option Opened
  prefetch_loop [] text = none
  prefetch_loop (late ∷ rounds) text = some (dropped first_byte_timeout)
  prefetch_loop (timed_out ∷ rounds) text = some (dropped first_byte_timeout)
  prefetch_loop (cancelled ∷ rounds) text = some (dropped context_error)
  prefetch_loop (read more err ∷ rounds) text =
      let rest = prefetch_loop rounds (text ++ more) in
      elim (on_text (text ++ more) err) [ none ↦ rest | some opened ↦ some opened ]

module _ (decode_chunk : Text → Option (List StreamChoice)) (decode : Text → Option Value) where
  unfoldable pub open_upstream_stream_with_prefetch : Headers → List Round → Option Opened
  unfolding prefetch_loop inspect_open_ai_stream_prefetch
  open_upstream_stream_with_prefetch (no_request e) rounds =
      some (failed (transport_error e) (cancel ∷ []))
  open_upstream_stream_with_prefetch (no_response e) rounds =
      some (failed (transport_error e) (cancel ∷ []))
  open_upstream_stream_with_prefetch headers_late rounds =
      some (failed first_byte_timeout (cancel ∷ []))
  open_upstream_stream_with_prefetch headers_cancelled rounds =
      some (failed context_error (cancel ∷ []))
  open_upstream_stream_with_prefetch (status code) rounds =
      let loop = prefetch_loop (inspect_open_ai_stream_prefetch decode_chunk decode) rounds [] in
      if ltb code 200 || leb 400 code then some (passed code) else loop
