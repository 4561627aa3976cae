-- ===== src/Upstream/Prefetch/Tests.antt =====
-- A stream whose first read is a comment only.
use nvidia_api_gateway.Prelude.{◌≡◌, refl, true, false, Option, none, some, List, [], ◌∷◌}
use nvidia_api_gateway.Prelude.Text.{Text, codes, text_eq, trim_space, is_space, has_prefix}
use nvidia_api_gateway.Json.{Value, as_object}
use nvidia_api_gateway.Upstream.Prefetch.{
  StreamChoice, inspect_open_ai_stream_prefetch, inspect_lines, on_line, flush, split_lines,
  open_ai_stream_payload_has_meaningful_delta, eof, Round, read, Opened, ready, status,
  open_upstream_stream_with_prefetch, prefetch_loop, on_text,
}
use nvidia_api_gateway.Upstream.Prefetch.Delivery.{Fate, open_upstream_stream_with_prefetch-Fate}

-- Decoders that take no text for JSON.
abbrev no_chunk : Text → Option (List StreamChoice)
no_chunk text = none

abbrev no_json : Text → Option Value
no_json text = none

abbrev rounds : List Round
rounds = read (codes ": ping\n") none ∷ read (codes "data: hi\n\n") (some eof) ∷ []

-- The comment says nothing, and what follows does: all of it is handed over.
handed_over :
    open_upstream_stream_with_prefetch no_chunk no_json (status 200) rounds
    ≡ some (ready (codes ": ping\ndata: hi\n\n"))
unfolding open_upstream_stream_with_prefetch prefetch_loop on_text inspect_open_ai_stream_prefetch
    inspect_lines on_line flush split_lines open_ai_stream_payload_has_meaningful_delta trim_space
    is_space has_prefix text_eq as_object
handed_over = refl

-- A line that is not complete is left alone.
half_line : inspect_open_ai_stream_prefetch no_chunk no_json (codes "data: [DONE]") ≡ (false, false)
unfolding inspect_open_ai_stream_prefetch inspect_lines on_line flush split_lines trim_space
    is_space has_prefix text_eq
half_line = refl

-- A stream that is done at once.
done_at_once :
    inspect_open_ai_stream_prefetch no_chunk no_json (codes "data: [DONE]\r\n\r\n") ≡ (false, true)
unfolding inspect_open_ai_stream_prefetch inspect_lines on_line flush split_lines trim_space
    is_space has_prefix text_eq
done_at_once = refl

open_upstream_stream_with_prefetch-Fate_example :
    (o : Opened) × (open_upstream_stream_with_prefetch no_chunk no_json (status 200) rounds
      ≡ some o)
    × Fate no_chunk no_json rounds (status 200) o
open_upstream_stream_with_prefetch-Fate_example =
    open_upstream_stream_with_prefetch-Fate no_chunk no_json (status 200) rounds refl
