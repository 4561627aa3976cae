-- ===== src/Chat/Tests.antt =====
-- A chat request whose first key is limited and whose second one answers.
use nvidia_api_gateway.Prelude.{
  ℕ, zero, suc, ◌≤◌, Bool, true, false, Option, none, some, [], if◌then◌else◌, ◌≡◌,
}
use nvidia_api_gateway.Prelude.Int.{pos}
use nvidia_api_gateway.Prelude.Text.{Text, codes, text_eq}
use nvidia_api_gateway.Json.{Value, Fields, str, obj, arr, cons, nil, field, end}
use nvidia_api_gateway.Models.Config.{default_system_config}
use nvidia_api_gateway.Upstream.Request.{Answer, answered}
use nvidia_api_gateway.Chat.{Acquisition, got, ChatResult, execute_open_ai_non_stream}
use nvidia_api_gateway.Chat.Holding.{held, taken}
use nvidia_api_gateway.Chat.Keys.{max_attempts, execute_open_ai_non_stream-held}
use nvidia_api_gateway.Chat.Charges.{count, is_charge, due, is_delivered}
use nvidia_api_gateway.Chat.Results.{execute_open_ai_non_stream-charges}

abbrev completion : Fields
completion =
    field (codes "choices")
      (arr (
        cons
          (obj (field (codes "message") (obj (field (codes "content") (str (codes "hi")) end)) end))
          nil))
      end

abbrev toy_decode : Text → Option Value
toy_decode body = if text_eq body (codes "hi") then some (obj completion) else none

abbrev toy_decimal : ℕ → Text
toy_decimal n = codes "n"

abbrev nobody_left : ℕ → Option Text
nobody_left i = none

abbrev alternate : ℕ → Acquisition
alternate zero = got (codes "key1") true
alternate (suc i) = got (codes "key2") false

abbrev first_limited : ℕ → ℕ → Answer
first_limited zero n =
    answered (record { status_code = 429; content_type = []; retry_after = codes "5"; body = [] })
first_limited (suc i) n =
    answered (record { status_code = 200; content_type = []; retry_after = []; body = codes "hi" })

abbrev all_slept : ℕ → ℕ → Bool
all_slept i n = true

abbrev result : ChatResult
result =
    execute_open_ai_non_stream toy_decode toy_decimal default_system_config (codes "m") true true
      true (pos 7) nobody_left alternate first_limited all_slept []

execute_open_ai_non_stream-held_example :
    (held none result.events ≡ some none)
    × (taken result.events
        ≤ max_attempts toy_decode toy_decimal default_system_config
            (codes "m")
            true
            true
            true
            (pos 7)
            nobody_left
            alternate
            first_limited
            all_slept)
execute_open_ai_non_stream-held_example =
    execute_open_ai_non_stream-held toy_decode toy_decimal default_system_config (codes "m") true
      true true (pos 7) nobody_left alternate first_limited all_slept []

execute_open_ai_non_stream-charges_example :
    count is_charge result.events
    ≡ due toy_decode toy_decimal default_system_config
        (codes "m")
        true
        true
        true
        (pos 7)
        (is_delivered result.status_code result.body)
execute_open_ai_non_stream-charges_example =
    execute_open_ai_non_stream-charges toy_decode toy_decimal default_system_config (codes "m") true
      true true (pos 7) nobody_left alternate first_limited all_slept []
