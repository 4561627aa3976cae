-- ===== src/Upstream/Tests.antt =====
-- Requests that fail and are tried again, and the theorems on them at concrete answers.
use nvidia_api_gateway.Prelude.{
  ℕ, zero, suc, ◌≤◌, ◌≡◌, ◌⊎◌, ◌↔◌, refl, true, false, Option, none, some, [], if◌then◌else◌,
}
use nvidia_api_gateway.Prelude.Int.{◌+ℤ◌}
use nvidia_api_gateway.Prelude.Text.{
  Text, codes, text_eq, trim_space, to_lower, contains, is_space, is_empty, has_prefix,
}
use nvidia_api_gateway.Json.{
  Value, Fields, str, obj, arr, cons, nil, field, end, as_object, member_or_nil,
}
use nvidia_api_gateway.Models.Config.{default_system_config, normalize_system_config, positive_or}
use nvidia_api_gateway.Upstream.Policy.{
  GoError, classify_upstream_transport_error, same_key_transport_retry_budget,
}
use nvidia_api_gateway.Upstream.Guard.{is_open_ai_chat_completion_empty, value_has_meaningful_delta}
use nvidia_api_gateway.Upstream.Guard.Empty.{Says, is_open_ai_chat_completion_empty_iff}
use nvidia_api_gateway.Upstream.Request.{
  Response, Answer, failed, answered, Call, execute_upstream_json_request, request_loop, decide,
  is_empty_answer, on_status, on_error,
}
use nvidia_api_gateway.Upstream.Request.Retries.{is_transient, is_server_error}
use nvidia_api_gateway.Upstream.Request.Outcomes.{
  attempts_allowed, last_answer, Marked, Passed, execute_upstream_json_request-Marked,
  execute_upstream_json_request-Passed, execute_upstream_json_request-attempts,
  execute_upstream_json_request-persists,
}
use nvidia_api_gateway.Upstream.Request.Cancelled.{EndsCut, cut_pause_ends}

abbrev completion : Fields
completion =
    field (codes "choices")
      (arr (
        cons
          (obj (field (codes "message") (obj (field (codes "content") (str (codes "hi")) end)) end))
          nil))
      end

-- A decoder that knows one text.
abbrev toy_decode : Text → Option Value
toy_decode body = if text_eq body (codes "hi") then some (obj completion) else none

abbrev response_of : ℕ → Text → Response
response_of status body = record {
  status_code = status;
  content_type = [];
  retry_after = codes "30";
  body = body;
}

-- A timeout, then a rate limit, then a completion.
abbrev answers : ℕ → Answer
answers zero = failed (record {
  message = codes "i/o timeout";
  is_first_byte_timeout = false;
  is_empty_response = false;
})
answers (suc zero) = answered (response_of 200 (codes "hi"))
answers (suc (suc n)) = answered (response_of 429 (codes "slow down"))

abbrev overloaded : ℕ → Answer
overloaded n = answered (response_of 503 (codes "busy"))

abbrev refused : GoError
refused = record {
  message = codes "dial tcp 127.0.0.1:7890: connection refused";
  is_first_byte_timeout = false;
  is_empty_response = false;
}

abbrev relayed_call : Call
relayed_call =
    execute_upstream_json_request toy_decode true answers (λ n. true) default_system_config

relayed_call_ends : (relayed_call.attempts ≡ 2) × (relayed_call.retry ≡ false)
unfolding execute_upstream_json_request request_loop decide on_error is_empty_answer on_status
    is_open_ai_chat_completion_empty text_eq member_or_nil as_object value_has_meaningful_delta
    classify_upstream_transport_error same_key_transport_retry_budget normalize_system_config
    positive_or ◌+ℤ◌ trim_space is_space contains has_prefix to_lower
relayed_call_ends = (refl, refl)

abbrev limited_call : Call
limited_call =
    execute_upstream_json_request toy_decode true (λ n. answers (suc (suc n))) (λ n. true)
      default_system_config

execute_upstream_json_request-Marked_example :
    Marked toy_decode true (λ n. answers (suc (suc n))) (λ n. true) limited_call
execute_upstream_json_request-Marked_example =
    execute_upstream_json_request-Marked toy_decode true (λ n. answers (suc (suc n))) (λ n. true)
      default_system_config

execute_upstream_json_request-Passed_example :
    Passed toy_decode true answers (λ n. true) relayed_call
execute_upstream_json_request-Passed_example =
    execute_upstream_json_request-Passed toy_decode true answers (λ n. true) default_system_config
      relayed_call_ends.1

execute_upstream_json_request-attempts_example :
    (1 ≤ relayed_call.attempts)
    × (relayed_call.attempts ≤ attempts_allowed default_system_config)
    × (2 ≤ attempts_allowed default_system_config)
execute_upstream_json_request-attempts_example =
    execute_upstream_json_request-attempts toy_decode true answers (λ n. true) default_system_config

-- Every attempt is answered with status 503.
abbrev overloaded_call : Call
overloaded_call =
    execute_upstream_json_request toy_decode true overloaded (λ n. true) default_system_config

overloaded_transient : is_transient toy_decode true (last_answer overloaded overloaded_call) ≡ true
unfolding is_transient is_empty_answer
overloaded_transient = refl

execute_upstream_json_request-persists_example :
    ((overloaded_call.attempts ≡ attempts_allowed default_system_config)
      × (overloaded_call.retry ≡ true))
    ⊎ ((true ≡ false)
        × (is_server_error (last_answer overloaded overloaded_call) ≡ false)
        × (overloaded_call.retry ≡ false))
execute_upstream_json_request-persists_example =
    execute_upstream_json_request-persists toy_decode true overloaded (λ n. true)
      default_system_config overloaded_transient

-- Status 503 to the first attempt, whose pause is cut short, and then the error of the context.
abbrev canceled : GoError
canceled = record {
  message = codes "context canceled";
  is_first_byte_timeout = false;
  is_empty_response = false;
}

abbrev until_cancelled : ℕ → Answer
until_cancelled zero = overloaded zero
until_cancelled (suc n) = failed canceled

canceled_lem : is_transient toy_decode true (failed canceled) ≡ false
unfolding is_transient classify_upstream_transport_error contains has_prefix to_lower trim_space
    is_space text_eq
canceled_lem = refl

cut_pause_ends_example :
    EndsCut toy_decode true until_cancelled
      (λ n. false)
      (attempts_allowed default_system_config)
      0
      canceled
      (execute_upstream_json_request toy_decode true until_cancelled
        (λ n. false)
        default_system_config)
cut_pause_ends_example =
    cut_pause_ends toy_decode true until_cancelled (λ n. false) default_system_config 0 canceled
      refl refl canceled_lem

abbrev forbidden : ℕ
forbidden = 403

is_open_ai_chat_completion_empty_iff_example :
    (is_open_ai_chat_completion_empty toy_decode (codes "hi") ≡ false)
    ↔ ((is_empty (trim_space (codes "hi")) ≡ false) × Says (as_object (toy_decode (codes "hi"))))
is_open_ai_chat_completion_empty_iff_example =
    is_open_ai_chat_completion_empty_iff toy_decode (codes "hi")
