-- ===== src/Chat.antt =====
-- One chat request whose answer is not a stream, over all keys: executeOpenAINonStream of
-- pkg/gateway/proxy.go. What other requests may change between two steps is given as functions of the
-- attempt's number: whether the client is gone, what acquirePreferredKeyWithQueue gives, and how the
-- call with that key (Upstream.Request) ends. What the body does to the rest of the program is the
-- list of its events, in order. The debug headers are not modelled.
pub mod Holding
pub mod Keys
pub mod Charges
pub mod Results
mod Tests
use nvidia_api_gateway.Prelude.{
  ℕ, zero, suc, ◌+◌, Bool, true, false, not, ◌&&◌, ◌||◌, Option, none, some, List, [], ◌∷◌, ◌++◌,
  ltb, leb, if◌then◌else◌,
}
use nvidia_api_gateway.Prelude.Int.{ℤ, pos, ◌+ℤ◌, pos_part, leb_ℤ}
use nvidia_api_gateway.Prelude.Text.{Text, codes, text_eq, trim_space, is_empty}
use nvidia_api_gateway.Json.{Value}
use nvidia_api_gateway.Models.Config.{SystemConfig}
use nvidia_api_gateway.Upstream.Policy.{cross_key_attempt_budget}
use nvidia_api_gateway.Upstream.Guard.{is_open_ai_chat_completion_empty}
use nvidia_api_gateway.Upstream.Request.{
  Answer, Payload, relayed, open_ai_error, ProxyResult, Action, Call, execute_upstream_json_request,
}

-- The results of acquirePreferredKeyWithQueue: a key and whether it is the one of the binding, or an
-- error.
pub data Acquisition : Type 0 where
  got : Text → Bool → Acquisition
  refused : Text → Acquisition

pub data Event : Type 0 where
  acquired : Text → Event
  -- refreshConversationKeyBinding
  refreshed : Text → Bool → Event
  -- callUpstreamChat with this key
  called : Text → List Action → Event
  released : Text → Event
  -- clearConversationKeyBinding and recoverNetworkPathForKey after an empty answer
  gave_up : Text → Event
  -- incrementQuota
  charged : ℤ → Event
  -- cache.Set
  cached : Text → Event
  -- diagnostics.finalize with this status
  finalized : Text → Event

pub data Body : Type 0 where
  passed_on : Payload → Body
  from_cache : Text → Body
  gateway_error : Text → Text → Text → Body
  -- The empty completion of this model, with the estimated tokens of the prompt.
  empty_completion : Text → ℤ → Body

pub record ChatResult : Type 0 where
  pub status_code : ℕ
  pub body : Body
  pub events : List Event

-- What one attempt decides: the end, or another attempt with the last error.
pub data Step : Type 0 where
  finish : ℕ → Body → List Event → Step
  continue : Text → List Event → Step

abbrev pub is_blank : Payload → Bool
is_blank (relayed text) = is_empty text
is_blank (open_ai_error code message kind) = false

-- isOpenAIChatCompletionEmpty(result.Body)
abbrev pub is_empty_completion : (Text → Option Value) → Payload → Bool
is_empty_completion decode (relayed text) = is_open_ai_chat_completion_empty decode text
is_empty_completion decode (open_ai_error code message kind) = false

-- incrementQuota: nothing is charged without a master key or a positive cost.
abbrev pub charges : Bool → ℤ → List Event
charges has_master_key tokens =
    if not has_master_key || leb_ℤ tokens (pos 0) then [] else charged tokens ∷ []

abbrev pub retry_cause : Text
retry_cause = codes "上一个上游 NVIDIA 官方 Key 请求失败，已继续重试可用 Key"

-- `decimal` is the %d of fmt; `recorded` says whether usageTracker.Record succeeds.
module _ (decode : Text → Option Value) (decimal : ℕ → Text) (cfg : SystemConfig) (model : Text)
    (cache_enabled has_master_key recorded : Bool) (tokens : ℤ) where
  abbrev usage : List Event
  usage = if recorded then charges has_master_key tokens else []

  abbrev cache_event : Payload → List Event
  cache_event (relayed text) = if cache_enabled && not (is_empty text) then cached text ∷ [] else []
  cache_event (open_ai_error code message kind) = []

  -- A result with a status from 200 to 299.
  unfoldable pub on_success : Text → Bool → ProxyResult → Step
  on_success key reused result =
      if is_empty_completion decode result.body
      then continue (codes "upstream returned empty response") (gave_up key ∷ [])
      else finish result.status_code (passed_on result.body) (
          refreshed key (not reused) ∷ usage
          ++ cache_event result.body
          ++ finalized (codes "success") ∷ [])

  -- After the key is released.
  unfoldable pub on_call : Text → Bool → Call → Step
  unfolding on_success
  on_call key reused call =
      let status = call.result.status_code in
      if call.retry
      then continue retry_cause []
      else if leb 200 status && ltb status 300
      then on_success key reused call.result
      else if not (is_blank call.result.body)
      then finish status (passed_on call.result.body) (finalized (codes "upstream_failed") ∷ [])
      else continue (codes "upstream status " ++ decimal status) []

  -- The events so far come first.
  abbrev after : List Event → Step → Step
  after done (finish status body events) = finish status body (done ++ events)
  after done (continue message events) = continue message (done ++ events)

  unfoldable pub on_key : Text → Bool → Call → Step
  unfolding on_call
  on_key key reused call =
      after (acquired key ∷ refreshed key false ∷ called key call.actions ∷ released key ∷ [])
        (on_call key reused call)

  unfoldable pub on_refusal : Text → Step
  on_refusal message =
      if text_eq message (codes "queue timeout")
      then finish 503
          (gateway_error (codes "queue_timeout") (codes "Queue timeout, no available keys")
            (codes "server_error"))
          (finalized (codes "queue_timeout") ∷ [])
      else continue message []

  -- The body of the loop: the error of a client that is gone, the key, and the call with it.
  unfoldable pub on_attempt : Option Text → Acquisition → Call → Step
  unfolding on_key on_refusal
  on_attempt (some message) acquisition call =
      finish 499 (gateway_error (codes "client_closed_request") message (codes "client_error"))
        (finalized (codes "context_canceled") ∷ [])
  on_attempt none (refused message) call = on_refusal message
  on_attempt none (got key reused) call = on_key key reused call

  -- The model is not said in a request that leaves it out.
  abbrev fallback_model : Text
  fallback_model = if is_empty (trim_space model) then codes "unknown" else trim_space model

  unfoldable pub on_exhaustion : Text → List Event → ChatResult
  on_exhaustion message done =
      let events = done ++ finalized (codes "exhausted") ∷ [] in
      if not cfg.silent_fallback_on_exhaustion
      then record {
        status_code = 502;
        body = gateway_error (codes "upstream_exhausted") message (codes "api_error");
        events = events;
      }
      else record {
        status_code = 200;
        body = empty_completion fallback_model tokens;
        events = events;
      }

  module _ (cancelled : ℕ → Option Text) (acquire : ℕ → Acquisition) (answer : ℕ → ℕ → Answer)
      (slept : ℕ → ℕ → Bool) where
    -- callUpstreamChat
    abbrev pub call_upstream_chat : ℕ → Call
    call_upstream_chat i = execute_upstream_json_request decode true (answer i) (slept i) cfg

    unfoldable pub attempt : ℕ → Step
    unfolding on_attempt
    attempt i = on_attempt (cancelled i) (acquire i) (call_upstream_chat i)

    -- The loop from attempt i, with `left` attempts to come and the events so far in `done`.
    unfoldable pub chat_loop : ℕ → ℕ → Text → List Event → ChatResult
    unfolding attempt on_exhaustion
    chat_loop zero i last done = on_exhaustion last done
    chat_loop (suc left) i last done = elim (attempt i) [
      | finish status body events ↦ record {
        status_code = status;
        body = body;
        events = done ++ events;
      }
      | continue message events ↦ chat_loop left (suc i) message (done ++ events)
    ]

    -- `from_cache_text` is what cache.Get gives, empty after an error.
    unfoldable pub execute_open_ai_non_stream : Text → ChatResult
    unfolding chat_loop cross_key_attempt_budget
    execute_open_ai_non_stream from_cache_text =
        if cache_enabled && not (is_empty from_cache_text)
        then record { status_code = 200; body = from_cache from_cache_text; events = usage }
        else chat_loop (pos_part (cross_key_attempt_budget cfg.max_retries +ℤ pos 5)) 0
            (codes "upstream request failed") []
