-- ===== src/Upstream/Request.antt =====
-- One request with one key, tried again on transient failures: executeUpstreamJSONRequest of
-- pkg/gateway/proxy.go. What the service answers to each attempt and whether each pause runs to its
-- end are given as functions of the attempt's number; they are arguments of their own, but in a run of the
-- program a pause is cut short only when the request is cancelled, and then the next attempt fails with
-- the error of the context (Upstream/Request/Cancelled). What the body does to the rest of the program
-- is the list of its actions, in order.
pub mod Retries
pub mod Outcomes
pub mod Cancelled
use nvidia_api_gateway.Prelude.{
  ℕ, zero, suc, ◌+◌, Bool, true, false, not, ◌&&◌, ◌||◌, Option, none, some, List, [], ◌∷◌, ◌++◌,
  ltb, leb, if◌then◌else◌,
}
use nvidia_api_gateway.Prelude.Int.{ℤ, pos, ◌+ℤ◌, pos_part}
use nvidia_api_gateway.Prelude.Text.{Text, codes, text_eq, trim_space, is_empty}
use nvidia_api_gateway.Json.{Value, Fields, str, obj, null, member_or_nil, as_object}
use nvidia_api_gateway.Models.Config.{SystemConfig, normalize_system_config}
use nvidia_api_gateway.Upstream.Policy.{
  UpstreamFailurePolicy, terminal, network_transient, key_rate_limited, key_auth_rejected, GoError,
  classify_upstream_transport_error, classify_upstream_status_code, same_key_transport_retry_budget,
}
use nvidia_api_gateway.Upstream.Guard.{is_open_ai_chat_completion_empty}

pub record Response : Type 0 where
  pub status_code : ℕ
  pub content_type : Text
  pub retry_after : Text
  pub body : Text

-- What openUpstreamHeadersWithTimeout and io.ReadAll give.
pub data Answer : Type 0 where
  failed : GoError → Answer
  answered : Response → Answer

-- A body that the gateway passes on, or an error object of openAIError.
pub data Payload : Type 0 where
  relayed : Text → Payload
  open_ai_error : Text → Text → Text → Payload

pub record ProxyResult : Type 0 where
  pub status_code : ℕ
  pub content_type : Text
  pub body : Payload

pub data Action : Type 0 where
  -- recordUpstreamRuntimeEvent at this stage
  event : Text → Action
  -- recoverNetworkPathForKey with this error, or nil
  recover : Option GoError → Action
  -- markCooling with the Retry-After header
  mark_cooling : Text → Action
  -- scheduler.MarkDead
  mark_dead : Action
  -- updateAPIKeyStatusByPlaintext
  store_status : Text → Action
  -- clearConversationKeyBinding
  clear_binding : Action

pub record Call : Type 0 where
  pub result : ProxyResult
  pub retry : Bool
  pub attempts : ℕ
  pub actions : List Action

-- The empty proxyResult that goes with retry.
abbrev pub no_result : ProxyResult
no_result = record { status_code = 0; content_type = []; body = relayed [] }

abbrev pub upstream_failed_text : Text
upstream_failed_text = codes "upstream request failed"

abbrev pub text_member : Text → Value → Text
text_member key (obj fs) = elim (member_or_nil key fs) [ str s ↦ trim_space s | _ ↦ [] ]
text_member key _ = []

-- parseUpstreamError; an unreadable body decodes to none.
unfoldable pub parse_upstream_error : (Text → Option Value) → Text → Text → Text
unfolding as_object member_or_nil
parse_upstream_error decode raw fallback =
    let message = trim_space raw in
    let plain = if is_empty message then fallback else message in
    elim (as_object (decode raw)) [
      | none ↦ plain
      | some payload ↦
          let said = text_member (codes "message") (member_or_nil (codes "error") payload) in
          if is_empty said then plain else said
    ]

-- What one attempt decides: an end of the call, or another attempt with the last error noted. An
-- attempt that failed before a status came ends the loop if the pause is cut short; after a status
-- the `break` leaves only the `switch`.
pub data Decision : Type 0 where
  stop : ProxyResult → Bool → List Action → Decision
  again : Text → Bool → List Action → Decision

module _ (decode : Text → Option Value) (is_chat : Bool) where
  abbrev empty_error : GoError
  empty_error = record {
    message = codes "upstream returned empty response";
    is_first_byte_timeout = false;
    is_empty_response = true;
  }

  abbrev with_default_type : Text → Text
  with_default_type content_type =
      if is_empty content_type then codes "application/json" else content_type

  abbrev bad_gateway : Text → ProxyResult
  bad_gateway message = record {
    status_code = 502;
    content_type = codes "application/json";
    body = open_ai_error (codes "upstream_request_error") message (codes "api_error");
  }

  -- `more` says that another attempt is left.
  unfoldable pub on_error : Bool → GoError → Decision
  unfolding classify_upstream_transport_error
  on_error more err = elim (classify_upstream_transport_error (some err)) [
    | network_transient ↦
        let stage =
          if err.is_first_byte_timeout
          then codes "first_byte_timeout"
          else codes "upstream_error" in
        if more
        then again err.message true (event stage ∷ recover (some err) ∷ [])
        else stop no_result true (event stage ∷ clear_binding ∷ [])
    | _ ↦ stop (bad_gateway err.message) false (event (codes "upstream_error") ∷ [])
  ]

  -- The empty answer of a chat request, which is tried again before the status is looked at.
  unfoldable pub is_empty_answer : Response → Bool
  is_empty_answer r =
      leb 200 r.status_code
      && ltb r.status_code 400
      && is_chat
      && is_open_ai_chat_completion_empty decode r.body

  unfoldable pub on_empty : Bool → Decision
  on_empty more =
      if more
      then again (codes "upstream returned empty response") true
          (event (codes "upstream_failed") ∷ recover (some empty_error) ∷ [])
      else stop no_result true (event (codes "upstream_failed") ∷ clear_binding ∷ [])

  unfoldable pub on_status : Bool → Response → Decision
  unfolding classify_upstream_status_code parse_upstream_error
  on_status more r = elim (classify_upstream_status_code r.status_code) [
    | key_rate_limited ↦ stop no_result true (
        event (codes "rate_limited")
        ∷ mark_cooling r.retry_after
        ∷ store_status (codes "Cooling")
        ∷ clear_binding
        ∷ [])
    | key_auth_rejected ↦ stop no_result true (
        event (codes "auth_rejected")
        ∷ mark_dead
        ∷ store_status (codes "Dead")
        ∷ clear_binding
        ∷ [])
    | network_transient ↦
        if more
        then again (parse_upstream_error decode r.body upstream_failed_text) false
            (event (codes "upstream_failed") ∷ recover none ∷ [])
        else stop no_result true (event (codes "upstream_failed") ∷ clear_binding ∷ [])
    | terminal ↦
        stop
          (record {
            status_code = r.status_code;
            content_type = with_default_type r.content_type;
            body = relayed r.body;
          })
          false
          (event (if leb 400 r.status_code then codes "upstream_failed" else codes "upstream_ok")
            ∷ [])
  ]

  unfoldable pub decide : Bool → Answer → Decision
  unfolding on_error is_empty_answer on_empty on_status
  decide more (failed err) = on_error more err
  decide more (answered r) = if is_empty_answer r then on_empty more else on_status more r

  -- After the loop.
  unfoldable pub exhausted : Text → ProxyResult
  exhausted last = bad_gateway (if is_empty (trim_space last) then upstream_failed_text else last)

  module _ (answer : ℕ → Answer) (slept : ℕ → Bool) where
    -- The loop from `attempt`, with `left` attempts to come, its actions so far in `done`.
    unfoldable pub request_loop : ℕ → ℕ → Text → List Action → Call
    unfolding decide exhausted
    request_loop zero attempt last done = record {
      result = exhausted last;
      retry = false;
      attempts = attempt;
      actions = done;
    }
    request_loop (suc left) attempt last done = elim (decide (ltb 0 left) (answer attempt)) [
      | stop result retry actions ↦ record {
        result = result;
        retry = retry;
        attempts = suc attempt;
        actions = done ++ actions;
      }
      | again last' breaks actions ↦ elim (breaks && not (slept attempt)) [
        | true ↦ record {
          result = exhausted last';
          retry = false;
          attempts = suc attempt;
          actions = done ++ actions;
        }
        | false ↦ request_loop left (suc attempt) last' (done ++ actions)
      ]
    ]

    unfoldable pub execute_upstream_json_request : SystemConfig → Call
    unfolding request_loop same_key_transport_retry_budget
    execute_upstream_json_request cfg =
        let budget = same_key_transport_retry_budget (normalize_system_config cfg) +ℤ pos 1 in
        request_loop (pos_part budget) 0 [] []
