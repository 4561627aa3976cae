-- ===== src/Chat/Charges.antt =====
-- What a chat request ends with, and what it is charged: executeOpenAINonStream of
-- pkg/gateway/proxy.go.
use nvidia_api_gateway.Prelude.{
  ℕ, ◌+◌, Bool, true, false, not, ◌&&◌, Option, none, some, List, [], ◌∷◌, ◌++◌, ltb, leb,
  if◌then◌else◌, ◌≡◌, refl, sym, ap, ◌∙◌, arith, inl, inr, ◌⊎◌,
}
use nvidia_api_gateway.Prelude.Int.{ℤ, pos, leb_ℤ}
use nvidia_api_gateway.Prelude.Text.{Text, codes}
use nvidia_api_gateway.Json.{Value}
use nvidia_api_gateway.Models.Config.{SystemConfig}
use nvidia_api_gateway.Upstream.Guard.{is_open_ai_chat_completion_empty}
use nvidia_api_gateway.Upstream.Request.{
  Response, Answer, failed, answered, Payload, relayed, open_ai_error, ProxyResult, Action, Call,
  is_empty_answer, execute_upstream_json_request,
}
use nvidia_api_gateway.Upstream.Request.Retries.{Relays, is_transient}
use nvidia_api_gateway.Upstream.Request.Outcomes.{
  last_answer, IsOwn, execute_upstream_json_request-Passed, execute_upstream_json_request-IsOwn,
}
use nvidia_api_gateway.Chat.{
  Acquisition, got, refused, Event, acquired, refreshed, called, released, gave_up, charged, cached,
  finalized, Body, passed_on, from_cache, gateway_error, empty_completion, Step, finish, continue,
  is_blank, is_empty_completion, on_success, on_call, on_key, on_refusal, on_attempt, cache_event,
  usage, after,
}

abbrev pub count : (Event → Bool) → List Event → ℕ
count p [] = 0
count p (e ∷ rest) = (if p e then 1 else 0) + count p rest

abbrev pub is_charge : Event → Bool
is_charge (charged tokens) = true
is_charge _ = false

abbrev pub is_gave_up : Event → Bool
is_gave_up (gave_up key) = true
is_gave_up _ = false

pub count-append :
    (p : Event → Bool) (xs ys : List Event) → count p (xs ++ ys) ≡ count p xs + count p ys
count-append p [] ys = omega arith
count-append p (x ∷ xs) ys = omega (arith, count-append p xs ys)

abbrev pub is_success : ℕ → Bool
is_success status = leb 200 status && ltb status 300

-- The result is an answer for the client, not an error and no made-up completion.
abbrev pub is_delivered : ℕ → Body → Bool
is_delivered status (from_cache text) = true
is_delivered status (passed_on payload) = is_success status
is_delivered status (gateway_error code message kind) = false
is_delivered status (empty_completion model tokens) = false

module _ (decode : Text → Option Value) (decimal : ℕ → Text) (cfg : SystemConfig) (model : Text)
    (cache_enabled has_master_key recorded : Bool) (tokens : ℤ) where
  -- The status that goes with each body.
  abbrev pub Outcome : ℕ → Body → Type 0
  Outcome status (from_cache text) = status ≡ 200
  Outcome status (passed_on (relayed text)) =
      if is_success status
      then is_empty_completion decode (relayed text) ≡ false
      else is_blank (relayed text) ≡ false
  Outcome status (passed_on (open_ai_error code message kind)) =
      (status ≡ 502) × (code ≡ codes "upstream_request_error") × (kind ≡ codes "api_error")
  Outcome status (gateway_error code message kind) =
      ((status ≡ 499) × (code ≡ codes "client_closed_request"))
      ⊎ ((status ≡ 503) × (code ≡ codes "queue_timeout"))
      ⊎ ((status ≡ 502)
          × (code ≡ codes "upstream_exhausted")
          × (cfg.silent_fallback_on_exhaustion ≡ false))
  Outcome status (empty_completion model' tokens') =
      (status ≡ 200) × (cfg.silent_fallback_on_exhaustion ≡ true)

  -- The charges for a result that is delivered, or not.
  abbrev pub due : Bool → ℕ
  due delivered =
      if delivered && recorded && has_master_key && not (leb_ℤ tokens (pos 0)) then 1 else 0

  abbrev pub StepFits : Step → Type 0
  StepFits (finish status body events) =
      Outcome status body
      × (count is_charge events ≡ due (is_delivered status body))
      × (count is_gave_up events ≡ 0)
  StepFits (continue message events) = (count is_charge events ≡ 0) × (count is_gave_up events ≡ 0)

  -- A result that is not to be tried again is no empty completion, and an error of the gateway in it
  -- goes with status 502.
  abbrev pub Speaks : Call → Type 0
  Speaks call =
      call.retry ≡ false
      → (is_success call.result.status_code ≡ true
          → is_empty_completion decode call.result.body ≡ false)
        × IsOwn call.result.status_code call.result.body

  pub usage-charges :
      count is_charge (usage decode decimal cfg model cache_enabled has_master_key recorded tokens)
      ≡ due true
  usage-charges = ground arith

  pub usage-gave_up :
      count is_gave_up (usage decode decimal cfg model cache_enabled has_master_key recorded tokens)
      ≡ 0
  usage-gave_up = ground arith

  cache_event_free :
      (p : Event → Bool) (b : Payload)
      → ((text : Text) → p (cached text) ≡ false)
      → count p
          (cache_event decode decimal cfg model cache_enabled has_master_key recorded tokens b)
        ≡ 0
  cache_event_free p (relayed text) h = ground (arith, h text)
  cache_event_free p (open_ai_error code message kind) h = refl

  success_count :
      (p : Event → Bool) (b : Payload)
      → ((text : Text) → p (cached text) ≡ false)
      → p (finalized (codes "success")) ≡ false
      → count p (
          usage decode decimal cfg model cache_enabled has_master_key recorded tokens
          ++ cache_event decode decimal cfg model cache_enabled has_master_key recorded tokens b
          ++ finalized (codes "success") ∷ [])
        ≡ count p (usage decode decimal cfg model cache_enabled has_master_key recorded tokens)
  success_count p b h k =
      count-append p
        (usage decode decimal cfg model cache_enabled has_master_key recorded tokens
          ++ cache_event decode decimal cfg model cache_enabled has_master_key recorded tokens b)
        (finalized (codes "success") ∷ [])
      ∙ ground (
        arith,
        count-append p (usage decode decimal cfg model cache_enabled has_master_key recorded tokens)
            (cache_event decode decimal cfg model cache_enabled has_master_key recorded tokens b),
        cache_event_free p b h,
      )

  on_call-StepFits :
      (key : Text) (reused : Bool) (call : Call)
      → Speaks call
      → StepFits (
          on_call decode decimal cfg model cache_enabled has_master_key recorded tokens key reused
            call)
  unfolding on_call on_success
  on_call-StepFits key reused call speaks = ground (
    arith,
    speaks,
    usage-charges,
    usage-gave_up,
    success_count is_charge call.result.body (λ text. refl) refl,
    success_count is_gave_up call.result.body (λ text. refl) refl,
  )

  answer_speaks :
      (response : Response)
      → is_success response.status_code ≡ true
      → is_transient decode true (answered response) ≡ false
      → is_open_ai_chat_completion_empty decode response.body ≡ false
  unfolding is_transient is_empty_answer
  answer_speaks response s n = ground arith

  relayed_completion :
      (a : Answer) (result : ProxyResult)
      → Relays decode true a result
      → is_success result.status_code ≡ true
      → is_empty_completion decode result.body ≡ false
  unfolding is_transient is_empty_answer
  relayed_completion (failed err) result r s = absurd (ground (arith, ap (λ x. x.status_code) r.1))
  relayed_completion (answered response) result r s =
      ap (is_empty_completion decode) r.1 ∙ answer_speaks response (ap is_success (sym r.0) ∙ s) r.2

  pub call-Speaks :
      (answer : ℕ → Answer) (slept : ℕ → Bool)
      → Speaks (execute_upstream_json_request decode true answer slept cfg)
  call-Speaks answer slept h = (
    λ s. elim (execute_upstream_json_request-Passed decode true answer slept cfg h) [
      | inl r ↦
          relayed_completion
            (last_answer answer (execute_upstream_json_request decode true answer slept cfg)) _ r s
      | inr cut ↦ absurd (ground (arith, cut.2))
    ],
    execute_upstream_json_request-IsOwn decode true answer slept cfg h,
  )

  after-StepFits :
      (key : Text) (actions : List Action) (s : Step)
      → StepFits s
      → StepFits (
          after decode decimal cfg model cache_enabled has_master_key recorded tokens
            (acquired key ∷ refreshed key false ∷ called key actions ∷ released key ∷ [])
            s)
  after-StepFits key actions (finish status body events) f = ground arith
  after-StepFits key actions (continue message events) f = ground arith

  pub on_attempt-StepFits :
      (gone : Option Text) (acquisition : Acquisition) (call : Call)
      → Speaks call
      → StepFits (
          on_attempt decode decimal cfg model cache_enabled has_master_key recorded tokens gone
            acquisition call)
  unfolding on_attempt on_refusal on_key
  on_attempt-StepFits (some message) acquisition call speaks = ground arith
  on_attempt-StepFits none (refused message) call speaks = ground arith
  on_attempt-StepFits none (got key reused) call speaks =
      after-StepFits key call.actions _ (on_call-StepFits key reused call speaks)
