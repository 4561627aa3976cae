-- ===== src/Chat/Results.antt =====
-- The results and the charges of a whole chat request: executeOpenAINonStream of
-- pkg/gateway/proxy.go.
use nvidia_api_gateway.Prelude.{ℕ, zero, suc, Bool, Option, List, [], ◌∷◌, ◌++◌, ◌≡◌, refl, arith}
use mathlib.Core.Path.{subst}
use nvidia_api_gateway.Prelude.Int.{ℤ, pos, ◌+ℤ◌, pos_part}
use nvidia_api_gateway.Prelude.Text.{Text, codes}
use nvidia_api_gateway.Json.{Value}
use nvidia_api_gateway.Models.Config.{SystemConfig}
use nvidia_api_gateway.Upstream.Policy.{cross_key_attempt_budget}
use nvidia_api_gateway.Upstream.Request.{Answer}
use nvidia_api_gateway.Chat.{
  Acquisition, Event, finalized, Step, finish, continue, ChatResult, on_exhaustion, attempt,
  chat_loop, execute_open_ai_non_stream,
}
use nvidia_api_gateway.Chat.Charges.{
  count, is_charge, is_gave_up, count-append, is_delivered, Outcome, due, StepFits, usage-charges,
  usage-gave_up, call-Speaks, on_attempt-StepFits,
}

module _ (decode : Text → Option Value) (decimal : ℕ → Text) (cfg : SystemConfig) (model : Text)
    (cache_enabled has_master_key recorded : Bool) (tokens : ℤ) where
  abbrev Fits : ChatResult → Type 0
  Fits result =
      Outcome decode decimal cfg model cache_enabled has_master_key recorded tokens
        result.status_code result.body
      × (count is_charge result.events
          ≡ due decode decimal cfg model cache_enabled has_master_key recorded tokens
              (is_delivered result.status_code result.body))
      × (count is_gave_up result.events ≡ 0)

  abbrev IsFree : List Event → Type 0
  IsFree done = (count is_charge done ≡ 0) × (count is_gave_up done ≡ 0)

  module _ (cancelled : ℕ → Option Text) (acquire : ℕ → Acquisition) (answer : ℕ → ℕ → Answer)
      (slept : ℕ → ℕ → Bool) where
    attempt-StepFits :
        (i : ℕ)
        → StepFits decode decimal cfg model cache_enabled has_master_key recorded tokens (
            attempt decode decimal cfg model cache_enabled has_master_key recorded tokens cancelled
              acquire answer slept i)
    unfolding attempt
    attempt-StepFits i =
        on_attempt-StepFits decode decimal cfg model cache_enabled has_master_key recorded tokens
          (cancelled i) (acquire i) _
          (call-Speaks decode decimal cfg model cache_enabled has_master_key recorded tokens
            (answer i) (slept i))

    on_exhaustion-Fits :
        (message : Text) (done : List Event)
        → IsFree done
        → Fits (
            on_exhaustion decode decimal cfg model cache_enabled has_master_key recorded tokens
              message done)
    unfolding on_exhaustion
    on_exhaustion-Fits message done free = ground (
      arith,
      count-append is_charge done (finalized (codes "exhausted") ∷ []),
      count-append is_gave_up done (finalized (codes "exhausted") ∷ []),
    )

    chat_loop_step :
        (left i : ℕ) (message : Text) (done : List Event)
        → IsFree done
        → ((message' : Text) (done' : List Event)
            → IsFree done'
            → Fits (
                chat_loop decode decimal cfg model cache_enabled has_master_key recorded tokens
                  cancelled acquire answer slept left
                  (suc i)
                  message'
                  done'))
        → (s : Step)
        → attempt decode decimal cfg model cache_enabled has_master_key recorded tokens cancelled
            acquire answer slept i
          ≡ s
        → Fits (
            chat_loop decode decimal cfg model cache_enabled has_master_key recorded tokens
              cancelled acquire answer slept
              (suc left)
              i
              message
              done)
    unfolding chat_loop
    chat_loop_step left i message done free ih (finish status body events) e =
        let fits =
          subst (StepFits decode decimal cfg model cache_enabled has_master_key recorded tokens) e
            (attempt-StepFits i) in
        rw (e, chat_loop)
          (ground
            (arith, fits, count-append is_charge done events, count-append is_gave_up done events))
    chat_loop_step left i message done free ih (continue message' events) e =
        let fits =
          subst (StepFits decode decimal cfg model cache_enabled has_master_key recorded tokens) e
            (attempt-StepFits i) in
        rw (e, chat_loop)
          (ih message' (done ++ events) (
            ground (
              arith,
              fits,
              count-append is_charge done events,
              count-append is_gave_up done events,
            )))

    chat_loop-Fits :
        (left i : ℕ) (message : Text) (done : List Event)
        → IsFree done
        → Fits (
            chat_loop decode decimal cfg model cache_enabled has_master_key recorded tokens
              cancelled acquire answer slept left i message done)
    unfolding chat_loop
    chat_loop-Fits zero i message done free = on_exhaustion-Fits message done free
    chat_loop-Fits (suc left) i message done free =
        chat_loop_step left i message done free (chat_loop-Fits left (suc i)) _ refl

    execute-Fits :
        (from_cache_text : Text)
        → Fits (
            execute_open_ai_non_stream decode decimal cfg model cache_enabled has_master_key
              recorded tokens cancelled acquire answer slept from_cache_text)
    unfolding execute_open_ai_non_stream
    execute-Fits from_cache_text = ground (
      arith,
      usage-charges decode decimal cfg model cache_enabled has_master_key recorded tokens,
      usage-gave_up decode decimal cfg model cache_enabled has_master_key recorded tokens,
      chat_loop-Fits (pos_part (cross_key_attempt_budget cfg.max_retries +ℤ pos 5)) 0
          (codes "upstream request failed") [] (refl, refl),
    )

    -- executeOpenAINonStream charges the master key once if it delivers the cached text or an answer
    -- with a status from 200 to 299, the use could be recorded, there is a master key and the cost is
    -- positive; in every other case it charges nothing, and so not for an error or a made-up completion.
    pub execute_open_ai_non_stream-charges :
        (from_cache_text : Text)
        → let result =
            execute_open_ai_non_stream decode decimal cfg model cache_enabled has_master_key
              recorded tokens cancelled acquire answer slept from_cache_text in
          count is_charge result.events
          ≡ due decode decimal cfg model cache_enabled has_master_key recorded tokens
              (is_delivered result.status_code result.body)
    execute_open_ai_non_stream-charges from_cache_text = (execute-Fits from_cache_text).1

    -- executeOpenAINonStream never takes its own branch for an empty completion: the call with the key
    -- has already treated that answer as a failure.
    pub execute_open_ai_non_stream-gave_up :
        (from_cache_text : Text)
        → count is_gave_up
            (execute_open_ai_non_stream decode decimal cfg model cache_enabled has_master_key
              recorded tokens cancelled acquire answer slept from_cache_text).events
          ≡ 0
    execute_open_ai_non_stream-gave_up from_cache_text = (execute-Fits from_cache_text).2
