-- ===== src/Chat/Keys.antt =====
-- The keys that a chat request holds: executeOpenAINonStream of pkg/gateway/proxy.go.
use nvidia_api_gateway.Prelude.{
  ℕ, zero, suc, ◌+◌, ◌≤◌, Bool, false, Option, none, some, List, [], ◌∷◌, ◌++◌, ◌≡◌, refl, arith,
}
use nvidia_api_gateway.Prelude.Int.{ℤ, pos, ◌+ℤ◌, pos_part}
use nvidia_api_gateway.Prelude.Text.{Text, codes, text_eq_refl}
use mathlib.Core.Path.{subst}
use nvidia_api_gateway.Json.{Value}
use nvidia_api_gateway.Models.Config.{SystemConfig}
use nvidia_api_gateway.Upstream.Policy.{cross_key_attempt_budget}
use nvidia_api_gateway.Upstream.Request.{
  Answer, Payload, relayed, open_ai_error, ProxyResult, Action, Call,
}
use nvidia_api_gateway.Chat.{
  Acquisition, got, refused, Event, acquired, refreshed, called, released, finalized, Step, finish,
  continue, on_success, on_call, on_key, on_refusal, on_attempt, on_exhaustion, attempt, chat_loop,
  execute_open_ai_non_stream, cache_event, usage, after,
}
use nvidia_api_gateway.Chat.Holding.{held, taken, events_of, Balanced, Balanced-append}

module _ (decode : Text → Option Value) (decimal : ℕ → Text) (cfg : SystemConfig) (model : Text)
    (cache_enabled has_master_key recorded : Bool) (tokens : ℤ) where
  usage-Balanced :
      Balanced 0 (usage decode decimal cfg model cache_enabled has_master_key recorded tokens)
  usage-Balanced = ground arith

  cache_event-Balanced :
      (b : Payload)
      → Balanced 0
          (cache_event decode decimal cfg model cache_enabled has_master_key recorded tokens b)
  cache_event-Balanced (relayed text) = ground arith
  cache_event-Balanced (open_ai_error code message kind) = ground arith

  success_events :
      (result : ProxyResult)
      → Balanced 0 (
          usage decode decimal cfg model cache_enabled has_master_key recorded tokens
          ++ cache_event decode decimal cfg model cache_enabled has_master_key recorded tokens
              result.body
          ++ finalized (codes "success") ∷ [])
  success_events result =
      let store =
        cache_event decode decimal cfg model cache_enabled has_master_key recorded tokens
          result.body in
      let end = finalized (codes "success") ∷ [] in
      Balanced-append 0 0
        (usage decode decimal cfg model cache_enabled has_master_key recorded tokens ++ store) end
        (Balanced-append 0 0
          (usage decode decimal cfg model cache_enabled has_master_key recorded tokens) store
          usage-Balanced (cache_event-Balanced result.body))
        (refl, ground arith)

  on_success-Balanced :
      (key : Text) (reused : Bool) (result : ProxyResult)
      → Balanced 0 (
          events_of (
            on_success decode decimal cfg model cache_enabled has_master_key recorded tokens key
              reused result))
  unfolding on_success
  on_success-Balanced key reused result = ground (arith, success_events result)

  on_call-Balanced :
      (key : Text) (reused : Bool) (call : Call)
      → Balanced 0 (
          events_of (
            on_call decode decimal cfg model cache_enabled has_master_key recorded tokens key reused
              call))
  unfolding on_call
  on_call-Balanced key reused call = ground (arith, on_success-Balanced key reused call.result)

  after-Balanced :
      (key : Text) (actions : List Action) (s : Step)
      → Balanced 0 (events_of s)
      → Balanced 1 (
          events_of (
            after decode decimal cfg model cache_enabled has_master_key recorded tokens
              (acquired key ∷ refreshed key false ∷ called key actions ∷ released key ∷ [])
              s))
  after-Balanced key actions (finish status body events) b = ground (arith, text_eq_refl key)
  after-Balanced key actions (continue message events) b = ground (arith, text_eq_refl key)

  on_key-Balanced :
      (key : Text) (reused : Bool) (call : Call)
      → Balanced 1 (
          events_of (
            on_key decode decimal cfg model cache_enabled has_master_key recorded tokens key reused
              call))
  unfolding on_key
  on_key-Balanced key reused call =
      after-Balanced key call.actions _ (on_call-Balanced key reused call)

  on_refusal-Balanced :
      (message : Text)
      → Balanced 1 (
          events_of (
            on_refusal decode decimal cfg model cache_enabled has_master_key recorded tokens
              message))
  unfolding on_refusal
  on_refusal-Balanced message = ground arith

  on_attempt-Balanced :
      (gone : Option Text) (acquisition : Acquisition) (call : Call)
      → Balanced 1 (
          events_of (
            on_attempt decode decimal cfg model cache_enabled has_master_key recorded tokens gone
              acquisition call))
  unfolding on_attempt
  on_attempt-Balanced (some message) acquisition call = ground arith
  on_attempt-Balanced none (refused message) call = on_refusal-Balanced message
  on_attempt-Balanced none (got key reused) call = on_key-Balanced key reused call

  module _ (cancelled : ℕ → Option Text) (acquire : ℕ → Acquisition) (answer : ℕ → ℕ → Answer)
      (slept : ℕ → ℕ → Bool) where
    attempt-Balanced :
        (i : ℕ)
        → Balanced 1 (
            events_of (
              attempt decode decimal cfg model cache_enabled has_master_key recorded tokens
                cancelled acquire answer slept i))
    unfolding attempt
    attempt-Balanced i = on_attempt-Balanced (cancelled i) (acquire i) _

    on_exhaustion-Balanced :
        (n : ℕ) (message : Text) (done : List Event)
        → Balanced n done
        → Balanced n
            (on_exhaustion decode decimal cfg model cache_enabled has_master_key recorded tokens
              message done).events
    unfolding on_exhaustion
    on_exhaustion-Balanced n message done b =
        let all =
          Balanced-append n 0 done (finalized (codes "exhausted") ∷ []) b (refl, ground arith) in
        ground (arith, all)

    chat_loop_step :
        (left i n : ℕ) (message : Text) (done : List Event)
        → Balanced n done
        → ((message' : Text) (done' : List Event)
            → Balanced (n + 1) done'
            → Balanced
                (n + 1 + left)
                (chat_loop decode decimal cfg model cache_enabled has_master_key recorded tokens
                  cancelled acquire answer slept left
                  (suc i)
                  message'
                  done').events)
        → (s : Step)
        → attempt decode decimal cfg model cache_enabled has_master_key recorded tokens cancelled
            acquire answer slept i
          ≡ s
        → Balanced
            (n + suc left)
            (chat_loop decode decimal cfg model cache_enabled has_master_key recorded tokens
              cancelled acquire answer slept
              (suc left)
              i
              message
              done).events
    unfolding chat_loop
    chat_loop_step left i n message done b ih (finish status body events) e =
        rw (e, chat_loop)
          (ground (
            arith,
            Balanced-append n 1 done events b
                (subst (λ s. Balanced 1 (events_of s)) e (attempt-Balanced i)),
          ))
    chat_loop_step left i n message done b ih (continue message' events) e =
        rw (e, chat_loop)
          (ground (
            arith,
            ih message' (done ++ events) (
                Balanced-append n 1 done events b
                  (subst (λ s. Balanced 1 (events_of s)) e (attempt-Balanced i))),
          ))

    chat_loop-Balanced :
        (left i n : ℕ) (message : Text) (done : List Event)
        → Balanced n done
        → Balanced
            (n + left)
            (chat_loop decode decimal cfg model cache_enabled has_master_key recorded tokens
              cancelled acquire answer slept left i message done).events
    unfolding chat_loop
    chat_loop-Balanced zero i n message done b =
        ground (arith, on_exhaustion-Balanced n message done b)
    chat_loop-Balanced (suc left) i n message done b =
        chat_loop_step left i n message done b (chat_loop-Balanced left (suc i) (n + 1)) _ refl

    -- How many attempts executeOpenAINonStream makes at most.
    abbrev pub max_attempts : ℕ
    max_attempts = pos_part (cross_key_attempt_budget cfg.max_retries +ℤ pos 5)

    -- Whatever the keys, the answers and the pauses: executeOpenAINonStream gives back every key that
    -- it takes, before it takes another one and before it returns, uses none but the key that it holds,
    -- and takes at most as many as the budget over all keys, plus 5.
    pub execute_open_ai_non_stream-held :
        (from_cache_text : Text)
        → let result =
            execute_open_ai_non_stream decode decimal cfg model cache_enabled has_master_key
              recorded tokens cancelled acquire answer slept from_cache_text in
          (held none result.events ≡ some none) × (taken result.events ≤ max_attempts)
    unfolding execute_open_ai_non_stream
    execute_open_ai_non_stream-held from_cache_text = ground (
      arith,
      usage-Balanced,
      chat_loop-Balanced max_attempts 0 0 (codes "upstream request failed") [] (refl, ground arith),
    )
