-- ===== src/Upstream/Request/Outcomes.antt =====
-- What executeUpstreamJSONRequest of pkg/gateway/proxy.go promises its callers.
use nvidia_api_gateway.Prelude.{
  ℕ, suc, ◌-◌, ◌≤◌, ◌≡◌, refl, ap, sym, ◌∙◌, ◌⊎◌, inl, inr, Bool, true, false, Option, [], ltb,
  if◌then◌else◌, arith,
}
use mathlib.Core.Path.{subst}
use nvidia_api_gateway.Upstream.Policy.Verdicts.{budgets_positive}
use nvidia_api_gateway.Json.{Value}
use nvidia_api_gateway.Prelude.Int.{pos, ◌+ℤ◌, pos_part}
use nvidia_api_gateway.Prelude.Text.{Text, codes}
use nvidia_api_gateway.Models.Config.{SystemConfig, normalize_system_config}
use nvidia_api_gateway.Upstream.Policy.{same_key_transport_retry_budget}
use nvidia_api_gateway.Upstream.Request.{
  Answer, failed, answered, Call, no_result, Decision, decide, request_loop,
  execute_upstream_json_request, exhausted, ProxyResult, Payload, relayed, open_ai_error,
}
use nvidia_api_gateway.Upstream.Request.Retries.{
  count, Relays, is_server_error, is_clear, is_dead_mark, is_cooling_mark, rejects, limits,
  is_transient, Fits, decide-Fits, Ended, stopped, cut_short, request_loop-Ended, count_calm,
  count-clear, count-dead, count-cooling,
}

-- The attempts that a configuration allows.
abbrev pub attempts_allowed : SystemConfig → ℕ
attempts_allowed cfg =
    pos_part (same_key_transport_retry_budget (normalize_system_config cfg) +ℤ pos 1)

-- The answer to the last attempt of a call.
abbrev pub last_answer : (ℕ → Answer) → Call → Answer
last_answer answer call = answer (call.attempts - 1)

-- The status that goes with an error of the gateway, with its code and type.
abbrev pub IsOwn : ℕ → Payload → Type 0
IsOwn status (relayed text) = Unit
IsOwn status (open_ai_error code message kind) =
    (status ≡ 502) × (code ≡ codes "upstream_request_error") × (kind ≡ codes "api_error")

module _ (decode : Text → Option Value) (is_chat : Bool) (answer : ℕ → Answer)
    (slept : ℕ → Bool) where
  -- The bindings cleared, the marks made, and the result, of a call that ended.
  abbrev pub Marked : Call → Type 0
  Marked call =
      (count is_clear call.actions ≡ (if call.retry then 1 else 0))
      × (count is_dead_mark call.actions ≡ (if rejects (last_answer answer call) then 1 else 0))
      × (count is_cooling_mark call.actions ≡ (if limits (last_answer answer call) then 1 else 0))
      × (call.retry ≡ true → call.result ≡ no_result)

  verdict_of :
      (more : Bool) (a : Answer) (d : Decision)
      → decide decode is_chat more a ≡ d
      → Fits decode is_chat more a d
  verdict_of more a d e = subst (Fits decode is_chat more a) e (decide-Fits decode is_chat more a)

  last_of : (n : ℕ) → answer (suc n - 1) ≡ answer n
  last_of n = ap answer (omega arith)

  Ended-Marked :
      (budget : ℕ) (call : Call) → Ended decode is_chat answer slept budget call → Marked call
  Ended-Marked budget call (stopped n before actions result retry lt calm d) = ground (
    arith,
    verdict_of (ltb (suc n) budget) (answer n) _ d,
    last_of n,
    count-clear before actions calm,
    count-dead before actions calm,
    count-cooling before actions calm,
  )
  Ended-Marked budget call (cut_short n before actions message lt calm d woke) =
      let fits = verdict_of (ltb (suc n) budget) (answer n) _ d in
      ground (
        arith,
        fits,
        last_of n,
        count_calm actions fits.0,
        count-clear before actions calm,
        count-dead before actions calm,
        count-cooling before actions calm,
      )

  -- A call that is not to be tried with another key passes on what came last, or its pause was cut
  -- short.
  abbrev pub Passed : Call → Type 0
  Passed call =
      Relays decode is_chat (last_answer answer call) call.result
      ⊎ ((is_transient decode is_chat (last_answer answer call) ≡ true)
          × (slept (call.attempts - 1) ≡ false)
          × (call.result.status_code ≡ 502))

  Ended-Passed :
      (budget : ℕ) (call : Call)
      → Ended decode is_chat answer slept budget call
      → call.retry ≡ false
      → Passed call
  unfolding exhausted
  Ended-Passed budget call (stopped n before actions result retry lt calm d) h =
      let fits = verdict_of (ltb (suc n) budget) (answer n) _ d in
      inl (subst (λ a. Relays decode is_chat a result) (sym (last_of n)) (fits.5 h))
  Ended-Passed budget call (cut_short n before actions message lt calm d woke) h =
      let fits = verdict_of (ltb (suc n) budget) (answer n) _ d in
      inr (ground (arith, fits, last_of n), ap slept (omega arith) ∙ woke, refl)

  Ended-attempts :
      (budget : ℕ) (call : Call)
      → Ended decode is_chat answer slept budget call
      → (1 ≤ call.attempts) × (call.attempts ≤ budget)
  Ended-attempts budget call (stopped n before actions result retry lt calm d) =
      (ground arith, ground arith)
  Ended-attempts budget call (cut_short n before actions message lt calm d woke) =
      (ground arith, ground arith)

  Ended-persists :
      (budget : ℕ) (call : Call)
      → Ended decode is_chat answer slept budget call
      → is_transient decode is_chat (last_answer answer call) ≡ true
      → ((call.attempts ≡ budget) × (call.retry ≡ true))
        ⊎ ((slept (call.attempts - 1) ≡ false)
            × (is_server_error (last_answer answer call) ≡ false)
            × (call.retry ≡ false))
  Ended-persists budget call (stopped n before actions result retry lt calm d) h =
      let fits = verdict_of (ltb (suc n) budget) (answer n) _ d in
      inl (ground (arith, fits, last_of n))
  Ended-persists budget call (cut_short n before actions message lt calm d woke) h =
      let fits = verdict_of (ltb (suc n) budget) (answer n) _ d in
      inr (ap slept (omega arith) ∙ woke, ground (arith, fits, last_of n), refl)

  two_attempts : (cfg : SystemConfig) → 2 ≤ attempts_allowed cfg
  two_attempts cfg = ground (arith, budgets_positive (normalize_system_config cfg))

  pub execute-Ended :
      (cfg : SystemConfig)
      → Ended decode is_chat answer slept
          (attempts_allowed cfg)
          (execute_upstream_json_request decode is_chat answer slept cfg)
  unfolding execute_upstream_json_request
  execute-Ended cfg =
      let loop = request_loop decode is_chat answer slept (attempts_allowed cfg) 0 [] [] in
      subst (λ budget. Ended decode is_chat answer slept budget loop) (omega arith)
        (request_loop-Ended decode is_chat answer slept (attempts_allowed cfg) 0 [] [] tt
          (omega (arith, two_attempts cfg)))

  -- Whatever the answers and the pauses: a call of executeUpstreamJSONRequest clears the binding of
  -- the conversation once if another key is to be tried, and never if not; it marks the key dead once
  -- if the last answer had status 401 or 403, and as cooling once if it had 429, and never
  -- otherwise; and with the wish for another key it gives no result.
  pub execute_upstream_json_request-Marked :
      (cfg : SystemConfig) → Marked (execute_upstream_json_request decode is_chat answer slept cfg)
  execute_upstream_json_request-Marked cfg =
      Ended-Marked (attempts_allowed cfg) _ (execute-Ended cfg)

  -- A call of executeUpstreamJSONRequest that does not ask for another key relays what came last, an
  -- error of the transport as status 502 or the answer with its status and body, and this was no
  -- transient failure, no empty completion, and no status 401, 403, 429 or from 500 on; or the pause
  -- after a transient failure was cut short, and the status is 502.
  pub execute_upstream_json_request-Passed :
      (cfg : SystemConfig)
      → (execute_upstream_json_request decode is_chat answer slept cfg).retry ≡ false
      → Passed (execute_upstream_json_request decode is_chat answer slept cfg)
  execute_upstream_json_request-Passed cfg =
      Ended-Passed (attempts_allowed cfg) _ (execute-Ended cfg)

  -- A call of executeUpstreamJSONRequest makes at least one attempt, and at most one more than the
  -- normalized configuration's number of retries, which is at least two attempts in all.
  pub execute_upstream_json_request-attempts :
      (cfg : SystemConfig)
      → let call = execute_upstream_json_request decode is_chat answer slept cfg in
        (1 ≤ call.attempts) × (call.attempts ≤ attempts_allowed cfg) × (2 ≤ attempts_allowed cfg)
  execute_upstream_json_request-attempts cfg =
      let bounds = Ended-attempts (attempts_allowed cfg) _ (execute-Ended cfg) in
      (bounds.0, bounds.1, two_attempts cfg)

  -- A call of executeUpstreamJSONRequest whose last answer is a transient failure has made every
  -- attempt allowed and asks for another key; or its pause was cut short, the failure was no
  -- server error with a status, and it does not ask for one.
  pub execute_upstream_json_request-persists :
      (cfg : SystemConfig)
      → let call = execute_upstream_json_request decode is_chat answer slept cfg in
        is_transient decode is_chat (last_answer answer call) ≡ true
        → ((call.attempts ≡ attempts_allowed cfg) × (call.retry ≡ true))
          ⊎ ((slept (call.attempts - 1) ≡ false)
              × (is_server_error (last_answer answer call) ≡ false)
              × (call.retry ≡ false))
  execute_upstream_json_request-persists cfg =
      Ended-persists (attempts_allowed cfg) _ (execute-Ended cfg)

  Relays-IsOwn :
      (a : Answer) (result : ProxyResult)
      → Relays decode is_chat a result
      → IsOwn result.status_code result.body
  Relays-IsOwn (failed err) result r =
      subst (λ (x : ProxyResult). IsOwn x.status_code x.body) (sym r.1) (refl, refl, refl)
  Relays-IsOwn (answered response) result r = subst (IsOwn result.status_code) (sym r.1) tt

  Ended-IsOwn :
      (budget : ℕ) (call : Call)
      → Ended decode is_chat answer slept budget call
      → call.retry ≡ false
      → IsOwn call.result.status_code call.result.body
  unfolding exhausted
  Ended-IsOwn budget call (stopped n before actions result retry lt calm d) h =
      Relays-IsOwn (answer n) result ((verdict_of (ltb (suc n) budget) (answer n) _ d).5 h)
  Ended-IsOwn budget call (cut_short n before actions message lt calm d woke) h = (refl, refl, refl)

  pub execute_upstream_json_request-IsOwn :
      (cfg : SystemConfig)
      → let call = execute_upstream_json_request decode is_chat answer slept cfg in
        call.retry ≡ false → IsOwn call.result.status_code call.result.body
  execute_upstream_json_request-IsOwn cfg = Ended-IsOwn (attempts_allowed cfg) _ (execute-Ended cfg)
