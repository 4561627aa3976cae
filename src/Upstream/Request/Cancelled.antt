-- ===== src/Upstream/Request/Cancelled.antt =====
-- A pause that is cut short, because the request was cancelled: executeUpstreamJSONRequest of
-- pkg/gateway/proxy.go.
use mathlib.Core.Path.{subst}
use mathlib.Core.Bool.{true≢false}
use nvidia_api_gateway.Json.{Value}
use nvidia_api_gateway.Models.Config.{SystemConfig}
use nvidia_api_gateway.Prelude.{
  ℕ, zero, suc, ◌≤◌, ◌<◌, ◌≡◌, refl, ap, sym, ◌∙◌, ◌⊎◌, inl, inr, Bool, true, false, not, ◌&&◌,
  Option, List, [], ◌∷◌, ◌++◌, ltb, arith, Bool-cases,
}
use nvidia_api_gateway.Prelude.Text.{Text, codes}
use nvidia_api_gateway.Upstream.Policy.{GoError}
use nvidia_api_gateway.Upstream.Request.{
  Answer, failed, answered, ProxyResult, Action, event, Call, Decision, stop, again, on_error,
  decide, bad_gateway, request_loop, execute_upstream_json_request,
}
use nvidia_api_gateway.Upstream.Request.Retries.{
  Fits, decide-Fits, Ended, stopped, cut_short, is_transient, is_server_error,
}
use nvidia_api_gateway.Upstream.Request.Outcomes.{attempts_allowed, execute-Ended}

module _ (decode : Text → Option Value) (is_chat : Bool) where
  verdict_of :
      (more : Bool) (a : Answer) (d : Decision)
      → decide decode is_chat more a ≡ d
      → Fits decode is_chat more a d
  verdict_of more a d e = subst (Fits decode is_chat more a) e (decide-Fits decode is_chat more a)

  stop_at_once :
      (more : Bool) (err : GoError)
      → is_transient decode is_chat (failed err) ≡ false
      → decide decode is_chat more (failed err)
        ≡ stop (bad_gateway decode is_chat err.message) false (event (codes "upstream_error") ∷ [])
  unfolding decide on_error is_transient
  stop_at_once more err h = ground arith

  server_error_transient :
      (a : Answer) → is_server_error a ≡ true → is_transient decode is_chat a ≡ true
  unfolding is_transient
  server_error_transient (failed err) h = absurd (ground arith)
  server_error_transient (answered r) h = ground arith

  stopped_with :
      (r r' : ProxyResult) (b b' : Bool) (xs ys : List Action)
      → stop r b xs ≡ stop r' b' ys
      → (b ≡ b') × (r ≡ r')
  stopped_with r r' b b' xs ys e = (cc e, cc e)

  module _ (answer : ℕ → Answer) (slept : ℕ → Bool) where
    -- The loop goes on after attempt n.
    abbrev GoesOn : ℕ → Type 0
    GoesOn n =
        (is_transient decode is_chat (answer n) ≡ true)
        × ((is_server_error (answer n) ≡ true) ⊎ (slept n ≡ true))

    abbrev KeptOn : ℕ → Call → Type 0
    KeptOn attempt call = (n : ℕ) → attempt ≤ n → suc n < call.attempts → GoesOn n

    goes_on :
        (a : Answer) (woke breaks : Bool)
        → breaks ≡ not (is_server_error a)
        → breaks && not woke ≡ false
        → (is_server_error a ≡ true) ⊎ (woke ≡ true)
    goes_on a woke breaks e f = ground arith

    after_decision :
        (left attempt : ℕ) (last : Text) (done : List Action)
        → ((last' : Text) (done' : List Action)
            → KeptOn
                (suc attempt)
                (request_loop decode is_chat answer slept left (suc attempt) last' done'))
        → (d : Decision) → decide decode is_chat (ltb 0 left) (answer attempt) ≡ d
        → KeptOn attempt (request_loop decode is_chat answer slept (suc left) attempt last done)
    unfolding request_loop
    after_decision left attempt last done ih (stop result retry actions) e =
        rw (e, request_loop) (λ n from less. absurd (omega (arith, from, less)))
    after_decision left attempt last done ih (again message breaks actions) e =
        let fits = verdict_of (ltb 0 left) (answer attempt) _ e in
        elim (Bool-cases (breaks && not (slept attempt))) [
          | inl cut ↦ rw (e, cut, request_loop) (λ n from less. absurd (omega (arith, from, less)))
          | inr on ↦
              rw (e, on, request_loop)
                (λ n from less. elim (Bool-cases (ltb attempt n)) [
                  | inl later ↦ ih message (done ++ actions) n (ground (arith, later)) less
                  | inr now ↦
                      subst GoesOn (ground (arith, now, from))
                        (fits.2, goes_on (answer attempt) (slept attempt) breaks fits.5 on)
                ])
        ]

    request_loop-KeptOn :
        (left attempt : ℕ) (last : Text) (done : List Action)
        → KeptOn attempt (request_loop decode is_chat answer slept left attempt last done)
    unfolding request_loop
    request_loop-KeptOn zero attempt last done = λ n from less. absurd (omega (arith, from, less))
    request_loop-KeptOn (suc left) attempt last done =
        after_decision left attempt last done (request_loop-KeptOn left (suc attempt))
          (decide decode is_chat (ltb 0 left) (answer attempt)) refl

    execute-KeptOn :
        (cfg : SystemConfig)
        → KeptOn zero (execute_upstream_json_request decode is_chat answer slept cfg)
    unfolding execute_upstream_json_request
    execute-KeptOn cfg = request_loop-KeptOn (attempts_allowed cfg) zero [] []

    -- How a call ends whose pause after attempt m is cut short, if the next attempt fails with err:
    -- before that pause; with attempt m, which was no server error or the last one allowed; or with
    -- the failure of the next one.
    abbrev pub EndsCut : ℕ → ℕ → GoError → Call → Type 0
    EndsCut budget m err call =
        (call.attempts ≤ m)
        ⊎ ((call.attempts ≡ suc m)
            × ((is_server_error (answer m) ≡ false) ⊎ (call.attempts ≡ budget)))
        ⊎ ((call.attempts ≡ suc (suc m))
            × (is_server_error (answer m) ≡ true)
            × (call.retry ≡ false)
            × (call.result ≡ bad_gateway decode is_chat err.message))

    decision_at :
        (n : ℕ) (budget : ℕ) (call : Call)
        → Ended decode is_chat answer slept budget call
        → call.attempts ≡ suc n
        → (is_server_error (answer n) ≡ false) ⊎ (call.attempts ≡ budget)
    decision_at n budget call (stopped k before actions result retry less calm d) same =
        elim (Bool-cases (is_server_error (answer n))) [
          | inr other ↦ inl other
          | inl error ↦
              let here : answer k ≡ answer n = ap answer (omega (arith, same)) in
              let fits = verdict_of (ltb (suc k) budget) (answer k) _ d in
              let transient =
                ap (is_transient decode is_chat) here ∙ server_error_transient (answer n) error in
              inr (ground (arith, less, (fits.4 transient).0))
        ]
    decision_at n budget call (cut_short k before actions message less calm d woke) same =
        let here : answer n ≡ answer k = ap answer (omega (arith, same)) in
        let fits = verdict_of (ltb (suc k) budget) (answer k) _ d in
        let calm_answer : is_server_error (answer k) ≡ false = ground (arith, fits.5) in
        inl (ap is_server_error here ∙ calm_answer)

    failed_at :
        (n : ℕ) (err : GoError) (budget : ℕ) (call : Call)
        → Ended decode is_chat answer slept budget call
        → call.attempts ≡ suc n
        → answer n ≡ failed err
        → is_transient decode is_chat (failed err) ≡ false
        → (call.retry ≡ false) × (call.result ≡ bad_gateway decode is_chat err.message)
    failed_at n err budget call (stopped k before actions result retry less calm d) same a h =
        let here : answer k ≡ failed err = ap answer (omega (arith, same)) ∙ a in
        stopped_with _ _ _ _ _ _ (
          sym d
          ∙ (ap (decide decode is_chat (ltb (suc k) budget)) here
              ∙ stop_at_once (ltb (suc k) budget) err h))
    failed_at n err budget call (cut_short k before actions message less calm d woke) same a h =
        let here : answer k ≡ failed err = ap answer (omega (arith, same)) ∙ a in
        let fits = verdict_of (ltb (suc k) budget) (answer k) _ d in
        absurd (true≢false (sym fits.2 ∙ (ap (is_transient decode is_chat) here ∙ h)))

    Ended-EndsCut :
        (budget m : ℕ) (err : GoError) (call : Call)
        → Ended decode is_chat answer slept budget call
        → KeptOn zero call
        → slept m ≡ false
        → answer (suc m) ≡ failed err
        → is_transient decode is_chat (failed err) ≡ false
        → EndsCut budget m err call
    Ended-EndsCut budget m err call ended kept cut next fails =
        elim (Bool-cases (ltb m call.attempts)) [
          | inr before ↦ inl (ground (arith, before))
          | inl reached ↦ elim (Bool-cases (ltb (suc m) call.attempts)) [
            | inr here ↦
                let last : call.attempts ≡ suc m = ground (arith, reached, here) in
                inr (inl (last, decision_at m budget call ended last))
            | inl more ↦
                let (transient, on) = kept m (omega arith) (ground (arith, more)) in
                let error : is_server_error (answer m) ≡ true = ground (arith, on, cut) in
                elim (Bool-cases (ltb (suc (suc m)) call.attempts)) [
                  | inl further ↦
                      let (again_on, _) = kept (suc m) (omega arith) (ground (arith, further)) in
                      absurd (
                        true≢false (sym again_on ∙ (ap (is_transient decode is_chat) next ∙ fails)))
                  | inr there ↦
                      let last : call.attempts ≡ suc (suc m) = ground (arith, more, there) in
                      let end = failed_at (suc m) err budget call ended last next fails in
                      inr (inr (last, error, end.0, end.1))
                ]
          ]
        ]

    -- When the pause after attempt m of executeUpstreamJSONRequest is cut short, and the next attempt,
    -- if one is made, fails for good, as it does with the error of a cancelled request: the call makes
    -- the next attempt only if attempt m was answered with a status from 500 on and was not the last
    -- one allowed, and then ends with the error of that attempt under status 502 and asks for no
    -- other key.
    pub cut_pause_ends :
        (cfg : SystemConfig) (m : ℕ) (err : GoError)
        → slept m ≡ false
        → answer (suc m) ≡ failed err
        → is_transient decode is_chat (failed err) ≡ false
        → EndsCut
            (attempts_allowed cfg)
            m
            err
            (execute_upstream_json_request decode is_chat answer slept cfg)
    cut_pause_ends cfg m err =
        Ended-EndsCut (attempts_allowed cfg) m err _ (execute-Ended decode is_chat answer slept cfg)
          (execute-KeptOn cfg)
