-- ===== src/Upstream/Request/Retries.antt =====
-- How a request that is tried again ends: executeUpstreamJSONRequest of pkg/gateway/proxy.go.
use nvidia_api_gateway.Prelude.{
  ℕ, zero, suc, ◌+◌, ◌≤◌, ◌<◌, ◌≡◌, refl, ap, sym, ◌∙◌, inl, inr, Bool, true, false, not, ◌&&◌,
  Option, some, List, [], ◌∷◌, ◌++◌, ltb, leb, ◌==◌, if◌then◌else◌, arith, Bool-cases,
}
use mathlib.Core.Path.{subst}
use nvidia_api_gateway.Json.{Value}
use nvidia_api_gateway.Prelude.Text.{Text}
use nvidia_api_gateway.Upstream.Request.{
  Response, Answer, failed, answered, ProxyResult, Action, mark_cooling, mark_dead, clear_binding,
  Call, no_result, Decision, stop, again, on_error, on_empty, on_status, bad_gateway,
  is_empty_answer, decide, exhausted, request_loop, relayed,
}
use nvidia_api_gateway.Upstream.Policy.{
  GoError, network_transient, classify_upstream_transport_error, classify_upstream_status_code,
}

-- How many of the actions pass a test.
abbrev pub count : (Action → Bool) → List Action → ℕ
count p [] = 0
count p (a ∷ rest) = (if p a then 1 else 0) + count p rest

abbrev pub is_clear : Action → Bool
is_clear clear_binding = true
is_clear _ = false

abbrev pub is_dead_mark : Action → Bool
is_dead_mark mark_dead = true
is_dead_mark _ = false

abbrev pub is_cooling_mark : Action → Bool
is_cooling_mark (mark_cooling t) = true
is_cooling_mark _ = false

-- Neither a mark of the key nor the end of a binding.
abbrev pub is_calm : Action → Bool
is_calm a = not (is_clear a) && not (is_dead_mark a) && not (is_cooling_mark a)

abbrev pub IsCalm : List Action → Type 0
IsCalm [] = Unit
IsCalm (a ∷ rest) = (is_calm a ≡ true) × IsCalm rest

IsCalm-append : (xs bs : List Action) → IsCalm xs → IsCalm bs → IsCalm (xs ++ bs)
IsCalm-append [] bs h k = k
IsCalm-append (a ∷ rest) bs h k = (h.0, IsCalm-append rest bs h.1 k)

pub count-clear : (xs bs : List Action) → IsCalm xs → count is_clear (xs ++ bs) ≡ count is_clear bs
count-clear [] bs h = refl
count-clear (a ∷ rest) bs h = ground (arith, count-clear rest bs)

pub count-dead :
    (xs bs : List Action) → IsCalm xs → count is_dead_mark (xs ++ bs) ≡ count is_dead_mark bs
count-dead [] bs h = refl
count-dead (a ∷ rest) bs h = ground (arith, count-dead rest bs)

pub count-cooling :
    (xs bs : List Action) → IsCalm xs → count is_cooling_mark (xs ++ bs) ≡ count is_cooling_mark bs
count-cooling [] bs h = refl
count-cooling (a ∷ rest) bs h = ground (arith, count-cooling rest bs)

pub count_calm :
    (xs : List Action)
    → IsCalm xs
    → (count is_clear xs ≡ 0) × (count is_dead_mark xs ≡ 0) × (count is_cooling_mark xs ≡ 0)
count_calm [] h = (refl, refl, refl)
count_calm (a ∷ rest) h = ground (arith, count_calm rest)

-- The statuses that mark the key.
abbrev pub rejects : Answer → Bool
rejects (failed err) = false
rejects (answered r) = if r.status_code == 401 then true else r.status_code == 403

abbrev pub limits : Answer → Bool
limits (failed err) = false
limits (answered r) = r.status_code == 429

-- A failure of the transport that is worth another attempt, an empty answer, or a server error.
unfoldable pub is_transient : (Text → Option Value) → Bool → Answer → Bool
unfolding is_empty_answer classify_upstream_status_code classify_upstream_transport_error
is_transient decode is_chat (failed err) = elim (classify_upstream_transport_error (some err)) [
  | network_transient ↦ true
  | _ ↦ false
]
is_transient decode is_chat (answered r) =
    if is_empty_answer decode is_chat r then true else leb 500 r.status_code

abbrev pub is_server_error : Answer → Bool
is_server_error (failed err) = false
is_server_error (answered r) = leb 500 r.status_code

-- A result that passes on what came: the error as status 502, or the answer as it is, which is then
-- none that calls for another attempt or for another key.
abbrev pub Relays : (Text → Option Value) → Bool → Answer → ProxyResult → Type 0
Relays decode is_chat (failed err) result =
    (is_transient decode is_chat (failed err) ≡ false)
    × (result ≡ bad_gateway decode is_chat err.message)
Relays decode is_chat (answered r) result =
    (result.status_code ≡ r.status_code)
    × (result.body ≡ relayed r.body)
    × (is_transient decode is_chat (answered r) ≡ false)
    × (rejects (answered r) ≡ false)
    × (limits (answered r) ≡ false)

module _ (decode : Text → Option Value) (is_chat : Bool) where
  -- What the answer must be for each decision, and what the decision then does.
  abbrev pub Fits : Bool → Answer → Decision → Type 0
  Fits more a (stop result retry actions) =
      (count is_clear actions ≡ (if retry then 1 else 0))
      × (count is_dead_mark actions ≡ (if rejects a then 1 else 0))
      × (count is_cooling_mark actions ≡ (if limits a then 1 else 0))
      × (retry ≡ true → result ≡ no_result)
      × ((is_transient decode is_chat a ≡ true) → (more ≡ false) × (retry ≡ true))
      × (retry ≡ false → Relays decode is_chat a result)
  Fits more a (again message breaks actions) =
      IsCalm actions
      × (more ≡ true)
      × (is_transient decode is_chat a ≡ true)
      × (rejects a ≡ false)
      × (limits a ≡ false)
      × (breaks ≡ not (is_server_error a))

  on_error-Fits :
      (more : Bool) (err : GoError) → Fits more (failed err) (on_error decode is_chat more err)
  unfolding on_error is_transient
  on_error-Fits more err = ground arith

  on_empty-Fits :
      (more : Bool) (r : Response)
      → is_empty_answer decode is_chat r ≡ true
      → Fits more (answered r) (on_empty decode is_chat more)
  unfolding on_empty is_empty_answer is_transient
  on_empty-Fits more r h = ground arith

  on_status-Fits :
      (more : Bool) (r : Response)
      → is_empty_answer decode is_chat r ≡ false
      → Fits more (answered r) (on_status decode is_chat more r)
  unfolding on_status classify_upstream_status_code is_transient
  on_status-Fits more r h = ground arith

  pub decide-Fits : (more : Bool) (a : Answer) → Fits more a (decide decode is_chat more a)
  unfolding decide
  decide-Fits more (failed err) = on_error-Fits more err
  decide-Fits more (answered r) = elim (Bool-cases (is_empty_answer decode is_chat r)) [
    | inl e ↦ rw e (on_empty-Fits more r e)
    | inr e ↦ rw e (on_status-Fits more r e)
  ]

-- A record of how a call ended: the number of its last attempt, the actions before that one, and
-- what was decided then: the end, or another attempt whose pause was cut short.
module _ (decode : Text → Option Value) (is_chat : Bool) (answer : ℕ → Answer)
    (slept : ℕ → Bool) where
  pub data Ended (budget : ℕ) : Call → Type 0 where
    stopped :
        (n : ℕ) (before actions : List Action) (result : ProxyResult) (retry : Bool)
        → n < budget
        → IsCalm before
        → decide decode is_chat (ltb (suc n) budget) (answer n) ≡ stop result retry actions
        → Ended budget (record {
          result = result;
          retry = retry;
          attempts = suc n;
          actions = before ++ actions;
        })
    cut_short :
        (n : ℕ) (before actions : List Action) (message : Text)
        → n < budget
        → IsCalm before
        → decide decode is_chat (ltb (suc n) budget) (answer n) ≡ again message true actions
        → slept n ≡ false
        → Ended budget (record {
          result = exhausted decode is_chat message;
          retry = false;
          attempts = suc n;
          actions = before ++ actions;
        })

  more_left : (left attempt : ℕ) → ltb 0 left ≡ ltb (suc attempt) (attempt + suc left)
  more_left left attempt = ground arith

  after_decision :
      (left attempt : ℕ) (last : Text) (done : List Action)
      → IsCalm done
      → ((last' : Text) (done' : List Action)
          → IsCalm done'
          → 1 ≤ left
          → Ended
              (suc attempt + left)
              (request_loop decode is_chat answer slept left (suc attempt) last' done'))
      → (d : Decision) → decide decode is_chat (ltb 0 left) (answer attempt) ≡ d
      → Ended
          (attempt + suc left)
          (request_loop decode is_chat answer slept (suc left) attempt last done)
  unfolding request_loop
  after_decision left attempt last done c ih (stop result retry actions) e =
      rw (e, request_loop)
        (stopped attempt done actions result retry (omega arith) c
          (rw (sym (more_left left attempt)) e))
  after_decision left attempt last done c ih (again message breaks actions) e =
      let fits =
        subst (Fits decode is_chat (ltb 0 left) (answer attempt)) e
          (decide-Fits decode is_chat (ltb 0 left) (answer attempt)) in
      elim (Bool-cases (breaks && not (slept attempt))) [
        | inl cut ↦
            rw (e, cut, request_loop)
              (cut_short attempt done actions message (omega arith) c
                (rw (sym (more_left left attempt))
                  (e ∙ ap (λ b. again message b actions) (ground arith)))
                (ground arith))
        | inr on ↦
            rw (e, on, request_loop)
              (subst
                (λ n. Ended n (
                  request_loop decode is_chat answer slept left (suc attempt) message
                    (done ++ actions)))
                (omega arith)
                (ih message (done ++ actions) (IsCalm-append done actions c fits.0) (ground arith)))
      ]

  pub request_loop-Ended :
      (left attempt : ℕ) (last : Text) (done : List Action)
      → IsCalm done
      → 1 ≤ left
      → Ended (attempt + left) (request_loop decode is_chat answer slept left attempt last done)
  request_loop-Ended zero attempt last done c h = absurd (omega arith)
  request_loop-Ended (suc left) attempt last done c h =
      after_decision left attempt last done c (request_loop-Ended left (suc attempt))
        (decide decode is_chat (ltb 0 left) (answer attempt)) refl
