-- ===== src/Sessions/Responses/Replies.antt =====
-- What callers of the response store see: the latest entry for an identifier until it expires.
use nvidia_api_gateway.Prelude.{
  Bool, true, false, ◌||◌, Option, none, some, List, [], ◌∷◌, if◌then◌else◌, ◌≡◌, refl, ap, ◌∙◌,
  arith, Bool-cases, Option-cases, inl, inr,
}
use nvidia_api_gateway.Prelude.Int.{ℤ, pos, ◌+ℤ◌, ◌≤ℤ◌}
use nvidia_api_gateway.Prelude.Text.{Text, is_empty, text_eq}
use nvidia_api_gateway.Prelude.Maps.{
  lookup, Distinct, passing, lookup-insert, lookup-retain, insert-Distinct, retain-Distinct,
}
use nvidia_api_gateway.Json.{Fields}
use nvidia_api_gateway.Sessions.Responses.{
  StoredGatewayResponse, GatewayResponseStore, is_live, cleanup_locked, fetch, get, conversation,
  put, clone_stored_conversation, new_gateway_response_store,
}

-- A call of a method, with the readings of the clock.
pub data Request : Type 0 where
  put_request : Text → Text → List Fields → ℤ → ℤ → Request
  get_request : Text → ℤ → Request
  conversation_request : Text → ℤ → Request

pub data Reply : Type 0 where
  done : Reply
  payload_reply : Option Text → Reply
  conversation_reply : Option (List Fields) → Reply

abbrev at : Request → ℤ
at (put_request id payload messages now later) = now
at (get_request id now) = now
at (conversation_request id now) = now

abbrev ends : Request → ℤ
ends (put_request id payload messages now later) = later
ends (get_request id now) = now
ends (conversation_request id now) = now

-- The clock does not run backwards.
abbrev pub InOrder : ℤ → List Request → Type 0
InOrder t [] = Unit
InOrder t (r ∷ rest) = (t ≤ℤ at r) × (at r ≤ℤ ends r) × InOrder (ends r) rest

module _ (encode : List Fields → Option Text) (decode : Text → Option (List Fields)) where
  abbrev handle : GatewayResponseStore → Request → GatewayResponseStore × Reply
  handle s (put_request id payload messages now later) =
      (put encode decode s id payload messages now later, done)
  handle s (get_request id now) = let r = get s id now in (r.0, payload_reply r.1)
  handle s (conversation_request id now) =
      let r = conversation encode decode s id now in (r.0, conversation_reply r.1)

  -- The replies to a run of requests.
  abbrev pub replies : GatewayResponseStore → List Request → List Reply
  replies s [] = []
  replies s (r ∷ rest) = let h = handle s r in h.1 ∷ replies h.0 rest

  -- The store that the callers see: nothing is ever deleted, and a lookup asks for the time.
  abbrev Ledger : Type 0
  Ledger = Text → Option StoredGatewayResponse

  abbrev seen : Ledger → Text → ℤ → Option StoredGatewayResponse
  seen ledger id now = if is_empty id then none else passing (is_live now) (ledger id)

  abbrev record_put : Ledger → ℤ → Request → Ledger
  record_put ledger ttl (put_request id payload messages now later) =
      if is_empty id || is_empty payload then ledger else λ j.
      if text_eq id j
      then some (record {
        payload = payload;
        conversation = clone_stored_conversation encode decode messages;
        expires_at = later +ℤ ttl;
      })
      else ledger j
  record_put ledger ttl _ = ledger

  abbrev answer : Ledger → Request → Reply
  answer ledger (put_request id payload messages now later) = done
  answer ledger (get_request id now) =
      payload_reply (elim (seen ledger id now) [ none ↦ none | some item ↦ some item.payload ])
  answer ledger (conversation_request id now) = conversation_reply (elim (seen ledger id now) [
    | none ↦ none
    | some item ↦ some (clone_stored_conversation encode decode item.conversation)
  ])

  abbrev pub ledger_replies : Ledger → ℤ → List Request → List Reply
  ledger_replies ledger ttl [] = []
  ledger_replies ledger ttl (r ∷ rest) =
      answer ledger r ∷ ledger_replies (record_put ledger ttl r) ttl rest

  -- From t on, the store and the ledger show the same entries.
  record Agrees (t : ℤ) (s : GatewayResponseStore) (ledger : Ledger) : Type 0 where
    distinct : Distinct s.items
    same :
        (id : Text) (now : ℤ)
        → t ≤ℤ now
        → passing (is_live now) (lookup id s.items) ≡ passing (is_live now) (ledger id)

  live_twice :
      (t now : ℤ) (o : Option StoredGatewayResponse)
      → t ≤ℤ now
      → passing (is_live now) (passing (is_live t) o) ≡ passing (is_live now) o
  live_twice t now none h = refl
  live_twice t now (some item) h = ground arith

  cleanup-Agrees :
      (t now : ℤ) (s : GatewayResponseStore) (ledger : Ledger)
      → t ≤ℤ now
      → Agrees t s ledger
      → Agrees now (cleanup_locked s now) ledger
  unfolding cleanup_locked
  cleanup-Agrees t now s ledger h a = record {
    distinct = retain-Distinct (is_live now) s.items a.distinct;
    same = λ id later le.
        ap (passing (is_live later)) (lookup-retain (is_live now) id s.items a.distinct)
        ∙ (live_twice now later (lookup id s.items) le ∙ a.same id later (omega (arith, h, le)));
  }

  -- After the cleanup the lookup finds only what has not expired.
  fetch_lem :
      (s : GatewayResponseStore) (id : Text) (now : ℤ)
      → Distinct s.items
      → fetch s id now ≡ (
          if is_empty id
          then (s, none)
          else (cleanup_locked s now, passing (is_live now) (lookup id s.items)))
  unfolding fetch cleanup_locked
  fetch_lem s id now d = elim (Option-cases (lookup id s.items)) [
    | inl e ↦ rw (lookup-retain (is_live now) id s.items d, e) refl
    | inr (item, e) ↦ elim (Bool-cases (is_live now item)) [
      | inl l ↦ rw (lookup-retain (is_live now) id s.items d, e, l, l) refl
      | inr l ↦ rw (lookup-retain (is_live now) id s.items d, e, l) refl
    ]
  ]

  fetch-seen :
      (t now : ℤ) (s : GatewayResponseStore) (ledger : Ledger) (id : Text)
      → t ≤ℤ now
      → Agrees t s ledger
      → (fetch s id now).1 ≡ seen ledger id now
  fetch-seen t now s ledger id h a = elim (Bool-cases (is_empty id)) [
    | inl e ↦ rw (fetch_lem s id now a.distinct, e) refl
    | inr e ↦ rw (fetch_lem s id now a.distinct, e) (a.same id now h)
  ]

  fetch-Agrees :
      (t now : ℤ) (s : GatewayResponseStore) (ledger : Ledger) (id : Text)
      → t ≤ℤ now
      → Agrees t s ledger
      → Agrees now (fetch s id now).0 ledger
  fetch-Agrees t now s ledger id h a = elim (Bool-cases (is_empty id)) [
    | inl e ↦
        rw (fetch_lem s id now a.distinct, e)
          (record {
            distinct = a.distinct;
            same = λ j later le. a.same j later (omega (arith, h, le));
          })
    | inr e ↦ rw (fetch_lem s id now a.distinct, e) (cleanup-Agrees t now s ledger h a)
  ]

  passing_if :
      (p : StoredGatewayResponse → Bool) (b : Bool) (v : StoredGatewayResponse)
      (o : Option StoredGatewayResponse) (l : Option StoredGatewayResponse)
      → passing p o ≡ passing p l
      → passing p (if b then some v else o) ≡ passing p (if b then some v else l)
  passing_if p true v o l h = refl
  passing_if p false v o l h = h

  put-Agrees :
      (t now later : ℤ) (s : GatewayResponseStore) (ledger : Ledger) (id payload : Text)
      (messages : List Fields)
      → t ≤ℤ now
      → now ≤ℤ later
      → Agrees t s ledger
      → Agrees later
          (put encode decode s id payload messages now later)
          (record_put ledger s.ttl (put_request id payload messages now later))
  unfolding put
  put-Agrees t now later s ledger id payload messages h k a =
      elim (Bool-cases (is_empty id || is_empty payload)) [
        | inl e ↦ rw e (record {
          distinct = a.distinct;
          same = λ j at le. a.same j at (omega (arith, h, k, le));
        })
        | inr e ↦
            let clean = cleanup-Agrees t now s ledger h a in
            rw e (record {
              distinct = insert-Distinct id _ (cleanup_locked s now).items clean.distinct;
              same = λ j at le.
                  ap (passing (is_live at)) (lookup-insert id j _ (cleanup_locked s now).items)
                  ∙ passing_if (is_live at) (text_eq id j) _ (lookup j (cleanup_locked s now).items)
                      (ledger j) (clean.same j at (omega (arith, k, le)));
            })
      ]

  handle-ttl : (s : GatewayResponseStore) (r : Request) → (handle s r).0.ttl ≡ s.ttl
  unfolding put get conversation fetch cleanup_locked
  handle-ttl s (put_request id payload messages now later) = ground arith
  handle-ttl s (get_request id now) = ground arith
  handle-ttl s (conversation_request id now) = ground arith

  handle-Agrees :
      (t : ℤ) (s : GatewayResponseStore) (ledger : Ledger) (r : Request)
      → t ≤ℤ at r
      → at r ≤ℤ ends r
      → Agrees t s ledger
      → Agrees (ends r) (handle s r).0 (record_put ledger s.ttl r)
  unfolding get conversation
  handle-Agrees t s ledger (put_request id payload messages now later) h k a =
      put-Agrees t now later s ledger id payload messages h k a
  handle-Agrees t s ledger (get_request id now) h k a = fetch-Agrees t now s ledger id h a
  handle-Agrees t s ledger (conversation_request id now) h k a = fetch-Agrees t now s ledger id h a

  handle-answer :
      (t : ℤ) (s : GatewayResponseStore) (ledger : Ledger) (r : Request)
      → t ≤ℤ at r
      → Agrees t s ledger
      → (handle s r).1 ≡ answer ledger r
  unfolding get conversation
  handle-answer t s ledger (put_request id payload messages now later) h a = refl
  handle-answer t s ledger (get_request id now) h a =
      ap (λ found. payload_reply (elim found [ none ↦ none | some item ↦ some item.payload ]))
        (fetch-seen t now s ledger id h a)
  handle-answer t s ledger (conversation_request id now) h a =
      ap
        (λ found. conversation_reply (elim found [
          | none ↦ none
          | some item ↦ some (clone_stored_conversation encode decode item.conversation)
        ]))
        (fetch-seen t now s ledger id h a)

  replies_agree :
      (t : ℤ) (s : GatewayResponseStore) (ledger : Ledger) (requests : List Request)
      → InOrder t requests
      → Agrees t s ledger
      → replies s requests ≡ ledger_replies ledger s.ttl requests
  replies_agree t s ledger [] o a = refl
  replies_agree t s ledger (r ∷ rest) o a =
      let next = handle s r in
      let tail =
        replies_agree (ends r) next.0 (record_put ledger s.ttl r) rest o.2
          (handle-Agrees t s ledger r o.0 o.1 a) in
      λ i.
        handle-answer t s ledger r o.0 a i
        ∷ (tail ∙ ap (λ ttl. ledger_replies (record_put ledger s.ttl r) ttl rest) (handle-ttl s r))
            i

  -- The new response store answers every run of requests in the order of time as a store does that
  -- never deletes: a lookup gives the latest entry put under the identifier, unless this expired.
  pub new_gateway_response_store-ledger :
      (ttl : ℤ) (requests : List Request)
      → InOrder (pos 0) requests
      → replies (new_gateway_response_store ttl) requests
        ≡ ledger_replies (λ id. none) (new_gateway_response_store ttl).ttl requests
  unfolding new_gateway_response_store lookup
  new_gateway_response_store-ledger ttl requests o =
      replies_agree (pos 0) (new_gateway_response_store ttl) (λ id. none) requests o
        (record { distinct = tt; same = λ id now h. refl })
