-- ===== src/Sessions/Responses.antt =====
-- The store of responses that later requests refer to (pkg/gateway/responses_store.go). Instants are
-- nanoseconds; the receiver is never nil, since the program has one store. The mutex makes each
-- method one step.
pub mod Replies
use nvidia_api_gateway.Prelude.{
  Bool, true, false, not, ◌||◌, Option, none, some, List, [], ◌∷◌, if◌then◌else◌,
}
use nvidia_api_gateway.Prelude.Int.{ℤ, pos, ◌+ℤ◌, ltb_ℤ, leb_ℤ}
use nvidia_api_gateway.Prelude.Text.{Text, is_empty}
use nvidia_api_gateway.Prelude.Maps.{lookup, insert, delete, retain}
use nvidia_api_gateway.Json.{Fields}

pub record StoredGatewayResponse : Type 0 where
  pub payload : Text
  pub conversation : List Fields
  pub expires_at : ℤ

pub record GatewayResponseStore : Type 0 where
  pub items : List (Text × StoredGatewayResponse)
  pub ttl : ℤ

-- 30 * time.Minute
abbrev pub half_an_hour : ℤ
half_an_hour = pos 1_800_000_000_000

unfoldable pub new_gateway_response_store : ℤ → GatewayResponseStore
new_gateway_response_store ttl = record {
  items = [];
  ttl = if leb_ℤ ttl (pos 0) then half_an_hour else ttl;
}

-- item.expiresAt.Before(now), negated
abbrev pub is_live : ℤ → StoredGatewayResponse → Bool
is_live now item = not (ltb_ℤ item.expires_at now)

unfoldable pub cleanup_locked : GatewayResponseStore → ℤ → GatewayResponseStore
unfolding retain
cleanup_locked s now = record s { items = retain (is_live now) s.items }

-- The lookup that get and conversation share, after the cleanup: the entry, and the store without an
-- entry that is no longer valid.
unfoldable pub fetch :
    GatewayResponseStore → Text → ℤ → GatewayResponseStore × Option StoredGatewayResponse
unfolding cleanup_locked
fetch s id now =
    if is_empty id
    then (s, none)
    else let s' = cleanup_locked s now in
      elim (lookup id s'.items) [
        | none ↦ (s', none)
        | some item ↦
            if is_live now item
            then (s', some item)
            else (record s' { items = delete id s'.items }, none)
      ]

unfoldable pub get : GatewayResponseStore → Text → ℤ → GatewayResponseStore × Option Text
unfolding fetch
get s id now =
    let r = fetch s id now in (r.0, elim r.1 [ none ↦ none | some item ↦ some item.payload ])

-- json.Marshal and json.Unmarshal on a conversation.
module _ (encode : List Fields → Option Text) (decode : Text → Option (List Fields)) where
  -- The copy entry by entry, if the encoding fails, is the conversation as it stands.
  unfoldable pub clone_stored_conversation : List Fields → List Fields
  clone_stored_conversation [] = []
  clone_stored_conversation (m ∷ ms) = elim (encode (m ∷ ms)) [
    | none ↦ m ∷ ms
    | some encoded ↦ elim (decode encoded) [ none ↦ m ∷ ms | some cloned ↦ cloned ]
  ]

  unfoldable pub conversation :
      GatewayResponseStore → Text → ℤ → GatewayResponseStore × Option (List Fields)
  unfolding fetch clone_stored_conversation
  conversation s id now =
      let r = fetch s id now in
      (
        r.0,
        elim r.1 [ none ↦ none | some item ↦ some (clone_stored_conversation item.conversation) ],
      )

  -- The clock is read for the cleanup, and `later` for the end of the new entry.
  unfoldable pub put :
      GatewayResponseStore → Text → Text → List Fields → ℤ → ℤ → GatewayResponseStore
  unfolding cleanup_locked clone_stored_conversation
  put s id payload messages now later =
      if is_empty id || is_empty payload
      then s
      else let s' = cleanup_locked s now in
        record s' {
          items =
              insert id
                (record {
                  payload = payload;
                  conversation = clone_stored_conversation messages;
                  expires_at = later +ℤ s.ttl;
                })
                s'.items;
        }
