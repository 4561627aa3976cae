-- ===== src/Sessions/Tests.antt =====
-- Stored responses and bindings at concrete instants.
use nvidia_api_gateway.Prelude.{
  ◌≡◌, refl, true, ◌&&◌, ◌||◌, Option, none, some, List, [], ◌∷◌, if◌then◌else◌, arith,
}
use nvidia_api_gateway.Prelude.Int.{pos, ◌+ℤ◌}
use nvidia_api_gateway.Prelude.Text.{Text, codes, text_eq, trim_space, is_space}
use nvidia_api_gateway.Prelude.Maps.{lookup, insert, delete, retain}
use nvidia_api_gateway.Json.{Fields}
use nvidia_api_gateway.Sessions.Responses.{
  new_gateway_response_store, put, get, fetch, cleanup_locked,
}
use nvidia_api_gateway.Sessions.Responses.Replies.{
  Request, put_request, get_request, done, payload_reply, replies, ledger_replies,
  new_gateway_response_store-ledger,
}
use nvidia_api_gateway.Sessions.Affinity.{Store, set, refresh_conversation_key_binding}
use nvidia_api_gateway.Sessions.Affinity.Lookups.{bound, fresh_key}
use nvidia_api_gateway.Sessions.Affinity.Bindings.{is_none, refresh_conversation_key_binding-bound}

abbrev no_encoding : List Fields → Option Text
no_encoding m = none

abbrev no_decoding : Text → Option (List Fields)
no_decoding t = none

-- Two responses with an hour to live, and lookups before and after the first one's end.
abbrev requests : List Request
requests =
    put_request (codes "resp_1") (codes "one") [] (pos 0) (pos 1)
    ∷ get_request (codes "resp_1") (pos 5)
    ∷ put_request (codes "resp_2") (codes "two") [] (pos 8) (pos 8)
    ∷ get_request (codes "resp_1") (pos 12)
    ∷ get_request (codes "resp_2") (pos 12)
    ∷ []

requests_answered :
    replies no_encoding no_decoding (new_gateway_response_store (pos 10)) requests
    ≡ done
      ∷ payload_reply (some (codes "one"))
      ∷ done
      ∷ payload_reply none
      ∷ payload_reply (some (codes "two"))
      ∷ []
unfolding new_gateway_response_store put get fetch cleanup_locked lookup insert delete retain
    text_eq ◌+ℤ◌
requests_answered = refl

new_gateway_response_store-ledger_example :
    replies no_encoding no_decoding (new_gateway_response_store (pos 10)) requests
    ≡ ledger_replies no_encoding no_decoding
        (λ id. none)
        (new_gateway_response_store (pos 10)).ttl
        requests
new_gateway_response_store-ledger_example =
    new_gateway_response_store-ledger no_encoding no_decoding (pos 10) requests (ground arith)

abbrev chat : Text
chat = codes "cid:42"

abbrev bindings : Store
bindings = set [] chat (codes "key1") (pos 0)

refresh_conversation_key_binding-bound_example :
    bound
      (refresh_conversation_key_binding bindings chat (codes "key2") true (pos 3) (pos 4))
      chat
      (pos 5)
    ≡ (if text_eq (trim_space chat) (trim_space chat)
          && (true || is_none (bound bindings chat (pos 3)))
        then fresh_key (codes "key2") (pos 4) (pos 5)
        else bound bindings chat (pos 5))
unfolding trim_space is_space
refresh_conversation_key_binding-bound_example =
    refresh_conversation_key_binding-bound bindings chat (codes "key2") chat true (pos 3) (pos 4)
      (pos 5) refl refl (omega arith)
