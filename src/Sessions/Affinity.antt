-- ===== src/Sessions/Affinity.antt =====
-- Which key a conversation is bound to (pkg/gateway/upstream_affinity.go and the methods of proxy.go
-- on the bindings). The program has one store, which is never nil; the mutex makes each method one
-- step. Instants are nanoseconds.
pub mod Lookups
pub mod Bindings
use nvidia_api_gateway.Prelude.{
  ℕ, zero, suc, Bool, true, false, not, ◌&&◌, ◌||◌, Option, none, some, List, [], ◌∷◌, ◌++◌,
  if◌then◌else◌,
}
use nvidia_api_gateway.Prelude.Int.{ℤ, pos, ◌+ℤ◌, ltb_ℤ}
use nvidia_api_gateway.Prelude.Text.{Text, codes, is_empty, trim_space, text_eq}
use nvidia_api_gateway.Prelude.Maps.{lookup, insert, delete}
use nvidia_api_gateway.Json.{Value, Fields, str, member_or_nil, as_object}

-- The end is none for the zero time.
pub record ConversationAffinityRecord : Type 0 where
  pub preferred_key : Text
  pub expires_at : Option ℤ

abbrev pub Store : Type 0
Store = List (Text × ConversationAffinityRecord)

-- 2 * time.Hour
abbrev pub conversation_affinity_ttl : ℤ
conversation_affinity_ttl = pos 7_200_000_000_000

abbrev pub has_expired : ConversationAffinityRecord → ℤ → Bool
has_expired r now = elim r.expires_at [ none ↦ false | some expires_at ↦ ltb_ℤ expires_at now ]

-- The second result of the method is whether there is a key.
unfoldable pub get : Store → Text → ℤ → Store × Option Text
get items id now =
    let id' = trim_space id in
    if is_empty id' then (items, none) else elim (lookup id' items) [
      | none ↦ (items, none)
      | some r ↦
          if has_expired r now
          then (delete id' items, none)
          else let key = trim_space r.preferred_key in
            (items, if is_empty key then none else some key)
    ]

unfoldable pub set : Store → Text → Text → ℤ → Store
set items id key now =
    let id' = trim_space id in
    let key' = trim_space key in
    if is_empty id' || is_empty key'
    then items
    else insert id'
        (record { preferred_key = key'; expires_at = some (now +ℤ conversation_affinity_ttl) })
        items

unfoldable pub clear : Store → Text → Text → Store
clear items id key =
    let id' = trim_space id in
    let key' = trim_space key in
    if is_empty id' then items else elim (lookup id' items) [
      | none ↦ items
      | some r ↦
          if not (is_empty key') && not (text_eq (trim_space r.preferred_key) key')
          then items
          else delete id' items
    ]

-- The instants are those of the lookup and of the new entry.
unfoldable pub refresh_conversation_key_binding : Store → Text → Text → Bool → ℤ → ℤ → Store
unfolding get set
refresh_conversation_key_binding items id key force now later =
    let id' = trim_space id in
    let key' = trim_space key in
    if is_empty id' || is_empty key'
    then items
    else if force
    then set items id' key' later
    else let found = get items id' now in
      elim found.1 [
        | none ↦ set found.0 id' key' later
        | some existing ↦
            if is_empty (trim_space existing) then set found.0 id' key' later else found.0
      ]

unfoldable pub clear_conversation_key_binding : Store → Text → Text → Store
unfolding clear
clear_conversation_key_binding items id key = clear items (trim_space id) (trim_space key)

abbrev text_of : Value → Text
text_of (str s) = trim_space s
text_of _ = []

-- `decode` is json.Unmarshal.
unfoldable pub extract_conversation_affinity_seed : (Text → Option Value) → Text → Text
unfolding as_object member_or_nil
extract_conversation_affinity_seed decode raw_body =
    if is_empty raw_body then [] else elim (as_object (decode raw_body)) [
      | none ↦ []
      | some payload ↦
          let previous = text_of (member_or_nil (codes "previous_response_id") payload) in
          let user = text_of (member_or_nil (codes "user") payload) in
          if not (is_empty previous)
          then codes "resp:" ++ previous
          else if not (is_empty user)
          then codes "user:" ++ user
          else []
    ]

-- `decimal` is the %d of fmt, and `digest` the hexadecimal form of the first 8 bytes of the SHA-1 sum.
-- The master key is given by its number, none for nil.
unfoldable pub resolve_conversation_affinity_id :
    (Text → Option Value) → (ℕ → Text) → (Text → Text) → Text → Text → Option ℕ → Text
unfolding extract_conversation_affinity_seed
resolve_conversation_affinity_id decode decimal digest header raw_body master_key =
    let value = trim_space header in
    let seed = extract_conversation_affinity_seed decode raw_body in
    let by_body = if is_empty raw_body then [] else codes "body:" ++ digest raw_body in
    if not (is_empty value)
    then codes "cid:" ++ value
    else if not (is_empty seed)
    then seed
    else elim master_key [
      | none ↦ by_body
      | some zero ↦ by_body
      | some (suc n) ↦ codes "mk:" ++ decimal (suc n)
    ]
