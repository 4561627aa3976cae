-- ===== src/Upstream/Guard.antt =====
-- Whether an answer of the upstream service says anything (pkg/gateway/stream_guard.go).
pub mod Empty
use nvidia_api_gateway.Prelude.{
  Bool, true, false, not, ◌&&◌, ◌||◌, Option, none, some, if◌then◌else◌,
}
use nvidia_api_gateway.Prelude.Text.{Text, codes, text_eq, trim_space, is_empty}
use nvidia_api_gateway.Scheduler.{is_some}
use nvidia_api_gateway.Json.{
  Value, Items, Fields, null, bool, num, str, arr, obj, nil, cons, end, field, member,
  member_or_nil, as_object,
}

-- valueHasMeaningfulDelta(value, skipRoleOnly), and its loop over the entries of an object. The
-- order of the entries, which Go leaves open, cannot change the answer.
unfoldable mutual
  pub value_has_meaningful_delta : Value → Bool → Bool
  value_has_meaningful_delta null skip = false
  value_has_meaningful_delta (str s) skip = not (is_empty s)
  value_has_meaningful_delta (arr items) skip = elim items [ nil ↦ false | cons _ _ ↦ true ]
  value_has_meaningful_delta (obj fields) skip = fields_have_meaningful_delta fields skip
  value_has_meaningful_delta (bool b) skip = true
  value_has_meaningful_delta (num n) skip = true

  pub fields_have_meaningful_delta : Fields → Bool → Bool
  fields_have_meaningful_delta end skip = false
  fields_have_meaningful_delta (field key child fields) skip =
      not (skip && text_eq key (codes "role")) && value_has_meaningful_delta child false
      || fields_have_meaningful_delta fields skip

-- The loop over the choices: one that is no object is passed over.
unfoldable pub any_choice_means : Items → Bool
unfolding member_or_nil value_has_meaningful_delta fields_have_meaningful_delta
any_choice_means nil = false
any_choice_means (cons (obj choice) items) =
    value_has_meaningful_delta (member_or_nil (codes "message") choice) true
    || any_choice_means items
any_choice_means (cons _ items) = any_choice_means items

-- isOpenAIChatCompletionEmpty after json.Unmarshal.
unfoldable pub is_payload_empty : Option Fields → Bool
unfolding any_choice_means member member_or_nil
is_payload_empty none = false
is_payload_empty (some payload) =
    if is_some (member (codes "error") payload)
    then false
    else elim (member_or_nil (codes "choices") payload) [
      | arr nil ↦ true
      | arr (cons v vs) ↦ not (any_choice_means (cons v vs))
      | _ ↦ true
    ]

-- The decoder answers none for a text that is not JSON.
unfoldable pub is_open_ai_chat_completion_empty : (Text → Option Value) → Text → Bool
unfolding is_payload_empty as_object
is_open_ai_chat_completion_empty decode body =
    if is_empty (trim_space body) then true else is_payload_empty (as_object (decode body))
