-- ===== src/Upstream/Guard/Empty.antt =====
-- When an answer counts as empty, said without the code's loops.
use nvidia_api_gateway.Prelude.{
  Bool, true, false, not, ◌&&◌, Option, none, some, Bool-cases, sym, ap, ◌∙◌, ◌≡◌, ◌⊎◌, ◌↔◌, inl,
  inr, refl, arith,
}
use nvidia_api_gateway.Prelude.Text.{Text, codes, text_eq, trim_space, is_empty}
use nvidia_api_gateway.Scheduler.{is_some}
use nvidia_api_gateway.Json.{
  Value, Items, Fields, null, bool, num, str, arr, obj, nil, cons, end, field, member,
  member_or_nil, as_object,
}
use nvidia_api_gateway.Upstream.Guard.{
  value_has_meaningful_delta, fields_have_meaningful_delta, any_choice_means, is_payload_empty,
  is_open_ai_chat_completion_empty,
}

-- A value that says something: a number, a Boolean, a text that is not empty, a list that is not
-- empty, or an object with such an entry, that of the role not counted if `skip`.
mutual
  pub data Means : Bool → Value → Type 0 where
    bool_means : (skip b : Bool) → Means skip (bool b)
    num_means : (skip : Bool) (n : Text) → Means skip (num n)
    str_means : (skip : Bool) (s : Text) → is_empty s ≡ false → Means skip (str s)
    arr_means : (skip : Bool) (v : Value) (vs : Items) → Means skip (arr (cons v vs))
    obj_means : (skip : Bool) (fs : Fields) → EntryMeans skip fs → Means skip (obj fs)

  pub data EntryMeans : Bool → Fields → Type 0 where
    first :
        (skip : Bool) (k : Text) (v : Value) (fs : Fields)
        → (skip && text_eq k (codes "role")) ≡ false
        → Means false v
        → EntryMeans skip (field k v fs)
    later :
        (skip : Bool) (k : Text) (v : Value) (fs : Fields)
        → EntryMeans skip fs
        → EntryMeans skip (field k v fs)

-- What a derivation says at each form of a value.
abbrev Content : Bool → Value → Type 0
Content skip null = ⊥
Content skip (bool b) = Unit
Content skip (num n) = Unit
Content skip (str s) = is_empty s ≡ false
Content skip (arr nil) = ⊥
Content skip (arr (cons v vs)) = Unit
Content skip (obj fs) = EntryMeans skip fs

content : {skip : Bool} {v : Value} → Means skip v → Content skip v
content (bool_means skip b) = tt
content (num_means skip n) = tt
content (str_means skip s h) = h
content (arr_means skip v vs) = tt
content (obj_means skip fs e) = e

abbrev EntryContent : Bool → Fields → Type 0
EntryContent skip end = ⊥
EntryContent skip (field k v fs) =
    (((skip && text_eq k (codes "role")) ≡ false) × Means false v) ⊎ EntryMeans skip fs

entry_content : {skip : Bool} {fs : Fields} → EntryMeans skip fs → EntryContent skip fs
entry_content (first skip k v fs h m) = inl (h, m)
entry_content (later skip k v fs e) = inr e

mutual
  unfolding value_has_meaningful_delta fields_have_meaningful_delta

  meaningful : (v : Value) (skip : Bool) → value_has_meaningful_delta v skip ≡ true → Means skip v
  meaningful null skip h = absurd (ground arith)
  meaningful (str s) skip h = str_means skip s (ground arith)
  meaningful (arr nil) skip h = absurd (ground arith)
  meaningful (arr (cons v vs)) skip h = arr_means skip v vs
  meaningful (obj fs) skip h = obj_means skip fs (entry_of_true fs skip h)
  meaningful (bool b) skip h = bool_means skip b
  meaningful (num n) skip h = num_means skip n

  entry_of_true :
      (fs : Fields) (skip : Bool) → fields_have_meaningful_delta fs skip ≡ true → EntryMeans skip fs
  entry_of_true end skip h = absurd (ground arith)
  entry_of_true (field k v fs) skip h =
      elim (Bool-cases
        (not (skip && text_eq k (codes "role")) && value_has_meaningful_delta v false)) [
          | inl hit ↦ first skip k v fs (ground arith) (meaningful v false (ground arith))
          | inr miss ↦ later skip k v fs (entry_of_true fs skip (ground arith))
        ]

mutual
  unfolding value_has_meaningful_delta

  delta_true : (v : Value) (skip : Bool) → Means skip v → value_has_meaningful_delta v skip ≡ true
  delta_true null skip m = absurd (content m)
  delta_true (str s) skip m = ground (arith, content m)
  delta_true (arr nil) skip m = absurd (content m)
  delta_true (arr (cons v vs)) skip m = refl
  delta_true (obj fs) skip m = true_of_entry fs skip (content m)
  delta_true (bool b) skip m = refl
  delta_true (num n) skip m = refl

  true_of_entry :
      (fs : Fields) (skip : Bool) → EntryMeans skip fs → fields_have_meaningful_delta fs skip ≡ true
  true_of_entry end skip e = absurd (entry_content e)
  true_of_entry (field k v fs) skip e = elim (entry_content e) [
    | inl (role, m) ↦ ground (arith, delta_true v false m)
    | inr rest ↦ ground (arith, true_of_entry fs skip rest)
  ]

-- Some choice is an object whose message says something besides its role.
pub data ChoiceMeans : Items → Type 0 where
  this :
      (choice : Fields) (items : Items)
      → Means true (member_or_nil (codes "message") choice)
      → ChoiceMeans (cons (obj choice) items)
  other : (v : Value) (items : Items) → ChoiceMeans items → ChoiceMeans (cons v items)

choice_of_true : (items : Items) → any_choice_means items ≡ true → ChoiceMeans items
unfolding any_choice_means
choice_of_true nil h = cc
choice_of_true (cons (obj choice) items) h =
    elim (Bool-cases (value_has_meaningful_delta (member_or_nil (codes "message") choice) true)) [
      | inl says ↦ this choice items (meaningful (member_or_nil (codes "message") choice) true says)
      | inr silent ↦ other (obj choice) items (choice_of_true items (ground arith))
    ]
choice_of_true (cons v items) h = other v items (choice_of_true items h)

-- What a decoded answer must be to count as not empty: no object at all, an object with an error, or
-- one with a choice that says something.
pub data Says : Option Fields → Type 0 where
  opaque : Says none
  failed : (p : Fields) → is_some (member (codes "error") p) ≡ true → Says (some p)
  chosen :
      (p : Fields) (items : Items)
      → member_or_nil (codes "choices") p ≡ arr items
      → ChoiceMeans items
      → Says (some p)

choice_content : {items : Items} → ChoiceMeans items → any_choice_means items ≡ true
unfolding any_choice_means
choice_content (this choice items m) =
    ground (arith, delta_true (member_or_nil (codes "message") choice) true m)
choice_content (other (obj choice) items c) = ground (arith, choice_content c)
choice_content (other v items c) = ground (arith, choice_content c)

choices_empty : Value → Bool
choices_empty (arr nil) = true
choices_empty (arr (cons v vs)) = not (any_choice_means (cons v vs))
choices_empty v = true

choices_say :
    (p : Fields) (v : Value)
    → member_or_nil (codes "choices") p ≡ v
    → choices_empty v ≡ false
    → Says (some p)
unfolding choices_empty
choices_say p (arr nil) e h = absurd (ground arith)
choices_say p (arr (cons v vs)) e h =
    chosen p (cons v vs) e (choice_of_true (cons v vs) (ground arith))
choices_say p null e h = absurd (ground arith)
choices_say p (bool b) e h = absurd (ground arith)
choices_say p (num b) e h = absurd (ground arith)
choices_say p (str b) e h = absurd (ground arith)
choices_say p (obj b) e h = absurd (ground arith)

payload_choices :
    (p : Fields)
    → is_some (member (codes "error") p) ≡ false
    → is_payload_empty (some p) ≡ choices_empty (member_or_nil (codes "choices") p)
unfolding is_payload_empty choices_empty
payload_choices p h = rw h

payload_content : (p : Option Fields) → is_payload_empty p ≡ false → Says p
payload_content none h = opaque
payload_content (some p) h = elim (Bool-cases (is_some (member (codes "error") p))) [
  | inl e ↦ failed p e
  | inr e ↦ choices_say p _ refl (sym (payload_choices p e) ∙ h)
]

choices_of_means : (items : Items) → ChoiceMeans items → choices_empty (arr items) ≡ false
unfolding choices_empty
choices_of_means nil c = elim c [ ]
choices_of_means (cons v vs) c = ground (arith, choice_content c)

payload_full : {p : Option Fields} → Says p → is_payload_empty p ≡ false
unfolding is_payload_empty
payload_full opaque = refl
payload_full (failed p e) = ground arith
payload_full (chosen p items e c) = elim (Bool-cases (is_some (member (codes "error") p))) [
  | inl h ↦ ground arith
  | inr h ↦ payload_choices p h ∙ (ap choices_empty e ∙ choices_of_means items c)
]

-- An answer of the upstream service does not count as empty exactly when its text is not blank and
-- it decodes to no JSON object, where null counts as an object without members, or to an object with
-- an error, or to one with a choice whose message says something besides its role.
pub is_open_ai_chat_completion_empty_iff :
    (decode : Text → Option Value) (body : Text)
    → (is_open_ai_chat_completion_empty decode body ≡ false)
      ↔ ((is_empty (trim_space body) ≡ false) × Says (as_object (decode body)))
unfolding is_open_ai_chat_completion_empty
is_open_ai_chat_completion_empty_iff decode body = (
  λ h. (ground arith, payload_content (as_object (decode body)) (ground arith)),
  λ h. ground (arith, payload_full h.1),
)
