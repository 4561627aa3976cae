-- ===== src/Sessions/Affinity/Lookups.antt =====
-- The key that a lookup gives, and how storing, deleting and looking up entries changes it.
use nvidia_api_gateway.Prelude.{
  true, false, Option, none, some, if◌then◌else◌, ◌≡◌, refl, sym, ap, ◌∙◌, arith, Bool-cases,
  Option-cases, inl, inr, ◌⊎◌,
}
use nvidia_api_gateway.Prelude.Int.{ℤ, ◌+ℤ◌, ◌≤ℤ◌, ltb_ℤ}
use nvidia_api_gateway.Prelude.Text.{Text, is_empty, trim_space, text_eq, text_eq_iff}
use nvidia_api_gateway.Prelude.Text.Trim.{trim_space_idem}
use nvidia_api_gateway.Prelude.Maps.{lookup, insert, delete, lookup-insert, lookup-delete}
use nvidia_api_gateway.Sessions.Affinity.{
  ConversationAffinityRecord, Store, conversation_affinity_ttl, has_expired, get, set,
}

-- The key that a lookup at this instant gives.
abbrev pub bound : Store → Text → ℤ → Option Text
bound items id now = (get items id now).1

-- What a lookup makes of an entry.
abbrev pub shown : ℤ → Option ConversationAffinityRecord → Option Text
shown now none = none
shown now (some r) =
    if has_expired r now
    then none
    else if is_empty (trim_space r.preferred_key)
    then none
    else some (trim_space r.preferred_key)

pub bound_lem :
    (items : Store) (id : Text) (now : ℤ)
    → bound items id now
      ≡ (if is_empty (trim_space id) then none else shown now (lookup (trim_space id) items))
unfolding get
bound_lem items id now = ground arith

-- The key of a binding made at `made`, at the instant `now`.
abbrev pub fresh_key : Text → ℤ → ℤ → Option Text
fresh_key key made now =
    if ltb_ℤ (made +ℤ conversation_affinity_ttl) now then none else some (trim_space key)

abbrev made_at : Text → ℤ → ConversationAffinityRecord
made_at key now = record {
  preferred_key = trim_space key;
  expires_at = some (now +ℤ conversation_affinity_ttl);
}

set_lem :
    (items : Store) (id key : Text) (now : ℤ)
    → is_empty (trim_space id) ≡ false
    → is_empty (trim_space key) ≡ false
    → set items id key now ≡ insert (trim_space id) (made_at key now) items
unfolding set
set_lem items id key now h k = rw (h, k) refl

shown_made :
    (key : Text) (now t : ℤ)
    → is_empty (trim_space key) ≡ false
    → shown t (some (made_at key now)) ≡ fresh_key key now t
shown_made key now t k = ground (arith, trim_space_idem key, k)

pub bound-set :
    (items : Store) (id key j : Text) (now t : ℤ)
    → is_empty (trim_space id) ≡ false
    → is_empty (trim_space key) ≡ false
    → bound (set items id key now) j t
      ≡ (if text_eq (trim_space id) (trim_space j) then fresh_key key now t else bound items j t)
bound-set items id key j now t h k =
    ap (λ m. bound m j t) (set_lem items id key now h k)
    ∙ (bound_lem (insert (trim_space id) (made_at key now) items) j t
        ∙ ground (
          arith,
          lookup-insert (trim_space id) (trim_space j) (made_at key now) items,
          shown_made key now t k,
          bound_lem items j t,
          text_eq_iff (trim_space id) (trim_space j),
        ))

expired_later :
    (r : ConversationAffinityRecord) (now t : ℤ)
    → now ≤ℤ t
    → has_expired r now ≡ true
    → has_expired r t ≡ true
expired_later r now t h e = ground arith

get_store :
    (items : Store) (id : Text) (now : ℤ) (r : ConversationAffinityRecord)
    → is_empty (trim_space id) ≡ false
    → lookup (trim_space id) items ≡ some r
    → (get items id now).0 ≡ (if has_expired r now then delete (trim_space id) items else items)
unfolding get
get_store items id now r h e = ground arith

get_kept :
    (items : Store) (id : Text) (now : ℤ)
    → (is_empty (trim_space id) ≡ true) ⊎ (lookup (trim_space id) items ≡ none)
    → (get items id now).0 ≡ items
unfolding get
get_kept items id now h = ground arith

shown_expired :
    (r : ConversationAffinityRecord) (t : ℤ) → has_expired r t ≡ true → shown t (some r) ≡ none
shown_expired r t h = ground arith

pub bound-delete :
    (items : Store) (id j : Text) (t : ℤ)
    → bound (delete (trim_space id) items) j t
      ≡ (if text_eq (trim_space id) (trim_space j) then none else bound items j t)
bound-delete items id j t =
    bound_lem (delete (trim_space id) items) j t
    ∙ ground (arith, lookup-delete (trim_space id) (trim_space j) items, bound_lem items j t)

expired_bound :
    (items : Store) (id j : Text) (r : ConversationAffinityRecord) (t : ℤ)
    → lookup (trim_space id) items ≡ some r
    → has_expired r t ≡ true
    → text_eq (trim_space id) (trim_space j) ≡ true
    → bound items j t ≡ none
expired_bound items id j r t s x e =
    bound_lem items j t
    ∙ ground (arith, text_eq_iff (trim_space id) (trim_space j), s, shown_expired r t x)

drop_expired :
    (items : Store) (id j : Text) (r : ConversationAffinityRecord) (t : ℤ)
    → lookup (trim_space id) items ≡ some r
    → has_expired r t ≡ true
    → bound (delete (trim_space id) items) j t ≡ bound items j t
drop_expired items id j r t s x = elim (Bool-cases (text_eq (trim_space id) (trim_space j))) [
  | inl e ↦ bound-delete items id j t ∙ rw e (sym (expired_bound items id j r t s x e))
  | inr e ↦ bound-delete items id j t ∙ rw e refl
]

pub bound-get :
    (items : Store) (id j : Text) (now t : ℤ)
    → now ≤ℤ t
    → bound (get items id now).0 j t ≡ bound items j t
bound-get items id j now t h = elim (Bool-cases (is_empty (trim_space id))) [
  | inl e ↦ ap (λ m. bound m j t) (get_kept items id now (inl e))
  | inr e ↦ elim (Option-cases (lookup (trim_space id) items)) [
    | inl n ↦ ap (λ m. bound m j t) (get_kept items id now (inr n))
    | inr (r, s) ↦ elim (Bool-cases (has_expired r now)) [
      | inl x ↦
          ap (λ m. bound m j t)
            (get_store items id now r e s
              ∙ ap (λ b. if b then delete (trim_space id) items else items) x)
          ∙ drop_expired items id j r t s (expired_later r now t h x)
      | inr x ↦ ap (λ m. bound m j t) (get_store items id now r e s ∙ ground arith)
    ]
  ]
]
