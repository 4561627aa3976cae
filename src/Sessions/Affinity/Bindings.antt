-- ===== src/Sessions/Affinity/Bindings.antt =====
-- Which key a conversation is bound to after each operation.
use nvidia_api_gateway.Prelude.{
  Bool, true, false, not, ◌&&◌, ◌||◌, Option, none, some, if◌then◌else◌, ◌≡◌, refl, sym, ap, ◌∙◌,
  arith, Bool-cases, Option-cases, inl, inr, ◌⊎◌,
}
use nvidia_api_gateway.Prelude.Int.{ℤ, ◌≤ℤ◌}
use nvidia_api_gateway.Prelude.Text.{Text, is_empty, trim_space, text_eq, text_eq_iff}
use nvidia_api_gateway.Prelude.Text.Trim.{trim_space_idem}
use nvidia_api_gateway.Prelude.Maps.{lookup, delete}
use nvidia_api_gateway.Sessions.Affinity.{
  ConversationAffinityRecord, Store, get, set, clear, refresh_conversation_key_binding,
  clear_conversation_key_binding,
}
use nvidia_api_gateway.Sessions.Affinity.Lookups.{
  bound, shown, bound_lem, fresh_key, bound-set, bound-delete, bound-get,
}

abbrev pub is_none : Option Text → Bool
is_none none = true
is_none (some k) = false

bound_trimmed :
    (items : Store) (id : Text) (now : ℤ) → bound items (trim_space id) now ≡ bound items id now
bound_trimmed items id now =
    bound_lem items (trim_space id) now ∙ (rw (trim_space_idem id) (sym (bound_lem items id now)))

shown_nonempty :
    (o : Option ConversationAffinityRecord) (k : Text) (now : ℤ)
    → shown now o ≡ some k
    → is_empty (trim_space k) ≡ false
shown_nonempty none k now h = absurd (ground arith)
shown_nonempty (some r) k now h = ground (arith, trim_space_idem r.preferred_key)

bound_nonempty :
    (items : Store) (id k : Text) (now : ℤ)
    → is_empty (trim_space id) ≡ false
    → bound items id now ≡ some k
    → is_empty (trim_space k) ≡ false
bound_nonempty items id k now e h = shown_nonempty (lookup (trim_space id) items) k now (
    ap (λ b. if b then none else shown now (lookup (trim_space id) items)) (sym e)
    ∙ (sym (bound_lem items id now) ∙ h))

set_again :
    (items : Store) (id key j : Text) (now t : ℤ)
    → is_empty (trim_space id) ≡ false
    → is_empty (trim_space key) ≡ false
    → bound (set items (trim_space id) (trim_space key) now) j t
      ≡ (if text_eq (trim_space id) (trim_space j) then fresh_key key now t else bound items j t)
set_again items id key j now t h k =
    bound-set items (trim_space id) (trim_space key) j now t (rw (trim_space_idem id) h)
      (rw (trim_space_idem key) k)
    ∙ rw (trim_space_idem id, trim_space_idem key) refl

module _ (items : Store) (id key : Text) (now later : ℤ) (h : is_empty (trim_space id) ≡ false)
    (k : is_empty (trim_space key) ≡ false) where
  refresh_forced :
      refresh_conversation_key_binding items id key true now later
      ≡ set items (trim_space id) (trim_space key) later
  unfolding refresh_conversation_key_binding
  refresh_forced = rw (h, k) refl

  refresh_unbound :
      bound items id now ≡ none
      → refresh_conversation_key_binding items id key false now later
        ≡ set (get items (trim_space id) now).0 (trim_space id) (trim_space key) later
  unfolding refresh_conversation_key_binding
  refresh_unbound n = rw (h, k, bound_trimmed items id now ∙ n) refl

  refresh_bound :
      (e : Text)
      → bound items id now ≡ some e
      → refresh_conversation_key_binding items id key false now later
        ≡ (get items (trim_space id) now).0
  unfolding refresh_conversation_key_binding
  refresh_bound e s =
      rw (h, k, bound_trimmed items id now ∙ s, bound_nonempty items id e now h s) refl

-- After refreshConversationKeyBinding with a conversation and a key that are not blank, from the
-- instant of its lookup on: the conversation is bound to that key, for two hours, if the call was
-- forced or no binding was valid; otherwise, and for every other conversation, nothing has changed.
pub refresh_conversation_key_binding-bound :
    (items : Store) (id key j : Text) (force : Bool) (now later t : ℤ)
    → is_empty (trim_space id) ≡ false
    → is_empty (trim_space key) ≡ false
    → now ≤ℤ t
    → bound (refresh_conversation_key_binding items id key force now later) j t ≡ (
        if text_eq (trim_space id) (trim_space j) && (force || is_none (bound items id now))
        then fresh_key key later t
        else bound items j t)
refresh_conversation_key_binding-bound items id key j true now later t h k le =
    ap (λ m. bound m j t) (refresh_forced items id key now later h k)
    ∙ (set_again items id key j later t h k ∙ ground arith)
refresh_conversation_key_binding-bound items id key j false now later t h k le =
    elim (Option-cases (bound items id now)) [
      | inl n ↦
          ap (λ m. bound m j t) (refresh_unbound items id key now later h k n)
          ∙ (set_again (get items (trim_space id) now).0 id key j later t h k
              ∙ ground (arith, bound-get items (trim_space id) j now t le, n))
      | inr (e, s) ↦
          ap (λ m. bound m j t) (refresh_bound items id key now later h k e s)
          ∙ ground (arith, bound-get items (trim_space id) j now t le, s)
    ]

abbrev pub binds : Option Text → Text → Bool
binds none key = false
binds (some k) key = text_eq k (trim_space key)

binds_trimmed : (o : Option Text) (key : Text) → binds o (trim_space key) ≡ binds o key
binds_trimmed none key = refl
binds_trimmed (some k) key = ap (text_eq k) (trim_space_idem key)

module _ (items : Store) (id key j : Text) (t : ℤ) where
  abbrev cleared : Bool
  cleared =
      text_eq (trim_space id) (trim_space j)
      && (is_empty (trim_space key) || binds (bound items j t) key)

  kept : bound items j t ≡ none → bound items j t ≡ (if cleared then none else bound items j t)
  kept n = ground arith

  same_entry :
      text_eq (trim_space id) (trim_space j) ≡ true
      → bound items j t
        ≡ (if is_empty (trim_space id) then none else shown t (lookup (trim_space id) items))
  same_entry e = bound_lem items j t ∙ ground (arith, text_eq_iff (trim_space id) (trim_space j))

  unchanged :
      (text_eq (trim_space id) (trim_space j) ≡ true
        → (is_empty (trim_space key) || binds (bound items j t) key ≡ true)
        → bound items j t ≡ none)
      → bound items j t ≡ (if cleared then none else bound items j t)
  unchanged n = ground arith

  removed :
      (text_eq (trim_space id) (trim_space j) ≡ true
        → (is_empty (trim_space key) || binds (bound items j t) key ≡ false)
        → bound items j t ≡ none)
      → bound (delete (trim_space id) items) j t ≡ (if cleared then none else bound items j t)
  removed n = bound-delete items id j t ∙ ground arith

  clear_idle :
      (is_empty (trim_space id) ≡ true) ⊎ (lookup (trim_space id) items ≡ none)
      → clear items id key ≡ items
  unfolding clear
  clear_idle h = ground arith

  clear_hit :
      (r : ConversationAffinityRecord)
      → is_empty (trim_space id) ≡ false
      → lookup (trim_space id) items ≡ some r
      → clear items id key ≡ (
          if not (is_empty (trim_space key))
            && not (text_eq (trim_space r.preferred_key) (trim_space key))
          then items
          else delete (trim_space id) items)
  unfolding clear
  clear_hit r h s = ground arith

  bound-clear : bound (clear items id key) j t ≡ (if cleared then none else bound items j t)
  bound-clear = elim (Bool-cases (is_empty (trim_space id))) [
    | inl e ↦
        ap (λ m. bound m j t) (clear_idle (inl e))
        ∙ unchanged (λ same told. ground (arith, same_entry same))
    | inr e ↦ elim (Option-cases (lookup (trim_space id) items)) [
      | inl n ↦
          ap (λ m. bound m j t) (clear_idle (inr n))
          ∙ unchanged (λ same told. ground (arith, same_entry same))
      | inr (r, s) ↦
          elim (Bool-cases (
            not (is_empty (trim_space key))
            && not (text_eq (trim_space r.preferred_key) (trim_space key)))) [
              | inl other ↦
                  ap (λ m. bound m j t)
                    (clear_hit r e s
                      ∙ ap (λ b. if b then items else delete (trim_space id) items) other)
                  ∙ unchanged (λ same told. ground (arith, same_entry same))
              | inr hit ↦
                  ap (λ m. bound m j t)
                    (clear_hit r e s
                      ∙ ap (λ b. if b then items else delete (trim_space id) items) hit)
                  ∙ removed (λ same told. ground (arith, same_entry same))
            ]
    ]
  ]

-- After clearConversationKeyBinding: the conversation is not bound if the key given is blank or the
-- one that it was bound to; otherwise, and for every other conversation, nothing has changed.
pub clear_conversation_key_binding-bound :
    (items : Store) (id key j : Text) (t : ℤ)
    → bound (clear_conversation_key_binding items id key) j t ≡ (
        if text_eq (trim_space id) (trim_space j)
          && (is_empty (trim_space key) || binds (bound items j t) key)
        then none
        else bound items j t)
unfolding clear_conversation_key_binding
clear_conversation_key_binding-bound items id key j t =
    bound-clear items (trim_space id) (trim_space key) j t
    ∙ rw (trim_space_idem id, trim_space_idem key)
        (ap
          (λ b.
            if text_eq (trim_space id) (trim_space j) && (is_empty (trim_space key) || b)
            then none
            else bound items j t)
          (binds_trimmed (bound items j t) key))
