-- ===== src/KeyStore/Loading.antt =====
-- What the scheduler has after the keys are loaded.
use nvidia_api_gateway.Prelude.{
  Bool, true, false, ◌&&◌, ◌||◌, Option, none, some, List, [], ◌∷◌, ◌++◌, any, ◌≡◌, refl, sym, ap,
  ◌∙◌, arith, Bool-cases, Option-cases, inl, inr,
}
use mathlib.Core.Path.{subst}
use nvidia_api_gateway.Prelude.Int.{ℤ, pos}
use nvidia_api_gateway.Prelude.Text.{Text, text_eq, text_eq_iff, trim_space, is_empty}
use nvidia_api_gateway.Scheduler.{LocalKey, Scheduler, reweigh, add_key, reset, has_key}
use nvidia_api_gateway.KeyStore.{ApiKey, decrypt_api_key, is_loaded, load_loop, load_active_keys}

has_key-append :
    (t : Text) (xs : List LocalKey) (y : LocalKey)
    → has_key t (xs ++ y ∷ []) ≡ has_key t xs || text_eq y.key t
unfolding has_key
has_key-append t [] y = ground arith
has_key-append t (x ∷ xs) y = ground (arith, has_key-append t xs y)

-- Reweighing finds the key if it is there, and changes no key.
abbrev Reweighed : Text → Text → List LocalKey → Option (List LocalKey) → Type 0
Reweighed t key before none = has_key key before ≡ false
Reweighed t key before (some items) =
    (has_key t items ≡ has_key t before) × (has_key key before ≡ true)

reweigh-Reweighed :
    (t key : Text) (weight : ℤ) (xs : List LocalKey) → Reweighed t key xs (reweigh key weight xs)
unfolding reweigh has_key
reweigh-Reweighed t key weight [] = refl
reweigh-Reweighed t key weight (x ∷ xs) = ground (arith, reweigh-Reweighed t key weight xs)

has_key-add_key :
    (t key : Text) (weight : ℤ) (s : Scheduler)
    → has_key t (add_key s key weight).active ≡ text_eq key t || has_key t s.active
unfolding add_key
has_key-add_key t key weight s = ground (
  arith,
  reweigh-Reweighed t key weight s.active,
  has_key-append t s.active (record { key = key; weight = weight; current_weight = pos 0 }),
  text_eq_iff key t,
)

-- A key that is to be loaded and decrypts to this text.
abbrev pub gives : (Text → Option Text) → Text → ApiKey → Bool
gives decrypt t k =
    is_loaded k && elim (decrypt k.key) [ none ↦ false | some plaintext ↦ text_eq plaintext t ]

-- Nothing but the active list differs from a new scheduler.
abbrev pub IsClean : Scheduler → Type 0
IsClean s = (s.cooling ≡ []) × (s.dead ≡ []) × (s.concurrency ≡ [])

module _ (decrypt : Text → Option Text) where
  module _ (k : ApiKey) (ks : List ApiKey) (s : Scheduler) where
    load_skips : is_loaded k ≡ false → load_loop decrypt (k ∷ ks) s ≡ load_loop decrypt ks s
    unfolding load_loop
    load_skips l = rw l refl

    load_fails :
        is_loaded k ≡ true
        → decrypt k.key ≡ none
        → load_loop decrypt (k ∷ ks) s ≡ (s, some (decrypt_api_key k.id))
    unfolding load_loop
    load_fails l d = rw (l, d) refl

    load_adds :
        (p : Text)
        → is_loaded k ≡ true
        → decrypt k.key ≡ some p
        → load_loop decrypt (k ∷ ks) s ≡ load_loop decrypt ks (add_key s p k.weight)
    unfolding load_loop
    load_adds p l d = rw (l, d) refl

  gives_not : (t : Text) (k : ApiKey) → is_loaded k ≡ false → gives decrypt t k ≡ false
  gives_not t k l = ground arith

  gives_text :
      (t p : Text) (k : ApiKey)
      → is_loaded k ≡ true
      → decrypt k.key ≡ some p
      → gives decrypt t k ≡ text_eq p t
  gives_text t p k l d = rw (l, d) refl

  load_loop-has_key :
      (keys : List ApiKey) (s : Scheduler) (t : Text)
      → (load_loop decrypt keys s).1 ≡ none
      → has_key t (load_loop decrypt keys s).0.active
        ≡ has_key t s.active || any (gives decrypt t) keys
  unfolding load_loop
  load_loop-has_key [] s t h = ground arith
  load_loop-has_key (k ∷ ks) s t h = elim (Bool-cases (is_loaded k)) [
    | inr l ↦
        let same = load_skips k ks s l in
        ap (λ r. has_key t r.0.active) same
        ∙ (load_loop-has_key ks s t (sym (ap (λ r. r.1) same) ∙ h)
            ∙ ground (arith, gives_not t k l))
    | inl l ↦ elim (Option-cases (decrypt k.key)) [
      | inl d ↦ absurd (ground (arith, sym (ap (λ r. r.1) (load_fails k ks s l d)) ∙ h))
      | inr (p, d) ↦
          let same = load_adds k ks s p l d in
          ap (λ r. has_key t r.0.active) same
          ∙ (load_loop-has_key ks (add_key s p k.weight) t (sym (ap (λ r. r.1) same) ∙ h)
              ∙ ground (arith, has_key-add_key t p k.weight s, gives_text t p k l d))
    ]
  ]

  add_key-IsClean :
      (s : Scheduler) (key : Text) (weight : ℤ) → IsClean s → IsClean (add_key s key weight)
  unfolding add_key
  add_key-IsClean s key weight c = ground arith

  load_loop-IsClean :
      (keys : List ApiKey) (s : Scheduler) → IsClean s → IsClean (load_loop decrypt keys s).0
  unfolding load_loop
  load_loop-IsClean [] s c = c
  load_loop-IsClean (k ∷ ks) s c = elim (Bool-cases (is_loaded k)) [
    | inr l ↦ subst (λ r. IsClean r.0) (sym (load_skips k ks s l)) (load_loop-IsClean ks s c)
    | inl l ↦ elim (Option-cases (decrypt k.key)) [
      | inl d ↦ subst (λ r. IsClean r.0) (sym (load_fails k ks s l d)) c
      | inr (p, d) ↦
          subst (λ r. IsClean r.0) (sym (load_adds k ks s p l d))
            (load_loop-IsClean ks (add_key s p k.weight) (add_key-IsClean s p k.weight c))
    ]
  ]

  -- LoadActiveKeys with a root key on a store that it can read and a runtime that it can rebuild,
  -- whatever the scheduler had before: afterwards nothing is cooling, dead or counted as in use, even
  -- if the loading fails midway and while requests hold keys; and if it succeeds, a key is registered
  -- exactly if it is the plain text of an active key of the store that is not for probes only.
  pub load_active_keys_lem :
      (root_key : Text) (keys : List ApiKey) (s : Scheduler)
      → is_empty (trim_space root_key) ≡ false
      → let result = load_active_keys decrypt root_key (some keys) true s in
        IsClean result.0
        × (result.1 ≡ none → (t : Text) → has_key t result.0.active ≡ any (gives decrypt t) keys)
  unfolding load_active_keys reset has_key
  load_active_keys_lem root_key keys s r = rw r (
    load_loop-IsClean keys (reset s) (refl, refl, refl),
    λ h t. load_loop-has_key keys (reset s) t h,
  )
