-- ===== src/MasterKeys/Steps.antt =====
-- Everything that the gateway does to its own keys, step by step from an empty store.
use mathlib.Core.Path.{subst}
use nvidia_api_gateway.Prelude.{
  ℕ, ◌+◌, ◌%◌, ◌<◌, ◌≡◌, refl, sym, ap, ◌⊎◌, inl, inr, false, ◌||◌, Option, some, List, [], ◌∷◌,
  ◌++◌, ◌==◌, any, arith, ==_iff, Bool-cases,
}
use nvidia_api_gateway.Prelude.Int.{ℤ, pos, leb_ℤ, ◌+ℤ◌}
use nvidia_api_gateway.Prelude.Text.{Text, text_eq}
use nvidia_api_gateway.Access.{MasterKey}
use nvidia_api_gateway.KeyStore.{add_used_quota, increment_master_key_quota}
use nvidia_api_gateway.Store.{Store, default_store, normalize_store, uint_mod, id_or}
use nvidia_api_gateway.MasterKeys.{
  CreateMasterKeyRequest, UpdateMasterKeyRequest, normalize_master_key_status,
  normalize_master_key_create, new_master_key, insert_master_key, mutate_master_key, is_taken,
  update_fields, delete_loop, delete_master_key, rotate_master_key, with_status,
}
use nvidia_api_gateway.MasterKeys.Replacing.{Replaced, here, there, >>=-cases, delete_loop-Removed}
use nvidia_api_gateway.MasterKeys.Validity.{
  IsLimited, AreValid, IsValid, AreValid-append, AreValid-replace, AreValid-remove, own_text_free,
  Replaced-IsLimited,
}
use nvidia_api_gateway.MasterKeys.Changes.{
  Changed, update_fields-Changed, normalize_master_key_status_lem,
  normalize_master_key_create-IsLimited,
}
use nvidia_api_gateway.MasterKeys.Mutation.{
  changed_keys, given_inj, mutate_master_key-Mutated, Mutated-IsValid, renamed, rotate_loop-Renames,
  rotate_master_key-Mutated,
}

-- What changes the gateway's keys: the handlers, the charge of a request, and the normal form that
-- each update of the store brings about. Fewer than 2^64 keys are made.
pub data Step (decimal : ℤ → Text) (s : Store) : Store → Type 0 where
  added :
      {t : Store} (generated : Option Text) (req : CreateMasterKeyRequest) (now : ℤ)
      (name text status : Text)
      → normalize_master_key_create generated req ≡ inr (name, text, status)
      → insert_master_key (new_master_key req now (name, text, status)) s ≡ inr t
      → s.next_mk_id + 1 < uint_mod
      → Step decimal s t
  updated :
      {t : Store} (id : ℕ) (req : UpdateMasterKeyRequest) (now : ℤ)
      → mutate_master_key id (update_fields req now) s ≡ inr t
      → Step decimal s t
  switched :
      {t : Store} (id : ℕ) (raw status : Text) (now : ℤ)
      → normalize_master_key_status raw ≡ inr status
      → mutate_master_key id (with_status status now) s ≡ inr t
      → Step decimal s t
  deleted : {t : Store} (id : ℕ) → delete_master_key id s ≡ inr t → Step decimal s t
  rotated :
      {t : Store} (id : ℕ) (now : ℤ) (candidates : List (Option Text))
      → rotate_master_key id now candidates s ≡ some (inr t)
      → Step decimal s t
  charged :
      (id : ℕ) (cost now : ℤ)
      → Step decimal s
          (record s { master_keys = increment_master_key_quota id cost now s.master_keys })
  normalized : Step decimal s (normalize_store decimal s)

-- Steps from one store to another.
pub data Steps (decimal : ℤ → Text) (s : Store) : Store → Type 0 where
  start : Steps decimal s s
  step : {t u : Store} → Steps decimal s t → Step decimal t u → Steps decimal s u

insert_master_key-IsValid :
    (k : MasterKey) (s t : Store)
    → IsLimited (record k { id = s.next_mk_id })
    → s.next_mk_id + 1 < uint_mod
    → IsValid s
    → insert_master_key k s ≡ inr t
    → IsValid t
unfolding insert_master_key
insert_master_key-IsValid k s t l few v h =
    elim (Bool-cases (any (λ (e : MasterKey). text_eq e.key k.key) s.master_keys)) [
      | inl taken ↦ cc (simp taken at h)
      | inr free ↦ subst IsValid (given_inj _ _ (simp free at h)) (
          let k' = record k { id = s.next_mk_id } in
          let small : (s.next_mk_id + 1) % uint_mod ≡ s.next_mk_id + 1 = omega (arith, few) in
          subst (λ n. AreValid n (s.master_keys ++ k' ∷ []) × (0 < n)) (sym small)
            (AreValid-append s.next_mk_id k' s.master_keys v.0 l refl free, omega arith))
    ]

delete_master_key-IsValid :
    (id : ℕ) (s t : Store) → IsValid s → delete_master_key id s ≡ inr t → IsValid t
unfolding delete_master_key
delete_master_key-IsValid id s t v h =
    let (keys, looped, e) =
      >>=-cases (delete_loop id s.master_keys) (λ keys. inr (changed_keys s keys)) t h in
    let (old, removed) = delete_loop-Removed id s.master_keys keys looped in
    subst IsValid (given_inj _ _ e)
      (AreValid-remove s.next_mk_id old id s.master_keys keys removed v.0, v.1)

id_or_positive :
    (id : MasterKey → ℕ) (next : ℕ) (keys : List MasterKey) → 0 < next → id_or id next keys ≡ next
id_or_positive id next keys h = ground arith

normalize_store-IsValid :
    (decimal : ℤ → Text) (s : Store) → IsValid s → IsValid (normalize_store decimal s)
unfolding normalize_store
normalize_store-IsValid decimal s v =
    subst (λ n. AreValid n s.master_keys × (0 < n))
      (sym (id_or_positive (λ (k : MasterKey). k.id) s.next_mk_id s.master_keys v.1)) v

-- A charge of a key.
abbrev charged_by : ℤ → ℤ → MasterKey → MasterKey
charged_by cost now k = record k { used_quota = k.used_quota +ℤ cost; updated_at = now }

add_used_quota-Replaced :
    (id : ℕ) (cost now : ℤ) (ks : List MasterKey)
    → (add_used_quota id cost now ks ≡ ks)
      ⊎ ((k : MasterKey) × Replaced id k (charged_by cost now k) ks (add_used_quota id cost now ks))
unfolding add_used_quota
add_used_quota-Replaced id cost now [] = inl refl
add_used_quota-Replaced id cost now (k ∷ ks) = elim (Bool-cases (k.id == id)) [
  | inl hit ↦ inr (k, simp hit (here ks hit))
  | inr miss ↦ elim (add_used_quota-Replaced id cost now ks) [
    | inl same ↦ inl (simp miss (ap (λ l. k ∷ l) same))
    | inr (old, r) ↦ inr (old, simp miss (there k ks _ miss r))
  ]
]

recharged : (k : MasterKey) (cost now : ℤ) → IsLimited k → IsLimited (charged_by cost now k)
recharged k cost now l = record { rpm = l.rpm; tpm = l.tpm; quota = l.quota; status = l.status }

increment_master_key_quota-AreValid :
    (next id : ℕ) (cost now : ℤ) (ks : List MasterKey)
    → AreValid next ks
    → AreValid next (increment_master_key_quota id cost now ks)
unfolding increment_master_key_quota
increment_master_key_quota-AreValid next id cost now ks v =
    elim (Bool-cases (id == 0 || leb_ℤ cost (pos 0))) [
      | inl nothing ↦ rw nothing v
      | inr costs ↦ rw costs (elim (add_used_quota-Replaced id cost now ks) [
        | inl same ↦ subst (AreValid next) (sym same) v
        | inr (k, r) ↦
            let l = Replaced-IsLimited next k (charged_by cost now k) id ks _ r v in
            AreValid-replace next k (charged_by cost now k) id ks _ r v (recharged k cost now l)
              refl (own_text_free next k (charged_by cost now k) id ks _ r v)
      ])
    ]

Step-IsValid : (decimal : ℤ → Text) (s t : Store) → IsValid s → Step decimal s t → IsValid t
Step-IsValid decimal s t v (added generated req now name text status accepted h few) =
    insert_master_key-IsValid (new_master_key req now (name, text, status)) s t
      (normalize_master_key_create-IsLimited generated req now s.next_mk_id name text status
        accepted)
      few v h
Step-IsValid decimal s t v (updated id req now h) =
    Mutated-IsValid id (update_fields req now) s t
      (λ k k' l hit made. update_fields-Changed req now k k' s.master_keys l made) v
      (mutate_master_key-Mutated id (update_fields req now) s t h)
Step-IsValid decimal s t v (switched id raw status now good h) =
    Mutated-IsValid id (with_status status now) s t
      (λ k k' l hit made.
        let same : record k { status = status; updated_at = now } ≡ k' = cc made in
        let kept = normalize_master_key_status_lem raw status good in
        subst (Changed k s.master_keys) same (record {
          limited = record { rpm = l.rpm; tpm = l.tpm; quota = l.quota; status = kept };
          id = refl;
          key = inl refl;
        }))
      v (mutate_master_key-Mutated id (with_status status now) s t h)
Step-IsValid decimal s t v (deleted id h) = delete_master_key-IsValid id s t v h
Step-IsValid decimal s t v (rotated id now cs h) =
    let (text, ended, m) = rotate_master_key-Mutated id now cs s t h in
    let free = rotate_loop-Renames id s.master_keys cs text ended in
    Mutated-IsValid id (renamed text now) s t
      (λ k k' l hit made.
        let same : record k { key = text; updated_at = now } ≡ k' = cc made in
        subst (Changed k s.master_keys) same (record {
          limited = record { rpm = l.rpm; tpm = l.tpm; quota = l.quota; status = l.status };
          id = refl;
          key = inr (
              subst (λ i. is_taken i text s.master_keys ≡ false) (sym ((==_iff k.id id).0 hit))
                free);
        }))
      v m
Step-IsValid decimal s t v (charged id cost now) =
    (increment_master_key_quota-AreValid s.next_mk_id id cost now s.master_keys v.0, v.1)
Step-IsValid decimal s t v normalized = normalize_store-IsValid decimal s v

-- From the new store, whatever the handlers and the charges do: no two keys have one identifier or
-- one text, no identifier has reached the next one, no limit is below what the handlers accept, and
-- every status is Active or Disabled.
pub Steps-IsValid : (decimal : ℤ → Text) (s : Store) → Steps decimal default_store s → IsValid s
Steps-IsValid decimal s start = (tt, omega arith)
Steps-IsValid decimal s (step {t = t} before one) =
    Step-IsValid decimal t s (Steps-IsValid decimal t before) one
