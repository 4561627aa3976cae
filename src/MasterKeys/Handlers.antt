-- ===== src/MasterKeys/Handlers.antt =====
-- The handlers of the gateway's own keys over the store, with the status that each answers.
use nvidia_api_gateway.Prelude.{
  ℕ, ◌≡◌, refl, ap, ◌∙◌, ◌⊎◌, inl, inr, Bool, Option, none, some, if◌then◌else◌, Option-cases,
}
use nvidia_api_gateway.Prelude.Int.{ℤ}
use nvidia_api_gateway.Prelude.Text.{Text}
use nvidia_api_gateway.Disk.{Faults}
use nvidia_api_gateway.Store.{Store, Codecs}
use nvidia_api_gateway.Store.Database.{◌>>=◌, Database, snapshot, clone_store, update_store}
use nvidia_api_gateway.Store.Update.{kept, refused, failed, done, update_store-Updated}
use nvidia_api_gateway.MasterKeys.{
  MasterKeyError, duplicate, not_found, no_randomness, Result, CreateMasterKeyRequest,
  UpdateMasterKeyRequest, normalize_master_key_status, normalize_master_key_create, new_master_key,
  insert_master_key, mutate_master_key, update_fields, delete_master_key, with_status,
}

-- The statuses of AddMasterKey, of UpdateMasterKey, and of the other handlers.
abbrev pub add_status : MasterKeyError → ℕ
add_status duplicate = 409
add_status _ = 500

abbrev pub update_status : MasterKeyError → ℕ
update_status not_found = 404
update_status duplicate = 409
update_status no_randomness = 500
update_status _ = 400

abbrev pub other_status : MasterKeyError → ℕ
other_status not_found = 404
other_status _ = 500

-- What a mutator gives to UpdateStore.
abbrev pub allowed : Result Store → Option Store
allowed (inl e) = none
allowed (inr t) = some t

-- The status when UpdateStore has failed.
abbrev pub error_status : (MasterKeyError → ℕ) → Result Store → ℕ
error_status status (inl e) = status e
error_status status (inr t) = 500

module _ (c : Codecs) (readable : ℕ → Bool) (made : Bool) (faults : ℕ → Faults) where
  -- db.UpdateStore with a mutator, and what the handler answers.
  unfoldable pub handle : (MasterKeyError → ℕ) → (Store → Result Store) → Database → Database × ℕ
  handle status mutator db =
      let (db', ok) = update_store c readable made faults (λ s. allowed (mutator s)) db in
      if ok then (db', 200) else (
        db',
        elim (snapshot c readable db) [ none ↦ 500 | some s ↦ error_status status (mutator s) ],
      )

  unfoldable pub add_master_key : Option Text → CreateMasterKeyRequest → ℤ → Database → Database × ℕ
  unfolding handle
  add_master_key generated req now db = elim (normalize_master_key_create generated req) [
    | inl e ↦ (db, 400)
    | inr fields ↦ handle add_status (insert_master_key (new_master_key req now fields)) db
  ]

  unfoldable pub update_master_key : ℕ → UpdateMasterKeyRequest → ℤ → Database → Database × ℕ
  unfolding handle
  update_master_key id req now db =
      handle update_status (mutate_master_key id (update_fields req now)) db

  unfoldable pub delete_master_key_handler : ℕ → Database → Database × ℕ
  unfolding handle
  delete_master_key_handler id db = handle other_status (delete_master_key id) db

  unfoldable pub update_master_key_status : ℕ → Text → ℤ → Database → Database × ℕ
  unfolding handle
  update_master_key_status id raw now db = elim (normalize_master_key_status raw) [
    | inl e ↦ (db, 400)
    | inr status ↦ handle other_status (mutate_master_key id (with_status status now)) db
  ]

  -- What a handler may answer, and what becomes of the store.
  pub data Answered (status : MasterKeyError → ℕ) (mutator : Store → Result Store) (db : Database)
      (result : Database × ℕ) : Type 0 where
    unread : snapshot c readable db ≡ none → result ≡ (db, 500) → Answered status mutator db result
    turned_down :
        (s : Store) (e : MasterKeyError)
        → snapshot c readable db ≡ some s
        → mutator s ≡ inl e
        → result ≡ (db, status e)
        → Answered status mutator db result
    unwritten :
        (s t : Store)
        → snapshot c readable db ≡ some s
        → mutator s ≡ inr t
        → result.1 ≡ 500
        → result.0.cache ≡ db.cache
        → Answered status mutator db result
    accepted :
        (s t : Store)
        → snapshot c readable db ≡ some s
        → mutator s ≡ inr t
        → result.1 ≡ 200
        → result.0.cache ≡ some (clone_store c (kept c t))
        → Answered status mutator db result

  Result-cases :
      (r : Result Store) → ((e : MasterKeyError) × (r ≡ inl e)) ⊎ ((t : Store) × (r ≡ inr t))
  Result-cases (inl e) = inl (e, refl)
  Result-cases (inr t) = inr (t, refl)

  module _ (status : MasterKeyError → ℕ) (mutator : Store → Result Store) (db : Database) where
    abbrev write : Database × Bool
    write = update_store c readable made faults (λ s. allowed (mutator s)) db

    abbrev chosen : Option Store
    chosen = snapshot c readable db >>= λ s. allowed (mutator s)

    abbrev answer : Database × Bool → Option Store → Database × ℕ
    answer (db', ok) seen =
        if ok
        then (db', 200)
        else (db', elim seen [ none ↦ 500 | some s ↦ error_status status (mutator s) ])

    chosen_blind : snapshot c readable db ≡ none → chosen ≡ none
    chosen_blind blind = rw blind refl

    chosen_refused :
        (s : Store) (e : MasterKeyError)
        → snapshot c readable db ≡ some s
        → mutator s ≡ inl e
        → chosen ≡ none
    chosen_refused s e seen no_way = rw (seen, no_way) refl

    chosen_made :
        (s t : Store) → snapshot c readable db ≡ some s → mutator s ≡ inr t → chosen ≡ some t
    chosen_made s t seen ready = rw (seen, ready) refl

    handle_lem : handle status mutator db ≡ answer write (snapshot c readable db)
    unfolding handle
    handle_lem = refl

    -- A handler around UpdateStore: with 500 and nothing changed if the store cannot be read; with the
    -- status of the error and nothing changed if the mutator refuses; with 500 and the cached store as it
    -- was if a write fails; and with 200 and what the mutator made in the cache otherwise.
    pub handle-Answered : Answered status mutator db (handle status mutator db)
    handle-Answered = elim (Option-cases (snapshot c readable db)) [
      | inl blind ↦
          elim (update_store-Updated c readable made faults (λ s. allowed (mutator s)) db) [
            | refused nothing same ↦ unread blind (handle_lem ∙ simp (same, blind) refl)
            | failed store changed no_nil cached ↦ absurd (cc (changed, chosen_blind blind))
            | done store changed nil cached state catalog split held raws ↦
                absurd (cc (changed, chosen_blind blind))
          ]
      | inr (s, seen) ↦ elim (Result-cases (mutator s)) [
        | inl (e, no_way) ↦
            elim (update_store-Updated c readable made faults (λ s. allowed (mutator s)) db) [
              | refused nothing same ↦
                  turned_down s e seen no_way (handle_lem ∙ simp (same, seen, no_way) refl)
              | failed store changed no_nil cached ↦
                  absurd (cc (changed, chosen_refused s e seen no_way))
              | done store changed nil cached state catalog split held raws ↦
                  absurd (cc (changed, chosen_refused s e seen no_way))
            ]
        | inr (t, ready) ↦
            elim (update_store-Updated c readable made faults (λ s. allowed (mutator s)) db) [
              | refused nothing same ↦ absurd (cc (nothing, chosen_made s t seen ready))
              | failed store changed no_nil cached ↦
                  unwritten s t seen ready
                    (ap (λ r. r.1) handle_lem ∙ simp (no_nil, seen, ready) refl)
                    (ap (λ r. r.0.cache) handle_lem ∙ simp no_nil cached)
              | done store changed nil cached state catalog split held raws ↦
                  let same : store ≡ t = cc (changed, chosen_made s t seen ready) in
                  accepted s t seen ready (ap (λ r. r.1) handle_lem ∙ simp nil refl) (
                    ap (λ r. r.0.cache) handle_lem
                    ∙ simp nil (cached ∙ ap (λ u. some (clone_store c (kept c u))) same))
            ]
      ]
    ]
