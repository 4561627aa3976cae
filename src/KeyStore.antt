-- ===== src/KeyStore.antt =====
-- The upstream keys of the store and how they reach the scheduler (pkg/gateway/loader.go,
-- pkg/gateway/status.go). The store's lists are arguments and results, `decrypt` is utils.Decrypt with
-- the root key, none for its error, and an update that the store refuses changes nothing.
pub mod Loading
mod Tests
use nvidia_api_gateway.Prelude.{
  ℕ, zero, suc, Bool, true, false, not, ◌&&◌, ◌||◌, Option, none, some, List, [], ◌∷◌, ◌==◌,
  if◌then◌else◌,
}
use nvidia_api_gateway.Prelude.Int.{ℤ, pos, ◌+ℤ◌, leb_ℤ}
use nvidia_api_gateway.Prelude.Text.{Text, codes, text_eq, trim_space, is_empty}
use nvidia_api_gateway.Scheduler.{Scheduler, add_key, reset}
use nvidia_api_gateway.Access.{MasterKey}

pub record ApiKey : Type 0 where
  pub id : ℕ
  pub key : Text
  pub name : Text
  pub weight : ℤ
  pub status : Text
  pub probe_only : Bool
  pub proxy_id : ℕ
  pub created_at : ℤ
  pub updated_at : ℤ

-- The errors of LoadActiveKeys.
pub data LoadError : Type 0 where
  missing_encryption_key : LoadError
  load_api_keys : LoadError
  rebuild_upstream_runtime : LoadError
  decrypt_api_key : ℕ → LoadError

-- key.Status != APIKeyStatusActive || key.ProbeOnly, negated
abbrev pub is_loaded : ApiKey → Bool
is_loaded k = text_eq k.status (codes "Active") && not k.probe_only

module _ (decrypt : Text → Option Text) where
  -- The loop of LoadActiveKeys.
  unfoldable pub load_loop : List ApiKey → Scheduler → Scheduler × Option LoadError
  load_loop [] s = (s, none)
  load_loop (k ∷ ks) s = if not (is_loaded k) then load_loop ks s else elim (decrypt k.key) [
    | none ↦ (s, some (decrypt_api_key k.id))
    | some plaintext ↦ load_loop ks (add_key s plaintext k.weight)
  ]

  -- The store is none if it cannot be read; `rebuilt` says whether rebuildUpstreamRuntime succeeds.
  unfoldable pub load_active_keys :
      Text → Option (List ApiKey) → Bool → Scheduler → Scheduler × Option LoadError
  unfolding load_loop
  load_active_keys root_key store rebuilt s =
      if is_empty (trim_space root_key) then (s, some missing_encryption_key) else elim store [
        | none ↦ (s, some load_api_keys)
        | some keys ↦
            if not rebuilt then (s, some rebuild_upstream_runtime) else load_loop keys (reset s)
      ]

  -- updateAPIKeyStatusByPlaintext: the first key that decrypts to this text.
  unfoldable pub update_status_in : Text → Text → ℤ → List ApiKey → List ApiKey
  update_status_in plaintext status now [] = []
  update_status_in plaintext status now (k ∷ ks) =
      let rest = update_status_in plaintext status now ks in
      elim (decrypt k.key) [
        | none ↦ k ∷ rest
        | some text ↦
            if text_eq text plaintext
            then record k { status = status; updated_at = now } ∷ ks
            else k ∷ rest
      ]

  unfoldable pub update_api_key_status_by_plaintext :
      Text → Text → Text → ℤ → List ApiKey → List ApiKey
  unfolding update_status_in
  update_api_key_status_by_plaintext root_key plaintext status now keys =
      if is_empty (trim_space root_key) then keys else update_status_in plaintext status now keys

  -- setAPIKeyStatusByEncryptedID
  unfoldable pub set_api_key_status_by_encrypted_id : ℕ → Text → ℤ → List ApiKey → List ApiKey
  set_api_key_status_by_encrypted_id id status now [] = []
  set_api_key_status_by_encrypted_id id status now (k ∷ ks) =
      let rest = set_api_key_status_by_encrypted_id id status now ks in
      if k.id == id then record k { status = status; updated_at = now } ∷ ks else k ∷ rest

  -- The loop of restoreAPIKeyStatuses over the keys that were read first, on the store as it is.
  -- `probe` is the status that probeKeyStatus finds, none if it finds none.
  unfoldable pub restore_loop : (Text → Option Text) → ℤ → List ApiKey → List ApiKey → List ApiKey
  unfolding set_api_key_status_by_encrypted_id
  restore_loop probe now [] store = store
  restore_loop probe now (k ∷ ks) store =
      if not (text_eq k.status (codes "Cooling")) && not (text_eq k.status (codes "Dead"))
      then restore_loop probe now ks store
      else elim (decrypt k.key) [
        | none ↦ restore_loop probe now ks store
        | some plaintext ↦ elim (probe plaintext) [
          | none ↦ restore_loop probe now ks store
          | some status ↦
              restore_loop probe now ks (set_api_key_status_by_encrypted_id k.id status now store)
        ]
      ]

  unfoldable pub restore_api_key_statuses :
      Text → (Text → Option Text) → ℤ → List ApiKey → List ApiKey
  unfolding restore_loop
  restore_api_key_statuses root_key probe now keys =
      if is_empty (trim_space root_key) then keys else restore_loop probe now keys keys

-- incrementMasterKeyQuota
unfoldable pub add_used_quota : ℕ → ℤ → ℤ → List MasterKey → List MasterKey
add_used_quota id cost now [] = []
add_used_quota id cost now (k ∷ ks) =
    let rest = add_used_quota id cost now ks in
    if k.id == id
    then record k { used_quota = k.used_quota +ℤ cost; updated_at = now } ∷ ks
    else k ∷ rest

unfoldable pub increment_master_key_quota : ℕ → ℤ → ℤ → List MasterKey → List MasterKey
unfolding add_used_quota
increment_master_key_quota id cost now keys =
    if id == 0 || leb_ℤ cost (pos 0) then keys else add_used_quota id cost now keys
