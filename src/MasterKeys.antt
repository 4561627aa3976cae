-- ===== src/MasterKeys.antt =====
-- The gateway's own keys, as an administrator makes, changes and removes them
-- (pkg/gateway/admin_master_keys.go). What a handler does to the store is a function on the store,
-- which UpdateStore is given; its answer is a status. A body that cannot be parsed and an identifier
-- that is no number are left out, and so are the texts of the answers.
pub mod Replacing
pub mod Validity
pub mod Changes
pub mod Mutation
pub mod Steps
pub mod Handlers
pub mod Silencing
pub mod Revocation
pub mod Rotation
mod Tests
use nvidia_api_gateway.Prelude.{
  ℕ, ◌+◌, ◌%◌, ◌⊎◌, inl, inr, Bool, true, false, not, ◌&&◌, Option, none, some, List, [], ◌∷◌, ◌++◌,
  ◌==◌, any, if◌then◌else◌,
}
use nvidia_api_gateway.Prelude.Int.{ℤ, pos, negsuc, ltb_ℤ}
use nvidia_api_gateway.Prelude.Text.{Text, codes, text_eq, trim_space, is_empty}
use nvidia_api_gateway.Access.{MasterKey}
use nvidia_api_gateway.Disk.{Faults}
use nvidia_api_gateway.Store.{Store, Codecs, uint_mod}
use nvidia_api_gateway.Store.Database.{Database, snapshot, update_store}

-- The errors that the handlers tell apart.
pub data MasterKeyError : Type 0 where
  no_name : MasterKeyError
  negative_rpm : MasterKeyError
  negative_tpm : MasterKeyError
  small_quota : MasterKeyError
  bad_status : MasterKeyError
  duplicate : MasterKeyError
  not_found : MasterKeyError
  no_randomness : MasterKeyError

abbrev pub Result : Type 0 → Type 0
Result A = MasterKeyError ⊎ A

infixl 5 ◌>>=◌
abbrev pub ◌>>=◌ : {A B : Type 0} → Result A → (A → Result B) → Result B
(inl e) >>= f = inl e
(inr a) >>= f = f a

pub record CreateMasterKeyRequest : Type 0 where
  pub name : Text
  pub key : Text
  pub rpm : ℤ
  pub tpm : ℤ
  pub quota : ℤ
  pub status : Text

pub record UpdateMasterKeyRequest : Type 0 where
  pub name : Option Text
  pub key : Text
  pub rpm : Option ℤ
  pub tpm : Option ℤ
  pub quota : Option ℤ
  pub status : Option Text

unfoldable pub normalize_master_key_status : Text → Result Text
normalize_master_key_status status =
    if text_eq (trim_space status) (codes "Active")
    then inr (codes "Active")
    else if text_eq (trim_space status) (codes "Disabled")
    then inr (codes "Disabled")
    else inl bad_status

-- The key's text: the one that is asked for, or a generated one, none if there is no randomness.
abbrev pub key_or_generated : Option Text → Text → Result Text
key_or_generated generated key =
    if is_empty (trim_space key)
    then elim generated [ none ↦ inl no_randomness | some text ↦ inr text ]
    else inr (trim_space key)

-- The name, the key and the status.
unfoldable pub normalize_master_key_create :
    Option Text → CreateMasterKeyRequest → Result (Text × Text × Text)
normalize_master_key_create generated req =
    if is_empty (trim_space req.name)
    then inl no_name
    else if ltb_ℤ req.rpm (pos 0)
    then inl negative_rpm
    else if ltb_ℤ req.tpm (pos 0)
    then inl negative_tpm
    else if ltb_ℤ req.quota (negsuc 0)
    then inl small_quota
    else (normalize_master_key_status
          (if is_empty (trim_space req.status) then codes "Active" else req.status)
        >>= λ status.
            key_or_generated generated req.key >>= λ text. inr (trim_space req.name, text, status))

-- The key that AddMasterKey makes, before it has an identifier.
abbrev pub new_master_key : CreateMasterKeyRequest → ℤ → Text × Text × Text → MasterKey
new_master_key req now (name, text, status) = record {
  id = 0;
  key = text;
  name = name;
  rpm = req.rpm;
  tpm = req.tpm;
  quota = req.quota;
  used_quota = pos 0;
  status = status;
  created_at = now;
  updated_at = now;
}

-- What AddMasterKey does to the store.
unfoldable pub insert_master_key : MasterKey → Store → Result Store
insert_master_key k s =
    if any (λ (e : MasterKey). text_eq e.key k.key) s.master_keys
    then inl duplicate
    else inr (record s {
      master_keys = s.master_keys ++ record k { id = s.next_mk_id } ∷ [];
      next_mk_id = (s.next_mk_id + 1) % uint_mod;
    })

-- The loop of mutateMasterKey.
unfoldable pub mutate_loop :
    (MasterKey → Result MasterKey) → ℕ → List MasterKey → Result (List MasterKey)
mutate_loop mutator id [] = inl not_found
mutate_loop mutator id (k ∷ ks) =
    let rest = mutate_loop mutator id ks in
    if k.id == id then (mutator k >>= λ k'. inr (k' ∷ ks)) else (rest >>= λ ks'. inr (k ∷ ks'))

unfoldable pub mutate_master_key :
    ℕ → (MasterKey → List MasterKey → Result MasterKey) → Store → Result Store
unfolding mutate_loop
mutate_master_key id mutator s =
    mutate_loop (λ k. mutator k s.master_keys) id s.master_keys >>= λ keys.
    inr (record s { master_keys = keys })

-- Whether a key with another identifier has this text.
abbrev pub is_taken : ℕ → Text → List MasterKey → Bool
is_taken id text keys = any (λ (e : MasterKey). not (e.id == id) && text_eq e.key text) keys

-- The steps of UpdateMasterKey on the key, in their order.
abbrev pub set_name : Option Text → MasterKey → Result MasterKey
set_name none k = inr k
set_name (some raw) k =
    if is_empty (trim_space raw) then inl no_name else inr (record k { name = trim_space raw })

abbrev pub set_rpm : Option ℤ → MasterKey → Result MasterKey
set_rpm none k = inr k
set_rpm (some n) k = if ltb_ℤ n (pos 0) then inl negative_rpm else inr (record k { rpm = n })

abbrev pub set_tpm : Option ℤ → MasterKey → Result MasterKey
set_tpm none k = inr k
set_tpm (some n) k = if ltb_ℤ n (pos 0) then inl negative_tpm else inr (record k { tpm = n })

abbrev pub set_quota : Option ℤ → MasterKey → Result MasterKey
set_quota none k = inr k
set_quota (some n) k = if ltb_ℤ n (negsuc 0) then inl small_quota else inr (record k { quota = n })

abbrev pub set_status : Option Text → MasterKey → Result MasterKey
set_status none k = inr k
set_status (some raw) k =
    normalize_master_key_status raw >>= λ status. inr (record k { status = status })

abbrev pub set_key : Text → List MasterKey → MasterKey → Result MasterKey
set_key raw keys k =
    if is_empty (trim_space raw)
    then inr k
    else if is_taken k.id (trim_space raw) keys
    then inl duplicate
    else inr (record k { key = trim_space raw })

-- The mutator of UpdateMasterKey. It reads the texts of other keys only.
unfoldable pub update_fields :
    UpdateMasterKeyRequest → ℤ → MasterKey → List MasterKey → Result MasterKey
update_fields req now k keys =
    set_name req.name k
    >>= set_rpm req.rpm
    >>= set_tpm req.tpm
    >>= set_quota req.quota
    >>= set_status req.status
    >>= set_key req.key keys
    >>= λ k'. inr (record k' { updated_at = now })

-- The loop of deleteMasterKey.
unfoldable pub delete_loop : ℕ → List MasterKey → Result (List MasterKey)
delete_loop id [] = inl not_found
delete_loop id (k ∷ ks) =
    let rest = delete_loop id ks in if k.id == id then inr ks else (rest >>= λ ks'. inr (k ∷ ks'))

unfoldable pub delete_master_key : ℕ → Store → Result Store
unfolding delete_loop
delete_master_key id s =
    delete_loop id s.master_keys >>= λ keys. inr (record s { master_keys = keys })

-- The loop of RotateMasterKey over what generateMasterKeyValue gives; none while it goes on.
unfoldable pub rotate_loop : ℕ → List MasterKey → List (Option Text) → Option (Result Text)
rotate_loop id keys [] = none
rotate_loop id keys (none ∷ candidates) = some (inl no_randomness)
rotate_loop id keys (some text ∷ candidates) =
    let rest = rotate_loop id keys candidates in
    if is_taken id text keys then rest else some (inr text)

-- What RotateMasterKey does to the store; none while its loop goes on.
unfoldable pub rotate_master_key : ℕ → ℤ → List (Option Text) → Store → Option (Result Store)
unfolding rotate_loop mutate_master_key
rotate_master_key id now candidates s =
    if not (any (λ (e : MasterKey). e.id == id) s.master_keys)
    then some (inl not_found)
    else elim (rotate_loop id s.master_keys candidates) [
      | none ↦ none
      | some result ↦ some (
          result >>= λ text.
          mutate_master_key id (λ k keys. inr (record k { key = text; updated_at = now })) s)
    ]

-- The mutator of UpdateMasterKeyStatus.
abbrev pub with_status : Text → ℤ → MasterKey → List MasterKey → Result MasterKey
with_status status now k keys = inr (record k { status = status; updated_at = now })
