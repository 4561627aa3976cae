-- ===== src/Store/Database.antt =====
-- ReadStore and UpdateStore: the cached copy, and the data files in the directory of the store.
use nvidia_api_gateway.Prelude.{
  ℕ, suc, Bool, true, false, not, Option, none, some, List, [], ◌∷◌, if◌then◌else◌,
}
use nvidia_api_gateway.Prelude.Text.{Text, codes}
use nvidia_api_gateway.Disk.{
  Files, Faults, Written, write_json_file, write_raw_json_file, read_file, read_json_file,
  read_raw_json_file,
}
use nvidia_api_gateway.Store.FilePaths
use nvidia_api_gateway.Store.{
  Store, JsonListFile, default_store, normalize_store, Codecs, split_health_state,
  merge_health_state,
}

-- One write of a data file: JSON with its path and text, none if it cannot be encoded, or raw JSON
-- with what is written in its place if it is blank.
pub data Item : Type 0 where
  json : Text → Option Text → Item
  raw : Text → Text → Text → Item

unfoldable pub write_item : Faults → Files → Item → Written
write_item f fs (json path text) = write_json_file (λ (t : Option Text). t) f fs path text
write_item f fs (raw path text fallback) = write_raw_json_file f fs path text fallback

-- The writes in their order, up to the first that fails.
unfoldable pub write_items : (ℕ → Faults) → ℕ → Files → List Item → Files × Bool
write_items faults n fs [] = (fs, true)
write_items faults n fs (item ∷ items) =
    let w = write_item (faults n) fs item in
    let rest = write_items faults (suc n) w.after items in if w.ok then rest else (w.after, false)

infixl 5 ◌>>=◌
abbrev pub ◌>>=◌ {ℓ κ} : {A : Type ℓ} {B : Type κ} → Option A → (A → Option B) → Option B
none >>= f = none
some a >>= f = f a

abbrev pub list_file : {A : Type 0} → ℕ → List A → JsonListFile A
list_file next items = record { next_id = next; items = items }

-- The process: storeCache, and the files.
pub record Database : Type 0 where
  pub cache : Option Store
  pub files : Files

module _ (c : Codecs) where
  -- The files of writeStoreUnlocked that hold JSON of the store's fields.
  abbrev pub field_items : Store → List Item
  field_items s =
      json FilePaths.api_keys (c.api_keys.encode (list_file s.next_api_id s.api_keys))
      ∷ json FilePaths.proxies (c.proxies.encode (list_file s.next_proxy_id s.proxies))
      ∷ json FilePaths.master_keys (c.master_keys.encode (list_file s.next_mk_id s.master_keys))
      ∷ json FilePaths.core_profiles
          (c.core_profiles.encode (list_file s.next_core_profile_id s.core_profiles))
      ∷ json FilePaths.system_config (c.system_config.encode s.system_config)
      ∷ json FilePaths.external_proxy_sources
          (c.external_proxy_sources.encode s.external_proxy_sources)
      ∷ json FilePaths.proxy_import_schedule
          (c.proxy_import_schedule.encode s.proxy_import_schedule)
      ∷ json FilePaths.proxy_import_logs (c.proxy_import_logs.encode s.proxy_import_logs)
      ∷ []

  abbrev pub health_items : Text × Text → List Item
  health_items (state, catalog) =
      raw FilePaths.health_state state (codes "{}\n")
      ∷ raw FilePaths.model_catalog catalog (codes "[]\n")
      ∷ []

  -- cloneStore: a copy by way of JSON, or the same fields if that fails.
  unfoldable pub clone_store : Store → Store
  clone_store s = elim (c.encode_store s) [
    | none ↦ s
    | some text ↦ elim (c.decode_store text) [
      | none ↦ s
      | some copy ↦ normalize_store c.decimal copy
    ]
  ]

  -- `made` says whether os.MkdirAll succeeds, and `faults` what fails in each write.
  unfoldable pub write_store_unlocked : Bool → (ℕ → Faults) → Database → Store → Database × Bool
  write_store_unlocked made faults db store =
      let s = normalize_store c.decimal store in
      let (fs, ok) = write_items faults 0 db.files (field_items s) in
      if not made
      then (db, false)
      else if not ok
      then (record db { files = fs }, false)
      else elim (split_health_state c.raw_map s.health_state) [
        | none ↦ (record db { files = fs }, false)
        | some parts ↦
            let (fs', ok') = write_items faults 8 fs (health_items parts) in
            if ok'
            then (record { cache = some (clone_store s); files = fs' }, true)
            else (record db { files = fs' }, false)
      ]

  -- readStoreUnlocked: none for an error. `readable` says which of the files can be read.
  unfoldable pub read_store_unlocked : (ℕ → Bool) → Files → Option Store
  read_store_unlocked readable fs = do
    let d = default_store
    keys ←
        read_json_file c.api_keys.decode (list_file d.next_api_id d.api_keys)
          (read_file (readable 0) fs FilePaths.api_keys)
    proxies ←
        read_json_file c.proxies.decode (list_file d.next_proxy_id d.proxies)
          (read_file (readable 1) fs FilePaths.proxies)
    masters ←
        read_json_file c.master_keys.decode (list_file d.next_mk_id d.master_keys)
          (read_file (readable 2) fs FilePaths.master_keys)
    profiles ←
        read_json_file c.core_profiles.decode (list_file d.next_core_profile_id d.core_profiles)
          (read_file (readable 3) fs FilePaths.core_profiles)
    config ←
        read_json_file c.system_config.decode d.system_config
          (read_file (readable 4) fs FilePaths.system_config)
    sources ←
        read_json_file c.external_proxy_sources.decode d.external_proxy_sources
          (read_file (readable 5) fs FilePaths.external_proxy_sources)
    schedule ←
        read_json_file c.proxy_import_schedule.decode d.proxy_import_schedule
          (read_file (readable 6) fs FilePaths.proxy_import_schedule)
    logs ←
        read_json_file c.proxy_import_logs.decode d.proxy_import_logs
          (read_file (readable 7) fs FilePaths.proxy_import_logs)
    state ← read_raw_json_file (read_file (readable 8) fs FilePaths.health_state)
    catalog ← read_raw_json_file (read_file (readable 9) fs FilePaths.model_catalog)
    health ← merge_health_state c.raw_map state catalog
    some (
        normalize_store c.decimal (record {
          api_keys = keys.items;
          proxies = proxies.items;
          master_keys = masters.items;
          core_profiles = profiles.items;
          system_config = config;
          external_proxy_sources = sources;
          proxy_import_schedule = schedule;
          proxy_import_logs = logs;
          health_state = health;
          next_api_id = keys.next_id;
          next_proxy_id = proxies.next_id;
          next_mk_id = masters.next_id;
          next_core_profile_id = profiles.next_id;
        }))

  -- ReadStore: the store is none for an error.
  unfoldable pub read_store : (ℕ → Bool) → Database → Database × Option Store
  read_store readable db = elim db.cache [
    | some cached ↦ (db, some (clone_store cached))
    | none ↦ elim (read_store_unlocked readable db.files) [
      | none ↦ (db, none)
      | some s ↦ (record db { cache = some (clone_store s) }, some s)
    ]
  ]

  -- The store that a mutator gets.
  unfoldable pub snapshot : (ℕ → Bool) → Database → Option Store
  snapshot readable db = elim db.cache [
    | some cached ↦ some (clone_store cached)
    | none ↦ read_store_unlocked readable db.files
  ]

  -- UpdateStore. A mutator that returns an error gives none.
  unfoldable pub update_store :
      (ℕ → Bool) → Bool → (ℕ → Faults) → (Store → Option Store) → Database → Database × Bool
  update_store readable made faults mutator db = elim (snapshot readable db >>= mutator) [
    | none ↦ (db, false)
    | some store ↦ write_store_unlocked made faults db (normalize_store c.decimal store)
  ]
