-- ===== src/Store.antt =====
-- The store (pkg/db/db.go): its normal form, the numbers that it hands out, ReadStore and UpdateStore
-- over the cached copy and the data files. The files of the store are named by their paths in the
-- directory of the store. The functions of encoding/json are parameters. A nil list is the empty one,
-- raw JSON that is nil is the empty text. A lock is held over each update, which is one step.
pub mod FilePaths
pub mod Database
mod Writes
pub mod Update
pub mod Restart
pub mod Numbers
mod Tests
use nvidia_api_gateway.Prelude.{
  ℕ, zero, suc, ◌+◌, ◌%◌, ◌^◌, Option, none, some, List, [], ◌∷◌, ◌++◌, map, ltb, ◌==◌,
  if◌then◌else◌,
}
use nvidia_api_gateway.Prelude.Int.{ℤ}
use nvidia_api_gateway.Prelude.Text.{Text, codes, is_empty, trim_space}
use nvidia_api_gateway.Prelude.Maps.{lookup, insert, delete}
use nvidia_api_gateway.Json.{Value}
use nvidia_api_gateway.Models.Config.{SystemConfig, default_system_config, normalize_system_config}
use nvidia_api_gateway.Models.Proxies.{
  UpstreamProxy, normalize_upstream_proxy, ExternalProxySources, normalize_external_proxy_sources,
  ProxyImportSchedule, default_proxy_import_schedule, normalize_proxy_import_schedule,
}
use nvidia_api_gateway.Models.Cores.{CoreProfile, normalize_core_profile}
use nvidia_api_gateway.Access.{MasterKey}
use nvidia_api_gateway.KeyStore.{ApiKey}

-- Nothing here reads an entry of the log of imports.
pub record Store : Type 0 where
  pub api_keys : List ApiKey
  pub proxies : List UpstreamProxy
  pub master_keys : List MasterKey
  pub core_profiles : List CoreProfile
  pub system_config : SystemConfig
  pub external_proxy_sources : ExternalProxySources
  pub proxy_import_schedule : ProxyImportSchedule
  pub proxy_import_logs : List Value
  pub health_state : Text
  pub next_api_id : ℕ
  pub next_proxy_id : ℕ
  pub next_mk_id : ℕ
  pub next_core_profile_id : ℕ

-- jsonListFile
pub record JsonListFile (A : Type 0) : Type 0 where
  pub next_id : ℕ
  pub items : List A

abbrev pub default_external_proxy_sources : ExternalProxySources
default_external_proxy_sources = record {
  http_txt = [];
  http_json = [];
  http_html = [];
  socks5_txt = [];
  socks5_json = [];
  socks5_html = [];
}

abbrev pub default_store : Store
default_store = record {
  api_keys = [];
  proxies = [];
  master_keys = [];
  core_profiles = [];
  system_config = default_system_config;
  external_proxy_sources = default_external_proxy_sources;
  proxy_import_schedule = default_proxy_import_schedule;
  proxy_import_logs = [];
  health_state = [];
  next_api_id = 1;
  next_proxy_id = 1;
  next_mk_id = 1;
  next_core_profile_id = 1;
}

-- A uint of 64 bits.
abbrev pub uint_mod : ℕ
uint_mod = 2 ^ 64

-- The loop over the identifiers, as nextAPIID and its like have it.
unfoldable pub max_id {ℓ} : {A : Type ℓ} → (A → ℕ) → ℕ → List A → ℕ
max_id id so_far [] = so_far
max_id id so_far (x ∷ xs) = max_id id (if ltb so_far (id x) then id x else so_far) xs

unfoldable pub next_id_of {ℓ} : {A : Type ℓ} → (A → ℕ) → List A → ℕ
unfolding max_id
next_id_of id xs = (max_id id 0 xs + 1) % uint_mod

abbrev pub id_or {ℓ} : {A : Type ℓ} → (A → ℕ) → ℕ → List A → ℕ
id_or id next xs = if next == 0 then next_id_of id xs else next

-- `decimal` is the %d of fmt.
unfoldable pub normalize_store : (ℤ → Text) → Store → Store
normalize_store decimal s =
    let proxies = map (normalize_upstream_proxy decimal) s.proxies in
    let profiles = map normalize_core_profile s.core_profiles in
    record s {
      proxies = proxies;
      core_profiles = profiles;
      system_config = normalize_system_config s.system_config;
      external_proxy_sources = normalize_external_proxy_sources s.external_proxy_sources;
      proxy_import_schedule = normalize_proxy_import_schedule s.proxy_import_schedule;
      next_api_id = id_or (λ (k : ApiKey). k.id) s.next_api_id s.api_keys;
      next_proxy_id = id_or (λ (p : UpstreamProxy). p.id) s.next_proxy_id proxies;
      next_mk_id = id_or (λ (k : MasterKey). k.id) s.next_mk_id s.master_keys;
      next_core_profile_id = id_or (λ (p : CoreProfile). p.id) s.next_core_profile_id profiles;
    }

-- json.Marshal or json.MarshalIndent, none for an error, and json.Unmarshal onto a value.
pub record Codec (A : Type 0) : Type 0 where
  pub encode : A → Option Text
  pub decode : A → Text → Option A

pub record Codecs : Type 0 where
  pub api_keys : Codec (JsonListFile ApiKey)
  pub proxies : Codec (JsonListFile UpstreamProxy)
  pub master_keys : Codec (JsonListFile MasterKey)
  pub core_profiles : Codec (JsonListFile CoreProfile)
  pub system_config : Codec SystemConfig
  pub external_proxy_sources : Codec ExternalProxySources
  pub proxy_import_schedule : Codec ProxyImportSchedule
  pub proxy_import_logs : Codec (List Value)
  pub raw_map : Codec (List (Text × Text))
  pub encode_store : Store → Option Text
  pub decode_store : Text → Option Store
  pub decimal : ℤ → Text

abbrev pub catalog_key : Text
catalog_key = codes "modelCatalog"

-- splitHealthState: none for an error.
unfoldable pub split_health_state : Codec (List (Text × Text)) → Text → Option (Text × Text)
split_health_state codec raw =
    if is_empty (trim_space raw) then some ([], []) else elim (codec.decode [] raw) [
      | none ↦ none
      | some state ↦
          let catalog : Text = elim (lookup catalog_key state) [ none ↦ [] | some c ↦ c ] in
          elim (delete catalog_key state) [
            | [] ↦ some ([], catalog)
            | x ∷ xs ↦ elim (codec.encode (x ∷ xs)) [
              | none ↦ none
              | some text ↦ some (text ++ 10 ∷ [], catalog)
            ]
          ]
    ]

abbrev encode_state : Codec (List (Text × Text)) → List (Text × Text) → Option Text
encode_state codec [] = some []
encode_state codec (x ∷ xs) = codec.encode (x ∷ xs)

-- mergeHealthState
unfoldable pub merge_health_state : Codec (List (Text × Text)) → Text → Text → Option Text
merge_health_state codec state_raw catalog_raw =
    elim (if is_empty (trim_space state_raw) then some [] else codec.decode [] state_raw) [
      | none ↦ none
      | some state ↦ encode_state codec (
          if is_empty (trim_space catalog_raw) then state else insert catalog_key catalog_raw state)
    ]
