-- ===== src/Store/Tests.antt =====
-- A key is added to a store without files, and the theorems at that update.
use mathlib.Core.Path.{subst}
use nvidia_api_gateway.Prelude.{◌≡◌, refl, ap, Bool, true, false, ◌++◌, Option, none, some, [], ◌∷◌}
use nvidia_api_gateway.Prelude.Int.{ℤ, pos, negsuc, ◌≤ℤ◌}
use nvidia_api_gateway.Prelude.Text.{Text, codes, is_empty, is_space, trim_space}
use nvidia_api_gateway.Prelude.Maps.{lookup}
use nvidia_api_gateway.Disk.{
  Faults, read_file, read_json_file, read_raw_json_file, is_all_nul, write_data_file, put_in_place,
  write_json_file, write_raw_json_file,
}
use nvidia_api_gateway.KeyStore.{ApiKey}
use nvidia_api_gateway.Store.{
  Store, default_store, normalize_store, Codec, Codecs, split_health_state, merge_health_state,
}
use nvidia_api_gateway.Store.Database.{
  Database, list_file, ◌>>=◌, snapshot, read_store_unlocked, update_store, write_store_unlocked,
  write_items, write_item,
}
use nvidia_api_gateway.Store.Restart.{Restores, Restorable, IsPrinted, written, reread}
use nvidia_api_gateway.Store.Update.{kept, Updated, update_store-Updated, update_store-reread}
use nvidia_api_gateway.Store.Numbers.{update_store-keep_alive}

abbrev no_faults : Faults
no_faults = record {
  mkdir = true;
  open_tmp = true;
  write = true;
  partial = [];
  sync = true;
  close = true;
  rename = true;
  remove = true;
  rename_again = true;
  cleanup = true;
}

abbrev zero_digit : ℤ → Text
zero_digit n = codes "0"

abbrev new_key : ApiKey
new_key = record {
  id = 1;
  key = codes "k";
  name = codes "key";
  weight = pos 1;
  status = codes "Active";
  probe_only = false;
  proxy_id = 0;
  created_at = pos 0;
  updated_at = pos 0;
}

-- A mutator that adds a key and asks for no heartbeat.
abbrev add_one : Store → Option Store
add_one s = some (record s {
  api_keys = new_key ∷ s.api_keys;
  next_api_id = 2;
  system_config = record (s.system_config) { stream_keep_alive_sec = negsuc 0 };
})

abbrev changed_store : Store
changed_store = record (normalize_store zero_digit default_store) {
  api_keys = new_key ∷ [];
  next_api_id = 2;
  system_config = record ((normalize_store zero_digit default_store).system_config) {
    stream_keep_alive_sec = negsuc 0;
  };
}

abbrev kept_store : Store
kept_store = normalize_store zero_digit (normalize_store zero_digit changed_store)

-- One text, which stands for one value.
abbrev only : {A : Type 0} → A → Codec A
only a = record { encode = λ b. some (codes "x"); decode = λ out text. some a }

abbrev codecs : Codecs
codecs = record {
  api_keys = only (list_file kept_store.next_api_id kept_store.api_keys);
  proxies = only (list_file kept_store.next_proxy_id kept_store.proxies);
  master_keys = only (list_file kept_store.next_mk_id kept_store.master_keys);
  core_profiles = only (list_file kept_store.next_core_profile_id kept_store.core_profiles);
  system_config = only kept_store.system_config;
  external_proxy_sources = only kept_store.external_proxy_sources;
  proxy_import_schedule = only kept_store.proxy_import_schedule;
  proxy_import_logs = only kept_store.proxy_import_logs;
  raw_map = only [];
  encode_store = λ s. some (codes "x");
  decode_store = λ text. some kept_store;
  decimal = zero_digit;
}

abbrev no_files : Database
no_files = record { cache = none; files = [] }

abbrev updated : Database × Bool
updated = update_store codecs (λ n. true) true (λ n. no_faults) add_one no_files

changed_lem : snapshot codecs (λ n. true) no_files >>= add_one ≡ some changed_store
unfolding snapshot read_store_unlocked read_file read_json_file read_raw_json_file
    merge_health_state lookup trim_space normalize_store
changed_lem = refl

split_lem : split_health_state codecs.raw_map kept_store.health_state ≡ some ([], [])
unfolding split_health_state normalize_store trim_space
split_lem = refl

printed_lem :
    (is_all_nul (codes "x" ++ 10 ∷ []) ≡ false)
    × (is_empty (trim_space (codes "x" ++ 10 ∷ [])) ≡ false)
unfolding is_all_nul trim_space is_space
printed_lem = (refl, refl)

sure : (text : Text) → some (codes "x") ≡ some text → codes "x" ≡ text
sure text e = cc e

restores_lem : {A : Type 0} (out a : A) → Restores (only a) out a
restores_lem out a text e =
    subst (λ t. (some a ≡ some a) × IsPrinted (t ++ 10 ∷ [])) (sure text e) (refl, printed_lem)

restorable_lem : Restorable codecs kept_store
restorable_lem = record {
  api_keys = restores_lem (list_file 1 []) (list_file kept_store.next_api_id kept_store.api_keys);
  proxies = restores_lem (list_file 1 []) (list_file kept_store.next_proxy_id kept_store.proxies);
  master_keys =
      restores_lem (list_file 1 []) (list_file kept_store.next_mk_id kept_store.master_keys);
  core_profiles =
      restores_lem (list_file 1 [])
        (list_file kept_store.next_core_profile_id kept_store.core_profiles);
  system_config = restores_lem default_store.system_config kept_store.system_config;
  external_proxy_sources =
      restores_lem default_store.external_proxy_sources kept_store.external_proxy_sources;
  proxy_import_schedule =
      restores_lem default_store.proxy_import_schedule kept_store.proxy_import_schedule;
  proxy_import_logs = restores_lem [] kept_store.proxy_import_logs;
}

braces_lem : IsPrinted (written [] (codes "{}\n"))
unfolding is_all_nul trim_space is_space
braces_lem = (refl, refl)

brackets_lem : IsPrinted (written [] (codes "[]\n"))
unfolding is_all_nul trim_space is_space
brackets_lem = (refl, refl)

nil_lem : updated.1 ≡ true
unfolding update_store snapshot read_store_unlocked read_file read_json_file read_raw_json_file
    merge_health_state lookup trim_space write_store_unlocked write_items write_item write_json_file
    write_raw_json_file write_data_file put_in_place split_health_state normalize_store
nil_lem = refl

faithful_lem :
    (store : Store)
    → snapshot codecs (λ n. true) no_files >>= add_one ≡ some store
    → (text : Text) → codecs.encode_store (kept codecs store) ≡ some text
    → codecs.decode_store text ≡ some (kept codecs store)
faithful_lem store e text h =
    let same : changed_store ≡ store = cc (changed_lem, e) in ap (λ s. some (kept codecs s)) same

update_store-Updated_example : Updated codecs (λ n. true) add_one no_files updated
update_store-Updated_example =
    update_store-Updated codecs (λ n. true) true (λ n. no_faults) add_one no_files

update_store-reread_example :
    read_store_unlocked codecs (λ n. true) updated.0.files ≡ reread codecs kept_store [] []
update_store-reread_example =
    update_store-reread codecs (λ n. true) true (λ n. no_faults) add_one no_files changed_store []
      [] changed_lem split_lem restorable_lem braces_lem brackets_lem nil_lem

update_store-keep_alive_example :
    (s : Store) × (updated.0.cache ≡ some s) × (pos 1 ≤ℤ s.system_config.stream_keep_alive_sec)
update_store-keep_alive_example =
    update_store-keep_alive codecs (λ n. true) true (λ n. no_faults) add_one no_files faithful_lem
      nil_lem
