-- ===== src/MasterKeys/Tests.antt =====
-- A key that is made, used and deleted, and the theorems at it.
use nvidia_api_gateway.Prelude.{◌≡◌, refl, true, false, inr, none, some, [], ◌∷◌, map, arith}
use nvidia_api_gateway.Prelude.Int.{ℤ, pos}
use nvidia_api_gateway.Prelude.Text.{Text, codes, text_eq, trim_space, is_space}
use nvidia_api_gateway.Access.{MasterKey, TokenFields}
use nvidia_api_gateway.Disk.{
  Faults, write_json_file, write_raw_json_file, write_data_file, put_in_place,
}
use nvidia_api_gateway.Store.{
  Store, default_store, normalize_store, Codec, Codecs, split_health_state,
}
use nvidia_api_gateway.Store.Database.{
  Database, snapshot, clone_store, update_store, write_store_unlocked, write_items, write_item,
}
use nvidia_api_gateway.MasterKeys.{
  CreateMasterKeyRequest, normalize_master_key_status, normalize_master_key_create, new_master_key,
  insert_master_key, delete_loop, delete_master_key, rotate_loop,
}
use nvidia_api_gateway.MasterKeys.Validity.{IsValid}
use nvidia_api_gateway.MasterKeys.Steps.{added, Steps, start, step, Steps-IsValid}
use nvidia_api_gateway.MasterKeys.Handlers.{other_status, handle, Answered, handle-Answered}
use nvidia_api_gateway.MasterKeys.Rotation.{rotate_loop-ends}

abbrev zero_digit : ℤ → Text
zero_digit n = codes "0"

abbrev request : CreateMasterKeyRequest
request = record {
  name = codes " team ";
  key = codes "sk-1";
  rpm = pos 10;
  tpm = pos 0;
  quota = pos 100;
  status = [];
}

abbrev team : MasterKey
team = record {
  id = 1;
  key = codes "sk-1";
  name = codes "team";
  rpm = pos 10;
  tpm = pos 0;
  quota = pos 100;
  used_quota = pos 0;
  status = codes "Active";
  created_at = pos 5;
  updated_at = pos 5;
}

abbrev no_keys : Store
no_keys = record default_store { next_mk_id = 2 }

abbrev one_key : Store
one_key = record default_store { master_keys = team ∷ []; next_mk_id = 2 }

accepted_lem :
    normalize_master_key_create none request ≡ inr (codes "team", codes "sk-1", codes "Active")
unfolding normalize_master_key_create normalize_master_key_status trim_space is_space text_eq
accepted_lem = refl

inserted_lem :
    insert_master_key
      (new_master_key request (pos 5) (codes "team", codes "sk-1", codes "Active"))
      default_store
    ≡ inr one_key
unfolding insert_master_key
inserted_lem = refl

abbrev making : Steps zero_digit default_store one_key
making = step start (
    added none request (pos 5) (codes "team") (codes "sk-1") (codes "Active") accepted_lem
      inserted_lem (omega arith))

Steps-IsValid_example : IsValid one_key
Steps-IsValid_example = Steps-IsValid zero_digit one_key making

abbrev bearer : TokenFields
bearer = record {
  authorization = codes "Bearer sk-1";
  x_api_key = [];
  x_goog_api_key = [];
  query_key = [];
  query_api_key = [];
}

differ_lem : text_eq (codes "sk-1") (codes "sk-2") ≡ false
unfolding text_eq
differ_lem = refl

rotate_loop-ends_example :
    (text : Text) × (rotate_loop 1 (team ∷ []) (map some (codes "sk-1" ∷ codes "sk-2" ∷ []))
      ≡ some (inr text))
rotate_loop-ends_example =
    rotate_loop-ends 1 (team ∷ []) (codes "sk-1" ∷ codes "sk-2" ∷ []) ((differ_lem, tt), (tt, tt))
      (omega arith)

-- A codec that gives back the value that is there.
abbrev same : {A : Type 0} → Codec A
same = record { encode = λ a. some (codes "x"); decode = λ out text. some out }

abbrev codecs : Codecs
codecs = record {
  api_keys = same;
  proxies = same;
  master_keys = same;
  core_profiles = same;
  system_config = same;
  external_proxy_sources = same;
  proxy_import_schedule = same;
  proxy_import_logs = same;
  raw_map = same;
  encode_store = λ s. none;
  decode_store = λ text. none;
  decimal = zero_digit;
}

abbrev no_faults : Faults
no_faults = record {
  mkdir = true;
  open_tmp = true;
  write = true;
  partial = [];
  sync = true;
  close = true;
  rename = true;
  remove = true;
  rename_again = true;
  cleanup = true;
}

abbrev running : Database
running = record { cache = some one_key; files = [] }

-- Deleting the key is answered with 200, and deleting another with 404.
deletes :
    (handle codecs (λ n. true) true (λ n. no_faults) other_status (delete_master_key 1) running).1
    ≡ 200
unfolding handle update_store snapshot clone_store delete_master_key delete_loop
    write_store_unlocked write_items write_item write_json_file write_raw_json_file write_data_file
    put_in_place split_health_state normalize_store trim_space
deletes = refl

misses :
    (handle codecs (λ n. true) true (λ n. no_faults) other_status (delete_master_key 7) running).1
    ≡ 404
unfolding handle update_store snapshot clone_store delete_master_key delete_loop
misses = refl

handle-Answered_example :
    Answered codecs
      (λ n. true)
      true
      (λ n. no_faults)
      other_status
      (delete_master_key 1)
      running
      (handle codecs (λ n. true) true (λ n. no_faults) other_status (delete_master_key 1) running)
handle-Answered_example =
    handle-Answered codecs (λ n. true) true (λ n. no_faults) other_status (delete_master_key 1)
      running
