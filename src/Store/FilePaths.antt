-- ===== src/Store/FilePaths.antt =====
-- The paths of the data files (pkg/db/db.go), in the directory of the store.
use nvidia_api_gateway.Prelude.Text.{Text, codes}

abbrev pub api_keys : Text
api_keys = codes "keys/api_keys.json"

abbrev pub master_keys : Text
master_keys = codes "keys/master_keys.json"

abbrev pub proxies : Text
proxies = codes "config/proxies.json"

abbrev pub core_profiles : Text
core_profiles = codes "config/core_profiles.json"

abbrev pub system_config : Text
system_config = codes "config/system_config.json"

abbrev pub external_proxy_sources : Text
external_proxy_sources = codes "config/external_proxy_sources.json"

abbrev pub proxy_import_schedule : Text
proxy_import_schedule = codes "config/proxy_import_schedule.json"

abbrev pub proxy_import_logs : Text
proxy_import_logs = codes "state/proxy_import_logs.json"

abbrev pub health_state : Text
health_state = codes "state/health_state.json"

abbrev pub model_catalog : Text
model_catalog = codes "cache/model_catalog.json"
