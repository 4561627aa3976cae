-- ===== src/Models/Config.antt =====
-- SystemConfig and NormalizeSystemConfig (pkg/models/models.go). An int field is a signed integer.
pub mod Normal
use nvidia_api_gateway.Prelude.{Bool, true, false, not, ◌&&◌, [], ℕ, if◌then◌else◌}
use nvidia_api_gateway.Prelude.Int.{ℤ, pos, eqb_ℤ, ltb_ℤ, leb_ℤ}
use nvidia_api_gateway.Prelude.Text.{Text, codes, trim_space, is_empty}

pub record SystemConfig : Type 0 where
  pub upstream_base_url : Text
  pub scheduler_strategy : Text
  pub max_retries : ℤ
  pub max_concurrency : ℤ
  pub request_timeout_second : ℤ
  pub upstream_proxy_url : Text
  pub upstream_proxy_id : ℕ
  pub enable_open_ai : Bool
  pub enable_claude : Bool
  pub enable_gemini : Bool
  pub anonymous_access : Bool
  pub first_byte_timeout_ms : ℤ
  pub health_probe_timeout_sec : ℤ
  pub stream_idle_timeout_sec : ℤ
  pub stream_keep_alive_sec : ℤ
  pub transport_retry_count : ℤ
  pub transport_retry_backoff_ms : ℤ
  pub silent_fallback_on_exhaustion : Bool

abbrev pub default_transport_retry_count : ℤ
default_transport_retry_count = pos 2

abbrev pub default_max_retries : ℤ
default_max_retries = pos 5

abbrev pub default_transport_retry_backoff_ms : ℤ
default_transport_retry_backoff_ms = pos 300

abbrev pub default_first_byte_timeout_ms : ℤ
default_first_byte_timeout_ms = pos 90_000

abbrev pub default_system_config : SystemConfig
default_system_config = record {
  upstream_base_url = codes "https://integrate.api.nvidia.com/v1";
  scheduler_strategy = codes "weighted_round_robin";
  max_retries = default_max_retries;
  max_concurrency = pos 3;
  request_timeout_second = pos 600;
  upstream_proxy_url = [];
  upstream_proxy_id = 0;
  enable_open_ai = true;
  enable_claude = true;
  enable_gemini = true;
  anonymous_access = false;
  first_byte_timeout_ms = default_first_byte_timeout_ms;
  health_probe_timeout_sec = pos 45;
  stream_idle_timeout_sec = pos 600;
  stream_keep_alive_sec = pos 15;
  transport_retry_count = default_transport_retry_count;
  transport_retry_backoff_ms = default_transport_retry_backoff_ms;
  silent_fallback_on_exhaustion = true;
}

-- if value == "" { value = default }, after strings.TrimSpace
unfoldable pub text_or : Text → Text → Text
text_or value default =
    let trimmed = trim_space value in if is_empty trimmed then default else trimmed

-- if value <= 0 { value = default }
unfoldable pub positive_or : ℤ → ℤ → ℤ
positive_or value default = if leb_ℤ value (pos 0) then default else value

-- if value < 0 { value = default }
unfoldable pub nonneg_or : ℤ → ℤ → ℤ
nonneg_or value default = if ltb_ℤ value (pos 0) then default else value

-- 0 asks for the default, and a negative value for no heartbeat, which is kept as 0.
unfoldable pub normalize_keep_alive : ℤ → ℤ
normalize_keep_alive value =
    if eqb_ℤ value (pos 0)
    then default_system_config.stream_keep_alive_sec
    else if ltb_ℤ value (pos 0)
    then pos 0
    else value

unfoldable pub normalize_system_config : SystemConfig → SystemConfig
unfolding text_or positive_or nonneg_or normalize_keep_alive
normalize_system_config cfg =
    let defaults = default_system_config in
    let none_enabled = not cfg.enable_open_ai && not cfg.enable_claude && not cfg.enable_gemini in
    record {
      upstream_base_url = text_or cfg.upstream_base_url defaults.upstream_base_url;
      scheduler_strategy = text_or cfg.scheduler_strategy defaults.scheduler_strategy;
      max_retries = nonneg_or cfg.max_retries defaults.max_retries;
      max_concurrency = positive_or cfg.max_concurrency defaults.max_concurrency;
      request_timeout_second =
          positive_or cfg.request_timeout_second defaults.request_timeout_second;
      upstream_proxy_url = trim_space cfg.upstream_proxy_url;
      upstream_proxy_id = cfg.upstream_proxy_id;
      enable_open_ai = if none_enabled then defaults.enable_open_ai else cfg.enable_open_ai;
      enable_claude = if none_enabled then defaults.enable_claude else cfg.enable_claude;
      enable_gemini = if none_enabled then defaults.enable_gemini else cfg.enable_gemini;
      anonymous_access = cfg.anonymous_access;
      first_byte_timeout_ms = positive_or cfg.first_byte_timeout_ms defaults.first_byte_timeout_ms;
      health_probe_timeout_sec =
          positive_or cfg.health_probe_timeout_sec defaults.health_probe_timeout_sec;
      stream_idle_timeout_sec =
          positive_or cfg.stream_idle_timeout_sec defaults.stream_idle_timeout_sec;
      stream_keep_alive_sec = normalize_keep_alive cfg.stream_keep_alive_sec;
      transport_retry_count = positive_or cfg.transport_retry_count defaults.transport_retry_count;
      transport_retry_backoff_ms =
          positive_or cfg.transport_retry_backoff_ms defaults.transport_retry_backoff_ms;
      silent_fallback_on_exhaustion = cfg.silent_fallback_on_exhaustion;
    }
