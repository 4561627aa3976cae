-- ===== src/Models/Config/Normal.antt =====
-- What NormalizeSystemConfig guarantees, and what it does to its own results.
use nvidia_api_gateway.Prelude.{
  Bool, true, false, not, ◌&&◌, ◌||◌, ◌≡◌, refl, ◌∙◌, if◌then◌else◌, arith, inl, inr, Bool-cases,
}
use nvidia_api_gateway.Prelude.Int.{ℤ, pos, ◌≤ℤ◌}
use nvidia_api_gateway.Prelude.Text.{Text, trim_space, is_empty, is_space}
use nvidia_api_gateway.Prelude.Text.Trim.{trim_space_idem}
use nvidia_api_gateway.Models.Config.{
  SystemConfig, text_or, positive_or, nonneg_or, normalize_keep_alive, normalize_system_config,
  default_system_config,
}

-- What the rest of the program relies on.
pub record IsNormal (cfg : SystemConfig) : Type 0 where
  pub has_base_url : is_empty cfg.upstream_base_url ≡ false
  pub has_strategy : is_empty cfg.scheduler_strategy ≡ false
  pub retries : pos 0 ≤ℤ cfg.max_retries
  pub concurrency : pos 1 ≤ℤ cfg.max_concurrency
  pub request_timeout : pos 1 ≤ℤ cfg.request_timeout_second
  pub first_byte_timeout : pos 1 ≤ℤ cfg.first_byte_timeout_ms
  pub probe_timeout : pos 1 ≤ℤ cfg.health_probe_timeout_sec
  pub idle_timeout : pos 1 ≤ℤ cfg.stream_idle_timeout_sec
  pub keep_alive : pos 0 ≤ℤ cfg.stream_keep_alive_sec
  pub transport_retries : pos 1 ≤ℤ cfg.transport_retry_count
  pub transport_backoff : pos 1 ≤ℤ cfg.transport_retry_backoff_ms
  pub protocol : cfg.enable_open_ai || cfg.enable_claude || cfg.enable_gemini ≡ true

text_or_nonempty :
    (value default : Text) → is_empty default ≡ false → is_empty (text_or value default) ≡ false
unfolding text_or
text_or_nonempty value default h = elim (Bool-cases (is_empty (trim_space value))) [
  | inl e ↦ rw e h
  | inr e ↦ rw e e
]

positive_or_positive : (value default : ℤ) → pos 1 ≤ℤ default → pos 1 ≤ℤ positive_or value default
unfolding positive_or
positive_or_positive value default h = ground arith

-- The result of NormalizeSystemConfig, for any configuration: the base URL and the strategy are not
-- empty, the retries and the heartbeat are not negative, every other limit and timeout is at least
-- 1, and some protocol is enabled.
pub normalize_system_config-IsNormal : (cfg : SystemConfig) → IsNormal (normalize_system_config cfg)
unfolding normalize_system_config
normalize_system_config-IsNormal cfg = record {
  has_base_url =
      text_or_nonempty cfg.upstream_base_url default_system_config.upstream_base_url refl;
  has_strategy =
      text_or_nonempty cfg.scheduler_strategy default_system_config.scheduler_strategy refl;
  retries = ground arith;
  concurrency = ground arith;
  request_timeout = ground arith;
  first_byte_timeout = ground arith;
  probe_timeout = ground arith;
  idle_timeout = ground arith;
  keep_alive = ground arith;
  transport_retries = ground arith;
  transport_backoff = ground arith;
  protocol = ground arith;
}

text_or_idem :
    (value default : Text)
    → trim_space default ≡ default
    → is_empty default ≡ false
    → text_or (text_or value default) default ≡ text_or value default
unfolding text_or
text_or_idem value default t h = elim (Bool-cases (is_empty (trim_space value))) [
  | inl e ↦ rw (e, t, h)
  | inr e ↦ rw (e, trim_space_idem value, e)
]

positive_or_idem :
    (value default : ℤ)
    → positive_or (positive_or value default) default ≡ positive_or value default
unfolding positive_or
positive_or_idem value default = ground arith

nonneg_or_idem :
    (value default : ℤ) → nonneg_or (nonneg_or value default) default ≡ nonneg_or value default
unfolding nonneg_or
nonneg_or_idem value default = ground arith

enabled_idem :
    (a b c x : Bool)
    → let none = not a && not b && not c in
      (if not (if none then true else a)
          && not (if none then true else b)
          && not (if none then true else c)
        then true
        else if none
        then true
        else x)
      ≡ (if none then true else x)
enabled_idem a b c x = ground arith

base_url_trimmed :
    trim_space default_system_config.upstream_base_url ≡ default_system_config.upstream_base_url
unfolding trim_space is_space
base_url_trimmed = refl

strategy_trimmed :
    trim_space default_system_config.scheduler_strategy ≡ default_system_config.scheduler_strategy
unfolding trim_space is_space
strategy_trimmed = refl

-- The heartbeat interval after one more pass.
abbrev pub renormalized : SystemConfig → SystemConfig
renormalized cfg = record cfg {
  stream_keep_alive_sec = normalize_keep_alive cfg.stream_keep_alive_sec;
}

-- A second pass of NormalizeSystemConfig changes nothing but the heartbeat interval: it replaces a 0,
-- for no heartbeat, by the default.
pub normalize_system_config_again :
    (cfg : SystemConfig)
    → normalize_system_config (normalize_system_config cfg)
      ≡ renormalized (normalize_system_config cfg)
unfolding normalize_system_config
normalize_system_config_again cfg =
    let d = default_system_config in
    λ i. record {
      upstream_base_url =
          text_or_idem cfg.upstream_base_url d.upstream_base_url base_url_trimmed refl i;
      scheduler_strategy =
          text_or_idem cfg.scheduler_strategy d.scheduler_strategy strategy_trimmed refl i;
      max_retries = nonneg_or_idem cfg.max_retries d.max_retries i;
      max_concurrency = positive_or_idem cfg.max_concurrency d.max_concurrency i;
      request_timeout_second =
          positive_or_idem cfg.request_timeout_second d.request_timeout_second i;
      upstream_proxy_url = trim_space_idem cfg.upstream_proxy_url i;
      upstream_proxy_id = cfg.upstream_proxy_id;
      enable_open_ai =
          enabled_idem cfg.enable_open_ai cfg.enable_claude cfg.enable_gemini cfg.enable_open_ai i;
      enable_claude =
          enabled_idem cfg.enable_open_ai cfg.enable_claude cfg.enable_gemini cfg.enable_claude i;
      enable_gemini =
          enabled_idem cfg.enable_open_ai cfg.enable_claude cfg.enable_gemini cfg.enable_gemini i;
      anonymous_access = cfg.anonymous_access;
      first_byte_timeout_ms = positive_or_idem cfg.first_byte_timeout_ms d.first_byte_timeout_ms i;
      health_probe_timeout_sec =
          positive_or_idem cfg.health_probe_timeout_sec d.health_probe_timeout_sec i;
      stream_idle_timeout_sec =
          positive_or_idem cfg.stream_idle_timeout_sec d.stream_idle_timeout_sec i;
      stream_keep_alive_sec = normalize_keep_alive (normalize_keep_alive cfg.stream_keep_alive_sec);
      transport_retry_count = positive_or_idem cfg.transport_retry_count d.transport_retry_count i;
      transport_retry_backoff_ms =
          positive_or_idem cfg.transport_retry_backoff_ms d.transport_retry_backoff_ms i;
      silent_fallback_on_exhaustion = cfg.silent_fallback_on_exhaustion;
    }

keep_alive_fixed : (v : ℤ) → pos 1 ≤ℤ v → normalize_keep_alive v ≡ v
unfolding normalize_keep_alive
keep_alive_fixed v h = ground arith

keep_alive_twice : (v : ℤ) → pos 1 ≤ℤ normalize_keep_alive (normalize_keep_alive v)
unfolding normalize_keep_alive
keep_alive_twice v = ground arith

-- Once a configuration has been normalized twice, as a store that is written and read back is, the
-- heartbeat interval is at least 1, whatever was configured: no setting turns the heartbeat off.
pub keep_alive_never_off :
    (cfg : SystemConfig)
    → pos 1 ≤ℤ (normalize_system_config (normalize_system_config cfg)).stream_keep_alive_sec
keep_alive_never_off cfg =
    rw (normalize_system_config_again cfg)
      (unfold normalize_system_config in keep_alive_twice cfg.stream_keep_alive_sec)

-- From the second pass on NormalizeSystemConfig changes nothing.
pub normalize_system_config_stable :
    (cfg : SystemConfig)
    → let twice = normalize_system_config (normalize_system_config cfg) in
      normalize_system_config twice ≡ twice
normalize_system_config_stable cfg =
    let once = normalize_system_config cfg in
    normalize_system_config_again once ∙ (λ i. record (normalize_system_config once) {
      stream_keep_alive_sec =
          keep_alive_fixed (normalize_system_config once).stream_keep_alive_sec
            (keep_alive_never_off cfg) i;
    })
