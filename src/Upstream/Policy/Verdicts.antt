-- ===== src/Upstream/Policy/Verdicts.antt =====
-- How the two judgements of a failure fit together, and the budgets that follow from them.
use nvidia_api_gateway.Prelude.{Bool, true, false, ℕ, some, any, ◌≡◌, ◌↔◌, ◌⊎◌, ◌≤◌, arith}
use nvidia_api_gateway.Prelude.Int.{pos, ◌+ℤ◌, ◌≤ℤ◌}
use nvidia_api_gateway.Prelude.Text.{Text, codes, trim_space, to_lower, contains}
use nvidia_api_gateway.Models.Config.{SystemConfig}
use nvidia_api_gateway.Models.Config.Normal.{normalize_system_config-IsNormal}
use nvidia_api_gateway.Upstream.Policy.{
  network_transient, key_rate_limited, key_auth_rejected, GoError,
  classify_upstream_transport_error, classify_upstream_status_code, cross_key_attempt_budget,
  same_key_transport_retry_budget, transport_retry_backoff, is_likely_local_loopback_proxy_error,
  normal_message, local_proxy_markers, transient_markers,
}

markers_covered :
    (p : Text → Bool)
    → p (codes "wsarecv") ≡ false
    → any p local_proxy_markers ≡ true
    → any p transient_markers ≡ true
markers_covered p w h = ground arith

-- An error that looks like a failing local proxy is judged transient, unless its text holds
-- "wsarecv".
pub loopback_transient :
    (err : GoError)
    → is_likely_local_loopback_proxy_error (some err) ≡ true
    → contains (to_lower (trim_space err.message)) (codes "wsarecv") ≡ false
    → classify_upstream_transport_error (some err) ≡ network_transient
unfolding is_likely_local_loopback_proxy_error classify_upstream_transport_error
loopback_transient err h w = ground (arith, markers_covered (contains (normal_message err)) w)

-- The judgement of an HTTP status: rate limited exactly at 429, rejected exactly at 401 and 403,
-- transient exactly from 500 on, and terminal exactly at every other status.
pub classify_upstream_status_code_iff :
    (status : ℕ)
    → ((classify_upstream_status_code status ≡ key_rate_limited) ↔ (status ≡ 429))
      × ((classify_upstream_status_code status ≡ key_auth_rejected)
          ↔ ((status ≡ 401) ⊎ (status ≡ 403)))
      × ((classify_upstream_status_code status ≡ network_transient) ↔ (500 ≤ status))
unfolding classify_upstream_status_code
classify_upstream_status_code_iff status = (ground arith, ground arith, ground arith)

-- The budgets of a normalized configuration: at least one attempt over all keys, and at least two
-- attempts with one key, a positive time apart.
pub budgets_positive :
    (cfg : SystemConfig)
    → (pos 1 ≤ℤ cross_key_attempt_budget cfg.max_retries)
      × (pos 2 ≤ℤ same_key_transport_retry_budget cfg +ℤ pos 1)
      × (pos 1 ≤ℤ transport_retry_backoff cfg)
unfolding cross_key_attempt_budget same_key_transport_retry_budget transport_retry_backoff ◌+ℤ◌
budgets_positive cfg = (
  ground arith,
  ground (arith, normalize_system_config-IsNormal cfg),
  ground (arith, normalize_system_config-IsNormal cfg),
)
