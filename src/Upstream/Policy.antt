-- ===== src/Upstream/Policy.antt =====
-- What a failure of an upstream request means (pkg/gateway/upstream_error_policy.go).
pub mod Verdicts
use nvidia_api_gateway.Prelude.{
  Bool, true, false, not, ◌&&◌, ◌||◌, ℕ, Option, none, some, List, [], ◌∷◌, any, leb, ◌==◌,
  if◌then◌else◌,
}
use nvidia_api_gateway.Prelude.Int.{ℤ, pos, ◌+ℤ◌, ltb_ℤ, leb_ℤ}
use nvidia_api_gateway.Prelude.Text.{Text, codes, trim_space, to_lower, contains}
use nvidia_api_gateway.Models.Config.{
  SystemConfig, normalize_system_config, default_max_retries, default_transport_retry_count,
  default_transport_retry_backoff_ms,
}

pub data UpstreamFailurePolicy : Type 0 where
  terminal network_transient key_rate_limited key_auth_rejected : UpstreamFailurePolicy

-- A non-nil error: its text, and whether errors.Is finds one of the two sentinel errors in it.
pub record GoError : Type 0 where
  pub message : Text
  pub is_first_byte_timeout : Bool
  pub is_empty_response : Bool

-- The texts of the cases that answer with a transient failure, in their order.
abbrev pub transient_markers : List Text
transient_markers =
    codes "tls handshake timeout"
    ∷ codes "context deadline exceeded"
    ∷ codes "timeout"
    ∷ codes "eof"
    ∷ codes "empty response"
    ∷ codes "no data"
    ∷ codes "server closed idle connection"
    ∷ codes "connection reset"
    ∷ codes "forcibly closed"
    ∷ codes "actively refused"
    ∷ codes "connectex"
    ∷ codes "broken pipe"
    ∷ codes "connection refused"
    ∷ codes "i/o timeout"
    ∷ []

abbrev normal_message : GoError → Text
normal_message err = to_lower (trim_space err.message)

unfoldable pub classify_upstream_transport_error : Option GoError → UpstreamFailurePolicy
classify_upstream_transport_error none = terminal
classify_upstream_transport_error (some err) =
    if err.is_first_byte_timeout || err.is_empty_response
    then network_transient
    else if any (contains (normal_message err)) transient_markers
    then network_transient
    else terminal

unfoldable pub classify_upstream_status_code : ℕ → UpstreamFailurePolicy
classify_upstream_status_code status =
    if status == 429
    then key_rate_limited
    else if status == 401 || status == 403
    then key_auth_rejected
    else if status == 502 || status == 503 || status == 504
    then network_transient
    else if leb 500 status
    then network_transient
    else terminal

unfoldable pub cross_key_attempt_budget : ℤ → ℤ
cross_key_attempt_budget max_retries =
    (if ltb_ℤ max_retries (pos 0) then default_max_retries else max_retries) +ℤ pos 1

unfoldable pub same_key_transport_retry_budget : SystemConfig → ℤ
same_key_transport_retry_budget cfg =
    let cfg' = normalize_system_config cfg in
    if ltb_ℤ cfg'.transport_retry_count (pos 0)
    then default_transport_retry_count
    else cfg'.transport_retry_count

-- In milliseconds.
unfoldable pub transport_retry_backoff : SystemConfig → ℤ
transport_retry_backoff cfg =
    let backoff = (normalize_system_config cfg).transport_retry_backoff_ms in
    if leb_ℤ backoff (pos 0) then default_transport_retry_backoff_ms else backoff

abbrev pub loopback_markers : List Text
loopback_markers = codes "127.0.0.1:" ∷ codes "localhost:" ∷ codes "[::1]:" ∷ []

abbrev pub local_proxy_markers : List Text
local_proxy_markers =
    codes "connectex"
    ∷ codes "actively refused"
    ∷ codes "forcibly closed"
    ∷ codes "connection reset"
    ∷ codes "wsarecv"
    ∷ codes "connection refused"
    ∷ codes "eof"
    ∷ codes "broken pipe"
    ∷ codes "i/o timeout"
    ∷ []

unfoldable pub is_likely_local_loopback_proxy_error : Option GoError → Bool
is_likely_local_loopback_proxy_error none = false
is_likely_local_loopback_proxy_error (some err) =
    if not (any (contains (normal_message err)) loopback_markers)
    then false
    else any (contains (normal_message err)) local_proxy_markers
