-- ===== src/Models/Cores/Stable.antt =====
-- The normal form of a core's profile is one: normalizing again changes nothing.
use nvidia_api_gateway.Prelude.{◌≡◌, refl, ◌∙◌, ap, inl, inr, arith, Bool-cases, if◌then◌else◌}
use nvidia_api_gateway.Prelude.Int.{ℤ, pos, ltb_ℤ}
use nvidia_api_gateway.Prelude.Text.{Text, codes, text_eq, trim_space, to_lower, is_space}
use nvidia_api_gateway.Prelude.Text.Trim.{
  trim_space_idem, trim_space_fixed, trim_space-IsTrimmed, to_lower-IsTrimmed, to_lower_idem,
}
use nvidia_api_gateway.Models.Cores.{
  CoreProfile, plain, normalize_core_profile_status, normalize_core_profile_transport,
  normalize_core_profile_tls_mode, normalize_core_profile_method, normalize_core_profile,
}

plain_idem : (s : Text) → plain (plain s) ≡ plain s
plain_idem s =
    ap to_lower
      (trim_space_fixed (plain s) (to_lower-IsTrimmed (trim_space s) (trim_space-IsTrimmed s)))
    ∙ to_lower_idem (trim_space s)

status_idem :
    (s : Text)
    → normalize_core_profile_status (normalize_core_profile_status s)
      ≡ normalize_core_profile_status s
unfolding normalize_core_profile_status trim_space is_space text_eq
status_idem s = elim (Bool-cases (text_eq (trim_space s) (codes "Disabled"))) [
  | inl off ↦ rw off
  | inr on ↦ rw on
]

transport_idem :
    (s : Text)
    → normalize_core_profile_transport (normalize_core_profile_transport s)
      ≡ normalize_core_profile_transport s
unfolding normalize_core_profile_transport to_lower trim_space is_space text_eq
transport_idem s = elim (Bool-cases (text_eq (plain s) (codes "ws"))) [
  | inl ws ↦ rw ws
  | inr other ↦ elim (Bool-cases (text_eq (plain s) (codes "grpc"))) [
    | inl grpc ↦ rw (other, grpc)
    | inr tcp ↦ rw (other, tcp)
  ]
]

tls_mode_idem :
    (protocol s : Text)
    → normalize_core_profile_tls_mode (plain protocol) (normalize_core_profile_tls_mode protocol s)
      ≡ normalize_core_profile_tls_mode protocol s
unfolding normalize_core_profile_tls_mode to_lower trim_space is_space text_eq
tls_mode_idem protocol s = elim (Bool-cases (text_eq (plain s) (codes "tls"))) [
  | inl tls ↦ rw tls
  | inr other ↦ elim (Bool-cases (text_eq (plain s) (codes "reality"))) [
    | inl reality ↦ rw (other, reality)
    | inr neither ↦ elim (Bool-cases (text_eq (plain protocol) (codes "trojan"))) [
      | inl trojan ↦ rw (other, neither, trojan)
      | inr plain_text ↦ rw (other, neither, plain_text, plain_idem protocol, plain_text)
    ]
  ]
]

none_plain : plain (codes "none") ≡ codes "none"
unfolding to_lower trim_space is_space
none_plain = refl

method_idem :
    (protocol s : Text)
    → normalize_core_profile_method (plain protocol) (normalize_core_profile_method protocol s)
      ≡ normalize_core_profile_method protocol s
unfolding normalize_core_profile_method text_eq
method_idem protocol s = elim (Bool-cases (text_eq (plain protocol) (codes "shadowsocks"))) [
  | inr other ↦ rw (plain_idem protocol, other, plain_idem s)
  | inl shadowsocks ↦ elim (Bool-cases (text_eq (plain s) (codes "plain"))) [
    | inl clear ↦ rw (plain_idem protocol, shadowsocks, clear) (rw none_plain)
    | inr cipher ↦ rw (plain_idem protocol, shadowsocks, cipher, plain_idem s, cipher)
  ]
]

local_port_idem :
    (n : ℤ)
    → let once = if ltb_ℤ n (pos 0) then pos 0 else n in
      (if ltb_ℤ once (pos 0) then pos 0 else once) ≡ once
local_port_idem n = ground arith

-- A second pass of NormalizeCoreProfile changes nothing.
pub normalize_core_profile_idem :
    (p : CoreProfile) → normalize_core_profile (normalize_core_profile p) ≡ normalize_core_profile p
unfolding normalize_core_profile
normalize_core_profile_idem p = λ i. record p {
  name = trim_space_idem p.name i;
  protocol = plain_idem p.protocol i;
  status = status_idem p.status i;
  server = trim_space_idem p.server i;
  transport = transport_idem p.transport i;
  tls_mode = tls_mode_idem (plain p.protocol) p.tls_mode i;
  sni = trim_space_idem p.sni i;
  host = trim_space_idem p.host i;
  path = trim_space_idem p.path i;
  service_name = trim_space_idem p.service_name i;
  flow = trim_space_idem p.flow i;
  method = method_idem (plain p.protocol) p.method i;
  username = trim_space_idem p.username i;
  password = trim_space_idem p.password i;
  auth_id = trim_space_idem p.auth_id i;
  fingerprint = trim_space_idem p.fingerprint i;
  reality_public_key = trim_space_idem p.reality_public_key i;
  reality_short_id = trim_space_idem p.reality_short_id i;
  reality_spider_x = trim_space_idem p.reality_spider_x i;
  remarks = trim_space_idem p.remarks i;
  local_port = local_port_idem p.local_port i;
}
