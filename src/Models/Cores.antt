-- ===== src/Models/Cores.antt =====
-- Profiles of proxy cores and their normal form (pkg/models/core_profiles.go).
pub mod Stable
use nvidia_api_gateway.Prelude.{
  ℕ, Bool, true, false, ◌||◌, Option, none, some, List, [], ◌∷◌, any, if◌then◌else◌,
}
use nvidia_api_gateway.Prelude.Int.{ℤ, pos, ltb_ℤ}
use nvidia_api_gateway.Prelude.Text.{Text, codes, text_eq, trim_space, to_lower}
use nvidia_api_gateway.Models.Proxies.{ProxyTestRecord, sort_strings}

-- Instants are in nanoseconds.
pub record CoreProfile : Type 0 where
  pub id : ℕ
  pub name : Text
  pub protocol : Text
  pub status : Text
  pub server : Text
  pub port : ℤ
  pub local_port : ℤ
  pub transport : Text
  pub tls_mode : Text
  pub sni : Text
  pub allow_insecure : Bool
  pub host : Text
  pub path : Text
  pub service_name : Text
  pub flow : Text
  pub method : Text
  pub username : Text
  pub password : Text
  pub auth_id : Text
  pub fingerprint : Text
  pub reality_public_key : Text
  pub reality_short_id : Text
  pub reality_spider_x : Text
  pub managed_proxy_id : ℕ
  pub remarks : Text
  pub last_test : Option ProxyTestRecord
  pub created_at : ℤ
  pub updated_at : ℤ

-- strings.ToLower(strings.TrimSpace(s))
abbrev pub plain : Text → Text
plain s = to_lower (trim_space s)

unfoldable pub normalize_core_profile_status : Text → Text
normalize_core_profile_status status =
    if text_eq (trim_space status) (codes "Disabled") then codes "Disabled" else codes "Enabled"

unfoldable pub normalize_core_profile_transport : Text → Text
normalize_core_profile_transport value =
    if text_eq (plain value) (codes "ws")
    then codes "ws"
    else if text_eq (plain value) (codes "grpc")
    then codes "grpc"
    else codes "tcp"

unfoldable pub normalize_core_profile_tls_mode : Text → Text → Text
normalize_core_profile_tls_mode protocol value =
    if text_eq (plain value) (codes "tls")
    then codes "tls"
    else if text_eq (plain value) (codes "reality")
    then codes "reality"
    else if text_eq (plain protocol) (codes "trojan")
    then codes "tls"
    else codes "none"

unfoldable pub normalize_core_profile_method : Text → Text → Text
normalize_core_profile_method protocol method =
    let trimmed = plain method in
    if text_eq (plain protocol) (codes "shadowsocks")
    then if text_eq trimmed (codes "plain") then codes "none" else trimmed
    else trimmed

unfoldable pub normalize_core_profile : CoreProfile → CoreProfile
unfolding normalize_core_profile_status normalize_core_profile_transport
    normalize_core_profile_tls_mode normalize_core_profile_method
normalize_core_profile p = record p {
  name = trim_space p.name;
  protocol = plain p.protocol;
  status = normalize_core_profile_status p.status;
  server = trim_space p.server;
  transport = normalize_core_profile_transport p.transport;
  tls_mode = normalize_core_profile_tls_mode (plain p.protocol) p.tls_mode;
  sni = trim_space p.sni;
  host = trim_space p.host;
  path = trim_space p.path;
  service_name = trim_space p.service_name;
  flow = trim_space p.flow;
  method = normalize_core_profile_method (plain p.protocol) p.method;
  username = trim_space p.username;
  password = trim_space p.password;
  auth_id = trim_space p.auth_id;
  fingerprint = trim_space p.fingerprint;
  reality_public_key = trim_space p.reality_public_key;
  reality_short_id = trim_space p.reality_short_id;
  reality_spider_x = trim_space p.reality_spider_x;
  remarks = trim_space p.remarks;
  local_port = if ltb_ℤ p.local_port (pos 0) then pos 0 else p.local_port;
}

abbrev pub shadowsocks_methods : List Text
shadowsocks_methods =
    codes "2022-blake3-aes-128-gcm"
    ∷ codes "2022-blake3-aes-256-gcm"
    ∷ codes "2022-blake3-chacha20-poly1305"
    ∷ codes "aes-128-gcm"
    ∷ codes "aes-256-gcm"
    ∷ codes "chacha20-poly1305"
    ∷ codes "chacha20-ietf-poly1305"
    ∷ codes "xchacha20-poly1305"
    ∷ codes "xchacha20-ietf-poly1305"
    ∷ codes "none"
    ∷ codes "plain"
    ∷ []

unfoldable pub is_supported_shadowsocks_method : Text → Bool
unfolding normalize_core_profile_method
is_supported_shadowsocks_method method =
    any (text_eq (normalize_core_profile_method (codes "shadowsocks") method)) shadowsocks_methods

abbrev but_plain : List Text → List Text
but_plain [] = []
but_plain (m ∷ ms) = let rest = but_plain ms in if text_eq m (codes "plain") then rest else m ∷ rest

-- A range over a map has no fixed order: sort.Strings gives the texts one.
unfoldable pub supported_shadowsocks_methods : List Text
unfolding sort_strings
supported_shadowsocks_methods = sort_strings (but_plain shadowsocks_methods)
