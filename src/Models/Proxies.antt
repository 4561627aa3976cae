-- ===== src/Models/Proxies.antt =====
-- Proxies, the sources that they are imported from and the schedule of the import, with their normal
-- forms (pkg/models/models.go).
pub mod Sources
use nvidia_api_gateway.Prelude.{
  ℕ, ◌+◌, ◌-◌, Bool, true, false, not, ◌&&◌, ◌||◌, Option, none, some, List, [], ◌∷◌, ◌++◌, map,
  any, ltb, leb, ◌==◌, if◌then◌else◌,
}
use nvidia_api_gateway.Prelude.Int.{ℤ, pos, ltb_ℤ}
use nvidia_api_gateway.Prelude.Text.{Text, codes, text_eq, trim_space, is_empty, to_lower}
use nvidia_api_gateway.Models.Config.{text_or, positive_or, nonneg_or}

-- The instant in nanoseconds.
pub record ProxyTestRecord : Type 0 where
  pub success : Bool
  pub status_code : ℤ
  pub response_time : ℤ
  pub message : Text
  pub target : Text
  pub tested_at : ℤ

pub record UpstreamProxy : Type 0 where
  pub id : ℕ
  pub name : Text
  pub group : Text
  pub country : Text
  pub source : Text
  pub managed_by : Text
  pub managed_ref_id : ℕ
  pub kind : Text
  pub status : Text
  pub host : Text
  pub port : ℤ
  pub username : Text
  pub password : Text
  pub last_test : Option ProxyTestRecord
  pub test_history : List ProxyTestRecord

abbrev to_upper_char : ℕ → ℕ
to_upper_char c = if leb 97 c && leb c 122 then c - 32 else c

-- The length of a code point in UTF-8.
abbrev char_bytes : ℕ → ℕ
char_bytes c = if ltb c 128 then 1 else if ltb c 2048 then 2 else if ltb c 65536 then 3 else 4

abbrev byte_length : Text → ℕ
byte_length [] = 0
byte_length (c ∷ cs) = char_bytes c + byte_length cs

unfoldable pub normalize_country_label : Text → Text
normalize_country_label value =
    let trimmed = trim_space value in
    if is_empty trimmed
    then []
    else if leb (byte_length trimmed) 3
    then map to_upper_char trimmed
    else trimmed

-- `decimal` is the %d of fmt.
unfoldable pub normalize_upstream_proxy : (ℤ → Text) → UpstreamProxy → UpstreamProxy
unfolding text_or normalize_country_label
normalize_upstream_proxy decimal p =
    let name = trim_space p.name in
    let kind = to_lower (trim_space p.kind) in
    let host = trim_space p.host in
    record p {
      name =
          if is_empty name && not (is_empty host) && ltb_ℤ (pos 0) p.port
          then kind ++ codes "://" ++ host ++ codes ":" ++ decimal p.port
          else name;
      kind = kind;
      status = text_or p.status (codes "Enabled");
      group = trim_space p.group;
      country = normalize_country_label p.country;
      source =
          let source = to_lower (trim_space p.source) in
          if is_empty source then codes "manual" else source;
      host = host;
      username = trim_space p.username;
      password = trim_space p.password;
    }

-- The order of Go's strings.
unfoldable pub text_leb : Text → Text → Bool
text_leb [] ys = true
text_leb (x ∷ xs) [] = false
text_leb (x ∷ xs) (y ∷ ys) = if ltb x y then true else if ltb y x then false else text_leb xs ys

unfoldable pub insert_text : Text → List Text → List Text
unfolding text_leb
insert_text x [] = x ∷ []
insert_text x (y ∷ ys) =
    let rest = insert_text x ys in if text_leb x y then x ∷ y ∷ ys else y ∷ rest

-- sort.Strings
unfoldable pub sort_strings : List Text → List Text
unfolding insert_text
sort_strings [] = []
sort_strings (x ∷ xs) = insert_text x (sort_strings xs)

-- The loop: the texts kept so far are also the map of those seen.
unfoldable pub clean_loop : List Text → List Text → List Text
clean_loop cleaned [] = cleaned
clean_loop cleaned (item ∷ items) =
    let trimmed = trim_space item in
    clean_loop
      (if is_empty trimmed || any (text_eq trimmed) cleaned
        then cleaned
        else cleaned ++ trimmed ∷ [])
      items

unfoldable pub normalize_proxy_source_list : List Text → List Text
unfolding clean_loop sort_strings
normalize_proxy_source_list items = sort_strings (clean_loop [] items)

pub record ExternalProxySources : Type 0 where
  pub http_txt : List Text
  pub http_json : List Text
  pub http_html : List Text
  pub socks5_txt : List Text
  pub socks5_json : List Text
  pub socks5_html : List Text

-- A list is never nil afterwards, so no default is used.
unfoldable pub normalize_external_proxy_sources : ExternalProxySources → ExternalProxySources
unfolding normalize_proxy_source_list
normalize_external_proxy_sources cfg = record {
  http_txt = normalize_proxy_source_list cfg.http_txt;
  http_json = normalize_proxy_source_list cfg.http_json;
  http_html = normalize_proxy_source_list cfg.http_html;
  socks5_txt = normalize_proxy_source_list cfg.socks5_txt;
  socks5_json = normalize_proxy_source_list cfg.socks5_json;
  socks5_html = normalize_proxy_source_list cfg.socks5_html;
}

-- A comma, a semicolon or the end of a line.
abbrev is_separator : ℕ → Bool
is_separator c = c == 44 || c == 59 || c == 10 || c == 13

-- strings.FieldsFunc, the field begun in `field`.
unfoldable pub fields_from : Text → Text → List Text
fields_from field [] = if is_empty field then [] else field ∷ []
fields_from field (c ∷ cs) =
    let rest = fields_from [] cs in
    let more = fields_from (field ++ c ∷ []) cs in
    if is_separator c then if is_empty field then rest else field ∷ rest else more

-- The parts of all the values, in order.
unfoldable pub all_parts : List Text → List Text
unfolding fields_from
all_parts [] = []
all_parts (value ∷ values) = fields_from [] value ++ all_parts values

unfoldable pub normalize_schedule_times : List Text → List Text
unfolding all_parts clean_loop sort_strings
normalize_schedule_times values = sort_strings (clean_loop [] (all_parts values))

-- The fields that the normal form looks at, and the switches.
pub record ProxyImportSchedule : Type 0 where
  pub enabled : Bool
  pub times : List Text
  pub mode : Text
  pub group : Text
  pub limit : ℤ
  pub concurrency : ℤ
  pub timeout_seconds : ℤ
  pub retry_count : ℤ
  pub cleanup_enabled : Bool
  pub cleanup_max_latency_ms : ℤ
  pub cleanup_delete_failed_auto_proxies : Bool
  pub last_run_at : ℤ
  pub updated_at : ℤ

-- The zero times are instant 0.
abbrev pub default_proxy_import_schedule : ProxyImportSchedule
default_proxy_import_schedule = record {
  enabled = false;
  times = [];
  mode = codes "all";
  group = codes "自动抓取";
  limit = pos 800;
  concurrency = pos 96;
  timeout_seconds = pos 4;
  retry_count = pos 0;
  cleanup_enabled = false;
  cleanup_max_latency_ms = pos 3000;
  cleanup_delete_failed_auto_proxies = false;
  last_run_at = pos 0;
  updated_at = pos 0;
}

unfoldable pub normalize_proxy_import_schedule : ProxyImportSchedule → ProxyImportSchedule
unfolding text_or positive_or nonneg_or normalize_schedule_times
normalize_proxy_import_schedule cfg =
    let defaults = default_proxy_import_schedule in
    let mode = to_lower (trim_space cfg.mode) in
    record cfg {
      mode = if is_empty mode then defaults.mode else mode;
      group = text_or cfg.group defaults.group;
      limit = positive_or cfg.limit defaults.limit;
      concurrency = positive_or cfg.concurrency defaults.concurrency;
      timeout_seconds = positive_or cfg.timeout_seconds defaults.timeout_seconds;
      retry_count = nonneg_or cfg.retry_count defaults.retry_count;
      cleanup_max_latency_ms =
          positive_or cfg.cleanup_max_latency_ms defaults.cleanup_max_latency_ms;
      times = normalize_schedule_times cfg.times;
    }
