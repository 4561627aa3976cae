-- ===== src/Models/Tests.antt =====
-- The theorems on configurations at one that leaves almost everything out.
use nvidia_api_gateway.Prelude.{◌≡◌, refl, false}
use nvidia_api_gateway.Prelude.Int.{pos, negsuc}
use nvidia_api_gateway.Prelude.{List, [], ◌∷◌}
use nvidia_api_gateway.Prelude.Text.{Text, codes}
use nvidia_api_gateway.Models.Config.{
  SystemConfig, default_system_config, normalize_system_config, normalize_keep_alive,
}
use nvidia_api_gateway.Models.Config.Normal.{IsNormal, normalize_system_config-IsNormal}

-- A heartbeat of -1, which asks for none, and no protocol.
abbrev sparse : SystemConfig
sparse = record default_system_config {
  upstream_base_url = codes "  ";
  max_retries = negsuc 0;
  max_concurrency = pos 0;
  enable_open_ai = false;
  enable_claude = false;
  enable_gemini = false;
  stream_keep_alive_sec = negsuc 0;
}

-- The heartbeat that was to be off is off after one pass, and on after two.
heartbeat_once : (normalize_system_config sparse).stream_keep_alive_sec ≡ pos 0
unfolding normalize_system_config normalize_keep_alive
heartbeat_once = refl

heartbeat_twice :
    (normalize_system_config (normalize_system_config sparse)).stream_keep_alive_sec ≡ pos 15
unfolding normalize_system_config normalize_keep_alive
heartbeat_twice = refl

normalize_system_config-IsNormal_example : IsNormal (normalize_system_config sparse)
normalize_system_config-IsNormal_example = normalize_system_config-IsNormal sparse

abbrev sources : List Text
sources = codes " http://b " ∷ codes "http://a" ∷ codes "" ∷ codes "http://b" ∷ []
