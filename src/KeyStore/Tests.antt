-- ===== src/KeyStore/Tests.antt =====
-- A store with an active key, one for probes only and a dead one.
use nvidia_api_gateway.Prelude.{
  Bool, true, false, Option, none, some, List, [], ◌∷◌, ◌≡◌, refl, any,
}
use nvidia_api_gateway.Prelude.Int.{pos}
use nvidia_api_gateway.Prelude.Text.{Text, codes, trim_space, is_space}
use nvidia_api_gateway.Scheduler.{Scheduler, has_key}
use nvidia_api_gateway.KeyStore.{ApiKey, load_active_keys}
use nvidia_api_gateway.KeyStore.Loading.{IsClean, gives, load_active_keys_lem}

-- A cipher that adds one character.
abbrev toy_decrypt : Text → Option Text
toy_decrypt [] = none
toy_decrypt (c ∷ text) = some text

abbrev stored : Text → Text → Bool → ApiKey
stored key status probe_only = record {
  id = 1;
  key = key;
  name = codes "key";
  weight = pos 1;
  status = status;
  probe_only = probe_only;
  proxy_id = 0;
  created_at = pos 0;
  updated_at = pos 0;
}

abbrev keys : List ApiKey
keys =
    stored (codes "xkey1") (codes "Active") false
    ∷ stored (codes "xkey2") (codes "Active") true
    ∷ stored (codes "xkey3") (codes "Dead") false
    ∷ []

-- A scheduler with a key in use.
abbrev busy : Scheduler
busy = record { active = []; cooling = []; dead = []; concurrency = (codes "key1", 3) ∷ [] }

load_active_keys_lem_example :
    let result = load_active_keys toy_decrypt (codes "root") (some keys) true busy in
    IsClean result.0
    × (result.1 ≡ none → (t : Text) → has_key t result.0.active ≡ any (gives toy_decrypt t) keys)
unfolding trim_space is_space
load_active_keys_lem_example = load_active_keys_lem toy_decrypt (codes "root") keys busy refl
