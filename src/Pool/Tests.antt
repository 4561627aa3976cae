-- ===== src/Pool/Tests.antt =====
-- Three proxies, one of them disabled, and four keys.
use nvidia_api_gateway.Prelude.{ℕ, true, ◌&&◌, Option, none, some, List, [], ◌∷◌, any, ◌≡◌, refl}
use nvidia_api_gateway.Prelude.Int.{ℤ, pos, ◌<ℤ◌}
use nvidia_api_gateway.Prelude.Text.{Text, codes, text_eq, trim_space, is_space}
use nvidia_api_gateway.Scheduler.{is_some}
use nvidia_api_gateway.Models.Config.{text_or}
use nvidia_api_gateway.Models.Proxies.{ProxyTestRecord, UpstreamProxy, normalize_upstream_proxy}
use nvidia_api_gateway.Pool.{
  is_proxy_enabled, proxy_preference_weight, weighted_ids, assign_loop, compare_proxy_health,
  health_preferred_assign_proxy_ids,
}
use nvidia_api_gateway.Pool.Order.{opposite, compare_proxy_health-IsOrder}
use nvidia_api_gateway.Pool.Assignment.{serves, has, health_preferred_assign_proxy_ids_lem}

abbrev toy_decimal : ℤ → Text
toy_decimal n = codes "8080"

abbrev fast : ProxyTestRecord
fast = record {
  success = true;
  status_code = pos 200;
  response_time = pos 80;
  message = [];
  target = [];
  tested_at = pos 5_000_000_000;
}

abbrev proxy_of : ℕ → Text → Option ProxyTestRecord → UpstreamProxy
proxy_of id status test = record {
  id = id;
  name = codes "p";
  group = [];
  country = [];
  source = [];
  managed_by = [];
  managed_ref_id = 0;
  kind = codes "http";
  status = status;
  host = codes "h";
  port = pos 8080;
  username = [];
  password = [];
  last_test = test;
  test_history = [];
}

abbrev proxies : List UpstreamProxy
proxies =
    proxy_of 1 (codes "Enabled") (some fast)
    ∷ proxy_of 2 (codes "Disabled") none
    ∷ proxy_of 3 [] none
    ∷ []

abbrev keys : List ℕ
keys = 10 ∷ 11 ∷ 12 ∷ 13 ∷ 14 ∷ []

-- The last key gets the second proxy that is enabled, after four shares of the fast one.
last_key : health_preferred_assign_proxy_ids toy_decimal keys proxies 14 ≡ some 3
unfolding health_preferred_assign_proxy_ids assign_loop weighted_ids proxy_preference_weight
    is_proxy_enabled normalize_upstream_proxy text_or trim_space is_space text_eq
last_key = refl

health_preferred_assign_proxy_ids_lem_example :
    (is_some (health_preferred_assign_proxy_ids toy_decimal keys proxies 14)
      ≡ has 14 keys && any (is_proxy_enabled toy_decimal) proxies)
    × (health_preferred_assign_proxy_ids toy_decimal keys proxies 14 ≡ some 3
        → serves toy_decimal 3 proxies ≡ true)
health_preferred_assign_proxy_ids_lem_example =
    health_preferred_assign_proxy_ids_lem toy_decimal keys proxies 14 3

abbrev tested : UpstreamProxy
tested = proxy_of 1 (codes "Enabled") (some fast)

abbrev untested : UpstreamProxy
untested = proxy_of 3 [] none

abbrev disabled : UpstreamProxy
disabled = proxy_of 2 (codes "Disabled") none

compare_proxy_health-IsOrder_example :
    (compare_proxy_health toy_decimal tested tested ≡ pos 0)
    × (compare_proxy_health toy_decimal untested tested
        ≡ opposite (compare_proxy_health toy_decimal tested untested))
    × (compare_proxy_health toy_decimal tested untested <ℤ pos 0
        → compare_proxy_health toy_decimal untested disabled <ℤ pos 0
        → compare_proxy_health toy_decimal tested disabled <ℤ pos 0)
compare_proxy_health-IsOrder_example =
    compare_proxy_health-IsOrder toy_decimal tested untested disabled
