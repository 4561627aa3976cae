-- ===== src/Pool.antt =====
-- Proxies with their test results: the history of tests, the order by health, and which key gets which
-- proxy (pkg/gateway/proxy_test_history.go, pkg/gateway/proxy_grouping.go). `decimal`, where it
-- stands, is the %d of fmt in the name of a proxy.
pub mod Order
pub mod Assignment
mod Tests
use nvidia_api_gateway.Prelude.{
  ℕ, zero, suc, ◌+◌, ◌-◌, ◌%◌, Bool, true, false, not, ◌&&◌, ◌||◌, Option, none, some, List, [],
  ◌∷◌, ◌++◌, length, get_elem?, replicate, ltb, leb, ◌==◌, if◌then◌else◌,
}
use nvidia_api_gateway.Prelude.Int.{ℤ, pos, negsuc, ltb_ℤ, leb_ℤ, eqb_ℤ}
use nvidia_api_gateway.Prelude.Text.{Text, codes, text_eq, trim_space, is_empty, to_lower}
use nvidia_api_gateway.Prelude.Maps.{lookup, insert}
use nvidia_api_gateway.Scheduler.{unix, is_some}
use nvidia_api_gateway.Models.Proxies.{ProxyTestRecord, UpstreamProxy, normalize_upstream_proxy}

abbrev pub max_proxy_test_history : ℤ
max_proxy_test_history = pos 10

-- The loop over the older records.
unfoldable pub merge_loop : ℤ → List ProxyTestRecord → List ProxyTestRecord → List ProxyTestRecord
merge_loop limit merged [] = merged
merge_loop limit merged (item ∷ items) =
    let rest = merge_loop limit (merged ++ item ∷ []) items in
    if leb_ℤ limit (pos (length merged)) then merged else rest

unfoldable pub merge_proxy_test_history :
    List ProxyTestRecord → ProxyTestRecord → ℤ → List ProxyTestRecord
unfolding merge_loop
merge_proxy_test_history existing test limit =
    let limit' = if leb_ℤ limit (pos 0) then max_proxy_test_history else limit in
    merge_loop limit' (test ∷ []) existing

-- The update of the store's proxies in recordProxyTestResult; none is errProxyNotFound.
unfoldable pub record_in : ℕ → ProxyTestRecord → List UpstreamProxy → Option (List UpstreamProxy)
unfolding merge_proxy_test_history
record_in id test [] = none
record_in id test (p ∷ ps) =
    let rest = record_in id test ps in
    if p.id == id
    then some (
        record p {
          last_test = some test;
          test_history = merge_proxy_test_history p.test_history test max_proxy_test_history;
        }
        ∷ ps)
    else elim rest [ none ↦ none | some ps' ↦ some (p ∷ ps') ]

unfoldable pub record_proxy_test_result :
    ℕ → ProxyTestRecord → List UpstreamProxy → Option (List UpstreamProxy)
unfolding record_in
record_proxy_test_result zero test ps = some ps
record_proxy_test_result (suc n) test ps = record_in (suc n) test ps

unfoldable pub normalize_proxy_group : Text → Text
normalize_proxy_group value = to_lower (trim_space value)

-- strings.Compare
unfoldable pub compare_text : Text → Text → ℤ
compare_text [] [] = pos 0
compare_text [] (b ∷ t) = negsuc 0
compare_text (a ∷ s) [] = pos 1
compare_text (a ∷ s) (b ∷ t) =
    if ltb a b then negsuc 0 else if ltb b a then pos 1 else compare_text s t

unfoldable pub count_successes : List ProxyTestRecord → ℕ
count_successes [] = 0
count_successes (item ∷ items) =
    let rest = count_successes items in if item.success then suc rest else rest

unfoldable pub count_recent_successes : UpstreamProxy → ℕ
unfolding count_successes
count_recent_successes p = count_successes p.test_history

unfoldable pub proxy_last_test_unix : UpstreamProxy → ℤ
proxy_last_test_unix p = elim p.last_test [ none ↦ pos 0 | some test ↦ unix test.tested_at ]

-- 1<<62 - 1 for a proxy with no useful time
unfoldable pub proxy_latency_value : UpstreamProxy → ℤ
proxy_latency_value p = elim p.last_test [
  | none ↦ pos 4_611_686_018_427_387_903
  | some test ↦
      if leb_ℤ test.response_time (pos 0) then pos 4_611_686_018_427_387_903 else test.response_time
]

-- -1 for the smaller value, then 1, or else what follows.
abbrev pub smaller_first : ℤ → ℤ → ℤ → ℤ
smaller_first a b next = if eqb_ℤ a b then next else if ltb_ℤ a b then negsuc 0 else pos 1

abbrev pub larger_first : ℤ → ℤ → ℤ → ℤ
larger_first a b next = if eqb_ℤ a b then next else if ltb_ℤ b a then negsuc 0 else pos 1

module _ (decimal : ℤ → Text) where
  unfoldable pub is_proxy_enabled : UpstreamProxy → Bool
  unfolding normalize_upstream_proxy
  is_proxy_enabled p = not (text_eq (normalize_upstream_proxy decimal p).status (codes "Disabled"))

  unfoldable pub proxy_health_rank : UpstreamProxy → ℕ
  unfolding is_proxy_enabled
  proxy_health_rank p =
      if not (is_proxy_enabled p)
      then 3
      else elim p.last_test [ none ↦ 2 | some test ↦ if test.success then 0 else 1 ]

  unfoldable pub compare_proxy_health : UpstreamProxy → UpstreamProxy → ℤ
  unfolding proxy_health_rank proxy_latency_value proxy_last_test_unix count_recent_successes
      normalize_proxy_group compare_text
  compare_proxy_health a b =
      let by_name = compare_text (to_lower a.name) (to_lower b.name) in
      let by_group = compare_text (normalize_proxy_group a.group) (normalize_proxy_group b.group) in
      smaller_first (pos (proxy_health_rank a)) (pos (proxy_health_rank b)) (
        smaller_first (proxy_latency_value a) (proxy_latency_value b) (
          larger_first (proxy_last_test_unix a) (proxy_last_test_unix b) (
            larger_first (pos (count_recent_successes a)) (pos (count_recent_successes b)) (
              if text_eq (normalize_proxy_group a.group) (normalize_proxy_group b.group)
              then by_name
              else by_group))))

  unfoldable pub proxy_preference_weight : UpstreamProxy → ℕ
  unfolding is_proxy_enabled
  proxy_preference_weight p = if not (is_proxy_enabled p) then 0 else elim p.last_test [
    | none ↦ 1
    | some test ↦
        if not test.success
        then 1
        else if ltb_ℤ (pos 0) test.response_time && leb_ℤ test.response_time (pos 100)
        then 4
        else if ltb_ℤ (pos 0) test.response_time && leb_ℤ test.response_time (pos 300)
        then 3
        else 2
  ]

  -- The loops that fill `weighted`.
  unfoldable pub weighted_ids : List UpstreamProxy → List ℕ
  unfolding proxy_preference_weight
  weighted_ids [] = []
  weighted_ids (p ∷ ps) = replicate (proxy_preference_weight p) p.id ++ weighted_ids ps

  -- The loop over the keys from index `idx`; the map is a function, and a later entry replaces an
  -- earlier one.
  unfoldable pub assign_loop : List ℕ → ℕ → List ℕ → (ℕ → Option ℕ) → ℕ → Option ℕ
  assign_loop weighted idx [] assigned = assigned
  assign_loop weighted idx (key ∷ keys) assigned =
      assign_loop weighted (suc idx) keys
        (λ k. if k == key then get_elem? weighted (idx % length weighted) else assigned k)

  unfoldable pub health_preferred_assign_proxy_ids : List ℕ → List UpstreamProxy → ℕ → Option ℕ
  unfolding weighted_ids assign_loop
  health_preferred_assign_proxy_ids keys proxies =
      let weighted = weighted_ids proxies in
      elim weighted [ [] ↦ λ k. none | id ∷ ids ↦ assign_loop (id ∷ ids) 0 keys (λ k. none) ]

  -- The members of a group before they are sorted.
  unfoldable pub proxy_group_members : Text → List UpstreamProxy → List UpstreamProxy
  unfolding is_proxy_enabled normalize_proxy_group
  proxy_group_members group [] = []
  proxy_group_members group (p ∷ ps) =
      let p' = normalize_upstream_proxy decimal p in
      let rest = proxy_group_members group ps in
      if not (text_eq (normalize_proxy_group p'.group) (normalize_proxy_group group))
      then rest
      else if not (is_proxy_enabled p')
      then rest
      else p' ∷ rest

-- The spelling of each group that comes first, under its normal form.
unfoldable pub groups_seen : List UpstreamProxy → List (Text × Text) → List (Text × Text)
unfolding normalize_proxy_group
groups_seen [] seen = seen
groups_seen (p ∷ ps) seen =
    let group = trim_space p.group in
    let key = normalize_proxy_group group in
    groups_seen ps
      (if is_empty group || is_some (lookup key seen) then seen else insert key group seen)
