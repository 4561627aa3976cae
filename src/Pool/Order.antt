-- ===== src/Pool/Order.antt =====
-- The order of proxies by health.
use nvidia_api_gateway.Prelude.{[], ◌∷◌, if◌then◌else◌, ◌≡◌, refl, arith}
use nvidia_api_gateway.Prelude.Int.{ℤ, pos, negsuc, ltb_ℤ, ◌<ℤ◌}
use nvidia_api_gateway.Prelude.Text.{
  Text, text_eq, text_eq_iff, text_eq_refl, text_eq_sym, to_lower,
}
use nvidia_api_gateway.Models.Proxies.{UpstreamProxy}
use nvidia_api_gateway.Pool.{
  compare_text, compare_proxy_health, smaller_first, larger_first, normalize_proxy_group,
  proxy_health_rank, proxy_latency_value, proxy_last_test_unix, count_recent_successes,
}

-- The other way round.
abbrev pub opposite : ℤ → ℤ
opposite n = if ltb_ℤ n (pos 0) then pos 1 else if ltb_ℤ (pos 0) n then negsuc 0 else pos 0

compare_text_same : (s : Text) → compare_text s s ≡ pos 0
unfolding compare_text
compare_text_same [] = refl
compare_text_same (a ∷ s) = ground (arith, compare_text_same s)

compare_text-opposite : (s t : Text) → compare_text t s ≡ opposite (compare_text s t)
unfolding compare_text
compare_text-opposite [] [] = refl
compare_text-opposite [] (b ∷ t) = refl
compare_text-opposite (a ∷ s) [] = refl
compare_text-opposite (a ∷ s) (b ∷ t) = ground (arith, compare_text-opposite s t)

compare_text_trans :
    (s t u : Text)
    → compare_text s t <ℤ pos 0
    → compare_text t u <ℤ pos 0
    → compare_text s u <ℤ pos 0
unfolding compare_text
compare_text_trans [] [] u h k = k
compare_text_trans [] (b ∷ t) [] h k = absurd (ground arith)
compare_text_trans [] (b ∷ t) (c ∷ u) h k = h
compare_text_trans (a ∷ s) [] u h k = absurd (ground arith)
compare_text_trans (a ∷ s) (b ∷ t) [] h k = absurd (ground arith)
compare_text_trans (a ∷ s) (b ∷ t) (c ∷ u) h k = ground (arith, compare_text_trans s t u)

smaller_first-opposite :
    (a b n m : ℤ) → m ≡ opposite n → smaller_first b a m ≡ opposite (smaller_first a b n)
smaller_first-opposite a b n m h = ground arith

larger_first-opposite :
    (a b n m : ℤ) → m ≡ opposite n → larger_first b a m ≡ opposite (larger_first a b n)
larger_first-opposite a b n m h = ground arith

smaller_first_trans :
    (a b c n m o : ℤ)
    → (n <ℤ pos 0 → m <ℤ pos 0 → o <ℤ pos 0)
    → smaller_first a b n <ℤ pos 0
    → smaller_first b c m <ℤ pos 0
    → smaller_first a c o <ℤ pos 0
smaller_first_trans a b c n m o t h k = ground arith

larger_first_trans :
    (a b c n m o : ℤ)
    → (n <ℤ pos 0 → m <ℤ pos 0 → o <ℤ pos 0)
    → larger_first a b n <ℤ pos 0
    → larger_first b c m <ℤ pos 0
    → larger_first a c o <ℤ pos 0
larger_first_trans a b c n m o t h k = ground arith

-- By group and then by name.
abbrev by_group : Text → Text → Text → Text → ℤ
by_group g h m n = if text_eq g h then compare_text m n else compare_text g h

by_group-opposite : (g h m n : Text) → by_group h g n m ≡ opposite (by_group g h m n)
by_group-opposite g h m n =
    ground (arith, text_eq_sym g h, compare_text-opposite g h, compare_text-opposite m n)

by_group_trans :
    (g h i m n o : Text)
    → by_group g h m n <ℤ pos 0
    → by_group h i n o <ℤ pos 0
    → by_group g i m o <ℤ pos 0
by_group_trans g h i m n o p q = ground (
  arith,
  text_eq_iff g h,
  text_eq_iff h i,
  text_eq_iff g i,
  compare_text_trans g h i,
  compare_text_trans m n o,
  compare_text-opposite h i,
)

module _ (decimal : ℤ → Text) where
  abbrev rank : UpstreamProxy → ℤ
  rank a = pos (proxy_health_rank decimal a)

  abbrev successes : UpstreamProxy → ℤ
  successes a = pos (count_recent_successes a)

  -- What is compared after the rank, the response time, the last test and the successes.
  abbrev names : UpstreamProxy → UpstreamProxy → ℤ
  names a b =
      by_group (normalize_proxy_group a.group) (normalize_proxy_group b.group) (to_lower a.name)
        (to_lower b.name)

  abbrev tests : UpstreamProxy → UpstreamProxy → ℤ
  tests a b = larger_first (successes a) (successes b) (names a b)

  abbrev recency : UpstreamProxy → UpstreamProxy → ℤ
  recency a b = larger_first (proxy_last_test_unix a) (proxy_last_test_unix b) (tests a b)

  abbrev latency : UpstreamProxy → UpstreamProxy → ℤ
  latency a b = smaller_first (proxy_latency_value a) (proxy_latency_value b) (recency a b)

  recency-opposite : (a b : UpstreamProxy) → recency b a ≡ opposite (recency a b)
  recency-opposite a b =
      larger_first-opposite (proxy_last_test_unix a) (proxy_last_test_unix b) (tests a b)
        (tests b a)
        (larger_first-opposite (successes a) (successes b) (names a b) (names b a) (
          by_group-opposite (normalize_proxy_group a.group) (normalize_proxy_group b.group)
            (to_lower a.name) (to_lower b.name)))

  recency_trans :
      (a b c : UpstreamProxy) → recency a b <ℤ pos 0 → recency b c <ℤ pos 0 → recency a c <ℤ pos 0
  recency_trans a b c =
      larger_first_trans (proxy_last_test_unix a) (proxy_last_test_unix b) (proxy_last_test_unix c)
        (tests a b) (tests b c) (tests a c)
        (larger_first_trans (successes a) (successes b) (successes c) (names a b) (names b c)
          (names a c)
          (by_group_trans (normalize_proxy_group a.group) (normalize_proxy_group b.group)
            (normalize_proxy_group c.group) (to_lower a.name) (to_lower b.name) (to_lower c.name)))

  -- compareProxyHealth is a strict order of proxies: a proxy is no better than itself, the answer for
  -- two proxies in the other order is the opposite one, and a proxy that is better than one that is
  -- better than a third is better than that.
  pub compare_proxy_health-IsOrder :
      (a b c : UpstreamProxy)
      → (compare_proxy_health decimal a a ≡ pos 0)
        × (compare_proxy_health decimal b a ≡ opposite (compare_proxy_health decimal a b))
        × (compare_proxy_health decimal a b <ℤ pos 0
            → compare_proxy_health decimal b c <ℤ pos 0
            → compare_proxy_health decimal a c <ℤ pos 0)
  unfolding compare_proxy_health
  compare_proxy_health-IsOrder a b c = (
    ground
        (arith, text_eq_refl (normalize_proxy_group a.group), compare_text_same (to_lower a.name)),
    smaller_first-opposite (rank a) (rank b) (latency a b) (latency b a) (
        smaller_first-opposite (proxy_latency_value a) (proxy_latency_value b) (recency a b)
          (recency b a) (recency-opposite a b)),
    smaller_first_trans (rank a) (rank b) (rank c) (latency a b) (latency b c) (latency a c) (
        smaller_first_trans (proxy_latency_value a) (proxy_latency_value b) (proxy_latency_value c)
          (recency a b) (recency b c) (recency a c) (recency_trans a b c)),
  )
