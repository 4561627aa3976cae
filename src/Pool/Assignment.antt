-- ===== src/Pool/Assignment.antt =====
-- Which key gets which proxy, and how long the history of tests grows.
use nvidia_api_gateway.Prelude.{
  ℕ, zero, suc, ◌+◌, ◌%◌, ◌<◌, Bool, true, false, ◌&&◌, ◌||◌, Option, none, some, List, [], ◌∷◌,
  ◌++◌, length, length-append, get_elem?, take, replicate, any, ltb, ◌==◌, if◌then◌else◌, ◌≡◌, refl,
  sym, ap, ◌∙◌, arith, inl, inr, ◌⊎◌,
}
use nvidia_api_gateway.Prelude.Int.{ℤ, pos, negsuc, pos_part, leb_ℤ}
use nvidia_api_gateway.Prelude.Text.{Text}
use native.Mathlib.Nat.{mod-lt}
use nvidia_api_gateway.Scheduler.{is_some}
use nvidia_api_gateway.Models.Proxies.{ProxyTestRecord, UpstreamProxy}
use nvidia_api_gateway.Pool.{
  merge_loop, merge_proxy_test_history, max_proxy_test_history, is_proxy_enabled,
  proxy_preference_weight, weighted_ids, assign_loop, health_preferred_assign_proxy_ids,
}

append_nil : (xs : List ProxyTestRecord) → xs ++ [] ≡ xs
append_nil [] = refl
append_nil (x ∷ xs) = ap (x ∷◌) (append_nil xs)

append_assoc : (xs ys zs : List ProxyTestRecord) → (xs ++ ys) ++ zs ≡ xs ++ (ys ++ zs)
append_assoc [] ys zs = refl
append_assoc (x ∷ xs) ys zs = ap (x ∷◌) (append_assoc xs ys zs)

-- The number of records that still fit is `room`.
merge_loop_lem :
    (limit room : ℕ) (merged items : List ProxyTestRecord)
    → length merged + room ≡ limit
    → merge_loop (pos limit) merged items ≡ merged ++ take room items
unfolding merge_loop
merge_loop_lem limit zero merged [] h = sym (append_nil merged)
merge_loop_lem limit (suc room) merged [] h = sym (append_nil merged)
merge_loop_lem limit zero merged (item ∷ items) h = ground (arith, append_nil merged)
merge_loop_lem limit (suc room) merged (item ∷ items) h = ground (
  arith,
  merge_loop_lem limit room (merged ++ item ∷ []) items,
  append_assoc merged (item ∷ []) (take room items),
  length-append merged (item ∷ []),
)

-- mergeProxyTestHistory keeps the new record and the latest of the older ones, as many as the limit
-- says, or 10 if that is not positive.
pub merge_proxy_test_history_lem :
    (existing : List ProxyTestRecord) (test : ProxyTestRecord) (limit : ℤ)
    → merge_proxy_test_history existing test limit
      ≡ take
          (pos_part (if leb_ℤ limit (pos 0) then max_proxy_test_history else limit))
          (test ∷ existing)
unfolding merge_proxy_test_history
merge_proxy_test_history_lem existing test (negsuc n) =
    ground (arith, merge_loop_lem 10 9 (test ∷ []) existing refl)
merge_proxy_test_history_lem existing test (pos zero) =
    ground (arith, merge_loop_lem 10 9 (test ∷ []) existing refl)
merge_proxy_test_history_lem existing test (pos (suc n)) =
    ground (arith, merge_loop_lem (suc n) n (test ∷ []) existing)

-- Some enabled proxy has this number.
abbrev pub serves : (ℤ → Text) → ℕ → List UpstreamProxy → Bool
serves decimal id proxies = any (λ p. p.id == id && is_proxy_enabled decimal p) proxies

abbrev pub has : ℕ → List ℕ → Bool
has k keys = any (λ key. k == key) keys

has-append : (k : ℕ) (xs ys : List ℕ) → has k (xs ++ ys) ≡ has k xs || has k ys
has-append k [] ys = refl
has-append k (x ∷ xs) ys = ground (arith, has-append k xs ys)

length-replicate : (n x : ℕ) → length (replicate n x) ≡ n
length-replicate zero x = refl
length-replicate (suc n) x = omega (arith, length-replicate n x)

has-replicate : (k n x : ℕ) → has k (replicate n x) ≡ (ltb 0 n && k == x)
has-replicate k zero x = refl
has-replicate k (suc n) x = ground (arith, has-replicate k n x)

-- A number that the list has.
abbrev lands : List ℕ → Option ℕ → Bool
lands w none = false
lands w (some x) = has x w

lands_later : (x : ℕ) (xs : List ℕ) (o : Option ℕ) → lands xs o ≡ true → lands (x ∷ xs) o ≡ true
lands_later x xs none h = h
lands_later x xs (some y) h = ground arith

lands-get_elem? : (xs : List ℕ) (i : ℕ) → i < length xs → lands xs (get_elem? xs i) ≡ true
lands-get_elem? [] i h = absurd (omega arith)
lands-get_elem? (x ∷ xs) zero h = ground arith
lands-get_elem? (x ∷ xs) (suc i) h =
    lands_later x xs (get_elem? xs i) (lands-get_elem? xs i (omega arith))

is_some_of_lands : (w : List ℕ) (o : Option ℕ) → lands w o ≡ true → is_some o ≡ true
is_some_of_lands w none h = h
is_some_of_lands w (some x) h = refl

module _ (decimal : ℤ → Text) where
  weight_positive :
      (p : UpstreamProxy) → ltb 0 (proxy_preference_weight decimal p) ≡ is_proxy_enabled decimal p
  unfolding proxy_preference_weight
  weight_positive p = ground arith

  has-weighted_ids :
      (id : ℕ) (proxies : List UpstreamProxy)
      → has id (weighted_ids decimal proxies) ≡ serves decimal id proxies
  unfolding weighted_ids
  has-weighted_ids id [] = refl
  has-weighted_ids id (p ∷ ps) = ground (
    arith,
    has-append id (replicate (proxy_preference_weight decimal p) p.id) (weighted_ids decimal ps),
    has-replicate id (proxy_preference_weight decimal p) p.id,
    weight_positive p,
    has-weighted_ids id ps,
  )

  either_way :
      (w : List ℕ) (b : Bool) (o l : Option ℕ)
      → lands w o ≡ true
      → (l ≡ none) ⊎ (lands w l ≡ true)
      → ((if b then o else l) ≡ none) ⊎ (lands w (if b then o else l) ≡ true)
  either_way w true o l h k = inr h
  either_way w false o l h k = k

  assign_loop-lands :
      (w keys : List ℕ) (idx k : ℕ) (assigned : ℕ → Option ℕ)
      → 0 < length w
      → (assigned k ≡ none) ⊎ (lands w (assigned k) ≡ true)
      → (is_some (assign_loop decimal w idx keys assigned k) ≡ is_some (assigned k) || has k keys)
        × ((assign_loop decimal w idx keys assigned k ≡ none)
            ⊎ (lands w (assign_loop decimal w idx keys assigned k) ≡ true))
  unfolding assign_loop
  assign_loop-lands w [] idx k assigned h l = (ground arith, l)
  assign_loop-lands w (key ∷ keys) idx k assigned h l =
      let next = lands-get_elem? w (idx % length w) (mod-lt idx h) in
      let later =
        assign_loop-lands w keys (suc idx) k
          (λ k'. if k' == key then get_elem? w (idx % length w) else assigned k') h
          (either_way w (k == key) (get_elem? w (idx % length w)) (assigned k) next l) in
      (ground (arith, later.0, is_some_of_lands w _ next), later.1)

  any_enabled :
      (proxies : List UpstreamProxy)
      → ltb 0 (length (weighted_ids decimal proxies)) ≡ any (is_proxy_enabled decimal) proxies
  unfolding weighted_ids
  any_enabled [] = refl
  any_enabled (p ∷ ps) = ground (
    arith,
    length-append (replicate (proxy_preference_weight decimal p) p.id) (weighted_ids decimal ps),
    length-replicate (proxy_preference_weight decimal p) p.id,
    weight_positive p,
    any_enabled ps,
  )

  -- The assignment from the list of weighted numbers.
  abbrev from_weighted : List ℕ → List ℕ → ℕ → Option ℕ
  from_weighted keys [] = λ k. none
  from_weighted keys (id ∷ ids) = assign_loop decimal (id ∷ ids) 0 keys (λ k. none)

  from_weighted_lem :
      (keys w : List ℕ) (k : ℕ)
      → (is_some (from_weighted keys w k) ≡ has k keys && ltb 0 (length w))
        × ((from_weighted keys w k ≡ none) ⊎ (lands w (from_weighted keys w k) ≡ true))
  from_weighted_lem keys [] k = (ground arith, inl refl)
  from_weighted_lem keys (id ∷ ids) k =
      let run = assign_loop-lands (id ∷ ids) keys 0 k (λ k. none) (omega arith) (inl refl) in
      (ground (arith, run.0), run.1)

  served :
      (proxies : List UpstreamProxy) (o : Option ℕ) (id : ℕ)
      → (o ≡ none) ⊎ (lands (weighted_ids decimal proxies) o ≡ true)
      → o ≡ some id
      → serves decimal id proxies ≡ true
  served proxies none id h e = absurd (ground arith)
  served proxies (some x) id h e = ground (arith, has-weighted_ids id proxies)

  assign_lem :
      (keys : List ℕ) (proxies : List UpstreamProxy) (k : ℕ)
      → health_preferred_assign_proxy_ids decimal keys proxies k
        ≡ from_weighted keys (weighted_ids decimal proxies) k
  unfolding health_preferred_assign_proxy_ids
  assign_lem keys proxies k = ground arith

  -- healthPreferredAssignProxyIDs: a key has a proxy in the result exactly if it is one of the keys and
  -- some proxy is enabled, and the number that it has is that of an enabled proxy of the list.
  pub health_preferred_assign_proxy_ids_lem :
      (keys : List ℕ) (proxies : List UpstreamProxy) (k id : ℕ)
      → (is_some (health_preferred_assign_proxy_ids decimal keys proxies k)
          ≡ has k keys && any (is_proxy_enabled decimal) proxies)
        × (health_preferred_assign_proxy_ids decimal keys proxies k ≡ some id
            → serves decimal id proxies ≡ true)
  health_preferred_assign_proxy_ids_lem keys proxies k id =
      let run = from_weighted_lem keys (weighted_ids decimal proxies) k in
      (
        ap is_some (assign_lem keys proxies k)
            ∙ (run.0 ∙ ap (λ b. has k keys && b) (any_enabled proxies)),
        λ e. served proxies _ id run.1 (sym (assign_lem keys proxies k) ∙ e),
      )
