-- ===== src/Access/Admission.antt =====
-- Which requests are let through, and with which key.
use nvidia_api_gateway.Prelude.{
  Bool, true, false, not, ◌&&◌, ◌||◌, Option, none, some, List, [], ◌∷◌, any, if◌then◌else◌, ◌≡◌,
  refl, arith, Bool-cases, inl, inr, ◌⊎◌, ◌↔◌,
}
use nvidia_api_gateway.Prelude.Int.{ℤ, ◌+ℤ◌, ◌≤ℤ◌, eq_of_parts}
use nvidia_api_gateway.Prelude.Text.{Text, codes, text_eq, text_eq_iff, is_empty}
use nvidia_api_gateway.Access.{
  MasterKey, Credentials, TokenFields, Verdict, next, reject, is_active, active_master_keys,
  extract_gateway_token, find_master_key, is_used_up, no_quota, has_none, admit,
  master_auth_middleware, Counter, broken, count, check, check_quota,
}

-- The key is one of these.
abbrev pub Among : MasterKey → List MasterKey → Type 0
Among k [] = ⊥
Among k (x ∷ xs) = (k ≡ x) ⊎ Among k xs

abbrev pub knows : Text → List MasterKey → Bool
knows token keys = any (λ k. is_active k && text_eq k.key token) keys

-- The first active key with this text.
abbrev Found : Text → List MasterKey → Option MasterKey → Type 0
Found token keys none = knows token keys ≡ false
Found token keys (some k) = Among k keys × (is_active k ≡ true) × (k.key ≡ token)

Found-later :
    (token : Text) (x : MasterKey) (keys : List MasterKey) (o : Option MasterKey)
    → (is_active x && text_eq x.key token) ≡ false
    → Found token keys o
    → Found token (x ∷ keys) o
Found-later token x keys none h f = ground arith
Found-later token x keys (some k) h f = (inr f.0, f.1, f.2)

find_master_key-Found :
    (token : Text) (keys : List MasterKey)
    → Found token keys (find_master_key token (active_master_keys keys))
unfolding find_master_key active_master_keys
find_master_key-Found token [] = refl
find_master_key-Found token (x ∷ keys) = elim (Bool-cases (is_active x)) [
  | inl a ↦ elim (Bool-cases (text_eq x.key token)) [
    | inl e ↦ rw (a, e) (inl refl, a, (text_eq_iff x.key token).0 e)
    | inr e ↦
        rw (a, e) (Found-later token x keys _ (ground arith) (find_master_key-Found token keys))
  ]
  | inr a ↦ rw a (Found-later token x keys _ (ground arith) (find_master_key-Found token keys))
]

has_none_lem :
    (keys : List MasterKey) → has_none (active_master_keys keys) ≡ not (any is_active keys)
unfolding active_master_keys
has_none_lem [] = refl
has_none_lem (x ∷ keys) = ground (arith, has_none_lem keys)

-- What each verdict says of the request: no key is asked for; the key is an active one of the store
-- with this token and is not used up; or why the request is turned away.
abbrev pub Admitted : Credentials → Text → Verdict → Type 0
Admitted store token (next none) =
    (store.anonymous_access ≡ true) ⊎ (any is_active store.master_keys ≡ false)
Admitted store token (next (some k)) =
    (store.anonymous_access ≡ false)
    × (is_empty token ≡ false)
    × Among k store.master_keys
    × (is_active k ≡ true)
    × (k.key ≡ token)
    × (is_used_up k ≡ false)
Admitted store token (reject status message) =
    (store.anonymous_access ≡ false)
    × (any is_active store.master_keys ≡ true)
    × (((status ≡ 401) × ((is_empty token ≡ true) ⊎ (knows token store.master_keys ≡ false)))
        ⊎ ((status ≡ 402)
            × ((k : MasterKey) × Among k store.master_keys
                × (is_active k ≡ true)
                × (k.key ≡ token)
                × (is_used_up k ≡ true))))

-- The verdict for a key that was found or not.
abbrev verdict_on : Option MasterKey → Verdict
verdict_on none = reject 401 (codes "Invalid or revoked gateway access token")
verdict_on (some k) = if is_used_up k then reject 402 (codes "Quota exceeded") else next (some k)

module _ (store : Credentials) (token : Text) (anonymous : store.anonymous_access ≡ false)
    (active : any is_active store.master_keys ≡ true) where
  verdict_on-Admitted :
      (o : Option MasterKey)
      → is_empty token ≡ false
      → Found token store.master_keys o
      → Admitted store token (verdict_on o)
  verdict_on-Admitted none h f = (anonymous, active, inl (refl, inr f))
  verdict_on-Admitted (some k) h f = elim (Bool-cases (is_used_up k)) [
    | inl u ↦ rw u (anonymous, active, inr (refl, (k, f.0, f.1, f.2, u)))
    | inr u ↦ rw u (anonymous, h, f.0, f.1, f.2, u)
  ]

open_lem :
    (store : Credentials) (token : Text)
    → (store.anonymous_access || not (any is_active store.master_keys) ≡ true)
    → admit store token ≡ next none
unfolding admit
open_lem store token h = ground (arith, has_none_lem store.master_keys)

closed_lem :
    (store : Credentials) (token : Text)
    → (store.anonymous_access || not (any is_active store.master_keys) ≡ false)
    → admit store token ≡ (
        if is_empty token
        then reject 401 (codes "Missing gateway access token")
        else verdict_on (find_master_key token (active_master_keys store.master_keys)))
unfolding admit
closed_lem store token h = ground (arith, has_none_lem store.master_keys)

admit-Admitted : (store : Credentials) (token : Text) → Admitted store token (admit store token)
admit-Admitted store token =
    elim (Bool-cases (store.anonymous_access || not (any is_active store.master_keys))) [
      | inl o ↦ rw (open_lem store token o) (ground arith)
      | inr c ↦ elim (Bool-cases (is_empty token)) [
        | inl e ↦ rw (closed_lem store token c, e) (ground arith, ground arith, inl (refl, inl e))
        | inr e ↦
            rw (closed_lem store token c, e)
              (verdict_on-Admitted store token (ground arith) (ground arith) _ e
                (find_master_key-Found token store.master_keys))
      ]
    ]

-- MasterAuthMiddleware on a readable store, by its verdict. No key is set: access is anonymous or no
-- key is active. A key is set: access is not anonymous, and it is an active key of the store whose text
-- is the token, not empty, and whose quota is not used up. Rejected with 401: the token is empty or no
-- active key has it. Rejected with 402: an active key has it, and its quota is used up.
pub master_auth_middleware-Admitted :
    (store : Credentials) (c : TokenFields)
    → Admitted store (extract_gateway_token c) (master_auth_middleware (some store) c)
unfolding master_auth_middleware
master_auth_middleware-Admitted store c = admit-Admitted store (extract_gateway_token c)

quota_iff :
    (k : MasterKey) (cost : ℤ)
    → (check_quota k cost ≡ none) ↔ ((k.quota ≡ no_quota) ⊎ (k.used_quota +ℤ cost ≤ℤ k.quota))
quota_iff k cost = ground (arith, eq_of_parts k.quota no_quota)

quota_checked :
    (client : Option (Counter × Counter)) (k : MasterKey) (cost : ℤ)
    → check client (some k) cost ≡ none
    → check_quota k cost ≡ none
unfolding check
quota_checked none k cost h = h
quota_checked (some (broken m, broken n)) k cost h = ground arith
quota_checked (some (broken m, count used)) k cost h = ground arith
quota_checked (some (count requests, broken n)) k cost h = ground arith
quota_checked (some (count requests, count used)) k cost h = ground arith

-- UsageTracker.Check, with or without a client: if it allows a use by a master key, the key has no
-- quota or the use fits into what is left of it; without a client it allows exactly those uses.
pub check_iff :
    (client : Option (Counter × Counter)) (k : MasterKey) (cost : ℤ)
    → (check client (some k) cost ≡ none → (k.quota ≡ no_quota) ⊎ (k.used_quota +ℤ cost ≤ℤ k.quota))
      × ((check none (some k) cost ≡ none)
          ↔ ((k.quota ≡ no_quota) ⊎ (k.used_quota +ℤ cost ≤ℤ k.quota)))
unfolding check
check_iff client k cost =
    (λ e. (quota_iff k cost).0 (quota_checked client k cost e), quota_iff k cost)
