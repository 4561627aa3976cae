-- ===== src/Access.antt =====
-- Who may use the gateway, and how much: MasterAuthMiddleware of pkg/middleware/auth.go and
-- UsageTracker of pkg/middleware/usage.go.
pub mod Admission
mod Tests
use nvidia_api_gateway.Prelude.{
  ℕ, zero, suc, Bool, true, false, not, ◌&&◌, ◌||◌, Option, none, some, List, [], ◌∷◌, ◌++◌, drop,
  if◌then◌else◌,
}
use nvidia_api_gateway.Prelude.Int.{ℤ, pos, negsuc, ◌+ℤ◌, ltb_ℤ, leb_ℤ, eqb_ℤ}
use nvidia_api_gateway.Prelude.Text.{
  Text, codes, text_eq, trim_space, is_empty, to_lower, has_prefix,
}

-- Instants are in nanoseconds.
pub record MasterKey : Type 0 where
  pub id : ℕ
  pub key : Text
  pub name : Text
  pub rpm : ℤ
  pub tpm : ℤ
  pub quota : ℤ
  pub used_quota : ℤ
  pub status : Text
  pub created_at : ℤ
  pub updated_at : ℤ

-- What the middleware reads of the store.
pub record Credentials : Type 0 where
  pub anonymous_access : Bool
  pub master_keys : List MasterKey

-- The headers and the query parameters that may carry a token, empty if missing.
pub record TokenFields : Type 0 where
  pub authorization : Text
  pub x_api_key : Text
  pub x_goog_api_key : Text
  pub query_key : Text
  pub query_api_key : Text

-- c.Next with the master key of the request, or an answer with a status.
pub data Verdict : Type 0 where
  next : Option MasterKey → Verdict
  reject : ℕ → Text → Verdict

-- strings.EqualFold(strings.TrimSpace(key.Status), "Active")
abbrev pub is_active : MasterKey → Bool
is_active k = text_eq (to_lower (trim_space k.status)) (codes "active")

unfoldable pub active_master_keys : List MasterKey → List MasterKey
active_master_keys [] = []
active_master_keys (k ∷ ks) =
    let rest = active_master_keys ks in if is_active k then k ∷ rest else rest

abbrev first_token : Text → Text → Text
first_token value others = if is_empty (trim_space value) then others else trim_space value

unfoldable pub extract_gateway_token : TokenFields → Text
extract_gateway_token c =
    let header = trim_space c.authorization in
    let others =
      first_token c.x_api_key
        (first_token c.x_goog_api_key (first_token c.query_key (first_token c.query_api_key []))) in
    if not (is_empty header) && has_prefix (to_lower header) (codes "bearer ")
    then trim_space (drop 7 header)
    else others

-- The loop over the active keys, with its break.
unfoldable pub find_master_key : Text → List MasterKey → Option MasterKey
find_master_key token [] = none
find_master_key token (k ∷ ks) =
    let rest = find_master_key token ks in if text_eq k.key token then some k else rest

abbrev pub no_quota : ℤ
no_quota = negsuc 0

-- masterKey.Quota != -1 && masterKey.UsedQuota >= masterKey.Quota
abbrev pub is_used_up : MasterKey → Bool
is_used_up k = not (eqb_ℤ k.quota no_quota) && leb_ℤ k.quota k.used_quota

abbrev has_none : List MasterKey → Bool
has_none [] = true
has_none (k ∷ ks) = false

-- After the store is read.
unfoldable pub admit : Credentials → Text → Verdict
unfolding active_master_keys find_master_key
admit store token =
    let active = active_master_keys store.master_keys in
    let found = find_master_key token active in
    if store.anonymous_access || has_none active
    then next none
    else if is_empty token
    then reject 401 (codes "Missing gateway access token")
    else elim found [
      | none ↦ reject 401 (codes "Invalid or revoked gateway access token")
      | some k ↦ if is_used_up k then reject 402 (codes "Quota exceeded") else next (some k)
    ]

-- The middleware; none is an error of db.ReadStore.
unfoldable pub master_auth_middleware : Option Credentials → TokenFields → Verdict
unfolding admit extract_gateway_token
master_auth_middleware none c = reject 500 (codes "Failed to load gateway credentials")
master_auth_middleware (some store) c = admit store (extract_gateway_token c)

-- A counter of Redis: an error, or its value, 0 if it is missing.
pub data Counter : Type 0 where
  broken : Text → Counter
  count : ℤ → Counter

-- The result is the error, none for nil. Without a client there are no counters.
abbrev pub check_quota : MasterKey → ℤ → Option Text
check_quota k cost =
    if not (eqb_ℤ k.quota no_quota) && ltb_ℤ k.quota (k.used_quota +ℤ cost)
    then some (codes "Quota exceeded")
    else none

abbrev check_tpm : Counter → MasterKey → ℤ → Option Text
check_tpm (broken message) k cost = some message
check_tpm (count used) k cost =
    if ltb_ℤ k.tpm (used +ℤ cost) then some (codes "TPM exceeded") else check_quota k cost

abbrev after_rpm : Counter → MasterKey → ℤ → Option Text
after_rpm tpm k cost = if ltb_ℤ (pos 0) k.tpm then check_tpm tpm k cost else check_quota k cost

abbrev check_rpm : Counter → Counter → MasterKey → ℤ → Option Text
check_rpm (broken message) tpm k cost = some message
check_rpm (count requests) tpm k cost =
    if leb_ℤ k.rpm requests then some (codes "RPM exceeded") else after_rpm tpm k cost

unfoldable pub check : Option (Counter × Counter) → Option MasterKey → ℤ → Option Text
check client none cost = none
check none (some k) cost = check_quota k cost
check (some (rpm, tpm)) (some k) cost =
    if ltb_ℤ (pos 0) k.rpm then check_rpm rpm tpm k cost else after_rpm tpm k cost

pub data Command : Type 0 where
  incr_rpm : ℕ → Command
  expire_rpm : ℕ → ℤ → Command
  incr_by_tpm : ℕ → ℤ → Command
  expire_tpm : ℕ → ℤ → Command

-- Commands in order until one fails: those that are sent, and the error.
unfoldable pub send : (Command → Option Text) → List Command → List Command × Option Text
send fails [] = ([], none)
send fails (c ∷ cs) =
    let rest = send fails cs in
    elim (fails c) [ some message ↦ (c ∷ [], some message) | none ↦ (c ∷ rest.0, rest.1) ]

-- `fails` is none without a client, and else the error of each command; `ttl` is the rest of the
-- minute.
unfoldable pub record_usage :
    Option (Command → Option Text) → Option MasterKey → ℤ → ℤ → List Command × Option Text
unfolding send
record_usage client none cost ttl = ([], none)
record_usage none (some k) cost ttl = ([], none)
record_usage (some fails) (some k) cost ttl =
    send fails
      (incr_rpm k.id ∷ expire_rpm k.id ttl ∷ incr_by_tpm k.id cost ∷ expire_tpm k.id ttl ∷ [])
