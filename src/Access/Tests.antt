-- ===== src/Access/Tests.antt =====
-- Requests with the token of an active key.
use nvidia_api_gateway.Prelude.{false, Option, none, some, [], ◌∷◌, ◌≡◌, refl, ◌⊎◌, ◌↔◌}
use nvidia_api_gateway.Prelude.Int.{pos, ◌+ℤ◌, ◌≤ℤ◌}
use nvidia_api_gateway.Prelude.Text.{
  Text, codes, text_eq, trim_space, is_space, to_lower, has_prefix,
}
use nvidia_api_gateway.Access.{
  MasterKey, Credentials, TokenFields, next, Counter, count, extract_gateway_token,
  master_auth_middleware, admit, active_master_keys, find_master_key, check, no_quota,
}
use nvidia_api_gateway.Access.Admission.{Admitted, master_auth_middleware-Admitted, check_iff}

abbrev key_of : Text → Text → MasterKey
key_of key status = record {
  id = 1;
  key = key;
  name = codes "master";
  rpm = pos 10;
  tpm = pos 0;
  quota = pos 100;
  used_quota = pos 40;
  status = status;
  created_at = pos 0;
  updated_at = pos 0;
}

abbrev store : Credentials
store = record {
  anonymous_access = false;
  master_keys =
      key_of (codes "mk-1") (codes "Revoked") ∷ key_of (codes "mk-2") (codes " ACTIVE") ∷ [];
}

abbrev bearer : TokenFields
bearer = record {
  authorization = codes "Bearer  mk-2";
  x_api_key = codes "mk-1";
  x_goog_api_key = [];
  query_key = [];
  query_api_key = [];
}

let_through :
    master_auth_middleware (some store) bearer
    ≡ next (some (key_of (codes "mk-2") (codes " ACTIVE")))
unfolding master_auth_middleware admit extract_gateway_token active_master_keys find_master_key
    text_eq trim_space is_space to_lower has_prefix
let_through = refl

master_auth_middleware-Admitted_example :
    Admitted store (extract_gateway_token bearer) (master_auth_middleware (some store) bearer)
master_auth_middleware-Admitted_example = master_auth_middleware-Admitted store bearer

abbrev counters : Option (Counter × Counter)
counters = some (count (pos 9), count (pos 0))

abbrev caller : MasterKey
caller = key_of (codes "mk-2") (codes "Active")

check_iff_example :
    (check counters (some caller) (pos 60) ≡ none
      → (caller.quota ≡ no_quota) ⊎ (caller.used_quota +ℤ pos 60 ≤ℤ caller.quota))
    × ((check none (some caller) (pos 60) ≡ none)
        ↔ ((caller.quota ≡ no_quota) ⊎ (caller.used_quota +ℤ pos 60 ≤ℤ caller.quota)))
check_iff_example = check_iff counters caller (pos 60)
