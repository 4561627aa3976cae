-- ===== src/MasterKeys/Revocation.antt =====
-- A key that is deleted, replaced by a new text or disabled lets nobody in any more.
use nvidia_api_gateway.Prelude.{◌≡◌, ◌≢◌, inr, Option, some, List, All}
use nvidia_api_gateway.Prelude.Int.{ℤ}
use nvidia_api_gateway.Prelude.Text.{Text, codes}
use nvidia_api_gateway.Access.{MasterKey}
use nvidia_api_gateway.Store.{Store}
use nvidia_api_gateway.MasterKeys.{
  UpdateMasterKeyRequest, update_fields, mutate_master_key, delete_master_key, rotate_master_key,
  with_status,
}
use nvidia_api_gateway.MasterKeys.Silencing.{Silencing}

-- The handlers' ways to revoke a key.
pub data Revoked (k : MasterKey) (s t : Store) : Type 0 where
  deleted : delete_master_key k.id s ≡ inr t → Revoked k s t
  rotated :
      (now : ℤ) (candidates : List (Option Text))
      → All (λ c. c ≢ some k.key) candidates
      → rotate_master_key k.id now candidates s ≡ some (inr t)
      → Revoked k s t
  disabled :
      (now : ℤ)
      → mutate_master_key k.id (with_status (codes "Disabled") now) s ≡ inr t
      → Revoked k s t
  updated :
      (req : UpdateMasterKeyRequest) (now : ℤ)
      → Silencing req k
      → mutate_master_key k.id (update_fields req now) s ≡ inr t
      → Revoked k s t
