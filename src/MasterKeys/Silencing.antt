-- ===== src/MasterKeys/Silencing.antt =====
-- What an UpdateMasterKey request does to the status and the text of a key.
use mathlib.Core.Path.{subst}
use nvidia_api_gateway.Prelude.{
  ◌≡◌, refl, sym, ap, ◌∙◌, inl, inr, false, ◌&&◌, some, List, arith, Bool-cases,
}
use nvidia_api_gateway.Prelude.Int.{ℤ}
use nvidia_api_gateway.Prelude.Text.{Text, codes, text_eq, trim_space, is_empty, is_space, to_lower}
use nvidia_api_gateway.Access.{MasterKey, is_active}
use nvidia_api_gateway.MasterKeys.{
  Result, UpdateMasterKeyRequest, normalize_master_key_status, is_taken, set_name, set_rpm, set_tpm,
  set_quota, set_status, set_key, update_fields, ◌>>=◌,
}
use nvidia_api_gateway.MasterKeys.Replacing.{>>=-cases}

disabled_text : text_eq (to_lower (trim_space (codes "Disabled"))) (codes "active") ≡ false
unfolding text_eq to_lower trim_space is_space
disabled_text = refl

pub disabled_lem : (k : MasterKey) → k.status ≡ codes "Disabled" → is_active k ≡ false
disabled_lem k e =
    subst (λ x. text_eq (to_lower (trim_space x)) (codes "active") ≡ false) (sym e) disabled_text

abbrev given_key : MasterKey → Result MasterKey
given_key k = inr k

given_key_inj : (j k : MasterKey) → given_key j ≡ given_key k → j ≡ k
given_key_inj j k e = cc e

set_status-status :
    (raw : Text) (k j : MasterKey)
    → normalize_master_key_status raw ≡ inr (codes "Disabled")
    → set_status (some raw) k ≡ inr j
    → j.status ≡ codes "Disabled"
set_status-status raw k j e h =
    let same = given_key_inj (record k { status = codes "Disabled" }) j (rw e at h) in
    sym (ap (λ (x : MasterKey). x.status) same)

set_key-status :
    (raw : Text) (keys : List MasterKey) (k j : MasterKey)
    → set_key raw keys k ≡ inr j
    → j.status ≡ k.status
set_key-status raw keys k j h = elim (Bool-cases (is_empty (trim_space raw))) [
  | inl blank ↦ sym (ap (λ (x : MasterKey). x.status) (given_key_inj k j (rw blank at h)))
  | inr asked ↦ elim (Bool-cases (is_taken k.id (trim_space raw) keys)) [
    | inl taken ↦ cc (rw (asked, taken) at h)
    | inr free ↦
        let same = given_key_inj (record k { key = trim_space raw }) j (rw (asked, free) at h) in
        sym (ap (λ (x : MasterKey). x.status) same)
  ]
]

set_key-key :
    (raw : Text) (keys : List MasterKey) (k j : MasterKey)
    → is_empty (trim_space raw) ≡ false
    → set_key raw keys k ≡ inr j
    → j.key ≡ trim_space raw
set_key-key raw keys k j asked h = elim (Bool-cases (is_taken k.id (trim_space raw) keys)) [
  | inl taken ↦ cc (rw (asked, taken) at h)
  | inr free ↦
      let same = given_key_inj (record k { key = trim_space raw }) j (rw (asked, free) at h) in
      sym (ap (λ (x : MasterKey). x.key) same)
]

-- The request disables the key, or gives it another text.
pub data Silencing (req : UpdateMasterKeyRequest) (k : MasterKey) : Type 0 where
  disables :
      (raw : Text)
      → req.status ≡ some raw
      → normalize_master_key_status raw ≡ inr (codes "Disabled")
      → Silencing req k
  replaces :
      is_empty (trim_space req.key) ≡ false
      → text_eq (trim_space req.key) k.key ≡ false
      → Silencing req k

-- The steps before the status, and those up to the text.
abbrev numbered : UpdateMasterKeyRequest → MasterKey → Result MasterKey
numbered req k = set_name req.name k >>= set_rpm req.rpm >>= set_tpm req.tpm >>= set_quota req.quota

abbrev keyed : UpdateMasterKeyRequest → MasterKey → List MasterKey → Result MasterKey
keyed req k keys = numbered req k >>= set_status req.status >>= set_key req.key keys

-- The status and the text that the request gives.
update_fields-given :
    (req : UpdateMasterKeyRequest) (now : ℤ) (k k' : MasterKey) (keys : List MasterKey)
    → update_fields req now k keys ≡ inr k'
    → (c d f : MasterKey) × (set_status req.status c ≡ inr d)
      × (set_key req.key keys d ≡ inr f)
      × (k'.status ≡ f.status)
      × (k'.key ≡ f.key)
unfolding update_fields
update_fields-given req now k k' keys h =
    let (f, hf, e) = >>=-cases (keyed req k keys) (λ x. inr (record x { updated_at = now })) k' h in
    let (d, hd, with_key) =
      >>=-cases (numbered req k >>= set_status req.status) (set_key req.key keys) f hf in
    let (c, hc, set) = >>=-cases (numbered req k) (set_status req.status) d hd in
    let same = given_key_inj (record f { updated_at = now }) k' e in
    (
      c,
      d,
      f,
      set,
      with_key,
      sym (ap (λ (x : MasterKey). x.status) same),
      sym (ap (λ (x : MasterKey). x.key) same),
    )

pub update_fields-silences :
    (req : UpdateMasterKeyRequest) (now : ℤ) (k k' : MasterKey) (keys : List MasterKey)
    → Silencing req k
    → update_fields req now k keys ≡ inr k'
    → is_active k' && text_eq k'.key k.key ≡ false
update_fields-silences req now k k' keys (disables raw asked off) h =
    let (c, d, f, set, with_key, status, text) = update_fields-given req now k k' keys h in
    let set' : set_status (some raw) c ≡ inr d = subst (λ o. set_status o c ≡ inr d) asked set in
    let silent : is_active k' ≡ false =
      disabled_lem k' (
        status ∙ (set_key-status req.key keys d f with_key ∙ set_status-status raw c d off set')) in
    ground (arith, silent)
update_fields-silences req now k k' keys (replaces asked other) h =
    let (c, d, f, set, with_key, status, text) = update_fields-given req now k k' keys h in
    let differs : text_eq k'.key k.key ≡ false =
      subst (λ t. text_eq t k.key ≡ false)
        (sym (text ∙ set_key-key req.key keys d f asked with_key)) other in
    ground (arith, differs)
