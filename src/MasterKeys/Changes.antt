-- ===== src/MasterKeys/Changes.antt =====
-- What the handlers' mutators do to one key.
use mathlib.Core.Path.{subst}
use nvidia_api_gateway.Prelude.{
  ℕ, ◌≡◌, refl, ◌∙◌, ◌⊎◌, inl, inr, false, Option, none, some, List, arith, Bool-cases,
}
use nvidia_api_gateway.Prelude.Int.{ℤ, pos, negsuc, ◌≤ℤ◌, ltb_ℤ}
use nvidia_api_gateway.Prelude.Text.{Text, codes, text_eq, trim_space, is_empty}
use nvidia_api_gateway.Access.{MasterKey}
use nvidia_api_gateway.MasterKeys.{
  MasterKeyError, Result, CreateMasterKeyRequest, UpdateMasterKeyRequest,
  normalize_master_key_status, key_or_generated, normalize_master_key_create, new_master_key,
  is_taken, set_name, set_rpm, set_tpm, set_quota, set_status, set_key, update_fields,
}
use nvidia_api_gateway.MasterKeys.Replacing.{>>=-cases}
use nvidia_api_gateway.MasterKeys.Validity.{IsLimited}

-- A key with the identifier and the text of another, and limits that are accepted.
pub record Kept (k k' : MasterKey) : Type 0 where
  pub limited : IsLimited k'
  pub id : k'.id ≡ k.id
  pub key : k'.key ≡ k.key

Kept-then : (a b c : MasterKey) → Kept a b → Kept b c → Kept a c
Kept-then a b c p q = record { limited = q.limited; id = q.id ∙ p.id; key = q.key ∙ p.key }

-- Refused, or the given key.
abbrev Guarded : Result MasterKey → (MasterKey → Type 0) → Type 0
Guarded (inl e) P = Unit
Guarded (inr k) P = P k

Guarded-given :
    (r : Result MasterKey) (P : MasterKey → Type 0) (k : MasterKey) → Guarded r P → r ≡ inr k → P k
Guarded-given (inl e) P k g h = cc h
Guarded-given (inr j) P k g h = let same : j ≡ k = cc h in subst P same g

Result-cases :
    {A : Type 0} (r : Result A) → ((e : MasterKeyError) × (r ≡ inl e)) ⊎ ((a : A) × (r ≡ inr a))
Result-cases (inl e) = inl (e, refl)
Result-cases (inr a) = inr (a, refl)

pub normalize_master_key_status_lem :
    (raw status : Text)
    → normalize_master_key_status raw ≡ inr status
    → (status ≡ codes "Active") ⊎ (status ≡ codes "Disabled")
unfolding normalize_master_key_status
normalize_master_key_status_lem raw status h =
    elim (Bool-cases (text_eq (trim_space raw) (codes "Active"))) [
      | inl active ↦ inl (cc (rw active at h))
      | inr other ↦ elim (Bool-cases (text_eq (trim_space raw) (codes "Disabled"))) [
        | inl disabled ↦ inr (cc (rw (other, disabled) at h))
        | inr wrong ↦ cc (rw (other, wrong) at h)
      ]
    ]

-- A key with new limits that are accepted.
limited :
    (k k' : MasterKey)
    → IsLimited k
    → k'.id ≡ k.id
    → k'.key ≡ k.key
    → pos 0 ≤ℤ k'.rpm
    → pos 0 ≤ℤ k'.tpm
    → negsuc 0 ≤ℤ k'.quota
    → (k'.status ≡ codes "Active") ⊎ (k'.status ≡ codes "Disabled")
    → Kept k k'
limited k k' l i t r m q st = record {
  limited = record { rpm = r; tpm = m; quota = q; status = st };
  id = i;
  key = t;
}

set_name-Kept : (o : Option Text) (k : MasterKey) → IsLimited k → Guarded (set_name o k) (Kept k)
set_name-Kept none k l = limited k k l refl refl l.rpm l.tpm l.quota l.status
set_name-Kept (some raw) k l = elim (Bool-cases (is_empty (trim_space raw))) [
  | inl blank ↦ simp blank tt
  | inr named ↦ simp named (limited k _ l refl refl l.rpm l.tpm l.quota l.status)
]

set_rpm-Kept : (o : Option ℤ) (k : MasterKey) → IsLimited k → Guarded (set_rpm o k) (Kept k)
set_rpm-Kept none k l = limited k k l refl refl l.rpm l.tpm l.quota l.status
set_rpm-Kept (some n) k l = elim (Bool-cases (ltb_ℤ n (pos 0))) [
  | inl less ↦ simp less tt
  | inr fits ↦ simp fits (limited k _ l refl refl (ground (arith, fits)) l.tpm l.quota l.status)
]

set_tpm-Kept : (o : Option ℤ) (k : MasterKey) → IsLimited k → Guarded (set_tpm o k) (Kept k)
set_tpm-Kept none k l = limited k k l refl refl l.rpm l.tpm l.quota l.status
set_tpm-Kept (some n) k l = elim (Bool-cases (ltb_ℤ n (pos 0))) [
  | inl less ↦ simp less tt
  | inr fits ↦ simp fits (limited k _ l refl refl l.rpm (ground (arith, fits)) l.quota l.status)
]

set_quota-Kept : (o : Option ℤ) (k : MasterKey) → IsLimited k → Guarded (set_quota o k) (Kept k)
set_quota-Kept none k l = limited k k l refl refl l.rpm l.tpm l.quota l.status
set_quota-Kept (some n) k l = elim (Bool-cases (ltb_ℤ n (negsuc 0))) [
  | inl less ↦ simp less tt
  | inr fits ↦ simp fits (limited k _ l refl refl l.rpm l.tpm (ground (arith, fits)) l.status)
]

set_status-Kept :
    (o : Option Text) (k : MasterKey) → IsLimited k → Guarded (set_status o k) (Kept k)
set_status-Kept none k l = limited k k l refl refl l.rpm l.tpm l.quota l.status
set_status-Kept (some raw) k l = elim (Result-cases (normalize_master_key_status raw)) [
  | inl (e, refused) ↦ simp refused tt
  | inr (status, given) ↦ simp given (
      limited k _ l refl refl l.rpm l.tpm l.quota
        (normalize_master_key_status_lem raw status given))
]

-- What UpdateMasterKey may do to a key: its text is the old one, or one that no other key has.
pub record Changed (k : MasterKey) (keys : List MasterKey) (k' : MasterKey) : Type 0 where
  pub limited : IsLimited k'
  pub id : k'.id ≡ k.id
  pub key : (k'.key ≡ k.key) ⊎ (is_taken k.id k'.key keys ≡ false)

set_key-Changed :
    (raw : Text) (keys : List MasterKey) (j k : MasterKey)
    → Kept j k
    → Guarded (set_key raw keys k) (Changed j keys)
set_key-Changed raw keys j k l = elim (Bool-cases (is_empty (trim_space raw))) [
  | inl blank ↦ simp blank (record { limited = l.limited; id = l.id; key = inl l.key })
  | inr asked ↦ elim (Bool-cases (is_taken k.id (trim_space raw) keys)) [
    | inl taken ↦ simp (asked, taken) tt
    | inr free ↦
        simp (asked, free)
          (record {
            limited = record {
              rpm = l.limited.rpm;
              tpm = l.limited.tpm;
              quota = l.limited.quota;
              status = l.limited.status;
            };
            id = l.id;
            key = inr (subst (λ i. is_taken i (trim_space raw) keys ≡ false) l.id free);
          })
  ]
]

-- A step that keeps the identifier and the text, after others that did.
Kept-later :
    (a b c : MasterKey) (r : Result MasterKey)
    → Kept a b
    → Guarded r (Kept b)
    → r ≡ inr c
    → Kept a c
Kept-later a b c r p g e = Kept-then a b c p (Guarded-given r (Kept b) c g e)

relimited : (k : MasterKey) (now : ℤ) → IsLimited k → IsLimited (record k { updated_at = now })
relimited k now l = record { rpm = l.rpm; tpm = l.tpm; quota = l.quota; status = l.status }

pub update_fields-Changed :
    (req : UpdateMasterKeyRequest) (now : ℤ) (k k' : MasterKey) (keys : List MasterKey)
    → IsLimited k
    → update_fields req now k keys ≡ inr k'
    → Changed k keys k'
unfolding update_fields
update_fields-Changed req now k k' keys l h =
    let (f, hf, e) = >>=-cases _ _ k' h in
    let (e1, he, sk) = >>=-cases _ _ f hf in
    let (d, hd, ss) = >>=-cases _ _ e1 he in
    let (c, hc, sq) = >>=-cases _ _ d hd in
    let (b, hb, st) = >>=-cases _ _ c hc in
    let (a, ha, sr) = >>=-cases _ _ b hb in
    let ka = Guarded-given (set_name req.name k) (Kept k) a (set_name-Kept req.name k l) ha in
    let kb = Kept-later k a b _ ka (set_rpm-Kept req.rpm a ka.limited) sr in
    let kc = Kept-later k b c _ kb (set_tpm-Kept req.tpm b kb.limited) st in
    let kd = Kept-later k c d _ kc (set_quota-Kept req.quota c kc.limited) sq in
    let ke = Kept-later k d e1 _ kd (set_status-Kept req.status d kd.limited) ss in
    let cf = Guarded-given _ (Changed k keys) f (set_key-Changed req.key keys k e1 ke) sk in
    let same : record f { updated_at = now } ≡ k' = cc e in
    subst (Changed k keys) same
      (record { limited = relimited f now cf.limited; id = cf.id; key = cf.key })

-- What AddMasterKey accepts.
pub normalize_master_key_create-IsLimited :
    (generated : Option Text) (req : CreateMasterKeyRequest) (now : ℤ) (id : ℕ)
    (name text status : Text)
    → normalize_master_key_create generated req ≡ inr (name, text, status)
    → IsLimited (record (new_master_key req now (name, text, status)) { id = id })
unfolding normalize_master_key_create
normalize_master_key_create-IsLimited generated req now id name text status h =
    elim (Bool-cases (is_empty (trim_space req.name))) [
      | inl blank ↦ cc (rw blank at h)
      | inr named ↦ elim (Bool-cases (ltb_ℤ req.rpm (pos 0))) [
        | inl less ↦ cc (rw (named, less) at h)
        | inr rpm ↦ elim (Bool-cases (ltb_ℤ req.tpm (pos 0))) [
          | inl less ↦ cc (rw (named, rpm, less) at h)
          | inr tpm ↦ elim (Bool-cases (ltb_ℤ req.quota (negsuc 0))) [
            | inl less ↦ cc (rw (named, rpm, tpm, less) at h)
            | inr quota ↦
                let (st, made, more) =
                  >>=-cases _ _ (name, text, status) (rw (named, rpm, tpm, quota) at h) in
                let (tx, written, e) =
                  >>=-cases (key_or_generated generated req.key)
                    (λ x. inr (trim_space req.name, x, st)) (name, text, status) more in
                let same : st ≡ status = cc e in
                record {
                  rpm = ground (arith, rpm);
                  tpm = ground (arith, tpm);
                  quota = ground (arith, quota);
                  status =
                      subst (λ s. (s ≡ codes "Active") ⊎ (s ≡ codes "Disabled")) same
                        (normalize_master_key_status_lem _ st made);
                }
          ]
        ]
      ]
    ]
