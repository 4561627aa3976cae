-- ===== src/MasterKeys/Validity.antt =====
-- The keys of the store stay well-formed under everything that the gateway does to them.
use nvidia_api_gateway.Prelude.{
  ℕ, ◌+◌, ◌<◌, ◌≡◌, refl, ◌⊎◌, true, false, List, [], ◌∷◌, ◌++◌, ◌==◌, any, arith, All,
}
use nvidia_api_gateway.Prelude.Int.{pos, negsuc, ◌≤ℤ◌}
use nvidia_api_gateway.Prelude.Text.{codes, text_eq, text_eq_sym}
use nvidia_api_gateway.Access.{MasterKey}
use nvidia_api_gateway.Store.{Store}
use nvidia_api_gateway.MasterKeys.{is_taken}
use nvidia_api_gateway.MasterKeys.Replacing.{Replaced, here, there, Removed}

-- A key's limits and status are ones that the handlers accept.
pub record IsLimited (k : MasterKey) : Type 0 where
  pub rpm : pos 0 ≤ℤ k.rpm
  pub tpm : pos 0 ≤ℤ k.tpm
  pub quota : negsuc 0 ≤ℤ k.quota
  pub status : (k.status ≡ codes "Active") ⊎ (k.status ≡ codes "Disabled")

-- Two keys have different identifiers and different texts.
abbrev pub Apart : MasterKey → MasterKey → Type 0
Apart k j = ((j.id == k.id) ≡ false) × (text_eq j.key k.key ≡ false)

abbrev pub AreValid : ℕ → List MasterKey → Type 0
AreValid next [] = Unit
AreValid next (k ∷ ks) = IsLimited k × (k.id < next) × All (Apart k) ks × AreValid next ks

-- The keys of a store, and its next identifier.
abbrev pub IsValid : Store → Type 0
IsValid s = AreValid s.next_mk_id s.master_keys × (0 < s.next_mk_id)

-- One more key, with the next identifier and a text of its own.
Apart-append :
    (k new : MasterKey) (ks : List MasterKey)
    → All (Apart k) ks
    → Apart k new
    → All (Apart k) (ks ++ new ∷ [])
Apart-append k new [] all a = (a, tt)
Apart-append k new (j ∷ ks) all a = (all.0, Apart-append k new ks all.1 a)

pub AreValid-append :
    (next : ℕ) (new : MasterKey) (ks : List MasterKey)
    → AreValid next ks
    → IsLimited new
    → new.id ≡ next
    → any (λ (e : MasterKey). text_eq e.key new.key) ks ≡ false
    → AreValid (next + 1) (ks ++ new ∷ [])
AreValid-append next new [] v l e free = (l, omega (arith, e), tt, tt)
AreValid-append next new (k ∷ ks) v l e free =
    let (limited, below, apart, rest) = v in
    let later : Apart k new =
      (ground (arith, below, e), ground (arith, text_eq_sym k.key new.key)) in
    (
      limited,
      omega (arith, below),
      Apart-append k new ks apart later,
      AreValid-append next new ks rest l e (ground arith),
    )

-- A key is replaced by one with its identifier, and a text that no other key has.
Apart-replace :
    (k old new : MasterKey) (id : ℕ) (ks ks' : List MasterKey)
    → Replaced id old new ks ks'
    → All (Apart k) ks
    → Apart k new
    → All (Apart k) ks'
Apart-replace k old new id ks ks' (here js e) all a = (a, all.1)
Apart-replace k old new id ks ks' (there j js js' e r) all a =
    (all.0, Apart-replace k old new id js js' r all.1 a)

Apart-renamed :
    (old new : MasterKey) (id : ℕ) (ks : List MasterKey)
    → (old.id == id) ≡ true
    → new.id ≡ old.id
    → is_taken id new.key ks ≡ false
    → All (Apart old) ks
    → All (Apart new) ks
Apart-renamed old new id [] e same free all = tt
Apart-renamed old new id (j ∷ ks) e same free all = (
  (ground (arith, all.0.0, same), ground (arith, all.0.0, e)),
  Apart-renamed old new id ks e same (ground arith) all.1,
)

pub Replaced-id :
    (old new : MasterKey) (id : ℕ) (ks ks' : List MasterKey)
    → Replaced id old new ks ks'
    → (old.id == id) ≡ true
Replaced-id old new id ks ks' (here js e) = e
Replaced-id old new id ks ks' (there j js js' e r) = Replaced-id old new id js js' r

pub AreValid-replace :
    (next : ℕ) (old new : MasterKey) (id : ℕ) (ks ks' : List MasterKey)
    → Replaced id old new ks ks'
    → AreValid next ks
    → IsLimited new
    → new.id ≡ old.id
    → is_taken id new.key ks ≡ false
    → AreValid next ks'
AreValid-replace next old new id ks ks' (here js e) v l same free =
    let (limited, below, apart, rest) = v in
    (l, omega (arith, below, same), Apart-renamed old new id js e same (ground arith) apart, rest)
AreValid-replace next old new id ks ks' (there j js js' e r) v l same free =
    let (limited, below, apart, rest) = v in
    let hit = Replaced-id old new id js js' r in
    let other : Apart j new =
      (ground (arith, hit, same, e), ground (arith, e, text_eq_sym j.key new.key)) in
    (
      limited,
      below,
      Apart-replace j old new id js js' r apart other,
      AreValid-replace next old new id js js' r rest l same (ground (arith, e)),
    )

pub Apart-at :
    (k old new : MasterKey) (id : ℕ) (ks ks' : List MasterKey)
    → Replaced id old new ks ks'
    → All (Apart k) ks
    → Apart k old
Apart-at k old new id ks ks' (here js e) all = all.0
Apart-at k old new id ks ks' (there j js js' e r) all = Apart-at k old new id js js' r all.1

others_free :
    (id : ℕ) (old : MasterKey) (ks : List MasterKey)
    → All (Apart old) ks
    → is_taken id old.key ks ≡ false
others_free id old [] all = refl
others_free id old (j ∷ ks) all = ground (arith, others_free id old ks all.1, all.0.1)

-- No other key has the text of a key.
pub own_text_free :
    (next : ℕ) (old new : MasterKey) (id : ℕ) (ks ks' : List MasterKey)
    → Replaced id old new ks ks'
    → AreValid next ks
    → is_taken id old.key ks ≡ false
own_text_free next old new id ks ks' (here js e) v = ground (arith, others_free id old js v.2, e)
own_text_free next old new id ks ks' (there j js js' e r) v =
    let apart = Apart-at j old new id js js' r v.2 in
    ground (arith, own_text_free next old new id js js' r v.3, text_eq_sym j.key old.key, apart.1)

Apart-remove :
    (k old : MasterKey) (id : ℕ) (ks ks' : List MasterKey)
    → Removed id old ks ks'
    → All (Apart k) ks
    → All (Apart k) ks'
Apart-remove k old id ks ks' (here js e) all = all.1
Apart-remove k old id ks ks' (there j js js' e r) all =
    (all.0, Apart-remove k old id js js' r all.1)

pub AreValid-remove :
    (next : ℕ) (old : MasterKey) (id : ℕ) (ks ks' : List MasterKey)
    → Removed id old ks ks'
    → AreValid next ks
    → AreValid next ks'
AreValid-remove next old id ks ks' (here js e) v = v.3
AreValid-remove next old id ks ks' (there j js js' e r) v =
    (v.0, v.1, Apart-remove j old id js js' r v.2, AreValid-remove next old id js js' r v.3)

-- The key that is replaced is one of the valid ones.
pub Replaced-IsLimited :
    (next : ℕ) (old new : MasterKey) (id : ℕ) (ks ks' : List MasterKey)
    → Replaced id old new ks ks'
    → AreValid next ks
    → IsLimited old
Replaced-IsLimited next old new id ks ks' (here js e) v = v.0
Replaced-IsLimited next old new id ks ks' (there j js js' e r) v =
    Replaced-IsLimited next old new id js js' r v.3
