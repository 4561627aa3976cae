-- ===== src/MasterKeys/Replacing.antt =====
-- What mutateMasterKey and deleteMasterKey do to the list of keys.
use mathlib.Core.Path.{subst}
use nvidia_api_gateway.Prelude.{
  ℕ, ◌≡◌, refl, sym, ◌∙◌, inl, inr, true, false, List, [], ◌∷◌, ◌==◌, Bool-cases,
}
use nvidia_api_gateway.Access.{MasterKey}
use nvidia_api_gateway.MasterKeys.{Result, ◌>>=◌, mutate_loop, delete_loop}

-- The first key with an identifier is replaced, and nothing else.
pub data Replaced (id : ℕ) (old new : MasterKey) : List MasterKey → List MasterKey → Type 0 where
  here : (ks : List MasterKey) → (old.id == id) ≡ true → Replaced id old new (old ∷ ks) (new ∷ ks)
  there :
      (k : MasterKey) (ks ks' : List MasterKey)
      → (k.id == id) ≡ false
      → Replaced id old new ks ks'
      → Replaced id old new (k ∷ ks) (k ∷ ks')

-- The first key with an identifier is removed, and nothing else.
pub data Removed (id : ℕ) (old : MasterKey) : List MasterKey → List MasterKey → Type 0 where
  here : (ks : List MasterKey) → (old.id == id) ≡ true → Removed id old (old ∷ ks) ks
  there :
      (k : MasterKey) (ks ks' : List MasterKey)
      → (k.id == id) ≡ false
      → Removed id old ks ks'
      → Removed id old (k ∷ ks) (k ∷ ks')

-- What a chain of steps gives, its first step has given something for.
pub >>=-cases :
    {A B : Type 0} (r : Result A) (f : A → Result B) (b : B)
    → r >>= f ≡ inr b
    → (a : A) × (r ≡ inr a) × (f a ≡ inr b)
>>=-cases (inl e) f b h = cc h
>>=-cases (inr a) f b h = (a, refl, h)

abbrev given : List MasterKey → Result (List MasterKey)
given ks = inr ks

inr_inj : (xs ys : List MasterKey) → given xs ≡ given ys → xs ≡ ys
inr_inj xs ys e = cc e

mutate_hit :
    (f : MasterKey → Result MasterKey) (id : ℕ) (k : MasterKey) (ks : List MasterKey)
    → (k.id == id) ≡ true
    → mutate_loop f id (k ∷ ks) ≡ (f k >>= λ k'. inr (k' ∷ ks))
unfolding mutate_loop
mutate_hit f id k ks e = simp e refl

mutate_miss :
    (f : MasterKey → Result MasterKey) (id : ℕ) (k : MasterKey) (ks : List MasterKey)
    → (k.id == id) ≡ false
    → mutate_loop f id (k ∷ ks) ≡ (mutate_loop f id ks >>= λ ks'. inr (k ∷ ks'))
unfolding mutate_loop
mutate_miss f id k ks e = simp e refl

delete_hit :
    (id : ℕ) (k : MasterKey) (ks : List MasterKey)
    → (k.id == id) ≡ true
    → delete_loop id (k ∷ ks) ≡ inr ks
unfolding delete_loop
delete_hit id k ks e = simp e refl

delete_miss :
    (id : ℕ) (k : MasterKey) (ks : List MasterKey)
    → (k.id == id) ≡ false
    → delete_loop id (k ∷ ks) ≡ (delete_loop id ks >>= λ ks'. inr (k ∷ ks'))
unfolding delete_loop
delete_miss id k ks e = simp e refl

pub mutate_loop-Replaced :
    (f : MasterKey → Result MasterKey) (id : ℕ) (ks ks' : List MasterKey)
    → mutate_loop f id ks ≡ inr ks'
    → (old : MasterKey) × (new : MasterKey) × (f old ≡ inr new) × Replaced id old new ks ks'
unfolding mutate_loop
mutate_loop-Replaced f id [] ks' h = cc h
mutate_loop-Replaced f id (k ∷ ks) ks' h = elim (Bool-cases (k.id == id)) [
  | inl hit ↦
      let (k', made, e) =
        >>=-cases (f k) (λ k'. inr (k' ∷ ks)) ks' (sym (mutate_hit f id k ks hit) ∙ h) in
      (k, k', made, subst (λ l. Replaced id k k' (k ∷ ks) l) (inr_inj _ _ e) (here ks hit))
  | inr miss ↦
      let (later, made, e) =
        >>=-cases (mutate_loop f id ks) (λ ks'. inr (k ∷ ks')) ks'
          (sym (mutate_miss f id k ks miss) ∙ h) in
      let (old, new, changed, r) = mutate_loop-Replaced f id ks later made in
      (
        old,
        new,
        changed,
        subst (λ l. Replaced id old new (k ∷ ks) l) (inr_inj _ _ e) (there k ks later miss r),
      )
]

pub delete_loop-Removed :
    (id : ℕ) (ks ks' : List MasterKey)
    → delete_loop id ks ≡ inr ks'
    → (old : MasterKey) × Removed id old ks ks'
unfolding delete_loop
delete_loop-Removed id [] ks' h = cc h
delete_loop-Removed id (k ∷ ks) ks' h = elim (Bool-cases (k.id == id)) [
  | inl hit ↦ (
    k,
    subst (λ l. Removed id k (k ∷ ks) l) (inr_inj _ _ (sym (delete_hit id k ks hit) ∙ h))
        (here ks hit),
  )
  | inr miss ↦
      let (later, made, e) =
        >>=-cases (delete_loop id ks) (λ ks'. inr (k ∷ ks')) ks'
          (sym (delete_miss id k ks miss) ∙ h) in
      let (old, r) = delete_loop-Removed id ks later made in
      (old, subst (λ l. Removed id old (k ∷ ks) l) (inr_inj _ _ e) (there k ks later miss r))
]
