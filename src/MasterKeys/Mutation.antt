-- ===== src/MasterKeys/Mutation.antt =====
-- What mutateMasterKey and RotateMasterKey do to a store.
use mathlib.Core.Path.{subst}
use nvidia_api_gateway.Prelude.{
  ℕ, ◌<◌, ◌≡◌, refl, sym, ap, ◌∙◌, inl, inr, true, false, Option, none, some, List, [], ◌∷◌, ◌==◌,
  any, ==_iff, Bool-cases, Option-cases, All,
}
use nvidia_api_gateway.Prelude.Int.{ℤ}
use nvidia_api_gateway.Prelude.Text.{Text}
use nvidia_api_gateway.Access.{MasterKey}
use nvidia_api_gateway.Store.{Store}
use nvidia_api_gateway.MasterKeys.{
  Result, mutate_loop, mutate_master_key, is_taken, rotate_loop, rotate_master_key,
}
use nvidia_api_gateway.MasterKeys.Replacing.{Replaced, >>=-cases, mutate_loop-Replaced}
use nvidia_api_gateway.MasterKeys.Validity.{
  IsLimited, AreValid, IsValid, AreValid-replace, own_text_free, Replaced-id, Replaced-IsLimited,
}
use nvidia_api_gateway.MasterKeys.Changes.{Changed}

-- What mutateMasterKey does to a store.
pub record Mutated (id : ℕ) (f : MasterKey → List MasterKey → Result MasterKey) (s t : Store)
    : Type 0 where
  pub old : MasterKey
  pub new : MasterKey
  pub made : f old s.master_keys ≡ inr new
  pub replaced : Replaced id old new s.master_keys t.master_keys
  pub next : t.next_mk_id ≡ s.next_mk_id

abbrev pub changed_keys : Store → List MasterKey → Store
changed_keys s keys = record s { master_keys = keys }

abbrev given : Store → Result Store
given s = inr s

pub given_inj : (s t : Store) → given s ≡ given t → s ≡ t
given_inj s t e = cc e

pub mutate_master_key-Mutated :
    (id : ℕ) (f : MasterKey → List MasterKey → Result MasterKey) (s t : Store)
    → mutate_master_key id f s ≡ inr t
    → Mutated id f s t
unfolding mutate_master_key
mutate_master_key-Mutated id f s t h =
    let (keys, looped, e) =
      >>=-cases (mutate_loop (λ k. f k s.master_keys) id s.master_keys)
        (λ keys. inr (changed_keys s keys)) t h in
    let (old, new, made, replaced) =
      mutate_loop-Replaced (λ k. f k s.master_keys) id s.master_keys keys looped in
    subst (Mutated id f s) (given_inj _ _ e)
      (record { old = old; new = new; made = made; replaced = replaced; next = refl })

-- A mutator that keeps limits and identifiers, and gives no text of another key, keeps validity.
pub Mutated-IsValid :
    (id : ℕ) (f : MasterKey → List MasterKey → Result MasterKey) (s t : Store)
    → ((k k' : MasterKey)
        → IsLimited k
        → (k.id == id) ≡ true
        → f k s.master_keys ≡ inr k'
        → Changed k s.master_keys k')
    → IsValid s
    → Mutated id f s t
    → IsValid t
Mutated-IsValid id f s t ok v m =
    let hit = Replaced-id m.old m.new id s.master_keys t.master_keys m.replaced in
    let c =
      ok m.old m.new
        (Replaced-IsLimited s.next_mk_id m.old m.new id s.master_keys t.master_keys m.replaced v.0)
        hit m.made in
    let own =
      own_text_free s.next_mk_id m.old m.new id s.master_keys t.master_keys m.replaced v.0 in
    let free : is_taken id m.new.key s.master_keys ≡ false = elim c.key [
      | inl same ↦ subst (λ x. is_taken id x s.master_keys ≡ false) (sym same) own
      | inr fresh ↦
          subst (λ i. is_taken i m.new.key s.master_keys ≡ false) ((==_iff m.old.id id).0 hit) fresh
    ] in
    (
      subst (λ n. AreValid n t.master_keys) (sym m.next)
          (AreValid-replace s.next_mk_id m.old m.new id s.master_keys t.master_keys m.replaced v.0
            c.limited c.id free),
      subst (λ n. 0 < n) (sym m.next) v.1,
    )

-- The text of a new key is one that no other has.
abbrev pub Renames : ℕ → List MasterKey → Text → Type 0
Renames id keys text = is_taken id text keys ≡ false

pub rotate_loop-Renames :
    (id : ℕ) (keys : List MasterKey) (candidates : List (Option Text)) (text : Text)
    → rotate_loop id keys candidates ≡ some (inr text)
    → Renames id keys text
unfolding rotate_loop
rotate_loop-Renames id keys [] text h = cc h
rotate_loop-Renames id keys (none ∷ cs) text h = cc h
rotate_loop-Renames id keys (some c ∷ cs) text h = elim (Bool-cases (is_taken id c keys)) [
  | inl taken ↦ rotate_loop-Renames id keys cs text (rw taken at h)
  | inr free ↦ let same : c ≡ text = cc (rw free at h) in subst (Renames id keys) same free
]

-- What every candidate has, the one that is taken has.
pub rotate_loop-All :
    (P : Option Text → Type 0) (id : ℕ) (keys : List MasterKey) (candidates : List (Option Text))
    (text : Text)
    → All P candidates
    → rotate_loop id keys candidates ≡ some (inr text)
    → P (some text)
unfolding rotate_loop
rotate_loop-All P id keys [] text all h = cc h
rotate_loop-All P id keys (none ∷ cs) text all h = cc h
rotate_loop-All P id keys (some c ∷ cs) text all h = elim (Bool-cases (is_taken id c keys)) [
  | inl taken ↦ rotate_loop-All P id keys cs text all.1 (rw taken at h)
  | inr free ↦ let same : c ≡ text = cc (rw free at h) in subst (λ c. P (some c)) same all.0
]

some_inj : (r q : Result Store) → some r ≡ some q → r ≡ q
some_inj r q e = cc e

abbrev pub renamed : Text → ℤ → MasterKey → List MasterKey → Result MasterKey
renamed text now k keys = inr (record k { key = text; updated_at = now })

-- A rotation is a change of one key's text to one that no other key has.
pub rotate_master_key-Mutated :
    (id : ℕ) (now : ℤ) (candidates : List (Option Text)) (s t : Store)
    → rotate_master_key id now candidates s ≡ some (inr t)
    → (text : Text) × (rotate_loop id s.master_keys candidates ≡ some (inr text))
      × Mutated id (renamed text now) s t
unfolding rotate_master_key
rotate_master_key-Mutated id now candidates s t h =
    elim (Bool-cases (any (λ (e : MasterKey). e.id == id) s.master_keys)) [
      | inr missing ↦ cc (simp missing at h)
      | inl there_is ↦ elim (Option-cases (rotate_loop id s.master_keys candidates)) [
        | inl endless ↦ cc (simp (there_is, endless) at h)
        | inr (result, ended) ↦
            let (text, is_text, mutated) =
              >>=-cases result (λ text. mutate_master_key id (renamed text now) s) t
                (some_inj _ _ (simp (there_is, ended) at h)) in
            (
              text,
              ended ∙ ap some is_text,
              mutate_master_key-Mutated id (renamed text now) s t mutated,
            )
      ]
    ]
