-- ===== src/Store/Numbers.antt =====
-- The numbers that the store hands out, and the heartbeat interval that it can hold.
use mathlib.Core.Path.{subst}
use nvidia_api_gateway.Prelude.{
  ℕ, ◌+◌, ◌%◌, ◌-◌, ◌≤◌, ◌<◌, ◌≡◌, sym, Bool, true, Option, some, List, [], ◌∷◌, arith, ltb,
  if◌then◌else◌, All, Option-cases, ◌⊎◌, inl, inr,
}
use nvidia_api_gateway.Prelude.Int.{pos, ◌≤ℤ◌}
use nvidia_api_gateway.Prelude.Text.{Text}
use nvidia_api_gateway.Disk.{Faults}
use nvidia_api_gateway.Models.Config.Normal.{keep_alive_never_off}
use nvidia_api_gateway.Store.{Store, normalize_store, Codecs, max_id, next_id_of, uint_mod}
use nvidia_api_gateway.Store.Database.{◌>>=◌, snapshot, Database, clone_store, update_store}
use nvidia_api_gateway.Store.Update.{kept, refused, failed, done, update_store-Updated}

below_suc : (m : ℕ) → m < uint_mod - 1 → m + 1 < uint_mod
below_suc m h = omega arith

module _ {ℓ} {A : Type ℓ} (id : A → ℕ) where
  so_far-le-max_id : (n : ℕ) (xs : List A) → n ≤ max_id id n xs
  unfolding max_id
  so_far-le-max_id n [] = omega arith
  so_far-le-max_id n (x ∷ xs) =
      ground (arith, so_far-le-max_id (if ltb n (id x) then id x else n) xs)

  max_id-bounds : (n : ℕ) (xs : List A) → All (λ x. id x ≤ max_id id n xs) xs
  unfolding max_id
  max_id-bounds n [] = tt
  max_id-bounds n (x ∷ xs) =
      let m = if ltb n (id x) then id x else n in
      let low = so_far-le-max_id m xs in (ground (arith, low), max_id-bounds m xs)

  max_id-below : (b n : ℕ) (xs : List A) → n < b → All (λ x. id x < b) xs → max_id id n xs < b
  unfolding max_id
  max_id-below b n [] h all = h
  max_id-below b n (x ∷ xs) h all =
      max_id-below b (if ltb n (id x) then id x else n) xs (ground (arith, all.0)) all.1

  All-weaken : (P Q : A → Type 0) (xs : List A) → ((x : A) → P x → Q x) → All P xs → All Q xs
  All-weaken P Q [] f all = tt
  All-weaken P Q (x ∷ xs) f all = (f x all.0, All-weaken P Q xs f all.1)

  -- If the next number of a list is lost, the store finds one above every number of the list, as
  -- long as none is the largest that a uint holds.
  pub next_id_of-fresh :
      (xs : List A) → All (λ x. id x + 1 < uint_mod) xs → All (λ x. id x < next_id_of id xs) xs
  unfolding next_id_of
  next_id_of-fresh xs all =
      let bounds = max_id-bounds 0 xs in
      let small : max_id id 0 xs + 1 < uint_mod = below_suc _ (
        max_id-below (uint_mod - 1) 0 xs (omega arith) (
          All-weaken (λ x. id x + 1 < uint_mod) (λ x. id x < uint_mod - 1) xs
            (λ x h. omega (arith, h)) all)) in
      All-weaken (λ x. id x ≤ max_id id 0 xs) (λ x. id x < (max_id id 0 xs + 1) % uint_mod) xs
        (λ x h. omega (arith, h, small)) bounds

module _ (c : Codecs) where
  keep_alive-kept : (store : Store) → pos 1 ≤ℤ (kept c store).system_config.stream_keep_alive_sec
  unfolding normalize_store
  keep_alive-kept store = keep_alive_never_off store.system_config

  -- What cloneStore gives, if the copy by way of JSON is faithful.
  clone_store-cases :
      (s : Store)
      → ((text : Text) → c.encode_store s ≡ some text → c.decode_store text ≡ some s)
      → (clone_store c s ≡ s) ⊎ (clone_store c s ≡ normalize_store c.decimal s)
  unfolding clone_store
  clone_store-cases s copied = elim (Option-cases (c.encode_store s)) [
    | inl no_text ↦ inl (rw (no_text, clone_store))
    | inr (text, e) ↦ inr (rw (e, clone_store) (rw (copied text e)))
  ]

  -- When UpdateStore has returned nil, the cached heartbeat interval is at least 1, whatever the
  -- mutator has set, provided that the copy of that store by way of JSON is
  -- faithful.
  pub update_store-keep_alive :
      (readable : ℕ → Bool) (made : Bool) (faults : ℕ → Faults) (mutator : Store → Option Store)
      (db : Database)
      → ((store : Store)
          → snapshot c readable db >>= mutator ≡ some store
          → (text : Text) → c.encode_store (kept c store) ≡ some text
          → c.decode_store text ≡ some (kept c store))
      → (update_store c readable made faults mutator db).1 ≡ true
      → (s : Store) × ((update_store c readable made faults mutator db).0.cache ≡ some s)
        × (pos 1 ≤ℤ s.system_config.stream_keep_alive_sec)
  update_store-keep_alive readable made faults mutator db copied nil =
      elim (update_store-Updated c readable made faults mutator db) [
        | refused no_store same ↦ absurd (cc (same, nil))
        | failed store changed no_nil cached ↦ absurd (cc (no_nil, nil))
        | done store changed nil_returned cached state catalog split held raws ↦ (
          clone_store c (kept c store),
          cached,
          elim (clone_store-cases (kept c store) (copied store changed)) [
            | inl same ↦
                subst (λ s. pos 1 ≤ℤ s.system_config.stream_keep_alive_sec) (sym same)
                  (keep_alive-kept store)
            | inr again ↦
                subst (λ s. pos 1 ≤ℤ s.system_config.stream_keep_alive_sec) (sym again)
                  (keep_alive-kept (normalize_store c.decimal store))
          ],
        )
      ]
