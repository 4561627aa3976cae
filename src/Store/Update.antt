-- ===== src/Store/Update.antt =====
-- UpdateStore as a whole: what is changed when it fails, and what a restart finds when it succeeds.
use mathlib.Core.Path.{subst}
use nvidia_api_gateway.Prelude.{
  ℕ, ◌≡◌, refl, sym, ap, ◌∙◌, inl, inr, Bool, true, false, Option, none, some, ◌++◌, Bool-cases,
  Option-cases, All,
}
use nvidia_api_gateway.Prelude.Text.{Text, codes, text_eq}
use nvidia_api_gateway.Disk.{Files, Faults}
use nvidia_api_gateway.Store.{Store, normalize_store, Codecs, split_health_state}
use nvidia_api_gateway.Store.Database.{
  write_items, ◌>>=◌, Database, field_items, health_items, clone_store, write_store_unlocked,
  read_store_unlocked, snapshot, update_store,
}
use nvidia_api_gateway.Store.Writes.{Apart, Held, write_items-Held}
use nvidia_api_gateway.Store.Restart.{
  IsPrinted, written, Restorable, reread, read-Held, Held-later, Apart-right, apart_sound,
}

module _ (c : Codecs) where
  -- The files of a store are ten different ones, and none is the temporary file of another.
  items-Apart :
      (s : Store) (state catalog : Text)
      → Apart (field_items c s ++ health_items c (state, catalog))
  unfolding text_eq
  items-Apart s state catalog =
      apart_sound (field_items c s ++ health_items c (state, catalog)) refl

  fields-Apart : (s : Store) → Apart (field_items c s)
  unfolding text_eq
  fields-Apart s = apart_sound (field_items c s) refl

  module _ (made : Bool) (faults : ℕ → Faults) (db : Database) (store : Store) where
    abbrev pub s : Store
    s = normalize_store c.decimal store

    abbrev pub first : Files × Bool
    first = write_items faults 0 db.files (field_items c s)

    abbrev pub second : Text × Text → Files × Bool
    second parts = write_items faults 8 first.0 (health_items c parts)

    -- How writeStoreUnlocked ends.
    pub data Outcome (result : Database × Bool) : Type 0 where
      failed : result.1 ≡ false → result.0.cache ≡ db.cache → Outcome result
      wrote :
          (parts : Text × Text)
          → split_health_state c.raw_map s.health_state ≡ some parts
          → first.1 ≡ true
          → (second parts).1 ≡ true
          → result ≡ (record { cache = some (clone_store c s); files = (second parts).0 }, true)
          → Outcome result

    write_store_unlocked-Outcome : Outcome (write_store_unlocked c made faults db store)
    unfolding write_store_unlocked
    write_store_unlocked-Outcome = elim (Bool-cases made) [
      | inr no_dir ↦ simp no_dir (failed refl refl)
      | inl dir ↦ elim (Bool-cases first.1) [
        | inr cut ↦ simp (dir, cut) (failed refl refl)
        | inl whole ↦ elim (Option-cases (split_health_state c.raw_map s.health_state)) [
          | inl unsplit ↦ simp (dir, whole, unsplit) (failed refl refl)
          | inr (parts, split) ↦ elim (Bool-cases (second parts).1) [
            | inr cut ↦ simp (dir, whole, split, cut) (failed refl refl)
            | inl done ↦ simp (dir, whole, split, done) (wrote parts split whole done refl)
          ]
        ]
      ]
    ]

    second-Held :
        (state catalog : Text)
        → first.1 ≡ true
        → (second (state, catalog)).1 ≡ true
        → All (Held (second (state, catalog)).0) (field_items c s)
          × All (Held (second (state, catalog)).0) (health_items c (state, catalog))
    second-Held state catalog whole done =
        let apart = items-Apart s state catalog in
        let raws = Apart-right (field_items c s) (health_items c (state, catalog)) apart in
        (
          Held-later faults 8 first.0 (field_items c s) (health_items c (state, catalog)) apart
              (write_items-Held faults 0 db.files (field_items c s) (fields-Apart s) whole),
          write_items-Held faults 8 first.0 (health_items c (state, catalog)) raws done,
        )

  -- The store that UpdateStore keeps of what the mutator made.
  abbrev pub kept : Store → Store
  kept store = normalize_store c.decimal (normalize_store c.decimal store)

  -- What UpdateStore may do to the process and its files.
  pub data Updated (readable : ℕ → Bool) (mutator : Store → Option Store) (db : Database)
      (result : Database × Bool) : Type 0 where
    refused :
        snapshot c readable db >>= mutator ≡ none
        → result ≡ (db, false)
        → Updated readable mutator db result
    failed :
        (store : Store)
        → snapshot c readable db >>= mutator ≡ some store
        → result.1 ≡ false
        → result.0.cache ≡ db.cache
        → Updated readable mutator db result
    done :
        (store : Store)
        → snapshot c readable db >>= mutator ≡ some store
        → result.1 ≡ true
        → result.0.cache ≡ some (clone_store c (kept store))
        → (state : Text) → (catalog : Text)
        → split_health_state c.raw_map (kept store).health_state ≡ some (state, catalog)
        → All (Held result.0.files) (field_items c (kept store))
        → All (Held result.0.files) (health_items c (state, catalog))
        → Updated readable mutator db result

  -- UpdateStore, whatever the mutator does and whatever fails. If the store cannot be read or the
  -- mutator returns an error, nothing has changed. If a write fails, the cached store has not changed.
  -- If nil is returned, the cached store is the copy of what the mutator made, normalized twice, and
  -- every data file holds the text of its part of that store, synced.
  pub update_store-Updated :
      (readable : ℕ → Bool) (made : Bool) (faults : ℕ → Faults) (mutator : Store → Option Store)
      (db : Database)
      → Updated readable mutator db (update_store c readable made faults mutator db)
  unfolding update_store
  update_store-Updated readable made faults mutator db =
      elim (Option-cases (snapshot c readable db >>= mutator)) [
        | inl none_made ↦ refused none_made (rw (none_made, update_store))
        | inr (store, changed) ↦
            let once = normalize_store c.decimal store in
            let same : update_store c readable made faults mutator db
                ≡ write_store_unlocked c made faults db once =
              rw (changed, update_store) in
            elim (write_store_unlocked-Outcome made faults db once) [
              | failed no_nil cached ↦
                  failed store changed (ap (λ r. r.1) same ∙ no_nil)
                    (ap (λ r. r.0.cache) same ∙ cached)
              | wrote (state, catalog) split whole finished result ↦
                  let files = sym (ap (λ r. r.0.files) (same ∙ result)) in
                  let found = second-Held made faults db once state catalog whole finished in
                  done store changed (ap (λ r. r.1) (same ∙ result))
                    (ap (λ r. r.0.cache) (same ∙ result)) state catalog split
                    (subst (λ fs. All (Held fs) (field_items c (kept store))) files found.0)
                    (subst (λ fs. All (Held fs) (health_items c (state, catalog))) files found.1)
            ]
      ]

  -- If UpdateStore returns nil, a process that starts then reads the fields that the mutator made,
  -- normalized, back from the files, and the health state that its two files are merged into; provided
  -- that decoding undoes the encoding of each field, and no file is taken for a lost one.
  pub update_store-reread :
      (readable : ℕ → Bool) (made : Bool) (faults : ℕ → Faults) (mutator : Store → Option Store)
      (db : Database) (store : Store) (state catalog : Text)
      → snapshot c readable db >>= mutator ≡ some store
      → split_health_state c.raw_map (kept store).health_state ≡ some (state, catalog)
      → Restorable c (kept store)
      → IsPrinted (written state (codes "{}\n"))
      → IsPrinted (written catalog (codes "[]\n"))
      → (update_store c readable made faults mutator db).1 ≡ true
      → read_store_unlocked c (λ _. true) (update_store c readable made faults mutator db).0.files
        ≡ reread c (kept store) state catalog
  update_store-reread readable made faults mutator db store state catalog changed split r ps pc
        nil =
      elim (update_store-Updated readable made faults mutator db) [
        | refused nothing same ↦ absurd (cc (same, nil))
        | failed other changed' no_nil cached ↦ absurd (cc (no_nil, nil))
        | done other changed' nil' cached state' catalog' split' held raws ↦
            let one : other ≡ store = cc (changed, changed') in
            let two : (state', catalog') ≡ (state, catalog) = cc (split, split', ap kept one) in
            read-Held c (kept store) state catalog _ r ps pc
              (subst
                (λ s.
                  All (Held (update_store c readable made faults mutator db).0.files)
                    (field_items c (kept s)))
                one held)
              (subst
                (λ p.
                  All (Held (update_store c readable made faults mutator db).0.files)
                    (health_items c p))
                two raws)
      ]
