-- ===== src/Store/Restart.antt =====
-- What readStoreUnlocked reads from files that hold what has been written for a store.
use nvidia_api_gateway.Prelude.{
  ℕ, ◌≡◌, refl, ap, ◌∙◌, Bool, true, false, not, ◌&&◌, Option, none, some, List, [], ◌∷◌, ◌++◌,
  arith, if◌then◌else◌, All,
}
use nvidia_api_gateway.Prelude.Text.{Text, codes, text_eq, is_empty, trim_space}
use nvidia_api_gateway.Prelude.Maps.{lookup}
use nvidia_api_gateway.Disk.{
  Files, Faults, tmp_path, on_medium, bytes, read_file, read_json_file, read_raw_json_file,
  is_all_nul,
}
use nvidia_api_gateway.Disk.Recovery.{read_file-held, read_json_file-text}
use nvidia_api_gateway.Store.{
  Store, default_store, normalize_store, Codec, Codecs, merge_health_state,
}
use nvidia_api_gateway.Store.FilePaths
use nvidia_api_gateway.Store.Database.{
  Item, json, raw, write_items, ◌>>=◌, list_file, field_items, health_items, read_store_unlocked,
}
use nvidia_api_gateway.Store.Writes.{path_of, Untouched, Apart, Held, write_items-others}

-- A text that is not taken for a lost file.
abbrev pub IsPrinted : Text → Type 0
IsPrinted text = (is_all_nul text ≡ false) × (is_empty (trim_space text) ≡ false)

-- The decoder, onto the default, undoes the encoder at this value.
abbrev pub Restores : {A : Type 0} → Codec A → A → A → Type 0
Restores codec out a =
    (text : Text)
    → codec.encode a ≡ some text
    → (codec.decode out (text ++ 10 ∷ []) ≡ some a) × IsPrinted (text ++ 10 ∷ [])

json-Held :
    (fs : Files) (path : Text) (o : Option Text)
    → Held fs (json path o)
    → (text : Text) × (o ≡ some text) × (lookup path fs ≡ some (on_medium (text ++ 10 ∷ [])))
json-Held fs path none (c, e, held) = cc
json-Held fs path (some text) (c, e, held) = (text, refl, ground arith)

-- A field is read back from its file.
field-read :
    {A : Type 0} (codec : Codec A) (out a : A) (fs : Files) (path : Text)
    → Restores codec out a
    → Held fs (json path (codec.encode a))
    → read_json_file codec.decode out (read_file true fs path) ≡ some a
field-read codec out a fs path r h =
    let (text, encoded, held) = json-Held fs path (codec.encode a) h in
    let (decoded, printed) = r text encoded in
    ap (read_json_file codec.decode out) (read_file-held fs path (on_medium (text ++ 10 ∷ [])) held)
    ∙ (read_json_file-text codec.decode out (text ++ 10 ∷ []) printed.0 printed.1 ∙ decoded)

-- What is written for raw JSON.
abbrev pub written : Text → Text → Text
written text fallback = if is_empty (trim_space text) then fallback else text

raw-read :
    (fs : Files) (path text fallback : Text)
    → IsPrinted (written text fallback)
    → Held fs (raw path text fallback)
    → read_raw_json_file (read_file true fs path) ≡ some (written text fallback)
unfolding read_raw_json_file
raw-read fs path text fallback p (c, content, held) =
    let same : c ≡ written text fallback = ground arith in
    let at : read_file true fs path ≡ bytes (written text fallback) =
      read_file-held fs path (on_medium c) held ∙ ap bytes same in
    ap read_raw_json_file at ∙ (rw (p.0, p.1))

-- Apart, as a test.
abbrev pub untouched : Text → List Item → Bool
untouched q [] = true
untouched q (item ∷ items) =
    not (text_eq (path_of item) q)
    && (not (text_eq (tmp_path (path_of item)) q) && untouched q items)

abbrev pub apart : List Item → Bool
apart [] = true
apart (item ∷ items) = untouched (path_of item) items && apart items

untouched_sound :
    (q : Text) (items : List Item) → untouched q items ≡ true → All (Untouched q) items
untouched_sound q [] e = tt
untouched_sound q (item ∷ items) e = ground (arith, untouched_sound q items)

pub apart_sound : (items : List Item) → apart items ≡ true → Apart items
apart_sound [] e = tt
apart_sound (item ∷ items) e =
    ground (arith, untouched_sound (path_of item) items, apart_sound items)

All-right {ℓ κ} : {A : Type ℓ} (P : A → Type κ) (xs ys : List A) → All P (xs ++ ys) → All P ys
All-right P [] ys a = a
All-right P (x ∷ xs) ys a = All-right P xs ys a.1

pub Apart-right : (xs ys : List Item) → Apart (xs ++ ys) → Apart ys
Apart-right [] ys a = a
Apart-right (x ∷ xs) ys a = Apart-right xs ys a.1

-- What earlier writes have left stays through later ones.
pub Held-later :
    (faults : ℕ → Faults) (n : ℕ) (fs : Files) (xs ys : List Item)
    → Apart (xs ++ ys)
    → All (Held fs) xs
    → All (Held (write_items faults n fs ys).0) xs
Held-later faults n fs [] ys a h = tt
Held-later faults n fs (x ∷ xs) ys a h =
    let (c, content, held) = h.0 in
    (
      (
        c,
        content,
        write_items-others faults n fs ys (path_of x) (All-right (Untouched (path_of x)) xs ys a.0)
            ∙ held,
      ),
      Held-later faults n fs xs ys a.1 h.1,
    )

-- Every field of the store is read back from what is written for it.
pub record Restorable (c : Codecs) (s : Store) : Type 0 where
  pub api_keys : Restores c.api_keys (list_file 1 []) (list_file s.next_api_id s.api_keys)
  pub proxies : Restores c.proxies (list_file 1 []) (list_file s.next_proxy_id s.proxies)
  pub master_keys : Restores c.master_keys (list_file 1 []) (list_file s.next_mk_id s.master_keys)
  pub core_profiles :
      Restores c.core_profiles (list_file 1 []) (list_file s.next_core_profile_id s.core_profiles)
  pub system_config : Restores c.system_config default_store.system_config s.system_config
  pub external_proxy_sources :
      Restores c.external_proxy_sources default_store.external_proxy_sources
        s.external_proxy_sources
  pub proxy_import_schedule :
      Restores c.proxy_import_schedule default_store.proxy_import_schedule s.proxy_import_schedule
  pub proxy_import_logs : Restores c.proxy_import_logs [] s.proxy_import_logs

module _ (c : Codecs) (s : Store) (state catalog : Text) where
  -- The store that is read, by what the two files of raw JSON are merged into.
  abbrev pub reread : Option Store
  reread =
      merge_health_state c.raw_map (written state (codes "{}\n")) (written catalog (codes "[]\n"))
      >>= λ health. some (normalize_store c.decimal (record s { health_state = health }))

  pub read-Held :
      (fs : Files)
      → Restorable c s
      → IsPrinted (written state (codes "{}\n"))
      → IsPrinted (written catalog (codes "[]\n"))
      → All (Held fs) (field_items c s)
      → All (Held fs) (health_items c (state, catalog))
      → read_store_unlocked c (λ _. true) fs ≡ reread
  unfolding read_store_unlocked
  read-Held fs r ps pc held raws = simp (
    field-read c.api_keys (list_file 1 []) (list_file s.next_api_id s.api_keys) fs
        FilePaths.api_keys r.api_keys held.0,
    field-read c.proxies (list_file 1 []) (list_file s.next_proxy_id s.proxies) fs FilePaths.proxies
        r.proxies held.1.0,
    field-read c.master_keys (list_file 1 []) (list_file s.next_mk_id s.master_keys) fs
        FilePaths.master_keys r.master_keys held.1.1.0,
    field-read c.core_profiles (list_file 1 []) (list_file s.next_core_profile_id s.core_profiles)
        fs FilePaths.core_profiles r.core_profiles held.1.1.1.0,
    field-read c.system_config default_store.system_config s.system_config fs
        FilePaths.system_config r.system_config held.1.1.1.1.0,
    field-read c.external_proxy_sources default_store.external_proxy_sources
        s.external_proxy_sources fs FilePaths.external_proxy_sources r.external_proxy_sources
        held.1.1.1.1.1.0,
    field-read c.proxy_import_schedule default_store.proxy_import_schedule s.proxy_import_schedule
        fs FilePaths.proxy_import_schedule r.proxy_import_schedule held.1.1.1.1.1.1.0,
    field-read c.proxy_import_logs [] s.proxy_import_logs fs FilePaths.proxy_import_logs
        r.proxy_import_logs held.1.1.1.1.1.1.1.0,
    raw-read fs FilePaths.health_state state (codes "{}\n") ps raws.0,
    raw-read fs FilePaths.model_catalog catalog (codes "[]\n") pc raws.1.0,
  )
