-- ===== src/Store/Writes.antt =====
-- A sequence of writes of data files: what every file holds when all have succeeded.
use mathlib.Core.Path.{subst}
use nvidia_api_gateway.Prelude.{
  ℕ, suc, ◌≡◌, refl, sym, ap, ◌∙◌, inl, inr, Bool, true, false, Option, none, some, List, [], ◌∷◌,
  ◌++◌, if◌then◌else◌, Bool-cases, All,
}
use nvidia_api_gateway.Prelude.Text.{Text, text_eq, is_empty, trim_space}
use nvidia_api_gateway.Prelude.Maps.{lookup}
use nvidia_api_gateway.Disk.{
  Files, Faults, Written, tmp_path, on_medium, write_data_file, write_json_file,
  write_raw_json_file,
}
use nvidia_api_gateway.Disk.Crash.{write_data_file-Careful}
use nvidia_api_gateway.Store.Database.{Item, json, raw, write_item, write_items}

abbrev pub path_of : Item → Text
path_of (json path text) = path
path_of (raw path text fallback) = path

-- What a write leaves in its file, none if there is nothing to write.
abbrev pub content_of : Item → Option Text
content_of (json path none) = none
content_of (json path (some text)) = some (text ++ 10 ∷ [])
content_of (raw path text fallback) = some (if is_empty (trim_space text) then fallback else text)

-- What a write does, by its content.
abbrev write_content : Faults → Files → Text → Option Text → Written
write_content f fs path none = record { during = []; after = fs; ok = false }
write_content f fs path (some content) = write_data_file f fs path content

write_item_lem :
    (f : Faults) (fs : Files) (item : Item)
    → write_item f fs item ≡ write_content f fs (path_of item) (content_of item)
unfolding write_item write_json_file write_raw_json_file
write_item_lem f fs (json path none) = refl
write_item_lem f fs (json path (some text)) = refl
write_item_lem f fs (raw path text fallback) = refl

-- A path that a write does not touch.
abbrev pub Untouched : Text → Item → Type 0
Untouched q item =
    (text_eq (path_of item) q ≡ false) × (text_eq (tmp_path (path_of item)) q ≡ false)

-- No write touches the file of an earlier one.
abbrev pub Apart : List Item → Type 0
Apart [] = Unit
Apart (item ∷ items) = All (Untouched (path_of item)) items × Apart items

-- The file of a write holds its content, synced.
abbrev pub Held : Files → Item → Type 0
Held fs item =
    (c : Text) × (content_of item ≡ some c) × (lookup (path_of item) fs ≡ some (on_medium c))

write_content-others :
    (f : Faults) (fs : Files) (path : Text) (content : Option Text) (q : Text)
    → text_eq path q ≡ false
    → text_eq (tmp_path path) q ≡ false
    → lookup q (write_content f fs path content).after ≡ lookup q fs
write_content-others f fs path none q e e' = refl
write_content-others f fs path (some content) q e e' =
    (write_data_file-Careful f fs path content).after.others q e e'

write_content-held :
    (f : Faults) (fs : Files) (path : Text) (content : Option Text)
    → (write_content f fs path content).ok ≡ true
    → (c : Text) × (content ≡ some c)
      × (lookup path (write_content f fs path content).after ≡ some (on_medium c))
write_content-held f fs path none e = cc
write_content-held f fs path (some content) e =
    (content, refl, ((write_data_file-Careful f fs path content).done e).0)

write_item-others :
    (f : Faults) (fs : Files) (item : Item) (q : Text)
    → Untouched q item
    → lookup q (write_item f fs item).after ≡ lookup q fs
write_item-others f fs item q u =
    rw (write_item_lem f fs item)
      (write_content-others f fs (path_of item) (content_of item) q u.0 u.1)

write_item-Held :
    (f : Faults) (fs : Files) (item : Item)
    → (write_item f fs item).ok ≡ true
    → Held (write_item f fs item).after item
write_item-Held f fs item e =
    rw (write_item_lem f fs item) (
      write_content-held f fs (path_of item) (content_of item) (rw (write_item_lem f fs item) at e))

module _ (faults : ℕ → Faults) where
  pub write_items-others :
      (n : ℕ) (fs : Files) (items : List Item) (q : Text)
      → All (Untouched q) items
      → lookup q (write_items faults n fs items).0 ≡ lookup q fs
  unfolding write_items
  write_items-others n fs [] q u = refl
  write_items-others n fs (item ∷ items) q u =
      let w = write_item (faults n) fs item in
      let first = write_item-others (faults n) fs item q u.0 in
      elim (Bool-cases w.ok) [
        | inl done ↦ simp done (write_items-others (suc n) w.after items q u.1 ∙ first)
        | inr failed ↦ simp failed first
      ]

  write_items-next :
      (n : ℕ) (fs : Files) (item : Item) (items : List Item)
      → (write_item (faults n) fs item).ok ≡ true
      → write_items faults n fs (item ∷ items)
        ≡ write_items faults (suc n) (write_item (faults n) fs item).after items
  unfolding write_items
  write_items-next n fs item items e = simp e

  write_items-stop :
      (n : ℕ) (fs : Files) (item : Item) (items : List Item)
      → (write_item (faults n) fs item).ok ≡ false
      → write_items faults n fs (item ∷ items) ≡ ((write_item (faults n) fs item).after, false)
  unfolding write_items
  write_items-stop n fs item items e = simp e

  pub write_items-Held :
      (n : ℕ) (fs : Files) (items : List Item)
      → Apart items
      → (write_items faults n fs items).1 ≡ true
      → All (Held (write_items faults n fs items).0) items
  write_items-Held n fs [] a e = tt
  write_items-Held n fs (item ∷ items) a e =
      let w = write_item (faults n) fs item in
      elim (Bool-cases w.ok) [
        | inr failed ↦ cc (write_items-stop n fs item items failed)
        | inl done ↦
            let step = write_items-next n fs item items done in
            let (c, content, held) = write_item-Held (faults n) fs item done in
            subst (λ (r : Files × Bool). All (Held r.0) (item ∷ items)) (sym step)
              (
                (c, content, write_items-others (suc n) w.after items (path_of item) a.0 ∙ held),
                write_items-Held (suc n) w.after items a.1 (ap (λ r. r.1) (sym step) ∙ e),
              )
      ]
