-- ===== src/Disk.antt =====
-- The data files of the store (pkg/db/db.go: isAllNUL, readJSONFile, readRawJSONFile, writeJSONFile,
-- writeRawJSONFile, writeDataFile). A file has its content and whether fsync has brought it to the
-- medium: a crash may leave anything in a file that is not synced. Nothing syncs the directory, so a
-- crash may leave each of its entries as it was at any moment since the write began. Each system call
-- that can fail does so as a value of `Faults` says.
pub mod Crash
pub mod Recovery
mod Tests
use nvidia_api_gateway.Prelude.{
  ℕ, Bool, true, false, not, ◌&&◌, ◌||◌, Option, none, some, List, [], ◌∷◌, ◌++◌, ◌==◌,
  if◌then◌else◌,
}
use nvidia_api_gateway.Prelude.Text.{Text, codes, is_empty, trim_space}
use nvidia_api_gateway.Prelude.Maps.{lookup, insert, delete}

pub record File : Type 0 where
  pub content : Text
  pub synced : Bool

abbrev pub Files : Type 0
Files = List (Text × File)

-- Which system calls succeed. `partial` is what a failing write has written.
pub record Faults : Type 0 where
  pub mkdir : Bool
  pub open_tmp : Bool
  pub write : Bool
  pub partial : Text
  pub sync : Bool
  pub close : Bool
  pub rename : Bool
  pub remove : Bool
  pub rename_again : Bool
  pub cleanup : Bool

-- The directory after each system call that changes it, the last one, and whether nil is returned.
pub record Written : Type 0 where
  pub during : List Files
  pub after : Files
  pub ok : Bool

abbrev pub tmp_path : Text → Text
tmp_path path = path ++ codes ".tmp"

abbrev pub unsynced : Text → File
unsynced s = record { content = s; synced = false }

abbrev pub on_medium : Text → File
on_medium s = record { content = s; synced = true }

-- The closure `cleanup`, whose os.Remove may fail unseen.
unfoldable pub clean_up : Faults → Files → Text → List Files → Written
clean_up f fs tmp during =
    let fs' = if f.cleanup then delete tmp fs else fs in
    record { during = during ++ fs' ∷ []; after = fs'; ok = false }

abbrev pub is_there : Option File → Bool
is_there none = false
is_there (some _) = true

-- os.Rename(tmp, path)
abbrev pub renamed : Text → Text → File → Files → Files
renamed tmp path file fs = delete tmp (insert path file fs)

-- The lines of writeDataFile from the rename on, with the temporary file complete.
unfoldable pub put_in_place : Faults → Files → Text → Text → File → List Files → Written
put_in_place f fs tmp path file during =
    if f.rename
    then record {
      during = during ++ renamed tmp path file fs ∷ [];
      after = renamed tmp path file fs;
      ok = true;
    }
    else if is_there (lookup path fs) && not f.remove
    then record { during = during; after = fs; ok = false }
    else if f.rename_again
    then record {
      during = during ++ delete path fs ∷ renamed tmp path file (delete path fs) ∷ [];
      after = renamed tmp path file (delete path fs);
      ok = true;
    }
    else record { during = during ++ delete path fs ∷ []; after = delete path fs; ok = false }

unfoldable pub write_data_file : Faults → Files → Text → Text → Written
unfolding clean_up put_in_place
write_data_file f fs path content =
    let tmp = tmp_path path in
    let opened = insert tmp (unsynced []) fs in
    let cut = insert tmp (unsynced f.partial) opened in
    let full = insert tmp (unsynced content) opened in
    let safe = insert tmp (on_medium content) full in
    if not (f.mkdir && f.open_tmp)
    then record { during = []; after = fs; ok = false }
    else if not f.write
    then clean_up f cut tmp (opened ∷ cut ∷ [])
    else if not f.sync
    then clean_up f full tmp (opened ∷ full ∷ [])
    else if not f.close
    then clean_up f safe tmp (opened ∷ full ∷ safe ∷ [])
    else put_in_place f safe tmp path (on_medium content) (opened ∷ full ∷ safe ∷ [])

-- `encode` is json.MarshalIndent, none for its error.
unfoldable pub write_json_file {ℓ} :
    {A : Type ℓ} → (A → Option Text) → Faults → Files → Text → A → Written
unfolding write_data_file
write_json_file encode f fs path value = elim (encode value) [
  | none ↦ record { during = []; after = fs; ok = false }
  | some text ↦ write_data_file f fs path (text ++ 10 ∷ [])
]

unfoldable pub write_raw_json_file : Faults → Files → Text → Text → Text → Written
unfolding write_data_file
write_raw_json_file f fs path raw fallback =
    write_data_file f fs path (if is_empty (trim_space raw) then fallback else raw)

abbrev all_nul : Text → Bool
all_nul [] = true
all_nul (b ∷ bs) = b == 0 && all_nul bs

unfoldable pub is_all_nul : Text → Bool
is_all_nul bytes = if is_empty bytes then false else all_nul bytes

-- What os.ReadFile gives for a file: an error that is not ErrNotExist is `failed`.
pub data ReadFile : Type 0 where
  absent : ReadFile
  failed : ReadFile
  bytes : Text → ReadFile

unfoldable pub read_file : Bool → Files → Text → ReadFile
read_file readable fs path = elim (lookup path fs) [
  | none ↦ absent
  | some file ↦ if readable then bytes file.content else failed
]

-- `decode` is json.Unmarshal onto a value that is there already, none for its error.
unfoldable pub read_json_file {ℓ} : {A : Type ℓ} → (A → Text → Option A) → A → ReadFile → Option A
unfolding is_all_nul
read_json_file decode out absent = some out
read_json_file decode out failed = none
read_json_file decode out (bytes text) =
    if is_all_nul text
    then some out
    else if is_empty (trim_space text)
    then some out
    else decode out text

-- nil is the empty text.
unfoldable pub read_raw_json_file : ReadFile → Option Text
unfolding is_all_nul
read_raw_json_file absent = some []
read_raw_json_file failed = none
read_raw_json_file (bytes text) =
    if is_all_nul text then some [] else if is_empty (trim_space text) then some [] else some text
