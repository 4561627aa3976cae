-- ===== src/Disk/Tests.antt =====
-- Writes that fail and writes that succeed, and the theorems at concrete files.
use nvidia_api_gateway.Prelude.{◌≡◌, refl, inl, inr, true, false, Option, none, some, [], ◌∷◌, ◌++◌}
use nvidia_api_gateway.Prelude.Text.{Text, codes, text_eq, is_empty, is_space, trim_space}
use nvidia_api_gateway.Prelude.Maps.{lookup, insert, delete}
use nvidia_api_gateway.Disk.{
  Files, Faults, Written, tmp_path, on_medium, clean_up, put_in_place, write_data_file,
  write_json_file, read_file, read_json_file, is_all_nul,
}
use nvidia_api_gateway.Disk.Recovery.{
  crashed, Recovered, LeftByCrash, moments_of, crashed-LeftByCrash, write_data_file-crash,
  read_json_file-write,
}

abbrev no_faults : Faults
no_faults = record {
  mkdir = true;
  open_tmp = true;
  write = true;
  partial = [];
  sync = true;
  close = true;
  rename = true;
  remove = true;
  rename_again = true;
  cleanup = true;
}

abbrev files : Files
files = (codes "a", on_medium (codes "old")) ∷ (codes "b", on_medium (codes "b")) ∷ []

abbrev garbage : Text → Text
garbage path = codes "?"

-- A disk on which no rename succeeds: the old file is removed before the second attempt, and lost.
lost_by_rename :
    lookup
      (codes "a")
      (write_data_file
        (record no_faults { rename = false; rename_again = false })
        files
        (codes "a")
        (codes "new")).after
    ≡ none
unfolding write_data_file put_in_place lookup insert delete text_eq
lost_by_rename = refl

-- A full disk leaves the old file, and no temporary one.
full_disk :
    (write_data_file
      (record no_faults { write = false; partial = codes "n" })
      files
      (codes "a")
      (codes "new")).after
    ≡ files
unfolding write_data_file clean_up lookup insert delete text_eq
full_disk = refl

abbrev written : Written
written = write_data_file no_faults files (codes "a") (codes "new")

write_data_file-crash_example :
    Recovered garbage no_faults files (codes "a") (codes "new") (crashed garbage written.after)
    × (written.ok ≡ true
        → (lookup (codes "a") written.after ≡ some (on_medium (codes "new")))
          × (lookup (tmp_path (codes "a")) written.after ≡ none))
    × LeftByCrash garbage (moments_of files written) (crashed garbage files)
write_data_file-crash_example =
    write_data_file-crash garbage no_faults files (codes "a") (codes "new")
      (crashed garbage written.after)
      (crashed-LeftByCrash garbage written.after (moments_of files written) (inr (inl refl)))

-- Texts that stand for themselves.
abbrev decode_text : Text → Text → Option Text
decode_text out text = some text

nul_lem : is_all_nul (0 ∷ 0 ∷ []) ≡ true
unfolding is_all_nul
nul_lem = refl

-- A decoder that drops the line break.
abbrev decode_line : Text → Text → Option Text
decode_line out [] = none
decode_line out (c ∷ line) = some (c ∷ [])

not_nul_lem : is_all_nul (codes "x" ++ 10 ∷ []) ≡ false
unfolding is_all_nul
not_nul_lem = refl

not_blank_lem : is_empty (trim_space (codes "x" ++ 10 ∷ [])) ≡ false
unfolding trim_space is_space
not_blank_lem = refl

written_lem : (write_json_file some no_faults files (codes "a") (codes "x")).ok ≡ true
unfolding write_json_file write_data_file put_in_place
written_lem = refl

read_json_file-write_example :
    read_json_file decode_line [] (
      read_file true
        (write_json_file some no_faults files (codes "a") (codes "x")).after
        (codes "a"))
    ≡ some (codes "x")
read_json_file-write_example =
    read_json_file-write some decode_line [] (codes "x") (codes "x") no_faults files (codes "a")
      refl refl not_nul_lem not_blank_lem written_lem
