-- ===== src/Disk/Recovery.antt =====
-- A crash at any moment of a write, and a file that is read back.
use nvidia_api_gateway.Prelude.{
  ◌≡◌, refl, sym, ap, ◌∙◌, ◌⊎◌, inl, inr, true, false, Option, none, some, List, [], ◌∷◌, ◌++◌,
  arith, if◌then◌else◌, All,
}
use nvidia_api_gateway.Prelude.Text.{Text, text_eq, text_eq_iff, is_empty, trim_space}
use nvidia_api_gateway.Prelude.Maps.{lookup}
use nvidia_api_gateway.Disk.{
  File, Files, Faults, Written, tmp_path, on_medium, write_data_file, write_json_file, bytes,
  read_file, read_json_file, is_all_nul,
}
use nvidia_api_gateway.Disk.Crash.{Between, Between-refl, write_data_file-Careful}

-- A directory whose files a crash leaves as they are if they are synced: what another file holds
-- then is not known.
abbrev pub crashed : (Text → Text) → Files → Files
crashed garbage [] = []
crashed garbage ((path, file) ∷ fs) =
    (path, if file.synced then file else record { content = garbage path; synced = true })
    ∷ crashed garbage fs

-- A path as a crash leaves it.
abbrev pub seen_after : (Text → Text) → Text → Option File → Option File
seen_after garbage path none = none
seen_after garbage path (some file) =
    some (if file.synced then file else record { content = garbage path; synced = true })

lookup-crashed :
    (garbage : Text → Text) (path : Text) (fs : Files)
    → lookup path (crashed garbage fs) ≡ seen_after garbage path (lookup path fs)
unfolding lookup
lookup-crashed garbage path [] = refl
lookup-crashed garbage path ((q, file) ∷ fs) =
    ground (arith, lookup-crashed garbage path fs, text_eq_iff q path)

-- What a path has held at one of these moments.
abbrev pub HasHeld : Text → Option File → List Files → Type 0
HasHeld path o [] = ⊥
HasHeld path o (fs ∷ moments) = (lookup path fs ≡ o) ⊎ HasHeld path o moments

-- What a crash may leave of a directory that nothing has synced since the first of
-- these moments: every entry, whatever became of the others, is one of those it has had.
abbrev pub LeftByCrash : (Text → Text) → List Files → Files → Type 0
LeftByCrash garbage moments left =
    (path : Text)
    → (o : Option File) × HasHeld path o moments × (lookup path left ≡ seen_after garbage path o)

-- The directory before a write, after it, and in between.
abbrev pub moments_of : Files → Written → List Files
moments_of fs w = fs ∷ w.after ∷ w.during

abbrev pub IsMoment : Files → List Files → Type 0
IsMoment g [] = ⊥
IsMoment g (fs ∷ moments) = (fs ≡ g) ⊎ IsMoment g moments

held_at :
    (path : Text) (g : Files) (moments : List Files)
    → IsMoment g moments
    → HasHeld path (lookup path g) moments
held_at path g [] a = elim a [ ]
held_at path g (fs ∷ moments) (inl same) = inl (ap (lookup path) same)
held_at path g (fs ∷ moments) (inr a) = inr (held_at path g moments a)

-- A crash may leave the directory as it was at any of the moments.
pub crashed-LeftByCrash :
    (garbage : Text → Text) (g : Files) (moments : List Files)
    → IsMoment g moments
    → LeftByCrash garbage moments (crashed garbage g)
crashed-LeftByCrash garbage g moments a path =
    (lookup path g, held_at path g moments a, lookup-crashed garbage path g)

-- The directory that a crash leaves of a write that began in `fs`.
pub record Recovered (garbage : Text → Text) (f : Faults) (fs : Files) (path content : Text)
    (left : Files) : Type 0 where
  pub target :
      (lookup path left ≡ seen_after garbage path (lookup path fs))
      ⊎ ((lookup path left ≡ some (on_medium content))
          ⊎ ((f.rename ≡ false) × (lookup path left ≡ none)))
  pub others :
      (q : Text)
      → text_eq path q ≡ false
      → text_eq (tmp_path path) q ≡ false
      → lookup q left ≡ seen_after garbage q (lookup q fs)

module _ (garbage : Text → Text) (f : Faults) (fs : Files) (path content : Text) where
  held_target :
      (o : Option File) (moments : List Files)
      → All (Between f fs path content) moments
      → HasHeld path o moments
      → (o ≡ lookup path fs) ⊎ ((o ≡ some (on_medium content)) ⊎ ((f.rename ≡ false) × (o ≡ none)))
  held_target o [] all held = elim held [ ]
  held_target o (g ∷ moments) all (inl now) = elim all.0.target [
    | inl old ↦ inl (sym now ∙ old)
    | inr (inl new) ↦ inr (inl (sym now ∙ new))
    | inr (inr (stuck, gone)) ↦ inr (inr (stuck, sym now ∙ gone))
  ]
  held_target o (g ∷ moments) all (inr later) = held_target o moments all.1 later

  held_other :
      (q : Text) (o : Option File) (moments : List Files)
      → text_eq path q ≡ false
      → text_eq (tmp_path path) q ≡ false
      → All (Between f fs path content) moments
      → HasHeld q o moments
      → o ≡ lookup q fs
  held_other q o [] e e' all held = elim held [ ]
  held_other q o (g ∷ moments) e e' all (inl now) = sym now ∙ all.0.others q e e'
  held_other q o (g ∷ moments) e e' all (inr later) = held_other q o moments e e' all.1 later

  LeftByCrash-Recovered :
      (moments : List Files) (left : Files)
      → All (Between f fs path content) moments
      → LeftByCrash garbage moments left
      → Recovered garbage f fs path content left
  LeftByCrash-Recovered moments left all crash = record {
    target =
        let (o, held, seen) = crash path in
        elim (held_target o moments all held) [
          | inl old ↦ inl (seen ∙ ap (seen_after garbage path) old)
          | inr (inl new) ↦ inr (inl (seen ∙ ap (seen_after garbage path) new))
          | inr (inr (stuck, gone)) ↦ inr (inr (stuck, seen ∙ ap (seen_after garbage path) gone))
        ];
    others = λ q e e'.
        let (o, held, seen) = crash q in
        seen ∙ ap (seen_after garbage q) (held_other q o moments e e' all held);
  }

  -- Whatever system calls fail, and whenever the machine stops during writeDataFile or after it,
  -- with every entry of the directory as it was at some moment since the start: after the restart
  -- the file holds what it held, or the whole new content, or is gone and the first rename had
  -- failed; no file but this one and the temporary one differs. When nil was returned, the file has
  -- the new content, and there is no temporary one, as long as the machine runs; but a crash may
  -- still bring back the directory from before the write.
  pub write_data_file-crash :
      (left : Files)
      → let w = write_data_file f fs path content in
        LeftByCrash garbage (moments_of fs w) left
        → Recovered garbage f fs path content left
          × (w.ok ≡ true
              → (lookup path w.after ≡ some (on_medium content))
                × (lookup (tmp_path path) w.after ≡ none))
          × LeftByCrash garbage (moments_of fs w) (crashed garbage fs)
  write_data_file-crash left crash =
      let w = write_data_file f fs path content in
      let careful = write_data_file-Careful f fs path content in
      (
        LeftByCrash-Recovered (moments_of fs w) left
            (Between-refl f fs path content, (careful.after, careful.during)) crash,
        careful.done,
        crashed-LeftByCrash garbage fs (moments_of fs w) (inl refl),
      )

-- A file of NULs, as a crash may leave it, a blank file and a missing one all read as the defaults.
pub read_json_file-lost {ℓ} :
    {A : Type ℓ} (decode : A → Text → Option A) (out : A) (text : Text)
    → (is_all_nul text ≡ true) ⊎ (is_empty (trim_space text) ≡ true)
    → read_json_file decode out (bytes text) ≡ some out
unfolding read_json_file
read_json_file-lost decode out text (inl nul) = ground arith
read_json_file-lost decode out text (inr blank) = ground arith

pub read_file-held :
    (fs : Files) (path : Text) (file : File)
    → lookup path fs ≡ some file
    → read_file true fs path ≡ bytes file.content
unfolding read_file
read_file-held fs path file e = rw (e, read_file)

pub read_json_file-text {ℓ} :
    {A : Type ℓ} (decode : A → Text → Option A) (out : A) (text : Text)
    → is_all_nul text ≡ false
    → is_empty (trim_space text) ≡ false
    → read_json_file decode out (bytes text) ≡ decode out text
unfolding read_json_file
read_json_file-text decode out text nul blank = rw (nul, blank)

-- A value whose text is neither blank nor all NULs is read back as it was written, if the decoder
-- undoes the encoder.
pub read_json_file-write {ℓ} :
    {A : Type ℓ} (encode : A → Option Text) (decode : A → Text → Option A) (out a : A) (text : Text)
    (f : Faults) (fs : Files) (path : Text)
    → encode a ≡ some text
    → decode out (text ++ 10 ∷ []) ≡ some a
    → is_all_nul (text ++ 10 ∷ []) ≡ false
    → is_empty (trim_space (text ++ 10 ∷ [])) ≡ false
    → (write_json_file encode f fs path a).ok ≡ true
    → read_json_file decode out (read_file true (write_json_file encode f fs path a).after path)
      ≡ some a
unfolding write_json_file
read_json_file-write encode decode out a text f fs path e d nul blank ok =
    let line = text ++ 10 ∷ [] in
    let same : write_json_file encode f fs path a ≡ write_data_file f fs path line =
      rw (e, write_json_file) in
    let held : lookup path (write_data_file f fs path line).after ≡ some (on_medium line) =
      ((write_data_file-Careful f fs path line).done (rw same at ok)).0 in
    rw same (
      ap (read_json_file decode out) (read_file-held _ path (on_medium line) held)
      ∙ (read_json_file-text decode out line nul blank ∙ d))
