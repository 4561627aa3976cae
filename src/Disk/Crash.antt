-- ===== src/Disk/Crash.antt =====
-- Whatever system call fails, and at every moment of a write: what stands under the paths.
use nvidia_api_gateway.Prelude.{
  ◌≡◌, refl, ap, ◌⊎◌, inl, inr, true, false, not, ◌&&◌, none, some, List, [], ◌∷◌, ◌++◌, arith,
  if◌then◌else◌, Bool-cases, All, length, length-append,
}
use nvidia_api_gateway.Prelude.Text.{Text, codes, text_eq, text_eq_iff, text_eq_refl}
use nvidia_api_gateway.Prelude.Maps.{lookup, insert, delete, lookup-insert, lookup-delete}
use nvidia_api_gateway.Disk.{
  File, Files, Faults, Written, tmp_path, on_medium, clean_up, is_there, renamed, put_in_place,
  write_data_file, unsynced,
}

tmp_path-ne : (path : Text) → text_eq (tmp_path path) path ≡ false
tmp_path-ne path =
    let longer = length-append path (codes ".tmp") in
    elim (Bool-cases (text_eq (tmp_path path) path)) [
      | inr e ↦ e
      | inl e ↦ absurd (omega (arith, longer, ap length ((text_eq_iff (tmp_path path) path).0 e)))
    ]

All-append {ℓ κ} :
    {A : Type ℓ} (P : A → Type κ) (xs ys : List A) → All P xs → All P ys → All P (xs ++ ys)
All-append P [] ys all p = p
All-append P (x ∷ xs) ys all p = (all.0, All-append P xs ys all.1 p)

-- A directory `g` in the middle of a write that began in `fs`: the path has what it had, or the
-- new content, synced, or is gone and the rename had failed; no other path has changed.
pub record Between (f : Faults) (fs : Files) (path content : Text) (g : Files) : Type 0 where
  pub target :
      (lookup path g ≡ lookup path fs)
      ⊎ ((lookup path g ≡ some (on_medium content)) ⊎ ((f.rename ≡ false) × (lookup path g ≡ none)))
  pub others :
      (q : Text)
      → text_eq path q ≡ false
      → text_eq (tmp_path path) q ≡ false
      → lookup q g ≡ lookup q fs

module _ (f : Faults) (fs : Files) (path content : Text) where
  -- Writing and removing the temporary file touches no other.
  Between-insert_tmp :
      (g : Files) (file : File)
      → Between f fs path content g
      → Between f fs path content (insert (tmp_path path) file g)
  Between-insert_tmp g file b = record {
    target =
        let same = lookup-insert (tmp_path path) path file g in
        rw (same, tmp_path-ne path) b.target;
    others = λ q e e'. ground (arith, lookup-insert (tmp_path path) q file g, b.others q e e');
  }

  Between-delete_tmp :
      (g : Files)
      → Between f fs path content g
      → Between f fs path content (delete (tmp_path path) g)
  Between-delete_tmp g b = record {
    target = rw (lookup-delete (tmp_path path) path g, tmp_path-ne path) b.target;
    others = λ q e e'. ground (arith, lookup-delete (tmp_path path) q g, b.others q e e');
  }

  Between-insert :
      (g : Files)
      → Between f fs path content g
      → Between f fs path content (insert path (on_medium content) g)
  Between-insert g b = record {
    target = inr (inl (rw (lookup-insert path path (on_medium content) g, text_eq_refl path)));
    others = λ q e e'. ground (arith, lookup-insert path q (on_medium content) g, b.others q e e');
  }

  Between-delete :
      (g : Files)
      → f.rename ≡ false
      → Between f fs path content g
      → Between f fs path content (delete path g)
  Between-delete g r b = record {
    target = inr (inr (r, rw (lookup-delete path path g, text_eq_refl path)));
    others = λ q e e'. ground (arith, lookup-delete path q g, b.others q e e');
  }

  pub Between-refl : Between f fs path content fs
  Between-refl = record { target = inl refl; others = λ q e e'. refl }

  -- What a write may do, whatever fails.
  pub record Careful (w : Written) : Type 0 where
    pub during : All (Between f fs path content) w.during
    pub after : Between f fs path content w.after
    pub done :
        w.ok ≡ true
        → (lookup path w.after ≡ some (on_medium content)) × (lookup (tmp_path path) w.after ≡ none)

  clean_up-Careful :
      (g : Files) (during : List Files)
      → All (Between f fs path content) during
      → Between f fs path content g
      → Careful (clean_up f g (tmp_path path) during)
  unfolding clean_up
  clean_up-Careful g during all b =
      let left = if f.cleanup then delete (tmp_path path) g else g in
      let kept : Between f fs path content left = elim (Bool-cases f.cleanup) [
        | inl removed ↦ simp removed (Between-delete_tmp g b)
        | inr left_there ↦ simp left_there b
      ] in
      record {
        during = All-append (Between f fs path content) during (left ∷ []) all (kept, tt);
        after = kept;
        done = λ e. cc;
      }

  put-target :
      (g : Files)
      → lookup path (renamed (tmp_path path) path (on_medium content) g) ≡ some (on_medium content)
  put-target g = rw (
    lookup-delete (tmp_path path) path (insert path (on_medium content) g),
    tmp_path-ne path,
    lookup-insert path path (on_medium content) g,
    text_eq_refl path,
  )

  put-tmp :
      (g : Files)
      → lookup (tmp_path path) (renamed (tmp_path path) path (on_medium content) g) ≡ none
  put-tmp g = rw (
    lookup-delete (tmp_path path) (tmp_path path) (insert path (on_medium content) g),
    text_eq_refl (tmp_path path),
  )

  renamed-Between :
      (g : Files)
      → Between f fs path content g
      → Between f fs path content (renamed (tmp_path path) path (on_medium content) g)
  renamed-Between g b = Between-delete_tmp _ (Between-insert g b)

  put_in_place-Careful :
      (g : Files) (during : List Files)
      → All (Between f fs path content) during
      → Between f fs path content g
      → Careful (put_in_place f g (tmp_path path) path (on_medium content) during)
  unfolding put_in_place
  put_in_place-Careful g during all b = elim (Bool-cases f.rename) [
    | inl moved ↦ simp moved (record {
      during = All-append (Between f fs path content) during _ all (renamed-Between g b, tt);
      after = renamed-Between g b;
      done = λ _. (put-target g, put-tmp g);
    })
    | inr stuck ↦ elim (Bool-cases (is_there (lookup path g) && not f.remove)) [
      | inl kept ↦ simp (stuck, kept) (record { during = all; after = b; done = λ e. cc })
      | inr removed ↦ elim (Bool-cases f.rename_again) [
        | inl moved ↦
            simp (stuck, removed, moved)
              (record {
                during =
                    All-append (Between f fs path content) during _ all (
                      Between-delete g stuck b,
                      (renamed-Between _ (Between-delete g stuck b), tt),
                    );
                after = renamed-Between _ (Between-delete g stuck b);
                done = λ _. (put-target (delete path g), put-tmp (delete path g));
              })
        | inr lost ↦
            simp (stuck, removed, lost)
              (record {
                during =
                    All-append (Between f fs path content) during _ all
                      (Between-delete g stuck b, tt);
                after = Between-delete g stuck b;
                done = λ e. cc;
              })
      ]
    ]
  ]

  pub write_data_file-Careful : Careful (write_data_file f fs path content)
  unfolding write_data_file
  write_data_file-Careful =
      let tmp = tmp_path path in
      let opened = insert tmp (unsynced []) fs in
      let cut = insert tmp (unsynced f.partial) opened in
      let full = insert tmp (unsynced content) opened in
      let safe = insert tmp (on_medium content) full in
      let b1 : Between f fs path content opened = Between-insert_tmp fs _ Between-refl in
      let b2 : Between f fs path content full = Between-insert_tmp opened _ b1 in
      let b3 : Between f fs path content safe = Between-insert_tmp full _ b2 in
      let b2' : Between f fs path content cut = Between-insert_tmp opened _ b1 in
      elim (Bool-cases (f.mkdir && f.open_tmp)) [
        | inr closed ↦ simp closed (record { during = tt; after = Between-refl; done = λ e. cc })
        | inl begun ↦ elim (Bool-cases f.write) [
          | inr short ↦
              simp (begun, short) (clean_up-Careful cut (opened ∷ cut ∷ []) (b1, (b2', tt)) b2')
          | inl whole ↦ elim (Bool-cases f.sync) [
            | inr lazy ↦
                simp (begun, whole, lazy)
                  (clean_up-Careful full (opened ∷ full ∷ []) (b1, (b2, tt)) b2)
            | inl flushed ↦ elim (Bool-cases f.close) [
              | inr stuck ↦
                  simp (begun, whole, flushed, stuck)
                    (clean_up-Careful safe (opened ∷ full ∷ safe ∷ []) (b1, (b2, (b3, tt))) b3)
              | inl shut ↦
                  simp (begun, whole, flushed, shut)
                    (put_in_place-Careful safe (opened ∷ full ∷ safe ∷ []) (b1, (b2, (b3, tt))) b3)
            ]
          ]
        ]
      ]
