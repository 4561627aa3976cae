-- ===== src/Scheduler/Selection.antt =====
-- What the loop of AcquireKey computes: the weights after it, and which item it selects.
use nvidia_api_gateway.Prelude.{
  ℕ, suc, ◌+◌, ◌≡◌, ◌≢◌, refl, inl, inr, Bool, true, false, none, some, List, [], ◌∷◌, map, arith,
  if◌then◌else◌, get_elem?, take, All, Bool-cases, ◌∙◌, sym, ap,
}
use mathlib.Core.Path.{subst}
use nvidia_api_gateway.Prelude.Int.{ℤ, pos, ◌+ℤ◌, ◌≤ℤ◌, ◌<ℤ◌, int_laws}
use nvidia_api_gateway.Prelude.Text.{Text}
use nvidia_api_gateway.Scheduler.{LocalKey, Scan, boost, takes_over, note, scan}

-- An item as the loop leaves it.
abbrev pub boosted : (Text → Bool) → LocalKey → LocalKey
boosted avail item = if avail item.key then boost item else item

-- The weights of the items that are not skipped.
unfoldable pub total_of : (Text → Bool) → List LocalKey → ℤ
total_of avail [] = pos 0
total_of avail (item ∷ items) =
    let rest = total_of avail items in if avail item.key then item.weight +ℤ rest else rest

-- Every item that is not skipped ends with at most this weight, or with less.
abbrev pub AllAtMost : (Text → Bool) → ℤ → List LocalKey → Type 0
AllAtMost avail w = All (λ item. avail item.key ≡ true → item.current_weight +ℤ item.weight ≤ℤ w)

abbrev pub AllBelow : (Text → Bool) → ℤ → List LocalKey → Type 0
AllBelow avail w = All (λ item. avail item.key ≡ true → item.current_weight +ℤ item.weight <ℤ w)

abbrev pub AllSkipped : (Text → Bool) → List LocalKey → Type 0
AllSkipped avail = All (λ item. avail item.key ≡ false)

-- The loop from `acc` at index `i` either keeps the selection, or moves it to the `j`-th item.
pub data Outcome (avail : Text → Bool) (i : ℕ) (items : List LocalKey) (acc fin : Scan)
    : Type 0 where
  kept :
      fin.selected ≡ acc.selected
      → fin.selected_weight ≡ acc.selected_weight
      → (acc.selected ≡ none → AllSkipped avail items)
      → (acc.selected ≢ none → AllAtMost avail acc.selected_weight items)
      → Outcome avail i items acc fin
  took :
      (j : ℕ) (item : LocalKey)
      → get_elem? items j ≡ some item
      → avail item.key ≡ true
      → fin.selected ≡ some (i + j)
      → fin.selected_weight ≡ item.current_weight +ℤ item.weight
      → (acc.selected ≢ none → acc.selected_weight <ℤ fin.selected_weight)
      → AllAtMost avail fin.selected_weight items
      → AllBelow avail fin.selected_weight (take j items)
      → Outcome avail i items acc fin

+ℤ_shift : (a b c : ℤ) → a +ℤ b +ℤ c ≡ a +ℤ (b +ℤ c)
+ℤ_shift a b c = omega int_laws

note-total :
    (i : ℕ) (item : LocalKey) (acc : Scan)
    → (note i item acc).total_weight ≡ acc.total_weight +ℤ item.weight
unfolding note
note-total i item acc = ground arith

module _ (avail : Text → Bool) where
  pub scan-items :
      (i : ℕ) (items : List LocalKey) (acc : Scan)
      → (scan avail i items acc).0 ≡ map (boosted avail) items
  unfolding scan
  scan-items i [] acc = refl
  scan-items i (item ∷ items) acc =
      ground
        (arith, scan-items (suc i) items acc, scan-items (suc i) items (note i (boost item) acc))

  pub scan-total :
      (i : ℕ) (items : List LocalKey) (acc : Scan)
      → (scan avail i items acc).1.total_weight ≡ acc.total_weight +ℤ total_of avail items
  unfolding scan total_of
  scan-total i [] acc = omega int_laws
  scan-total i (item ∷ items) acc = elim (Bool-cases (avail item.key)) [
    | inl usable ↦ rw usable (
        scan-total (suc i) items (note i (boost item) acc)
        ∙ (ap (λ t. t +ℤ total_of avail items) (note-total i (boost item) acc)
            ∙ +ℤ_shift acc.total_weight item.weight (total_of avail items)))
    | inr skipped ↦ rw skipped (scan-total (suc i) items acc)
  ]

  at_most_eq :
      (items : List LocalKey) {u w : ℤ} → u ≡ w → AllAtMost avail u items → AllAtMost avail w items
  at_most_eq items e = subst (λ v. AllAtMost avail v items) e

  -- One more item in front that is skipped.
  Outcome-skip :
      (i : ℕ) (item : LocalKey) (items : List LocalKey) (acc fin : Scan)
      → avail item.key ≡ false
      → Outcome avail (suc i) items acc fin
      → Outcome avail i (item ∷ items) acc fin
  Outcome-skip i item items acc fin off (kept s w idle top) =
      kept s w (λ e. (off, idle e)) (λ e. (λ on. cc, top e))
  Outcome-skip i item items acc fin off (took j it at on s w over top first) =
      took (suc j) it at on (ground arith) w over (λ o. cc, top) (λ o. cc, first)

  -- One more item in front that is not skipped.
  Outcome-note :
      (i : ℕ) (item : LocalKey) (items : List LocalKey) (acc fin : Scan)
      → avail item.key ≡ true
      → Outcome avail (suc i) items (note i (boost item) acc) fin
      → Outcome avail i (item ∷ items) acc fin
  unfolding note
  Outcome-note i item items acc fin usable (kept s w idle top) =
      elim (Bool-cases (takes_over acc (item.current_weight +ℤ item.weight))) [
        | inl over ↦
            took 0 item refl usable (ground arith) (ground arith) (ground arith)
              (λ _. ground arith, at_most_eq items (sym w) (top (ground arith))) tt
        | inr under ↦
            kept (ground arith) (ground arith) (λ e. ground arith)
              (λ e. (
                λ _. ground arith,
                at_most_eq items {u = (note i (boost item) acc).selected_weight} (ground arith)
                    (top (ground arith)),
              ))
      ]
  Outcome-note i item items acc fin usable (took j it at on s w over top first) =
      let selects : (note i (boost item) acc).selected ≢ none = ground arith in
      took (suc j) it at on (ground arith) w (ground (arith, over selects))
        (λ _. ground (arith, over selects), top) (λ _. ground (arith, over selects), first)

  -- The loop of AcquireKey, from any state of its variables.
  pub scan-Outcome :
      (i : ℕ) (items : List LocalKey) (acc : Scan)
      → Outcome avail i items acc (scan avail i items acc).1
  unfolding scan
  scan-Outcome i [] acc = kept refl refl (λ _. tt) (λ _. tt)
  scan-Outcome i (item ∷ items) acc = elim (Bool-cases (avail item.key)) [
    | inl usable ↦ rw usable (
        Outcome-note i item items acc _ usable
          (scan-Outcome (suc i) items (note i (boost item) acc)))
    | inr skipped ↦
        rw skipped (Outcome-skip i item items acc _ skipped (scan-Outcome (suc i) items acc))
  ]
