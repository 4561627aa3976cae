-- ===== src/Prelude/Maps.antt =====
-- Go's maps from strings, as association lists with at most one entry for a key. A loop that
-- deletes during `range` is a filter.
use mathlib.Core.Path.{◌≡◌, refl}
use mathlib.Core.Bool.{Bool, true, false}
use mathlib.Core.Option.{Option, none, some}
use mathlib.Core.List.{List, [], ◌∷◌}
use native.Mathlib.Omega.{arith}
use nvidia_api_gateway.Prelude.Tests.{if◌then◌else◌}
use nvidia_api_gateway.Prelude.Text.{Text, text_eq, text_eq_iff, text_eq_refl}

module _ {ℓ} {V : Type ℓ} where
  -- v, ok := m[k]
  unfoldable pub lookup : Text → List (Text × V) → Option V
  lookup k [] = none
  lookup k ((j, v) ∷ m) = if text_eq j k then some v else lookup k m

  -- m[k] = v
  unfoldable pub insert : Text → V → List (Text × V) → List (Text × V)
  insert k v [] = (k, v) ∷ []
  insert k v ((j, w) ∷ m) = if text_eq j k then (k, v) ∷ m else (j, w) ∷ insert k v m

  -- delete(m, k)
  unfoldable pub delete : Text → List (Text × V) → List (Text × V)
  delete k [] = []
  delete k ((j, w) ∷ m) = let rest = delete k m in if text_eq j k then rest else (j, w) ∷ rest

  -- for k, v := range m { if !p(v) { delete(m, k) } }
  unfoldable pub retain : (V → Bool) → List (Text × V) → List (Text × V)
  retain p [] = []
  retain p ((j, w) ∷ m) = let rest = retain p m in if p w then (j, w) ∷ rest else rest

  -- No entry has the key.
  abbrev pub Fresh : Text → List (Text × V) → Type 0
  Fresh k [] = Unit
  Fresh k ((j, w) ∷ m) = (text_eq j k ≡ false) × Fresh k m

  -- Every key has one entry.
  abbrev pub Distinct : List (Text × V) → Type 0
  Distinct [] = Unit
  Distinct ((j, w) ∷ m) = Fresh j m × Distinct m

module _ {ℓ} {V : Type ℓ} where
  pub lookup-insert :
      (k j : Text) (v : V) (m : List (Text × V))
      → lookup j (insert k v m) ≡ (if text_eq k j then some v else lookup j m)
  unfolding lookup insert
  lookup-insert k j v [] = refl
  lookup-insert k j v ((i, w) ∷ m) = ground (
    arith,
    text_eq_iff k j,
    text_eq_iff i k,
    text_eq_iff i j,
    text_eq_refl j,
    lookup-insert k j v m,
  )

  pub lookup-delete :
      (k j : Text) (m : List (Text × V))
      → lookup j (delete k m) ≡ (if text_eq k j then none else lookup j m)
  unfolding lookup delete
  lookup-delete k j [] = ground arith
  lookup-delete k j ((i, w) ∷ m) = ground (
    arith,
    text_eq_iff k j,
    text_eq_iff i k,
    text_eq_iff i j,
    text_eq_refl j,
    lookup-delete k j m,
  )

  lookup_of_Fresh : (k : Text) (m : List (Text × V)) → Fresh k m → lookup k m ≡ none
  unfolding lookup
  lookup_of_Fresh k [] f = refl
  lookup_of_Fresh k ((j, w) ∷ m) f = ground (arith, lookup_of_Fresh k m)

  -- What a filtered map has at a key.
  abbrev pub passing : (V → Bool) → Option V → Option V
  passing p none = none
  passing p (some v) = if p v then some v else none

  lookup_eq : (k j : Text) (m : List (Text × V)) → text_eq k j ≡ true → lookup j m ≡ lookup k m
  lookup_eq k j m e = ground (arith, text_eq_iff k j)

  pub lookup-retain :
      (p : V → Bool) (k : Text) (m : List (Text × V))
      → Distinct m
      → lookup k (retain p m) ≡ passing p (lookup k m)
  unfolding lookup retain
  lookup-retain p k [] d = refl
  lookup-retain p k ((j, w) ∷ m) d =
      ground (arith, lookup-retain p k m, lookup_of_Fresh j m, text_eq_iff j k)

  insert-Fresh :
      (k j : Text) (v : V) (m : List (Text × V))
      → text_eq k j ≡ false
      → Fresh j m
      → Fresh j (insert k v m)
  unfolding insert
  insert-Fresh k j v [] e f = ground arith
  insert-Fresh k j v ((i, w) ∷ m) e f = ground (arith, insert-Fresh k j v m)

  pub insert-Distinct :
      (k : Text) (v : V) (m : List (Text × V)) → Distinct m → Distinct (insert k v m)
  unfolding insert
  insert-Distinct k v [] d = ground arith
  insert-Distinct k v ((i, w) ∷ m) d = ground (
    arith,
    insert-Distinct k v m,
    insert-Fresh k i v m,
    text_eq_iff k i,
    text_eq_iff i k,
    text_eq_refl i,
  )

  delete-Fresh : (k j : Text) (m : List (Text × V)) → Fresh j m → Fresh j (delete k m)
  unfolding delete
  delete-Fresh k j [] f = f
  delete-Fresh k j ((i, w) ∷ m) f = ground (arith, delete-Fresh k j m)

  pub delete-Distinct : (k : Text) (m : List (Text × V)) → Distinct m → Distinct (delete k m)
  unfolding delete
  delete-Distinct k [] d = d
  delete-Distinct k ((i, w) ∷ m) d = ground (arith, delete-Distinct k m, delete-Fresh k i m)

  retain-Fresh : (p : V → Bool) (j : Text) (m : List (Text × V)) → Fresh j m → Fresh j (retain p m)
  unfolding retain
  retain-Fresh p j [] f = f
  retain-Fresh p j ((i, w) ∷ m) f = ground (arith, retain-Fresh p j m)

  pub retain-Distinct : (p : V → Bool) (m : List (Text × V)) → Distinct m → Distinct (retain p m)
  unfolding retain
  retain-Distinct p [] d = d
  retain-Distinct p ((i, w) ∷ m) d = ground (arith, retain-Distinct p m, retain-Fresh p i m)
