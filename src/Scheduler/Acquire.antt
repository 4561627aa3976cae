-- ===== src/Scheduler/Acquire.antt =====
-- AcquireKey as a whole: when it selects, what it selects, and what it changes.
use nvidia_api_gateway.Prelude.{
  ℕ, zero, suc, ◌≡◌, refl, Bool, true, false, Option, some, List, [], ◌∷◌, map, arith,
  if◌then◌else◌, get_elem?, take, ◌∙◌,
}
use mathlib.Core.Path.{subst, fun_ext}
use nvidia_api_gateway.Prelude.Int.{ℤ, pos, ◌+ℤ◌, ◌-ℤ◌, leb_ℤ, int_laws}
use nvidia_api_gateway.Prelude.Text.{Text, text_eq, text_eq_iff, text_eq_refl}
use nvidia_api_gateway.Prelude.Maps.{Distinct, insert, lookup-retain}
use nvidia_api_gateway.Scheduler.{
  LocalKey, Scheduler, unix, cleanup_expired, Scan, scan, charge, settle, acquire_key, has_key,
  available, no_selection, concurrency_of,
}
use nvidia_api_gateway.Scheduler.Selection.{
  boosted, total_of, AllAtMost, AllBelow, AllSkipped, Outcome, kept, took, scan-items, scan-total,
  scan-Outcome,
}
use nvidia_api_gateway.Scheduler.Invariant.{DistinctKeys, IsValid}

-- An item after a call that selected `key` and shared out `total`.
abbrev pub turned : (Text → Bool) → ℤ → Text → LocalKey → LocalKey
turned avail total key item =
    let gained = boosted avail item in
    if text_eq item.key key
    then record gained { current_weight = gained.current_weight -ℤ total }
    else gained

pub get_elem?-has_key :
    (xs : List LocalKey) (j : ℕ) (x : LocalKey) → get_elem? xs j ≡ some x → has_key x.key xs ≡ true
unfolding has_key
get_elem?-has_key [] j x e = cc
get_elem?-has_key (y ∷ ys) zero x e = ground (arith, text_eq_refl x.key)
get_elem?-has_key (y ∷ ys) (suc j) x e = ground (arith, get_elem?-has_key ys j x)

module _ (avail : Text → Bool) (total : ℤ) where
  map-turned_absent :
      (k : Text) (xs : List LocalKey)
      → has_key k xs ≡ false
      → map (turned avail total k) xs ≡ map (boosted avail) xs
  unfolding has_key
  map-turned_absent k [] h = refl
  map-turned_absent k (x ∷ xs) h = ground (arith, map-turned_absent k xs)

  pub charge-turned :
      (j : ℕ) (xs : List LocalKey) (x : LocalKey)
      → get_elem? xs j ≡ some x
      → DistinctKeys xs
      → charge j total (map (boosted avail) xs) ≡ map (turned avail total x.key) xs
  unfolding charge has_key
  charge-turned j [] x e d = cc
  charge-turned zero (y ∷ ys) x e d = ground (arith, map-turned_absent x.key ys, text_eq_refl x.key)
  charge-turned (suc j) (y ∷ ys) x e d =
      ground (arith, charge-turned j ys x, get_elem?-has_key ys j x, text_eq_iff y.key x.key)

  pub get_elem?-boosted :
      (j : ℕ) (xs : List LocalKey) (x : LocalKey)
      → get_elem? xs j ≡ some x
      → get_elem? (map (boosted avail) xs) j ≡ some (boosted avail x)
  get_elem?-boosted j [] x e = cc
  get_elem?-boosted zero (y ∷ ys) x e = ground arith
  get_elem?-boosted (suc j) (y ∷ ys) x e = get_elem?-boosted j ys x e

boosted_skipped :
    (avail : Text → Bool) (xs : List LocalKey) → AllSkipped avail xs → map (boosted avail) xs ≡ xs
boosted_skipped avail [] h = refl
boosted_skipped avail (x ∷ xs) h = ground (arith, boosted_skipped avail xs h.1)

-- Deleting the expired entries changes no test.
pub available-cleanup_expired :
    (s : Scheduler) (now max : ℤ) (k : Text)
    → Distinct s.cooling
    → available (cleanup_expired s now) (unix now) max k ≡ available s (unix now) max k
unfolding available cleanup_expired
available-cleanup_expired s now max k d =
    ground (arith, lookup-retain (λ (u : ℤ). leb_ℤ (unix now) u) k s.cooling d)

-- The state in which a call leaves the scheduler when it selects `key`.
abbrev pub after_selection : (Text → Bool) → Scheduler → Text → Scheduler
after_selection avail s key = record s {
  active = map (turned avail (total_of avail s.active) key) s.active;
  concurrency = insert key (suc (concurrency_of s key)) s.concurrency;
}

-- What AcquireKey may answer in a state, by the tests `avail` of its loop.
pub data Acquired (avail : Text → Bool) (s : Scheduler) (result : Option (Scheduler × Text))
    : Type 0 where
  idle : AllSkipped avail s.active → result ≡ some (s, []) → Acquired avail s result
  chose :
      (j : ℕ) (item : LocalKey)
      → get_elem? s.active j ≡ some item
      → avail item.key ≡ true
      → AllAtMost avail (item.current_weight +ℤ item.weight) s.active
      → AllBelow avail (item.current_weight +ℤ item.weight) (take j s.active)
      → result ≡ some (after_selection avail s item.key, item.key)
      → Acquired avail s result

total_start : (t : ℤ) → pos 0 +ℤ t ≡ t
total_start t = omega int_laws

module _ (avail : Text → Bool) (s : Scheduler) (d : DistinctKeys s.active) where
  settle-Acquired :
      (fin : Scan)
      → fin.total_weight ≡ total_of avail s.active
      → Outcome avail 0 s.active no_selection fin
      → Acquired avail s (settle s (map (boosted avail) s.active) fin)
  unfolding settle
  settle-Acquired fin t (kept e w skipped _) =
      idle (skipped refl) (rw (e, settle) (rw (boosted_skipped avail s.active (skipped refl))))
  settle-Acquired fin t (took j item at on e w _ top first) =
      chose j item at on (subst (λ v. AllAtMost avail v s.active) w top)
        (subst (λ v. AllBelow avail v (take j s.active)) w first)
        (ground (
          arith,
          get_elem?-boosted avail total j s.active item at,
          charge-turned avail total j s.active item at d,
        ))
    where
      total : ℤ
      total = total_of avail s.active

  scan-Acquired :
      let (items, fin) = scan avail 0 s.active no_selection in Acquired avail s (settle s items fin)
  scan-Acquired = rw (scan-items avail 0 s.active no_selection) (
      settle-Acquired _
        (scan-total avail 0 s.active no_selection ∙ total_start (total_of avail s.active))
        (scan-Outcome avail 0 s.active no_selection))

-- From a valid state AcquireKey never panics: if every active key is dead, cooling or at the bound it
-- answers with the empty text and only deletes expired cooling entries; otherwise it answers with the
-- first usable key whose accumulated weight plus weight is largest, adds its weight to each usable
-- key, takes their total from the chosen one, counts one more request for it and deletes expired
-- cooling entries.
pub acquire_key-Acquired :
    (s : Scheduler) (now max : ℤ)
    → IsValid s
    → Acquired (available s (unix now) max) (cleanup_expired s now) (acquire_key s now max)
unfolding acquire_key
acquire_key-Acquired s now max v =
    subst (λ avail. Acquired avail (cleanup_expired s now) (acquire_key s now max))
      (fun_ext (λ k. available-cleanup_expired s now max k v.cooling))
      (scan-Acquired (available (cleanup_expired s now) (unix now) max) (cleanup_expired s now)
        v.active)
