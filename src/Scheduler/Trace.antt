-- ===== src/Scheduler/Trace.antt =====
-- Any interleaving of calls of the scheduler's methods: what holds in every state that they reach.
use nvidia_api_gateway.Prelude.{ℕ, suc, ◌≡◌, Bool, true, some, List, [], ◌∷◌, map, arith, get_elem?}
use mathlib.Core.Path.{subst}
use nvidia_api_gateway.Prelude.Int.{ℤ, pos, ◌≤ℤ◌}
use nvidia_api_gateway.Prelude.Text.{Text}
use nvidia_api_gateway.Scheduler.{
  LocalKey, Scheduler, unix, new_scheduler, add_key, cleanup_expired, acquire_key, available,
  try_acquire_specific_key, release_key, mark_cooling, mark_dead, reset, concurrency_of,
}
use nvidia_api_gateway.Scheduler.Invariant.{
  SameKeys, DistinctKeys-same, IsValid, new_scheduler-IsValid, add_key-IsValid,
  cleanup_expired-IsValid, counted-IsValid, try_acquire_specific_key-IsValid, release_key-IsValid,
  mark_cooling-IsValid, mark_dead-IsValid, reset-IsValid,
}
use nvidia_api_gateway.Scheduler.Acquire.{
  turned, after_selection, idle, chose, acquire_key-Acquired,
}

-- One call at some instant. Callers of AcquireKey and TryAcquireSpecificKey allow at most `limit`
-- requests for a key at a time.
pub data Step (limit : ℕ) : Scheduler → Scheduler → Type 0 where
  adds : (s : Scheduler) (key : Text) (weight : ℤ) → Step limit s (add_key s key weight)
  acquires :
      (s t : Scheduler) (now max : ℤ) (key : Text)
      → max ≤ℤ pos limit
      → acquire_key s now max ≡ some (t, key)
      → Step limit s t
  tries :
      (s : Scheduler) (now : ℤ) (key : Text) (max : ℤ)
      → max ≤ℤ pos limit
      → Step limit s (try_acquire_specific_key s now key max).0
  releases : (s : Scheduler) (key : Text) → Step limit s (release_key s key)
  cools :
      (s : Scheduler) (now : ℤ) (key : Text) (duration : ℤ)
      → Step limit s (mark_cooling s now key duration)
  kills : (s : Scheduler) (key : Text) → Step limit s (mark_dead s key)
  cleans : (s : Scheduler) (now : ℤ) → Step limit s (cleanup_expired s now)
  resets : (s : Scheduler) → Step limit s (reset s)

pub data Reach (limit : ℕ) (s : Scheduler) : Scheduler → Type 0 where
  here : Reach limit s s
  next : {t u : Scheduler} → Reach limit s t → Step limit t u → Reach limit s u

SameKeys-turned :
    (avail : Text → Bool) (total : ℤ) (k : Text) (xs : List LocalKey)
    → SameKeys xs (map (turned avail total k) xs)
SameKeys-turned avail total k [] = tt
SameKeys-turned avail total k (x ∷ xs) = (ground arith, SameKeys-turned avail total k xs)

after_selection-IsValid :
    (avail : Text → Bool) (s : Scheduler) (k : Text)
    → IsValid s
    → IsValid (after_selection avail s k)
after_selection-IsValid avail s k v =
    let counted = counted-IsValid s k (suc (concurrency_of s k)) v in
    record {
      active = DistinctKeys-same s.active _ (SameKeys-turned avail _ k s.active) v.active;
      cooling = v.cooling;
      dead = v.dead;
      concurrency = counted.concurrency;
    }

-- A property of every state that a call of AcquireKey may leave.
pub acquire_key-keeps {ℓ} :
    (P : Scheduler → Type ℓ) (s t : Scheduler) (now max : ℤ) (key : Text)
    → IsValid s
    → acquire_key s now max ≡ some (t, key)
    → P (cleanup_expired s now)
    → ((j : ℕ) (item : LocalKey)
        → get_elem? (cleanup_expired s now).active j ≡ some item
        → available s (unix now) max item.key ≡ true
        → P (after_selection (available s (unix now) max) (cleanup_expired s now) item.key))
    → P t
acquire_key-keeps P s t now max key v e p q = elim (acquire_key-Acquired s now max v) [
  | idle _ r ↦ subst P (cc) p
  | chose j item at on _ _ r ↦ subst P (cc) (q j item at on)
]

pub Step-IsValid : {limit : ℕ} {s t : Scheduler} → Step limit s t → IsValid s → IsValid t
Step-IsValid (adds s key weight) v = add_key-IsValid s key weight v
Step-IsValid (acquires s t now max key _ e) v =
    let cleaned = cleanup_expired-IsValid s now v in
    acquire_key-keeps IsValid s t now max key v e cleaned
      (λ j item _ _. after_selection-IsValid _ _ item.key cleaned)
Step-IsValid (tries s now key max _) v = try_acquire_specific_key-IsValid s now key max v
Step-IsValid (releases s key) v = release_key-IsValid s key v
Step-IsValid (cools s now key duration) v = mark_cooling-IsValid s now key duration v
Step-IsValid (kills s key) v = mark_dead-IsValid s key v
Step-IsValid (cleans s now) v = cleanup_expired-IsValid s now v
Step-IsValid (resets s) v = reset-IsValid s

-- No key is registered twice, and no map holds a key twice, after any calls.
pub Reach-IsValid : {limit : ℕ} {s : Scheduler} → Reach limit new_scheduler s → IsValid s
Reach-IsValid here = new_scheduler-IsValid
Reach-IsValid (next r st) = Step-IsValid st (Reach-IsValid r)
