-- ===== src/Scheduler/Limits.antt =====
-- No key serves more requests at a time than the callers allow, and a dead key serves none.
use mathlib.Core.Path.{subst, sym, ◌∙◌}
use mathlib.Core.Option.{some-injective}
use nvidia_api_gateway.Prelude.{
  ℕ, suc, ◌-◌, ◌≤◌, ◌≡◌, ◌≢◌, Bool, true, false, some, List, [], ◌∷◌, arith, if◌then◌else◌,
  get_elem?,
}
use nvidia_api_gateway.Prelude.Int.{ℤ, pos, ◌≤ℤ◌}
use nvidia_api_gateway.Prelude.Text.{Text, text_eq, text_eq_iff, trim_space}
use nvidia_api_gateway.Prelude.Maps.{lookup, insert, lookup-insert, lookup-delete}
use nvidia_api_gateway.Scheduler.{
  LocalKey, Scheduler, unix, new_scheduler, add_key, cleanup_expired, acquire_key, has_key,
  available, try_acquire_specific_key, release_key, mark_cooling, mark_dead, reset, concurrency_of,
  is_dead,
}
use nvidia_api_gateway.Scheduler.Selection.{AllSkipped}
use nvidia_api_gateway.Scheduler.Invariant.{IsValid}
use nvidia_api_gateway.Scheduler.Acquire.{
  idle, chose, acquire_key-Acquired, get_elem?-has_key, after_selection,
}
use nvidia_api_gateway.Scheduler.Trace.{
  Step, adds, acquires, tries, releases, cools, kills, cleans, resets, Reach, here, next,
  acquire_key-keeps, Reach-IsValid,
}

abbrev pub Within : ℕ → Scheduler → Type 0
Within limit s = (key : Text) → concurrency_of s key ≤ limit

counted-Within :
    (limit : ℕ) (s : Scheduler) (k : Text) (n : ℕ)
    → n ≤ limit
    → Within limit s
    → Within limit (record s { concurrency = insert k n s.concurrency })
counted-Within limit s k n h w key = ground (arith, lookup-insert k key n s.concurrency, w key)

available_below :
    (s : Scheduler) (now max : ℤ) (k : Text)
    → available s now max k ≡ true
    → pos (suc (concurrency_of s k)) ≤ℤ max
unfolding available
available_below s now max k h = ground arith

add_key-Within :
    (limit : ℕ) (s : Scheduler) (k : Text) (w : ℤ) → Within limit s → Within limit (add_key s k w)
unfolding add_key
add_key-Within limit s k w h key = ground (arith, h key)

try_acquire-Within :
    (limit : ℕ) (s : Scheduler) (now : ℤ) (k : Text) (max : ℤ)
    → 1 ≤ limit
    → max ≤ℤ pos limit
    → Within limit s
    → Within limit (try_acquire_specific_key s now k max).0
unfolding try_acquire_specific_key
try_acquire-Within limit s now k max one h w key = ground (
  arith,
  w key,
  w (trim_space k),
  lookup-insert (trim_space k) key (suc (concurrency_of s (trim_space k))) s.concurrency,
)

Step-Within :
    {limit : ℕ} {s t : Scheduler}
    → 1 ≤ limit
    → Step limit s t
    → IsValid s
    → Within limit s
    → Within limit t
unfolding cleanup_expired release_key mark_cooling mark_dead reset lookup
Step-Within {limit} one (adds s key weight) v w = add_key-Within limit s key weight w
Step-Within {limit} one (acquires s t now max key h e) v w =
    acquire_key-keeps (Within limit) s t now max key v e w (λ j item _ on.
      counted-Within limit (cleanup_expired s now) item.key _
        (ground (arith, available_below s (unix now) max item.key on)) w)
Step-Within {limit} one (tries s now key max h) v w = try_acquire-Within limit s now key max one h w
Step-Within {limit} one (releases s key) v w =
    λ k. ground (arith, w k, w key, lookup-insert key k (concurrency_of s key - 1) s.concurrency)
Step-Within {limit} one (cools s now key duration) v w = w
Step-Within {limit} one (kills s key) v w =
    λ k. ground (arith, w k, lookup-delete key k s.concurrency)
Step-Within {limit} one (cleans s now) v w = w
Step-Within {limit} one (resets s) v w = λ k. ground arith

-- In every state that calls of the methods reach from a new scheduler, in any order and at any
-- instants, each key has at most limit requests in use, if limit is at least 1 and every AcquireKey
-- and TryAcquireSpecificKey was called with a bound of at most limit.
pub Reach-Within :
    (limit : ℕ) (s : Scheduler) → 1 ≤ limit → Reach limit new_scheduler s → Within limit s
unfolding new_scheduler lookup
Reach-Within limit s one here = λ k. ground arith
Reach-Within limit t one (next {t = s} r st) =
    Step-Within one st (Reach-IsValid r) (Reach-Within limit s one r)

available_alive :
    (s : Scheduler) (now max : ℤ) (k : Text) → available s now max k ≡ true → is_dead s k ≡ false
unfolding available
available_alive s now max k h = ground arith

-- A key that AcquireKey or TryAcquireSpecificKey grants in state `s`, and the state `t` after it.
pub record Grant (s : Scheduler) (now max : ℤ) (t : Scheduler) (key : Text) : Type 0 where
  pub registered : has_key key s.active ≡ true
  pub alive : is_dead s key ≡ false
  pub usable : available s (unix now) max key ≡ true
  pub below : pos (suc (concurrency_of s key)) ≤ℤ max
  pub counted :
      (k : Text)
      → concurrency_of t k
        ≡ (if text_eq key k then suc (concurrency_of s key) else concurrency_of s k)

selection-Grant :
    (s : Scheduler) (now max : ℤ) (j : ℕ) (item : LocalKey)
    → get_elem? s.active j ≡ some item
    → available s (unix now) max item.key ≡ true
    → Grant s now max
        (after_selection (available s (unix now) max) (cleanup_expired s now) item.key)
        item.key
unfolding cleanup_expired
selection-Grant s now max j item at on = record {
  registered = get_elem?-has_key s.active j item at;
  alive = available_alive s (unix now) max item.key on;
  usable = on;
  below = available_below s (unix now) max item.key on;
  counted =
      λ k. ground (arith, lookup-insert item.key k (suc (concurrency_of s item.key)) s.concurrency);
}

-- When AcquireKey on a valid state answers with a non-empty key, the key is registered, not dead,
-- passes the tests of the loop and stays within the bound with this request, and the call counts
-- one more request for it and none for any other key.
pub acquire_key-Grant :
    (s t : Scheduler) (now max : ℤ) (key : Text)
    → IsValid s
    → acquire_key s now max ≡ some (t, key)
    → key ≢ []
    → Grant s now max t key
unfolding cleanup_expired
acquire_key-Grant s t now max key v e named = elim (acquire_key-Acquired s now max v) [
  | idle _ r ↦ absurd (named (ground arith))
  | chose j item at on _ _ r ↦
      subst (λ (p : Scheduler × Text). Grant s now max p.0 p.1) (some-injective _ _ (sym r ∙ e))
        (selection-Grant s now max j item at on)
]

AllSkipped-has_key :
    (avail : Text → Bool) (k : Text) (xs : List LocalKey)
    → AllSkipped avail xs
    → has_key k xs ≡ true
    → avail k ≡ false
unfolding has_key
AllSkipped-has_key avail k [] h e = cc
AllSkipped-has_key avail k (x ∷ xs) h e =
    ground (arith, text_eq_iff x.key k, AllSkipped-has_key avail k xs h.1)

-- When AcquireKey on a valid state in which the empty text is no registered key answers with the
-- empty text, it has only deleted expired cooling entries, and every registered key is unavailable.
pub acquire_key_refuses :
    (s t : Scheduler) (now max : ℤ)
    → IsValid s
    → has_key [] s.active ≡ false
    → acquire_key s now max ≡ some (t, [])
    → (t ≡ cleanup_expired s now)
      × ((k : Text) → has_key k s.active ≡ true → available s (unix now) max k ≡ false)
unfolding cleanup_expired
acquire_key_refuses s t now max v unnamed e = elim (acquire_key-Acquired s now max v) [
  | idle skipped r ↦ (cc, λ k h. AllSkipped-has_key _ k s.active skipped h)
  | chose j item at on _ _ r ↦ absurd (ground (arith, get_elem?-has_key s.active j item at))
]
