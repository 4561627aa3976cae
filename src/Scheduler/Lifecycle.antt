-- ===== src/Scheduler/Lifecycle.antt =====
-- A key's life: granted and released, tried by name, cooled, killed; and what a clean-up can change.
use nvidia_api_gateway.Prelude.{
  ℕ, ◌-◌, ◌≡◌, ◌≢◌, ◌↔◌, refl, Bool, true, false, not, ◌&&◌, some, List, [], ◌∷◌, arith,
  if◌then◌else◌,
}
use nvidia_api_gateway.Prelude.Int.{ℤ, pos, negsuc, ◌+ℤ◌, ◌≤ℤ◌, ◌<ℤ◌, leb_ℤ}
use nvidia_api_gateway.Prelude.Text.{Text, text_eq_iff, text_eq_refl, trim_space}
use nvidia_api_gateway.Prelude.Maps.{delete, retain, lookup-insert, lookup-delete, lookup-retain}
use nvidia_api_gateway.Scheduler.{
  Scheduler, unix, add_key, cleanup_expired, acquire_key, has_key, available,
  try_acquire_specific_key, release_key, mark_cooling, mark_dead, concurrency_of, is_dead, stats,
  count_cooling,
}
use nvidia_api_gateway.Scheduler.Invariant.{IsValid, mark_dead-IsValid}
use nvidia_api_gateway.Scheduler.Acquire.{available-cleanup_expired}
use nvidia_api_gateway.Scheduler.Trace as Trace
use nvidia_api_gateway.Scheduler.Trace.{Step, Reach, here, next, acquire_key-keeps, Step-IsValid}
use nvidia_api_gateway.Scheduler.Limits.{acquire_key-Grant}

-- Releasing a key right after it was granted gives every key its count back.
pub release_key-acquire_key :
    (s t : Scheduler) (now max : ℤ) (key : Text)
    → IsValid s
    → acquire_key s now max ≡ some (t, key)
    → key ≢ []
    → (k : Text) → concurrency_of (release_key t key) k ≡ concurrency_of s k
unfolding release_key
release_key-acquire_key s t now max key v e named k =
    let g = acquire_key-Grant s t now max key v e named in
    ground (
      arith,
      g.counted k,
      g.counted key,
      text_eq_refl key,
      text_eq_iff key [],
      text_eq_iff key k,
      lookup-insert key k (concurrency_of t key - 1) t.concurrency,
    )

-- The bound that TryAcquireSpecificKey goes by.
abbrev pub at_least_one : ℤ → ℤ
at_least_one max = if leb_ℤ max (pos 0) then pos 1 else max

-- TryAcquireSpecificKey on a valid state succeeds exactly when the trimmed key is non-empty,
-- registered, and passes the tests of the loop of AcquireKey under the given bound, or under 1 if
-- that is not positive.
pub try_acquire_specific_key_iff :
    (s : Scheduler) (now max : ℤ) (key : Text)
    → IsValid s
    → ((try_acquire_specific_key s now key max).1 ≡ true) ↔ (
        (trim_space key ≢ [])
        × (has_key (trim_space key) s.active ≡ true)
        × (available s (unix now) (at_least_one max) (trim_space key) ≡ true))
unfolding try_acquire_specific_key
try_acquire_specific_key_iff s now max key v = ground (
  arith,
  text_eq_iff (trim_space key) [],
  available-cleanup_expired s now (at_least_one max) (trim_space key) v.cooling,
)

-- Whether a call is Reset, and whether a run has no such call.
abbrev pub is_reset : {limit : ℕ} {s t : Scheduler} → Step limit s t → Bool
is_reset (Trace.resets s) = true
is_reset _ = false

abbrev pub has_no_reset : {limit : ℕ} {s t : Scheduler} → Reach limit s t → Bool
has_no_reset here = true
has_no_reset (next r st) = not (is_reset st) && has_no_reset r

Step-dead :
    {limit : ℕ} {s t : Scheduler} (key : Text) (st : Step limit s t)
    → IsValid s
    → is_reset st ≡ false
    → is_dead s key ≡ true
    → is_dead t key ≡ true
unfolding add_key cleanup_expired try_acquire_specific_key release_key mark_cooling mark_dead
Step-dead key (Trace.adds s k w) v n d = ground arith
Step-dead key (Trace.acquires s t now max k _ e) v n d =
    acquire_key-keeps (λ u. is_dead u key ≡ true) s t now max k v e d (λ j item _ _. d)
Step-dead key (Trace.tries s now k max _) v n d = ground arith
Step-dead key (Trace.releases s k) v n d = ground arith
Step-dead key (Trace.cools s now k duration) v n d = d
Step-dead key (Trace.kills s k) v n d = ground (arith, lookup-insert k key tt s.dead)
Step-dead key (Trace.cleans s now) v n d = d
Step-dead key (Trace.resets s) v n d = cc n

Reach-dead :
    {limit : ℕ} {s t : Scheduler} (key : Text) (r : Reach limit s t)
    → IsValid s
    → is_dead s key ≡ true
    → has_no_reset r ≡ true
    → IsValid t × (is_dead t key ≡ true)
Reach-dead key here v d n = (v, d)
Reach-dead key (next r st) v d n =
    let (w, dead) = Reach-dead key r v d (ground (arith, n)) in
    (Step-IsValid st w, Step-dead key st w (ground (arith, n)) dead)

-- After MarkDead of a key on a valid state and any further calls, none of which is Reset, AcquireKey
-- does not answer with that key, if it is not empty.
pub mark_dead_excludes :
    {limit : ℕ} {s t : Scheduler} (u : Scheduler) (now max : ℤ) (key : Text)
    (r : Reach limit (mark_dead s key) t)
    → IsValid s
    → has_no_reset r ≡ true
    → key ≢ []
    → acquire_key t now max ≢ some (u, key)
unfolding mark_dead
mark_dead_excludes {s = s} {t = t} u now max key r v n named e =
    let (w, dead) =
      Reach-dead key r (mark_dead-IsValid s key v)
        (ground (arith, lookup-insert key key tt s.dead, text_eq_refl key)) n in
    absurd (ground (arith, (acquire_key-Grant t u now max key w e named).alive))

unix_mono : (a b : ℤ) → a ≤ℤ b → unix a ≤ℤ unix b
unfolding unix
unix_mono (pos a) (pos b) h = omega arith
unix_mono (negsuc a) (negsuc b) h = omega arith
unix_mono (negsuc a) (pos b) h = omega arith
unix_mono (pos a) (negsuc b) h = omega arith

count_cooling-retain :
    (now later : ℤ) (m : List (Text × ℤ))
    → now ≤ℤ later
    → count_cooling later (retain (λ until. leb_ℤ now until) m) ≡ count_cooling later m
unfolding count_cooling retain
count_cooling-retain now later [] h = refl
count_cooling-retain now later ((k, until) ∷ m) h =
    ground (arith, count_cooling-retain now later m h)

-- CleanupExpired changes neither the statistics nor any key's availability at that instant or later.
pub cleanup_expired_unseen :
    (s : Scheduler) (now later : ℤ)
    → IsValid s
    → now ≤ℤ later
    → (stats (cleanup_expired s now) later ≡ stats s later)
      × ((max : ℤ) (key : Text)
          → available (cleanup_expired s now) (unix later) max key
            ≡ available s (unix later) max key)
unfolding stats cleanup_expired available
cleanup_expired_unseen s now later v h = (
  ground (arith, count_cooling-retain (unix now) (unix later) s.cooling (unix_mono now later h)),
  λ max key. ground (
    arith,
    unix_mono now later h,
    lookup-retain (λ (u : ℤ). leb_ℤ (unix now) u) key s.cooling v.cooling,
  ),
)

-- A key that is marked as cooling is unavailable up to and including the second in which the
-- duration ends; after it the key is as available as it was without any entry.
pub mark_cooling_until :
    (s : Scheduler) (now duration later max : ℤ) (key : Text)
    → (later ≤ℤ now +ℤ duration
        → available (mark_cooling s now key duration) (unix later) max key ≡ false)
      × (unix (now +ℤ duration) <ℤ unix later
          → available (mark_cooling s now key duration) (unix later) max key
            ≡ available (record s { cooling = delete key s.cooling }) (unix later) max key)
unfolding mark_cooling available
mark_cooling_until s now duration later max key = (
  λ h. ground (
    arith,
    unix_mono later (now +ℤ duration) h,
    lookup-insert key key (unix (now +ℤ duration)) s.cooling,
    text_eq_refl key,
  ),
  λ h. ground (
    arith,
    lookup-insert key key (unix (now +ℤ duration)) s.cooling,
    lookup-delete key key s.cooling,
    text_eq_refl key,
  ),
)
