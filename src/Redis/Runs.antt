-- ===== src/Redis/Runs.antt =====
-- Runs of calls over a server beside the same runs without a client.
use mathlib.Core.Path.{subst}
use nvidia_api_gateway.Prelude.{ℕ, ◌≡◌, refl, ap, Bool, false, Option, none, some, arith}
use nvidia_api_gateway.Prelude.Int.{ℤ, pos, ◌+ℤ◌, ◌≤ℤ◌}
use nvidia_api_gateway.Prelude.Text.{Text}
use nvidia_api_gateway.Scheduler.{
  Scheduler, unix, acquire_key, release_key, try_acquire_specific_key, mark_cooling,
}
use nvidia_api_gateway.Redis.{
  View, Redis, is_past, elapsed, redis_acquire_key, redis_try_acquire_specific_key,
  redis_release_key, redis_mark_cooling,
}
use nvidia_api_gateway.Redis.Agreement.{Agrees}
use nvidia_api_gateway.Redis.Acquire.{redis_acquire_key-Agrees}
use nvidia_api_gateway.Redis.Calls.{
  Agrees-later, redis_release_key-Agrees, redis_mark_cooling-Agrees,
  redis_try_acquire_specific_key-Agrees,
}

-- A call of a method, with its arguments.
pub data Call : Type 0 where
  acquire : ℤ → Call
  try : Text → ℤ → Call
  release : Text → Call
  cool : Text → ℤ → Call

pub data Answer : Type 0 where
  key : Text → Answer
  done : Bool → Answer
  nothing : Answer

-- A call without a client; none for a panic.
abbrev pub local_call : Scheduler → ℤ → Call → Option (Scheduler × Answer)
local_call s now (acquire max) = elim (acquire_key s now max) [
  | none ↦ none
  | some (t, k) ↦ some (t, key k)
]
local_call s now (try k max) = let (t, b) = try_acquire_specific_key s now k max in some (t, done b)
local_call s now (release k) = some (release_key s k, nothing)
local_call s now (cool k duration) = some (mark_cooling s now k duration, nothing)

abbrev answered {ℓ} : {A : Type ℓ} → (A → Answer) → Option A → Option Answer
answered f none = none
answered f (some a) = some (f a)

-- What is the case now stays so for `d` seconds: no counter that is kept expires.
abbrev pub NoneExpires : View → ℕ → Type 0
NoneExpires v d = (k : Text) → is_past (v.clock +ℤ pos d) (v.deadlines k) ≡ false

module _ (server : Redis) where
  open server use {State, view, elapse, elapse_lem}

  -- A call over the server; none for an error.
  abbrev pub redis_call : State → ℤ → Call → State × Option Answer
  redis_call r now (acquire max) =
      let (r', k) = redis_acquire_key server r now max in (r', answered key k)
  redis_call r now (try k max) =
      let (r', b) = redis_try_acquire_specific_key server r now k max in (r', answered done b)
  redis_call r now (release k) = (redis_release_key server r k, some nothing)
  redis_call r now (cool k duration) = (redis_mark_cooling server r now k duration, some nothing)

  -- The same calls at the same instants on both sides, in the order of time, and waits in which no
  -- counter of the server expires. The last index is the instant, in seconds, of the last call.
  pub data Together (r₀ : State) (s₀ : Scheduler) (t₀ : ℤ) : State → Scheduler → ℤ → Type 0 where
    here : Together r₀ s₀ t₀ r₀ s₀ t₀
    called :
        {r : State} {s : Scheduler} {t : ℤ} (now : ℤ) (c : Call) (s' : Scheduler) (a : Answer)
        → Together r₀ s₀ t₀ r s t
        → t ≤ℤ unix now
        → local_call s now c ≡ some (s', a)
        → Together r₀ s₀ t₀ (redis_call r now c).0 s' (unix now)
    waited :
        {r : State} {s : Scheduler} {t : ℤ} (d : ℕ)
        → Together r₀ s₀ t₀ r s t
        → NoneExpires (view r) d
        → Together r₀ s₀ t₀ (elapse r d) s t

  -- What a call does on both sides.
  pub record SameCall (r : State) (s : Scheduler) (now : ℤ) (c : Call) : Type 0 where
    pub scheduler : Scheduler
    pub answer : Answer
    pub here : local_call s now c ≡ some (scheduler, answer)
    pub there : (redis_call r now c).1 ≡ some answer
    pub agrees : Agrees (unix now) (view (redis_call r now c).0) scheduler

  call-SameCall :
      (r : State) (s : Scheduler) (now : ℤ) (c : Call)
      → Agrees (unix now) (view r) s
      → SameCall r s now c
  call-SameCall r s now (acquire max) a =
      let (t, k, local, there, agrees) = redis_acquire_key-Agrees server now max r s a in
      record {
        scheduler = t;
        answer = key k;
        here = rw (local, local_call);
        there = ap (answered key) there;
        agrees = agrees;
      }
  call-SameCall r s now (try k max) a =
      let (there, agrees) = redis_try_acquire_specific_key-Agrees server now r s a k max in
      record {
        scheduler = (try_acquire_specific_key s now k max).0;
        answer = done (try_acquire_specific_key s now k max).1;
        here = refl;
        there = ap (answered done) there;
        agrees = agrees;
      }
  call-SameCall r s now (release k) a = record {
    scheduler = release_key s k;
    answer = nothing;
    here = refl;
    there = refl;
    agrees = redis_release_key-Agrees server now r s a k;
  }
  call-SameCall r s now (cool k duration) a = record {
    scheduler = mark_cooling s now k duration;
    answer = nothing;
    here = refl;
    there = refl;
    agrees = redis_mark_cooling-Agrees server now r s a k duration;
  }

  elapsed-Agrees :
      (t : ℤ) (v : View) (s : Scheduler) (d : ℕ)
      → NoneExpires v d
      → Agrees t v s
      → Agrees t (elapsed v d) s
  elapsed-Agrees t v s d h a = record {
    active = a.active;
    dead = a.dead;
    cooling = a.cooling;
    counts = λ k. rw (h k) (a.counts k);
    one_each = a.one_each;
    named = a.named;
  }

  Together-Agrees :
      {r₀ : State} {s₀ : Scheduler} {t₀ : ℤ} {r : State} {s : Scheduler} {t : ℤ}
      → Agrees t₀ (view r₀) s₀
      → Together r₀ s₀ t₀ r s t
      → Agrees t (view r) s
  Together-Agrees a here = a
  Together-Agrees a (called {r = r} {s = s} {t = t} now c s' x g later e) =
      let same =
        call-SameCall r s now c
          (Agrees-later t (unix now) (view r) s later (Together-Agrees a g)) in
      subst (λ u. Agrees (unix now) (view (redis_call r now c).0) u) (ground (arith, same.here))
        same.agrees
  Together-Agrees {t = t} a (waited {r = r} {s = s} d g h) =
      rw (elapse_lem r d) (elapsed-Agrees t (view r) s d h (Together-Agrees a g))

  -- A server and a scheduler without a client that agree at the start, then get the same calls of
  -- AcquireKey, TryAcquireSpecificKey, ReleaseKey and MarkCooling in the order of time, with waits in
  -- which no counter of the server expires: the next call at a later instant neither fails nor
  -- panics, is answered alike by both, and leaves them in agreement.
  pub redis_call-SameCall :
      (r₀ r : State) (s₀ s : Scheduler) (t₀ t now : ℤ) (c : Call)
      → Agrees t₀ (view r₀) s₀
      → Together r₀ s₀ t₀ r s t
      → t ≤ℤ unix now
      → SameCall r s now c
  redis_call-SameCall r₀ r s₀ s t₀ t now c a g later =
      call-SameCall r s now c (Agrees-later t (unix now) (view r) s later (Together-Agrees a g))
