-- ===== src/Scheduler/Tests.antt =====
-- Runs of the scheduler, and its theorems at concrete states.
use nvidia_api_gateway.Prelude.{
  ℕ, ◌+◌, ◌*◌, ◌<◌, ◌≡◌, ◌≢◌, ◌↔◌, refl, true, false, Option, none, some, List, [], ◌∷◌, arith, All,
}
use nvidia_api_gateway.Prelude.Int.{ℤ, pos, negsuc, ◌+ℤ◌, ◌-ℤ◌}
use nvidia_api_gateway.Prelude.Text.{Text, codes, text_eq, trim_space}
use nvidia_api_gateway.Prelude.Maps.{lookup, insert, retain}
use nvidia_api_gateway.Scheduler.{
  LocalKey, Scheduler, new_scheduler, add_key, acquire_key, release_key, try_acquire_specific_key,
  mark_cooling, mark_dead, reset, cleanup_expired, stats, available, unix, has_key, concurrency_of,
}
use nvidia_api_gateway.Scheduler.Invariant.{IsValid}
use nvidia_api_gateway.Scheduler.Acquire.{Acquired, acquire_key-Acquired}
use nvidia_api_gateway.Scheduler.Trace.{
  releases, Reach, here, next, adds, acquires, resets, Reach-IsValid,
}
use nvidia_api_gateway.Scheduler.Limits.{
  Within, Reach-Within, Grant, acquire_key-Grant, acquire_key_refuses,
}
use nvidia_api_gateway.Scheduler.Lifecycle.{
  at_least_one, try_acquire_specific_key_iff, mark_dead_excludes,
}
use nvidia_api_gateway.Scheduler.Rounds.{serve, count}
use nvidia_api_gateway.Scheduler.Shares.{Fresh, AllServed, serve_exact, serve_bounded}

abbrev key1 : Text
key1 = codes "key1"

abbrev key2 : Text
key2 = codes "key2"

abbrev item1 : LocalKey
item1 = record { key = key1; weight = pos 2; current_weight = pos 0 }

abbrev item2 : LocalKey
item2 = record { key = key2; weight = pos 1; current_weight = pos 0 }

abbrev pool : Scheduler
pool = record { active = item1 ∷ item2 ∷ []; cooling = []; dead = []; concurrency = [] }

-- One second in nanoseconds.
abbrev at_second : ℕ → ℤ
at_second n = pos (n * 1_000_000_000)

pool_built : add_key (add_key new_scheduler key1 (pos 2)) key2 (pos 1) ≡ pool
unfolding add_key new_scheduler text_eq
pool_built = refl

pool-IsValid : IsValid pool
unfolding has_key text_eq
pool-IsValid = record { active = (refl, (refl, tt)); cooling = tt; dead = tt; concurrency = tt }

-- The program's own test of the weighted round robin: key1, key2, key1.
abbrev run_keys : Option (Scheduler × List Text) → List Text
run_keys none = []
run_keys (some (s, keys)) = keys

round_robin : run_keys (serve pool (pos 1) (pos 0 ∷ pos 0 ∷ pos 0 ∷ [])) ≡ key1 ∷ key2 ∷ key1 ∷ []
unfolding serve acquire_key release_key lookup insert retain text_eq unix ◌+ℤ◌ ◌-ℤ◌
round_robin = refl

pool-Fresh : Fresh 3 pool
unfolding has_key text_eq lookup nvidia_api_gateway.Scheduler.Fairness.sum_shares
pool-Fresh = record {
  valid = pool-IsValid;
  free = record { dead = refl; cooling = refl; unused = λ k. refl };
  named = refl;
  whole = (refl, (refl, tt));
  shares = refl;
  blanked = refl;
}

serve_exact_example :
    (u : Scheduler) × (keys : List Text) × (serve pool (pos 1) (pos 0 ∷ pos 0 ∷ pos 0 ∷ [])
      ≡ some (u, keys))
    × AllServed keys pool.active
    × (u.active ≡ pool.active)
serve_exact_example =
    serve_exact pool (pos 1) 3 (pos 0 ∷ pos 0 ∷ pos 0 ∷ []) (omega arith) (omega arith) pool-Fresh
      refl

serve_bounded_example :
    (u : Scheduler) × (keys : List Text) × (serve pool (pos 1) (pos 0 ∷ pos 9 ∷ [])
      ≡ some (u, keys))
    × All
        (λ item. count item.key keys * 3 < 2 * nvidia_api_gateway.Scheduler.Fairness.share item + 3)
        pool.active
serve_bounded_example =
    serve_bounded pool (pos 1) 3 (pos 0 ∷ pos 9 ∷ []) (omega arith) (omega arith) pool-Fresh

acquire_key-Acquired_example :
    Acquired
      (available pool (unix (pos 5)) (pos 3))
      (cleanup_expired pool (pos 5))
      (acquire_key pool (pos 5) (pos 3))
acquire_key-Acquired_example = acquire_key-Acquired pool (pos 5) (pos 3) pool-IsValid

abbrev pool_in_use : Scheduler
pool_in_use = record {
  active =
      record item1 { current_weight = negsuc 0 } ∷ record item2 { current_weight = pos 1 } ∷ [];
  cooling = [];
  dead = [];
  concurrency = (key1, 1) ∷ [];
}

pool_acquires : acquire_key pool (pos 5) (pos 1) ≡ some (pool_in_use, key1)
unfolding acquire_key lookup insert retain text_eq unix ◌+ℤ◌ ◌-ℤ◌
pool_acquires = refl

key1_named : key1 ≢ []
key1_named e = cc

acquire_key-Grant_example : Grant pool (pos 5) (pos 1) pool_in_use key1
acquire_key-Grant_example =
    acquire_key-Grant pool pool_in_use (pos 5) (pos 1) key1 pool-IsValid pool_acquires key1_named

-- No slot is allowed, so no key is answered.
pool_refuses : acquire_key pool (pos 5) (pos 0) ≡ some (pool, [])
unfolding acquire_key lookup insert retain text_eq unix
pool_refuses = refl

acquire_key_refuses_example :
    (pool ≡ cleanup_expired pool (pos 5))
    × ((k : Text) → has_key k pool.active ≡ true → available pool (unix (pos 5)) (pos 0) k ≡ false)
unfolding has_key text_eq
acquire_key_refuses_example =
    acquire_key_refuses pool pool (pos 5) (pos 0) pool-IsValid refl pool_refuses

try_acquire_specific_key_iff_example :
    ((try_acquire_specific_key pool (pos 5) (codes " key2 ") (pos 0)).1 ≡ true) ↔ (
      (trim_space (codes " key2 ") ≢ [])
      × (has_key (trim_space (codes " key2 ")) pool.active ≡ true)
      × (available pool (unix (pos 5)) (at_least_one (pos 0)) (trim_space (codes " key2 ")) ≡ true))
try_acquire_specific_key_iff_example =
    try_acquire_specific_key_iff pool (pos 5) (pos 0) (codes " key2 ") pool-IsValid

pool_reached : Reach 1 new_scheduler (add_key (add_key new_scheduler key1 (pos 2)) key2 (pos 1))
pool_reached = next (next here (adds _ key1 (pos 2))) (adds _ key2 (pos 1))

in_use_reached : Reach 1 new_scheduler pool_in_use
in_use_reached =
    next pool_reached
      (acquires _ pool_in_use (pos 5) (pos 1) key1 (omega arith) (rw pool_built pool_acquires))

Reach-IsValid_example : IsValid pool_in_use
Reach-IsValid_example = Reach-IsValid in_use_reached

Reach-Within_example : Within 1 pool_in_use
Reach-Within_example = Reach-Within 1 pool_in_use (omega arith) in_use_reached

-- A reset and a new registration, after which the key that was killed is answered again.
abbrev killed : Scheduler
killed = mark_dead pool key1

revived : Reach 1 killed pool
unfolding add_key new_scheduler reset text_eq
revived =
    next (next (next here (resets killed)) (adds (reset killed) key1 (pos 2)))
      (adds (add_key (reset killed) key1 (pos 2)) key2 (pos 1))

-- A run without a reset: the other key is released.
abbrev still_dead : Reach 1 killed (release_key killed key2)
still_dead = next here (releases killed key2)

mark_dead_excludes_example :
    acquire_key (release_key killed key2) (pos 5) (pos 1) ≢ some (pool_in_use, key1)
mark_dead_excludes_example =
    mark_dead_excludes pool_in_use (pos 5) (pos 1) key1 still_dead pool-IsValid refl key1_named

abbrev cooled : Scheduler
cooled = record pool { cooling = (key1, pos 3) ∷ (key2, pos 60) ∷ [] }

cooled-IsValid : IsValid cooled
unfolding text_eq
cooled-IsValid = record {
  active = pool-IsValid.active;
  cooling = ((refl, tt), (tt, tt));
  dead = tt;
  concurrency = tt;
}
