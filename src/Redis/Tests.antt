-- ===== src/Redis/Tests.antt =====
-- A server in memory, runs of the scripts on it, and the theorems at concrete states.
use nvidia_api_gateway.Prelude.{ℕ, suc, ◌-◌, ◌≡◌, refl, ap, true, false, none, some, [], ◌∷◌, arith}
use nvidia_api_gateway.Prelude.Int.{ℤ, pos, negsuc, ◌+ℤ◌, ◌-ℤ◌}
use nvidia_api_gateway.Prelude.Text.{Text, codes, text_eq}
use nvidia_api_gateway.Prelude.Maps.{Distinct, lookup, insert, retain}
use nvidia_api_gateway.Scheduler.{Scheduler, or_zero, unix, acquire_key}
use nvidia_api_gateway.Redis.{View, Redis, update, or_zero_ℤ, elapsed, redis_acquire_key}
use nvidia_api_gateway.Redis.Loop.{items_of}
use nvidia_api_gateway.Redis.Agreement.{Agrees}
use nvidia_api_gateway.Redis.Runs.{
  acquire, key, redis_call, SameCall, Together, here, called, redis_call-SameCall,
}
use nvidia_api_gateway.Redis.Expiry.{redis_acquire_key-forgets}

-- A server whose state is what it answers.
record Memory : Type 0 where
  seen : View
  distinct : Distinct seen.active

abbrev counted : View → Text → ℕ → View
counted v k n = record v { counts = update v.counts k (some n) }

memory_decr_lem :
    (m : Memory) (k : Text) (n : ℕ)
    → m.seen.counts k ≡ some (suc n)
    → counted m.seen k (or_zero (m.seen.counts k) - 1) ≡ counted m.seen k n
memory_decr_lem m k n e =
    let less : or_zero (m.seen.counts k) - 1 ≡ n = rw e (omega arith) in ap (counted m.seen k) less

abbrev memory : Redis
memory = record {
  State = Memory;
  view = λ m. m.seen;
  hset_weight = λ m k w. record {
    seen = record (m.seen) { weights = update m.seen.weights k (some w) };
    distinct = m.distinct;
  };
  hset_cooling = λ m k t. record {
    seen = record (m.seen) { cooling = update m.seen.cooling k (some t) };
    distinct = m.distinct;
  };
  hincrbyfloat = λ m k w. record {
    seen = record (m.seen) {
      weights = update m.seen.weights k (some (or_zero_ℤ (m.seen.weights k) +ℤ w));
    };
    distinct = m.distinct;
  };
  hdel_weight = λ m k. record {
    seen = record (m.seen) { weights = update m.seen.weights k none };
    distinct = m.distinct;
  };
  sadd_dead = λ m k. record {
    seen = record (m.seen) { dead = update m.seen.dead k true };
    distinct = m.distinct;
  };
  incr = λ m k. record {
    seen = counted m.seen k (suc (or_zero (m.seen.counts k)));
    distinct = m.distinct;
  };
  decr = λ m k. record {
    seen = counted m.seen k (or_zero (m.seen.counts k) - 1);
    distinct = m.distinct;
  };
  expire = λ m k ttl. record {
    seen = record (m.seen) {
      deadlines = update m.seen.deadlines k (some (m.seen.clock +ℤ pos ttl));
    };
    distinct = m.distinct;
  };
  elapse = λ m d. record { seen = elapsed m.seen d; distinct = m.distinct };
  members_distinct = λ m. m.distinct;
  hset_weight_lem = λ m k w. refl;
  hset_cooling_lem = λ m k t. refl;
  hincrbyfloat_lem = λ m k w. refl;
  hdel_weight_lem = λ m k. refl;
  sadd_dead_lem = λ m k. refl;
  incr_lem = λ m k. refl;
  decr_lem = λ m k n e. memory_decr_lem m k n e;
  expire_lem = λ m k ttl n e. refl;
  elapse_lem = λ m d. refl;
}

abbrev key1 : Text
key1 = codes "key1"

abbrev key2 : Text
key2 = codes "key2"

abbrev fresh_view : View
fresh_view = record {
  active = (key2, pos 5) ∷ (key1, pos 10) ∷ [];
  dead = λ k. false;
  weights = λ k. none;
  cooling = λ k. none;
  counts = λ k. none;
  deadlines = λ k. none;
  clock = pos 1_000;
}

fresh-Distinct : Distinct fresh_view.active
unfolding text_eq
fresh-Distinct = ((refl, tt), (tt, tt))

abbrev fresh_memory : Memory
fresh_memory = record { seen = fresh_view; distinct = fresh-Distinct }

abbrev fresh_scheduler : Scheduler
fresh_scheduler = record {
  active = items_of fresh_view.weights fresh_view.active;
  cooling = [];
  dead = [];
  concurrency = [];
}

fresh-Agrees : Agrees (pos 7) fresh_view fresh_scheduler
unfolding lookup text_eq
fresh-Agrees = record {
  active = refl;
  dead = λ k. refl;
  cooling = λ k t h. refl;
  counts = λ k. refl;
  one_each = tt;
  named = (refl, (refl, tt));
}

abbrev at_7 : ℤ
at_7 = pos 7_000_000_000

-- The program's own test of the weights: key1 is first, and key2 while key1 is full.
test_weights :
    let (m, k) = redis_acquire_key memory fresh_memory at_7 (pos 1) in
    (k ≡ some key1) × ((redis_acquire_key memory m at_7 (pos 1)).1 ≡ some key2)
unfolding redis_acquire_key unix text_eq ◌+ℤ◌ ◌-ℤ◌
test_weights = (refl, refl)

abbrev one_call : Scheduler
one_call = record fresh_scheduler {
  active =
      record { key = key2; weight = pos 5; current_weight = pos 5 }
      ∷ record { key = key1; weight = pos 10; current_weight = negsuc 4 }
      ∷ [];
  concurrency = (key1, 1) ∷ [];
}

after_one_call :
    Together memory fresh_memory fresh_scheduler
      (pos 7)
      (redis_call memory fresh_memory at_7 (acquire (pos 1))).0
      one_call
      (unix at_7)
unfolding acquire_key insert retain lookup text_eq unix ◌+ℤ◌ ◌-ℤ◌
after_one_call = called at_7 (acquire (pos 1)) one_call (key key1) here (omega arith) refl

redis_call-SameCall_example :
    SameCall memory
      (redis_call memory fresh_memory at_7 (acquire (pos 1))).0
      one_call
      (pos 8_000_000_000)
      (acquire (pos 1))
unfolding unix
redis_call-SameCall_example =
    redis_call-SameCall memory fresh_memory
      (redis_call memory fresh_memory at_7 (acquire (pos 1))).0 fresh_scheduler one_call (pos 7)
      (unix at_7) (pos 8_000_000_000) (acquire (pos 1)) fresh-Agrees after_one_call (omega arith)

-- The counter before the wait.
test_counted : (redis_acquire_key memory fresh_memory at_7 (pos 1)).0.seen.counts key1 ≡ some 1
unfolding redis_acquire_key unix text_eq ◌+ℤ◌ ◌-ℤ◌
test_counted = refl

redis_acquire_key-forgets_example :
    (elapsed (redis_acquire_key memory fresh_memory at_7 (pos 1)).0.seen 60).counts key1 ≡ none
unfolding redis_acquire_key unix text_eq ◌+ℤ◌ ◌-ℤ◌
redis_acquire_key-forgets_example =
    redis_acquire_key-forgets memory fresh_memory at_7 (pos 1) key1 60 refl (λ e. cc) (omega arith)
