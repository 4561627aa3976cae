-- ===== src/Redis/Calls.antt =====
-- The calls over a server against the same calls without a client, all but AcquireKey.
use nvidia_api_gateway.Prelude.{
  ℕ, zero, suc, ◌-◌, ◌≡◌, refl, sym, ap, ◌∙◌, inl, inr, true, Option, none, some, List, [], ◌∷◌,
  arith, if◌then◌else◌, ltb, Bool-cases,
}
use nvidia_api_gateway.Prelude.Int.{ℤ, pos, ◌+ℤ◌, ◌≤ℤ◌}
use nvidia_api_gateway.Prelude.Text.{Text, text_eq, trim_space}
use nvidia_api_gateway.Prelude.Maps.{lookup, insert, lookup-insert, insert-Distinct}
use nvidia_api_gateway.Scheduler.{
  Scheduler, unix, cleanup_expired, concurrency_of, is_some, has_key, release_key,
  try_acquire_specific_key, mark_cooling,
}
use nvidia_api_gateway.Scheduler.Lifecycle.{at_least_one}
use nvidia_api_gateway.Redis.{
  View, Redis, usable, lock_ttl, lua_try_acquire_specific_key, lua_release_key,
  redis_try_acquire_specific_key, redis_release_key, redis_mark_cooling,
}
use nvidia_api_gateway.Redis.Loop.{items_of}
use nvidia_api_gateway.Redis.Agreement.{
  Agrees, usable-available, cleanup_expired-Agrees, counted-Agrees,
}

-- ZSCORE finds the keys of the list.
has_key-lookup :
    (f : Text → Option ℤ) (k : Text) (xs : List (Text × ℤ))
    → has_key k (items_of f xs) ≡ is_some (lookup k xs)
unfolding has_key lookup
has_key-lookup f k [] = refl
has_key-lookup f k ((j, w) ∷ xs) = ground (arith, has_key-lookup f k xs)

-- What holds from an instant on holds from a later one on.
pub Agrees-later :
    (now later : ℤ) (v : View) (s : Scheduler) → now ≤ℤ later → Agrees now v s → Agrees later v s
Agrees-later now later v s h a = record {
  active = a.active;
  dead = a.dead;
  cooling = λ k t g. a.cooling k t (omega arith);
  counts = a.counts;
  one_each = a.one_each;
  named = a.named;
}

module _ (server : Redis) where
  open server use {
    State, view, hset_cooling, hset_cooling_lem, incr, decr, decr_lem, expire, elapse, elapse_lem,
  }

  lua_try-usable :
      (r : State) (key : Text) (max now : ℤ)
      → lua_try_acquire_specific_key server r key max now ≡ (
          if is_some (lookup key (view r).active)
          then if usable (view r) now max key
            then (expire (incr r key) key lock_ttl, pos 1)
            else (r, pos 0)
          else (r, pos 0))
  unfolding lua_try_acquire_specific_key usable
  lua_try-usable r key max now = ground arith

  module _ (now : ℤ) (r : State) (s : Scheduler) (a : Agrees (unix now) (view r) s) where
    decremented-Agrees :
        (key : Text) (o : Option ℕ)
        → (view r).counts key ≡ o
        → Agrees (unix now) (view (lua_release_key server r key)) (
            if ltb 0 (concurrency_of s key)
            then record s { concurrency = insert key (concurrency_of s key - 1) s.concurrency }
            else s)
    unfolding lua_release_key
    decremented-Agrees key none e =
        let c : concurrency_of s key ≡ 0 = ground (arith, a.counts key) in rw (c, e) a
    decremented-Agrees key (some zero) e =
        let c : concurrency_of s key ≡ 0 = ground (arith, a.counts key) in rw (c, e) a
    decremented-Agrees key (some (suc n)) e =
        let c : concurrency_of s key ≡ suc n = ground (arith, a.counts key) in
        let pass : ltb 0 (suc n) ≡ true = ground arith in
        rw (c, e, pass, decr_lem r key n e)
          (record {
            active = a.active;
            dead = a.dead;
            cooling = a.cooling;
            counts = λ k. ground (arith, a.counts k, lookup-insert key k (suc n - 1) s.concurrency);
            one_each = a.one_each;
            named = a.named;
          })

    pub redis_release_key-Agrees :
        (key : Text) → Agrees (unix now) (view (redis_release_key server r key)) (release_key s key)
    unfolding redis_release_key lua_release_key release_key
    redis_release_key-Agrees key = elim (Bool-cases (text_eq key [])) [
      | inl blank ↦ rw blank a
      | inr named ↦ rw named (decremented-Agrees key ((view r).counts key) refl)
    ]

    pub redis_mark_cooling-Agrees :
        (key : Text) (duration : ℤ)
        → Agrees
            (unix now)
            (view (redis_mark_cooling server r now key duration))
            (mark_cooling s now key duration)
    unfolding redis_mark_cooling mark_cooling
    redis_mark_cooling-Agrees key duration =
        let until = unix (now +ℤ duration) in
        rw (hset_cooling_lem r key until) (record {
          active = a.active;
          dead = a.dead;
          cooling = λ k t h. ground (arith, a.cooling k t h, lookup-insert key k until s.cooling);
          counts = a.counts;
          one_each = insert-Distinct key until s.cooling a.one_each;
          named = a.named;
        })

    pub redis_try_acquire_specific_key-Agrees :
        (key : Text) (max : ℤ)
        → let (t, done) = try_acquire_specific_key s now key max in
          ((redis_try_acquire_specific_key server r now key max).1 ≡ some done)
          × Agrees (unix now) (view (redis_try_acquire_specific_key server r now key max).0) t
    unfolding redis_try_acquire_specific_key try_acquire_specific_key cleanup_expired
    redis_try_acquire_specific_key-Agrees raw_key max =
        let key = trim_space raw_key in
        let limit = at_least_one max in
        let b = cleanup_expired-Agrees now (view r) s a in
        let known : has_key key s.active ≡ is_some (lookup key (view r).active) =
          ap (has_key key) a.active ∙ has_key-lookup (view r).weights key (view r).active in
        let same = usable-available now limit (view r) s key a in
        elim (Bool-cases (text_eq key [])) [
          | inl blank ↦ rw blank (refl, a)
          | inr named ↦
              rw (named, lua_try-usable r key limit (unix now))
                (elim (Bool-cases (is_some (lookup key (view r).active))) [
                  | inr foreign ↦ rw (foreign, known ∙ foreign) (refl, b)
                  | inl ours ↦ elim (Bool-cases (usable (view r) (unix now) limit key)) [
                    | inr refused ↦ rw (ours, known ∙ ours, refused, sym same ∙ refused) (refl, b)
                    | inl let_in ↦
                        rw (ours, known ∙ ours, let_in, sym same ∙ let_in)
                          (refl, counted-Agrees server (unix now) r (cleanup_expired s now) key b)
                  ]
                ])
        ]
