-- ===== src/Redis/Expiry.antt =====
-- The counters of a server expire: a request that a key serves is forgotten after the life of the lock.
use nvidia_api_gateway.Prelude.{
  ℕ, ◌≤◌, ◌≡◌, ◌≢◌, ap, ◌∙◌, inl, inr, true, Option, none, some, arith, Bool-cases, [],
}
use mathlib.Core.Path.{subst}
use nvidia_api_gateway.Prelude.Int.{ℤ, pos, ◌+ℤ◌, ◌-ℤ◌, +ℤ_parts}
use nvidia_api_gateway.Prelude.Text.{Text, text_eq, text_eq_iff, text_eq_refl}
use nvidia_api_gateway.Scheduler.{unix}
use nvidia_api_gateway.Redis.{
  View, Redis, is_past, elapsed, Locals, nothing_yet, lock_ttl, lua_loop, lua_settle,
  redis_acquire_key,
}
use nvidia_api_gateway.Redis.Agreement.{view-counted}

abbrev key_or_empty : Option Text → Text
key_or_empty none = []
key_or_empty (some k) = k

past_deadline :
    (clock : ℤ) (ttl d : ℕ) → ttl ≤ d → is_past (clock +ℤ pos d) (some (clock +ℤ pos ttl)) ≡ true
past_deadline clock ttl d h = ground (arith, +ℤ_parts clock (pos d), +ℤ_parts clock (pos ttl))

module _ (server : Redis) where
  open server use {State, view, hincrbyfloat, incr, expire, elapse, elapse_lem}

  -- A counter right after INCR and EXPIRE, when its life has passed.
  expired :
      (r : State) (key : Text) (d : ℕ)
      → lock_ttl ≤ d
      → (view (elapse (expire (incr r key) key lock_ttl) d)).counts key ≡ none
  expired r key d h =
      ap (λ (v : View). v.counts key) (elapse_lem (expire (incr r key) key lock_ttl) d)
      ∙ (ap (λ (v : View). (elapsed v d).counts key) (view-counted server r key)
          ∙ ground (arith, text_eq_refl key, past_deadline (view r).clock lock_ttl d h))

  settle-expired :
      (r : State) (l : Locals) (key : Text) (d : ℕ)
      → (lua_settle server r l).1 ≡ key
      → key ≢ []
      → lock_ttl ≤ d
      → (view (elapse (lua_settle server r l).0 d)).counts key ≡ none
  unfolding lua_settle
  settle-expired r l key d e named h = elim (Bool-cases (text_eq l.selected_key [])) [
    | inl blank ↦ absurd (named (ground (arith, text_eq_iff l.selected_key [])))
    | inr some_key ↦
        let same : l.selected_key ≡ key = ground arith in
        rw some_key (
          subst
            (λ k.
              (view (
                  elapse
                    (expire
                      (incr (hincrbyfloat r l.selected_key (pos 0 -ℤ l.total_weight))
                        l.selected_key)
                      l.selected_key lock_ttl)
                    d)).counts
                k
              ≡ none)
            same
            (expired (hincrbyfloat r l.selected_key (pos 0 -ℤ l.total_weight)) l.selected_key d h))
  ]

  -- When AcquireKey over a server has answered with a non-empty key, and 60 seconds or more pass with
  -- no other call, no counter of the key is left: every request that the key serves is forgotten,
  -- whether it has ended or not.
  pub redis_acquire_key-forgets :
      (r : State) (now max : ℤ) (key : Text) (d : ℕ)
      → (redis_acquire_key server r now max).1 ≡ some key
      → key ≢ []
      → lock_ttl ≤ d
      → (view (elapse (redis_acquire_key server r now max).0 d)).counts key ≡ none
  unfolding redis_acquire_key
  redis_acquire_key-forgets r now max key d e named h =
      let (looped, locals) = lua_loop server (unix now) max (view r).active r nothing_yet in
      settle-expired looped locals key d (ap key_or_empty e) named h
