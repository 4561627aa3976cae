-- ===== src/Redis/Agreement.antt =====
-- The scheduler over a server against the scheduler without a client: from states that agree, the
-- calls answer alike and leave states that agree.
use nvidia_api_gateway.Prelude.{suc, ◌≡◌, sym, ap, ◌∙◌, not, some, [], arith}
use nvidia_api_gateway.Prelude.Int.{ℤ, pos, ◌+ℤ◌, ◌≤ℤ◌, leb_ℤ}
use nvidia_api_gateway.Prelude.Text.{Text, text_eq_refl}
use nvidia_api_gateway.Prelude.Maps.{
  Fresh, Distinct, lookup, insert, lookup-insert, lookup-retain, retain-Distinct,
}
use nvidia_api_gateway.Scheduler.{
  Scheduler, unix, cleanup_expired, available, concurrency_of, is_dead, cools, or_zero,
}
use nvidia_api_gateway.Scheduler.Acquire.{available-cleanup_expired}
use nvidia_api_gateway.Redis.{View, Redis, update, is_cool, usable, lock_ttl}
use nvidia_api_gateway.Redis.Loop.{items_of}

-- From `now` on, in seconds, the server and the scheduler without a client have the same keys in the
-- same order with the same weights, the same dead keys, the same cooling keys and the same counters.
pub record Agrees (now : ℤ) (v : View) (s : Scheduler) : Type 0 where
  pub active : s.active ≡ items_of v.weights v.active
  pub dead : (k : Text) → is_dead s k ≡ v.dead k
  pub cooling :
      (k : Text) (t : ℤ) → now ≤ℤ t → cools t (lookup k s.cooling) ≡ not (is_cool t (v.cooling k))
  pub counts : (k : Text) → concurrency_of s k ≡ or_zero (v.counts k)
  pub one_each : Distinct s.cooling
  pub named : Fresh [] v.active

pub usable-available :
    (now max : ℤ) (v : View) (s : Scheduler) (k : Text)
    → Agrees (unix now) v s
    → usable v (unix now) max k ≡ available (cleanup_expired s now) (unix now) max k
unfolding usable available
usable-available now max v s k a =
    let plain : usable v (unix now) max k ≡ available s (unix now) max k =
      ground (arith, a.dead k, a.cooling k (unix now), a.counts k) in
    plain ∙ sym (available-cleanup_expired s now max k a.one_each)

pub cleanup_expired-Agrees :
    (now : ℤ) (v : View) (s : Scheduler)
    → Agrees (unix now) v s
    → Agrees (unix now) v (cleanup_expired s now)
unfolding cleanup_expired
cleanup_expired-Agrees now v s a = record {
  active = a.active;
  dead = a.dead;
  cooling = λ k t h. ground (
    arith,
    a.cooling k t h,
    lookup-retain (λ (u : ℤ). leb_ℤ (unix now) u) k s.cooling a.one_each,
  );
  counts = a.counts;
  one_each = retain-Distinct (λ (u : ℤ). leb_ℤ (unix now) u) s.cooling a.one_each;
  named = a.named;
}

module _ (server : Redis) where
  open server use {State, view, incr, incr_lem, expire, expire_lem}

  -- INCR and EXPIRE of a counter.
  pub view-counted :
      (r : State) (key : Text)
      → view (expire (incr r key) key lock_ttl) ≡ record (view r) {
        counts = update (view r).counts key (some (suc (or_zero ((view r).counts key))));
        deadlines = update (view r).deadlines key (some ((view r).clock +ℤ pos lock_ttl));
      }
  view-counted r key =
      let n = suc (or_zero ((view r).counts key)) in
      let counted : (view (incr r key)).counts key ≡ some n =
        ap (λ (v : View). v.counts key) (incr_lem r key) ∙ ground (arith, text_eq_refl key) in
      expire_lem (incr r key) key lock_ttl n counted
      ∙ ap
          (λ (v : View). record v {
            deadlines = update v.deadlines key (some (v.clock +ℤ pos lock_ttl));
          })
          (incr_lem r key)

  -- One more request for a key, on both sides.
  pub counted-Agrees :
      (now : ℤ) (r : State) (s : Scheduler) (key : Text)
      → Agrees now (view r) s
      → Agrees now
          (view (expire (incr r key) key lock_ttl))
          (record s { concurrency = insert key (suc (concurrency_of s key)) s.concurrency })
  counted-Agrees now r s key a = rw (view-counted r key) (record {
    active = a.active;
    dead = a.dead;
    cooling = a.cooling;
    counts = λ k. ground (
      arith,
      a.counts k,
      a.counts key,
      lookup-insert key k (suc (concurrency_of s key)) s.concurrency,
    );
    one_each = a.one_each;
    named = a.named;
  })
