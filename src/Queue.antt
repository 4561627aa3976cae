-- ===== src/Queue.antt =====
-- Waiting for a key: acquireKeyWithQueue of pkg/gateway/proxy.go. Between two rounds of its loop other
-- requests use the scheduler, so each round has a scheduler, an instant and the channel that its
-- select takes; a run that has no further round is still waiting. Writes to the client and the
-- restoring of keys are actions.
pub mod Granted
mod Tests
use nvidia_api_gateway.Prelude.{
  ℕ, Bool, true, false, not, ◌&&◌, ◌||◌, Option, none, some, List, [], ◌∷◌, ◌++◌, if◌then◌else◌,
}
use nvidia_api_gateway.Prelude.Int.{ℤ, pos, leb_ℤ}
use nvidia_api_gateway.Prelude.Text.{Text, codes, is_empty}
use nvidia_api_gateway.Scheduler.{Scheduler, acquire_key}

-- ctx.Done with its error, timeout, keepAliveTicker and pollTicker.
pub data Signal : Type 0 where
  cancelled : Text → Signal
  timed_out : Signal
  keep_alive_tick : Signal
  poll_tick : Signal

pub record Round : Type 0 where
  pub scheduler : Scheduler
  pub now : ℤ
  pub signal : Signal

pub data QueueAction : Type 0 where
  -- RestoreRecoverableStatuses
  restore : QueueAction
  -- the headers of the event stream, with a flush
  send_headers : QueueAction
  write_keep_alive : QueueAction

-- A key with the scheduler after it was acquired, or an error.
pub data QueueResult : Type 0 where
  acquired : Text → Scheduler → QueueResult
  failed : Text → QueueResult

-- What a select does: the result, or another round and whether a comment is written.
pub data Wait : Type 0 where
  over : QueueResult → Wait
  again : List QueueAction → Wait

unfoldable pub on_signal : Bool → Signal → Wait
on_signal headers_sent (cancelled message) = over (failed message)
on_signal headers_sent timed_out = over (failed (codes "queue timeout"))
on_signal headers_sent keep_alive_tick = again (if headers_sent then write_keep_alive ∷ [] else [])
on_signal headers_sent poll_tick = again []

-- `early` stands for allowEarlyHeaders with a writer that can flush. The result none is a run that
-- waits on, or a panic of the scheduler.
module _ (early : Bool) (max_concurrency : ℤ) where
  unfoldable pub queue_loop :
      List Round → Bool → Bool → List QueueAction → Option QueueResult × List QueueAction
  unfolding on_signal
  queue_loop [] headers_sent recovery_attempted done = (none, done)
  queue_loop (r ∷ rs) headers_sent recovery_attempted done =
      elim (acquire_key r.scheduler r.now max_concurrency) [
        | none ↦ (none, done)
        | some (s, key) ↦
            if not (is_empty key)
            then (some (acquired key s), done)
            else if not recovery_attempted
            then queue_loop rs headers_sent true (done ++ restore ∷ [])
            else let opens = early && not headers_sent in
              let done' = if opens then done ++ send_headers ∷ [] else done in
              elim (on_signal (headers_sent || opens) r.signal) [
                | over result ↦ (some result, done')
                | again actions ↦ queue_loop rs (headers_sent || opens) true (done' ++ actions)
              ]
      ]

  unfoldable pub acquire_key_with_queue_from : List Round → Option QueueResult × List QueueAction
  unfolding queue_loop
  acquire_key_with_queue_from rounds = queue_loop rounds false false []

unfoldable pub acquire_key_with_queue :
    Bool → ℤ → List Round → Option QueueResult × List QueueAction
unfolding acquire_key_with_queue_from
acquire_key_with_queue early max_concurrency rounds =
    acquire_key_with_queue_from early
      (if leb_ℤ max_concurrency (pos 0) then pos 3 else max_concurrency) rounds
