-- ===== src/Queue/Granted.antt =====
-- What a wait for a key ends with.
use mathlib.Core.Path.{subst}
use nvidia_api_gateway.Prelude.{
  Bool, true, false, not, ◌&&◌, ◌||◌, Option, none, some, List, [], ◌∷◌, ◌++◌, if◌then◌else◌, ◌≡◌,
  ◌≢◌, refl, sym, arith, Bool-cases, Option-cases, inl, inr, ◌⊎◌,
}
use nvidia_api_gateway.Prelude.Int.{ℤ, pos, leb_ℤ}
use nvidia_api_gateway.Prelude.Text.{Text, is_empty}
use nvidia_api_gateway.Scheduler.{Scheduler, acquire_key}
use nvidia_api_gateway.Scheduler.Invariant.{IsValid}
use nvidia_api_gateway.Scheduler.Limits.{Grant, acquire_key-Grant}
use nvidia_api_gateway.Queue.{
  Signal, cancelled, timed_out, keep_alive_tick, poll_tick, Round, QueueAction, restore,
  send_headers, QueueResult, acquired, failed, Wait, over, again, on_signal, queue_loop,
  acquire_key_with_queue_from, acquire_key_with_queue,
}

-- Every scheduler that the wait sees is valid.
abbrev pub AllValid : List Round → Type 0
AllValid [] = Unit
AllValid (r ∷ rs) = IsValid r.scheduler × AllValid rs

-- Some round grants this key and leaves this scheduler.
abbrev pub GrantedIn : List Round → ℤ → Text → Scheduler → Type 0
GrantedIn [] max key s = ⊥
GrantedIn (r ∷ rs) max key s = Grant r.scheduler r.now max s key ⊎ GrantedIn rs max key s

-- A key that is given out was granted in some round.
abbrev pub Justified : List Round → ℤ → Option QueueResult → Type 0
Justified rs max none = Unit
Justified rs max (some (failed message)) = Unit
Justified rs max (some (acquired key s)) = (is_empty key ≡ false) × GrantedIn rs max key s

Justified-later :
    (r : Round) (rs : List Round) (max : ℤ) (o : Option QueueResult)
    → Justified rs max o
    → Justified (r ∷ rs) max o
Justified-later r rs max none j = tt
Justified-later r rs max (some (failed message)) j = tt
Justified-later r rs max (some (acquired key s)) j = (j.0, inr j.1)

is_none_key : (key : Text) → is_empty key ≡ false → key ≢ []
is_none_key key h e = ground arith

module _ (early : Bool) (max : ℤ) where
  -- What a select makes of the wait.
  abbrev select_result :
      List Round → Bool → List QueueAction → Wait → Option QueueResult × List QueueAction
  select_result rs headers done (over result) = (some result, done)
  select_result rs headers done (again actions) =
      queue_loop early max rs headers true (done ++ actions)

  module _ (r : Round) (rs : List Round) where
    select-Justified :
        (headers : Bool) (done : List QueueAction) (signal : Signal)
        → ((headers' : Bool) (done' : List QueueAction)
            → Justified rs max (queue_loop early max rs headers' true done').0)
        → Justified (r ∷ rs) max (select_result rs headers done (on_signal headers signal)).0
    unfolding on_signal
    select-Justified headers done (cancelled message) ih = tt
    select-Justified headers done timed_out ih = tt
    select-Justified headers done keep_alive_tick ih = Justified-later r rs max _ (ih headers _)
    select-Justified headers done poll_tick ih = Justified-later r rs max _ (ih headers _)

    module _ (headers recovered : Bool) (done : List QueueAction) where
      stuck :
          acquire_key r.scheduler r.now max ≡ none
          → queue_loop early max (r ∷ rs) headers recovered done ≡ (none, done)
      unfolding queue_loop
      stuck e = rw (e, queue_loop) refl

      module _ (s : Scheduler) (key : Text)
          (e : acquire_key r.scheduler r.now max ≡ some (s, key)) where
        gives_key :
            is_empty key ≡ false
            → queue_loop early max (r ∷ rs) headers recovered done ≡ (some (acquired key s), done)
        unfolding queue_loop
        gives_key n = rw (e, n, queue_loop) refl

        restores :
            is_empty key ≡ true
            → recovered ≡ false
            → queue_loop early max (r ∷ rs) headers recovered done
              ≡ queue_loop early max rs headers true (done ++ restore ∷ [])
        unfolding queue_loop
        restores n c = rw (e, n, c, queue_loop) refl

        selects :
            is_empty key ≡ true
            → recovered ≡ true
            → queue_loop early max (r ∷ rs) headers recovered done
              ≡ select_result rs
                  (headers || (early && not headers))
                  (if early && not headers then done ++ send_headers ∷ [] else done)
                  (on_signal (headers || (early && not headers)) r.signal)
        unfolding queue_loop
        selects n c = rw (e, n, c, queue_loop) refl

  queue_loop-Justified :
      (rs : List Round) (headers recovered : Bool) (done : List QueueAction)
      → AllValid rs
      → Justified rs max (queue_loop early max rs headers recovered done).0
  unfolding queue_loop
  queue_loop-Justified [] headers recovered done v = tt
  queue_loop-Justified (r ∷ rs) headers recovered done v =
      let next = λ (h : Bool) (d : List QueueAction). queue_loop-Justified rs h true d v.1 in
      elim (Option-cases (acquire_key r.scheduler r.now max)) [
        | inl e ↦
            subst (λ x. Justified (r ∷ rs) max x.0) (sym (stuck r rs headers recovered done e)) tt
        | inr ((s, key), e) ↦ elim (Bool-cases (is_empty key)) [
          | inr n ↦
              subst (λ x. Justified (r ∷ rs) max x.0)
                (sym (gives_key r rs headers recovered done s key e n))
                (n, inl (acquire_key-Grant r.scheduler s r.now max key v.0 e (is_none_key key n)))
          | inl n ↦ elim (Bool-cases recovered) [
            | inr c ↦
                subst (λ x. Justified (r ∷ rs) max x.0)
                  (sym (restores r rs headers recovered done s key e n c))
                  (Justified-later r rs max _ (next headers _))
            | inl c ↦
                subst (λ x. Justified (r ∷ rs) max x.0)
                  (sym (selects r rs headers recovered done s key e n c))
                  (select-Justified r rs _ _ r.signal next)
          ]
        ]
      ]

-- The bound that acquireKeyWithQueue uses.
abbrev pub bound_of : ℤ → ℤ
bound_of max_concurrency = if leb_ℤ max_concurrency (pos 0) then pos 3 else max_concurrency

-- If acquireKeyWithQueue gives out a key, and every scheduler that its rounds saw was valid, then the
-- key is not empty and AcquireKey granted it in some round: it was registered, alive, not cooling and
-- stayed within the bound, or within 3 if that is not positive, and one more request is counted for it.
pub acquire_key_with_queue-Justified :
    (early : Bool) (max_concurrency : ℤ) (rounds : List Round)
    → AllValid rounds
    → Justified rounds
        (bound_of max_concurrency)
        (acquire_key_with_queue early max_concurrency rounds).0
unfolding acquire_key_with_queue acquire_key_with_queue_from
acquire_key_with_queue-Justified early max_concurrency rounds v =
    queue_loop-Justified early (bound_of max_concurrency) rounds false false [] v
