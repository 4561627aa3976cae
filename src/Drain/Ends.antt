-- ===== src/Drain/Ends.antt =====
-- What holds in every state of a drain, and how it ends.
use mathlib.Core.Path.{subst}
use nvidia_api_gateway.Prelude.{
  suc, Bool, true, false, List, [], ◌∷◌, ◌++◌, if◌then◌else◌, ◌≡◌, refl, sym, ap, ◌∙◌, arith, inl,
  inr, Bool-cases,
}
use nvidia_api_gateway.Prelude.Text.{Text}
use nvidia_api_gateway.Drain.{
  ChunkReadResult, DrainState, Reader, reading, offering, exited, Loop, waiting, leaving, returned,
  Drain, start, on_read_error, on_result, pieces, do_abort, hand_over, Step, read, give, give_up,
  time_out, cancel, abort, finish, Run, here, then_step,
}

-- The pieces in these results, the empty ones left out.
abbrev pub pieces_of : List ChunkReadResult → List Text
pieces_of [] = []
pieces_of (rr ∷ rest) = pieces rr.data_read ++ pieces_of rest

append_nil : (xs : List Text) → xs ++ [] ≡ xs
append_nil [] = refl
append_nil (x ∷ xs) = ap (x ∷◌) (append_nil xs)

append_assoc : (xs ys zs : List Text) → (xs ++ ys) ++ zs ≡ xs ++ (ys ++ zs)
append_assoc [] ys zs = refl
append_assoc (x ∷ xs) ys zs = ap (x ∷◌) (append_assoc xs ys zs)

pieces_of-append :
    (xs : List ChunkReadResult) (rr : ChunkReadResult)
    → pieces_of (xs ++ rr ∷ []) ≡ pieces_of xs ++ pieces rr.data_read
pieces_of-append [] rr = append_nil (pieces rr.data_read)
pieces_of-append (x ∷ xs) rr =
    ap (pieces x.data_read ++◌) (pieces_of-append xs rr)
    ∙ sym (append_assoc (pieces x.data_read) (pieces_of xs) (pieces rr.data_read))

abbrev pub is_returned : Loop → Bool
is_returned (returned s) = true
is_returned _ = false

abbrev is_waiting : Loop → Bool
is_waiting waiting = true
is_waiting _ = false

abbrev pub is_exited : Reader → Bool
is_exited exited = true
is_exited _ = false

-- What holds in every state that a drain reaches.
pub record Sound (d : Drain) : Type 0 where
  -- every piece that was taken went to the caller once and in order, and no other
  pub in_order : d.delivered ≡ pieces_of d.taken
  -- the body is closed exactly once if the reader was told to stop, and not before
  pub closed : d.closes ≡ (if d.aborted then 1 else 0)
  -- the loop never waits after it has told the reader to stop, nor for a reader that is gone
  pub busy : is_waiting d.loop ≡ true → (d.aborted ≡ false) × (is_exited d.reader ≡ false)
  -- after the return nothing runs
  pub quiet : is_returned d.loop ≡ true → (d.aborted ≡ true) × (is_exited d.reader ≡ true)

give-Sound :
    (d : Drain) (rr : ChunkReadResult) (accepted : Bool)
    → d.loop ≡ waiting
    → Sound d
    → Sound (hand_over d rr accepted)
unfolding hand_over on_result on_read_error
give-Sound d rr accepted w s = record {
  in_order = ap (λ xs. xs ++ pieces rr.data_read) s.in_order ∙ sym (pieces_of-append d.taken rr);
  closed = s.closed;
  busy = ground (arith, s.busy (ap is_waiting w));
  quiet = ground (arith, s.busy (ap is_waiting w));
}

abbrev first_abort : Drain → Drain
first_abort d = record d { aborted = true; closes = suc d.closes }

abort_again : (d : Drain) → d.aborted ≡ true → do_abort d ≡ d
unfolding do_abort
abort_again d a = ap (λ b. if b then d else first_abort d) a

abort_first : (d : Drain) → d.aborted ≡ false → do_abort d ≡ first_abort d
unfolding do_abort
abort_first d a = ap (λ b. if b then d else first_abort d) a

abort-Sound : (d : Drain) (r : DrainState) → d.loop ≡ leaving r → Sound d → Sound (do_abort d)
abort-Sound d r l s = elim (Bool-cases d.aborted) [
  | inl a ↦ subst Sound (sym (abort_again d a)) s
  | inr a ↦ subst Sound (sym (abort_first d a)) (record {
    in_order = s.in_order;
    closed = ground (arith, s.closed);
    busy = λ w. absurd (ground arith);
    quiet = λ q. absurd (ground arith);
  })
]

Step-Sound : {d e : Drain} → Step d e → Sound d → Sound e
Step-Sound {d} (read rr r) s = record {
  in_order = s.in_order;
  closed = s.closed;
  busy = ground (arith, s.busy);
  quiet = ground (arith, s.quiet);
}
Step-Sound {d} (give rr accepted r w) s = give-Sound d rr accepted w s
Step-Sound {d} (give_up rr r a) s = record {
  in_order = s.in_order;
  closed = s.closed;
  busy = ground (arith, s.busy);
  quiet = ground (arith, s.quiet);
}
Step-Sound {d} (time_out w) s = record {
  in_order = s.in_order;
  closed = s.closed;
  busy = λ h. absurd (ground arith);
  quiet = λ h. absurd (ground arith);
}
Step-Sound {d} (cancel w) s = record {
  in_order = s.in_order;
  closed = s.closed;
  busy = λ h. absurd (ground arith);
  quiet = λ h. absurd (ground arith);
}
Step-Sound {d} (abort r l) s = abort-Sound d r l s
Step-Sound {d} (finish r l a x) s = record {
  in_order = s.in_order;
  closed = s.closed;
  busy = λ h. absurd (ground arith);
  quiet = λ h. (a, ap is_exited x);
}

start-Sound : Sound start
start-Sound = record {
  in_order = refl;
  closed = refl;
  busy = λ h. (refl, refl);
  quiet = λ h. absurd (ground arith);
}

-- In every state that drainOpenAIChunks reaches, whatever is read, answered by the caller, timed out or
-- cancelled, and in whatever order: the pieces given to the caller are those of the results taken, in
-- order, each once, without the empty ones; the body has been closed once if the reader was told to
-- stop, and otherwise not; the loop waits only for a reader that is there and was not told to stop;
-- and after the return the reader is gone.
pub Run-Sound : (d : Drain) → Run start d → Sound d
Run-Sound d here = start-Sound
Run-Sound d (then_step e f run step) = Step-Sound step (Run-Sound e run)

-- The ends of a drain that has decided to return.
abbrev pub Returns : Drain → DrainState → Type 0
Returns d s = (e : Drain) × Run d e × (e.loop ≡ returned s) × (e.delivered ≡ d.delivered)

Run-append : (d e f : Drain) → Run d e → Run e f → Run d f
Run-append d e f run here = run
Run-append d e f run (then_step g h rest step) = then_step g h (Run-append d e g run rest) step

gone-Returns :
    (d : Drain) (s : DrainState)
    → d.loop ≡ leaving s
    → d.aborted ≡ true
    → d.reader ≡ exited
    → Returns d s
gone-Returns d s l a x =
    (record d { loop = returned s }, then_step d _ here (finish s l a x), refl, refl)

offering-Returns :
    (d : Drain) (s : DrainState) (rr : ChunkReadResult)
    → d.loop ≡ leaving s
    → d.aborted ≡ true
    → d.reader ≡ offering rr
    → Returns d s
offering-Returns d s rr l a x =
    let d' : Drain = record d { reader = exited } in
    (
      record d' { loop = returned s },
      then_step d' _ (then_step d d' here (give_up rr x a)) (finish s l a refl),
      refl,
      refl,
    )

reading-Returns :
    (d : Drain) (s : DrainState) (rr : ChunkReadResult)
    → d.loop ≡ leaving s
    → d.aborted ≡ true
    → d.reader ≡ reading
    → Returns d s
reading-Returns d s rr l a x =
    let d' : Drain = record d { reader = offering rr } in
    let r = offering-Returns d' s rr l a refl in
    (r.0, Run-append d d' r.0 (then_step d d' here (read rr x)) r.1, r.2, r.3)

aborted-Returns :
    (d : Drain) (s : DrainState) (rr : ChunkReadResult)
    → d.loop ≡ leaving s
    → d.aborted ≡ true
    → (x : Reader) → d.reader ≡ x
    → Returns d s
aborted-Returns d s rr l a reading x = reading-Returns d s rr l a x
aborted-Returns d s rr l a (offering r) x = offering-Returns d s r l a x
aborted-Returns d s rr l a exited x = gone-Returns d s l a x

-- From every state in which drainOpenAIChunks has decided on a result, some run of the reader and the
-- deferred call makes it return that result, with no further piece given to the caller, once a
-- read that is under way gives something, which closing the body brings about.
pub drain-Returns :
    (d : Drain) (s : DrainState) (rr : ChunkReadResult) → d.loop ≡ leaving s → Returns d s
drain-Returns d s rr l = elim (Bool-cases d.aborted) [
  | inl a ↦ aborted-Returns d s rr l a _ refl
  | inr a ↦
      let r = aborted-Returns (first_abort d) s rr l refl _ refl in
      (
        r.0,
        Run-append d (first_abort d) r.0
            (subst (Run d) (abort_first d a) (then_step d (do_abort d) here (abort s l))) r.1,
        r.2,
        r.3,
      )
]
