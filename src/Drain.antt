-- ===== src/Drain.antt =====
-- The reading of one streamed answer (pkg/gateway/stream_drain.go): the goroutine that reads, the
-- loop that hands each piece to the caller, and the channels between them, as steps of one state.
-- The unbuffered channel of results makes a hand-over one step of both sides. The pool of buffers is
-- left out: only the reader touches its buffer.
pub mod Ends
mod Tests
use nvidia_api_gateway.Prelude.{
  ℕ, suc, Bool, true, false, not, Option, none, some, List, [], ◌∷◌, ◌++◌, if◌then◌else◌, ◌≡◌,
}
use nvidia_api_gateway.Prelude.Text.{Text, is_empty}

-- The error of a read: none, io.EOF or another one.
pub data ReadError : Type 0 where
  no_error end_of_file read_failed : ReadError

pub record ChunkReadResult : Type 0 where
  pub data_read : Text
  pub err : ReadError

pub data DrainState : Type 0 where
  drain_eof drain_upstream_err drain_idle_timeout drain_context_canceled : DrainState

-- The goroutine: in reader.Read, at the select with a result, or gone, with readerDone closed.
pub data Reader : Type 0 where
  reading : Reader
  offering : ChunkReadResult → Reader
  exited : Reader

-- The function: at the select of its loop, in its deferred call with a result, or returned.
pub data Loop : Type 0 where
  waiting : Loop
  leaving : DrainState → Loop
  returned : DrainState → Loop

pub record Drain : Type 0 where
  pub reader : Reader
  pub loop : Loop
  -- abort is closed, and how often bodyCloser was closed
  pub aborted : Bool
  pub closes : ℕ
  -- the pieces given to onChunk
  pub delivered : List Text
  -- the results that the loop has taken
  pub taken : List ChunkReadResult

abbrev pub start : Drain
start = record {
  reader = reading;
  loop = waiting;
  aborted = false;
  closes = 0;
  delivered = [];
  taken = [];
}

-- The end of the loop for the error of a read, none for another round.
unfoldable pub on_read_error : ReadError → Option DrainState
on_read_error no_error = none
on_read_error end_of_file = some drain_eof
on_read_error read_failed = some drain_upstream_err

abbrev loop_after : Option DrainState → Loop
loop_after none = waiting
loop_after (some s) = leaving s

-- Where the loop stands after a result; `accepted` is the answer of onChunk.
unfoldable pub on_result : ChunkReadResult → Bool → Loop
unfolding on_read_error
on_result rr accepted =
    if not (is_empty rr.data_read)
    then if accepted then loop_after (on_read_error rr.err) else leaving drain_context_canceled
    else loop_after (on_read_error rr.err)

-- Where the reader stands after a result was taken.
abbrev pub reader_after : ReadError → Reader
reader_after no_error = reading
reader_after _ = exited

abbrev pub pieces : Text → List Text
pieces chunk = if not (is_empty chunk) then chunk ∷ [] else []

-- doAbort, which has an effect only once.
unfoldable pub do_abort : Drain → Drain
do_abort d = if d.aborted then d else record d { aborted = true; closes = suc d.closes }

unfoldable pub hand_over : Drain → ChunkReadResult → Bool → Drain
unfolding on_result
hand_over d rr accepted = record d {
  reader = reader_after rr.err;
  loop = on_result rr accepted;
  delivered = d.delivered ++ pieces rr.data_read;
  taken = d.taken ++ rr ∷ [];
}

-- One step of the goroutine or of the function.
pub data Step (d : Drain) : Drain → Type 0 where
  -- reader.Read returns
  read : (rr : ChunkReadResult) → d.reader ≡ reading → Step d (record d { reader = offering rr })
  -- the result goes over the channel; onChunk may answer anything
  give :
      (rr : ChunkReadResult) (accepted : Bool)
      → d.reader ≡ offering rr
      → d.loop ≡ waiting
      → Step d (hand_over d rr accepted)
  -- the reader's select sees abort
  give_up :
      (rr : ChunkReadResult)
      → d.reader ≡ offering rr
      → d.aborted ≡ true
      → Step d (record d { reader = exited })
  time_out : d.loop ≡ waiting → Step d (record d { loop = leaving drain_idle_timeout })
  cancel : d.loop ≡ waiting → Step d (record d { loop = leaving drain_context_canceled })
  abort : (s : DrainState) → d.loop ≡ leaving s → Step d (do_abort d)
  -- <-readerDone
  finish :
      (s : DrainState)
      → d.loop ≡ leaving s
      → d.aborted ≡ true
      → d.reader ≡ exited
      → Step d (record d { loop = returned s })

-- A run from one state to another, the latest step last.
pub data Run (d : Drain) : Drain → Type 0 where
  here : Run d d
  then_step : (e f : Drain) → Run d e → Step e f → Run d f
