-- ===== src/Drain/Tests.antt =====
-- A piece that is passed on, and then a silence.
use nvidia_api_gateway.Prelude.{true, [], ◌∷◌, ◌≡◌, refl}
use nvidia_api_gateway.Prelude.Text.{codes}
use nvidia_api_gateway.Drain.{
  no_error, end_of_file, ChunkReadResult, drain_idle_timeout, offering, leaving, Drain, start,
  on_result, on_read_error, hand_over, Run, here, then_step, read, give, time_out,
}
use nvidia_api_gateway.Drain.Ends.{Sound, Run-Sound, Returns, drain-Returns}

abbrev piece : ChunkReadResult
piece = record { data_read = codes "data: hi"; err = no_error }

abbrev last_piece : ChunkReadResult
last_piece = record { data_read = []; err = end_of_file }

abbrev offered : Drain
offered = record start { reader = offering piece }

abbrev given : Drain
given = hand_over offered piece true

abbrev silent : Drain
silent = record given { loop = leaving drain_idle_timeout }

silent-Run : Run start silent
unfolding hand_over on_result on_read_error
silent-Run =
    then_step given silent
      (then_step offered given (then_step start offered here (read piece refl))
        (give piece true refl refl))
      (time_out refl)

delivered_once : silent.delivered ≡ codes "data: hi" ∷ []
unfolding hand_over
delivered_once = refl

Run-Sound_example : Sound silent
Run-Sound_example = Run-Sound silent silent-Run

drain-Returns_example : Returns silent drain_idle_timeout
drain-Returns_example = drain-Returns silent drain_idle_timeout last_piece refl
