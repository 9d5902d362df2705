-- ===== src/SerialLog/Examples.antt =====
-- scripts/serial-log.py at concrete inputs.
use esphome_snapcast.Base.{◌≡◌, refl, true, false, List, [], ◌∷◌}
use esphome_snapcast.SerialLog.Lines.{split_once, take_lines, rstrip_cr}
use esphome_snapcast.SerialLog.Port.{
  Errno, Attempt, Read, Round, Output, Outcome, emit_lines, on_chunk, log_round, log_rounds, start,
}
use esphome_snapcast.SerialLog.Logged.{IsLogged, received}
use esphome_snapcast.SerialLog.Runs.{log_rounds-lines}

-- The device resets within a line: `ab`, then `c` and a newline behind the reset.
abbrev reset : List Round
reset =
    record { attempt = Attempt.missing; read = Read.chunk [] }
    ∷ record { attempt = Attempt.opened false true; read = Read.chunk (97 ∷ 98 ∷ []) }
    ∷ record { attempt = Attempt.missing; read = Read.failed Errno.eagain }
    ∷ record { attempt = Attempt.missing; read = Read.chunk [] }
    ∷ record { attempt = Attempt.refused Errno.ebusy; read = Read.chunk [] }
    ∷ record { attempt = Attempt.opened false false; read = Read.chunk (99 ∷ 13 ∷ 10 ∷ 100 ∷ []) }
    ∷ []

runs_on :
    log_rounds (start true) reset
    ≡ Outcome.going
        (record { is_open = true; pending = 100 ∷ []; sink = true })
        (Output.attached
          ∷ Output.detached_eof
          ∷ Output.stty_failed
          ∷ Output.attached
          ∷ Output.printed (97 ∷ 98 ∷ 99 ∷ [])
          ∷ Output.written (97 ∷ 98 ∷ 99 ∷ [])
          ∷ [])
unfolding log_rounds log_round on_chunk split_once take_lines rstrip_cr emit_lines
runs_on = refl

log_rounds-lines_example :
    IsLogged true (received (start true) reset) (log_rounds (start true) reset)
log_rounds-lines_example = log_rounds-lines true reset
