-- ===== src/Analyser/Stream/Examples.antt =====
-- scripts/i2s-skew.py: the capture at concrete inputs.
use esphome_snapcast.Base.{
  ℕ, ◌≡◌, refl, min, true, false, none, some, List, [], ◌∷◌, ◌++◌, arith, map, concat,
}
use esphome_snapcast.Analyser.Stream.Blocks.{
  Args, Acquisition, not_sustained, acquire, is_short, is_claim_error, expected_blocks,
  stream_blocks, blocks_of, fill_block,
}
use esphome_snapcast.Analyser.Stream.Reads.{IsPipe, IsAcquired, acquire-IsAcquired}
use esphome_snapcast.Analyser.Stream.Starvation.{
  three_in_row, raised_if, shortness, NoClaimError, stream_blocks-three_in_row,
}
use esphome_snapcast.Analyser.Stream.Reader.{
  State, new_state, block, failure, check_error, get, Event, arrived, failed, returned, raised,
  silent, cause, latched, closing, stream_ended, set_done, time_out, check_done, on_check_done,
  fire, Reach, start, next, on_block, on_failure, on_check_error, get_from, on_get,
}
use esphome_snapcast.Analyser.Stream.Schedules.{IsFair, Reach-IsFair}
use esphome_snapcast.Analyser.Stream.Latching.{IsJustified, Reach-raised}

-- Reads of at most three bytes.
abbrev by_three : List ℕ → ℕ → ℕ
by_three pipe n = min n 3

by_three-IsPipe : IsPipe by_three
by_three-IsPipe = record {
  bounded = λ pipe n. omega arith;
  progress = λ pipe n some_left asked. omega arith;
}

abbrev seven_bytes : List ℕ
seven_bytes = 1 ∷ 2 ∷ 3 ∷ 4 ∷ 5 ∷ 6 ∷ 7 ∷ []

abbrev small : Args
small = record { samples = 2; stream_ms = 1000; rate_hz = 20 }

two_by_two :
    (acquire by_three 2 8 seven_bytes).blocks ≡ (1 ∷ 2 ∷ []) ∷ (3 ∷ 4 ∷ []) ∷ (5 ∷ 6 ∷ []) ∷ []
unfolding acquire fill_block
two_by_two = refl

acquire-IsAcquired_example :
    IsAcquired by_three by_three-IsPipe 2 seven_bytes (acquire by_three 2 8 seven_bytes)
acquire-IsAcquired_example =
    acquire-IsAcquired by_three by_three-IsPipe 2 8 seven_bytes (omega arith) (omega arith)

abbrev quiet : Acquisition ℕ
quiet = record { stdout = seven_bytes; err = "Device only sent 7 samples" }

abbrev three_quiet : List (Acquisition ℕ)
three_quiet = quiet ∷ quiet ∷ quiet ∷ []

three_quiet-NoClaimError : NoClaimError by_three small three_quiet
unfolding is_claim_error
three_quiet-NoClaimError = (refl, (refl, (refl, tt)))

gives_up : (stream_blocks by_three small 0 three_quiet).raised ≡ some not_sustained
unfolding stream_blocks is_claim_error is_short expected_blocks acquire fill_block
gives_up = refl

stream_blocks-three_in_row_example :
    let run = stream_blocks by_three small 0 three_quiet in
    (run.raised ≡ raised_if (three_in_row (shortness by_three small three_quiet)))
    × (run.raised ≡ none → run.blocks ≡ concat (map (blocks_of by_three small) three_quiet))
stream_blocks-three_in_row_example =
    stream_blocks-three_in_row by_three small three_quiet three_quiet-NoClaimError

-- The queue has room for one block: the second one is dropped, the first one is taken.
abbrev one_taken : State ℕ
one_taken = record new_state { dropped = 1 }

one_taken-Reach : Reach 1 (returned 5 ∷ silent ∷ arrived 6 false ∷ arrived 5 true ∷ []) one_taken
unfolding fire on_block on_check_error get_from on_get new_state
one_taken-Reach =
    next (next (next (next start (block 5) refl) (block 6) refl) check_error refl) get refl

Reach-IsFair_example :
    IsFair 1 (returned 5 ∷ silent ∷ arrived 6 false ∷ arrived 5 true ∷ []) one_taken
Reach-IsFair_example = Reach-IsFair 1 _ one_taken one_taken-Reach

abbrev seven_failures : List (Event ℕ)
seven_failures =
    failed "g" ∷ failed "f" ∷ failed "e" ∷ failed "d" ∷ failed "c" ∷ failed "b" ∷ failed "a" ∷ []

abbrev given_up : State ℕ
given_up = record new_state { restarts = 7; error = some "g"; reader = latched }

seven_failures-Reach : Reach 16 seven_failures given_up
unfolding fire on_failure new_state
seven_failures-Reach =
    next
      (next
        (next
          (next (next (next (next start (failure "a") refl) (failure "b") refl) (failure "c") refl)
            (failure "d") refl)
          (failure "e") refl)
        (failure "f") refl)
      (failure "g") refl

given_up-Reach : Reach 16 (raised (cause "g") ∷ seven_failures) given_up
unfolding fire on_check_error new_state
given_up-Reach = next seven_failures-Reach check_error refl

Reach-raised_example : IsJustified (cause "g") seven_failures
Reach-raised_example = Reach-raised 16 seven_failures given_up (cause "g") given_up-Reach

-- The consumer waits through the latching: it learns that the stream ended, and not why.
gave_up_in_wait :
    Reach 16
      (raised stream_ended ∷ silent ∷ silent ∷ (seven_failures ++ silent ∷ []))
      (record given_up { done = true; reader = closing })
unfolding fire on_check_error on_failure on_check_done new_state
gave_up_in_wait =
    next
      (next
        (next
          (next
            (next
              (next
                (next
                  (next
                    (next (next (next start check_error refl) (failure "a") refl) (failure "b")
                      refl)
                    (failure "c") refl)
                  (failure "d") refl)
                (failure "e") refl)
              (failure "f") refl)
            (failure "g") refl)
          time_out refl)
        set_done refl)
      check_done refl
