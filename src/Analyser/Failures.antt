-- ===== src/Analyser/Failures.antt =====
-- scripts/i2s-skew.py: `CaptureFailures`, which bounds what a capture that keeps failing may cost.
-- A time is a number of clock ticks; the source only takes their differences, to print them.
use Prim.Native.String.{String}
use Prim.Native.Nat.{bit_and}
use text.Mathlib.Text.{◌==◌ as str_eq}
use esphome_snapcast.Base.{
  ℕ, zero, suc, ◌+◌, ◌-◌, ◌^◌, min, Bool, false, Option, none, some, leb, ◌==◌, if◌then◌else◌,
}

abbrev pub hard_limit : ℕ
hard_limit = 40

-- seconds
abbrev pub max_backoff : ℕ
max_backoff = 30

pub record CaptureFailures : Type 0 where
  pub limit : ℕ
  pub n : ℕ
  pub last : Option String
  pub first_at : Option ℕ

-- `reset`, which is also `ok`
unfoldable pub reset : CaptureFailures → CaptureFailures
reset f = record f { n = 0; last = none; first_at = none }

-- `self.limit = limit or self.HARD_LIMIT`: `None` and 0 take the default.
abbrev pub limit_or_default : Option ℕ → ℕ
limit_or_default none = hard_limit
limit_or_default (some zero) = hard_limit
limit_or_default (some (suc k)) = suc k

unfoldable pub new_failures : Option ℕ → CaptureFailures
new_failures limit = record { limit = limit_or_default limit; n = 0; last = none; first_at = none }

abbrev pub is_last : String → Option String → Bool
is_last msg none = false
is_last msg (some last) = str_eq msg last

abbrev pub or_now : ℕ → Option ℕ → Option ℕ
or_now now none = some now
or_now now (some t) = some t

-- The state behind one failure: a message that differs from the last begins a new run.
unfoldable pub count_failure : String → ℕ → CaptureFailures → CaptureFailures
count_failure msg now f =
    let run =
      if is_last msg f.last then f else record f { last = some msg; n = 0; first_at = some now } in
    record run { n = run.n + 1; first_at = or_now now run.first_at }

-- `if self.n & (self.n - 1) == 0`: the 1st, 2nd, 4th, 8th, … failure of a run is printed.
unfoldable pub is_printed : ℕ → Bool
is_printed n = bit_and n (n - 1) == 0

-- `min(2.0 ** min(self.n - 1, 16), self.MAX_BACKOFF)`, in seconds
unfoldable pub backoff : ℕ → ℕ
backoff n = min (2 ^ min (n - 1) 16) max_backoff

-- What `failed` ends in.
pub data Verdict : Type 0 where
  wait : ℕ → Verdict
  give_up : Verdict

-- `printed` counts the messages: that of a failure, and the last one of a loop that gives up.
pub record Reported : Type 0 where
  pub state : CaptureFailures
  pub printed : ℕ
  pub verdict : Verdict

unfoldable pub failed : String → ℕ → CaptureFailures → Reported
failed msg now f =
    let f' = count_failure msg now f in
    record {
      state = f';
      printed = (if is_printed f'.n then 1 else 0) + (if leb f'.limit f'.n then 1 else 0);
      verdict = if leb f'.limit f'.n then give_up else wait (backoff f'.n);
    }
