-- ===== src/SerialLog/Port.antt =====
-- scripts/serial-log.py: one round of the loop of `main`. What the system calls return is data of
-- the round. The time before a line, and how its bytes decode, are left out.
use esphome_snapcast.Base.{Bool, true, false, ◌||◌, List, [], ◌∷◌, ◌++◌, if◌then◌else◌, length}
use esphome_snapcast.SerialLog.Lines.{Bytes, rstrip_cr, take_lines}

pub data Errno : Type 0 where
  enxio ebusy enoent eio eagain other : Errno

-- `if not os.path.exists(device)`, then `os.open` and the two calls of stty
pub data Attempt : Type 0 where
  missing : Attempt
  refused : Errno → Attempt
  opened : (f_accepted : Bool) → (big_f_accepted : Bool) → Attempt

-- `os.read`; a chunk of no bytes is the end of the file.
pub data Read : Type 0 where
  failed : Errno → Read
  chunk : Bytes → Read

pub record Round : Type 0 where
  pub attempt : Attempt
  pub read : Read

pub data Output : Type 0 where
  stty_failed attached detached_eof : Output
  detached : Errno → Output
  -- A line on the terminal, and one in the file of `--out`.
  printed : Bytes → Output
  written : Bytes → Output

-- `fd is not None`, `pending` and `sink is not None`
pub record Port : Type 0 where
  pub is_open : Bool
  pub pending : Bytes
  pub sink : Bool

-- A round goes on, or `os.open` raises what is not caught.
pub data Outcome : Type 0 where
  going : Port → List Output → Outcome
  raises : Errno → List Output → Outcome

abbrev pub comes_back : Errno → Bool
comes_back enxio = true
comes_back ebusy = true
comes_back enoent = true
comes_back eio = true
comes_back _ = false

abbrev pub would_block : Errno → Bool
would_block eagain = true
would_block _ = false

-- The `for ... else` over the two flags of stty
abbrev pub attach_notes : Bool → Bool → List Output
attach_notes f_accepted big_f_accepted =
    if f_accepted || big_f_accepted then attached ∷ [] else stty_failed ∷ attached ∷ []

abbrev pub close : Port → Port
close p = record p { is_open = false }

unfoldable pub emit_lines : Bool → List Bytes → List Output
emit_lines sink [] = []
emit_lines sink (raw ∷ raws) =
    let line = rstrip_cr raw in
    let rest = emit_lines sink raws in
    if sink then printed line ∷ written line ∷ rest else printed line ∷ rest

unfoldable pub on_chunk : Port → List Output → Bytes → Outcome
on_chunk p notes [] = going (close p) (notes ++ detached_eof ∷ [])
on_chunk p notes (b ∷ bs) =
    let pending = p.pending ++ b ∷ bs in
    let cut = take_lines (length pending) pending in
    going (record p { pending = cut.1 }) (notes ++ emit_lines p.sink cut.0)

-- `select` and `os.read`, with what the round has printed before.
unfoldable pub on_read : Port → List Output → Read → Outcome
unfolding on_chunk
on_read p notes (failed e) =
    if would_block e then going p notes else going (close p) (notes ++ detached e ∷ [])
on_read p notes (chunk bytes) = on_chunk p notes bytes

unfoldable pub on_attempt : Port → Attempt → Read → Outcome
on_attempt p missing read = going p []
on_attempt p (refused e) read = if comes_back e then going p [] else raises e []
on_attempt p (opened f big_f) read =
    on_read (record p { is_open = true }) (attach_notes f big_f) read

-- `while True`, once
unfoldable pub log_round : Port → Round → Outcome
unfolding on_attempt on_read
log_round p r = if p.is_open then on_read p [] r.read else on_attempt p r.attempt r.read

-- What was printed before an outcome.
abbrev pub prepend : List Output → Outcome → Outcome
prepend notes (raises e more) = raises e (notes ++ more)
prepend notes (going q more) = going q (notes ++ more)

-- `while True` over any rounds: what is printed, and the port, unless an exception ends it.
unfoldable pub log_rounds : Port → List Round → Outcome
log_rounds p [] = going p []
log_rounds p (r ∷ rs) = elim (log_round p r) [
  | raises e notes ↦ raises e notes
  | going q notes ↦ prepend notes (log_rounds q rs)
]

abbrev pub start : Bool → Port
start sink = record { is_open = false; pending = []; sink = sink }
