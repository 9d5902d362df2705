-- ===== src/SerialLog/Runs.antt =====
-- scripts/serial-log.py: what the loop of `main` prints over any rounds.
use mathlib.Core.List.{append_assoc, append-nil, map-append}
use esphome_snapcast.Base.{
  ◌≡◌, refl, ◌∙◌, ap, sym, inl, inr, Bool, true, false, List, [], ◌∷◌, ◌++◌, map, arith, length,
  Bool-cases,
}
use esphome_snapcast.SerialLog.Lines.{
  Bytes, rstrip_cr, take_lines, IsOneLine, joined, joined-append, AllOneLine-append, AreLines,
  take_lines-AreLines,
}
use esphome_snapcast.SerialLog.Port.{
  Errno, Attempt, Read, Round, Output, Port, Outcome, comes_back, would_block, attach_notes, close,
  emit_lines, prepend, on_chunk, on_read, on_attempt, log_round, log_rounds, start,
}
use esphome_snapcast.SerialLog.Logged.{
  bytes_read, bytes_if_open, received_in, received, notes_of, lines_printed, lines_written, if_sink,
  IsPending, IsLogged, lines_printed-append, lines_written-append, lines_printed-emit_lines,
  lines_written-emit_lines, IsSilent, attach_notes-IsSilent, none-IsSilent, IsSilent-append,
  quiet-IsLogged,
}

-- What one round does to a port with a line in hand: the same as of a whole run.
abbrev IsRound : Port → Bytes → List Output → Outcome → Type 0
IsRound p bytes notes o = IsLogged p.sink (p.pending ++ bytes) o

on_chunk-IsLogged :
    (p : Port) (notes : List Output) (bytes : Bytes)
    → IsOneLine p.pending
    → IsSilent notes
    → IsRound p bytes notes (on_chunk p notes bytes)
unfolding on_chunk
on_chunk-IsLogged p notes [] one quiet =
    quiet-IsLogged p.sink p (close p) (notes ++ Output.detached_eof ∷ []) one (refl, refl)
      (IsSilent-append quiet
        (unfold lines_printed lines_written in record { no_print = refl; no_write = refl }))
on_chunk-IsLogged p notes (b ∷ bs) one quiet =
    let pending = p.pending ++ b ∷ bs in
    let cut = take_lines (length pending) pending in
    record {
      raws = cut.0;
      rest = cut.1;
      cut = take_lines-AreLines (length pending) pending (omega arith);
      on_terminal =
          lines_printed-append notes (emit_lines p.sink cut.0)
          ∙ rw quiet.no_print (lines_printed-emit_lines p.sink cut.0);
      in_file =
          lines_written-append notes (emit_lines p.sink cut.0)
          ∙ rw quiet.no_write (lines_written-emit_lines p.sink cut.0);
      left = (refl, refl);
    }

on_read-IsLogged :
    (p : Port) (notes : List Output) (read : Read)
    → IsOneLine p.pending
    → IsSilent notes
    → IsRound p (bytes_read read) notes (on_read p notes read)
unfolding on_read
on_read-IsLogged p notes (Read.failed e) one quiet = elim (Bool-cases (would_block e)) [
  | inl again ↦ rw again (quiet-IsLogged p.sink p p notes one (refl, refl) quiet)
  | inr lost ↦ rw lost (
      quiet-IsLogged p.sink p (close p) (notes ++ Output.detached e ∷ []) one (refl, refl)
        (IsSilent-append quiet
          (unfold lines_printed lines_written in record { no_print = refl; no_write = refl })))
]
on_read-IsLogged p notes (Read.chunk bytes) one quiet = on_chunk-IsLogged p notes bytes one quiet

raises-IsLogged :
    (p : Port) (e : Errno)
    → IsOneLine p.pending
    → IsLogged p.sink (p.pending ++ []) (Outcome.raises e [])
unfolding lines_printed lines_written
raises-IsLogged p e one = record {
  raws = [];
  rest = p.pending;
  cut = record { whole = sym (append-nil p.pending); lines_apart = tt; rest_apart = one };
  on_terminal = refl;
  in_file = ground arith;
  left = tt;
}

on_attempt-IsLogged :
    (p : Port) (attempt : Attempt) (read : Read)
    → IsOneLine p.pending
    → IsLogged p.sink (p.pending ++ bytes_if_open attempt read) (on_attempt p attempt read)
unfolding on_attempt
on_attempt-IsLogged p Attempt.missing read one =
    quiet-IsLogged p.sink p p [] one (refl, refl) none-IsSilent
on_attempt-IsLogged p (Attempt.refused e) read one = elim (Bool-cases (comes_back e)) [
  | inl soon ↦ rw soon (quiet-IsLogged p.sink p p [] one (refl, refl) none-IsSilent)
  | inr never ↦ rw never (raises-IsLogged p e one)
]
on_attempt-IsLogged p (Attempt.opened f big_f) read one =
    on_read-IsLogged (record p { is_open = true }) (attach_notes f big_f) read one
      (attach_notes-IsSilent f big_f)

log_round-IsLogged :
    (p : Port) (r : Round)
    → IsOneLine p.pending
    → IsLogged p.sink (p.pending ++ received_in p r) (log_round p r)
unfolding log_round received_in
log_round-IsLogged p r one = elim (Bool-cases p.is_open) [
  | inl up ↦ simp up (on_read-IsLogged p [] r.read one none-IsSilent)
  | inr down ↦ simp down (on_attempt-IsLogged p r.attempt r.read one)
]

if_sink-append :
    (sink : Bool) (xs ys : List Bytes)
    → if_sink sink (xs ++ ys) ≡ if_sink sink xs ++ if_sink sink ys
if_sink-append true xs ys = refl
if_sink-append false xs ys = refl

AreLines-append :
    (stream more rest last : Bytes) (xs ys : List Bytes)
    → AreLines stream (xs, rest)
    → AreLines (rest ++ more) (ys, last)
    → AreLines (stream ++ more) (xs ++ ys, last)
AreLines-append stream more rest last xs ys now later = record {
  whole =
      ap (λ r. r ++ last) (joined-append xs ys)
      ∙ append_assoc (joined xs) (joined ys) last
      ∙ ap (λ r. joined xs ++ r) later.whole
      ∙ sym (append_assoc (joined xs) rest more)
      ∙ ap (λ r. r ++ more) now.whole;
  lines_apart = AllOneLine-append xs ys now.lines_apart later.lines_apart;
  rest_apart = later.rest_apart;
}

-- A round's lines, then those of the rounds behind it.
IsLogged-append :
    (sink : Bool) (stream more : Bytes) (q : Port) (notes : List Output) (o o' : Outcome)
    → (now : IsLogged sink stream (Outcome.going q notes))
    → (later : IsLogged sink (now.rest ++ more) o) → notes_of o' ≡ notes ++ notes_of o
    → IsPending sink later.rest o'
    → IsLogged sink (stream ++ more) o'
IsLogged-append sink stream more q notes o o' now later e left = record {
  raws = now.raws ++ later.raws;
  rest = later.rest;
  cut = AreLines-append stream more now.rest later.rest now.raws later.raws now.cut later.cut;
  on_terminal =
      ap lines_printed e
      ∙ lines_printed-append notes (notes_of o)
      ∙ rw (now.on_terminal, later.on_terminal) (sym (map-append rstrip_cr now.raws later.raws));
  in_file =
      ap lines_written e
      ∙ lines_written-append notes (notes_of o)
      ∙ rw (now.in_file, later.in_file)
          (sym (if_sink-append sink (map rstrip_cr now.raws) (map rstrip_cr later.raws))
            ∙ ap (if_sink sink) (sym (map-append rstrip_cr now.raws later.raws)));
  left = left;
}

notes_of-prepend :
    (notes : List Output) (o : Outcome) → notes_of (prepend notes o) ≡ notes ++ notes_of o
notes_of-prepend notes (Outcome.going q more) = refl
notes_of-prepend notes (Outcome.raises e more) = refl

prepend-IsPending :
    (sink : Bool) (rest : Bytes) (notes : List Output) (o : Outcome)
    → IsPending sink rest o
    → IsPending sink rest (prepend notes o)
prepend-IsPending sink rest notes (Outcome.going q more) h = h
prepend-IsPending sink rest notes (Outcome.raises e more) h = h

log_rounds-step :
    (p : Port) (r : Round) (rs : List Round) (o : Outcome)
    → log_round p r ≡ o
    → IsLogged p.sink (p.pending ++ received_in p r) o
    → ((q : Port)
        → IsOneLine q.pending
        → IsLogged q.sink (q.pending ++ received q rs) (log_rounds q rs))
    → IsLogged p.sink (p.pending ++ received p (r ∷ rs)) (log_rounds p (r ∷ rs))
unfolding log_rounds received
log_rounds-step p r rs (Outcome.raises e notes) found now ih =
    rw (found, log_rounds) (rw (found, received) now)
log_rounds-step p r rs (Outcome.going q notes) found now ih =
    let one : IsOneLine q.pending = rw (now.left.0) now.cut.rest_apart in
    let later : IsLogged p.sink (now.rest ++ received q rs) (log_rounds q rs) =
      rw⁻¹ (now.left.0, now.left.1) (ih q one) in
    rw (found, log_rounds)
      (rw (found, received)
        (rw⁻¹ (append_assoc p.pending (received_in p r) (received q rs)) (
          IsLogged-append p.sink (p.pending ++ received_in p r) (received q rs) q notes
            (log_rounds q rs) (prepend notes (log_rounds q rs)) now later
            (notes_of-prepend notes (log_rounds q rs))
            (prepend-IsPending p.sink later.rest notes (log_rounds q rs) later.left))))

log_rounds-IsLogged :
    (p : Port) (rs : List Round)
    → IsOneLine p.pending
    → IsLogged p.sink (p.pending ++ received p rs) (log_rounds p rs)
log_rounds-IsLogged p [] one =
    unfold log_rounds received in quiet-IsLogged p.sink p p [] one (refl, refl) none-IsSilent
log_rounds-IsLogged p (r ∷ rs) one =
    log_rounds-step p r rs (log_round p r) refl (log_round-IsLogged p r one)
      (λ q h. log_rounds-IsLogged q rs h)

-- Whatever the reads cut the bytes into, and however often the port is lost and comes back between
-- them, the lines printed are the pieces of all bytes read that end in a newline, in order, without
-- the carriage returns in front of it; with `--out` the same lines are in the file, and without it
-- none. What stands behind the last newline is pending. In particular a line that a reset cuts short
-- runs on into the first line that is read behind the reset.
pub log_rounds-lines :
    (sink : Bool) (rs : List Round)
    → IsLogged sink (received (start sink) rs) (log_rounds (start sink) rs)
log_rounds-lines sink rs = log_rounds-IsLogged (start sink) rs tt
