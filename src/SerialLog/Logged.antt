-- ===== src/SerialLog/Logged.antt =====
-- scripts/serial-log.py: what the notes of a run say of the bytes that it read.
use mathlib.Core.List.{append-nil}
use esphome_snapcast.Base.{
  ◌≡◌, refl, ◌∙◌, ap, sym, Bool, true, false, List, [], ◌∷◌, ◌++◌, map, arith, if◌then◌else◌,
}
use esphome_snapcast.SerialLog.Lines.{Bytes, rstrip_cr, IsOneLine, AreLines}
use esphome_snapcast.SerialLog.Port.{
  Attempt, Read, Round, Output, Port, Outcome, attach_notes, emit_lines, log_round,
}

-- The bytes that a round reads.
abbrev pub bytes_read : Read → Bytes
bytes_read (Read.failed e) = []
bytes_read (Read.chunk bytes) = bytes

abbrev pub bytes_if_open : Attempt → Read → Bytes
bytes_if_open (Attempt.opened f big_f) read = bytes_read read
bytes_if_open _ read = []

unfoldable pub received_in : Port → Round → Bytes
received_in p r = if p.is_open then bytes_read r.read else bytes_if_open r.attempt r.read

-- All bytes that the rounds read, whenever the port was open.
unfoldable pub received : Port → List Round → Bytes
received p [] = []
received p (r ∷ rs) = elim (log_round p r) [
  | Outcome.raises e notes ↦ received_in p r
  | Outcome.going q notes ↦ received_in p r ++ received q rs
]

abbrev pub notes_of : Outcome → List Output
notes_of (Outcome.going p notes) = notes
notes_of (Outcome.raises e notes) = notes

unfoldable pub lines_printed : List Output → List Bytes
lines_printed [] = []
lines_printed (Output.printed line ∷ notes) = line ∷ lines_printed notes
lines_printed (_ ∷ notes) = lines_printed notes

unfoldable pub lines_written : List Output → List Bytes
lines_written [] = []
lines_written (Output.written line ∷ notes) = line ∷ lines_written notes
lines_written (_ ∷ notes) = lines_written notes

abbrev pub if_sink : Bool → List Bytes → List Bytes
if_sink sink lines = if sink then lines else []

abbrev pub IsPending : Bool → Bytes → Outcome → Type 0
IsPending sink rest (Outcome.going p notes) = (p.pending ≡ rest) × (p.sink ≡ sink)
IsPending sink rest (Outcome.raises e notes) = Unit

-- What an outcome prints of a stream of bytes.
pub record IsLogged (sink : Bool) (stream : Bytes) (o : Outcome) : Type 0 where
  pub raws : List Bytes
  pub rest : Bytes
  pub cut : AreLines stream (raws, rest)
  pub on_terminal : lines_printed (notes_of o) ≡ map rstrip_cr raws
  pub in_file : lines_written (notes_of o) ≡ if_sink sink (map rstrip_cr raws)
  pub left : IsPending sink rest o

pub lines_printed-append :
    (xs ys : List Output) → lines_printed (xs ++ ys) ≡ lines_printed xs ++ lines_printed ys
unfolding lines_printed
lines_printed-append [] ys = refl
lines_printed-append (Output.printed l ∷ xs) ys = ap (λ r. l ∷ r) (lines_printed-append xs ys)
lines_printed-append (_ ∷ xs) ys = lines_printed-append xs ys

pub lines_written-append :
    (xs ys : List Output) → lines_written (xs ++ ys) ≡ lines_written xs ++ lines_written ys
unfolding lines_written
lines_written-append [] ys = refl
lines_written-append (Output.written l ∷ xs) ys = ap (λ r. l ∷ r) (lines_written-append xs ys)
lines_written-append (_ ∷ xs) ys = lines_written-append xs ys

pub lines_printed-emit_lines :
    (sink : Bool) (raws : List Bytes) → lines_printed (emit_lines sink raws) ≡ map rstrip_cr raws
unfolding lines_printed emit_lines
lines_printed-emit_lines sink [] = refl
lines_printed-emit_lines true (raw ∷ raws) =
    ap (λ r. rstrip_cr raw ∷ r) (lines_printed-emit_lines true raws)
lines_printed-emit_lines false (raw ∷ raws) =
    ap (λ r. rstrip_cr raw ∷ r) (lines_printed-emit_lines false raws)

pub lines_written-emit_lines :
    (sink : Bool) (raws : List Bytes)
    → lines_written (emit_lines sink raws) ≡ if_sink sink (map rstrip_cr raws)
unfolding lines_written emit_lines
lines_written-emit_lines true [] = refl
lines_written-emit_lines false [] = refl
lines_written-emit_lines true (raw ∷ raws) =
    ap (λ r. rstrip_cr raw ∷ r) (lines_written-emit_lines true raws)
lines_written-emit_lines false (raw ∷ raws) = lines_written-emit_lines false raws

-- Notes that are no lines.
pub record IsSilent (notes : List Output) : Type 0 where
  pub no_print : lines_printed notes ≡ []
  pub no_write : lines_written notes ≡ []

pub attach_notes-IsSilent : (f big_f : Bool) → IsSilent (attach_notes f big_f)
unfolding lines_printed lines_written
attach_notes-IsSilent true big_f = record { no_print = refl; no_write = refl }
attach_notes-IsSilent false true = record { no_print = refl; no_write = refl }
attach_notes-IsSilent false false = record { no_print = refl; no_write = refl }

pub none-IsSilent : IsSilent []
unfolding lines_printed lines_written
none-IsSilent = record { no_print = refl; no_write = refl }

pub IsSilent-append : {xs ys : List Output} → IsSilent xs → IsSilent ys → IsSilent (xs ++ ys)
IsSilent-append {xs} {ys} hx hy = record {
  no_print = lines_printed-append xs ys ∙ rw hx.no_print hy.no_print;
  no_write = lines_written-append xs ys ∙ rw hx.no_write hy.no_write;
}

-- An outcome that reads no bytes and prints no line.
pub quiet-IsLogged :
    (sink : Bool) (p q : Port) (notes : List Output)
    → IsOneLine p.pending
    → (q.pending ≡ p.pending) × (q.sink ≡ sink)
    → IsSilent notes
    → IsLogged sink (p.pending ++ []) (Outcome.going q notes)
quiet-IsLogged sink p q notes one same quiet = record {
  raws = [];
  rest = p.pending;
  cut = record { whole = sym (append-nil p.pending); lines_apart = tt; rest_apart = one };
  on_terminal = quiet.no_print;
  in_file = quiet.no_write ∙ ground arith;
  left = same;
}
