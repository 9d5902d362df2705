-- ===== src/Analyser/LogEvents/Polls.antt =====
-- scripts/i2s-skew.py: what a live run reads of a log that grows or is replaced.
use mathlib.Core.List.{append_assoc, append-nil}
use esphome_snapcast.Base.{
  ℕ, zero, suc, ◌-◌, ◌<◌, ◌≡◌, ◌≢◌, ◌⊎◌, refl, ◌∙◌, ap, sym, inl, inr, true, false, ◌||◌, Option,
  none, some, List, [], ◌∷◌, ◌++◌, arith, ltb, ◌==◌, length, length-append, drop, Bool-cases,
}
use esphome_snapcast.Analyser.LogEvents.Resume.{
  Bytes, LogFile, Position, start_position, lines_of, differs, guarded, unread, read_log, poll_log,
}
use esphome_snapcast.Analyser.LogEvents.WholeLines.{
  EndsLine, lines_of-append, EndsLine-drop, EndsLine-behind, EndsLine-append,
}

-- What happens to the file between two polls.
pub data Change : Type 0 where
  grows : Bytes → Change
  unreadable : Change
  replaced : ℕ → Bytes → Change

abbrev pub file : ℕ → Bytes → LogFile
file ident content = record { ident = some ident; content = content }

-- The file as each poll finds it.
abbrev pub snapshots : ℕ → Bytes → List Change → List (Option LogFile)
snapshots ident content [] = []
snapshots ident content (grows chunk ∷ changes) =
    some (file ident (content ++ chunk)) ∷ snapshots ident (content ++ chunk) changes
snapshots ident content (unreadable ∷ changes) = none ∷ snapshots ident content changes
snapshots ident content (replaced other fresh ∷ changes) =
    some (file other fresh) ∷ snapshots other fresh changes

-- Whole lines are written; a replaced file has another identity or is shorter, and is not empty.
abbrev pub AreWhole : ℕ → Bytes → List Change → Type 0
AreWhole ident content [] = Unit
AreWhole ident content (grows chunk ∷ changes) =
    EndsLine chunk × AreWhole ident (content ++ chunk) changes
AreWhole ident content (unreadable ∷ changes) = AreWhole ident content changes
AreWhole ident content (replaced other fresh ∷ changes) =
    EndsLine fresh
    × (0 < length fresh)
    × ((ident ≢ other) ⊎ (length fresh < length content))
    × AreWhole other fresh changes

-- The lines of each file as a whole: `text` is what is to be read of the present one.
abbrev pub whole_lines : ℕ → Bytes → List Change → List Bytes
whole_lines tail_bytes text [] = lines_of text
whole_lines tail_bytes text (grows chunk ∷ changes) = whole_lines tail_bytes (text ++ chunk) changes
whole_lines tail_bytes text (unreadable ∷ changes) = whole_lines tail_bytes text changes
whole_lines tail_bytes text (replaced other fresh ∷ changes) =
    lines_of text ++ whole_lines tail_bytes (unread tail_bytes 0 (file other fresh)) changes

unread-EndsLine :
    (tail_bytes ident : ℕ) (content : Bytes)
    → EndsLine content
    → EndsLine (unread tail_bytes 0 (file ident content))
unfolding unread
unread-EndsLine zero ident content ends = ends
unread-EndsLine (suc tail_bytes) ident content ends =
    let asked : ltb 0 (suc tail_bytes) ≡ true = ground arith in
    rw asked (elim (Bool-cases (ltb (suc tail_bytes) (length content))) [
      | inl long ↦ rw long (
          EndsLine-behind (drop (length content - suc tail_bytes) content)
            (EndsLine-drop (length content - suc tail_bytes) content ends))
      | inr short ↦ rw short ends
    ])

drop-append : (a b : Bytes) → drop (length a) (a ++ b) ≡ b
drop-append [] b = refl
drop-append (x ∷ a) b = drop-append a b

-- A file that grew is read from the old end on.
unread-grown :
    (tail_bytes ident : ℕ) (content chunk : Bytes)
    → 0 < length content
    → unread tail_bytes (length content) (file ident (content ++ chunk)) ≡ chunk
unfolding unread
unread-grown tail_bytes ident [] chunk some_read = absurd (omega arith)
unread-grown tail_bytes ident (x ∷ content) chunk some_read =
    let e : (suc (length content) == 0) ≡ false = ground arith in rw e (drop-append content chunk)

abbrev pub at_end : ℕ → Bytes → Position
at_end ident content = record { offset = length content; ident = some ident }

keeps :
    (ident : ℕ) (content chunk : Bytes)
    → (differs (some ident) ident || ltb (length (content ++ chunk)) (length content)) ≡ false
keeps ident content chunk = ground (arith, length-append content chunk)

guarded-grown :
    (ident : ℕ) (content chunk : Bytes)
    → guarded (at_end ident content) (file ident (content ++ chunk)) ≡ at_end ident content
unfolding guarded
guarded-grown ident content chunk = rw (keeps ident content chunk) refl

loses :
    (ident other : ℕ) (content fresh : Bytes)
    → (ident ≢ other) ⊎ (length fresh < length content)
    → (differs (some ident) other || ltb (length fresh) (length content)) ≡ true
loses ident other content fresh (inl ne) = ground arith
loses ident other content fresh (inr shorter) = ground arith

guarded-replaced :
    (ident other : ℕ) (content fresh : Bytes)
    → (ident ≢ other) ⊎ (length fresh < length content)
    → guarded (at_end ident content) (file other fresh) ≡ record { offset = 0; ident = some other }
unfolding guarded
guarded-replaced ident other content fresh h = rw (loses ident other content fresh h) refl

read_log-guarded :
    (tail_bytes : ℕ) (p q : Position) (f : LogFile)
    → guarded p f ≡ q
    → read_log tail_bytes p (some f)
      ≡ (lines_of (unread tail_bytes q.offset f), record q { offset = length f.content })
unfolding read_log
read_log-guarded tail_bytes p q f e =
    ap (λ q. (lines_of (unread tail_bytes q.offset f), record q { offset = length f.content })) e

poll_log-step :
    (tail_bytes : ℕ) (p q : Position) (f : Option LogFile) (fs : List (Option LogFile))
    (lines : List Bytes)
    → read_log tail_bytes p f ≡ (lines, q)
    → (poll_log tail_bytes p (f ∷ fs)).0 ≡ lines ++ (poll_log tail_bytes q fs).0
unfolding poll_log
poll_log-step tail_bytes p q f fs lines e = ap (λ r. r.0 ++ (poll_log tail_bytes r.1 fs).0) e

read_log-grown :
    (tail_bytes ident : ℕ) (content chunk : Bytes)
    → 0 < length content
    → read_log tail_bytes (at_end ident content) (some (file ident (content ++ chunk)))
      ≡ (lines_of chunk, at_end ident (content ++ chunk))
read_log-grown tail_bytes ident content chunk some_read =
    read_log-guarded tail_bytes (at_end ident content) (at_end ident content)
      (file ident (content ++ chunk)) (guarded-grown ident content chunk)
    ∙ ap (λ bs. (lines_of bs, at_end ident (content ++ chunk)))
        (unread-grown tail_bytes ident content chunk some_read)

-- A text is read from its start where the guard sets the position back.
read_log-restart :
    (tail_bytes ident : ℕ) (content : Bytes) (p : Position)
    → guarded p (file ident content) ≡ record { offset = 0; ident = some ident }
    → read_log tail_bytes p (some (file ident content))
      ≡ (lines_of (unread tail_bytes 0 (file ident content)), at_end ident content)
read_log-restart tail_bytes ident content p e =
    read_log-guarded tail_bytes p (record { offset = 0; ident = some ident }) (file ident content) e

guarded-start :
    (ident : ℕ) (content : Bytes)
    → guarded start_position (file ident content) ≡ record { offset = 0; ident = some ident }
unfolding guarded
guarded-start ident content = let e : ltb (length content) 0 ≡ false = ground arith in rw e refl

-- What the polls still read, behind a text that ended its line.
poll_log-whole :
    (tail_bytes ident : ℕ) (content text : Bytes) (changes : List Change)
    → 0 < length content
    → EndsLine text
    → AreWhole ident content changes
    → lines_of text
        ++ (poll_log tail_bytes (at_end ident content) (snapshots ident content changes)).0
      ≡ whole_lines tail_bytes text changes
poll_log-whole tail_bytes ident content text [] some_read ends h =
    unfold poll_log in append-nil (lines_of text)
poll_log-whole tail_bytes ident content text (grows chunk ∷ changes) some_read ends (he, h) =
    let longer : 0 < length (content ++ chunk) = omega (arith, length-append content chunk) in
    let later =
      (poll_log tail_bytes (at_end ident (content ++ chunk))
        (snapshots ident (content ++ chunk) changes)).0 in
    ap (λ r. lines_of text ++ r)
      (poll_log-step tail_bytes (at_end ident content) (at_end ident (content ++ chunk))
        (some (file ident (content ++ chunk))) (snapshots ident (content ++ chunk) changes)
        (lines_of chunk) (read_log-grown tail_bytes ident content chunk some_read))
    ∙ sym (append_assoc (lines_of text) (lines_of chunk) later)
    ∙ ap (λ r. r ++ later) (sym (lines_of-append text chunk ends))
    ∙ poll_log-whole tail_bytes ident (content ++ chunk) (text ++ chunk) changes longer
        (EndsLine-append text chunk ends he) h
poll_log-whole tail_bytes ident content text (unreadable ∷ changes) some_read ends h =
    ap (λ r. lines_of text ++ r)
      (poll_log-step tail_bytes (at_end ident content) (at_end ident content) none
        (snapshots ident content changes) [] (unfold read_log in refl))
    ∙ poll_log-whole tail_bytes ident content text changes some_read ends h
poll_log-whole tail_bytes ident content text (replaced other fresh ∷ changes) some_read ends
      (he, filled, lost, h) =
    ap (λ r. lines_of text ++ r)
      (poll_log-step tail_bytes (at_end ident content) (at_end other fresh)
          (some (file other fresh)) (snapshots other fresh changes)
          (lines_of (unread tail_bytes 0 (file other fresh)))
          (read_log-restart tail_bytes other fresh (at_end ident content)
            (guarded-replaced ident other content fresh lost))
        ∙ poll_log-whole tail_bytes other fresh (unread tail_bytes 0 (file other fresh)) changes
            filled (unread-EndsLine tail_bytes other fresh he) h)

-- All polls together.
pub poll_log-whole_lines :
    (tail_bytes ident : ℕ) (content : Bytes) (changes : List Change)
    → 0 < length content
    → EndsLine content
    → AreWhole ident content changes
    → (poll_log tail_bytes start_position
        (some (file ident content) ∷ snapshots ident content changes)).0
      ≡ whole_lines tail_bytes (unread tail_bytes 0 (file ident content)) changes
poll_log-whole_lines tail_bytes ident content changes filled ends h =
    poll_log-step tail_bytes start_position (at_end ident content) (some (file ident content))
      (snapshots ident content changes) (lines_of (unread tail_bytes 0 (file ident content)))
      (read_log-restart tail_bytes ident content start_position (guarded-start ident content))
    ∙ poll_log-whole tail_bytes ident content (unread tail_bytes 0 (file ident content)) changes
        filled (unread-EndsLine tail_bytes ident content ends) h
