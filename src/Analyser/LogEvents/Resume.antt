-- ===== src/Analyser/LogEvents/Resume.antt =====
-- scripts/i2s-skew.py: where in a log a call of `parse_sync_events` begins to read, and which lines it
-- reads. A file is its identity, by `os.fstat`, and its bytes,
-- which are ASCII without carriage returns, so that a line of `open` in text mode ends in a newline alone.
use esphome_snapcast.Base.{
  ℕ, ◌-◌, Bool, false, not, ◌&&◌, ◌||◌, Option, none, some, List, [], ◌∷◌, ◌++◌, ltb, ◌==◌,
  if◌then◌else◌, length, drop,
}

abbrev pub Bytes : Type 0
Bytes = List ℕ

abbrev pub newline : ℕ
newline = 10

pub record LogFile : Type 0 where
  -- (st_dev, st_ino), if `os.fstat` does not fail
  pub ident : Option ℕ
  pub content : Bytes

-- What one call carries to the next.
pub record Position : Type 0 where
  pub offset : ℕ
  pub ident : Option ℕ

abbrev pub start_position : Position
start_position = record { offset = 0; ident = none }

abbrev pub onto_first : ℕ → List Bytes → List Bytes
onto_first b [] = (b ∷ []) ∷ []
onto_first b (line ∷ lines) = (b ∷ line) ∷ lines

-- `for line in f`: each line with its newline, and what stands behind the last newline
unfoldable pub lines_of : Bytes → List Bytes
lines_of [] = []
lines_of (b ∷ bs) =
    let rest = lines_of bs in if b == newline then (b ∷ []) ∷ rest else onto_first b rest

-- `f.readline()`: what is left behind it
unfoldable pub behind_line : Bytes → Bytes
behind_line [] = []
behind_line (b ∷ bs) = let rest = behind_line bs in if b == newline then bs else rest

abbrev pub differs : Option ℕ → ℕ → Bool
differs none ident = false
differs (some known) ident = not (known == ident)

-- The guard against a rotated or shortened file; without `os.fstat` it changes nothing.
unfoldable pub guarded : Position → LogFile → Position
guarded p f = elim f.ident [
  | none ↦ p
  | some ident ↦
      let lost = differs p.ident ident || ltb (length f.content) p.offset in
      record { offset = if lost then 0 else p.offset; ident = some ident }
]

-- `size > tail_bytes`, where there is a size
abbrev pub has_more : LogFile → ℕ → Bool
has_more f tail_bytes = elim f.ident [
  | none ↦ false
  | some ident ↦ ltb tail_bytes (length f.content)
]

-- What is read from the position on; the end of a long log alone, if that is asked for.
unfoldable pub unread : ℕ → ℕ → LogFile → Bytes
unread tail_bytes offset f =
    if (offset == 0) && ltb 0 tail_bytes
    then if has_more f tail_bytes
      then behind_line (drop (length f.content - tail_bytes) f.content)
      else f.content
    else drop offset f.content

-- The lines of a call and the position behind it; a file that cannot be opened is `none`.
unfoldable pub read_log : ℕ → Position → Option LogFile → List Bytes × Position
read_log tail_bytes p none = ([], p)
read_log tail_bytes p (some f) =
    let q = guarded p f in
    (lines_of (unread tail_bytes q.offset f), record q { offset = length f.content })

-- A live run reads the log with every capture, as it stands then.
unfoldable pub poll_log : ℕ → Position → List (Option LogFile) → List Bytes × Position
poll_log tail_bytes p [] = ([], p)
poll_log tail_bytes p (f ∷ fs) =
    let now = read_log tail_bytes p f in
    let later = poll_log tail_bytes now.1 fs in (now.0 ++ later.0, later.1)
