-- ===== src/Analyser/LogEvents/Tails.antt =====
-- scripts/i2s-skew.py: the lines that a live run reads of each log file, the first being cut to its tail.
use mathlib.Core.Path.{subst}
use esphome_snapcast.Base.{
  ℕ, zero, suc, true, some, ◌-◌, ◌≤◌, ◌<◌, ◌≡◌, ◌≢◌, ◌⊎◌, refl, ap, sym, inl, inr, List, [], ◌∷◌,
  ◌++◌, arith, ltb, ◌==◌, ==_iff, length, drop, Bool-cases,
}
use esphome_snapcast.Analyser.LogEvents.Resume.{
  Bytes, newline, start_position, lines_of, behind_line, unread, poll_log,
}
use esphome_snapcast.Analyser.LogEvents.WholeLines.{EndsLine}
use esphome_snapcast.Analyser.LogEvents.Polls.{
  Change, grows, unreadable, replaced, file, snapshots, AreWhole, whole_lines, poll_log-whole_lines,
}

abbrev pub IsFree : Bytes → Type 0
IsFree [] = Unit
IsFree (b ∷ bs) = (b ≢ newline) × IsFree bs

-- `text` is what follows the first newline of `cut`, or nothing if there is none.
abbrev pub IsBehindLine : Bytes → Bytes → Type 0
IsBehindLine cut text =
    ((skipped : Bytes) × IsFree skipped × (cut ≡ skipped ++ newline ∷ text))
    ⊎ (IsFree cut × (text ≡ []))

-- What is to be read of a file that is new: all of it, or behind the first newline of its last
-- `tail_bytes` bytes, if a tail is asked for and the file is longer.
abbrev pub IsTail : ℕ → Bytes → Bytes → Type 0
IsTail tail_bytes content text =
    (((tail_bytes ≡ 0) ⊎ (length content ≤ tail_bytes)) × (text ≡ content))
    ⊎ ((0 < tail_bytes)
        × (tail_bytes < length content)
        × ((front : Bytes) × (cut : Bytes) × (content ≡ front ++ cut)
            × (length cut ≡ tail_bytes)
            × IsBehindLine cut text))

-- `lines` are those of `text`, with what is written behind it, and then those of each file that
-- replaces the present one.
abbrev pub AreLines : ℕ → Bytes → List Change → List Bytes → Type 0
AreLines tail_bytes text [] lines = lines ≡ lines_of text
AreLines tail_bytes text (grows chunk ∷ changes) lines =
    AreLines tail_bytes (text ++ chunk) changes lines
AreLines tail_bytes text (unreadable ∷ changes) lines = AreLines tail_bytes text changes lines
AreLines tail_bytes text (replaced other fresh ∷ changes) lines =
    (next : Bytes) × (later : List Bytes) × IsTail tail_bytes fresh next
    × (lines ≡ lines_of text ++ later)
    × AreLines tail_bytes next changes later

IsBehindLine-cons :
    (b : ℕ) (bs text : Bytes) → b ≢ newline → IsBehindLine bs text → IsBehindLine (b ∷ bs) text
IsBehindLine-cons b bs text other (inl (skipped, free, e)) =
    inl (b ∷ skipped, (other, free), ap (λ r. b ∷ r) e)
IsBehindLine-cons b bs text other (inr (free, e)) = inr ((other, free), e)

behind_line-IsBehindLine : (cut : Bytes) → IsBehindLine cut (behind_line cut)
unfolding behind_line
behind_line-IsBehindLine [] = inr (tt, refl)
behind_line-IsBehindLine (b ∷ bs) = elim (Bool-cases (b == newline)) [
  | inl found ↦ rw found (inl ([], tt, ap (λ r. r ∷ bs) ((==_iff b newline).0 found)))
  | inr other ↦
      let ne : b ≢ newline = λ e. cc (other, (==_iff b newline).1 e) in
      rw other (IsBehindLine-cons b bs (behind_line bs) ne (behind_line-IsBehindLine bs))
]

-- The end of a list, by its length.
abbrev HasEnd : ℕ → Bytes → Bytes → Type 0
HasEnd n bs cut = (front : Bytes) × (bs ≡ front ++ cut) × (length cut ≡ n)

drop-HasEnd : (k n : ℕ) (bs : Bytes) → length bs - k ≡ n → k ≤ length bs → HasEnd n bs (drop k bs)
drop-HasEnd zero n bs e le = ([], refl, omega arith)
drop-HasEnd (suc k) n [] e le = absurd (omega arith)
drop-HasEnd (suc k) n (b ∷ bs) e le =
    let (front, split, size) = drop-HasEnd k n bs (omega arith) (omega arith) in
    (b ∷ front, ap (λ r. b ∷ r) split, size)

unread-IsTail :
    (tail_bytes ident : ℕ) (content : Bytes)
    → IsTail tail_bytes content (unread tail_bytes 0 (file ident content))
unfolding unread
unread-IsTail zero ident content = inl (inl refl, refl)
unread-IsTail (suc tail_bytes) ident content =
    let asked : ltb 0 (suc tail_bytes) ≡ true = ground arith in
    rw asked (elim (Bool-cases (ltb (suc tail_bytes) (length content))) [
      | inl long ↦
          let cut = drop (length content - suc tail_bytes) content in
          let more : suc tail_bytes < length content = ground arith in
          let (front, split, size) =
            drop-HasEnd (length content - suc tail_bytes) (suc tail_bytes) content (omega arith)
              (omega arith) in
          rw long (inr (omega arith, more, (front, cut, split, size, behind_line-IsBehindLine cut)))
      | inr short ↦
          let le : length content ≤ suc tail_bytes = ground arith in rw short (inl (inr le, refl))
    ])

whole_lines-AreLines :
    (tail_bytes : ℕ) (text : Bytes) (changes : List Change)
    → AreLines tail_bytes text changes (whole_lines tail_bytes text changes)
whole_lines-AreLines tail_bytes text [] = refl
whole_lines-AreLines tail_bytes text (grows chunk ∷ changes) =
    whole_lines-AreLines tail_bytes (text ++ chunk) changes
whole_lines-AreLines tail_bytes text (unreadable ∷ changes) =
    whole_lines-AreLines tail_bytes text changes
whole_lines-AreLines tail_bytes text (replaced other fresh ∷ changes) =
    let next = unread tail_bytes 0 (file other fresh) in
    (
      next,
      whole_lines tail_bytes next changes,
      unread-IsTail tail_bytes other fresh,
      refl,
      whole_lines-AreLines tail_bytes next changes,
    )

-- A live run polls the log of a board. Between two polls whole lines are written to it, or it is
-- replaced by a file of another identity or a smaller size; the first file and those that replace it
-- are not empty and end their lines. The run reads the lines of each of these files, each line once, in
-- order and in one piece: of what the poll found first all lines, or, where `log_tail_mb` asks for a
-- tail and the file was longer than that, those behind the first newline in the tail; and all lines
-- that the later polls found behind them. A poll that cannot open the log loses nothing.
pub poll_log-AreRead :
    (tail_bytes ident : ℕ) (content : Bytes) (changes : List Change)
    → 0 < length content
    → EndsLine content
    → AreWhole ident content changes
    → let read =
        (poll_log tail_bytes start_position
          (some (file ident content) ∷ snapshots ident content changes)).0 in
      (text : Bytes) × IsTail tail_bytes content text × AreLines tail_bytes text changes read
poll_log-AreRead tail_bytes ident content changes filled ends h =
    let text = unread tail_bytes 0 (file ident content) in
    (
      text,
      unread-IsTail tail_bytes ident content,
      subst (AreLines tail_bytes text changes)
          (sym (poll_log-whole_lines tail_bytes ident content changes filled ends h))
          (whole_lines-AreLines tail_bytes text changes),
    )
