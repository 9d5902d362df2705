-- ===== src/SerialLog/Lines.antt =====
-- scripts/serial-log.py: how the bytes that are read become lines.
use esphome_snapcast.Base.{
  ℕ, zero, suc, ◌≤◌, ◌<◌, ◌≡◌, ◌≢◌, refl, ◌∙◌, ap, sym, inl, inr, Bool, true, false, ◌&&◌, Option,
  none, some, List, [], ◌∷◌, ◌++◌, arith, ◌==◌, if◌then◌else◌, length, ==_iff, Bool-cases,
}
use mathlib.Core.List.{append_assoc}

abbrev pub Bytes : Type 0
Bytes = List ℕ

abbrev pub newline : ℕ
newline = 10

-- `pending.split(b"\n", 1)`, if there is a newline
unfoldable pub split_once : Bytes → Option (Bytes × Bytes)
split_once [] = none
split_once (b ∷ bs) =
    let rest = split_once bs in
    if b == newline
    then some ([], bs)
    else elim rest [ none ↦ none | some (raw, pending) ↦ some (b ∷ raw, pending) ]

abbrev pub is_nil : Bytes → Bool
is_nil [] = true
is_nil (b ∷ bs) = false

-- `raw.rstrip(b"\r")`
unfoldable pub rstrip_cr : Bytes → Bytes
rstrip_cr [] = []
rstrip_cr (b ∷ bs) = let rest = rstrip_cr bs in if (b == 13) && is_nil rest then [] else b ∷ rest

-- `while b"\n" in pending`: the lines as they stand in the stream, and what is left pending.
unfoldable pub take_lines : ℕ → Bytes → List Bytes × Bytes
take_lines zero pending = ([], pending)
take_lines (suc fuel) pending = elim (split_once pending) [
  | none ↦ ([], pending)
  | some (raw, rest) ↦ let more = take_lines fuel rest in (raw ∷ more.0, more.1)
]

-- No newline among the bytes.
abbrev pub IsOneLine : Bytes → Type 0
IsOneLine [] = Unit
IsOneLine (b ∷ bs) = (b ≢ newline) × IsOneLine bs

abbrev pub AllOneLine : List Bytes → Type 0
AllOneLine [] = Unit
AllOneLine (raw ∷ raws) = IsOneLine raw × AllOneLine raws

-- The stream that the lines stand for.
abbrev pub joined : List Bytes → Bytes
joined [] = []
joined (raw ∷ raws) = raw ++ newline ∷ joined raws

pub joined-append : (xs ys : List Bytes) → joined (xs ++ ys) ≡ joined xs ++ joined ys
joined-append [] ys = refl
joined-append (x ∷ xs) ys =
    ap (λ r. x ++ newline ∷ r) (joined-append xs ys)
    ∙ sym (append_assoc x (newline ∷ joined xs) (joined ys))

pub AllOneLine-append : (xs ys : List Bytes) → AllOneLine xs → AllOneLine ys → AllOneLine (xs ++ ys)
AllOneLine-append [] ys hx hy = hy
AllOneLine-append (x ∷ xs) ys (h, hx) hy = (h, AllOneLine-append xs ys hx hy)

-- What `split_once` finds, on both branches.
abbrev IsSplit : Bytes → Option (Bytes × Bytes) → Type 0
IsSplit bs none = IsOneLine bs
IsSplit bs (some (raw, rest)) =
    (bs ≡ raw ++ newline ∷ rest) × IsOneLine raw × (length rest < length bs)

IsSplit-cons :
    (b : ℕ) (bs : Bytes) (o : Option (Bytes × Bytes))
    → b ≢ newline
    → IsSplit bs o
    → IsSplit (b ∷ bs) (elim o [ none ↦ none | some (raw, pending) ↦ some (b ∷ raw, pending) ])
IsSplit-cons b bs none ne h = (ne, h)
IsSplit-cons b bs (some (raw, rest)) ne (e, one, shorter) =
    (ap (λ r. b ∷ r) e, (ne, one), omega (arith, shorter))

split_once-IsSplit : (bs : Bytes) → IsSplit bs (split_once bs)
unfolding split_once
split_once-IsSplit [] = tt
split_once-IsSplit (b ∷ bs) = elim (Bool-cases (b == newline)) [
  | inl found ↦ rw found (ap (λ c. c ∷ bs) ((==_iff b newline).0 found), tt, omega arith)
  | inr other ↦ rw other (
      IsSplit-cons b bs (split_once bs) (λ e. cc (other, (==_iff b newline).1 e))
        (split_once-IsSplit bs))
]

-- The lines of a stream, and the part behind the last of them.
pub record AreLines (bs : Bytes) (r : List Bytes × Bytes) : Type 0 where
  pub whole : joined r.0 ++ r.1 ≡ bs
  pub lines_apart : AllOneLine r.0
  pub rest_apart : IsOneLine r.1

AreLines-step :
    (fuel : ℕ) (bs : Bytes) (o : Option (Bytes × Bytes))
    → split_once bs ≡ o
    → IsSplit bs o
    → length bs ≤ suc fuel
    → ((rest : Bytes) → length rest ≤ fuel → AreLines rest (take_lines fuel rest))
    → AreLines bs (take_lines (suc fuel) bs)
unfolding take_lines
AreLines-step fuel bs none found one enough ih =
    rw (found, take_lines) (record { whole = refl; lines_apart = tt; rest_apart = one })
AreLines-step fuel bs (some (raw, rest)) found (e, one, shorter) enough ih =
    let more = ih rest (omega (arith, shorter)) in
    rw (found, take_lines)
      (record {
        whole =
            append_assoc raw (newline ∷ joined (take_lines fuel rest).0) (take_lines fuel rest).1
            ∙ ap (λ r. raw ++ newline ∷ r) more.whole
            ∙ sym e;
        lines_apart = (one, more.lines_apart);
        rest_apart = more.rest_apart;
      })

-- As many rounds as there are bytes are enough.
pub take_lines-AreLines :
    (fuel : ℕ) (bs : Bytes) → length bs ≤ fuel → AreLines bs (take_lines fuel bs)
take_lines-AreLines zero [] h =
    unfold take_lines in record { whole = refl; lines_apart = tt; rest_apart = tt }
take_lines-AreLines zero (b ∷ bs) h = absurd (omega arith)
take_lines-AreLines (suc fuel) bs h =
    AreLines-step fuel bs (split_once bs) refl (split_once-IsSplit bs) h
      (λ rest shorter. take_lines-AreLines fuel rest shorter)
