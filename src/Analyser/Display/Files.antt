-- ===== src/Analyser/Display/Files.antt =====
-- scripts/i2s-skew.py: `_write_atomic`, by any number of threads at once. A name of `mkstemp` is a
-- number, and each call gets a new one.
use esphome_snapcast.Base.{ℕ, ◌+◌, ◌≡◌, Bool, true, false, Option, none, some, ◌==◌, if◌then◌else◌}

-- Where a thread is: in front of `mkstemp`, with the file open, with the text written, or behind the
-- call, which may have raised.
pub data At : Type 0 where
  waiting : At
  opened filled : (tmp : ℕ) → At
  ended : (fine : Bool) → At

pub record Files (Text : Type 0) : Type 0 where
  pub target : Option Text
  pub temps : ℕ → Option Text
  pub fresh : ℕ
  pub threads : ℕ → At

abbrev pub update : {A : Type 0} → (ℕ → A) → ℕ → A → ℕ → A
update f i a = λ j. if j == i then a else f j

module _ {Text : Type 0} where
  abbrev pub move : Files Text → ℕ → At → Files Text
  move s i at' = record s { threads = update s.threads i at' }

  -- `tempfile.mkstemp`: an empty file
  abbrev pub make_temp : Text → ℕ → Files Text → Files Text
  make_temp empty i s = record (move s i (opened s.fresh)) {
    temps = update s.temps s.fresh (some empty);
    fresh = s.fresh + 1;
  }

  -- `f.write(text)` and the close of the file
  abbrev pub write : Text → ℕ → ℕ → Files Text → Files Text
  write text i tmp s = record (move s i (filled tmp)) { temps = update s.temps tmp (some text) }

  -- `os.replace(tmp, path)`
  abbrev pub replace : ℕ → ℕ → Files Text → Files Text
  replace i tmp s = record (move s i (ended true)) {
    target = s.temps tmp;
    temps = update s.temps tmp none;
  }

  -- The handler of any exception: `os.unlink`, which may fail and leave what there is, then `raise`.
  abbrev pub give_up : ℕ → ℕ → Option Text → Files Text → Files Text
  give_up i tmp left s = record (move s i (ended false)) { temps = update s.temps tmp left }

  -- The step of one thread, where thread `i` writes `text i`. An exception leaves the file with any
  -- content, or none.
  pub data Step (empty : Text) (text : ℕ → Text) (s : Files Text) : Files Text → Type 0 where
    makes : (i : ℕ) → s.threads i ≡ waiting → Step empty text s (make_temp empty i s)
    writes : (i tmp : ℕ) → s.threads i ≡ opened tmp → Step empty text s (write (text i) i tmp s)
    replaces : (i tmp : ℕ) → s.threads i ≡ filled tmp → Step empty text s (replace i tmp s)
    fails_to_write :
        (i tmp : ℕ)
        → s.threads i ≡ opened tmp
        → (left : Option Text) → Step empty text s (give_up i tmp left s)
    fails_to_replace :
        (i tmp : ℕ)
        → s.threads i ≡ filled tmp
        → (left : Option Text) → Step empty text s (give_up i tmp left s)

  pub data Reach (empty : Text) (text : ℕ → Text) (start : Files Text) : Files Text → Type 0 where
    here : Reach empty text start start
    next :
        {s t : Files Text}
        → Reach empty text start s
        → Step empty text s t
        → Reach empty text start t

  abbrev pub begin : Option Text → Files Text
  begin old = record { target = old; temps = λ n. none; fresh = 0; threads = λ i. waiting }
