-- ===== src/Analyser/Display/Atomic.antt =====
-- scripts/i2s-skew.py: a reader of the plot's file never sees a part of a plot.
use esphome_snapcast.Base.{ℕ, ◌<◌, ◌≡◌, refl, ap, ◌⊎◌, inl, inr, true, Option, none, some, arith}
use esphome_snapcast.Analyser.Display.Files.{
  At, waiting, opened, filled, ended, Files, make_temp, write, replace, give_up, Step, makes,
  writes, replaces, fails_to_write, fails_to_replace, Reach, here, next, begin,
}

-- The temporary file that a thread holds.
abbrev temp_of : At → Option ℕ
temp_of waiting = none
temp_of (opened tmp) = some tmp
temp_of (filled tmp) = some tmp
temp_of (ended fine) = none

module _ {Text : Type 0} (empty : Text) (text : ℕ → Text) (old : Option Text) where
  record IsAtomic (s : Files Text) : Type 0 where
    whole : (s.target ≡ old) ⊎ ((i : ℕ) × (s.threads i ≡ ended true) × (s.target ≡ some (text i)))
    full : (i tmp : ℕ) → s.threads i ≡ filled tmp → s.temps tmp ≡ some (text i)
    known : (i tmp : ℕ) → temp_of (s.threads i) ≡ some tmp → tmp < s.fresh
    apart :
        (i j tmp : ℕ) → temp_of (s.threads i) ≡ some tmp → temp_of (s.threads j) ≡ some tmp → i ≡ j

  makes-IsAtomic :
      (s : Files Text) (i : ℕ) → s.threads i ≡ waiting → IsAtomic s → IsAtomic (make_temp empty i s)
  makes-IsAtomic s i e a = record {
    whole = elim a.whole [
      | inl same ↦ inl same
      | inr (j, done, is_text) ↦ inr (j, ground (arith, e, done), is_text)
    ];
    full = λ j tmp h. ground (arith, h, a.full j tmp, a.known j tmp);
    known = λ j tmp h. ground (arith, h, a.known j tmp);
    apart = λ j k tmp h h'. ground (arith, h, h', a.known j tmp, a.known k tmp, a.apart j k tmp);
  }

  writes-IsAtomic :
      (s : Files Text) (i tmp : ℕ)
      → s.threads i ≡ opened tmp
      → IsAtomic s
      → IsAtomic (write (text i) i tmp s)
  writes-IsAtomic s i tmp e a = record {
    whole = elim a.whole [
      | inl same ↦ inl same
      | inr (j, done, is_text) ↦ inr (j, ground (arith, e, done), is_text)
    ];
    full = λ j n h. ground (arith, e, h, a.full j n, a.apart i j tmp);
    known = λ j n h. ground (arith, e, h, a.known j n, a.known i tmp);
    apart = λ j k n h h'. ground (arith, e, h, h', a.apart j k n);
  }

  replaces-IsAtomic :
      (s : Files Text) (i tmp : ℕ)
      → s.threads i ≡ filled tmp
      → IsAtomic s
      → IsAtomic (replace i tmp s)
  replaces-IsAtomic s i tmp e a = record {
    whole = inr (i, ground arith, a.full i tmp e);
    full = λ j n h. ground (arith, e, h, a.full j n, a.apart i j tmp);
    known = λ j n h. ground (arith, e, h, a.known j n);
    apart = λ j k n h h'. ground (arith, e, h, h', a.apart j k n);
  }

  give_up-IsAtomic :
      (s : Files Text) (i tmp : ℕ) (left : Option Text)
      → temp_of (s.threads i) ≡ some tmp
      → IsAtomic s
      → IsAtomic (give_up i tmp left s)
  give_up-IsAtomic s i tmp left e a = record {
    whole = elim a.whole [
      | inl same ↦ inl same
      | inr (j, done, is_text) ↦ inr (j, ground (arith, e, done), is_text)
    ];
    full = λ j n h. ground (arith, e, h, a.full j n, a.apart i j tmp);
    known = λ j n h. ground (arith, e, h, a.known j n);
    apart = λ j k n h h'. ground (arith, e, h, h', a.apart j k n);
  }

  Step-IsAtomic : {s t : Files Text} → Step empty text s t → IsAtomic s → IsAtomic t
  Step-IsAtomic {s} (makes i e) a = makes-IsAtomic s i e a
  Step-IsAtomic {s} (writes i tmp e) a = writes-IsAtomic s i tmp e a
  Step-IsAtomic {s} (replaces i tmp e) a = replaces-IsAtomic s i tmp e a
  Step-IsAtomic {s} (fails_to_write i tmp e left) a = give_up-IsAtomic s i tmp left (ap temp_of e) a
  Step-IsAtomic {s} (fails_to_replace i tmp e left) a =
      give_up-IsAtomic s i tmp left (ap temp_of e) a

  begin-IsAtomic : IsAtomic (begin old)
  begin-IsAtomic = record {
    whole = inl refl;
    full = λ i tmp h. cc h;
    known = λ i tmp h. absurd (cc h);
    apart = λ i j tmp h h'. absurd (cc h);
  }

  Reach-IsAtomic : {s : Files Text} → Reach empty text (begin old) s → IsAtomic s
  Reach-IsAtomic here = begin-IsAtomic
  Reach-IsAtomic (next r st) = Step-IsAtomic st (Reach-IsAtomic r)

  -- However the steps of the threads come, and whichever of them fail, the file is at each moment
  -- what it was at the beginning or the whole text of one thread, whose call has returned or is
  -- about to return.
  pub Reach-whole :
      {s : Files Text}
      → Reach empty text (begin old) s
      → (s.target ≡ old) ⊎ ((i : ℕ) × (s.threads i ≡ ended true) × (s.target ≡ some (text i)))
  Reach-whole r = (Reach-IsAtomic r).whole
