-- ===== src/Analyser/LogEvents/Bursts.antt =====
-- scripts/i2s-skew.py: a line of a burst before its trigger is taken whole or refused.
use mathlib.Core.List.{append-nil}
use esphome_snapcast.Base.{
  ℕ, zero, suc, ◌≡◌, refl, ◌∙◌, ap, inl, inr, ◌⊎◌, true, false, some, List, [], ◌∷◌, ◌++◌, arith,
  length, map, Bool-cases,
}
use esphome_snapcast.Base.Int.{ℤ, pos, ◌+ℤ◌, ◌-ℤ◌}
use esphome_snapcast.Analyser.LogEvents.Lines.{tod, RPre}
use esphome_snapcast.Analyser.LogEvents.Log.{Burst, Log}
use esphome_snapcast.Analyser.LogEvents.Rows.{later_rows, pre_rows, one_length, rows_of}
use esphome_snapcast.Analyser.LogEvents.Servo.{on_rpre}

-- The sequence numbers of rows in a row, and their times: each gap is added to the time before it.
pub seqs_from : ℤ → ℕ → List ℤ
seqs_from seq zero = []
seqs_from seq (suc n) = seq ∷ seqs_from (seq +ℤ pos 1) n

pub times_from : ℤ → List ℤ → List ℤ
times_from t [] = []
times_from t (dt ∷ dts) = (t +ℤ dt) ∷ times_from (t +ℤ dt) dts

pub times_of : ℤ → List ℤ → List ℤ
times_of t0 [] = []
times_of t0 (dt ∷ dts) = t0 ∷ times_from t0 dts

-- The rows hold the five columns, none of them cut.
pub record AreRows (seq : ℤ) (times dts errs meds rings drops : List ℤ) (rows : List Burst)
    : Type 0 where
  pub seqs_eq : map (λ (b : Burst). b.seq) rows ≡ seqs_from seq (length dts)
  pub times_eq : map (λ (b : Burst). b.t) rows ≡ times
  pub errs_eq : map (λ (b : Burst). b.err) rows ≡ errs
  pub meds_eq : map (λ (b : Burst). b.med) rows ≡ meds
  pub rings_eq : map (λ (b : Burst). b.ring) rows ≡ rings
  pub drops_eq : map (λ (b : Burst). b.drops) rows ≡ drops

pub record HaveLength (n : ℕ) (errs meds rings drops : List ℤ) : Type 0 where
  pub errs_eq : length errs ≡ n
  pub meds_eq : length meds ≡ n
  pub rings_eq : length rings ≡ n
  pub drops_eq : length drops ≡ n

one_length-HaveLength :
    (dts errs meds rings drops : List ℤ)
    → one_length dts errs meds rings drops ≡ true
    → HaveLength (length dts) errs meds rings drops
one_length-HaveLength dts errs meds rings drops h = ground arith

HaveLength-one_length :
    (dts errs meds rings drops : List ℤ)
    → HaveLength (length dts) errs meds rings drops
    → one_length dts errs meds rings drops ≡ true
HaveLength-one_length dts errs meds rings drops h =
    ground (arith, h.errs_eq, h.meds_eq, h.rings_eq, h.drops_eq)

later_rows-AreRows :
    (at : ℕ) (seq t : ℤ) (dts errs meds rings drops : List ℤ)
    → HaveLength (length dts) errs meds rings drops
    → AreRows seq
        (times_from t dts)
        dts
        errs
        meds
        rings
        drops
        (later_rows at seq t dts errs meds rings drops)
unfolding later_rows seqs_from times_from
later_rows-AreRows at seq t [] [] [] [] [] h = record {
  seqs_eq = refl;
  times_eq = refl;
  errs_eq = refl;
  meds_eq = refl;
  rings_eq = refl;
  drops_eq = refl;
}
later_rows-AreRows at seq t (dt ∷ dts) (e ∷ errs) (m ∷ meds) (r ∷ rings) (d ∷ drops) h =
    let rest =
      later_rows-AreRows at (seq +ℤ pos 1) (t +ℤ dt) dts errs meds rings drops (ground arith) in
    record {
      seqs_eq = ap (λ xs. seq ∷ xs) rest.seqs_eq;
      times_eq = ap (λ xs. (t +ℤ dt) ∷ xs) rest.times_eq;
      errs_eq = ap (λ xs. e ∷ xs) rest.errs_eq;
      meds_eq = ap (λ xs. m ∷ xs) rest.meds_eq;
      rings_eq = ap (λ xs. r ∷ xs) rest.rings_eq;
      drops_eq = ap (λ xs. d ∷ xs) rest.drops_eq;
    }
later_rows-AreRows at seq t _ _ _ _ _ h = absurd (omega arith)

pre_rows-AreRows :
    (at : ℕ) (seq t : ℤ) (dts errs meds rings drops : List ℤ)
    → HaveLength (length dts) errs meds rings drops
    → AreRows seq
        (times_of t dts)
        dts
        errs
        meds
        rings
        drops
        (pre_rows at seq t dts errs meds rings drops)
unfolding pre_rows seqs_from times_of
pre_rows-AreRows at seq t [] [] [] [] [] h = record {
  seqs_eq = refl;
  times_eq = refl;
  errs_eq = refl;
  meds_eq = refl;
  rings_eq = refl;
  drops_eq = refl;
}
pre_rows-AreRows at seq t (dt ∷ dts) (e ∷ errs) (m ∷ meds) (r ∷ rings) (d ∷ drops) h =
    let rest = later_rows-AreRows at (seq +ℤ pos 1) t dts errs meds rings drops (ground arith) in
    record {
      seqs_eq = ap (λ xs. seq ∷ xs) rest.seqs_eq;
      times_eq = ap (λ xs. t ∷ xs) rest.times_eq;
      errs_eq = ap (λ xs. e ∷ xs) rest.errs_eq;
      meds_eq = ap (λ xs. m ∷ xs) rest.meds_eq;
      rings_eq = ap (λ xs. r ∷ xs) rest.rings_eq;
      drops_eq = ap (λ xs. d ∷ xs) rest.drops_eq;
    }
pre_rows-AreRows at seq t _ _ _ _ _ h = absurd (omega arith)

module _ {F : Type 0} where
  on_rpre-some :
      (rp : RPre) (log : Log F) (dts errs meds rings drops : List ℤ)
      → let read = record rp {
        dts = some dts;
        errs = some errs;
        meds = some meds;
        rings = some rings;
        drops = some drops;
      } in
        (one_length dts errs meds rings drops ≡ true
          → (on_rpre read log).rsyncs
            ≡ log.rsyncs
              ++ pre_rows (tod rp.at) (pos 0 -ℤ rp.first_seq) rp.t0 dts errs meds rings drops)
        × (one_length dts errs meds rings drops ≡ false
            → (on_rpre read log).rsyncs ≡ log.rsyncs ++ [])
  unfolding on_rpre rows_of
  on_rpre-some rp log dts errs meds rings drops = (λ h. rw h refl, λ h. rw h refl)

  -- A line whose five columns read is refused if they differ in length; if they
  -- have one length it adds a row for each
  -- entry, with consecutive sequence numbers, each gap but the first added to the time, and every
  -- entry of every other column.
  pub on_rpre-AreRows :
      (rp : RPre) (log : Log F) (dts errs meds rings drops : List ℤ)
      → let read = record rp {
        dts = some dts;
        errs = some errs;
        meds = some meds;
        rings = some rings;
        drops = some drops;
      } in
        ((HaveLength (length dts) errs meds rings drops → ⊥)
          × ((on_rpre read log).rsyncs ≡ log.rsyncs))
        ⊎ ((rows : List Burst) × HaveLength (length dts) errs meds rings drops
            × ((on_rpre read log).rsyncs ≡ log.rsyncs ++ rows)
            × AreRows (pos 0 -ℤ rp.first_seq) (times_of rp.t0 dts) dts errs meds rings drops rows)
  on_rpre-AreRows rp log dts errs meds rings drops =
      let (taken, refused) = on_rpre-some rp log dts errs meds rings drops in
      elim (Bool-cases (one_length dts errs meds rings drops)) [
        | inl same ↦ inr (
          pre_rows (tod rp.at) (pos 0 -ℤ rp.first_seq) rp.t0 dts errs meds rings drops,
          one_length-HaveLength dts errs meds rings drops same,
          taken same,
          pre_rows-AreRows (tod rp.at) (pos 0 -ℤ rp.first_seq) rp.t0 dts errs meds rings drops
              (one_length-HaveLength dts errs meds rings drops same),
        )
        | inr differ ↦ inl (
          λ h. cc (differ, HaveLength-one_length dts errs meds rings drops h),
          refused differ ∙ append-nil log.rsyncs,
        )
      ]
