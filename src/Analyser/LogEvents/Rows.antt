-- ===== src/Analyser/LogEvents/Rows.antt =====
-- scripts/i2s-skew.py: the rows that one line of a burst before its trigger holds.
use esphome_snapcast.Base.{ℕ, Bool, ◌&&◌, Option, some, List, [], ◌∷◌, ◌==◌, if◌then◌else◌, length}
use esphome_snapcast.Base.Int.{ℤ, pos, ◌+ℤ◌, ◌-ℤ◌}
use esphome_snapcast.Analyser.LogEvents.Lines.{tod, RPre}
use esphome_snapcast.Analyser.LogEvents.Log.{Burst}

-- The rows of one line before the trigger, behind a first one at `t`: the gap of each row but the
-- first is within the line. Columns of one length end together.
unfoldable pub later_rows : ℕ → ℤ → ℤ → List ℤ → List ℤ → List ℤ → List ℤ → List ℤ → List Burst
later_rows at seq t (dt ∷ dts) (e ∷ errs) (m ∷ meds) (r ∷ rings) (d ∷ drops) =
    let t' = t +ℤ dt in
    record { tod = at; seq = seq; t = t'; err = e; med = m; ring = r; drops = d }
    ∷ later_rows at (seq +ℤ pos 1) t' dts errs meds rings drops
later_rows at seq t _ _ _ _ _ = []

unfoldable pub pre_rows : ℕ → ℤ → ℤ → List ℤ → List ℤ → List ℤ → List ℤ → List ℤ → List Burst
unfolding later_rows
pre_rows at seq t (dt ∷ dts) (e ∷ errs) (m ∷ meds) (r ∷ rings) (d ∷ drops) =
    record { tod = at; seq = seq; t = t; err = e; med = m; ring = r; drops = d }
    ∷ later_rows at (seq +ℤ pos 1) t dts errs meds rings drops
pre_rows at seq t _ _ _ _ _ = []

-- `len({len(c) for c in cols}) == 1`
abbrev pub one_length : List ℤ → List ℤ → List ℤ → List ℤ → List ℤ → Bool
one_length dts errs meds rings drops =
    (length errs == length dts)
    && ((length meds == length dts)
        && ((length rings == length dts) && (length drops == length dts)))

-- The rows of a line whose five columns read; `-(first_seq - i)` grows by one from row to row.
unfoldable pub rows_of :
    RPre
    → Option (List ℤ)
    → Option (List ℤ)
    → Option (List ℤ)
    → Option (List ℤ)
    → Option (List ℤ)
    → List Burst
unfolding pre_rows
rows_of rp (some dts) (some errs) (some meds) (some rings) (some drops) =
    if one_length dts errs meds rings drops
    then pre_rows (tod rp.at) (pos 0 -ℤ rp.first_seq) rp.t0 dts errs meds rings drops
    else []
rows_of rp _ _ _ _ _ = []
