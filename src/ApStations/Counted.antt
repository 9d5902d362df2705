-- ===== src/ApStations/Counted.antt =====
-- scripts/ap-stations.py: which stations have a row in `congestion`.
use esphome_snapcast.Base.{ℕ, ◌+◌, ◌≡◌, Option, List}
use esphome_snapcast.Base.Int.{pos}
use esphome_snapcast.Base.Float.{Float}
use esphome_snapcast.ApStations.Elements.{Address, StaRow, or_zero}
use esphome_snapcast.ApStations.Traffic.{Row, row_of}
use esphome_snapcast.ApStations.Baselines.{IsBaseline}

abbrev Grew : Option ℕ → Option ℕ → ℕ → Type 0
Grew a b n = or_zero a ≡ or_zero b + n

-- No counter of the station went back since its baseline, and the row has how far each of them got.
module _ (A : Float) (names : List (Address × Address)) (elapsed : A.F) where
  abbrev pub IsCounted : StaRow A.F → StaRow A.F → Row A.F → Type 0
  IsCounted s b r =
      (sent : ℕ) × (recv : ℕ) × (retr : ℕ) × (or_zero s.sent ≡ or_zero b.sent + sent)
      × (or_zero s.recv ≡ or_zero b.recv + recv)
      × (or_zero s.retrans ≡ or_zero b.retrans + retr)
      × (r ≡ row_of A names elapsed s (pos sent) (pos recv) (pos retr))

  -- The station of the second sample has a baseline among the first, and the row counts from there.
  abbrev pub IsMeasured : List (StaRow A.F) → StaRow A.F → Row A.F → Type 0
  IsMeasured before s r = (b : StaRow A.F) × IsBaseline s.mac b before × IsCounted s b r
