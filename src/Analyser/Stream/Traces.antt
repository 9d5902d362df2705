-- ===== src/Analyser/Stream/Traces.antt =====
-- scripts/i2s-skew.py: what is read off the events of `stream_reader`. The latest event is first.
use Prim.Native.String.{String}
use esphome_snapcast.Base.{
  ℕ, suc, ◌≡◌, refl, ap, true, false, Option, none, some, List, [], ◌∷◌, ◌++◌,
}
use esphome_snapcast.Analyser.Stream.Reader.{Event, arrived, failed, returned}

module _ {B : Type 0} where
  -- The blocks that the queue took and that `take` returned, in order, and how many were dropped.
  unfoldable pub kept : List (Event B) → List B
  kept [] = []
  kept (arrived b true ∷ trace) = kept trace ++ b ∷ []
  kept (_ ∷ trace) = kept trace

  unfoldable pub taken : List (Event B) → List B
  taken [] = []
  taken (returned b ∷ trace) = taken trace ++ b ∷ []
  taken (_ ∷ trace) = taken trace

  unfoldable pub lost : List (Event B) → ℕ
  lost [] = 0
  lost (arrived b false ∷ trace) = suc (lost trace)
  lost (_ ∷ trace) = lost trace

  -- The failures since the last block arrived.
  unfoldable pub failures_in_a_row : List (Event B) → ℕ
  failures_in_a_row [] = 0
  failures_in_a_row (failed e ∷ trace) = suc (failures_in_a_row trace)
  failures_in_a_row (arrived b _ ∷ trace) = 0
  failures_in_a_row (_ ∷ trace) = failures_in_a_row trace

  -- The message of the last failure.
  unfoldable pub last_failure : List (Event B) → Option String
  last_failure [] = none
  last_failure (failed e ∷ trace) = some e
  last_failure (_ ∷ trace) = last_failure trace

  unfoldable pub blocks_in : List (Option B) → List B
  blocks_in [] = []
  blocks_in (none ∷ queue) = blocks_in queue
  blocks_in (some b ∷ queue) = b ∷ blocks_in queue

  pub blocks_in-append :
      (xs ys : List (Option B)) → blocks_in (xs ++ ys) ≡ blocks_in xs ++ blocks_in ys
  unfolding blocks_in
  blocks_in-append [] ys = refl
  blocks_in-append (none ∷ xs) ys = blocks_in-append xs ys
  blocks_in-append (some b ∷ xs) ys = ap (λ r. b ∷ r) (blocks_in-append xs ys)
