-- ===== src/Analyser/Stream/Latching.antt =====
-- scripts/i2s-skew.py: when `stream_reader` lets its consumer fail.
use Prim.Native.String.{String}
use esphome_snapcast.Base.{
  ℕ, ◌≤◌, ◌<◌, ◌≡◌, refl, ◌∙◌, ap, ◌⊎◌, inl, inr, Bool, true, false, Option, none, some, List, [],
  ◌∷◌, ◌++◌, arith,
}
use esphome_snapcast.Analyser.Stream.Traces.{failures_in_a_row, last_failure}
use esphome_snapcast.Analyser.Stream.Reader.{
  State, new_state, Raised, cause, cause_of, failed, returned, arrived, stream_ended, Action, block,
  failure, set_done, put_sentinel, check_error, get, time_out, check_done, Event, raised, silent,
  ReaderAt, reading, latched, closing, stopped, on_block, on_failure, on_sentinel, on_check_error,
  on_get, get_from, on_check_done, fire, Reach, start, next,
}

module _ {B : Type 0} where
  pub has_sentinel : List (Option B) → Bool
  has_sentinel [] = false
  has_sentinel (none ∷ queue) = true
  has_sentinel (some b ∷ queue) = has_sentinel queue

  has_sentinel-append_block :
      (queue : List (Option B)) (b : B) → has_sentinel (queue ++ some b ∷ []) ≡ has_sentinel queue
  unfolding has_sentinel
  has_sentinel-append_block [] b = refl
  has_sentinel-append_block (none ∷ queue) b = refl
  has_sentinel-append_block (some c ∷ queue) b = has_sentinel-append_block queue b

  -- The reader lives through six failures in a row; the seventh is latched, and shown at the end.
  abbrev pub Phase : ReaderAt → List (Event B) → State B → Type 0
  Phase reading trace s =
      (s.error ≡ none)
      × (failures_in_a_row trace ≤ 6)
      × (s.done ≡ false)
      × (has_sentinel s.queue ≡ false)
  Phase latched trace s =
      (s.error ≡ last_failure trace)
      × (failures_in_a_row trace ≡ 7)
      × (s.done ≡ false)
      × (has_sentinel s.queue ≡ false)
  Phase closing trace s =
      (s.error ≡ last_failure trace)
      × (failures_in_a_row trace ≡ 7)
      × (has_sentinel s.queue ≡ false)
  Phase stopped trace s = (s.error ≡ last_failure trace) × (failures_in_a_row trace ≡ 7)

  pub record IsLatching (trace : List (Event B)) (s : State B) : Type 0 where
    pub counted : s.restarts ≡ failures_in_a_row trace
    pub phase : Phase s.reader trace s

  start-IsLatching : IsLatching [] new_state
  unfolding new_state failures_in_a_row has_sentinel
  start-IsLatching = record { counted = refl; phase = (refl, omega arith, refl, refl) }

  abbrev Keeps : State B × Event B → List (Event B) → Type 0
  Keeps r trace = IsLatching (r.1 ∷ trace) r.0

  on_block-IsLatching :
      (depth : ℕ) (b : B) (trace : List (Event B)) (s : State B)
      → s.reader ≡ reading
      → IsLatching trace s
      → Keeps (on_block depth b s) trace
  unfolding on_block failures_in_a_row
  on_block-IsLatching depth b trace s at l = ground (arith, has_sentinel-append_block s.queue b)

  on_failure-IsLatching :
      (e : String) (trace : List (Event B)) (s : State B)
      → s.reader ≡ reading
      → IsLatching trace s
      → Keeps (on_failure e s) trace
  unfolding on_failure failures_in_a_row last_failure
  on_failure-IsLatching e trace s at l = ground arith

  on_sentinel-IsLatching :
      (depth : ℕ) (trace : List (Event B)) (s : State B)
      → s.reader ≡ closing
      → IsLatching trace s
      → Keeps (on_sentinel depth s) trace
  unfolding on_sentinel failures_in_a_row last_failure
  on_sentinel-IsLatching depth trace s at l = ground arith

  set_done-IsLatching :
      (trace : List (Event B)) (s : State B)
      → s.reader ≡ latched
      → IsLatching trace s
      → Keeps (record s { done = true; reader = closing }, silent) trace
  unfolding failures_in_a_row last_failure
  set_done-IsLatching trace s at l = ground arith

  on_check_error-IsLatching :
      (error : Option String) (trace : List (Event B)) (s : State B)
      → IsLatching trace s
      → Keeps (on_check_error error s) trace
  unfolding on_check_error failures_in_a_row last_failure
  on_check_error-IsLatching none trace s l = ground arith
  on_check_error-IsLatching (some e) trace s l = ground arith

  on_check_done-IsLatching :
      (trace : List (Event B)) (s : State B) → IsLatching trace s → Keeps (on_check_done s) trace
  unfolding on_check_done failures_in_a_row last_failure
  on_check_done-IsLatching trace s l = ground arith

  get_from-IsLatching :
      (queue : List (Option B)) (trace : List (Event B)) (s : State B)
      → s.queue ≡ queue
      → IsLatching trace s
      → (r : State B × Event B) → get_from queue s ≡ some r
      → Keeps r trace
  unfolding get_from on_get failures_in_a_row last_failure has_sentinel
  get_from-IsLatching [] trace s e l r run = cc run
  get_from-IsLatching (none ∷ rest) trace s e l r run = ground (arith, ap has_sentinel e)
  get_from-IsLatching (some b ∷ rest) trace s e l r run = ground (arith, ap has_sentinel e)

  fire-IsLatching :
      (depth : ℕ) (action : Action B) (trace : List (Event B)) (s : State B) (r : State B × Event B)
      → fire depth action s ≡ some r
      → IsLatching trace s
      → Keeps r trace
  unfolding fire failures_in_a_row last_failure
  fire-IsLatching depth (block b) trace s r run l =
      ground (arith, on_block-IsLatching depth b trace s)
  fire-IsLatching depth (failure e) trace s r run l =
      ground (arith, on_failure-IsLatching e trace s)
  fire-IsLatching depth set_done trace s r run l = ground (arith, set_done-IsLatching trace s)
  fire-IsLatching depth put_sentinel trace s r run l =
      ground (arith, on_sentinel-IsLatching depth trace s)
  fire-IsLatching depth check_error trace s r run l =
      ground (arith, on_check_error-IsLatching s.error trace s)
  fire-IsLatching depth get trace s r run l =
      ground (arith, get_from-IsLatching s.queue trace s refl l r)
  fire-IsLatching depth time_out trace s r run l = ground arith
  fire-IsLatching depth check_done trace s r run l =
      ground (arith, on_check_done-IsLatching trace s)

  Reach-IsLatching :
      {depth : ℕ} (trace : List (Event B)) (s : State B) → Reach depth trace s → IsLatching trace s
  Reach-IsLatching _ _ start = start-IsLatching
  Reach-IsLatching {depth = depth} _ _
        (next {trace = trace} {s = s} {s' = s'} {event = event} r action run) =
      fire-IsLatching depth action trace s (s', event) run (Reach-IsLatching trace s r)

  last_failure-some :
      (trace : List (Event B))
      → 0 < failures_in_a_row trace
      → (e : String) × (last_failure trace ≡ some e)
  unfolding failures_in_a_row last_failure
  last_failure-some [] h = absurd (omega arith)
  last_failure-some (failed e ∷ trace) h = (e, refl)
  last_failure-some (arrived b fits ∷ trace) h = absurd (omega arith)
  last_failure-some (returned b ∷ trace) h = last_failure-some trace h
  last_failure-some (raised r ∷ trace) h = last_failure-some trace h
  last_failure-some (silent ∷ trace) h = last_failure-some trace h

  -- The seventh failure in a row has been latched, and the exception is its cause or says that
  -- the stream ended.
  abbrev pub IsJustified : Raised → List (Event B) → Type 0
  IsJustified r trace =
      (failures_in_a_row trace ≡ 7)
      × (e : String) × (last_failure trace ≡ some e)
      × ((r ≡ cause e) ⊎ (r ≡ stream_ended))

  get_from-raised :
      (queue : List (Option B)) (trace : List (Event B)) (s s' : State B) (r : Raised)
      → s.queue ≡ queue
      → IsLatching trace s
      → get_from queue s ≡ some (s', raised r)
      → (failures_in_a_row trace ≡ 7) × (r ≡ cause_of (last_failure trace))
  unfolding get_from on_get has_sentinel
  get_from-raised [] trace s s' r e l run = cc run
  get_from-raised (none ∷ rest) trace s s' r e l run = ground (arith, ap has_sentinel e)
  get_from-raised (some b ∷ rest) trace s s' r e l run = ground arith

  fire-raised :
      (depth : ℕ) (action : Action B) (trace : List (Event B)) (s s' : State B) (r : Raised)
      → fire depth action s ≡ some (s', raised r)
      → IsLatching trace s
      → (failures_in_a_row trace ≡ 7) × ((r ≡ cause_of (last_failure trace)) ⊎ (r ≡ stream_ended))
  unfolding fire on_block on_failure on_sentinel on_check_error on_check_done
  fire-raised depth (block b) trace s s' r run l = ground arith
  fire-raised depth (failure e) trace s s' r run l = ground arith
  fire-raised depth set_done trace s s' r run l = ground arith
  fire-raised depth put_sentinel trace s s' r run l = ground arith
  fire-raised depth check_error trace s s' r run l = ground arith
  fire-raised depth get trace s s' r run l =
      ground (arith, get_from-raised s.queue trace s s' r refl l)
  fire-raised depth time_out trace s s' r run l = ground arith
  fire-raised depth check_done trace s s' r run l = ground arith

  -- Under every schedule, `take` raises only behind seven failed acquisitions in a row with no block
  -- between them, and it raises the last one's message, or that the stream ended.
  pub Reach-raised :
      (depth : ℕ) (trace : List (Event B)) (s : State B) (r : Raised)
      → Reach depth (raised r ∷ trace) s
      → IsJustified r trace
  Reach-raised depth trace s r (next {s = s0} before action run) =
      let l = Reach-IsLatching trace s0 before in
      let (seven, shown) = fire-raised depth action trace s0 s r run l in
      let (e, last) = last_failure-some trace (omega (arith, seven)) in
      (seven, e, last, elim shown [ inl c ↦ inl (c ∙ rw last refl) | inr ended ↦ inr ended ])
