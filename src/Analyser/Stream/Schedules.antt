-- ===== src/Analyser/Stream/Schedules.antt =====
-- scripts/i2s-skew.py: `stream_reader` under every interleaving of its two threads.
use Prim.Native.String.{String}
use mathlib.Core.List.{append-nil, append_assoc}
use esphome_snapcast.Base.{
  ℕ, ◌≤◌, ◌≡◌, refl, ◌∙◌, ap, sym, inl, inr, ◌⊎◌, true, Option, none, some, List, [], ◌∷◌, ◌++◌,
  arith, length, length-append, Bool-cases,
}
use esphome_snapcast.Analyser.Stream.Traces.{kept, taken, lost, blocks_in, blocks_in-append}
use esphome_snapcast.Analyser.Stream.Reader.{
  State, new_state, Action, block, failure, set_done, put_sentinel, check_error, get, time_out,
  check_done, Event, silent, closing, in_except, has_room, on_block, on_failure, on_sentinel,
  on_check_error, on_get, get_from, on_check_done, fire, Reach, start, next,
}

module _ {B : Type 0} where
  -- No block is lost silently or out of order, and the queue keeps its bound if it has one.
  pub record IsFair (depth : ℕ) (trace : List (Event B)) (s : State B) : Type 0 where
    pub in_order : kept trace ≡ taken trace ++ blocks_in s.queue
    pub counted : s.dropped ≡ lost trace
    pub bounded : (depth ≡ 0) ⊎ (length s.queue ≤ depth)

  roomy :
      (depth : ℕ) (queue : List (Option B)) (item : Option B)
      → has_room depth queue ≡ true
      → (depth ≡ 0) ⊎ (length (queue ++ item ∷ []) ≤ depth)
  roomy depth queue item room = ground (arith, length-append queue (item ∷ []))

  start-IsFair : (depth : ℕ) → IsFair depth [] new_state
  unfolding new_state kept taken lost blocks_in
  start-IsFair depth = record { in_order = refl; counted = refl; bounded = inr (omega arith) }

  -- What one action of each kind keeps.
  abbrev Keeps : ℕ → (State B × Event B) → List (Event B) → Type 0
  Keeps depth r trace = IsFair depth (r.1 ∷ trace) r.0

  on_block-IsFair :
      (depth : ℕ) (b : B) (trace : List (Event B)) (s : State B)
      → IsFair depth trace s
      → Keeps depth (on_block depth b s) trace
  unfolding on_block kept taken lost blocks_in
  on_block-IsFair depth b trace s fair = elim (Bool-cases (has_room depth s.queue)) [
    | inl room ↦ rw room (record {
      in_order =
          ap (λ r. r ++ b ∷ []) fair.in_order
          ∙ append_assoc (taken trace) (blocks_in s.queue) (b ∷ [])
          ∙ ap (λ r. taken trace ++ r) (sym (blocks_in-append s.queue (some b ∷ [])));
      counted = fair.counted;
      bounded = roomy depth s.queue (some b) room;
    })
    | inr full ↦ rw full (record {
      in_order = fair.in_order;
      counted = omega (arith, fair.counted);
      bounded = fair.bounded;
    })
  ]

  on_failure-IsFair :
      (depth : ℕ) (e : String) (trace : List (Event B)) (s : State B)
      → IsFair depth trace s
      → Keeps depth (on_failure e s) trace
  unfolding on_failure kept taken lost
  on_failure-IsFair depth e trace s fair = ground arith

  on_sentinel-IsFair :
      (depth : ℕ) (trace : List (Event B)) (s : State B)
      → IsFair depth trace s
      → Keeps depth (on_sentinel depth s) trace
  unfolding on_sentinel kept taken lost blocks_in
  on_sentinel-IsFair depth trace s fair = elim (Bool-cases (has_room depth s.queue)) [
    | inl room ↦ rw room (record {
      in_order =
          fair.in_order
          ∙ ap (λ r. taken trace ++ r)
              (sym (blocks_in-append s.queue (none ∷ []) ∙ append-nil (blocks_in s.queue)));
      counted = fair.counted;
      bounded = roomy depth s.queue none room;
    })
    | inr full ↦
        rw full
          (record { in_order = fair.in_order; counted = fair.counted; bounded = fair.bounded })
  ]

  on_check_error-IsFair :
      (depth : ℕ) (error : Option String) (trace : List (Event B)) (s : State B)
      → IsFair depth trace s
      → Keeps depth (on_check_error error s) trace
  unfolding on_check_error kept taken lost
  on_check_error-IsFair depth none trace s fair = ground arith
  on_check_error-IsFair depth (some e) trace s fair = ground arith

  on_check_done-IsFair :
      (depth : ℕ) (trace : List (Event B)) (s : State B)
      → IsFair depth trace s
      → Keeps depth (on_check_done s) trace
  unfolding on_check_done kept taken lost
  on_check_done-IsFair depth trace s fair = ground arith

  get_from-IsFair :
      (depth : ℕ) (queue : List (Option B)) (trace : List (Event B)) (s : State B)
      → s.queue ≡ queue
      → IsFair depth trace s
      → (r : State B × Event B) → get_from queue s ≡ some r
      → Keeps depth r trace
  unfolding get_from on_get kept taken lost blocks_in
  get_from-IsFair depth [] trace s e fair r run = cc run
  get_from-IsFair depth (none ∷ rest) trace s e fair r run =
      ground (arith, ap blocks_in e, ap length e)
  get_from-IsFair depth (some b ∷ rest) trace s e fair r run =
      let in_order : kept trace ≡ (taken trace ++ b ∷ []) ++ blocks_in rest =
        fair.in_order ∙ rw e (sym (append_assoc (taken trace) (b ∷ []) (blocks_in rest))) in
      ground (arith, in_order, ap length e)

  unmoved-IsFair :
      (depth : ℕ) (trace : List (Event B)) (s s' : State B)
      → s'.queue ≡ s.queue
      → s'.dropped ≡ s.dropped
      → IsFair depth trace s
      → Keeps depth (s', silent) trace
  unfolding kept taken lost
  unmoved-IsFair depth trace s s' e d fair = record {
    in_order = rw e fair.in_order;
    counted = rw d fair.counted;
    bounded = rw e fair.bounded;
  }

  fire-IsFair :
      (depth : ℕ) (action : Action B) (trace : List (Event B)) (s : State B) (r : State B × Event B)
      → fire depth action s ≡ some r
      → IsFair depth trace s
      → Keeps depth r trace
  unfolding fire
  fire-IsFair depth (block b) trace s r run fair =
      ground (arith, on_block-IsFair depth b trace s fair)
  fire-IsFair depth (failure e) trace s r run fair =
      ground (arith, on_failure-IsFair depth e trace s fair)
  fire-IsFair depth set_done trace s r run fair = ground (
    arith,
    unmoved-IsFair depth trace s (record s { done = true; reader = closing }) refl refl fair,
  )
  fire-IsFair depth put_sentinel trace s r run fair =
      ground (arith, on_sentinel-IsFair depth trace s fair)
  fire-IsFair depth check_error trace s r run fair =
      ground (arith, on_check_error-IsFair depth s.error trace s fair)
  fire-IsFair depth get trace s r run fair =
      ground (arith, get_from-IsFair depth s.queue trace s refl fair r)
  fire-IsFair depth time_out trace s r run fair =
      ground (arith, unmoved-IsFair depth trace s (record s { take = in_except }) refl refl fair)
  fire-IsFair depth check_done trace s r run fair =
      ground (arith, on_check_done-IsFair depth trace s fair)

  -- Under every schedule, the blocks that the queue took come out of `take` in the order in which
  -- they arrived, those not yet taken are in the queue, every other block is counted as dropped,
  -- and the queue keeps its bound, if it has one: a depth of 0 sets none.
  pub Reach-IsFair :
      (depth : ℕ) (trace : List (Event B)) (s : State B)
      → Reach depth trace s
      → IsFair depth trace s
  Reach-IsFair depth _ _ start = start-IsFair depth
  Reach-IsFair depth _ _ (next {trace = trace} {s = s} {s' = s'} {event = event} r action run) =
      fire-IsFair depth action trace s (s', event) run (Reach-IsFair depth trace s r)
