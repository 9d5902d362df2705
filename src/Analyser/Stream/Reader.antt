-- ===== src/Analyser/Stream/Reader.antt =====
-- scripts/i2s-skew.py: `stream_reader`. The reader thread and the consumer share the queue and the
-- dict `state`; each action below is one step of one of the two threads, up to its next access to
-- what they share. The sleeps, which only delay, are left out.
use Prim.Native.String.{String}
use esphome_snapcast.Base.{
  ℕ, ◌+◌, ◌≡◌, Bool, true, false, ◌||◌, Option, none, some, List, [], ◌∷◌, ◌++◌, ltb, ◌==◌,
  if◌then◌else◌, length,
}

abbrev pub max_restarts : ℕ
max_restarts = 6

-- Where the reader thread stands: in its loop, behind `break`, behind `state["done"] = True`, or
-- at its end.
pub data ReaderAt : Type 0 where
  reading latched closing stopped : ReaderAt

-- Where `take` stands: not called or at its loop's head, in `q.get`, or in `except queue.Empty`.
pub data TakeAt : Type 0 where
  at_head in_get in_except : TakeAt

-- The queue holds blocks and, at the end, the sentinel `None`.
pub record State (B : Type 0) : Type 0 where
  pub queue : List (Option B)
  pub dropped : ℕ
  pub error : Option String
  pub done : Bool
  pub restarts : ℕ
  pub reader : ReaderAt
  pub take : TakeAt

unfoldable pub new_state : {B : Type 0} → State B
new_state = record {
  queue = [];
  dropped = 0;
  error = none;
  done = false;
  restarts = 0;
  reader = reading;
  take = at_head;
}

-- The message of the exception that `take` raises.
pub data Raised : Type 0 where
  cause : String → Raised
  stream_ended : Raised

abbrev pub cause_of : Option String → Raised
cause_of none = stream_ended
cause_of (some e) = cause e

pub data Action (B : Type 0) : Type 0 where
  block : B → Action B
  failure : String → Action B
  set_done put_sentinel check_error get time_out check_done : Action B

-- What an action shows: a block that arrived, with whether the queue took it, a failed acquisition,
-- a block that `take` returned, or the exception that it raised.
pub data Event (B : Type 0) : Type 0 where
  arrived : B → Bool → Event B
  failed : String → Event B
  returned : B → Event B
  raised : Raised → Event B
  silent : Event B

-- Whether `put_nowait` finds room: a queue of `maxsize` 0 has no bound.
abbrev pub has_room : {A : Type 0} → ℕ → List A → Bool
has_room depth queue = depth == 0 || ltb (length queue) depth

module _ {B : Type 0} where
  -- A block got through: the restarts are forgotten, and it is queued or dropped.
  unfoldable pub on_block : ℕ → B → State B → State B × Event B
  on_block depth b s =
      let room = has_room depth s.queue in
      (
        (if room
            then record s { restarts = 0; queue = s.queue ++ some b ∷ [] }
            else record s { restarts = 0; dropped = s.dropped + 1 }),
        arrived b room,
      )

  -- `except Exception as e`
  unfoldable pub on_failure : String → State B → State B × Event B
  on_failure e s =
      let restarts = s.restarts + 1 in
      (
        (if ltb max_restarts restarts
            then record s { restarts = restarts; error = some e; reader = latched }
            else record s { restarts = restarts }),
        failed e,
      )

  -- `q.put_nowait(None)`, which gives up on a full queue
  unfoldable pub on_sentinel : ℕ → State B → State B × Event B
  on_sentinel depth s = (
    (if has_room depth s.queue
        then record s { queue = s.queue ++ none ∷ []; reader = stopped }
        else record s { reader = stopped }),
    silent,
  )

  -- `if state["error"]: raise ...`
  unfoldable pub on_check_error : Option String → State B → State B × Event B
  on_check_error none s = (record s { take = in_get }, silent)
  on_check_error (some e) s = (s, raised (cause e))

  -- `q.get`, on a queue that holds something
  unfoldable pub on_get : Option B → List (Option B) → State B → State B × Event B
  on_get none rest s = (record s { queue = rest; take = at_head }, raised (cause_of s.error))
  on_get (some b) rest s = (record s { queue = rest; take = at_head }, returned b)

  unfoldable pub get_from : List (Option B) → State B → Option (State B × Event B)
  unfolding on_get
  get_from [] s = none
  get_from (item ∷ rest) s = some (on_get item rest s)

  unfoldable pub on_check_done : State B → State B × Event B
  on_check_done s = (record s { take = at_head }, (if s.done then raised stream_ended else silent))

  -- One action, if the thread that it belongs to stands where it takes it. A `q.get` that finds
  -- nothing for five seconds times out.
  unfoldable pub fire : ℕ → Action B → State B → Option (State B × Event B)
  fire depth (block b) s = elim s.reader [ reading ↦ some (on_block depth b s) | _ ↦ none ]
  fire depth (failure e) s = elim s.reader [ reading ↦ some (on_failure e s) | _ ↦ none ]
  fire depth set_done s = elim s.reader [
    | latched ↦ some (record s { done = true; reader = closing }, silent)
    | _ ↦ none
  ]
  fire depth put_sentinel s = elim s.reader [ closing ↦ some (on_sentinel depth s) | _ ↦ none ]
  fire depth check_error s = elim s.take [ at_head ↦ some (on_check_error s.error s) | _ ↦ none ]
  fire depth get s = elim s.take [ in_get ↦ get_from s.queue s | _ ↦ none ]
  fire depth time_out s = elim s.take [
    | in_get ↦ elim s.queue [ [] ↦ some (record s { take = in_except }, silent) | _ ∷ _ ↦ none ]
    | _ ↦ none
  ]
  fire depth check_done s = elim s.take [ in_except ↦ some (on_check_done s) | _ ↦ none ]

  -- What may have happened, the latest event first, and the state that it leads to.
  pub data Reach (depth : ℕ) : List (Event B) → State B → Type 0 where
    start : Reach depth [] new_state
    next :
        {trace : List (Event B)} {s s' : State B} {event : Event B}
        → Reach depth trace s
        → (action : Action B) → fire depth action s ≡ some (s', event)
        → Reach depth (event ∷ trace) s'
