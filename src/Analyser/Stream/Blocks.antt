-- ===== src/Analyser/Stream/Blocks.antt =====
-- scripts/i2s-skew.py: `stream_blocks`. The output of one sigrok process is the list of its bytes;
-- how many of them a `read` hands over is up to the system, and a parameter. A run is the list of
-- its acquisitions: the generator itself has no end.
use Prim.Native.String.{String}
use text.Mathlib.Text.{find?}
use esphome_snapcast.Base.{
  ℕ, zero, suc, ◌+◌, ◌-◌, ◌*◌, ◌/◌, min, max, Bool, false, true, ◌&&◌, ◌||◌, Option, none, some,
  List, [], ◌∷◌, ◌++◌, ltb, leb, if◌then◌else◌, length, take, drop, concat,
}

-- `--samples`, `--stream-seconds` in milliseconds, and the sample rate in hertz.
pub record Args : Type 0 where
  pub samples : ℕ
  pub stream_ms : ℕ
  pub rate_hz : ℕ

-- `1 << 22`, the most that one `read` asks for
abbrev pub read_limit : ℕ
read_limit = 4194304

-- The chunks of one block, and what the pipe still holds.
pub record Filled (A : Type 0) : Type 0 where
  pub chunks : List (List A)
  pub got : ℕ
  pub rest : List A

-- The blocks of one acquisition, and the bytes of the one that its end cut off.
pub record Acquired (A : Type 0) : Type 0 where
  pub blocks : List (List A)
  pub left : List A

module _ {A : Type 0} (deliver : List A → ℕ → ℕ) (block : ℕ) where
  -- `while got < block`; every round but the last reads at least one byte.
  unfoldable pub fill_block : ℕ → List (List A) → ℕ → List A → Filled A
  fill_block zero chunks got pipe = record { chunks = chunks; got = got; rest = pipe }
  fill_block (suc fuel) chunks got pipe =
      let count = deliver pipe (min read_limit (block - got)) in
      let d = take count pipe in
      let more = fill_block fuel (chunks ++ d ∷ []) (got + length d) (drop count pipe) in
      let stop : Filled A = record { chunks = chunks; got = got; rest = pipe } in
      if ltb got block then elim d [ [] ↦ stop | _ ∷ _ ↦ more ] else stop

  -- The inner `while True`; every round but the last takes a block off the pipe.
  unfoldable pub acquire : ℕ → List A → Acquired A
  acquire zero pipe = record { blocks = []; left = pipe }
  acquire (suc fuel) pipe =
      let f = fill_block (suc block) [] 0 pipe in
      let more = acquire fuel f.rest in
      if ltb f.got block
      then record { blocks = []; left = concat f.chunks }
      else record { blocks = concat f.chunks ∷ more.blocks; left = more.left }

-- `expect`, the blocks that a whole acquisition has
unfoldable pub expected_blocks : Args → ℕ
expected_blocks args = args.stream_ms * args.rate_hz / 1000 / args.samples

-- `nblk < max(1, expect // 2)`
unfoldable pub is_short : Args → ℕ → Bool
unfolding expected_blocks
is_short args nblk = ltb nblk (max 1 (expected_blocks args / 2))

abbrev pub contains : String → String → Bool
contains s t = elim (find? s t) [ none ↦ false | some _ ↦ true ]

-- `err and ("LIBUSB" in err or "Failed to open" in err)`; an empty text contains neither.
unfoldable pub is_claim_error : String → Bool
is_claim_error err = contains err "LIBUSB" || contains err "Failed to open"

pub data StreamError : Type 0 where
  cannot_claim : String → StreamError
  not_sustained : StreamError

-- What sigrok wrote in one acquisition, and what stderr said by its end.
pub record Acquisition (A : Type 0) : Type 0 where
  pub stdout : List A
  pub err : String

-- The blocks that a run yields and the exception that ended it, if one did.
pub record Streamed (A : Type 0) : Type 0 where
  pub blocks : List (List A)
  pub raised : Option StreamError

module _ {A : Type 0} (deliver : List A → ℕ → ℕ) (args : Args) where
  abbrev pub blocks_of : Acquisition A → List (List A)
  blocks_of a = (acquire deliver args.samples (suc (length a.stdout)) a.stdout).blocks

  -- `stream_blocks`, over the acquisitions of a run
  unfoldable pub stream_blocks : ℕ → List (Acquisition A) → Streamed A
  stream_blocks starved [] = record { blocks = []; raised = none }
  stream_blocks starved (a ∷ more) =
      let got = blocks_of a in
      let short = is_short args (length got) in
      let starved' = if short then starved + 1 else 0 in
      let rest = stream_blocks starved' more in
      if is_claim_error a.err
      then record { blocks = got; raised = some (cannot_claim a.err) }
      else if short && leb 3 starved'
      then record { blocks = got; raised = some not_sustained }
      else record { blocks = got ++ rest.blocks; raised = rest.raised }
