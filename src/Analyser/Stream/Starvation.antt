-- ===== src/Analyser/Stream/Starvation.antt =====
-- scripts/i2s-skew.py: when `stream_blocks` gives up on an analyser that does not sustain its rate.
use esphome_snapcast.Base.{
  ℕ, zero, suc, ◌+◌, ◌≤◌, ◌≡◌, refl, ◌∙◌, ap, inl, inr, Bool, true, false, Option, none, some, List,
  [], ◌∷◌, ◌++◌, arith, leb, if◌then◌else◌, length, map, replicate, concat, Bool-cases,
}
use esphome_snapcast.Analyser.Stream.Blocks.{
  Args, Acquisition, StreamError, not_sustained, blocks_of, is_short, is_claim_error, stream_blocks,
}

-- Somewhere in the list there are three `true`s in a row.
pub three_in_row : List Bool → Bool
three_in_row [] = false
three_in_row (true ∷ true ∷ true ∷ bs) = true
three_in_row (b ∷ bs) = three_in_row bs

abbrev pub raised_if : Bool → Option StreamError
raised_if b = if b then some not_sustained else none

module _ {A : Type 0} (deliver : List A → ℕ → ℕ) (args : Args) where
  -- Whether an acquisition stopped early, and that none names a device that cannot be claimed.
  abbrev pub shortness : List (Acquisition A) → List Bool
  shortness acqs = map (λ a. is_short args (length (blocks_of deliver args a))) acqs

  abbrev pub NoClaimError : List (Acquisition A) → Type 0
  NoClaimError [] = Unit
  NoClaimError (a ∷ acqs) = (is_claim_error a.err ≡ false) × NoClaimError acqs

  short_step :
      (starved : ℕ) (a : Acquisition A) (acqs : List (Acquisition A))
      → is_claim_error a.err ≡ false
      → is_short args (length (blocks_of deliver args a)) ≡ true
      → (stream_blocks deliver args starved (a ∷ acqs)).raised ≡ (
          if leb 3 (starved + 1)
          then some not_sustained
          else (stream_blocks deliver args (starved + 1) acqs).raised)
  unfolding stream_blocks
  short_step starved a acqs ok short = ground arith

  full_step :
      (starved : ℕ) (a : Acquisition A) (acqs : List (Acquisition A))
      → is_claim_error a.err ≡ false
      → is_short args (length (blocks_of deliver args a)) ≡ false
      → (stream_blocks deliver args starved (a ∷ acqs)).raised
        ≡ (stream_blocks deliver args 0 acqs).raised
  unfolding stream_blocks
  full_step starved a acqs ok full = ground arith

  stream_from :
      (starved : ℕ) (acqs : List (Acquisition A))
      → starved ≤ 2
      → NoClaimError acqs
      → (stream_blocks deliver args starved acqs).raised
        ≡ raised_if (three_in_row (replicate starved true ++ shortness acqs))
  stream_from zero [] few ok = unfold stream_blocks three_in_row in refl
  stream_from (suc zero) [] few ok = unfold stream_blocks three_in_row in refl
  stream_from (suc (suc zero)) [] few ok = unfold stream_blocks three_in_row in refl
  stream_from (suc (suc (suc n))) acqs few ok = absurd (omega arith)
  stream_from zero (a ∷ acqs) few (ok, oks) =
      elim (Bool-cases (is_short args (length (blocks_of deliver args a)))) [
        | inl short ↦
            short_step zero a acqs ok short ∙ stream_from 1 acqs (omega arith) oks ∙ rw short refl
        | inr full ↦
            full_step zero a acqs ok full
            ∙ stream_from 0 acqs (omega arith) oks
            ∙ rw full (unfold three_in_row in refl)
      ]
  stream_from (suc zero) (a ∷ acqs) few (ok, oks) =
      elim (Bool-cases (is_short args (length (blocks_of deliver args a)))) [
        | inl short ↦
            short_step (suc zero) a acqs ok short
            ∙ stream_from 2 acqs (omega arith) oks
            ∙ rw short refl
        | inr full ↦
            full_step (suc zero) a acqs ok full
            ∙ stream_from 0 acqs (omega arith) oks
            ∙ rw full (unfold three_in_row in refl)
      ]
  stream_from (suc (suc zero)) (a ∷ acqs) few (ok, oks) =
      elim (Bool-cases (is_short args (length (blocks_of deliver args a)))) [
        | inl short ↦
            short_step (suc (suc zero)) a acqs ok short ∙ rw short (unfold three_in_row in refl)
        | inr full ↦
            full_step (suc (suc zero)) a acqs ok full
            ∙ stream_from 0 acqs (omega arith) oks
            ∙ rw full (unfold three_in_row in refl)
      ]

  kept_step :
      (starved : ℕ) (a : Acquisition A) (acqs : List (Acquisition A))
      → (stream_blocks deliver args starved (a ∷ acqs)).raised ≡ none
      → (starved' : ℕ) × ((stream_blocks deliver args starved' acqs).raised ≡ none)
        × ((stream_blocks deliver args starved (a ∷ acqs)).blocks
            ≡ blocks_of deliver args a ++ (stream_blocks deliver args starved' acqs).blocks)
  unfolding stream_blocks
  kept_step starved a acqs going =
      let starved' = if is_short args (length (blocks_of deliver args a)) then starved + 1 else 0 in
      (starved', ground arith, ground arith)

  kept_from :
      (starved : ℕ) (acqs : List (Acquisition A))
      → NoClaimError acqs
      → (stream_blocks deliver args starved acqs).raised ≡ none
      → (stream_blocks deliver args starved acqs).blocks
        ≡ concat (map (blocks_of deliver args) acqs)
  kept_from starved [] ok going = unfold stream_blocks in refl
  kept_from starved (a ∷ acqs) (ok, oks) going =
      let (starved', still, kept) = kept_step starved a acqs going in
      kept ∙ ap (λ r. blocks_of deliver args a ++ r) (kept_from starved' acqs oks still)

  -- Over a run in which the analyser can always be claimed, the stream gives up exactly when three
  -- acquisitions in a row stop early; as long as it does not, every block of every acquisition
  -- is yielded, in order.
  pub stream_blocks-three_in_row :
      (acqs : List (Acquisition A))
      → NoClaimError acqs
      → let run = stream_blocks deliver args 0 acqs in
        (run.raised ≡ raised_if (three_in_row (shortness acqs)))
        × (run.raised ≡ none → run.blocks ≡ concat (map (blocks_of deliver args) acqs))
  unfolding three_in_row
  stream_blocks-three_in_row acqs ok = (stream_from 0 acqs (omega arith) ok, kept_from 0 acqs ok)
