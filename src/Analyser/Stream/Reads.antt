-- ===== src/Analyser/Stream/Reads.antt =====
-- scripts/i2s-skew.py: the blocks of `stream_blocks` do not depend on how the reads are cut.
use mathlib.Core.List.{append-nil, append_assoc}
use mathlib.Core.Path.{ap₂}
use esphome_snapcast.Base.{
  ℕ, zero, suc, ◌+◌, ◌-◌, ◌≤◌, ◌<◌, ◌≡◌, refl, ◌∙◌, ap, sym, inl, inr, min, List, [], ◌∷◌, ◌++◌,
  map, replicate, take-beyond, arith, length, take, drop, concat, concat-append, take-split,
  drop-split, take-nil, drop-nil, length-take, length-drop, le_or_lt, take-append-drop, take-min,
  drop-min,
}
use esphome_snapcast.Analyser.Stream.Blocks.{Filled, Acquired, read_limit, fill_block, acquire}

-- A read hands over no more than it is asked for, and at least one byte unless the stream ended.
pub record IsPipe {A : Type 0} (deliver : List A → ℕ → ℕ) : Type 0 where
  pub bounded : (pipe : List A) (n : ℕ) → deliver pipe n ≤ n
  pub progress : (pipe : List A) (n : ℕ) → 0 < length pipe → 0 < n → 0 < deliver pipe n

module _ {A : Type 0} (deliver : List A → ℕ → ℕ) (h : IsPipe deliver) (block : ℕ) where
  take-cons :
      (k : ℕ) (pipe : List A)
      → 0 < k
      → 0 < length pipe
      → (x : A) × (xs : List A) × (take k pipe ≡ x ∷ xs)
  take-cons zero pipe some_read more = absurd (omega arith)
  take-cons (suc k) [] some_read more = absurd (omega arith)
  take-cons (suc k) (x ∷ xs) some_read more = (x, take k xs, refl)

  fill_full :
      (fuel : ℕ) (chunks : List (List A)) (got : ℕ) (pipe : List A)
      → block ≤ got
      → fill_block deliver block fuel chunks got pipe
        ≡ record { chunks = chunks; got = got; rest = pipe }
  unfolding fill_block
  fill_full zero chunks got pipe full = refl
  fill_full (suc fuel) chunks got pipe full = ground arith

  fill_step :
      (fuel : ℕ) (chunks : List (List A)) (got : ℕ) (pipe : List A)
      → got < block
      → 0 < length pipe
      → (k : ℕ) × (0 < k)
        × (k ≤ min (block - got) (length pipe))
        × (fill_block deliver block (suc fuel) chunks got pipe
            ≡ fill_block deliver block fuel (chunks ++ take k pipe ∷ []) (got + k) (drop k pipe))
  unfolding fill_block
  fill_step fuel chunks got pipe room more =
      let n = min read_limit (block - got) in
      let k = deliver pipe n in
      let small : k ≤ n = h.bounded pipe n in
      let some_read : 0 < k = h.progress pipe n more (omega arith) in
      let (x, xs, e) = take-cons k pipe some_read more in
      (
        min k (length pipe),
        omega arith,
        omega arith,
        rw (take-min k pipe, drop-min k pipe, sym (length-take k pipe)) (ground (arith, e)),
      )

  fill_end :
      (fuel : ℕ) (chunks : List (List A)) (got : ℕ)
      → fill_block deliver block fuel chunks got []
        ≡ record { chunks = chunks; got = got; rest = [] }
  unfolding fill_block
  fill_end zero chunks got = refl
  fill_end (suc fuel) chunks got =
      ground (arith, take-nil {A = A} (deliver [] (min read_limit (block - got))))

  -- What a block takes off the pipe, however the reads are cut.
  pub record IsFilled (chunks : List (List A)) (got : ℕ) (pipe : List A) (f : Filled A)
      : Type 0 where
    pub joined : concat f.chunks ≡ concat chunks ++ take (block - got) pipe
    pub rest_eq : f.rest ≡ drop (block - got) pipe
    pub got_eq : f.got ≡ got + min (block - got) (length pipe)

  fill_block-IsFilled :
      (fuel : ℕ) (chunks : List (List A)) (got : ℕ) (pipe : List A)
      → block < fuel + got
      → got ≤ block
      → IsFilled chunks got pipe (fill_block deliver block fuel chunks got pipe)
  fill_block-IsFilled zero chunks got pipe enough below = absurd (omega arith)
  fill_block-IsFilled (suc fuel) chunks got [] enough below =
      rw (fill_end (suc fuel) chunks got) (record {
        joined = rw (take-nil {A = A} (block - got)) (sym (append-nil (concat chunks)));
        rest_eq = sym (drop-nil (block - got));
        got_eq = omega arith;
      })
  fill_block-IsFilled (suc fuel) chunks got (x ∷ xs) enough below = elim (le_or_lt block got) [
    | inl full ↦ rw (fill_full (suc fuel) chunks got (x ∷ xs) full) (
        let none_left : block - got ≡ 0 = omega arith in
        record {
          joined = rw none_left (sym (append-nil (concat chunks)));
          rest_eq = rw none_left refl;
          got_eq = omega arith;
        })
    | inr room ↦
        let (k, some_read, small, step) = fill_step fuel chunks got (x ∷ xs) room (omega arith) in
        let d = take k (x ∷ xs) in
        let k_min : k ≤ block - got = omega arith in
        let f =
          fill_block-IsFilled fuel (chunks ++ d ∷ []) (got + k) (drop k (x ∷ xs)) (omega arith)
            (omega arith) in
        let left : block - (got + k) ≡ block - got - k = omega arith in
        rw step (record {
          joined =
              f.joined
              ∙ rw
                  (
                    concat-append chunks (d ∷ []),
                    append-nil d,
                    left,
                    append_assoc (concat chunks) d (take (block - got - k) (drop k (x ∷ xs))),
                    take-split k (block - got) (x ∷ xs) k_min,
                  )
                  refl;
          rest_eq = f.rest_eq ∙ rw left (drop-split k (block - got) (x ∷ xs) k_min);
          got_eq = omega (arith, f.got_eq, length-drop k (x ∷ xs));
        })
  ]

  -- Each block has the size asked for, the blocks and the cut-off one are the output in order, and
  -- the cut-off one is too short.
  pub record IsAcquired (pipe : List A) (a : Acquired A) : Type 0 where
    pub joined : concat a.blocks ++ a.left ≡ pipe
    pub sizes : map length a.blocks ≡ replicate (length a.blocks) block
    pub left_short : length a.left < block

  acquire-step :
      (fuel : ℕ) (pipe : List A)
      → let f = fill_block deliver block (suc block) [] 0 pipe in
        (f.got < block
          → acquire deliver block (suc fuel) pipe ≡ record { blocks = []; left = concat f.chunks })
        × (block ≤ f.got
            → acquire deliver block (suc fuel) pipe ≡ record {
              blocks = concat f.chunks ∷ (acquire deliver block fuel f.rest).blocks;
              left = (acquire deliver block fuel f.rest).left;
            })
  unfolding acquire
  acquire-step fuel pipe = (λ short. ground arith, λ full. ground arith)

  -- Whatever sizes the system's reads have, an acquisition is cut into its consecutive blocks of
  -- the size asked for; what is lost is less than one block, at the end. One round more than the
  -- output has bytes is enough.
  pub acquire-IsAcquired :
      (fuel : ℕ) (pipe : List A)
      → 0 < block
      → length pipe < fuel
      → IsAcquired pipe (acquire deliver block fuel pipe)
  acquire-IsAcquired zero pipe some enough = absurd (omega arith)
  acquire-IsAcquired (suc fuel) pipe some enough =
      let f = fill_block deliver block (suc block) [] 0 pipe in
      let filled = fill_block-IsFilled (suc block) [] 0 pipe (omega arith) (omega arith) in
      let whole : block - 0 ≡ block = omega arith in
      let got_eq : f.got ≡ min block (length pipe) = omega (arith, filled.got_eq) in
      let joined : concat f.chunks ≡ take block pipe = rw whole at filled.joined in
      let rest_eq : f.rest ≡ drop block pipe = rw whole at filled.rest_eq in
      elim (le_or_lt block f.got) [
        | inl full ↦
            let tail = acquire deliver block fuel f.rest in
            let more =
              acquire-IsAcquired fuel f.rest some
                (omega (arith, ap length rest_eq, length-drop block pipe)) in
            let size : length (concat f.chunks) ≡ block =
              omega (arith, ap length joined, length-take block pipe) in
            rw ((acquire-step fuel pipe).1 full) (record {
              joined =
                  append_assoc (concat f.chunks) (concat tail.blocks) tail.left
                  ∙ ap (λ r. concat f.chunks ++ r) more.joined
                  ∙ rw (joined, rest_eq) (take-append-drop block pipe);
              sizes = ap₂ ◌∷◌ size more.sizes;
              left_short = more.left_short;
            })
        | inr short ↦ rw ((acquire-step fuel pipe).0 short) (record {
          joined = joined ∙ take-beyond block pipe (omega arith);
          sizes = refl;
          left_short = omega (arith, ap length joined, length-take block pipe);
        })
      ]
