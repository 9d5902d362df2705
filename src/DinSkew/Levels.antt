-- ===== src/DinSkew/Levels.antt =====
-- scripts/din-skew.py: `binarize` is a Schmitt trigger.
use mathlib.Core.List.{append_assoc}
use esphome_snapcast.Base.{
  ℕ, suc, ◌<◌, ◌≡◌, refl, ◌∙◌, ap, sym, inl, inr, Bool, true, false, ◌||◌, Option, none, some, List,
  [], ◌∷◌, ◌++◌, arith, if◌then◌else◌, map, get_or, length, length-append, Bool-cases,
}
use mathlib.Core.Path.{ap₂}
use esphome_snapcast.DinSkew.Schmitt.{
  Sample, decided_from, max_index, accumulate, level_at, aboves_of, binarize,
}

-- A trigger with a state: the state goes up above the band, down below it, and holds within it.
abbrev pub trigger : Bool → Sample → Bool
trigger state s = if s.above then true else if s.below then false else state

abbrev pub schmitt : Bool → List Sample → List Bool
schmitt state [] = []
schmitt state (s ∷ ss) = trigger state s ∷ schmitt (trigger state s) ss

get_or-middle : (xs ys : List Bool) (b : Bool) → get_or (xs ++ b ∷ ys) (length xs) false ≡ b
get_or-middle [] ys b = refl
get_or-middle (x ∷ xs) ys b = get_or-middle xs ys b

-- The index is of a sample in front of the position.
abbrev IsBefore : Option ℕ → ℕ → Type 0
IsBefore none n = Unit
IsBefore (some i) n = i < n

decided-above :
    (m : Option ℕ) (i : ℕ) (s : Sample)
    → IsBefore m i
    → s.above || s.below ≡ true
    → max_index m (if s.above || s.below then some i else none) ≡ some i
decided-above none i s h d = rw d refl
decided-above (some j) i s h d = rw d (ground arith)

decided-none :
    (m : Option ℕ) (i : ℕ) (s : Sample)
    → s.above || s.below ≡ false
    → max_index m (if s.above || s.below then some i else none) ≡ m
decided-none none i s d = rw d refl
decided-none (some j) i s d = rw d refl

trigger-decided :
    (state : Bool) (s : Sample) → s.above || s.below ≡ true → trigger state s ≡ s.above
trigger-decided state s h = ground (arith, h)

trigger-held : (state : Bool) (s : Sample) → s.above || s.below ≡ false → trigger state s ≡ state
trigger-held state s h = ground (arith, h)

IsBefore-suc : (m : Option ℕ) (i : ℕ) → IsBefore m i → IsBefore m (suc i)
IsBefore-suc none i h = tt
IsBefore-suc (some j) i h = omega arith

-- The index that a sample leaves, and the level there.
next_index : Option ℕ → ℕ → Sample → Option ℕ
next_index m i s = max_index m (if s.above || s.below then some i else none)

next_index-IsBefore :
    (m : Option ℕ) (i : ℕ) (s : Sample) → IsBefore m i → IsBefore (next_index m i s) (suc i)
unfolding next_index
next_index-IsBefore m i s h = elim (Bool-cases (s.above || s.below)) [
  | inl yes' ↦ rw (decided-above m i s h yes') (omega arith)
  | inr not' ↦ rw (decided-none m i s not') (IsBefore-suc m i h)
]

next_index-level :
    (front : List Bool) (ss : List Sample) (m : Option ℕ) (state : Bool) (s : Sample)
    → IsBefore m (length front)
    → level_at (front ++ s.above ∷ aboves_of ss) m ≡ state
    → level_at (front ++ s.above ∷ aboves_of ss) (next_index m (length front) s) ≡ trigger state s
unfolding next_index
next_index-level front ss m state s h e = elim (Bool-cases (s.above || s.below)) [
  | inl yes' ↦
      rw (decided-above m (length front) s h yes')
        (get_or-middle front (aboves_of ss) s.above ∙ sym (trigger-decided state s yes'))
  | inr not' ↦ rw (decided-none m (length front) s not') (e ∙ sym (trigger-held state s not'))
]

length-snoc : (xs : List Bool) (b : Bool) → length (xs ++ b ∷ []) ≡ suc (length xs)
length-snoc xs b = omega (arith, length-append xs (b ∷ []))

accumulate-step :
    (all : List Bool) (i : ℕ) (s : Sample) (ss : List Sample) (m m' : Option ℕ)
    → next_index m i s ≡ m'
    → map (level_at all) (accumulate m (decided_from i (s ∷ ss)))
      ≡ level_at all m' ∷ map (level_at all) (accumulate m' (decided_from (suc i) ss))
unfolding accumulate decided_from next_index
accumulate-step all i s ss m m' e =
    ap (λ k. level_at all k ∷ map (level_at all) (accumulate k (decided_from (suc i) ss))) e

-- The rest of the samples, where the level of the index so far is the state.
accumulate-schmitt :
    (front all : List Bool) (i : ℕ) (ss : List Sample) (m : Option ℕ) (state : Bool)
    → all ≡ front ++ aboves_of ss
    → i ≡ length front
    → IsBefore m (length front)
    → level_at (front ++ aboves_of ss) m ≡ state
    → map (level_at all) (accumulate m (decided_from i ss)) ≡ schmitt state ss
accumulate-schmitt front all i [] m state ea ei h e = unfold accumulate decided_from in refl
accumulate-schmitt front all i (s ∷ ss) m state ea ei h e =
    let m' = next_index m (length front) s in
    let front' = front ++ s.above ∷ [] in
    let regroup = append_assoc front (s.above ∷ []) (aboves_of ss) in
    let here = next_index-level front ss m state s h e in
    let before : IsBefore m' (length front') =
      rw (length-snoc front s.above) (next_index-IsBefore m (length front) s h) in
    let rest =
      accumulate-schmitt front' all (suc i) ss m' (trigger state s) (ea ∙ sym regroup)
        (ap suc ei ∙ sym (length-snoc front s.above)) before (rw regroup here) in
    accumulate-step all i s ss m m' (ap (λ n. next_index m n s) ei) ∙ ap₂ ◌∷◌ (rw ea here) rest

-- The vectorised comparison is a Schmitt trigger that starts low: its level goes up with the first
-- sample above the band, down with the first below it, and holds while the samples stay within.
pub binarize-schmitt : (ss : List Sample) → binarize ss ≡ schmitt false ss
unfolding binarize
binarize-schmitt ss = accumulate-schmitt [] (aboves_of ss) 0 ss none false refl refl tt refl
