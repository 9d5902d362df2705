-- ===== src/Config/Words.antt =====
-- components/snapclient/__init__.py: what a lookup of a word in a table finds.
use Prim.Native.String.{String}
use text.Mathlib.Text.{◌==◌ as str_eq}
use text.Mathlib.TextEquality.{eq_iff}
use esphome_snapcast.Base.{
  ◌≡◌, ◌≢◌, ◌⊎◌, inl, inr, refl, true, false, Option, none, some, List, [], ◌∷◌, Bool-cases,
}
use esphome_snapcast.Config.Schema.{enum_lookup, enum_or, or_default, is_some}

other_name : (name word : String) → str_eq name word ≡ false → name ≢ word
other_name name word h e = cc (h, (eq_iff name word).1 e)

module _ {A : Type 0} where
  -- The value of the first entry of the word.
  abbrev pub IsEntry : List (String × A) → String → A → Type 0
  IsEntry [] word v = ⊥
  IsEntry ((name, value) ∷ table) word v =
      ((name ≡ word) × (v ≡ value)) ⊎ ((name ≢ word) × IsEntry table word v)

  abbrev pub IsAbsent : List (String × A) → String → Type 0
  IsAbsent [] word = Unit
  IsAbsent ((name, value) ∷ table) word = (name ≢ word) × IsAbsent table word

  -- What a lookup finds, on both branches.
  abbrev pub Finds : List (String × A) → String → Option A → Type 0
  Finds table word none = IsAbsent table word
  Finds table word (some v) = IsEntry table word v

  Finds-cons :
      (name word : String) (value : A) (table : List (String × A)) (o : Option A)
      → name ≢ word
      → Finds table word o
      → Finds ((name, value) ∷ table) word o
  Finds-cons name word value table none ne h = (ne, h)
  Finds-cons name word value table (some v) ne h = inr (ne, h)

  pub enum_lookup-Finds :
      (table : List (String × A)) (word : String) → Finds table word (enum_lookup table word)
  unfolding enum_lookup
  enum_lookup-Finds [] word = tt
  enum_lookup-Finds ((name, value) ∷ table) word = elim (Bool-cases (str_eq name word)) [
    | inl same ↦ rw same (inl ((eq_iff name word).0 same, refl))
    | inr other ↦ rw other (
        Finds-cons name word value table (enum_lookup table word) (other_name name word other)
          (enum_lookup-Finds table word))
  ]

  pub enum_lookup-entry :
      (table : List (String × A)) (word : String) (v : A)
      → IsEntry table word v
      → enum_lookup table word ≡ some v
  unfolding enum_lookup
  enum_lookup-entry [] word v h = absurd h
  enum_lookup-entry ((name, value) ∷ table) word v (inl (same, e)) =
      rw ((eq_iff name word).1 same, e) refl
  enum_lookup-entry ((name, value) ∷ table) word v (inr (ne, h)) =
      elim (Bool-cases (str_eq name word)) [
        | inl same ↦ absurd (ne ((eq_iff name word).0 same))
        | inr other ↦ rw other (enum_lookup-entry table word v h)
      ]

  -- An absent word stands for the default, another for its entry.
  abbrev pub IsWord : List (String × A) → A → Option String → A → Type 0
  IsWord table d none v = v ≡ d
  IsWord table d (some word) v = IsEntry table word v

  found-IsWord :
      (table : List (String × A)) (word : String) (d : A) (o : Option A)
      → Finds table word o
      → is_some o ≡ true
      → IsEntry table word (or_default d o)
  found-IsWord table word d none h e = cc e
  found-IsWord table word d (some v) h e = h

  pub enum_or-IsWord :
      (table : List (String × A)) (d : A) (word : Option String)
      → is_some (enum_or table d word) ≡ true
      → IsWord table d word (or_default d (enum_or table d word))
  unfolding enum_or
  enum_or-IsWord table d none h = refl
  enum_or-IsWord table d (some word) h =
      found-IsWord table word d (enum_lookup table word) (enum_lookup-Finds table word) h

  pub enum_or-known :
      (table : List (String × A)) (d : A) (word : Option String) (v : A)
      → IsWord table d word v
      → (is_some (enum_or table d word) ≡ true) × (v ≡ or_default d (enum_or table d word))
  unfolding enum_or
  enum_or-known table d none v h = (refl, h)
  enum_or-known table d (some word) v h = rw (enum_lookup-entry table word v h) (refl, refl)
