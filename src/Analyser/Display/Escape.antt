-- ===== src/Analyser/Display/Escape.antt =====
-- scripts/i2s-skew.py: `_xml_escape`, on the code points of a text.
use esphome_snapcast.Base.{
  ℕ, zero, suc, ◌<◌, ◌≡◌, ◌≢◌, refl, ◌∙◌, ap, sym, inl, inr, true, false, Option, none, some, List,
  [], ◌∷◌, ◌++◌, arith, ◌==◌, if◌then◌else◌, length, length-append, Bool-cases, ==_iff,
}

abbrev pub Text : Type 0
Text = List ℕ

-- `replace`, of one character
unfoldable pub replace : ℕ → Text → Text → Text
replace c by [] = []
replace c by (x ∷ xs) = let rest = replace c by xs in if x == c then by ++ rest else x ∷ rest

-- `&amp;`, `&lt;`, `&gt;` and `&quot;`, each behind its ampersand
abbrev pub amp_name : Text
amp_name = 97 ∷ 109 ∷ 112 ∷ 59 ∷ []

abbrev pub lt_name : Text
lt_name = 108 ∷ 116 ∷ 59 ∷ []

abbrev pub gt_name : Text
gt_name = 103 ∷ 116 ∷ 59 ∷ []

abbrev pub quot_name : Text
quot_name = 113 ∷ 117 ∷ 111 ∷ 116 ∷ 59 ∷ []

unfoldable pub xml_escape : Text → Text
unfolding replace
xml_escape s =
    replace 34 (38 ∷ quot_name)
      (replace 62 (38 ∷ gt_name) (replace 60 (38 ∷ lt_name) (replace 38 (38 ∷ amp_name) s)))

-- What a reader of XML makes of the text: `none` at an ampersand that begins no entity.
abbrev pub strip_prefix : Text → Text → Option Text
strip_prefix [] s = some s
strip_prefix (p ∷ ps) [] = none
strip_prefix (p ∷ ps) (c ∷ s) = if p == c then strip_prefix ps s else none

abbrev pub entity : Text → Option (ℕ × Text)
entity s = elim (strip_prefix amp_name s) [
  | some rest ↦ some (38, rest)
  | none ↦ elim (strip_prefix lt_name s) [
    | some rest ↦ some (60, rest)
    | none ↦ elim (strip_prefix gt_name s) [
      | some rest ↦ some (62, rest)
      | none ↦ elim (strip_prefix quot_name s) [ some rest ↦ some (34, rest) | none ↦ none ]
    ]
  ]
]

abbrev pub cons_to : ℕ → Option Text → Option Text
cons_to c none = none
cons_to c (some s) = some (c ∷ s)

unfoldable pub unescape : ℕ → Text → Option Text
unescape zero s = none
unescape (suc fuel) [] = some []
unescape (suc fuel) (c ∷ s) = elim (c == 38) [
  | false ↦ cons_to c (unescape fuel s)
  | true ↦ elim (entity s) [ none ↦ none | some (d, rest) ↦ cons_to d (unescape fuel rest) ]
]

-- No character of the markup.
abbrev pub IsSafe : Text → Type 0
IsSafe [] = Unit
IsSafe (c ∷ s) = (c ≢ 60) × (c ≢ 62) × (c ≢ 34) × IsSafe s

-- The character of the text that is escaped, on its own.
abbrev escaped : ℕ → Text
escaped c =
    if c == 38
    then 38 ∷ amp_name
    else if c == 60
    then 38 ∷ lt_name
    else if c == 62
    then 38 ∷ gt_name
    else if c == 34
    then 38 ∷ quot_name
    else c ∷ []

xml_escape-cons : (c : ℕ) (s : Text) → xml_escape (c ∷ s) ≡ escaped c ++ xml_escape s
unfolding xml_escape replace
xml_escape-cons c s = ground (arith)

unescape-name :
    (d fuel : ℕ) (name rest s : Text)
    → entity (name ++ rest) ≡ some (d, rest)
    → unescape fuel rest ≡ some s
    → unescape (suc fuel) (38 ∷ name ++ rest) ≡ some (d ∷ s)
unfolding unescape
unescape-name d fuel name rest s e h = rw (e, h) refl

unescape-plain :
    (c fuel : ℕ) (rest s : Text)
    → (c == 38) ≡ false
    → unescape fuel rest ≡ some s
    → unescape (suc fuel) (c ∷ rest) ≡ some (c ∷ s)
unfolding unescape
unescape-plain c fuel rest s e h = rw (e, unescape) (rw h refl)

-- How a character is escaped: to an entity that names it, or not at all.
data Escaped (c : ℕ) : Text → Type 0 where
  named :
      (name : Text)
      → IsSafe name
      → ((rest : Text) → entity (name ++ rest) ≡ some (c, rest))
      → Escaped c (38 ∷ name)
  plain : (c == 38) ≡ false → c ≢ 60 → c ≢ 62 → c ≢ 34 → Escaped c (c ∷ [])

is_named :
    (c d : ℕ) (name : Text)
    → (c == d) ≡ true
    → IsSafe name
    → ((rest : Text) → entity (name ++ rest) ≡ some (d, rest))
    → Escaped c (38 ∷ name)
is_named c d name h safe e =
    named name safe (λ rest. e rest ∙ ap (λ n. some (n, rest)) (sym ((==_iff c d).0 h)))

escaped-Escaped : (c : ℕ) → Escaped c (escaped c)
escaped-Escaped c = elim (Bool-cases (c == 38)) [
  | inl is_amp ↦ rw is_amp (is_named c 38 amp_name is_amp (omega arith) (λ rest. refl))
  | inr no_amp ↦ elim (Bool-cases (c == 60)) [
    | inl is_lt ↦ rw (no_amp, is_lt) (is_named c 60 lt_name is_lt (omega arith) (λ rest. refl))
    | inr no_lt ↦ elim (Bool-cases (c == 62)) [
      | inl is_gt ↦
          rw (no_amp, no_lt, is_gt) (is_named c 62 gt_name is_gt (omega arith) (λ rest. refl))
      | inr no_gt ↦ elim (Bool-cases (c == 34)) [
        | inl is_quot ↦
            rw (no_amp, no_lt, no_gt, is_quot)
              (is_named c 34 quot_name is_quot (omega arith) (λ rest. refl))
        | inr no_quot ↦
            rw (no_amp, no_lt, no_gt, no_quot)
              (plain no_amp (ground (arith, no_lt)) (ground (arith, no_gt))
                (ground (arith, no_quot)))
      ]
    ]
  ]
]

IsSafe-append : (xs ys : Text) → IsSafe xs → IsSafe ys → IsSafe (xs ++ ys)
IsSafe-append [] ys hx hy = hy
IsSafe-append (x ∷ xs) ys (a, b, c, hx) hy = (a, b, c, IsSafe-append xs ys hx hy)

-- A text is read back by as much fuel as it is long, and one more.
abbrev pub IsReadAs : Text → Text → Type 0
IsReadAs out s = (fuel : ℕ) → length out < fuel → unescape fuel out ≡ some s

Escaped-IsReadAs :
    (c : ℕ) (front rest s : Text)
    → Escaped c front
    → IsReadAs rest s
    → IsReadAs (front ++ rest) (c ∷ s)
Escaped-IsReadAs c _ rest s (named name safe e) h zero enough = absurd (omega arith)
Escaped-IsReadAs c _ rest s (named name safe e) h (suc fuel) enough =
    unescape-name c fuel name rest s (e rest)
      (h fuel (omega (arith, enough, length-append name rest)))
Escaped-IsReadAs c _ rest s (plain amp lt gt quot) h zero enough = absurd (omega arith)
Escaped-IsReadAs c _ rest s (plain amp lt gt quot) h (suc fuel) enough =
    unescape-plain c fuel rest s amp (h fuel (omega arith))

Escaped-IsSafe : (c : ℕ) (front : Text) → Escaped c front → IsSafe front
Escaped-IsSafe c _ (named name safe e) = (omega arith, omega arith, omega arith, safe)
Escaped-IsSafe c _ (plain amp lt gt quot) = (lt, gt, quot, tt)

nil-IsReadAs : IsReadAs [] []
unfolding unescape
nil-IsReadAs zero h = absurd (omega arith)
nil-IsReadAs (suc fuel) h = refl

-- An escaped text holds none of the characters that end an element or an attribute, and an XML reader
-- gets the text itself back from it, whatever it holds, ampersands and entities among it.
pub xml_escape-IsReadAs : (s : Text) → IsSafe (xml_escape s) × IsReadAs (xml_escape s) s
xml_escape-IsReadAs [] = unfold xml_escape in (tt, nil-IsReadAs)
xml_escape-IsReadAs (c ∷ s) =
    let (safe, read) = xml_escape-IsReadAs s in
    rw (xml_escape-cons c s) (
      IsSafe-append (escaped c) (xml_escape s) (Escaped-IsSafe c (escaped c) (escaped-Escaped c))
          safe,
      Escaped-IsReadAs c (escaped c) (xml_escape s) s (escaped-Escaped c) read,
    )
