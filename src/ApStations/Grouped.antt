-- ===== src/ApStations/Grouped.antt =====
-- scripts/ap-stations.py: the groups of the rows by radio.
use mathlib.Core.Path.{subst}
use mathlib.Core.List.{append_assoc, append-nil}
use esphome_snapcast.Base.{
  ◌≡◌, ◌↔◌, refl, sym, ◌∙◌, ap, inl, inr, Bool, true, false, ◌||◌, Option, none, some, List, [],
  ◌∷◌, ◌++◌, Bool-cases, if◌then◌else◌,
}
use esphome_snapcast.ApStations.Elements.{Address, RadioRow}
use esphome_snapcast.ApStations.Traffic.{
  Row, same_key, Groups, extend_group, group_rows, add_radios, groups_of,
}
use esphome_snapcast.ApStations.Baselines.{same_address_iff}

same_key_iff : (a b : Option Address) → (same_key a b ≡ true) ↔ (a ≡ b)
same_key_iff none none = (λ h. refl, λ h. refl)
same_key_iff none (some b) = (λ h. cc h, λ h. cc h)
same_key_iff (some a) none = (λ h. cc h, λ h. cc h)
same_key_iff (some a) (some b) =
    (λ h. ap some ((same_address_iff a b).0 h), λ h. (same_address_iff a b).1 (cc h))

-- `groups[key]`, if the key is there
abbrev pub group_at : {R : Type 0} → Option Address → Groups R → Option (List R)
group_at key [] = none
group_at key ((k, group) ∷ groups) =
    let rest = group_at key groups in if same_key key k then some group else rest

abbrev or_empty : {R : Type 0} → Option (List R) → List R
or_empty none = []
or_empty (some rows) = rows

extend_group-here :
    {R : Type 0} (key : Option Address) (rows : List R) (groups : Groups R)
    → group_at key (extend_group key rows groups) ≡ some (or_empty (group_at key groups) ++ rows)
unfolding extend_group
extend_group-here key rows [] = rw ((same_key_iff key key).1 refl) refl
extend_group-here key rows ((k, group) ∷ groups) = elim (Bool-cases (same_key key k)) [
  | inl same ↦ rw (same, same) refl
  | inr other ↦ rw (other, other) (extend_group-here key rows groups)
]

extend_group-same :
    {R : Type 0} (key k : Option Address) (rows : List R) (groups : Groups R)
    → same_key k key ≡ true
    → group_at k (extend_group key rows groups) ≡ some (or_empty (group_at k groups) ++ rows)
extend_group-same key k rows groups same =
    subst
      (λ l. group_at k (extend_group l rows groups) ≡ some (or_empty (group_at k groups) ++ rows))
      ((same_key_iff k key).0 same) (extend_group-here k rows groups)

extend_group-other :
    {R : Type 0} (key k : Option Address) (rows : List R) (groups : Groups R)
    → same_key k key ≡ false
    → group_at k (extend_group key rows groups) ≡ group_at k groups
unfolding extend_group
extend_group-other key k rows [] other = rw other refl
extend_group-other key k rows ((l, group) ∷ groups) other = elim (Bool-cases (same_key key l)) [
  | inl same ↦
      let there : same_key k l ≡ false =
        ap (same_key k) (sym ((same_key_iff key l).0 same)) ∙ other in
      rw (same, there) refl
  | inr apart ↦ rw apart (
      ap (λ o. if same_key k l then some group else o) (extend_group-other key k rows groups other))
]

-- The rows of a radio, in their order.
abbrev pub of_radio : {F : Type 0} → Option Address → List (Row F) → List (Row F)
of_radio key [] = []
of_radio key (r ∷ rows) =
    let rest = of_radio key rows in if same_key key r.sta.radio then r ∷ rest else rest

abbrev pub is_listed : Option Address → List RadioRow → Bool
is_listed key [] = false
is_listed key (r ∷ radios) = same_key key r.ident || is_listed key radios

-- A group with rows added, which begins with the first of them.
abbrev extended_by : {R : Type 0} → Option (List R) → List R → Option (List R)
extended_by o [] = o
extended_by o (x ∷ xs) = some (or_empty o ++ x ∷ xs)

extended_by-cons :
    {R : Type 0} (o : Option (List R)) (x : R) (xs : List R)
    → extended_by (some (or_empty o ++ x ∷ [])) xs ≡ extended_by o (x ∷ xs)
extended_by-cons o x [] = refl
extended_by-cons o x (y ∷ ys) = ap some (append_assoc (or_empty o) (x ∷ []) (y ∷ ys))

group_rows-group_at :
    {F : Type 0} (key : Option Address) (groups : Groups (Row F)) (rows : List (Row F))
    → group_at key (group_rows groups rows) ≡ extended_by (group_at key groups) (of_radio key rows)
unfolding group_rows
group_rows-group_at key groups [] = refl
group_rows-group_at key groups (r ∷ rows) =
    group_rows-group_at key (extend_group r.sta.radio (r ∷ []) groups) rows
    ∙ elim (Bool-cases (same_key key r.sta.radio)) [
      | inl same ↦ rw same (
          ap (λ o. extended_by o (of_radio key rows))
            (extend_group-same r.sta.radio key (r ∷ []) groups same)
          ∙ extended_by-cons (group_at key groups) r (of_radio key rows))
      | inr other ↦ rw other (
          ap (λ o. extended_by o (of_radio key rows))
            (extend_group-other r.sta.radio key (r ∷ []) groups other))
    ]

-- A listed radio has a group, which may be empty.
abbrev listed_group : {R : Type 0} → Bool → Option (List R) → Option (List R)
listed_group true o = some (or_empty o)
listed_group false o = o

listed_group-some :
    {R : Type 0} (listed : Bool) (rows : List R) → listed_group listed (some rows) ≡ some rows
listed_group-some true rows = refl
listed_group-some false rows = refl

add_radios-group_at :
    {F : Type 0} (key : Option Address) (groups : Groups (Row F)) (radios : List RadioRow)
    → group_at key (add_radios groups radios)
      ≡ listed_group (is_listed key radios) (group_at key groups)
unfolding add_radios
add_radios-group_at key groups [] = refl
add_radios-group_at key groups (r ∷ radios) =
    add_radios-group_at key (extend_group r.ident [] groups) radios
    ∙ elim (Bool-cases (same_key key r.ident)) [
      | inl same ↦ rw same (
          ap (listed_group (is_listed key radios)) (extend_group-same r.ident key [] groups same)
          ∙ listed_group-some (is_listed key radios) (or_empty (group_at key groups) ++ [])
          ∙ ap some (append-nil (or_empty (group_at key groups))))
      | inr other ↦ rw other (
          ap (listed_group (is_listed key radios)) (extend_group-other r.ident key [] groups other))
    ]

-- What the report has for a radio: its rows, if it is listed or has any.
abbrev pub reported : {F : Type 0} → Bool → List (Row F) → Option (List (Row F))
reported true rows = some rows
reported false [] = none
reported false (r ∷ rows) = some (r ∷ rows)

reported_lem :
    {F : Type 0} (listed : Bool) (rows : List (Row F))
    → listed_group listed (extended_by none rows) ≡ reported listed rows
reported_lem true [] = refl
reported_lem true (r ∷ rows) = refl
reported_lem false [] = refl
reported_lem false (r ∷ rows) = refl

-- The group of a radio has the rows of its stations, all of them and in their order. There is one for
-- each radio of the second sample, empty if none of its stations has a row, and for each radio that a
-- row names, and for no other.
pub groups_of-reported :
    {F : Type 0} (rows : List (Row F)) (radios : List RadioRow) (key : Option Address)
    → group_at key (groups_of rows radios) ≡ reported (is_listed key radios) (of_radio key rows)
unfolding groups_of
groups_of-reported rows radios key =
    add_radios-group_at key (group_rows [] rows) radios
    ∙ ap (listed_group (is_listed key radios)) (group_rows-group_at key [] rows)
    ∙ reported_lem (is_listed key radios) (of_radio key rows)
