-- ===== src/ApStations/Found.antt =====
-- scripts/ap-stations.py: which dicts `walk` finds.
use esphome_snapcast.Base.{
  ◌≡◌, ◌↔◌, ◌⊎◌, ◌∙◌, ap, inl, inr, true, List, [], ◌∷◌, ◌++◌, Bool-cases, if◌then◌else◌,
}
use esphome_snapcast.ApStations.Json.{
  Json, null, boolean, number, string, array, object, Items, nil, item, Fields, done, field,
  IsWithin, IsWithinItems, IsWithinFields,
}
use esphome_snapcast.ApStations.Topology.{is_device, walk, walk_items, walk_fields}

module _ {A : Type 0} where
  abbrev pub IsIn : A → List A → Type 0
  IsIn a [] = ⊥
  IsIn a (x ∷ xs) = (a ≡ x) ⊎ IsIn a xs

  pub IsIn-append : (a : A) (xs ys : List A) → IsIn a (xs ++ ys) ↔ (IsIn a xs ⊎ IsIn a ys)
  IsIn-append a [] ys = (λ h. inr h, λ h. elim h [ inl never ↦ absurd never | inr later ↦ later ])
  IsIn-append a (x ∷ xs) ys =
      let ih = IsIn-append a xs ys in
      (
        λ h. elim h [
          | inl e ↦ inl (inl e)
          | inr later ↦ elim (ih.0 later) [ inl front ↦ inl (inr front) | inr back ↦ inr back ]
        ],
        λ h. elim h [
          | inl front ↦ elim front [ inl e ↦ inl e | inr more ↦ inr (ih.1 (inl more)) ]
          | inr back ↦ inr (ih.1 (inr back))
        ],
      )

found_here :
    (d o : Fields) → IsIn d (if is_device o then o ∷ [] else []) ↔ ((d ≡ o) × (is_device d ≡ true))
found_here d o = elim (Bool-cases (is_device o)) [
  | inl device ↦ rw device (
    λ h. elim h [ inl e ↦ (e, ap is_device e ∙ device) | inr never ↦ absurd never ],
    λ (e, is). inl e,
  )
  | inr other ↦ rw other (λ h. absurd h, λ (e, is). cc (other, is, ap is_device e))
]

-- A conjunct moves over the two cases.
both_cases :
    {A B C : Type 0} {D X Y : Type 0}
    → (D ↔ (X ⊎ Y))
    → (X ↔ (A × C))
    → (Y ↔ (B × C))
    → D ↔ ((A ⊎ B) × C)
both_cases d x y = (
  λ h. elim (d.0 h) [
    | inl here ↦ let r = x.0 here in (inl r.0, r.1)
    | inr there ↦ let r = y.0 there in (inr r.0, r.1)
  ],
  λ h. elim h.0 [
    | inl here ↦ d.1 (inl (x.1 (here, h.1)))
    | inr there ↦ d.1 (inr (y.1 (there, h.1)))
  ],
)

nothing_found : {C : Type 0} → ⊥ ↔ (⊥ × C)
nothing_found = (λ h. absurd h, λ h. absurd h.0)

mutual
  unfolding walk IsWithin

  pub walk_iff : (d : Fields) (j : Json) → IsIn d (walk j) ↔ (IsWithin d j × (is_device d ≡ true))
  walk_iff d null = nothing_found
  walk_iff d (boolean b) = nothing_found
  walk_iff d (number n) = nothing_found
  walk_iff d (string s) = nothing_found
  walk_iff d (array js) = walk_items_iff d js
  walk_iff d (object o) =
      both_cases (IsIn-append d (if is_device o then o ∷ [] else []) (walk_fields o))
        (found_here d o) (walk_fields_iff d o)

  walk_items_iff :
      (d : Fields) (js : Items)
      → IsIn d (walk_items js) ↔ (IsWithinItems d js × (is_device d ≡ true))
  walk_items_iff d nil = nothing_found
  walk_items_iff d (item j js) =
      both_cases (IsIn-append d (walk j) (walk_items js)) (walk_iff d j) (walk_items_iff d js)

  walk_fields_iff :
      (d o : Fields) → IsIn d (walk_fields o) ↔ (IsWithinFields d o × (is_device d ≡ true))
  walk_fields_iff d done = nothing_found
  walk_fields_iff d (field k v fs) =
      both_cases (IsIn-append d (walk v) (walk_fields fs)) (walk_iff d v) (walk_fields_iff d fs)
