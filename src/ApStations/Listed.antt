-- ===== src/ApStations/Listed.antt =====
-- scripts/ap-stations.py: which rows `stations` returns.
use mathlib.Core.Path.{subst}
use esphome_snapcast.Base.{
  ◌≡◌, ◌↔◌, ◌⊎◌, refl, ◌∙◌, ap, sym, inl, inr, true, false, Option, some, List, [], ◌∷◌, ◌++◌,
  Bool-cases,
}
use esphome_snapcast.ApStations.Json.{
  Json, array, object, Items, Fields, items_of, truthy, get, IsWithin,
}
use esphome_snapcast.ApStations.Topology.{
  Station, is_device, walk, station, on_connection, collect, extended, on_connections, on_device,
  stations,
}
use esphome_snapcast.ApStations.Found.{IsIn, IsIn-append, walk_iff}

-- The loop returns, and `P` says which rows are in what it returns.
abbrev Returns : Option (List Station) → (Station → Type 0) → Type 0
Returns o P = (rows : List Station) × (o ≡ some rows) × ((r : Station) → IsIn r rows ↔ P r)

Returns-append :
    (a b : Option (List Station)) (P Q : Station → Type 0)
    → Returns a P
    → Returns b Q
    → Returns (extended a b) (λ r. P r ⊎ Q r)
Returns-append a b P Q (now, ea, ha) (later, eb, hb) = (
  now ++ later,
  ap (λ o. extended o b) ea ∙ ap (λ o. extended (some now) o) eb,
  λ r.
      let split = IsIn-append r now later in
      (
        λ h. elim (split.0 h) [ inl x ↦ inl ((ha r).0 x) | inr y ↦ inr ((hb r).0 y) ],
        λ h. split.1 (elim h [ inl x ↦ inl ((ha r).1 x) | inr y ↦ inr ((hb r).1 y) ]),
      ),
)

Returns-map :
    (o : Option (List Station)) (P Q : Station → Type 0)
    → ((r : Station) → P r ↔ Q r)
    → Returns o P
    → Returns o Q
Returns-map o P Q pq (rows, e, h) =
    (rows, e, λ r. (λ x. (pq r).0 ((h r).0 x), λ x. (h r).1 ((pq r).1 x)))

-- The row is one of those of an item of the list.
abbrev OneOf : {A : Type 0} → (A → Station → Type 0) → List A → Station → Type 0
OneOf {A} P xs r = (x : A) × IsIn x xs × P x r

OneOf-cons :
    {A : Type 0} (P : A → Station → Type 0) (x : A) (xs : List A) (r : Station)
    → (P x r ⊎ OneOf P xs r) ↔ OneOf P (x ∷ xs) r
OneOf-cons P x xs r = (
  λ h. elim h [ inl here ↦ (x, inl refl, here) | inr (y, there, p) ↦ (y, inr there, p) ],
  λ (y, at, p). elim at [ inl e ↦ inl (subst (λ y. P y r) e p) | inr there ↦ inr (y, there, p) ],
)

collect-Returns :
    {A : Type 0} (f : A → Option (List Station)) (P : A → Station → Type 0) (xs : List A)
    → ((x : A) → IsIn x xs → Returns (f x) (P x))
    → Returns (collect f xs) (OneOf P xs)
unfolding collect
collect-Returns f P [] each = ([], refl, λ r. (λ h. absurd h, λ h. absurd h.1))
collect-Returns f P (x ∷ xs) each =
    Returns-map (extended (f x) (collect f xs)) (λ r. P x r ⊎ OneOf P xs r) (OneOf P (x ∷ xs))
      (OneOf-cons P x xs)
      (Returns-append (f x) (collect f xs) (P x) (OneOf P xs) (each x (inl refl))
        (collect-Returns f P xs (λ y h. each y (inr h))))

-- The row of a wireless connection of the device, and of no other connection.
abbrev pub IsRowOf : Fields → Json → Station → Type 0
IsRowOf d j r =
    (c : Fields) × (w : Fields) × (j ≡ object c)
    × (get "wireless" c ≡ object w)
    × (truthy (object w) ≡ true)
    × (r ≡ station d c w)

-- A connection is a dict whose wireless part is a dict, if there is one.
abbrev pub IsLink : Json → Type 0
IsLink j =
    (c : Fields) × (j ≡ object c)
    × ((truthy (get "wireless" c) ≡ false) ⊎ ((w : Fields) × (get "wireless" c ≡ object w)))

-- The connections of a device are a list of them.
abbrev pub HasLinks : Fields → Type 0
HasLinks d =
    (cs : Items) × (get "connections" d ≡ array cs) × ((j : Json) → IsIn j (items_of cs) → IsLink j)

-- Without a wireless part there is no row.
unwired :
    (d c : Fields)
    → truthy (get "wireless" c) ≡ false
    → Returns (on_connection d (object c)) (IsRowOf d (object c))
unwired d c off =
    rw off ([], refl, λ r. (λ h. absurd h, λ (x, w, e, g, on, row). cc (e, g, on, off)))

on_link-Returns :
    (d c : Fields)
    → (truthy (get "wireless" c) ≡ false) ⊎ ((w : Fields) × (get "wireless" c ≡ object w))
    → Returns (on_connection d (object c)) (IsRowOf d (object c))
on_link-Returns d c (inl off) = unwired d c off
on_link-Returns d c (inr (w, wired)) = elim (Bool-cases (truthy (get "wireless" c))) [
  | inl on ↦
      rw (on, wired)
        (
          station d c w ∷ [],
          refl,
          λ r. (
            λ h. elim h [
              | inl row ↦ (c, w, refl, wired, ap truthy (sym wired) ∙ on, row)
              | inr never ↦ absurd never
            ],
            λ (x, v, e, g, is, row). inl (cc (e, g, wired, row)),
          ),
        )
  | inr off ↦ unwired d c off
]

on_connection-Returns :
    (d : Fields) (j : Json) → IsLink j → Returns (on_connection d j) (IsRowOf d j)
on_connection-Returns d j (c, e, wired) =
    subst (λ j. Returns (on_connection d j) (IsRowOf d j)) (sym e) (on_link-Returns d c wired)

-- The row of one of the connections of the device.
abbrev pub IsStationOf : Fields → Station → Type 0
IsStationOf d r =
    (cs : Items) × (get "connections" d ≡ array cs) × OneOf (IsRowOf d) (items_of cs) r

on_device-Returns : (d : Fields) → HasLinks d → Returns (on_device d) (IsStationOf d)
on_device-Returns d (cs, e, links) =
    Returns-map (on_device d) (OneOf (IsRowOf d) (items_of cs)) (IsStationOf d)
      (λ r. (
        λ h. (cs, e, h),
        λ (bs, e', h). subst (λ cs. OneOf (IsRowOf d) (items_of cs) r) (cc (e, e')) h,
      ))
      (subst (λ j. Returns (on_connections d j) (OneOf (IsRowOf d) (items_of cs))) (sym e)
        (collect-Returns (on_connection d) (IsRowOf d) (items_of cs)
          (λ j at. on_connection-Returns d j (links j at))))

-- Where the connections of each device are a list of dicts whose wireless part, if there is one, is a
-- dict, `stations` returns, and its rows are those of the wireless connections of the dicts that stand
-- anywhere in the topology and have a MAC address and connections: all of these and no others.
pub stations-listed :
    (topology : Json)
    → ((d : Fields) → IsWithin d topology → is_device d ≡ true → HasLinks d)
    → (rows : List Station) × (stations topology ≡ some rows)
      × ((r : Station)
          → IsIn r rows
            ↔ ((d : Fields) × IsWithin d topology × (is_device d ≡ true) × IsStationOf d r))
unfolding stations
stations-listed topology links =
    Returns-map (stations topology) (OneOf IsStationOf (walk topology))
      (λ r. (d : Fields) × IsWithin d topology × (is_device d ≡ true) × IsStationOf d r)
      (λ r. (
        λ (d, at, h). let found = (walk_iff d topology).0 at in (d, found.0, found.1, h),
        λ (d, at, is, h). (d, (walk_iff d topology).1 (at, is), h),
      ))
      (collect-Returns on_device IsStationOf (walk topology) (λ d at.
        let found = (walk_iff d topology).0 at in on_device-Returns d (links d found.0 found.1)))
