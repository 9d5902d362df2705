-- ===== src/ApStations/Topology.antt =====
-- scripts/ap-stations.py: `stations`, from the router's topology to a row for each wireless station.
use esphome_snapcast.Base.{Bool, ◌&&◌, Option, none, some, List, [], ◌∷◌, ◌++◌, if◌then◌else◌}
use esphome_snapcast.ApStations.Json.{
  Json, null, boolean, number, string, array, object, Items, nil, item, Fields, done, field,
  items_of, truthy, get_or, get, or_else,
}

pub record Station : Type 0 where
  pub radio : Json
  pub rssi : Json
  pub up : Json
  pub down : Json
  pub name : Json
  pub mac : Json
  pub uptime : Json
  pub upstream : Json

abbrev pub is_device : Fields → Bool
is_device o = truthy (get "macAddress" o) && truthy (get "connections" o)

-- `walk`: what it appends to `found`, in this order.
unfoldable mutual
  pub walk : Json → List Fields
  walk null = []
  walk (boolean b) = []
  walk (number n) = []
  walk (string s) = []
  walk (array js) = walk_items js
  walk (object o) = (if is_device o then o ∷ [] else []) ++ walk_fields o

  pub walk_items : Items → List Fields
  walk_items nil = []
  walk_items (item j js) = walk j ++ walk_items js

  pub walk_fields : Fields → List Fields
  walk_fields done = []
  walk_fields (field k v fs) = walk v ++ walk_fields fs

-- The row of the connection `c` of the device `d` with the wireless part `w`.
abbrev pub station : Fields → Fields → Fields → Station
station d c w = record {
  radio = get_or "radio" (string "?") w;
  rssi = get "rssi" w;
  up = get "downlinkPhyRate" w;
  down = get "uplinkPhyRate" w;
  name = or_else (get "hostname" d) (get "macAddress" d);
  mac = get "macAddress" d;
  uptime = get "uptime" c;
  upstream = get_or "upstreamId" (string "") d;
}

-- A value that is not a dict has no `get`: an exception, which is `none` here.
abbrev pub on_wireless : Fields → Fields → Json → Option (List Station)
on_wireless d c (object w) = some (station d c w ∷ [])
on_wireless d c w = none

abbrev pub on_connection : Fields → Json → Option (List Station)
on_connection d (object c) =
    let w = get "wireless" c in if truthy w then on_wireless d c w else some []
on_connection d c = none

abbrev pub extended : Option (List Station) → Option (List Station) → Option (List Station)
extended none later = none
extended (some now) none = none
extended (some now) (some later) = some (now ++ later)

-- A loop that extends `out`, unless a round of it raises.
unfoldable pub collect : {A : Type 0} → (A → Option (List Station)) → List A → Option (List Station)
collect f [] = some []
collect f (x ∷ xs) = extended (f x) (collect f xs)

-- What is no list is no loop over dicts.
abbrev pub on_connections : Fields → Json → Option (List Station)
on_connections d (array cs) = collect (on_connection d) (items_of cs)
on_connections d cs = none

abbrev pub on_device : Fields → Option (List Station)
on_device d = on_connections d (get "connections" d)

unfoldable pub stations : Json → Option (List Station)
stations topology = collect on_device (walk topology)
