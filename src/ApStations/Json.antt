-- ===== src/ApStations/Json.antt =====
-- scripts/ap-stations.py: what `json.load` returns, with the operations on it that the script uses.
use Prim.Native.String.{String}
use text.Mathlib.Text.{◌==◌ as str_eq}
use esphome_snapcast.Base.{◌⊎◌, ◌≡◌, Bool, true, false, not, List, [], ◌∷◌, if◌then◌else◌}
use esphome_snapcast.Base.Int.{ℤ, pos, eqb_ℤ}

-- A dict has each of its keys once, in the order of the text.
mutual
  pub data Json : Type 0 where
    null : Json
    boolean : Bool → Json
    number : ℤ → Json
    string : String → Json
    array : Items → Json
    object : Fields → Json

  pub data Items : Type 0 where
    nil : Items
    item : Json → Items → Items

  pub data Fields : Type 0 where
    done : Fields
    field : String → Json → Fields → Fields

abbrev pub items_of : Items → List Json
items_of nil = []
items_of (item j js) = j ∷ items_of js

-- `bool(j)`
abbrev pub truthy : Json → Bool
truthy null = false
truthy (boolean b) = b
truthy (number n) = not (eqb_ℤ n (pos 0))
truthy (string s) = not (str_eq s "")
truthy (array nil) = false
truthy (array (item j js)) = true
truthy (object done) = false
truthy (object (field k v fs)) = true

-- `fs.get(key, other)`
unfoldable pub get_or : String → Json → Fields → Json
get_or key other done = other
get_or key other (field k v fs) = let rest = get_or key other fs in if str_eq key k then v else rest

-- `fs.get(key)`
abbrev pub get : String → Fields → Json
get key fs = get_or key null fs

-- `a or b`
abbrev pub or_else : Json → Json → Json
or_else a b = if truthy a then a else b

-- The dict `d` is the value or stands somewhere in it.
unfoldable mutual
  pub IsWithin : Fields → Json → Type 0
  IsWithin d null = ⊥
  IsWithin d (boolean b) = ⊥
  IsWithin d (number n) = ⊥
  IsWithin d (string s) = ⊥
  IsWithin d (array js) = IsWithinItems d js
  IsWithin d (object fs) = (d ≡ fs) ⊎ IsWithinFields d fs

  pub IsWithinItems : Fields → Items → Type 0
  IsWithinItems d nil = ⊥
  IsWithinItems d (item j js) = IsWithin d j ⊎ IsWithinItems d js

  pub IsWithinFields : Fields → Fields → Type 0
  IsWithinFields d done = ⊥
  IsWithinFields d (field k v fs) = IsWithin d v ⊎ IsWithinFields d fs
