-- ===== src/ApStations/Examples.antt =====
-- scripts/ap-stations.py: a topology, a router and two samples.
use mathlib.Core.Path.{subst}
use text.Mathlib.Text.{◌==◌ as str_eq}
use esphome_snapcast.Base.{
  ℕ, zero, suc, ◌≡◌, ◌↔◌, ◌⊎◌, refl, sym, inl, inr, true, Option, none, some, List, [], ◌∷◌, length,
  if◌then◌else◌,
}
use esphome_snapcast.Base.Int.{ℤ, pos, ◌+ℤ◌, ◌*ℤ◌}
use esphome_snapcast.Base.Float.{whole}
use esphome_snapcast.ApStations.Json.{
  Json, null, number, string, array, object, nil, item, Fields, done, field, items_of, get_or,
  IsWithin,
}
use esphome_snapcast.ApStations.Topology.{Station, is_device, station, walk, collect, stations}
use esphome_snapcast.ApStations.Listed.{HasLinks, IsLink, IsStationOf, stations-listed}
use esphome_snapcast.ApStations.Found.{IsIn, walk_iff}
use esphome_snapcast.ApStations.Session.{Request, watch_rounds}
use esphome_snapcast.ApStations.Served.{
  reply, granted, topology_request, IsServed, IsRouter, AllShown, watch_rounds-AllShown,
}
use esphome_snapcast.ApStations.Elements.{StaRow, RadioRow}
use esphome_snapcast.ApStations.Traffic.{Row, baseline, traffic, groups_of, row_of}
use esphome_snapcast.ApStations.Grouped.{
  group_at, reported, is_listed, of_radio, groups_of-reported,
}

-- A topology with one station on a radio.
abbrev wifi : Fields
wifi = field "radio" (string "2.4GHz") (field "uplinkPhyRate" (number (pos 39)) done)

abbrev link : Fields
link = field "wireless" (object wifi) done

abbrev speaker : Fields
speaker =
    field "macAddress" (string "aa") (field "connections" (array (item (object link) nil)) done)

abbrev home : Json
home = array (item (object speaker) nil)

one_row : stations home ≡ some (station speaker link wifi ∷ [])
unfolding stations walk collect get_or
one_row = refl

one_link : (j : Json) → IsIn j (items_of (item (object link) nil)) → IsLink j
unfolding get_or
one_link j (inl e) = (link, e, inr (wifi, refl))
one_link j (inr never) = absurd never

speaker-HasLinks : HasLinks speaker
unfolding get_or
speaker-HasLinks = (item (object link) nil, refl, one_link)

home-found : (d : Fields) → IsIn d (walk home) → d ≡ speaker
unfolding walk get_or
home-found d (inl e) = e
home-found d (inr never) = absurd never

home-HasLinks : (d : Fields) → IsWithin d home → is_device d ≡ true → HasLinks d
home-HasLinks d at is =
    subst HasLinks (sym (home-found d ((walk_iff d home).1 (at, is)))) speaker-HasLinks

stations-listed_example :
    (rows : List Station) × (stations home ≡ some rows)
    × ((r : Station)
        → IsIn r rows ↔ ((d : Fields) × IsWithin d home × (is_device d ≡ true) × IsStationOf d r))
stations-listed_example = stations-listed home home-HasLinks

-- A router whose sessions serve one call.
abbrev hourly : ℕ → Request → Option Json × ℕ
hourly left request =
    if str_eq request.func "login"
    then (some (granted (string "t")), 1)
    else elim left [ zero ↦ (some (reply 6 nil), 0) | suc n ↦ (some (reply 0 (item home nil)), n) ]

abbrev ServesOne : ℕ → Json → Type 0
ServesOne zero session = ⊥
ServesOne (suc left) session = Unit

hourly-IsServed :
    (left : ℕ) (session : Json) → ServesOne left session → IsServed hourly left session
hourly-IsServed zero session h = absurd h
hourly-IsServed (suc n) session h = (home, station speaker link wifi ∷ [], one_row, refl)

hourly-refuses :
    (left : ℕ) (session : Json)
    → IsServed hourly left session
      ⊎ ((status : ℕ) × ((hourly left (topology_request hourly session)).0
            ≡ some (reply (suc status) nil)))
hourly-refuses zero session = inr (5, refl)
hourly-refuses (suc n) session = inl (hourly-IsServed (suc n) session tt)

hourly-IsRouter : IsRouter hourly "" "" ServesOne
hourly-IsRouter = record {
  grants = λ w. (string "t", refl, refl, tt);
  serves = hourly-IsServed;
  refuses = hourly-refuses;
}

watch_rounds-AllShown_example :
    (length (watch_rounds hourly true "" "" 3 null 0) ≡ 3)
    × AllShown (watch_rounds hourly true "" "" 3 null 0)
watch_rounds-AllShown_example =
    watch_rounds-AllShown hourly "" "" ServesOne hourly-IsRouter 3 null 0

-- A station in two samples.
abbrev sampled : Option ℕ → StaRow ℤ
sampled sent = record {
  radio = some (50 ∷ []);
  channel = some 6;
  mac = 97 ∷ [];
  rssi = none;
  up_rate = some 1;
  down_rate = some 6400;
  sent = sent;
  recv = some 3;
  retrans = none;
}

abbrev before : List (StaRow ℤ)
before = sampled (some 10) ∷ sampled (some 20) ∷ []

-- The later of two baselines counts.
twelve_sent :
    traffic whole [] (pos 1) before (sampled (some 32) ∷ [])
    ≡ row_of whole [] (pos 1) (sampled (some 32)) (pos 12) (pos 0) (pos 0) ∷ []
unfolding traffic baseline ◌+ℤ◌ ◌*ℤ◌
twelve_sent = refl

-- A baseline without the counter makes all of it the packets of the window.
all_counted :
    traffic whole [] (pos 1) (sampled none ∷ []) (sampled (some 9000) ∷ [])
    ≡ row_of whole [] (pos 1) (sampled (some 9000)) (pos 9000) (pos 0) (pos 0) ∷ []
unfolding traffic baseline ◌+ℤ◌ ◌*ℤ◌
all_counted = refl

abbrev radio_2 : RadioRow
radio_2 = record {
  ident = some (51 ∷ []);
  channel = some 36;
  util = none;
  scan_util = none;
  neighbors = 0;
  device = none;
  noise_raw = none;
}

abbrev counted : List (Row ℤ)
counted = row_of whole [] (pos 1) (sampled (some 32)) (pos 12) (pos 0) (pos 0) ∷ []

groups_of-reported_example :
    group_at (some (51 ∷ [])) (groups_of counted (radio_2 ∷ []))
    ≡ reported (is_listed (some (51 ∷ [])) (radio_2 ∷ [])) (of_radio (some (51 ∷ [])) counted)
groups_of-reported_example = groups_of-reported counted (radio_2 ∷ []) (some (51 ∷ []))
