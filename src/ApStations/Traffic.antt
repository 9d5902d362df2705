-- ===== src/ApStations/Traffic.antt =====
-- scripts/ap-stations.py: the rows of `congestion`, from two samples of the stations, and their groups.
use esphome_snapcast.Base.{
  ℕ, ◌*◌, Bool, true, false, ◌&&◌, ◌||◌, Option, none, some, List, [], ◌∷◌, ◌++◌, ◌==◌,
  if◌then◌else◌,
}
use esphome_snapcast.Base.Int.{ℤ, pos, ◌+ℤ◌, sub_ℕ, ltb_ℤ, eqb_ℤ}
use esphome_snapcast.Base.Float.{Float}
use esphome_snapcast.ApStations.Elements.{Address, RadioRow, StaRow, or_zero}

pub record Row (F : Type 0) : Type 0 where
  pub sta : StaRow F
  pub d_sent : ℤ
  pub d_recv : ℤ
  pub d_retr : ℤ
  pub pps : F
  pub air : F
  pub name : Address

abbrev pub same_address : Address → Address → Bool
same_address [] [] = true
same_address [] (b ∷ bs) = false
same_address (a ∷ more) [] = false
same_address (a ∷ more) (b ∷ bs) = (a == b) && same_address more bs

abbrev pub same_key : Option Address → Option Address → Bool
same_key none none = true
same_key none (some b) = false
same_key (some a) none = false
same_key (some a) (some b) = same_address a b

-- `before.get(mac)`: of several stations with the address the dict has the last.
unfoldable pub baseline : {F : Type 0} → Address → List (StaRow F) → Option (StaRow F)
baseline mac [] = none
baseline mac (s ∷ before) =
    let later = baseline mac before in
    elim later [ some b ↦ some b | none ↦ if same_address s.mac mac then some s else none ]

-- `names.get(mac, mac)`
abbrev pub name_of : List (Address × Address) → Address → Address
name_of [] mac = mac
name_of ((key, name) ∷ names) mac =
    let rest = name_of names mac in if same_address key mac then name else rest

-- `(a or 0) - (b or 0)`
abbrev pub delta : Option ℕ → Option ℕ → ℤ
delta a b = sub_ℕ (or_zero a) (or_zero b)

-- A counter that went back.
abbrev pub was_reset : {F : Type 0} → StaRow F → StaRow F → Bool
was_reset b s =
    ltb_ℤ (delta s.sent b.sent) (pos 0)
    || ltb_ℤ (delta s.recv b.recv) (pos 0)
    || ltb_ℤ (delta s.retrans b.retrans) (pos 0)

abbrev pub frame_bytes : ℕ
frame_bytes = 800

abbrev pub frame_overhead_us : ℕ
frame_overhead_us = 120

module _ (A : Float) where
  abbrev pub whole_number : ℕ → A.F
  whole_number n = A.of_int (pos n)

  abbrev pub airtime_at : ℤ → ℕ → A.F
  airtime_at packets rate_mbps =
      if eqb_ℤ packets (pos 0) || rate_mbps == 0
      then whole_number 0
      else A.div
          (A.mul (A.of_int packets) (
            A.add (A.div (whole_number (frame_bytes * 8)) (whole_number rate_mbps))
              (whole_number frame_overhead_us)))
          (whole_number 1000)

  abbrev pub airtime_ms : ℤ → Option ℕ → A.F
  airtime_ms packets rate_mbps = airtime_at packets (or_zero rate_mbps)

  abbrev pub row_of : List (Address × Address) → A.F → StaRow A.F → ℤ → ℤ → ℤ → Row A.F
  row_of names elapsed s d_sent d_recv d_retr =
      let ms = A.add (airtime_ms d_sent s.down_rate) (airtime_ms d_recv s.up_rate) in
      record {
        sta = s;
        d_sent = d_sent;
        d_recv = d_recv;
        d_retr = d_retr;
        pps = A.div (A.of_int (d_sent +ℤ d_recv)) elapsed;
        air = A.div (A.mul (whole_number 100) ms) (A.mul elapsed (whole_number 1000));
        name = name_of names s.mac;
      }

  -- A station without a baseline or with a counter that went back has no row.
  abbrev pub row_if :
      List (Address × Address) → A.F → Option (StaRow A.F) → StaRow A.F → List (Row A.F)
  row_if names elapsed none s = []
  row_if names elapsed (some b) s =
      if was_reset b s
      then []
      else row_of names elapsed s (delta s.sent b.sent) (delta s.recv b.recv)
          (delta s.retrans b.retrans)
        ∷ []

  unfoldable pub traffic :
      List (Address × Address) → A.F → List (StaRow A.F) → List (StaRow A.F) → List (Row A.F)
  traffic names elapsed before [] = []
  traffic names elapsed before (s ∷ ss) =
      row_if names elapsed (baseline s.mac before) s ++ traffic names elapsed before ss

abbrev pub Groups : Type 0 → Type 0
Groups R = List (Option Address × List R)

-- `groups.setdefault(key, [])`, extended by the rows
unfoldable pub extend_group : {R : Type 0} → Option Address → List R → Groups R → Groups R
extend_group key rows [] = (key, rows) ∷ []
extend_group key rows ((k, group) ∷ groups) =
    let rest = extend_group key rows groups in
    if same_key key k then (k, group ++ rows) ∷ groups else (k, group) ∷ rest

unfoldable pub group_rows : {F : Type 0} → Groups (Row F) → List (Row F) → Groups (Row F)
group_rows groups [] = groups
group_rows groups (r ∷ rows) = group_rows (extend_group r.sta.radio (r ∷ []) groups) rows

unfoldable pub add_radios : {F : Type 0} → Groups (Row F) → List RadioRow → Groups (Row F)
add_radios groups [] = groups
add_radios groups (r ∷ radios) = add_radios (extend_group r.ident [] groups) radios

unfoldable pub groups_of : {F : Type 0} → List (Row F) → List RadioRow → Groups (Row F)
groups_of rows radios = add_radios (group_rows [] rows) radios
