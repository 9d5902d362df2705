-- ===== src/ApStations/Elements.antt =====
-- scripts/ap-stations.py: `data_elements`, on a payload in which a key is absent or has a value of its
-- type. An address is the list of its characters, which are ASCII.
use esphome_snapcast.Base.{
  ℕ, ◌+◌, Bool, true, false, ◌&&◌, Option, none, some, List, [], ◌∷◌, ◌++◌, leb, ◌==◌, map,
  if◌then◌else◌, concat,
}
use esphome_snapcast.Base.Int.{pos}
use esphome_snapcast.Base.Float.{Float}

abbrev pub Address : Type 0
Address = List ℕ

pub record Sta : Type 0 where
  pub mac : Option Address
  pub signal : Option ℕ
  pub up_rate : Option ℕ
  pub down_rate : Option ℕ
  pub sent : Option ℕ
  pub recv : Option ℕ
  pub retrans : Option ℕ

pub record ChannelScan : Type 0 where
  pub channel : Option ℕ
  pub utilization : Option ℕ
  pub neighbors : Option ℕ

pub record Radio : Type 0 where
  pub ident : Option Address
  pub profiles : List (Option ℕ)
  -- "ScanResult", its "OpClassScan" and their "ChannelScan"
  pub scans : List (List (List ChannelScan))
  pub utilization : Option ℕ
  pub noise : Option ℕ
  -- the "STA" of each "BSS"
  pub bss : List (List Sta)

pub record Device : Type 0 where
  pub ident : Option Address
  pub radios : List Radio

pub record RadioRow : Type 0 where
  pub ident : Option Address
  pub channel : Option ℕ
  pub util : Option ℕ
  pub scan_util : Option ℕ
  pub neighbors : ℕ
  pub device : Option Address
  pub noise_raw : Option ℕ

pub record StaRow (F : Type 0) : Type 0 where
  pub radio : Option Address
  pub channel : Option ℕ
  pub mac : Address
  pub rssi : Option F
  pub up_rate : Option ℕ
  pub down_rate : Option ℕ
  pub sent : Option ℕ
  pub recv : Option ℕ
  pub retrans : Option ℕ

-- `x or 0`, and `x.get(key, 0)`
abbrev pub or_zero : Option ℕ → ℕ
or_zero none = 0
or_zero (some n) = n

abbrev pub lower_char : ℕ → ℕ
lower_char c = if leb 65 c && leb c 90 then c + 32 else c

abbrev pub lower : Option Address → Address
lower none = []
lower (some mac) = map lower_char mac

-- `prof.get("Channel", chan)` over the profiles
abbrev pub channel_of : Option ℕ → List (Option ℕ) → Option ℕ
channel_of chan [] = chan
channel_of chan (none ∷ profiles) = channel_of chan profiles
channel_of chan (some c ∷ profiles) = channel_of (some c) profiles

-- None == None holds
abbrev pub same_channel : Option ℕ → Option ℕ → Bool
same_channel none none = true
same_channel none (some b) = false
same_channel (some a) none = false
same_channel (some a) (some b) = a == b

-- The last scan of the radio's own channel, and the neighbours of all.
unfoldable pub survey : Option ℕ → Option ℕ → ℕ → List ChannelScan → Option ℕ × ℕ
survey chan util count [] = (util, count)
survey chan util count (cs ∷ scans) =
    survey chan (if same_channel cs.channel chan then cs.utilization else util)
      (count + or_zero cs.neighbors) scans

abbrev pub radio_row : Option Address → Radio → RadioRow
radio_row device radio =
    let chan = channel_of none radio.profiles in
    let scanned = survey chan none 0 (concat (concat radio.scans)) in
    record {
      ident = radio.ident;
      channel = chan;
      util = radio.utilization;
      scan_util = scanned.0;
      neighbors = scanned.1;
      device = device;
      noise_raw = radio.noise;
    }

module _ (A : Float) where
  -- `sig / 2 - 110`
  abbrev pub dbm : Option ℕ → Option A.F
  dbm none = none
  dbm (some sig) = some (A.sub (A.div (A.of_int (pos sig)) (A.of_int (pos 2))) (A.of_int (pos 110)))

  abbrev pub sta_row : Radio → Sta → StaRow A.F
  sta_row radio sta = record {
    radio = radio.ident;
    channel = channel_of none radio.profiles;
    mac = lower sta.mac;
    rssi = dbm sta.signal;
    up_rate = sta.up_rate;
    down_rate = sta.down_rate;
    sent = sta.sent;
    recv = sta.recv;
    retrans = sta.retrans;
  }

  unfoldable pub on_radios : Option Address → List Radio → List RadioRow × List (StaRow A.F)
  on_radios device [] = ([], [])
  on_radios device (radio ∷ radios) =
      let rest = on_radios device radios in
      (radio_row device radio ∷ rest.0, map (sta_row radio) (concat radio.bss) ++ rest.1)

  unfoldable pub data_elements : List Device → List RadioRow × List (StaRow A.F)
  data_elements [] = ([], [])
  data_elements (dev ∷ devices) =
      let these = on_radios dev.ident dev.radios in
      let rest = data_elements devices in (these.0 ++ rest.0, these.1 ++ rest.1)
