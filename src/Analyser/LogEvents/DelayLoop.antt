-- ===== src/Analyser/LogEvents/DelayLoop.antt =====
-- scripts/i2s-skew.py: the handlers of the lines about the delay loop, and of the role.
use Prim.Native.Char.{code}
use Prim.Native.String.{String, ◌++◌ as str_append}
use text.Mathlib.Text.{◌==◌ as str_eq}
use esphome_snapcast.Base.{
  ℕ, zero, suc, ◌+◌, Bool, true, false, ◌&&◌, ◌||◌, not, Option, none, some, List, [], ◌∷◌, ltb,
  leb, ◌==◌, if◌then◌else◌,
}
use esphome_snapcast.Base.Int.{ℤ}
use esphome_snapcast.Analyser.CsvFile.Text.{is_space, strip}
use esphome_snapcast.Analyser.Stream.Blocks.{contains}
use esphome_snapcast.Analyser.LogEvents.Lines.{Stamp, tod, DlLoop, DlState}
use esphome_snapcast.Analyser.LogEvents.Log.{
  role_change, out_of_range, loop_mode, dl_err, dl_trim, dl_int, Key, Memory, Log, mark, add_point,
}

-- `STATE_NAMES.get(letter, letter)`
abbrev pub state_names : List (String × String)
state_names =
    ("c", "consensus")
    ∷ ("s", "solo")
    ∷ ("i", "inactive")
    ∷ ("l", "leader")
    ∷ ("f", "follower")
    ∷ []

unfoldable pub name_in : List (String × String) → String → String
name_in [] letter = letter
name_in ((key, name) ∷ names) letter =
    let rest = name_in names letter in if str_eq key letter then name else rest

-- Whether a text is the one that is remembered, if one is.
abbrev pub is_text : String → Option String → Bool
is_text s none = false
is_text s (some last) = str_eq s last

-- `tod < state.get(key, tod)`
abbrev pub earlier : ℕ → Option ℕ → Bool
earlier t none = false
earlier t (some last) = ltb t last

-- A change of role is an event, the first role is not.
abbrev pub role_event : {F : Type 0} → ℕ → String → Option String → Log F → Log F
role_event t role none log = log
role_event t role (some last) log =
    if str_eq role last then log else mark t (role_change last role) log

unfoldable pub on_role : {F : Type 0} → Option (Stamp × String) → Log F → Log F
on_role none log = log
on_role (some (at, letter)) log =
    let role = name_in state_names letter in
    let marked = role_event (tod at) role log.memory.role log in
    record marked { memory = record marked.memory { role = some role } }

-- `oor`: the first line of a run is an event; time that runs backwards begins a new run.
unfoldable pub on_dl_oor : {F : Type 0} → Stamp × ℤ → Log F → Log F
on_dl_oor (at, err) log =
    let t = tod at in
    let in_run = log.memory.oor && not (earlier t log.memory.oor_t) in
    let marked = if in_run then log else mark t (out_of_range err) log in
    record marked { memory = record marked.memory { oor = true; oor_t = some t } }

abbrev pub add_if : {F : Type 0} → Key → ℕ → Option ℕ → Option F → Log F → Log F
add_if key t dev none log = log
add_if key t dev (some value) log = add_point key t dev value log

-- `dl`: a normal tick ends the run, and goes into the series.
unfoldable pub on_dl_loop : {F : Type 0} → Option ℕ → DlLoop F → Log F → Log F
on_dl_loop dev dl log =
    let t = tod dl.at in
    let ended = record log { memory = record log.memory { oor = false } } in
    add_if dl_int t dev dl.int (add_if dl_trim t dev dl.trim (add_point dl_err t dev dl.err ended))

-- `re.split(r"[,(]", txt, maxsplit=1)[0]`
unfoldable pub clause : String → String
clause String.[] = String.[]
clause (String.◌∷◌ c s) =
    let rest = clause s in if (code c == 44) || (code c == 40) then String.[] else String.◌∷◌ c rest

abbrev pub first_is_space : String → Bool
first_is_space String.[] = true
first_is_space (String.◌∷◌ c s) = is_space c

-- `" ".join(s.split())`, up to the blank at its start: a run of white space is one blank.
unfoldable pub squeeze : String → String
squeeze String.[] = String.[]
squeeze (String.◌∷◌ c s) =
    let rest = squeeze s in
    if not (is_space c)
    then String.◌∷◌ c rest
    else if first_is_space rest
    then rest
    else str_append " " rest

-- `s[:n]`
unfoldable pub prefix : ℕ → String → String
prefix zero s = String.[]
prefix (suc n) String.[] = String.[]
prefix (suc n) (String.◌∷◌ c s) = String.◌∷◌ c (prefix n s)

unfoldable pub mode_of : String → String
unfolding clause squeeze prefix strip
mode_of text =
    if contains text "engaged"
    then "engaged"
    else if contains text "holding"
    then "holding"
    else strip (prefix 22 (strip (squeeze (clause text))))

-- The memory with the spacing gate reset, if time ran backwards.
abbrev pub rewound : {F : Type 0} → ℕ → Memory F → Memory F
rewound t m = if earlier t m.dlmode_t then record m { dlmode = none; dlmode_t = none } else m

abbrev pub is_spaced : ℕ → ℕ → Option ℕ → Bool
is_spaced gate t none = true
is_spaced gate t (some last) = leb (last + gate) t

-- `ds`: a change of mode is an event, unless the last one was less than `gate` before it.
unfoldable pub on_dl_state : {F : Type 0} → ℕ → DlState F → Log F → Log F
on_dl_state gate ds log =
    let t = tod ds.at in
    let m = rewound t log.memory in
    let mode = mode_of ds.text in
    if not (is_text mode m.dlmode) && is_spaced gate t m.dlmode_t
    then record (mark t (loop_mode mode ds.integral) log) {
      memory = record m { dlmode = some mode; dlmode_t = some t };
    }
    else record log { memory = record m { dlmode = some mode } }
