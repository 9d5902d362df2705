-- ===== src/Config/Emits.antt =====
-- components/snapclient/__init__.py: what the calls of `to_code` hand to the firmware.
use Prim.Native.String.{String}
use mathlib.Core.List.{append-nil}
use esphome_snapcast.Base.{
  ℕ, zero, suc, ◌%◌, ◌<◌, ◌≡◌, ◌↔◌, ◌⊎◌, inl, inr, refl, ◌∙◌, ap, Option, none, some, List, [], ◌∷◌,
  ◌++◌, arith,
}
use esphome_snapcast.Config.Schema.{enum_lookup, Hold, never, duration, ConfigType}
use esphome_snapcast.Config.Words.{IsEntry, IsAbsent, Finds, enum_lookup-Finds}
use esphome_snapcast.Config.Codegen.{
  Call, set_keepalive_hold, set_rate_lock_port, Invalid, unknown_bus, resolve_i2s_port, hold_code,
  port_calls, hub_calls, feature_calls, rate_lock_calls, to_code,
}

abbrev read_hold : ℕ → Hold
read_hold zero = never
read_hold (suc ms) = duration (suc ms)

-- How the firmware reads the number that it is given, which it keeps in 32 bits: 0 is `never`.
abbrev pub hold_meaning : ℕ → Hold
hold_meaning ms = read_hold (ms % 4_294_967_296)

-- `never`, or a time that is neither none nor beyond the 32 bits of a millisecond count.
abbrev pub IsKept : Hold → Type 0
IsKept never = Unit
IsKept (duration ms) = (0 < ms) × (ms < 4_294_967_296)

read_hold-positive : (ms : ℕ) → 0 < ms → read_hold ms ≡ duration ms
read_hold-positive zero h = absurd (omega arith)
read_hold-positive (suc ms) h = refl

read_hold-duration : (k ms : ℕ) → read_hold k ≡ duration ms → (0 < k) × (k ≡ ms)
read_hold-duration zero ms e = cc e
read_hold-duration (suc k) ms e = (omega arith, cc e)

-- The firmware holds for the time that was configured, or for ever where that was configured, exactly
-- unless the time is none at all, which it takes for `never`, or has 2^32 milliseconds or more, of
-- which it keeps the remainder.
pub hold_meaning-hold_code : (h : Hold) → (hold_meaning (hold_code h) ≡ h) ↔ IsKept h
unfolding hold_code
hold_meaning-hold_code never = (λ e. tt, λ h. refl)
hold_meaning-hold_code (duration ms) = (
  λ e.
      let (positive, same) = read_hold-duration (ms % 4_294_967_296) ms e in
      (omega arith, omega arith),
  λ (positive, below).
      let same : ms % 4_294_967_296 ≡ ms = omega arith in
      ap read_hold same ∙ read_hold-positive ms positive,
)

-- The ports and the holds that a run of calls sets.
unfoldable pub ports_set : List Call → List ℕ
ports_set [] = []
ports_set (set_rate_lock_port port ∷ calls) = port ∷ ports_set calls
ports_set (_ ∷ calls) = ports_set calls

pub holds_set : List Call → List ℕ
holds_set [] = []
holds_set (set_keepalive_hold ms ∷ calls) = ms ∷ holds_set calls
holds_set (_ ∷ calls) = holds_set calls

ports_set-append : (xs ys : List Call) → ports_set (xs ++ ys) ≡ ports_set xs ++ ports_set ys
unfolding ports_set
ports_set-append [] ys = refl
ports_set-append (set_rate_lock_port port ∷ xs) ys = ap (λ r. port ∷ r) (ports_set-append xs ys)
ports_set-append (_ ∷ xs) ys = ports_set-append xs ys

holds_set-append : (xs ys : List Call) → holds_set (xs ++ ys) ≡ holds_set xs ++ holds_set ys
unfolding holds_set
holds_set-append [] ys = refl
holds_set-append (set_keepalive_hold ms ∷ xs) ys = ap (λ r. ms ∷ r) (holds_set-append xs ys)
holds_set-append (_ ∷ xs) ys = holds_set-append xs ys

hub_calls-sets :
    (c : ConfigType)
    → (ports_set (hub_calls c) ≡ []) × (holds_set (hub_calls c) ≡ hold_code c.keepalive_hold ∷ [])
unfolding hub_calls ports_set holds_set
hub_calls-sets c = ground arith

feature_calls-sets :
    (c : ConfigType) → (ports_set (feature_calls c) ≡ []) × (holds_set (feature_calls c) ≡ [])
unfolding feature_calls ports_set holds_set
feature_calls-sets c = ground arith

-- The number for a hold.
abbrev pub IsHoldCode : Hold → ℕ → Type 0
IsHoldCode never ms = ms ≡ 0
IsHoldCode (duration n) ms = ms ≡ n

hold_code-IsHoldCode : (h : Hold) → IsHoldCode h (hold_code h)
unfolding hold_code
hold_code-IsHoldCode never = refl
hold_code-IsHoldCode (duration n) = refl

-- The ports that are set and the failure, for a rate lock: none without one; the port of the bus in
-- i2s_audio's map; or a failure if the map has no such bus.
abbrev pub IsResolved : List (String × ℕ) → Option String → List ℕ → Option Invalid → Type 0
IsResolved ports none set_ports raised = (set_ports ≡ []) × (raised ≡ none)
IsResolved ports (some bus) set_ports raised =
    ((port : ℕ) × IsEntry ports bus port × (set_ports ≡ port ∷ []) × (raised ≡ none))
    ⊎ (IsAbsent ports bus × (set_ports ≡ []) × (raised ≡ some (unknown_bus bus)))

port_calls-IsResolved :
    (ports : List (String × ℕ)) (bus : String) (o : Option ℕ)
    → Finds ports bus o
    → let g = port_calls bus o in
      (holds_set g.calls ≡ []) × IsResolved ports (some bus) (ports_set g.calls) g.raised
unfolding holds_set ports_set
port_calls-IsResolved ports bus none absent = (refl, inr (absent, refl, refl))
port_calls-IsResolved ports bus (some port) found = (refl, inl (port, found, refl, refl))

rate_lock_calls-IsResolved :
    (ports : List (String × ℕ)) (bus : Option String)
    → let g = rate_lock_calls ports bus in
      (holds_set g.calls ≡ []) × IsResolved ports bus (ports_set g.calls) g.raised
rate_lock_calls-IsResolved ports none =
    unfold rate_lock_calls holds_set ports_set in (refl, (refl, refl))
rate_lock_calls-IsResolved ports (some bus) =
    unfold rate_lock_calls resolve_i2s_port in
    port_calls-IsResolved ports bus (enum_lookup ports bus) (enum_lookup-Finds ports bus)

to_code-sets :
    (ports : List (String × ℕ)) (c : ConfigType)
    → let g = to_code ports c in
      let locked = rate_lock_calls ports c.rate_lock in
      (holds_set locked.calls ≡ [])
      → (holds_set g.calls ≡ hold_code c.keepalive_hold ∷ [])
        × (ports_set g.calls ≡ ports_set locked.calls)
        × (g.raised ≡ locked.raised)
unfolding to_code
to_code-sets ports c no_hold =
    let locked = rate_lock_calls ports c.rate_lock in
    let (hub_ports, hub_holds) = hub_calls-sets c in
    let (feature_ports, feature_holds) = feature_calls-sets c in
    ground (
      arith,
      holds_set-append (hub_calls c) locked.calls,
      holds_set-append (hub_calls c) (locked.calls ++ feature_calls c),
      holds_set-append locked.calls (feature_calls c),
      ports_set-append (hub_calls c) locked.calls,
      ports_set-append (hub_calls c) (locked.calls ++ feature_calls c),
      ports_set-append locked.calls (feature_calls c),
      append-nil (ports_set locked.calls),
    )

-- The firmware gets exactly one keepalive hold, 0 for `never` and else the configured milliseconds.
-- Without a rate lock it gets no port, and nothing is raised; with one it gets exactly one port, that
-- of the bus in i2s_audio's map, or, exactly if the map has no entry for the bus, no port, and
-- generation raises.
pub to_code_lem :
    (ports : List (String × ℕ)) (c : ConfigType)
    → let g = to_code ports c in
      ((ms : ℕ) × (holds_set g.calls ≡ ms ∷ []) × IsHoldCode c.keepalive_hold ms)
      × IsResolved ports c.rate_lock (ports_set g.calls) g.raised
to_code_lem ports c =
    let (no_hold, resolved) = rate_lock_calls-IsResolved ports c.rate_lock in
    let (holds, same_ports, same_raised) = to_code-sets ports c no_hold in
    (
      (hold_code c.keepalive_hold, holds, hold_code-IsHoldCode c.keepalive_hold),
      rw (same_ports, same_raised) resolved,
    )
