-- ===== src/Analyser/LogEvents/Roles.antt =====
-- scripts/i2s-skew.py: which changes of role `parse_sync_events` reports.
use Prim.Native.String.{String}
use text.Mathlib.Text.{◌==◌ as str_eq}
use mathlib.Core.List.{append_assoc, append-nil}
use esphome_snapcast.Base.{
  ℕ, ◌≡◌, refl, ◌∙◌, ap, sym, inl, inr, Option, none, some, List, [], ◌∷◌, ◌++◌, if◌then◌else◌,
  Bool-cases,
}
use esphome_snapcast.Base.Float.{Float}
use esphome_snapcast.Analyser.LogEvents.Lines.{Stamp, tod, Line}
use esphome_snapcast.Analyser.LogEvents.Log.{role_change, Memory, Log, new_log}
use esphome_snapcast.Analyser.LogEvents.DelayLoop.{state_names, name_in, role_event, on_role}
use esphome_snapcast.Analyser.LogEvents.Marks.{Thresholds}
use esphome_snapcast.Analyser.LogEvents.Parse.{parse_line, parse_lines, parse_sync_events}
use esphome_snapcast.Analyser.LogEvents.Frames.{role_events, role_events-append}
use esphome_snapcast.Analyser.LogEvents.PatternFrames.{first_patterns-SameRole}

-- The neighbours that differ in a list of roles, with the role before the list if there is one.
pub changes : Option String → List String → List (String × String)
changes last [] = []
changes none (role ∷ roles) = changes (some role) roles
changes (some last) (role ∷ roles) =
    let rest = changes (some role) roles in if str_eq role last then rest else (last, role) ∷ rest

-- The role after a list of roles.
pub last_role : Option String → List String → Option String
last_role last [] = last
last_role last (role ∷ roles) = last_role (some role) roles

-- The role that a line names, if it names one.
pub role_of : Option (Stamp × String) → List String
role_of none = []
role_of (some (at, letter)) = name_in state_names letter ∷ []

changes-append :
    (last : Option String) (xs ys : List String)
    → changes last (xs ++ ys) ≡ changes last xs ++ changes (last_role last xs) ys
unfolding changes last_role
changes-append last [] ys = refl
changes-append none (x ∷ xs) ys = changes-append (some x) xs ys
changes-append (some last) (x ∷ xs) ys = elim (Bool-cases (str_eq x last)) [
  | inl same ↦ rw same (changes-append (some x) xs ys)
  | inr other ↦ rw other (ap (λ r. (last, x) ∷ r) (changes-append (some x) xs ys))
]

last_role-append :
    (last : Option String) (xs ys : List String)
    → last_role last (xs ++ ys) ≡ last_role (last_role last xs) ys
unfolding last_role
last_role-append last [] ys = refl
last_role-append last (x ∷ xs) ys = last_role-append (some x) xs ys

module _ {F : Type 0} where
  pub roles_in : List (Line F) → List String
  roles_in [] = []
  roles_in (l ∷ ls) = role_of l.role ++ roles_in ls

  roles_in-append : (xs ys : List (Line F)) → roles_in (xs ++ ys) ≡ roles_in xs ++ roles_in ys
  unfolding roles_in
  roles_in-append [] ys = refl
  roles_in-append (l ∷ xs) ys =
      ap (λ r. role_of l.role ++ r) (roles_in-append xs ys)
      ∙ sym (append_assoc (role_of l.role) (roles_in xs) (roles_in ys))

  -- What a log has gained, as far as roles go.
  record GainsRoles (roles : List String) (log log' : Log F) : Type 0 where
    role : log'.memory.role ≡ last_role log.memory.role roles
    marked : role_events log'.events ≡ role_events log.events ++ changes log.memory.role roles

  role_event-changes :
      (t : ℕ) (role : String) (last : Option String) (log : Log F)
      → role_events (role_event t role last log).events
        ≡ role_events log.events ++ changes last (role ∷ [])
  unfolding changes role_events
  role_event-changes t role none log = sym (append-nil (role_events log.events))
  role_event-changes t role (some last) log = elim (Bool-cases (str_eq role last)) [
    | inl same ↦ rw same (sym (append-nil (role_events log.events)))
    | inr other ↦ rw other (role_events-append log.events ((t, role_change last role) ∷ []))
  ]

  on_role-GainsRoles :
      (m : Option (Stamp × String)) (log : Log F) → GainsRoles (role_of m) log (on_role m log)
  unfolding on_role role_of
  on_role-GainsRoles none log = record {
    role = unfold last_role in refl;
    marked = unfold changes in sym (append-nil (role_events log.events));
  }
  on_role-GainsRoles (some (at, letter)) log = record {
    role = unfold last_role in refl;
    marked = role_event-changes (tod at) (name_in state_names letter) log.memory.role log;
  }

module _ (fl : Float) (th : Thresholds fl.F) where
  open fl use {F}

  parse_line-GainsRoles :
      (l : Line F) (log : Log F) → GainsRoles (role_of l.role) log (parse_line fl th l log)
  unfolding parse_line
  parse_line-GainsRoles l log =
      let gained = on_role-GainsRoles l.role log in
      let same = first_patterns-SameRole fl th l (on_role l.role log) in
      record { role = same.role ∙ gained.role; marked = same.marked ∙ gained.marked }

  parse_lines-GainsRoles :
      (ls : List (Line F)) (log : Log F) → GainsRoles (roles_in ls) log (parse_lines fl th ls log)
  unfolding parse_lines roles_in
  parse_lines-GainsRoles [] log = record {
    role = unfold last_role in refl;
    marked = unfold changes in sym (append-nil (role_events log.events));
  }
  parse_lines-GainsRoles (l ∷ ls) log =
      let one = parse_line-GainsRoles l log in
      let more = parse_lines-GainsRoles ls (parse_line fl th l log) in
      record {
        role =
            more.role
            ∙ rw one.role (sym (last_role-append log.memory.role (role_of l.role) (roles_in ls)));
        marked =
            more.marked
            ∙ rw (one.marked, one.role)
                (append_assoc (role_events log.events) (changes log.memory.role (role_of l.role))
                    (changes (last_role log.memory.role (role_of l.role)) (roles_in ls))
                  ∙ ap (λ r. role_events log.events ++ r)
                      (sym (changes-append log.memory.role (role_of l.role) (roles_in ls))));
      }

  -- The changes of role that a call reports are those between neighbours among the roles that the
  -- lines name, from the role of the call before on; the last role is carried to the next call.
  pub parse_sync_events-changes :
      (lines : List (Line F)) (memory : Memory F)
      → let log = parse_sync_events fl th lines memory in
        (role_events log.events ≡ changes memory.role (roles_in lines))
        × (log.memory.role ≡ last_role memory.role (roles_in lines))
  unfolding parse_sync_events
  parse_sync_events-changes lines memory =
      let gained = parse_lines-GainsRoles lines (new_log memory) in
      (gained.marked ∙ unfold role_events in refl, gained.role)
