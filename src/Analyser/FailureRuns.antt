-- ===== src/Analyser/FailureRuns.antt =====
-- scripts/i2s-skew.py: `CaptureFailures` over whole runs of failures.
use Prim.Native.String.{String}
use text.Mathlib.Text.{◌==◌ as str_eq}
use text.Mathlib.TextEquality.{eq_iff}
use esphome_snapcast.Base.{
  ℕ, zero, suc, ◌+◌, ◌-◌, ◌*◌, ◌^◌, ◌≤◌, ◌<◌, min, ◌≡◌, ◌≢◌, refl, ◌∙◌, sym, ap, ◌⊎◌, inl, inr,
  Bool, true, false, Option, none, some, List, [], ◌∷◌, arith, ltb, leb, ◌==◌, ◌&&◌, ==_iff,
  if◌then◌else◌, length, le_or_lt, map, Bool-cases,
}
use mathlib.Core.Path.{ap₂}
use native.Mathlib.Nat.{pow-suc, mul_comm}
use native.Mathlib.Numerals.{towards_suc}
use esphome_snapcast.Analyser.Failures.{
  CaptureFailures, wait, give_up, count_failure, is_printed, backoff, failed, new_failures,
  limit_or_default, is_last,
}

-- The failures of a loop, each with its message and its time, up to the one that gives up. `none`
-- is the exit; the number counts the messages printed.
pub fail_all : List (String × ℕ) → CaptureFailures → Option CaptureFailures × ℕ
fail_all [] f = (some f, 0)
fail_all ((msg, now) ∷ more) f =
    let r = failed msg now f in
    let rest = fail_all more r.state in
    elim r.verdict [ give_up ↦ (none, r.printed) | wait _ ↦ (rest.0, rest.1 + r.printed) ]

backoff-suc : (n : ℕ) → backoff (suc n) ≡ min (2 ^ min n 16) 30
unfolding backoff
backoff-suc n = ap (λ k. min (2 ^ min k 16) 30) (omega arith)

capped_double : (a : ℕ) → min (2 * a) 30 ≡ min (2 * min a 30) 30
capped_double a = omega arith

backoff-step : (n : ℕ) → backoff (suc (suc n)) ≡ min (2 * backoff (suc n)) 30
backoff-step n = elim (le_or_lt 16 n) [
  | inl late ↦
      let now : min (suc n) 16 ≡ 16 = omega arith in
      let before : min n 16 ≡ 16 = omega arith in
      rw (backoff-suc (suc n), backoff-suc n, now, before)
  | inr early ↦
      let now : min (suc n) 16 ≡ suc n = omega arith in
      let before : min n 16 ≡ n = omega arith in
      rw (backoff-suc (suc n), backoff-suc n, now, before, pow-suc 2 n, mul_comm (2 ^ n) 2)
        (capped_double (2 ^ n))
]

-- The wait behind the first failure of a run is one second, and each further one is twice the one
-- before it, capped at half a minute.
pub backoff_lem : (n : ℕ) → (backoff 1 ≡ 1) × (backoff (n + 2) ≡ min (2 * backoff (n + 1)) 30)
backoff_lem n = (unfold backoff in refl, simp towards_suc (backoff-step n))

-- A failure that goes on with the run, or begins the first one, counts up by one.
pub Continues : String → CaptureFailures → Type 0
Continues msg f = (f.last ≡ some msg) ⊎ (f.n ≡ 0) × (f.last ≡ none)

count_failure_same :
    (msg : String) (now : ℕ) (f : CaptureFailures)
    → Continues msg f
    → ((count_failure msg now f).n ≡ f.n + 1)
      × ((count_failure msg now f).last ≡ some msg)
      × ((count_failure msg now f).limit ≡ f.limit)
unfolding count_failure Continues
count_failure_same msg now f (inl h) = ground (arith, eq_iff msg msg)
count_failure_same msg now f (inr h) = ground (arith, eq_iff msg msg)

is_last-ne : (msg : String) (last : Option String) → last ≢ some msg → is_last msg last ≡ false
is_last-ne msg none h = refl
is_last-ne msg (some l) h = elim (Bool-cases (str_eq msg l)) [
  | inl same ↦ absurd (h (ap some (sym ((eq_iff msg l).0 same))))
  | inr other ↦ other
]

count_failure_new :
    (msg : String) (now : ℕ) (f : CaptureFailures)
    → f.last ≢ some msg
    → ((count_failure msg now f).n ≡ 1)
      × ((count_failure msg now f).last ≡ some msg)
      × ((count_failure msg now f).limit ≡ f.limit)
unfolding count_failure
count_failure_new msg now f h = simp (is_last-ne msg f.last h) (refl, refl, refl)

-- Whether the loop goes on: fewer failures than the limit.
abbrev pub goes_on : Option CaptureFailures → Bool
goes_on none = false
goes_on (some _) = true

-- Failures of one message at the given times.
abbrev pub same_failures : String → List ℕ → List (String × ℕ)
same_failures msg times = map (λ now. (msg, now)) times

-- How many of the `k` failures behind the `n`th are printed.
pub printed_from : ℕ → ℕ → ℕ
printed_from n zero = 0
printed_from n (suc k) = (if is_printed (n + 1) then 1 else 0) + printed_from (n + 1) k

abbrev one_if : Bool → ℕ
one_if b = if b then 1 else 0

fail_all-give_up :
    (msg : String) (now : ℕ) (more : List (String × ℕ)) (f : CaptureFailures)
    → f.limit ≤ (count_failure msg now f).n
    → (count_failure msg now f).limit ≡ f.limit
    → fail_all ((msg, now) ∷ more) f ≡ (none, one_if (is_printed (count_failure msg now f).n) + 1)
unfolding fail_all failed
fail_all-give_up msg now more f h e = ground arith

fail_all-wait :
    (msg : String) (now : ℕ) (more : List (String × ℕ)) (f : CaptureFailures)
    → (count_failure msg now f).n < f.limit
    → (count_failure msg now f).limit ≡ f.limit
    → let rest = fail_all more (count_failure msg now f) in
      fail_all ((msg, now) ∷ more) f
      ≡ (rest.0, rest.1 + one_if (is_printed (count_failure msg now f).n))
unfolding fail_all failed
fail_all-wait msg now more f h e = ground arith

-- How many messages a run of `m` failures of one message prints, behind the `n`th of them.
abbrev messages : ℕ → ℕ → ℕ → ℕ
messages n limit m = printed_from n (min m (limit - n)) + one_if (leb limit (n + m))

messages-last :
    (n limit m : ℕ)
    → n < limit
    → limit ≤ n + 1
    → messages n limit (suc m) ≡ one_if (is_printed (n + 1)) + 1
unfolding printed_from
messages-last n limit m h stop =
    let one : min (suc m) (limit - n) ≡ 1 = omega arith in
    let ends : leb limit (n + suc m) ≡ true = ground arith in rw (one, ends) (omega arith)

messages-next :
    (n limit m : ℕ)
    → n + 1 < limit
    → messages n limit (suc m) ≡ messages (n + 1) limit m + one_if (is_printed (n + 1))
unfolding printed_from
messages-next n limit m h =
    let e : min (suc m) (limit - n) ≡ suc (min m (limit - (n + 1))) = omega arith in
    let same : n + suc m ≡ n + 1 + m = omega arith in rw (e, same) (omega arith)

fail_all_same :
    (msg : String) (times : List ℕ) (f : CaptureFailures)
    → Continues msg f
    → f.n < f.limit
    → (goes_on (fail_all (same_failures msg times) f).0 ≡ ltb (f.n + length times) f.limit)
      × ((fail_all (same_failures msg times) f).1 ≡ messages f.n f.limit (length times))
fail_all_same msg [] f h k = unfold fail_all printed_from in ground arith
fail_all_same msg (now ∷ times) f h k =
    let (n_eq, last_eq, limit_eq) = count_failure_same msg now f h in
    elim (le_or_lt f.limit (count_failure msg now f).n) [
      | inl stop ↦
          rw (fail_all-give_up msg now (same_failures msg times) f stop limit_eq, n_eq)
            (
              ground arith,
              sym (messages-last f.n f.limit (length times) k (omega (arith, stop, n_eq))),
            )
      | inr more ↦
          let (goes, prints) =
            fail_all_same msg times (count_failure msg now f) (unfold Continues in inl last_eq)
              (omega (arith, limit_eq)) in
          let step = fail_all-wait msg now (same_failures msg times) f more limit_eq in
          (
            ap (λ r. goes_on r.0) step ∙ goes ∙ same_test n_eq limit_eq,
            ap (λ r. r.1) step
                ∙ ap₂ (λ k n. k + one_if (is_printed n))
                    (prints ∙ ap₂ (λ n limit. messages n limit (length times)) n_eq limit_eq) n_eq
                ∙ sym (messages-next f.n f.limit (length times) (omega (arith, more, n_eq))),
          )
    ]
  where
    same_test :
        {n limit : ℕ}
        → n ≡ f.n + 1
        → limit ≡ f.limit
        → ltb (n + length times) limit ≡ ltb (f.n + length (now ∷ times)) f.limit
    same_test e e' = ground arith

limit_positive : (limit : Option ℕ) → 0 < limit_or_default limit
limit_positive none = omega arith
limit_positive (some zero) = omega arith
limit_positive (some (suc k)) = omega arith

-- How many of the marks are reached.
pub reached : ℕ → List ℕ → ℕ
reached m [] = 0
reached m (x ∷ marks) = one_if (leb x m) + reached m marks

-- The failures that print a message with the default limit: a doubling schedule, and the last.
abbrev pub default_marks : List ℕ
default_marks = 1 ∷ 2 ∷ 4 ∷ 8 ∷ 16 ∷ 32 ∷ 40 ∷ []

abbrev all_below : ℕ → (ℕ → Bool) → Bool
all_below zero test = true
all_below (suc n) test = test n && all_below n test

both_true : (a b : Bool) → a && b ≡ true → (a ≡ true) × (b ≡ true)
both_true true b h = (refl, h)
both_true false b h = cc h

all_below-at : (n : ℕ) (test : ℕ → Bool) → all_below n test ≡ true → (k : ℕ) → k < n → test k ≡ true
all_below-at zero test h k lt = absurd (omega arith)
all_below-at (suc n) test h k lt =
    let (here, front) = both_true (test n) (all_below n test) h in
    elim (le_or_lt n k) [
      | inl last ↦ let e : k ≡ n = omega arith in ap test e ∙ here
      | inr less ↦ all_below-at n test front k less
    ]

abbrev messages_match : ℕ → Bool
messages_match m = messages 0 40 m == reached m default_marks

up_to_limit : all_below 41 messages_match ≡ true
unfolding printed_from is_printed reached
up_to_limit = refl

messages-late : (m : ℕ) → 40 ≤ m → messages 0 40 m ≡ reached m default_marks
unfolding printed_from is_printed reached
messages-late m h =
    let all : min m 40 ≡ 40 = omega arith in
    let ends : leb 40 (0 + m) ≡ true = ground arith in rw (all, ends) (ground arith)

messages-reached : (m : ℕ) → messages 0 40 m ≡ reached m default_marks
messages-reached m = elim (le_or_lt 41 m) [
  | inl late ↦ messages-late m (omega arith)
  | inr early ↦
      (==_iff (messages 0 40 m) (reached m default_marks)).0
        (all_below-at 41 messages_match up_to_limit m early)
]

fail_all-from_start :
    (msg : String) (times : List ℕ) (limit : Option ℕ)
    → (goes_on (fail_all (same_failures msg times) (new_failures limit)).0
        ≡ ltb (length times) (limit_or_default limit))
      × ((fail_all (same_failures msg times) (new_failures limit)).1
          ≡ messages 0 (limit_or_default limit) (length times))
unfolding new_failures
fail_all-from_start msg times limit =
    let (goes, prints) =
      fail_all_same msg times (new_failures limit) (unfold Continues in inr (refl, refl))
        (limit_positive limit) in
    (goes ∙ ap (λ k. ltb k (limit_or_default limit)) (omega arith), prints)

-- A run of one message, however long and at whatever times: the process goes on until the limit and
-- then exits. With the default limit the messages are those of the 1st, 2nd, 4th, 8th, 16th and 32nd
-- failure, of those that there are, and with the 40th the one of giving up.
pub fail_all-same_failures :
    (msg : String) (times : List ℕ) (limit : Option ℕ)
    → (goes_on (fail_all (same_failures msg times) (new_failures limit)).0
        ≡ ltb (length times) (limit_or_default limit))
      × ((fail_all (same_failures msg times) (new_failures none)).1
          ≡ reached (length times) default_marks)
fail_all-same_failures msg times limit = (
  unfold new_failures in (fail_all-from_start msg times limit).0,
  (fail_all-from_start msg times none).1 ∙ messages-reached (length times),
)

-- Each message differs from the one before it.
abbrev pub Changing : Option String → List (String × ℕ) → Type 0
Changing last [] = Unit
Changing last ((msg, now) ∷ more) = (last ≢ some msg) × Changing (some msg) more

grown :
    (rest : Option CaptureFailures × ℕ) (f' : CaptureFailures) (lines n : ℕ)
    → rest ≡ (some f', lines)
    → n ≡ 1
    → ◌≡◌ {A = Option CaptureFailures × ℕ}
        (rest.0, rest.1 + one_if (is_printed n))
        (some f', suc lines)
unfolding is_printed
grown rest f' lines n e one = rw (e, one) (ap (λ k. (some f', k)) (omega arith))

-- Failures whose message always differs from the one before never reach a limit above one, however
-- many there are, and each prints its line.
pub fail_all-Changing :
    (fs : List (String × ℕ)) (f : CaptureFailures)
    → 1 < f.limit
    → Changing f.last fs
    → (f' : CaptureFailures) × (fail_all fs f ≡ (some f', length fs))
fail_all-Changing [] f h c = (f, unfold fail_all in refl)
fail_all-Changing ((msg, now) ∷ more) f h (ne, c) =
    let (n_eq, last_eq, limit_eq) = count_failure_new msg now f ne in
    let (f', run) =
      fail_all-Changing more (count_failure msg now f) (omega (arith, limit_eq)) (rw last_eq c) in
    let step = fail_all-wait msg now more f (omega (arith, n_eq)) limit_eq in
    (f', step ∙ grown (fail_all more (count_failure msg now f)) f' (length more) _ run n_eq)
