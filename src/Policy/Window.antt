-- ===== src/Policy/Window.antt =====
-- internal/policy/policy.go: scan windows such as `Mon 22:00-06:00 UTC`, parsed and tested.
pub mod Hours
use Prim.Native.Char.{Char}
use enterprise_security_reco.Prelude.{
  ℕ, suc, ◌+◌, ◌-◌, ◌*◌, ◌%◌, code, String, Bool, true, ◌&&◌, Option, none, some, List, [], ◌∷◌,
  ltb, leb, nat_eq, if◌then◌else◌, lookup, ◌==◌,
}
use enterprise_security_reco.Strings.{fields, trim_space, to_lower, cut}

-- What the code reads of a `time.Time` in UTC. `weekday` counts from Sunday, 0.
pub record Instant : Type 0 where
  pub weekday : ℕ
  pub hour : ℕ
  pub minute : ℕ

pub data WindowError : Type 0 where
  unexpected_form invalid_weekday invalid_format missing_range equal_ends : WindowError
  invalid_time : String → WindowError

-- `none` is the nil weekday: every day. `start` and `end` are minutes of the day.
pub record ScanWindow : Type 0 where
  pub weekday : Option ℕ
  pub start : ℕ
  pub end : ℕ

pub data Parsed : Type 0 where
  window : ScanWindow → Parsed
  refused : WindowError → Parsed

abbrev pub weekdays : List (String × ℕ)
weekdays =
    ("sun", 0)
    ∷ ("sunday", 0)
    ∷ ("mon", 1)
    ∷ ("monday", 1)
    ∷ ("tue", 2)
    ∷ ("tuesday", 2)
    ∷ ("wed", 3)
    ∷ ("wednesday", 3)
    ∷ ("thu", 4)
    ∷ ("thursday", 4)
    ∷ ("fri", 5)
    ∷ ("friday", 5)
    ∷ ("sat", 6)
    ∷ ("saturday", 6)
    ∷ []

abbrev is_digit : Char → Bool
is_digit c = leb 48 (code c) && leb (code c) 57

abbrev digit : Char → ℕ
digit c = code c - 48

-- The minute of `time.Parse("15:04", …)`: two digits below 60, and nothing after them.
minute_digits : String → Option ℕ
minute_digits (String.◌∷◌ m (String.◌∷◌ n String.[])) =
    let minute = digit m * 10 + digit n in
    if is_digit m && is_digit n && ltb minute 60 then some minute else none
minute_digits _ = none

-- What follows the hour: a colon and the minute.
after_hour : ℕ → String → Option ℕ
unfolding minute_digits
after_hour hour (String.◌∷◌ colon rest) =
    if nat_eq (code colon) b':' && ltb hour 24
    then elim (minute_digits rest) [ none ↦ none | some m ↦ some (hour * 60 + m) ]
    else none
after_hour hour String.[] = none

-- `time.Parse("15:04", raw)`, as minutes of the day: the hour has one digit or two.
unfoldable pub clock_minute : String → Option ℕ
unfolding after_hour
clock_minute String.[] = none
clock_minute (String.◌∷◌ h String.[]) = none
clock_minute (String.◌∷◌ h (String.◌∷◌ g rest)) =
    if is_digit h
    then if is_digit g
      then after_hour (digit h * 10 + digit g) rest
      else after_hour (digit h) (String.◌∷◌ g rest)
    else none

-- The range of times, once the weekday is known.
parse_span : Option ℕ → String → Parsed
unfolding clock_minute
parse_span day span =
    let (start_raw, end_raw, found) = cut b'-' span in
    if found
    then elim (clock_minute start_raw) [
      | none ↦ refused (invalid_time start_raw)
      | some start ↦ elim (clock_minute end_raw) [
        | none ↦ refused (invalid_time end_raw)
        | some end ↦
            if nat_eq start end
            then refused equal_ends
            else window (record { weekday = day; start = start; end = end })
      ]
    ]
    else refused missing_range

-- The fields before `UTC`.
parse_fields : List String → Parsed
unfolding parse_span
parse_fields (span ∷ []) = parse_span none span
parse_fields (day ∷ span ∷ []) = elim (lookup (to_lower day) weekdays) [
  | none ↦ refused invalid_weekday
  | some value ↦ parse_span (some value) span
]
parse_fields _ = refused invalid_format

abbrev is_utc : String → Bool
is_utc s = to_lower s == "utc"

-- The last field and those before it.
unsnoc : List String → Option (List String × String)
unsnoc [] = none
unsnoc (x ∷ xs) = elim (unsnoc xs) [
  | none ↦ some ([], x)
  | some (before, last) ↦ some (x ∷ before, last)
]

-- The last field must be `UTC`, with a field before it.
parse_zone : Option (List String × String) → Parsed
unfolding parse_fields
parse_zone none = refused unexpected_form
parse_zone (some ([], last)) = refused unexpected_form
parse_zone (some (f ∷ before, last)) =
    if is_utc last then parse_fields (f ∷ before) else refused unexpected_form

unfoldable pub parse_scan_window : String → Parsed
unfolding parse_zone unsnoc fields trim_space
parse_scan_window raw = parse_zone (unsnoc (fields (trim_space raw)))

abbrev pub on_day : Option ℕ → ℕ → Bool
on_day none day = true
on_day (some w) day = nat_eq day w

-- A window whose end lies before its start runs past midnight, and belongs to the day it began.
unfoldable pub window_contains : ScanWindow → Instant → Bool
window_contains w at =
    let minute = at.hour * 60 + at.minute in
    let day = at.weekday in
    if ltb w.start w.end
    then on_day w.weekday day && (leb w.start minute && ltb minute w.end)
    else if leb w.start minute
    then on_day w.weekday day
    else ltb minute w.end && on_day w.weekday ((day + 6) % 7)

-- The result of `withinScanWindows`; `invalid` has the number of the window, from 1.
pub data Verdict : Type 0 where
  within outside : Verdict
  invalid : ℕ → WindowError → Verdict

-- The loop over the windows, from window number `index + 1` on.
unfoldable pub windows_from : ℕ → List String → Instant → Verdict
windows_from index [] at = outside
windows_from index (raw ∷ windows) at =
    let later = windows_from (suc index) windows at in
    elim (parse_scan_window raw) [
      | refused e ↦ invalid (suc index) e
      | window w ↦ if window_contains w at then within else later
    ]

unfoldable pub within_scan_windows : List String → Instant → Verdict
unfolding windows_from
within_scan_windows [] at = within
within_scan_windows (raw ∷ windows) at = windows_from 0 (raw ∷ windows) at
