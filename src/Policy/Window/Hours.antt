-- ===== src/Policy/Window/Hours.antt =====
-- Scan windows: what `parseScanWindow` yields, and the instants that a window contains.
use enterprise_security_reco.Prelude.{
  ℕ, ◌+◌, ◌-◌, ◌*◌, ◌%◌, ◌<◌, code, String, ◌≡◌, refl, ◌≢◌, ◌↔◌, true, ◌&&◌, Option, none, some,
  List, [], ◌∷◌, arith, All, lookup, ◌==◌, if◌then◌else◌, Option-cases, inl, inr, Bool-cases, ltb,
  leb, nat_eq,
}
use enterprise_security_reco.Strings.{fields, trim_space, to_lower, cut}
use enterprise_security_reco.Policy.Window.{
  Instant, ScanWindow, window, weekdays, minute_digits, after_hour, clock_minute, parse_span,
  parse_fields, parse_zone, parse_scan_window, window_contains, unsnoc,
}

pub record IsInstant (at : Instant) : Type 0 where
  pub weekday : at.weekday < 7
  pub hour : at.hour < 24
  pub minute : at.minute < 60

abbrev pub IsWeekday : Option ℕ → Type 0
IsWeekday none = Unit
IsWeekday (some d) = d < 7

pub record IsWindow (w : ScanWindow) : Type 0 where
  pub weekday : IsWeekday w.weekday
  pub start : w.start < 1440
  pub end : w.end < 1440
  pub differ : w.start ≢ w.end

-- The minutes for which a window stays open.
abbrev pub duration : ScanWindow → ℕ
duration w = (w.end + 1440 - w.start) % 1440

abbrev pub day_minute : Instant → ℕ
day_minute at = at.hour * 60 + at.minute

-- Fewer minutes have passed, in the day or in the week, since the window opened than it lasts.
abbrev pub Open : Option ℕ → ScanWindow → Instant → Type 0
Open none w at = (day_minute at + 1440 - w.start) % 1440 < duration w
Open (some d) w at =
    (at.weekday * 1440 + day_minute at + 10080 - (d * 1440 + w.start)) % 10080 < duration w

minute_digits-lt : (rest : String) (m : ℕ) → minute_digits rest ≡ some m → m < 60
unfolding minute_digits
minute_digits-lt (String.◌∷◌ c (String.◌∷◌ d String.[])) m h = ground arith
minute_digits-lt _ m h = ground arith

after_hour-lt : (hour : ℕ) (rest : String) (m : ℕ) → after_hour hour rest ≡ some m → m < 1440
unfolding after_hour
after_hour-lt hour String.[] m h = ground arith
after_hour-lt hour (String.◌∷◌ c rest) m h = elim (Option-cases (minute_digits rest)) [
  | inl bad ↦ ground arith
  | inr (k, good) ↦ ground (arith, minute_digits-lt rest k good)
]

clock_minute-lt : (raw : String) (m : ℕ) → clock_minute raw ≡ some m → m < 1440
unfolding clock_minute
clock_minute-lt String.[] m h = cc
clock_minute-lt (String.◌∷◌ c String.[]) m h = cc
clock_minute-lt (String.◌∷◌ c (String.◌∷◌ d rest)) m h = ground (
  arith,
  after_hour-lt ((code c - 48) * 10 + (code d - 48)) rest m,
  after_hour-lt (code c - 48) (String.◌∷◌ d rest) m,
)

open_daily :
    (start end hour minute : ℕ)
    → start < 1440
    → end < 1440
    → start ≢ end
    → hour < 24
    → minute < 60
    → let m = hour * 60 + minute in
      ((if ltb start end
          then leb start m && ltb m end
          else if leb start m
          then true
          else ltb m end && true)
        ≡ true)
      ↔ ((m + 1440 - start) % 1440 < (end + 1440 - start) % 1440)
open_daily start end hour minute hs he d hh hm = (λ h. ground arith, λ h. ground arith)

open_weekly :
    (start end hour minute day d : ℕ)
    → start < 1440
    → end < 1440
    → start ≢ end
    → hour < 24
    → minute < 60
    → day < 7
    → d < 7
    → let m = hour * 60 + minute in
      ((if ltb start end
          then nat_eq day d && (leb start m && ltb m end)
          else if leb start m
          then nat_eq day d
          else ltb m end && nat_eq ((day + 6) % 7) d)
        ≡ true)
      ↔ ((day * 1440 + m + 10080 - (d * 1440 + start)) % 10080 < (end + 1440 - start) % 1440)
open_weekly start end hour minute day d hs he n hh hm hd hd' =
    (λ h. ground arith, λ h. ground arith)

contains-Open :
    (w : ScanWindow) (day : Option ℕ) (at : Instant)
    → w.weekday ≡ day
    → IsWindow w
    → IsInstant at
    → (window_contains w at ≡ true) ↔ Open day w at
unfolding window_contains
contains-Open w none at e hw hat =
    rw e (open_daily w.start w.end at.hour at.minute hw.start hw.end hw.differ hat.hour hat.minute)
contains-Open w (some d) at e hw hat = rw e (
    open_weekly w.start w.end at.hour at.minute at.weekday d hw.start hw.end hw.differ hat.hour
      hat.minute hat.weekday (rw e at hw.weekday))

weekday-lt :
    (k : String) (m : List (String × ℕ)) (v : ℕ)
    → All (λ (e : String × ℕ). e.1 < 7) m
    → lookup k m ≡ some v
    → v < 7
unfolding lookup
weekday-lt k [] v all h = cc
weekday-lt k ((j, d) ∷ m) v all h = elim (Bool-cases (j == k)) [
  | inl same ↦ ground arith
  | inr other ↦ weekday-lt k m v all.1 (ground arith)
]

parse_span-IsWindow :
    (day : Option ℕ) (span : String) (w : ScanWindow)
    → IsWeekday day
    → parse_span day span ≡ window w
    → IsWindow w
unfolding parse_span
parse_span-IsWindow day span w d h =
    ground
      (arith, clock_minute-lt (cut b'-' span).0 w.start, clock_minute-lt (cut b'-' span).1 w.end)

parse_fields-IsWindow :
    (fs : List String) (w : ScanWindow) → parse_fields fs ≡ window w → IsWindow w
unfolding parse_fields
parse_fields-IsWindow [] w h = cc
parse_fields-IsWindow (span ∷ []) w h = parse_span-IsWindow none span w tt h
parse_fields-IsWindow (day ∷ span ∷ []) w h = elim (Option-cases (lookup (to_lower day) weekdays)) [
  | inl unknown ↦ ground arith
  | inr (v, known) ↦
      parse_span-IsWindow (some v) span w (weekday-lt (to_lower day) weekdays v (omega arith) known)
        (ground arith)
]
parse_fields-IsWindow (a ∷ b ∷ c ∷ rest) w h = cc

parse_zone-IsWindow :
    (o : Option (List String × String)) (w : ScanWindow) → parse_zone o ≡ window w → IsWindow w
unfolding parse_zone
parse_zone-IsWindow none w h = cc
parse_zone-IsWindow (some ([], last)) w h = cc
parse_zone-IsWindow (some (f ∷ before, last)) w h =
    ground (arith, parse_fields-IsWindow (f ∷ before) w)

-- A text that parses gives a window of the day: both ends are minutes of a day, they differ, and
-- the weekday, if there is one, is a day of the week.
pub parse_scan_window-IsWindow :
    (raw : String) (w : ScanWindow) → parse_scan_window raw ≡ window w → IsWindow w
unfolding parse_scan_window
parse_scan_window-IsWindow raw w h = parse_zone-IsWindow (unsnoc (fields (trim_space raw))) w h

-- For a text that parses and an instant in range, the test of the window holds exactly when fewer
-- minutes have passed since the window last opened, on its weekday if it has one, than it stays
-- open. So a window that runs past midnight belongs to the day on which it began.
pub window_contains_iff :
    (raw : String) (w : ScanWindow) (at : Instant)
    → parse_scan_window raw ≡ window w
    → IsInstant at
    → (window_contains w at ≡ true) ↔ Open w.weekday w at
window_contains_iff raw w at h hat =
    contains-Open w w.weekday at refl (parse_scan_window-IsWindow raw w h) hat
