-- ===== src/Base/Clock.antt =====
-- Instants and durations of Go's time package, in nanoseconds.
-- An instant counts from the start of the year -1, so that every time that RFC 3339 can write, an
-- offset included, is a number that is not negative; Go's zero time is the start of the year 1.
use Prim.Native.Nat.{ℕ, suc, ◌+◌, ◌-◌, ◌*◌, ◌/◌, ◌%◌}
use mathlib.Core.Bool.{Bool, true}
use package.dauth.Base.Tests.{ltb, ==_iff, ◌==◌, if◌then◌else◌}
use package.dauth.Base.Text.{◌⧺◌, show_two, show_four}
use Prim.Native.String.{String}
use mathlib.Core.Logic.{◌↔◌}
use mathlib.Core.Path.{◌≡◌, refl}
use package.dauth.Base.Ints.{ℤ, pos, negsuc}

abbrev pub Time : Type 0
Time = ℕ

-- The years -1 and 0 have 365 and 366 days.
unfoldable pub zero_time : Time
zero_time = 731 * 86_400 * 1_000_000_000

unfoldable pub is_zero : Time → Bool
unfolding zero_time
is_zero t = t == zero_time

pub is_zero_iff : (t : Time) → (is_zero t ≡ true) ↔ (t ≡ zero_time)
unfolding is_zero
is_zero_iff t = ==_iff t zero_time

abbrev pub after : Time → Time → Bool
after t u = ltb u t

abbrev pub before : Time → Time → Bool
before t u = ltb t u

-- A duration is signed, and below 2^63 nanoseconds (293 years): from an instant of the clock the
-- difference never reaches 0.
abbrev pub Duration : Type 0
Duration = ℤ

abbrev pub add : Time → Duration → Time
add t (pos d) = t + d
add t (negsuc d) = t - suc d

abbrev pub second : ℕ
second = 1_000_000_000

-- The civil date of a day, counted like an instant from the start of the year -1: in eras of 400
-- years that begin on the first of March, the first one in the year -400.
unfoldable pub date_text : ℕ → String
unfolding show_two show_four
date_text day =
    let z = day + 146_097 - 425 in
    let era = z / 146_097 in
    let doe = z % 146_097 in
    let yoe = (doe - doe / 1460 + doe / 36_524 - doe / 146_096) / 365 in
    let doy = doe - (365 * yoe + yoe / 4 - yoe / 100) in
    let mp = (5 * doy + 2) / 153 in
    let month = if ltb mp 10 then mp + 3 else mp - 9 in
    let year = yoe + era * 400 + (if ltb month 3 then 1 else 0) - 400 in
    show_four year ⧺ "-" ⧺ show_two month ⧺ "-" ⧺ show_two (doy - (153 * mp + 2) / 5 + 1)

-- `t.UTC().Format(time.RFC3339)`, for the years 0 to 9999.
unfoldable pub format_rfc3339 : Time → String
unfolding date_text
format_rfc3339 t =
    let s = t / second in
    date_text (s / 86_400)
    ⧺ "T"
    ⧺ show_two (s / 3600 % 24)
    ⧺ ":"
    ⧺ show_two (s / 60 % 60)
    ⧺ ":"
    ⧺ show_two (s % 60)
    ⧺ "Z"

-- 2026-06-14T17:25:00Z is 1781457900 seconds after 1970-01-01, the day 719893.
format_rfc3339_sample :
    format_rfc3339 ((719_893 * 86_400 + 1_781_457_900) * second) ≡ "2026-06-14T17:25:00Z"
unfolding format_rfc3339
format_rfc3339_sample = refl

-- `int(d.Seconds())`, exact where the float is: at whole seconds, and below 2^23 seconds.
unfoldable pub seconds : Duration → ℤ
seconds (pos d) = pos (d / second)
seconds (negsuc d) = let n = suc d / second in if n == 0 then pos 0 else negsuc (n - 1)

-- `t.Unix()`; the day 719893 is 1970-01-01.
unfoldable pub unix : Time → ℤ
unix t =
    let s = t / second in
    let epoch = 719_893 * 86_400 in if ltb s epoch then negsuc (epoch - s - 1) else pos (s - epoch)
