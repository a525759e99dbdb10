-- ===== src/Web/Calendar.antt =====
-- `utc_to_unix` of main/web_server.cpp against the calendar.
use gps_base_station.Prelude.{
  ℕ, zero, suc, ◌+◌, ◌-◌, ◌*◌, ◌%◌, ◌^◌, ◌≤◌, ◌<◌, ◌≡◌, refl, Option, none, some, Bool, true, false,
  ◌||◌, ltb, leb, ◌==◌, if◌then◌else◌, get_elem?, arith, passes, passes_lem, ==_iff, leb→le, subst,
}
use gps_base_station.Survey.Text.{pos}
use gps_base_station.Web.Dates.{moff, is_leap, days_before, utc_from, utc_to_unix, difference}

-- The Gregorian calendar, year by year and month by month.
unfoldable pub days_of_years : ℕ → ℕ
days_of_years zero = 0
days_of_years (suc n) = days_of_years n + (if is_leap (1970 + n) then 366 else 365)

unfoldable pub month_length : ℕ → ℕ → ℕ
month_length y mo =
    if mo == 2
    then (if is_leap y then 29 else 28)
    else if mo == 4 || mo == 6 || mo == 9 || mo == 11
    then 30
    else 31

unfoldable pub days_of_months : ℕ → ℕ → ℕ
unfolding month_length
days_of_months y zero = 0
days_of_months y (suc n) = days_of_months y n + month_length y (suc n)

unfoldable pub civil_days : ℕ → ℕ → ℕ → ℕ
unfolding days_of_years days_of_months
civil_days y mo d = days_of_years (y - 1970) + days_of_months y (mo - 1) + (d - 1)

unfoldable pub civil_seconds : ℕ → ℕ → ℕ → ℕ → ℕ → ℕ → ℕ
unfolding civil_days
civil_seconds y mo d h m s = civil_days y mo d * 86400 + h * 3600 + m * 60 + s

-- The count of leap years runs ahead in a leap year and the year before it.
abbrev pub extra_day : ℕ → ℕ
extra_day y = if y % 4 == 0 || y % 4 == 3 then 1 else 0

abbrev offset_or : Option ℕ → ℕ
offset_or none = 0
offset_or (some n) = n

abbrev month_right : ℕ → ℕ → Bool
month_right y n =
    days_before (2000 + y) (n + 1) (offset_or (get_elem? moff n))
    == days_of_years (2000 + y - 1970) + days_of_months (2000 + y) n + extra_day (2000 + y)

days_table : passes (λ y. passes (λ n. month_right y n) 12) 100 ≡ true
unfolding passes days_before days_of_years days_of_months
days_table = refl

days_lem :
    (y n mo : ℕ)
    → y < 100
    → n < 12
    → n + 1 ≡ mo
    → days_before (2000 + y) mo (offset_or (get_elem? moff n))
      ≡ days_of_years (2000 + y - 1970) + days_of_months (2000 + y) n + extra_day (2000 + y)
days_lem y n mo py pn e =
    subst
      (λ k.
        days_before (2000 + y) k (offset_or (get_elem? moff n))
        ≡ days_of_years (2000 + y - 1970) + days_of_months (2000 + y) n + extra_day (2000 + y))
      e
      ((==_iff _ _).0 (
        passes_lem (month_right y) 12 n pn
          (passes_lem (λ y. passes (λ n. month_right y n) 12) 100 y py days_table)))

bound_table :
    passes
      (λ y.
        passes (λ n. leb (days_before (2000 + y) (n + 1) (offset_or (get_elem? moff n))) 24806) 12)
      38
    ≡ true
unfolding passes days_before
bound_table = refl

bound_lem :
    (y n mo : ℕ)
    → y < 38
    → n < 12
    → n + 1 ≡ mo
    → days_before (2000 + y) mo (offset_or (get_elem? moff n)) ≤ 24806
bound_lem y n mo py pn e =
    subst (λ k. days_before (2000 + y) k (offset_or (get_elem? moff n)) ≤ 24806) e
      (leb→le _ _ (
        passes_lem (λ n. leb (days_before (2000 + y) (n + 1) (offset_or (get_elem? moff n))) 24806)
          12 n pn
          (passes_lem
            (λ y.
              passes
                (λ n. leb (days_before (2000 + y) (n + 1) (offset_or (get_elem? moff n))) 24806) 12)
            38 y py bound_table)))

abbrev is_some_offset : Option ℕ → Bool
is_some_offset none = false
is_some_offset (some n) = true

offset_table : passes (λ n. is_some_offset (get_elem? moff n)) 12 ≡ true
unfolding passes
offset_table = refl

known : (o : Option ℕ) → is_some_offset o ≡ true → o ≡ some (offset_or o)
known none h = absurd (ground arith)
known (some n) h = refl

offset_lem : (n : ℕ) → n < 12 → get_elem? moff n ≡ some (offset_or (get_elem? moff n))
offset_lem n small =
    known (get_elem? moff n)
      (passes_lem (λ n. is_some_offset (get_elem? moff n)) 12 n small offset_table)

-- The sum of `utc_from` for a count of days `x` that is one of the calendar's and `e`.
sum_lem :
    (x c e d h m s : ℕ)
    → 1 ≤ d
    → d ≤ 31
    → h < 24
    → m < 60
    → s < 60
    → x ≡ c + e
    → x ≤ 24806
    → (if ltb
          ((x + d) * 86400 + h * 3600 + m * 60 + s)
          ((0 + 1) * 86400 + 0 * 3600 + 0 * 60 + 0 + 2 ^ 31)
        then some (
            difference
              ((x + d) * 86400 + h * 3600 + m * 60 + s)
              ((0 + 1) * 86400 + 0 * 3600 + 0 * 60 + 0))
        else none)
      ≡ some (pos ((c + (d - 1)) * 86400 + h * 3600 + m * 60 + s + 86400 * e))
sum_lem x c e d h m s d1 d2 hh mm ss days bound = ground arith

unix_lem :
    (y mo d h m s : ℕ)
    → y < 38
    → 1 ≤ mo
    → mo ≤ 12
    → 1 ≤ d
    → d ≤ 31
    → h < 24
    → m < 60
    → s < 60
    → utc_to_unix (2000 + y) (pos mo) (pos d) (pos h) (pos m) (pos s)
      ≡ some (pos (civil_seconds (2000 + y) mo d h m s + 86400 * extra_day (2000 + y)))
unfolding utc_to_unix utc_from civil_seconds civil_days
unix_lem y mo d h m s py m1 m2 d1 d2 hh mm ss =
    rw (known_month, offset_lem (mo - 1) (omega arith))
      (sum_lem (days_before (2000 + y) mo (offset_or (get_elem? moff (mo - 1))))
        (days_of_years (2000 + y - 1970) + days_of_months (2000 + y) (mo - 1))
        (extra_day (2000 + y)) d h m s d1 d2 hh mm ss
        (days_lem y (mo - 1) mo (omega arith) (omega arith) (omega arith))
        (bound_lem y (mo - 1) mo py (omega arith) (omega arith)))
  where
    known_month : (mo == 0) ≡ false
    known_month = ground arith

-- For a time from 2000 to 2037, `utc_to_unix` gives the seconds since 1970 of the calendar, and a day more
-- in a leap year and in the year before a leap year.
pub utc_to_unix-civil :
    (y mo d h m s : ℕ)
    → 2000 ≤ y
    → y < 2038
    → 1 ≤ mo
    → mo ≤ 12
    → 1 ≤ d
    → d ≤ 31
    → h < 24
    → m < 60
    → s < 60
    → utc_to_unix y (pos mo) (pos d) (pos h) (pos m) (pos s)
      ≡ some (pos (civil_seconds y mo d h m s + 86400 * extra_day y))
utc_to_unix-civil y mo d h m s y1 y2 m1 m2 d1 d2 hh mm ss =
    subst
      (λ k.
        utc_to_unix k (pos mo) (pos d) (pos h) (pos m) (pos s)
        ≡ some (pos (civil_seconds k mo d h m s + 86400 * extra_day k)))
      year (unix_lem (y - 2000) mo d h m s (omega arith) m1 m2 d1 d2 hh mm ss)
  where
    year : 2000 + (y - 2000) ≡ y
    year = omega arith
