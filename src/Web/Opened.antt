-- ===== src/Web/Opened.antt =====
-- The name of the file that `open_file` of main/rinex_logger.cpp opens, read by the web server.
use gps_base_station.Prelude.{
  ℕ, ◌+◌, ◌*◌, ◌≤◌, ◌<◌, ◌≡◌, refl, arith, ap, subst, List, ◌++◌, Option, none, some, true, codes,
}
use gps_base_station.Survey.Text.{pos}
use gps_base_station.Rinex.Names.{Calendar, file_name, file_path}
use gps_base_station.Rinex.Records.{Doubles, SatObs}
use gps_base_station.Rinex.Files.{Io, RinexFile, Logger, gps_seconds, gps_to_calendar, open_file}
use gps_base_station.Web.Dates.{difference, parse_rinex_filename_utc}
use gps_base_station.Web.Calendar.{civil_seconds, extra_day}
use gps_base_station.Web.Names.{parse_rinex_filename_utc-file_name}

-- The fields are those of a date from 2020 to 2037, and of the second `t` of 1970.
pub record IsDateOf (t : ℕ) (c : Calendar) : Type 0 where
  pub year_from : 2020 ≤ c.year
  pub year_to : c.year < 2038
  pub month_from : 1 ≤ c.month
  pub month_to : c.month ≤ 12
  pub day_from : 1 ≤ c.day
  pub day_to : c.day ≤ 31
  pub hour_to : c.hour < 24
  pub minute_to : c.minute < 60
  pub second_to : c.second < 60
  pub same_second : civil_seconds c.year c.month c.day c.hour c.minute c.second ≡ t

file_name-date :
    (t : ℕ) (c : Calendar)
    → IsDateOf t c
    → parse_rinex_filename_utc (file_name c.year c.month c.day c.hour c.minute c.second)
      ≡ some (pos (t + 86400 * extra_day c.year))
file_name-date t c v =
    subst
      (λ (k : ℕ).
        parse_rinex_filename_utc (file_name c.year c.month c.day c.hour c.minute c.second)
        ≡ some (pos (k + 86400 * extra_day c.year)))
      v.same_second
      (parse_rinex_filename_utc-file_name c.year c.month c.day c.hour c.minute c.second v.year_from
        v.year_to v.month_from v.month_to v.day_from v.day_to v.hour_to v.minute_to v.second_to)

-- GPS counts from 6 January 1980, without leap seconds.
unfoldable pub epoch_time : ℕ → ℕ → ℕ
epoch_time week s = civil_seconds 1980 1 6 0 0 0 + 7 * 86400 * week + s

gps_epoch : civil_seconds 1980 1 6 0 0 0 ≡ 315964800
unfolding civil_seconds
gps_epoch = refl

difference_zero : (p q : ℕ) → p ≡ q → difference p 0 ≡ pos q
difference_zero p q e = ground (arith, e)

module _ (doubles : Doubles) where
  gps_seconds-epoch_time :
      (week : ℕ) (tow : doubles.D) (s : ℕ)
      → doubles.to_int tow ≡ pos s
      → gps_seconds doubles week tow ≡ pos (epoch_time week s)
  unfolding gps_seconds epoch_time
  gps_seconds-epoch_time week tow s seconds =
      rw (seconds, gps_epoch)
        (difference_zero (315964800 + week * 604800 + s) (315964800 + 7 * 86400 * week + s)
          (omega arith))

  -- The file is a new one, and the web server reads `time` from its name, without the directory.
  abbrev pub NamedAfter : Option (RinexFile doubles) → ℕ → Type 0
  NamedAfter none time = ⊥
  NamedAfter (some f) time =
      (name : List ℕ) × (f.path ≡ codes "/sdcard/rawdata/" ++ name)
      × (parse_rinex_filename_utc name ≡ some (pos time))

  -- A file that the logger opens for an epoch has a name in the directory of the raw data, which the web
  -- server reads as the epoch's time, and a day more in a leap year and in the year before a leap year; if
  -- the time of the week is not negative, `gmtime_r` turns the seconds of the epoch's time into their date,
  -- and the year is from 2020 to 2037. The epoch's time is its weeks and seconds from 6 January 1980 on.
  pub parse_rinex_filename_utc-open_file :
      (l : Logger doubles) (io : Io) (week : ℕ) (tow : doubles.D) (sats : List (SatObs doubles))
      (s : ℕ)
      → io.opens ≡ true
      → doubles.to_int tow ≡ pos s
      → IsDateOf (epoch_time week s) (doubles.gmtime (pos (epoch_time week s)))
      → NamedAfter
          (open_file doubles l io week tow sats).file
          (epoch_time week s + 86400 * extra_day (doubles.gmtime (pos (epoch_time week s))).year)
  unfolding open_file gps_to_calendar file_path
  parse_rinex_filename_utc-open_file l io week tow sats s opens seconds date =
      let c = doubles.gmtime (pos (epoch_time week s)) in
      rw opens (
        file_name c.year c.month c.day c.hour c.minute c.second,
        ap (λ z. file_path (doubles.gmtime z)) (gps_seconds-epoch_time week tow s seconds),
        file_name-date (epoch_time week s) c date,
      )
