-- ===== src/Rinex/Names.antt =====
-- The name of a RINEX file, from `open_file` of main/rinex_logger.cpp.
use gps_base_station.Prelude.{ℕ, ◌-◌, List, ◌∷◌, ◌++◌, length, replicate, codes, decimal}

-- The fields of `struct tm` that `gps_to_calendar` takes, with the 1900 of the year and the 1 of the month
-- added.
pub record Calendar : Type 0 where
  pub year : ℕ
  pub month : ℕ
  pub day : ℕ
  pub hour : ℕ
  pub minute : ℕ
  pub second : ℕ

-- `%0*d`.
unfoldable pub padded : ℕ → ℕ → List ℕ
padded width n = replicate (width - length (decimal n)) 48 ++ decimal n

unfoldable pub file_name : ℕ → ℕ → ℕ → ℕ → ℕ → ℕ → List ℕ
unfolding padded
file_name y mo d h m s =
    codes "BASE_"
    ++ (padded 4 y
        ++ (padded 2 mo
            ++ (padded 2 d ++ 95 ∷ (padded 2 h ++ (padded 2 m ++ (padded 2 s ++ codes ".rnx"))))))

-- The rounded time of the week is whole, so that the second is the calendar's.
unfoldable pub file_path : Calendar → List ℕ
unfolding file_name
file_path c = codes "/sdcard/rawdata/" ++ file_name c.year c.month c.day c.hour c.minute c.second
