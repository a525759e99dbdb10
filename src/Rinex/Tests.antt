-- ===== src/Rinex/Tests.antt =====
-- Runs of the RINEX logger, on whole numbers for `double`s.
use gps_base_station.Prelude.{
  ℕ, ◌+◌, ◌-◌, ◌*◌, ◌/◌, ◌≡◌, refl, ◌⊎◌, List, [], ◌∷◌, ◌++◌, none, some, true, false, digits, ltb,
  arith, codes,
}
use gps_base_station.Survey.Text.{ℤ, pos, negsuc, atoi}
use gps_base_station.Storage.{c_str}
use gps_base_station.Web.Forms.{strtol16}
use gps_base_station.Rinex.SatId.{gps, format_sat_id}
use gps_base_station.Rinex.Names.{Calendar}
use gps_base_station.Web.Calendar.{civil_seconds, extra_day}
use gps_base_station.Web.Opened.{
  IsDateOf, NamedAfter, epoch_time, parse_rinex_filename_utc-open_file,
}
use gps_base_station.Rinex.Feed.{no_message, feed_all, has_star, with_message, delivered}
use gps_base_station.Rinex.Framing.{feed_all-message}
use gps_base_station.Rinex.Records.{Doubles, Rec, add_records, signal_band}
use gps_base_station.Rinex.Slots.{kept}
use gps_base_station.Rinex.Best.{AllBelow, Offered, kept-Best}
use gps_base_station.Rinex.Files.{CloseIo, Io, holds_epochs, damaged, no_logger, open_file}
use gps_base_station.Rinex.Content.{Fits}
use gps_base_station.Rinex.Rows.{
  AnyFails, Call, begin, end, bytes, called_all, called_all-no_logger,
}

abbrev to_nat : ℤ → ℕ
to_nat (pos n) = n
to_nat (negsuc n) = 0

-- The date of the test's epoch.
abbrev epoch_date : Calendar
epoch_date = record { year = 2024; month = 2; day = 4; hour = 0; minute = 1; second = 0 }

abbrev whole : Doubles
whole = record {
  D = ℕ;
  atof = λ text. to_nat (atoi text);
  of_int = to_nat;
  to_int = pos;
  gmtime = λ time. epoch_date;
  single = λ x. x;
  neg = λ x. x;
  floor = λ x. x;
  fabs = λ x. x;
  add = λ x y. x + y;
  sub = λ x y. x - y;
  mul = λ x y. x * y;
  div = λ x y. x / y;
  less = ltb;
  half = 0;
}

names :
    (format_sat_id 0 7 ≡ some (codes "G07"))
    × (format_sat_id 1 42 ≡ some (codes "R05"))
    × (format_sat_id 4 178 ≡ some (codes "C38"))
    × (format_sat_id 2 120 ≡ none)
    × (format_sat_id 0 33 ≡ none)
unfolding format_sat_id
names = (refl, refl, refl, refl, refl)

-- Two PRNs of GLONASS can have one name.
one_name : format_sat_id 1 5 ≡ format_sat_id 1 42
unfolding format_sat_id
one_name = refl

abbrev message_body : List ℕ
message_body = codes "RANGEA,C,1,2,FINE,2300,60;1,5,0,200,0,300,0,1,40,0,0*12345678" ++ 13 ∷ []

feed_all-message_example :
    feed_all no_message (codes "xy" ++ 35 ∷ (message_body ++ 10 ∷ codes "z")) ≡ (
      (feed_all no_message (codes "z")).0,
      with_message (delivered (35 ∷ (message_body ++ 10 ∷ []))) (feed_all no_message (codes "z")).1,
    )
unfolding has_star
feed_all-message_example =
    feed_all-message (codes "xy") message_body (codes "z") (omega arith) (omega arith) (omega arith)
      (omega arith) refl

abbrev signal_of : ℕ → ℕ → Rec whole
signal_of signal n = record {
  prn = 5;
  system = 0;
  signal = signal;
  glo_freq = pos 0;
  obs = record { pseudorange = n; carrier_phase = n; doppler = n; cn0 = n };
}

abbrev three_signals : List (Rec whole)
three_signals = signal_of 9 1 ∷ signal_of 5 2 ∷ signal_of 17 3 ∷ []

keeps_best : kept whole (add_records whole [] three_signals) 0 5 1 ≡ some ((signal_of 5 2).obs, 10)
unfolding kept add_records format_sat_id signal_band
keeps_best = refl

kept-Best_example :
    AllBelow whole 0 5 1 (kept whole (add_records whole [] three_signals) 0 5 1) three_signals
    × ((kept whole (add_records whole [] three_signals) 0 5 1 ≡ none)
        ⊎ Offered whole 0 5 1 (kept whole (add_records whole [] three_signals) 0 5 1) three_signals)
kept-Best_example = kept-Best whole 0 5 1 three_signals

abbrev closes_well : CloseIo
closes_well = record { seeks = true; prints = true }

abbrev all_well : List ℕ → Io
all_well msg = record {
  closing = closes_well;
  opens = true;
  header_prints = true;
  epoch_prints = true;
  seeks = true;
  returns = true;
}

-- The seek back fails.
abbrev stays_in_header : List ℕ → Io
stays_in_header msg = record (all_well msg) { returns = false }

abbrev session : (List ℕ → Io) → List (Call whole)
session io = begin ∷ bytes io (35 ∷ (message_body ++ 10 ∷ [])) ∷ end closes_well ∷ []

called_all-no_logger_example :
    Fits whole
      (AnyFails whole (no_logger whole) (session all_well))
      (called_all whole (no_logger whole) (session all_well))
called_all-no_logger_example = called_all-no_logger whole (session all_well)

-- The epoch of the message stands in the file that was closed.
logged :
    (called_all whole (no_logger whole) (session all_well)).card
    ≡ record {
      path = codes "/sdcard/rawdata/BASE_20240204_000100.rnx";
      week_open = 2300;
      tow_open = 60;
      declared = 0 ∷ [];
      header = gps ∷ [];
      last_obs = (2300, 60);
      last_written = (2300, 60);
      content = holds_epochs (
          record {
            week = 2300;
            tow = 60;
            count = 1;
            rows =
                record {
                  system = 0;
                  id = codes "G05";
                  quartets =
                      some (
                        record { pseudorange = 200; carrier_phase = 300; doppler = 1; cn0 = 40 },
                        10,
                      )
                      ∷ none
                      ∷ none
                      ∷ [];
                }
                ∷ [];
          }
          ∷ []);
    }
      ∷ []
unfolding called_all atoi digits c_str format_sat_id strtol16 signal_band
logged = refl

-- Behind a seek that failed, nothing is told.
torn :
    (called_all whole
      (no_logger whole)
      (begin ∷ bytes stays_in_header (35 ∷ (message_body ++ 10 ∷ [])) ∷ [])).file
    ≡ some (record {
      path = codes "/sdcard/rawdata/BASE_20240204_000100.rnx";
      week_open = 2300;
      tow_open = 60;
      declared = 0 ∷ [];
      header = gps ∷ [];
      last_obs = (2300, 60);
      last_written = (2300, 60);
      content = damaged;
    })
unfolding called_all atoi digits c_str format_sat_id strtol16 signal_band
torn = refl

epoch_date-IsDateOf : IsDateOf (epoch_time 2300 60) epoch_date
unfolding civil_seconds epoch_time
epoch_date-IsDateOf = record {
  year_from = omega arith;
  year_to = omega arith;
  month_from = omega arith;
  month_to = omega arith;
  day_from = omega arith;
  day_to = omega arith;
  hour_to = omega arith;
  minute_to = omega arith;
  second_to = omega arith;
  same_second = refl;
}

parse_rinex_filename_utc-open_file_example :
    NamedAfter whole
      (open_file whole (no_logger whole) (all_well []) 2300 60 []).file
      (epoch_time 2300 60 + 86400 * extra_day 2024)
parse_rinex_filename_utc-open_file_example =
    parse_rinex_filename_utc-open_file whole (no_logger whole) (all_well []) 2300 60 [] 60 refl refl
      epoch_date-IsDateOf
