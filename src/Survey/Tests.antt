-- ===== src/Survey/Tests.antt =====
-- A GSV message of GPS beside a Galileo satellite, and a survey of five minutes.
use gps_base_station.Prelude.{
  ℕ, ◌+◌, ◌-◌, ◌*◌, ◌/◌, ◌≤◌, ◌≡◌, refl, List, [], ◌∷◌, ◌++◌, true, false, ltb, leb, length, arith,
  codes,
}
use gps_base_station.Survey.Text.{csv_field, parse_int, digits_value, clamp_to}
use gps_base_station.Survey.Position.{Reals}
use gps_base_station.Survey.{
  Survey, Sky, SatelliteInfo, gsv_entry, after_entry, gsv_loop, others, publish_gsv, take_gsv,
  take_numbered, parse_gsv, parse_line, add_char, feed_char, feed, start,
}
use gps_base_station.Survey.Taken.{
  Call, starts, takes, feeds, fresh, used_all, AllSteady, used_all-fresh,
}
use gps_base_station.Survey.Lines.{handed, feed_line}
use gps_base_station.Survey.Satellites.{Updated, parse_gsv-Updated}

abbrev galileo_one : SatelliteInfo
galileo_one = record { prn = 12; elevation = 40; azimuth = 200; snr = 38; system = 3 }

abbrev night_sky : Sky
night_sky = record {
  gps = 0;
  glonass = 0;
  galileo = 0;
  beidou = 0;
  satellites = galileo_one ∷ [];
  gsv = galileo_one ∷ [];
  gsv_system = 3;
}

abbrev message : List ℕ
message = codes "$GPGSV,1,1,01,05,45,120,40*7A"

gsv_message :
    (parse_gsv night_sky message 1).satellites
    ≡ galileo_one ∷ record { prn = 5; elevation = 45; azimuth = 120; snr = 40; system = 1 } ∷ []
unfolding parse_gsv take_numbered take_gsv publish_gsv others gsv_loop after_entry gsv_entry
    csv_field parse_int
gsv_message = refl

parse_gsv-Updated_example : Updated night_sky (parse_gsv night_sky message 1) 1
parse_gsv-Updated_example =
    parse_gsv-Updated night_sky message 1
      (record { few = omega arith; buffered = omega arith; same = (refl, tt) })

-- Whole numbers in place of `double` and `float`; the square root and the cosine are crude.
abbrev whole_reals : Reals
whole_reals = record {
  D = ℕ;
  F = ℕ;
  strtod = λ text. (digits_value 0 text, [], false);
  is_finite = λ x. true;
  of_int = λ n. clamp_to n 100000000;
  pi = 3;
  add = λ x y. x + y;
  sub = λ x y. x - y;
  mul = λ x y. x * y;
  div = λ x y. x / y;
  sqrt = λ x. x;
  cos = λ x. 1;
  less = λ x y. ltb x y;
  single = λ x. x;
  double = λ x. x;
  fadd = λ x y. x + y;
  fmul = λ x y. x * y;
  sqrtf = λ x. x;
  fless = λ x y. ltb x y;
  at_most = λ x y. leb x y;
}

abbrev quiet_survey : Survey whole_reals
quiet_survey = start whole_reals 0

feed_line_example :
    (feed whole_reals quiet_survey 7 (codes "#BESTPOSA" ++ (10 ∷ []))
      ≡ handed whole_reals 7 quiet_survey (codes "#BESTPOSA"))
    × (feed whole_reals quiet_survey 7 (codes "#BESTPOSA" ++ (13 ∷ 10 ∷ []))
        ≡ handed whole_reals 7 quiet_survey (codes "#BESTPOSA"))
unfolding start
feed_line_example =
    feed_line whole_reals 7 quiet_survey (codes "#BESTPOSA") refl
      (
        refl,
        refl,
        (
          refl,
          refl,
          (
            refl,
            refl,
            (refl, refl, (refl, refl, (refl, refl, (refl, refl, (refl, refl, (refl, refl, tt)))))),
          ),
        ),
      )
      (omega arith)

-- A line of the receiver, each minute.
abbrev minute : ℕ → Call whole_reals
minute n = feeds (n * 60000000) (
    codes "#BESTPOSA,COM2;SOL_COMPUTED,SINGLE,50,20,100,0,WGS84,1,1,1,x,0,0,30,20*00"
    ++ 13 ∷ 10 ∷ [])

abbrev survey_calls : List (Call whole_reals)
survey_calls =
    starts 0
    ∷ minute 0
    ∷ minute 1
    ∷ minute 2
    ∷ takes
    ∷ minute 3
    ∷ minute 4
    ∷ minute 5
    ∷ takes
    ∷ takes
    ∷ []

taken_once : length (used_all whole_reals (fresh whole_reals) survey_calls).taken ≡ 1
unfolding used_all feed_char parse_line add_char digits_value
taken_once = refl

used_all-fresh_example :
    (length (used_all whole_reals (fresh whole_reals) survey_calls).taken
      ≤ (used_all whole_reals (fresh whole_reals) survey_calls).started)
    × AllSteady whole_reals (used_all whole_reals (fresh whole_reals) survey_calls).taken
used_all-fresh_example = used_all-fresh whole_reals survey_calls
