-- ===== src/Survey.antt =====
-- `SurveyManager` of main/survey.hpp: the lines of the receiver, and the satellites that they tell. The
-- position is in Survey/Position and Survey/Sampling.
pub mod Text
pub mod Position
pub mod Sampling
pub mod Completed
pub mod Taken
pub mod Lines
pub mod Satellites
mod Tests
use gps_base_station.Prelude.{
  ℕ, zero, suc, ◌+◌, ◌-◌, List, [], ◌∷◌, ◌++◌, Option, none, some, Bool, true, false, not, ◌&&◌,
  ◌||◌, ◌/◌, ◌%◌, ◌^◌, ltb, leb, ◌==◌, if◌then◌else◌, length, take, codes, starts_with, ◌>>=◌,
}
use gps_base_station.Survey.Text.{
  ℤ, pos, negsuc, csv_field, without_checksum, parse_int, clamp_to, is_empty,
}
use gps_base_station.Survey.Position.{
  Reals, SurveyState, is_collecting, SurveyResult, Live, Fix, start_fix, reset_fix,
  take_completed_result,
}
use gps_base_station.Survey.Sampling.{parse_best_position}

abbrev pub k_max_line : ℕ
k_max_line = 512

abbrev pub k_max_satellites : ℕ
k_max_satellites = 64

abbrev pub k_max_gsv_satellites : ℕ
k_max_gsv_satellites = 20

pub record SatelliteInfo : Type 0 where
  pub prn : ℕ
  pub elevation : ℕ
  pub azimuth : ℕ
  pub snr : ℕ
  pub system : ℕ

-- The used satellites of each system in `live_`, and the first entries of `satellite_list_` and
-- `gsv_buffer_`, as many as their counters say.
pub record Sky : Type 0 where
  pub gps : ℕ
  pub glonass : ℕ
  pub galileo : ℕ
  pub beidou : ℕ
  pub satellites : List SatelliteInfo
  pub gsv : List SatelliteInfo
  pub gsv_system : ℕ

-- The non-empty fields from `i` on, of `n`.
pub count_fields : List ℕ → ℕ → ℕ → ℕ
count_fields line i zero = 0
count_fields line i (suc n) =
    let rest = count_fields line (i + 1) n in
    elim (csv_field line i) [ none ↦ rest | some f ↦ if is_empty f then rest else suc rest ]

abbrev pub set_used : Sky → ℤ → ℕ → Sky
set_used s (pos (suc zero)) count = record s { gps = count }
set_used s (pos (suc (suc zero))) count = record s { glonass = count }
set_used s (pos (suc (suc (suc zero)))) count = record s { galileo = count }
set_used s (pos (suc (suc (suc (suc zero))))) count = record s { beidou = count }
set_used s n count = s

pub parse_gsa : Sky → List ℕ → Sky
unfolding count_fields
parse_gsa s line = elim (csv_field line 18) [
  | none ↦ s
  | some f ↦ set_used s (parse_int f) (count_fields line 3 12)
]

abbrev pub snr_of : Option (List ℕ) → ℕ
snr_of none = 0
snr_of (some f) = clamp_to (parse_int f) 99

-- The number 0 stands for no satellite.
abbrev pub satellite : ℤ → SatelliteInfo → Option SatelliteInfo
satellite (pos zero) s = none
satellite (pos (suc n)) s = some (record s { prn = clamp_to (pos (suc n)) 999 })
satellite (negsuc n) s = some (record s { prn = clamp_to (negsuc n) 999 })

-- The four fields from `i` on: `none` ends the loop, and `some none` is a satellite without a number.
pub gsv_entry : List ℕ → ℕ → ℕ → Option (Option SatelliteInfo)
gsv_entry payload system i = do
  prn_field ← csv_field payload i
  elevation_field ← csv_field payload (i + 1)
  azimuth_field ← csv_field payload (i + 2)
  some (
      satellite (parse_int prn_field) (record {
        prn = 0;
        elevation = clamp_to (parse_int elevation_field) 90;
        azimuth = clamp_to (parse_int azimuth_field) 359;
        snr = snr_of (csv_field payload (i + 3));
        system = system;
      }))

-- What the loop does with the entry; `go` is the next round.
pub after_entry :
    Option (Option SatelliteInfo)
    → List SatelliteInfo
    → (List SatelliteInfo → List SatelliteInfo)
    → List SatelliteInfo
after_entry none buffer go = buffer
after_entry (some none) buffer go = go buffer
after_entry (some (some s)) buffer go = go (buffer ++ (s ∷ []))

-- The loop over the satellites of a message, for at most `fuel` of them.
pub gsv_loop : ℕ → List ℕ → ℕ → ℕ → List SatelliteInfo → List SatelliteInfo
gsv_loop zero payload system i buffer = buffer
gsv_loop (suc fuel) payload system i buffer =
    let rest =
      after_entry (gsv_entry payload system i) buffer (gsv_loop fuel payload system (i + 4)) in
    if ltb (length buffer) k_max_gsv_satellites then rest else buffer

-- The satellites of the other systems.
pub others : ℕ → List SatelliteInfo → List SatelliteInfo
others system [] = []
others system (s ∷ ss) =
    let rest = others system ss in if s.system == system then rest else s ∷ rest

-- The satellites of a system are those of the buffer, as far as there is room.
pub publish_gsv : Sky → ℕ → Sky
unfolding others
publish_gsv s system =
    let kept = others system s.satellites in
    record s { satellites = kept ++ take (k_max_satellites - length kept) s.gsv }

-- A message with its number and count.
pub take_gsv : Sky → List ℕ → ℕ → ℕ → ℕ → Sky
take_gsv s payload system count number =
    let fresh = number == 1 || not (system == s.gsv_system) in
    let buffer = gsv_loop (length payload) payload system 4 (if fresh then [] else s.gsv) in
    let s' : Sky = record s { gsv = buffer; gsv_system = system } in
    if number == count then publish_gsv s' system else s'

pub take_numbered : Sky → List ℕ → ℕ → ℤ → ℤ → Sky
take_numbered s payload system (pos (suc count)) (pos (suc number)) =
    take_gsv s payload system (suc count) (suc number)
take_numbered s payload system count number = s

pub parse_gsv : Sky → List ℕ → ℕ → Sky
parse_gsv s line system =
    let payload = without_checksum line in
    elim (csv_field payload 1) [
      | none ↦ s
      | some count ↦ elim (csv_field payload 2) [
        | none ↦ s
        | some number ↦ take_numbered s payload system (parse_int count) (parse_int number)
      ]
    ]

-- No used satellites, and empty lists.
abbrev pub no_sky : Sky
no_sky = record {
  gps = 0;
  glonass = 0;
  galileo = 0;
  beidou = 0;
  satellites = [];
  gsv = [];
  gsv_system = 0;
}

-- `satellites`: as many as the caller has room for.
unfoldable pub satellites_of : Sky → ℕ → List SatelliteInfo
satellites_of sky capacity = take capacity sky.satellites

module _ (reals : Reals) where
  -- `line` is the first `line_len_` characters of `line_`.
  pub record Survey : Type 0 where
    pub line : List ℕ
    pub sky : Sky
    pub fix : Fix reals

  pub parse_line : Survey → ℕ → List ℕ → Survey
  unfolding parse_gsa parse_gsv is_collecting parse_best_position
  parse_line s now line =
      if starts_with line (codes "$GNGSA")
      then record s { sky = parse_gsa s.sky line }
      else if starts_with line (codes "$GPGSV")
      then record s { sky = parse_gsv s.sky line 1 }
      else if starts_with line (codes "$GLGSV")
      then record s { sky = parse_gsv s.sky line 2 }
      else if starts_with line (codes "$GAGSV")
      then record s { sky = parse_gsv s.sky line 3 }
      else if starts_with line (codes "$GBGSV")
      then record s { sky = parse_gsv s.sky line 4 }
      else if is_collecting s.fix.state && starts_with line (codes "#BESTPOSA")
      then record s { fix = parse_best_position reals s.fix now line }
      else s

  -- A character of a line; one too many throws the line away.
  pub add_char : Survey → ℕ → Survey
  add_char s byte =
      if ltb (length s.line) k_max_line
      then record s { line = s.line ++ (byte ∷ []) }
      else record s { line = [] }

  pub feed_char : Survey → ℕ → ℕ → Survey
  feed_char s now byte =
      if byte == 10
      then record (parse_line s now s.line) { line = [] }
      else if byte == 13
      then s
      else add_char s byte

  pub feed : Survey → ℕ → List ℕ → Survey
  feed s now [] = s
  feed s now (byte ∷ bytes) = feed (feed_char s now byte) now bytes

  unfoldable pub start : ℕ → Survey
  unfolding start_fix
  start now = record { line = []; sky = no_sky; fix = start_fix reals now }

  unfoldable pub reset : Survey → Survey
  unfolding reset_fix
  reset s = record { line = []; sky = no_sky; fix = reset_fix reals s.fix }

  -- The state, what is known of the position, and how long the survey has run.
  unfoldable pub snapshot : Survey → ℕ → SurveyState × Live reals
  unfolding is_collecting
  snapshot s now =
      let live = s.fix.live in
      let elapsed = (now - s.fix.started_us) / 1000000 % 2 ^ 32 in
      (
        s.fix.state,
        if is_collecting s.fix.state then record live { elapsed_sec = elapsed } else live,
      )

  -- The result is taken once.
  unfoldable pub take_result : Survey → Survey × Option (SurveyResult reals)
  unfolding take_completed_result
  take_result s =
      let (x, result) = take_completed_result reals s.fix in (record s { fix = x }, result)
