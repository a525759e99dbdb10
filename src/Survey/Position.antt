-- ===== src/Survey/Position.antt =====
-- The position of a survey (main/survey.cpp): `parse_best_position`, `commit_block`, and the result. The
-- doubles and floats of the C library are an interface. `int` counters do not get near their end: the
-- receiver sends a position each five seconds.
use gps_base_station.Prelude.{
  ℕ, ◌+◌, ◌-◌, List, Option, none, some, Bool, true, false, not, ◌&&◌, ◌||◌, ◌>>=◌, ltb, leb, ◌==◌,
  if◌then◌else◌, length,
}
use gps_base_station.Storage.{c_str}
use gps_base_station.Survey.Text.{ℤ, pos, negsuc, csv_field, parse_int, is_empty}

-- `strtod` gives the number, what is behind it, and whether it sets `errno`.
pub record Reals : Type 1 where
  pub D : Type 0
  pub F : Type 0
  pub strtod : List ℕ → D × List ℕ × Bool
  pub is_finite : D → Bool
  pub of_int : ℤ → D
  pub pi : D
  pub add : D → D → D
  pub sub : D → D → D
  pub mul : D → D → D
  pub div : D → D → D
  pub sqrt : D → D
  pub cos : D → D
  pub less : D → D → Bool
  pub single : D → F
  pub double : F → D
  pub fadd : F → F → F
  pub fmul : F → F → F
  pub sqrtf : F → F
  pub fless : F → F → Bool
  pub at_most : F → F → Bool

pub data SurveyState : Type 0 where
  k_idle k_collecting k_done k_error : SurveyState

abbrev pub k_survey_min_time_sec : ℕ
k_survey_min_time_sec = 300

abbrev pub k_survey_block_time_sec : ℕ
k_survey_block_time_sec = 60

abbrev pub k_survey_min_blocks : ℕ
k_survey_min_blocks = 5

unfoldable pub is_collecting : SurveyState → Bool
is_collecting state = elim state [
  | k_collecting ↦ true
  | k_idle ↦ false
  | k_done ↦ false
  | k_error ↦ false
]

abbrev pub int_or_zero : Option (List ℕ) → ℤ
int_or_zero none = pos 0
int_or_zero (some field) = parse_int field

module _ (reals : Reals) where
  open reals use {
    D, F, strtod, is_finite, of_int, pi, add, sub, mul, div, sqrt, cos, less, single, double, fadd,
    fmul, sqrtf, fless, at_most,
  }

  pub record Place : Type 0 where
    pub lat : D
    pub lon : D
    pub height : D

  -- The mean of some values, and the sum of the squares of their distances.
  pub record Running : Type 0 where
    pub mean : D
    pub m2 : D

  pub record SurveyResult : Type 0 where
    pub place : Place
    pub lat_sigma : F
    pub lon_sigma : F
    pub height_sigma : F
    pub elapsed_sec : ℕ

  -- What `live_` says of the position.
  pub record Live : Type 0 where
    pub place : Place
    pub stability : F
    pub instantaneous_sigma : F
    pub satellites_used : ℤ
    pub satellites_tracked : ℤ
    pub samples : ℕ
    pub blocks : ℕ
    pub elapsed_sec : ℕ
    pub valid : Bool

  -- `block_index` is `none` where the source has `UINT32_MAX`.
  pub record Fix : Type 0 where
    pub state : SurveyState
    pub started_us : ℕ
    pub completion_pending : Bool
    pub samples : ℕ
    pub lat : Running
    pub lon : Running
    pub height : Running
    pub block_index : Option ℕ
    pub block_samples : ℕ
    pub block_sum : Place
    pub block_count : ℕ
    pub block_lat : Running
    pub block_lon : Running
    pub block_height : Running
    pub result : SurveyResult
    pub live : Live

  abbrev pub zero_place : Place
  zero_place = record { lat = of_int (pos 0); lon = of_int (pos 0); height = of_int (pos 0) }

  abbrev pub at_zero : Running
  at_zero = record { mean = of_int (pos 0); m2 = of_int (pos 0) }

  abbrev pub f_zero : F
  f_zero = single (of_int (pos 0))

  abbrev pub no_result : SurveyResult
  no_result = record {
    place = zero_place;
    lat_sigma = f_zero;
    lon_sigma = f_zero;
    height_sigma = f_zero;
    elapsed_sec = 0;
  }

  abbrev pub no_live : Live
  no_live = record {
    place = zero_place;
    stability = f_zero;
    instantaneous_sigma = f_zero;
    satellites_used = pos 0;
    satellites_tracked = pos 0;
    samples = 0;
    blocks = 0;
    elapsed_sec = 0;
    valid = false;
  }

  -- The members as `start` sets them.
  unfoldable pub start_fix : ℕ → Fix
  start_fix now = record {
    state = k_collecting;
    started_us = now;
    completion_pending = false;
    samples = 0;
    lat = at_zero;
    lon = at_zero;
    height = at_zero;
    block_index = none;
    block_samples = 0;
    block_sum = zero_place;
    block_count = 0;
    block_lat = at_zero;
    block_lon = at_zero;
    block_height = at_zero;
    result = no_result;
    live = no_live;
  }

  -- `reset` leaves the sums.
  unfoldable pub reset_fix : Fix → Fix
  reset_fix x = record x {
    state = k_idle;
    result = no_result;
    live = no_live;
    completion_pending = false;
  }

  unfoldable pub take_completed_result : Fix → Fix × Option SurveyResult
  take_completed_result x =
      if x.completion_pending
      then (record x { completion_pending = false }, some x.result)
      else (x, none)

  abbrev pub checked_double : List ℕ → D × List ℕ × Bool → Option D
  checked_double text (value, rest, range_error) =
      if not range_error && ltb (length rest) (length text) && is_empty rest && is_finite value
      then some value
      else none

  -- A field of 40 characters or more is not read.
  unfoldable pub parse_double : List ℕ → Option D
  unfolding c_str
  parse_double text =
      if is_empty text || leb 40 (length text)
      then none
      else checked_double (c_str text) (strtod (c_str text))

  unfoldable pub update_running : D → ℕ → Running → Running
  update_running value count r =
      let delta = sub value r.mean in
      let mean = add r.mean (div delta (of_int (pos count))) in
      record { mean = mean; m2 = add r.m2 (mul delta (sub value mean)) }

  unfoldable pub standard_error : D → ℕ → F
  standard_error m2 count =
      if ltb count 2
      then single (of_int (pos 9999))
      else single (div (sqrt (div m2 (of_int (pos (count - 1))))) (sqrt (of_int (pos count))))

  unfoldable pub commit_block : Fix → Fix
  unfolding update_running
  commit_block x =
      let n = of_int (pos x.block_samples) in
      let count = x.block_count + 1 in
      if x.block_samples == 0 then x else record x {
        block_count = count;
        block_lat = update_running (div x.block_sum.lat n) count x.block_lat;
        block_lon = update_running (div x.block_sum.lon n) count x.block_lon;
        block_height = update_running (div x.block_sum.height n) count x.block_height;
        block_samples = 0;
        block_sum = zero_place;
      }

  abbrev pub in_bounds : D → ℤ → ℤ → Bool
  in_bounds value lo hi = not (less value (of_int lo)) && not (less (of_int hi) value)

  -- A position and its deviations, as far as they are read and in bounds.
  unfoldable pub read_place : List ℕ → Option (Place × Place)
  unfolding parse_double csv_field
  read_place payload = do
    lat_field ← csv_field payload 2
    lon_field ← csv_field payload 3
    height_field ← csv_field payload 4
    lat_sigma_field ← csv_field payload 7
    lon_sigma_field ← csv_field payload 8
    height_sigma_field ← csv_field payload 9
    lat ← parse_double lat_field
    lon ← parse_double lon_field
    height ← parse_double height_field
    lat_sigma ← parse_double lat_sigma_field
    lon_sigma ← parse_double lon_sigma_field
    height_sigma ← parse_double height_sigma_field
    if in_bounds lat (negsuc 89) (pos 90)
          && in_bounds lon (negsuc 179) (pos 180)
          && in_bounds height (negsuc 999) (pos 20000)
          && in_bounds lat_sigma (pos 0) (pos 100)
          && in_bounds lon_sigma (pos 0) (pos 100)
          && in_bounds height_sigma (pos 0) (pos 100)
        then some (
          record { lat = lat; lon = lon; height = height },
          record { lat = lat_sigma; lon = lon_sigma; height = height_sigma },
        )
        else none
