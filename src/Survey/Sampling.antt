-- ===== src/Survey/Sampling.antt =====
-- `parse_best_position` of main/survey.cpp: a position is added to the means, and a survey that is long and
-- steady enough is done.
use gps_base_station.Prelude.{
  ℕ, ◌+◌, ◌-◌, ◌/◌, ◌%◌, ◌^◌, List, [], ◌∷◌, Option, none, some, Bool, true, false, ◌&&◌, leb, ◌==◌,
  if◌then◌else◌, codes,
}
use gps_base_station.Nvs.{same}
use gps_base_station.Survey.Text.{pos, csv_field, without_checksum}
use gps_base_station.Survey.Position.{
  Reals, k_done, k_survey_min_time_sec, k_survey_block_time_sec, k_survey_min_blocks, int_or_zero,
  Place, SurveyResult, Live, Fix, update_running, standard_error, commit_block, read_place,
}

-- All behind the first `;`.
unfoldable pub behind_semicolon : List ℕ → Option (List ℕ)
behind_semicolon [] = none
behind_semicolon (c ∷ line) =
    let rest = behind_semicolon line in if c == 59 then some line else rest

abbrev pub is_computed : Option (List ℕ) → Bool
is_computed none = false
is_computed (some field) = same field (codes "SOL_COMPUTED")

module _ (reals : Reals) where
  open reals use {
    D, F, of_int, pi, add, mul, div, cos, single, double, fadd, fmul, sqrtf, fless, at_most,
  }

  unfoldable pub enter_block : Fix reals → ℕ → Option ℕ → Fix reals
  unfolding commit_block
  enter_block x next none = record x { block_index = some next }
  enter_block x next (some index) =
      if index == next then x else record (commit_block reals x) { block_index = some next }

  abbrev pub add_place : Place reals → Place reals → Place reals
  add_place p q = record {
    lat = add p.lat q.lat;
    lon = add p.lon q.lon;
    height = add p.height q.height;
  }

  unfoldable pub count_sample : Fix reals → Place reals → Fix reals
  unfolding update_running
  count_sample x p =
      let n = x.samples + 1 in
      record x {
        samples = n;
        lat = update_running reals p.lat n x.lat;
        lon = update_running reals p.lon n x.lon;
        height = update_running reals p.height n x.height;
      }

  unfoldable pub in_block : Fix reals → Place reals → Fix reals
  in_block x p = record x {
    block_sum = add_place x.block_sum p;
    block_samples = x.block_samples + 1;
  }

  unfoldable pub add_sample : Fix reals → Place reals → ℕ → Fix reals
  unfolding count_sample in_block enter_block
  add_sample x p elapsed =
      let x1 = count_sample x p in
      in_block (enter_block x1 (elapsed / k_survey_block_time_sec) x1.block_index) p

  abbrev pub metres_per_degree : D
  metres_per_degree = div (of_int (pos 1113195)) (of_int (pos 10))

  abbrev pub radians : D → D
  radians lat = div (mul lat pi) (of_int (pos 180))

  -- The three deviations in metres, and the stability.
  abbrev pub Spread : Type 0
  Spread = F × F × F × F

  abbrev pub with_stability : F → F → F → Spread
  with_stability lat lon height =
      (lat, lon, height, sqrtf (fadd (fadd (fmul lat lat) (fmul lon lon)) (fmul height height)))

  unfoldable pub spread : Fix reals → Place reals → Spread
  unfolding standard_error
  spread x p =
      let n = x.block_count in
      let unknown = single (of_int (pos 9999)) in
      if leb 2 n
      then with_stability
          (single (mul (double (standard_error reals x.block_lat.m2 n)) metres_per_degree))
          (single (
            mul (mul (double (standard_error reals x.block_lon.m2 n)) metres_per_degree)
              (cos (radians p.lat))))
          (standard_error reals x.block_height.m2 n)
      else (unknown, unknown, unknown, unknown)

  abbrev pub larger : F → F → F
  larger a b = if fless a b then b else a

  abbrev pub mean_place : Fix reals → Place reals
  mean_place x = record { lat = x.lat.mean; lon = x.lon.mean; height = x.height.mean }

  unfoldable pub live_of : Fix reals → List ℕ → Place reals → F → ℕ → Live reals
  unfolding csv_field
  live_of x payload sigma stability elapsed = record {
    place = mean_place x;
    stability = stability;
    instantaneous_sigma =
        larger (larger (single sigma.lat) (single sigma.lon)) (single sigma.height);
    satellites_used = int_or_zero (csv_field payload 13);
    satellites_tracked = int_or_zero (csv_field payload 14);
    samples = x.samples;
    blocks = x.block_count;
    elapsed_sec = elapsed;
    valid = true;
  }

  abbrev pub k_survey_max_stability_m : F
  k_survey_max_stability_m = single (div (of_int (pos 1)) (of_int (pos 2)))

  unfoldable pub result_of : Fix reals → Spread → ℕ → SurveyResult reals
  result_of x (lat, lon, height, stability) elapsed = record {
    place = mean_place x;
    lat_sigma = lat;
    lon_sigma = lon;
    height_sigma = height;
    elapsed_sec = elapsed;
  }

  unfoldable pub complete_if : Fix reals → Spread → ℕ → Fix reals
  unfolding result_of
  complete_if x s elapsed =
      if leb k_survey_min_time_sec elapsed
        && leb k_survey_min_blocks x.block_count
        && at_most s.3 k_survey_max_stability_m
      then record x { result = result_of x s elapsed; state = k_done; completion_pending = true }
      else x

  unfoldable pub elapsed_of : Fix reals → ℕ → ℕ
  elapsed_of x now = (now - x.started_us) / 1000000 % 2 ^ 32

  unfoldable pub sampled : Fix reals → List ℕ → ℕ → Place reals → Place reals → Fix reals
  unfolding add_sample spread live_of complete_if
  sampled x payload elapsed p sigma =
      let x1 = add_sample x p elapsed in
      let s = spread x1 p in
      complete_if (record x1 { live = live_of x1 payload sigma s.3 elapsed }) s elapsed

  unfoldable pub sampled_if :
      Fix reals → List ℕ → ℕ → Option (Place reals × Place reals) → Fix reals
  unfolding sampled
  sampled_if x payload elapsed none = x
  sampled_if x payload elapsed (some (p, sigma)) = sampled x payload elapsed p sigma

  unfoldable pub take_payload : Fix reals → ℕ → List ℕ → Fix reals
  unfolding sampled_if read_place elapsed_of csv_field
  take_payload x now payload =
      if is_computed (csv_field payload 0)
      then sampled_if x payload (elapsed_of x now) (read_place reals payload)
      else x

  unfoldable pub behind_header : Fix reals → ℕ → Option (List ℕ) → Fix reals
  unfolding take_payload without_checksum
  behind_header x now none = x
  behind_header x now (some rest) = take_payload x now (without_checksum rest)

  -- `now` is the clock at the line.
  unfoldable pub parse_best_position : Fix reals → ℕ → List ℕ → Fix reals
  unfolding behind_header behind_semicolon
  parse_best_position x now line = behind_header x now (behind_semicolon line)
