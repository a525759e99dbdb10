-- ===== src/Station/Modes.antt =====
-- The transitions of `BaseStation`: survey, base transmission, raw collection, and the actions that ask
-- for them. Each is one call at the time `now`.
use gps_base_station.Prelude.{ℕ, Bool, true, false, not, ◌||◌, if◌then◌else◌}
use gps_base_station.Nvs.{NvsApi}
use gps_base_station.Storage.{
  load_position, save_position, clear_position, antenna_model, antenna_radome, antenna_height,
}
use gps_base_station.Rtcm.Parser.{reset_rtcm_parser}
use gps_base_station.Rtcm.Corrections.{reset_corrections, reset_push_times}
use gps_base_station.Station.{
  survey, transmit, is_transmit, Action, k_survey, k_start_raw, k_stop_raw, k_reset_um980,
  k_position, flush_data_uart, configure_survey_output, configure_raw_output,
  configure_signal_group, survey_start, survey_reset, rinex_stop, configure_base, rinex_start,
  Flags, Route, Station, apply_stream_state, call,
}

-- `reset_rtcm_parser()` and `reset_rtcm_state()`.
unfoldable pub reset_route : Route → ℕ → Route
unfolding reset_rtcm_parser reset_corrections reset_push_times
reset_route r now = record r {
  parser = reset_rtcm_parser r.parser;
  local_batch = record r.local_batch { len = 0; frame_count = 0; next_flush_us = 0 };
  slots = reset_corrections;
  push_next_flush_us = reset_push_times now;
}

-- `has_rtcm_data_ = false` and `outbound_rate_ready_ = false`.
abbrev pub unready : Flags → Flags
unready f = record f { has_rtcm_data = false; outbound_rate_ready = false }

module _ {D Nvs Queue Actions : Type 0} where
  unfoldable pub reset_rtcm : Station D Nvs Queue Actions → ℕ → Station D Nvs Queue Actions
  unfolding reset_route
  reset_rtcm s now = record s { route = reset_route s.route now }

module _ {D Queue Actions : Type 0} (nvs : NvsApi D) (zero_double : D) where
  open nvs use {Nvs}

  -- `configure_base` at the stored position.
  unfoldable pub configure_stored : Station D Nvs Queue Actions → Station D Nvs Queue Actions
  configure_stored s =
      let pos = load_position nvs zero_double s.storage in
      call s (configure_base pos.lat pos.lon pos.height (antenna_model nvs zero_double s.storage))

  unfoldable pub enter_survey : Station D Nvs Queue Actions → Bool → ℕ → Station D Nvs Queue Actions
  unfolding apply_stream_state reset_rtcm
  enter_survey s clear now =
      let s1 =
        apply_stream_state (record s { flags = record (unready s.flags) { mode = survey } }) now in
      let s2 : Station D Nvs Queue Actions =
        if clear
        then record s1 { storage = (clear_position nvs zero_double s1.storage).0 }
        else s1 in
      call (call (reset_rtcm (call s2 flush_data_uart) now) survey_start) configure_survey_output

  unfoldable pub enter_transmit :
      Station D Nvs Queue Actions → D → D → D → ℕ → Station D Nvs Queue Actions
  unfolding apply_stream_state reset_rtcm
  enter_transmit s lat lon height now =
      let s1 : Station D Nvs Queue Actions = record s {
        flags = record (unready s.flags) { mode = transmit };
      } in
      let s2 = reset_rtcm (call (call s1 survey_reset) flush_data_uart) now in
      apply_stream_state
        (call s2 (configure_base lat lon height (antenna_model nvs zero_double s.storage))) now

  unfoldable pub enter_raw_collection :
      Station D Nvs Queue Actions → ℕ → Station D Nvs Queue Actions
  unfolding apply_stream_state reset_rtcm
  enter_raw_collection s now =
      let s1 =
        apply_stream_state (record s { flags = record s.flags { raw_collection = true } }) now in
      let s2 = call (reset_rtcm (call s1 flush_data_uart) now) configure_raw_output in
      let pos = load_position nvs zero_double s.storage in
      if not (is_transmit s.flags.mode) || s.flags.raw_collection
      then s
      else call s2 (
          rinex_start pos.lat pos.lon pos.height (antenna_model nvs zero_double s.storage)
            (antenna_radome nvs zero_double s.storage) (antenna_height nvs zero_double s.storage))

  unfoldable pub exit_raw_collection : Station D Nvs Queue Actions → ℕ → Station D Nvs Queue Actions
  unfolding apply_stream_state reset_rtcm configure_stored
  exit_raw_collection s now =
      let s1 : Station D Nvs Queue Actions = record (call s rinex_stop) {
        flags = record (unready s.flags) { raw_collection = false };
      } in
      if not s.flags.raw_collection
      then s
      else apply_stream_state (configure_stored (reset_rtcm (call s1 flush_data_uart) now)) now

  unfoldable pub reset_um980 : Station D Nvs Queue Actions → ℕ → Station D Nvs Queue Actions
  unfolding apply_stream_state reset_rtcm configure_stored
  reset_um980 s now =
      let s1 = apply_stream_state (record s { flags = unready s.flags }) now in
      let s2 = reset_rtcm (call (call s1 configure_signal_group) flush_data_uart) now in
      if not (is_transmit s.flags.mode) || s.flags.raw_collection
      then s
      else apply_stream_state (configure_stored s2) now

  -- `save_position`, and `enter_transmit` if it succeeded.
  unfoldable pub save_and_transmit :
      Station D Nvs Queue Actions → D → D → D → ℕ → Station D Nvs Queue Actions
  unfolding enter_transmit
  save_and_transmit s lat lon height now =
      let (storage, saved) = save_position nvs zero_double s.storage lat lon height in
      let s' : Station D Nvs Queue Actions = record s { storage = storage } in
      if saved then enter_transmit s' lat lon height now else s'

  unfoldable pub handle_action :
      Station D Nvs Queue Actions → Action D → ℕ → Station D Nvs Queue Actions
  unfolding enter_survey enter_raw_collection exit_raw_collection reset_um980 save_and_transmit
  handle_action s k_survey now = enter_survey (exit_raw_collection s now) true now
  handle_action s k_start_raw now = enter_raw_collection s now
  handle_action s k_stop_raw now = exit_raw_collection s now
  handle_action s k_reset_um980 now = reset_um980 s now
  handle_action s (k_position lat lon height) now =
      save_and_transmit (exit_raw_collection s now) lat lon height now
