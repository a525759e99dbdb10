-- ===== src/Station/Rate.antt =====
-- The readiness gate `outbound_rate_ready_`, and how the window of `run` outlives a reset.
use gps_base_station.Prelude.{ℕ, ◌-◌, ◌≤◌, ◌≡◌, sym, ap, true, false, not, ◌||◌, arith, subst}
use gps_base_station.Nvs.{NvsApi}
use gps_base_station.Station.{Meter, Station, transmit, is_transmit, apply_stream_state}
use gps_base_station.Station.Modes.{reset_um980, reset_rtcm, configure_stored}
use gps_base_station.Station.Loop.{rate, latch_ready, close_window, k_min_outbound_rtcm_bps}

module _ {D Nvs Queue Actions : Type 0} where
  latch_ready_lem :
      (s : Station D Nvs Queue Actions) (now : ℕ)
      → k_min_outbound_rtcm_bps ≤ s.meter.rtcm_bps
      → (latch_ready s now).flags.outbound_rate_ready ≡ true
  unfolding latch_ready apply_stream_state
  latch_ready_lem s now enough = ground arith

  close_window_lem :
      (s : Station D Nvs Queue Actions) (now : ℕ)
      → 1000000 ≤ now - s.meter.rate_started
      → k_min_outbound_rtcm_bps ≤ rate s.meter now
      → (close_window s now).flags.outbound_rate_ready ≡ true
  unfolding close_window
  close_window_lem s now over enough =
      let m : Meter = record { rtcm_bps = rate s.meter now; rate_started = now; rate_bytes = 0 } in
      ground (arith, latch_ready_lem (record s { meter = m }) now enough)

module _ {D Queue Actions : Type 0} (nvs : NvsApi D) (zero_double : D) where
  open nvs use {Nvs}

  -- A reset of the receiver in base transmission takes the data flag and the readiness back.
  reset_um980-flags :
      (s : Station D Nvs Queue Actions) (at : ℕ)
      → s.flags.mode ≡ transmit
      → s.flags.raw_collection ≡ false
      → ((reset_um980 nvs zero_double s at).flags.outbound_rate_ready ≡ false)
        × ((reset_um980 nvs zero_double s at).flags.has_rtcm_data ≡ false)
        × ((reset_um980 nvs zero_double s at).meter ≡ s.meter)
  unfolding reset_um980 apply_stream_state reset_rtcm configure_stored
  reset_um980-flags s at mode off =
      let go : (not (is_transmit s.flags.mode) || s.flags.raw_collection) ≡ false =
        ground (arith, ap is_transmit mode) in
      ground arith

  -- A reset of the receiver in base transmission takes the readiness back, but it keeps the bytes that
  -- were counted before: if the window ends behind it and those bytes make 900 bytes in a second, the
  -- readiness is latched again, with no frame received after the reset.
  pub close_window-reset_um980 :
      (s : Station D Nvs Queue Actions) (at now : ℕ)
      → s.flags.mode ≡ transmit
      → s.flags.raw_collection ≡ false
      → 1000000 ≤ now - s.meter.rate_started
      → k_min_outbound_rtcm_bps ≤ rate s.meter now
      → ((reset_um980 nvs zero_double s at).flags.outbound_rate_ready ≡ false)
        × ((reset_um980 nvs zero_double s at).flags.has_rtcm_data ≡ false)
        × ((close_window (reset_um980 nvs zero_double s at) now).flags.outbound_rate_ready ≡ true)
  close_window-reset_um980 s at now mode off over enough =
      let (ready, no_data, meter) = reset_um980-flags s at mode off in
      (
        ready,
        no_data,
        close_window_lem (reset_um980 nvs zero_double s at) now
            (subst (λ (m : Meter). 1000000 ≤ now - m.rate_started) (sym meter) over)
            (subst (λ m. k_min_outbound_rtcm_bps ≤ rate m now) (sym meter) enough),
      )
