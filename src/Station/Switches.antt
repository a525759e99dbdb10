-- ===== src/Station/Switches.antt =====
-- The switches of `BaseStation` keep the streams in step with the flags.
use gps_base_station.Prelude.{
  ℕ, ◌-◌, ◌≡◌, ◌⊎◌, inl, inr, refl, sym, subst, ◌∙◌, Bool, true, false, arith, Bool-cases, leb,
}
use gps_base_station.Nvs.{NvsApi}
use gps_base_station.Station.{
  Flags, Meter, Station, apply_stream_state, set_streams_suspended, set_network_available,
  set_streams_enabled, apply_persisted_streams, reload_services,
}
use gps_base_station.Station.Loop.{latch_ready, close_window, count_bytes, rate}
use gps_base_station.Station.Streams.{IsValid, apply_to-InStep}

module _ {D Nvs Queue Actions : Type 0} where
  -- The latch stays, or the streams are set for it.
  latch_ready-cases :
      (s : Station D Nvs Queue Actions) (now : ℕ)
      → (latch_ready s now ≡ s)
        ⊎ (latch_ready s now
            ≡ apply_stream_state
                (record s { flags = record s.flags { outbound_rate_ready = true } })
                now)
  unfolding latch_ready
  latch_ready-cases s now = elim (Bool-cases s.flags.outbound_rate_ready) [
    | inl ready ↦ inl (ground arith)
    | inr first ↦ ground arith
  ]

  applied-IsValid :
      (s : Station D Nvs Queue Actions) (f : Flags) (now : ℕ)
      → IsValid s
      → f.mode ≡ s.flags.mode
      → f.raw_collection ≡ s.flags.raw_collection
      → IsValid (apply_stream_state (record s { flags = f }) now)
  unfolding apply_stream_state
  applied-IsValid s f now v mode raw = record {
    in_step = apply_to-InStep f s.outlets now;
    raw_mode = rw (mode, raw) v.raw_mode;
    logged = v.logged ∙ sym raw;
  }

  latch_ready-IsValid :
      (s : Station D Nvs Queue Actions) (now : ℕ) → IsValid s → IsValid (latch_ready s now)
  latch_ready-IsValid s now v = elim (latch_ready-cases s now) [
    | inl e ↦ subst IsValid (sym e) v
    | inr e ↦
        subst IsValid (sym e)
          (applied-IsValid s (record s.flags { outbound_rate_ready = true }) now v refl refl)
  ]

  pub close_window-IsValid :
      (s : Station D Nvs Queue Actions) (now : ℕ) → IsValid s → IsValid (close_window s now)
  unfolding close_window
  close_window-IsValid s now v = elim (Bool-cases (leb 1000000 (now - s.meter.rate_started))) [
    | inl over ↦ rw over (
        latch_ready-IsValid (record s { meter = m }) now
          (record { in_step = v.in_step; raw_mode = v.raw_mode; logged = v.logged }))
    | inr still ↦ rw still v
  ]
    where
      m : Meter
      m = record { rtcm_bps = rate s.meter now; rate_started = now; rate_bytes = 0 }

  pub count_bytes-IsValid :
      (s : Station D Nvs Queue Actions) (before : ℕ) → IsValid s → IsValid (count_bytes s before)
  unfolding count_bytes
  count_bytes-IsValid s before v = record {
    in_step = v.in_step;
    raw_mode = v.raw_mode;
    logged = v.logged;
  }

  pub set_streams_suspended-IsValid :
      (s : Station D Nvs Queue Actions) (suspended : Bool) (now : ℕ)
      → IsValid s
      → IsValid (set_streams_suspended s suspended now)
  unfolding set_streams_suspended
  set_streams_suspended-IsValid s suspended now v =
      applied-IsValid s (record s.flags { transient_streams_suspended = suspended }) now v refl refl

  set_network_available-cases :
      (s : Station D Nvs Queue Actions) (available : Bool) (now : ℕ)
      → (set_network_available s available now ≡ s)
        ⊎ (set_network_available s available now
            ≡ apply_stream_state
                (record s { flags = record s.flags { network_available = available } })
                now)
  unfolding set_network_available
  set_network_available-cases s true now = elim (Bool-cases s.flags.network_available) [
    | inl e ↦ inl (ground arith)
    | inr e ↦ inr (ground arith)
  ]
  set_network_available-cases s false now = elim (Bool-cases s.flags.network_available) [
    | inl e ↦ inr (ground arith)
    | inr e ↦ inl (ground arith)
  ]

  pub set_network_available-IsValid :
      (s : Station D Nvs Queue Actions) (available : Bool) (now : ℕ)
      → IsValid s
      → IsValid (set_network_available s available now)
  set_network_available-IsValid s available now v =
      elim (set_network_available-cases s available now) [
        | inl e ↦ subst IsValid (sym e) v
        | inr e ↦
            subst IsValid (sym e)
              (applied-IsValid s (record s.flags { network_available = available }) now v refl refl)
      ]

module _ {D Queue Actions : Type 0} (nvs : NvsApi D) (zero_double : D) where
  open nvs use {Nvs}

  pub set_streams_enabled-IsValid :
      (s : Station D Nvs Queue Actions) (enabled : Bool) (now : ℕ)
      → IsValid s
      → IsValid (set_streams_enabled nvs zero_double s enabled now)
  unfolding set_streams_enabled apply_stream_state
  set_streams_enabled-IsValid s enabled now v = record {
    in_step = apply_to-InStep (record s.flags { user_streams_enabled = enabled }) s.outlets now;
    raw_mode = v.raw_mode;
    logged = v.logged;
  }

  pub apply_persisted_streams-IsValid :
      (s : Station D Nvs Queue Actions) (now : ℕ)
      → IsValid s
      → IsValid (apply_persisted_streams nvs zero_double s now)
  unfolding apply_persisted_streams
  apply_persisted_streams-IsValid s now v = applied-IsValid s _ now v refl refl

  pub reload_services-IsValid :
      (s : Station D Nvs Queue Actions) (now : ℕ)
      → IsValid s
      → IsValid (reload_services nvs zero_double s now)
  unfolding reload_services apply_stream_state
  reload_services-IsValid s now v = record {
    in_step = apply_to-InStep s.flags _ now;
    raw_mode = v.raw_mode;
    logged = v.logged;
  }
