-- ===== src/Station/Streams.antt =====
-- The streams run exactly when the flags allow them, whatever happened before.
use gps_base_station.Prelude.{
  ℕ, ◌≡◌, ◌⊎◌, inl, inr, refl, sym, subst, List, [], ◌∷◌, Bool, true, false, not, ◌||◌, arith,
  Bool-cases,
}
use gps_base_station.Nvs.{NvsApi}
use gps_base_station.Ntrip.Client.{Client}
use gps_base_station.Ntrip.Client
use gps_base_station.Caster
use gps_base_station.Caster.{Caster}
use gps_base_station.Storage.{Storage, save_position}
use gps_base_station.Station.{
  survey, transmit, is_transmit, Action, k_survey, k_start_raw, k_stop_raw, k_reset_um980,
  k_position, Call, flush_data_uart, configure_survey_output, configure_raw_output,
  configure_signal_group, survey_start, survey_reset, rinex_stop, configure_base, rinex_start,
  survey_feed, rinex_feed, Flags, Outlets, Station, apply_to, apply_stream_state,
  effective_streams_suspended, effective_outbound_streams_suspended,
}
use gps_base_station.Station.Modes.{
  enter_survey, enter_transmit, enter_raw_collection, exit_raw_collection, reset_um980,
  save_and_transmit, handle_action, reset_rtcm, configure_stored, unready,
}

-- The local caster and the three clients are suspended as the flags say.
abbrev pub InStep : {Queue : Type 0} → Flags → Outlets Queue → Type 0
InStep f o =
    (o.lan.suspended ≡ effective_streams_suspended f)
    × (o.rtk2go.suspended ≡ effective_outbound_streams_suspended f)
    × (o.onocoy.suspended ≡ effective_outbound_streams_suspended f)
    × (o.rtkdata.suspended ≡ effective_outbound_streams_suspended f)

-- Whether the last call of the RINEX logger was `start`.
abbrev pub logging : {D : Type 0} → List (Call D) → Bool
logging [] = false
logging (flush_data_uart ∷ cs) = logging cs
logging (configure_survey_output ∷ cs) = logging cs
logging (configure_raw_output ∷ cs) = logging cs
logging (configure_signal_group ∷ cs) = logging cs
logging (survey_start ∷ cs) = logging cs
logging (survey_reset ∷ cs) = logging cs
logging (rinex_stop ∷ cs) = false
logging (configure_base x y z m ∷ cs) = logging cs
logging (rinex_start x y z m r h ∷ cs) = true
logging (survey_feed b ∷ cs) = logging cs
logging (rinex_feed b ∷ cs) = logging cs

module _ {D Nvs Queue Actions : Type 0} where
  -- Raw collection is a part of base transmission, and the RINEX logger runs exactly then.
  pub record IsValid (s : Station D Nvs Queue Actions) : Type 0 where
    pub in_step : InStep s.flags s.outlets
    pub raw_mode : (s.flags.raw_collection ≡ false) ⊎ (s.flags.mode ≡ transmit)
    pub logged : logging s.calls ≡ s.flags.raw_collection

module _ {Queue : Type 0} where
  client_suspended :
      (c : Client Queue) (b : Bool) (now : ℕ) → (Client.set_suspended c b now).suspended ≡ b
  unfolding Client.set_suspended
  client_suspended c true now = refl
  client_suspended c false now = refl

  caster_suspended : (c : Caster Queue) (b : Bool) → (Caster.set_suspended c b).suspended ≡ b
  unfolding Caster.set_suspended
  caster_suspended c true = refl
  caster_suspended c false = refl

  pub apply_to-InStep : (f : Flags) (o : Outlets Queue) (now : ℕ) → InStep f (apply_to f o now)
  unfolding apply_to
  apply_to-InStep f o now = (
    caster_suspended o.lan _,
    client_suspended o.rtk2go _ now,
    client_suspended o.onocoy _ now,
    client_suspended o.rtkdata _ now,
  )

module _ {D Queue Actions : Type 0} (nvs : NvsApi D) (zero_double : D) where
  open nvs use {Nvs}

  pub enter_survey-IsValid :
      (s : Station D Nvs Queue Actions) (clear : Bool) (now : ℕ)
      → IsValid s
      → s.flags.raw_collection ≡ false
      → IsValid (enter_survey nvs zero_double s clear now)
  unfolding enter_survey apply_stream_state reset_rtcm
  enter_survey-IsValid s true now v off = record {
    in_step = apply_to-InStep (record (unready s.flags) { mode = survey }) s.outlets now;
    raw_mode = inl off;
    logged = v.logged;
  }
  enter_survey-IsValid s false now v off = record {
    in_step = apply_to-InStep (record (unready s.flags) { mode = survey }) s.outlets now;
    raw_mode = inl off;
    logged = v.logged;
  }

  pub enter_transmit-IsValid :
      (s : Station D Nvs Queue Actions) (lat lon height : D) (now : ℕ)
      → logging s.calls ≡ s.flags.raw_collection
      → IsValid (enter_transmit nvs zero_double s lat lon height now)
  unfolding enter_transmit apply_stream_state reset_rtcm
  enter_transmit-IsValid s lat lon height now logged = record {
    in_step = apply_to-InStep (record (unready s.flags) { mode = transmit }) s.outlets now;
    raw_mode = inr refl;
    logged = logged;
  }

  exit_raw_collection-off :
      (s : Station D Nvs Queue Actions) (now : ℕ)
      → s.flags.raw_collection ≡ false
      → exit_raw_collection nvs zero_double s now ≡ s
  unfolding exit_raw_collection
  exit_raw_collection-off s now off = ground arith

  exit_raw_collection-IsValid :
      (s : Station D Nvs Queue Actions) (now : ℕ)
      → IsValid s
      → IsValid (exit_raw_collection nvs zero_double s now)
        × ((exit_raw_collection nvs zero_double s now).flags.raw_collection ≡ false)
  unfolding exit_raw_collection apply_stream_state reset_rtcm configure_stored
  exit_raw_collection-IsValid s now v = elim (Bool-cases s.flags.raw_collection) [
    | inl raw ↦ rw raw (
      record {
        in_step =
            apply_to-InStep (record (unready s.flags) { raw_collection = false }) s.outlets now;
        raw_mode = inl refl;
        logged = refl;
      },
      refl,
    )
    | inr off ↦
        subst (λ (t : Station D Nvs Queue Actions). IsValid t × (t.flags.raw_collection ≡ false))
          (sym (exit_raw_collection-off s now off)) (v, off)
  ]

  enter_raw_collection-IsValid :
      (s : Station D Nvs Queue Actions) (now : ℕ)
      → IsValid s
      → IsValid (enter_raw_collection nvs zero_double s now)
  unfolding enter_raw_collection apply_stream_state reset_rtcm
  enter_raw_collection-IsValid s now v =
      elim (Bool-cases (not (is_transmit s.flags.mode) || s.flags.raw_collection)) [
        | inl stay ↦ rw stay v
        | inr enter ↦ rw enter (record {
          in_step = apply_to-InStep (record s.flags { raw_collection = true }) s.outlets now;
          raw_mode = inr (ground arith);
          logged = refl;
        })
      ]

  reset_um980-IsValid :
      (s : Station D Nvs Queue Actions) (now : ℕ)
      → IsValid s
      → IsValid (reset_um980 nvs zero_double s now)
  unfolding reset_um980 apply_stream_state reset_rtcm configure_stored
  reset_um980-IsValid s now v =
      elim (Bool-cases (not (is_transmit s.flags.mode) || s.flags.raw_collection)) [
        | inl stay ↦ rw stay v
        | inr enter ↦ rw enter (record {
          in_step =
              apply_to-InStep (unready s.flags) (apply_to (unready s.flags) s.outlets now) now;
          raw_mode = v.raw_mode;
          logged = v.logged;
        })
      ]

  with_storage-IsValid :
      (s : Station D Nvs Queue Actions) (st : Storage Nvs)
      → IsValid s
      → IsValid (record s { storage = st })
  with_storage-IsValid s st v = record {
    in_step = v.in_step;
    raw_mode = v.raw_mode;
    logged = v.logged;
  }

  pub save_and_transmit-IsValid :
      (s : Station D Nvs Queue Actions) (lat lon height : D) (now : ℕ)
      → IsValid s
      → IsValid (save_and_transmit nvs zero_double s lat lon height now)
  unfolding save_and_transmit
  save_and_transmit-IsValid s lat lon height now v =
      let saved = (save_position nvs zero_double s.storage lat lon height).1 in
      let st = (save_position nvs zero_double s.storage lat lon height).0 in
      elim (Bool-cases saved) [
        | inl yes_ ↦
            rw yes_ (enter_transmit-IsValid (record s { storage = st }) lat lon height now v.logged)
        | inr no_ ↦ rw no_ (with_storage-IsValid s st v)
      ]

  -- Each action keeps the streams in step with the flags, raw collection inside base transmission, and the
  -- RINEX logger running exactly during raw collection.
  pub handle_action-IsValid :
      (s : Station D Nvs Queue Actions) (a : Action D) (now : ℕ)
      → IsValid s
      → IsValid (handle_action nvs zero_double s a now)
  unfolding handle_action
  handle_action-IsValid s k_survey now v =
      let (w, off) = exit_raw_collection-IsValid s now v in
      enter_survey-IsValid (exit_raw_collection nvs zero_double s now) true now w off
  handle_action-IsValid s k_start_raw now v = enter_raw_collection-IsValid s now v
  handle_action-IsValid s k_stop_raw now v = (exit_raw_collection-IsValid s now v).0
  handle_action-IsValid s k_reset_um980 now v = reset_um980-IsValid s now v
  handle_action-IsValid s (k_position lat lon height) now v =
      save_and_transmit-IsValid (exit_raw_collection nvs zero_double s now) lat lon height now
        (exit_raw_collection-IsValid s now v).0
