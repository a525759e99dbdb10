-- ===== src/Station/Memory.antt =====
-- The copies of the data path stay within `RtcmBatch`, whatever the receiver sends.
use gps_base_station.Prelude.{
  ℕ, zero, suc, ◌≤◌, ◌≡◌, inl, inr, refl, sym, subst, ◌∙◌, List, [], ◌∷◌, Option, none, some, Bool,
  true, false, not, ◌||◌, if◌then◌else◌, arith, Bool-cases, Option-cases, length, ltb, ◌==◌,
}
use gps_base_station.Freertos.{QueueApi}
use gps_base_station.Nvs.{NvsApi}
use gps_base_station.Rtcm.Parser.{feed_rtcm_byte}
use gps_base_station.Rtcm.Batch.Laws
use gps_base_station.Rtcm.Batch.Laws.{publish_to_batch-Holds, flush_due_batch-Holds}
use gps_base_station.Storage.{save_position}
use gps_base_station.Station.{
  BaseMode, survey, transmit, is_transmit, Action, k_survey, k_start_raw, k_stop_raw, k_reset_um980,
  k_position, Route, Station, apply_stream_state, call, survey_feed,
}
use gps_base_station.Station.Modes.{
  reset_route, reset_rtcm, configure_stored, enter_survey, enter_transmit, enter_raw_collection,
  exit_raw_collection, reset_um980, save_and_transmit, handle_action,
}
use gps_base_station.Station.Feed.{
  feed_survey, read_command_uart, feed_rinex, read_data_uart_raw, note_rtcm, distribute,
  publish_rtcm_frame, publish_completed, feed_byte, feed_bytes, feed_reads, flush_lan,
  flush_due_corrections, read_data_uart, until_short, until_empty,
}
use gps_base_station.Station.Loop.{
  Tick, latch_ready, close_window, count_bytes, drain, survey_pass, data_pass, run_pass,
}

-- The batch is valid: its frames lie within its arrays.
abbrev pub Fits : {D Nvs Queue Actions : Type 0} → Station D Nvs Queue Actions → Type 0
Fits s = Laws.IsValid s.route.local_batch

reset_route-Fits :
    (r : Route) (now : ℕ)
    → Laws.IsValid r.local_batch
    → Laws.IsValid (reset_route r now).local_batch
unfolding reset_route
reset_route-Fits r now v = record {
  room = v.room;
  places = v.places;
  within = omega arith;
  counted = omega arith;
  chain = refl;
}

module _ {D Nvs Queue Actions : Type 0} where
  note_rtcm-same : (s : Station D Nvs Queue Actions) (now : ℕ) → (note_rtcm s now).route ≡ s.route
  unfolding note_rtcm apply_stream_state
  note_rtcm-same s now = ground arith

  feed_survey-same :
      (cs : List (List ℕ)) (s : Station D Nvs Queue Actions) → (feed_survey s cs).route ≡ s.route
  unfolding feed_survey
  feed_survey-same [] s = refl
  feed_survey-same (c ∷ cs) s =
      feed_survey-same cs (if ltb 0 (length c) then call s (survey_feed c) else s) ∙ ground arith

  feed_rinex-same :
      (cs : List (List ℕ)) (s : Station D Nvs Queue Actions) → (feed_rinex s cs).route ≡ s.route
  unfolding feed_rinex
  feed_rinex-same [] s = refl
  feed_rinex-same (c ∷ cs) s = feed_rinex-same cs _

  close_window-same :
      (s : Station D Nvs Queue Actions) (now : ℕ) → (close_window s now).route ≡ s.route
  unfolding close_window latch_ready apply_stream_state
  close_window-same s now = ground arith

module _ {D Queue Actions : Type 0} (nvs : NvsApi D) (zero_double : D) where
  open nvs use {Nvs}

  enter_survey-Fits :
      (s : Station D Nvs Queue Actions) (clear : Bool) (now : ℕ)
      → Fits s
      → Fits (enter_survey nvs zero_double s clear now)
  unfolding enter_survey apply_stream_state reset_rtcm
  enter_survey-Fits s true now v = reset_route-Fits s.route now v
  enter_survey-Fits s false now v = reset_route-Fits s.route now v

  save_and_transmit-Fits :
      (s : Station D Nvs Queue Actions) (lat lon height : D) (now : ℕ)
      → Fits s
      → Fits (save_and_transmit nvs zero_double s lat lon height now)
  unfolding save_and_transmit enter_transmit apply_stream_state reset_rtcm
  save_and_transmit-Fits s lat lon height now v =
      elim (Bool-cases (save_position nvs zero_double s.storage lat lon height).1) [
        | inl e ↦ rw e (reset_route-Fits s.route now v)
        | inr e ↦ rw e v
      ]

  exit_raw_collection-Fits :
      (s : Station D Nvs Queue Actions) (now : ℕ)
      → Fits s
      → Fits (exit_raw_collection nvs zero_double s now)
  unfolding exit_raw_collection apply_stream_state reset_rtcm configure_stored
  exit_raw_collection-Fits s now v = elim (Bool-cases s.flags.raw_collection) [
    | inl e ↦ rw e (reset_route-Fits s.route now v)
    | inr e ↦ rw e v
  ]

  enter_raw_collection-Fits :
      (s : Station D Nvs Queue Actions) (now : ℕ)
      → Fits s
      → Fits (enter_raw_collection nvs zero_double s now)
  unfolding enter_raw_collection apply_stream_state reset_rtcm
  enter_raw_collection-Fits s now v =
      elim (Bool-cases (not (is_transmit s.flags.mode) || s.flags.raw_collection)) [
        | inl e ↦ rw e v
        | inr e ↦ rw e (reset_route-Fits s.route now v)
      ]

  reset_um980-Fits :
      (s : Station D Nvs Queue Actions) (now : ℕ)
      → Fits s
      → Fits (reset_um980 nvs zero_double s now)
  unfolding reset_um980 apply_stream_state reset_rtcm configure_stored
  reset_um980-Fits s now v =
      elim (Bool-cases (not (is_transmit s.flags.mode) || s.flags.raw_collection)) [
        | inl e ↦ rw e v
        | inr e ↦ rw e (reset_route-Fits s.route now v)
      ]

  handle_action-Fits :
      (s : Station D Nvs Queue Actions) (a : Action D) (now : ℕ)
      → Fits s
      → Fits (handle_action nvs zero_double s a now)
  unfolding handle_action
  handle_action-Fits s k_survey now v =
      enter_survey-Fits (exit_raw_collection nvs zero_double s now) true now
        (exit_raw_collection-Fits s now v)
  handle_action-Fits s k_start_raw now v = enter_raw_collection-Fits s now v
  handle_action-Fits s k_stop_raw now v = exit_raw_collection-Fits s now v
  handle_action-Fits s k_reset_um980 now v = reset_um980-Fits s now v
  handle_action-Fits s (k_position lat lon height) now v =
      save_and_transmit-Fits (exit_raw_collection nvs zero_double s now) lat lon height now
        (exit_raw_collection-Fits s now v)

module _ {D Nvs Actions : Type 0} (packets : QueueApi (List ℕ)) where
  open packets use {Queue}

  distribute-Fits :
      (s : Station D Nvs Queue Actions) (f : List ℕ) (now : ℕ)
      → length f ≤ 1200
      → Fits s
      → Fits (distribute packets s f now)
  unfolding distribute
  distribute-Fits s f now small v = (publish_to_batch-Holds s.route.local_batch f now 0 v small).0

  -- The guard on the length keeps the copy within the batch.
  publish_rtcm_frame-Fits :
      (s : Station D Nvs Queue Actions) (f : List ℕ) (now : ℕ)
      → Fits s
      → Fits (publish_rtcm_frame packets s f now)
  unfolding publish_rtcm_frame
  publish_rtcm_frame-Fits s f now v = elim (Bool-cases (length f == 0 || ltb 1200 (length f))) [
    | inl e ↦ rw e v
    | inr e ↦
        let noted : Fits (note_rtcm s now) =
          subst (λ (r : Route). Laws.IsValid r.local_batch) (sym (note_rtcm-same s now)) v in
        rw e (distribute-Fits (note_rtcm s now) f now (ground arith) noted)
  ]

  publish_completed-Fits :
      (s : Station D Nvs Queue Actions) (out : Option (List ℕ)) (now : ℕ)
      → Fits s
      → Fits (publish_completed packets s out now)
  unfolding publish_completed
  publish_completed-Fits s none now v = v
  publish_completed-Fits s (some f) now v = publish_rtcm_frame-Fits s f now v

  feed_bytes-Fits :
      (bytes : List (ℕ × ℕ)) (s : Station D Nvs Queue Actions)
      → Fits s
      → Fits (feed_bytes packets s bytes)
  unfolding feed_bytes feed_byte
  feed_bytes-Fits [] s v = v
  feed_bytes-Fits ((byte, now) ∷ bytes) s v = feed_bytes-Fits bytes (feed_byte packets s byte now) (
      publish_completed-Fits
        (record s { route = record s.route { parser = (feed_rtcm_byte s.route.parser byte).0 } })
        (feed_rtcm_byte s.route.parser byte).1 now v)

  feed_reads-Fits :
      (cs : List (List (ℕ × ℕ))) (s : Station D Nvs Queue Actions)
      → Fits s
      → Fits (feed_reads packets s cs)
  unfolding feed_reads
  feed_reads-Fits [] s v = v
  feed_reads-Fits (c ∷ cs) s v = feed_reads-Fits cs (feed_bytes packets s c) (feed_bytes-Fits c s v)

  read_data_uart-Fits :
      (s : Station D Nvs Queue Actions) (reads : List (List (ℕ × ℕ))) (now : ℕ)
      → Fits s
      → Fits (read_data_uart packets s reads now)
  unfolding read_data_uart flush_due_corrections flush_lan
  read_data_uart-Fits s reads now v =
      (flush_due_batch-Holds (feed_reads packets s (until_short reads)).route.local_batch now
        (feed_reads-Fits (until_short reads) s v)).0.0

module _ {D : Type 0} (nvs : NvsApi D) (zero_double : D) (actions : QueueApi (Action D))
    (packets : QueueApi (List ℕ)) where
  open nvs use {Nvs}

  drain-Fits :
      (fuel : ℕ) (s : Station D Nvs packets.Queue actions.Queue) (q : Option actions.Queue)
      (now : ℕ)
      → Fits s
      → Fits (drain nvs zero_double actions fuel s q now)
  unfolding drain
  drain-Fits zero s q now v = v
  drain-Fits (suc fuel) s none now v = v
  drain-Fits (suc fuel) s (some q) now v = elim (Option-cases (actions.receive q).1) [
    | inl idle ↦ rw (idle, drain) v
    | inr (a, got) ↦
        rw (got, drain)
          (drain-Fits fuel (handle_action nvs zero_double s a now) (some (actions.receive q).0) now
            (handle_action-Fits nvs zero_double s a now v))
  ]

  data_pass-Fits :
      (s : Station D Nvs packets.Queue actions.Queue) (mode : BaseMode) (t : Tick D)
      → Fits s
      → Fits (data_pass nvs zero_double actions packets s mode t)
  unfolding data_pass read_data_uart_raw survey_pass count_bytes
  data_pass-Fits s survey t v = elim (Option-cases t.completed) [
    | inl e ↦ rw (e, survey_pass) v
    | inr ((lat, lon, height), e) ↦
        rw (e, survey_pass) (save_and_transmit-Fits nvs zero_double s lat lon height t.now v)
  ]
  data_pass-Fits s transmit t v =
      let raw : Fits (feed_rinex s (until_empty t.raw_reads)) =
        subst (λ (r : Route). Laws.IsValid r.local_batch)
          (sym (feed_rinex-same (until_empty t.raw_reads) s)) v in
      ground (arith, raw, read_data_uart-Fits packets s t.data_reads t.now v)

  -- A pass of the task, whatever the receiver sends and whatever is asked of it, keeps the frames of the
  -- batch within its 1200 bytes and its twelve places.
  pub run_pass-Fits :
      (fuel : ℕ) (s : Station D Nvs packets.Queue actions.Queue) (t : Tick D)
      → Fits s
      → Fits (run_pass nvs zero_double actions packets fuel s t)
  unfolding run_pass read_command_uart
  run_pass-Fits fuel s t v =
      subst (λ (r : Route). Laws.IsValid r.local_batch) (sym (close_window-same passed t.now))
        (data_pass-Fits fed fed.flags.mode t (
          subst (λ (r : Route). Laws.IsValid r.local_batch)
            (sym (feed_survey-same (until_short t.command_reads) drained))
            (drain-Fits fuel (record s { heartbeat_us = t.started }) s.actions t.started v)))
    where
      drained : Station D Nvs packets.Queue actions.Queue
      drained =
          drain nvs zero_double actions fuel (record s { heartbeat_us = t.started }) s.actions
            t.started

      fed : Station D Nvs packets.Queue actions.Queue
      fed = feed_survey drained (until_short t.command_reads)

      passed : Station D Nvs packets.Queue actions.Queue
      passed = data_pass nvs zero_double actions packets fed fed.flags.mode t
