-- ===== src/Station/Loop.antt =====
-- The task of `BaseStation`: one pass of the loop of `run`, and the requests that other tasks queue.
use gps_base_station.Prelude.{
  ℕ, zero, suc, ◌+◌, ◌-◌, ◌*◌, ◌/◌, ◌%◌, ◌^◌, List, Option, none, some, Bool, true, false, ◌&&◌,
  ltb, leb, if◌then◌else◌,
}
use gps_base_station.Freertos.{QueueApi}
use gps_base_station.Nvs.{NvsApi}
use gps_base_station.Storage.{load_position, rinex_collection_enabled, set_rinex_collection_enabled}
use gps_base_station.Station.{
  BaseMode, survey, transmit, Action, k_start_raw, k_stop_raw, Meter, Station, apply_stream_state,
}
use gps_base_station.Station.Modes.{enter_survey, enter_transmit, save_and_transmit, handle_action}
use gps_base_station.Station.Feed.{read_command_uart, read_data_uart_raw, read_data_uart}

abbrev pub k_min_outbound_rtcm_bps : ℕ
k_min_outbound_rtcm_bps = 900

-- What a pass meets: the time of the heartbeat, the reads of the two UARTs, the position that the survey
-- completed, and the time at the end.
pub record Tick (D : Type 0) : Type 0 where
  pub started : ℕ
  pub command_reads : List (List ℕ)
  pub data_reads : List (List (ℕ × ℕ))
  pub raw_reads : List (List ℕ)
  pub completed : Option (D × D × D)
  pub now : ℕ

-- `healthy`, with the time of day `now`.
unfoldable pub healthy : {D Nvs Queue Actions : Type 0} → Station D Nvs Queue Actions → ℕ → Bool
healthy s now = ltb 0 s.heartbeat_us && ltb (now - s.heartbeat_us) 2000000

-- The rate of the second that ended.
unfoldable pub rate : Meter → ℕ → ℕ
rate m now = m.rate_bytes * 1000000 / (now - m.rate_started) % 2 ^ 32

module _ {D Nvs Queue Actions : Type 0} where
  -- `outbound_rate_ready_.exchange(true)`, behind the test of the rate.
  unfoldable pub latch_ready : Station D Nvs Queue Actions → ℕ → Station D Nvs Queue Actions
  unfolding apply_stream_state
  latch_ready s now =
      let s' : Station D Nvs Queue Actions = record s {
        flags = record s.flags { outbound_rate_ready = true };
      } in
      if leb k_min_outbound_rtcm_bps s.meter.rtcm_bps
      then if s.flags.outbound_rate_ready then s' else apply_stream_state s' now
      else s

  unfoldable pub close_window : Station D Nvs Queue Actions → ℕ → Station D Nvs Queue Actions
  unfolding rate latch_ready
  close_window s now =
      let m : Meter = record { rtcm_bps = rate s.meter now; rate_started = now; rate_bytes = 0 } in
      if leb 1000000 (now - s.meter.rate_started)
      then latch_ready (record s { meter = m }) now
      else s

  -- `rate_bytes += rtcm_total_ - before`.
  unfoldable pub count_bytes : Station D Nvs Queue Actions → ℕ → Station D Nvs Queue Actions
  count_bytes s before = record s {
    meter = record s.meter {
      rate_bytes = (s.meter.rate_bytes + (s.route.rtcm_total + 2 ^ 64 - before)) % 2 ^ 32;
    };
  }

module _ {D Nvs Queue : Type 0} (actions : QueueApi (Action D)) where
  -- A request of another task: `none` stands for `ESP_ERR_INVALID_STATE`, `some false` for
  -- `ESP_ERR_TIMEOUT`.
  unfoldable pub enqueue :
      Station D Nvs Queue actions.Queue
      → Action D
      → Option actions.Queue
      → Station D Nvs Queue actions.Queue × Option Bool
  enqueue s a none = (s, none)
  enqueue s a (some q) =
      let (q', sent) = actions.send q a in (record s { actions = some q' }, some sent)

  -- `request_survey`, `request_um980_reset` and `request_position`.
  unfoldable pub request :
      Station D Nvs Queue actions.Queue → Action D → Station D Nvs Queue actions.Queue × Option Bool
  unfolding enqueue
  request s a = enqueue s a s.actions

module _ {D Queue : Type 0} (nvs : NvsApi D) (zero_double : D) (actions : QueueApi (Action D)) where
  open nvs use {Nvs}

  -- The intent is stored, if there is a queue.
  unfoldable pub store_intent :
      Station D Nvs Queue actions.Queue
      → Bool
      → Option actions.Queue
      → Station D Nvs Queue actions.Queue
  store_intent s enable none = s
  store_intent s enable (some q) = record s {
    storage = (set_rinex_collection_enabled nvs zero_double s.storage enable).0;
  }

  unfoldable pub request_raw_collection :
      Station D Nvs Queue actions.Queue → Bool → Station D Nvs Queue actions.Queue × Option Bool
  unfolding store_intent request
  request_raw_collection s enable =
      request actions (store_intent s enable s.actions) (if enable then k_start_raw else k_stop_raw)

  unfoldable pub resume_persisted_rinex :
      Station D Nvs Queue actions.Queue → Station D Nvs Queue actions.Queue
  unfolding request
  resume_persisted_rinex s =
      if rinex_collection_enabled nvs zero_double s.storage false
      then (request actions s k_start_raw).0
      else s

  -- The loop over `xQueueReceive`, for at most `fuel` actions.
  unfoldable pub drain :
      ℕ
      → Station D Nvs Queue actions.Queue
      → Option actions.Queue
      → ℕ
      → Station D Nvs Queue actions.Queue
  unfolding handle_action
  drain zero s queue now = record s { actions = queue }
  drain (suc fuel) s none now = record s { actions = none }
  drain (suc fuel) s (some q) now =
      let (q', got) = actions.receive q in
      elim got [
        | none ↦ record s { actions = some q' }
        | some a ↦ drain fuel (handle_action nvs zero_double s a now) (some q') now
      ]

module _ {D : Type 0} (nvs : NvsApi D) (zero_double : D) (actions : QueueApi (Action D))
    (packets : QueueApi (List ℕ)) where
  open nvs use {Nvs}

  -- The survey, with what it completed.
  unfoldable pub survey_pass :
      Station D Nvs packets.Queue actions.Queue
      → Option (D × D × D)
      → ℕ
      → Station D Nvs packets.Queue actions.Queue
  unfolding save_and_transmit
  survey_pass s none now = s
  survey_pass s (some (lat, lon, height)) now =
      save_and_transmit nvs zero_double s lat lon height now

  unfoldable pub data_pass :
      Station D Nvs packets.Queue actions.Queue
      → BaseMode
      → Tick D
      → Station D Nvs packets.Queue actions.Queue
  unfolding survey_pass read_data_uart_raw read_data_uart count_bytes
  data_pass s survey t = survey_pass s t.completed t.now
  data_pass s transmit t =
      if s.flags.raw_collection
      then read_data_uart_raw s t.raw_reads
      else count_bytes (read_data_uart packets s t.data_reads t.now) s.route.rtcm_total

  unfoldable pub run_pass :
      ℕ
      → Station D Nvs packets.Queue actions.Queue
      → Tick D
      → Station D Nvs packets.Queue actions.Queue
  unfolding drain read_command_uart data_pass close_window
  run_pass fuel s t =
      let s1 =
        drain nvs zero_double actions fuel (record s { heartbeat_us = t.started }) s.actions
          t.started in
      let s2 = read_command_uart s1 t.command_reads in
      close_window (data_pass s2 s2.flags.mode t) t.now

  -- What `run` does before its loop, at the time `now`.
  unfoldable pub begin :
      Station D Nvs packets.Queue actions.Queue → ℕ → Station D Nvs packets.Queue actions.Queue
  unfolding enter_survey enter_transmit
  begin s now =
      let pos = load_position nvs zero_double s.storage in
      let s' =
        if pos.valid
        then enter_transmit nvs zero_double s pos.lat pos.lon pos.height now
        else enter_survey nvs zero_double s false now in
      record s' { meter = record s'.meter { rate_started = now; rate_bytes = 0 } }
