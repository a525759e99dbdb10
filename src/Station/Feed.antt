-- ===== src/Station/Feed.antt =====
-- The data path of `BaseStation`: the receiver's bytes through the parser to the casters.
use gps_base_station.Prelude.{
  ℕ, ◌+◌, ◌%◌, ◌^◌, List, [], ◌∷◌, Option, none, some, Bool, true, ◌||◌, ltb, ◌==◌, if◌then◌else◌,
  length,
}
use gps_base_station.Freertos.{QueueApi}
use gps_base_station.Rtcm.Parser.{k_max_rtcm_frame, feed_rtcm_byte}
use gps_base_station.Rtcm.Batch.{publish_to_batch, flush_due_batch}
use gps_base_station.Rtcm.Corrections.{
  Slot, publish_to_corrections, rtcm_message_number, flush_destination_if_due,
}
use gps_base_station.Rtcm.Corrections
use gps_base_station.Ntrip.Client.{Client}
use gps_base_station.Ntrip.Client
use gps_base_station.Caster
use gps_base_station.Station.{survey_feed, rinex_feed, Station, apply_stream_state, call}

-- The size of the read buffer.
abbrev pub k_read_bytes : ℕ
k_read_bytes = 256

-- The reads of a loop that ends behind the first read that does not fill the buffer. With no read left
-- the UART has nothing.
abbrev pub until_short {ℓ} : {A : Type ℓ} → List (List A) → List (List A)
until_short [] = []
until_short (c ∷ cs) =
    let rest = until_short cs in c ∷ (if length c == k_read_bytes then rest else [])

-- The reads of a loop that ends at the first read of nothing.
abbrev pub until_empty {ℓ} : {A : Type ℓ} → List (List A) → List (List A)
until_empty [] = []
until_empty (c ∷ cs) = let rest = until_empty cs in if length c == 0 then [] else c ∷ rest

module _ {D Nvs Queue Actions : Type 0} where
  -- Each read is one call.
  unfoldable pub feed_survey :
      Station D Nvs Queue Actions → List (List ℕ) → Station D Nvs Queue Actions
  feed_survey s [] = s
  feed_survey s (c ∷ cs) = feed_survey (if ltb 0 (length c) then call s (survey_feed c) else s) cs

  unfoldable pub read_command_uart :
      Station D Nvs Queue Actions → List (List ℕ) → Station D Nvs Queue Actions
  unfolding feed_survey
  read_command_uart s reads = feed_survey s (until_short reads)

  unfoldable pub feed_rinex :
      Station D Nvs Queue Actions → List (List ℕ) → Station D Nvs Queue Actions
  feed_rinex s [] = s
  feed_rinex s (c ∷ cs) = feed_rinex (call s (rinex_feed c)) cs

  unfoldable pub read_data_uart_raw :
      Station D Nvs Queue Actions → List (List ℕ) → Station D Nvs Queue Actions
  unfolding feed_rinex
  read_data_uart_raw s reads = feed_rinex s (until_empty reads)

  -- `has_rtcm_data_.exchange(true)`: the first frame lets the clients go.
  unfoldable pub note_rtcm : Station D Nvs Queue Actions → ℕ → Station D Nvs Queue Actions
  unfolding apply_stream_state
  note_rtcm s now =
      let s' : Station D Nvs Queue Actions = record s {
        flags = record s.flags { has_rtcm_data = true };
      } in
      if s.flags.has_rtcm_data then s' else apply_stream_state s' now

module _ (packets : QueueApi (List ℕ)) where
  open packets use {Queue}

  abbrev pub push_client : Client Queue → List ℕ → Client Queue × Bool
  push_client c f = Client.push packets c (some f)

module _ {D Nvs Actions : Type 0} (packets : QueueApi (List ℕ)) where
  open packets use {Queue}

  -- The frame behind the guards of `publish_rtcm_frame`.
  unfoldable pub distribute : Station D Nvs Queue Actions → List ℕ → ℕ → Station D Nvs Queue Actions
  unfolding publish_to_batch publish_to_corrections rtcm_message_number
  distribute s f now =
      let (batch, out) = publish_to_batch s.route.local_batch f now 0 in
      record s {
        outlets = record s.outlets { lan = Caster.push_all packets s.outlets.lan out };
        route = record s.route {
          local_batch = batch;
          slots = publish_to_corrections s.route.slots f (rtcm_message_number f) now;
          rtcm_total = (s.route.rtcm_total + length f) % 2 ^ 64;
        };
      }

  unfoldable pub publish_rtcm_frame :
      Station D Nvs Queue Actions → List ℕ → ℕ → Station D Nvs Queue Actions
  unfolding note_rtcm distribute
  publish_rtcm_frame s f now =
      if length f == 0 || ltb k_max_rtcm_frame (length f)
      then s
      else distribute (note_rtcm s now) f now

  unfoldable pub publish_completed :
      Station D Nvs Queue Actions → Option (List ℕ) → ℕ → Station D Nvs Queue Actions
  unfolding publish_rtcm_frame
  publish_completed s none now = s
  publish_completed s (some f) now = publish_rtcm_frame s f now

  -- `feed_rtcm_byte`, with the publication of the frame that the byte completes.
  unfoldable pub feed_byte : Station D Nvs Queue Actions → ℕ → ℕ → Station D Nvs Queue Actions
  unfolding feed_rtcm_byte publish_completed
  feed_byte s byte now =
      let (p, out) = feed_rtcm_byte s.route.parser byte in
      publish_completed (record s { route = record s.route { parser = p } }) out now

  -- A read: its bytes, each with the time at which it is fed.
  unfoldable pub feed_bytes :
      Station D Nvs Queue Actions → List (ℕ × ℕ) → Station D Nvs Queue Actions
  unfolding feed_byte
  feed_bytes s [] = s
  feed_bytes s ((byte, now) ∷ bytes) = feed_bytes (feed_byte s byte now) bytes

  unfoldable pub feed_reads :
      Station D Nvs Queue Actions → List (List (ℕ × ℕ)) → Station D Nvs Queue Actions
  unfolding feed_bytes
  feed_reads s [] = s
  feed_reads s (c ∷ cs) = feed_reads (feed_bytes s c) cs

  -- The call of `flush_due_batch` at the end of `read_data_uart`.
  unfoldable pub flush_lan : Station D Nvs Queue Actions → ℕ → Station D Nvs Queue Actions
  unfolding flush_due_batch
  flush_lan s now =
      let (batch, out) = flush_due_batch s.route.local_batch now in
      record s {
        outlets = record s.outlets { lan = Caster.push_all packets s.outlets.lan out };
        route = record s.route { local_batch = batch };
      }

  unfoldable pub flush_due_corrections :
      Station D Nvs Queue Actions → ℕ → Station D Nvs Queue Actions
  unfolding flush_destination_if_due
  flush_due_corrections s now =
      let (rtk2go, slots1, times1) =
        flush_destination_if_due (push_client packets) Corrections.rtk2go now s.outlets.rtk2go
          s.route.slots s.route.push_next_flush_us in
      let (onocoy, slots2, times2) =
        flush_destination_if_due (push_client packets) Corrections.onocoy now s.outlets.onocoy
          slots1 times1 in
      let (rtkdata, slots3, times3) =
        flush_destination_if_due (push_client packets) Corrections.rtkdata now s.outlets.rtkdata
          slots2 times2 in
      record s {
        outlets = record s.outlets { rtk2go = rtk2go; onocoy = onocoy; rtkdata = rtkdata };
        route = record s.route { slots = slots3; push_next_flush_us = times3 };
      }

  unfoldable pub read_data_uart :
      Station D Nvs Queue Actions → List (List (ℕ × ℕ)) → ℕ → Station D Nvs Queue Actions
  unfolding feed_reads flush_lan flush_due_corrections
  read_data_uart s reads now =
      flush_due_corrections (flush_lan (feed_reads s (until_short reads)) now) now
