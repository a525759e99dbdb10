-- ===== src/Station.antt =====
-- `BaseStation` of main/base_station.hpp: the state machine that decides which streams run. `D` stands
-- for `double`; the calls of the receiver, the survey and the RINEX logger are kept as a record of calls.
pub mod Modes
pub mod Feed
pub mod Loop
pub mod Start
pub mod Streams
pub mod Gates
pub mod Switches
pub mod Reach
pub mod Actions
pub mod Rate
pub mod Memory
mod Tests
use gps_base_station.Prelude.{
  ℕ, ◌+◌, List, [], ◌∷◌, Option, none, some, Bool, true, false, not, ◌&&◌, ◌||◌, if◌then◌else◌,
  codes,
}
use gps_base_station.Freertos.{QueueApi}
use gps_base_station.Nvs.{NvsApi}
use gps_base_station.Storage.{
  Storage, ServiceCredentials, load_service, service_enabled, ntrip_streams_enabled,
  set_ntrip_streams_enabled,
}
use gps_base_station.Rtcm.Parser.{Parser}
use gps_base_station.Rtcm.Batch.{Batch}
use gps_base_station.Rtcm.Corrections.{Slot}
use gps_base_station.Ntrip.Client.{Client}
use gps_base_station.Ntrip.Client
use gps_base_station.Caster.{Caster}
use gps_base_station.Caster

pub data BaseMode : Type 0 where
  survey transmit : BaseMode

abbrev pub is_transmit : BaseMode → Bool
is_transmit survey = false
is_transmit transmit = true

-- `Action`.
pub data Action (D : Type 0) : Type 0 where
  k_survey k_start_raw k_stop_raw k_reset_um980 : Action D
  k_position : D → D → D → Action D

-- A call of `receiver_`, `survey_`, `rinex_logger_` or `uart_flush_input(data_uart_)`.
pub data Call (D : Type 0) : Type 0 where
  flush_data_uart configure_survey_output configure_raw_output configure_signal_group survey_start
        survey_reset rinex_stop :
      Call D
  configure_base : D → D → D → List ℕ → Call D
  rinex_start : D → D → D → List ℕ → List ℕ → D → Call D
  survey_feed rinex_feed : List ℕ → Call D

-- The atomics that decide whether the streams run.
pub record Flags : Type 0 where
  pub mode : BaseMode
  pub transient_streams_suspended : Bool
  pub user_streams_enabled : Bool
  pub network_available : Bool
  pub has_rtcm_data : Bool
  pub outbound_rate_ready : Bool
  pub raw_collection : Bool

pub record Outlets (Queue : Type 0) : Type 0 where
  pub lan : Caster Queue
  pub rtk2go : Client Queue
  pub onocoy : Client Queue
  pub rtkdata : Client Queue

-- The RTCM path, and `rtcm_total_`.
pub record Route : Type 0 where
  pub parser : Parser
  pub local_batch : Batch
  pub slots : List Slot
  pub push_next_flush_us : List ℕ
  pub rtcm_total : ℕ

-- `rtcm_bps_`, and the locals `rate_started` and `rate_bytes` of `run`.
pub record Meter : Type 0 where
  pub rtcm_bps : ℕ
  pub rate_started : ℕ
  pub rate_bytes : ℕ

-- `calls` has the last one first.
pub record Station (D Nvs Queue Actions : Type 0) : Type 0 where
  pub storage : Storage Nvs
  pub flags : Flags
  pub outlets : Outlets Queue
  pub route : Route
  pub meter : Meter
  pub actions : Option Actions
  pub stopping : Bool
  pub heartbeat_us : ℕ
  pub calls : List (Call D)

unfoldable pub effective_streams_suspended : Flags → Bool
effective_streams_suspended f =
    f.transient_streams_suspended
    || (not f.user_streams_enabled
        || (not (is_transmit f.mode) || (not f.has_rtcm_data || f.raw_collection)))

unfoldable pub effective_outbound_streams_suspended : Flags → Bool
unfolding effective_streams_suspended
effective_outbound_streams_suspended f =
    effective_streams_suspended f || (not f.network_available || not f.outbound_rate_ready)

module _ {Queue : Type 0} where
  -- The calls are made at the time `now`.
  unfoldable pub apply_to : Flags → Outlets Queue → ℕ → Outlets Queue
  unfolding effective_streams_suspended effective_outbound_streams_suspended
  apply_to f o now =
      let outbound_suspended = effective_outbound_streams_suspended f in
      record {
        lan = Caster.set_suspended o.lan (effective_streams_suspended f);
        rtk2go = Client.set_suspended o.rtk2go outbound_suspended now;
        onocoy = Client.set_suspended o.onocoy outbound_suspended now;
        rtkdata = Client.set_suspended o.rtkdata outbound_suspended now;
      }

module _ {D Nvs Queue Actions : Type 0} where
  unfoldable pub apply_stream_state : Station D Nvs Queue Actions → ℕ → Station D Nvs Queue Actions
  unfolding apply_to
  apply_stream_state s now = record s { outlets = apply_to s.flags s.outlets now }

  abbrev pub call : Station D Nvs Queue Actions → Call D → Station D Nvs Queue Actions
  call s c = record s { calls = c ∷ s.calls }

  unfoldable pub set_streams_suspended :
      Station D Nvs Queue Actions → Bool → ℕ → Station D Nvs Queue Actions
  unfolding apply_stream_state
  set_streams_suspended s suspended now =
      apply_stream_state
        (record s { flags = record s.flags { transient_streams_suspended = suspended } }) now

  -- `network_available_.exchange(available)`.
  unfoldable pub set_network_available :
      Station D Nvs Queue Actions → Bool → ℕ → Station D Nvs Queue Actions
  unfolding apply_stream_state
  set_network_available s available now =
      let s' : Station D Nvs Queue Actions = record s {
        flags = record s.flags { network_available = available };
      } in
      let changed =
        (available && not s.flags.network_available)
        || (not available && s.flags.network_available) in
      if changed then apply_stream_state s' now else s'

module _ {D Queue : Type 0} (nvs : NvsApi D) (zero_double : D) where
  open nvs use {Nvs}

  -- A service, configured from what is stored.
  unfoldable pub configure_service : Storage Nvs → List ℕ → Client Queue → Client Queue
  configure_service st service c =
      let credentials = load_service nvs zero_double st service in
      Client.configure c (service_enabled nvs zero_double st service true) credentials.mountpoint
        credentials.password

module _ {D Queue Actions : Type 0} (nvs : NvsApi D) (zero_double : D) where
  open nvs use {Nvs}

  unfoldable pub set_streams_enabled :
      Station D Nvs Queue Actions → Bool → ℕ → Station D Nvs Queue Actions
  unfolding apply_stream_state
  set_streams_enabled s enabled now =
      apply_stream_state
        (record s {
          storage = (set_ntrip_streams_enabled nvs zero_double s.storage enabled).0;
          flags = record s.flags { user_streams_enabled = enabled };
        })
        now

  unfoldable pub apply_persisted_streams :
      Station D Nvs Queue Actions → ℕ → Station D Nvs Queue Actions
  unfolding apply_stream_state
  apply_persisted_streams s now =
      apply_stream_state
        (record s {
          flags = record s.flags {
            user_streams_enabled = ntrip_streams_enabled nvs zero_double s.storage true;
            transient_streams_suspended = false;
          };
        })
        now

  unfoldable pub reload_services : Station D Nvs Queue Actions → ℕ → Station D Nvs Queue Actions
  unfolding configure_service apply_stream_state
  reload_services s now =
      apply_stream_state
        (record s {
          outlets = record s.outlets {
            rtk2go = configure_service nvs zero_double s.storage (codes "rtk2go") s.outlets.rtk2go;
            onocoy = configure_service nvs zero_double s.storage (codes "onocoy") s.outlets.onocoy;
            rtkdata =
                configure_service nvs zero_double s.storage (codes "rtkdata") s.outlets.rtkdata;
          };
        })
        now
