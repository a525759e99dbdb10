-- ===== src/Station/Tests.antt =====
-- Runs of a station whose `double`s are numbers.
use gps_base_station.Prelude.{
  ℕ, ◌≡◌, ◌⊎◌, inl, refl, List, [], ◌∷◌, none, some, Bool, true, false, arith, replicate,
  length-replicate, codes,
}
use gps_base_station.Freertos.Reference.{Bounded, bounded_list}
use gps_base_station.Nvs.{u8, blob}
use gps_base_station.Nvs.Reference.{Flash, flash}
use gps_base_station.Storage.{load_position}
use gps_base_station.Ntrip.Client.{Client, v1, waiting, no_fault}
use gps_base_station.Caster.{empty_place}
use gps_base_station.Station.{
  Action, k_survey, k_stop_raw, survey, transmit, Flags, Outlets, Station, set_streams_suspended,
  effective_streams_suspended, effective_outbound_streams_suspended,
}
use gps_base_station.Station.Modes.{reset_um980}
use gps_base_station.Station.Loop.{Tick, run_pass, begin, drain, rate, close_window}
use gps_base_station.Station.Streams.{IsValid}
use gps_base_station.Station.Reach.{began, then_, hold, Reachable-IsValid, Allowed, sending-Allowed}
use gps_base_station.Station.Actions.{Drained, drain_lem}
use gps_base_station.Station.Start.{Spawned, start, Ready, start_lem}
use gps_base_station.Station.Memory.{Fits, run_pass-Fits}
use gps_base_station.Station.Rate.{close_window-reset_um980}

abbrev test_client : Bool → Client (Bounded (List ℕ))
test_client suspended = record {
  protocol = v1;
  connect_stagger_ms = 0;
  queue = some (record { stored = []; limit = 8 });
  stopping = false;
  suspended = suspended;
  reconnect = false;
  connected = false;
  bytes_sent = 0;
  dropped_batches = 0;
  reconnects = 0;
  ever_connected = false;
  connected_since_us = 0;
  last_send_us = 0;
  resumed_us = 0;
  enabled = true;
  mountpoint = 65 ∷ [];
  password = [];
  message = waiting;
  last_error = no_fault;
  socket = none;
  cached_addr = none;
}

abbrev test_outlets : Bool → Outlets (Bounded (List ℕ))
test_outlets suspended = record {
  lan = record {
    queue = some (record { stored = []; limit = 16 });
    stopping = false;
    suspended = suspended;
    reset_clients = false;
    client_count = 0;
    places = replicate 8 empty_place;
    listener = none;
  };
  rtk2go = test_client suspended;
  onocoy = test_client suspended;
  rtkdata = test_client suspended;
}

abbrev test_station : Flags → Bool → Station ℕ (Flash ℕ) (Bounded (List ℕ)) (Bounded (Action ℕ))
test_station flags suspended = record {
  storage = record {
    nvs = record { entries = (codes "pos_valid", u8 1) ∷ (codes "lat", blob 52) ∷ []; budget = 9 };
    is_open = true;
  };
  flags = flags;
  outlets = test_outlets suspended;
  route = record {
    parser = record { frame = []; len = 0; expected = 0 };
    local_batch = record {
      bytes = [];
      len = 0;
      next_flush_us = 0;
      frame_ends = [];
      frame_count = 0;
    };
    slots = [];
    push_next_flush_us = 0 ∷ 0 ∷ 0 ∷ [];
    rtcm_total = 0;
  };
  meter = record { rtcm_bps = 0; rate_started = 10; rate_bytes = 2500 };
  actions = some (record { stored = k_survey ∷ k_stop_raw ∷ []; limit = 4 });
  stopping = false;
  heartbeat_us = 0;
  calls = [];
}

abbrev boot_flags : Flags
boot_flags = record {
  mode = survey;
  transient_streams_suspended = true;
  user_streams_enabled = true;
  network_available = false;
  has_rtcm_data = false;
  outbound_rate_ready = false;
  raw_collection = false;
}

abbrev sending_flags : Flags
sending_flags = record {
  mode = transmit;
  transient_streams_suspended = false;
  user_streams_enabled = true;
  network_available = true;
  has_rtcm_data = true;
  outbound_rate_ready = true;
  raw_collection = false;
}

abbrev boot : Station ℕ (Flash ℕ) (Bounded (List ℕ)) (Bounded (Action ℕ))
boot = test_station boot_flags true

abbrev sending : Station ℕ (Flash ℕ) (Bounded (List ℕ)) (Bounded (Action ℕ))
sending = test_station sending_flags false

boot-IsValid : IsValid boot
unfolding effective_streams_suspended effective_outbound_streams_suspended
boot-IsValid = record { in_step = (refl, refl, refl, refl); raw_mode = inl refl; logged = refl }

sending-IsValid : IsValid sending
unfolding effective_streams_suspended effective_outbound_streams_suspended
sending-IsValid = record { in_step = (refl, refl, refl, refl); raw_mode = inl refl; logged = refl }

abbrev begun : Station ℕ (Flash ℕ) (Bounded (List ℕ)) (Bounded (Action ℕ))
begun = begin (flash ℕ) 0 (bounded_list (Action ℕ)) (bounded_list (List ℕ)) boot 5

-- A stored position takes the station into base transmission at once.
begun_transmit : begun.flags.mode ≡ transmit
unfolding begin load_position
begun_transmit = refl

Reachable-IsValid_example : IsValid (set_streams_suspended begun false 9)
Reachable-IsValid_example =
    Reachable-IsValid (flash ℕ) 0 (bounded_list (Action ℕ)) (bounded_list (List ℕ))
      (set_streams_suspended begun false 9)
      (then_ begun (set_streams_suspended begun false 9) (began boot 5 boot-IsValid refl)
        (hold false 9))

sending-Allowed_example :
    Allowed (flash ℕ) 0 (bounded_list (Action ℕ)) (bounded_list (List ℕ)) sending_flags
sending-Allowed_example =
    sending-Allowed (flash ℕ) 0 (bounded_list (Action ℕ)) (bounded_list (List ℕ)) sending
      sending-IsValid (inl refl)

drain_lem_example :
    Drained
      (flash ℕ)
      0
      (bounded_list (Action ℕ))
      boot
      (drain
        (flash ℕ)
        0
        (bounded_list (Action ℕ))
        4
        boot
        (some (record { stored = k_survey ∷ k_stop_raw ∷ []; limit = 4 }))
        7)
      (k_survey ∷ k_stop_raw ∷ [])
      7
drain_lem_example =
    drain_lem (flash ℕ) 0 (bounded_list (Action ℕ)) 4 boot
      (record { stored = k_survey ∷ k_stop_raw ∷ []; limit = 4 }) 7 (omega arith)

sending_rate : rate sending.meter 1000010 ≡ 2500
unfolding rate
sending_rate = refl

close_window-reset_um980_example :
    ((reset_um980 (flash ℕ) 0 sending 1000000).flags.outbound_rate_ready ≡ false)
    × ((reset_um980 (flash ℕ) 0 sending 1000000).flags.has_rtcm_data ≡ false)
    × ((close_window (reset_um980 (flash ℕ) 0 sending 1000000) 1000010).flags.outbound_rate_ready
        ≡ true)
close_window-reset_um980_example =
    close_window-reset_um980 (flash ℕ) 0 sending 1000000 1000010 refl refl (omega arith)
      (omega (arith, sending_rate))

-- The task of Onocoy's client cannot be made.
abbrev short_of_memory : Spawned
short_of_memory = record {
  actions_created = true;
  rtk2go_created = true;
  rtk2go_spawned = true;
  onocoy_created = true;
  onocoy_spawned = false;
  rtkdata_created = true;
  rtkdata_spawned = true;
  lan_created = true;
  lan_spawned = true;
  task_spawned = true;
}

abbrev failed_start : Station ℕ (Flash ℕ) (Bounded (List ℕ)) (Bounded (Action ℕ)) × Bool
failed_start =
    start (flash ℕ) 0 (bounded_list (Action ℕ)) (bounded_list (List ℕ)) boot short_of_memory

start_lem_example :
    ((failed_start.1 ≡ true)
      × (failed_start.0.actions ≡ some (record { stored = []; limit = 4 }))
      × (failed_start.0.flags.transient_streams_suspended ≡ true)
      × Ready (flash ℕ) 0 (bounded_list (Action ℕ)) (bounded_list (List ℕ)) failed_start.0)
    ⊎ ((failed_start.1 ≡ false) × (failed_start.0.actions ≡ none))
start_lem_example =
    start_lem (flash ℕ) 0 (bounded_list (Action ℕ)) (bounded_list (List ℕ)) boot short_of_memory

-- The station with the batch that the program starts with.
abbrev fitted : Station ℕ (Flash ℕ) (Bounded (List ℕ)) (Bounded (Action ℕ))
fitted = record sending {
  route = record sending.route {
    local_batch = record {
      bytes = replicate 1200 0;
      len = 0;
      next_flush_us = 0;
      frame_ends = replicate 12 0;
      frame_count = 0;
    };
  };
}

fitted-Fits : Fits fitted
fitted-Fits = record {
  room = length-replicate {A = ℕ} 1200 0;
  places = refl;
  within = omega arith;
  counted = omega arith;
  chain = refl;
}

abbrev busy_tick : Tick ℕ
busy_tick = record {
  started = 100;
  command_reads = (36 ∷ 71 ∷ []) ∷ [];
  data_reads = ((0xD3, 101) ∷ (0, 102) ∷ (2, 103) ∷ []) ∷ [];
  raw_reads = [];
  completed = none;
  now = 900;
}

run_pass-Fits_example :
    Fits (run_pass (flash ℕ) 0 (bounded_list (Action ℕ)) (bounded_list (List ℕ)) 4 fitted busy_tick)
run_pass-Fits_example =
    run_pass-Fits (flash ℕ) 0 (bounded_list (Action ℕ)) (bounded_list (List ℕ)) 4 fitted busy_tick
      fitted-Fits
