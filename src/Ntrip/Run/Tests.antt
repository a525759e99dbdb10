-- ===== src/Ntrip/Run/Tests.antt =====
-- A third failure in a row, and a write that fails.
use gps_base_station.Prelude.{ℕ, List, [], ◌∷◌, none, some, true, false}
use gps_base_station.Freertos.Reference.{Bounded}
use gps_base_station.Ntrip.Client.{Client, v1, waiting, no_fault, fault, connect_failed}
use gps_base_station.Ntrip.Run.{Streak, Pass}

abbrev no_base64 : List ℕ → List ℕ
no_base64 x = x

abbrev idle_client : Client (Bounded (List ℕ))
idle_client = record {
  protocol = v1;
  connect_stagger_ms = 0;
  queue = some (record { stored = []; limit = 8 });
  stopping = false;
  suspended = false;
  reconnect = false;
  connected = false;
  bytes_sent = 0;
  dropped_batches = 0;
  reconnects = 0;
  ever_connected = false;
  connected_since_us = 0;
  last_send_us = 0;
  resumed_us = 0;
  enabled = true;
  mountpoint = 65 ∷ [];
  password = [];
  message = waiting;
  last_error = no_fault;
  socket = none;
  cached_addr = some 9;
}

abbrev no_route : Pass
no_route = record {
  now = 100;
  dial = record {
    resolved = none;
    opened = some 4;
    connecting = true;
    came_up = false;
    handshake = [];
    response = [];
  };
  dialled_at = 200;
  random = 7;
  rounds = [];
  sent_at = 300;
}

abbrev two_failures : Streak
two_failures = record { failures = 2; healthy_since_us = 50 }

abbrev third_failure : Client (Bounded (List ℕ)) × Streak × ℕ
third_failure = (
  record idle_client {
    message = fault connect_failed;
    last_error = connect_failed;
    cached_addr = none;
  },
  record { failures = 3; healthy_since_us = 0 },
  40007,
)
