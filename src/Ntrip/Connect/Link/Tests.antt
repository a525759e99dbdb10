-- ===== src/Ntrip/Connect/Link/Tests.antt =====
-- A handshake that is written in one call and accepted.
use gps_base_station.Prelude.{
  ℕ, ◌≡◌, refl, List, [], ◌∷◌, none, some, true, false, arith, length, codes,
}
use gps_base_station.Ntrip.Client.{Client, v1, waiting, no_fault, connected_with}
use gps_base_station.Ntrip.Send.{accepted, send_all}
use gps_base_station.Ntrip.Connect.{Dial, request, connect_caster, connect_socket, answer, accepts}
use gps_base_station.Ntrip.Connect.Link.{Linked, connect_caster_lem}

abbrev down_client : Client ℕ
down_client = record {
  protocol = v1;
  connect_stagger_ms = 0;
  queue = none;
  stopping = false;
  suspended = false;
  reconnect = false;
  connected = false;
  bytes_sent = 100;
  dropped_batches = 0;
  reconnects = 0;
  ever_connected = false;
  connected_since_us = 0;
  last_send_us = 0;
  resumed_us = 0;
  enabled = true;
  mountpoint = 65 ∷ [];
  password = 66 ∷ [];
  message = waiting;
  last_error = no_fault;
  socket = none;
  cached_addr = some 9;
}

abbrev no_base64 : List ℕ → List ℕ
no_base64 x = x

request_length : length (request [] [] no_base64 down_client) ≡ 57
unfolding request
request_length = refl

abbrev good_dial : Dial
good_dial = record {
  resolved = none;
  opened = some 4;
  connecting = true;
  came_up = true;
  handshake = record { suspended = false; stopping = false; call = accepted 56 } ∷ [];
  response = codes "ICY 200 OK";
}

-- The counter of the sent payload goes up by the 57 bytes of the request.
connected_client :
    (connect_caster [] [] no_base64 down_client good_dial 5)
    ≡ some (
      record down_client {
        bytes_sent = 157;
        connected = true;
        ever_connected = true;
        connected_since_us = 5;
        message = connected_with v1;
        socket = some 4;
      },
      true,
    )
unfolding connect_caster connect_socket answer accepts request send_all
connected_client = refl

connect_caster_lem_example : Linked [] [] no_base64 down_client good_dial (
  record down_client {
    bytes_sent = 157;
    connected = true;
    ever_connected = true;
    connected_since_us = 5;
    message = connected_with v1;
    socket = some 4;
  },
  true,
)
unfolding request
connect_caster_lem_example =
    connect_caster_lem [] [] no_base64 down_client good_dial 5 (refl, refl) (omega arith)
      connected_client
