-- ===== src/Ntrip/Client/Tests.antt =====
-- A client whose queue holds two packets.
use gps_base_station.Prelude.{ℕ, ◌≡◌, ◌⊎◌, refl, List, [], ◌∷◌, some, true, false, arith}
use gps_base_station.Freertos.Reference.{Bounded, bounded_list}
use gps_base_station.Ntrip.Client.{Client, v1, waiting, no_fault, push}
use gps_base_station.Ntrip.Client.Queueing.{Queued, push_lem}

abbrev two_packets : Bounded (List ℕ)
two_packets = record { stored = (1 ∷ []) ∷ (2 ∷ []) ∷ []; limit = 2 }

abbrev busy_client : Client (Bounded (List ℕ))
busy_client = record {
  protocol = v1;
  connect_stagger_ms = 0;
  queue = some two_packets;
  stopping = false;
  suspended = false;
  reconnect = false;
  connected = true;
  bytes_sent = 0;
  dropped_batches = 0;
  reconnects = 0;
  ever_connected = true;
  connected_since_us = 1;
  last_send_us = 0;
  resumed_us = 0;
  enabled = true;
  mountpoint = 65 ∷ [];
  password = [];
  message = waiting;
  last_error = no_fault;
  socket = some 3;
  cached_addr = some 9;
}

push_drops_oldest :
    (push (bounded_list (List ℕ)) busy_client (some (7 ∷ []))).0 ≡ record busy_client {
      queue = some (record { stored = (2 ∷ []) ∷ (7 ∷ []) ∷ []; limit = 2 });
      dropped_batches = 1;
    }
unfolding push
push_drops_oldest = refl

push_lem_example :
    let (c', taken) = push (bounded_list (List ℕ)) busy_client (some (7 ∷ [])) in
    (taken ≡ true)
    × (((taken ≡ false) × (c' ≡ busy_client))
        ⊎ ((taken ≡ true)
            × Queued (bounded_list (List ℕ)) busy_client c' ((2 ∷ []) ∷ (7 ∷ []) ∷ []) 1))
push_lem_example =
    push_lem (bounded_list (List ℕ)) busy_client two_packets (7 ∷ []) refl (omega arith)
      (omega arith)
