-- ===== src/Ntrip/Client.antt =====
-- `NtripPushClient` of main/ntrip_push.hpp: its state, and the operations that other tasks call. The
-- texts of `message_` and `last_error_` are told by what they say.
pub mod Queueing
mod Tests
use gps_base_station.Prelude.{
  ℕ, ◌+◌, ◌-◌, ◌*◌, ◌/◌, ◌%◌, ◌^◌, min, List, [], ◌∷◌, ◌++◌, Option, none, some, Bool, true, false,
  not, ◌&&◌, ◌||◌, ltb, leb, ◌==◌, if◌then◌else◌, length, take,
}
use gps_base_station.Freertos.{QueueApi}
use gps_base_station.Ntrip.Send.{Reason}

abbrev pub k_max_packet : ℕ
k_max_packet = 1200

abbrev pub k_queue_depth : ℕ
k_queue_depth = 8

pub data Protocol : Type 0 where
  v1 v2 : Protocol

-- A failure that is kept in `last_error_`; `rejected` has the caster's answer.
pub data Fault : Type 0 where
  no_fault connect_failed empty_response : Fault
  handshake_failed write_failed : Reason → Fault
  rejected : List ℕ → Fault

pub data Message : Type 0 where
  disabled waiting suspended_ waiting_to_connect connecting waiting_to_reconnect : Message
  connected_with : Protocol → Message
  fault : Fault → Message

pub record Client (Queue : Type 0) : Type 0 where
  pub protocol : Protocol
  pub connect_stagger_ms : ℕ
  pub queue : Option Queue
  pub stopping : Bool
  pub suspended : Bool
  pub reconnect : Bool
  pub connected : Bool
  pub bytes_sent : ℕ
  pub dropped_batches : ℕ
  pub reconnects : ℕ
  pub ever_connected : Bool
  pub connected_since_us : ℕ
  pub last_send_us : ℕ
  pub resumed_us : ℕ
  pub enabled : Bool
  pub mountpoint : List ℕ
  pub password : List ℕ
  pub message : Message
  pub last_error : Fault
  pub socket : Option ℕ
  pub cached_addr : Option ℕ

-- A `uint32_t` counter.
abbrev pub bump32 : ℕ → ℕ
bump32 n = (n + 1) % 2 ^ 32

abbrev pub is_empty {ℓ} : {A : Type ℓ} → List A → Bool
is_empty [] = true
is_empty (x ∷ xs) = false

module _ {Queue : Type 0} where
  unfoldable pub configure : Client Queue → Bool → List ℕ → List ℕ → Client Queue
  configure c enabled mountpoint password =
      let on = enabled && not (is_empty mountpoint) in
      record c {
        enabled = on;
        mountpoint = mountpoint;
        password = password;
        message = if on then waiting else disabled;
        reconnect = true;
      }

  -- `now` is `esp_timer_get_time()`.
  unfoldable pub set_suspended : Client Queue → Bool → ℕ → Client Queue
  set_suspended c suspended now =
      if suspended
      then record c { suspended = true; resumed_us = 0; reconnect = true }
      else record c { suspended = false; resumed_us = if c.suspended then now else c.resumed_us }

  unfoldable pub set_message : Client Queue → Message → Bool → Client Queue
  set_message c message connected = record c { message = message; connected = connected }

  unfoldable pub set_error : Client Queue → Fault → Client Queue
  set_error c f = record c { last_error = f; message = fault f }

  -- `close_socket`, and the socket that it closes with a reset.
  unfoldable pub close_socket : Client Queue → Client Queue × Option ℕ
  close_socket c = (record c { connected = false; socket = none }, c.socket)

-- `NtripStatus`.
pub record Status : Type 0 where
  pub enabled : Bool
  pub connected : Bool
  pub message : Message
  pub bytes_sent : ℕ
  pub dropped_batches : ℕ
  pub reconnects : ℕ
  pub last_error : Fault
  pub connected_sec : ℕ
  pub last_send_age_sec : ℕ
  pub ever_sent : Bool

-- `static_cast<uint32_t>((now - then) / 1000000)`. A time is never later than `now`.
abbrev pub age_sec : ℕ → ℕ → ℕ
age_sec now then_us = (now - then_us) / 1000000 % 2 ^ 32

unfoldable pub status : {Queue : Type 0} → Client Queue → ℕ → Status
status c now = record {
  enabled = c.enabled;
  connected = c.connected;
  message = c.message;
  bytes_sent = c.bytes_sent;
  dropped_batches = c.dropped_batches;
  reconnects = c.reconnects;
  last_error = c.last_error;
  connected_sec =
      if c.connected && ltb 0 c.connected_since_us then age_sec now c.connected_since_us else 0;
  last_send_age_sec = if ltb 0 c.last_send_us then age_sec now c.last_send_us else 0;
  ever_sent = ltb 0 c.last_send_us;
}

module _ (api : QueueApi (List ℕ)) where
  open api use {Queue, send, receive, clear, create}

  -- The part of `push` behind its guards: a full queue loses its oldest packet.
  unfoldable pub enqueue : Client Queue → Queue → List ℕ → Client Queue
  enqueue c q packet =
      let (q', fits) = send q packet in
      if fits
      then record c { queue = some q' }
      else let (freed, stale) = receive q' in
        record c { queue = some (send freed packet).0; dropped_batches = bump32 c.dropped_batches }

  unfoldable pub push_to : Client Queue → List ℕ → Option Queue → Client Queue × Bool
  unfolding enqueue
  push_to c bytes none = (c, false)
  push_to c bytes (some q) =
      if length bytes == 0 || (c.suspended || not c.connected)
      then (c, false)
      else (enqueue c q (take k_max_packet bytes), true)

  -- `data` is `none` for a null pointer.
  unfoldable pub push : Client Queue → Option (List ℕ) → Client Queue × Bool
  unfolding push_to
  push c none = (c, false)
  push c (some bytes) = push_to c bytes c.queue

  -- `xQueueReset(queue_)`, if there is a queue.
  unfoldable pub reset_queue : Client Queue → Client Queue
  reset_queue c = elim c.queue [ none ↦ c | some q ↦ record c { queue = some (clear q) } ]

  -- `start`; `created` and `spawned` say whether the queue and the task could be made.
  unfoldable pub start : Client Queue → Bool → List ℕ → List ℕ → Bool → Bool → Client Queue × Bool
  unfolding configure
  start c enabled mountpoint password created spawned =
      let c' = record (configure (record c { stopping = false }) enabled mountpoint password) {
        queue = none;
      } in
      if created && spawned
      then (record c' { queue = some (create k_queue_depth) }, true)
      else (c', false)

  -- `stop`, once the task has ended.
  unfoldable pub stop : Client Queue → Client Queue
  unfolding close_socket
  stop c = record (close_socket (record c { stopping = true; reconnect = true })).0 { queue = none }
