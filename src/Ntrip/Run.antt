-- ===== src/Ntrip/Run.antt =====
-- One pass of the loop of `NtripPushClient::run`. Other tasks change the client between passes; what
-- the network does in a pass is an argument.
pub mod Failures
mod Tests
use gps_base_station.Prelude.{
  ℕ, ◌+◌, ◌-◌, ◌*◌, List, [], ◌∷◌, Option, none, some, Bool, true, false, not, ◌&&◌, ◌||◌, ltb, leb,
  ◌==◌, if◌then◌else◌,
}
use gps_base_station.Freertos.{QueueApi}
use gps_base_station.Ntrip.Backoff.{retry_delay_ms}
use gps_base_station.Ntrip.Send.{Round, Outcome, Reason}
use gps_base_station.Ntrip.Send
use gps_base_station.Ntrip.Client.{
  Client, suspended_, disabled, waiting_to_connect, connecting, waiting_to_reconnect, write_failed,
  bump32, set_message, set_error, close_socket, reset_queue,
}
use gps_base_station.Ntrip.Connect.{Dial, transmit, connect_caster, has_socket}

abbrev pub k_healthy_streak_us : ℕ
k_healthy_streak_us = 5000000

-- The locals `failures` and `healthy_since_us`.
pub record Streak : Type 0 where
  pub failures : ℕ
  pub healthy_since_us : ℕ

-- What the pass meets: the time at the stagger test, an attempt to connect and its time, the value of
-- `esp_random`, the rounds of a write and the time at its end.
pub record Pass : Type 0 where
  pub now : ℕ
  pub dial : Dial
  pub dialled_at : ℕ
  pub random : ℕ
  pub rounds : List Round
  pub sent_at : ℕ

abbrev pub no_streak : Streak
no_streak = record { failures = 0; healthy_since_us = 0 }

module _ (api : QueueApi (List ℕ)) (host port : List ℕ) (base64 : List ℕ → List ℕ) where
  open api use {Queue, receive}

  -- The client, the streak, and the delay in milliseconds at the end of the pass.
  abbrev pub Result : Type 0
  Result = Client Queue × Streak × ℕ

  pub pause : Client Queue → Result
  unfolding close_socket reset_queue set_message
  pause c = (
    set_message (reset_queue api (close_socket c).0) (if c.enabled then suspended_ else disabled)
        false,
    no_streak,
    250,
  )

  -- `reconnect_.exchange(false)`.
  pub take_reconnect : Client Queue → Streak → Client Queue × Streak
  unfolding close_socket reset_queue
  take_reconnect c s =
      if c.reconnect
      then (reset_queue api (close_socket (record c { reconnect = false })).0, no_streak)
      else (c, s)

  pub is_staggered : Client Queue → ℕ → Bool
  is_staggered c now =
      (ltb 0 c.resumed_us && ltb 0 c.connect_stagger_ms)
      && ltb (now - c.resumed_us) (c.connect_stagger_ms * 1000)

  -- The time of the stagger is over.
  pub end_stagger : Client Queue → Client Queue
  end_stagger c =
      if ltb 0 c.resumed_us && ltb 0 c.connect_stagger_ms then record c { resumed_us = 0 } else c

  -- An attempt that failed.
  pub fail_connect : Client Queue → Streak → ℕ → Result
  fail_connect c s random =
      let failures = s.failures + 1 in
      (
        if failures == 3 then record c { cached_addr = none } else c,
        record { failures = failures; healthy_since_us = 0 },
        retry_delay_ms failures random,
      )

  pub sent_streak : Streak → ℕ → Streak
  sent_streak s at =
      let since = if s.healthy_since_us == 0 then at else s.healthy_since_us in
      record {
        failures = if leb k_healthy_streak_us (at - since) then 0 else s.failures;
        healthy_since_us = since;
      }

  pub fail_send : Client Queue → Streak → Reason → ℕ → Result
  unfolding set_error close_socket set_message
  fail_send c s r random = (
    set_message
        (close_socket
          (set_error (record c { reconnects = bump32 c.reconnects }) (write_failed r))).0
        waiting_to_reconnect false,
    record { failures = s.failures + 1; healthy_since_us = 0 },
    retry_delay_ms (s.failures + 1) random,
  )

  pub send_packet : Client Queue → Streak → List ℕ → Pass → Option Result
  unfolding transmit sent_streak fail_send
  send_packet c s packet p =
      let (o, c') = transmit c packet p.rounds in
      elim o [
        | Send.waiting ↦ none
        | Send.done ↦ some (record c' { last_send_us = p.sent_at }, sent_streak s p.sent_at, 0)
        | Send.failed r ↦ some (fail_send c' s r p.random)
      ]

  pub serve_packet : Client Queue → Streak → Pass → Option (List ℕ) → Option Result
  unfolding send_packet
  serve_packet c s p none = some (c, s, 0)
  serve_packet c s p (some packet) = send_packet c s packet p

  -- The packet that waits, if one does. The task runs only while there is a queue.
  pub serve : Client Queue → Streak → Pass → Option Queue → Option Result
  unfolding serve_packet
  serve c s p none = some (c, s, 0)
  serve c s p (some q) =
      let (q', got) = receive q in serve_packet (record c { queue = some q' }) s p got

  -- Behind an attempt to connect.
  pub after_dial : Streak → Pass → Option (Client Queue × Bool) → Option Result
  unfolding fail_connect serve
  after_dial s p none = none
  after_dial s p (some (c, true)) = serve c s p c.queue
  after_dial s p (some (c, false)) = some (fail_connect c s p.random)

  pub serve_connected : Client Queue → Streak → Pass → Option Result
  unfolding set_message connect_caster after_dial
  serve_connected c s p =
      if has_socket c.socket
      then serve c s p c.queue
      else after_dial s p
          (connect_caster host port base64 (set_message c connecting false) p.dial p.dialled_at)

  pub wait_turn : Client Queue → Streak → Pass → Option Result
  unfolding set_message
  wait_turn c s p =
      if is_staggered c p.now
      then some (set_message c waiting_to_connect false, s, 250)
      else serve_connected (end_stagger c) s p

  -- `none`: a write of the pass has not ended.
  pub run_pass : Client Queue → Streak → Pass → Option Result
  unfolding take_reconnect
  run_pass c s p =
      let (c', s') = take_reconnect c s in
      if c.suspended || not c.enabled then some (pause c) else wait_turn c' s' p
