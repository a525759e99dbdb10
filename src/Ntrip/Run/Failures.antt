-- ===== src/Ntrip/Run/Failures.antt =====
-- The backoff: what counts as a failure, what it costs, and what ends it.
use gps_base_station.Prelude.{
  if◌then◌else◌, ◌==◌, ◌<◌, ℕ, ◌+◌, ◌-◌, ◌≤◌, ◌≡◌, ◌⊎◌, List, Option, none, some, Bool, true, false,
}
use gps_base_station.Freertos.{QueueApi}
use gps_base_station.Ntrip.Backoff.{retry_delay_ms}
use gps_base_station.Ntrip.Client.{Client}
use gps_base_station.Ntrip.Connect.{has_socket}
use gps_base_station.Ntrip.Run.{Streak, Pass, is_staggered, k_healthy_streak_us}

module _ (api : QueueApi (List ℕ)) (host port : List ℕ) (base64 : List ℕ → List ℕ) where
  open api use {Queue, receive}

  -- The packet that waits, if one does.
  abbrev pub waiting_packet : Option Queue → Option (List ℕ)
  waiting_packet none = none
  waiting_packet (some q) = (receive q).1

  abbrev pub has_packet : Option (List ℕ) → Bool
  has_packet none = false
  has_packet (some packet) = true

  -- What a streak is behind a pass that leaves the client connected: nothing waited and it stays, or a write
  -- went well, and the count of failures is cleared exactly at the end of five seconds of such writes.
  abbrev pub Goes : Option (List ℕ) → Streak → Pass → Client Queue × Streak × ℕ → Type 0
  Goes got s p r =
      ((has_packet got ≡ false) × (r.1 ≡ s))
      ⊎ ((has_packet got ≡ true)
          × (r.0.last_send_us ≡ p.sent_at)
          × (r.1.healthy_since_us
              ≡ (if s.healthy_since_us == 0 then p.sent_at else s.healthy_since_us))
          × (((r.1.failures ≡ 0) × (k_healthy_streak_us ≤ p.sent_at - r.1.healthy_since_us))
              ⊎ ((r.1.failures ≡ s.failures)
                  × (p.sent_at - r.1.healthy_since_us < k_healthy_streak_us))))

  -- Behind its turn the client has a socket, or the failure is counted and the wait is that of the count.
  abbrev pub Turns : Option (List ℕ) → Streak → Pass → Client Queue × Streak × ℕ → Type 0
  Turns got s p r =
      ((has_socket r.0.socket ≡ true) × Goes got s p r)
      ⊎ ((r.0.socket ≡ none)
          × (r.1.failures ≡ s.failures + 1)
          × (r.1.healthy_since_us ≡ 0)
          × (r.2 ≡ retry_delay_ms (s.failures + 1) p.random))

  -- The client's turn has not come, or it has.
  abbrev pub Backs : Client Queue → Streak → Pass → Client Queue × Streak × ℕ → Type 0
  Backs c s p r =
      ((is_staggered api host port base64 c p.now ≡ true) × (r.1 ≡ s) × (r.0.socket ≡ c.socket))
      ⊎ ((is_staggered api host port base64 c p.now ≡ false) × Turns (waiting_packet c.queue) s p r)
