-- ===== src/Ntrip/Connect.antt =====
-- `connect_socket` and `connect_caster` of main/ntrip_push.cpp. What lwIP, the resolver and the caster
-- answer is an argument.
pub mod Link
use gps_base_station.Prelude.{
  ℕ, ◌+◌, ◌%◌, ◌^◌, List, [], ◌∷◌, ◌++◌, Option, none, some, Bool, true, false, not, ◌||◌,
  if◌then◌else◌, length, codes, crlf, starts_with,
}
use gps_base_station.Ntrip.Client.{
  Client, Protocol, v1, v2, Fault, connect_failed, empty_response, handshake_failed, rejected,
  connected_with, bump32, is_empty, set_message, set_error, close_socket,
}
use gps_base_station.Ntrip.Send.{Round, Outcome, done, waiting, failed, send_all}

-- One attempt: the address from `getaddrinfo`, the socket, whether `connect` succeeded or is in
-- progress, whether the socket came up in time without an error, what the handshake's write meets, and
-- the line that the caster sends back.
pub record Dial : Type 0 where
  pub resolved : Option ℕ
  pub opened : Option ℕ
  pub connecting : Bool
  pub came_up : Bool
  pub handshake : List Round
  pub response : List ℕ

abbrev pub has_socket {ℓ} : {A : Type ℓ} → Option A → Bool
has_socket none = false
has_socket (some fd) = true

-- The answers that mean yes.
unfoldable pub accepts : List ℕ → Bool
accepts response =
    starts_with response (codes "ICY 200")
    || (starts_with response (codes "HTTP/1.1 200") || starts_with response (codes "HTTP/1.0 200"))

module _ {Queue : Type 0} where
  -- The cached address, or a fresh one.
  unfoldable pub resolve : Client Queue → Option ℕ → Option (Client Queue)
  resolve c found = elim c.cached_addr [
    | some addr ↦ some c
    | none ↦ elim found [ none ↦ none | some addr ↦ some (record c { cached_addr = some addr }) ]
  ]

  unfoldable pub wait_for_socket : Client Queue → Dial → Client Queue × Bool
  unfolding close_socket
  wait_for_socket c d =
      if not d.connecting
      then (record (close_socket c).0 { cached_addr = none }, false)
      else if not d.came_up
      then ((close_socket c).0, false)
      else (c, true)

  unfoldable pub open_socket : Client Queue → Dial → Client Queue × Bool
  unfolding wait_for_socket
  open_socket c d = elim d.opened [
    | none ↦ (record c { socket = none; cached_addr = none }, false)
    | some fd ↦ wait_for_socket (record c { socket = some fd }) d
  ]

  unfoldable pub connect_socket : Client Queue → Dial → Client Queue × Bool
  unfolding resolve open_socket
  connect_socket c d = elim (resolve c d.resolved) [
    | none ↦ (c, false)
    | some c' ↦ open_socket c' d
  ]

  -- `send_all` on the client: accepted bytes are counted.
  unfoldable pub transmit : Client Queue → List ℕ → List Round → Outcome × Client Queue
  transmit c bytes rounds =
      let (o, n) = send_all (length bytes) (has_socket c.socket) rounds in
      (o, record c { bytes_sent = (c.bytes_sent + n) % 2 ^ 64 })

  -- The caster's answer, at the time `now`.
  unfoldable pub answer : Client Queue → List ℕ → ℕ → Client Queue × Bool
  unfolding set_error set_message close_socket
  answer c response now =
      if accepts response
      then (
        set_message
            (record c {
              reconnects = if c.ever_connected then bump32 c.reconnects else c.reconnects;
              ever_connected = true;
              connected_since_us = now;
            })
            (connected_with c.protocol) true,
        true,
      )
      else (
        (close_socket
            (set_error c (if is_empty response then empty_response else rejected response))).0,
        false,
      )

-- `host_`, `std::to_string(port_)` and the `base64` of mbedTLS.
module _ {Queue : Type 0} (host port : List ℕ) (base64 : List ℕ → List ℕ) where
  unfoldable pub request : Client Queue → List ℕ
  request c = elim c.protocol [
    | v1 ↦
        codes "SOURCE "
        ++ (c.password
            ++ (codes " /"
                ++ (c.mountpoint
                    ++ (crlf
                        ++ (codes "Source-Agent: NTRIP ESP32BaseStation/2.0" ++ (crlf ++ crlf))))))
    | v2 ↦
        codes "POST /"
        ++ (c.mountpoint
            ++ (codes " HTTP/1.1"
                ++ (crlf
                    ++ (codes "Host: "
                        ++ (host
                            ++ (codes ":"
                                ++ (port
                                    ++ (crlf
                                        ++ (codes "Ntrip-Version: Ntrip/2.0"
                                            ++ (crlf
                                                ++ (codes "User-Agent: NTRIP ESP32BaseStation/2.0"
                                                    ++ (crlf
                                                        ++ (codes "Authorization: Basic "
                                                            ++ (base64 (
                                                            c.mountpoint
                                                            ++ (codes ":" ++ c.password))
                                                            ++ (crlf
                                                            ++ (codes
                                                            "Content-Type: application/octet-stream"
                                                            ++ (crlf
                                                            ++ (codes "Connection: keep-alive"
                                                            ++ (crlf ++ crlf)))))))))))))))))))
  ]

  -- `none`: the write of the handshake has not ended.
  unfoldable pub connect_caster : Client Queue → Dial → ℕ → Option (Client Queue × Bool)
  unfolding transmit set_error close_socket
  connect_caster c d now =
      let (c', up) = connect_socket c d in
      let (o, c'') = transmit c' (request c) d.handshake in
      if not up then some (set_error c' connect_failed, false) else elim o [
        | waiting ↦ none
        | failed r ↦ some ((close_socket (set_error c'' (handshake_failed r))).0, false)
        | done ↦ some (answer c'' d.response now)
      ]
