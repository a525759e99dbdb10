-- ===== src/Ntrip/Connect/Link.antt =====
-- What an attempt to connect leaves behind.
mod Tests
use gps_base_station.Prelude.{
  subst, codes, starts_with, ◌++◌, ◌||◌, ◌&&◌, ap₂, ==_iff, ◌==◌, [], ◌∷◌, sym, ℕ, ◌+◌, ◌%◌, ◌^◌,
  ◌≤◌, ◌<◌, ◌≡◌, ◌≢◌, ◌⊎◌, inl, inr, refl, ap, ◌∙◌, List, Option, none, some, Bool, true, false,
  not, if◌then◌else◌, arith, length, Bool-cases,
}
use gps_base_station.Ntrip.Client.{
  Client, Protocol, v1, v2, set_error, set_message, close_socket, connect_failed,
}
use gps_base_station.Ntrip.Send.{Round, Reason, Outcome, done, waiting, failed, send_all}
use gps_base_station.Ntrip.Send.Progress.{Honest, send_all_lem}
use gps_base_station.Ntrip.Connect.{
  Dial, has_socket, resolve, wait_for_socket, open_socket, connect_socket, transmit, accepts,
  answer, request, connect_caster,
}

module _ {Queue : Type 0} where
  -- A client with no connection.
  abbrev pub IsDown : Client Queue → Type 0
  IsDown c = (c.connected ≡ false) × (c.socket ≡ none)

  -- The socket is open exactly after a success; nothing is counted as sent and nobody is connected yet.
  abbrev Opened : Client Queue → Client Queue × Bool → Type 0
  Opened c (c', up) =
      (c'.connected ≡ false) × (has_socket c'.socket ≡ up) × (c'.bytes_sent ≡ c.bytes_sent)

  connect_socket-Opened : (c : Client Queue) (d : Dial) → IsDown c → Opened c (connect_socket c d)
  unfolding connect_socket open_socket wait_for_socket resolve close_socket
  connect_socket-Opened c d down = ground arith

-- The answers that mean yes.
abbrev pub IsYes : List ℕ → Type 0
IsYes response =
    (rest : List ℕ) × ((response ≡ codes "ICY 200" ++ rest)
      ⊎ ((response ≡ codes "HTTP/1.1 200" ++ rest) ⊎ (response ≡ codes "HTTP/1.0 200" ++ rest)))

starts_with-Split :
    (text prefix : List ℕ)
    → starts_with text prefix ≡ true
    → (rest : List ℕ) × (text ≡ prefix ++ rest)
starts_with-Split text [] e = (text, refl)
starts_with-Split [] (p ∷ prefix) e = absurd (ground arith)
starts_with-Split (c ∷ text) (p ∷ prefix) e =
    let s = starts_with-Split text prefix (ground arith) in
    (s.0, ap₂ ◌∷◌ ((==_iff c p).0 (ground arith)) s.1)

starts_with-append : (prefix rest : List ℕ) → starts_with (prefix ++ rest) prefix ≡ true
starts_with-append [] rest = refl
starts_with-append (p ∷ prefix) rest = ground (arith, starts_with-append prefix rest)

accepts-IsYes : (response : List ℕ) → accepts response ≡ true → IsYes response
unfolding accepts
accepts-IsYes response e = elim (Bool-cases (starts_with response (codes "ICY 200"))) [
  | inl icy ↦ let s = starts_with-Split response (codes "ICY 200") icy in (s.0, inl s.1)
  | inr other ↦ elim (Bool-cases (starts_with response (codes "HTTP/1.1 200"))) [
    | inl one ↦
        let s = starts_with-Split response (codes "HTTP/1.1 200") one in (s.0, inr (inl s.1))
    | inr old ↦
        let s = starts_with-Split response (codes "HTTP/1.0 200") (ground arith) in
        (s.0, inr (inr s.1))
  ]
]

IsYes-accepts : (response : List ℕ) → IsYes response → accepts response ≡ true
unfolding accepts
IsYes-accepts response (rest, inl e) =
    rw e (ground (arith, starts_with-append (codes "ICY 200") rest))
IsYes-accepts response (rest, inr (inl e)) =
    rw e (ground (arith, starts_with-append (codes "HTTP/1.1 200") rest))
IsYes-accepts response (rest, inr (inr e)) =
    rw e (ground (arith, starts_with-append (codes "HTTP/1.0 200") rest))

module _ {Queue : Type 0} where
  -- An address is known, and the socket comes up.
  abbrev pub comes_up : Client Queue → Dial → Bool
  comes_up c d =
      (has_socket c.cached_addr || has_socket d.resolved)
      && has_socket d.opened
      && d.connecting
      && d.came_up

  connect_socket-comes_up : (c : Client Queue) (d : Dial) → (connect_socket c d).1 ≡ comes_up c d
  unfolding connect_socket open_socket wait_for_socket resolve
  connect_socket-comes_up c d = ground arith

  down-socket : (c : Client Queue) → has_socket c.socket ≡ false → c.socket ≡ none
  down-socket c h = ground arith

module _ {Queue : Type 0} (host port : List ℕ) (base64 : List ℕ → List ℕ) (c : Client Queue)
    (d : Dial) where
  abbrev pub len : ℕ
  len = length (request host port base64 c)

  -- An address is known, the socket comes up, it takes all bytes of the request, and the caster says yes.
  pub record IsWelcome : Type 0 where
    pub up : comes_up c d ≡ true
    pub whole : (send_all len true d.handshake).1 ≡ len
    pub yes : IsYes d.response

  abbrev pub Linked : Client Queue × Bool → Type 0
  Linked (c', up) =
      (IsWelcome
        × (up ≡ true)
        × (c'.connected ≡ true)
        × (has_socket c'.socket ≡ true)
        × (c'.bytes_sent ≡ (c.bytes_sent + len) % 2 ^ 64))
      ⊎ ((¬ IsWelcome) × (up ≡ false) × IsDown c')

  abbrev dialled : Client Queue
  dialled = (connect_socket c d).0

  -- The client behind a request that was written.
  abbrev told : ℕ → Client Queue
  told n = record dialled { bytes_sent = (dialled.bytes_sent + n) % 2 ^ 64 }

  answer-Linked :
      (n now : ℕ)
      → (connect_socket c d).1 ≡ true
      → IsDown c
      → (send_all len true d.handshake).1 ≡ n
      → n ≡ len
      → Linked (answer (told n) d.response now)
  unfolding answer
  answer-Linked n now link down whole all =
      let o = connect_socket-Opened c d down in
      elim (Bool-cases (accepts d.response)) [
        | inl good ↦ rw good (
            inl (
              record {
                up = sym (connect_socket-comes_up c d) ∙ link;
                whole = whole ∙ all;
                yes = accepts-IsYes d.response good;
              },
              refl,
              refl,
              o.1 ∙ link,
              ap₂ (λ a b. (a + b) % 2 ^ 64) o.2 all,
            ))
        | inr bad ↦
            rw bad
              (inr ((λ w. absurd (cc (bad, IsYes-accepts d.response w.yes))), refl, (refl, refl)))
      ]

  -- A client is connected exactly if an address is known, the socket comes up, it takes all bytes of the
  -- request, and the caster answers with `ICY 200`, `HTTP/1.1 200` or `HTTP/1.0 200`. Then its socket is
  -- open, and the bytes of the request have been added to `bytes_sent_`; after a failure no socket is open.
  pub connect_caster_lem :
      (now : ℕ) {r : Client Queue × Bool}
      → IsDown c
      → Honest len d.handshake
      → connect_caster host port base64 c d now ≡ some r
      → Linked r
  unfolding connect_caster
  connect_caster_lem now {r} down honest e = elim (Bool-cases (connect_socket c d).1) [
    | inr no_link ↦ inr (
      (λ w. absurd (cc (no_link, connect_socket-comes_up c d, w.up))),
      ground (arith, connect_socket-Opened c d down, down-socket dialled),
      ground (arith, connect_socket-Opened c d down, down-socket dialled),
    )
    | inl link ↦ by_outcome link (send_all len (has_socket dialled.socket) d.handshake) refl
  ]
    where
      not_whole :
          (x : Reason) (n : ℕ)
          → send_all len true d.handshake ≡ (failed x, n)
          → (send_all len true d.handshake).1 ≡ len
          → ⊥
      not_whole x n t whole = ground (arith, (send_all_lem len true d.handshake honest).1)

      all_sent : (n : ℕ) → send_all len true d.handshake ≡ (done, n) → n ≡ len
      all_sent n t = ground (arith, (send_all_lem len true d.handshake honest).1)

      sent_true :
          (connect_socket c d).1 ≡ true
          → (x : Outcome × ℕ) → send_all len (has_socket dialled.socket) d.handshake ≡ x
          → send_all len true d.handshake ≡ x
      sent_true link x same =
          subst (λ b. send_all len b d.handshake ≡ x) ((connect_socket-Opened c d down).1 ∙ link)
            same

      by_outcome :
          (connect_socket c d).1 ≡ true
          → (s : Outcome × ℕ) → send_all len (has_socket dialled.socket) d.handshake ≡ s
          → Linked r
      by_outcome link (waiting, n) same = ground arith
      by_outcome link (failed x, n) same =
          let t = sent_true link (failed x, n) same in
          inr (
            (λ w. not_whole x n t w.whole),
            ground (arith, connect_socket-Opened c d down, down-socket dialled),
            ground (arith, connect_socket-Opened c d down, down-socket dialled),
          )
      by_outcome link (done, n) same =
          let t = sent_true link (done, n) same in
          let same_r : answer (told n) d.response now ≡ r = ground arith in
          subst Linked same_r (answer-Linked n now link down (ap (λ x. x.1) t) (all_sent n t))
