-- ===== src/Caster.antt =====
-- `LocalCaster` of main/local_caster.hpp: the NTRIP caster on the LAN, whose task sends each packet of
-- its queue to up to eight clients. What the sockets answer is an argument.
pub mod Send
pub mod Slots
pub mod Queueing
pub mod Batches
mod Tests
use gps_base_station.Prelude.{
  ℕ, zero, suc, ◌+◌, ◌*◌, ◌%◌, ◌^◌, min, List, [], ◌∷◌, ◌++◌, Option, none, some, Bool, true, false,
  not, ◌&&◌, ◌||◌, ltb, ◌==◌, if◌then◌else◌, length, take, set, replicate, codes, crlf, starts_with,
  ◌>>=◌,
}
use gps_base_station.Freertos.{QueueApi}
use gps_base_station.Caster.Send.{Round, send_all}

abbrev pub k_max_clients : ℕ
k_max_clients = 8

abbrev pub k_max_packet : ℕ
k_max_packet = 1200

abbrev pub k_queue_depth : ℕ
k_queue_depth = 16

-- An entry of `clients_` with the entry of `client_ipv4_` beside it.
pub record Place : Type 0 where
  pub client : Option ℕ
  pub ipv4 : ℕ

abbrev pub empty_place : Place
empty_place = record { client = none; ipv4 = 0 }

pub record Caster (Queue : Type 0) : Type 0 where
  pub queue : Option Queue
  pub stopping : Bool
  pub suspended : Bool
  pub reset_clients : Bool
  pub client_count : ℕ
  pub places : List Place
  pub listener : Option ℕ

-- A connection: its socket, the first 511 bytes that it sends, the peer's address, and what a write
-- to it meets.
pub record Incoming : Type 0 where
  pub fd : ℕ
  pub request : List ℕ
  pub ipv4 : ℕ
  pub rounds : List Round

-- What `open_listener` meets: no socket, a socket that cannot be bound, or one that listens.
pub data Opening : Type 0 where
  no_socket not_bound : Opening
  listening : ℕ → Opening

-- The count of `recount_clients`.
pub count_open : List Place → ℕ
count_open [] = 0
count_open (p ∷ ps) = elim p.client [ none ↦ count_open ps | some fd ↦ suc (count_open ps) ]

-- The first free entry takes the client; `none` if there is none.
pub place_first : Place → List Place → Option (List Place)
place_first new [] = none
place_first new (p ∷ ps) =
    let rest = place_first new ps in
    elim p.client [
      | none ↦ some (new ∷ ps)
      | some fd ↦ elim rest [ none ↦ none | some ps' ↦ some (p ∷ ps') ]
    ]

-- One round of the loop of `broadcast`: a client whose write fails is closed.
pub serve_place : ℕ → Place → List Round → Option Place
unfolding send_all
serve_place n p rounds = elim p.client [
  | none ↦ some p
  | some fd ↦ elim (send_all n rounds) [
    | none ↦ none
    | some true ↦ some p
    | some false ↦ some empty_place
  ]
]

-- `none`: a write has not ended.
pub serve_places : ℕ → List Place → List (List Round) → Option (List Place)
unfolding serve_place
serve_places n [] rounds = some []
serve_places n (p ∷ ps) [] = none
serve_places n (p ∷ ps) (r ∷ rounds) = do
  p' ← serve_place n p r
  ps' ← serve_places n ps rounds
  some (p' ∷ ps')

pub clear_places : List Place → List Place
clear_places [] = []
clear_places (p ∷ ps) = empty_place ∷ clear_places ps

-- `GET /BASE0 HTTP/`
abbrev pub request_prefix : List ℕ
request_prefix = codes "GET /" ++ (codes "BASE0" ++ codes " HTTP/")

-- The answer to any other request.
abbrev pub source_table : List ℕ
source_table =
    codes "SOURCETABLE 200 OK"
    ++ (crlf
        ++ (codes "Content-Type: text/plain"
            ++ (crlf
                ++ (crlf
                    ++ (codes "STR;"
                        ++ (codes "BASE0"
                            ++ (codes
                                  ";GPS Base;RTCM 3.2;1005(5),1077(1),1087(1),1097(1),1117(1),1127(1),1137(1),1230(30);"
                                ++ (codes "2;GPS+GLO+GAL+QZSS+BDS+NAVIC;NONE;0;0;N;N;0;"
                                    ++ (crlf ++ (codes "ENDSOURCETABLE" ++ crlf))))))))))

abbrev pub greeting : List ℕ
greeting = codes "ICY 200 OK" ++ (crlf ++ crlf)

-- `ClientSnapshot`: the addresses that are known.
pub known_addresses : List Place → List ℕ
known_addresses [] = []
known_addresses (p ∷ ps) =
    let rest = known_addresses ps in if p.ipv4 == 0 then rest else p.ipv4 ∷ rest

module _ {Queue : Type 0} where
  unfoldable pub set_suspended : Caster Queue → Bool → Caster Queue
  set_suspended c suspended =
      if suspended
      then record c { suspended = true; reset_clients = true }
      else record c { suspended = false }

  -- `recount_clients`, over the entries that are given.
  pub with_places : Caster Queue → List Place → Caster Queue
  unfolding count_open
  with_places c ps = record c { places = ps; client_count = count_open ps }

  pub close_clients : Caster Queue → Caster Queue
  unfolding with_places clear_places
  close_clients c = with_places c (clear_places c.places)

  pub close_all : Caster Queue → Caster Queue
  unfolding close_clients
  close_all c = record (close_clients c) { listener = none }

  -- Behind the reading of the request: the client gets the greeting and a place, if there is one.
  pub admit : Caster Queue → Incoming → Option (List Place) → Option (Caster Queue)
  unfolding send_all with_places
  admit c i none = some c
  admit c i (some ps) = elim (send_all (length greeting) i.rounds) [
    | none ↦ none
    | some true ↦ some (with_places c ps)
    | some false ↦ some c
  ]

  pub accept_client : Caster Queue → Option Incoming → Option (Caster Queue)
  unfolding admit place_first
  accept_client c none = some c
  accept_client c (some i) =
      let asked = starts_with i.request request_prefix in
      let table = send_all (length source_table) i.rounds in
      if asked
      then admit c i (place_first (record { client = some i.fd; ipv4 = i.ipv4 }) c.places)
      else elim table [ none ↦ none | some ok ↦ some c ]

  pub broadcast : Caster Queue → List ℕ → List (List Round) → Option (Caster Queue)
  unfolding serve_places with_places
  broadcast c packet rounds = elim (serve_places (length packet) c.places rounds) [
    | none ↦ none
    | some ps ↦ some (with_places c ps)
  ]

module _ (api : QueueApi (List ℕ)) where
  open api use {Queue, send, receive, clear, create}

  unfoldable pub push_to : Caster Queue → List ℕ → Option Queue → Caster Queue
  push_to c bytes none = c
  push_to c bytes (some q) =
      if length bytes == 0 || c.suspended
      then c
      else record c { queue = some (send q (take k_max_packet bytes)).0 }

  -- `push`, of data that is there.
  unfoldable pub push : Caster Queue → List ℕ → Caster Queue
  unfolding push_to
  push c bytes = push_to c bytes c.queue

  -- `std::function flush` of the batch: the frames in order.
  unfoldable pub push_all : Caster Queue → List (List ℕ) → Caster Queue
  unfolding push
  push_all c [] = c
  push_all c (f ∷ fs) = push_all (push c f) fs

  abbrev pub cleared : Option Queue → Option Queue
  cleared none = none
  cleared (some q) = some (clear q)

  unfoldable pub start : Caster Queue → Bool → Bool → Caster Queue × Bool
  start c created spawned =
      if created && spawned
      then (record c { stopping = false; queue = some (create k_queue_depth) }, true)
      else (record c { stopping = false; queue = none }, false)

  -- `stop`, once the task has ended.
  unfoldable pub stop : Caster Queue → Caster Queue
  unfolding close_all
  stop c = record (close_all (record c { stopping = true })) { queue = none }

  -- The packet that waits, if one does.
  pub serve : Caster Queue → Option Queue → List (List Round) → Option (Caster Queue)
  unfolding broadcast
  serve c none rounds = some c
  serve c (some q) rounds =
      let (q', got) = receive q in
      let c' : Caster Queue = record c { queue = some q' } in
      elim got [ none ↦ some c' | some packet ↦ broadcast c' packet rounds ]

  -- What the loop does first: `reset_clients_.exchange(false)`.
  pub take_reset : Caster Queue → Caster Queue
  unfolding close_clients
  take_reset c =
      if c.reset_clients
      then record (close_clients (record c { reset_clients = false })) { queue = cleared c.queue }
      else c

  pub open_listener : Caster Queue → Opening → Caster Queue
  unfolding close_all
  open_listener c no_socket = record c { listener = none }
  open_listener c not_bound = close_all c
  open_listener c (listening fd) = record c { listener = some fd }

  -- The listener that is open, or a new one.
  pub listen : Caster Queue → Opening → Caster Queue
  unfolding open_listener
  listen c o = elim c.listener [ some fd ↦ c | none ↦ open_listener c o ]

  pub serve_all : Caster Queue → Option Incoming → List (List Round) → Option (Caster Queue)
  unfolding accept_client serve
  serve_all c incoming rounds = do c' ← accept_client c incoming; serve c' c'.queue rounds

  -- Behind `open_listener`: with no listener the pass is over.
  pub serve_open :
      Caster Queue → Option ℕ → Option Incoming → List (List Round) → Option (Caster Queue)
  unfolding serve_all
  serve_open c none incoming rounds = some c
  serve_open c (some fd) incoming rounds = serve_all c incoming rounds

  -- One pass of the loop of `run`; `none`: a write of the pass has not ended.
  pub run_pass :
      Caster Queue → Opening → Option Incoming → List (List Round) → Option (Caster Queue)
  unfolding close_all take_reset listen serve_open
  run_pass c o incoming rounds =
      let c' = listen (take_reset c) o in
      if c.suspended
      then some (record (close_all c) { queue = cleared c.queue })
      else serve_open c' c'.listener incoming rounds
