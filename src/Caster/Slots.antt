-- ===== src/Caster/Slots.antt =====
-- The client table: the count and the addresses that the web page shows agree with the open sockets.
use gps_base_station.Prelude.{
  ℕ, suc, ◌≡◌, ◌⊎◌, inl, inr, refl, sym, ap, ◌∙◌, List, [], ◌∷◌, Option, none, some, false, arith,
  length, Option-cases, Bool-cases,
}
use gps_base_station.Freertos.{QueueApi}
use gps_base_station.Caster.Send.{Round}
use gps_base_station.Caster.{
  Place, Caster, Incoming, Opening, no_socket, not_bound, listening, k_max_clients, count_open,
  place_first, serve_place, serve_places, clear_places, with_places, close_clients, close_all,
  admit, accept_client, broadcast, serve, take_reset, open_listener, listen, serve_all, serve_open,
  run_pass, cleared,
}

-- A free entry has no address.
abbrev pub IsClean : List Place → Type 0
IsClean [] = Unit
IsClean (p ∷ ps) = elim p.client [ none ↦ p.ipv4 ≡ 0 | some fd ↦ Unit ] × IsClean ps

pub record IsValid {Queue : Type 0} (c : Caster Queue) : Type 0 where
  pub eight : length c.places ≡ k_max_clients
  pub counted : c.client_count ≡ count_open c.places
  pub clean : IsClean c.places

length-clear_places : (ps : List Place) → length (clear_places ps) ≡ length ps
unfolding clear_places
length-clear_places [] = refl
length-clear_places (p ∷ ps) = ap suc (length-clear_places ps)

clear_places-IsClean : (ps : List Place) → IsClean (clear_places ps)
unfolding clear_places
clear_places-IsClean [] = tt
clear_places-IsClean (p ∷ ps) = (refl, clear_places-IsClean ps)

count_open-clear_places : (ps : List Place) → count_open (clear_places ps) ≡ 0
unfolding clear_places count_open
count_open-clear_places [] = refl
count_open-clear_places (p ∷ ps) = count_open-clear_places ps

-- What an operation on the table must keep.
abbrev Kept : List Place → List Place → Type 0
Kept ps ps' = (length ps' ≡ length ps) × IsClean ps'

place_first-Kept :
    (new : Place) (fd : ℕ) (ps ps' : List Place)
    → new.client ≡ some fd
    → IsClean ps
    → place_first new ps ≡ some ps'
    → Kept ps ps'
unfolding place_first
place_first-Kept new fd [] ps' full clean e = absurd (ground arith)
place_first-Kept new fd (p ∷ ps) ps' full clean e = elim (Option-cases (place_first new ps)) [
  | inl no_room ↦ ground arith
  | inr (later, found) ↦ ground (arith, place_first-Kept new fd ps later full clean.1 found)
]

serve_place-IsClean :
    (n : ℕ) (p p' : Place) (rounds : List Round)
    → IsClean (p ∷ [])
    → serve_place n p rounds ≡ some p'
    → IsClean (p' ∷ [])
unfolding serve_place
serve_place-IsClean n p p' rounds clean e = ground arith

serve_places-Kept :
    (n : ℕ) (ps ps' : List Place) (rounds : List (List Round))
    → IsClean ps
    → serve_places n ps rounds ≡ some ps'
    → Kept ps ps'
unfolding serve_places
serve_places-Kept n [] ps' rounds clean e = ground arith
serve_places-Kept n (p ∷ ps) ps' [] clean e = absurd (ground arith)
serve_places-Kept n (p ∷ ps) ps' (r ∷ rounds) clean e = elim (Option-cases (serve_place n p r)) [
  | inl stuck ↦ absurd (ground arith)
  | inr (q, served) ↦ elim (Option-cases (serve_places n ps rounds)) [
    | inl stuck ↦ absurd (ground arith)
    | inr (qs, rest) ↦ ground (
      arith,
      serve_place-IsClean n p q r (clean.0, tt) served,
      serve_places-Kept n ps qs rounds clean.1 rest,
    )
  ]
]

module _ {Queue : Type 0} where
  with_places-IsValid :
      (c : Caster Queue) (ps : List Place)
      → IsValid c
      → Kept c.places ps
      → IsValid (with_places c ps)
  unfolding with_places
  with_places-IsValid c ps v k = record { eight = k.0 ∙ v.eight; counted = refl; clean = k.1 }

  close_clients-IsValid : (c : Caster Queue) → IsValid c → IsValid (close_clients c)
  unfolding close_clients
  close_clients-IsValid c v =
      with_places-IsValid c (clear_places c.places) v
        (length-clear_places c.places, clear_places-IsClean c.places)

  close_all-IsValid : (c : Caster Queue) → IsValid c → IsValid (close_all c)
  unfolding close_all
  close_all-IsValid c v =
      let w = close_clients-IsValid c v in
      record { eight = w.eight; counted = w.counted; clean = w.clean }

  accept_client-IsValid :
      (c c' : Caster Queue) (incoming : Option Incoming)
      → IsValid c
      → accept_client c incoming ≡ some c'
      → IsValid c'
  unfolding accept_client admit
  accept_client-IsValid c c' none v e = ground arith
  accept_client-IsValid c c' (some i) v e =
      elim (Option-cases (place_first (record { client = some i.fd; ipv4 = i.ipv4 }) c.places)) [
        | inl full ↦ ground arith
        | inr (ps, found) ↦ ground (
          arith,
          with_places-IsValid c ps v (place_first-Kept _ i.fd c.places ps refl v.clean found),
        )
      ]

  broadcast-IsValid :
      (c c' : Caster Queue) (packet : List ℕ) (rounds : List (List Round))
      → IsValid c
      → broadcast c packet rounds ≡ some c'
      → IsValid c'
  unfolding broadcast
  broadcast-IsValid c c' packet rounds v e =
      elim (Option-cases (serve_places (length packet) c.places rounds)) [
        | inl stuck ↦ absurd (ground arith)
        | inr (ps, served) ↦ ground (
          arith,
          with_places-IsValid c ps v (serve_places-Kept _ c.places ps rounds v.clean served),
        )
      ]

module _ (api : QueueApi (List ℕ)) where
  open api use {Queue, receive}

  with_queue-IsValid :
      (c : Caster Queue) (q : Option Queue) → IsValid c → IsValid (record c { queue = q })
  with_queue-IsValid c q v = record { eight = v.eight; counted = v.counted; clean = v.clean }

  serve-IsValid :
      (c c' : Caster Queue) (q : Option Queue) (rounds : List (List Round))
      → IsValid c
      → serve api c q rounds ≡ some c'
      → IsValid c'
  unfolding serve
  serve-IsValid c c' none rounds v e = ground arith
  serve-IsValid c c' (some q) rounds v e =
      let w = with_queue-IsValid c (some (receive q).0) v in
      elim (Option-cases (receive q).1) [
        | inl idle ↦ ground arith
        | inr (packet, got) ↦
            broadcast-IsValid (record c { queue = some (receive q).0 }) c' packet rounds w
              (rw (got, serve) at e)
      ]

  take_reset-IsValid : (c : Caster Queue) → IsValid c → IsValid (take_reset api c)
  unfolding take_reset
  take_reset-IsValid c v =
      let closed : IsValid (record c { reset_clients = false }) = record {
        eight = v.eight;
        counted = v.counted;
        clean = v.clean;
      } in
      let w = close_clients-IsValid (record c { reset_clients = false }) closed in
      ground (
        arith,
        with_queue-IsValid (close_clients (record c { reset_clients = false }))
            (cleared api c.queue) w,
      )

  open_listener-IsValid :
      (c : Caster Queue) (o : Opening) → IsValid c → IsValid (open_listener api c o)
  unfolding open_listener
  open_listener-IsValid c no_socket v = record {
    eight = v.eight;
    counted = v.counted;
    clean = v.clean;
  }
  open_listener-IsValid c not_bound v = close_all-IsValid c v
  open_listener-IsValid c (listening fd) v = record {
    eight = v.eight;
    counted = v.counted;
    clean = v.clean;
  }

  listen-IsValid : (c : Caster Queue) (o : Opening) → IsValid c → IsValid (listen api c o)
  unfolding listen
  listen-IsValid c o v = ground (arith, open_listener-IsValid c o v)

  serve_all-IsValid :
      (c c' : Caster Queue) (incoming : Option Incoming) (rounds : List (List Round))
      → IsValid c
      → serve_all api c incoming rounds ≡ some c'
      → IsValid c'
  unfolding serve_all
  serve_all-IsValid c c' incoming rounds v e = elim (Option-cases (accept_client c incoming)) [
    | inl stuck ↦ absurd (ground arith)
    | inr (d, taken_in) ↦
        serve-IsValid d c' d.queue rounds (accept_client-IsValid c d incoming v taken_in)
          (rw (taken_in, serve_all) at e)
  ]

  serve_open-IsValid :
      (c c' : Caster Queue) (listener : Option ℕ) (incoming : Option Incoming)
      (rounds : List (List Round))
      → IsValid c
      → serve_open api c listener incoming rounds ≡ some c'
      → IsValid c'
  unfolding serve_open
  serve_open-IsValid c c' none incoming rounds v e = ground arith
  serve_open-IsValid c c' (some fd) incoming rounds v e = serve_all-IsValid c c' incoming rounds v e

  run_pass-on :
      (c : Caster Queue) (o : Opening) (incoming : Option Incoming) (rounds : List (List Round))
      → c.suspended ≡ false
      → run_pass api c o incoming rounds
        ≡ serve_open api
            (listen api (take_reset api c) o)
            (listen api (take_reset api c) o).listener
            incoming
            rounds
  unfolding run_pass
  run_pass-on c o incoming rounds on = ground arith

  paused-IsValid :
      (c : Caster Queue)
      → IsValid c
      → IsValid (record (close_all c) { queue = cleared api c.queue })
        × ((record (close_all c) { queue = cleared api c.queue }).client_count ≡ 0)
  unfolding close_all close_clients with_places
  paused-IsValid c v = (
    with_queue-IsValid (close_all c) (cleared api c.queue) (close_all-IsValid c v),
    count_open-clear_places c.places,
  )

  -- A pass of the caster's task keeps the table right: eight entries, a count that is the number of
  -- open sockets, and no address beside a free entry. A caster that is suspended has no client
  -- afterwards.
  pub run_pass-IsValid :
      (c c' : Caster Queue) (o : Opening) (incoming : Option Incoming) (rounds : List (List Round))
      → IsValid c
      → run_pass api c o incoming rounds ≡ some c'
      → IsValid c' × ((c.suspended ≡ false) ⊎ (c'.client_count ≡ 0))
  unfolding run_pass
  run_pass-IsValid c c' o incoming rounds v e =
      let c1 = listen api (take_reset api c) o in
      let w = listen-IsValid (take_reset api c) o (take_reset-IsValid c v) in
      elim (Bool-cases c.suspended) [
        | inl off ↦ ground (arith, paused-IsValid c v)
        | inr on ↦ (
          serve_open-IsValid c1 c' c1.listener incoming rounds w
              (sym (run_pass-on c o incoming rounds on) ∙ e),
          inl on,
        )
      ]
