-- ===== src/Um980/Tests.antt =====
-- A receiver whose line takes so many bytes.
use gps_base_station.Prelude.{
  digits, ℕ, ◌-◌, ◌≡◌, refl, List, [], ◌++◌, Option, none, some, true, leb, if◌then◌else◌, length,
  codes, crlf, arith,
}
use gps_base_station.Um980.{
  UartApi, ok, failed, took_all, stop_output, configure_base, run_commands,
}
use gps_base_station.Um980.Sent.{Wire, TextOutcome, base_lines, configure_base-TextOutcome}

record Line : Type 0 where
  text : List ℕ
  room : ℕ

abbrev put : Line → List ℕ → Line × Option ℕ
put l t =
    if leb (length t) l.room
    then (record { text = l.text ++ t; room = l.room - length t }, some (length t))
    else (l, none)

abbrev line_api : UartApi
line_api = record { Uart = Line; write = put; wait_tx_done = λ l. (l, true) }

put-text : (l : Line) (t : List ℕ) → took_all t (put l t).1 ≡ true → (put l t).0.text ≡ l.text ++ t
put-text l t took = ground arith

abbrev line_wire : Wire line_api
line_wire = record { sent = λ l. l.text; sent-write = put-text; sent-wait = λ l. refl }

abbrev fresh : ℕ → Line
fresh room = record { text = []; room = room }

abbrev position : List ℕ
position = codes "50.00000000 20.00000000 200.0000"

configure_base-TextOutcome_example :
    TextOutcome line_api line_wire
      (fresh 100)
      (base_lines position [])
      (configure_base line_api (fresh 100) position [])
configure_base-TextOutcome_example =
    configure_base-TextOutcome line_api line_wire (fresh 100) position []

all_sent :
    (stop_output line_api (fresh 1000)).0.text
    ≡ (codes "UNLOGALL COM2" ++ crlf) ++ (codes "UNLOGALL COM3" ++ crlf)
unfolding run_commands
all_sent = refl

base_runs :
    ((configure_base line_api (fresh 1000) position []).1 ≡ ok)
    × ((configure_base line_api (fresh 100) position []).1 ≡ failed)
unfolding run_commands digits
base_runs = (refl, refl)
