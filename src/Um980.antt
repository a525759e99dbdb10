-- ===== src/Um980.antt =====
-- `Um980` of main/um980.cpp: the commands of the receiver. A command goes out over the UART, whose answers
-- are an interface; the sequences stop at the first command that fails.
pub mod Sent
mod Tests
use gps_base_station.Prelude.{
  decimal, ℕ, zero, suc, ◌+◌, ◌-◌, ◌*◌, ◌/◌, ◌%◌, ◌≤◌, ◌<◌, ◌≡◌, refl, ap, sym, ◌∙◌, List, [], ◌∷◌,
  ◌++◌, Option, none, some, Bool, true, false, not, ◌&&◌, ltb, leb, ◌==◌, if◌then◌else◌, length,
  codes, crlf, append-nil, append_assoc, arith, if_cases, Bool-cases,
}
use gps_base_station.Survey.Text.{is_empty}

-- The receiver's UART: `write` says how many bytes it took, `none` is an error.
pub record UartApi : Type 1 where
  pub Uart : Type 0
  pub write : Uart → List ℕ → Uart × Option ℕ
  pub wait_tx_done : Uart → Uart × Bool

pub data Error : Type 0 where
  ok invalid_arg invalid_size failed : Error

abbrev pub took_all : List ℕ → Option ℕ → Bool
took_all text none = false
took_all text (some n) = n == length text

-- A command, as it stands in the source or as it is formatted into 160 bytes.
pub data Command : Type 0 where
  fixed formatted : List ℕ → Command

abbrev pub rate_command : List ℕ → ℕ → Command
rate_command message rate =
    formatted (codes "LOG COM3 " ++ message ++ codes " ONTIME " ++ decimal rate)

abbrev pub stop_commands : List Command
stop_commands = fixed (codes "UNLOGALL COM2") ∷ fixed (codes "UNLOGALL COM3") ∷ []

abbrev pub satellite_commands : List Command
satellite_commands =
    fixed (codes "LOG COM2 GNGSA ONTIME 10")
    ∷ fixed (codes "LOG COM2 GPGSV ONTIME 10")
    ∷ fixed (codes "LOG COM2 GLGSV ONTIME 10")
    ∷ fixed (codes "LOG COM2 GAGSV ONTIME 10")
    ∷ fixed (codes "LOG COM2 GBGSV ONTIME 10")
    ∷ []

abbrev pub survey_commands : List Command
survey_commands = stop_commands ++ fixed (codes "LOG COM2 BESTPOSA ONTIME 5") ∷ satellite_commands

abbrev pub raw_commands : List Command
raw_commands = fixed (codes "UNLOGALL COM3") ∷ fixed (codes "LOG COM3 RANGEA ONTIME 30") ∷ []

abbrev pub signal_group_commands : List Command
signal_group_commands = fixed (codes "CONFIG SIGNALGROUP 2") ∷ []

abbrev pub antenna_commands : List ℕ → List Command
antenna_commands model =
    if is_empty model
    then []
    else formatted (codes "CONFIG BASEANTENNAMODEL \"" ++ model ++ codes "\" a0001 0 USER") ∷ []

-- The rates of main/app_config.hpp.
abbrev pub rtcm_commands : List Command
rtcm_commands =
    rate_command (codes "RTCM1006") 5
    ∷ rate_command (codes "RTCM1033") 10
    ∷ rate_command (codes "RTCM1077") 1
    ∷ rate_command (codes "RTCM1087") 1
    ∷ rate_command (codes "RTCM1097") 1
    ∷ rate_command (codes "RTCM1117") 1
    ∷ rate_command (codes "RTCM1127") 1
    ∷ rate_command (codes "RTCM1137") 1
    ∷ rate_command (codes "RTCM1230") 30
    ∷ []

-- `position` is the text of the three coordinates.
abbrev pub base_commands : List ℕ → List ℕ → List Command
base_commands position model =
    stop_commands
    ++ fixed (codes "CONFIG UNDULATION AUTO")
      ∷ fixed (codes "CONFIG PVTALG MULTI")
      ∷ antenna_commands model
    ++ formatted (codes "MODE BASE " ++ position) ∷ rtcm_commands
    ++ satellite_commands
    ++ fixed (codes "SAVECONFIG") ∷ []

module _ (api : UartApi) where
  open api use {Uart, write, wait_tx_done}

  abbrev pub sent_ok : Uart × Bool → Uart × Error
  sent_ok (u, true) = (u, ok)
  sent_ok (u, false) = (u, failed)

  unfoldable pub end_line : Uart × Option ℕ → Uart × Error
  end_line (u, n) = if took_all crlf n then sent_ok (wait_tx_done u) else (u, failed)

  unfoldable pub write_line : List ℕ → Uart × Option ℕ → Uart × Error
  unfolding end_line
  write_line text (u, n) = if took_all text n then end_line (write u crlf) else (u, failed)

  unfoldable pub command : Uart → List ℕ → Uart × Error
  unfolding write_line
  command u text = if is_empty text then (u, invalid_arg) else write_line text (write u text)

  unfoldable pub commandf : Uart → List ℕ → Uart × Error
  unfolding command
  commandf u text = if leb 160 (length text) then (u, invalid_size) else command u text

  unfoldable pub run_command : Uart → Command → Uart × Error
  unfolding command commandf
  run_command u (fixed text) = command u text
  run_command u (formatted text) = commandf u text

  -- `ESP_RETURN_ON_ERROR` around each.
  abbrev pub next_command : (Uart → Uart × Error) → Uart × Error → Uart × Error
  next_command rest (u, ok) = rest u
  next_command rest (u, invalid_arg) = (u, invalid_arg)
  next_command rest (u, invalid_size) = (u, invalid_size)
  next_command rest (u, failed) = (u, failed)

  unfoldable pub run_commands : Uart → List Command → Uart × Error
  unfolding run_command
  run_commands u [] = (u, ok)
  run_commands u (c ∷ cs) = next_command (λ v. run_commands v cs) (run_command u c)

  abbrev pub stop_output : Uart → Uart × Error
  stop_output u = run_commands u stop_commands

  abbrev pub configure_satellite_output : Uart → Uart × Error
  configure_satellite_output u = run_commands u satellite_commands

  abbrev pub configure_survey_output : Uart → Uart × Error
  configure_survey_output u = run_commands u survey_commands

  abbrev pub configure_raw_output : Uart → Uart × Error
  configure_raw_output u = run_commands u raw_commands

  abbrev pub configure_signal_group : Uart → Uart × Error
  configure_signal_group u = run_commands u signal_group_commands

  abbrev pub configure_base : Uart → List ℕ → List ℕ → Uart × Error
  configure_base u position model = run_commands u (base_commands position model)
