-- ===== src/Wifi.antt =====
-- `WifiManager` of main/wifi_manager.cpp: its state, and the events. The driver is an interface; the credentials and the password of the access point are what the settings hold.
pub mod Modes
pub mod Recovery
pub mod InStep
pub mod Reach
pub mod Works
pub mod Fallback
pub mod Networks
pub mod Sorted
pub mod Scan
mod Tests
use gps_base_station.Prelude.{
  ℕ, ◌+◌, ◌-◌, ◌≤◌, ◌<◌, ◌≡◌, List, [], ◌∷◌, ◌++◌, Option, none, some, Bool, true, false, not, ◌&&◌,
  ◌||◌, ltb, leb, ◌==◌, if◌then◌else◌, length, take, codes,
}
use gps_base_station.Storage.{WifiCredentials, c_str}
use gps_base_station.Survey.Text.{ℤ, pos, negsuc}
use gps_base_station.Web.Dates.{difference}

pub data Mode : Type 0 where
  null_mode sta ap apsta : Mode

pub data Interface : Type 0 where
  sta_if ap_if : Interface

pub data ConnectResult : Type 0 where
  connect_ok connect_conn connect_failed : ConnectResult

-- `strlcpy` keeps a zero at the end.
pub record StaConfig : Type 0 where
  pub ssid : List ℕ
  pub password : List ℕ

pub record ApConfig : Type 0 where
  pub ssid : List ℕ
  pub password : List ℕ

-- `esp_wifi_*`, and the clock, which every call may move.
pub record WifiApi : Type 1 where
  pub Radio : Type 0
  pub now_ms : Radio → ℕ
  pub get_mode : Radio → Option Mode
  pub wifi_stop : Radio → Radio
  pub set_mode : Radio → Mode → Radio × Bool
  pub set_ap_config : Radio → ApConfig → Radio × Bool
  pub set_sta_config : Radio → StaConfig → Radio × Bool
  pub set_mac : Radio → Interface → Radio
  pub wifi_start : Radio → Radio × Bool
  pub set_ps_none : Radio → Radio
  pub wifi_connect : Radio → Radio × ConnectResult
  pub wifi_disconnect : Radio → Radio
  pub get_ap_info : Radio → Radio × Option (List ℕ × ℤ)

abbrev pub k_retry_interval_ms : ℕ
k_retry_interval_ms = 15000

abbrev pub k_ap_fallback_ms : ℕ
k_ap_fallback_ms = 120000

abbrev pub k_ap_info_refresh_ms : ℕ
k_ap_info_refresh_ms = 5000

abbrev pub k_access_point_ssid : List ℕ
k_access_point_ssid = codes "GPS-BaseStation"

abbrev pub k_default_ap_password : List ℕ
k_default_ap_password = codes "gpsbase-rtk"

-- `connected_bit` is the bit of the event group.
pub record Wifi (Radio : Type 0) : Type 0 where
  pub radio : Radio
  pub connected : Bool
  pub connected_bit : Bool
  pub access_point_active : Bool
  pub disable_ap_pending : Bool
  pub disconnected_at_ms : ℕ
  pub last_retry_ms : ℤ
  pub cached_ssid : List ℕ
  pub cached_rssi : ℤ
  pub cached_valid : Bool
  pub ap_info_last_ms : ℕ

unfoldable pub sta_config : WifiCredentials → StaConfig
sta_config c = record { ssid = take 31 (c_str c.ssid); password = take 63 (c_str c.password) }

-- A password that WPA2 does not take is replaced by the default.
unfoldable pub fill_ap_config : List ℕ → ApConfig
fill_ap_config password = record {
  ssid = k_access_point_ssid;
  password = take 63 (
      c_str (
        if ltb (length password) 8 || ltb 63 (length password)
        then k_default_ap_password
        else password));
}

pub data Event : Type 0 where
  got_ip lost_ip sta_disconnected other_event : Event

-- What the user interfaces ask.
pub data Link : Type 0 where
  k_connected k_access_point k_disconnected : Link

module _ (api : WifiApi) where
  open api use {
    Radio, now_ms, get_mode, wifi_stop, set_mode, set_ap_config, set_sta_config, set_mac,
    wifi_start, set_ps_none, wifi_connect, wifi_disconnect, get_ap_info,
  }

  abbrev pub State : Type 0
  State = Wifi Radio

  unfoldable pub boot : Radio → State
  boot radio = record {
    radio = radio;
    connected = false;
    connected_bit = false;
    access_point_active = false;
    disable_ap_pending = false;
    disconnected_at_ms = 0;
    last_retry_ms = pos 0;
    cached_ssid = [];
    cached_rssi = negsuc 126;
    cached_valid = false;
    ap_info_last_ms = 0;
  }

  -- The driver says that the link stands although no address is left.
  unfoldable pub reconnect : Radio × ConnectResult → Radio
  reconnect (r, connect_conn) = (wifi_connect (wifi_disconnect r)).0
  reconnect (r, connect_ok) = r
  reconnect (r, connect_failed) = r

  unfoldable pub request_connect : State → State
  unfolding reconnect
  request_connect w = record w {
    last_retry_ms = pos (now_ms w.radio);
    radio = reconnect (wifi_connect w.radio);
  }

  abbrev pub started_timer : ℕ → ℕ → ℕ
  started_timer at now = if at == 0 then now else at

  -- `now` is when the event is handled.
  unfoldable pub handle_event : State → ℕ → Event → State
  handle_event w now got_ip = record w {
    connected = true;
    disconnected_at_ms = 0;
    connected_bit = true;
    disable_ap_pending = if w.access_point_active then true else w.disable_ap_pending;
  }
  handle_event w now lost_ip = record w {
    connected = false;
    disable_ap_pending = false;
    connected_bit = false;
    disconnected_at_ms = started_timer w.disconnected_at_ms now;
    last_retry_ms = difference now k_retry_interval_ms;
  }
  handle_event w now sta_disconnected = record w {
    connected = false;
    disable_ap_pending = false;
    connected_bit = false;
    disconnected_at_ms = started_timer w.disconnected_at_ms now;
    last_retry_ms = if w.connected then difference now k_retry_interval_ms else w.last_retry_ms;
  }
  handle_event w now other_event = w

  -- The task of the events runs while a call of the driver waits: the events that it handles then, in their
  -- order, each with its time. It leaves the driver alone.
  unfoldable pub handle_events : State → List (ℕ × Event) → State
  unfolding handle_event
  handle_events w [] = w
  handle_events w ((now, e) ∷ events) = handle_events (handle_event w now e) events

  unfoldable pub state : State → Link
  state w =
      if w.connected
      then k_connected
      else if w.access_point_active
      then k_access_point
      else k_disconnected

  unfoldable pub rssi : State → ℤ
  rssi w = if w.connected && w.cached_valid then w.cached_rssi else negsuc 126

  unfoldable pub ssid : State → List ℕ
  ssid w =
      if w.connected
      then (if w.cached_valid then w.cached_ssid else [])
      else if w.access_point_active
      then k_access_point_ssid
      else []
