-- ===== src/Wifi/Tests.antt =====
-- Runs of the WiFi manager on a radio that is its clock.
use gps_base_station.Prelude.{
  ℕ, ◌+◌, ◌≤◌, ◌≡◌, refl, List, [], ◌∷◌, none, some, true, false, arith, codes, length, inr,
  replicate, take,
}
use gps_base_station.Storage.{WifiCredentials, c_str}
use gps_base_station.Survey.Text.{pos, negsuc}
use gps_base_station.Wifi.{
  WifiApi, State, boot, sta, connect_ok, got_ip, sta_disconnected, handle_event, sta_config,
  fill_ap_config, request_connect,
}
use gps_base_station.Wifi.Modes.{first_mode}
use gps_base_station.Wifi.Networks.{ApRecord, scan_networks}
use gps_base_station.Wifi.Sorted.{AllShown, Distinct, Falling}
use gps_base_station.Wifi.Scan.{scan_networks_lem}
use gps_base_station.Wifi.Recovery.{recovery_pass, Seen}
use gps_base_station.Wifi.InStep.{InStep}
use gps_base_station.Wifi.Reach.{begun, on_event, on_pass, LastFailed, Reachable-InStep}
use gps_base_station.Wifi.Works.{Works}
use gps_base_station.Wifi.Fallback.{SeenAway, Quiet, pass, dropped, quiet_steps, quiet_steps-up}

-- Every call of the driver takes a millisecond, a connection a second.
abbrev clock_api : WifiApi
clock_api = record {
  Radio = ℕ;
  now_ms = λ r. r;
  get_mode = λ r. some sta;
  wifi_stop = λ r. r + 1;
  set_mode = λ r m. (r + 1, true);
  set_ap_config = λ r c. (r + 1, true);
  set_sta_config = λ r c. (r + 1, true);
  set_mac = λ r i. r + 1;
  wifi_start = λ r. (r + 1, true);
  set_ps_none = λ r. r + 1;
  wifi_connect = λ r. (r + 1000, connect_ok);
  wifi_disconnect = λ r. r + 1;
  get_ap_info = λ r. (r + 1, none);
}

abbrev clock_works : Works clock_api
clock_works = record {
  known_mode = λ r. (sta, refl);
  takes_mode = λ r m. refl;
  takes_ap = λ r c. refl;
  takes_sta = λ r c. refl;
  starts = λ r. refl;
}

abbrev home : WifiCredentials
home = record { valid = true; ssid = codes "home"; password = codes "12345678" }

-- The station is lost while the driver is asked for its access point.
abbrev lost_inside : Seen
lost_inside = record {
  at_refresh = (3005, sta_disconnected) ∷ [];
  at_load = [];
  at_switch = [];
  at_connect = [];
}

abbrev lost_at_switch : Seen
lost_at_switch = record {
  at_refresh = [];
  at_load = [];
  at_switch = (122600, sta_disconnected) ∷ [];
  at_connect = [];
}

lost_at_switch-SeenAway : SeenAway clock_api lost_at_switch
lost_at_switch-SeenAway = record {
  refresh_away = tt;
  load_away = tt;
  switch_away = (tt, tt);
  connect_away = tt;
}

Reachable-InStep_example :
    InStep clock_api
      (LastFailed clock_api
        (on_pass lost_inside [] home (on_event 2000 got_ip (begun 5 [] [] home))))
      (recovery_pass clock_api
        (handle_event clock_api (first_mode clock_api (boot clock_api 5) [] [] home).0 2000 got_ip)
        lost_inside
        []
        home)
Reachable-InStep_example =
    Reachable-InStep clock_api
      (on_pass lost_inside [] home (on_event 2000 got_ip (begun 5 [] [] home)))

abbrev offline : State clock_api
offline = record {
  radio = 122500;
  connected = false;
  connected_bit = false;
  access_point_active = false;
  disable_ap_pending = false;
  disconnected_at_ms = 3000;
  last_retry_ms = pos 100000;
  cached_ssid = [];
  cached_rssi = negsuc 126;
  cached_valid = false;
  ap_info_last_ms = 0;
}

abbrev before_it : List (Quiet clock_api)
before_it = dropped 122400 ∷ pass lost_at_switch lost_at_switch-SeenAway ∷ dropped 122600 ∷ []

late_enough : 3000 + 120000 ≤ (quiet_steps clock_api [] home offline before_it).radio
unfolding quiet_steps handle_event recovery_pass request_connect
late_enough = omega arith

quiet_steps-up_example :
    (recovery_pass clock_api
      (quiet_steps clock_api [] home offline before_it)
      lost_at_switch
      []
      home).access_point_active
    ≡ true
quiet_steps-up_example =
    quiet_steps-up clock_api [] home 3000 before_it offline lost_at_switch clock_works refl
      (omega arith) (record { away = refl; idle = refl; timed = inr refl }) lost_at_switch-SeenAway
      late_enough

-- A name of 32 characters loses its last.
long_name :
    length
      (sta_config
        (record { valid = true; ssid = replicate 32 65; password = replicate 64 49 })).ssid
    ≡ 31
unfolding sta_config c_str
long_name = refl

-- A password of seven characters is not used.
short_password : (fill_ap_config (codes "1234567")).password ≡ codes "gpsbase-rtk"
unfolding fill_ap_config c_str
short_password = refl

abbrev found : List ApRecord
found =
    record { ssid = codes "a"; rssi = negsuc 69; is_open = false }
    ∷ record { ssid = codes "b"; rssi = negsuc 49; is_open = true }
    ∷ record { ssid = codes "a"; rssi = negsuc 39; is_open = true }
    ∷ []

scan_networks_lem_example :
    AllShown (take 24 found) (scan_networks (some found))
    × Distinct (scan_networks (some found))
    × Falling (scan_networks (some found))
scan_networks_lem_example = scan_networks_lem found

scanned :
    scan_networks (some found)
    ≡ record { ssid = codes "a"; rssi = negsuc 39; secured = false }
      ∷ record { ssid = codes "b"; rssi = negsuc 49; secured = false }
      ∷ []
unfolding scan_networks c_str
scanned = refl
