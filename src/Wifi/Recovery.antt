-- ===== src/Wifi/Recovery.antt =====
-- One pass of `recovery_loop` in main/wifi_manager.cpp. Events are handled between passes and,
-- while a call of the driver or of the settings waits, inside one.
use gps_base_station.Prelude.{
  ℕ, ◌+◌, ◌-◌, List, Option, none, some, Bool, true, false, not, ◌&&◌, ltb, leb, ◌==◌,
  if◌then◌else◌, take,
}
use gps_base_station.Storage.{WifiCredentials, c_str}
use gps_base_station.Survey.Text.{ℤ, pos, negsuc}
use gps_base_station.Wifi.{
  WifiApi, k_retry_interval_ms, k_ap_fallback_ms, k_ap_info_refresh_ms, State, request_connect,
  Event, handle_events,
}
use gps_base_station.Wifi.Modes.{disable_access_point, enable_ap_sta}

-- `now - last >= kRetryIntervalMs`.
abbrev pub is_due : ℕ → ℤ → Bool
is_due now (pos last) = leb (last + k_retry_interval_ms) now
is_due now (negsuc n) = leb k_retry_interval_ms (now + (n + 1))

-- The events that are handled inside a pass, in their order: while the driver is asked for its access point,
-- while the credentials are loaded, while the radio is switched, and behind the connection that is asked
-- for at the end of a switch.
pub record Seen : Type 0 where
  pub at_refresh : List (ℕ × Event)
  pub at_load : List (ℕ × Event)
  pub at_switch : List (ℕ × Event)
  pub at_connect : List (ℕ × Event)

module _ (api : WifiApi) where
  open api use {Radio, now_ms, get_ap_info}

  -- On a failure the last good value is kept.
  unfoldable pub cache : State api → Option (List ℕ × ℤ) → State api
  cache w none = w
  cache w (some (ssid, rssi)) = record w {
    cached_rssi = rssi;
    cached_ssid = c_str (take 32 ssid);
    cached_valid = true;
  }

  unfoldable pub refresh_ap_info : State api → List (ℕ × Event) → State api
  unfolding cache handle_events
  refresh_ap_info w seen =
      let now = now_ms w.radio in
      let (r, info) = get_ap_info w.radio in
      if not w.connected
      then record w { ap_info_last_ms = 0; cached_valid = false }
      else if not (w.ap_info_last_ms == 0) && ltb (now - w.ap_info_last_ms) k_ap_info_refresh_ms
      then w
      else cache (handle_events api (record w { ap_info_last_ms = now; radio = r }) seen) info

  abbrev pub with_pending : State api × Bool → State api
  with_pending (w, true) = w
  with_pending (w, false) = record w { disable_ap_pending = true }

  abbrev pub offline_ms : ℕ → ℕ → ℕ
  offline_ms at now = if ltb 0 at then now - at else 0

  unfoldable pub raised : ℕ → List (ℕ × Event) → State api × Bool → State api
  unfolding handle_events
  raised now seen (w, true) = record (handle_events api w seen) { last_retry_ms = pos now }
  raised now seen (w, false) = w

  -- Offline, with credentials: the access point is raised in the end, and the association is tried again
  -- from time to time.
  unfoldable pub retry : State api → Seen → ℕ → List ℕ → WifiCredentials → State api
  unfolding raised
  retry w seen now password credentials =
      if leb k_ap_fallback_ms (offline_ms w.disconnected_at_ms now)
        && not w.access_point_active
        && not w.connected
      then raised now seen.at_connect (enable_ap_sta api w seen.at_switch password credentials)
      else if is_due now w.last_retry_ms
      then request_connect api (record w { last_retry_ms = pos now })
      else w

  unfoldable pub after_load : State api → Seen → ℕ → List ℕ → WifiCredentials → State api
  unfolding retry
  after_load w seen now password credentials =
      if credentials.valid && not w.connected then retry w seen now password credentials else w

  unfoldable pub after_refresh : State api → Seen → ℕ → List ℕ → WifiCredentials → State api
  unfolding after_load
  after_refresh w seen now password credentials =
      if w.disable_ap_pending
      then with_pending
          (disable_access_point api (record w { disable_ap_pending = false }) seen.at_switch)
      else after_load (handle_events api w seen.at_load) seen now password credentials

  unfoldable pub recovery_pass : State api → Seen → List ℕ → WifiCredentials → State api
  unfolding refresh_ap_info after_refresh
  recovery_pass w seen password credentials =
      after_refresh (refresh_ap_info w seen.at_refresh) seen (now_ms w.radio) password credentials
