-- ===== src/Wifi/Modes.antt =====
-- The modes of the radio in main/wifi_manager.cpp: `enable_access_point` to `apply_ap_settings`. The events
-- of an operation are those that are handled while its radio is switched, before its members are set.
use gps_base_station.Prelude.{ℕ, List, Option, none, some, Bool, true, false, if◌then◌else◌}
use gps_base_station.Storage.{WifiCredentials}
use gps_base_station.Survey.Text.{pos}
use gps_base_station.Wifi.{
  WifiApi, Mode, null_mode, sta, ap, apsta, Interface, sta_if, ap_if, State, sta_config,
  fill_ap_config, request_connect, Event, handle_events,
}

module _ (api : WifiApi) where
  open api use {
    Radio, now_ms, get_mode, wifi_stop, set_mode, set_ap_config, set_sta_config, set_mac,
    wifi_start, set_ps_none, wifi_connect, wifi_disconnect, get_ap_info,
  }

  -- `ESP_RETURN_ON_ERROR`: the steps behind a failed one are left out.
  abbrev pub and_then : Radio × Bool → (Radio → Radio × Bool) → Radio × Bool
  and_then (r, true) next = next r
  and_then (r, false) next = (r, false)

  abbrev pub is_null : Mode → Bool
  is_null null_mode = true
  is_null sta = false
  is_null ap = false
  is_null apsta = false

  abbrev pub stop_if : Radio → Option Mode → Radio × Bool
  stop_if r none = (r, false)
  stop_if r (some mode) = (if is_null mode then r else wifi_stop r, true)

  -- The radio is stopped, and started in another mode.
  unfoldable pub switch_mode : Radio → Mode → (Radio → Radio × Bool) → Radio × Bool
  switch_mode r mode configure =
      and_then (stop_if r (get_mode r))
        (λ r1. and_then (set_mode r1 mode) (λ r2. and_then (configure r2) wifi_start))

  abbrev pub with_mac : Interface → Radio × Bool → Radio × Bool
  with_mac i (r, true) = (set_mac r i, true)
  with_mac i (r, false) = (r, false)

  -- The members as they are set behind a switch that went well, and as they stay behind one that failed.
  unfoldable pub access_point_on : State api → Radio × Bool → State api × Bool
  access_point_on w (r, false) = (record w { radio = r }, false)
  access_point_on w (r, true) = (
    record w {
      radio = r;
      access_point_active = true;
      connected = false;
      last_retry_ms = pos (now_ms r);
    },
    true,
  )

  unfoldable pub radio_to_ap : Radio → List ℕ → Radio × Bool
  unfolding switch_mode
  radio_to_ap r password =
      switch_mode r ap (λ r1. with_mac ap_if (set_ap_config r1 (fill_ap_config password)))

  unfoldable pub enable_access_point : State api → List (ℕ × Event) → List ℕ → State api × Bool
  unfolding radio_to_ap access_point_on handle_events
  enable_access_point w seen password =
      access_point_on (handle_events api w seen) (radio_to_ap w.radio password)

  unfoldable pub station_on : State api → Radio × Bool → State api × Bool
  unfolding request_connect
  station_on w (r, false) = (record w { radio = r }, false)
  station_on w (r, true) = (
    request_connect api (record w {
      radio = set_ps_none r;
      access_point_active = false;
      disable_ap_pending = false;
      connected = false;
      disconnected_at_ms = 0;
      last_retry_ms = pos 0;
    }),
    true,
  )

  unfoldable pub radio_to_station : Radio → WifiCredentials → Radio × Bool
  unfolding switch_mode
  radio_to_station r credentials =
      switch_mode r sta (λ r1. with_mac sta_if (set_sta_config r1 (sta_config credentials)))

  unfoldable pub enable_station_only :
      State api → List (ℕ × Event) → WifiCredentials → State api × Bool
  unfolding radio_to_station station_on handle_events
  enable_station_only w seen credentials =
      station_on (handle_events api w seen) (radio_to_station w.radio credentials)

  unfoldable pub access_point_off : State api → Radio × Bool → State api × Bool
  unfolding request_connect
  access_point_off w (r, false) = (record w { radio = r }, false)
  access_point_off w (r, true) = (
    request_connect api
        (record w { radio = set_ps_none r; access_point_active = false; disconnected_at_ms = 0 }),
    true,
  )

  -- The station's configuration is still the driver's.
  unfoldable pub radio_to_sta : Radio → Radio × Bool
  unfolding switch_mode
  radio_to_sta r = switch_mode r sta (λ r1. (set_mac r1 sta_if, true))

  unfoldable pub disable_access_point : State api → List (ℕ × Event) → State api × Bool
  unfolding radio_to_sta access_point_off handle_events
  disable_access_point w seen = access_point_off (handle_events api w seen) (radio_to_sta w.radio)

  unfoldable pub both_on : State api → Radio × Bool → State api × Bool
  unfolding request_connect
  both_on w (r, false) = (record w { radio = r }, false)
  both_on w (r, true) = (
    request_connect api (record w {
      radio = set_ps_none r;
      access_point_active = true;
      connected = false;
      disconnected_at_ms = 0;
      last_retry_ms = pos 0;
    }),
    true,
  )

  unfoldable pub radio_to_apsta : Radio → List ℕ → WifiCredentials → Radio × Bool
  unfolding switch_mode
  radio_to_apsta r password credentials = switch_mode r apsta (λ r1.
      and_then (set_ap_config r1 (fill_ap_config password))
        (λ r2. with_mac sta_if (with_mac ap_if (set_sta_config r2 (sta_config credentials)))))

  unfoldable pub enable_ap_sta :
      State api → List (ℕ × Event) → List ℕ → WifiCredentials → State api × Bool
  unfolding radio_to_apsta both_on handle_events
  enable_ap_sta w seen password credentials =
      both_on (handle_events api w seen) (radio_to_apsta w.radio password credentials)

  unfoldable pub update_credentials :
      State api → List (ℕ × Event) → WifiCredentials → State api × Bool
  unfolding enable_station_only
  update_credentials w seen credentials =
      enable_station_only (record w { radio = wifi_disconnect w.radio }) seen credentials

  unfoldable pub apply_ap_settings : State api → List ℕ → State api × Bool
  apply_ap_settings w password =
      let (r, ok) = set_ap_config w.radio (fill_ap_config password) in (record w { radio = r }, ok)

  -- The end of `start`: which mode the radio begins in.
  unfoldable pub first_mode :
      State api → List (ℕ × Event) → List ℕ → WifiCredentials → State api × Bool
  unfolding enable_access_point enable_station_only
  first_mode w seen password credentials =
      if credentials.valid
      then enable_station_only w seen credentials
      else enable_access_point w seen password
