-- ===== src/Wifi/Reach.antt =====
-- What holds between the steps of the WiFi manager, in any order (main/wifi_manager.cpp).
use gps_base_station.Prelude.{
  ℕ, ◌-◌, ◌≡◌, refl, inl, inr, List, Option, none, some, Bool, false, not, ◌&&◌, leb, ltb, ◌==◌,
  arith, Bool-cases, if_cases,
}
use gps_base_station.Storage.{WifiCredentials}
use gps_base_station.Survey.Text.{ℤ, pos}
use gps_base_station.Wifi.{WifiApi, State, boot, fill_ap_config, Event, handle_event, handle_events}
use gps_base_station.Wifi.Modes.{
  enable_access_point, enable_station_only, disable_access_point, enable_ap_sta, radio_to_sta,
  radio_to_apsta, radio_to_station, radio_to_ap, update_credentials, apply_ap_settings, first_mode,
}
use gps_base_station.Wifi.Recovery.{
  is_due, offline_ms, cache, refresh_ap_info, retry, after_load, after_refresh, Seen, recovery_pass,
}
use gps_base_station.Wifi.InStep.{
  Failed, InStep, request_connect-InStep, with_radio-InStep, handle_event-InStep, events-InStep,
  Steady, events-Steady, Down, events-Down, access_point_on-InStep, station_on-InStep,
  access_point_off-InStep, both_on-InStep,
}

module _ (api : WifiApi) where
  open api use {Radio}

  -- The flags stay.
  pub record SameFlags (w w' : State api) : Type 0 where
    pub connected : w'.connected ≡ w.connected
    pub bit : w'.connected_bit ≡ w.connected_bit
    pub active : w'.access_point_active ≡ w.access_point_active
    pub pending : w'.disable_ap_pending ≡ w.disable_ap_pending
    pub timer : w'.disconnected_at_ms ≡ w.disconnected_at_ms

  cache-SameFlags : (w : State api) (o : Option (List ℕ × ℤ)) → SameFlags w (cache api w o)
  unfolding cache
  cache-SameFlags w none = record {
    connected = refl;
    bit = refl;
    active = refl;
    pending = refl;
    timer = refl;
  }
  cache-SameFlags w (some (ssid, rssi)) = record {
    connected = refl;
    bit = refl;
    active = refl;
    pending = refl;
    timer = refl;
  }

  SameFlags-InStep :
      {R : Type 0} (w w' : State api) → SameFlags w w' → InStep api R w → InStep api R w'
  SameFlags-InStep w w' same v = record {
    timer_off = λ e. cc (same.timer, v.timer_off (cc (same.connected, e)));
    bit_set = λ e. cc (same.bit, v.bit_set (cc (same.connected, e)));
    pending_connected = λ p. elim (v.pending_connected (cc (same.pending, p))) [
      | inl on ↦ inl (cc (same.connected, on))
      | inr refuses ↦ inr refuses
    ];
  }

  refresh-InStep :
      {R : Type 0} (w : State api) (seen : List (ℕ × Event))
      → InStep api R w
      → InStep api R (refresh_ap_info api w seen)
  unfolding refresh_ap_info
  refresh-InStep w seen v =
      if_cases (InStep api _) (not w.connected) _ _
        (λ off. record {
          timer_off = v.timer_off;
          bit_set = v.bit_set;
          pending_connected = v.pending_connected;
        })
        (λ on.
          if_cases (InStep api _)
            (not (w.ap_info_last_ms == 0) && ltb (api.now_ms w.radio - w.ap_info_last_ms) 5000) _ _
            (λ early. v)
            (λ late.
              let w1 = record w {
                ap_info_last_ms = api.now_ms w.radio;
                radio = (api.get_ap_info w.radio).0;
              } in
              SameFlags-InStep _ _
                (cache-SameFlags (handle_events api w1 seen) (api.get_ap_info w.radio).1)
                (events-InStep api w1 seen (record {
                  timer_off = v.timer_off;
                  bit_set = v.bit_set;
                  pending_connected = v.pending_connected;
                }))))

  retry-InStep :
      {R : Type 0} (w : State api) (seen : Seen) (now : ℕ) (password : List ℕ)
      (credentials : WifiCredentials)
      → w.disable_ap_pending ≡ false
      → InStep api R w
      → InStep api R (retry api w seen now password credentials)
  unfolding retry enable_ap_sta
  retry-InStep w seen now password credentials idle v =
      if_cases (InStep api _)
        (leb 120000 (offline_ms api w.disconnected_at_ms now)
          && not w.access_point_active
          && not w.connected)
        _ _
        (λ raise.
          let down : w.access_point_active ≡ false = ground (arith, raise) in
          both_on-InStep api (handle_events api w seen.at_switch)
            (radio_to_apsta api w.radio password credentials) now seen.at_connect
            (events-Down api w seen.at_switch (down, idle)).1
            (events-InStep api w seen.at_switch v))
        (λ wait.
          if_cases (InStep api _) (is_due now w.last_retry_ms) _ _
            (λ due.
              request_connect-InStep api (record w { last_retry_ms = pos now })
                (record {
                  timer_off = v.timer_off;
                  bit_set = v.bit_set;
                  pending_connected = v.pending_connected;
                }))
            (λ early. v))

  after_load-InStep :
      {R : Type 0} (w : State api) (seen : Seen) (now : ℕ) (password : List ℕ)
      (credentials : WifiCredentials)
      → Steady api w
      → InStep api R w
      → InStep api R (after_load api w seen now password credentials)
  unfolding after_load
  after_load-InStep w seen now password credentials steady v =
      if_cases (InStep api _) (credentials.valid && not w.connected) _ _
        (λ offline.
          let away : w.connected ≡ false = ground (arith, offline) in
          let idle : w.disable_ap_pending ≡ false = elim (Bool-cases w.disable_ap_pending) [
            | inl p ↦ absurd (cc (steady p, away))
            | inr idle ↦ idle
          ] in
          retry-InStep w seen now password credentials idle v)
        (λ fine. v)

  after_refresh-InStep :
      {R : Type 0} (w : State api) (seen : Seen) (now : ℕ) (password : List ℕ)
      (credentials : WifiCredentials)
      → InStep api R w
      → InStep api (Failed api w) (after_refresh api w seen now password credentials)
  unfolding after_refresh disable_access_point
  after_refresh-InStep w seen now password credentials v =
      if_cases (InStep api (Failed api w)) w.disable_ap_pending _ _
        (λ pending.
          access_point_off-InStep api
            (handle_events api (record w { disable_ap_pending = false }) seen.at_switch)
            (radio_to_sta api w.radio) (λ fails. (pending, fails))
            (events-InStep api (record w { disable_ap_pending = false }) seen.at_switch
              (record {
                timer_off = v.timer_off;
                bit_set = v.bit_set;
                pending_connected = λ p. absurd (ground arith);
              })))
        (λ idle.
          after_load-InStep (handle_events api w seen.at_load) seen now password credentials
            (events-Steady api w seen.at_load (λ p. absurd (cc (p, idle))))
            (events-InStep api w seen.at_load (record {
              timer_off = v.timer_off;
              bit_set = v.bit_set;
              pending_connected = λ p. absurd (cc (p, idle));
            })))

  recovery_pass-InStep :
      {R : Type 0} (w : State api) (seen : Seen) (password : List ℕ) (credentials : WifiCredentials)
      → InStep api R w
      → InStep api
          (Failed api (refresh_ap_info api w seen.at_refresh))
          (recovery_pass api w seen password credentials)
  unfolding recovery_pass
  recovery_pass-InStep w seen password credentials v =
      after_refresh-InStep (refresh_ap_info api w seen.at_refresh) seen (api.now_ms w.radio)
        password credentials (refresh-InStep w seen.at_refresh v)

  -- What may happen to the manager, in any order: events of the driver, also while a call switches the radio
  -- or a pass is under way, passes of its task, and, between these, the calls of the user interfaces.
  pub data Reachable : State api → Type 0 where
    begun :
        (r : Radio) (seen : List (ℕ × Event)) (password : List ℕ) (credentials : WifiCredentials)
        → Reachable (first_mode api (boot api r) seen password credentials).0
    on_event :
        {w : State api} (now : ℕ) (e : Event) → Reachable w → Reachable (handle_event api w now e)
    on_pass :
        {w : State api} (seen : Seen) (password : List ℕ) (credentials : WifiCredentials)
        → Reachable w
        → Reachable (recovery_pass api w seen password credentials)
    on_update :
        {w : State api} (seen : List (ℕ × Event)) (credentials : WifiCredentials)
        → Reachable w
        → Reachable (update_credentials api w seen credentials).0
    on_settings :
        {w : State api} (password : List ℕ)
        → Reachable w
        → Reachable (apply_ap_settings api w password).0

  -- The latest pass failed to take the access point down.
  unfoldable pub LastFailed : {w : State api} → Reachable w → Type 0
  LastFailed (begun r seen password credentials) = ⊥
  LastFailed (on_event now e reached) = LastFailed reached
  LastFailed (on_pass {w = w} seen password credentials reached) =
      Failed api (refresh_ap_info api w seen.at_refresh)
  LastFailed (on_update seen credentials reached) = LastFailed reached
  LastFailed (on_settings password reached) = LastFailed reached

  boot-InStep : (r : Radio) → InStep api ⊥ (boot api r)
  unfolding boot
  boot-InStep r = record {
    timer_off = λ e. refl;
    bit_set = λ e. absurd (ground arith);
    pending_connected = λ e. absurd (ground arith);
  }

  boot-Down : (r : Radio) → Down api (boot api r)
  unfolding boot
  boot-Down r = (refl, refl)

  begun-InStep :
      (w : State api) (seen : List (ℕ × Event)) (password : List ℕ) (credentials : WifiCredentials)
      → Down api w
      → InStep api ⊥ w
      → InStep api ⊥ (first_mode api w seen password credentials).0
  unfolding first_mode enable_station_only enable_access_point
  begun-InStep w seen password credentials down v =
      if_cases {A = State api × Bool} (λ r. InStep api ⊥ r.0) credentials.valid _ _
        (λ known.
          station_on-InStep api (handle_events api w seen)
            (radio_to_station api w.radio credentials) (events-InStep api w seen v))
        (λ none_.
          access_point_on-InStep api (handle_events api w seen) (radio_to_ap api w.radio password)
            (events-Down api w seen down).1 (events-InStep api w seen v))

  -- In every state that is reached, events inside the switches of the radio and inside the passes included:
  -- while the station is connected, its timer of being offline stands still and its event bit is set; and
  -- while the access point is marked to be taken down, the station is connected, or the latest pass tried to
  -- take it down and the driver failed.
  pub Reachable-InStep : {w : State api} (reached : Reachable w) → InStep api (LastFailed reached) w
  unfolding LastFailed update_credentials apply_ap_settings enable_station_only
  Reachable-InStep (begun r seen password credentials) =
      begun-InStep (boot api r) seen password credentials (boot-Down r) (boot-InStep r)
  Reachable-InStep (on_event {w = w} now e reached) =
      handle_event-InStep api w now e (Reachable-InStep reached)
  Reachable-InStep (on_pass {w = w} seen password credentials reached) =
      recovery_pass-InStep w seen password credentials (Reachable-InStep reached)
  Reachable-InStep (on_update {w = w} seen credentials reached) =
      let r = api.wifi_disconnect w.radio in
      station_on-InStep api (handle_events api (record w { radio = r }) seen)
        (radio_to_station api r credentials)
        (events-InStep api (record w { radio = r }) seen
          (with_radio-InStep api w r (Reachable-InStep reached)))
  Reachable-InStep (on_settings {w = w} password reached) =
      with_radio-InStep api w (api.set_ap_config w.radio (fill_ap_config password)).0
        (Reachable-InStep reached)
