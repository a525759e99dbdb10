-- ===== src/Wifi/Works.antt =====
-- A driver that works, and the access point that it brings up (main/wifi_manager.cpp).
use gps_base_station.Prelude.{
  ℕ, ◌≡◌, refl, List, [], ◌∷◌, Option, none, some, Bool, true, false, arith,
}
use gps_base_station.Storage.{WifiCredentials}
use gps_base_station.Wifi.{
  Mode, Interface, apsta, WifiApi, ApConfig, StaConfig, State, request_connect, ap_if, sta_if,
  fill_ap_config, sta_config, lost_ip, sta_disconnected, handle_event, handle_events, Event, got_ip,
  other_event,
}
use gps_base_station.Wifi.Modes.{both_on, and_then, stop_if, with_mac, switch_mode, radio_to_apsta}
use gps_base_station.Wifi.Recovery.{raised}

-- The driver takes what the manager asks of it when it raises the access point.
pub record Works (api : WifiApi) : Type 0 where
  pub known_mode : (r : api.Radio) → (m : Mode) × (api.get_mode r ≡ some m)
  pub takes_mode : (r : api.Radio) (m : Mode) → (api.set_mode r m).1 ≡ true
  pub takes_ap : (r : api.Radio) (c : ApConfig) → (api.set_ap_config r c).1 ≡ true
  pub takes_sta : (r : api.Radio) (c : StaConfig) → (api.set_sta_config r c).1 ≡ true
  pub starts : (r : api.Radio) → (api.wifi_start r).1 ≡ true

module _ (api : WifiApi) where
  open api use {Radio}

  and_then_ok :
      (o : Radio × Bool) (f : Radio → Radio × Bool)
      → o.1 ≡ true
      → ((r : Radio) → (f r).1 ≡ true)
      → (and_then api o f).1 ≡ true
  and_then_ok (r, true) f ok oks = oks r
  and_then_ok (r, false) f ok oks = absurd (ground arith)

  with_mac_ok : (o : Radio × Bool) (i : Interface) → o.1 ≡ true → (with_mac api i o).1 ≡ true
  with_mac_ok (r, true) i ok = refl
  with_mac_ok (r, false) i ok = ok

  stop_ok : (r : Radio) (o : Option Mode) (m : Mode) → o ≡ some m → (stop_if api r o).1 ≡ true
  stop_ok r none m e = absurd (ground arith)
  stop_ok r (some k) m e = refl

  pub radio_to_apsta_ok :
      (password : List ℕ) (credentials : WifiCredentials)
      → Works api
      → (r : Radio) → (radio_to_apsta api r password credentials).1 ≡ true
  unfolding radio_to_apsta switch_mode
  radio_to_apsta_ok password credentials works r =
      and_then_ok (stop_if api r (api.get_mode r)) _
        (stop_ok r (api.get_mode r) (works.known_mode r).0 (works.known_mode r).1)
        (λ r1. and_then_ok (api.set_mode r1 apsta) _ (works.takes_mode r1 apsta) (λ r2.
          and_then_ok _ api.wifi_start
            (and_then_ok (api.set_ap_config r2 (fill_ap_config password)) _
              (works.takes_ap r2 (fill_ap_config password))
              (λ r3.
                with_mac_ok _ sta_if
                  (with_mac_ok _ ap_if (works.takes_sta r3 (sta_config credentials)))))
            works.starts))

  pub both_on-active :
      (w : State api) (o : Radio × Bool)
      → o.1 ≡ true
      → ((both_on api w o).0.access_point_active ≡ true) × ((both_on api w o).1 ≡ true)
  unfolding both_on request_connect
  both_on-active w (r, true) ok = (refl, refl)
  both_on-active w (r, false) ok = absurd (ground arith)

  handle_event-active :
      (w : State api) (now : ℕ) (e : Event)
      → w.access_point_active ≡ true
      → (handle_event api w now e).access_point_active ≡ true
  unfolding handle_event
  handle_event-active w now got_ip up = up
  handle_event-active w now lost_ip up = up
  handle_event-active w now sta_disconnected up = up
  handle_event-active w now other_event up = up

  events-active :
      (w : State api) (events : List (ℕ × Event))
      → w.access_point_active ≡ true
      → (handle_events api w events).access_point_active ≡ true
  unfolding handle_events
  events-active w [] up = up
  events-active w ((now, e) ∷ events) up =
      events-active (handle_event api w now e) events (handle_event-active w now e up)

  pub raised-up :
      (now : ℕ) (seen : List (ℕ × Event)) (o : State api × Bool)
      → o.0.access_point_active ≡ true
      → (raised api now seen o).access_point_active ≡ true
  unfolding raised
  raised-up now seen (w, true) up = events-active w seen up
  raised-up now seen (w, false) up = up

  pub request-active :
      (w : State api)
      → w.access_point_active ≡ true
      → (request_connect api w).access_point_active ≡ true
  unfolding request_connect
  request-active w up = up
