-- ===== src/Wifi/InStep.antt =====
-- What holds of the WiFi manager's flags, kept by its events and by the switches of the radio
-- (main/wifi_manager.cpp).
use gps_base_station.Prelude.{ℕ, ◌≡◌, refl, ◌∷◌, [], ◌⊎◌, inr, List, Bool, true, false, arith}
use gps_base_station.Survey.Text.{pos}
use gps_base_station.Wifi.{
  WifiApi, State, request_connect, Event, got_ip, lost_ip, sta_disconnected, other_event,
  handle_event, handle_events,
}
use gps_base_station.Wifi.Modes.{
  access_point_on, station_on, access_point_off, both_on, radio_to_sta,
}
use gps_base_station.Wifi.Recovery.{with_pending, raised}

module _ (api : WifiApi) where
  open api use {Radio}

  -- A pass took the access point down, and the driver failed at it: in this state, behind the refresh.
  abbrev pub Failed : State api → Type 0
  Failed u = (u.disable_ap_pending ≡ true) × ((radio_to_sta api u.radio).1 ≡ false)

  -- The offline timer stands still while connected; the access point is marked to be taken down while
  -- connected, or for the reason `R`.
  pub record InStep (R : Type 0) (w : State api) : Type 0 where
    pub timer_off : w.connected ≡ true → w.disconnected_at_ms ≡ 0
    pub bit_set : w.connected ≡ true → w.connected_bit ≡ true
    pub pending_connected : w.disable_ap_pending ≡ true → (w.connected ≡ true) ⊎ R

  pub request_connect-InStep :
      {R : Type 0} (w : State api) → InStep R w → InStep R (request_connect api w)
  unfolding request_connect
  request_connect-InStep w v = ground arith

  pub with_radio-InStep :
      {R : Type 0} (w : State api) (r : Radio) → InStep R w → InStep R (record w { radio = r })
  with_radio-InStep w r v = record {
    timer_off = v.timer_off;
    bit_set = v.bit_set;
    pending_connected = v.pending_connected;
  }

  pub handle_event-InStep :
      {R : Type 0} (w : State api) (now : ℕ) (e : Event)
      → InStep R w
      → InStep R (handle_event api w now e)
  unfolding handle_event
  handle_event-InStep w now got_ip v = ground arith
  handle_event-InStep w now lost_ip v = ground arith
  handle_event-InStep w now sta_disconnected v = ground arith
  handle_event-InStep w now other_event v = v

  pub events-InStep :
      {R : Type 0} (w : State api) (events : List (ℕ × Event))
      → InStep R w
      → InStep R (handle_events api w events)
  unfolding handle_events
  events-InStep w [] v = v
  events-InStep w ((now, e) ∷ events) v =
      events-InStep (handle_event api w now e) events (handle_event-InStep w now e v)

  -- From an idle flag on, only a connected station marks the access point.
  abbrev pub Steady : State api → Type 0
  Steady w = w.disable_ap_pending ≡ true → w.connected ≡ true

  handle_event-Steady :
      (w : State api) (now : ℕ) (e : Event) → Steady w → Steady (handle_event api w now e)
  unfolding handle_event
  handle_event-Steady w now got_ip v = λ p. refl
  handle_event-Steady w now lost_ip v = λ p. absurd (ground arith)
  handle_event-Steady w now sta_disconnected v = λ p. absurd (ground arith)
  handle_event-Steady w now other_event v = v

  pub events-Steady :
      (w : State api) (events : List (ℕ × Event)) → Steady w → Steady (handle_events api w events)
  unfolding handle_events
  events-Steady w [] v = v
  events-Steady w ((now, e) ∷ events) v =
      events-Steady (handle_event api w now e) events (handle_event-Steady w now e v)

  -- While the access point is down nothing marks it.
  abbrev pub Down : State api → Type 0
  Down w = (w.access_point_active ≡ false) × (w.disable_ap_pending ≡ false)

  handle_event-Down :
      (w : State api) (now : ℕ) (e : Event) → Down w → Down (handle_event api w now e)
  unfolding handle_event
  handle_event-Down w now got_ip (a, p) = (a, rw a p)
  handle_event-Down w now lost_ip (a, p) = (a, refl)
  handle_event-Down w now sta_disconnected (a, p) = (a, refl)
  handle_event-Down w now other_event v = v

  pub events-Down :
      (w : State api) (events : List (ℕ × Event)) → Down w → Down (handle_events api w events)
  unfolding handle_events
  events-Down w [] v = v
  events-Down w ((now, e) ∷ events) v =
      events-Down (handle_event api w now e) events (handle_event-Down w now e v)

  pub access_point_on-InStep :
      {R : Type 0} (w : State api) (o : Radio × Bool)
      → w.disable_ap_pending ≡ false
      → InStep R w
      → InStep R (access_point_on api w o).0
  unfolding access_point_on
  access_point_on-InStep w (r, true) idle v = record {
    timer_off = λ e. absurd (ground arith);
    bit_set = λ e. absurd (ground arith);
    pending_connected = λ p. absurd (cc (p, idle));
  }
  access_point_on-InStep w (r, false) idle v = with_radio-InStep w r v

  pub station_on-InStep :
      {R : Type 0} (w : State api) (o : Radio × Bool) → InStep R w → InStep R (station_on api w o).0
  unfolding station_on request_connect
  station_on-InStep w (r, true) v = record {
    timer_off = λ e. refl;
    bit_set = λ e. absurd (ground arith);
    pending_connected = λ p. absurd (ground arith);
  }
  station_on-InStep w (r, false) v = with_radio-InStep w r v

  -- The pending flag is set again where the call failed, whatever was handled meanwhile.
  pub access_point_off-InStep :
      {R : Type 0} (w : State api) (o : Radio × Bool)
      → (o.1 ≡ false → R)
      → InStep R w
      → InStep R (with_pending api (access_point_off api w o))
  unfolding access_point_off request_connect
  access_point_off-InStep w (r1, true) e v = record {
    timer_off = λ on. refl;
    bit_set = v.bit_set;
    pending_connected = v.pending_connected;
  }
  access_point_off-InStep w (r1, false) e v = record {
    timer_off = v.timer_off;
    bit_set = v.bit_set;
    pending_connected = λ p. inr (e refl);
  }

  pub both_on-InStep :
      {R : Type 0} (w : State api) (o : Radio × Bool) (now : ℕ) (seen : List (ℕ × Event))
      → w.disable_ap_pending ≡ false
      → InStep R w
      → InStep R (raised api now seen (both_on api w o))
  unfolding both_on request_connect raised
  both_on-InStep w (r, true) now seen idle v =
      let u = request_connect api (record w {
        radio = api.set_ps_none r;
        access_point_active = true;
        connected = false;
        disconnected_at_ms = 0;
        last_retry_ms = pos 0;
      }) in
      let x = events-InStep u seen (record {
        timer_off = λ e. refl;
        bit_set = λ e. absurd (ground arith);
        pending_connected = λ p. absurd (cc (p, idle));
      }) in
      record {
        timer_off = x.timer_off;
        bit_set = x.bit_set;
        pending_connected = x.pending_connected;
      }
  both_on-InStep w (r, false) now seen idle v = with_radio-InStep w r v
