-- ===== src/Wifi/Fallback.antt =====
-- The access point comes up: main/wifi_manager.cpp promises a device that can be configured after two
-- minutes offline.
use gps_base_station.Prelude.{
  ℕ, ◌+◌, ◌≤◌, ◌<◌, ◌≡◌, refl, ◌⊎◌, inl, List, [], ◌∷◌, Bool, true, false, not, ◌&&◌, leb, arith,
  if_cases,
}
use gps_base_station.Storage.{WifiCredentials}
use gps_base_station.Survey.Text.{pos}
use gps_base_station.Wifi.{
  WifiApi, State, request_connect, lost_ip, sta_disconnected, handle_event, handle_events, Event,
  got_ip, other_event,
}
use gps_base_station.Wifi.Modes.{both_on, radio_to_apsta, enable_ap_sta}
use gps_base_station.Wifi.Recovery.{
  is_due, offline_ms, refresh_ap_info, raised, retry, after_load, after_refresh, recovery_pass,
  Seen,
}
use gps_base_station.Wifi.Works.{
  Works, radio_to_apsta_ok, both_on-active, raised-up, request-active,
}

module _ (api : WifiApi) where
  open api use {Radio}

  -- No event says that the station has an address.
  abbrev pub IsAway : Event → Type 0
  IsAway got_ip = ⊥
  IsAway lost_ip = Unit {0}
  IsAway sta_disconnected = Unit {0}
  IsAway other_event = Unit {0}

  abbrev pub AllAway : List (ℕ × Event) → Type 0
  AllAway [] = Unit {0}
  AllAway ((now, e) ∷ events) = IsAway e × AllAway events

  pub record SeenAway (seen : Seen) : Type 0 where
    pub refresh_away : AllAway seen.at_refresh
    pub load_away : AllAway seen.at_load
    pub switch_away : AllAway seen.at_switch
    pub connect_away : AllAway seen.at_connect

  -- What goes on while the network stays away: passes, and events that say so, also inside the passes.
  pub data Quiet : Type 0 where
    pass : (seen : Seen) → SeenAway seen → Quiet
    dropped lost : ℕ → Quiet

  module _ (password : List ℕ) (credentials : WifiCredentials) where
    unfoldable pub quiet_step : State api → Quiet → State api
    quiet_step w (pass seen away) = recovery_pass api w seen password credentials
    quiet_step w (dropped now) = handle_event api w now sta_disconnected
    quiet_step w (lost now) = handle_event api w now lost_ip

    unfoldable pub quiet_steps : State api → List Quiet → State api
    unfolding quiet_step
    quiet_steps w [] = w
    quiet_steps w (s ∷ steps) = quiet_steps (quiet_step w s) steps

    -- Offline since `since`, until the access point is up.
    pub record Offline (since : ℕ) (w : State api) : Type 0 where
      pub away : w.connected ≡ false
      pub idle : w.disable_ap_pending ≡ false
      pub timed : (w.access_point_active ≡ true) ⊎ (w.disconnected_at_ms ≡ since)

    handle_event-Offline :
        (since : ℕ) (w : State api) (now : ℕ) (e : Event)
        → 0 < since
        → IsAway e
        → Offline since w
        → Offline since (handle_event api w now e)
    unfolding handle_event
    handle_event-Offline since w now got_ip set_ away v = absurd away
    handle_event-Offline since w now lost_ip set_ away v = ground arith
    handle_event-Offline since w now sta_disconnected set_ away v = ground arith
    handle_event-Offline since w now other_event set_ away v = v

    events-Offline :
        (since : ℕ) (w : State api) (events : List (ℕ × Event))
        → 0 < since
        → AllAway events
        → Offline since w
        → Offline since (handle_events api w events)
    unfolding handle_events
    events-Offline since w [] set_ away v = v
    events-Offline since w ((now, e) ∷ events) set_ away v =
        events-Offline since (handle_event api w now e) events set_ away.1
          (handle_event-Offline since w now e set_ away.0 v)

    both_on-Offline :
        (since : ℕ) (w : State api) (o : Radio × Bool) (now : ℕ) (seen : List (ℕ × Event))
        → 0 < since
        → AllAway seen
        → Offline since w
        → Offline since (raised api now seen (both_on api w o))
    unfolding both_on request_connect raised
    both_on-Offline since w (r, true) now seen set_ away v =
        let u = request_connect api (record w {
          radio = api.set_ps_none r;
          access_point_active = true;
          connected = false;
          disconnected_at_ms = 0;
          last_retry_ms = pos 0;
        }) in
        let x =
          events-Offline since u seen set_ away
            (record { away = refl; idle = v.idle; timed = inl refl }) in
        record { away = x.away; idle = x.idle; timed = x.timed }
    both_on-Offline since w (r, false) now seen set_ away v = record {
      away = v.away;
      idle = v.idle;
      timed = v.timed;
    }

    request-Offline :
        (since : ℕ) (w : State api) → Offline since w → Offline since (request_connect api w)
    unfolding request_connect
    request-Offline since w v = record { away = v.away; idle = v.idle; timed = v.timed }

    retry-Offline :
        (since : ℕ) (w : State api) (seen : Seen) (now : ℕ)
        → 0 < since
        → SeenAway seen
        → Offline since w
        → Offline since (retry api w seen now password credentials)
    unfolding retry enable_ap_sta
    retry-Offline since w seen now set_ away v =
        if_cases (Offline since)
          (leb 120000 (offline_ms api w.disconnected_at_ms now)
            && not w.access_point_active
            && not w.connected)
          _ _
          (λ raise.
            both_on-Offline since (handle_events api w seen.at_switch)
              (radio_to_apsta api w.radio password credentials) now seen.at_connect set_
              away.connect_away (events-Offline since w seen.at_switch set_ away.switch_away v))
          (λ wait.
            if_cases (Offline since) (is_due now w.last_retry_ms) _ _
              (λ due.
                request-Offline since (record w { last_retry_ms = pos now })
                  (record { away = v.away; idle = v.idle; timed = v.timed }))
              (λ early. v))

    refresh-Offline :
        (since : ℕ) (w : State api) (seen : List (ℕ × Event))
        → Offline since w
        → Offline since (refresh_ap_info api w seen)
    unfolding refresh_ap_info
    refresh-Offline since w seen v =
        if_cases (Offline since) (not w.connected) _ _
          (λ off. record { away = v.away; idle = v.idle; timed = v.timed })
          (λ on. absurd (ground (arith, v.away)))

    after-Offline :
        (since : ℕ) (w : State api) (seen : Seen) (now : ℕ)
        → 0 < since
        → SeenAway seen
        → Offline since w
        → Offline since (after_refresh api w seen now password credentials)
    unfolding after_refresh after_load
    after-Offline since w seen now set_ away v =
        let u = handle_events api w seen.at_load in
        let v1 = events-Offline since w seen.at_load set_ away.load_away v in
        if_cases (Offline since) w.disable_ap_pending _ _ (λ pending. absurd (cc (pending, v.idle)))
          (λ idle.
            if_cases (Offline since) (credentials.valid && not u.connected) _ _
              (λ offline. retry-Offline since u seen now set_ away v1) (λ fine. v1))

    quiet_step-Offline :
        (since : ℕ) (w : State api) (s : Quiet)
        → 0 < since
        → Offline since w
        → Offline since (quiet_step w s)
    unfolding quiet_step recovery_pass handle_event
    quiet_step-Offline since w (pass seen away) set_ v =
        after-Offline since (refresh_ap_info api w seen.at_refresh) seen (api.now_ms w.radio) set_
          away (refresh-Offline since w seen.at_refresh v)
    quiet_step-Offline since w (dropped now) set_ v = ground arith
    quiet_step-Offline since w (lost now) set_ v = ground arith

    quiet_steps-Offline :
        (since : ℕ) (steps : List Quiet) (w : State api)
        → 0 < since
        → Offline since w
        → Offline since (quiet_steps w steps)
    unfolding quiet_steps
    quiet_steps-Offline since [] w set_ v = v
    quiet_steps-Offline since (s ∷ steps) w set_ v =
        quiet_steps-Offline since steps (quiet_step w s) set_ (quiet_step-Offline since w s set_ v)

    retry-up :
        (since : ℕ) (w : State api) (seen : Seen) (now : ℕ)
        → Works api
        → 0 < since
        → since + 120000 ≤ now
        → Offline since w
        → (retry api w seen now password credentials).access_point_active ≡ true
    unfolding retry enable_ap_sta
    retry-up since w seen now works set_ late v =
        if_cases {A = State api} (λ u. u.access_point_active ≡ true)
          (leb 120000 (offline_ms api w.disconnected_at_ms now)
            && not w.access_point_active
            && not w.connected)
          _ _
          (λ raise.
            raised-up api now seen.at_connect _
              (both_on-active api (handle_events api w seen.at_switch)
                (radio_to_apsta api w.radio password credentials)
                (radio_to_apsta_ok api password credentials works w.radio)).0)
          (λ wait.
            if_cases {A = State api} (λ u. u.access_point_active ≡ true)
              (is_due now w.last_retry_ms) _ _
              (λ due. request-active api (record w { last_retry_ms = pos now }) (up_already wait))
              (λ early. up_already wait))
      where
        up_already :
            (leb 120000 (offline_ms api w.disconnected_at_ms now)
                && not w.access_point_active
                && not w.connected)
              ≡ false
            → w.access_point_active ≡ true
        up_already wait = ground (arith, v.away)

    after-up :
        (since : ℕ) (w : State api) (seen : Seen) (now : ℕ)
        → Works api
        → credentials.valid ≡ true
        → 0 < since
        → since + 120000 ≤ now
        → SeenAway seen
        → Offline since w
        → (after_refresh api w seen now password credentials).access_point_active ≡ true
    unfolding after_refresh after_load
    after-up since w seen now works valid set_ late away v =
        let u = handle_events api w seen.at_load in
        let v1 = events-Offline since w seen.at_load set_ away.load_away v in
        if_cases {A = State api} (λ u. u.access_point_active ≡ true) w.disable_ap_pending _ _
          (λ pending. absurd (cc (pending, v.idle)))
          (λ idle.
            if_cases {A = State api} (λ u. u.access_point_active ≡ true)
              (credentials.valid && not u.connected) _ _
              (λ offline. retry-up since u seen now works set_ late v1)
              (λ fine. absurd (ground (arith, valid, v1.away))))

    -- If the driver works and credentials are stored, the access point is up behind the first pass that
    -- starts two minutes or more after the station was lost, however many passes and events of a lost
    -- station lie in between, also events handled inside the passes, and whatever the driver's clock and its
    -- answers to them are.
    pub quiet_steps-up :
        (since : ℕ) (steps : List Quiet) (w : State api) (seen : Seen)
        → Works api
        → credentials.valid ≡ true
        → 0 < since
        → Offline since w
        → SeenAway seen
        → since + 120000 ≤ api.now_ms (quiet_steps w steps).radio
        → (recovery_pass api (quiet_steps w steps) seen password credentials).access_point_active
          ≡ true
    unfolding recovery_pass
    quiet_steps-up since steps w seen works valid set_ v away late =
        let u = quiet_steps w steps in
        after-up since (refresh_ap_info api u seen.at_refresh) seen (api.now_ms u.radio) works valid
          set_ late away
          (refresh-Offline since u seen.at_refresh (quiet_steps-Offline since steps w set_ v))
