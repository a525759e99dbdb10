-- ===== src/Station/Reach.antt =====
-- What holds in every state that the station reaches, in any order of passes of its task, requests of
-- other tasks and steps of the casters' own tasks.
use gps_base_station.Prelude.{
  ℕ, zero, suc, ◌≡◌, ◌⊎◌, inl, inr, refl, sym, ◌∙◌, List, Option, none, some, Bool, true, false,
  arith, Bool-cases, Option-cases,
}
use gps_base_station.Freertos.{QueueApi}
use gps_base_station.Nvs.{NvsApi}
use gps_base_station.Storage.{load_position}
use gps_base_station.Station.{
  BaseMode, survey, transmit, is_transmit, Action, Flags, Outlets, Station,
  effective_streams_suspended, effective_outbound_streams_suspended, set_streams_suspended,
  set_network_available, set_streams_enabled, apply_persisted_streams, reload_services,
}
use gps_base_station.Station.Modes.{handle_action}
use gps_base_station.Station.Feed.{
  read_command_uart, read_data_uart_raw, read_data_uart, until_short, until_empty,
}
use gps_base_station.Station.Loop.{
  Tick, drain, survey_pass, data_pass, run_pass, begin, request, enqueue,
}
use gps_base_station.Station.Streams.{
  IsValid, enter_survey-IsValid, enter_transmit-IsValid, save_and_transmit-IsValid,
  handle_action-IsValid,
}
use gps_base_station.Station.Gates.{
  SameGates, keep_flags-IsValid, feed_survey-IsValid, feed_rinex-IsValid, read_data_uart-IsValid,
}
use gps_base_station.Station.Switches.{
  close_window-IsValid, count_bytes-IsValid, set_streams_suspended-IsValid,
  set_network_available-IsValid, set_streams_enabled-IsValid, apply_persisted_streams-IsValid,
  reload_services-IsValid,
}

module _ {D : Type 0} (nvs : NvsApi D) (zero_double : D) (actions : QueueApi (Action D))
    (packets : QueueApi (List ℕ)) where
  open nvs use {Nvs}

  abbrev pub State : Type 0
  State = Station D Nvs packets.Queue actions.Queue

  with_actions-IsValid :
      (s : State) (q : Option actions.Queue) → IsValid s → IsValid (record s { actions = q })
  with_actions-IsValid s q v = record {
    in_step = v.in_step;
    raw_mode = v.raw_mode;
    logged = v.logged;
  }

  drain-IsValid :
      (fuel : ℕ) (s : State) (q : Option actions.Queue) (now : ℕ)
      → IsValid s
      → IsValid (drain nvs zero_double actions fuel s q now)
  unfolding drain
  drain-IsValid zero s q now v = with_actions-IsValid s q v
  drain-IsValid (suc fuel) s none now v = with_actions-IsValid s none v
  drain-IsValid (suc fuel) s (some q) now v = elim (Option-cases (actions.receive q).1) [
    | inl idle ↦ rw (idle, drain) (with_actions-IsValid s (some (actions.receive q).0) v)
    | inr (a, got) ↦
        rw (got, drain)
          (drain-IsValid fuel (handle_action nvs zero_double s a now) (some (actions.receive q).0)
            now (handle_action-IsValid nvs zero_double s a now v))
  ]

  survey_pass-IsValid :
      (s : State) (completed : Option (D × D × D)) (now : ℕ)
      → IsValid s
      → IsValid (survey_pass nvs zero_double actions packets s completed now)
  unfolding survey_pass
  survey_pass-IsValid s none now v = v
  survey_pass-IsValid s (some (lat, lon, height)) now v =
      save_and_transmit-IsValid nvs zero_double s lat lon height now v

  data_pass-IsValid :
      (s : State) (mode : BaseMode) (t : Tick D)
      → IsValid s
      → IsValid (data_pass nvs zero_double actions packets s mode t)
  unfolding data_pass read_data_uart_raw
  data_pass-IsValid s survey t v = survey_pass-IsValid s t.completed t.now v
  data_pass-IsValid s transmit t v =
      let raw = feed_rinex-IsValid (until_empty t.raw_reads) s v in
      let read =
        count_bytes-IsValid (read_data_uart packets s t.data_reads t.now) s.route.rtcm_total
          (read_data_uart-IsValid packets s t.data_reads t.now v) in
      ground (arith, raw, read)

  -- A pass of the task keeps the station valid.
  pub run_pass-IsValid :
      (fuel : ℕ) (s : State) (t : Tick D)
      → IsValid s
      → IsValid (run_pass nvs zero_double actions packets fuel s t)
  unfolding run_pass read_command_uart
  run_pass-IsValid fuel s t v = close_window-IsValid _ t.now (data_pass-IsValid _ _ t fed)
    where
      started : IsValid (record s { heartbeat_us = t.started })
      started = record { in_step = v.in_step; raw_mode = v.raw_mode; logged = v.logged }

      drained : IsValid (
          drain nvs zero_double actions fuel
            (record s { heartbeat_us = t.started })
            s.actions
            t.started)
      drained =
          drain-IsValid fuel (record s { heartbeat_us = t.started }) s.actions t.started started

      fed : IsValid (
          read_command_uart
            (drain nvs zero_double actions fuel
              (record s { heartbeat_us = t.started })
              s.actions
              t.started)
            t.command_reads)
      fed = feed_survey-IsValid (until_short t.command_reads) _ drained

  begin-IsValid :
      (s : State) (now : ℕ)
      → IsValid s
      → s.flags.raw_collection ≡ false
      → IsValid (begin nvs zero_double actions packets s now)
  unfolding begin
  begin-IsValid s now v off =
      let pos = load_position nvs zero_double s.storage in
      let onward =
        enter_transmit-IsValid nvs zero_double s pos.lat pos.lon pos.height now v.logged in
      let surveyed = enter_survey-IsValid nvs zero_double s false now v off in
      elim (Bool-cases pos.valid) [
        | inl known ↦ rw known (record {
          in_step = onward.in_step;
          raw_mode = onward.raw_mode;
          logged = onward.logged;
        })
        | inr unknown ↦ rw unknown (record {
          in_step = surveyed.in_step;
          raw_mode = surveyed.raw_mode;
          logged = surveyed.logged;
        })
      ]

  request-IsValid : (s : State) (a : Action D) → IsValid s → IsValid (request actions s a).0
  unfolding request enqueue
  request-IsValid s a v = enqueued s.actions
    where
      enqueued : (q : Option actions.Queue) → IsValid (enqueue actions s a q).0
      enqueued none = v
      enqueued (some q) = with_actions-IsValid s (some (actions.send q a).0) v

  -- A step: a pass of the task, a call of another task, or a step of the casters' own tasks, which do
  -- not write `suspended_`.
  pub data Step (s : State) : State → Type 0 where
    pass : (fuel : ℕ) (t : Tick D) → Step s (run_pass nvs zero_double actions packets fuel s t)
    ask : (a : Action D) → Step s (request actions s a).0
    hold : (suspended : Bool) (now : ℕ) → Step s (set_streams_suspended s suspended now)
    connect : (available : Bool) (now : ℕ) → Step s (set_network_available s available now)
    enable : (enabled : Bool) (now : ℕ) → Step s (set_streams_enabled nvs zero_double s enabled now)
    resume : (now : ℕ) → Step s (apply_persisted_streams nvs zero_double s now)
    reload : (now : ℕ) → Step s (reload_services nvs zero_double s now)
    serve : (o : Outlets packets.Queue) → SameGates s.outlets o → Step s (record s { outlets = o })

  -- The states behind the start of the task.
  pub data Reachable : State → Type 0 where
    began :
        (s : State) (now : ℕ)
        → IsValid s
        → s.flags.raw_collection ≡ false
        → Reachable (begin nvs zero_double actions packets s now)
    then_ : (s s' : State) → Reachable s → Step s s' → Reachable s'

  Step-IsValid : (s s' : State) → IsValid s → Step s s' → IsValid s'
  Step-IsValid s s' v (pass fuel t) = run_pass-IsValid fuel s t v
  Step-IsValid s s' v (ask a) = request-IsValid s a v
  Step-IsValid s s' v (hold suspended now) = set_streams_suspended-IsValid s suspended now v
  Step-IsValid s s' v (connect available now) = set_network_available-IsValid s available now v
  Step-IsValid s s' v (enable enabled now) =
      set_streams_enabled-IsValid nvs zero_double s enabled now v
  Step-IsValid s s' v (resume now) = apply_persisted_streams-IsValid nvs zero_double s now v
  Step-IsValid s s' v (reload now) = reload_services-IsValid nvs zero_double s now v
  Step-IsValid s s' v (serve o gates) =
      keep_flags-IsValid s (record s { outlets = o }) v refl refl gates

  -- In every reachable state the local caster and the three clients are suspended exactly when the flags
  -- say so, raw collection is on only in base transmission, and the RINEX logger runs exactly while it
  -- is on.
  pub Reachable-IsValid : (s : State) → Reachable s → IsValid s
  Reachable-IsValid s (began s0 now v off) = begin-IsValid s0 now v off
  Reachable-IsValid s (then_ s0 s1 before step) =
      Step-IsValid s0 s1 (Reachable-IsValid s0 before) step

  -- All that has to be so for an outbound stream to run.
  abbrev pub Allowed : Flags → Type 0
  Allowed f =
      (f.mode ≡ transmit)
      × (f.has_rtcm_data ≡ true)
      × (f.outbound_rate_ready ≡ true)
      × (f.raw_collection ≡ false)
      × (f.network_available ≡ true)
      × (f.user_streams_enabled ≡ true)
      × (f.transient_streams_suspended ≡ false)

  mode_cases : (m : BaseMode) → ((m ≡ transmit) × (is_transmit m ≡ true)) ⊎ (is_transmit m ≡ false)
  mode_cases survey = inr refl
  mode_cases transmit = inl (refl, refl)

  allowed : (f : Flags) → effective_outbound_streams_suspended f ≡ false → Allowed f
  unfolding effective_outbound_streams_suspended effective_streams_suspended
  allowed f e = ground (arith, mode_cases f.mode)

  -- In a valid state, as the reachable ones are, a client that may send has the station in base
  -- transmission, with RTCM data, a latched rate, no raw collection, the network up, the streams switched
  -- on by the user and no transient suspension.
  pub sending-Allowed :
      (s : State)
      → IsValid s
      → (s.outlets.rtk2go.suspended ≡ false)
        ⊎ (s.outlets.onocoy.suspended ≡ false)
        ⊎ (s.outlets.rtkdata.suspended ≡ false)
      → Allowed s.flags
  sending-Allowed s v on =
      let (lan, first, second, third) = v.in_step in
      elim on [
        | inl a ↦ allowed s.flags (sym first ∙ a)
        | inr (inl b) ↦ allowed s.flags (sym second ∙ b)
        | inr (inr c) ↦ allowed s.flags (sym third ∙ c)
      ]
