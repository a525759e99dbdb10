-- ===== src/Station/Gates.antt =====
-- The data path leaves the suspensions of the streams to the flags.
use gps_base_station.Prelude.{
  ℕ, ◌≡◌, inl, inr, refl, sym, ap, subst, ◌∙◌, List, [], ◌∷◌, Option, none, some, Bool, true, false,
  if◌then◌else◌, arith, Bool-cases, length, ltb, take,
}
use gps_base_station.Freertos.{QueueApi}
use gps_base_station.Ntrip.Client.{Client}
use gps_base_station.Ntrip.Client
use gps_base_station.Caster
use gps_base_station.Caster.{Caster}
use gps_base_station.Rtcm.Parser.{feed_rtcm_byte}
use gps_base_station.Rtcm.Batch.{publish_to_batch, flush_due_batch}
use gps_base_station.Rtcm.Corrections.{
  Slot, Destination, flush_destination_if_due, publish_to_corrections, rtcm_message_number,
}
use gps_base_station.Rtcm.Corrections
use gps_base_station.Station.{
  Flags, Outlets, Station, apply_stream_state, call, survey_feed, rinex_feed,
}
use gps_base_station.Station.Feed.{
  feed_survey, feed_rinex, note_rtcm, push_client, distribute, publish_rtcm_frame,
  publish_completed, feed_byte, feed_bytes, feed_reads, flush_lan, flush_due_corrections,
  read_data_uart, until_short,
}
use gps_base_station.Station.Streams.{IsValid, InStep, apply_to-InStep, logging}

module _ (packets : QueueApi (List ℕ)) where
  open packets use {Queue}

  push-suspended :
      (c : Caster Queue) (f : List ℕ) → (Caster.push packets c f).suspended ≡ c.suspended
  unfolding Caster.push Caster.push_to
  push-suspended c f = ground arith

  push_all-suspended :
      (c : Caster Queue) (fs : List (List ℕ))
      → (Caster.push_all packets c fs).suspended ≡ c.suspended
  unfolding Caster.push_all
  push_all-suspended c [] = refl
  push_all-suspended c (f ∷ fs) =
      push_all-suspended (Caster.push packets c f) fs ∙ push-suspended c f

  enqueue-suspended :
      (c : Client Queue) (q : Queue) (f : List ℕ)
      → (Client.enqueue packets c q f).suspended ≡ c.suspended
  unfolding Client.enqueue
  enqueue-suspended c q f = ground arith

  push_to-suspended :
      (c : Client Queue) (f : List ℕ) (q : Option Queue)
      → (Client.push_to packets c f q).0.suspended ≡ c.suspended
  unfolding Client.push_to
  push_to-suspended c f none = refl
  push_to-suspended c f (some q) = ground (arith, enqueue-suspended c q (take 1200 f))

  push_client-suspended :
      (c : Client Queue) (f : List ℕ) → (push_client packets c f).0.suspended ≡ c.suspended
  unfolding Client.push
  push_client-suspended c f = push_to-suspended c f c.queue

  flush_slot-suspended :
      (d : Destination) (c : Client Queue) (s : Slot)
      → (Corrections.flush_slot (push_client packets) d c s).0.suspended ≡ c.suspended
  unfolding Corrections.flush_slot
  flush_slot-suspended d c s = ground (arith, push_client-suspended c (Corrections.frame s))

  flush_slots-suspended :
      (d : Destination) (c : Client Queue) (slots : List Slot)
      → (Corrections.flush_slots (push_client packets) d c slots).0.suspended ≡ c.suspended
  unfolding Corrections.flush_slots
  flush_slots-suspended d c [] = refl
  flush_slots-suspended d c (s ∷ slots) =
      flush_slots-suspended d (Corrections.flush_slot (push_client packets) d c s).0 slots
      ∙ flush_slot-suspended d c s

  flush_destination-suspended :
      (d : Destination) (now : ℕ) (c : Client Queue) (slots : List Slot) (times : List ℕ)
      → (flush_destination_if_due (push_client packets) d now c slots times).0.suspended
        ≡ c.suspended
  unfolding flush_destination_if_due
  flush_destination-suspended d now c slots times = ground (arith, flush_slots-suspended d c slots)

-- An outlet by outlet step that keeps each suspension.
abbrev pub SameGates : {Queue : Type 0} → Outlets Queue → Outlets Queue → Type 0
SameGates o o' =
    (o'.lan.suspended ≡ o.lan.suspended)
    × (o'.rtk2go.suspended ≡ o.rtk2go.suspended)
    × (o'.onocoy.suspended ≡ o.onocoy.suspended)
    × (o'.rtkdata.suspended ≡ o.rtkdata.suspended)

InStep-SameGates :
    {Queue : Type 0} (f : Flags) (o o' : Outlets Queue) → InStep f o → SameGates o o' → InStep f o'
InStep-SameGates f o o' (a, b, c, d) (a', b', c', d') = (a' ∙ a, b' ∙ b, c' ∙ c, d' ∙ d)

module _ {D Nvs Queue Actions : Type 0} where
  pub keep_flags-IsValid :
      (s s' : Station D Nvs Queue Actions)
      → IsValid s
      → s'.flags ≡ s.flags
      → s'.calls ≡ s.calls
      → SameGates s.outlets s'.outlets
      → IsValid s'
  keep_flags-IsValid s s' v flags calls gates = record {
    in_step = rw flags (InStep-SameGates s.flags s.outlets s'.outlets v.in_step gates);
    raw_mode = rw flags v.raw_mode;
    logged = ap logging calls ∙ v.logged ∙ sym (ap (λ (f : Flags). f.raw_collection) flags);
  }

  -- A flag that is set again.
  note_rtcm-known :
      (s : Station D Nvs Queue Actions) (now : ℕ)
      → s.flags.has_rtcm_data ≡ true
      → note_rtcm s now ≡ s
  unfolding note_rtcm
  note_rtcm-known s now known = ground arith

  note_rtcm-IsValid :
      (s : Station D Nvs Queue Actions) (now : ℕ) → IsValid s → IsValid (note_rtcm s now)
  unfolding note_rtcm apply_stream_state
  note_rtcm-IsValid s now v = elim (Bool-cases s.flags.has_rtcm_data) [
    | inl known ↦ subst IsValid (sym (note_rtcm-known s now known)) v
    | inr first ↦ rw first (record {
      in_step = apply_to-InStep (record s.flags { has_rtcm_data = true }) s.outlets now;
      raw_mode = v.raw_mode;
      logged = v.logged;
    })
  ]

  pub feed_survey-IsValid :
      (cs : List (List ℕ)) (s : Station D Nvs Queue Actions)
      → IsValid s
      → IsValid (feed_survey s cs)
  unfolding feed_survey
  feed_survey-IsValid [] s v = v
  feed_survey-IsValid (c ∷ cs) s v =
      feed_survey-IsValid cs (if ltb 0 (length c) then call s (survey_feed c) else s)
        (fed (ltb 0 (length c)))
    where
      fed : (b : Bool) → IsValid (if b then call s (survey_feed c) else s)
      fed true = record { in_step = v.in_step; raw_mode = v.raw_mode; logged = v.logged }
      fed false = v

  pub feed_rinex-IsValid :
      (cs : List (List ℕ)) (s : Station D Nvs Queue Actions) → IsValid s → IsValid (feed_rinex s cs)
  unfolding feed_rinex
  feed_rinex-IsValid [] s v = v
  feed_rinex-IsValid (c ∷ cs) s v =
      feed_rinex-IsValid cs (call s (rinex_feed c))
        (record { in_step = v.in_step; raw_mode = v.raw_mode; logged = v.logged })

module _ {D Nvs Actions : Type 0} (packets : QueueApi (List ℕ)) where
  open packets use {Queue}

  distribute-IsValid :
      (s : Station D Nvs Queue Actions) (f : List ℕ) (now : ℕ)
      → IsValid s
      → IsValid (distribute packets s f now)
  unfolding distribute
  distribute-IsValid s f now v = keep_flags-IsValid s (distribute packets s f now) v refl refl (
    push_all-suspended packets s.outlets.lan (publish_to_batch s.route.local_batch f now 0).1,
    refl,
    refl,
    refl,
  )

  publish_rtcm_frame-IsValid :
      (s : Station D Nvs Queue Actions) (f : List ℕ) (now : ℕ)
      → IsValid s
      → IsValid (publish_rtcm_frame packets s f now)
  unfolding publish_rtcm_frame
  publish_rtcm_frame-IsValid s f now v =
      ground (arith, v, distribute-IsValid (note_rtcm s now) f now (note_rtcm-IsValid s now v))

  publish_completed-IsValid :
      (s : Station D Nvs Queue Actions) (out : Option (List ℕ)) (now : ℕ)
      → IsValid s
      → IsValid (publish_completed packets s out now)
  unfolding publish_completed
  publish_completed-IsValid s none now v = v
  publish_completed-IsValid s (some f) now v = publish_rtcm_frame-IsValid s f now v

  feed_bytes-IsValid :
      (bytes : List (ℕ × ℕ)) (s : Station D Nvs Queue Actions)
      → IsValid s
      → IsValid (feed_bytes packets s bytes)
  unfolding feed_bytes feed_byte
  feed_bytes-IsValid [] s v = v
  feed_bytes-IsValid ((byte, now) ∷ bytes) s v =
      feed_bytes-IsValid bytes (feed_byte packets s byte now) (
        publish_completed-IsValid
          (record s { route = record s.route { parser = (feed_rtcm_byte s.route.parser byte).0 } })
          (feed_rtcm_byte s.route.parser byte).1 now
          (record { in_step = v.in_step; raw_mode = v.raw_mode; logged = v.logged }))

  feed_reads-IsValid :
      (cs : List (List (ℕ × ℕ))) (s : Station D Nvs Queue Actions)
      → IsValid s
      → IsValid (feed_reads packets s cs)
  unfolding feed_reads
  feed_reads-IsValid [] s v = v
  feed_reads-IsValid (c ∷ cs) s v =
      feed_reads-IsValid cs (feed_bytes packets s c) (feed_bytes-IsValid c s v)

  flush_lan-IsValid :
      (s : Station D Nvs Queue Actions) (now : ℕ) → IsValid s → IsValid (flush_lan packets s now)
  unfolding flush_lan
  flush_lan-IsValid s now v = keep_flags-IsValid s (flush_lan packets s now) v refl refl (
    push_all-suspended packets s.outlets.lan (flush_due_batch s.route.local_batch now).1,
    refl,
    refl,
    refl,
  )

  flush_due_corrections-IsValid :
      (s : Station D Nvs Queue Actions) (now : ℕ)
      → IsValid s
      → IsValid (flush_due_corrections packets s now)
  unfolding flush_due_corrections
  flush_due_corrections-IsValid s now v =
      keep_flags-IsValid s (flush_due_corrections packets s now) v refl refl (
        refl,
        flush_destination-suspended packets Corrections.rtk2go now s.outlets.rtk2go s.route.slots
            s.route.push_next_flush_us,
        flush_destination-suspended packets Corrections.onocoy now s.outlets.onocoy first.1 first.2,
        flush_destination-suspended packets Corrections.rtkdata now s.outlets.rtkdata second.1
            second.2,
      )
    where
      first : Client Queue × List Slot × List ℕ
      first =
          flush_destination_if_due (push_client packets) Corrections.rtk2go now s.outlets.rtk2go
            s.route.slots s.route.push_next_flush_us

      second : Client Queue × List Slot × List ℕ
      second =
          flush_destination_if_due (push_client packets) Corrections.onocoy now s.outlets.onocoy
            first.1 first.2

  -- Reading the receiver's data keeps the station valid.
  pub read_data_uart-IsValid :
      (s : Station D Nvs Queue Actions) (reads : List (List (ℕ × ℕ))) (now : ℕ)
      → IsValid s
      → IsValid (read_data_uart packets s reads now)
  unfolding read_data_uart
  read_data_uart-IsValid s reads now v =
      flush_due_corrections-IsValid
        (flush_lan packets (feed_reads packets s (until_short reads)) now) now
        (flush_lan-IsValid (feed_reads packets s (until_short reads)) now
          (feed_reads-IsValid (until_short reads) s v))
