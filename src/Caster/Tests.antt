-- ===== src/Caster/Tests.antt =====
-- A caster with one client of two that stops reading.
use gps_base_station.Prelude.{
  ℕ, ◌≡◌, ◌⊎◌, refl, List, [], ◌∷◌, ◌++◌, none, some, true, false, arith, replicate,
  length-replicate,
}
use gps_base_station.Freertos.Reference.{Bounded, bounded_list}
use gps_base_station.Rtcm.Batch.{Batch, pending, publish_to_batch}
use gps_base_station.Rtcm.Batch.Laws
use gps_base_station.Caster.Send.{
  Round, accepted, would_block_stalled, would_block_ready, broken, send_all,
}
use gps_base_station.Caster.{
  Caster, count_open, no_socket, empty_place, run_pass, push_all, k_queue_depth,
}
use gps_base_station.Caster.Slots.{IsValid, run_pass-IsValid}
use gps_base_station.Caster.Queueing.{AllFit, Stores}
use gps_base_station.Caster.Batches.{push_all-publish_to_batch}

abbrev lan : Caster (Bounded (List ℕ))
lan = record {
  queue = some (record { stored = (1 ∷ 2 ∷ []) ∷ []; limit = 16 });
  stopping = false;
  suspended = false;
  reset_clients = false;
  client_count = 2;
  places =
      record { client = some 5; ipv4 = 77 }
      ∷ record { client = some 6; ipv4 = 78 }
      ∷ empty_place
      ∷ empty_place
      ∷ empty_place
      ∷ empty_place
      ∷ empty_place
      ∷ empty_place
      ∷ [];
  listener = some 4;
}

abbrev lan_after : Caster (Bounded (List ℕ))
lan_after = record lan {
  queue = some (record { stored = []; limit = 16 });
  client_count = 1;
  places =
      record { client = some 5; ipv4 = 77 }
      ∷ empty_place
      ∷ empty_place
      ∷ empty_place
      ∷ empty_place
      ∷ empty_place
      ∷ empty_place
      ∷ empty_place
      ∷ [];
}

abbrev lan_rounds : List (List Round)
lan_rounds =
    (accepted 0 ∷ would_block_ready ∷ accepted 0 ∷ [])
    ∷ (accepted 0 ∷ broken ∷ [])
    ∷ []
    ∷ []
    ∷ []
    ∷ []
    ∷ []
    ∷ []
    ∷ []

lan_IsValid : IsValid lan
unfolding count_open
lan_IsValid = record {
  eight = refl;
  counted = refl;
  clean = (tt, (tt, (refl, (refl, (refl, (refl, (refl, (refl, tt))))))));
}

run_lan : run_pass (bounded_list (List ℕ)) lan no_socket none lan_rounds ≡ some lan_after
unfolding run_pass
run_lan = refl

run_pass-IsValid_example :
    IsValid lan_after × ((lan.suspended ≡ false) ⊎ (lan_after.client_count ≡ 0))
run_pass-IsValid_example =
    run_pass-IsValid (bounded_list (List ℕ)) lan lan_after no_socket none lan_rounds lan_IsValid
      run_lan

small_send : send_all 2 (accepted 0 ∷ would_block_stalled ∷ accepted 3 ∷ []) ≡ some true
unfolding send_all
small_send = refl

lan_batch : Batch
lan_batch = record {
  bytes = replicate 1200 0;
  len = 0;
  next_flush_us = 400;
  frame_ends = replicate 12 0;
  frame_count = 0;
}

lan_batch-IsValid : Laws.IsValid lan_batch
unfolding lan_batch
lan_batch-IsValid = record {
  room = length-replicate {A = ℕ} 1200 0;
  places = refl;
  within = omega arith;
  counted = omega arith;
  chain = refl;
}

lan_batch_empty : AllFit (pending lan_batch)
unfolding pending lan_batch
lan_batch_empty = tt

-- The batch is due, so the frame is handed over at once.
push_all-publish_to_batch_example :
    Stores
      (bounded_list (List ℕ))
      (push_all (bounded_list (List ℕ)) lan (publish_to_batch lan_batch (7 ∷ 8 ∷ []) 500 0).1)
      (((1 ∷ 2 ∷ []) ∷ []) ++ (publish_to_batch lan_batch (7 ∷ 8 ∷ []) 500 0).1)
      k_queue_depth
    × AllFit (pending (publish_to_batch lan_batch (7 ∷ 8 ∷ []) 500 0).0)
push_all-publish_to_batch_example =
    push_all-publish_to_batch (bounded_list (List ℕ)) lan ((1 ∷ 2 ∷ []) ∷ []) lan_batch (7 ∷ 8 ∷ [])
      500 0 refl (record { stored = (1 ∷ 2 ∷ []) ∷ []; limit = 16 }, refl, refl, refl) (omega arith)
      lan_batch-IsValid lan_batch_empty (omega arith) (omega arith)
