-- ===== src/Rtcm/Batch/Tests.antt =====
-- Runs of the batch.
use gps_base_station.Prelude.{ℕ, ◌≡◌, refl, List, [], ◌∷◌, ◌++◌, arith, length-replicate, replicate}
use gps_base_station.Rtcm.Batch.{Batch, pending, publish_to_batch}
use gps_base_station.Rtcm.Batch.Laws.{IsValid, Holds, publish_to_batch-Holds}

empty_batch : Batch
empty_batch = record {
  bytes = replicate 1200 0;
  len = 0;
  next_flush_us = 0;
  frame_ends = replicate 12 0;
  frame_count = 0;
}

empty_batch-IsValid : IsValid empty_batch
unfolding empty_batch
empty_batch-IsValid = record {
  room = length-replicate {A = ℕ} 1200 0;
  places = refl;
  within = omega arith;
  counted = omega arith;
  chain = refl;
}

published : Batch × List (List ℕ)
published = publish_to_batch empty_batch (1 ∷ 2 ∷ []) 500 0

-- The second frame finds the batch due, and both go out.
both_flushed : (publish_to_batch published.0 (3 ∷ []) 200600 0).1 ≡ (1 ∷ 2 ∷ []) ∷ (3 ∷ []) ∷ []
unfolding published publish_to_batch empty_batch
both_flushed = refl

publish_to_batch-Holds_example :
    Holds
      (publish_to_batch empty_batch (1 ∷ 2 ∷ []) 500 0)
      (pending empty_batch ++ ((1 ∷ 2 ∷ []) ∷ []))
publish_to_batch-Holds_example =
    publish_to_batch-Holds empty_batch (1 ∷ 2 ∷ []) 500 0 empty_batch-IsValid (omega arith)
