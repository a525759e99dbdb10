-- ===== src/Rtcm/Corrections/Tests.antt =====
-- Runs of the mailbox.
use gps_base_station.Prelude.{
  ℕ, ◌+◌, ◌≡◌, ◌⊎◌, refl, List, [], ◌∷◌, Bool, true, none, arith, length-replicate, get_or,
}
use gps_base_station.Rtcm.Batch.{k_rtcm_batch_us}
use gps_base_station.Rtcm.Corrections.{
  Slot, fresh_slot, holds_type, is_free, publish_to_corrections, flush_destination_if_due, index,
  rtk2go, onocoy, reset_push_times,
}
use gps_base_station.Rtcm.Corrections.Latest.{
  find, AllSized, IsLatest, publish_to_corrections_latest,
}
use gps_base_station.Rtcm.Corrections.Delivery.{missing, offer, flush_destination_if_due_lem}

two_slots : List Slot
two_slots = fresh_slot ∷ fresh_slot ∷ []

two_slots-AllSized : AllSized two_slots
unfolding two_slots fresh_slot
two_slots-AllSized = (length-replicate {A = ℕ} 1200 0, (length-replicate {A = ℕ} 1200 0, tt))

abbrev received : List ℕ
received = 211 ∷ 0 ∷ 2 ∷ 62 ∷ 208 ∷ []

filled : List Slot
filled = publish_to_corrections two_slots received 1005 7

publish_to_corrections_latest_example :
    (IsLatest 1005 received filled
      ⊎ ((find (holds_type 1005) two_slots ≡ none)
          × (find is_free two_slots ≡ none)
          × (filled ≡ two_slots)))
    × (find (holds_type 1077) filled ≡ find (holds_type 1077) two_slots)
unfolding filled
publish_to_corrections_latest_example =
    publish_to_corrections_latest two_slots received 1005 7 two_slots-AllSized (omega arith) 1077
      (omega arith)

-- A client that takes every frame.
collect : List (List ℕ) → List ℕ → List (List ℕ) × Bool
collect taken f = (f ∷ taken, true)

flushed : List (List ℕ) × List Slot × List ℕ
flushed = flush_destination_if_due collect rtk2go 300000 [] filled (reset_push_times 0)

rtk2go_has_it : flushed.0 ≡ received ∷ []
unfolding flushed flush_destination_if_due filled publish_to_corrections two_slots fresh_slot
    collect reset_push_times
rtk2go_has_it = refl

flush_destination_if_due_lem_example :
    let (c', slots', next') = flushed in
    ((c', missing rtk2go slots') ≡ offer collect [] (missing rtk2go filled))
    × (missing onocoy slots' ≡ missing onocoy filled)
    × (get_or next' (index rtk2go) 0 ≡ 300000 + k_rtcm_batch_us)
    × (get_or next' (index onocoy) 0 ≡ get_or (reset_push_times 0) (index onocoy) 0)
unfolding flushed filled publish_to_corrections two_slots fresh_slot reset_push_times
flush_destination_if_due_lem_example =
    flush_destination_if_due_lem collect rtk2go onocoy 300000 [] filled (reset_push_times 0)
      (λ e. cc) (omega arith) refl (omega arith)
