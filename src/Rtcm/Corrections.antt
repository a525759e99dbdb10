-- ===== src/Rtcm/Corrections.antt =====
-- The mailbox `correction_slots_` of main/base_station.hpp and the functions of main/base_station.cpp
-- on it: one slot for each RTCM message type, with a bit for each caster that has its frame.
pub mod Latest
pub mod Delivery
mod Tests
use gps_base_station.Prelude.{
  ℕ, zero, suc, ◌+◌, ◌*◌, ◌/◌, bit_and, bit_or, List, [], ◌∷◌, Option, none, some, Bool, true,
  false, not, ◌&&◌, ◌||◌, ltb, ◌==◌, if◌then◌else◌, length, take, get_or, set, replicate, write_at,
}
use gps_base_station.Rtcm.Batch.{k_rtcm_batch_us, k_rtcm_stagger_us}

abbrev pub k_max_correction_slots : ℕ
k_max_correction_slots = 16

-- `PushDestination`; `index` and `bit` are its number and `1u << dest`.
pub data Destination : Type 0 where
  rtk2go onocoy rtkdata : Destination

abbrev pub index : Destination → ℕ
index rtk2go = 0
index onocoy = 1
index rtkdata = 2

abbrev pub bit : Destination → ℕ
bit rtk2go = 1
bit onocoy = 2
bit rtkdata = 4

pub record Slot : Type 0 where
  pub used : Bool
  pub message_number : ℕ
  pub bytes : List ℕ
  pub len : ℕ
  pub sent_mask : ℕ
  pub updated_us : ℕ

-- The frame that the slot holds.
abbrev pub frame : Slot → List ℕ
frame s = take s.len s.bytes

pub fresh_slot : Slot
fresh_slot = record {
  used = false;
  message_number = 0;
  bytes = replicate 1200 0;
  len = 0;
  sent_mask = 0;
  updated_us = 0;
}

-- The first twelve bits of the payload.
unfoldable pub rtcm_message_number : List ℕ → ℕ
rtcm_message_number f =
    if ltb (length f) 5 then 0 else bit_or (get_or f 3 0 * 16) (get_or f 4 0 / 16)

-- `slot = &candidate` at the first slot that passes the test, and what is done to that slot.
pub at_first : (Slot → Bool) → (Slot → Slot) → List Slot → Option (List Slot)
at_first test change [] = none
at_first test change (s ∷ slots) =
    let rest = at_first test change slots in
    if test s
    then some (change s ∷ slots)
    else elim rest [ none ↦ none | some slots' ↦ some (s ∷ slots') ]

abbrev pub holds_type : ℕ → Slot → Bool
holds_type n s = s.used && s.message_number == n

abbrev pub is_free : Slot → Bool
is_free s = not s.used

pub fill : List ℕ → ℕ → ℕ → Slot → Slot
fill f n now s = record {
  used = true;
  message_number = n;
  bytes = write_at s.bytes 0 f;
  len = length f;
  sent_mask = 0;
  updated_us = now;
}

-- A slot of the type, or else a free one, or else nothing.
unfoldable pub publish_to_corrections : List Slot → List ℕ → ℕ → ℕ → List Slot
unfolding at_first fill
publish_to_corrections slots f n now = elim (at_first (holds_type n) (fill f n now) slots) [
  | some slots' ↦ slots'
  | none ↦ elim (at_first is_free (fill f n now) slots) [ some slots' ↦ slots' | none ↦ slots ]
]

-- A caster that is not up to date with the slot.
pub lacks : Destination → Slot → Bool
lacks d s = not (not s.used || (s.len == 0 || not (bit_and s.sent_mask (bit d) == 0)))

pub mark_sent : Destination → Slot → Slot
mark_sent d s = record s { sent_mask = bit_or s.sent_mask (bit d) }

-- `push` is what `flush` does to the client, and whether it took the frame.
module _ {ℓ} {C : Type ℓ} (push : C → List ℕ → C × Bool) where
  unfoldable pub flush_slot : Destination → C → Slot → C × Slot
  unfolding lacks mark_sent
  flush_slot d c s =
      let (c', taken) = push c (frame s) in
      if lacks d s then (c', if taken then mark_sent d s else s) else (c, s)

  unfoldable pub flush_slots : Destination → C → List Slot → C × List Slot
  unfolding flush_slot
  flush_slots d c [] = (c, [])
  flush_slots d c (s ∷ slots) =
      let (c', s') = flush_slot d c s in
      let (c'', slots') = flush_slots d c' slots in (c'', s' ∷ slots')

  unfoldable pub flush_destination_if_due :
      Destination → ℕ → C → List Slot → List ℕ → C × List Slot × List ℕ
  unfolding flush_slots
  flush_destination_if_due d now c slots next_flush_us =
      if ltb now (get_or next_flush_us (index d) 0)
      then (c, slots, next_flush_us)
      else let (c', slots') = flush_slots d c slots in
        (c', slots', set next_flush_us (index d) (now + k_rtcm_batch_us))

-- The part of `reset_rtcm_state` that is about the mailbox.
unfoldable pub reset_corrections : List Slot
unfolding fresh_slot
reset_corrections = replicate k_max_correction_slots fresh_slot

unfoldable pub reset_push_times : ℕ → List ℕ
reset_push_times now =
    (now + k_rtcm_stagger_us + k_rtcm_batch_us)
    ∷ (now + k_rtcm_stagger_us * 2 + k_rtcm_batch_us)
    ∷ (now + k_rtcm_stagger_us * 3 + k_rtcm_batch_us)
    ∷ []
