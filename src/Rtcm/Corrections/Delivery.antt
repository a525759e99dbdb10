-- ===== src/Rtcm/Corrections/Delivery.antt =====
-- A flush offers a caster what it lacks, in the order of the slots, and remembers what it took.
use gps_base_station.Prelude.{
  ℕ, ◌+◌, ◌≤◌, ◌<◌, ◌≡◌, ◌≢◌, refl, ap, bit_and, bit_or, List, [], ◌∷◌, Bool, true, false, not,
  ◌&&◌, ltb, ◌==◌, if◌then◌else◌, Bool-cases, inl, inr, arith, passes, passes_lem, length, get_or,
  get_or-set_eq, get_or-set_ne,
}
use gps_base_station.Rtcm.Corrections.{
  Destination, rtk2go, onocoy, rtkdata, Slot, bit, index, frame, lacks, mark_sent, flush_slot,
  flush_slots, flush_destination_if_due,
}
use gps_base_station.Rtcm.Batch.{k_rtcm_batch_us}

abbrev pub AllMasks : List Slot → Type 0
AllMasks [] = Unit {0}
AllMasks (s ∷ slots) = (s.sent_mask < 256) × AllMasks slots

-- What a caster has not got yet.
abbrev pub missing : Destination → List Slot → List (List ℕ)
missing d [] = []
missing d (s ∷ slots) = if lacks d s then frame s ∷ missing d slots else missing d slots

own_bit_table :
    passes
      (λ m.
        not (bit_and (bit_or m 1) 1 == 0)
        && (not (bit_and (bit_or m 2) 2 == 0) && not (bit_and (bit_or m 4) 4 == 0)))
      256
    ≡ true
unfolding passes
own_bit_table = refl

own_bit : (d : Destination) (m : ℕ) → m < 256 → (bit_and (bit_or m (bit d)) (bit d) == 0) ≡ false
own_bit rtk2go m h = ground (arith, passes_lem _ 256 m h own_bit_table)
own_bit onocoy m h = ground (arith, passes_lem _ 256 m h own_bit_table)
own_bit rtkdata m h = ground (arith, passes_lem _ 256 m h own_bit_table)

same_bit : ℕ → ℕ → ℕ → Bool
same_bit d e m = bit_and (bit_or m d) e == bit_and m e

other_bit_table :
    passes
      (λ m.
        same_bit 1 2 m
        && (same_bit 1 4 m
            && (same_bit 2 1 m && (same_bit 2 4 m && (same_bit 4 1 m && same_bit 4 2 m)))))
      256
    ≡ true
unfolding passes same_bit
other_bit_table = refl

other_bit :
    (d e : Destination) (m : ℕ)
    → d ≢ e
    → m < 256
    → bit_and (bit_or m (bit d)) (bit e) ≡ bit_and m (bit e)
unfolding same_bit
other_bit rtk2go rtk2go m ne h = absurd (ne refl)
other_bit rtk2go onocoy m ne h = ground (arith, passes_lem _ 256 m h other_bit_table)
other_bit rtk2go rtkdata m ne h = ground (arith, passes_lem _ 256 m h other_bit_table)
other_bit onocoy rtk2go m ne h = ground (arith, passes_lem _ 256 m h other_bit_table)
other_bit onocoy onocoy m ne h = absurd (ne refl)
other_bit onocoy rtkdata m ne h = ground (arith, passes_lem _ 256 m h other_bit_table)
other_bit rtkdata rtk2go m ne h = ground (arith, passes_lem _ 256 m h other_bit_table)
other_bit rtkdata onocoy m ne h = ground (arith, passes_lem _ 256 m h other_bit_table)
other_bit rtkdata rtkdata m ne h = absurd (ne refl)

lacks-mark_sent : (d : Destination) (s : Slot) → s.sent_mask < 256 → lacks d (mark_sent d s) ≡ false
unfolding lacks mark_sent
lacks-mark_sent d s h = ground (arith, own_bit d s.sent_mask h)

lacks-mark_sent_other :
    (d e : Destination) (s : Slot) → d ≢ e → s.sent_mask < 256 → lacks e (mark_sent d s) ≡ lacks e s
unfolding lacks mark_sent
lacks-mark_sent_other d e s ne h = rw (other_bit d e s.sent_mask ne h)

frame-mark_sent : (d : Destination) (s : Slot) → frame (mark_sent d s) ≡ frame s
unfolding mark_sent
frame-mark_sent d s = refl

index-lt : (d : Destination) → index d < 3
index-lt rtk2go = omega arith
index-lt onocoy = omega arith
index-lt rtkdata = omega arith

index-ne : (d e : Destination) → d ≢ e → index d ≢ index e
index-ne rtk2go rtk2go ne = absurd (ne refl)
index-ne rtk2go onocoy ne = omega arith
index-ne rtk2go rtkdata ne = omega arith
index-ne onocoy rtk2go ne = omega arith
index-ne onocoy onocoy ne = absurd (ne refl)
index-ne onocoy rtkdata ne = omega arith
index-ne rtkdata rtk2go ne = omega arith
index-ne rtkdata onocoy ne = omega arith
index-ne rtkdata rtkdata ne = absurd (ne refl)

module _ {ℓ} {C : Type ℓ} (push : C → List ℕ → C × Bool) where
  -- A client that is offered frames one after the other, and those that it did not take.
  abbrev pub offer : C → List (List ℕ) → C × List (List ℕ)
  offer c [] = (c, [])
  offer c (f ∷ fs) =
      let (c', taken) = push c f in
      let (c'', refused) = offer c' fs in (c'', if taken then refused else f ∷ refused)

  flush_slots-offer :
      (d : Destination) (slots : List Slot) (c : C)
      → AllMasks slots
      → let (c', slots') = flush_slots push d c slots in
        (c', missing d slots') ≡ offer c (missing d slots)
  unfolding flush_slots flush_slot
  flush_slots-offer d [] c m = refl
  flush_slots-offer d (s ∷ slots) c m = elim (Bool-cases (lacks d s)) [
    | inr has ↦ simp has (flush_slots-offer d slots c m.1)
    | inl lack ↦ elim (Bool-cases (push c (frame s)).1) [
      | inl took ↦
          simp (lack, took, lacks-mark_sent d s m.0)
            (flush_slots-offer d slots (push c (frame s)).0 m.1)
      | inr refused ↦
          simp (lack, refused)
            (ap (λ r. (r.0, frame s ∷ r.1)) (flush_slots-offer d slots (push c (frame s)).0 m.1))
    ]
  ]

  flush_slot_other :
      (d e : Destination) (s : Slot) (c : C)
      → d ≢ e
      → s.sent_mask < 256
      → let s' = (flush_slot push d c s).1 in (lacks e s' ≡ lacks e s) × (frame s' ≡ frame s)
  unfolding flush_slot
  flush_slot_other d e s c ne m = elim (Bool-cases (lacks d s)) [
    | inr has ↦ rw has (refl, refl)
    | inl lack ↦ elim (Bool-cases (push c (frame s)).1) [
      | inl took ↦ rw (lack, took) (lacks-mark_sent_other d e s ne m, frame-mark_sent d s)
      | inr refused ↦ rw (lack, refused) (refl, refl)
    ]
  ]

  flush_slots_other :
      (d e : Destination) (slots : List Slot) (c : C)
      → d ≢ e
      → AllMasks slots
      → missing e (flush_slots push d c slots).1 ≡ missing e slots
  unfolding flush_slots
  flush_slots_other d e [] c ne m = refl
  flush_slots_other d e (s ∷ slots) c ne m =
      let same = flush_slot_other d e s c ne m.0 in
      let rest = flush_slots_other d e slots (flush_slot push d c s).0 ne m.1 in
      rw (same.0, same.1, rest)

  -- When a caster is due, it is offered every frame that it lacks, once each and in the order of the
  -- slots; afterwards it lacks exactly those that it did not take, its next time is one period on, and
  -- what any other caster lacks is as before.
  pub flush_destination_if_due_lem :
      (d e : Destination) (now : ℕ) (c : C) (slots : List Slot) (next : List ℕ)
      → d ≢ e
      → AllMasks slots
      → length next ≡ 3
      → get_or next (index d) 0 ≤ now
      → let (c', slots', next') = flush_destination_if_due push d now c slots next in
        ((c', missing d slots') ≡ offer c (missing d slots))
        × (missing e slots' ≡ missing e slots)
        × (get_or next' (index d) 0 ≡ now + k_rtcm_batch_us)
        × (get_or next' (index e) 0 ≡ get_or next (index e) 0)
  unfolding flush_destination_if_due
  flush_destination_if_due_lem d e now c slots next ne m three due =
      let open_gate : ltb now (get_or next (index d) 0) ≡ false = ground arith in
      rw open_gate (
        flush_slots-offer d slots c m,
        flush_slots_other d e slots c ne m,
        get_or-set_eq next (index d) (now + k_rtcm_batch_us) 0 (omega (arith, index-lt d)),
        get_or-set_ne next (index d) (index e) (now + k_rtcm_batch_us) 0 (index-ne d e ne),
      )
