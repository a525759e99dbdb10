-- ===== src/Caster/Queueing.antt =====
-- The packet queue of the local caster, and that a flush of the batch fits into it.
use gps_base_station.Prelude.{
  ℕ, zero, suc, ◌+◌, ◌≤◌, ◌<◌, ◌≡◌, refl, ap, ◌∙◌, List, [], ◌∷◌, ◌++◌, some, true, false, ltb,
  if◌then◌else◌, arith, length, length-append, take, subst, append-nil, append_assoc,
}
use gps_base_station.Freertos.{QueueApi}
use gps_base_station.Caster.{Caster, k_max_packet, push_to, push, push_all}

-- Each frame has a byte, and fits into a packet.
abbrev pub AllFit : List (List ℕ) → Type 0
AllFit [] = Unit {0}
AllFit (f ∷ fs) = (1 ≤ length f) × (length f ≤ k_max_packet) × AllFit fs

take_all : (n : ℕ) (xs : List ℕ) → length xs ≤ n → take n xs ≡ xs
take_all zero [] le = refl
take_all (suc n) [] le = refl
take_all zero (x ∷ xs) le = absurd (omega arith)
take_all (suc n) (x ∷ xs) le = ap (◌∷◌ x) (take_all n xs (omega arith))

module _ (api : QueueApi (List ℕ)) where
  open api use {Queue, items, capacity, send, items-send, capacity-send}

  -- The caster has a queue with those packets in it, of that capacity, and is running.
  abbrev pub Stores : Caster Queue → List (List ℕ) → ℕ → Type 0
  Stores c packets n = (q : Queue) × (c.queue ≡ some q) × (items q ≡ packets) × (capacity q ≡ n)

  items-send_room :
      (q : Queue) (f : List ℕ) (packets : List (List ℕ)) (n : ℕ)
      → items q ≡ packets
      → capacity q ≡ n
      → length packets < n
      → items (send q f).0 ≡ packets ++ (f ∷ [])
  items-send_room q f packets n holds cap room =
      items-send q f ∙ rw (holds, cap) (ap (λ b. if b then packets ++ (f ∷ []) else packets) full)
    where
      full : ltb (length packets) n ≡ true
      full = ground arith

  push-Stores :
      (c : Caster Queue) (f : List ℕ) (packets : List (List ℕ)) (n : ℕ)
      → c.suspended ≡ false
      → 1 ≤ length f
      → length f ≤ k_max_packet
      → length packets < n
      → Stores c packets n
      → Stores (push api c f) (packets ++ (f ∷ [])) n × ((push api c f).suspended ≡ false)
  unfolding push push_to
  push-Stores c f packets n on some_byte fits room (q, has, holds, cap) = (
    ((send q f).0, stored, items-send_room q f packets n holds cap room, capacity-send q f ∙ cap),
    kept,
  )
    where
      stored : (push api c f).queue ≡ some (send q f).0
      stored = ground (arith, take_all k_max_packet f fits)

      kept : (push api c f).suspended ≡ false
      kept = ground arith

  -- A flush of frames that fit behind what waits puts all of them behind it.
  pub push_all-Stores :
      (c : Caster Queue) (fs packets : List (List ℕ)) (n : ℕ)
      → c.suspended ≡ false
      → AllFit fs
      → length packets + length fs ≤ n
      → Stores c packets n
      → Stores (push_all api c fs) (packets ++ fs) n
  unfolding push_all
  push_all-Stores c [] packets n on fit room st = rw (append-nil packets) st
  push_all-Stores c (f ∷ fs) packets n on (some_byte, fits, rest) room st =
      let (st', on') = push-Stores c f packets n on some_byte fits (omega arith) st in
      subst (λ ps. Stores (push_all api (push api c f) fs) ps n) (append_assoc packets (f ∷ []) fs)
        (push_all-Stores (push api c f) fs (packets ++ (f ∷ [])) n on' rest
          (omega (arith, length-append packets (f ∷ []))) st')
