-- ===== src/Ntrip/Client/Queueing.antt =====
-- `push`: what is queued for the caster, and when.
use gps_base_station.Prelude.{
  ℕ, ◌-◌, ◌≤◌, ◌<◌, ◌≡◌, ◌⊎◌, refl, sym, ap, ◌∙◌, List, [], ◌∷◌, ◌++◌, some, true, false, not, ◌&&◌,
  ◌||◌, ltb, ◌==◌, if◌then◌else◌, Bool-cases, inl, inr, arith, length, length-append, take, drop,
}
use gps_base_station.Freertos.{QueueApi, tail_of}
use gps_base_station.Ntrip.Client.{Client, enqueue, push, push_to, k_max_packet, bump32}

-- The last `n` items.
abbrev pub newest {ℓ} : {A : Type ℓ} → ℕ → List A → List A
newest n xs = drop (length xs - n) xs

drop-one {ℓ} :
    {A : Type ℓ} (xs : List A) (a : A)
    → 0 < length xs
    → drop 1 (xs ++ (a ∷ [])) ≡ tail_of xs ++ (a ∷ [])
drop-one [] a h = absurd (omega arith)
drop-one (x ∷ xs) a h = refl

length-tail_of {ℓ} : {A : Type ℓ} (xs : List A) → length (tail_of xs) ≡ length xs - 1
length-tail_of [] = omega arith
length-tail_of (x ∷ xs) = omega arith

newest-all {ℓ} : {A : Type ℓ} (n : ℕ) (xs : List A) → length xs ≤ n → newest n xs ≡ xs
newest-all n xs h = let e : length xs - n ≡ 0 = omega arith in rw e

newest-one {ℓ} :
    {A : Type ℓ} (n : ℕ) (xs : List A) (a : A)
    → length xs ≡ n
    → 0 < n
    → newest n (xs ++ (a ∷ [])) ≡ tail_of xs ++ (a ∷ [])
newest-one n xs a h pos =
    let e : length (xs ++ (a ∷ [])) - n ≡ 1 = omega (arith, length-append xs (a ∷ [])) in
    rw e (drop-one xs a (omega arith))

module _ (api : QueueApi (List ℕ)) where
  open api use {
    Queue, items, capacity, send, receive, items-send, send-room, capacity-send, items-receive,
    capacity-receive,
  }

  -- The items of a queue after `enqueue`, and the count of those that were dropped.
  abbrev pub Queued : Client Queue → Client Queue → List (List ℕ) → ℕ → Type 0
  Queued c c' now_queued drops =
      (q' : Queue) × (c'.queue ≡ some q') × (items q' ≡ now_queued) × (c'.dropped_batches ≡ drops)

  enqueue-Queued :
      (c : Client Queue) (q : Queue) (packet : List ℕ)
      → 0 < capacity q
      → length (items q) ≤ capacity q
      → let room = ltb (length (items q)) (capacity q) in
        Queued c
          (enqueue api c q packet)
          (newest (capacity q) (items q ++ (packet ∷ [])))
          (if room then c.dropped_batches else bump32 c.dropped_batches)
  unfolding enqueue
  enqueue-Queued c q packet pos le = elim (Bool-cases (ltb (length (items q)) (capacity q))) [
    | inl room ↦
        rw (send-room q packet, room)
          ((send q packet).0, refl, stored room ∙ sym (newest-all _ _ (fits room)), refl)
    | inr full ↦
        rw (send-room q packet, full)
          (
            (send (freed full) packet).0,
            refl,
            moved full ∙ sym (newest-one (capacity q) (items q) packet (exact full) pos),
            refl,
          )
  ]
    where
      stored :
          ltb (length (items q)) (capacity q) ≡ true
          → items (send q packet).0 ≡ items q ++ (packet ∷ [])
      stored room = rw (items-send q packet, room)

      fits :
          ltb (length (items q)) (capacity q) ≡ true
          → length (items q ++ (packet ∷ [])) ≤ capacity q
      fits room = ground (arith, length-append (items q) (packet ∷ []))

      exact : ltb (length (items q)) (capacity q) ≡ false → length (items q) ≡ capacity q
      exact full = ground arith

      freed : ltb (length (items q)) (capacity q) ≡ false → Queue
      freed full = (receive (send q packet).0).0

      kept : ltb (length (items q)) (capacity q) ≡ false → items (send q packet).0 ≡ items q
      kept full = rw (items-send q packet, full)

      left :
          (full : ltb (length (items q)) (capacity q) ≡ false)
          → items (freed full) ≡ tail_of (items q)
      left full = items-receive (send q packet).0 ∙ ap tail_of (kept full)

      again :
          (full : ltb (length (items q)) (capacity q) ≡ false)
          → ltb (length (items (freed full))) (capacity (freed full)) ≡ true
      again full = ground (
        arith,
        capacity-receive (send q packet).0,
        capacity-send q packet,
        left full,
        length-tail_of (items q),
      )

      moved :
          (full : ltb (length (items q)) (capacity q) ≡ false)
          → items (send (freed full) packet).0 ≡ tail_of (items q) ++ (packet ∷ [])
      moved full = rw (items-send (freed full) packet, again full, left full)

  -- A packet is taken exactly when there are bytes and the client is connected and not suspended. Then
  -- the queue holds the newest packets, this one last, as many as fit; one that was full has lost its
  -- oldest, which is counted. Otherwise nothing changes.
  pub push_lem :
      (c : Client Queue) (q : Queue) (bytes : List ℕ)
      → c.queue ≡ some q
      → 0 < capacity q
      → length (items q) ≤ capacity q
      → let (c', taken) = push api c (some bytes) in
        (taken ≡ (not (length bytes == 0) && (not c.suspended && c.connected)))
        × (((taken ≡ false) × (c' ≡ c))
            ⊎ ((taken ≡ true)
                × Queued c c' (newest (capacity q) (items q ++ (take k_max_packet bytes ∷ []))) (
                    if ltb (length (items q)) (capacity q)
                    then c.dropped_batches
                    else bump32 c.dropped_batches)))
  unfolding push
  push_lem c q bytes e pos le =
      rw (ap (push_to api c bytes) e)
        (elim (Bool-cases (length bytes == 0 || (c.suspended || not c.connected))) [
          | inl shut ↦ rw (shut, push_to) (ground arith, inl (refl, refl))
          | inr on ↦
              rw (on, push_to)
                (ground arith, inr (refl, enqueue-Queued c q (take k_max_packet bytes) pos le))
        ])
