-- ===== src/Rtcm/Batch/Laws.antt =====
-- No frame of the batch is lost, torn, doubled or moved.
use gps_base_station.Prelude.{
  ℕ, zero, suc, ◌+◌, ◌≤◌, ◌<◌, ◌≡◌, refl, sym, ap, ap₂, subst, ◌∙◌, ◌⊎◌, inl, inr, List, [], ◌∷◌,
  ◌++◌, Bool-cases, append-nil, append_assoc, arith, length, length-set, set, get_or, write_at,
  length-write_at, slice-write_at_self, slice-write_at_before, get_or-set_eq, get_or-set_ne, leb,
  ltb, ◌==◌, not, ◌&&◌,
}
use gps_base_station.Rtcm.Batch.{
  Batch, k_batch_bytes, k_max_frames_per_batch, cut_frames, pending, flush_at, is_full, add_frame,
  arm, make_room, flush_if_past, publish_to_batch, flush_due_batch,
}

-- `n` frames lie one behind the other from `start` to `stop`.
abbrev pub Chain : List ℕ → ℕ → ℕ → ℕ → ℕ → Type 0
Chain ends start i zero stop = start ≡ stop
Chain ends start i (suc n) stop =
    (start ≤ get_or ends i 0) × Chain ends (get_or ends i 0) (i + 1) n stop

Chain-le : (ends : List ℕ) (start i n stop : ℕ) → Chain ends start i n stop → start ≤ stop
Chain-le ends start i zero stop c = omega arith
Chain-le ends start i (suc n) stop c =
    omega (arith, Chain-le ends (get_or ends i 0) (i + 1) n stop c.1)

pub record IsValid (b : Batch) : Type 0 where
  pub room : length b.bytes ≡ k_batch_bytes
  pub places : length b.frame_ends ≡ k_max_frames_per_batch
  pub within : b.len ≤ k_batch_bytes
  pub counted : b.frame_count ≤ k_max_frames_per_batch
  pub chain : Chain b.frame_ends 0 0 b.frame_count b.len

-- One more frame behind the others leaves those as they are.
module _ (bytes ends frame : List ℕ) (len count : ℕ) (room : len + length frame ≤ length bytes)
    (place : count < length ends) where
  abbrev bytes' : List ℕ
  bytes' = write_at bytes len frame

  abbrev ends' : List ℕ
  ends' = set ends count (len + length frame)

  last_end : get_or ends' count 0 ≡ len + length frame
  last_end = get_or-set_eq ends count (len + length frame) 0 place

  other_end : (i : ℕ) → i < count → get_or ends' i 0 ≡ get_or ends i 0
  other_end i h = get_or-set_ne ends count i (len + length frame) 0 (omega arith)

  Chain-add :
      (start i n : ℕ)
      → i + n ≡ count
      → Chain ends start i n len
      → Chain ends' start i (suc n) (len + length frame)
  Chain-add start i zero e c =
      let i' : i ≡ count = omega arith in rw (i', last_end) (omega arith, refl)
  Chain-add start i (suc n) e c =
      rw (other_end i (omega arith)) (c.0, Chain-add (get_or ends i 0) (i + 1) n (omega arith) c.1)

  cut_frames-add :
      (start i n : ℕ)
      → i + n ≡ count
      → Chain ends start i n len
      → cut_frames bytes' ends' start i (suc n) ≡ cut_frames bytes ends start i n ++ (frame ∷ [])
  unfolding cut_frames
  cut_frames-add start i zero e c =
      let i' : i ≡ count = omega arith in
      rw (i', last_end, c)
        (ap (λ f. f ∷ []) (slice-write_at_self bytes len (len + length frame) frame refl room))
  cut_frames-add start i (suc n) e c = rw (other_end i (omega arith)) (
      ap₂ ◌∷◌
        (slice-write_at_before bytes len start (get_or ends i 0) frame c.0
          (Chain-le ends (get_or ends i 0) (i + 1) n len c.1))
        (cut_frames-add (get_or ends i 0) (i + 1) n (omega arith) c.1))

-- There is room for the frame.
abbrev Fits : Batch → List ℕ → Type 0
Fits b frame = (b.len + length frame ≤ k_batch_bytes) × (b.frame_count < k_max_frames_per_batch)

-- The batch is valid, and with what was handed over it holds `frames`.
abbrev pub Holds : Batch × List (List ℕ) → List (List ℕ) → Type 0
Holds (b, out) frames = IsValid b × (out ++ pending b ≡ frames)

add_frame-Holds :
    (b : Batch) (frame : List ℕ)
    → IsValid b
    → Fits b frame
    → Holds (add_frame b frame, []) (pending b ++ (frame ∷ []))
unfolding add_frame pending
add_frame-Holds b frame v fits = (
  record {
    room = length-write_at b.bytes b.len frame ∙ v.room;
    places = length-set b.frame_ends b.frame_count (b.len + length frame) ∙ v.places;
    within = fits.0;
    counted = omega arith;
    chain =
        subst (λ k. Chain ends_next 0 0 k (b.len + length frame)) next
          (Chain-add b.bytes b.frame_ends frame b.len b.frame_count room place 0 0 b.frame_count
            (omega arith) v.chain);
  },
  subst (λ k. cut_frames bytes_next ends_next 0 0 k ≡ pending b ++ (frame ∷ [])) next
      (cut_frames-add b.bytes b.frame_ends frame b.len b.frame_count room place 0 0 b.frame_count
        (omega arith) v.chain),
)
  where
    ends_next : List ℕ
    ends_next = set b.frame_ends b.frame_count (b.len + length frame)

    bytes_next : List ℕ
    bytes_next = write_at b.bytes b.len frame

    next : suc b.frame_count ≡ b.frame_count + 1
    next = omega arith

    room : b.len + length frame ≤ length b.bytes
    room = omega (arith, v.room)

    place : b.frame_count < length b.frame_ends
    place = omega (arith, v.places)

flush_at-Holds : (b : Batch) (now : ℕ) → IsValid b → Holds (flush_at b now) (pending b)
unfolding flush_at pending
flush_at-Holds b now v = (
  record {
    room = v.room;
    places = v.places;
    within = omega arith;
    counted = omega arith;
    chain = refl;
  },
  append-nil _,
)

-- After `make_room` the frame fits.
make_room-Holds :
    (b : Batch) (frame : List ℕ) (now : ℕ)
    → IsValid b
    → length frame ≤ k_batch_bytes
    → Holds (make_room b frame now) (pending b) × Fits (make_room b frame now).0 frame
unfolding make_room is_full
make_room-Holds b frame now v small = ground (arith, flush_at-Holds b now v, flush_at_empty)
  where
    flush_at_empty : ((flush_at b now).0.len ≡ 0) × ((flush_at b now).0.frame_count ≡ 0)
    flush_at_empty = unfold flush_at in (refl, refl)

-- The schedule is no matter to the frames.
arm-Holds :
    (b : Batch) (now phase : ℕ) (out frames : List (List ℕ))
    → Holds (b, out) frames
    → Holds (arm b now phase, out) frames
unfolding arm pending
arm-Holds b now phase out frames h = elim (Bool-cases (b.next_flush_us == 0)) [
  | inl e ↦ rw e (
    record {
      room = h.0.room;
      places = h.0.places;
      within = h.0.within;
      counted = h.0.counted;
      chain = h.0.chain;
    },
    h.1,
  )
  | inr e ↦ rw e h
]

flush_if_past-Holds : (b : Batch) (now : ℕ) → IsValid b → Holds (flush_if_past b now) (pending b)
unfolding flush_if_past
flush_if_past-Holds b now v = elim (Bool-cases (leb b.next_flush_us now)) [
  | inl e ↦ rw e (flush_at-Holds b now v)
  | inr e ↦ rw e (v, refl)
]

pending-flush_at : (b : Batch) (now : ℕ) → pending (flush_at b now).0 ≡ []
unfolding flush_at pending
pending-flush_at b now = refl

-- Publishing a frame keeps the batch valid (so no copy leaves its arrays), and what is handed over then,
-- followed by what waits afterwards, is what waited before and then the frame: no frame is lost,
-- split, doubled or reordered, also when the batch was full.
pub publish_to_batch-Holds :
    (b : Batch) (frame : List ℕ) (now phase : ℕ)
    → IsValid b
    → length frame ≤ k_batch_bytes
    → Holds (publish_to_batch b frame now phase) (pending b ++ (frame ∷ []))
unfolding publish_to_batch
publish_to_batch-Holds b frame now phase v small = (
  late.0,
  append_assoc early _ _
      ∙ ap (◌++◌ early) (late.1 ∙ armed.1)
      ∙ sym (append_assoc early (pending room) (frame ∷ []))
      ∙ ap (λ fs. fs ++ (frame ∷ [])) made.0.1,
)
  where
    made : Holds (make_room b frame now) (pending b) × Fits (make_room b frame now).0 frame
    made = make_room-Holds b frame now v small

    room : Batch
    room = (make_room b frame now).0

    early : List (List ℕ)
    early = (make_room b frame now).1

    armed : Holds (arm (add_frame room frame) now phase, []) (pending room ++ (frame ∷ []))
    armed =
        arm-Holds (add_frame room frame) now phase [] _ (add_frame-Holds room frame made.0.0 made.1)

    late :
        Holds
          (flush_if_past (arm (add_frame room frame) now phase) now)
          (pending (arm (add_frame room frame) now phase))
    late = flush_if_past-Holds (arm (add_frame room frame) now phase) now armed.0

-- A flush that is due hands over all that waits, in order, and one that is not changes nothing.
pub flush_due_batch-Holds :
    (b : Batch) (now : ℕ)
    → IsValid b
    → Holds (flush_due_batch b now) (pending b)
      × ((pending (flush_due_batch b now).0 ≡ []) ⊎ (flush_due_batch b now ≡ (b, [])))
unfolding flush_due_batch
flush_due_batch-Holds b now v =
    elim (Bool-cases (ltb 0 b.len && (not (b.next_flush_us == 0) && leb b.next_flush_us now))) [
      | inl e ↦ rw e (flush_at-Holds b now v, inl (pending-flush_at b now))
      | inr e ↦ rw e ((v, refl), inr refl)
    ]
