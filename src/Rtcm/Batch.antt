-- ===== src/Rtcm/Batch.antt =====
-- `RtcmBatch` of main/base_station.hpp and the functions of main/base_station.cpp on it: the frames that
-- wait for the local caster. A call of `flush` is an element of the list that comes back.
pub mod Laws
mod Tests
use gps_base_station.Prelude.{
  ℕ, zero, suc, ◌+◌, List, [], ◌∷◌, ◌++◌, Bool, ◌&&◌, ◌||◌, not, ltb, leb, ◌==◌, if◌then◌else◌,
  length, set, get_or, slice, write_at,
}

abbrev pub k_rtcm_batch_us : ℕ
k_rtcm_batch_us = 200000

abbrev pub k_rtcm_stagger_us : ℕ
k_rtcm_stagger_us = 50000

abbrev pub k_batch_bytes : ℕ
k_batch_bytes = 1200

abbrev pub k_max_frames_per_batch : ℕ
k_max_frames_per_batch = 12

pub record Batch : Type 0 where
  pub bytes : List ℕ
  pub len : ℕ
  pub next_flush_us : ℕ
  pub frame_ends : List ℕ
  pub frame_count : ℕ

-- The loop of `flush_batch_frames` from frame `i` on, with `n` rounds left.
unfoldable pub cut_frames : List ℕ → List ℕ → ℕ → ℕ → ℕ → List (List ℕ)
cut_frames bytes ends start i zero = []
cut_frames bytes ends start i (suc n) =
    let end = get_or ends i 0 in slice bytes start end ∷ cut_frames bytes ends end (i + 1) n

-- What a flush would hand over now.
unfoldable pub pending : Batch → List (List ℕ)
unfolding cut_frames
pending b = cut_frames b.bytes b.frame_ends 0 0 b.frame_count

pub flush_batch_frames : Batch → Batch × List (List ℕ)
unfolding pending
flush_batch_frames b = (record b { len = 0; frame_count = 0 }, pending b)

-- A flush at `now`, which sets the next one.
pub flush_at : Batch → ℕ → Batch × List (List ℕ)
unfolding flush_batch_frames
flush_at b now =
    let (b', out) = flush_batch_frames b in
    (record b' { next_flush_us = now + k_rtcm_batch_us }, out)

pub is_full : Batch → List ℕ → Bool
is_full b frame =
    (ltb 0 b.len && ltb (length b.bytes) (b.len + length frame))
    || leb (length b.frame_ends) b.frame_count

-- The frame goes behind those that wait.
pub add_frame : Batch → List ℕ → Batch
add_frame b frame = record b {
  bytes = write_at b.bytes b.len frame;
  len = b.len + length frame;
  frame_ends = set b.frame_ends b.frame_count (b.len + length frame);
  frame_count = b.frame_count + 1;
}

-- The first frame arms the schedule.
pub arm : Batch → ℕ → ℕ → Batch
arm b now phase_offset_us =
    if b.next_flush_us == 0
    then record b { next_flush_us = now + phase_offset_us + k_rtcm_batch_us }
    else b

pub make_room : Batch → List ℕ → ℕ → Batch × List (List ℕ)
unfolding is_full flush_at
make_room b frame now = if is_full b frame then flush_at b now else (b, [])

-- `now >= batch.next_flush_us` at the end of `publish_to_batch`.
pub flush_if_past : Batch → ℕ → Batch × List (List ℕ)
unfolding flush_at
flush_if_past b now = if leb b.next_flush_us now then flush_at b now else (b, [])

unfoldable pub publish_to_batch : Batch → List ℕ → ℕ → ℕ → Batch × List (List ℕ)
unfolding make_room add_frame arm flush_if_past
publish_to_batch b frame now phase_offset_us =
    let (room, early) = make_room b frame now in
    let (b', late) = flush_if_past (arm (add_frame room frame) now phase_offset_us) now in
    (b', early ++ late)

unfoldable pub flush_due_batch : Batch → ℕ → Batch × List (List ℕ)
unfolding flush_at
flush_due_batch b now =
    if ltb 0 b.len && (not (b.next_flush_us == 0) && leb b.next_flush_us now)
    then flush_at b now
    else (b, [])
