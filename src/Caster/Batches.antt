-- ===== src/Caster/Batches.antt =====
-- The batch of main/base_station.cpp in front of the queue of main/local_caster.hpp: `kQueueDepth` is
-- deep enough for what `publish_to_batch` hands over at once.
use gps_base_station.Prelude.{
  ℕ, zero, suc, ◌+◌, ◌≤◌, ◌≡◌, refl, sym, ap, subst, List, [], ◌∷◌, ◌++◌, false, arith, length,
  length-append,
}
use gps_base_station.Freertos.{QueueApi}
use gps_base_station.Rtcm.Batch.{
  Batch, k_batch_bytes, k_max_frames_per_batch, cut_frames, pending, publish_to_batch,
}
use gps_base_station.Rtcm.Batch.Laws.{IsValid, Holds, publish_to_batch-Holds}
use gps_base_station.Caster.{Caster, k_max_packet, k_queue_depth, push_all}
use gps_base_station.Caster.Queueing.{AllFit, Stores, push_all-Stores}

AllFit-snoc :
    (fs : List (List ℕ)) (f : List ℕ)
    → AllFit fs
    → 1 ≤ length f
    → length f ≤ k_max_packet
    → AllFit (fs ++ (f ∷ []))
AllFit-snoc [] f fit some_byte fits = (some_byte, fits, tt)
AllFit-snoc (g ∷ fs) f (some_g, fits_g, rest) some_byte fits =
    (some_g, fits_g, AllFit-snoc fs f rest some_byte fits)

AllFit-split : (fs gs : List (List ℕ)) → AllFit (fs ++ gs) → AllFit fs × AllFit gs
AllFit-split [] gs fit = (tt, fit)
AllFit-split (f ∷ fs) gs (some_byte, fits, rest) =
    let (left, right) = AllFit-split fs gs rest in ((some_byte, fits, left), right)

length-cut_frames :
    (bytes ends : List ℕ) (start i n : ℕ) → length (cut_frames bytes ends start i n) ≡ n
unfolding cut_frames
length-cut_frames bytes ends start i zero = refl
length-cut_frames bytes ends start i (suc n) = ap suc (length-cut_frames bytes ends _ (i + 1) n)

length-pending : (b : Batch) → length (pending b) ≡ b.frame_count
length-pending b = unfold pending in length-cut_frames b.bytes b.frame_ends 0 0 b.frame_count

-- What `publish_to_batch` hands over: at most thirteen frames, each of which fits into a packet.
module _ (b : Batch) (frame : List ℕ) (now phase : ℕ) (v : IsValid b) (fit : AllFit (pending b))
    (some_byte : 1 ≤ length frame) (fits : length frame ≤ k_batch_bytes) where
  abbrev after : Batch × List (List ℕ)
  after = publish_to_batch b frame now phase

  holds : Holds after (pending b ++ (frame ∷ []))
  holds = publish_to_batch-Holds b frame now phase v fits

  after-AllFit : AllFit after.1 × AllFit (pending after.0)
  after-AllFit =
      AllFit-split after.1 (pending after.0)
        (subst AllFit (sym holds.1) (AllFit-snoc (pending b) frame fit some_byte fits))

  length-after : length after.1 ≤ k_max_frames_per_batch + 1
  length-after = omega (
    arith,
    ap length holds.1,
    length-append after.1 (pending after.0),
    length-append (pending b) (frame ∷ []),
    length-pending b,
    v.counted,
  )

-- A running caster with at most three packets in its queue of sixteen loses none of the frames that the
-- publication of a frame hands over, if the frames that wait and the new one have 1 to 1200 bytes: all
-- are behind those packets, whole and in order; and what still waits keeps those sizes.
pub push_all-publish_to_batch :
    (api : QueueApi (List ℕ)) (c : Caster api.Queue) (packets : List (List ℕ)) (b : Batch)
    (frame : List ℕ) (now phase : ℕ)
    → c.suspended ≡ false
    → Stores api c packets k_queue_depth
    → length packets ≤ 3
    → IsValid b
    → AllFit (pending b)
    → 1 ≤ length frame
    → length frame ≤ k_batch_bytes
    → Stores api
        (push_all api c (publish_to_batch b frame now phase).1)
        (packets ++ (publish_to_batch b frame now phase).1)
        k_queue_depth
      × AllFit (pending (publish_to_batch b frame now phase).0)
push_all-publish_to_batch api c packets b frame now phase on st few v fit some_byte fits =
    let sizes = after-AllFit b frame now phase v fit some_byte fits in
    (
      push_all-Stores api c (publish_to_batch b frame now phase).1 packets k_queue_depth on sizes.0
          (omega (arith, few, length-after b frame now phase v fit some_byte fits)) st,
      sizes.1,
    )
