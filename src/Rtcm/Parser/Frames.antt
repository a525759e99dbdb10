-- ===== src/Rtcm/Parser/Frames.antt =====
-- A stream of well-formed frames gives exactly its frames.
use gps_base_station.Prelude.{
  ℕ, suc, ◌+◌, ◌-◌, ◌≤◌, ◌<◌, ◌≡◌, refl, sym, ap, subst, ◌∙◌, List, [], ◌∷◌, ◌++◌, append_assoc,
  none, some, arith, length, length-append, length-take, take, get_or-append, AllBytes,
}
use gps_base_station.Rtcm.Crc.{crc24q}
use gps_base_station.Rtcm.Parser.{Parser, preamble, payload_length, trailer, feed_all}
use gps_base_station.Rtcm.Parser.Spec.{
  frame_size, IsFrame, collect, scan, scan_all, scan-collect, scan_all-none, scan_all-some, stream,
  frames, IsNoise, AllFrames, AllNoise,
}
use gps_base_station.Rtcm.Parser.Refine.{Inv, feed_all_refines}

pub frame_size-append : (acc bs : List ℕ) → 3 ≤ length acc → frame_size (acc ++ bs) ≡ frame_size acc
unfolding payload_length
frame_size-append acc bs h =
    rw (get_or-append acc bs 1 0 (omega arith), get_or-append acc bs 2 0 (omega arith))

scan-more :
    (acc : List ℕ) (b : ℕ)
    → 3 ≤ length acc
    → length acc + 1 < frame_size acc
    → scan acc b ≡ (acc ++ (b ∷ []), none)
unfolding collect
scan-more acc b h lt =
    ground (arith, scan-collect acc b, length-append acc (b ∷ []), frame_size-append acc (b ∷ []) h)

scan-last :
    (acc : List ℕ) (b : ℕ)
    → 3 ≤ length acc
    → frame_size acc ≡ length acc + 1
    → trailer (acc ++ (b ∷ [])) (frame_size acc)
      ≡ crc24q (take (frame_size acc - 3) (acc ++ (b ∷ [])))
    → scan acc b ≡ ([], some (acc ++ (b ∷ [])))
unfolding collect
scan-last acc b h e c =
    ground (arith, scan-collect acc b, length-append acc (b ∷ []), frame_size-append acc (b ∷ []) h)

-- With the header in, the rest of the frame completes it.
scan_all-body :
    (acc : List ℕ) (b : ℕ) (bs more : List ℕ)
    → 3 ≤ length acc
    → frame_size acc ≡ length acc + suc (length bs)
    → trailer (acc ++ (b ∷ bs)) (frame_size acc)
      ≡ crc24q (take (frame_size acc - 3) (acc ++ (b ∷ bs)))
    → scan_all acc ((b ∷ bs) ++ more)
      ≡ ((scan_all [] more).0, (acc ++ (b ∷ bs)) ∷ (scan_all [] more).1)
scan_all-body acc b [] more h e c = scan_all-some acc b more (scan-last acc b h (omega arith) c)
scan_all-body acc b (b' ∷ bs) more h e c =
    scan_all-none acc b ((b' ∷ bs) ++ more) (scan-more acc b h (omega arith))
    ∙ subst
        (λ t. scan_all acc' ((b' ∷ bs) ++ more) ≡ ((scan_all [] more).0, t ∷ (scan_all [] more).1))
        same
        (scan_all-body acc' b' bs more (omega (arith, len)) (size ∙ omega (arith, len))
          (rw (same, size) c))
  where
    acc' : List ℕ
    acc' = acc ++ (b ∷ [])

    len : length acc' ≡ length acc + 1
    len = length-append acc (b ∷ [])

    size : frame_size acc' ≡ frame_size acc
    size = frame_size-append acc (b ∷ []) h

    same : acc' ++ (b' ∷ bs) ≡ acc ++ (b ∷ b' ∷ bs)
    same = append_assoc acc (b ∷ []) (b' ∷ bs)

scan_all-header :
    (b : ℕ) (more : List ℕ) (c : ℕ)
    → b < 4
    → scan_all [] (preamble ∷ b ∷ c ∷ more) ≡ scan_all (preamble ∷ b ∷ c ∷ []) more
scan_all-header b more c lt =
    scan_all-none [] preamble (b ∷ c ∷ more) first
    ∙ scan_all-none (preamble ∷ []) b (c ∷ more) second
    ∙ scan_all-none (preamble ∷ b ∷ []) c more third
  where
    first : scan [] preamble ≡ (preamble ∷ [], none)
    first = unfold scan in refl

    second : scan (preamble ∷ []) b ≡ (preamble ∷ b ∷ [], none)
    second = unfold scan collect in ground arith

    third : scan (preamble ∷ b ∷ []) c ≡ (preamble ∷ b ∷ c ∷ [], none)
    third = unfold scan collect in refl

-- The frame comes out, and the rest of the stream is read as from the start.
abbrev Emits : List ℕ → List ℕ → Type 0
Emits f more = scan_all [] (f ++ more) ≡ ((scan_all [] more).0, f ∷ (scan_all [] more).1)

scan_all-begun :
    (b c d : ℕ) (bs more : List ℕ)
    → IsFrame (preamble ∷ b ∷ c ∷ d ∷ bs)
    → Emits (preamble ∷ b ∷ c ∷ d ∷ bs) more
unfolding payload_length
scan_all-begun b c d bs more v =
    scan_all-header b ((d ∷ bs) ++ more) c v.reserved
    ∙ scan_all-body (preamble ∷ b ∷ c ∷ []) d bs more (omega arith) (omega (arith, v.sized))
        (subst (λ n. trailer f n ≡ crc24q (take (n - 3) f)) v.sized v.checked)
  where
    f : List ℕ
    f = preamble ∷ b ∷ c ∷ d ∷ bs

scan_all-frame : (f more : List ℕ) → IsFrame f → Emits f more
scan_all-frame [] more v = absurd (omega (arith, v.sized))
scan_all-frame (a ∷ []) more v = absurd (omega (arith, v.sized))
scan_all-frame (a ∷ b ∷ []) more v = absurd (omega (arith, v.sized))
scan_all-frame (a ∷ b ∷ c ∷ []) more v = absurd (omega (arith, v.sized))
scan_all-frame (a ∷ b ∷ c ∷ d ∷ bs) more v =
    subst (λ x. IsFrame (x ∷ b ∷ c ∷ d ∷ bs) → Emits (x ∷ b ∷ c ∷ d ∷ bs) more) (sym v.begins)
      (scan_all-begun b c d bs more) v

scan_all-noise :
    (noise more : List ℕ) → IsNoise noise → scan_all [] (noise ++ more) ≡ scan_all [] more
unfolding scan
scan_all-noise [] more v = refl
scan_all-noise (b ∷ noise) more v =
    scan_all-none [] b (noise ++ more) (ground arith) ∙ scan_all-noise noise more v.2

scan_all-stream :
    (ps : List (List ℕ × List ℕ))
    → AllNoise ps
    → AllFrames ps
    → scan_all [] (stream ps) ≡ ([], frames ps)
unfolding stream scan_all
scan_all-stream [] n v = refl
scan_all-stream ((noise, f) ∷ ps) n v =
    unfold stream in
    scan_all-noise noise (f ++ stream ps) n.0
    ∙ scan_all-frame f (stream ps) v.0
    ∙ ap (λ r. (r.0, f ∷ r.1)) (scan_all-stream ps n.1 v.1)

pub AllBytes-append : (xs ys : List ℕ) → AllBytes xs → AllBytes ys → AllBytes (xs ++ ys)
AllBytes-append [] ys a b = b
AllBytes-append (x ∷ xs) ys a b = (a.0, AllBytes-append xs ys a.1 b)

AllBytes-noise : (xs : List ℕ) → IsNoise xs → AllBytes xs
AllBytes-noise [] n = tt
AllBytes-noise (x ∷ xs) n = (n.0, AllBytes-noise xs n.2)

AllBytes-stream : (ps : List (List ℕ × List ℕ)) → AllNoise ps → AllFrames ps → AllBytes (stream ps)
unfolding stream
AllBytes-stream [] n v = tt
AllBytes-stream ((noise, f) ∷ ps) n v =
    AllBytes-append noise (f ++ stream ps) (AllBytes-noise noise n.0)
      (AllBytes-append f (stream ps) v.0.bytes (AllBytes-stream ps n.1 v.1))

-- From the start of a frame on, a stream of well-formed frames with any bytes but the preamble
-- between them gives exactly those frames, in order, and leaves nothing collected.
pub feed_all-stream :
    (p : Parser) (ps : List (List ℕ × List ℕ))
    → Inv p
    → p.len ≡ 0
    → AllNoise ps
    → AllFrames ps
    → let (q, outs) = feed_all p (stream ps) in (outs ≡ frames ps) × (q.len ≡ 0) × Inv q
feed_all-stream p ps v idle n fs = ground (
  arith,
  feed_all_refines p (stream ps) v (AllBytes-stream ps n fs),
  scan_all-stream ps n fs,
  length-take (feed_all p (stream ps)).0.len (feed_all p (stream ps)).0.frame,
)
