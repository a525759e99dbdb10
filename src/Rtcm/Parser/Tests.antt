-- ===== src/Rtcm/Parser/Tests.antt =====
-- Runs of the parser over two short frames, of message types 1005 and 1077.
use gps_base_station.Prelude.{ℕ, ◌≡◌, refl, inl, List, [], ◌∷◌, arith, replicate, length-replicate}
use gps_base_station.Rtcm.Crc.{crc24q}
use gps_base_station.Rtcm.Parser.{Parser, payload_length, trailer, feed_rtcm_byte, feed_all}
use gps_base_station.Rtcm.Parser.Spec.{IsFrame, stream, scan}
use gps_base_station.Rtcm.Parser.Refine.{Inv, contents, feed_rtcm_byte_refines}
use gps_base_station.Rtcm.Parser.Frames.{feed_all-stream}
use gps_base_station.Rtcm.Parser.Sound.{Cuts, feed_all_sound}

abbrev frame_1005 : List ℕ
frame_1005 = 211 ∷ 0 ∷ 5 ∷ 62 ∷ 208 ∷ 1 ∷ 2 ∷ 3 ∷ 219 ∷ 224 ∷ 150 ∷ []

abbrev frame_1077 : List ℕ
frame_1077 = 211 ∷ 0 ∷ 5 ∷ 67 ∷ 80 ∷ 4 ∷ 5 ∷ 6 ∷ 167 ∷ 191 ∷ 32 ∷ []

frame_1005-IsFrame : IsFrame frame_1005
unfolding payload_length trailer crc24q
frame_1005-IsFrame = record {
  bytes = omega arith;
  begins = refl;
  reserved = omega arith;
  sized = refl;
  checked = refl;
}

frame_1077-IsFrame : IsFrame frame_1077
unfolding payload_length trailer crc24q
frame_1077-IsFrame = record {
  bytes = omega arith;
  begins = refl;
  reserved = omega arith;
  sized = refl;
  checked = refl;
}

-- Noise, a frame, and a second one right behind it.
abbrev two_frames : List (List ℕ × List ℕ)
two_frames = (36 ∷ 13 ∷ [], frame_1005) ∷ ([], frame_1077) ∷ []

idle : Parser
idle = record { frame = replicate 1200 0; len = 0; expected = 0 }

idle-Inv : Inv idle
unfolding idle
idle-Inv = record { size = length-replicate {A = ℕ} 1200 0; phase = inl (refl, refl) }

feed_all-stream_example :
    let (q, outs) = feed_all idle (stream two_frames) in
    (outs ≡ frame_1005 ∷ frame_1077 ∷ []) × (q.len ≡ 0) × Inv q
unfolding idle
feed_all-stream_example =
    feed_all-stream idle two_frames idle-Inv refl (omega arith)
      (frame_1005-IsFrame, (frame_1077-IsFrame, tt))

feed_all_sound_example :
    let (q, outs) = feed_all idle (stream two_frames) in
    Inv q × Cuts (stream two_frames) outs (contents q)
unfolding idle stream
feed_all_sound_example = feed_all_sound idle (stream two_frames) idle-Inv refl (omega arith)

feed_rtcm_byte_refines_example :
    let (q, out) = feed_rtcm_byte idle 211 in Inv q × ((contents q, out) ≡ scan (contents idle) 211)
feed_rtcm_byte_refines_example = feed_rtcm_byte_refines idle 211 idle-Inv (omega arith)
