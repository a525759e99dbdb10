-- ===== src/Rtcm/Parser/Spec.antt =====
-- The framing of RTCM3 told on lists: what is collected so far, with no buffer and no counters.
use gps_base_station.Prelude.{
  ℕ, ◌+◌, ◌-◌, ◌≡◌, ◌<◌, List, [], ◌∷◌, ◌++◌, Option, none, some, ltb, ◌==◌, if◌then◌else◌, get_or,
  take, length, AllBytes, refl, ap, map, ◌≢◌, arith,
}
use gps_base_station.Rtcm.Crc.{crc24q}
use gps_base_station.Rtcm.Parser.{preamble, payload_length, trailer, emit}

-- Header, payload and checksum.
abbrev pub frame_size : List ℕ → ℕ
frame_size f = payload_length f + 6

pub record IsFrame (f : List ℕ) : Type 0 where
  pub bytes : AllBytes f
  pub begins : get_or f 0 0 ≡ preamble
  pub reserved : get_or f 1 0 < 4
  pub sized : length f ≡ frame_size f
  pub checked : trailer f (length f) ≡ crc24q (take (length f - 3) f)

abbrev pub restart : ℕ → List ℕ
restart byte = if byte == preamble then byte ∷ [] else []

-- `acc` is what is collected with the new byte, which comes behind the preamble.
unfoldable pub collect : List ℕ → ℕ → List ℕ × Option (List ℕ)
collect acc byte =
    if length acc == 2
    then (if ltb byte 4 then (acc, none) else (restart byte, none))
    else if length acc == 3
    then (acc, none)
    else if ltb (length acc) (frame_size acc)
    then (acc, none)
    else if trailer acc (length acc) == crc24q (take (length acc - 3) acc)
    then ([], some acc)
    else ([], none)

unfoldable pub scan : List ℕ → ℕ → List ℕ × Option (List ℕ)
unfolding collect
scan [] byte = (restart byte, none)
scan (a ∷ rest) byte = collect ((a ∷ rest) ++ (byte ∷ [])) byte

unfoldable pub scan_all : List ℕ → List ℕ → List ℕ × List (List ℕ)
scan_all acc [] = (acc, [])
scan_all acc (byte ∷ bytes) = let (acc', out) = scan acc byte in emit out (scan_all acc' bytes)

pub scan-collect :
    (acc : List ℕ) (byte : ℕ) → 0 < length acc → scan acc byte ≡ collect (acc ++ (byte ∷ [])) byte
unfolding scan
scan-collect [] byte h = absurd (omega arith)
scan-collect (a ∷ rest) byte h = refl

pub scan_all-none :
    (acc : List ℕ) {acc' : List ℕ} (b : ℕ) (bs : List ℕ)
    → scan acc b ≡ (acc', none)
    → scan_all acc (b ∷ bs) ≡ scan_all acc' bs
unfolding scan_all
scan_all-none acc b bs e = ap (λ r. emit r.1 (scan_all r.0 bs)) e

pub scan_all-some :
    (acc : List ℕ) {acc' f : List ℕ} (b : ℕ) (bs : List ℕ)
    → scan acc b ≡ (acc', some f)
    → scan_all acc (b ∷ bs) ≡ ((scan_all acc' bs).0, f ∷ (scan_all acc' bs).1)
unfolding scan_all
scan_all-some acc b bs e = ap (λ r. emit r.1 (scan_all r.0 bs)) e

-- A stream as it comes from the line: frames, each behind some other bytes.
unfoldable pub stream : List (List ℕ × List ℕ) → List ℕ
stream [] = []
stream ((noise, f) ∷ ps) = noise ++ (f ++ stream ps)

abbrev pub frames : List (List ℕ × List ℕ) → List (List ℕ)
frames = map (λ p. p.1)

-- Bytes that do not begin a frame.
abbrev pub IsNoise : List ℕ → Type 0
IsNoise [] = Unit {0}
IsNoise (b ∷ bs) = (b < 256) × (b ≢ preamble) × IsNoise bs

abbrev pub AllFrames : List (List ℕ × List ℕ) → Type 0
AllFrames [] = Unit {0}
AllFrames ((noise, f) ∷ ps) = IsFrame f × AllFrames ps

abbrev pub AllNoise : List (List ℕ × List ℕ) → Type 0
AllNoise [] = Unit {0}
AllNoise ((noise, f) ∷ ps) = IsNoise noise × AllNoise ps
