-- ===== src/Rtcm/Parser.antt =====
-- `BaseStation::feed_rtcm_byte`: the frame buffer `rtcm_frame_` and its two counters.
pub mod Spec
pub mod Refine
pub mod Frames
pub mod Sound
mod Tests
use gps_base_station.Prelude.{
  ℕ, ◌+◌, ◌-◌, ◌*◌, ◌^◌, bit_and, bit_or, List, [], ◌∷◌, Option, none, some, ◌&&◌, ◌||◌, not, ltb,
  ◌==◌, if◌then◌else◌, set, get_or, take,
}
use gps_base_station.Rtcm.Crc.{crc24q}

abbrev pub k_max_rtcm_frame : ℕ
k_max_rtcm_frame = 1200

abbrev pub preamble : ℕ
preamble = 0xD3

pub record Parser : Type 0 where
  pub frame : List ℕ
  pub len : ℕ
  pub expected : ℕ

unfoldable pub reset_rtcm_parser : Parser → Parser
reset_rtcm_parser p = record p { len = 0; expected = 0 }

-- `rtcm_frame_[rtcm_frame_length_++] = byte`
pub put_byte : Parser → ℕ → Parser
put_byte p byte = record p { frame = set p.frame p.len byte; len = p.len + 1 }

-- The length field of the header: ten bits of bytes 1 and 2.
pub payload_length : List ℕ → ℕ
payload_length frame = bit_or (bit_and (get_or frame 1 0) 0x03 * 2 ^ 8) (get_or frame 2 0)

-- The last three bytes of a frame of `n`, as a number.
pub trailer : List ℕ → ℕ → ℕ
trailer frame n =
    bit_or (bit_or (get_or frame (n - 3) 0 * 2 ^ 16) (get_or frame (n - 2) 0 * 2 ^ 8))
      (get_or frame (n - 1) 0)

-- The parser after the byte, and the frame that is handed to `publish_rtcm_frame`.
start : Parser → ℕ → Parser × Option (List ℕ)
unfolding put_byte
start p byte = if byte == preamble then (put_byte p byte, none) else (p, none)

reject : Parser → ℕ → Parser × Option (List ℕ)
unfolding reset_rtcm_parser start
reject p byte = start (reset_rtcm_parser p) byte

measure : Parser → Parser × Option (List ℕ)
unfolding payload_length reset_rtcm_parser
measure p =
    let expected = payload_length p.frame + 6 in
    if ltb k_max_rtcm_frame expected || ltb expected 6
    then (reset_rtcm_parser (record p { expected = expected }), none)
    else (record p { expected = expected }, none)

complete : Parser → Parser × Option (List ℕ)
unfolding trailer reset_rtcm_parser
complete p =
    if trailer p.frame p.expected == crc24q (take (p.expected - 3) p.frame)
    then (reset_rtcm_parser p, some (take p.expected p.frame))
    else (reset_rtcm_parser p, none)

advance : Parser → ℕ → Parser × Option (List ℕ)
unfolding reject measure complete
advance p byte =
    if p.len == 2 && not (bit_and (get_or p.frame 1 0) 0xFC == 0)
    then reject p byte
    else if p.len == 3
    then measure p
    else if p.expected == 0 || ltb p.len p.expected
    then (p, none)
    else complete p

unfoldable pub feed_rtcm_byte : Parser → ℕ → Parser × Option (List ℕ)
unfolding start put_byte advance
feed_rtcm_byte p byte = if p.len == 0 then start p byte else advance (put_byte p byte) byte

-- A completed frame goes before those that come later.
abbrev pub emit {ℓ} : {S : Type ℓ} → Option (List ℕ) → S × List (List ℕ) → S × List (List ℕ)
emit none r = r
emit (some f) (s, outs) = (s, f ∷ outs)

-- The bytes of a read, in order, with the frames that they complete.
pub feed_all : Parser → List ℕ → Parser × List (List ℕ)
feed_all p [] = (p, [])
feed_all p (byte ∷ bytes) = let (q, out) = feed_rtcm_byte p byte in emit out (feed_all q bytes)
