-- ===== src/Rtcm/Parser/Refine.antt =====
-- The buffer with its two counters does what `scan` does on what it holds.
use gps_base_station.Prelude.{
  ℕ, ◌-◌, ◌≤◌, ◌<◌, ◌≡◌, refl, sym, subst, ◌∙◌, ◌≢◌, ◌⊎◌, inl, inr, List, [], ◌∷◌, Option, none,
  arith, bit_and, length, length-set, length-take, get_or, take, set, take-set_next, take-take,
  get_or-take, get_or-set_eq, get_or-set_ne, low_two_lt, high_six_clear, join_lem, AllBytes,
}
use gps_base_station.Rtcm.Parser.{
  Parser, k_max_rtcm_frame, reset_rtcm_parser, put_byte, payload_length, trailer, start, reject,
  measure, complete, advance, feed_rtcm_byte, feed_all,
}
use gps_base_station.Rtcm.Parser.Spec.{frame_size, restart, collect, scan, scan_all, scan-collect}

-- `rtcm_frame_[0 .. rtcm_frame_length_)`.
abbrev pub contents : Parser → List ℕ
contents p = take p.len p.frame

abbrev InHeader : Parser → ℕ → Type 0
InHeader p n = (p.len ≡ n) × (p.expected ≡ 0)

abbrev InBody : Parser → Type 0
InBody p =
    (3 ≤ p.len) × (p.len < p.expected) × (p.expected ≡ frame_size p.frame) × (p.expected ≤ 1029)

pub record Inv (p : Parser) : Type 0 where
  pub size : length p.frame ≡ k_max_rtcm_frame
  pub phase : InHeader p 0 ⊎ InHeader p 1 ⊎ (InHeader p 2 × (get_or p.frame 1 0 < 4)) ⊎ InBody p

payload_length-le :
    (frame : List ℕ) → get_or frame 1 0 < 4 → get_or frame 2 0 < 256 → payload_length frame ≤ 1023
unfolding payload_length
payload_length-le frame p q =
    omega (
      arith,
      low_two_lt a (omega arith),
      join_lem (bit_and a 0x03) c (low_two_lt a (omega arith)) q,
    )
  where
    a : ℕ
    a = get_or frame 1 0

    c : ℕ
    c = get_or frame 2 0

frame_size-take : (xs : List ℕ) (n : ℕ) → 3 ≤ n → frame_size (take n xs) ≡ frame_size xs
unfolding payload_length
frame_size-take xs n h = rw (get_or-take xs n 1 0 (omega arith), get_or-take xs n 2 0 (omega arith))

trailer-take : (xs : List ℕ) (n : ℕ) → 3 ≤ n → trailer (take n xs) n ≡ trailer xs n
unfolding trailer
trailer-take xs n h = rw (
  get_or-take xs n (n - 3) 0 (omega arith),
  get_or-take xs n (n - 2) 0 (omega arith),
  get_or-take xs n (n - 1) 0 (omega arith),
)

abbrev Refines : Parser × Option (List ℕ) → List ℕ × Option (List ℕ) → Type 0
Refines (q, out) r = Inv q × ((contents q, out) ≡ r)

start-Refines :
    (frame : List ℕ) (byte : ℕ)
    → length frame ≡ k_max_rtcm_frame
    → Refines (start (record { frame = frame; len = 0; expected = 0 }) byte) (restart byte, none)
unfolding start put_byte
start-Refines frame byte h =
    ground (arith, length-set frame 0 byte, take-set_next frame 0 byte (omega arith))

-- The second byte of the header.
advance-Refines_two :
    (q : Parser) (byte : ℕ)
    → length q.frame ≡ k_max_rtcm_frame
    → InHeader q 2
    → get_or q.frame 1 0 ≡ byte
    → byte < 256
    → Refines (advance q byte) (collect (contents q) byte)
unfolding advance collect reject reset_rtcm_parser
advance-Refines_two q byte h st e lt =
    ground (arith, start-Refines q.frame byte h, high_six_clear byte lt, length-take q.len q.frame)

-- The third byte, with which the size of the frame is known.
advance-Refines_three :
    (q : Parser) (byte : ℕ)
    → length q.frame ≡ k_max_rtcm_frame
    → InHeader q 3
    → get_or q.frame 1 0 < 4
    → get_or q.frame 2 0 < 256
    → Refines (advance q byte) (collect (contents q) byte)
unfolding advance collect measure reset_rtcm_parser
advance-Refines_three q byte h st e lt =
    ground (arith, payload_length-le q.frame e lt, length-take q.len q.frame)

-- Any later byte.
advance-Refines_more :
    (q : Parser) (byte : ℕ)
    → length q.frame ≡ k_max_rtcm_frame
    → 3 < q.len
    → q.len ≤ q.expected
    → q.expected ≡ frame_size q.frame
    → q.expected ≤ 1029
    → Refines (advance q byte) (collect (contents q) byte)
unfolding advance collect complete reset_rtcm_parser
advance-Refines_more q byte h more le e small = ground (
  arith,
  length-take q.len q.frame,
  frame_size-take q.frame q.len (omega arith),
  trailer-take q.frame q.len (omega arith),
  take-take q.frame (q.len - 3) q.len (omega arith),
)

at_fields :
    (p : Parser) {n m : ℕ}
    → p.len ≡ n
    → p.expected ≡ m
    → record { frame = p.frame; len = n; expected = m } ≡ p
at_fields p e f = λ i. record { frame = p.frame; len = sym e i; expected = sym f i }

feed-start :
    (frame : List ℕ) (byte : ℕ)
    → length frame ≡ k_max_rtcm_frame
    → let p : Parser = record { frame = frame; len = 0; expected = 0 } in
      Refines (feed_rtcm_byte p byte) (scan (contents p) byte)
unfolding feed_rtcm_byte scan
feed-start frame byte h = start-Refines frame byte h

-- Behind the preamble the byte is stored first.
feed-advance :
    (p : Parser) (byte : ℕ)
    → length p.frame ≡ k_max_rtcm_frame
    → 0 < p.len
    → p.len < k_max_rtcm_frame
    → Refines (advance (put_byte p byte) byte) (collect (contents (put_byte p byte)) byte)
    → Refines (feed_rtcm_byte p byte) (scan (contents p) byte)
unfolding feed_rtcm_byte put_byte
feed-advance p byte h pos lt r = ground (
  arith,
  scan-collect (contents p) byte,
  length-take p.len p.frame,
  take-set_next p.frame p.len byte,
)

frame_size-set : (xs : List ℕ) (n v : ℕ) → 3 ≤ n → frame_size (set xs n v) ≡ frame_size xs
unfolding payload_length
frame_size-set xs n v h =
    rw (get_or-set_ne xs n 1 v 0 (omega arith), get_or-set_ne xs n 2 v 0 (omega arith))

-- One byte does to the buffer what `scan` does to its contents, and no access leaves the buffer.
pub feed_rtcm_byte_refines :
    (p : Parser) (byte : ℕ)
    → Inv p
    → byte < 256
    → let (q, out) = feed_rtcm_byte p byte in Inv q × ((contents q, out) ≡ scan (contents p) byte)
unfolding put_byte
feed_rtcm_byte_refines p byte v lt = by_phase v.phase
  where
    size : length (set p.frame p.len byte) ≡ k_max_rtcm_frame
    size = length-set p.frame p.len byte ∙ v.size

    stored : (i : ℕ) → i ≢ p.len → get_or (set p.frame p.len byte) i 0 ≡ get_or p.frame i 0
    stored i ne = get_or-set_ne p.frame p.len i byte 0 (λ e. ne (sym e))

    at_len : (i : ℕ) → i ≡ p.len → i < k_max_rtcm_frame → get_or (set p.frame p.len byte) i 0 ≡ byte
    at_len i e h = rw e (get_or-set_eq p.frame p.len byte 0 (omega (arith, v.size)))

    by_phase :
        InHeader p 0 ⊎ InHeader p 1 ⊎ (InHeader p 2 × (get_or p.frame 1 0 < 4)) ⊎ InBody p
        → Refines (feed_rtcm_byte p byte) (scan (contents p) byte)
    by_phase (inl (l, e)) =
        subst (λ q. Refines (feed_rtcm_byte q byte) (scan (contents q) byte)) (at_fields p l e)
          (feed-start p.frame byte v.size)
    by_phase (inr (inl (l, e))) = feed-advance p byte v.size (omega arith) (omega arith) (
        advance-Refines_two (put_byte p byte) byte size (omega arith, e)
          (at_len 1 (sym l) (omega arith)) lt)
    by_phase (inr (inr (inl ((l, e), low)))) =
        feed-advance p byte v.size (omega arith) (omega arith) (
          advance-Refines_three (put_byte p byte) byte size (omega arith, e)
            (rw (stored 1 (omega arith)) low) (rw (at_len 2 (sym l) (omega arith)) lt))
    by_phase (inr (inr (inr (ge, below, sized, small)))) =
        feed-advance p byte v.size (omega arith) (omega arith) (
          advance-Refines_more (put_byte p byte) byte size (omega arith) (omega arith)
            (sized ∙ sym (frame_size-set p.frame p.len byte ge)) small)

-- A run over bytes is a run of `scan` over them: the same frames come out.
pub feed_all_refines :
    (p : Parser) (bs : List ℕ)
    → Inv p
    → AllBytes bs
    → let (q, outs) = feed_all p bs in Inv q × ((contents q, outs) ≡ scan_all (contents p) bs)
unfolding feed_all scan_all
feed_all_refines p [] v all = (v, refl)
feed_all_refines p (b ∷ bs) v all = ground (
  arith,
  feed_rtcm_byte_refines p b v all.0,
  feed_all_refines (feed_rtcm_byte p b).0 bs (feed_rtcm_byte_refines p b v all.0).0 all.1,
)
