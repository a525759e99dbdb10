-- ===== src/Rtcm/Parser/Sound.antt =====
-- Whatever the bytes are, what comes out are well-formed frames, cut out of the stream in order.
use gps_base_station.Prelude.{
  ℕ, ◌+◌, ◌-◌, ◌<◌, ◌≡◌, refl, sym, ap, subst, ◌∙◌, ◌⊎◌, inl, inr, List, [], ◌∷◌, ◌++◌,
  append_assoc, append-nil, Option, none, some, arith, length, length-append, get_or, take,
  get_or-append, get_or-append_end, AllBytes, Bool-cases, ◌==◌, ==_iff, ltb, ltb→lt, true, false,
  if◌then◌else◌,
}
use gps_base_station.Rtcm.Crc.{crc24q}
use gps_base_station.Rtcm.Parser.{Parser, preamble, trailer, emit, feed_all}
use gps_base_station.Rtcm.Parser.Spec.{
  frame_size, IsFrame, restart, collect, scan, scan_all, stream, frames, AllFrames,
}
use gps_base_station.Rtcm.Parser.Refine.{contents, Inv, feed_all_refines}
use gps_base_station.Rtcm.Parser.Frames.{frame_size-append, AllBytes-append}

-- What is collected is the beginning of a frame.
pub record IsPartial (acc : List ℕ) : Type 0 where
  pub bytes : AllBytes acc
  pub begins : (acc ≡ []) ⊎ (get_or acc 0 0 ≡ preamble)
  pub reserved : (length acc < 2) ⊎ (get_or acc 1 0 < 4)
  pub open_end : (length acc < 3) ⊎ (length acc < frame_size acc)

-- What becomes of the collected bytes with one more.
abbrev Moves : List ℕ → List ℕ × Option (List ℕ) → Type 0
Moves all (acc', none) = IsPartial acc' × ((dropped : List ℕ) × (all ≡ dropped ++ acc'))
Moves all (acc', some f) = IsFrame f × (all ≡ f) × (acc' ≡ [])

nil-IsPartial : IsPartial []
nil-IsPartial = record {
  bytes = tt;
  begins = inl refl;
  reserved = inl (omega arith);
  open_end = inl (omega arith);
}

one-IsPartial : IsPartial (preamble ∷ [])
one-IsPartial = record {
  bytes = omega arith;
  begins = inr refl;
  reserved = inl (omega arith);
  open_end = inl (omega arith);
}

restart-Moves : (before : List ℕ) (b : ℕ) → Moves (before ++ (b ∷ [])) (restart b, none)
restart-Moves before b = elim (Bool-cases (b == preamble)) [
  | inl hit ↦ rw ((==_iff b preamble).0 hit) (one-IsPartial, (before, refl))
  | inr miss ↦ rw miss (nil-IsPartial, (before ++ (b ∷ []), sym (append-nil _)))
]

-- The collected bytes are kept whole.
keep-Moves : (acc : List ℕ) → IsPartial acc → Moves acc (acc, none)
keep-Moves acc v = (v, ([], refl))

module _ (acc : List ℕ) (b : ℕ) (v : IsPartial acc) (lt : b < 256) where
  bytes-next : AllBytes (acc ++ (b ∷ []))
  bytes-next = AllBytes-append acc (b ∷ []) v.bytes (lt, tt)

  length-next : length (acc ++ (b ∷ [])) ≡ length acc + 1
  length-next = length-append acc (b ∷ [])

  begins-next : 0 < length acc → get_or (acc ++ (b ∷ [])) 0 0 ≡ preamble
  begins-next h = ground (arith, get_or-append acc (b ∷ []) 0 0 h)

  second-next : 1 < length acc → get_or (acc ++ (b ∷ [])) 1 0 < 4
  second-next h = ground (arith, get_or-append acc (b ∷ []) 1 0 h)

  second : length acc ≡ 1 → get_or (acc ++ (b ∷ [])) 1 0 ≡ b
  second e = subst (λ n. get_or (acc ++ (b ∷ [])) n 0 ≡ b) e (get_or-append_end acc b 0)

  IsPartial-next :
      1 < length acc
      → (length acc + 1 < 3) ⊎ (length acc + 1 < frame_size (acc ++ (b ∷ [])))
      → IsPartial (acc ++ (b ∷ []))
  IsPartial-next h o = record {
    bytes = bytes-next;
    begins = inr (begins-next (omega arith));
    reserved = inr (second-next h);
    open_end = rw length-next o;
  }

  -- The second byte of the header.
  collect-Moves_two : length acc ≡ 1 → Moves (acc ++ (b ∷ [])) (collect (acc ++ (b ∷ [])) b)
  unfolding collect
  collect-Moves_two e =
      let two : (length (acc ++ (b ∷ [])) == 2) ≡ true = ground (arith, length-next) in
      rw two (elim (Bool-cases (ltb b 4)) [
        | inl low ↦ rw low (
            keep-Moves _ (record {
              bytes = bytes-next;
              begins = inr (begins-next (omega arith));
              reserved = inr (rw (second e) (ltb→lt b 4 low));
              open_end = inl (omega (arith, length-next));
            }))
        | inr high ↦ rw high (restart-Moves acc b)
      ])

  collect-Moves_more : 1 < length acc → Moves (acc ++ (b ∷ [])) (collect (acc ++ (b ∷ [])) b)
  unfolding collect
  collect-Moves_more h =
      let off : (length (acc ++ (b ∷ [])) == 2) ≡ false = ground (arith, length-next) in
      rw off (elim (Bool-cases (length (acc ++ (b ∷ [])) == 3)) [
        | inl three ↦ rw three (keep-Moves _ (IsPartial-next h (inr (grow three))))
        | inr more ↦ rw more (past more)
      ])
    where
      grow : (length (acc ++ (b ∷ [])) == 3) ≡ true → length acc + 1 < frame_size (acc ++ (b ∷ []))
      grow e = ground (arith, length-next)

      all : List ℕ
      all = acc ++ (b ∷ [])

      exact :
          (length all == 3) ≡ false
          → ltb (length all) (frame_size all) ≡ false
          → length all ≡ frame_size all
      exact more full = ground (arith, length-next, frame_size-append acc (b ∷ []))

      past :
          (length all == 3) ≡ false
          → Moves all (
              if ltb (length all) (frame_size all)
              then (all, none)
              else if trailer all (length all) == crc24q (take (length all - 3) all)
              then ([], some all)
              else ([], none))
      past more = elim (Bool-cases (ltb (length all) (frame_size all))) [
        | inl short ↦ rw short (keep-Moves _ (IsPartial-next h (inr (ground (arith, length-next)))))
        | inr full ↦
            rw full
              (elim (Bool-cases (trailer all (length all) == crc24q (take (length all - 3) all))) [
                | inl good ↦ rw good (
                  record {
                    bytes = bytes-next;
                    begins = begins-next (omega arith);
                    reserved = second-next h;
                    sized = exact more full;
                    checked = (==_iff _ _).0 good;
                  },
                  refl,
                  refl,
                )
                | inr bad ↦ rw bad (nil-IsPartial, (all, sym (append-nil all)))
              ])
      ]

-- One byte more.
scan-Moves : (acc : List ℕ) (b : ℕ) → IsPartial acc → b < 256 → Moves (acc ++ (b ∷ [])) (scan acc b)
unfolding scan
scan-Moves [] b v lt = restart-Moves [] b
scan-Moves (a ∷ []) b v lt = collect-Moves_two (a ∷ []) b v lt refl
scan-Moves (a ∷ c ∷ rest) b v lt = collect-Moves_more (a ∷ c ∷ rest) b v lt (omega arith)

-- The input, cut into frames with what stands before each, and what is left at the end.
pub record Cuts (input : List ℕ) (outs : List (List ℕ)) (left : List ℕ) : Type 0 where
  pub pieces : List (List ℕ × List ℕ)
  pub rest : List ℕ
  pub whole : input ≡ stream pieces ++ (rest ++ left)
  pub in_order : frames pieces ≡ outs
  pub well_formed : AllFrames pieces

drop-Cuts :
    (dropped : List ℕ) {input left : List ℕ} {outs : List (List ℕ)}
    → Cuts input outs left
    → Cuts (dropped ++ input) outs left
unfolding stream
drop-Cuts dropped {input} {left} {outs} c = go c.pieces c.whole c.in_order c.well_formed
  where
    go :
        (ps : List (List ℕ × List ℕ))
        → input ≡ stream ps ++ (c.rest ++ left)
        → frames ps ≡ outs
        → AllFrames ps
        → Cuts (dropped ++ input) outs left
    go [] w o f = record {
      pieces = [];
      rest = dropped ++ c.rest;
      whole = rw w (sym (append_assoc dropped c.rest left));
      in_order = o;
      well_formed = f;
    }
    go ((noise, f) ∷ ps) w o v = record {
      pieces = (dropped ++ noise, f) ∷ ps;
      rest = c.rest;
      whole = rw w (simp append_assoc);
      in_order = o;
      well_formed = v;
    }

frame-Cuts :
    (f : List ℕ) {input left : List ℕ} {outs : List (List ℕ)}
    → IsFrame f
    → Cuts input outs left
    → Cuts (f ++ input) (f ∷ outs) left
unfolding stream
frame-Cuts f v c = record {
  pieces = ([], f) ∷ c.pieces;
  rest = c.rest;
  whole = rw c.whole (sym (append_assoc f (stream c.pieces) _));
  in_order = ap (◌∷◌ f) c.in_order;
  well_formed = (v, c.well_formed);
}

Moves-IsPartial : (all : List ℕ) (r : List ℕ × Option (List ℕ)) → Moves all r → IsPartial r.0
Moves-IsPartial all (acc', none) m = m.0
Moves-IsPartial all (acc', some f) m = rw m.2 nil-IsPartial

-- The input splits as `Cuts` says, and what is left is the beginning of a frame.
abbrev Split : List ℕ → List ℕ × List (List ℕ) → Type 0
Split input (left, outs) = IsPartial left × Cuts input outs left

-- A step, and the rest of the run.
resume-Split :
    (all : List ℕ) (r : List ℕ × Option (List ℕ)) (bs : List ℕ) (s : List ℕ × List (List ℕ))
    → Moves all r
    → Split (r.0 ++ bs) s
    → Split (all ++ bs) (emit r.1 s)
resume-Split all (acc', none) bs (left, outs) (v, (dropped, e)) (p, c) =
    (p, rw (e, append_assoc dropped acc' bs) (drop-Cuts dropped c))
resume-Split all (acc', some f) bs (left, outs) (v, e, empty) (p, c) =
    (p, rw e (frame-Cuts f v (subst (λ a. Cuts (a ++ bs) outs left) empty c)))

scan_all-Split :
    (acc bs : List ℕ) → IsPartial acc → AllBytes bs → Split (acc ++ bs) (scan_all acc bs)
unfolding scan_all stream
scan_all-Split acc [] v all = (
  v,
  record { pieces = []; rest = []; whole = append-nil acc; in_order = refl; well_formed = tt },
)
scan_all-Split acc (b ∷ bs) v all =
    let moves = scan-Moves acc b v all.0 in
    rw (← append_assoc acc (b ∷ []) bs) (
      resume-Split (acc ++ (b ∷ [])) (scan acc b) bs (scan_all (scan acc b).0 bs) moves
        (scan_all-Split (scan acc b).0 bs (Moves-IsPartial _ (scan acc b) moves) all.1))

-- From the start of a frame on, whatever bytes come: each frame that comes out is well-formed (header,
-- size and checksum), the frames are disjoint pieces of the input in its order, and what is still
-- collected is its end.
pub feed_all_sound :
    (p : Parser) (bs : List ℕ)
    → Inv p
    → p.len ≡ 0
    → AllBytes bs
    → let (q, outs) = feed_all p bs in Inv q × Cuts bs outs (contents q)
feed_all_sound p bs v idle all =
    (run.0, subst (λ r. Cuts bs r.1 r.0) (sym same) (scan_all-Split [] bs nil-IsPartial all).1)
  where
    run : let (q, outs) = feed_all p bs in Inv q × ((contents q, outs) ≡ scan_all (contents p) bs)
    run = feed_all_refines p bs v all

    same : (contents (feed_all p bs).0, (feed_all p bs).1) ≡ scan_all [] bs
    same = run.1 ∙ ap (λ n. scan_all (take n p.frame) bs) idle
