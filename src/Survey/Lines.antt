-- ===== src/Survey/Lines.antt =====
-- The line reader: whole lines arrive as they are, and the buffer is never overrun.
use gps_base_station.Prelude.{
  ℕ, ◌+◌, ◌≤◌, ◌<◌, ◌≡◌, refl, sym, ap, ◌∙◌, List, [], ◌∷◌, ◌++◌, false, ◌==◌, length,
  length-append, append-nil, append_assoc, arith,
}
use gps_base_station.Survey.Position.{Reals}
use gps_base_station.Survey.{Survey, k_max_line, parse_line, add_char, feed_char, feed}

-- No line feed and no carriage return.
abbrev pub IsPlain : List ℕ → Type 0
IsPlain [] = Unit {0}
IsPlain (c ∷ cs) = ((c == 10) ≡ false) × ((c == 13) ≡ false) × IsPlain cs

module _ (reals : Reals) (now : ℕ) where
  feed_char-plain :
      (s : Survey reals) (c : ℕ)
      → (c == 10) ≡ false
      → (c == 13) ≡ false
      → length s.line < k_max_line
      → feed_char reals s now c ≡ record s { line = s.line ++ (c ∷ []) }
  unfolding feed_char add_char
  feed_char-plain s c no_feed no_return room = ground arith

  feed_plain :
      (text : List ℕ) (s : Survey reals)
      → IsPlain text
      → length s.line + length text ≤ k_max_line
      → feed reals s now text ≡ record s { line = s.line ++ text }
  unfolding feed
  feed_plain [] s plain fits = ap (λ (l : List ℕ). record s { line = l }) (sym (append-nil s.line))
  feed_plain (c ∷ text) s (no_feed, no_return, plain) fits =
      let s' : Survey reals = record s { line = s.line ++ (c ∷ []) } in
      ap (λ (t : Survey reals). feed reals t now text)
        (feed_char-plain s c no_feed no_return (omega arith))
      ∙ feed_plain text s' plain (omega (arith, length-append s.line (c ∷ []), fits))
      ∙ ap (λ (l : List ℕ). record s { line = l }) (append_assoc s.line (c ∷ []) text)

  feed_append :
      (xs ys : List ℕ) (s : Survey reals)
      → feed reals s now (xs ++ ys) ≡ feed reals (feed reals s now xs) now ys
  unfolding feed
  feed_append [] ys s = refl
  feed_append (x ∷ xs) ys s = feed_append xs ys (feed_char reals s now x)

  -- The line is handed over with the buffer full, and then the buffer is empty.
  abbrev pub handed : Survey reals → List ℕ → Survey reals
  handed s text = record (parse_line reals (record s { line = text }) now text) { line = [] }

  feed_end :
      (s : Survey reals) (text : List ℕ)
      → (feed reals (record s { line = text }) now (10 ∷ []) ≡ handed s text)
        × (feed reals (record s { line = text }) now (13 ∷ 10 ∷ []) ≡ handed s text)
  unfolding feed feed_char
  feed_end s text = (refl, refl)

  -- A line of at most 512 characters that begins with an empty buffer is handed over whole and unchanged,
  -- with or without a carriage return, and leaves the buffer empty.
  pub feed_line :
      (s : Survey reals) (text : List ℕ)
      → s.line ≡ []
      → IsPlain text
      → length text ≤ k_max_line
      → (feed reals s now (text ++ (10 ∷ [])) ≡ handed s text)
        × (feed reals s now (text ++ (13 ∷ 10 ∷ [])) ≡ handed s text)
  feed_line s text empty plain fits =
      let full : feed reals s now text ≡ record s { line = text } =
        feed_plain text s plain (omega (arith, ap length empty, fits))
        ∙ ap (λ (l : List ℕ). record s { line = l ++ text }) empty in
      (
        feed_append text (10 ∷ []) s
            ∙ ap (λ (t : Survey reals). feed reals t now (10 ∷ [])) full
            ∙ (feed_end s text).0,
        feed_append text (13 ∷ 10 ∷ []) s
            ∙ ap (λ (t : Survey reals). feed reals t now (13 ∷ 10 ∷ [])) full
            ∙ (feed_end s text).1,
      )

  feed_char-bounded :
      (s : Survey reals) (byte : ℕ)
      → length s.line ≤ k_max_line
      → length (feed_char reals s now byte).line ≤ k_max_line
  unfolding feed_char add_char
  feed_char-bounded s byte fits = ground (arith, length-append s.line (byte ∷ []))

  -- Whatever bytes come, the buffer never holds more than its 512 characters.
  pub feed-bounded :
      (bytes : List ℕ) (s : Survey reals)
      → length s.line ≤ k_max_line
      → length (feed reals s now bytes).line ≤ k_max_line
  unfolding feed
  feed-bounded [] s fits = fits
  feed-bounded (byte ∷ bytes) s fits =
      feed-bounded bytes (feed_char reals s now byte) (feed_char-bounded s byte fits)
