-- ===== src/Rinex/Framing.antt =====
-- Which messages `feed` of main/rinex_logger.cpp finds.
use gps_base_station.Prelude.{
  ℕ, ◌+◌, ◌≤◌, ◌<◌, ◌≡◌, ◌≢◌, refl, sym, ap, ◌∙◌, List, [], ◌∷◌, ◌++◌, none, true, length,
  length-append, append_assoc, append-nil, arith,
}
use gps_base_station.Rinex.Feed.{
  Framer, no_message, has_star, delivered, ends_message, feed_char, with_message, feed_all,
}

abbrev pub Lacks : ℕ → List ℕ → Type 0
Lacks x [] = Unit {0}
Lacks x (c ∷ text) = (c ≢ x) × Lacks x text

-- What a whole run has to be.
abbrev Outcome : Type 0
Outcome = Framer × List (List ℕ)

skip_char : (c : ℕ) → c ≢ 35 → feed_char no_message c ≡ (no_message, none)
unfolding feed_char
skip_char c ne = ground arith

noise_lem :
    (noise rest : List ℕ)
    → Lacks 35 noise
    → feed_all no_message (noise ++ rest) ≡ feed_all no_message rest
unfolding feed_all
noise_lem [] rest h = refl
noise_lem (c ∷ noise) rest h = rw (skip_char c h.0) (noise_lem noise rest h.1)

abbrev within : List ℕ → Framer
within msg = record { in_msg = true; msg = msg }

put_char :
    (msg : List ℕ) (c : ℕ)
    → c ≢ 10
    → length msg < 32767
    → feed_char (within msg) c ≡ (within (msg ++ c ∷ []), none)
unfolding feed_char ends_message
put_char msg c ne room = ground arith

body_lem :
    (body msg rest : List ℕ)
    → Lacks 10 body
    → length msg + length body < 32768
    → feed_all (within msg) (body ++ rest) ≡ feed_all (within (msg ++ body)) rest
unfolding feed_all
body_lem [] msg rest h room = ap (λ m. feed_all (within m) rest) (sym (append-nil msg))
body_lem (c ∷ body) msg rest h room = rw (put_char msg c h.0 (omega arith)) (
    body_lem body (msg ++ c ∷ []) rest h.1 (omega (arith, length-append msg (c ∷ [])))
    ∙ ap (λ m. feed_all (within m) rest) (append_assoc msg (c ∷ []) body))

end_char :
    (msg : List ℕ)
    → length msg < 32767
    → 12 ≤ length msg
    → has_star (msg ++ 10 ∷ []) ≡ true
    → feed_char (within msg) 10 ≡ (no_message, delivered (msg ++ 10 ∷ []))
unfolding feed_char ends_message
end_char msg room long star = ground (arith, length-append msg (10 ∷ []))

start_lem : (rest : List ℕ) → feed_all no_message (35 ∷ rest) ≡ feed_all (within (35 ∷ [])) rest
unfolding feed_all feed_char
start_lem rest = refl

end_lem :
    (msg rest : List ℕ)
    → length msg < 32767
    → 12 ≤ length msg
    → has_star (msg ++ 10 ∷ []) ≡ true
    → feed_all (within msg) (10 ∷ rest) ≡ (
      (feed_all no_message rest).0,
      with_message (delivered (msg ++ 10 ∷ [])) (feed_all no_message rest).1,
    )
unfolding feed_all
end_lem msg rest room long star = rw (end_char msg room long star) refl

-- Whatever stands before a message, if it has no `#`, and behind it: a message with no line end but its
-- last, that fits the buffer and has a `*` among its last characters, is found as it was sent, and
-- delivered if it is one of `#RANGEA`; the rest is read as from the start.
pub feed_all-message :
    (noise body rest : List ℕ)
    → Lacks 35 noise
    → Lacks 10 body
    → 11 ≤ length body
    → length body < 32766
    → has_star (35 ∷ (body ++ 10 ∷ [])) ≡ true
    → feed_all no_message (noise ++ 35 ∷ (body ++ 10 ∷ rest)) ≡ (
      (feed_all no_message rest).0,
      with_message (delivered (35 ∷ (body ++ 10 ∷ []))) (feed_all no_message rest).1,
    )
feed_all-message noise body rest quiet whole long fits star =
    noise_lem noise (35 ∷ (body ++ 10 ∷ rest)) quiet
    ∙ (start_lem (body ++ 10 ∷ rest)
        ∙ (body_lem body (35 ∷ []) (10 ∷ rest) whole (omega arith)
            ∙ end_lem (35 ∷ body) rest (omega arith) (omega arith) star))
