-- ===== src/Ntrip/Send/Stalls.antt =====
-- A write that makes no progress is given up after eight seconds of it.
use gps_base_station.Prelude.{
  ℕ, ◌+◌, ◌<◌, ◌≡◌, List, [], ◌∷◌, Bool, true, false, ltb, if◌then◌else◌, arith, Bool-cases, inl,
  inr, ◌∙◌, ap,
}
use gps_base_station.Ntrip.Send.{
  ready, timed_out, select_interrupted, select_error, Call, accepted, closed, interrupted,
  would_block, send_error, Round, waiting, failed, write_stalled, Next, go_on, give_up,
  after_select, after_call, goes_on, send_loop, send_loop-go_on, send_loop-give_up,
}

-- A call with which a write neither moves on nor fails.
abbrev pub IsQuietCall : Call → Type 0
IsQuietCall interrupted = Unit {0}
IsQuietCall (would_block ready) = Unit {0}
IsQuietCall (would_block select_interrupted) = Unit {0}
IsQuietCall (would_block timed_out) = Unit {0}
IsQuietCall _ = ⊥

abbrev pub AllQuiet : List Round → Type 0
AllQuiet [] = Unit {0}
AllQuiet (r ∷ rounds) =
    ((r.suspended ≡ false) × (r.stopping ≡ false) × IsQuietCall r.call) × AllQuiet rounds

-- The seconds in which the socket took nothing.
abbrev pub second : Call → ℕ
second (would_block timed_out) = 1
second _ = 0

abbrev pub seconds : List Round → ℕ
seconds [] = 0
seconds (r ∷ rounds) = second r.call + seconds rounds

-- The counter stays below its limit, or the write is given up.
quiet_step :
    (call : Call) (offset stalled : ℕ)
    → IsQuietCall call
    → stalled < 8
    → after_call call offset stalled ≡ (
        if ltb (stalled + second call) 8
        then go_on offset (stalled + second call)
        else give_up (failed write_stalled))
unfolding after_call after_select
quiet_step (accepted n) offset stalled q lt = absurd q
quiet_step closed offset stalled q lt = absurd q
quiet_step interrupted offset stalled q lt = ground arith
quiet_step (would_block ready) offset stalled q lt = ground arith
quiet_step (would_block select_interrupted) offset stalled q lt = ground arith
quiet_step (would_block (select_error code)) offset stalled q lt = absurd q
quiet_step (would_block timed_out) offset stalled q lt = ground arith
quiet_step (send_error code) offset stalled q lt = absurd q

-- While a write makes no progress and no task stops it, it waits for less than eight seconds in which
-- the socket takes nothing, whatever interruptions come between, and is given up as stalled at
-- the eighth, with the bytes accepted before.
pub send_loop_stalled :
    (len offset stalled : ℕ) (rounds : List Round)
    → offset < len
    → stalled < 8
    → AllQuiet rounds
    → send_loop len true offset stalled rounds
      ≡ (if ltb (stalled + seconds rounds) 8 then waiting else failed write_stalled, offset)
send_loop_stalled len offset stalled [] lt low q = unfold send_loop in ground arith
send_loop_stalled len offset stalled (r ∷ rounds) lt low q =
    elim (Bool-cases (ltb (stalled + second r.call) 8)) [
      | inl below ↦
          send_loop-go_on len true offset stalled offset (stalled + second r.call) r rounds on
            (quiet_step r.call offset stalled q.0.2 low ∙ pick below)
          ∙ send_loop_stalled len offset (stalled + second r.call) rounds lt (ground arith) q.1
          ∙ ap (λ k. (if ltb k 8 then waiting else failed write_stalled, offset)) (omega arith)
      | inr over ↦
          send_loop-give_up len true offset stalled (failed write_stalled) r rounds on
            (quiet_step r.call offset stalled q.0.2 low ∙ drop_out over)
          ∙ ap (λ b. (if b then waiting else failed write_stalled, offset)) (full over)
    ]
  where
    on : goes_on len offset true r ≡ true
    on = ground arith

    full : ltb (stalled + second r.call) 8 ≡ false → false ≡ ltb (stalled + seconds (r ∷ rounds)) 8
    full e = ground arith

    answer : Bool → Next
    answer b = if b then go_on offset (stalled + second r.call) else give_up (failed write_stalled)

    pick :
        ltb (stalled + second r.call) 8 ≡ true
        → answer (ltb (stalled + second r.call) 8) ≡ go_on offset (stalled + second r.call)
    pick e = rw e

    drop_out :
        ltb (stalled + second r.call) 8 ≡ false
        → answer (ltb (stalled + second r.call) 8) ≡ give_up (failed write_stalled)
    drop_out e = rw e
