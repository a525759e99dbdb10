-- ===== src/Ntrip/Send/Progress.antt =====
-- A write succeeds exactly when every byte was accepted.
use gps_base_station.Prelude.{
  ℕ, suc, ◌+◌, ◌-◌, ◌≤◌, ◌<◌, ◌≡◌, ◌≢◌, ◌↔◌, ◌⊎◌, subst, refl, List, [], ◌∷◌, Bool, false, ◌&&◌,
  ltb, arith, Bool-cases, inl, inr,
}
use gps_base_station.Ntrip.Send.{
  ready, timed_out, select_interrupted, select_error, Call, accepted, closed, interrupted,
  would_block, send_error, Round, Outcome, done, waiting, Next, go_on, give_up, after_select,
  after_call, after_loop, goes_on, send_loop, send_all, send_loop-go_on, send_loop-give_up,
  send_loop-shut, k_max_send_stall_seconds,
}

-- The bytes that a call accepts.
abbrev pub took : Call → ℕ
took (accepted n) = suc n
took closed = 0
took interrupted = 0
took (would_block s) = 0
took (send_error code) = 0

-- `send` accepts no more than it is given; `left` bytes are left to send.
abbrev pub Honest : ℕ → List Round → Type 0
Honest left [] = Unit {0}
Honest left (r ∷ rounds) = (took r.call ≤ left) × Honest (left - took r.call) rounds

abbrev pub Sent : ℕ → ℕ → Outcome × ℕ → Type 0
Sent len offset (o, n) = (offset ≤ n) × (n ≤ len) × ((o ≡ done) ↔ (n ≡ len))

after_loop-Sent :
    (len offset : ℕ) (suspended stopping : Bool)
    → offset ≤ len
    → Sent len offset (after_loop len offset suspended stopping, offset)
unfolding after_loop
after_loop-Sent len offset suspended stopping le = ground arith

stuck-Sent : (len offset : ℕ) (o : Outcome) → o ≢ done → offset < len → Sent len offset (o, offset)
stuck-Sent len offset o ne lt =
    (omega arith, omega arith, ((λ e. absurd (ne e)), (λ e. absurd (omega arith))))

-- A call that lets the loop go on moves the offset by what it accepted; one that stops it is no
-- success.
Keeps : Call → ℕ → Next → Type 0
Keeps call offset (go_on offset' stalled') = offset' ≡ offset + took call
Keeps call offset (give_up o) = o ≢ done

after_call-Keeps :
    (call : Call) (offset stalled : ℕ) → Keeps call offset (after_call call offset stalled)
unfolding after_call after_select Keeps
after_call-Keeps (accepted n) offset stalled = refl
after_call-Keeps closed offset stalled = λ e. cc
after_call-Keeps interrupted offset stalled = omega arith
after_call-Keeps (would_block ready) offset stalled = omega arith
after_call-Keeps (would_block select_interrupted) offset stalled = omega arith
after_call-Keeps (would_block (select_error code)) offset stalled = λ e. cc
after_call-Keeps (would_block timed_out) offset stalled =
    elim (Bool-cases (ltb (stalled + 1) k_max_send_stall_seconds)) [
      | inl e ↦ rw e (omega arith)
      | inr e ↦ rw e (λ e. cc)
    ]
after_call-Keeps (send_error code) offset stalled = λ e. cc

Next-cases :
    (n : Next)
    → ((offset stalled : ℕ) × (n ≡ go_on offset stalled)) ⊎ ((o : Outcome) × (n ≡ give_up o))
Next-cases (go_on offset stalled) = inl (offset, stalled, refl)
Next-cases (give_up o) = inr (o, refl)

send_loop-Sent :
    (len : ℕ) (has_socket : Bool) (rounds : List Round) (offset stalled : ℕ)
    → offset ≤ len
    → Honest (len - offset) rounds
    → Sent len offset (send_loop len has_socket offset stalled rounds)
send_loop-Sent len has_socket [] offset stalled le h =
    unfold send_loop in
    elim (Bool-cases (ltb offset len && has_socket)) [
      | inl e ↦ rw e (stuck-Sent len offset waiting (λ e. cc) (ground arith))
      | inr e ↦ rw e (after_loop-Sent len offset false false le)
    ]
send_loop-Sent len has_socket (r ∷ rounds) offset stalled le h =
    elim (Bool-cases (goes_on len offset has_socket r)) [
      | inr shut ↦
          rw (send_loop-shut len has_socket offset stalled r rounds shut)
            (after_loop-Sent len offset r.suspended r.stopping le)
      | inl on ↦ elim (Next-cases (after_call r.call offset stalled)) [
        | inr (o, e) ↦
            rw (send_loop-give_up len has_socket offset stalled o r rounds on e)
              (stuck-Sent len offset o (stops o e) (ground arith))
        | inl (offset', stalled', e) ↦
            let moved : offset' ≡ offset + took r.call = moves offset' stalled' e in
            let (low, high, all) =
              send_loop-Sent len has_socket rounds offset' stalled' (omega arith)
                (subst (λ k. Honest k rounds) (omega arith) h.1) in
            rw (send_loop-go_on len has_socket offset stalled offset' stalled' r rounds on e)
              (omega arith, high, all)
      ]
    ]
  where
    stops : (o : Outcome) → after_call r.call offset stalled ≡ give_up o → o ≢ done
    stops o e = unfold Keeps in rw e at (after_call-Keeps r.call offset stalled)

    moves :
        (offset' stalled' : ℕ)
        → after_call r.call offset stalled ≡ go_on offset' stalled'
        → offset' ≡ offset + took r.call
    moves offset' stalled' e = unfold Keeps in rw e at (after_call-Keeps r.call offset stalled)

-- Whatever blocks, is interrupted or is set by other tasks: no more bytes are accepted than there are,
-- and the write reports success exactly when all of them were.
pub send_all_lem :
    (len : ℕ) (has_socket : Bool) (rounds : List Round)
    → Honest len rounds
    → let (o, n) = send_all len has_socket rounds in (n ≤ len) × ((o ≡ done) ↔ (n ≡ len))
unfolding send_all
send_all_lem len has_socket rounds h =
    let s =
      send_loop-Sent len has_socket rounds 0 0 (omega arith)
        (subst (λ k. Honest k rounds) (omega arith) h) in
    (s.1, s.2)
