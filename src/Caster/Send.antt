-- ===== src/Caster/Send.antt =====
-- `LocalCaster::send_all`: a write that waits for room in the socket, and gives up.
use gps_base_station.Prelude.{
  ℕ, ◌+◌, ◌-◌, ◌≤◌, ◌≡◌, List, [], ◌∷◌, Option, none, some, Bool, true, false, ltb, ◌==◌,
  if◌then◌else◌, arith,
}

-- What `send` answers, and behind a full socket what `select` does: `accepted n` is `n + 1` bytes.
pub data Round : Type 0 where
  accepted : ℕ → Round
  interrupted would_block_ready would_block_interrupted would_block_stalled broken : Round

-- The loop with `left` bytes to go; `none`: it has not ended.
pub send_loop : ℕ → ℕ → List Round → Option Bool
send_loop left stalls [] = if left == 0 then some true else none
send_loop left stalls (accepted n ∷ rounds) =
    let rest = send_loop (left - (n + 1)) 0 rounds in if left == 0 then some true else rest
send_loop left stalls (interrupted ∷ rounds) =
    let rest = send_loop left stalls rounds in if left == 0 then some true else rest
send_loop left stalls (would_block_ready ∷ rounds) =
    let rest = send_loop left stalls rounds in if left == 0 then some true else rest
send_loop left stalls (would_block_interrupted ∷ rounds) =
    let rest = send_loop left stalls rounds in if left == 0 then some true else rest
send_loop left stalls (would_block_stalled ∷ rounds) =
    let rest = send_loop left (stalls + 1) rounds in
    if left == 0 then some true else if ltb (stalls + 1) 10 then rest else some false
send_loop left stalls (broken ∷ rounds) = if left == 0 then some true else some false

unfoldable pub send_all : ℕ → List Round → Option Bool
unfolding send_loop
send_all length rounds = send_loop length 0 rounds

-- The bytes that the socket has taken.
abbrev pub taken : List Round → ℕ
taken [] = 0
taken (accepted n ∷ rounds) = n + 1 + taken rounds
taken (interrupted ∷ rounds) = taken rounds
taken (would_block_ready ∷ rounds) = taken rounds
taken (would_block_interrupted ∷ rounds) = taken rounds
taken (would_block_stalled ∷ rounds) = taken rounds
taken (broken ∷ rounds) = taken rounds

send_loop_done :
    (left stalls : ℕ) (rounds : List Round)
    → send_loop left stalls rounds ≡ some true
    → left ≤ taken rounds
unfolding send_loop
send_loop_done left stalls [] e = ground arith
send_loop_done left stalls (accepted n ∷ rounds) e =
    ground (arith, send_loop_done (left - (n + 1)) 0 rounds)
send_loop_done left stalls (interrupted ∷ rounds) e =
    ground (arith, send_loop_done left stalls rounds)
send_loop_done left stalls (would_block_ready ∷ rounds) e =
    ground (arith, send_loop_done left stalls rounds)
send_loop_done left stalls (would_block_interrupted ∷ rounds) e =
    ground (arith, send_loop_done left stalls rounds)
send_loop_done left stalls (would_block_stalled ∷ rounds) e =
    ground (arith, send_loop_done left (stalls + 1) rounds)
send_loop_done left stalls (broken ∷ rounds) e = ground arith

-- The write reports success only when the socket has taken all the bytes.
pub send_all_done :
    (length : ℕ) (rounds : List Round) → send_all length rounds ≡ some true → length ≤ taken rounds
unfolding send_all
send_all_done length rounds e = send_loop_done length 0 rounds e
