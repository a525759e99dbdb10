-- ===== src/Ntrip/Send/Tests.antt =====
-- Writes of five bytes.
use gps_base_station.Prelude.{
  ℕ, zero, suc, ◌≡◌, ◌≤◌, ◌↔◌, refl, List, [], ◌∷◌, false, true, arith, replicate,
}
use gps_base_station.Ntrip.Send.{
  Round, Call, accepted, interrupted, would_block, timed_out, done, send_all,
}
use gps_base_station.Ntrip.Send.Progress.{send_all_lem}
use gps_base_station.Ntrip.Send.Stalls.{AllQuiet}

abbrev round : Call → Round
round c = record { suspended = false; stopping = false; call = c }

-- Two bytes, a second of waiting, an interruption, and the other three.
abbrev in_two_parts : List Round
in_two_parts =
    round (accepted 1) ∷ round (would_block timed_out) ∷ round interrupted ∷ round (accepted 2) ∷ []

in_two_parts_done : send_all 5 true in_two_parts ≡ (done, 5)
unfolding send_all
in_two_parts_done = refl

send_all_lem_example : let (o, n) = send_all 5 true in_two_parts in (n ≤ 5) × ((o ≡ done) ↔ (n ≡ 5))
send_all_lem_example = send_all_lem 5 true in_two_parts (omega arith)

AllQuiet-stalls : (n : ℕ) → AllQuiet (replicate n (round (would_block timed_out)))
AllQuiet-stalls zero = tt
AllQuiet-stalls (suc n) = ((refl, refl, tt), AllQuiet-stalls n)
