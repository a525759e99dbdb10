-- ===== src/Log/Tests.antt =====
-- Runs of the log, with a ring of four bytes.
use gps_base_station.Prelude.{ℕ, ◌≡◌, refl, List, [], ◌∷◌, ◌++◌, true, false, arith}
use gps_base_station.Log.{Log, boot, append, append_byte, snapshot_since}
use gps_base_station.Log.History.{Holds, boot-Holds, append-Holds}
use gps_base_station.Log.Reading.{snapshot_since_lem, poll_lem}

abbrev logged : List ℕ
logged = 1 ∷ 2 ∷ 3 ∷ 4 ∷ 5 ∷ 6 ∷ []

six : Log
six = append 4 (boot 4) logged

six_ring : six ≡ record { ring = 5 ∷ 6 ∷ 3 ∷ 4 ∷ []; head = 2; count = 4; total = 6 }
unfolding six append append_byte boot
six_ring = refl

six-Holds : Holds 4 logged six
unfolding six
six-Holds =
    append-Holds 4 (omega arith) logged [] (boot 4) (omega arith) (boot-Holds 4 (omega arith))

since_one :
    snapshot_since 4 six 1 ≡ record { text = 3 ∷ 4 ∷ 5 ∷ 6 ∷ []; next = 6; truncated = true }
unfolding snapshot_since six append append_byte boot
since_one = refl

append-Holds_example : Holds 4 (logged ++ (7 ∷ 8 ∷ [])) (append 4 six (7 ∷ 8 ∷ []))
append-Holds_example = append-Holds 4 (omega arith) (7 ∷ 8 ∷ []) logged six (omega arith) six-Holds

snapshot_since_lem_example :
    snapshot_since 4 six 1 ≡ record { text = 3 ∷ 4 ∷ 5 ∷ 6 ∷ []; next = 6; truncated = true }
snapshot_since_lem_example = snapshot_since_lem 4 (omega arith) logged six 1 (omega arith) six-Holds

poll_lem_example :
    snapshot_since 4 (append 4 six (7 ∷ 8 ∷ [])) 6
    ≡ record { text = 7 ∷ 8 ∷ []; next = 8; truncated = false }
poll_lem_example =
    poll_lem 4 (omega arith) logged six (7 ∷ 8 ∷ []) (omega arith) (omega arith) six-Holds
