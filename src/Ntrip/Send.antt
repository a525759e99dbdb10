-- ===== src/Ntrip/Send.antt =====
-- `NtripPushClient::send_all`: a write that may block, be interrupted or be given up. The calls of
-- lwIP and the flags that other tasks set are told as rounds: what each pass of the loop meets.
pub mod Progress
pub mod Stalls
mod Tests
use gps_base_station.Prelude.{
  ℕ, suc, ◌+◌, ◌≡◌, List, [], ◌∷◌, Bool, true, false, not, ◌&&◌, ltb, ◌==◌, if◌then◌else◌,
}

abbrev pub k_max_send_stall_seconds : ℕ
k_max_send_stall_seconds = 8

-- What `select` returns for the socket: above 0, 0, or below 0 with its `errno`.
pub data Select : Type 0 where
  ready timed_out select_interrupted : Select
  select_error : ℕ → Select

-- What `send` returns: `accepted n` for n + 1 bytes, 0, or below 0 with its `errno`.
pub data Call : Type 0 where
  accepted : ℕ → Call
  closed interrupted : Call
  would_block : Select → Call
  send_error : ℕ → Call

-- The flags are read where the loop tests them.
pub record Round : Type 0 where
  pub suspended : Bool
  pub stopping : Bool
  pub call : Call

-- The reasons that are put into `failure_reason`.
pub data Reason : Type 0 where
  socket_closed write_stalled stream_suspended client_stopping : Reason
  select_failed send_failed : ℕ → Reason

-- `waiting`: the rounds are over and the loop is not.
pub data Outcome : Type 0 where
  done waiting : Outcome
  failed : Reason → Outcome

-- The code behind the loop.
unfoldable pub after_loop : ℕ → ℕ → Bool → Bool → Outcome
after_loop len offset suspended stopping =
    if offset == len
    then done
    else if suspended
    then failed stream_suspended
    else if stopping
    then failed client_stopping
    else failed socket_closed

abbrev pub goes_on : ℕ → ℕ → Bool → Round → Bool
goes_on len offset has_socket r =
    ltb offset len && (has_socket && (not r.suspended && not r.stopping))

-- `continue` with these counters, or `return`.
pub data Next : Type 0 where
  go_on : ℕ → ℕ → Next
  give_up : Outcome → Next

-- The code behind the failed `send` of a full socket.
unfoldable pub after_select : Select → ℕ → ℕ → Next
after_select ready offset stalled = go_on offset stalled
after_select select_interrupted offset stalled = go_on offset stalled
after_select (select_error code) offset stalled = give_up (failed (select_failed code))
after_select timed_out offset stalled =
    if ltb (stalled + 1) k_max_send_stall_seconds
    then go_on offset (stalled + 1)
    else give_up (failed write_stalled)

-- The body of the loop.
unfoldable pub after_call : Call → ℕ → ℕ → Next
unfolding after_select
after_call (accepted n) offset stalled = go_on (offset + suc n) 0
after_call closed offset stalled = give_up (failed socket_closed)
after_call interrupted offset stalled = go_on offset stalled
after_call (would_block s) offset stalled = after_select s offset stalled
after_call (send_error code) offset stalled = give_up (failed (send_failed code))

-- The outcome, and how many of the `len` bytes were accepted.
unfoldable pub send_loop : ℕ → Bool → ℕ → ℕ → List Round → Outcome × ℕ
unfolding after_loop after_call
send_loop len has_socket offset stalled [] =
    if ltb offset len && has_socket
    then (waiting, offset)
    else (after_loop len offset false false, offset)
send_loop len has_socket offset stalled (r ∷ rounds) = elim (goes_on len offset has_socket r) [
  | false ↦ (after_loop len offset r.suspended r.stopping, offset)
  | true ↦ elim (after_call r.call offset stalled) [
    | give_up o ↦ (o, offset)
    | go_on offset' stalled' ↦ send_loop len has_socket offset' stalled' rounds
  ]
]

unfoldable pub send_all : ℕ → Bool → List Round → Outcome × ℕ
unfolding send_loop
send_all len has_socket rounds = send_loop len has_socket 0 0 rounds

-- One round of the loop, by what its call says.
pub send_loop-go_on :
    (len : ℕ) (has_socket : Bool) (offset stalled offset' stalled' : ℕ) (r : Round)
    (rounds : List Round)
    → goes_on len offset has_socket r ≡ true
    → after_call r.call offset stalled ≡ go_on offset' stalled'
    → send_loop len has_socket offset stalled (r ∷ rounds)
      ≡ send_loop len has_socket offset' stalled' rounds
unfolding send_loop
send_loop-go_on len has_socket offset stalled offset' stalled' r rounds open_gate e =
    rw (open_gate, e, send_loop)

pub send_loop-give_up :
    (len : ℕ) (has_socket : Bool) (offset stalled : ℕ) (o : Outcome) (r : Round)
    (rounds : List Round)
    → goes_on len offset has_socket r ≡ true
    → after_call r.call offset stalled ≡ give_up o
    → send_loop len has_socket offset stalled (r ∷ rounds) ≡ (o, offset)
unfolding send_loop
send_loop-give_up len has_socket offset stalled o r rounds open_gate e =
    rw (open_gate, e, send_loop)

pub send_loop-shut :
    (len : ℕ) (has_socket : Bool) (offset stalled : ℕ) (r : Round) (rounds : List Round)
    → goes_on len offset has_socket r ≡ false
    → send_loop len has_socket offset stalled (r ∷ rounds)
      ≡ (after_loop len offset r.suspended r.stopping, offset)
unfolding send_loop
send_loop-shut len has_socket offset stalled r rounds shut = rw (shut, send_loop)
