-- ===== src/Log.antt =====
-- main/log_buffer.cpp: the console log kept in a ring of `kCapacity` bytes. The ring's size is a
-- section parameter, 16384 in the source (`k_capacity`).
pub mod History
pub mod Reading
mod Tests
use gps_base_station.Prelude.{
  ℕ, zero, suc, ◌+◌, ◌-◌, ◌%◌, ◌^◌, List, [], ◌∷◌, Bool, true, false, ◌||◌, not, ltb, leb, ◌==◌,
  if◌then◌else◌, get_or, set, replicate,
}

abbrev pub k_capacity : ℕ
k_capacity = 16384

-- `g_ring`, `g_head`, `g_count` and `g_total`.
pub record Log : Type 0 where
  pub ring : List ℕ
  pub head : ℕ
  pub count : ℕ
  pub total : ℕ

-- `log_buffer::Snapshot`.
pub record Snapshot : Type 0 where
  pub text : List ℕ
  pub next : ℕ
  pub truncated : Bool

-- The statics before the first byte.
pub boot : ℕ → Log
boot capacity = record { ring = replicate capacity 0; head = 0; count = 0; total = 0 }

-- `g_total - g_count`, in `uint64_t`.
abbrev pub oldest : Log → ℕ
oldest g = (g.total + 2 ^ 64 - g.count) % 2 ^ 64

module _ (capacity : ℕ) where
  -- One round of the loop of `append`.
  pub append_byte : Log → ℕ → Log
  append_byte g byte = record {
    ring = set g.ring g.head byte;
    head = (g.head + 1) % capacity;
    count = if ltb g.count capacity then g.count + 1 else g.count;
    total = (g.total + 1) % 2 ^ 64;
  }

  pub append : Log → List ℕ → Log
  append g [] = g
  append g (byte ∷ bytes) = append (append_byte g byte) bytes

  -- The copying loop of `snapshot_since`: `n` rounds are left, and `at` is `ring_start + offset + i`.
  pub copy : List ℕ → ℕ → ℕ → List ℕ
  copy ring at zero = []
  copy ring at (suc n) = get_or ring (at % capacity) 0 ∷ copy ring (at + 1) n

  abbrev pub ring_start : Log → ℕ
  ring_start g = if g.count == capacity then g.head else 0

  pub read_from : Log → ℕ → Bool → Snapshot
  unfolding copy
  read_from g start truncated = record {
    text = copy g.ring (ring_start g + (start - oldest g)) (g.total - start);
    next = g.total;
    truncated = truncated;
  }

  pub snapshot_since : Log → ℕ → Snapshot
  unfolding read_from
  snapshot_since g since =
      if g.count == 0 || since == g.total
      then record { text = []; next = g.total; truncated = false }
      else if since == 0 || ltb since (oldest g)
      then read_from g (oldest g) (not (since == 0))
      else if ltb g.total since
      then read_from g g.total false
      else read_from g since false
