-- ===== src/Rinex/Feed.antt =====
-- `RinexLogger::feed` of main/rinex_logger.cpp: messages out of the bytes of the receiver.
use gps_base_station.Prelude.{
  ℕ, ◌-◌, ◌*◌, List, [], ◌∷◌, ◌++◌, Option, none, some, Bool, true, false, not, ◌&&◌, ◌||◌, ltb,
  ◌==◌, if◌then◌else◌, length, take, drop, codes, starts_with,
}

abbrev pub k_msg_buf_size : ℕ
k_msg_buf_size = 32 * 1024

-- `in_msg_`, and `msg_buf_` up to `msg_len_`.
pub record Framer : Type 0 where
  pub in_msg : Bool
  pub msg : List ℕ

abbrev pub no_message : Framer
no_message = record { in_msg = false; msg = [] }

unfoldable pub holds : ℕ → List ℕ → Bool
holds x [] = false
holds x (c ∷ text) = c == x || holds x text

-- A `*` among the 11 characters before the last.
unfoldable pub has_star : List ℕ → Bool
unfolding holds
has_star msg = holds 42 (take 11 (drop (length msg - 12) msg))

abbrev pub is_range : List ℕ → Bool
is_range msg = starts_with msg (codes "#RANGEA,")

abbrev pub delivered : List ℕ → Option (List ℕ)
delivered msg = if is_range msg then some msg else none

unfoldable pub ends_message : List ℕ → ℕ → Bool
unfolding has_star
ends_message msg c = c == 10 && ltb 12 (length msg) && has_star msg

-- A character, and the message for `process_message` that it ends.
unfoldable pub feed_char : Framer → ℕ → Framer × Option (List ℕ)
unfolding ends_message
feed_char f c =
    let msg = f.msg ++ c ∷ [] in
    if not f.in_msg
    then (if c == 35 then (record { in_msg = true; msg = 35 ∷ [] }, none) else (f, none))
    else if not (ltb (length f.msg) (k_msg_buf_size - 1))
    then (no_message, none)
    else if ends_message msg c
    then (no_message, delivered msg)
    else (record { in_msg = true; msg = msg }, none)

abbrev pub with_message : Option (List ℕ) → List (List ℕ) → List (List ℕ)
with_message none messages = messages
with_message (some msg) messages = msg ∷ messages

-- The state behind all the bytes, and the messages in their order.
unfoldable pub feed_all : Framer → List ℕ → Framer × List (List ℕ)
unfolding feed_char
feed_all f [] = (f, [])
feed_all f (c ∷ data_) = (
  (feed_all (feed_char f c).0 data_).0,
  with_message (feed_char f c).1 (feed_all (feed_char f c).0 data_).1,
)
