-- ===== src/Freertos.antt =====
-- The FreeRTOS queue, which the repository calls and does not implement: what its documentation says
-- of `xQueueCreate`, `xQueueSend` and `xQueueReceive` with a wait of 0, and `xQueueReset`.
pub mod Reference
use gps_base_station.Prelude.{
  ℕ, ◌≤◌, ◌≡◌, List, [], ◌++◌, ◌∷◌, Option, none, some, Bool, ltb, if◌then◌else◌, length,
}

abbrev pub head_of {ℓ} : {A : Type ℓ} → List A → Option A
head_of [] = none
head_of (x ∷ xs) = some x

abbrev pub tail_of {ℓ} : {A : Type ℓ} → List A → List A
tail_of [] = []
tail_of (x ∷ xs) = xs

-- `items` are the stored items, oldest first. `send` says whether there was room (`pdTRUE`), and
-- `receive` gives the oldest item, if there is one.
pub record QueueApi (A : Type 0) : Type 1 where
  pub Queue : Type 0
  pub items : Queue → List A
  pub capacity : Queue → ℕ
  pub create : ℕ → Queue
  pub send : Queue → A → Queue × Bool
  pub receive : Queue → Queue × Option A
  pub clear : Queue → Queue
  pub items-create : (n : ℕ) → items (create n) ≡ []
  pub capacity-create : (n : ℕ) → capacity (create n) ≡ n
  pub items-send :
      (q : Queue) (a : A)
      → items (send q a).0
        ≡ (if ltb (length (items q)) (capacity q) then items q ++ (a ∷ []) else items q)
  pub send-room : (q : Queue) (a : A) → (send q a).1 ≡ ltb (length (items q)) (capacity q)
  pub capacity-send : (q : Queue) (a : A) → capacity (send q a).0 ≡ capacity q
  pub items-receive : (q : Queue) → items (receive q).0 ≡ tail_of (items q)
  pub receive-head : (q : Queue) → (receive q).1 ≡ head_of (items q)
  pub capacity-receive : (q : Queue) → capacity (receive q).0 ≡ capacity q
  pub items-clear : (q : Queue) → items (clear q) ≡ []
  pub capacity-clear : (q : Queue) → capacity (clear q) ≡ capacity q
