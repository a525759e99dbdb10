-- ===== src/Freertos/Reference.antt =====
-- A queue as a list with a capacity: the documented behaviour can be met.
use gps_base_station.Prelude.{
  ℕ, refl, List, [], ◌++◌, ◌∷◌, Option, Bool, ltb, if◌then◌else◌, length,
}
use gps_base_station.Freertos.{QueueApi, head_of, tail_of}

pub record Bounded (A : Type 0) : Type 0 where
  pub stored : List A
  pub limit : ℕ

module _ {A : Type 0} where
  abbrev pub put : Bounded A → A → Bounded A × Bool
  put q a = (
    record q { stored = if ltb (length q.stored) q.limit then q.stored ++ (a ∷ []) else q.stored },
    ltb (length q.stored) q.limit,
  )

  abbrev pub get : Bounded A → Bounded A × Option A
  get q = (record q { stored = tail_of q.stored }, head_of q.stored)

abbrev pub bounded_list : (A : Type 0) → QueueApi A
bounded_list A = record {
  Queue = Bounded A;
  items = λ q. q.stored;
  capacity = λ q. q.limit;
  create = λ n. record { stored = []; limit = n };
  send = put;
  receive = get;
  clear = λ q. record q { stored = [] };
  items-create = λ n. refl;
  capacity-create = λ n. refl;
  items-send = λ q a. refl;
  send-room = λ q a. refl;
  capacity-send = λ q a. refl;
  items-receive = λ q. refl;
  receive-head = λ q. refl;
  capacity-receive = λ q. refl;
  items-clear = λ q. refl;
  capacity-clear = λ q. refl;
}
