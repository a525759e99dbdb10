-- ===== src/Log/History.antt =====
-- What the ring holds: the last `capacity` bytes of everything that was logged.
use native.Mathlib.Nat.{mod-add-mod, mod-eq_of_lt, mod-eq-sub-mod, mod-lt}
use gps_base_station.Prelude.{
  ℕ, ◌+◌, ◌-◌, ◌%◌, ◌^◌, ◌≤◌, ◌<◌, min, ◌≡◌, refl, sym, ap, ◌∙◌, ◌≢◌, List, [], ◌∷◌, ◌++◌,
  append-nil, append_assoc, arith, dec_lt, length, length-append, length-set, get_or, set,
  length-replicate, get_or-append, get_or-set_ne, get_or-set_eq, get_or-append_end,
}
use gps_base_station.Log.{Log, append_byte, append, boot}

-- Fewer than `cap` steps round a ring do not come back to the start.
pub mod-ne_of_near : (cap j n : ℕ) → j < n → n < j + cap → n % cap ≢ j % cap
mod-ne_of_near cap j n lt near = elim (dec_lt (j % cap + (n - j)) cap) [
  | yes p ↦ omega (arith, split, mod-eq_of_lt p)
  | no p ↦ omega (
    arith,
    split,
    low,
    mod-eq-sub-mod {n = j % cap + (n - j)} {m = cap} (omega arith),
    mod-eq_of_lt {n = j % cap + (n - j) - cap} {m = cap} (omega (arith, low)),
  )
]
  where
    low : j % cap < cap
    low = mod-lt j (omega arith)

    split : n % cap ≡ (j % cap + (n - j)) % cap
    split = rw mod-add-mod (ap (λ k. k % cap) (omega arith))

-- The log `g` stands for the history `h`: byte `j` of it lies at index `j % capacity`.
pub record Holds (capacity : ℕ) (h : List ℕ) (g : Log) : Type 0 where
  pub size : length g.ring ≡ capacity
  pub total : g.total ≡ length h
  pub head : g.head ≡ length h % capacity
  pub count : g.count ≡ min capacity (length h)
  pub byte :
      (j : ℕ)
      → j < length h
      → length h ≤ j + capacity
      → get_or g.ring (j % capacity) 0 ≡ get_or h j 0

module _ (capacity : ℕ) (positive : 0 < capacity) where
  append_byte_keeps :
      (h : List ℕ) (g : Log) (b : ℕ)
      → Holds capacity h g
      → (j : ℕ) → j < length h
      → length h + 1 ≤ j + capacity
      → get_or (set g.ring g.head b) (j % capacity) 0 ≡ get_or (h ++ (b ∷ [])) j 0
  append_byte_keeps h g b v j lt near =
      get_or-set_ne g.ring g.head (j % capacity) b 0 apart
      ∙ v.byte j lt (omega arith)
      ∙ sym (get_or-append h (b ∷ []) j 0 lt)
    where
      apart : g.head ≢ j % capacity
      apart = rw v.head (mod-ne_of_near capacity j (length h) lt (omega arith))

  append_byte_new :
      (h : List ℕ) (g : Log) (b : ℕ)
      → Holds capacity h g
      → get_or (set g.ring g.head b) (length h % capacity) 0 ≡ b
  append_byte_new h g b v = rw v.head (
      get_or-set_eq g.ring (length h % capacity) b 0
        (omega (arith, v.size, mod-lt (length h) positive)))

  -- One byte more in the log is one byte more in the history.
  pub append_byte-Holds :
      (h : List ℕ) (g : Log) (b : ℕ)
      → length h + 1 < 2 ^ 64
      → Holds capacity h g
      → Holds capacity (h ++ (b ∷ [])) (append_byte capacity g b)
  unfolding append_byte
  append_byte-Holds h g b small v = record {
    size = length-set g.ring g.head b ∙ v.size;
    total = omega (arith, v.total, length-append h (b ∷ []));
    head = rw v.head (
        mod-add-mod (length h) capacity 1
        ∙ ap (λ k. k % capacity) (omega (arith, length-append h (b ∷ []))));
    count = ground (arith, v.count, length-append h (b ∷ []));
    byte = λ j lt near. elim (dec_lt j (length h)) [
      | yes old ↦ append_byte_keeps h g b v j old (omega (arith, length-append h (b ∷ [])))
      | no new ↦
          let e : j ≡ length h = omega (arith, length-append h (b ∷ [])) in
          rw e (append_byte_new h g b v ∙ sym (get_or-append_end h b 0))
    ];
  }

  -- Logging any bytes adds them to the history.
  pub append-Holds :
      (bs h : List ℕ) (g : Log)
      → length h + length bs < 2 ^ 64
      → Holds capacity h g
      → Holds capacity (h ++ bs) (append capacity g bs)
  unfolding append
  append-Holds [] h g small v = rw append-nil v
  append-Holds (b ∷ bs) h g small v = rw (← append_assoc h (b ∷ []) bs) (
      append-Holds bs (h ++ (b ∷ [])) (append_byte capacity g b)
        (omega (arith, length-append h (b ∷ []))) (append_byte-Holds h g b (omega arith) v))

  -- The log starts with nothing in it.
  pub boot-Holds : Holds capacity [] (boot capacity)
  unfolding boot
  boot-Holds = record {
    size = length-replicate capacity 0;
    total = refl;
    head = sym (mod-eq_of_lt positive);
    count = omega arith;
    byte = λ j lt near. absurd (omega arith);
  }
