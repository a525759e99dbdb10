-- ===== src/Log/Reading.antt =====
-- `snapshot_since` returns a part of the history, up to its end.
use Prim.Native.Nat.{max}
use native.Mathlib.Nat.{mod-add-mod, add-mod_right}
use gps_base_station.Prelude.{
  ℕ, zero, suc, ◌+◌, ◌-◌, ◌%◌, ◌^◌, ◌≤◌, ◌<◌, ◌≡◌, refl, sym, ap, ap₂, ◌∙◌, inl, inr, List, [], ◌∷◌,
  Bool, false, ◌&&◌, not, arith, length, drop, get_or, length-append, ◌++◌, ltb, ◌==◌, ==_iff,
  Bool-cases, if◌then◌else◌,
}
use gps_base_station.Log.{Log, copy, oldest, ring_start, read_from, snapshot_since, append}
use gps_base_station.Log.History.{Holds, append-Holds}

pub drop-step : (h : List ℕ) (j : ℕ) → j < length h → drop j h ≡ get_or h j 0 ∷ drop (suc j) h
drop-step [] j lt = absurd (omega arith)
drop-step (x ∷ xs) zero lt = refl
drop-step (x ∷ xs) (suc j) lt = drop-step xs j (omega arith)

pub drop-past : (h : List ℕ) (j : ℕ) → length h ≤ j → drop j h ≡ []
drop-past [] zero le = refl
drop-past [] (suc j) le = refl
drop-past (x ∷ xs) zero le = absurd (omega arith)
drop-past (x ∷ xs) (suc j) le = drop-past xs j (omega arith)

pub drop-append : (xs ys : List ℕ) → drop (length xs) (xs ++ ys) ≡ ys
drop-append [] ys = refl
drop-append (x ∷ xs) ys = drop-append xs ys

-- The oldest byte of a history that the ring still holds.
abbrev pub kept_from : ℕ → List ℕ → ℕ
kept_from capacity h = length h - capacity

module _ (capacity : ℕ) (positive : 0 < capacity) where
  -- The loop, at ring index `at`, copies what is left of the history from byte `j` on.
  copy-drop :
      (h : List ℕ) (g : Log) (n j at : ℕ)
      → Holds capacity h g
      → j + n ≡ length h
      → length h ≤ j + capacity
      → at % capacity ≡ j % capacity
      → copy capacity g.ring at n ≡ drop j h
  unfolding copy
  copy-drop h g zero j at v e near same = sym (drop-past h j (omega arith))
  copy-drop h g (suc n) j at v e near same =
      ap₂ ◌∷◌ (rw same (v.byte j (omega arith) near))
        (copy-drop h g n (suc j) (at + 1) v (omega arith) (omega arith) next)
      ∙ sym (drop-step h j (omega arith))
    where
      next : (at + 1) % capacity ≡ suc j % capacity
      next =
          sym (mod-add-mod at capacity 1)
          ∙ ap (λ k. (k + 1) % capacity) same
          ∙ mod-add-mod j capacity 1
          ∙ ap (λ k. k % capacity) (omega arith)

  oldest-kept_from :
      (h : List ℕ) (g : Log)
      → length h < 2 ^ 64
      → Holds capacity h g
      → oldest g ≡ kept_from capacity h
  oldest-kept_from h g small v = omega (arith, v.total, v.count)

  start_index :
      (h : List ℕ) (g : Log) (j : ℕ)
      → length h < 2 ^ 64
      → Holds capacity h g
      → kept_from capacity h ≤ j
      → (ring_start capacity g + (j - oldest g)) % capacity ≡ j % capacity
  start_index h g j small v from = elim (Bool-cases (g.count == capacity)) [
    | inl full ↦
        rw (full, if◌then◌else◌, v.head)
          (mod-add-mod (length h) capacity (j - oldest g)
            ∙ ap (λ k. k % capacity) (shift ((==_iff _ _).0 full))
            ∙ add-mod_right j capacity)
    | inr part ↦ rw (part, if◌then◌else◌) (ap (λ k. k % capacity) (flat part))
  ]
    where
      shift : g.count ≡ capacity → length h + (j - oldest g) ≡ j + capacity
      shift e = omega (arith, v.count, oldest-kept_from h g small v)

      flat : (g.count == capacity) ≡ false → 0 + (j - oldest g) ≡ j
      flat e = ground (arith, v.count, oldest-kept_from h g small v)

  -- Reading from a byte that the ring holds gives all of the history from there on.
  read_from_lem :
      (h : List ℕ) (g : Log) (start : ℕ) (flag : Bool)
      → length h < 2 ^ 64
      → Holds capacity h g
      → kept_from capacity h ≤ start
      → start ≤ length h
      → read_from capacity g start flag
        ≡ record { text = drop start h; next = length h; truncated = flag }
  unfolding read_from
  read_from_lem h g start flag small v from le = rw (copied, v.total)
    where
      copied :
          copy capacity g.ring (ring_start capacity g + (start - oldest g)) (g.total - start)
          ≡ drop start h
      copied =
          copy-drop h g (g.total - start) start _ v (omega (arith, v.total)) (omega arith)
            (start_index h g start small v from)

  -- A reader that asks for the bytes from the absolute position `since` on gets exactly the part of
  -- the logged history from there on, or from the oldest byte that the ring still holds if that is
  -- later, with the position to ask from next. `truncated` says whether bytes were lost in between, except
  -- to a reader at position 0: there it is false, lost bytes or not.
  pub snapshot_since_lem :
      (h : List ℕ) (g : Log) (since : ℕ)
      → length h < 2 ^ 64
      → Holds capacity h g
      → snapshot_since capacity g since ≡ record {
        text = drop (max since (kept_from capacity h)) h;
        next = length h;
        truncated = not (since == 0) && ltb since (kept_from capacity h);
      }
  unfolding snapshot_since
  snapshot_since_lem h g since small v = ground (
    arith,
    v.total,
    v.count,
    oldest-kept_from h g small v,
    read_from_lem h g (oldest g) (not (since == 0)) small v,
    read_from_lem h g g.total false small v,
    read_from_lem h g since false small v,
    drop-past h (max since (kept_from capacity h)),
    drop-past h g.total,
  )

  -- A reader that comes back for the bytes after its last position gets exactly what was logged in
  -- between, if that fits the ring, and is told that nothing was lost.
  pub poll_lem :
      (h : List ℕ) (g : Log) (bs : List ℕ)
      → length h + length bs < 2 ^ 64
      → length bs ≤ capacity
      → Holds capacity h g
      → snapshot_since capacity (append capacity g bs) (length h)
        ≡ record { text = bs; next = length h + length bs; truncated = false }
  poll_lem h g bs small fits v = ground (
    arith,
    snapshot_since_lem (h ++ bs) (append capacity g bs) (length h)
        (omega (arith, length-append h bs)) (append-Holds capacity positive bs h g small v),
    length-append h bs,
    drop-append h bs,
  )
