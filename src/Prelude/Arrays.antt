-- ===== src/Prelude/Arrays.antt =====
-- Fixed C arrays as lists: reading a slice, and `memcpy` into the middle.
use Prim.Native.Nat.{ℕ, zero, suc, ◌+◌, ◌-◌, ◌≤◌, ◌<◌}
use mathlib.Core.Path.{◌≡◌, refl, ap, subst}
use mathlib.Core.List.{List, [], ◌∷◌, ◌++◌}
use mathlib.Core.Logic.{◌≢◌}
use native.Mathlib.Omega.{arith}
use gps_base_station.Prelude.Lists.{length, take, drop, set, get_or}

module _ {ℓ} {A : Type ℓ} where
  -- `data[start .. stop)`.
  abbrev pub slice : List A → ℕ → ℕ → List A
  slice xs start stop = take (stop - start) (drop start xs)

  -- `memcpy(data + at, ys, length ys)`; what would fall past the end is not written.
  abbrev pub write_at : List A → ℕ → List A → List A
  write_at xs zero [] = xs
  write_at [] zero (y ∷ ys) = []
  write_at (x ∷ xs) zero (y ∷ ys) = y ∷ write_at xs zero ys
  write_at [] (suc n) ys = []
  write_at (x ∷ xs) (suc n) ys = x ∷ write_at xs n ys

  pub length-write_at : (xs : List A) (n : ℕ) (ys : List A) → length (write_at xs n ys) ≡ length xs
  length-write_at xs zero [] = refl
  length-write_at [] zero (y ∷ ys) = refl
  length-write_at (x ∷ xs) zero (y ∷ ys) = ap suc (length-write_at xs zero ys)
  length-write_at [] (suc n) ys = refl
  length-write_at (x ∷ xs) (suc n) ys = ap suc (length-write_at xs n ys)

  -- What was just copied is what stands there.
  pub take-drop-write_at :
      (xs : List A) (n : ℕ) (ys : List A)
      → n + length ys ≤ length xs
      → take (length ys) (drop n (write_at xs n ys)) ≡ ys
  take-drop-write_at xs zero [] h = refl
  take-drop-write_at [] zero (y ∷ ys) h = absurd (omega arith)
  take-drop-write_at (x ∷ xs) zero (y ∷ ys) h =
      ap (◌∷◌ y) (take-drop-write_at xs zero ys (omega arith))
  take-drop-write_at [] (suc n) ys h = absurd (omega arith)
  take-drop-write_at (x ∷ xs) (suc n) ys h = take-drop-write_at xs n ys (omega arith)

  pub slice-write_at_self :
      (xs : List A) (n m : ℕ) (ys : List A)
      → m ≡ n + length ys
      → m ≤ length xs
      → slice (write_at xs n ys) n m ≡ ys
  slice-write_at_self xs n m ys e h =
      let k : m - n ≡ length ys = omega arith in rw k (take-drop-write_at xs n ys (omega arith))

  take-write_at :
      (xs : List A) (n k : ℕ) (ys : List A) → k ≤ n → take k (write_at xs n ys) ≡ take k xs
  take-write_at xs n zero ys h = refl
  take-write_at xs zero (suc k) ys h = absurd (omega arith)
  take-write_at [] (suc n) (suc k) ys h = refl
  take-write_at (x ∷ xs) (suc n) (suc k) ys h = ap (◌∷◌ x) (take-write_at xs n k ys (omega arith))

  take-drop-write_at_before :
      (xs : List A) (n s k : ℕ) (ys : List A)
      → s + k ≤ n
      → take k (drop s (write_at xs n ys)) ≡ take k (drop s xs)
  take-drop-write_at_before xs n zero k ys h = take-write_at xs n k ys (omega arith)
  take-drop-write_at_before xs zero (suc s) k ys h = absurd (omega arith)
  take-drop-write_at_before [] (suc n) (suc s) k ys h = refl
  take-drop-write_at_before (x ∷ xs) (suc n) (suc s) k ys h =
      take-drop-write_at_before xs n s k ys (omega arith)

  -- A copy leaves what stands before it.
  pub slice-write_at_before :
      (xs : List A) (n s e : ℕ) (ys : List A)
      → s ≤ e
      → e ≤ n
      → slice (write_at xs n ys) s e ≡ slice xs s e
  slice-write_at_before xs n s e ys h k = take-drop-write_at_before xs n s (e - s) ys (omega arith)

  -- Writing just past a prefix extends it.
  pub take-set_end :
      (xs : List A) (n : ℕ) (v : A)
      → n < length xs
      → take (suc n) (set xs n v) ≡ take n xs ++ (v ∷ [])
  take-set_end [] n v h = absurd (omega arith)
  take-set_end (x ∷ xs) zero v h = refl
  take-set_end (x ∷ xs) (suc n) v h = ap (◌∷◌ x) (take-set_end xs n v (omega arith))

  pub get_or-take : (xs : List A) (n i : ℕ) (d : A) → i < n → get_or (take n xs) i d ≡ get_or xs i d
  get_or-take xs zero i d h = absurd (omega arith)
  get_or-take [] (suc n) i d h = refl
  get_or-take (x ∷ xs) (suc n) zero d h = refl
  get_or-take (x ∷ xs) (suc n) (suc i) d h = get_or-take xs n i d (omega arith)

  pub get_or-append :
      (xs ys : List A) (i : ℕ) (d : A) → i < length xs → get_or (xs ++ ys) i d ≡ get_or xs i d
  get_or-append [] ys i d h = absurd (omega arith)
  get_or-append (x ∷ xs) ys zero d h = refl
  get_or-append (x ∷ xs) ys (suc i) d h = get_or-append xs ys i d (omega arith)

  pub take-all : (xs : List A) (n : ℕ) → length xs ≤ n → take n xs ≡ xs
  take-all [] zero h = refl
  take-all [] (suc n) h = refl
  take-all (x ∷ xs) zero h = absurd (omega arith)
  take-all (x ∷ xs) (suc n) h = ap (◌∷◌ x) (take-all xs n (omega arith))

  pub take-set_next :
      (xs : List A) (n : ℕ) (v : A)
      → n < length xs
      → take (n + 1) (set xs n v) ≡ take n xs ++ (v ∷ [])
  take-set_next xs n v h =
      subst (λ k. take k (set xs n v) ≡ take n xs ++ (v ∷ [])) e (take-set_end xs n v h)
    where
      e : suc n ≡ n + 1
      e = omega arith

  pub take-take : (xs : List A) (k n : ℕ) → k ≤ n → take k (take n xs) ≡ take k xs
  take-take xs zero n h = refl
  take-take xs (suc k) zero h = absurd (omega arith)
  take-take [] (suc k) (suc n) h = refl
  take-take (x ∷ xs) (suc k) (suc n) h = ap (◌∷◌ x) (take-take xs k n (omega arith))

  pub get_or-set_eq : (xs : List A) (i : ℕ) (v d : A) → i < length xs → get_or (set xs i v) i d ≡ v
  get_or-set_eq [] i v d h = absurd (omega arith)
  get_or-set_eq (x ∷ xs) zero v d h = refl
  get_or-set_eq (x ∷ xs) (suc i) v d h = get_or-set_eq xs i v d (omega arith)

  pub get_or-set_ne :
      (xs : List A) (i j : ℕ) (v d : A) → i ≢ j → get_or (set xs i v) j d ≡ get_or xs j d
  get_or-set_ne [] i j v d h = refl
  get_or-set_ne (x ∷ xs) zero zero v d h = absurd (h refl)
  get_or-set_ne (x ∷ xs) zero (suc j) v d h = refl
  get_or-set_ne (x ∷ xs) (suc i) zero v d h = refl
  get_or-set_ne (x ∷ xs) (suc i) (suc j) v d h = get_or-set_ne xs i j v d (λ e. h (ap suc e))

  pub get_or-append_end : (xs : List A) (x d : A) → get_or (xs ++ (x ∷ [])) (length xs) d ≡ x
  get_or-append_end [] x d = refl
  get_or-append_end (y ∷ xs) x d = get_or-append_end xs x d
