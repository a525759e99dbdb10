-- ===== src/Nvs.antt =====
-- The key-value store of ESP-IDF, which the repository calls and does not implement: what the
-- documentation of `nvs_get_*`, `nvs_set_*` and `nvs_commit` says. `D` stands for `double`.
pub mod Reference
use gps_base_station.Prelude.{
  ℕ, ◌≡◌, refl, subst, arith, List, [], ◌∷◌, Option, none, some, Bool, true, false, ◌&&◌, ◌==◌,
  if◌then◌else◌,
}

abbrev pub same : List ℕ → List ℕ → Bool
same [] [] = true
same [] (y ∷ ys) = false
same (x ∷ xs) [] = false
same (x ∷ xs) (y ∷ ys) = x == y && same xs ys

pub same_self : (p : List ℕ) → same p p ≡ true
same_self [] = refl
same_self (c ∷ p) = ground (arith, same_self p)

pub same-of-eq : (p q : List ℕ) → p ≡ q → same p q ≡ true
same-of-eq p q e = subst (λ r. same p r ≡ true) e (same_self p)

-- An entry, by the function that wrote it. The function of another type does not find it.
pub data Value (D : Type 0) : Type 0 where
  u8 : ℕ → Value D
  str : List ℕ → Value D
  blob : D → Value D

pub record NvsApi (D : Type 0) : Type 1 where
  pub Nvs : Type 0
  pub get : Nvs → List ℕ → Option (Value D)
  pub set : Nvs → List ℕ → Value D → Nvs × Bool
  pub commit : Nvs → Nvs × Bool
  pub get-set :
      (n : Nvs) (k k' : List ℕ) (v : Value D)
      → (set n k v).1 ≡ true
      → get (set n k v).0 k' ≡ (if same k k' then some v else get n k')
  pub get-set_other :
      (n : Nvs) (k k' : List ℕ) (v : Value D) → same k k' ≡ false → get (set n k v).0 k' ≡ get n k'
  pub get-commit : (n : Nvs) (k : List ℕ) → get (commit n).0 k ≡ get n k
