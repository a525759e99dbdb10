-- ===== src/Nvs/Reference.antt =====
-- A store that takes so many writes and then no more: the documented behaviour can be met, and it can
-- fail in the middle.
use gps_base_station.Prelude.{
  ℕ, zero, suc, ◌≡◌, refl, List, [], ◌∷◌, Option, none, some, Bool, true, false, if◌then◌else◌,
  arith,
}
use gps_base_station.Nvs.{NvsApi, Value, same}

pub record Flash (D : Type 0) : Type 0 where
  pub entries : List (List ℕ × Value D)
  pub budget : ℕ

module _ {D : Type 0} where
  abbrev pub find : List (List ℕ × Value D) → List ℕ → Option (Value D)
  find [] k = none
  find ((k', v) ∷ es) k = if same k' k then some v else find es k

  abbrev pub write : List (List ℕ × Value D) → ℕ → List ℕ → Value D → Flash D × Bool
  write es zero k v = (record { entries = es; budget = 0 }, false)
  write es (suc b) k v = (record { entries = (k, v) ∷ es; budget = b }, true)

  pub find-write :
      (es : List (List ℕ × Value D)) (b : ℕ) (k k' : List ℕ) (v : Value D)
      → (write es b k v).1 ≡ true
      → find (write es b k v).0.entries k' ≡ (if same k k' then some v else find es k')
  find-write es zero k k' v e = absurd (ground arith)
  find-write es (suc b) k k' v e = refl

  pub find-write_other :
      (es : List (List ℕ × Value D)) (b : ℕ) (k k' : List ℕ) (v : Value D)
      → same k k' ≡ false
      → find (write es b k v).0.entries k' ≡ find es k'
  find-write_other es zero k k' v e = refl
  find-write_other es (suc b) k k' v e = rw e refl

abbrev pub flash : (D : Type 0) → NvsApi D
flash D = record {
  Nvs = Flash D;
  get = λ n. find n.entries;
  set = λ n. write n.entries n.budget;
  commit = λ n. (n, true);
  get-set = λ n. find-write n.entries n.budget;
  get-set_other = λ n. find-write_other n.entries n.budget;
  get-commit = λ n k. refl;
}
