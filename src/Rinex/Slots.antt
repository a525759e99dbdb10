-- ===== src/Rinex/Slots.antt =====
-- How a signal changes what is kept of its satellite (main/rinex_logger.cpp).
use gps_base_station.Prelude.{
  ℕ, zero, suc, ◌<◌, ◌≡◌, refl, sym, ap, ◌∙◌, inl, inr, List, [], ◌∷◌, Option, none, Bool, true,
  false, ◌&&◌, ◌==◌, if◌then◌else◌, length, length-set, set, arith, Bool-cases, ==_iff,
}
use gps_base_station.Rinex.Records.{
  Doubles, SigObs, Rec, SatObs, keep_best, slot, put_signal, new_sat, is_of, upsert,
}

module _ (doubles : Doubles) where
  abbrev pub Kept : Type 0
  Kept = Option (SigObs doubles × ℕ)

  slot-set :
      (xs : List Kept) (b band : ℕ) (v : Kept)
      → band < length xs
      → slot doubles (set xs band v) b ≡ (if b == band then v else slot doubles xs b)
  slot-set [] b band v lt = elim lt [ ]
  slot-set (x ∷ xs) zero zero v lt = refl
  slot-set (x ∷ xs) zero (suc band) v lt = ground arith
  slot-set (x ∷ xs) (suc b) zero v lt = ground arith
  slot-set (x ∷ xs) (suc b) (suc band) v lt = ground (arith, slot-set xs b band v (omega arith))

  -- What is kept of a satellite in a band.
  unfoldable pub kept : List (SatObs doubles) → ℕ → ℕ → ℕ → Kept
  kept [] sys prn band = none
  kept (sat ∷ sats) sys prn band =
      let rest = kept sats sys prn band in
      if is_of doubles sat sys prn then slot doubles sat.sig band else rest

  abbrev pub AllThree : List (SatObs doubles) → Type 0
  AllThree [] = Unit {0}
  AllThree (sat ∷ sats) = (length sat.sig ≡ 3) × AllThree sats

  abbrev pub is_for : Rec doubles → ℕ → ℕ → Bool
  is_for r sys prn = r.prn == prn && r.system == sys

  put_signal-slot :
      (r : Rec doubles) (band pref b : ℕ) (sat : SatObs doubles)
      → band < 3
      → length sat.sig ≡ 3
      → slot doubles (put_signal doubles r band pref sat).sig b ≡ (
          if b == band
          then keep_best doubles pref r.obs (slot doubles sat.sig band)
          else slot doubles sat.sig b)
  unfolding put_signal
  put_signal-slot r band pref b sat lt three =
      slot-set sat.sig b band (keep_best doubles pref r.obs (slot doubles sat.sig band))
        (omega arith)

  put_signal-three :
      (r : Rec doubles) (band pref : ℕ) (sat : SatObs doubles)
      → length sat.sig ≡ 3
      → length (put_signal doubles r band pref sat).sig ≡ 3
  unfolding put_signal
  put_signal-three r band pref sat three =
      length-set sat.sig band (keep_best doubles pref r.obs (slot doubles sat.sig band)) ∙ three

  pub upsert-three :
      (r : Rec doubles) (band pref : ℕ) (sats : List (SatObs doubles))
      → AllThree sats
      → AllThree (upsert doubles r band pref sats)
  unfolding upsert
  upsert-three r band pref [] three = (put_signal-three r band pref (new_sat doubles r) refl, tt)
  upsert-three r band pref (sat ∷ sats) three =
      elim (Bool-cases (is_of doubles sat r.system r.prn)) [
        | inl own ↦ rw own (put_signal-three r band pref sat three.0, three.1)
        | inr other ↦ rw other (three.0, upsert-three r band pref sats three.1)
      ]

  same_key :
      (r : Rec doubles) (band pref sys prn : ℕ) (sat : SatObs doubles)
      → is_of doubles (put_signal doubles r band pref sat) sys prn ≡ is_of doubles sat sys prn
  unfolding put_signal
  same_key r band pref sys prn sat = refl

  key_lem :
      (r : Rec doubles) (sys prn : ℕ) (sat : SatObs doubles)
      → is_of doubles sat r.system r.prn ≡ true
      → is_of doubles sat sys prn ≡ is_for r sys prn
  key_lem r sys prn sat own = ground arith

  other_key :
      (r : Rec doubles) (sys prn : ℕ) (sat : SatObs doubles)
      → is_of doubles sat r.system r.prn ≡ false
      → is_of doubles sat sys prn ≡ true
      → is_for r sys prn ≡ false
  other_key r sys prn sat own here_ = ground arith

  empty_slot : (b : ℕ) → slot doubles (none ∷ none ∷ none ∷ []) b ≡ none
  empty_slot zero = refl
  empty_slot (suc zero) = refl
  empty_slot (suc (suc zero)) = refl
  empty_slot (suc (suc (suc b))) = refl

  -- The slot of a satellite's own record.
  own_slot :
      (r : Rec doubles) (band pref b : ℕ) (sat : SatObs doubles)
      → band < 3
      → length sat.sig ≡ 3
      → slot doubles (put_signal doubles r band pref sat).sig b ≡ (
          if b == band
          then keep_best doubles pref r.obs (slot doubles sat.sig b)
          else slot doubles sat.sig b)
  own_slot r band pref b sat lt three = elim (Bool-cases (b == band)) [
    | inl e ↦ rw e (
        put_signal-slot r band pref b sat lt three
        ∙ (ap
              (λ t.
                if t
                then keep_best doubles pref r.obs (slot doubles sat.sig band)
                else slot doubles sat.sig b)
              e
            ∙ ap (λ k. keep_best doubles pref r.obs (slot doubles sat.sig k))
                (sym ((==_iff b band).0 e))))
    | inr ne ↦ rw ne (
        put_signal-slot r band pref b sat lt three
        ∙ ap
            (λ t.
              if t
              then keep_best doubles pref r.obs (slot doubles sat.sig band)
              else slot doubles sat.sig b)
            ne)
  ]

  by_tests :
      (p q : Bool) (x y : Kept)
      → (if p then (if q then x else y) else y) ≡ (if p && q then x else y)
  by_tests true q x y = refl
  by_tests false q x y = refl

  by_key :
      (p q : Bool) (f : Kept → Kept) (x y : Kept)
      → (if p then (if q then f x else x) else y)
        ≡ (if p && q then f (if p then x else y) else (if p then x else y))
  by_key true true f x y = refl
  by_key true false f x y = refl
  by_key false q f x y = refl

  -- A list whose first satellite takes the signal.
  kept-first :
      (r : Rec doubles) (band pref sys prn b : ℕ) (sat : SatObs doubles)
      (sats : List (SatObs doubles))
      → band < 3
      → length sat.sig ≡ 3
      → kept (put_signal doubles r band pref sat ∷ sats) sys prn b ≡ (
          if is_of doubles sat sys prn
          then (if b == band
              then keep_best doubles pref r.obs (slot doubles sat.sig b)
              else slot doubles sat.sig b)
          else kept sats sys prn b)
  unfolding kept put_signal
  kept-first r band pref sys prn b sat sats lt three =
      ap (λ own. if is_of doubles sat sys prn then own else kept sats sys prn b)
        (own_slot r band pref b sat lt three)

  pub kept-upsert :
      (r : Rec doubles) (band pref sys prn b : ℕ) (sats : List (SatObs doubles))
      → band < 3
      → AllThree sats
      → kept (upsert doubles r band pref sats) sys prn b ≡ (
          if is_for r sys prn && b == band
          then keep_best doubles pref r.obs (kept sats sys prn b)
          else kept sats sys prn b)
  unfolding kept upsert
  kept-upsert r band pref sys prn b [] lt three =
      kept-first r band pref sys prn b (new_sat doubles r) [] lt refl
      ∙ rw (empty_slot b)
          (by_tests (is_for r sys prn) (b == band) (keep_best doubles pref r.obs none) none)
  kept-upsert r band pref sys prn b (sat ∷ sats) lt three =
      elim (Bool-cases (is_of doubles sat r.system r.prn)) [
        | inl own ↦ rw own (
            kept-first r band pref sys prn b sat sats lt three.0
            ∙ rw (key_lem r sys prn sat own) (
                by_key (is_for r sys prn) (b == band) (λ k. keep_best doubles pref r.obs k)
                  (slot doubles sat.sig b) (kept sats sys prn b)))
        | inr other ↦ elim (Bool-cases (is_of doubles sat sys prn)) [
          | inl here_ ↦ rw (other, other_key r sys prn sat other here_, here_) refl
          | inr there ↦ rw (other, there) (kept-upsert r band pref sys prn b sats lt three.1)
        ]
      ]
