-- ===== src/Rinex/Best.antt =====
-- Of the signals of a satellite in a band, the one that suits best is kept (main/rinex_logger.cpp).
use gps_base_station.Prelude.{
  ℕ, ◌≤◌, ◌<◌, ◌≡◌, refl, sym, ap, subst, ◌∙◌, ◌⊎◌, inl, inr, List, [], ◌∷◌, Option, none, some,
  Bool, true, false, ◌&&◌, ltb, ◌==◌, if◌then◌else◌, arith, Bool-cases,
}
use gps_base_station.Rinex.SatId.{format_sat_id}
use gps_base_station.Rinex.Records.{
  Doubles, find_signal, signal_band, SigObs, Rec, SatObs, keep_best, classified, upsert_if,
  add_record, add_records,
}
use gps_base_station.Rinex.Slots.{Kept, kept, AllThree, is_for, kept-upsert, upsert-three}

signal_band_bounds :
    (sys sig band pref : ℕ) → signal_band sys sig ≡ some (band, pref) → (band < 3) × (0 < pref)
unfolding signal_band find_signal
signal_band_bounds sys sig band pref e = ground arith

module _ (doubles : Doubles) where
  -- How well a record suits a band of a satellite, if it is of it.
  unfoldable pub pref_in : ℕ → Option (ℕ × ℕ) → Option ℕ
  pref_in b none = none
  pref_in b (some (band, pref)) = if b == band then some pref else none

  unfoldable pub pref_for : Rec doubles → ℕ → ℕ → ℕ → Option ℕ
  unfolding pref_in
  pref_for r sys prn b =
      if is_for doubles r sys prn
      then pref_in b (classified doubles r (format_sat_id r.system r.prn))
      else none

  abbrev rank : (Kept doubles) → ℕ
  rank none = 0
  rank (some (obs, pref)) = pref

  abbrev offer : Option ℕ → SigObs doubles → (Kept doubles) → (Kept doubles)
  offer none obs k = k
  offer (some pref) obs k = keep_best doubles pref obs k

  by_none :
      (p : Bool) (obs : SigObs doubles) (k : (Kept doubles))
      → k ≡ offer (if p then none else none) obs k
  by_none true obs k = refl
  by_none false obs k = refl

  by_offer :
      (p q : Bool) (pref : ℕ) (obs : SigObs doubles) (k : (Kept doubles))
      → (if p && q then keep_best doubles pref obs k else k)
        ≡ offer (if p then (if q then some pref else none) else none) obs k
  by_offer true true pref obs k = refl
  by_offer true false pref obs k = refl
  by_offer false q pref obs k = refl

  kept-if :
      (r : Rec doubles) (sys prn b : ℕ) (sats : List (SatObs doubles)) (c : Option (ℕ × ℕ))
      → AllThree doubles sats
      → ((band pref : ℕ) → c ≡ some (band, pref) → band < 3)
      → kept doubles (upsert_if doubles r c sats) sys prn b
        ≡ offer
            (if is_for doubles r sys prn then pref_in b c else none)
            r.obs
            (kept doubles sats sys prn b)
  unfolding pref_in
  kept-if r sys prn b sats none three small =
      by_none (is_for doubles r sys prn) r.obs (kept doubles sats sys prn b)
  kept-if r sys prn b sats (some (band, pref)) three small =
      kept-upsert doubles r band pref sys prn b sats (small band pref refl) three
      ∙ by_offer (is_for doubles r sys prn) (b == band) pref r.obs (kept doubles sats sys prn b)

  classified_small :
      (r : Rec doubles) (id : Option (List ℕ)) (band pref : ℕ)
      → classified doubles r id ≡ some (band, pref)
      → (band < 3) × (0 < pref)
  classified_small r none band pref e = absurd (ground arith)
  classified_small r (some id) band pref e =
      signal_band_bounds r.system r.signal band pref (ground arith)

  add_record-three :
      (r : Rec doubles) (sats : List (SatObs doubles)) (c : Option (ℕ × ℕ))
      → AllThree doubles sats
      → AllThree doubles (upsert_if doubles r c sats)
  add_record-three r sats none three = three
  add_record-three r sats (some (band, pref)) three = upsert-three doubles r band pref sats three

  module _ (sys prn b : ℕ) where
    abbrev best_from : (Kept doubles) → List (Rec doubles) → (Kept doubles)
    best_from k [] = k
    best_from k (r ∷ rs) = best_from (offer (pref_for r sys prn b) r.obs k) rs

    kept-add_records :
        (rs : List (Rec doubles)) (sats : List (SatObs doubles))
        → AllThree doubles sats
        → kept doubles (add_records doubles sats rs) sys prn b
          ≡ best_from (kept doubles sats sys prn b) rs
    unfolding add_records add_record pref_for
    kept-add_records [] sats three = refl
    kept-add_records (r ∷ rs) sats three =
        let c = classified doubles r (format_sat_id r.system r.prn) in
        kept-add_records rs (upsert_if doubles r c sats) (add_record-three r sats c three)
        ∙ ap (λ k. best_from k rs)
            (kept-if r sys prn b sats c three
              (λ band pref e. (classified_small r (format_sat_id r.system r.prn) band pref e).0))

    -- No record of the band suits it better.
    abbrev pub AllBelow : (Kept doubles) → List (Rec doubles) → Type 0
    AllBelow k [] = Unit {0}
    AllBelow k (r ∷ rs) =
        ((pref : ℕ) → pref_for r sys prn b ≡ some pref → pref ≤ rank k) × AllBelow k rs

    -- One of the records is what is kept.
    abbrev pub Offered : (Kept doubles) → List (Rec doubles) → Type 0
    Offered k [] = ⊥
    Offered k (r ∷ rs) =
        ((pref : ℕ) × (pref_for r sys prn b ≡ some pref) × (k ≡ some (r.obs, pref))) ⊎ Offered k rs

    rank-offer :
        (o : Option ℕ) (obs : SigObs doubles) (k : (Kept doubles)) → rank k ≤ rank (offer o obs k)
    unfolding keep_best
    rank-offer none obs k = omega arith
    rank-offer (some pref) obs none = omega arith
    rank-offer (some pref) obs (some (old, p)) = ground arith

    pref-offer :
        (pref : ℕ) (obs : SigObs doubles) (k : (Kept doubles))
        → pref ≤ rank (offer (some pref) obs k)
    unfolding keep_best
    pref-offer pref obs none = omega arith
    pref-offer pref obs (some (old, p)) = ground arith

    offer-or :
        (o : Option ℕ) (obs : SigObs doubles) (k : (Kept doubles))
        → (offer o obs k ≡ k) ⊎ ((pref : ℕ) × (o ≡ some pref) × (offer o obs k ≡ some (obs, pref)))
    unfolding keep_best
    offer-or none obs k = inl refl
    offer-or (some pref) obs none = inr (pref, refl, refl)
    offer-or (some pref) obs (some (old, p)) = elim (Bool-cases (ltb p pref)) [
      | inl better ↦ inr (pref, refl, rw better refl)
      | inr worse ↦ inl (rw worse refl)
    ]

    rank-best_from : (rs : List (Rec doubles)) (k : (Kept doubles)) → rank k ≤ rank (best_from k rs)
    rank-best_from [] k = omega arith
    rank-best_from (r ∷ rs) k = omega (
      arith,
      rank-offer (pref_for r sys prn b) r.obs k,
      rank-best_from rs (offer (pref_for r sys prn b) r.obs k),
    )

    best_from-below : (rs : List (Rec doubles)) (k : (Kept doubles)) → AllBelow (best_from k rs) rs
    best_from-below [] k = tt
    best_from-below (r ∷ rs) k = (
      (λ pref e. omega (
        arith,
        subst (λ o. pref ≤ rank (offer o r.obs k)) (sym e) (pref-offer pref r.obs k),
        rank-best_from rs (offer (pref_for r sys prn b) r.obs k),
      )),
      best_from-below rs (offer (pref_for r sys prn b) r.obs k),
    )

    best_from-or :
        (rs : List (Rec doubles)) (k : (Kept doubles))
        → (best_from k rs ≡ k) ⊎ Offered (best_from k rs) rs
    best_from-or [] k = inl refl
    best_from-or (r ∷ rs) k = elim (best_from-or rs (offer (pref_for r sys prn b) r.obs k)) [
      | inr later ↦ inr (inr later)
      | inl unchanged ↦ elim (offer-or (pref_for r sys prn b) r.obs k) [
        | inl old ↦ inl (unchanged ∙ old)
        | inr (pref, suits, new) ↦ inr (inl (pref, suits, unchanged ∙ new))
      ]
    ]

    -- Of the records of a message, in any number and order, a band of a satellite keeps one that suits it
    -- best, or nothing, where no record suits it.
    pub kept-Best :
        (rs : List (Rec doubles))
        → AllBelow (kept doubles (add_records doubles [] rs) sys prn b) rs
          × ((kept doubles (add_records doubles [] rs) sys prn b ≡ none)
              ⊎ Offered (kept doubles (add_records doubles [] rs) sys prn b) rs)
    unfolding kept
    kept-Best rs = rw (kept-add_records rs [] tt) (best_from-below rs none, best_from-or rs none)
