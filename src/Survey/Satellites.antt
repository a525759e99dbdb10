-- ===== src/Survey/Satellites.antt =====
-- The satellite list: it stays within its arrays, and a message of one system leaves the others alone.
use gps_base_station.Prelude.{
  ℕ, zero, suc, ◌+◌, ◌-◌, ◌*◌, ◌≤◌, ◌<◌, ◌≡◌, inl, inr, refl, sym, ap, subst, ◌∙◌, List, [], ◌∷◌,
  ◌++◌, Option, none, some, not, ◌||◌, ltb, ◌==◌, if◌then◌else◌, length, length-append, take,
  append-nil, arith, Bool-cases, Option-cases,
}
use gps_base_station.Survey.Text.{
  ℤ, pos, negsuc, csv_field, csv_field-end, parse_int, without_checksum,
}
use gps_base_station.Survey.{
  Sky, SatelliteInfo, k_max_satellites, k_max_gsv_satellites, satellite, gsv_entry, after_entry,
  gsv_loop, others, publish_gsv, take_gsv, take_numbered, parse_gsv,
}

-- All are of the system.
abbrev pub AllOf : ℕ → List SatelliteInfo → Type 0
AllOf system [] = Unit {0}
AllOf system (s ∷ ss) = (s.system ≡ system) × AllOf system ss

pub record IsValid (s : Sky) : Type 0 where
  pub few : length s.satellites ≤ k_max_satellites
  pub buffered : length s.gsv ≤ k_max_gsv_satellites
  pub same : AllOf s.gsv_system s.gsv

AllOf-snoc :
    (system : ℕ) (ss : List SatelliteInfo) (s : SatelliteInfo)
    → AllOf system ss
    → s.system ≡ system
    → AllOf system (ss ++ (s ∷ []))
AllOf-snoc system [] s all is = (is, tt)
AllOf-snoc system (x ∷ ss) s (first, all) is = (first, AllOf-snoc system ss s all is)

AllOf-take : (system n : ℕ) (ss : List SatelliteInfo) → AllOf system ss → AllOf system (take n ss)
AllOf-take system zero [] all = tt
AllOf-take system zero (s ∷ ss) all = tt
AllOf-take system (suc n) [] all = tt
AllOf-take system (suc n) (s ∷ ss) (is, all) = (is, AllOf-take system n ss all)

satellite-system : (prn : ℤ) (s t : SatelliteInfo) → satellite prn s ≡ some t → t.system ≡ s.system
satellite-system (pos zero) s t e = absurd (ground arith)
satellite-system (pos (suc n)) s t e = ground arith
satellite-system (negsuc n) s t e = ground arith

gsv_entry-system :
    (payload : List ℕ) (system i : ℕ) (t : SatelliteInfo)
    → gsv_entry payload system i ≡ some (some t)
    → t.system ≡ system
unfolding gsv_entry
gsv_entry-system payload system i t e = elim (Option-cases (csv_field payload i)) [
  | inl e0 ↦ absurd (ground arith)
  | inr (prn, e0) ↦ elim (Option-cases (csv_field payload (i + 1))) [
    | inl e1 ↦ absurd (ground arith)
    | inr (elevation, e1) ↦ elim (Option-cases (csv_field payload (i + 2))) [
      | inl e2 ↦ absurd (ground arith)
      | inr (azimuth, e2) ↦
          satellite-system (parse_int prn) _ t (inner (rw (e0, e1, e2, gsv_entry) at e))
    ]
  ]
]
  where
    inner : {s : Option SatelliteInfo} → some s ≡ some (some t) → s ≡ some t
    inner h = ground arith

-- The buffer stays within its array, and holds one system.
abbrev pub Holds : ℕ → List SatelliteInfo → Type 0
Holds system buffer = (length buffer ≤ k_max_gsv_satellites) × AllOf system buffer

after_entry-Holds :
    (entry : Option (Option SatelliteInfo)) (system : ℕ) (buffer : List SatelliteInfo)
    (go : List SatelliteInfo → List SatelliteInfo)
    → ((t : SatelliteInfo) → entry ≡ some (some t) → t.system ≡ system)
    → ((b : List SatelliteInfo) → Holds system b → Holds system (go b))
    → length buffer < k_max_gsv_satellites
    → Holds system buffer
    → Holds system (after_entry entry buffer go)
unfolding after_entry
after_entry-Holds none system buffer go of keep room h = h
after_entry-Holds (some none) system buffer go of keep room h = keep buffer h
after_entry-Holds (some (some t)) system buffer go of keep room h =
    keep (buffer ++ (t ∷ []))
      (omega (arith, length-append buffer (t ∷ [])), AllOf-snoc system buffer t h.1 (of t refl))

gsv_loop-Holds :
    (fuel : ℕ) (payload : List ℕ) (system i : ℕ) (buffer : List SatelliteInfo)
    → Holds system buffer
    → Holds system (gsv_loop fuel payload system i buffer)
unfolding gsv_loop
gsv_loop-Holds zero payload system i buffer h = h
gsv_loop-Holds (suc fuel) payload system i buffer h =
    elim (Bool-cases (ltb (length buffer) k_max_gsv_satellites)) [
      | inr full ↦ rw full h
      | inl room ↦ rw room (
          after_entry-Holds (gsv_entry payload system i) system buffer
            (gsv_loop fuel payload system (i + 4)) (gsv_entry-system payload system i)
            (gsv_loop-Holds fuel payload system (i + 4)) (ground arith) h)
    ]

gsv_entry-end :
    (payload : List ℕ) (system i : ℕ) → length payload < i → gsv_entry payload system i ≡ none
unfolding gsv_entry
gsv_entry-end payload system i lt = rw (csv_field-end payload i lt, gsv_entry) refl

after_entry-same :
    (entry : Option (Option SatelliteInfo)) (buffer : List SatelliteInfo)
    (go go' : List SatelliteInfo → List SatelliteInfo)
    → ((b : List SatelliteInfo) → go b ≡ go' b)
    → after_entry entry buffer go ≡ after_entry entry buffer go'
unfolding after_entry
after_entry-same none buffer go go' same = refl
after_entry-same (some none) buffer go go' same = same buffer
after_entry-same (some (some t)) buffer go go' same = same (buffer ++ (t ∷ []))

gsv_loop-over :
    (fuel : ℕ) (payload : List ℕ) (system i : ℕ) (buffer : List SatelliteInfo)
    → length payload < i
    → gsv_loop fuel payload system i buffer ≡ buffer
unfolding gsv_loop after_entry
gsv_loop-over zero payload system i buffer lt = refl
gsv_loop-over (suc fuel) payload system i buffer lt =
    ground (arith, gsv_entry-end payload system i lt)

-- Any two amounts of fuel that reach behind the end of the text give the same.
gsv_loop-fuel :
    (fuel fuel' : ℕ) (payload : List ℕ) (system i : ℕ) (buffer : List SatelliteInfo)
    → length payload < i + 4 * fuel
    → length payload < i + 4 * fuel'
    → gsv_loop fuel payload system i buffer ≡ gsv_loop fuel' payload system i buffer
unfolding gsv_loop
gsv_loop-fuel zero fuel' payload system i buffer lt lt' =
    sym (gsv_loop-over fuel' payload system i buffer (omega arith))
gsv_loop-fuel (suc fuel) zero payload system i buffer lt lt' =
    gsv_loop-over (suc fuel) payload system i buffer (omega arith)
gsv_loop-fuel (suc fuel) (suc fuel') payload system i buffer lt lt' =
    ap
      (λ (rest : List SatelliteInfo).
        if ltb (length buffer) k_max_gsv_satellites then rest else buffer)
      (after_entry-same (gsv_entry payload system i) buffer (gsv_loop fuel payload system (i + 4))
        (gsv_loop fuel' payload system (i + 4))
        (λ b. gsv_loop-fuel fuel fuel' payload system (i + 4) b (omega arith) (omega arith)))

-- The loop over the satellites of a message ends by itself: with as much fuel as the text has characters,
-- or any other amount that reaches behind the end of the text, it gives the same.
pub gsv_loop-length :
    (fuel : ℕ) (payload : List ℕ) (system : ℕ) (buffer : List SatelliteInfo)
    → length payload < 4 + 4 * fuel
    → gsv_loop (length payload) payload system 4 buffer ≡ gsv_loop fuel payload system 4 buffer
gsv_loop-length fuel payload system buffer enough =
    gsv_loop-fuel (length payload) fuel payload system 4 buffer (omega arith) enough

others-le : (system : ℕ) (ss : List SatelliteInfo) → length (others system ss) ≤ length ss
unfolding others
others-le system [] = omega arith
others-le system (s ∷ ss) = ground (arith, others-le system ss)

others-append :
    (system : ℕ) (xs ys : List SatelliteInfo)
    → others system (xs ++ ys) ≡ others system xs ++ others system ys
unfolding others
others-append system [] ys = refl
others-append system (x ∷ xs) ys = ground (arith, others-append system xs ys)

others-AllOf : (system : ℕ) (ss : List SatelliteInfo) → AllOf system ss → others system ss ≡ []
unfolding others
others-AllOf system [] all = refl
others-AllOf system (s ∷ ss) (is, all) = ground (arith, others-AllOf system ss all)

others-others :
    (system : ℕ) (ss : List SatelliteInfo) → others system (others system ss) ≡ others system ss
unfolding others
others-others system [] = refl
others-others system (s ∷ ss) = ground (arith, others-others system ss)

length-take : (n : ℕ) (ss : List SatelliteInfo) → length (take n ss) ≤ n
length-take zero [] = omega arith
length-take zero (s ∷ ss) = omega arith
length-take (suc n) [] = omega arith
length-take (suc n) (s ∷ ss) = omega (arith, length-take n ss)

-- A sky after a message of `system`: valid, and the other systems as before.
abbrev pub Updated : Sky → Sky → ℕ → Type 0
Updated s s' system = IsValid s' × (others system s'.satellites ≡ others system s.satellites)

publish_gsv-Updated :
    (s : Sky) (system : ℕ)
    → IsValid s
    → s.gsv_system ≡ system
    → Updated s (publish_gsv s system) system
unfolding publish_gsv
publish_gsv-Updated s system v is = (
  record {
    few = omega (
      arith,
      length-append kept (take (64 - length kept) s.gsv),
      length-take (64 - length kept) s.gsv,
      others-le system s.satellites,
      v.few,
    );
    buffered = v.buffered;
    same = v.same;
  },
  others-append system kept (take (64 - length kept) s.gsv)
      ∙ ap (λ (ss : List SatelliteInfo). others system kept ++ ss)
          (others-AllOf system (take (64 - length kept) s.gsv) (
            AllOf-take system (64 - length kept) s.gsv
              (subst (λ (n : ℕ). AllOf n s.gsv) is v.same)))
      ∙ append-nil (others system kept)
      ∙ others-others system s.satellites,
)
  where
    kept : List SatelliteInfo
    kept = others system s.satellites

take_gsv-Updated :
    (s : Sky) (payload : List ℕ) (system count number : ℕ)
    → IsValid s
    → Updated s (take_gsv s payload system count number) system
unfolding take_gsv
take_gsv-Updated s payload system count number v = elim (Bool-cases (number == count)) [
  | inl last ↦ rw last (publish_gsv-Updated s' system valid refl)
  | inr more ↦ rw more (valid, refl)
]
  where
    start : List SatelliteInfo
    start = if number == 1 || not (system == s.gsv_system) then [] else s.gsv

    started : Holds system start
    started = ground (arith, v.buffered, v.same)

    s' : Sky
    s' = record s { gsv = gsv_loop (length payload) payload system 4 start; gsv_system = system }

    valid : IsValid s'
    valid =
        let h = gsv_loop-Holds (length payload) payload system 4 start started in
        record { few = v.few; buffered = h.0; same = h.1 }

take_numbered-Updated :
    (s : Sky) (payload : List ℕ) (system : ℕ) (count number : ℤ)
    → IsValid s
    → Updated s (take_numbered s payload system count number) system
unfolding take_numbered
take_numbered-Updated s payload system (pos (suc count)) (pos (suc number)) v =
    take_gsv-Updated s payload system (suc count) (suc number) v
take_numbered-Updated s payload system (pos zero) number v = (v, refl)
take_numbered-Updated s payload system (pos (suc count)) (pos zero) v = (v, refl)
take_numbered-Updated s payload system (pos (suc count)) (negsuc number) v = (v, refl)
take_numbered-Updated s payload system (negsuc count) number v = (v, refl)

-- Whatever a GSV line says, the satellite list and the buffer stay within their 64 and 20 entries, the
-- buffer holds one system, and the satellites of the other systems stay in the list as they are.
pub parse_gsv-Updated :
    (s : Sky) (line : List ℕ) (system : ℕ) → IsValid s → Updated s (parse_gsv s line system) system
unfolding parse_gsv
parse_gsv-Updated s line system v = elim (Option-cases (csv_field (without_checksum line) 1)) [
  | inl e ↦ rw (e, parse_gsv) (v, refl)
  | inr (count, e) ↦ elim (Option-cases (csv_field (without_checksum line) 2)) [
    | inl e' ↦ rw (e, e', parse_gsv) (v, refl)
    | inr (number, e') ↦
        rw (e, e', parse_gsv)
          (take_numbered-Updated s (without_checksum line) system (parse_int count)
            (parse_int number) v)
  ]
]
