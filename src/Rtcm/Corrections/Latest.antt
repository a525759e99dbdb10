-- ===== src/Rtcm/Corrections/Latest.antt =====
-- The mailbox keeps the newest frame of each type.
use gps_base_station.Prelude.{
  ℕ, ◌≤◌, ◌≡◌, ◌≢◌, refl, ◌⊎◌, inl, inr, List, [], ◌∷◌, Option, none, some, Bool, true, false,
  if◌then◌else◌, Bool-cases, Option-cases, arith, length, take-drop-write_at,
}
use gps_base_station.Rtcm.Corrections.{
  Slot, frame, at_first, holds_type, is_free, fill, publish_to_corrections,
}

abbrev pub find : (Slot → Bool) → List Slot → Option Slot
find test [] = none
find test (s ∷ slots) = if test s then some s else find test slots

abbrev pub AllSized : List Slot → Type 0
AllSized [] = Unit {0}
AllSized (s ∷ slots) = (length s.bytes ≡ 1200) × AllSized slots

at_first-none :
    (test : Slot → Bool) (change : Slot → Slot) (slots : List Slot)
    → at_first test change slots ≡ none
    → find test slots ≡ none
unfolding at_first
at_first-none test change [] e = refl
at_first-none test change (s ∷ slots) e = ground (arith, at_first-none test change slots)

-- The first slot passes and is changed, or the change is further on.
at_first-cons :
    (test : Slot → Bool) (change : Slot → Slot) (s : Slot) (slots slots' : List Slot)
    → at_first test change (s ∷ slots) ≡ some slots'
    → ((test s ≡ true) × (slots' ≡ change s ∷ slots))
      ⊎ ((test s ≡ false)
          × ((more : List Slot) × (at_first test change slots ≡ some more) × (slots' ≡ s ∷ more)))
unfolding at_first
at_first-cons test change s slots slots' e = elim (Bool-cases (test s)) [
  | inl hit ↦ inl (hit, ground arith)
  | inr miss ↦ elim (Option-cases (at_first test change slots)) [
    | inl gone ↦ absurd (ground arith)
    | inr (more, at) ↦ inr (miss, (more, at, ground arith))
  ]
]

-- A changed slot that still passes the test is the one that is found by it.
at_first-find :
    (test : Slot → Bool) (change : Slot → Slot) (slots slots' : List Slot)
    → ((s : Slot) → test (change s) ≡ true)
    → at_first test change slots ≡ some slots'
    → (s : Slot) × (find test slots ≡ some s) × (find test slots' ≡ some (change s))
at_first-find test change [] slots' passes e = absurd (unfold at_first in ground arith)
at_first-find test change (s ∷ slots) slots' passes e =
    elim (at_first-cons test change s slots slots' e) [
      | inl (hit, same) ↦ (s, rw hit, rw (same, passes s))
      | inr (miss, (more, at, same)) ↦
          let (t, found, changed) = at_first-find test change slots more passes at in
          (t, rw miss found, rw (same, miss) changed)
    ]

-- A changed slot that passes another test, which no slot passed, is the one that is found by that.
at_first-find_new :
    (test sought : Slot → Bool) (change : Slot → Slot) (slots slots' : List Slot)
    → ((s : Slot) → sought (change s) ≡ true)
    → find sought slots ≡ none
    → at_first test change slots ≡ some slots'
    → (s : Slot) × (find test slots ≡ some s) × (find sought slots' ≡ some (change s))
at_first-find_new test sought change [] slots' passes absent e =
    absurd (unfold at_first in ground arith)
at_first-find_new test sought change (s ∷ slots) slots' passes absent e =
    elim (at_first-cons test change s slots slots' e) [
      | inl (hit, same) ↦ (s, rw hit, rw (same, passes s))
      | inr (miss, (more, at, same)) ↦
          let later : (sought s ≡ false) × (find sought slots ≡ none) = ground arith in
          let (t, found, changed) =
            at_first-find_new test sought change slots more passes later.1 at in
          (t, rw miss found, rw (same, later.0) changed)
    ]

-- A change that a test does not see leaves what is found by it.
at_first-find_other :
    (test sought : Slot → Bool) (change : Slot → Slot) (slots slots' : List Slot)
    → ((s : Slot) → test s ≡ true → sought s ≡ false)
    → ((s : Slot) → sought (change s) ≡ false)
    → at_first test change slots ≡ some slots'
    → find sought slots' ≡ find sought slots
at_first-find_other test sought change [] slots' before after e =
    absurd (unfold at_first in ground arith)
at_first-find_other test sought change (s ∷ slots) slots' before after e =
    elim (at_first-cons test change s slots slots' e) [
      | inl (hit, same) ↦ rw (same, after s, before s hit)
      | inr (miss, (more, at, same)) ↦
          rw (same, at_first-find_other test sought change slots more before after at)
    ]

find-Sized :
    (test : Slot → Bool) (slots : List Slot) (s : Slot)
    → AllSized slots
    → find test slots ≡ some s
    → length s.bytes ≡ 1200
find-Sized test [] s all e = absurd (ground arith)
find-Sized test (t ∷ slots) s all e = elim (Bool-cases (test t)) [
  | inl hit ↦ ground arith
  | inr miss ↦ find-Sized test slots s all.1 (ground arith)
]

frame-fill :
    (f : List ℕ) (n now : ℕ) (s : Slot)
    → length s.bytes ≡ 1200
    → length f ≤ 1200
    → frame (fill f n now s) ≡ f
unfolding fill
frame-fill f n now s size le = take-drop-write_at s.bytes 0 f (omega arith)

-- The frame is in the slot that is found for its type, and no caster has it yet.
abbrev pub IsLatest : ℕ → List ℕ → List Slot → Type 0
IsLatest n f slots =
    (s : Slot) × (find (holds_type n) slots ≡ some s) × (frame s ≡ f) × (s.sent_mask ≡ 0)

module _ (slots : List Slot) (f : List ℕ) (n now : ℕ) (sized : AllSized slots)
    (le : length f ≤ 1200) where
  filled :
      (test : Slot → Bool) (slots' : List Slot)
      → (s : Slot) × (find test slots ≡ some s)
        × (find (holds_type n) slots' ≡ some (fill f n now s))
      → IsLatest n f slots'
  filled test slots' (s, found, at) = (
    fill f n now s,
    at,
    frame-fill f n now s (find-Sized test slots s sized found) le,
    unfold fill in refl,
  )

  -- The newest frame of a type takes the place of the older one, or a free slot, and is then still to be
  -- sent to every caster. It is dropped only if no slot has its type and none is free, and then
  -- nothing changes. What is kept of any other type stays as it is.
  pub publish_to_corrections_latest :
      (m : ℕ)
      → m ≢ n
      → let slots' = publish_to_corrections slots f n now in
        (IsLatest n f slots'
          ⊎ ((find (holds_type n) slots ≡ none) × (find is_free slots ≡ none) × (slots' ≡ slots)))
        × (find (holds_type m) slots' ≡ find (holds_type m) slots)
  unfolding publish_to_corrections
  publish_to_corrections_latest m ne = elim (Option-cases (at_first (holds_type n) change slots)) [
    | inl new_type ↦
        rw (new_type, publish_to_corrections)
          (elim (Option-cases (at_first is_free change slots)) [
            | inl full ↦
                rw (full, publish_to_corrections)
                  (
                    inr (
                      at_first-none _ change slots new_type,
                      at_first-none _ change slots full,
                      refl,
                    ),
                    refl,
                  )
            | inr (slots', at) ↦
                rw (at, publish_to_corrections)
                  (
                    inl (
                        filled is_free slots' (
                          at_first-find_new is_free (holds_type n) change slots slots' passes
                            (at_first-none _ change slots new_type) at)),
                    at_first-find_other is_free (holds_type m) change slots slots' free_other hidden
                        at,
                  )
          ])
    | inr (slots', at) ↦
        rw (at, publish_to_corrections)
          (
            inl (
                filled (holds_type n) slots'
                  (at_first-find (holds_type n) change slots slots' passes at)),
            at_first-find_other (holds_type n) (holds_type m) change slots slots' type_other hidden
                at,
          )
  ]
    where
      change : Slot → Slot
      change = fill f n now

      passes : (s : Slot) → holds_type n (change s) ≡ true
      passes s = unfold fill in ground arith

      hidden : (s : Slot) → holds_type m (change s) ≡ false
      hidden s = unfold fill in ground arith

      free_other : (s : Slot) → is_free s ≡ true → holds_type m s ≡ false
      free_other s h = ground arith

      type_other : (s : Slot) → holds_type n s ≡ true → holds_type m s ≡ false
      type_other s h = ground arith
