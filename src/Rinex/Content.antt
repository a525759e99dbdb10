-- ===== src/Rinex/Content.antt =====
-- What may stand in a file of the RINEX logger, and what `write_header` lists (main/rinex_logger.cpp).
use gps_base_station.Prelude.{
  ℕ, ◌≤◌, ◌<◌, ◌≡◌, refl, ◌⊎◌, ◌%◌, ◌&&◌, List, [], ◌∷◌, ◌++◌, Option, none, some, Bool, true,
  false, not, ◌||◌, ◌==◌, length, arith, inl, inr, Bool-cases, Option-cases,
}
use gps_base_station.Rinex.SatId.{
  SystemDef, systems, find_in, is_present, listed, find_system, normal_prn, sat_text, format_in,
  format_sat_id,
}
use gps_base_station.Rinex.Feed.{holds}
use gps_base_station.Rinex.Records.{Doubles, SatObs}
use gps_base_station.Rinex.Files.{
  CloseIo, Io, Content, holds_epochs, damaged, written, with_epoch, epoch_well, Row, Epoch,
  RinexFile, Logger, rows_of,
}

-- A name that RINEX allows: the letter of the system, and a number in its range, in two digits.
abbrev IsName : SystemDef → List ℕ → Type 0
IsName d id = (prn : ℕ) × (1 ≤ prn) × (prn ≤ d.max_prn) × (id ≡ sat_text d.code prn)

format_in-IsName :
    (raw : ℕ) (id : List ℕ) (o : Option SystemDef)
    → format_in raw o ≡ some id
    → (d : SystemDef) × (o ≡ some d) × IsName d id
format_in-IsName raw id none e = absurd (ground arith)
format_in-IsName raw id (some d) e =
    (d, refl, (normal_prn d raw, ground arith, ground arith, ground arith))

format-IsName :
    (sys raw : ℕ) (id : List ℕ)
    → format_sat_id sys raw ≡ some id
    → (d : SystemDef) × (find_system sys ≡ some d) × IsName d id
unfolding format_sat_id
format-IsName sys raw id e = format_in-IsName raw id (find_system sys) e

-- The header lists the system.
abbrev Listed : SystemDef → List SystemDef → Type 0
Listed d [] = ⊥
Listed d (x ∷ xs) = (x ≡ d) ⊎ Listed d xs

holds-is_present :
    (d : SystemDef) (s : ℕ) (present : List ℕ)
    → holds s present ≡ true
    → (d.sys == s % 256) ≡ true
    → is_present d present ≡ true
unfolding holds is_present
holds-is_present d s [] h e = h
holds-is_present d s (t ∷ present) h e = elim (Bool-cases (t == s)) [
  | inl same ↦ let eq : t ≡ s = ground (arith, same) in rw (eq, e) refl
  | inr other ↦
      let there : holds s present ≡ true = ground (arith, h, other) in
      ground (arith, holds-is_present d s present there e)
]

find-Listed :
    (ds : List SystemDef) (s : ℕ) (present : List ℕ) (d : SystemDef)
    → holds s present ≡ true
    → find_in ds s ≡ some d
    → Listed d (listed ds present)
unfolding find_in listed
find-Listed [] s present d h e = absurd (ground arith)
find-Listed (x ∷ ds) s present d h e = elim (Bool-cases (x.sys == s % 256)) [
  | inl here ↦
      let eq : x ≡ d = ground (arith, here, e) in rw (holds-is_present x s present h here) (inl eq)
  | inr other ↦
      let there : find_in ds s ≡ some d = ground (arith, other, e) in
      elim (Bool-cases (is_present x present)) [
        | inl p ↦ rw p (inr (find-Listed ds s present d h there))
        | inr p ↦ rw p (find-Listed ds s present d h there)
      ]
]

found-Listed :
    (s : ℕ) (present : List ℕ) (d : SystemDef)
    → holds s present ≡ true
    → find_system s ≡ some d
    → Listed d (listed systems present)
unfolding find_system
found-Listed s present d h e = find-Listed systems s present d h e

module _ (doubles : Doubles) where
  -- `header` are the systems that the header of the file lists.
  abbrev RowFits : List SystemDef → Row doubles → Type 0
  RowFits header row =
      (d : SystemDef) × (find_system row.system ≡ some d) × Listed d header × IsName d row.id

  abbrev pub RowsFit : List SystemDef → List (Row doubles) → Type 0
  RowsFit header [] = Unit {0}
  RowsFit header (row ∷ rows) = RowFits header row × RowsFit header rows

  abbrev EpochsFit : List SystemDef → List (Epoch doubles) → Type 0
  EpochsFit header [] = Unit {0}
  EpochsFit header (e ∷ epochs) =
      (e.count ≡ length e.rows) × (0 < e.count) × RowsFit header e.rows × EpochsFit header epochs

  -- What a file holds, or the reason why it is not told.
  abbrev ContentFits : Type 0 → List SystemDef → Content doubles → Type 0
  ContentFits P header (holds_epochs epochs) = EpochsFit header epochs
  ContentFits P header damaged = P

  -- The header lists what `declared` stands for.
  abbrev pub FileFits : Type 0 → RinexFile doubles → Type 0
  FileFits P f = (f.header ≡ listed systems f.declared) × ContentFits P f.header f.content

  abbrev pub OpenFits : Type 0 → Option (RinexFile doubles) → Type 0
  OpenFits P none = Unit {0}
  OpenFits P (some f) = FileFits P f

  abbrev FilesFit : Type 0 → List (RinexFile doubles) → Type 0
  FilesFit P [] = Unit {0}
  FilesFit P (f ∷ files) = FileFits P f × FilesFit P files

  pub record Fits (P : Type 0) (l : Logger doubles) : Type 0 where
    pub open_fits : OpenFits P l.file
    pub card_fits : FilesFit P l.card

  -- A print, or the seek back, goes wrong.
  abbrev pub close_fails : CloseIo → Bool
  close_fails io = not io.prints

  abbrev pub io_fails : Io → Bool
  io_fails io =
      close_fails io.closing
      || not io.header_prints
      || not io.epoch_prints
      || (io.seeks && not io.returns)

  -- The card fails for one of the messages.
  abbrev pub AnyMessageFails : (List ℕ → Io) → List (List ℕ) → Type 0
  AnyMessageFails io [] = ⊥
  AnyMessageFails io (msg ∷ messages) = (io_fails (io msg) ≡ true) ⊎ AnyMessageFails io messages

  pub header_fails : (io : Io) → io.header_prints ≡ false → io_fails io ≡ true
  header_fails io fails = ground (arith, fails)

  pub epoch_fails : (io : Io) → epoch_well doubles io ≡ false → io_fails io ≡ true
  epoch_fails io fails = ground (arith, fails)

  pub closing_fails : (io : Io) → close_fails io.closing ≡ true → io_fails io ≡ true
  closing_fails io fails = ground (arith, fails)

  pub written-Fits :
      (P : Type 0) (header : List SystemDef) (c : Content doubles) (ok : Bool)
      → (ok ≡ false → P)
      → ContentFits P header c
      → ContentFits P header (written doubles c ok)
  written-Fits P header c true bad v = v
  written-Fits P header c false bad v = bad refl

  pub rows_of-Fit :
      (declared : List ℕ) (sats : List (SatObs doubles))
      → RowsFit (listed systems declared) (rows_of doubles declared sats)
  unfolding rows_of
  rows_of-Fit declared [] = tt
  rows_of-Fit declared (sat ∷ sats) = elim (Bool-cases (holds sat.system declared)) [
    | inr undeclared ↦ rw undeclared (rows_of-Fit declared sats)
    | inl d ↦ elim (Option-cases (format_sat_id sat.system sat.prn)) [
      | inl illegal ↦ rw (d, illegal) (rows_of-Fit declared sats)
      | inr (id, legal) ↦
          let name = format-IsName sat.system sat.prn id legal in
          rw (d, legal)
            (
              (name.0, name.1, found-Listed sat.system declared name.0 d name.1, name.2),
              rows_of-Fit declared sats,
            )
    ]
  ]

  EpochsFit-append :
      (header : List SystemDef) (xs : List (Epoch doubles)) (e : Epoch doubles)
      → EpochsFit header xs
      → EpochsFit header (e ∷ [])
      → EpochsFit header (xs ++ e ∷ [])
  EpochsFit-append header [] e fits one = one
  EpochsFit-append header (x ∷ xs) e fits one =
      (fits.0, fits.1, fits.2, EpochsFit-append header xs e fits.3 one)

  pub with_epoch-Fits :
      (P : Type 0) (header : List SystemDef) (c : Content doubles) (e : Epoch doubles)
      → EpochsFit header (e ∷ [])
      → ContentFits P header c
      → ContentFits P header (with_epoch doubles c e)
  with_epoch-Fits P header (holds_epochs epochs) e one v = EpochsFit-append header epochs e v one
  with_epoch-Fits P header damaged e one v = v
