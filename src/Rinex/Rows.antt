-- ===== src/Rinex/Rows.antt =====
-- What stands in the files of the RINEX logger (main/rinex_logger.cpp).
use gps_base_station.Prelude.{
  ℕ, ◌≡◌, refl, subst, sym, ◌⊎◌, List, [], ◌∷◌, Option, none, some, Bool, true, false, not, ◌||◌,
  ◌==◌, length, get_elem?, take, arith, inl, inr, Bool-cases,
}
use gps_base_station.Storage.{c_str}
use gps_base_station.Rinex.SatId.{systems, listed}
use gps_base_station.Rinex.Feed.{feed_all}
use gps_base_station.Rinex.Records.{Doubles, SatObs, tokens, is_body_delim}
use gps_base_station.Rinex.Files.{
  CloseIo, Io, holds_epochs, with_epoch, epoch_well, Row, Epoch, RinexFile, Logger, no_logger,
  is_open, close_with, close_file, is_old, rotate_with, rotate_if_needed, open_file, present_mask,
  add_epoch, rows_of, write_rows, write_epoch, open_if, log_epoch, sats_of, rounded, process_timed,
  process_with, process_message, process_all, feed, start, stop, before, after, fine_or_sat,
  week_of, tow_of,
}
use gps_base_station.Rinex.Content.{
  RowsFit, FileFits, OpenFits, Fits, close_fails, io_fails, AnyMessageFails, header_fails,
  epoch_fails, closing_fails, written-Fits, rows_of-Fit, with_epoch-Fits,
}

module _ (doubles : Doubles) where
  module _ (P : Type 0) where
    close_with-Fits :
        (l : Logger doubles) (io : CloseIo) (o : Option (RinexFile doubles))
        → (close_fails doubles io ≡ true → P)
        → OpenFits doubles P o
        → Fits doubles P l
        → Fits doubles P (close_with doubles l io o)
    unfolding close_with
    close_with-Fits l io none bad o v = v
    close_with-Fits l io (some f) bad o v = record {
      open_fits = tt;
      card_fits = (
        (
          o.0,
          written-Fits doubles P f.header f.content io.prints (λ fails. bad (ground (arith, fails)))
              o.1,
        ),
        v.card_fits,
      );
    }

    close_file-Fits :
        (l : Logger doubles) (io : CloseIo)
        → (close_fails doubles io ≡ true → P)
        → Fits doubles P l
        → Fits doubles P (close_file doubles l io)
    unfolding close_file
    close_file-Fits l io bad v = close_with-Fits l io l.file bad v.open_fits v

    rotate_with-Fits :
        (l : Logger doubles) (io : CloseIo) (week : ℕ) (tow : doubles.D)
        (o : Option (RinexFile doubles))
        → (close_fails doubles io ≡ true → P)
        → Fits doubles P l
        → Fits doubles P (rotate_with doubles l io week tow o)
    unfolding rotate_with
    rotate_with-Fits l io week tow none bad v = v
    rotate_with-Fits l io week tow (some f) bad v = elim (Bool-cases (is_old doubles f week tow)) [
      | inl old ↦ rw old (close_file-Fits l io bad v)
      | inr young ↦ rw young v
    ]

    open_if-Fits :
        (l : Logger doubles) (io : Io) (week : ℕ) (tow : doubles.D) (sats : List (SatObs doubles))
        → (io_fails doubles io ≡ true → P)
        → Fits doubles P l
        → Fits doubles P (open_if doubles l io week tow sats)
    unfolding open_if open_file
    open_if-Fits l io week tow sats bad v = elim (Bool-cases (is_open doubles l.file)) [
      | inl open_ ↦ rw open_ v
      | inr shut ↦ elim (Bool-cases io.opens) [
        | inl opens ↦
            rw (shut, opens)
              (record {
                open_fits = (
                  refl,
                  written-Fits doubles P (listed systems (present_mask doubles sats))
                      (holds_epochs []) io.header_prints
                      (λ fails. bad (header_fails doubles io fails)) tt,
                );
                card_fits = v.card_fits;
              })
        | inr fails ↦ rw (shut, fails) v
      ]
    ]

    write_rows-Fits :
        (l : Logger doubles) (f : RinexFile doubles) (io : Io) (week : ℕ) (tow : doubles.D)
        (rows : List (Row doubles))
        → (io_fails doubles io ≡ true → P)
        → FileFits doubles P f
        → RowsFit doubles f.header rows
        → Fits doubles P l
        → Fits doubles P (write_rows doubles l f io week tow rows)
    unfolding write_rows add_epoch
    write_rows-Fits l f io week tow [] bad o fit v = v
    write_rows-Fits l f io week tow (row ∷ rows) bad o fit v =
        let e : Epoch doubles = record {
          week = week;
          tow = tow;
          count = length (row ∷ rows);
          rows = row ∷ rows;
        } in
        record {
          open_fits = (
            o.0,
            written-Fits doubles P f.header (with_epoch doubles f.content e) (epoch_well doubles io)
                (λ fails. bad (epoch_fails doubles io fails))
                (with_epoch-Fits doubles P f.header f.content e (refl, omega arith, fit, tt) o.1),
          );
          card_fits = v.card_fits;
        }

    write_epoch-Fits :
        (l : Logger doubles) (o : Option (RinexFile doubles)) (io : Io) (week : ℕ) (tow : doubles.D)
        (sats : List (SatObs doubles))
        → (io_fails doubles io ≡ true → P)
        → OpenFits doubles P o
        → Fits doubles P l
        → Fits doubles P (write_epoch doubles l o io week tow sats)
    unfolding write_epoch
    write_epoch-Fits l none io week tow sats bad o v = v
    write_epoch-Fits l (some f) io week tow sats bad o v =
        write_rows-Fits l f io week tow (rows_of doubles f.declared sats) bad o
          (subst (λ h. RowsFit doubles h (rows_of doubles f.declared sats)) (sym o.0)
            (rows_of-Fit doubles f.declared sats))
          v

    log_epoch-Fits :
        (l : Logger doubles) (io : Io) (week : ℕ) (tow : doubles.D) (sats : List (SatObs doubles))
        → (io_fails doubles io ≡ true → P)
        → Fits doubles P l
        → Fits doubles P (log_epoch doubles l io week tow sats)
    unfolding log_epoch rotate_if_needed
    log_epoch-Fits l io week tow [] bad v = v
    log_epoch-Fits l io week tow (sat ∷ sats) bad v =
        let r = rotate_with doubles l io.closing week tow l.file in
        let rotated =
          rotate_with-Fits l io.closing week tow l.file
            (λ fails. bad (closing_fails doubles io fails)) v in
        let o = open_if-Fits r io week tow (sat ∷ sats) bad rotated in
        write_epoch-Fits (open_if doubles r io week tow (sat ∷ sats))
          (open_if doubles r io week tow (sat ∷ sats)).file io week tow (sat ∷ sats) bad o.open_fits
          o

    process_timed-Fits :
        (l : Logger doubles) (io : Io) (time_ok : Bool) (week : Option ℕ) (tow : doubles.D)
        (body : List ℕ)
        → (io_fails doubles io ≡ true → P)
        → Fits doubles P l
        → Fits doubles P (process_timed doubles l io time_ok week tow body)
    unfolding process_timed
    process_timed-Fits l io time_ok none tow body bad v = v
    process_timed-Fits l io time_ok (some week) tow body bad v =
        elim (Bool-cases (
          not time_ok
          || doubles.less doubles.half (doubles.fabs (doubles.sub tow (rounded doubles tow))))) [
            | inl off ↦ rw off v
            | inr on ↦ rw on (
                log_epoch-Fits l io week (rounded doubles tow)
                  (sats_of doubles (tokens is_body_delim body)) bad v)
          ]

    process_with-Fits :
        (l : Logger doubles) (io : Io) (header : List (List ℕ)) (body : Option (List ℕ))
        → (io_fails doubles io ≡ true → P)
        → Fits doubles P l
        → Fits doubles P (process_with doubles l io header body)
    unfolding process_with
    process_with-Fits l io header none bad v = v
    process_with-Fits l io header (some body) bad v =
        process_timed-Fits l io (fine_or_sat (get_elem? header 4)) (week_of (get_elem? header 5))
          (tow_of doubles (get_elem? header 6)) body bad v

    process_all-Fits :
        (l : Logger doubles) (io : List ℕ → Io) (messages : List (List ℕ))
        → (AnyMessageFails doubles io messages → P)
        → Fits doubles P l
        → Fits doubles P (process_all doubles l io messages)
    unfolding process_all process_message
    process_all-Fits l io [] bad v = v
    process_all-Fits l io (msg ∷ messages) bad v =
        process_all-Fits
          (process_with doubles l (io msg)
            (tokens (λ c. c == 44) (take 255 (before 59 (c_str msg)))) (after 59 (c_str msg)))
          io messages (λ fails. bad (inr fails))
          (process_with-Fits l (io msg) (tokens (λ c. c == 44) (take 255 (before 59 (c_str msg))))
            (after 59 (c_str msg)) (λ fails. bad (inl fails)) v)

  -- A call of the logger.
  pub data Call : Type 0 where
    begin : Call
    end : CloseIo → Call
    bytes : (List ℕ → Io) → List ℕ → Call

  -- The card fails in a call, in one of all that are made from a state on.
  abbrev pub Fails : Logger doubles → Call → Type 0
  Fails l begin = ⊥
  Fails l (end io) = close_fails doubles io ≡ true
  Fails l (bytes io data_) = AnyMessageFails doubles io (feed_all l.framer data_).1

  unfoldable pub called : Logger doubles → Call → Logger doubles
  unfolding feed start stop
  called l begin = start doubles l
  called l (end io) = stop doubles l io
  called l (bytes io data_) = feed doubles l io data_

  unfoldable pub called_all : Logger doubles → List Call → Logger doubles
  unfolding called
  called_all l [] = l
  called_all l (c ∷ calls) = called_all (called l c) calls

  unfoldable pub AnyFails : Logger doubles → List Call → Type 0
  unfolding called
  AnyFails l [] = ⊥
  AnyFails l (c ∷ calls) = Fails l c ⊎ AnyFails (called l c) calls

  called-Fits :
      (P : Type 0) (l : Logger doubles) (c : Call)
      → (Fails l c → P)
      → Fits doubles P l
      → Fits doubles P (called l c)
  unfolding called feed start stop
  called-Fits P l begin bad v = elim (Bool-cases l.active) [
    | inl on ↦ rw on (record { open_fits = v.open_fits; card_fits = v.card_fits })
    | inr off ↦ rw off (record { open_fits = v.open_fits; card_fits = v.card_fits })
  ]
  called-Fits P l (end io) bad v = elim (Bool-cases l.active) [
    | inl on ↦ rw on (
        close_file-Fits P (record l { active = false }) io bad
          (record { open_fits = v.open_fits; card_fits = v.card_fits }))
    | inr off ↦ rw off (record { open_fits = v.open_fits; card_fits = v.card_fits })
  ]
  called-Fits P l (bytes io data_) bad v = elim (Bool-cases l.active) [
    | inl on ↦ rw on (
        process_all-Fits P (record l { active = true; framer = (feed_all l.framer data_).0 }) io
          (feed_all l.framer data_).1 bad
          (record { open_fits = v.open_fits; card_fits = v.card_fits }))
    | inr off ↦ rw off (record { open_fits = v.open_fits; card_fits = v.card_fits })
  ]

  called_all-Fits :
      (P : Type 0) (calls : List Call) (l : Logger doubles)
      → (AnyFails l calls → P)
      → Fits doubles P l
      → Fits doubles P (called_all l calls)
  unfolding called_all AnyFails
  called_all-Fits P [] l bad v = v
  called_all-Fits P (c ∷ calls) l bad v =
      called_all-Fits P calls (called l c) (λ fails. bad (inr fails))
        (called-Fits P l c (λ fails. bad (inl fails)) v)

  -- Whatever bytes arrive, and whatever the card answers, the header of every file that the logger opened
  -- lists the systems of its mask; and every file either holds epochs that count their rows, at least one,
  -- and rows of systems that the file's header lists, each with the letter of its system and a satellite
  -- number in the system's range; or it is damaged, and then a print to the card or the seek back to a
  -- file's end fails for one of the messages or at a stop. A file that cannot be opened, and a seek to the header that fails,
  -- damage none.
  pub called_all-no_logger :
      (calls : List Call)
      → Fits doubles (AnyFails (no_logger doubles) calls) (called_all (no_logger doubles) calls)
  called_all-no_logger calls =
      called_all-Fits (AnyFails (no_logger doubles) calls) calls (no_logger doubles)
        (λ fails. fails) (record { open_fits = tt; card_fits = tt })
