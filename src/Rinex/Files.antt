-- ===== src/Rinex/Files.antt =====
-- `RinexLogger` of main/rinex_logger.cpp: from messages to epochs in files. A file is told by what its
-- header declares and by its epochs, or is damaged by a card that failed; the position and the antenna of
-- the header, and the texts of numbers and dates behind the file's name, are left out.
use gps_base_station.Prelude.{
  ℕ, zero, suc, ◌+◌, List, [], ◌∷◌, ◌++◌, Option, none, some, Bool, true, false, not, ◌&&◌, ◌*◌,
  ◌||◌, ltb, ◌==◌, if◌then◌else◌, length, get_elem?, take, codes, starts_with,
}
use gps_base_station.Storage.{c_str}
use gps_base_station.Survey.Text.{ℤ, pos, negsuc, atoi}
use gps_base_station.Web.Dates.{difference, above, below}
use gps_base_station.Rinex.Names.{Calendar, file_path}
use gps_base_station.Rinex.SatId.{
  SystemDef, systems, listed, find_system, system_bands, format_sat_id,
}
use gps_base_station.Rinex.Feed.{Framer, no_message, holds, feed_all}
use gps_base_station.Rinex.Records.{
  Doubles, tokens, is_body_delim, SigObs, SatObs, records, add_records,
}

-- All up to a character, and what is behind it.
unfoldable pub before : ℕ → List ℕ → List ℕ
before x [] = []
before x (c ∷ text) = let rest = before x text in if c == x then [] else c ∷ rest

unfoldable pub after : ℕ → List ℕ → Option (List ℕ)
after x [] = none
after x (c ∷ text) = let rest = after x text in if c == x then some text else rest

abbrev pub fine_or_sat : Option (List ℕ) → Bool
fine_or_sat none = false
fine_or_sat (some tok) = starts_with tok (codes "FINE") || starts_with tok (codes "SAT")

abbrev pub above_zero : ℤ → Option ℕ
above_zero (pos zero) = none
above_zero (pos (suc n)) = some (suc n)
above_zero (negsuc n) = none

abbrev pub week_of : Option (List ℕ) → Option ℕ
week_of none = none
week_of (some tok) = above_zero (atoi tok)

abbrev pub count_of : ℤ → ℕ
count_of (pos n) = if ltb 120 n then 0 else n
count_of (negsuc n) = 0

-- What the card says to the closing of a file: whether the slot of the header is known (`ftell`) and
-- sought, and whether the rest (`fprintf`, `fflush`, `fclose`) goes well.
pub record CloseIo : Type 0 where
  pub seeks : Bool
  pub prints : Bool

-- What the card says to a message: to the closing of an old file, to `fopen`, to the printing of a header,
-- to that of an epoch and of its header slot (with `ftell`, `fflush` and `fsync`), and to the two `fseek`,
-- of which the code does not look at the second.
pub record Io : Type 0 where
  pub closing : CloseIo
  pub opens : Bool
  pub header_prints : Bool
  pub epoch_prints : Bool
  pub seeks : Bool
  pub returns : Bool

module _ (doubles : Doubles) where
  open doubles use {D, atof, of_int, to_int, gmtime, floor, fabs, add, sub, mul, div, less, half}

  pub record Row : Type 0 where
    pub system : ℕ
    pub id : List ℕ
    pub quartets : List (Option (SigObs doubles × ℕ))

  pub record Epoch : Type 0 where
    pub week : ℕ
    pub tow : D
    pub count : ℕ
    pub rows : List Row

  -- A print that fails leaves a part of a line or nothing, and an epoch behind a seek that failed stands on
  -- the header: what such a file holds is not told.
  pub data Content : Type 0 where
    holds_epochs : List Epoch → Content
    damaged : Content

  abbrev pub written : Content → Bool → Content
  written c ok = if ok then c else damaged

  abbrev pub with_epoch : Content → Epoch → Content
  with_epoch (holds_epochs epochs) e = holds_epochs (epochs ++ e ∷ [])
  with_epoch damaged e = damaged

  -- `declared` are the systems of `present_mask_`, `header` are those that the header lists, `last_written`
  -- is the header's time of the last observation, and `last_obs` what it is to be.
  pub record RinexFile : Type 0 where
    pub path : List ℕ
    pub week_open : ℕ
    pub tow_open : D
    pub declared : List ℕ
    pub header : List SystemDef
    pub last_obs : ℕ × D
    pub last_written : ℕ × D
    pub content : Content

  -- `card` holds the files that were closed.
  pub record Logger : Type 0 where
    pub active : Bool
    pub framer : Framer
    pub file : Option RinexFile
    pub epoch_count : ℕ
    pub file_count : ℕ
    pub card : List RinexFile

  abbrev pub no_logger : Logger
  no_logger = record {
    active = false;
    framer = no_message;
    file = none;
    epoch_count = 0;
    file_count = 0;
    card = [];
  }

  -- A slot that is not printed well is in the damaged part.
  abbrev pub patched : RinexFile → CloseIo → RinexFile
  patched f io = record f {
    last_written = if io.seeks then f.last_obs else f.last_written;
    content = written f.content io.prints;
  }

  unfoldable pub close_with : Logger → CloseIo → Option RinexFile → Logger
  close_with l io none = l
  close_with l io (some f) = record l {
    file = none;
    file_count = l.file_count + 1;
    card = patched f io ∷ l.card;
  }

  unfoldable pub close_file : Logger → CloseIo → Logger
  unfolding close_with
  close_file l io = close_with l io l.file

  -- A file of an hour or more is closed.
  unfoldable pub is_old : RinexFile → ℕ → D → Bool
  is_old f week tow =
      let weeks = mul (of_int (difference week f.week_open)) (of_int (pos 604800)) in
      not (less (add weeks (sub tow f.tow_open)) (of_int (pos 3600)))

  unfoldable pub rotate_with : Logger → CloseIo → ℕ → D → Option RinexFile → Logger
  unfolding is_old close_file
  rotate_with l io week tow none = l
  rotate_with l io week tow (some f) = if is_old f week tow then close_file l io else l

  unfoldable pub rotate_if_needed : Logger → CloseIo → ℕ → D → Logger
  unfolding rotate_with
  rotate_if_needed l io week tow = rotate_with l io week tow l.file

  abbrev pub is_known : Option SystemDef → Bool
  is_known none = false
  is_known (some d) = true

  unfoldable pub present_mask : List (SatObs doubles) → List ℕ
  present_mask [] = []
  present_mask (sat ∷ sats) =
      let rest = present_mask sats in
      if is_known (find_system sat.system) then sat.system ∷ rest else rest

  -- The time that `gps_to_calendar` hands to `gmtime_r`.
  unfoldable pub gps_seconds : ℕ → D → ℤ
  gps_seconds week tow =
      difference (315964800 + week * 604800 + above (to_int tow)) (below (to_int tow))

  unfoldable pub gps_to_calendar : ℕ → D → Calendar
  unfolding gps_seconds
  gps_to_calendar week tow = gmtime (gps_seconds week tow)

  unfoldable pub open_file : Logger → Io → ℕ → D → List (SatObs doubles) → Logger
  unfolding present_mask listed gps_to_calendar file_path
  open_file l io week tow sats =
      let f : RinexFile = record {
        path = file_path (gps_to_calendar week tow);
        week_open = week;
        tow_open = tow;
        declared = present_mask sats;
        header = listed systems (present_mask sats);
        last_obs = (week, tow);
        last_written = (week, tow);
        content = written (holds_epochs []) io.header_prints;
      } in
      if io.opens then record l { file = some f; epoch_count = 0 } else l

  abbrev pub bands_of : Option SystemDef → ℕ
  bands_of none = 0
  bands_of (some d) = system_bands d

  abbrev pub row_if : SatObs doubles → Option (List ℕ) → List Row → List Row
  row_if sat none rows = rows
  row_if sat (some id) rows =
      record {
        system = sat.system;
        id = id;
        quartets = take (bands_of (find_system sat.system)) sat.sig;
      }
      ∷ rows

  unfoldable pub rows_of : List ℕ → List (SatObs doubles) → List Row
  rows_of declared [] = []
  rows_of declared (sat ∷ sats) =
      let rest = rows_of declared sats in
      if holds sat.system declared then row_if sat (format_sat_id sat.system sat.prn) rest else rest

  -- Where the slot is not sought, nothing is sought back.
  abbrev pub epoch_well : Io → Bool
  epoch_well io = io.epoch_prints && (not io.seeks || io.returns)

  unfoldable pub add_epoch : RinexFile → Io → ℕ → D → List Row → RinexFile
  add_epoch f io week tow rows =
      let e : Epoch = record { week = week; tow = tow; count = length rows; rows = rows } in
      record f {
        last_obs = (week, tow);
        last_written = if io.seeks then (week, tow) else f.last_written;
        content = written (with_epoch f.content e) (epoch_well io);
      }

  unfoldable pub write_rows : Logger → RinexFile → Io → ℕ → D → List Row → Logger
  unfolding add_epoch
  write_rows l f io week tow [] = l
  write_rows l f io week tow (row ∷ rows) = record l {
    file = some (add_epoch f io week tow (row ∷ rows));
    epoch_count = l.epoch_count + 1;
  }

  unfoldable pub write_epoch :
      Logger → Option RinexFile → Io → ℕ → D → List (SatObs doubles) → Logger
  unfolding write_rows rows_of
  write_epoch l none io week tow sats = l
  write_epoch l (some f) io week tow sats = write_rows l f io week tow (rows_of f.declared sats)

  abbrev pub is_open : Option RinexFile → Bool
  is_open none = false
  is_open (some f) = true

  unfoldable pub open_if : Logger → Io → ℕ → D → List (SatObs doubles) → Logger
  unfolding open_file
  open_if l io week tow sats = if is_open l.file then l else open_file l io week tow sats

  -- The end of `process_message`, for an epoch with satellites.
  unfoldable pub log_epoch : Logger → Io → ℕ → D → List (SatObs doubles) → Logger
  unfolding rotate_if_needed open_if write_epoch
  log_epoch l io week tow [] = l
  log_epoch l io week tow (sat ∷ sats) =
      let l' = open_if (rotate_if_needed l io.closing week tow) io week tow (sat ∷ sats) in
      write_epoch l' l'.file io week tow (sat ∷ sats)

  unfoldable pub sats_of : List (List ℕ) → List (SatObs doubles)
  unfolding add_records records
  sats_of [] = []
  sats_of (tok ∷ toks) = add_records doubles [] (records doubles (count_of (atoi tok)) toks)

  abbrev pub thirty : D
  thirty = of_int (pos 30)

  unfoldable pub rounded : D → D
  rounded tow = mul (floor (add (div tow thirty) half)) thirty

  unfoldable pub process_timed : Logger → Io → Bool → Option ℕ → D → List ℕ → Logger
  unfolding rounded log_epoch sats_of tokens
  process_timed l io time_ok none tow body = l
  process_timed l io time_ok (some week) tow body =
      if not time_ok || less half (fabs (sub tow (rounded tow)))
      then l
      else log_epoch l io week (rounded tow) (sats_of (tokens is_body_delim body))

  abbrev pub tow_of : Option (List ℕ) → D
  tow_of none = of_int (pos 0)
  tow_of (some tok) = atof tok

  unfoldable pub process_with : Logger → Io → List (List ℕ) → Option (List ℕ) → Logger
  unfolding process_timed
  process_with l io header none = l
  process_with l io header (some body) =
      process_timed l io (fine_or_sat (get_elem? header 4)) (week_of (get_elem? header 5))
        (tow_of (get_elem? header 6)) body

  unfoldable pub process_message : Logger → Io → List ℕ → Logger
  unfolding process_with before after tokens
  process_message l io msg =
      process_with l io (tokens (λ c. c == 44) (take 255 (before 59 (c_str msg))))
        (after 59 (c_str msg))

  unfoldable pub process_all : Logger → (List ℕ → Io) → List (List ℕ) → Logger
  unfolding process_message
  process_all l io [] = l
  process_all l io (msg ∷ messages) = process_all (process_message l (io msg) msg) io messages

  -- `io` is what the card says to the file of a message.
  unfoldable pub feed : Logger → (List ℕ → Io) → List ℕ → Logger
  unfolding process_all feed_all
  feed l io data_ =
      let (f, messages) = feed_all l.framer data_ in
      if l.active then process_all (record l { framer = f }) io messages else l

  unfoldable pub start : Logger → Logger
  start l =
      if l.active
      then l
      else record l { active = true; framer = no_message; epoch_count = 0; file_count = 0 }

  unfoldable pub stop : Logger → CloseIo → Logger
  unfolding close_file
  stop l io = if l.active then close_file (record l { active = false }) io else l
