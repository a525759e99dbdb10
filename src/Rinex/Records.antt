-- ===== src/Rinex/Records.antt =====
-- `signal_band`, and the observations of a message, of `process_message` in main/rinex_logger.cpp.
use gps_base_station.Prelude.{
  ℕ, zero, suc, ◌-◌, ◌/◌, ◌%◌, ◌^◌, min, List, [], ◌∷◌, ◌++◌, Option, none, some, Bool, ◌&&◌, ◌||◌,
  ltb, leb, ◌==◌, if◌then◌else◌, set,
}
use gps_base_station.Survey.Text.{ℤ, pos, negsuc, atoi}
use gps_base_station.Web.Forms.{strtol16}
use gps_base_station.Rinex.SatId.{format_sat_id}
use gps_base_station.Rinex.Names.{Calendar}

-- `double` and the functions of the C library on it, and its `gmtime_r`. `to_int` is the conversion to an
-- integer.
pub record Doubles : Type 1 where
  pub D : Type 0
  pub atof : List ℕ → D
  pub of_int : ℤ → D
  pub to_int : D → ℤ
  pub gmtime : ℤ → Calendar
  pub single : D → D
  pub neg : D → D
  pub floor : D → D
  pub fabs : D → D
  pub add : D → D → D
  pub sub : D → D → D
  pub mul : D → D → D
  pub div : D → D → D
  pub less : D → D → Bool
  pub half : D

-- A band, and how well a signal suits it.
abbrev pub band_table : ℕ → List (ℕ × ℕ × ℕ)
band_table sys =
    if sys == 0
    then (0, 0, 10) ∷ (16, 0, 5) ∷ (5, 1, 10) ∷ (9, 1, 6) ∷ (17, 1, 5) ∷ (14, 2, 10) ∷ []
    else if sys == 1
    then (0, 0, 10) ∷ (5, 1, 10) ∷ []
    else if sys == 3
    then (2, 0, 10) ∷ (12, 1, 10) ∷ []
    else if sys == 4
    then (0, 0, 10) ∷ (21, 1, 10) ∷ []
    else []

unfoldable pub find_signal : ℕ → List (ℕ × ℕ × ℕ) → Option (ℕ × ℕ)
find_signal sig [] = none
find_signal sig ((s, band, pref) ∷ table) =
    let rest = find_signal sig table in if sig == s then some (band, pref) else rest

unfoldable pub signal_band : ℕ → ℕ → Option (ℕ × ℕ)
unfolding find_signal
signal_band sys sig = find_signal sig (band_table sys)

-- `strtok_r`: the stretches between delimiters that are not empty.
abbrev pub flush : List ℕ → List (List ℕ) → List (List ℕ)
flush [] toks = toks
flush (c ∷ cur) toks = (c ∷ cur) ∷ toks

unfoldable pub tokens_from : (ℕ → Bool) → List ℕ → List ℕ → List (List ℕ)
tokens_from is_delim cur [] = flush cur []
tokens_from is_delim cur (c ∷ text) =
    let next = flush cur (tokens_from is_delim [] text) in
    let more = tokens_from is_delim (cur ++ c ∷ []) text in if is_delim c then next else more

unfoldable pub tokens : (ℕ → Bool) → List ℕ → List (List ℕ)
unfolding tokens_from
tokens is_delim text = tokens_from is_delim [] text

abbrev pub is_body_delim : ℕ → Bool
is_body_delim c = c == 44 || c == 13 || c == 10 || c == 42

unfoldable pub trim : List ℕ → List ℕ
trim [] = []
trim (c ∷ text) = let rest = trim text in if c == 32 || c == 13 || c == 10 then rest else c ∷ text

abbrev pub is_letter : ℕ → Bool
is_letter c = (leb 65 c && leb c 90) || (leb 97 c && leb c 122)

abbrev pub without_letter : List ℕ → List ℕ
without_letter [] = []
without_letter (c ∷ text) = if is_letter c then text else c ∷ text

abbrev pub u16_of : ℤ → ℕ
u16_of (pos n) = n % 65536
u16_of (negsuc n) = 65535 - n % 65536

abbrev pub i8_of : ℤ → ℤ
i8_of (pos n) = if ltb (n % 256) 128 then pos (n % 256) else negsuc (255 - n % 256)
i8_of (negsuc n) = if ltb (n % 256) 128 then negsuc (n % 256) else pos (255 - n % 256)

-- `strtoul` with base 16, into 32 bits; what is too large gives `ULONG_MAX`.
abbrev pub u32_of : ℤ → ℕ
u32_of (pos n) = min n 4294967295
u32_of (negsuc n) = if ltb n 4294967295 then 4294967295 - n else 4294967295

module _ (doubles : Doubles) where
  open doubles use {D, atof, single, neg}

  pub record SigObs : Type 0 where
    pub pseudorange : D
    pub carrier_phase : D
    pub doppler : D
    pub cn0 : D

  pub record Rec : Type 0 where
    pub prn : ℕ
    pub system : ℕ
    pub signal : ℕ
    pub glo_freq : ℤ
    pub obs : SigObs

  -- `valid` is whether there is an entry; `pref` stands beside it.
  pub record SatObs : Type 0 where
    pub prn : ℕ
    pub system : ℕ
    pub glo_freq : ℤ
    pub sig : List (Option (SigObs × ℕ))

  unfoldable pub record_of : List ℕ → List ℕ → List ℕ → List ℕ → List ℕ → List ℕ → List ℕ → Rec
  record_of f0 f1 f2 f4 f6 f7 f9 =
      let tstat = u32_of (strtol16 f9).0 in
      record {
        prn = u16_of (atoi (without_letter f0));
        system = tstat / 2 ^ 16 % 8;
        signal = tstat / 2 ^ 21 % 32;
        glo_freq = i8_of (atoi f1);
        obs = record {
          pseudorange = atof f2;
          carrier_phase = neg (atof f4);
          doppler = single (atof f6);
          cn0 = single (atof f7);
        };
      }

  -- Ten fields for each observation, until they run out.
  unfoldable pub records : ℕ → List (List ℕ) → List Rec
  unfolding record_of trim
  records zero toks = []
  records (suc n) (f0 ∷ f1 ∷ f2 ∷ f3 ∷ f4 ∷ f5 ∷ f6 ∷ f7 ∷ f8 ∷ f9 ∷ toks) =
      record_of (trim f0) (trim f1) (trim f2) (trim f4) (trim f6) (trim f7) (trim f9)
      ∷ records n toks
  records (suc n) toks = []

  -- A signal is kept if it suits its band better than the one before.
  unfoldable pub keep_best : ℕ → SigObs → Option (SigObs × ℕ) → Option (SigObs × ℕ)
  keep_best pref obs none = some (obs, pref)
  keep_best pref obs (some (old, p)) = if ltb p pref then some (obs, pref) else some (old, p)

  abbrev pub slot : List (Option (SigObs × ℕ)) → ℕ → Option (SigObs × ℕ)
  slot [] band = none
  slot (x ∷ xs) zero = x
  slot (x ∷ xs) (suc band) = slot xs band

  unfoldable pub put_signal : Rec → ℕ → ℕ → SatObs → SatObs
  unfolding keep_best
  put_signal r band pref sat = record sat {
    glo_freq = r.glo_freq;
    sig = set sat.sig band (keep_best pref r.obs (slot sat.sig band));
  }

  abbrev pub new_sat : Rec → SatObs
  new_sat r = record {
    prn = r.prn;
    system = r.system;
    glo_freq = r.glo_freq;
    sig = none ∷ none ∷ none ∷ [];
  }

  abbrev pub is_of : SatObs → ℕ → ℕ → Bool
  is_of sat sys prn = sat.prn == prn && sat.system == sys

  -- The entry of the satellite, or a new one at the end.
  unfoldable pub upsert : Rec → ℕ → ℕ → List SatObs → List SatObs
  unfolding put_signal
  upsert r band pref [] = put_signal r band pref (new_sat r) ∷ []
  upsert r band pref (sat ∷ sats) =
      let rest = upsert r band pref sats in
      if is_of sat r.system r.prn then put_signal r band pref sat ∷ sats else sat ∷ rest

  abbrev pub classified : Rec → Option (List ℕ) → Option (ℕ × ℕ)
  classified r none = none
  classified r (some id) = if r.prn == 0 then none else signal_band r.system r.signal

  abbrev pub upsert_if : Rec → Option (ℕ × ℕ) → List SatObs → List SatObs
  upsert_if r none sats = sats
  upsert_if r (some (band, pref)) sats = upsert r band pref sats

  -- The body of the loop over the observations.
  unfoldable pub add_record : List SatObs → Rec → List SatObs
  unfolding upsert
  add_record sats r = upsert_if r (classified r (format_sat_id r.system r.prn)) sats

  unfoldable pub add_records : List SatObs → List Rec → List SatObs
  unfolding add_record
  add_records sats [] = sats
  add_records sats (r ∷ rs) = add_records (add_record sats r) rs
