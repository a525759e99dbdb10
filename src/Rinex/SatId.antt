-- ===== src/Rinex/SatId.antt =====
-- main/rinex_satid.h: the satellite systems, and the names of satellites.
use gps_base_station.Prelude.{
  ℕ, ◌+◌, ◌-◌, ◌/◌, ◌%◌, List, [], ◌∷◌, Option, none, some, Bool, false, ◌||◌, ltb, leb, ◌==◌,
  if◌then◌else◌, codes,
}

pub record SystemDef : Type 0 where
  pub sys : ℕ
  pub code : ℕ
  pub max_prn : ℕ
  pub offset : ℕ
  pub threshold : ℕ
  pub obs : List ℕ
  pub nobs : ℕ

abbrev pub gps : SystemDef
gps = record {
  sys = 0;
  code = b'G';
  max_prn = 32;
  offset = 0;
  threshold = 100000;
  obs = codes "C1C L1C D1C S1C C2W L2W D2W S2W C5Q L5Q D5Q S5Q";
  nobs = 12;
}

abbrev pub glonass : SystemDef
glonass = record {
  sys = 1;
  code = b'R';
  max_prn = 24;
  offset = 37;
  threshold = 38;
  obs = codes "C1C L1C D1C S1C C2C L2C D2C S2C";
  nobs = 8;
}

abbrev pub galileo : SystemDef
galileo = record {
  sys = 3;
  code = b'E';
  max_prn = 36;
  offset = 0;
  threshold = 100000;
  obs = codes "C1C L1C D1C S1C C5Q L5Q D5Q S5Q";
  nobs = 8;
}

abbrev pub beidou : SystemDef
beidou = record {
  sys = 4;
  code = b'C';
  max_prn = 63;
  offset = 140;
  threshold = 141;
  obs = codes "C2I L2I D2I S2I C6I L6I D6I S6I";
  nobs = 8;
}

abbrev pub qzss : SystemDef
qzss = record {
  sys = 5;
  code = b'J';
  max_prn = 10;
  offset = 192;
  threshold = 193;
  obs = codes "C1C L1C D1C S1C C2L L2L D2L S2L";
  nobs = 8;
}

abbrev pub systems : List SystemDef
systems = gps ∷ glonass ∷ galileo ∷ beidou ∷ qzss ∷ []

abbrev pub system_bands : SystemDef → ℕ
system_bands d = d.nobs / 4

unfoldable pub find_in : List SystemDef → ℕ → Option SystemDef
find_in [] s = none
find_in (d ∷ ds) s = let rest = find_in ds s in if d.sys == s % 256 then some d else rest

unfoldable pub find_system : ℕ → Option SystemDef
unfolding find_in
find_system s = find_in systems s

abbrev pub normal_prn : SystemDef → ℕ → ℕ
normal_prn d raw = if leb d.threshold raw then raw - d.offset else raw

abbrev pub sat_text : ℕ → ℕ → List ℕ
sat_text code prn = code ∷ (48 + prn % 100 / 10) ∷ (48 + prn % 10) ∷ []

abbrev pub format_in : ℕ → Option SystemDef → Option (List ℕ)
format_in raw none = none
format_in raw (some d) =
    if ltb (normal_prn d raw) 1 || ltb d.max_prn (normal_prn d raw)
    then none
    else some (sat_text d.code (normal_prn d raw))

unfoldable pub format_sat_id : ℕ → ℕ → Option (List ℕ)
unfolding find_system
format_sat_id sys raw = format_in raw (find_system sys)

-- A bit of `present_mask_`. A system is a byte.
unfoldable pub is_present : SystemDef → List ℕ → Bool
is_present d [] = false
is_present d (s ∷ present) = d.sys == s % 256 || is_present d present

-- The systems that `write_header` lists.
unfoldable pub listed : List SystemDef → List ℕ → List SystemDef
unfolding is_present
listed [] present = []
listed (d ∷ ds) present =
    let rest = listed ds present in if is_present d present then d ∷ rest else rest
