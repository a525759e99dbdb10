-- ===== src/Storage.antt =====
-- `Storage` of main/storage.hpp: the settings that survive a reboot. A write fails where NVS does, and
-- on a store that is not open.
pub mod Settings
mod Tests
use gps_base_station.Prelude.{
  ℕ, ◌+◌, List, [], ◌∷◌, ◌++◌, Option, none, some, Bool, true, false, not, ◌==◌, if◌then◌else◌,
  codes,
}
use gps_base_station.Nvs.{NvsApi, Value, u8, str, blob}
use gps_base_station.Ntrip.Client.{is_empty}

pub record Storage (Nvs : Type 0) : Type 0 where
  pub nvs : Nvs
  pub is_open : Bool

pub record BasePosition (D : Type 0) : Type 0 where
  pub valid : Bool
  pub lat : D
  pub lon : D
  pub height : D

pub record ServiceCredentials : Type 0 where
  pub mountpoint : List ℕ
  pub password : List ℕ

pub record WifiCredentials : Type 0 where
  pub valid : Bool
  pub ssid : List ℕ
  pub password : List ℕ

-- What is left of a `std::string` behind `c_str()`: all up to the first zero.
unfoldable pub c_str : List ℕ → List ℕ
c_str [] = []
c_str (x ∷ xs) = let rest = c_str xs in if x == 0 then [] else x ∷ rest

abbrev pub flag : Bool → ℕ
flag on = if on then 1 else 0

abbrev pub service_key : List ℕ → List ℕ → List ℕ
service_key service suffix = service ++ suffix

module _ {D : Type 0} where
  -- What the getters make of an entry.
  abbrev pub as_bool : Bool → Option (Value D) → Bool
  as_bool default (some (u8 n)) = n == 1
  as_bool default (some (str t)) = default
  as_bool default (some (blob d)) = default
  as_bool default none = default

  abbrev pub as_string : Option (Value D) → List ℕ
  as_string (some (str t)) = t
  as_string (some (u8 n)) = []
  as_string (some (blob d)) = []
  as_string none = []

  abbrev pub as_double : D → Option (Value D) → D
  as_double default (some (blob d)) = d
  as_double default (some (u8 n)) = default
  as_double default (some (str t)) = default
  as_double default none = default

-- `zero_double` is `0.0`.
module _ {D : Type 0} (api : NvsApi D) (zero_double : D) where
  open api use {Nvs, get, set, commit}

  -- The entry, which a store that is not open does not find.
  unfoldable pub entry : Storage Nvs → List ℕ → Option (Value D)
  entry s k = if s.is_open then get s.nvs k else none

  unfoldable pub get_bool : Storage Nvs → List ℕ → Bool → Bool
  unfolding entry
  get_bool s k default = as_bool default (entry s k)

  unfoldable pub get_string : Storage Nvs → List ℕ → List ℕ
  unfolding entry
  get_string s k = as_string (entry s k)

  unfoldable pub get_double : Storage Nvs → List ℕ → D → D
  unfolding entry
  get_double s k default = as_double default (entry s k)

  -- `set_bool`, `set_string` and `set_double`.
  unfoldable pub write : Storage Nvs → List ℕ → Value D → Storage Nvs × Bool
  write s k v =
      let (n, ok) = set s.nvs k v in if s.is_open then (record s { nvs = n }, ok) else (s, false)

  unfoldable pub commit_all : Storage Nvs → Storage Nvs × Bool
  commit_all s =
      let (n, ok) = commit s.nvs in if s.is_open then (record s { nvs = n }, ok) else (s, false)

  -- Writes in a row, each behind `ESP_RETURN_ON_ERROR`, and `commit`.
  unfoldable pub write_all : Storage Nvs → List (List ℕ × Value D) → Storage Nvs × Bool
  unfolding write commit_all
  write_all s [] = commit_all s
  write_all s ((k, v) ∷ ws) =
      let (s', ok) = write s k v in let rest = write_all s' ws in if ok then rest else (s', false)

  abbrev pub bool_value : Bool → Value D
  bool_value on = u8 (flag on)

  abbrev pub string_value : List ℕ → Value D
  string_value t = str (c_str t)

  unfoldable pub load_position : Storage Nvs → BasePosition D
  unfolding get_bool get_double
  load_position s = record {
    valid = get_bool s (codes "pos_valid") false;
    lat = get_double s (codes "lat") zero_double;
    lon = get_double s (codes "lon") zero_double;
    height = get_double s (codes "hgt") zero_double;
  }

  unfoldable pub save_position : Storage Nvs → D → D → D → Storage Nvs × Bool
  unfolding write_all
  save_position s lat lon height = write_all s (
      (codes "lat", blob lat)
      ∷ (codes "lon", blob lon)
      ∷ (codes "hgt", blob height)
      ∷ (codes "pos_valid", bool_value true)
      ∷ [])

  unfoldable pub clear_position : Storage Nvs → Storage Nvs × Bool
  unfolding write_all
  clear_position s = write_all s ((codes "pos_valid", bool_value false) ∷ [])

  pub admin_password_set : Storage Nvs → Bool
  unfolding get_bool
  admin_password_set s = get_bool s (codes "admin_set") false

  pub admin_password : Storage Nvs → List ℕ
  unfolding get_string
  admin_password s = get_string s (codes "admin_pw")

  pub save_admin_password : Storage Nvs → List ℕ → Storage Nvs × Bool
  unfolding write_all c_str
  save_admin_password s password =
      write_all s
        ((codes "admin_pw", string_value password) ∷ (codes "admin_set", bool_value true) ∷ [])

  unfoldable pub load_service : Storage Nvs → List ℕ → ServiceCredentials
  unfolding get_string
  load_service s service = record {
    mountpoint = get_string s (service_key service (codes "_mp"));
    password = get_string s (service_key service (codes "_pw"));
  }

  unfoldable pub save_service : Storage Nvs → List ℕ → ServiceCredentials → Storage Nvs × Bool
  unfolding write_all c_str
  save_service s service credentials = write_all s (
      (service_key service (codes "_mp"), string_value credentials.mountpoint)
      ∷ (service_key service (codes "_pw"), string_value credentials.password)
      ∷ [])

  unfoldable pub service_enabled : Storage Nvs → List ℕ → Bool → Bool
  unfolding get_bool
  service_enabled s service default = get_bool s (service_key service (codes "_en")) default

  pub set_service_enabled : Storage Nvs → List ℕ → Bool → Storage Nvs × Bool
  unfolding write_all
  set_service_enabled s service enabled =
      write_all s ((service_key service (codes "_en"), bool_value enabled) ∷ [])

  pub load_wifi : Storage Nvs → WifiCredentials
  unfolding get_string
  load_wifi s =
      let ssid = get_string s (codes "wifi_ssid") in
      record { valid = not (is_empty ssid); ssid = ssid; password = get_string s (codes "wifi_pw") }

  pub save_wifi : Storage Nvs → WifiCredentials → Storage Nvs × Bool
  unfolding write_all c_str
  save_wifi s credentials = write_all s (
      (codes "wifi_ssid", string_value credentials.ssid)
      ∷ (codes "wifi_pw", string_value credentials.password)
      ∷ [])

  unfoldable pub antenna_model : Storage Nvs → List ℕ
  unfolding get_string
  antenna_model s =
      let m = get_string s (codes "ant_model") in if is_empty m then codes "HXCGPS500" else m

  unfoldable pub antenna_radome : Storage Nvs → List ℕ
  unfolding get_string
  antenna_radome s =
      let r = get_string s (codes "ant_radome") in if is_empty r then codes "NONE" else r

  unfoldable pub antenna_height : Storage Nvs → D
  unfolding get_double
  antenna_height s = get_double s (codes "ant_h") zero_double

  pub save_antenna : Storage Nvs → List ℕ → List ℕ → D → Storage Nvs × Bool
  unfolding write_all c_str
  save_antenna s model radome height = write_all s (
      (codes "ant_model", string_value model)
      ∷ (codes "ant_radome", string_value radome)
      ∷ (codes "ant_h", blob height)
      ∷ [])

  unfoldable pub ntrip_streams_enabled : Storage Nvs → Bool → Bool
  unfolding get_bool
  ntrip_streams_enabled s default = get_bool s (codes "ntrip_on") default

  unfoldable pub set_ntrip_streams_enabled : Storage Nvs → Bool → Storage Nvs × Bool
  unfolding write_all
  set_ntrip_streams_enabled s enabled = write_all s ((codes "ntrip_on", bool_value enabled) ∷ [])

  unfoldable pub rinex_collection_enabled : Storage Nvs → Bool → Bool
  unfolding get_bool
  rinex_collection_enabled s default = get_bool s (codes "rinex_on") default

  unfoldable pub set_rinex_collection_enabled : Storage Nvs → Bool → Storage Nvs × Bool
  unfolding write_all
  set_rinex_collection_enabled s enabled = write_all s ((codes "rinex_on", bool_value enabled) ∷ [])

  pub ap_password : Storage Nvs → List ℕ
  unfolding get_string
  ap_password s = get_string s (codes "ap_pw")

  pub save_ap_password : Storage Nvs → List ℕ → Storage Nvs × Bool
  unfolding write_all c_str
  save_ap_password s password = write_all s ((codes "ap_pw", string_value password) ∷ [])

  pub night_mode : Storage Nvs → Bool → Bool
  unfolding get_bool
  night_mode s default = get_bool s (codes "night") default

  pub set_night_mode : Storage Nvs → Bool → Storage Nvs × Bool
  unfolding write_all
  set_night_mode s night = write_all s ((codes "night", bool_value night) ∷ [])

-- `open`; `opened` is the store that `nvs_open` gives, if it does.
pub open_store : {Nvs : Type 0} → Storage Nvs → Option Nvs → Storage Nvs × Bool
open_store s opened =
    if s.is_open
    then (s, true)
    else elim opened [ none ↦ (s, false) | some n ↦ (record { nvs = n; is_open = true }, true) ]

pub close_store : {Nvs : Type 0} → Storage Nvs → Storage Nvs
close_store s = record s { is_open = false }
