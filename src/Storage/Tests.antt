-- ===== src/Storage/Tests.antt =====
-- Runs on a flash that takes so many writes; a `double` is a number here.
use gps_base_station.Prelude.{ℕ, ◌≡◌, refl, [], ◌∷◌, true, codes}
use gps_base_station.Nvs.{u8, blob}
use gps_base_station.Nvs.Reference.{Flash, flash}
use gps_base_station.Storage.{
  Storage, ServiceCredentials, load_position, save_position, clear_position, save_service,
}
use gps_base_station.Storage.Settings.{load_position-save_position}

abbrev fresh : ℕ → Storage (Flash ℕ)
fresh budget = record { nvs = record { entries = []; budget = budget }; is_open = true }

abbrev surveyed : Storage (Flash ℕ)
surveyed = record {
  nvs = record {
    entries =
        (codes "lat", blob 10)
        ∷ (codes "lon", blob 20)
        ∷ (codes "hgt", blob 30)
        ∷ (codes "pos_valid", u8 1)
        ∷ [];
    budget = 1;
  };
  is_open = true;
}

-- The flash fails behind the latitude: the new latitude stands with the old longitude, and counts as
-- valid.
torn_position :
    load_position (flash ℕ) 0 (save_position (flash ℕ) 0 surveyed 11 21 31).0
    ≡ record { valid = true; lat = 11; lon = 20; height = 30 }
unfolding save_position load_position
torn_position = refl

saved_position : (save_position (flash ℕ) 0 (fresh 9) 11 21 31).1 ≡ true
unfolding save_position
saved_position = refl

load_position-save_position_example :
    load_position (flash ℕ) 0 (save_position (flash ℕ) 0 (fresh 9) 11 21 31).0
    ≡ record { valid = true; lat = 11; lon = 21; height = 31 }
load_position-save_position_example =
    load_position-save_position (flash ℕ) 0 (fresh 9) 11 21 31 saved_position

cleared_position : (clear_position (flash ℕ) 0 surveyed).1 ≡ true
unfolding clear_position
cleared_position = refl

abbrev account : ServiceCredentials
account = record { mountpoint = codes "MP1"; password = codes "pw" }

saved_account : (save_service (flash ℕ) 0 (fresh 9) (codes "onocoy") account).1 ≡ true
unfolding save_service
saved_account = refl
