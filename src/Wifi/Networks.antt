-- ===== src/Wifi/Networks.antt =====
-- `scan_networks` of main/wifi_manager.cpp: each network once, with its strongest signal, the strongest
-- first. `std::sort` says nothing of the order of equals.
use gps_base_station.Prelude.{
  ℕ, List, [], ◌∷◌, Option, none, some, Bool, true, false, not, ltb, if◌then◌else◌, take,
}
use gps_base_station.Nvs.{same}
use gps_base_station.Storage.{c_str}
use gps_base_station.Survey.Text.{ℤ, pos, negsuc, is_empty}

abbrev pub int_less : ℤ → ℤ → Bool
int_less (pos a) (pos b) = ltb a b
int_less (pos a) (negsuc b) = false
int_less (negsuc a) (pos b) = true
int_less (negsuc a) (negsuc b) = ltb b a

-- What the driver found.
pub record ApRecord : Type 0 where
  pub ssid : List ℕ
  pub rssi : ℤ
  pub is_open : Bool

pub record WifiNetwork : Type 0 where
  pub ssid : List ℕ
  pub rssi : ℤ
  pub secured : Bool

abbrev pub network_of : ApRecord → WifiNetwork
network_of r = record { ssid = c_str r.ssid; rssi = r.rssi; secured = not r.is_open }

abbrev pub stronger : ApRecord → WifiNetwork → WifiNetwork
stronger r n =
    if int_less n.rssi r.rssi then record n { rssi = r.rssi; secured = not r.is_open } else n

unfoldable pub add_named : ApRecord → List WifiNetwork → List WifiNetwork
add_named r [] = network_of r ∷ []
add_named r (n ∷ networks) =
    let rest = add_named r networks in
    if same n.ssid (c_str r.ssid) then stronger r n ∷ networks else n ∷ rest

-- Networks that hide their name are left out.
unfoldable pub add_network : List WifiNetwork → ApRecord → List WifiNetwork
unfolding add_named
add_network networks r = if is_empty (c_str r.ssid) then networks else add_named r networks

unfoldable pub add_all : List WifiNetwork → List ApRecord → List WifiNetwork
unfolding add_network
add_all networks [] = networks
add_all networks (r ∷ records) = add_all (add_network networks r) records

unfoldable pub put_network : WifiNetwork → List WifiNetwork → List WifiNetwork
put_network n [] = n ∷ []
put_network n (m ∷ networks) =
    let rest = put_network n networks in
    if int_less n.rssi m.rssi then m ∷ rest else n ∷ m ∷ networks

unfoldable pub sort_networks : List WifiNetwork → List WifiNetwork
unfolding put_network
sort_networks [] = []
sort_networks (n ∷ networks) = put_network n (sort_networks networks)

-- `none`: a call of the driver fails.
unfoldable pub scan_networks : Option (List ApRecord) → List WifiNetwork
unfolding add_all sort_networks
scan_networks none = []
scan_networks (some records) = sort_networks (add_all [] (take 24 records))
