-- ===== src/Wifi/Scan.antt =====
-- What the list of networks of main/wifi_manager.cpp shows.
use gps_base_station.Prelude.{
  ℕ, ◌≡◌, refl, sym, subst, inl, inr, List, [], ◌∷◌, some, true, false, take, if_cases,
}
use gps_base_station.Nvs.{same, same_self}
use gps_base_station.Storage.{c_str}
use gps_base_station.Survey.Text.{is_empty}
use gps_base_station.Wifi.Networks.{
  int_less, ApRecord, WifiNetwork, stronger, add_named, add_network, add_all, sort_networks,
  scan_networks,
}
use gps_base_station.Wifi.Sorted.{
  Shows, AllShown, Lacks, Distinct, Falling, int_less_self, int_less_trans, int_less_flip,
  sort-Shows, same_sym, sort-Distinct, sort-Falling,
}

stronger_name : (r : ApRecord) (n : WifiNetwork) → (stronger r n).ssid ≡ n.ssid
stronger_name r n =
    if_cases (λ (m : WifiNetwork). m.ssid ≡ n.ssid) (int_less n.rssi r.rssi) _ _ (λ e. refl)
      (λ e. refl)

stronger-own : (r : ApRecord) (n : WifiNetwork) → int_less (stronger r n).rssi r.rssi ≡ false
stronger-own r n =
    if_cases (λ (m : WifiNetwork). int_less m.rssi r.rssi ≡ false) (int_less n.rssi r.rssi) _ _
      (λ e. int_less_self r.rssi) (λ e. e)

stronger-keeps :
    (r q : ApRecord) (n : WifiNetwork)
    → int_less n.rssi q.rssi ≡ false
    → int_less (stronger r n).rssi q.rssi ≡ false
stronger-keeps r q n le =
    if_cases (λ (m : WifiNetwork). int_less m.rssi q.rssi ≡ false) (int_less n.rssi r.rssi) _ _
      (λ e. int_less_trans r.rssi n.rssi q.rssi (int_less_flip n.rssi r.rssi e) le) (λ e. le)

add_named-own : (r : ApRecord) (networks : List WifiNetwork) → Shows r (add_named r networks)
unfolding add_named
add_named-own r [] = inl (same_self (c_str r.ssid), int_less_self r.rssi)
add_named-own r (n ∷ networks) =
    if_cases (Shows r) (same n.ssid (c_str r.ssid)) _ _
      (λ own.
        inl (
          subst (λ s. same s (c_str r.ssid) ≡ true) (sym (stronger_name r n)) own,
          stronger-own r n,
        ))
      (λ other. inr (add_named-own r networks))

add_named-keeps :
    (r q : ApRecord) (networks : List WifiNetwork)
    → Shows q networks
    → Shows q (add_named r networks)
unfolding add_named
add_named-keeps r q [] s = elim s [ ]
add_named-keeps r q (n ∷ networks) (inl own) =
    if_cases (Shows q) (same n.ssid (c_str r.ssid)) _ _
      (λ e. inl (
        subst (λ s. same s (c_str q.ssid) ≡ true) (sym (stronger_name r n)) own.0,
        stronger-keeps r q n own.1,
      ))
      (λ e. inl own)
add_named-keeps r q (n ∷ networks) (inr rest) =
    if_cases (Shows q) (same n.ssid (c_str r.ssid)) _ _ (λ e. inr rest)
      (λ e. inr (add_named-keeps r q networks rest))

add_named-Lacks :
    (name : List ℕ) (r : ApRecord) (networks : List WifiNetwork)
    → same (c_str r.ssid) name ≡ false
    → Lacks name networks
    → Lacks name (add_named r networks)
unfolding add_named
add_named-Lacks name r [] other l = (other, tt)
add_named-Lacks name r (n ∷ networks) other l =
    if_cases (Lacks name) (same n.ssid (c_str r.ssid)) _ _
      (λ e. (subst (λ s. same s name ≡ false) (sym (stronger_name r n)) l.0, l.1))
      (λ e. (l.0, add_named-Lacks name r networks other l.1))

add_named-Distinct :
    (r : ApRecord) (networks : List WifiNetwork)
    → Distinct networks
    → Distinct (add_named r networks)
unfolding add_named
add_named-Distinct r [] d = (tt, tt)
add_named-Distinct r (n ∷ networks) d =
    if_cases Distinct (same n.ssid (c_str r.ssid)) _ _
      (λ e. (subst (λ s. Lacks s networks) (sym (stronger_name r n)) d.0, d.1))
      (λ e. (
        add_named-Lacks n.ssid r networks (same_sym n.ssid (c_str r.ssid) e) d.0,
        add_named-Distinct r networks d.1,
      ))

add_all-Distinct :
    (records : List ApRecord) (networks : List WifiNetwork)
    → Distinct networks
    → Distinct (add_all networks records)
unfolding add_all add_network
add_all-Distinct [] networks d = d
add_all-Distinct (r ∷ records) networks d = add_all-Distinct records (add_network networks r) (
    if_cases Distinct (is_empty (c_str r.ssid)) _ _ (λ e. d) (λ e. add_named-Distinct r networks d))

add_all-keeps :
    (q : ApRecord) (records : List ApRecord) (networks : List WifiNetwork)
    → Shows q networks
    → Shows q (add_all networks records)
unfolding add_all add_network
add_all-keeps q [] networks s = s
add_all-keeps q (r ∷ records) networks s = add_all-keeps q records (add_network networks r) (
    if_cases (Shows q) (is_empty (c_str r.ssid)) _ _ (λ e. s) (λ e. add_named-keeps r q networks s))

add_all-shown :
    (records : List ApRecord) (networks : List WifiNetwork)
    → AllShown records (sort_networks (add_all networks records))
unfolding add_all add_network
add_all-shown [] networks = tt
add_all-shown (r ∷ records) networks = (
  λ named. sort-Shows r (add_all (add_network networks r) records) (
      add_all-keeps r records (add_network networks r) (
        if_cases (Shows r) (is_empty (c_str r.ssid)) _ _ (λ e. absurd (cc (named, e)))
          (λ e. add_named-own r networks))),
  add_all-shown records (add_network networks r),
)

-- The list of networks shows each of the first 24 records that has a name, with no weaker a signal than
-- the record's; no two of its networks have the same name, and none is stronger than the one before it.
pub scan_networks_lem :
    (records : List ApRecord)
    → AllShown (take 24 records) (scan_networks (some records))
      × Distinct (scan_networks (some records))
      × Falling (scan_networks (some records))
unfolding scan_networks
scan_networks_lem records = (
  add_all-shown (take 24 records) [],
  sort-Distinct (add_all [] (take 24 records)) (add_all-Distinct (take 24 records) [] tt),
  sort-Falling (add_all [] (take 24 records)),
)
