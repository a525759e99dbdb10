-- ===== src/Wifi/Sorted.antt =====
-- What sorting keeps of the list of networks of main/wifi_manager.cpp.
use gps_base_station.Prelude.{
  ℕ, ◌≡◌, refl, ◌⊎◌, inl, inr, List, [], ◌∷◌, true, false, arith, Bool-cases, if_cases,
}
use gps_base_station.Nvs.{same}
use gps_base_station.Storage.{c_str}
use gps_base_station.Survey.Text.{ℤ, pos, negsuc, is_empty}
use gps_base_station.Wifi.Networks.{int_less, ApRecord, WifiNetwork, put_network, sort_networks}

-- The network is in the list, at least as strong as the record.
abbrev pub Shows : ApRecord → List WifiNetwork → Type 0
Shows r [] = ⊥
Shows r (n ∷ networks) =
    ((same n.ssid (c_str r.ssid) ≡ true) × (int_less n.rssi r.rssi ≡ false)) ⊎ Shows r networks

abbrev pub AllShown : List ApRecord → List WifiNetwork → Type 0
AllShown [] networks = Unit {0}
AllShown (r ∷ records) networks =
    (is_empty (c_str r.ssid) ≡ false → Shows r networks) × AllShown records networks

abbrev pub Lacks : List ℕ → List WifiNetwork → Type 0
Lacks name [] = Unit {0}
Lacks name (n ∷ networks) = (same n.ssid name ≡ false) × Lacks name networks

abbrev pub Distinct : List WifiNetwork → Type 0
Distinct [] = Unit {0}
Distinct (n ∷ networks) = Lacks n.ssid networks × Distinct networks

-- No network is stronger than the one before it.
abbrev pub Below : WifiNetwork → List WifiNetwork → Type 0
Below n [] = Unit {0}
Below n (m ∷ networks) = int_less n.rssi m.rssi ≡ false

abbrev pub Falling : List WifiNetwork → Type 0
Falling [] = Unit {0}
Falling (n ∷ networks) = Below n networks × Falling networks

pub int_less_self : (a : ℤ) → int_less a a ≡ false
int_less_self (pos a) = ground arith
int_less_self (negsuc a) = ground arith

pub int_less_trans :
    (a b c : ℤ) → int_less a b ≡ false → int_less b c ≡ false → int_less a c ≡ false
int_less_trans (pos a) (pos b) (pos c) p q = ground arith
int_less_trans (pos a) (pos b) (negsuc c) p q = refl
int_less_trans (pos a) (negsuc b) (pos c) p q = ground arith
int_less_trans (pos a) (negsuc b) (negsuc c) p q = refl
int_less_trans (negsuc a) (pos b) (pos c) p q = ground arith
int_less_trans (negsuc a) (pos b) (negsuc c) p q = ground arith
int_less_trans (negsuc a) (negsuc b) (pos c) p q = ground arith
int_less_trans (negsuc a) (negsuc b) (negsuc c) p q = ground arith

pub int_less_flip : (a b : ℤ) → int_less a b ≡ true → int_less b a ≡ false
int_less_flip (pos a) (pos b) p = ground arith
int_less_flip (pos a) (negsuc b) p = ground arith
int_less_flip (negsuc a) (pos b) p = ground arith
int_less_flip (negsuc a) (negsuc b) p = ground arith

-- Sorting keeps what is shown, and that the names differ.
put-Shows :
    (r : ApRecord) (n : WifiNetwork) (networks : List WifiNetwork)
    → Shows r (n ∷ networks)
    → Shows r (put_network n networks)
unfolding put_network
put-Shows r n [] s = s
put-Shows r n (m ∷ networks) s = elim (Bool-cases (int_less n.rssi m.rssi)) [
  | inr first ↦ rw first s
  | inl later ↦ rw later (elim s [
    | inl own ↦ inr (put-Shows r n networks (inl own))
    | inr (inl head_) ↦ inl head_
    | inr (inr rest) ↦ inr (put-Shows r n networks (inr rest))
  ])
]

pub sort-Shows :
    (r : ApRecord) (networks : List WifiNetwork)
    → Shows r networks
    → Shows r (sort_networks networks)
unfolding sort_networks
sort-Shows r [] s = s
sort-Shows r (n ∷ networks) (inl own) = put-Shows r n (sort_networks networks) (inl own)
sort-Shows r (n ∷ networks) (inr rest) =
    put-Shows r n (sort_networks networks) (inr (sort-Shows r networks rest))

pub same_sym : (p q : List ℕ) → same p q ≡ false → same q p ≡ false
same_sym [] [] h = h
same_sym [] (d ∷ q) h = refl
same_sym (c ∷ p) [] h = refl
same_sym (c ∷ p) (d ∷ q) h = ground (arith, same_sym p q)

put-Lacks :
    (name : List ℕ) (n : WifiNetwork) (networks : List WifiNetwork)
    → same n.ssid name ≡ false
    → Lacks name networks
    → Lacks name (put_network n networks)
unfolding put_network
put-Lacks name n [] other l = (other, tt)
put-Lacks name n (m ∷ networks) other l =
    if_cases (Lacks name) (int_less n.rssi m.rssi) _ _
      (λ later. (l.0, put-Lacks name n networks other l.1)) (λ first. (other, l))

put-Distinct :
    (n : WifiNetwork) (networks : List WifiNetwork)
    → Lacks n.ssid networks
    → Distinct networks
    → Distinct (put_network n networks)
unfolding put_network
put-Distinct n [] l d = (tt, tt)
put-Distinct n (m ∷ networks) l d =
    if_cases Distinct (int_less n.rssi m.rssi) _ _
      (λ later. (
        put-Lacks m.ssid n networks (same_sym m.ssid n.ssid l.0) d.0,
        put-Distinct n networks l.1 d.1,
      ))
      (λ first. (l, d))

sort-Lacks :
    (name : List ℕ) (networks : List WifiNetwork)
    → Lacks name networks
    → Lacks name (sort_networks networks)
unfolding sort_networks
sort-Lacks name [] l = l
sort-Lacks name (n ∷ networks) l =
    put-Lacks name n (sort_networks networks) l.0 (sort-Lacks name networks l.1)

pub sort-Distinct :
    (networks : List WifiNetwork) → Distinct networks → Distinct (sort_networks networks)
unfolding sort_networks
sort-Distinct [] d = d
sort-Distinct (n ∷ networks) d =
    put-Distinct n (sort_networks networks) (sort-Lacks n.ssid networks d.0)
      (sort-Distinct networks d.1)

put-Below :
    (m n : WifiNetwork) (networks : List WifiNetwork)
    → int_less m.rssi n.rssi ≡ false
    → Below m networks
    → Below m (put_network n networks)
unfolding put_network
put-Below m n [] le b = le
put-Below m n (k ∷ networks) le b =
    if_cases (Below m) (int_less n.rssi k.rssi) _ _ (λ later. b) (λ first. le)

put-Falling :
    (n : WifiNetwork) (networks : List WifiNetwork)
    → Falling networks
    → Falling (put_network n networks)
unfolding put_network
put-Falling n [] f = (tt, tt)
put-Falling n (k ∷ networks) f =
    if_cases Falling (int_less n.rssi k.rssi) _ _
      (λ later. (
        put-Below k n networks (int_less_flip n.rssi k.rssi later) f.0,
        put-Falling n networks f.1,
      ))
      (λ first. (first, f))

pub sort-Falling : (networks : List WifiNetwork) → Falling (sort_networks networks)
unfolding sort_networks
sort-Falling [] = tt
sort-Falling (n ∷ networks) = put-Falling n (sort_networks networks) (sort-Falling networks)
