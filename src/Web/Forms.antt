-- ===== src/Web/Forms.antt =====
-- `url_decode` and `form_value` of main/web_server.cpp, over lists of bytes.
use gps_base_station.Prelude.{
  ℕ, ◌+◌, ◌-◌, ◌*◌, ◌%◌, List, [], ◌∷◌, ◌++◌, Option, none, some, Bool, true, false, ◌&&◌, ◌||◌,
  leb, ◌==◌, if◌then◌else◌, length, drop, starts_with,
}
use gps_base_station.Storage.{c_str}
use gps_base_station.Survey.Text.{ℤ, pos, negsuc, negate, is_digit, is_space, is_empty}

-- `strtol(text, &end, 16)` on a text of a few characters: the number, and what is behind it.
unfoldable pub hex_digit : ℕ → Option ℕ
hex_digit c =
    if is_digit c
    then some (c - 48)
    else if leb 65 c && leb c 70
    then some (c - 55)
    else if leb 97 c && leb c 102
    then some (c - 87)
    else none

abbrev pub is_some {ℓ} : {A : Type ℓ} → Option A → Bool
is_some none = false
is_some (some a) = true

abbrev pub value_or_zero : Option ℕ → ℕ
value_or_zero none = 0
value_or_zero (some n) = n

unfoldable pub hex_run : ℕ → List ℕ → ℕ × List ℕ
unfolding hex_digit
hex_run n [] = (n, [])
hex_run n (c ∷ text) =
    let rest = hex_run (n * 16 + value_or_zero (hex_digit c)) text in
    if is_some (hex_digit c) then rest else (n, c ∷ text)

unfoldable pub without_0x : List ℕ → List ℕ
unfolding hex_digit
without_0x (z ∷ x ∷ d ∷ text) =
    if z == 48 && (x == 120 || x == 88) && is_some (hex_digit d) then d ∷ text else z ∷ x ∷ d ∷ text
without_0x text = text

-- `none` where no digit stands.
unfoldable pub hex_number : List ℕ → Option (ℕ × List ℕ)
unfolding hex_digit hex_run
hex_number [] = none
hex_number (c ∷ text) = if is_some (hex_digit c) then some (hex_run 0 (c ∷ text)) else none

abbrev pub signed_number : Bool → List ℕ → Option (ℕ × List ℕ) → ℤ × List ℕ
signed_number minus text none = (pos 0, text)
signed_number minus text (some (n, rest)) = (if minus then negate n else pos n, rest)

unfoldable pub hex_signed : List ℕ → List ℕ → ℤ × List ℕ
unfolding without_0x hex_number
hex_signed whole [] = (pos 0, whole)
hex_signed whole (c ∷ text) =
    if c == 45
    then signed_number true whole (hex_number (without_0x text))
    else if c == 43
    then signed_number false whole (hex_number (without_0x text))
    else signed_number false whole (hex_number (without_0x (c ∷ text)))

unfoldable pub skip_spaces : List ℕ → List ℕ
skip_spaces [] = []
skip_spaces (c ∷ text) = let rest = skip_spaces text in if is_space c then rest else c ∷ text

unfoldable pub strtol16 : List ℕ → ℤ × List ℕ
unfolding hex_signed skip_spaces
strtol16 text = hex_signed text (skip_spaces text)

-- A `long` cast to `char`.
abbrev pub low_byte : ℤ → ℕ
low_byte (pos n) = n % 256
low_byte (negsuc n) = 255 - n % 256

-- The two characters behind a `%`, if `strtol` reads them to their end.
unfoldable pub hex_pair : ℕ → ℕ → Option ℕ
unfolding strtol16 c_str
hex_pair a b =
    let r = strtol16 (c_str (a ∷ b ∷ [])) in if is_empty r.1 then some (low_byte r.0) else none

abbrev pub with_pair : List ℕ → List ℕ → Option ℕ → List ℕ
with_pair next behind none = next
with_pair next behind (some d) = d ∷ behind

abbrev pub plus_to_space : ℕ → ℕ
plus_to_space c = if c == 43 then 32 else c

-- A `%` that no number follows is dropped.
unfoldable pub url_decode : List ℕ → List ℕ
unfolding hex_pair
url_decode [] = []
url_decode (c ∷ []) = plus_to_space c ∷ []
url_decode (c ∷ a ∷ []) = plus_to_space c ∷ url_decode (a ∷ [])
url_decode (c ∷ a ∷ b ∷ rest) =
    let next = url_decode (a ∷ b ∷ rest) in
    let behind = url_decode rest in
    if c == 43
    then 32 ∷ next
    else if c == 37
    then with_pair next behind (hex_pair a b)
    else c ∷ next

-- All up to the first `&`.
unfoldable pub before_amp : List ℕ → List ℕ
before_amp [] = []
before_amp (c ∷ body) = let rest = before_amp body in if c == 38 then [] else c ∷ rest

-- The value behind the first field that starts with `prefix`; a field starts the body or stands
-- behind a `&`.
unfoldable pub raw_field : List ℕ → Bool → List ℕ → Option (List ℕ)
unfolding before_amp
raw_field prefix at_start [] = none
raw_field prefix at_start (c ∷ body) =
    let rest = raw_field prefix (c == 38) body in
    if at_start && starts_with (c ∷ body) prefix
    then some (before_amp (drop (length prefix) (c ∷ body)))
    else rest

abbrev pub decoded : Option (List ℕ) → List ℕ
decoded none = []
decoded (some raw) = url_decode raw

unfoldable pub form_value : List ℕ → List ℕ → List ℕ
unfolding raw_field url_decode
form_value body name = decoded (raw_field (name ++ 61 ∷ []) true body)
