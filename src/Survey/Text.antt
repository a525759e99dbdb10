-- ===== src/Survey/Text.antt =====
-- The text helpers of main/survey.cpp: fields, checksums and integers.
use gps_base_station.Prelude.{
  ℕ, zero, suc, ◌+◌, ◌-◌, ◌*◌, min, ◌<◌, ◌≡◌, refl, List, [], ◌∷◌, Option, none, some, Bool, true,
  false, ◌||◌, ◌&&◌, leb, ◌==◌, if◌then◌else◌, length, arith, Option-cases, inl, inr,
}

-- `int`, over the native numbers.
pub data ℤ : Type 0 where
  pos negsuc : ℕ → ℤ

abbrev pub is_empty {ℓ} : {A : Type ℓ} → List A → Bool
is_empty [] = true
is_empty (x ∷ xs) = false

-- All up to the first `*`.
unfoldable pub without_checksum : List ℕ → List ℕ
without_checksum [] = []
without_checksum (c ∷ text) = let rest = without_checksum text in if c == 42 then [] else c ∷ rest

-- All up to the first comma, and what is behind it.
unfoldable pub first_field : List ℕ → List ℕ
first_field [] = []
first_field (c ∷ text) = let rest = first_field text in if c == 44 then [] else c ∷ rest

unfoldable pub behind_comma : List ℕ → Option (List ℕ)
behind_comma [] = none
behind_comma (c ∷ text) = let rest = behind_comma text in if c == 44 then some text else rest

unfoldable pub csv_field : List ℕ → ℕ → Option (List ℕ)
unfolding first_field behind_comma
csv_field value zero = some (first_field value)
csv_field value (suc index) = elim (behind_comma value) [
  | none ↦ none
  | some rest ↦ csv_field rest index
]

-- `atoi` of the C library: white space, a sign, and digits; it stops at the ends of `int`.
abbrev pub is_digit : ℕ → Bool
is_digit c = leb 48 c && leb c 57

abbrev pub is_space : ℕ → Bool
is_space c = c == 32 || (leb 9 c && leb c 13)

unfoldable pub digits_value : ℕ → List ℕ → ℕ
digits_value n [] = n
digits_value n (c ∷ text) =
    let rest = digits_value (n * 10 + (c - 48)) text in if is_digit c then rest else n

abbrev pub negate : ℕ → ℤ
negate zero = pos zero
negate (suc n) = negsuc n

unfoldable pub signed : List ℕ → ℤ
unfolding digits_value
signed [] = pos 0
signed (c ∷ text) =
    if c == 45
    then negate (min (digits_value 0 text) 2147483648)
    else if c == 43
    then pos (min (digits_value 0 text) 2147483647)
    else pos (min (digits_value 0 (c ∷ text)) 2147483647)

unfoldable pub atoi : List ℕ → ℤ
unfolding signed
atoi [] = pos 0
atoi (c ∷ text) = let rest = atoi text in if is_space c then rest else signed (c ∷ text)

-- A field of 16 characters or more is not read.
unfoldable pub parse_int : List ℕ → ℤ
unfolding without_checksum atoi
parse_int text =
    let t = without_checksum text in if is_empty t || leb 16 (length t) then pos 0 else atoi t

-- `std::clamp(n, 0, hi)`.
abbrev pub clamp_to : ℤ → ℕ → ℕ
clamp_to (pos n) hi = min n hi
clamp_to (negsuc n) hi = 0

behind_comma-length :
    (text rest : List ℕ) → behind_comma text ≡ some rest → length rest < length text
unfolding behind_comma
behind_comma-length [] rest e = absurd (ground arith)
behind_comma-length (c ∷ text) rest e = ground (arith, behind_comma-length text rest)

-- A text has no more fields than characters and one.
pub csv_field-end :
    (value : List ℕ) (index : ℕ) → length value < index → csv_field value index ≡ none
unfolding csv_field
csv_field-end value zero lt = absurd (omega arith)
csv_field-end value (suc index) lt = elim (Option-cases (behind_comma value)) [
  | inl e ↦ rw (e, csv_field) refl
  | inr (rest, e) ↦
      rw (e, csv_field) (csv_field-end rest index (omega (arith, behind_comma-length value rest e)))
]
