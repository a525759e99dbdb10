-- ===== src/Web/Names.antt =====
-- The names that the RINEX logger gives to its files (main/rinex_logger.cpp), read by
-- `parse_rinex_filename_utc` of main/web_server.cpp.
use gps_base_station.Prelude.{
  ℕ, ◌+◌, ◌-◌, ◌*◌, ◌/◌, ◌%◌, ◌≤◌, ◌<◌, ◌≡◌, refl, ap, subst, ◌∙◌, List, [], ◌∷◌, ◌++◌, Option,
  some, true, false, ◌==◌, codes, digits, arith, passes, passes_lem,
}
use gps_base_station.Nvs.{same}
use gps_base_station.Survey.Text.{ℤ, pos, is_digit, is_space}
use gps_base_station.Rinex.Names.{padded, file_name}
use gps_base_station.Web.Forms.{skip_spaces}
use gps_base_station.Web.Dates.{
  Directive, number, literals, from_number, utc_to_unix, literal, take_digits, scan_digits,
  scan_int, sscanf, filename_format, filename_of, parse_rinex_filename_utc,
}
use gps_base_station.Web.Calendar.{civil_seconds, extra_day, utc_to_unix-civil}

eq-of-same : (p q : List ℕ) → same p q ≡ true → p ≡ q
eq-of-same [] [] e = refl
eq-of-same [] (y ∷ q) e = absurd (ground arith)
eq-of-same (x ∷ p) [] e = absurd (ground arith)
eq-of-same (x ∷ p) (y ∷ q) e = ground (arith, eq-of-same p q)

abbrev two : ℕ → List ℕ
two n = (48 + n / 10) ∷ (48 + n % 10) ∷ []

two_table : passes (λ n. same (padded 2 n) (two n)) 100 ≡ true
unfolding passes padded digits
two_table = refl

padded-two : (n : ℕ) → n < 100 → padded 2 n ≡ two n
padded-two n lt =
    eq-of-same (padded 2 n) (two n) (passes_lem (λ n. same (padded 2 n) (two n)) 100 n lt two_table)

abbrev four : ℕ → List ℕ
four y = 50 ∷ 48 ∷ two y

four_table : passes (λ n. same (padded 4 (2000 + n)) (four n)) 100 ≡ true
unfolding passes padded digits
four_table = refl

-- What the scanner asks of a digit.
record IsNumeral (c : ℕ) : Type 0 where
  space : is_space c ≡ false
  minus : (c == 45) ≡ false
  plus : (c == 43) ≡ false
  digit : is_digit c ≡ true

numeral : (a : ℕ) → a < 10 → IsNumeral (48 + a)
numeral a lt = record {
  space = ground arith;
  minus = ground arith;
  plus = ground arith;
  digit = ground arith;
}

padded-four : (n : ℕ) → n < 100 → padded 4 (2000 + n) ≡ four n
padded-four n lt =
    eq-of-same (padded 4 (2000 + n)) (four n)
      (passes_lem (λ n. same (padded 4 (2000 + n)) (four n)) 100 n lt four_table)

scan_two :
    (n : ℕ) (rest : List ℕ)
    → n < 100
    → scan_int 2 (skip_spaces (two n ++ rest)) ≡ some (pos n, rest)
unfolding scan_int scan_digits skip_spaces
scan_two n rest lt =
    let p = numeral (n / 10) (omega arith) in
    let q = numeral (n % 10) (omega arith) in
    rw (p.space, p.minus, p.plus, p.digit, q.digit)
      (ap (λ (k : ℕ). some (pos k, rest)) (omega arith))

scan_four :
    (n : ℕ) (rest : List ℕ)
    → n < 100
    → scan_int 4 (skip_spaces (four n ++ rest)) ≡ some (pos (2000 + n), rest)
unfolding scan_int scan_digits skip_spaces take_digits
scan_four n rest lt =
    let p = numeral (n / 10) (omega arith) in
    let q = numeral (n % 10) (omega arith) in
    rw (p.digit, q.digit) (ap (λ (k : ℕ). some (pos k, rest)) (omega arith))

sscanf_two :
    (ds : List Directive) (n : ℕ) (rest : List ℕ)
    → n < 100
    → sscanf (number 2 ∷ ds) (padded 2 n ++ rest) ≡ pos n ∷ sscanf ds rest
unfolding sscanf
sscanf_two ds n rest lt =
    rw (padded-two n lt) (ap (from_number (λ r. sscanf ds r)) (scan_two n rest lt))

sscanf_four :
    (ds : List Directive) (n : ℕ) (rest : List ℕ)
    → n < 100
    → sscanf (number 4 ∷ ds) (padded 4 (2000 + n) ++ rest) ≡ pos (2000 + n) ∷ sscanf ds rest
unfolding sscanf
sscanf_four ds n rest lt =
    rw (padded-four n lt) (ap (from_number (λ r. sscanf ds r)) (scan_four n rest lt))

read_base :
    (ds : List Directive) (text : List ℕ)
    → sscanf (literals (codes "BASE_") ds) (codes "BASE_" ++ text) ≡ sscanf ds text
unfolding sscanf
read_base ds text = refl

read_low_line :
    (ds : List Directive) (text : List ℕ) → sscanf (literal 95 ∷ ds) (95 ∷ text) ≡ sscanf ds text
unfolding sscanf
read_low_line ds text = refl

read_end : sscanf (literals (codes ".rnx") []) (codes ".rnx") ≡ []
unfolding sscanf
read_end = refl

abbrev ending : List Directive
ending = literals (codes ".rnx") []

read_time :
    (h m s : ℕ)
    → h < 100
    → m < 100
    → s < 100
    → sscanf
        (number 2 ∷ number 2 ∷ number 2 ∷ ending)
        (padded 2 h ++ (padded 2 m ++ (padded 2 s ++ codes ".rnx")))
      ≡ pos h ∷ pos m ∷ pos s ∷ []
read_time h m s ph pm ps =
    sscanf_two (number 2 ∷ number 2 ∷ ending) h (padded 2 m ++ (padded 2 s ++ codes ".rnx")) ph
    ∙ ap (λ (l : List ℤ). pos h ∷ l)
        (sscanf_two (number 2 ∷ ending) m (padded 2 s ++ codes ".rnx") pm
          ∙ ap (λ (l : List ℤ). pos m ∷ l)
              (sscanf_two ending s (codes ".rnx") ps ∙ ap (λ (l : List ℤ). pos s ∷ l) read_end))

read_date :
    (n mo d : ℕ) (ds : List Directive) (text : List ℕ)
    → n < 100
    → mo < 100
    → d < 100
    → sscanf
        (number 4 ∷ number 2 ∷ number 2 ∷ literal 95 ∷ ds)
        (padded 4 (2000 + n) ++ (padded 2 mo ++ (padded 2 d ++ 95 ∷ text)))
      ≡ pos (2000 + n) ∷ pos mo ∷ pos d ∷ sscanf ds text
read_date n mo d ds text pn pmo pd =
    sscanf_four (number 2 ∷ number 2 ∷ literal 95 ∷ ds) n (padded 2 mo ++ (padded 2 d ++ 95 ∷ text))
      pn
    ∙ ap (λ (l : List ℤ). pos (2000 + n) ∷ l)
        (sscanf_two (number 2 ∷ literal 95 ∷ ds) mo (padded 2 d ++ 95 ∷ text) pmo
          ∙ ap (λ (l : List ℤ). pos mo ∷ l)
              (sscanf_two (literal 95 ∷ ds) d (95 ∷ text) pd
                ∙ ap (λ (l : List ℤ). pos d ∷ l) (read_low_line ds text)))

file_name_read :
    (n mo d h m s : ℕ)
    → n < 100
    → mo < 100
    → d < 100
    → h < 100
    → m < 100
    → s < 100
    → sscanf filename_format (file_name (2000 + n) mo d h m s)
      ≡ pos (2000 + n) ∷ pos mo ∷ pos d ∷ pos h ∷ pos m ∷ pos s ∷ []
unfolding file_name
file_name_read n mo d h m s py pmo pd ph pm ps =
    let time = padded 2 h ++ (padded 2 m ++ (padded 2 s ++ codes ".rnx")) in
    let ds = number 2 ∷ number 2 ∷ number 2 ∷ ending in
    read_base (number 4 ∷ number 2 ∷ number 2 ∷ literal 95 ∷ ds)
      (padded 4 (2000 + n) ++ (padded 2 mo ++ (padded 2 d ++ 95 ∷ time)))
    ∙ read_date n mo d ds time py pmo pd
    ∙ ap (λ (l : List ℤ). pos (2000 + n) ∷ pos mo ∷ pos d ∷ l) (read_time h m s ph pm ps)

add_back : {y : ℕ} → 2020 ≤ y → 2000 + (y - 2000) ≡ y
add_back from = omega arith

-- A year of this century passes the test of `parse_rinex_filename_utc`.
at_year :
    (n mo d h m s : ℕ) {time : Option ℤ}
    → 20 ≤ n
    → n < 100
    → utc_to_unix (2000 + n) (pos mo) (pos d) (pos h) (pos m) (pos s) ≡ time
    → filename_of (pos (2000 + n) ∷ pos mo ∷ pos d ∷ pos h ∷ pos m ∷ pos s ∷ []) ≡ time
unfolding filename_of
at_year n mo d h m s from to e = ground arith

-- The name that is printed for the fields of a date from 2020 to 2037 is read as the seconds of that date,
-- and a day more in a leap year and in the year before a leap year.
pub parse_rinex_filename_utc-file_name :
    (y mo d h m s : ℕ)
    → 2020 ≤ y
    → y < 2038
    → 1 ≤ mo
    → mo ≤ 12
    → 1 ≤ d
    → d ≤ 31
    → h < 24
    → m < 60
    → s < 60
    → parse_rinex_filename_utc (file_name y mo d h m s)
      ≡ some (pos (civil_seconds y mo d h m s + 86400 * extra_day y))
unfolding parse_rinex_filename_utc filename_of
parse_rinex_filename_utc-file_name y mo d h m s from to mo1 mo12 d1 d31 h24 m60 s60 =
    let n = y - 2000 in
    subst
      (λ (z : ℕ).
        filename_of (sscanf filename_format (file_name z mo d h m s))
        ≡ some (pos (civil_seconds z mo d h m s + 86400 * extra_day z)))
      (add_back from)
      (ap filename_of (
          file_name_read n mo d h m s (omega arith) (omega arith) (omega arith) (omega arith)
            (omega arith) (omega arith))
        ∙ at_year n mo d h m s (omega arith) (omega arith) (
            utc_to_unix-civil (2000 + n) mo d h m s (omega arith) (omega arith) mo1 mo12 d1 d31 h24
              m60 s60))
