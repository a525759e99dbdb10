-- ===== src/Web/Dates.antt =====
-- The dates of main/web_server.cpp: `utc_to_unix`, the two readers of a date, and the choice of RINEX
-- files for an export.
use gps_base_station.Prelude.{
  ℕ, zero, suc, ◌+◌, ◌-◌, ◌*◌, ◌/◌, ◌%◌, ◌^◌, List, [], ◌∷◌, ◌++◌, Option, none, some, Bool, true,
  false, not, ◌&&◌, ◌||◌, ltb, leb, ◌==◌, if◌then◌else◌, get_elem?, codes, ◌>>=◌,
}
use gps_base_station.Survey.Text.{ℤ, pos, negsuc, negate, is_digit}
use gps_base_station.Web.Forms.{skip_spaces}

-- The C library's `sscanf`, for numbers of a width and characters that have to match.
pub data Directive : Type 0 where
  number literal : ℕ → Directive

unfoldable pub take_digits : ℕ → ℕ → List ℕ → ℕ × List ℕ
take_digits zero n text = (n, text)
take_digits (suc width) n [] = (n, [])
take_digits (suc width) n (c ∷ text) =
    let rest = take_digits width (n * 10 + (c - 48)) text in
    if is_digit c then rest else (n, c ∷ text)

abbrev pub with_sign : Bool → ℕ × List ℕ → ℤ × List ℕ
with_sign minus (n, rest) = (if minus then negate n else pos n, rest)

unfoldable pub scan_digits : Bool → ℕ → List ℕ → Option (ℤ × List ℕ)
unfolding take_digits
scan_digits minus width [] = none
scan_digits minus width (c ∷ text) =
    if is_digit c && ltb 0 width
    then some (with_sign minus (take_digits width 0 (c ∷ text)))
    else none

unfoldable pub scan_int : ℕ → List ℕ → Option (ℤ × List ℕ)
unfolding scan_digits
scan_int width [] = none
scan_int width (c ∷ text) =
    if c == 45
    then scan_digits true (width - 1) text
    else if c == 43
    then scan_digits false (width - 1) text
    else scan_digits false width (c ∷ text)

abbrev pub from_number : (List ℕ → List ℤ) → Option (ℤ × List ℕ) → List ℤ
from_number scan_on none = []
from_number scan_on (some (n, rest)) = n ∷ scan_on rest

-- The numbers read before the first directive that does not fit.
unfoldable pub sscanf : List Directive → List ℕ → List ℤ
unfolding scan_int skip_spaces
sscanf [] text = []
sscanf (number width ∷ ds) text =
    from_number (λ rest. sscanf ds rest) (scan_int width (skip_spaces text))
sscanf (literal c ∷ ds) [] = []
sscanf (literal c ∷ ds) (d ∷ text) = let rest = sscanf ds text in if c == d then rest else []

abbrev pub literals : List ℕ → List Directive → List Directive
literals [] ds = ds
literals (c ∷ text) ds = literal c ∷ literals text ds

abbrev pub moff : List ℕ
moff = 0 ∷ 31 ∷ 59 ∷ 90 ∷ 120 ∷ 151 ∷ 181 ∷ 212 ∷ 243 ∷ 273 ∷ 304 ∷ 334 ∷ []

abbrev pub is_leap : ℕ → Bool
is_leap y = y % 4 == 0 && (not (y % 100 == 0) || y % 400 == 0)

-- Days before the month, from a year past 1970 on. `offset` is `moff[Mo - 1]`.
unfoldable pub days_before : ℕ → ℕ → ℕ → ℕ
days_before y mo offset =
    (y - 1970) * 365
    + (if ltb 1970 y then (y - 1970 - 1) / 4 + 1 else 0)
    + offset
    + (if ltb 2 mo && is_leap y then 1 else 0)

abbrev pub above : ℤ → ℕ
above (pos n) = n
above (negsuc n) = 0

abbrev pub below : ℤ → ℕ
below (pos n) = 0
below (negsuc n) = n + 1

abbrev pub difference : ℕ → ℕ → ℤ
difference p n = if leb n p then pos (p - n) else negsuc (n - p - 1)

-- `long` has 32 bits on this processor: `none` where the sum leaves it, and where `moff` is read out of
-- bounds; C++ says nothing of either.
unfoldable pub utc_from : ℕ → Option ℕ → ℕ → ℤ → ℤ → ℤ → ℤ → Option ℤ
unfolding days_before
utc_from y none mo d h m s = none
utc_from y (some offset) mo d h m s =
    let plus =
      (days_before y mo offset + above d) * 86400 + above h * 3600 + above m * 60 + above s in
    let minus = (below d + 1) * 86400 + below h * 3600 + below m * 60 + below s in
    if ltb plus (minus + 2 ^ 31) then some (difference plus minus) else none

abbrev pub month_index : ℤ → Option ℕ
month_index (pos n) = if n == 0 then none else get_elem? moff (n - 1)
month_index (negsuc n) = none

-- The years that are asked for are 2020 or later.
unfoldable pub utc_to_unix : ℕ → ℤ → ℤ → ℤ → ℤ → ℤ → Option ℤ
unfolding utc_from
utc_to_unix y mo d h m s = utc_from y (month_index mo) (above mo) d h m s

abbrev pub any_width : ℕ
any_width = 2147483647

abbrev pub datetime_format : List Directive
datetime_format =
    number any_width
    ∷ literal 45
    ∷ number any_width
    ∷ literal 45
    ∷ number any_width
    ∷ literal 84
    ∷ number any_width
    ∷ literal 58
    ∷ number any_width
    ∷ literal 58
    ∷ number any_width
    ∷ []

abbrev pub in_range : ℤ → ℕ → ℕ → Bool
in_range (pos n) lo hi = leb lo n && leb n hi
in_range (negsuc n) lo hi = false

unfoldable pub checked_datetime : ℤ → ℤ → ℤ → ℤ → ℤ → ℤ → Option ℤ
unfolding utc_to_unix
checked_datetime y mo d h m s =
    if in_range y 2020 2099 && in_range mo 1 12 && in_range d 1 31
    then utc_to_unix (above y) mo d h m s
    else some (negsuc 0)

-- Five numbers are enough; the seconds are 0 then.
unfoldable pub datetime_of : List ℤ → Option ℤ
unfolding checked_datetime
datetime_of (y ∷ mo ∷ d ∷ h ∷ m ∷ []) = checked_datetime y mo d h m (pos 0)
datetime_of (y ∷ mo ∷ d ∷ h ∷ m ∷ s ∷ more) = checked_datetime y mo d h m s
datetime_of numbers = some (negsuc 0)

unfoldable pub parse_datetime_input : List ℕ → Option ℤ
unfolding datetime_of sscanf
parse_datetime_input text = datetime_of (sscanf datetime_format text)

abbrev pub filename_format : List Directive
filename_format = literals (codes "BASE_") (
    number 4
    ∷ number 2
    ∷ number 2
    ∷ literal 95
    ∷ number 2
    ∷ number 2
    ∷ number 2
    ∷ literals (codes ".rnx") [])

unfoldable pub filename_of : List ℤ → Option ℤ
unfolding utc_to_unix
filename_of (y ∷ mo ∷ d ∷ h ∷ m ∷ s ∷ []) =
    if in_range y 2020 9999 then utc_to_unix (above y) mo d h m s else some (negsuc 0)
filename_of numbers = some (negsuc 0)

unfoldable pub parse_rinex_filename_utc : List ℕ → Option ℤ
unfolding filename_of sscanf
parse_rinex_filename_utc name = filename_of (sscanf filename_format name)

-- The window of an hour, with two minutes on each side.
abbrev pub overlaps : ℕ → ℕ → ℕ → Bool
overlaps ft start end = ltb ft (end + 120) && ltb start (ft + (3600 + 120) + 120)

pub record DirEntry : Type 0 where
  pub regular : Bool
  pub name : List ℕ

abbrev pub Found : Type 0
Found = List (ℕ × List ℕ)

abbrev pub raw_path : List ℕ → List ℕ
raw_path name = codes "/sdcard/rawdata" ++ 47 ∷ name

abbrev pub add_found : ℕ → ℕ → List ℕ → ℤ → Found → Found
add_found start end name (negsuc n) found = found
add_found start end name (pos ft) found =
    if overlaps ft start end then (ft, raw_path name) ∷ found else found

unfoldable pub find_rinex : ℕ → ℕ → List DirEntry → Option Found
unfolding parse_rinex_filename_utc
find_rinex start end [] = some []
find_rinex start end (e ∷ entries) =
    let rest = find_rinex start end entries in
    if e.regular
    then (parse_rinex_filename_utc e.name >>= λ ft.
        rest >>= λ found. some (add_found start end e.name ft found))
    else rest

-- `<` on texts and on pairs.
unfoldable pub text_less : List ℕ → List ℕ → Bool
text_less t [] = false
text_less [] (d ∷ u) = true
text_less (c ∷ t) (d ∷ u) = ltb c d || (c == d && text_less t u)

unfoldable pub pair_less : ℕ × List ℕ → ℕ × List ℕ → Bool
unfolding text_less
pair_less (a, t) (b, u) = ltb a b || (a == b && text_less t u)

unfoldable pub put : ℕ × List ℕ → Found → Found
unfolding pair_less
put p [] = p ∷ []
put p (q ∷ found) = let rest = put p found in if pair_less q p then q ∷ rest else p ∷ q ∷ found

unfoldable pub sort : Found → Found
unfolding put
sort [] = []
sort (p ∷ found) = put p (sort found)

abbrev pub paths_of : Found → List (List ℕ)
paths_of [] = []
paths_of ((ft, path) ∷ found) = path ∷ paths_of found

-- `none` also where a name makes `utc_to_unix` read out of bounds.
unfoldable pub select_rinex_files : ℕ → ℕ → Option (List DirEntry) → Option (List (List ℕ))
unfolding find_rinex sort
select_rinex_files start end none = some []
select_rinex_files start end (some entries) =
    find_rinex start end entries >>= λ found. some (paths_of (sort found))
