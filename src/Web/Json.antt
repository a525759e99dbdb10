-- ===== src/Web/Json.antt =====
-- The JSON and HTML texts of main/web_server.cpp: `json_escape`, `html_escape`, `json_field`,
-- `json_string_array` and `query_param`.
use gps_base_station.Prelude.{
  ℕ, List, [], ◌∷◌, ◌++◌, Option, none, some, Bool, ◌||◌, ltb, leb, ◌==◌, ◌>>=◌, if◌then◌else◌,
  length, drop, codes, starts_with,
}
use gps_base_station.Storage.{c_str}
use gps_base_station.Survey.Text.{ℤ, pos, negsuc, is_empty}
use gps_base_station.Web.Forms.{strtol16, before_amp, decoded}

unfoldable pub html_escape : List ℕ → List ℕ
html_escape [] = []
html_escape (c ∷ value) =
    let rest = html_escape value in
    if c == 38
    then codes "&amp;" ++ rest
    else if c == 60
    then codes "&lt;" ++ rest
    else if c == 62
    then codes "&gt;" ++ rest
    else if c == 34
    then codes "&quot;" ++ rest
    else if c == 39
    then codes "&#39;" ++ rest
    else c ∷ rest

-- Control characters without a letter of their own are left out.
unfoldable pub escape_char : ℕ → List ℕ → List ℕ
escape_char c rest =
    if c == 34
    then 92 ∷ 34 ∷ rest
    else if c == 92
    then 92 ∷ 92 ∷ rest
    else if c == 8
    then 92 ∷ 98 ∷ rest
    else if c == 12
    then 92 ∷ 102 ∷ rest
    else if c == 10
    then 92 ∷ 110 ∷ rest
    else if c == 13
    then 92 ∷ 114 ∷ rest
    else if c == 9
    then 92 ∷ 116 ∷ rest
    else if leb 32 c
    then c ∷ rest
    else rest

unfoldable pub json_escape : List ℕ → List ℕ
unfolding escape_char
json_escape [] = []
json_escape (c ∷ value) = escape_char c (json_escape value)

-- What is behind the first occurrence of `part`.
unfoldable pub behind : List ℕ → List ℕ → Option (List ℕ)
behind part [] = if is_empty part then some [] else none
behind part (c ∷ body) =
    let rest = behind part body in
    if starts_with (c ∷ body) part then some (drop (length part) (c ∷ body)) else rest

-- All up to the next `"`, which has to be there.
unfoldable pub up_to_quote : List ℕ → Option (List ℕ)
up_to_quote [] = none
up_to_quote (c ∷ body) =
    let rest = up_to_quote body in if c == 34 then some [] else (rest >>= λ text. some (c ∷ text))

abbrev pub or_empty : Option (List ℕ) → List ℕ
or_empty none = []
or_empty (some text) = text

unfoldable pub json_field : List ℕ → List ℕ → List ℕ
unfolding behind up_to_quote
json_field body key =
    or_empty (behind (34 ∷ key ++ codes "\":\"") body >>= λ rest. up_to_quote rest)

-- `none` is a request without a query.
unfoldable pub query_param : Option (List ℕ) → List ℕ → List ℕ
unfolding behind before_amp
query_param none key = []
query_param (some query) key =
    decoded (behind (key ++ 61 ∷ []) query >>= λ rest. some (before_amp rest))

abbrev pub k_max_elems : ℕ
k_max_elems = 256

abbrev pub k_max_len : ℕ
k_max_len = 256

-- Where the reader of an array stands: at the head of its loop, behind a separator, or in an element.
pub data Mode : Type 0 where
  head skipping : Mode
  plain escaped : List ℕ → Mode
  unicode : List ℕ → List ℕ → Mode

pub data Next : Type 0 where
  go : Mode → List (List ℕ) → Next
  stop : Option (List (List ℕ)) → Next

abbrev pub is_separator : ℕ → Bool
is_separator c = c == 32 || c == 9 || c == 10 || c == 13 || c == 44

unfoldable pub between : ℕ → List (List ℕ) → Next
between c out =
    if is_separator c
    then go skipping out
    else if c == 93
    then stop (some out)
    else if c == 34
    then go (plain []) out
    else stop none

unfoldable pub push : ℕ → List ℕ → List (List ℕ) → Next
push c elem out =
    if ltb k_max_len (length (elem ++ c ∷ [])) then stop none else go (plain (elem ++ c ∷ [])) out

unfoldable pub close_elem : List ℕ → List (List ℕ) → Next
close_elem elem out =
    if ltb k_max_elems (length (out ++ elem ∷ [])) then stop none else go head (out ++ elem ∷ [])

unfoldable pub in_elem : ℕ → List ℕ → List (List ℕ) → Next
unfolding push close_elem
in_elem c elem out =
    if c == 34
    then close_elem elem out
    else if c == 92
    then go (escaped elem) out
    else if ltb c 32
    then stop none
    else push c elem out

unfoldable pub in_escape : ℕ → List ℕ → List (List ℕ) → Next
unfolding push
in_escape c elem out =
    if c == 34 || c == 92 || c == 47
    then push c elem out
    else if c == 98
    then push 8 elem out
    else if c == 102
    then push 12 elem out
    else if c == 110
    then push 10 elem out
    else if c == 114
    then push 13 elem out
    else if c == 116
    then push 9 elem out
    else if c == 117
    then go (unicode [] elem) out
    else stop none

-- All four characters have to be read, and give ASCII.
abbrev pub ascii_or_none : ℤ × List ℕ → Option ℕ
ascii_or_none (pos n, []) = if leb n 127 then some n else none
ascii_or_none (pos n, c ∷ rest) = none
ascii_or_none (negsuc n, rest) = none

abbrev pub push_or_stop : Option ℕ → List ℕ → List (List ℕ) → Next
push_or_stop none elem out = stop none
push_or_stop (some c) elem out = push c elem out

unfoldable pub in_unicode : ℕ → List ℕ → List ℕ → List (List ℕ) → Next
unfolding push strtol16 c_str
in_unicode c digits elem out =
    let hx = digits ++ c ∷ [] in
    if ltb (length hx) 4
    then go (unicode hx elem) out
    else if ltb (length (c_str hx)) 4
    then stop none
    else push_or_stop (ascii_or_none (strtol16 hx)) elem out

unfoldable pub step_char : Mode → ℕ → List (List ℕ) → Next
unfolding between in_elem in_escape in_unicode
step_char head c out = between c out
step_char skipping c out = between c out
step_char (plain elem) c out = in_elem c elem out
step_char (escaped elem) c out = in_escape c elem out
step_char (unicode digits elem) c out = in_unicode c digits elem out

-- At the end of the body only the head of the loop returns what was read.
abbrev pub at_end : Mode → List (List ℕ) → Option (List (List ℕ))
at_end head out = some out
at_end skipping out = none
at_end (plain elem) out = none
at_end (escaped elem) out = none
at_end (unicode digits elem) out = none

abbrev pub goes_on : (Mode → List (List ℕ) → Option (List (List ℕ))) → Next → Option (List (List ℕ))
goes_on scan_on (go mode out) = scan_on mode out
goes_on scan_on (stop result) = result

unfoldable pub scan_array : Mode → List (List ℕ) → List ℕ → Option (List (List ℕ))
unfolding step_char
scan_array mode out [] = at_end mode out
scan_array mode out (c ∷ body) = goes_on (λ m o. scan_array m o body) (step_char mode c out)

abbrev pub in_array : Option (List ℕ) → Option (List (List ℕ))
in_array none = none
in_array (some body) = scan_array head [] body

abbrev pub behind_key : Option (List ℕ) → Option (List (List ℕ))
behind_key none = some []
behind_key (some body) = in_array (behind (91 ∷ []) body)

-- `none` is a rejected array.
unfoldable pub json_string_array : List ℕ → List ℕ → Option (List (List ℕ))
unfolding scan_array behind
json_string_array body key = behind_key (behind (34 ∷ key ++ 34 ∷ []) body)
