-- ===== src/Web/Arrays.antt =====
-- `json_string_array` reads back what `json_escape` wrote, and keeps its limits (main/web_server.cpp).
use gps_base_station.Prelude.{
  ℕ, ◌+◌, ◌≤◌, ◌<◌, ◌≡◌, refl, sym, ap, ◌∙◌, subst, List, [], ◌∷◌, ◌++◌, some, true, false, ltb,
  ◌==◌, length, length-append, codes, append_assoc, append-nil, arith, inl, inr, Bool-cases, ==_iff,
}
use gps_base_station.Web.Json.{
  escape_char, json_escape, k_max_elems, head, plain, go, between, push, close_elem, in_elem,
  in_escape, step_char, scan_array, behind, json_string_array,
}

-- A body as the pages send it.
unfoldable pub more_items : List (List ℕ) → List ℕ
more_items [] = 93 ∷ 125 ∷ []
more_items (text ∷ texts) = 44 ∷ 34 ∷ (json_escape text ++ 34 ∷ more_items texts)

unfoldable pub array_items : List (List ℕ) → List ℕ
unfolding more_items
array_items [] = 93 ∷ 125 ∷ []
array_items (text ∷ texts) = 34 ∷ (json_escape text ++ 34 ∷ more_items texts)

abbrev pub AllPrintable : List ℕ → Type 0
AllPrintable [] = Unit {0}
AllPrintable (c ∷ text) = (32 ≤ c) × AllPrintable text

abbrev pub AllShort : List (List ℕ) → Type 0
AllShort [] = Unit {0}
AllShort (text ∷ texts) = (length text ≤ 256) × AllPrintable text × AllShort texts

push_lem :
    (c : ℕ) (elem : List ℕ) (out : List (List ℕ))
    → length elem < 256
    → push c elem out ≡ go (plain (elem ++ c ∷ [])) out
unfolding push
push_lem c elem out room = ground (arith, length-append elem (c ∷ []))

module _ (elem rest : List ℕ) (out : List (List ℕ)) (room : length elem < 256) where
  quote_lem :
      scan_array (plain elem) out (92 ∷ 34 ∷ rest) ≡ scan_array (plain (elem ++ 34 ∷ [])) out rest
  unfolding scan_array step_char in_elem in_escape
  quote_lem = rw (push_lem 34 elem out room) refl

  backslash_lem :
      scan_array (plain elem) out (92 ∷ 92 ∷ rest) ≡ scan_array (plain (elem ++ 92 ∷ [])) out rest
  unfolding scan_array step_char in_elem in_escape
  backslash_lem = rw (push_lem 92 elem out room) refl

  own_lem :
      (c : ℕ)
      → in_elem c elem out ≡ push c elem out
      → scan_array (plain elem) out (c ∷ rest) ≡ scan_array (plain (elem ++ c ∷ [])) out rest
  unfolding scan_array step_char
  own_lem c e = rw (e, push_lem c elem out room) refl

in_elem_own :
    (c : ℕ) (elem : List ℕ) (out : List (List ℕ))
    → 32 ≤ c
    → (c == 34) ≡ false
    → (c == 92) ≡ false
    → in_elem c elem out ≡ push c elem out
unfolding in_elem
in_elem_own c elem out printable p q = ground arith

escape_own :
    (c : ℕ) (rest : List ℕ)
    → 32 ≤ c
    → (c == 34) ≡ false
    → (c == 92) ≡ false
    → escape_char c rest ≡ c ∷ rest
unfolding escape_char
escape_own c rest printable p q = ground arith

escape_quote : (c : ℕ) (rest : List ℕ) → (c == 34) ≡ true → escape_char c rest ≡ 92 ∷ 34 ∷ rest
unfolding escape_char
escape_quote c rest p = rw p refl

escape_backslash :
    (c : ℕ) (rest : List ℕ)
    → (c == 34) ≡ false
    → (c == 92) ≡ true
    → escape_char c rest ≡ 92 ∷ 92 ∷ rest
unfolding escape_char
escape_backslash c rest p q = rw (p, q) refl

char_lem :
    (c : ℕ) (elem rest : List ℕ) (out : List (List ℕ))
    → 32 ≤ c
    → length elem < 256
    → scan_array (plain elem) out (escape_char c rest)
      ≡ scan_array (plain (elem ++ c ∷ [])) out rest
char_lem c elem rest out printable room = elim (Bool-cases (c == 34)) [
  | inl quote ↦
      ap (λ t. scan_array (plain elem) out t) (escape_quote c rest quote)
      ∙ subst
          (λ d.
            scan_array (plain elem) out (92 ∷ 34 ∷ rest)
            ≡ scan_array (plain (elem ++ d ∷ [])) out rest)
          (sym ((==_iff c 34).0 quote)) (quote_lem elem rest out room)
  | inr other ↦ elim (Bool-cases (c == 92)) [
    | inl backslash ↦
        ap (λ t. scan_array (plain elem) out t) (escape_backslash c rest other backslash)
        ∙ subst
            (λ d.
              scan_array (plain elem) out (92 ∷ 92 ∷ rest)
              ≡ scan_array (plain (elem ++ d ∷ [])) out rest)
            (sym ((==_iff c 92).0 backslash)) (backslash_lem elem rest out room)
    | inr own ↦
        ap (λ t. scan_array (plain elem) out t) (escape_own c rest printable other own)
        ∙ own_lem elem rest out room c (in_elem_own c elem out printable other own)
  ]
]

escape_char-append :
    (c : ℕ) (text rest : List ℕ) → escape_char c text ++ rest ≡ escape_char c (text ++ rest)
unfolding escape_char
escape_char-append c text rest = ground arith

text_lem :
    (text elem rest : List ℕ) (out : List (List ℕ))
    → AllPrintable text
    → length elem + length text ≤ 256
    → scan_array (plain elem) out (json_escape text ++ rest)
      ≡ scan_array (plain (elem ++ text)) out rest
unfolding json_escape
text_lem [] elem rest out printable short =
    ap (λ e. scan_array (plain e) out rest) (sym (append-nil elem))
text_lem (c ∷ text) elem rest out printable short =
    ap (λ t. scan_array (plain elem) out t) (escape_char-append c (json_escape text) rest)
    ∙ (char_lem c elem (json_escape text ++ rest) out printable.0 (omega arith)
        ∙ (text_lem text (elem ++ c ∷ []) rest out printable.1
              (omega (arith, length-append elem (c ∷ [])))
            ∙ ap (λ e. scan_array (plain e) out rest) (append_assoc elem (c ∷ []) text)))

close_lem :
    (elem rest : List ℕ) (out : List (List ℕ))
    → length out < 256
    → scan_array (plain elem) out (34 ∷ rest) ≡ scan_array head (out ++ elem ∷ []) rest
unfolding scan_array step_char in_elem close_elem
close_lem elem rest out room = rw (small) refl
  where
    small : ltb k_max_elems (length (out ++ elem ∷ [])) ≡ false
    small = ground (arith, length-append out (elem ∷ []))

-- An element and its quotation marks.
elem_lem :
    (text rest : List ℕ) (out : List (List ℕ))
    → AllPrintable text
    → length text ≤ 256
    → length out < 256
    → scan_array (plain []) out (json_escape text ++ 34 ∷ rest)
      ≡ scan_array head (out ++ text ∷ []) rest
elem_lem text rest out printable short room =
    text_lem text [] (34 ∷ rest) out printable (omega arith) ∙ close_lem text rest out room

separator_lem :
    (rest : List ℕ) (out : List (List ℕ))
    → scan_array head out (44 ∷ 34 ∷ rest) ≡ scan_array (plain []) out rest
unfolding scan_array step_char between
separator_lem rest out = refl

end_lem : (out : List (List ℕ)) → scan_array head out (93 ∷ 125 ∷ []) ≡ some out
unfolding scan_array step_char between
end_lem out = refl

more_lem :
    (texts : List (List ℕ)) (out : List (List ℕ))
    → AllShort texts
    → length out + length texts ≤ 256
    → scan_array head out (more_items texts) ≡ some (out ++ texts)
unfolding more_items
more_lem [] out short few = end_lem out ∙ ap some (sym (append-nil out))
more_lem (text ∷ texts) out short few =
    separator_lem (json_escape text ++ 34 ∷ more_items texts) out
    ∙ (elem_lem text (more_items texts) out short.1 short.0 (omega arith)
        ∙ (more_lem texts (out ++ text ∷ []) short.2 (omega (arith, length-append out (text ∷ [])))
            ∙ ap some (append_assoc out (text ∷ []) texts)))

open_lem : (rest : List ℕ) → scan_array head [] (34 ∷ rest) ≡ scan_array (plain []) [] rest
unfolding scan_array step_char between
open_lem rest = refl

items_lem :
    (texts : List (List ℕ))
    → AllShort texts
    → length texts ≤ 256
    → scan_array head [] (array_items texts) ≡ some texts
unfolding array_items
items_lem [] short few = end_lem []
items_lem (text ∷ texts) short few =
    open_lem (json_escape text ++ 34 ∷ more_items texts)
    ∙ (elem_lem text (more_items texts) [] short.1 short.0 (omega arith)
        ∙ more_lem texts (text ∷ []) short.2 (omega arith))

-- What a body `{"paths":[...]}` lists, each text with its special characters escaped by `json_escape`,
-- is read back: at most 256 texts of at most 256 bytes each, with no control characters.
pub json_string_array-json_escape :
    (texts : List (List ℕ))
    → AllShort texts
    → length texts ≤ 256
    → json_string_array (codes "{\"paths\":[" ++ array_items texts) (codes "paths") ≡ some texts
unfolding json_string_array behind
json_string_array-json_escape texts short few = items_lem texts short few
