-- ===== src/Web/Fields.antt =====
-- A form that a browser encodes, as the HTML standard says it does, is read back.
use gps_base_station.Prelude.{
  ℕ, ◌+◌, ◌/◌, ◌%◌, ◌<◌, ◌≡◌, refl, ap, subst, ◌∙◌, ◌≢◌, List, [], ◌∷◌, ◌++◌, Option, none, some,
  Bool, true, false, ◌&&◌, ◌||◌, ltb, leb, ◌==◌, if◌then◌else◌, length, drop, starts_with, arith,
  inl, inr, Bool-cases, passes, passes_lem, AllBytes, append_assoc, ==_iff,
}
use gps_base_station.Nvs.{same}
use gps_base_station.Web.Forms.{hex_pair, url_decode, before_amp, raw_field, form_value}

abbrev pub unreserved : ℕ → Bool
unreserved c =
    (leb 48 c && leb c 57)
    || (leb 65 c && leb c 90)
    || (leb 97 c && leb c 122)
    || c == 42
    || c == 45
    || c == 46
    || c == 95

abbrev pub hex_char : ℕ → ℕ
hex_char d = if ltb d 10 then 48 + d else 55 + d

-- Three characters for a byte that is not its own.
unfoldable pub encode_byte : ℕ → List ℕ → List ℕ
encode_byte c rest =
    if unreserved c
    then c ∷ rest
    else if c == 32
    then 43 ∷ rest
    else 37 ∷ hex_char (c / 16) ∷ hex_char (c % 16) ∷ rest

unfoldable pub url_encode : List ℕ → List ℕ
unfolding encode_byte
url_encode [] = []
url_encode (c ∷ text) = encode_byte c (url_encode text)

unfoldable pub url_form : List (List ℕ × List ℕ) → List ℕ
unfolding url_encode
url_form [] = []
url_form ((name, value) ∷ []) = name ++ 61 ∷ url_encode value
url_form ((name, value) ∷ field ∷ fields) =
    name ++ 61 ∷ (url_encode value ++ 38 ∷ url_form (field ∷ fields))

-- No `&` and no `=` in a name.
abbrev pub IsPlain : List ℕ → Type 0
IsPlain [] = Unit {0}
IsPlain (c ∷ name) = (c ≢ 38) × (c ≢ 61) × IsPlain name

abbrev pub AllPlain : List (List ℕ × List ℕ) → Type 0
AllPlain [] = Unit {0}
AllPlain ((name, value) ∷ fields) = IsPlain name × AllBytes value × AllPlain fields

unfoldable pub first_value : List ℕ → List (List ℕ × List ℕ) → List ℕ
first_value name [] = []
first_value name ((n, value) ∷ fields) = if same n name then value else first_value name fields

plain_lem : (c : ℕ) (rest : List ℕ) → c ≢ 43 → c ≢ 37 → url_decode (c ∷ rest) ≡ c ∷ url_decode rest
unfolding url_decode
plain_lem c [] p q = ground arith
plain_lem c (a ∷ []) p q = ground arith
plain_lem c (a ∷ b ∷ rest) p q = ground arith

plus_lem : (rest : List ℕ) → url_decode (43 ∷ rest) ≡ 32 ∷ url_decode rest
unfolding url_decode
plus_lem [] = refl
plus_lem (a ∷ []) = refl
plus_lem (a ∷ b ∷ rest) = refl

is_pair : Option ℕ → ℕ → Bool
is_pair none c = false
is_pair (some d) c = d == c

pair_table : passes (λ c. is_pair (hex_pair (hex_char (c / 16)) (hex_char (c % 16))) c) 256 ≡ true
unfolding passes is_pair hex_pair
pair_table = refl

is_pair_lem : (o : Option ℕ) (c : ℕ) → is_pair o c ≡ true → o ≡ some c
unfolding is_pair
is_pair_lem none c h = absurd (ground arith)
is_pair_lem (some d) c h = ap some ((==_iff d c).0 h)

pair_lem : (c : ℕ) → c < 256 → hex_pair (hex_char (c / 16)) (hex_char (c % 16)) ≡ some c
pair_lem c small = is_pair_lem _ c (passes_lem _ 256 c small pair_table)

percent_lem :
    (c : ℕ) (rest : List ℕ)
    → c < 256
    → url_decode (37 ∷ hex_char (c / 16) ∷ hex_char (c % 16) ∷ rest) ≡ c ∷ url_decode rest
unfolding url_decode
percent_lem c rest small = rw (pair_lem c small) refl

byte_lem : (c : ℕ) (rest : List ℕ) → c < 256 → url_decode (encode_byte c rest) ≡ c ∷ url_decode rest
unfolding encode_byte
byte_lem c rest small = elim (Bool-cases (unreserved c)) [
  | inl own ↦ rw own (plain_lem c rest (ground arith) (ground arith))
  | inr other ↦ elim (Bool-cases (c == 32)) [
    | inl space ↦ rw (other, space) (plus_lem rest ∙ ap (λ n. n ∷ url_decode rest) (ground arith))
    | inr coded ↦ rw (other, coded) (percent_lem c rest small)
  ]
]

nothing_lem : url_decode [] ≡ []
unfolding url_decode
nothing_lem = refl

-- What is encoded is decoded.
pub url_decode-url_encode : (text : List ℕ) → AllBytes text → url_decode (url_encode text) ≡ text
unfolding url_encode
url_decode-url_encode [] bytes = nothing_lem
url_decode-url_encode (c ∷ text) bytes =
    byte_lem c (url_encode text) bytes.0 ∙ ap (λ t. c ∷ t) (url_decode-url_encode text bytes.1)

abbrev pub NoAmp : List ℕ → Type 0
NoAmp [] = Unit {0}
NoAmp (c ∷ text) = (c ≢ 38) × NoAmp text

NoAmp-append : (t u : List ℕ) → NoAmp t → NoAmp u → NoAmp (t ++ u)
NoAmp-append [] u ht hu = hu
NoAmp-append (c ∷ t) u ht hu = (ht.0, NoAmp-append t u ht.1 hu)

IsPlain-NoAmp : (name : List ℕ) → IsPlain name → NoAmp name
IsPlain-NoAmp [] h = tt
IsPlain-NoAmp (c ∷ name) h = (h.0, IsPlain-NoAmp name h.2)

encode_byte-NoAmp : (c : ℕ) (rest : List ℕ) → NoAmp rest → NoAmp (encode_byte c rest)
unfolding encode_byte
encode_byte-NoAmp c rest h = ground arith

url_encode-NoAmp : (text : List ℕ) → NoAmp (url_encode text)
unfolding url_encode
url_encode-NoAmp [] = tt
url_encode-NoAmp (c ∷ text) = encode_byte-NoAmp c (url_encode text) (url_encode-NoAmp text)

before_amp_end : (t : List ℕ) → NoAmp t → before_amp t ≡ t
unfolding before_amp
before_amp_end [] h = refl
before_amp_end (c ∷ t) h = ground (arith, before_amp_end t h.1)

before_amp_more : (t body : List ℕ) → NoAmp t → before_amp (t ++ 38 ∷ body) ≡ t
unfolding before_amp
before_amp_more [] body h = ground arith
before_amp_more (c ∷ t) body h = ground (arith, before_amp_more t body h.1)

module _ (prefix : List ℕ) where
  raw_field_end : (t : List ℕ) → NoAmp t → raw_field prefix false t ≡ none
  unfolding raw_field
  raw_field_end [] h = refl
  raw_field_end (c ∷ t) h = ground (arith, raw_field_end t h.1)

  raw_field_more :
      (t body : List ℕ)
      → NoAmp t
      → raw_field prefix false (t ++ 38 ∷ body) ≡ raw_field prefix true body
  unfolding raw_field
  raw_field_more [] body h = ground arith
  raw_field_more (c ∷ t) body h = ground (arith, raw_field_more t body h.1)

  at_start_cons :
      (c : ℕ) (body : List ℕ)
      → raw_field prefix true (c ∷ body) ≡ (
          if starts_with (c ∷ body) prefix
          then some (before_amp (drop (length prefix) (c ∷ body)))
          else raw_field prefix false (c ∷ body))
  unfolding raw_field
  at_start_cons c body = ground arith

  at_start_lem :
      (n r : List ℕ)
      → raw_field prefix true (n ++ 61 ∷ r) ≡ (
          if starts_with (n ++ 61 ∷ r) prefix
          then some (before_amp (drop (length prefix) (n ++ 61 ∷ r)))
          else raw_field prefix false (n ++ 61 ∷ r))
  at_start_lem [] r = at_start_cons 61 r
  at_start_lem (c ∷ n) r = at_start_cons c (n ++ 61 ∷ r)

names_lem :
    (n name r : List ℕ)
    → IsPlain n
    → IsPlain name
    → starts_with (n ++ 61 ∷ r) (name ++ 61 ∷ []) ≡ same n name
names_lem [] [] r p q = ground arith
names_lem [] (d ∷ name) r p q = ground arith
names_lem (c ∷ n) [] r p q = ground arith
names_lem (c ∷ n) (d ∷ name) r p q = ground (arith, names_lem n name r p.2 q.2)

drop_lem :
    (n name r : List ℕ) → same n name ≡ true → drop (length (name ++ 61 ∷ [])) (n ++ 61 ∷ r) ≡ r
drop_lem [] [] r h = refl
drop_lem [] (d ∷ name) r h = absurd (ground arith)
drop_lem (c ∷ n) [] r h = absurd (ground arith)
drop_lem (c ∷ n) (d ∷ name) r h = drop_lem n name r (ground arith)

-- A field that stands at the start of a body.
field_lem :
    (n name r : List ℕ)
    → IsPlain n
    → IsPlain name
    → raw_field (name ++ 61 ∷ []) true (n ++ 61 ∷ r) ≡ (
        if same n name
        then some (before_amp r)
        else raw_field (name ++ 61 ∷ []) false (n ++ 61 ∷ r))
field_lem n name r p q = elim (Bool-cases (same n name)) [
  | inl own ↦
      rw (at_start_lem (name ++ 61 ∷ []) n r, names_lem n name r p q, own, drop_lem n name r own)
        refl
  | inr other ↦ rw (at_start_lem (name ++ 61 ∷ []) n r, names_lem n name r p q, other) refl
]

empty_form : (name : List ℕ) → form_value (url_form []) name ≡ first_value name []
unfolding form_value raw_field first_value url_form
empty_form name = refl

tail_lem :
    (prefix n e b : List ℕ)
    → NoAmp (n ++ 61 ∷ e)
    → raw_field prefix false (n ++ 61 ∷ (e ++ 38 ∷ b)) ≡ raw_field prefix true b
tail_lem prefix n e b clean =
    subst (λ t. raw_field prefix false t ≡ raw_field prefix true b)
      (append_assoc n (61 ∷ e) (38 ∷ b)) (raw_field_more prefix (n ++ 61 ∷ e) b clean)

field-NoAmp : (n v : List ℕ) → IsPlain n → NoAmp (n ++ 61 ∷ url_encode v)
field-NoAmp n v p =
    NoAmp-append n (61 ∷ url_encode v) (IsPlain-NoAmp n p) (omega arith, url_encode-NoAmp v)

last_field :
    (name n v : List ℕ)
    → IsPlain name
    → IsPlain n
    → AllBytes v
    → form_value (url_form ((n, v) ∷ [])) name ≡ first_value name ((n, v) ∷ [])
unfolding form_value first_value url_form
last_field name n v plain p bytes = elim (Bool-cases (same n name)) [
  | inl own ↦
      rw
        (
          field_lem n name (url_encode v) p plain,
          own,
          before_amp_end (url_encode v) (url_encode-NoAmp v),
        )
        (url_decode-url_encode v bytes)
  | inr other ↦
      rw
        (
          field_lem n name (url_encode v) p plain,
          other,
          raw_field_end (name ++ 61 ∷ []) (n ++ 61 ∷ url_encode v) (field-NoAmp n v p),
        )
        refl
]

more_fields :
    (name n v b : List ℕ)
    → IsPlain name
    → IsPlain n
    → AllBytes v
    → form_value (n ++ 61 ∷ (url_encode v ++ 38 ∷ b)) name
      ≡ (if same n name then v else form_value b name)
unfolding form_value
more_fields name n v b plain p bytes = elim (Bool-cases (same n name)) [
  | inl own ↦
      rw
        (
          field_lem n name (url_encode v ++ 38 ∷ b) p plain,
          own,
          before_amp_more (url_encode v) b (url_encode-NoAmp v),
        )
        (url_decode-url_encode v bytes)
  | inr other ↦
      rw
        (
          field_lem n name (url_encode v ++ 38 ∷ b) p plain,
          other,
          tail_lem (name ++ 61 ∷ []) n (url_encode v) b (field-NoAmp n v p),
        )
        refl
]

-- A field of a form is read back as it was entered: the first one of a name where there are several,
-- and nothing where there is none. The names have no `&` and no `=`, the values are bytes.
pub form_value-url_form :
    (name : List ℕ) (fields : List (List ℕ × List ℕ))
    → IsPlain name
    → AllPlain fields
    → form_value (url_form fields) name ≡ first_value name fields
unfolding url_form first_value
form_value-url_form name [] plain all = empty_form name
form_value-url_form name ((n, v) ∷ []) plain all = last_field name n v plain all.0 all.1
form_value-url_form name ((n, v) ∷ f ∷ fields) plain all =
    more_fields name n v (url_form (f ∷ fields)) plain all.0 all.1
    ∙ ap (λ rest. if same n name then v else rest)
        (form_value-url_form name (f ∷ fields) plain all.2)
