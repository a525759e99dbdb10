-- ===== src/Web/Guessing.antt =====
-- How fast passwords can be guessed through the login handler of main/web_server.cpp.
use gps_base_station.Prelude.{
  ℕ, ◌+◌, ◌-◌, ◌*◌, ◌^◌, ◌≤◌, ◌<◌, ◌≡◌, List, [], ◌∷◌, false, ltb, length, codes, arith, inl, inr,
  Bool-cases,
}
use gps_base_station.Web.Forms.{form_value}
use gps_base_station.Web.Session.{
  k_login_max_delay_us, Session, Admin, Page, to_setup, to_login, already_set, passwords_differ,
  save_failed, wait_seconds, signed_in, invalid_login, password_matches, Words, login_delay,
  count_failure, login_checked, login_post,
}

pub record Attempt : Type 0 where
  pub body : List ℕ
  pub words : Words
  pub now : ℕ
  pub later : ℕ

abbrev pub IsWrong : Admin → List ℕ → Type 0
IsWrong admin body =
    password_matches admin (form_value body (codes "user")) (form_value body (codes "password"))
    ≡ false

-- The times do not fall, from `last` on, and no password is right.
abbrev pub AllWrong : Admin → ℕ → List Attempt → Type 0
AllWrong admin last [] = Unit {0}
AllWrong admin last (a ∷ attempts) =
    (last ≤ a.now) × IsWrong admin a.body × AllWrong admin a.now attempts

abbrev pub last_time : ℕ → List Attempt → ℕ
last_time last [] = last
last_time last (a ∷ attempts) = last_time a.now attempts

abbrev pub is_guess : Page → ℕ
is_guess (invalid_login next) = 1
is_guess to_setup = 0
is_guess to_login = 0
is_guess already_set = 0
is_guess passwords_differ = 0
is_guess save_failed = 0
is_guess (wait_seconds n) = 0
is_guess (signed_in token next) = 0

-- How many attempts had their password looked at.
unfoldable pub guesses : Admin → Session → List Attempt → ℕ
guesses admin s [] = 0
guesses admin s (a ∷ attempts) =
    is_guess (login_post admin s a.body a.words a.now a.later).1
    + guesses admin (login_post admin s a.body a.words a.now a.later).0 attempts

pub record Slowed (first last : ℕ) (s : Session) : Type 0 where
  pub ordered : first ≤ last
  pub soon : s.login_block_until_us ≤ last + k_login_max_delay_us
  pub spaced :
      8 ≤ s.failed_login_count
      → first + k_login_max_delay_us * (s.failed_login_count - 7) ≤ s.login_block_until_us

delay_max : (failed : ℕ) → login_delay failed ≤ k_login_max_delay_us
unfolding login_delay
delay_max failed = omega arith

delay_full : (failed : ℕ) → 8 ≤ failed → login_delay failed ≡ k_login_max_delay_us
unfolding login_delay
delay_full failed many = omega arith

count_failure-Slowed :
    (first last now : ℕ) (s : Session)
    → last ≤ now
    → s.login_block_until_us ≤ now
    → s.failed_login_count + 1 < 2 ^ 32
    → Slowed first last s
    → Slowed first now (count_failure s now)
unfolding count_failure
count_failure-Slowed first last now s le open_ small v =
    ground (arith, delay_max (s.failed_login_count + 1), delay_full (s.failed_login_count + 1))

record After (first now : ℕ) (s t : Session) (guess : ℕ) : Type 0 where
  slowed : Slowed first now t
  counted : t.failed_login_count ≡ s.failed_login_count + guess

count_failure-count :
    (s : Session) (now : ℕ)
    → s.failed_login_count + 1 < 2 ^ 32
    → (count_failure s now).failed_login_count ≡ s.failed_login_count + 1
unfolding count_failure
count_failure-count s now small = omega arith

attempt_lem :
    (admin : Admin) (first last : ℕ) (s : Session) (a : Attempt)
    → last ≤ a.now
    → IsWrong admin a.body
    → s.failed_login_count + 1 < 2 ^ 32
    → Slowed first last s
    → After first a.now s
        (login_post admin s a.body a.words a.now a.later).0
        (is_guess (login_post admin s a.body a.words a.now a.later).1)
unfolding login_post login_checked
attempt_lem admin first last s a le wrong small v = elim (Bool-cases admin.password_set) [
  | inr unset ↦ rw unset (record { slowed = waited; counted = omega arith })
  | inl is_set ↦ elim (Bool-cases (ltb a.now s.login_block_until_us)) [
    | inl blocked ↦ rw (is_set, blocked) (record { slowed = waited; counted = omega arith })
    | inr open_ ↦
        rw (wrong, is_set, open_)
          (record {
            slowed = count_failure-Slowed first last a.now s le (ground arith) small v;
            counted = count_failure-count s a.now small;
          })
  ]
]
  where
    waited : Slowed first a.now s
    waited = record { ordered = ground arith; soon = ground arith; spaced = v.spaced }

is_guess_le : (p : Page) → is_guess p ≤ 1
is_guess_le to_setup = omega arith
is_guess_le to_login = omega arith
is_guess_le already_set = omega arith
is_guess_le passwords_differ = omega arith
is_guess_le save_failed = omega arith
is_guess_le (wait_seconds n) = omega arith
is_guess_le (signed_in token next) = omega arith
is_guess_le (invalid_login next) = omega arith

guesses-Slowed :
    (admin : Admin) (attempts : List Attempt) (first last : ℕ) (s : Session)
    → AllWrong admin last attempts
    → s.failed_login_count + length attempts < 2 ^ 32
    → Slowed first last s
    → first + k_login_max_delay_us * (s.failed_login_count + guesses admin s attempts - 8)
      ≤ last_time last attempts
unfolding guesses
guesses-Slowed admin [] first last s wrong small v = ground arith
guesses-Slowed admin (a ∷ attempts) first last s wrong small v =
    let t = login_post admin s a.body a.words a.now a.later in
    let step = attempt_lem admin first last s a wrong.0 wrong.1 (omega arith) v in
    omega (
      arith,
      step.counted,
      guesses-Slowed admin attempts first a.now t.0 wrong.2
          (omega (arith, step.counted, is_guess_le t.1)) step.slowed,
    )

-- From a session with no failed login and no wait, the time that any sequence of wrong logins takes is at
-- least half a minute for each password that was looked at, but the first eight. The clock does not fall,
-- and there are fewer than 2 ^ 32 logins.
pub guesses_lem :
    (admin : Admin) (s : Session) (first : ℕ) (attempts : List Attempt)
    → s.failed_login_count ≡ 0
    → s.login_block_until_us ≡ 0
    → AllWrong admin first attempts
    → length attempts < 2 ^ 32
    → first + 30000000 * (guesses admin s attempts - 8) ≤ last_time first attempts
guesses_lem admin s first attempts fresh open_ wrong few = omega (
  arith,
  fresh,
  guesses-Slowed admin attempts first first s wrong (omega (arith, fresh)) (record {
    ordered = omega arith;
    soon = omega (arith, open_);
    spaced = λ many. absurd (omega (arith, fresh));
  }),
)
