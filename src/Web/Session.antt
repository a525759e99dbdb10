-- ===== src/Web/Session.antt =====
-- The one session of the administrator in main/web_server.cpp: `authorize`, the cookies, and the login,
-- logout and setup handlers. `Page` is what the browser gets.
use gps_base_station.Prelude.{
  ℕ, zero, suc, ◌+◌, ◌-◌, ◌*◌, ◌/◌, ◌%◌, ◌^◌, List, [], ◌∷◌, ◌++◌, Bool, true, false, not, ◌&&◌,
  ◌||◌, ltb, leb, min, ◌==◌, if◌then◌else◌, length, codes, starts_with,
}
use gps_base_station.Nvs.{same}
use gps_base_station.Storage.{c_str}
use gps_base_station.Survey.Text.{is_empty}
use gps_base_station.Web.Forms.{form_value}

abbrev pub k_session_idle_timeout_us : ℕ
k_session_idle_timeout_us = 60 * 60 * 1000000

abbrev pub k_login_base_delay_us : ℕ
k_login_base_delay_us = 5 * 1000000

abbrev pub k_login_max_delay_us : ℕ
k_login_max_delay_us = 30 * 1000000

-- The members of `AdminWebServer` that the handlers share. The clock is not negative.
pub record Session : Type 0 where
  pub session_token : List ℕ
  pub session_last_seen_us : ℕ
  pub failed_login_count : ℕ
  pub login_block_until_us : ℕ

abbrev pub no_session : Session
no_session = record {
  session_token = [];
  session_last_seen_us = 0;
  failed_login_count = 0;
  login_block_until_us = 0;
}

-- What the settings say of the password.
pub record Admin : Type 0 where
  pub password_set : Bool
  pub password : List ℕ

pub data Page : Type 0 where
  to_setup to_login already_set passwords_differ save_failed : Page
  wait_seconds : ℕ → Page
  signed_in : List ℕ → List ℕ → Page
  invalid_login : List ℕ → Page

unfoldable pub clear_session : Session → Session
clear_session s = record s { session_token = []; session_last_seen_us = 0 }

-- `token` is the cookie of the request.
unfoldable pub authorize : Admin → Session → List ℕ → ℕ → Session × Bool
unfolding clear_session
authorize admin s token now =
    if not admin.password_set
      || is_empty token
      || is_empty s.session_token
      || not (same token s.session_token)
    then (s, false)
    else if s.session_last_seen_us == 0
        || ltb k_session_idle_timeout_us (now - s.session_last_seen_us)
    then (clear_session s, false)
    else (record s { session_last_seen_us = now }, true)

unfoldable pub password_matches : Admin → List ℕ → List ℕ → Bool
password_matches admin user password =
    admin.password_set && same user (codes "admin") && same password admin.password

-- `%08lx` of a random word of 32 bits.
abbrev pub hex_lower : ℕ → ℕ
hex_lower d = if ltb d 10 then 48 + d else 87 + d

unfoldable pub hex_word : ℕ → ℕ → List ℕ → List ℕ
hex_word zero n text = text
hex_word (suc digits) n text = hex_word digits (n / 16) (hex_lower (n % 16) ∷ text)

abbrev pub Words : Type 0
Words = ℕ × ℕ × ℕ × ℕ

unfoldable pub new_token : Words → List ℕ
unfolding hex_word
new_token (a, b, c, d) =
    hex_word 8 a [] ++ (hex_word 8 b [] ++ (hex_word 8 c [] ++ hex_word 8 d []))

unfoldable pub start_session : Words → ℕ → Session
unfolding new_token
start_session words now = record {
  session_token = new_token words;
  session_last_seen_us = now;
  failed_login_count = 0;
  login_block_until_us = 0;
}

unfoldable pub contains : List ℕ → List ℕ → Bool
contains [] part = is_empty part
contains (c ∷ text) part = starts_with (c ∷ text) part || contains text part

unfoldable pub safe_local_path : List ℕ → Bool
unfolding contains
safe_local_path path =
    starts_with path (codes "/")
    && not (contains path (codes "://"))
    && not (contains path (92 ∷ []))
    && not (contains path (13 ∷ []))
    && not (contains path (10 ∷ []))

unfoldable pub next_page : List ℕ → List ℕ
unfolding safe_local_path
next_page requested =
    if safe_local_path requested && not (same requested (codes "/login"))
    then requested
    else codes "/"

-- How long the next login has to wait, after so many that failed.
unfoldable pub login_delay : ℕ → ℕ
login_delay failed = min (k_login_base_delay_us * (failed - 2)) k_login_max_delay_us

unfoldable pub count_failure : Session → ℕ → Session
unfolding login_delay
count_failure s now =
    let failed = (s.failed_login_count + 1) % 2 ^ 32 in
    record s {
      failed_login_count = failed;
      login_block_until_us =
          if leb 3 failed then now + login_delay failed else s.login_block_until_us;
    }

-- `later` is the clock behind the body's arrival.
unfoldable pub login_checked : Admin → Session → List ℕ → Words → ℕ → ℕ → Session × Page
unfolding next_page password_matches start_session count_failure
login_checked admin s body words now later =
    let next = next_page (form_value body (codes "next")) in
    if password_matches admin (form_value body (codes "user")) (form_value body (codes "password"))
    then (start_session words later, signed_in (new_token words) next)
    else (count_failure s now, invalid_login next)

unfoldable pub login_post : Admin → Session → List ℕ → Words → ℕ → ℕ → Session × Page
unfolding login_checked
login_post admin s body words now later =
    if not admin.password_set
    then (s, to_setup)
    else if ltb now s.login_block_until_us
    then (s, wait_seconds ((s.login_block_until_us - now + 999999) / 1000000))
    else login_checked admin s body words now later

unfoldable pub logout : Session → Session × Page
unfolding clear_session
logout s = (clear_session s, to_login)

-- `saved` is what `save_admin_password` says.
unfoldable pub setup_post : Admin → Session → List ℕ → Bool → Words → ℕ → Admin × Session × Page
unfolding start_session
setup_post admin s body saved words now =
    let password = form_value body (codes "password") in
    if admin.password_set
    then (admin, s, already_set)
    else if ltb (length password) 8
        || ltb 64 (length password)
        || not (same password (form_value body (codes "confirm")))
    then (admin, s, passwords_differ)
    else if saved
    then (
      record { password_set = true; password = c_str password },
      start_session words now,
      signed_in (new_token words) (codes "/"),
    )
    else (admin, s, save_failed)

-- What browsers ask for, in any order.
pub data Request : Type 0 where
  page : List ℕ → ℕ → Request
  login : List ℕ → Words → ℕ → ℕ → Request
  leave : Request

-- `true`: a page behind `authorize` was served.
unfoldable pub serve : Admin → Session → Request → Session × Bool
unfolding authorize login_post logout
serve admin s (page token now) = authorize admin s token now
serve admin s (login body words now later) = ((login_post admin s body words now later).0, false)
serve admin s leave = ((logout s).0, false)

unfoldable pub serve_all : Admin → Session → List Request → Session
unfolding serve
serve_all admin s [] = s
serve_all admin s (r ∷ requests) = serve_all admin (serve admin s r).0 requests
