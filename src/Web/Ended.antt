-- ===== src/Web/Ended.antt =====
-- A session of main/web_server.cpp that ended stays shut.
use gps_base_station.Prelude.{
  ℕ, ◌+◌, ◌<◌, ◌≡◌, refl, List, [], ◌∷◌, true, false, ltb, arith, inl, inr, Bool-cases,
}
use gps_base_station.Nvs.{same_self}
use gps_base_station.Survey.Text.{is_empty}
use gps_base_station.Web.Session.{
  k_session_idle_timeout_us, Session, Admin, authorize, Words, count_failure, login_checked,
  login_post, logout, Request, page, login, leave, serve, serve_all,
}
use gps_base_station.Web.Guessing.{IsWrong}

-- A request that ends the session: a logout, or a page that is asked for too late.
pub data Ends (s : Session) : Request → Type 0 where
  left : Ends s leave
  late :
      (now : ℕ)
      → s.session_last_seen_us + k_session_idle_timeout_us < now
      → Ends s (page s.session_token now)

-- No login among the requests has the right password.
abbrev pub NoLogin : Admin → List Request → Type 0
NoLogin admin [] = Unit {0}
NoLogin admin (page token now ∷ requests) = NoLogin admin requests
NoLogin admin (login body words now later ∷ requests) = IsWrong admin body × NoLogin admin requests
NoLogin admin (leave ∷ requests) = NoLogin admin requests

abbrev IsOver : Session → Type 0
IsOver s = is_empty s.session_token ≡ true

serve-Ends :
    (admin : Admin) (s : Session) {r : Request}
    → admin.password_set ≡ true
    → Ends s r
    → IsOver (serve admin s r).0
unfolding serve authorize
serve-Ends admin s is_set left = refl
serve-Ends admin s is_set (late now old) = ground (arith, same_self s.session_token)

authorize-IsOver :
    (admin : Admin) (s : Session) (token : List ℕ) (now : ℕ)
    → IsOver s
    → ((authorize admin s token now).1 ≡ false) × IsOver (authorize admin s token now).0
unfolding authorize
authorize-IsOver admin s token now over = ground arith

login-IsOver :
    (admin : Admin) (s : Session) (body : List ℕ) (words : Words) (now later : ℕ)
    → IsWrong admin body
    → IsOver s
    → IsOver (login_post admin s body words now later).0
unfolding login_post login_checked count_failure
login-IsOver admin s body words now later wrong over = elim (Bool-cases admin.password_set) [
  | inr unset ↦ rw unset over
  | inl is_set ↦ elim (Bool-cases (ltb now s.login_block_until_us)) [
    | inl blocked ↦ rw (is_set, blocked) over
    | inr open_ ↦ rw (wrong, is_set, open_) over
  ]
]

serve_all-IsOver :
    (admin : Admin) (s : Session) (requests : List Request)
    → NoLogin admin requests
    → IsOver s
    → IsOver (serve_all admin s requests)
unfolding serve_all serve
serve_all-IsOver admin s [] none_ over = over
serve_all-IsOver admin s (page token now ∷ requests) none_ over =
    serve_all-IsOver admin (authorize admin s token now).0 requests none_
      (authorize-IsOver admin s token now over).1
serve_all-IsOver admin s (login body words now later ∷ requests) none_ over =
    serve_all-IsOver admin (login_post admin s body words now later).0 requests none_.1
      (login-IsOver admin s body words now later none_.0 over)
serve_all-IsOver admin s (leave ∷ requests) none_ over =
    serve_all-IsOver admin (logout s).0 requests none_ refl

-- Once a session was ended, by a logout or by a page asked for more than an hour after the last one, no
-- page is served to any cookie, whatever is asked in between, until the right password is entered.
pub serve-Ends_lem :
    (admin : Admin) (s : Session) {r : Request} (requests : List Request) (token : List ℕ) (now : ℕ)
    → admin.password_set ≡ true
    → Ends s r
    → NoLogin admin requests
    → (serve admin (serve_all admin (serve admin s r).0 requests) (page token now)).1 ≡ false
unfolding serve
serve-Ends_lem admin s {r = r} requests token now is_set ends none_ =
    (authorize-IsOver admin (serve_all admin (serve admin s r).0 requests) token now (
      serve_all-IsOver admin (serve admin s r).0 requests none_ (serve-Ends admin s is_set ends))).0
