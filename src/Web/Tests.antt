-- ===== src/Web/Tests.antt =====
-- Runs of the web server.
use gps_base_station.Prelude.{
  digits, ℕ, ◌+◌, ◌*◌, ◌-◌, ◌≤◌, ◌≡◌, ◌≢◌, refl, ◌∙◌, [], ◌∷◌, ◌++◌, none, some, true, false, arith,
  codes,
}
use gps_base_station.Survey.Text.{pos}
use gps_base_station.Storage.{c_str}
use gps_base_station.Sd.{no_result, file, directory, PathText}
use gps_base_station.Sd.Job.{Job, idle, running, delete_task, start, busy, blocks_active_file}
use gps_base_station.Sd.Reference.{Card, card_api, card_stat, look, look-unlink, look-rmdir}
use gps_base_station.Web.Forms.{url_decode, form_value}
use gps_base_station.Web.Fields.{url_form, first_value, form_value-url_form}
use gps_base_station.Web.Session.{
  Session, no_session, Admin, page, login, serve, serve_all, safe_local_path, authorize,
  password_matches,
}
use gps_base_station.Web.Guessing.{Attempt, guesses, guesses_lem, last_time}
use gps_base_station.Web.Ended.{late, serve-Ends_lem}
use gps_base_station.Web.Dates.{
  utc_to_unix, parse_datetime_input, parse_rinex_filename_utc, select_rinex_files,
}
use gps_base_station.Rinex.Names.{file_name}
use gps_base_station.Web.Calendar.{civil_seconds, extra_day, utc_to_unix-civil}
use gps_base_station.Web.Json.{json_field, json_string_array}
use gps_base_station.Web.Arrays.{array_items, json_string_array-json_escape}
use gps_base_station.Web.Files.{
  Post, started, files_delete_batch, wanted_paths, files_delete_batch-Spares,
}

decodes :
    (url_decode (codes "a+b%2Fc%4") ≡ codes "a b/c%4")
    × (url_decode (codes "50%zz!") ≡ codes "50zz!")
unfolding url_decode
decodes = (refl, refl)

form_value-url_form_example :
    form_value
      (url_form ((codes "user", codes "a&b") ∷ (codes "password", codes "x=1 %") ∷ []))
      (codes "password")
    ≡ first_value
        (codes "password")
        ((codes "user", codes "a&b") ∷ (codes "password", codes "x=1 %") ∷ [])
form_value-url_form_example =
    form_value-url_form (codes "password")
      ((codes "user", codes "a&b") ∷ (codes "password", codes "x=1 %") ∷ []) (omega arith)
      (omega arith)

-- A path that a browser takes for another host.
other_host : safe_local_path (codes "//example.com/x") ≡ true
unfolding safe_local_path
other_host = refl

abbrev admin : Admin
admin = record { password_set = true; password = codes "secret-1" }

abbrev wrong_login : ℕ → Attempt
wrong_login now = record {
  body = codes "user=admin&password=guess";
  words = (1, 2, 3, 4);
  now = now;
  later = now;
}

wrong_guess :
    password_matches admin
      (form_value (codes "user=admin&password=guess") (codes "user"))
      (form_value (codes "user=admin&password=guess") (codes "password"))
    ≡ false
unfolding password_matches form_value
wrong_guess = refl

guesses_lem_example :
    1000 + 30000000 * (guesses admin no_session (wrong_login 1000 ∷ wrong_login 2000 ∷ []) - 8)
    ≤ last_time 1000 (wrong_login 1000 ∷ wrong_login 2000 ∷ [])
guesses_lem_example =
    guesses_lem admin no_session 1000 (wrong_login 1000 ∷ wrong_login 2000 ∷ []) refl refl
      (omega arith, wrong_guess, (omega arith, wrong_guess, tt)) (omega arith)

abbrev my_session : Session
my_session = record {
  session_token = codes "abc";
  session_last_seen_us = 5;
  failed_login_count = 0;
  login_block_until_us = 0;
}

serve-Ends_lem_example :
    (serve admin
      (serve_all admin
        (serve admin my_session (page (codes "abc") 3600000006)).0
        (login (codes "user=admin&password=guess") (1, 2, 3, 4) 3600000007 3600000008 ∷ []))
      (page (codes "abc") 3600000009)).1
    ≡ false
serve-Ends_lem_example =
    serve-Ends_lem admin my_session
      (login (codes "user=admin&password=guess") (1, 2, 3, 4) 3600000007 3600000008 ∷ [])
      (codes "abc") 3600000009 refl (late 3600000006 (omega arith)) (wrong_guess, tt)

utc_to_unix-civil_example :
    utc_to_unix 2024 (pos 12) (pos 31) (pos 23) (pos 59) (pos 0)
    ≡ some (pos (civil_seconds 2024 12 31 23 59 0 + 86400 * extra_day 2024))
utc_to_unix-civil_example =
    utc_to_unix-civil 2024 12 31 23 59 0 (omega arith) (omega arith) (omega arith) (omega arith)
      (omega arith) (omega arith) (omega arith) (omega arith) (omega arith)

-- The last day of 2024 and the first of 2025 are the same day.
same_day :
    (parse_datetime_input (codes "2024-12-31T10:00") ≡ some (pos 1735725600))
    × (parse_datetime_input (codes "2025-01-01T10:00") ≡ some (pos 1735725600))
unfolding parse_datetime_input
same_day = (refl, refl)

-- A month out of bounds, and a time past the range of `long`.
undefined_dates :
    (parse_rinex_filename_utc (codes "BASE_20261301_000000.rnx") ≡ none)
    × (parse_datetime_input (codes "2040-01-01T00:00:00") ≡ none)
unfolding parse_rinex_filename_utc parse_datetime_input
undefined_dates = (refl, refl)

selects :
    select_rinex_files 1767225600 1767229200 (
      some (
        record { regular = true; name = codes "BASE_20260101_010000.rnx" }
        ∷ record { regular = true; name = codes "BASE_20260101_000000.rnx" }
        ∷ record { regular = true; name = codes "note.txt" }
        ∷ record { regular = true; name = codes "BASE_20260102_000000.rnx" }
        ∷ []))
    ≡ some (
        codes "/sdcard/rawdata/BASE_20260101_000000.rnx"
        ∷ codes "/sdcard/rawdata/BASE_20260101_010000.rnx"
        ∷ [])
unfolding select_rinex_files
selects = refl

json_string_array-json_escape_example :
    json_string_array
      (codes "{\"paths\":[" ++ array_items (codes "/a\"b" ∷ codes "/c" ∷ []))
      (codes "paths")
    ≡ some (codes "/a\"b" ∷ codes "/c" ∷ [])
json_string_array-json_escape_example =
    json_string_array-json_escape (codes "/a\"b" ∷ codes "/c" ∷ []) (omega arith) (omega arith)

-- The bracket at the end may be missing; a `\u` has to be ASCII.
arrays :
    (json_string_array (codes "{\"paths\":[\"\\u0041\"") (codes "paths") ≡ some (codes "A" ∷ []))
    × (json_string_array (codes "{\"paths\":[\"\\u00e9\"]") (codes "paths") ≡ none)
    × (json_string_array (codes "{}") (codes "paths") ≡ some [])
    × (json_field (codes "{\"path\":\"/x\"}") (codes "path") ≡ codes "/x")
unfolding json_string_array json_field
arrays = (refl, refl, refl, refl)

abbrev record_file : PathText
record_file = codes "/sdcard/rawdata/B.rnx"

abbrev small : Card
small =
    (codes "/sdcard/rawdata", directory)
    ∷ (record_file, file 5)
    ∷ (codes "/sdcard/old", file 9)
    ∷ []

abbrev idle_job : Job
idle_job = record { state = idle; done = 0; total = 0; result = no_result 0; paths = [] }

abbrev started_job : Job
started_job = record {
  state = running;
  done = 0;
  total = 1;
  result = no_result 0;
  paths = some (codes "/sdcard/old") ∷ [];
}

record_kept :
    (fs : Card) (path : PathText)
    → path ≢ record_file
    → look fs record_file ≡ some (file 5)
    → (look (card_api.unlink fs path).0 record_file ≡ some (file 5))
      × (look (card_api.rmdir fs path).0 record_file ≡ some (file 5))
record_kept fs path ne k = (
  look-unlink fs path record_file (look fs path) ne ∙ k,
  look-rmdir fs path record_file (look fs path) ne ∙ k,
)

abbrev post : Post
post = record { token = codes "abc"; now = 6; body = codes "{\"paths\":[\"/sdcard/old\"]}" }

batch_started :
    files_delete_batch card_api admin my_session post true small
      (record { active = true; current_file = record_file })
      true
      idle_job
    ≡ some (started_job, started 1)
unfolding files_delete_batch wanted_paths json_string_array json_field authorize busy
    blocks_active_file start look card_stat c_str
batch_started = refl

files_delete_batch-Spares_example :
    ((authorize admin my_session (codes "abc") 6).1 ≡ true)
    × (true ≡ true)
    × (job : Job) × (end : Card) × (delete_task card_api true small started_job ≡ some (job, end))
    × (look end record_file ≡ some (file 5))
unfolding look
files_delete_batch-Spares_example =
    files_delete_batch-Spares card_api (λ fs. look fs record_file ≡ some (file 5)) admin my_session
      post true true small small (record { active = true; current_file = record_file }) true
      idle_job started_job 1 refl (omega arith) record_kept batch_started refl

named : file_name 2024 2 29 23 0 30 ≡ codes "BASE_20240229_230030.rnx"
unfolding file_name digits
named = refl
