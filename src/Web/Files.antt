-- ===== src/Web/Files.antt =====
-- The handlers of main/web_server.cpp that delete and preview files on the card.
use gps_base_station.Prelude.{
  ℕ, ◌<◌, ◌≡◌, ◌≢◌, List, [], ◌∷◌, Option, none, some, Bool, true, false, not, ◌||◌, if◌then◌else◌,
  length, codes, map, arith, inl, inr, Bool-cases,
}
use gps_base_station.Storage.{c_str}
use gps_base_station.Survey.Text.{is_empty}
use gps_base_station.Sd.{PathText, safe_path, FsApi}
use gps_base_station.Sd.Preview.{DeletePreview, preview_delete_many}
use gps_base_station.Sd.Job.{
  Logging, blocks_active_file, Job, busy, start, delete_task, delete_entry,
}
use gps_base_station.Sd.Spares.{start-Spares}
use gps_base_station.Web.Session.{Session, Admin, authorize}
use gps_base_station.Web.Json.{json_field, json_string_array}

-- A request behind its headers: the cookie, when it came, and the body.
pub record Post : Type 0 where
  pub token : List ℕ
  pub now : ℕ
  pub body : List ℕ

pub data Answer : Type 0 where
  unauthorized not_mounted in_progress invalid_paths no_paths active_file not_started : Answer
  started : ℕ → Answer
  preview : DeletePreview → Answer
  ok : Bool → Answer

abbrev pub or_single : List ℕ → List PathText
or_single single = if is_empty single then [] else single ∷ []

abbrev pub or_path : List ℕ → Option (List PathText) → Option (List PathText)
or_path single none = none
or_path single (some []) = some (or_single single)
or_path single (some (p ∷ paths)) = some (p ∷ paths)

-- `paths`, or else the one `path`; `none` is a list that was rejected.
unfoldable pub wanted_paths : List ℕ → Option (List PathText)
wanted_paths body =
    or_path (json_field body (codes "path")) (json_string_array body (codes "paths"))

unfoldable pub c_paths : List PathText → List (Option PathText)
c_paths paths = map (λ p. some (c_str p)) paths

module _ (api : FsApi) where
  open api use {Fs}

  unfoldable pub after_start : ℕ → Job × Bool → Job × Answer
  after_start count (job, true) = (job, started count)
  after_start count (job, false) = (job, if busy job then in_progress else not_started)

  -- `none`: the fuel of the preview was spent.
  unfoldable pub after_start? : ℕ → Option (Job × Bool) → Option (Job × Answer)
  unfolding after_start
  after_start? count none = none
  after_start? count (some r) = some (after_start count r)

  unfoldable pub start_batch :
      Bool → Fs → Logging → Bool → Job → Option (List PathText) → Option (Job × Answer)
  unfolding after_start? c_paths
  start_batch mounted fs rs created job none = some (job, invalid_paths)
  start_batch mounted fs rs created job (some []) = some (job, no_paths)
  start_batch mounted fs rs created job (some (p ∷ paths)) =
      if blocks_active_file rs (c_paths (p ∷ paths))
      then some (job, active_file)
      else after_start? (length (p ∷ paths))
          (start api mounted fs rs created job (c_paths (p ∷ paths)))

  -- The session is told by `authorize`; `created` is what `xTaskCreate` says.
  unfoldable pub files_delete_batch :
      Admin → Session → Post → Bool → Fs → Logging → Bool → Job → Option (Job × Answer)
  unfolding start_batch
  files_delete_batch admin s post mounted fs rs created job =
      if not (authorize admin s post.token post.now).1
      then some (job, unauthorized)
      else if not mounted
      then some (job, not_mounted)
      else if busy job
      then some (job, in_progress)
      else start_batch mounted fs rs created job (wanted_paths post.body)

  abbrev pub previewed : Option DeletePreview → Option Answer
  previewed none = none
  previewed (some pv) = some (preview pv)

  unfoldable pub preview_paths : Bool → Fs → Option (List PathText) → Option Answer
  unfolding c_paths
  preview_paths mounted fs none = some invalid_paths
  preview_paths mounted fs (some []) = some no_paths
  preview_paths mounted fs (some (p ∷ paths)) =
      previewed (preview_delete_many api mounted fs (c_paths (p ∷ paths)))

  unfoldable pub files_preview : Admin → Session → Post → Bool → Fs → Option Answer
  unfolding preview_paths
  files_preview admin s post mounted fs =
      if not (authorize admin s post.token post.now).1
      then some unauthorized
      else if not mounted
      then some not_mounted
      else preview_paths mounted fs (wanted_paths post.body)

  abbrev pub told : Fs × Bool → Fs × Answer
  told (fs, done) = (fs, ok done)

  unfoldable pub files_delete : Admin → Session → Post → Bool → Fs → Fs × Answer
  files_delete admin s post mounted fs =
      let path = json_field post.body (codes "path") in
      if not (authorize admin s post.token post.now).1
      then (fs, unauthorized)
      else if is_empty path || not (safe_path (c_str path))
      then (fs, ok false)
      else told (delete_entry api mounted fs (some (c_str path)))

  after_start-started :
      (count n : ℕ) (r : Option (Job × Bool)) (job' : Job)
      → after_start? count r ≡ some (job', started n)
      → r ≡ some (job', true)
  unfolding after_start? after_start
  after_start-started count n none job' e = absurd (ground arith)
  after_start-started count n (some (job, true)) job' e = ground arith
  after_start-started count n (some (job, false)) job' e = absurd (ground arith)

  start_batch-started :
      (mounted : Bool) (fs : Fs) (rs : Logging) (created : Bool) (job job' : Job) (n : ℕ)
      (wanted : Option (List PathText))
      → start_batch mounted fs rs created job wanted ≡ some (job', started n)
      → (paths : List (Option PathText)) × (start api mounted fs rs created job paths
          ≡ some (job', true))
  unfolding start_batch
  start_batch-started mounted fs rs created job job' n none e = absurd (ground arith)
  start_batch-started mounted fs rs created job job' n (some []) e = absurd (ground arith)
  start_batch-started mounted fs rs created job job' n (some (p ∷ paths)) e =
      elim (Bool-cases (blocks_active_file rs (c_paths (p ∷ paths)))) [
        | inl blocked ↦ absurd (ground arith)
        | inr free ↦ (
          c_paths (p ∷ paths),
          after_start-started (length (p ∷ paths)) n
              (start api mounted fs rs created job (c_paths (p ∷ paths))) job' (ground arith),
        )
      ]

  passed :
      (admin : Admin) (s : Session) (post : Post) (mounted : Bool) (fs : Fs) (rs : Logging)
      (created : Bool) (job job' : Job) (n : ℕ)
      → files_delete_batch admin s post mounted fs rs created job ≡ some (job', started n)
      → ((authorize admin s post.token post.now).1 ≡ true)
        × (mounted ≡ true)
        × (start_batch mounted fs rs created job (wanted_paths post.body) ≡ some (job', started n))
  unfolding files_delete_batch
  passed admin s post mounted fs rs created job job' n e = ground arith

  -- A deletion that the web page starts was asked for with the session's cookie on a mounted card, and its
  -- task ends. What holds of the card then, and survives the removal of any path that is not, as a text,
  -- that of the file that the RINEX logger is writing, still holds at the end.
  pub files_delete_batch-Spares :
      (K : Fs → Type 0) (admin : Admin) (s : Session) (post : Post) (mounted mounted' : Bool)
      (fs fs' : Fs) (rs : Logging) (created : Bool) (job job' : Job) (n : ℕ)
      → rs.active ≡ true
      → 0 < length rs.current_file
      → ((fs : Fs) (path : PathText)
          → path ≢ rs.current_file
          → K fs
          → K (api.unlink fs path).0 × K (api.rmdir fs path).0)
      → files_delete_batch admin s post mounted fs rs created job ≡ some (job', started n)
      → K fs'
      → ((authorize admin s post.token post.now).1 ≡ true)
        × (mounted ≡ true)
        × (job'' : Job) × (end : Fs) × (delete_task api mounted' fs' job' ≡ some (job'', end))
        × K end
  files_delete_batch-Spares K admin s post mounted mounted' fs fs' rs created job job' n active
        named keeps e k =
      let p = passed admin s post mounted fs rs created job job' n e in
      let st = start_batch-started mounted fs rs created job job' n (wanted_paths post.body) p.2 in
      let sp =
        start-Spares api K mounted mounted' fs fs' rs created job job' st.0 active named keeps st.1
          k in
      (p.0, p.1, sp.0, sp.1, sp.2, sp.3)
