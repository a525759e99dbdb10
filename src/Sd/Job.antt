-- ===== src/Sd/Job.antt =====
-- The one deletion job of main/sd_delete.cpp, and `delete_entry` of main/sd_manager.cpp.
use gps_base_station.Prelude.{
  ℕ, ◌+◌, List, [], ◌∷◌, Option, none, some, Bool, true, false, not, ◌&&◌, ◌||◌, ltb, ◌==◌,
  if◌then◌else◌, length, get_elem?, starts_with,
}
use gps_base_station.Nvs.{same}
use gps_base_station.Sd.{
  PathText, DeleteGuard, allowed, bad_path, mount_root, managed_dir, check_deletable, Entry,
  directory, file, FsApi, DeleteResult, no_result, u32,
}
use gps_base_station.Sd.Walk.{Walk, delete_paths}
use gps_base_station.Sd.Preview.{DeletePreview, preview_delete_many}

abbrev pub is_allowed : DeleteGuard → Bool
is_allowed allowed = true
is_allowed bad_path = false
is_allowed mount_root = false
is_allowed managed_dir = false

-- `RinexLogger::Status`, as far as it is asked.
pub record Logging : Type 0 where
  pub active : Bool
  pub current_file : PathText

abbrev pub is_slash : Option ℕ → Bool
is_slash none = false
is_slash (some c) = c == 47

unfoldable pub covers : PathText → PathText → Bool
covers active_file p =
    same active_file p
    || (ltb (length p) (length active_file)
        && starts_with active_file p
        && is_slash (get_elem? active_file (length p)))

unfoldable pub any_covers : PathText → List (Option PathText) → Bool
unfolding covers
any_covers active_file [] = false
any_covers active_file (none ∷ paths) = any_covers active_file paths
any_covers active_file (some p ∷ paths) = covers active_file p || any_covers active_file paths

unfoldable pub blocks_active_file : Logging → List (Option PathText) → Bool
unfolding any_covers
blocks_active_file rs paths =
    rs.active && ltb 0 (length rs.current_file) && any_covers rs.current_file paths

pub data State : Type 0 where
  idle running done_ok done_fail : State

pub record Job : Type 0 where
  pub state : State
  pub done : ℕ
  pub total : ℕ
  pub result : DeleteResult
  pub paths : List (Option PathText)

unfoldable pub busy : Job → Bool
busy job = elim job.state [ running ↦ true | idle ↦ false | done_ok ↦ false | done_fail ↦ false ]

unfoldable pub copied : List (Option PathText) → List (Option PathText)
copied [] = []
copied (none ∷ paths) = copied paths
copied (some p ∷ paths) = some p ∷ copied paths

module _ (api : FsApi) where
  open api use {Fs, stat, unlink, rmdir}

  -- `some` says whether the job was started; `created` is what `xTaskCreate` says.
  unfoldable pub launch : Job → List (Option PathText) → Bool → DeletePreview → Job × Bool
  launch job paths created pv =
      let job' : Job = record {
        state = if created then running else idle;
        done = 0;
        total = u32 (pv.files + pv.dirs);
        result = no_result 0;
        paths = paths;
      } in
      (job', created)

  unfoldable pub launch_previewed :
      Job → List (Option PathText) → Bool → Option DeletePreview → Option (Job × Bool)
  unfolding launch
  launch_previewed job paths created none = none
  launch_previewed job paths created (some pv) = some (launch job paths created pv)

  unfoldable pub start :
      Bool → Fs → Logging → Bool → Job → List (Option PathText) → Option (Job × Bool)
  unfolding busy blocks_active_file copied launch_previewed preview_delete_many
  start mounted fs rs created job paths =
      if not mounted || busy job || blocks_active_file rs paths
      then some (job, false)
      else if length (copied paths) == 0
      then some (record job { paths = [] }, false)
      else launch_previewed job (copied paths) created (preview_delete_many api mounted fs paths)

  abbrev pub done_of : Option ℕ → ℕ
  done_of none = 0
  done_of (some n) = n

  unfoldable pub finish : Job → Walk Fs → Job
  finish job w = record job {
    state = if ltb 0 w.res.failed then done_fail else done_ok;
    done = done_of w.progress;
    result = w.res;
  }

  unfoldable pub finished : Job → Option (Walk Fs) → Option (Job × Fs)
  unfolding finish
  finished job none = none
  finished job (some w) = some (finish job w, w.fs)

  -- The task of a running job, from its start to its end.
  unfoldable pub delete_task : Bool → Fs → Job → Option (Job × Fs)
  unfolding finished delete_paths
  delete_task mounted fs job = finished job (delete_paths api mounted fs job.paths (some job.done))

  -- `poll`: the result is told once the job is done.
  unfoldable pub poll : Job → State × ℕ × ℕ × Option DeleteResult
  poll job = elim job.state [
    | idle ↦ (idle, job.done, job.total, none)
    | running ↦ (running, job.done, job.total, none)
    | done_ok ↦ (done_ok, job.done, job.total, some job.result)
    | done_fail ↦ (done_fail, job.done, job.total, some job.result)
  ]

  unfoldable pub delete_found : Fs → PathText → Option Entry → Fs × Bool
  delete_found fs path none = (fs, false)
  delete_found fs path (some directory) = rmdir fs path
  delete_found fs path (some (file size)) = unlink fs path

  unfoldable pub delete_entry : Bool → Fs → Option PathText → Fs × Bool
  unfolding delete_found
  delete_entry mounted fs none = (fs, false)
  delete_entry mounted fs (some path) =
      if mounted && is_allowed (check_deletable (some path))
      then delete_found fs path (stat fs path)
      else (fs, false)
